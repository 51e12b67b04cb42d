-- ===== src/Sched.antt =====
-- The scheduler of rt/sched/sched.c: its state, its queues and the switch to another thread.
-- A thread is a number: below 16 an index of the pool, and 16 + c for the idle thread of CPU c. A
-- wait queue is a number, as it is an address in C. The fields `state` and `q_next` of the threads
-- are functions of their own; stack, saved registers and thread-local block are left out.
-- `holder` is the CPU that has the lock g_sched. A thread that is switched out goes on later in the
-- midst of a call: `todo` lists what it has still to do there.
pub mod Calls
pub mod Threads
pub mod Steps
pub mod Chain
pub mod Inv
pub mod Moves
pub mod Wakes
pub mod Reschedule
pub mod Safety
pub mod Fairness
pub mod Turns
pub mod Creation
use can_boot.Common.{
  ℕ, zero, suc, ◌+◌, ◌-◌, ◌*◌, ◌/◌, ◌%◌, ◌^◌, ◌≤◌, ◌<◌, min, ◌≡◌, refl, sym, ap, ap₂, ◌∙◌, fun_ext,
  ◌≢◌, ◌↔◌, ◌⊎◌, inl, inr, Bool, true, false, not, ◌&&◌, ◌||◌, Option, none, some, List, [], ◌∷◌,
  ◌++◌, map, append-nil, append_assoc, arith, dec_lt, dec_le, ℕ_discrete, ltb, leb, ◌==◌,
  if◌then◌else◌, ltb→lt, lt→ltb, le→ltb, ltb→le, ==→eq, ==→ne, eq→==, ne→==, Bool-cases, u8, u16,
  u32, u64, length, get_or, set, take, drop, replicate, All, length-append, length-set,
  get_or-set_self, get_or-set_ne, length-take, length-drop, length-replicate, take_all,
  take-append-drop, take-length-append, drop-length-append, All-append, same_bytes, same_bytes→eq,
  same_bytes_self, contains, get_or-take, get_or-drop, take-get_or-drop, take-take, All-of_index,
}

pub data ThreadState : Type 0 where
  free new runnable running blocked exited : ThreadState

-- The rest of a call that a thread was switched out of: nothing but to give back the lock, or the
-- loop of `canboot_gil_acquire`, of `canboot_thread_join`, or that of a mutex; or to park on a condition variable.
pub data Frame : Type 0 where
  resumed : Frame
  take_gil : Frame
  join_thread : ℕ → Frame
  lock_mutex : ℕ → Frame
  park : ℕ → ℕ → Frame

-- `struct canboot_wait_queue`, and the run queue.
pub record WaitQueue : Type 0 where
  pub head : Option ℕ
  pub tail : Option ℕ

-- What else there is of `struct canboot_thread`; `joined` is what the thread's last join stored.
pub record Thread : Type 0 where
  pub entry : ℕ
  pub arg : ℕ
  pub retval : ℕ
  pub detached : Bool
  pub last_cpu : ℕ
  pub joined : ℕ
  pub todo : List Frame

-- `struct canboot_cpu`
pub record Cpu : Type 0 where
  pub current : ℕ
  pub idle : ℕ
  pub preempt_count : ℕ
  pub need_resched : Bool
  pub online : Bool

-- `pthread_mutex_t`: its owner is `none` for -1.
pub record Mutex : Type 0 where
  pub locked : Bool
  pub owner : Option ℕ

pub record Sched : Type 0 where
  pub state : ℕ → ThreadState
  pub next : ℕ → Option ℕ
  pub threads : ℕ → Thread
  pub queues : ℕ → WaitQueue
  pub cpus : ℕ → Cpu
  pub mutexes : ℕ → Mutex
  pub gil_locked : Bool
  pub gil_owner : Option ℕ
  pub preempt_enabled : Bool
  pub ticks : ℕ
  pub holder : Option ℕ

-- CANBOOT_THREAD_POOL
abbrev pub pool_size : ℕ
pool_size = 16

abbrev pub run_queue : ℕ
run_queue = 0

abbrev pub gil_queue : ℕ
gil_queue = 1

-- `&t->join_q`
abbrev pub join_queue : ℕ → ℕ
join_queue t = 2 + t

-- The queue of a mutex and of a condition variable.
abbrev pub mutex_queue : ℕ → ℕ
mutex_queue m = 100 + 2 * m

abbrev pub cond_queue : ℕ → ℕ
cond_queue v = 101 + 2 * v

abbrev pub set_at {ℓ} : {A : Type ℓ} → (ℕ → A) → ℕ → A → ℕ → A
set_at f i a k = if k == i then a else f k

abbrev pub set_state : ℕ → ThreadState → Sched → Sched
set_state t st s = record s { state = set_at s.state t st }

abbrev pub set_thread : ℕ → Thread → Sched → Sched
set_thread t th s = record s { threads = set_at s.threads t th }

abbrev pub set_cpu : ℕ → Cpu → Sched → Sched
set_cpu c cpu s = record s { cpus = set_at s.cpus c cpu }

-- The links and the queue after a push behind what `tail` says.
abbrev pub links_after : Option ℕ → ℕ → (ℕ → Option ℕ) → ℕ → Option ℕ
links_after none t next = set_at next t none
links_after (some last) t next = set_at (set_at next t none) last (some t)

abbrev pub queue_after : Option ℕ → ℕ → WaitQueue → WaitQueue
queue_after none t w = record { head = some t; tail = some t }
queue_after (some last) t w = record { head = w.head; tail = some t }

-- `rq_push` and `wq_push`
unfoldable pub push : ℕ → ℕ → Sched → Sched
push q t s =
    let w = s.queues q in
    record s {
      next = links_after w.tail t s.next;
      queues = set_at s.queues q (queue_after w.tail t w);
    }

abbrev pub tail_after : Option ℕ → Option ℕ → Option ℕ
tail_after none tail = none
tail_after (some t) tail = tail

abbrev pub pop_head : ℕ → Option ℕ → Sched → Option ℕ × Sched
pop_head q none s = (none, s)
pop_head q (some t) s = (
  some t,
  record s {
    next = set_at s.next t none;
    queues =
        set_at s.queues q
          (record { head = s.next t; tail = tail_after (s.next t) (s.queues q).tail });
  },
)

-- `rq_pop` and `wq_pop`
unfoldable pub pop : ℕ → Sched → Option ℕ × Sched
pop q s = pop_head q (s.queues q).head s

abbrev pub current_of : ℕ → Sched → ℕ
current_of c s = (s.cpus c).current

abbrev pub or_idle : Option ℕ → ℕ → ℕ
or_idle none idle = idle
or_idle (some t) idle = t

-- CPU `c` goes on with thread `t`.
unfoldable pub switch_to : ℕ → ℕ → Sched → Sched
switch_to c t s =
    let runs = set_state t running s in
    let moved = set_thread t (record (s.threads t) { last_cpu = c }) runs in
    if t == current_of c s then runs else set_cpu c (record (s.cpus c) { current = t }) moved

-- `reschedule`: the lock stays with the CPU, for the thread that goes on.
unfoldable pub reschedule : ℕ → Sched → Sched
reschedule c s =
    let popped = pop run_queue s in
    switch_to c (or_idle popped.0 (s.cpus c).idle) (record popped.1 { holder = some c })

abbrev pub add_frame : ℕ → Frame → Sched → Sched
add_frame t f s = set_thread t (record (s.threads t) { todo = f ∷ (s.threads t).todo }) s

-- `canboot_sched_block_on`. Where it returns, the caller's loop goes on.
unfoldable pub block_on : ℕ → ℕ → Sched → Sched
block_on q c s = let self = current_of c s in reschedule c (push q self (set_state self blocked s))

abbrev pub make_runnable : Option ℕ × Sched → Sched
make_runnable (none, s) = s
make_runnable (some t, s) = push run_queue t (set_state t runnable s)

-- `canboot_sched_wake_one`
unfoldable pub wake_one : ℕ → Sched → Sched
wake_one q s = make_runnable (pop q s)

abbrev pub is_some : Option ℕ → Bool
is_some none = false
is_some (some t) = true

-- `canboot_sched_wake_all`, in at most `n` rounds.
unfoldable pub wake_up_to : ℕ → ℕ → Sched → Sched
wake_up_to zero q s = s
wake_up_to (suc n) q s =
    let again = wake_up_to n q (wake_one q s) in if is_some (pop q s).0 then again else s

-- No queue is longer than the pool.
abbrev pub wake_all : ℕ → Sched → Sched
wake_all q s = wake_up_to pool_size q s

-- `canboot_sched_unlock`
abbrev pub unlock : Sched → Sched
unlock s = record s { holder = none }

-- The current thread's call is over: it drops the frame and gives back the lock.
abbrev pub finish : ℕ → Sched → Sched
finish c s =
    let self = current_of c s in
    let th = s.threads self in unlock (set_thread self (record th { todo = drop 1 th.todo }) s)
