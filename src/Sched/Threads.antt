-- ===== src/Sched/Threads.antt =====
-- rt/sched/sched.c: the life of a thread, and the start of the scheduler.
use can_boot.Common.{
  ℕ, zero, suc, ◌+◌, ◌-◌, Bool, true, false, ◌&&◌, ◌||◌, Option, none, some, [], ◌∷◌, ltb, ◌==◌,
  if◌then◌else◌,
}
use can_boot.Sched.{
  ThreadState, free, runnable, running, exited, resumed, WaitQueue, Thread, Sched, pool_size,
  run_queue, join_queue, set_at, set_state, set_thread, set_cpu, push, current_of, reschedule,
  block_on, wake_all, finish,
}

abbrev pub is_free : ThreadState → Bool
is_free free = true
is_free _ = false

abbrev pub is_exited : ThreadState → Bool
is_exited exited = true
is_exited _ = false

-- The first of the `n` slots from `i` on that is free.
unfoldable pub free_slot : (ℕ → ThreadState) → ℕ → ℕ → Option ℕ
free_slot state i zero = none
free_slot state i (suc n) =
    let rest = free_slot state (i + 1) n in if is_free (state i) then some i else rest

abbrev pub fresh_thread : ℕ → ℕ → Thread
fresh_thread fn arg = record {
  entry = fn;
  arg = arg;
  retval = 0;
  detached = false;
  last_cpu = 0;
  joined = 0;
  todo = resumed ∷ [];
}

abbrev pub empty_queue : WaitQueue
empty_queue = record { head = none; tail = none }

-- The slot after `memset` and the assignments: its queue of joiners is emptied without a look.
abbrev pub cleared : ℕ → ℕ → ℕ → Sched → Sched
cleared t fn arg s = record s {
  state = set_at s.state t runnable;
  next = set_at s.next t none;
  threads = set_at s.threads t (fresh_thread fn arg);
  queues = set_at s.queues (join_queue t) empty_queue;
}

abbrev create_at : Option ℕ → ℕ → ℕ → Sched → Option ℕ × Sched
create_at none fn arg s = (none, s)
create_at (some t) fn arg s = (some t, push run_queue t (cleared t fn arg s))

-- `canboot_thread_create`: `none` where the pool is used up. Slot 0 is the boot thread's.
unfoldable pub create : ℕ → ℕ → Sched → Option ℕ × Sched
create fn arg s = create_at (free_slot s.state 1 (pool_size - 1)) fn arg s

-- `canboot_thread_detach`
unfoldable pub detach : ℕ → Sched → Sched
detach t s =
    if is_exited (s.state t)
    then set_state t free s
    else set_thread t (record (s.threads t) { detached = true }) s

-- `canboot_thread_exit`
unfoldable pub exit : ℕ → ℕ → Sched → Sched
exit retval c s =
    let self = current_of c s in
    let th = s.threads self in
    let woken =
      wake_all (join_queue self) (set_thread self (record th { retval = retval; todo = [] }) s) in
    reschedule c (set_state self (if th.detached && ltb self pool_size then free else exited) woken)

-- The loop of `canboot_thread_join`. A thread of the pool is reaped.
unfoldable pub run_join : ℕ → ℕ → Sched → Sched
run_join t c s =
    let self = current_of c s in
    let th = s.threads self in
    let stored = set_thread self (record th { joined = (s.threads t).retval }) s in
    if is_exited (s.state t) || is_free (s.state t)
    then finish c (if ltb t pool_size then set_state t free stored else stored)
    else block_on (join_queue t) c s

abbrev zero_thread : Thread
zero_thread = record (fresh_thread 0 0) { todo = [] }

abbrev waiting_thread : Thread
waiting_thread = fresh_thread 0 0

-- `canboot_sched_init`: thread 0 runs on CPU 0 and has the lock of the VM. A CPU that is not online
-- has no current thread; 0 stands there.
unfoldable pub init : Sched
init = record {
  state = λ t. if t == 0 then running else (if t == 16 then runnable else free);
  next = λ t. none;
  threads = λ t. if t == 16 then waiting_thread else zero_thread;
  queues = λ q. empty_queue;
  cpus = λ c. record {
    current = 0;
    idle = 16 + c;
    preempt_count = 0;
    need_resched = false;
    online = c == 0;
  };
  mutexes = λ m. record { locked = false; owner = none };
  gil_locked = true;
  gil_owner = some 0;
  preempt_enabled = false;
  ticks = 0;
  holder = none;
}

-- `canboot_sched_ap_online`, up to the idle loop.
unfoldable pub ap_online : ℕ → Sched → Sched
ap_online c s =
    set_state (16 + c) running
      (set_cpu c (record (s.cpus c) { current = 16 + c; idle = 16 + c; online = true }) s)
