-- ===== src/Sched/Calls.antt =====
-- rt/sched/sched.c: what threads call to give up the CPU, the lock of the script VM, and the timer;
-- rt/pthread_stub/pthread.c: mutexes and condition variables. `c` is the CPU that the calling
-- thread runs on.
use can_boot.Common.{
  ℕ, ◌+◌, ◌-◌, Bool, true, false, not, ◌&&◌, Option, none, some, ◌∷◌, ◌==◌, if◌then◌else◌, u32, u64,
  drop,
}
use can_boot.Sched.{
  ThreadState, runnable, running, resumed, take_gil, join_thread, lock_mutex, park, Mutex, Sched,
  run_queue, gil_queue, mutex_queue, cond_queue, set_at, set_state, set_thread, set_cpu, push,
  current_of, reschedule, add_frame, block_on, wake_one, is_some, wake_all, unlock, finish,
}

abbrev pub is_thread : Option ℕ → ℕ → Bool
is_thread none t = false
is_thread (some u) t = u == t

-- The loop of `canboot_gil_acquire`; the frame stays while the thread waits.
unfoldable pub run_take_gil : ℕ → Sched → Sched
run_take_gil c s =
    let self = current_of c s in
    if s.gil_locked && not (is_thread s.gil_owner self)
    then block_on gil_queue c s
    else finish c (record s { gil_locked = true; gil_owner = some self })

unfoldable pub gil_release : Sched → Sched
gil_release s = unlock (wake_one gil_queue (record s { gil_locked = false; gil_owner = none }))

unfoldable pub gil_owned_by_current : ℕ → Sched → Bool
gil_owned_by_current c s = s.gil_locked && is_thread s.gil_owner (current_of c s)

abbrev pub is_running : ThreadState → Bool
is_running running = true
is_running _ = false

-- `canboot_sched_yield`
unfoldable pub yield : ℕ → Sched → Sched
yield c s =
    let self = current_of c s in
    let s' = add_frame self resumed s in
    reschedule c
      (if is_running (s.state self) then push run_queue self (set_state self runnable s') else s')

-- A round of the loop in `idle_entry`.
unfoldable pub idle_round : ℕ → Sched → Sched
idle_round c s = reschedule c (add_frame (current_of c s) resumed s)

unfoldable pub set_preemption : Bool → Sched → Sched
set_preemption enabled s = record s { preempt_enabled = enabled }

unfoldable pub preempt_disable : ℕ → Sched → Sched
preempt_disable c s =
    set_cpu c (record (s.cpus c) { preempt_count = u32 ((s.cpus c).preempt_count + 1) }) s

unfoldable pub preempt_enable : ℕ → Sched → Sched
preempt_enable c s =
    let n = (s.cpus c).preempt_count - 1 in
    let s' = set_cpu c (record (s.cpus c) { preempt_count = n }) s in
    if n == 0 && (s.cpus c).need_resched then yield c s' else s'

-- `canboot_sched_preempt`: the idle thread is never put into the run queue.
unfoldable pub preempt : ℕ → Sched → Sched
preempt c s =
    let self = current_of c s in
    let s' = set_cpu c (record (s.cpus c) { need_resched = false }) s in
    let parked = add_frame self resumed s' in
    let round_robin = is_running (s.state self) && not (self == (s.cpus c).idle) in
    let switched =
      reschedule c
        (if round_robin then push run_queue self (set_state self runnable parked) else parked) in
    if is_some (s.queues run_queue).head then switched else s'

-- `canboot_sched_on_tick`
unfoldable pub on_tick : ℕ → Sched → Sched
on_tick c s =
    let s' = record s { ticks = u64 (s.ticks + 1) } in
    let deferred = set_cpu c (record (s.cpus c) { need_resched = true }) s' in
    let preempted = preempt c s' in
    if s.preempt_enabled
    then (if (s.cpus c).preempt_count == 0 then preempted else deferred)
    else s'

abbrev taken_by : ℕ → Sched → Mutex
taken_by c s = record { locked = true; owner = some (current_of c s) }

-- `pthread_mutex_trylock`: true for 0, false for EBUSY.
unfoldable pub mutex_trylock : ℕ → ℕ → Sched → Bool × Sched
mutex_trylock m c s =
    let taken = taken_by c s in
    if (s.mutexes m).locked
    then (false, s)
    else (true, record s { mutexes = set_at s.mutexes m taken })

-- The loop of `pthread_mutex_lock`.
unfoldable pub run_lock_mutex : ℕ → ℕ → Sched → Sched
run_lock_mutex m c s =
    let taken = taken_by c s in
    if (s.mutexes m).locked
    then block_on (mutex_queue m) c s
    else finish c (record s { mutexes = set_at s.mutexes m taken })

abbrev pub unlocked : ℕ → Sched → Sched
unlocked m s = record s { mutexes = set_at s.mutexes m (record { locked = false; owner = none }) }

unfoldable pub mutex_unlock : ℕ → Sched → Sched
mutex_unlock m s = unlock (wake_one (mutex_queue m) (unlocked m s))

-- `pthread_cond_wait`: the lock of the VM is released first, if the caller has it. What is left is to
-- park, to take that lock again, and then the mutex.
unfoldable pub cond_wait : ℕ → ℕ → ℕ → Sched → Sched
cond_wait v m c s =
    let self = current_of c s in
    let locks = add_frame self (lock_mutex m) s in
    let without = add_frame self (park v m) locks in
    let released = gil_release (add_frame self (park v m) (add_frame self take_gil locks)) in
    if gil_owned_by_current c s then released else without

-- The middle of `pthread_cond_wait`: under one lock, the mutex is released and the thread parked.
unfoldable pub run_park : ℕ → ℕ → ℕ → Sched → Sched
run_park v m c s =
    let self = current_of c s in
    let th = s.threads self in
    let rest = set_thread self (record th { todo = resumed ∷ drop 1 th.todo }) s in
    block_on (cond_queue v) c (wake_one (mutex_queue m) (unlocked m rest))

-- `pthread_join`, up to the loop of `canboot_thread_join`.
unfoldable pub pthread_join : ℕ → ℕ → Sched → Sched
pthread_join t c s =
    let self = current_of c s in
    let without = add_frame self (join_thread t) s in
    let released = gil_release (add_frame self (join_thread t) (add_frame self take_gil s)) in
    if gil_owned_by_current c s then released else without

unfoldable pub cond_signal : ℕ → Sched → Sched
cond_signal v s = unlock (wake_one (cond_queue v) s)

unfoldable pub cond_broadcast : ℕ → Sched → Sched
cond_broadcast v s = unlock (wake_all (cond_queue v) s)
