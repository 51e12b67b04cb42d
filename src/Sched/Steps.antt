-- ===== src/Sched/Steps.antt =====
-- The scheduler as a transition system. A step is what one CPU does between taking the lock g_sched
-- and giving it back or switching to another thread: no other CPU comes in between.
use can_boot.Common.{ℕ, ◌+◌, ◌<◌, ◌≡◌, ◌⊎◌, Bool, true, false, none, some, List, [], ◌∷◌}
use can_boot.Sched.{
  Frame, resumed, take_gil, join_thread, lock_mutex, park, Sched, pool_size, current_of, finish,
  add_frame,
}
use can_boot.Sched.Calls.{
  run_take_gil, gil_release, yield, idle_round, set_preemption, preempt_disable, preempt_enable,
  on_tick, mutex_trylock, run_lock_mutex, mutex_unlock, cond_wait, run_park, pthread_join,
  cond_signal, cond_broadcast,
}
use can_boot.Sched.Threads.{create, detach, exit, run_join, init, ap_online}

-- The thread that a CPU goes on with does what is left of its call.
unfoldable pub run_frame : Frame → ℕ → Sched → Sched
run_frame resumed c s = finish c s
run_frame take_gil c s = run_take_gil c s
run_frame (join_thread t) c s = run_join t c s
run_frame (lock_mutex m) c s = run_lock_mutex m c s
run_frame (park v m) c s = run_park v m c s

-- What a thread may call.
pub data Call : Type 0 where
  gil_acquires gil_releases yields disables enables : Call
  prefers : Bool → Call
  creates : ℕ → ℕ → Call
  detaches : ℕ → Call
  exits : ℕ → Call
  joins : ℕ → Call
  tries_lock locks unlocks : ℕ → Call
  waits : ℕ → ℕ → Call
  signals broadcasts : ℕ → Call

unfoldable pub call : Call → ℕ → Sched → Sched
call gil_acquires c s = add_frame (current_of c s) take_gil s
call gil_releases c s = gil_release s
call yields c s = yield c s
call disables c s = preempt_disable c s
call enables c s = preempt_enable c s
call (prefers enabled) c s = set_preemption enabled s
call (creates fn arg) c s = (create fn arg s).1
call (detaches t) c s = detach t s
call (exits v) c s = exit v c s
call (joins t) c s = pthread_join t c s
call (tries_lock m) c s = (mutex_trylock m c s).1
call (locks m) c s = add_frame (current_of c s) (lock_mutex m) s
call (unlocks m) c s = mutex_unlock m s
call (waits v m) c s = cond_wait v m c s
call (signals v) c s = cond_signal v s
call (broadcasts v) c s = cond_broadcast v s

-- A thread that is named in a call belongs to the pool.
abbrev pub IsValid : Call → Type 0
IsValid (detaches t) = t < pool_size
IsValid (joins t) = t < pool_size
IsValid _ = Unit

abbrev pub todo_of : ℕ → Sched → List Frame
todo_of c s = (s.threads (current_of c s)).todo

-- A CPU goes on where its current thread was switched out; the idle thread waits for nothing.
-- The lock is free, or it was left to this CPU by a switch.
abbrev pub MayRun : ℕ → Sched → Type 0
MayRun c s = (s.holder ≡ none) ⊎ (s.holder ≡ some c)

pub data Step (s : Sched) : Sched → Type 0 where
  calls :
      (c : ℕ) (k : Call)
      → (s.cpus c).online ≡ true
      → s.holder ≡ none
      → current_of c s < pool_size
      → todo_of c s ≡ []
      → IsValid k
      → Step s (call k c s)
  goes_on :
      (c : ℕ) (f : Frame) (fs : List Frame)
      → (s.cpus c).online ≡ true
      → MayRun c s
      → todo_of c s ≡ f ∷ fs
      → (current_of c s < pool_size) ⊎ (f ≡ resumed)
      → Step s (run_frame f c s)
  idles :
      (c : ℕ)
      → (s.cpus c).online ≡ true
      → s.holder ≡ none
      → current_of c s ≡ 16 + c
      → todo_of c s ≡ []
      → Step s (idle_round c s)
  ticks : (c : ℕ) → (s.cpus c).online ≡ true → s.holder ≡ none → Step s (on_tick c s)
  comes_online : (c : ℕ) → (s.cpus c).online ≡ false → s.holder ≡ none → Step s (ap_online c s)

pub data Reach : Sched → Type 0 where
  start : Reach init
  later : {s t : Sched} → Reach s → Step s t → Reach t
