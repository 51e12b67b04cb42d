-- ===== src/Sched/Safety.antt =====
-- Every reachable state of the scheduler is consistent.
pub mod Base
pub mod InCalls
pub mod InThreads
use can_boot.Common.{
  ℕ, zero, suc, ◌+◌, ◌-◌, ◌*◌, ◌/◌, ◌%◌, ◌^◌, ◌≤◌, ◌<◌, min, ◌≡◌, refl, sym, ap, ap₂, ◌∙◌, fun_ext,
  ◌≢◌, ◌↔◌, ◌⊎◌, inl, inr, Bool, true, false, not, ◌&&◌, ◌||◌, Option, none, some, List, [], ◌∷◌,
  ◌++◌, map, append-nil, append_assoc, arith, dec_lt, dec_le, ℕ_discrete, ltb, leb, ◌==◌,
  if◌then◌else◌, ltb→lt, lt→ltb, le→ltb, ltb→le, ==→eq, ==→ne, eq→==, ne→==, Bool-cases, u8, u16,
  u32, u64, length, get_or, set, take, drop, replicate, All, length-append, length-set,
  get_or-set_self, get_or-set_ne, length-take, length-drop, length-replicate, take_all,
  take-append-drop, take-length-append, drop-length-append, All-append, same_bytes, same_bytes→eq,
  same_bytes_self, contains, get_or-take, get_or-drop, take-get_or-drop, take-take, All-of_index,
}
use can_boot.Sched.{
  ThreadState, runnable, running, blocked, Frame, resumed, take_gil, join_thread, lock_mutex, park,
  Sched, pool_size, run_queue, current_of,
}
use can_boot.Sched.Inv.{IsConsistent}
use can_boot.Sched.Steps.{
  Call, gil_acquires, gil_releases, yields, disables, enables, prefers, creates, detaches, exits,
  joins, tries_lock, locks, unlocks, waits, signals, broadcasts, IsValid, call, run_frame, Step,
  calls, goes_on, idles, ticks, comes_online, Reach, start, later,
}
use can_boot.Sched.Calls.{set_preemption}
use Base.{IsConsistent-frame, IsConsistent-finish, IsConsistent-add_frame}
use InCalls.{
  gil_release-IsConsistent, mutex_unlock-IsConsistent, cond_signal-IsConsistent,
  cond_broadcast-IsConsistent, mutex_trylock-IsConsistent, cond_wait-IsConsistent,
  pthread_join-IsConsistent, idle_round-IsConsistent, preempt_disable-IsConsistent,
  run_take_gil-IsConsistent, run_lock_mutex-IsConsistent, yield-IsConsistent, run_park-IsConsistent,
  on_tick-IsConsistent, preempt_enable-IsConsistent,
}
use InThreads.{
  create-IsConsistent, detach-IsConsistent, exit-IsConsistent, run_join-IsConsistent,
  ap_online-IsConsistent, init-IsConsistent,
}

set_preemption-IsConsistent :
    (b : Bool) (s : Sched) → IsConsistent s → IsConsistent (set_preemption b s)
unfolding set_preemption
set_preemption-IsConsistent b s k = IsConsistent-frame s _ refl refl refl refl k

module _ (c : ℕ) (s : Sched) (k : IsConsistent s) (on : (s.cpus c).online ≡ true) where
  call-IsConsistent :
      (l : Call) → IsValid l → current_of c s < pool_size → IsConsistent (call l c s)
  unfolding call
  call-IsConsistent gil_acquires v small = IsConsistent-add_frame (current_of c s) take_gil s k
  call-IsConsistent gil_releases v small = gil_release-IsConsistent s k
  call-IsConsistent yields v small = yield-IsConsistent c s k on small
  call-IsConsistent disables v small = preempt_disable-IsConsistent c s k on
  call-IsConsistent enables v small = preempt_enable-IsConsistent c s k on small
  call-IsConsistent (prefers b) v small = set_preemption-IsConsistent b s k
  call-IsConsistent (creates fn arg) v small = create-IsConsistent fn arg s k
  call-IsConsistent (detaches t) v small = detach-IsConsistent t s k v
  call-IsConsistent (exits r) v small = exit-IsConsistent c s k on small r
  call-IsConsistent (joins t) v small = pthread_join-IsConsistent t c s k
  call-IsConsistent (tries_lock m) v small = mutex_trylock-IsConsistent m c s k
  call-IsConsistent (locks m) v small = IsConsistent-add_frame (current_of c s) (lock_mutex m) s k
  call-IsConsistent (unlocks m) v small = mutex_unlock-IsConsistent m s k
  call-IsConsistent (waits w m) v small = cond_wait-IsConsistent w m c s k
  call-IsConsistent (signals w) v small = cond_signal-IsConsistent w s k
  call-IsConsistent (broadcasts w) v small = cond_broadcast-IsConsistent w s k

  run_frame-IsConsistent :
      (f : Frame) → (current_of c s < pool_size) ⊎ (f ≡ resumed) → IsConsistent (run_frame f c s)
  unfolding run_frame
  run_frame-IsConsistent resumed fits = IsConsistent-finish c s k
  run_frame-IsConsistent take_gil (inl small) = run_take_gil-IsConsistent c s k on small
  run_frame-IsConsistent (join_thread t) (inl small) = run_join-IsConsistent c s k on small t
  run_frame-IsConsistent (lock_mutex m) (inl small) = run_lock_mutex-IsConsistent c s k on small m
  run_frame-IsConsistent (park v m) (inl small) = run_park-IsConsistent c s k on small v m
  run_frame-IsConsistent take_gil (inr other) = absurd (cc)
  run_frame-IsConsistent (join_thread t) (inr other) = absurd (cc)
  run_frame-IsConsistent (lock_mutex m) (inr other) = absurd (cc)
  run_frame-IsConsistent (park v m) (inr other) = absurd (cc)

-- A step of any CPU, whatever it is, takes a consistent state to a consistent one.
pub Step-IsConsistent : {s t : Sched} → Step s t → IsConsistent s → IsConsistent t
Step-IsConsistent {s} (calls c l on idle small done valid) k =
    call-IsConsistent c s k on l valid small
Step-IsConsistent {s} (goes_on c f fs on may at fits) k = run_frame-IsConsistent c s k on f fits
Step-IsConsistent {s} (idles c on free_lock is_idle done) k =
    idle_round-IsConsistent c s k on is_idle
Step-IsConsistent {s} (ticks c on free_lock) k = on_tick-IsConsistent c s k on
Step-IsConsistent {s} (comes_online c off free_lock) k = ap_online-IsConsistent c s k off

-- In every state that the scheduler can reach from its start, by any calls on any CPUs in any order
-- and with timer ticks in between, the queues are well formed and share no thread; the runnable
-- threads of the pool are exactly those in the run queue, each blocked one waits in one queue, each
-- running one runs on one CPU, and nobody waits for a thread that has ended.
pub Reach-IsConsistent : {s : Sched} → Reach s → IsConsistent s
Reach-IsConsistent start = init-IsConsistent
Reach-IsConsistent (later r st) = Step-IsConsistent st (Reach-IsConsistent r)
