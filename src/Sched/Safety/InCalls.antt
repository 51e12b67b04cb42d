-- ===== src/Sched/Safety/InCalls.antt =====
-- The calls of Sched/Calls keep the state consistent.
use can_boot.Common.{
  ℕ, ◌+◌, ◌-◌, ◌<◌, ◌≡◌, refl, sym, ap, ◌∙◌, ◌⊎◌, inl, inr, Bool, true, false, not, ◌&&◌, none, ◌∷◌,
  arith, ◌==◌, if◌then◌else◌, eq→==, ne→==, Bool-cases, u64, drop,
}
use mathlib.Core.Path.{subst}
use can_boot.Sched.{
  runnable, resumed, Cpu, Sched, pool_size, run_queue, gil_queue, mutex_queue, cond_queue,
  current_of, set_state, set_thread, set_cpu, push, reschedule, add_frame, wake_one, is_some,
  unlock,
}
use can_boot.Sched.Calls.{
  is_thread, is_running, run_take_gil, gil_release, gil_owned_by_current, yield, idle_round,
  preempt_disable, preempt_enable, preempt, on_tick, mutex_trylock, run_lock_mutex, mutex_unlock,
  unlocked, cond_wait, run_park, pthread_join, cond_signal, cond_broadcast,
}
use can_boot.Sched.Inv.{IsConsistent}
use can_boot.Sched.Chain.{set_at_self}
use can_boot.Sched.Safety.Base.{
  IsConsistent-frame, IsConsistent-set_cpu, IsConsistent-wake_one, IsConsistent-wake_all,
  current_running, park-IsOff, idle-IsOff, reschedule-IsConsistent, block_on-IsConsistent,
  IsConsistent-add_frame,
}

IsConsistent-unlock : (s : Sched) → IsConsistent s → IsConsistent (unlock s)
IsConsistent-unlock s k = IsConsistent-frame s _ refl refl refl refl k

pub gil_release-IsConsistent : (s : Sched) → IsConsistent s → IsConsistent (gil_release s)
unfolding gil_release
gil_release-IsConsistent s k =
    let given : Sched = record s { gil_locked = false; gil_owner = none } in
    let (woken, rest) =
      IsConsistent-wake_one gil_queue given (omega arith)
        (IsConsistent-frame s given refl refl refl refl k) in
    IsConsistent-unlock (wake_one gil_queue given) woken

pub mutex_unlock-IsConsistent :
    (m : ℕ) (s : Sched) → IsConsistent s → IsConsistent (mutex_unlock m s)
unfolding mutex_unlock
mutex_unlock-IsConsistent m s k =
    let (woken, rest) =
      IsConsistent-wake_one (mutex_queue m) (unlocked m s) (omega arith)
        (IsConsistent-frame s (unlocked m s) refl refl refl refl k) in
    IsConsistent-unlock (wake_one (mutex_queue m) (unlocked m s)) woken

pub cond_signal-IsConsistent : (v : ℕ) (s : Sched) → IsConsistent s → IsConsistent (cond_signal v s)
unfolding cond_signal
cond_signal-IsConsistent v s k =
    IsConsistent-unlock _ (IsConsistent-wake_one (cond_queue v) s (omega arith) k).0

pub cond_broadcast-IsConsistent :
    (v : ℕ) (s : Sched) → IsConsistent s → IsConsistent (cond_broadcast v s)
unfolding cond_broadcast
cond_broadcast-IsConsistent v s k =
    IsConsistent-unlock _ (IsConsistent-wake_all (cond_queue v) s (omega arith) k).0

pub mutex_trylock-IsConsistent :
    (m c : ℕ) (s : Sched) → IsConsistent s → IsConsistent (mutex_trylock m c s).1
unfolding mutex_trylock
mutex_trylock-IsConsistent m c s k = elim (Bool-cases (s.mutexes m).locked) [
  | inl taken ↦ rw taken k
  | inr available ↦ rw available (IsConsistent-frame s _ refl refl refl refl k)
]

IsConsistent-if :
    (b : Bool) (s s' : Sched)
    → IsConsistent s
    → IsConsistent s'
    → IsConsistent (if b then s else s')
IsConsistent-if true s s' k k' = k
IsConsistent-if false s s' k k' = k'

pub cond_wait-IsConsistent :
    (v m c : ℕ) (s : Sched) → IsConsistent s → IsConsistent (cond_wait v m c s)
unfolding cond_wait
cond_wait-IsConsistent v m c s k =
    IsConsistent-if (gil_owned_by_current c s) _ _
      (gil_release-IsConsistent _ (IsConsistent-frame s _ refl refl refl refl k))
      (IsConsistent-frame s _ refl refl refl refl k)

pub pthread_join-IsConsistent :
    (t c : ℕ) (s : Sched) → IsConsistent s → IsConsistent (pthread_join t c s)
unfolding pthread_join
pthread_join-IsConsistent t c s k =
    IsConsistent-if (gil_owned_by_current c s) _ _
      (gil_release-IsConsistent _ (IsConsistent-frame s _ refl refl refl refl k))
      (IsConsistent-frame s _ refl refl refl refl k)

module _ (c : ℕ) (s : Sched) (k : IsConsistent s) (on : (s.cpus c).online ≡ true) where
  pub idle_round-IsConsistent : current_of c s ≡ 16 + c → IsConsistent (idle_round c s)
  unfolding idle_round
  idle_round-IsConsistent is_idle =
      let s' = add_frame (current_of c s) resumed s in
      reschedule-IsConsistent c s' _
        (idle-IsOff c s' (IsConsistent-add_frame (current_of c s) resumed s k) on is_idle)

  pub preempt_disable-IsConsistent : IsConsistent (preempt_disable c s)
  unfolding preempt_disable
  preempt_disable-IsConsistent = IsConsistent-set_cpu s c _ refl refl refl k

  module _ (small : current_of c s < pool_size) where
    pub run_take_gil-IsConsistent : IsConsistent (run_take_gil c s)
    unfolding run_take_gil
    run_take_gil-IsConsistent =
        IsConsistent-if (s.gil_locked && not (is_thread s.gil_owner (current_of c s))) _ _
          (block_on-IsConsistent gil_queue c s k on small (omega arith)
            (λ u below e. absurd (omega arith)))
          (IsConsistent-frame s _ refl refl refl refl k)

    pub run_lock_mutex-IsConsistent : (m : ℕ) → IsConsistent (run_lock_mutex m c s)
    unfolding run_lock_mutex
    run_lock_mutex-IsConsistent m =
        IsConsistent-if (s.mutexes m).locked _ _
          (block_on-IsConsistent (mutex_queue m) c s k on small (omega arith)
            (λ u below e. absurd (omega arith)))
          (IsConsistent-frame s _ refl refl refl refl k)

    pub yield-IsConsistent : IsConsistent (yield c s)
    unfolding yield
    yield-IsConsistent =
        let self = current_of c s in
        let s' = add_frame self resumed s in
        let k' = IsConsistent-add_frame self resumed s k in
        rw (current_running c s on k) (
          reschedule-IsConsistent c _ _ (
            park-IsOff run_queue c runnable s' k' on small (inl (refl, refl))
              (λ u below e. absurd (omega arith))))

    pub run_park-IsConsistent : (v m : ℕ) → IsConsistent (run_park v m c s)
    unfolding run_park
    run_park-IsConsistent v m =
        let self = current_of c s in
        let rest =
          set_thread self
            (record (s.threads self) { todo = resumed ∷ drop 1 (s.threads self).todo }) s in
        let (woken, same) =
          IsConsistent-wake_one (mutex_queue m) (unlocked m rest) (omega arith)
            (IsConsistent-frame s (unlocked m rest) refl refl refl refl k) in
        let same_cpu = ap (λ (u : ℕ → Cpu). u c) same.cpus in
        block_on-IsConsistent (cond_queue v) c _ woken (ap (λ (u : Cpu). u.online) same_cpu ∙ on)
          (rw (ap (λ (u : Cpu). u.current) same_cpu) small) (omega arith)
          (λ u below e. absurd (omega arith))

-- The timer switches away from a thread of the pool, or from the idle thread.
preempt_switch :
    (c : ℕ) (s : Sched) (k : IsConsistent s) (on : (s.cpus c).online ≡ true)
    → let self = current_of c s in
      let parked = add_frame self resumed s in
      (self < pool_size) ⊎ (self ≡ 16 + c)
      → IsConsistent (
          reschedule c (
            if is_running (s.state self) && not (self == (s.cpus c).idle)
            then push run_queue self (set_state self runnable parked)
            else parked))
preempt_switch c s k on (inl small) =
    let self = current_of c s in
    let s' = add_frame self resumed s in
    let k' = IsConsistent-add_frame self resumed s k in
    let not_idle : (self == (s.cpus c).idle) ≡ false =
      ne→== _ _ (omega (arith, k.idles c, small)) in
    rw (current_running c s on k, not_idle)
      (reschedule-IsConsistent c _ _ (
        park-IsOff run_queue c runnable s' k' on small (inl (refl, refl))
          (λ u below e. absurd (omega arith))))
preempt_switch c s k on (inr is_idle) =
    let self = current_of c s in
    let s' = add_frame self resumed s in
    let idles : (self == (s.cpus c).idle) ≡ true = eq→== _ _ (is_idle ∙ sym (k.idles c)) in
    rw (current_running c s on k, idles)
      (reschedule-IsConsistent c s' _
        (idle-IsOff c s' (IsConsistent-add_frame self resumed s k) on is_idle))

pub preempt-IsConsistent :
    (c : ℕ) (s : Sched) → IsConsistent s → (s.cpus c).online ≡ true → IsConsistent (preempt c s)
unfolding preempt
preempt-IsConsistent c s k on =
    let u : Cpu = record (s.cpus c) { need_resched = false } in
    let s' = set_cpu c u s in
    let same : s'.cpus c ≡ u = set_at_self s.cpus c u in
    let k' = IsConsistent-set_cpu s c u refl refl refl k in
    let on' : (s'.cpus c).online ≡ true = ap (λ (v : Cpu). v.online) same ∙ on in
    let current' : current_of c s' ≡ current_of c s = ap (λ (v : Cpu). v.current) same in
    let idle' : (s'.cpus c).idle ≡ (s.cpus c).idle = ap (λ (v : Cpu). v.idle) same in
    let own = k.holds.own c (current_of c s) (rw on refl) in
    IsConsistent-if (is_some (s.queues run_queue).head) _ s'
      (subst
        (λ (i : ℕ). IsConsistent (
          reschedule c (
            if is_running (s.state (current_of c s)) && not (current_of c s == i)
            then push run_queue (current_of c s)
                (set_state (current_of c s) runnable (add_frame (current_of c s) resumed s'))
            else add_frame (current_of c s) resumed s')))
        idle'
        (subst
          (λ (self : ℕ). IsConsistent (
            reschedule c (
              if is_running (s.state self) && not (self == (s'.cpus c).idle)
              then push run_queue self (set_state self runnable (add_frame self resumed s'))
              else add_frame self resumed s')))
          current'
          (preempt_switch c s' k' on'
            (subst (λ (v : ℕ). (v < pool_size) ⊎ (v ≡ 16 + c)) (sym current') own))))
      k'

pub on_tick-IsConsistent :
    (c : ℕ) (s : Sched) → IsConsistent s → (s.cpus c).online ≡ true → IsConsistent (on_tick c s)
unfolding on_tick
on_tick-IsConsistent c s k on =
    let s' : Sched = record s { ticks = u64 (s.ticks + 1) } in
    let k' = IsConsistent-frame s s' refl refl refl refl k in
    IsConsistent-if s.preempt_enabled _ _
      (IsConsistent-if ((s.cpus c).preempt_count == 0) _ _ (preempt-IsConsistent c s' k' on)
        (IsConsistent-set_cpu s' c _ refl refl refl k'))
      k'

pub preempt_enable-IsConsistent :
    (c : ℕ) (s : Sched)
    → IsConsistent s
    → (s.cpus c).online ≡ true
    → current_of c s < pool_size
    → IsConsistent (preempt_enable c s)
unfolding preempt_enable
preempt_enable-IsConsistent c s k on small =
    let u : Cpu = record (s.cpus c) { preempt_count = (s.cpus c).preempt_count - 1 } in
    let s' = set_cpu c u s in
    let same : s'.cpus c ≡ u = set_at_self s.cpus c u in
    let k' = IsConsistent-set_cpu s c u refl refl refl k in
    IsConsistent-if ((s.cpus c).preempt_count - 1 == 0 && (s.cpus c).need_resched) _ s'
      (yield-IsConsistent c s' k' (ap (λ (v : Cpu). v.online) same ∙ on)
        (rw (ap (λ (v : Cpu). v.current) same) small))
      k'
