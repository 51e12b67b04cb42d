-- ===== src/Sched/Safety/Base.antt =====
-- The parts that the scheduler's calls are made of keep its state consistent.
use can_boot.Common.{
  ℕ, ◌+◌, ◌<◌, ◌≡◌, refl, sym, ap, ◌∙◌, fun_ext, ◌≢◌, inl, inr, true, Option, none, some, List, [],
  ◌==◌, ==→eq, ==→ne, Bool-cases, contains,
}
use mathlib.Core.Path.{subst}
use can_boot.Sched.{
  ThreadState, free, new, runnable, running, blocked, exited, Frame, Cpu, Sched, pool_size,
  run_queue, join_queue, current_of, set_at, set_state, set_cpu, push, reschedule, add_frame,
  block_on, wake_one, wake_all, finish,
}
use can_boot.Sched.Inv.{HasEnded, Inv, running_on, IsConsistent}
use can_boot.Sched.Moves.{Inv-frame, Inv-lift, Inv-lift_idle, Inv-end}
use can_boot.Sched.Wakes.{Suits, queued, Inv-push}
use can_boot.Sched.Wakes.Wake.{SameRest, wake_one-Woken}
use can_boot.Sched.Wakes.Few.{wake_all-Woken}
use can_boot.Sched.Reschedule.{IsOff, reschedule-Rescheduled}

-- A change of other fields.
pub IsConsistent-frame :
    (s s' : Sched)
    → s'.state ≡ s.state
    → s'.next ≡ s.next
    → s'.queues ≡ s.queues
    → s'.cpus ≡ s.cpus
    → IsConsistent s
    → IsConsistent s'
IsConsistent-frame s s' same_state same_next same_queues same_cpus k = record {
  lists = k.lists;
  holds =
      subst (λ (u : ℕ → Cpu). Inv s' (running_on u) none k.lists) (sym same_cpus)
        (Inv-frame s s' same_state same_next same_queues k.holds);
  idles = λ c. rw same_cpus (k.idles c);
}

running_on-set_cpu :
    (cpus : ℕ → Cpu) (c : ℕ) (u : Cpu)
    → u.online ≡ (cpus c).online
    → u.current ≡ (cpus c).current
    → running_on (set_at cpus c u) ≡ running_on cpus
running_on-set_cpu cpus c u same_online same_current = fun_ext (λ d. elim (Bool-cases (d == c)) [
  | inl same ↦ rw same (rw (==→eq d c same, same_online, same_current) refl)
  | inr other ↦ rw other refl
])

-- A change of what a CPU counts.
pub IsConsistent-set_cpu :
    (s : Sched) (c : ℕ) (u : Cpu)
    → u.online ≡ (s.cpus c).online
    → u.current ≡ (s.cpus c).current
    → u.idle ≡ (s.cpus c).idle
    → IsConsistent s
    → IsConsistent (set_cpu c u s)
IsConsistent-set_cpu s c u same_online same_current same_idle k = record {
  lists = k.lists;
  holds =
      subst (λ (r : ℕ → Option ℕ). Inv (set_cpu c u s) r none k.lists)
        (sym (running_on-set_cpu s.cpus c u same_online same_current))
        (Inv-frame s (set_cpu c u s) refl refl refl k.holds);
  idles = λ d. elim (Bool-cases (d == c)) [
    | inl same ↦ rw same (rw (==→eq d c same) (same_idle ∙ k.idles c))
    | inr other ↦ rw other (k.idles d)
  ];
}

pub IsConsistent-wake_one :
    (q : ℕ) (s : Sched)
    → q ≢ run_queue
    → IsConsistent s
    → IsConsistent (wake_one q s) × SameRest s (wake_one q s)
IsConsistent-wake_one q s waits k =
    let (lists', w) = wake_one-Woken q s (running_on s.cpus) k.lists waits k.holds in
    (
      record {
        lists = lists';
        holds =
            subst (λ (u : ℕ → Cpu). Inv (wake_one q s) (running_on u) none lists') (sym w.rest.cpus)
              w.holds;
        idles = λ c. rw w.rest.cpus (k.idles c);
      },
      w.rest,
    )

pub IsConsistent-wake_all :
    (q : ℕ) (s : Sched)
    → q ≢ run_queue
    → IsConsistent s
    → (k' : IsConsistent (wake_all q s)) × SameRest s (wake_all q s) × (k'.lists q ≡ [])
IsConsistent-wake_all q s waits k =
    let (lists', w, emptied, line) = wake_all-Woken q s (running_on s.cpus) k.lists waits k.holds in
    (
      record {
        lists = lists';
        holds =
            subst (λ (u : ℕ → Cpu). Inv (wake_all q s) (running_on u) none lists') (sym w.rest.cpus)
              w.holds;
        idles = λ c. rw w.rest.cpus (k.idles c);
      },
      w.rest,
      emptied,
    )

running_on_current :
    (c : ℕ) (s : Sched) → (s.cpus c).online ≡ true → running_on s.cpus c ≡ some (current_of c s)
running_on_current c s on = rw on refl

-- The state of a thread that a CPU runs.
pub current_running :
    (c : ℕ) (s : Sched)
    → (s.cpus c).online ≡ true
    → IsConsistent s
    → s.state (current_of c s) ≡ running
current_running c s on k = k.holds.awake c (current_of c s) (running_on_current c s on)

push_cpus : (q t : ℕ) (s : Sched) → (push q t s).cpus ≡ s.cpus
unfolding push
push_cpus q t s = refl

-- The current thread goes into a queue.
pub park-IsOff :
    (q c : ℕ) (st : ThreadState) (s : Sched)
    → (k : IsConsistent s) → (s.cpus c).online ≡ true
    → current_of c s < pool_size
    → Suits q st
    → ((u : ℕ) → u < pool_size → q ≡ join_queue u → HasEnded (s.state u) → u ≡ current_of c s)
    → IsOff c
        (push q (current_of c s) (set_state (current_of c s) st s))
        (queued k.lists q (current_of c s))
park-IsOff q c st s k on small suits live =
    let self = current_of c s in
    let same = push_cpus q self (set_state self st s) in
    record {
      online = rw same on;
      idles = λ d. rw same (k.idles d);
      holds =
          subst
            (λ (u : ℕ → Cpu).
              Inv (push q self (set_state self st s)) (set_at (running_on u) c none) none
                (queued k.lists q self))
            (sym same)
            (Inv-push s (set_at (running_on s.cpus) c none) k.lists q self st
              (Inv-lift s (running_on s.cpus) k.lists c self k.holds (running_on_current c s on)
                small)
              suits live);
    }

-- The current thread is the idle one.
pub idle-IsOff :
    (c : ℕ) (s : Sched)
    → (k : IsConsistent s) → (s.cpus c).online ≡ true
    → current_of c s ≡ 16 + c
    → IsOff c s k.lists
idle-IsOff c s k on is_idle = record {
  online = on;
  idles = k.idles;
  holds =
      Inv-lift_idle s (running_on s.cpus) k.lists c k.holds
        (running_on_current c s on ∙ ap some is_idle);
}

-- The current thread ends, and nobody waits for it.
pub end-IsOff :
    (c : ℕ) (st : ThreadState) (s : Sched)
    → (k : IsConsistent s) → (s.cpus c).online ≡ true
    → current_of c s < pool_size
    → HasEnded st
    → k.lists (join_queue (current_of c s)) ≡ []
    → IsOff c (set_state (current_of c s) st s) k.lists
end-IsOff c st s k on small ended nobody =
    let self = current_of c s in
    record {
      online = on;
      idles = k.idles;
      holds =
          Inv-end s (set_at (running_on s.cpus) c none) k.lists self st
            (Inv-lift s (running_on s.cpus) k.lists c self k.holds (running_on_current c s on)
              small)
            ended nobody;
    }

-- After `reschedule` the state is consistent.
pub reschedule-IsConsistent :
    (c : ℕ) (s : Sched) (lists : ℕ → List ℕ) → IsOff c s lists → IsConsistent (reschedule c s)
reschedule-IsConsistent c s lists off =
    let (lists', r) = reschedule-Rescheduled c s lists off in
    record { lists = lists'; holds = r.holds; idles = r.idles }

pub block_on-IsConsistent :
    (q c : ℕ) (s : Sched)
    → IsConsistent s
    → (s.cpus c).online ≡ true
    → current_of c s < pool_size
    → q ≢ run_queue
    → ((u : ℕ) → u < pool_size → q ≡ join_queue u → HasEnded (s.state u) → u ≡ current_of c s)
    → IsConsistent (block_on q c s)
unfolding block_on
block_on-IsConsistent q c s k on small waits live =
    reschedule-IsConsistent c _ _ (park-IsOff q c blocked s k on small (inr (waits, refl)) live)

-- A thread that has ended stands nowhere.
pub Inv-ended_moving :
    (s : Sched) (runs : ℕ → Option ℕ) (lists : ℕ → List ℕ) (t : ℕ)
    → Inv s runs none lists
    → t < pool_size
    → HasEnded (s.state t)
    → Inv s runs (some t) lists
Inv-ended_moving s runs lists t h small ended = record {
  linked = h.linked;
  distinct = h.distinct;
  apart = h.apart;
  pooled = h.pooled;
  ready = h.ready;
  waiting = h.waiting;
  awake = h.awake;
  own = h.own;
  exclusive = h.exclusive;
  off_queues = λ u q e.
      let same : t ≡ u = cc in
      elim (Bool-cases (contains u (lists q))) [
        | inl inside ↦ elim (Bool-cases (q == run_queue)) [
          | inl is_run ↦
              let there : contains u (lists run_queue) ≡ true =
                subst (λ (v : ℕ). contains u (lists v) ≡ true) (==→eq q run_queue is_run) inside in
              absurd (not_ended runnable (h.ready u there) tt same)
          | inr other ↦
              absurd (not_ended blocked (h.waiting q u (==→ne q run_queue other) inside) tt same)
        ]
        | inr outside ↦ outside
      ];
  off_cpus = λ u c e on_c. let same : t ≡ u = cc in not_ended running (h.awake c u on_c) tt same;
  moved_pooled = λ u e. let same : t ≡ u = cc in rw (sym same) small;
  kept = λ u below still. h.kept u below (λ e. cc);
  no_joiners = h.no_joiners;
}
  where
    lives : ThreadState → Type 0
    lives runnable = Unit
    lives running = Unit
    lives blocked = Unit
    lives _ = ⊥

    ended_lives : (st : ThreadState) → HasEnded st → lives st → ⊥
    ended_lives free e l = l
    ended_lives exited e l = l
    ended_lives new e l = l
    ended_lives runnable e l = e
    ended_lives running e l = e
    ended_lives blocked e l = e

    not_ended : {u : ℕ} (st : ThreadState) → s.state u ≡ st → lives st → t ≡ u → ⊥
    not_ended st e l same = ended_lives st (subst HasEnded (ap s.state same ∙ e) ended) l

-- A thread that has ended is reaped.
pub IsConsistent-reap :
    (t : ℕ) (s : Sched)
    → IsConsistent s
    → t < pool_size
    → HasEnded (s.state t)
    → IsConsistent (set_state t free s)
IsConsistent-reap t s k small ended = record {
  lists = k.lists;
  holds =
      Inv-end s (running_on s.cpus) k.lists t free
        (Inv-ended_moving s (running_on s.cpus) k.lists t k.holds small ended) tt
        (k.holds.no_joiners t small ended);
  idles = k.idles;
}

pub IsConsistent-add_frame :
    (t : ℕ) (f : Frame) (s : Sched) → IsConsistent s → IsConsistent (add_frame t f s)
IsConsistent-add_frame t f s k = IsConsistent-frame s _ refl refl refl refl k

pub IsConsistent-finish : (c : ℕ) (s : Sched) → IsConsistent s → IsConsistent (finish c s)
IsConsistent-finish c s k = IsConsistent-frame s _ refl refl refl refl k
