-- ===== src/Sched/Moves.antt =====
-- The single changes of the scheduler's state, and what each does to the invariant.
use can_boot.Common.{
  ℕ, ◌+◌, ◌<◌, ◌≡◌, refl, sym, ap, ◌∙◌, ◌≢◌, inl, inr, Option, none, some, List, [], arith, ◌==◌,
  ==→eq, ==→ne, ne→==, Bool-cases, contains,
}
use can_boot.Sched.{
  ThreadState, free, new, runnable, running, blocked, exited, Sched, pool_size, run_queue,
  join_queue, set_at, set_state,
}
use can_boot.Sched.Chain.{set_at_self, set_at_ne}
use can_boot.Sched.Inv.{HasEnded, IsKept, Inv}

-- A change of other fields.
pub Inv-frame :
    (s s' : Sched) {runs : ℕ → Option ℕ} {moving : Option ℕ} {lists : ℕ → List ℕ}
    → s'.state ≡ s.state
    → s'.next ≡ s.next
    → s'.queues ≡ s.queues
    → Inv s runs moving lists
    → Inv s' runs moving lists
Inv-frame s s' same_state same_next same_queues h = record {
  linked = λ q. rw (same_next, same_queues) (h.linked q);
  distinct = h.distinct;
  apart = h.apart;
  pooled = h.pooled;
  ready = λ t i. rw same_state (h.ready t i);
  waiting = λ q t n i. rw same_state (h.waiting q t n i);
  awake = λ c t e. rw same_state (h.awake c t e);
  own = h.own;
  exclusive = h.exclusive;
  off_queues = h.off_queues;
  off_cpus = h.off_cpus;
  moved_pooled = h.moved_pooled;
  kept = λ t small still. rw same_state (h.kept t small still);
  no_joiners = λ t small ended. h.no_joiners t small (rw same_state at ended);
}

IsKept-fewer_runs :
    (lists : ℕ → List ℕ) (runs : ℕ → Option ℕ) (c u t : ℕ) (st : ThreadState)
    → runs c ≡ some u
    → t ≢ u
    → IsKept lists runs t st
    → IsKept lists (set_at runs c none) t st
IsKept-fewer_runs lists runs c u t running on_c other (d, on_d) =
    (d, set_at_ne runs c none d (λ e. ground arith) ∙ on_d)
IsKept-fewer_runs lists runs c u t runnable on_c other k = k
IsKept-fewer_runs lists runs c u t blocked on_c other k = k
IsKept-fewer_runs lists runs c u t free on_c other k = k
IsKept-fewer_runs lists runs c u t new on_c other k = k
IsKept-fewer_runs lists runs c u t exited on_c other k = k

-- A thread of the pool is taken off its CPU.
pub Inv-lift :
    (s : Sched) (runs : ℕ → Option ℕ) (lists : ℕ → List ℕ) (c t : ℕ)
    → Inv s runs none lists
    → runs c ≡ some t
    → t < pool_size
    → Inv s (set_at runs c none) (some t) lists
Inv-lift s runs lists c t h on_c small = record {
  linked = h.linked;
  distinct = h.distinct;
  apart = h.apart;
  pooled = h.pooled;
  ready = h.ready;
  waiting = h.waiting;
  awake = λ d u e. h.awake d u (ground arith);
  own = λ d u e. h.own d u (ground arith);
  exclusive = λ d e u on_d on_e. h.exclusive d e u (ground arith) (ground arith);
  off_queues = λ u q e. elim (Bool-cases (contains u (lists q))) [
    | inl inside ↦ elim (Bool-cases (q == run_queue)) [
      | inl is_run ↦ ground (arith, h.ready u, h.awake c t on_c)
      | inr other ↦ ground (arith, h.waiting q u, h.awake c t on_c)
    ]
    | inr outside ↦ outside
  ];
  off_cpus = λ u d e on_d. ground (arith, h.exclusive c d t);
  moved_pooled = λ u e. ground arith;
  kept = λ u below still.
      IsKept-fewer_runs lists runs c t u (s.state u) on_c (λ e. still (ap some (sym e)))
        (h.kept u below (λ e. cc));
  no_joiners = h.no_joiners;
}

-- The idle thread is taken off its CPU.
pub Inv-lift_idle :
    (s : Sched) (runs : ℕ → Option ℕ) (lists : ℕ → List ℕ) (c : ℕ)
    → Inv s runs none lists
    → runs c ≡ some (16 + c)
    → Inv s (set_at runs c none) none lists
Inv-lift_idle s runs lists c h on_c = record {
  linked = h.linked;
  distinct = h.distinct;
  apart = h.apart;
  pooled = h.pooled;
  ready = h.ready;
  waiting = h.waiting;
  awake = λ d u e. h.awake d u (ground arith);
  own = λ d u e. h.own d u (ground arith);
  exclusive = λ d e u on_d on_e. h.exclusive d e u (ground arith) (ground arith);
  off_queues = λ u q e. absurd (cc);
  off_cpus = λ u d e on_d. cc;
  moved_pooled = λ u e. absurd (cc);
  kept = λ u below still.
      IsKept-fewer_runs lists runs c (16 + c) u (s.state u) on_c (λ e. omega (arith, e, below))
        (h.kept u below still);
  no_joiners = h.no_joiners;
}

IsKept-more_runs :
    (lists : ℕ → List ℕ) (runs : ℕ → Option ℕ) (c u t : ℕ) (st : ThreadState)
    → runs c ≡ none
    → IsKept lists runs t st
    → IsKept lists (set_at runs c (some u)) t st
IsKept-more_runs lists runs c u t running off (d, on_d) =
    (d, set_at_ne runs c (some u) d (λ e. ground arith) ∙ on_d)
IsKept-more_runs lists runs c u t runnable off k = k
IsKept-more_runs lists runs c u t blocked off k = k
IsKept-more_runs lists runs c u t free off k = k
IsKept-more_runs lists runs c u t new off k = k
IsKept-more_runs lists runs c u t exited off k = k

-- A CPU without a thread starts the moving thread.
pub Inv-land :
    (s : Sched) (runs : ℕ → Option ℕ) (lists : ℕ → List ℕ) (c t : ℕ)
    → Inv s runs (some t) lists
    → runs c ≡ none
    → Inv (set_state t running s) (set_at runs c (some t)) none lists
Inv-land s runs lists c t h off = record {
  linked = h.linked;
  distinct = h.distinct;
  apart = h.apart;
  pooled = h.pooled;
  ready = λ u inside. ground (arith, h.ready u inside, h.off_queues t run_queue refl);
  waiting = λ q u other inside. ground (arith, h.waiting q u other inside, h.off_queues t q refl);
  awake = λ d u e. ground (arith, h.awake d u);
  own = λ d u e. ground (arith, h.own d u, h.moved_pooled t refl);
  exclusive = λ d e u on_d on_e.
      ground (arith, h.exclusive d e u, h.off_cpus t d refl, h.off_cpus t e refl);
  off_queues = λ u q e. absurd (cc);
  off_cpus = λ u d e on_d. cc;
  moved_pooled = λ u e. absurd (cc);
  kept = λ u below still. elim (Bool-cases (u == t)) [
    | inl is_t ↦ rw is_t (c, rw (==→eq u t is_t) (set_at_self runs c (some t)))
    | inr other ↦ rw other (
        IsKept-more_runs lists runs c t u (s.state u) off
          (h.kept u below (λ e. ==→ne u t other (ground arith))))
  ];
  no_joiners = λ u below ended. elim (Bool-cases (u == t)) [
    | inl is_t ↦ absurd (rw is_t at ended)
    | inr other ↦ h.no_joiners u below (rw other at ended)
  ];
}

-- A CPU without a thread starts its idle thread.
pub Inv-land_idle :
    (s : Sched) (runs : ℕ → Option ℕ) (lists : ℕ → List ℕ) (c : ℕ)
    → Inv s runs none lists
    → runs c ≡ none
    → Inv (set_state (16 + c) running s) (set_at runs c (some (16 + c))) none lists
Inv-land_idle s runs lists c h off = record {
  linked = h.linked;
  distinct = h.distinct;
  apart = h.apart;
  pooled = h.pooled;
  ready = λ u inside. ground (arith, h.ready u inside, h.pooled run_queue u inside);
  waiting = λ q u other inside. ground (arith, h.waiting q u other inside, h.pooled q u inside);
  awake = λ d u e. ground (arith, h.awake d u);
  own = λ d u e. ground (arith, h.own d u);
  exclusive = λ d e u on_d on_e. ground (arith, h.exclusive d e u, h.own d u, h.own e u);
  off_queues = λ u q e. absurd (cc);
  off_cpus = λ u d e on_d. cc;
  moved_pooled = λ u e. absurd (cc);
  kept = λ u below still.
      rw (ne→== u (16 + c) (omega (arith, below)))
        (IsKept-more_runs lists runs c (16 + c) u (s.state u) off (h.kept u below still));
  no_joiners =
      λ u below ended. h.no_joiners u below (rw (ne→== u (16 + c) (omega (arith, below))) at ended);
}

IsKept-ended :
    (lists : ℕ → List ℕ) (runs : ℕ → Option ℕ) (t : ℕ) (st : ThreadState)
    → HasEnded st
    → IsKept lists runs t st
IsKept-ended lists runs t free ended = tt
IsKept-ended lists runs t exited ended = tt
IsKept-ended lists runs t new ended = tt
IsKept-ended lists runs t runnable ended = absurd ended
IsKept-ended lists runs t running ended = absurd ended
IsKept-ended lists runs t blocked ended = absurd ended

-- The moving thread ends.
pub Inv-end :
    (s : Sched) (runs : ℕ → Option ℕ) (lists : ℕ → List ℕ) (t : ℕ) (st : ThreadState)
    → Inv s runs (some t) lists
    → HasEnded st
    → lists (join_queue t) ≡ []
    → Inv (set_state t st s) runs none lists
Inv-end s runs lists t st h ended nobody = record {
  linked = h.linked;
  distinct = h.distinct;
  apart = h.apart;
  pooled = h.pooled;
  ready = λ u inside. ground (arith, h.ready u inside, h.off_queues t run_queue refl);
  waiting = λ q u other inside. ground (arith, h.waiting q u other inside, h.off_queues t q refl);
  awake = λ d u e. ground (arith, h.awake d u e, h.off_cpus t d refl);
  own = h.own;
  exclusive = h.exclusive;
  off_queues = λ u q e. absurd (cc);
  off_cpus = λ u d e on_d. cc;
  moved_pooled = λ u e. absurd (cc);
  kept = λ u below still. elim (Bool-cases (u == t)) [
    | inl is_t ↦ rw is_t (IsKept-ended lists runs u st ended)
    | inr other ↦ rw other (h.kept u below (λ e. ==→ne u t other (ground arith)))
  ];
  no_joiners = λ u below u_ended. elim (Bool-cases (u == t)) [
    | inl is_t ↦ rw (==→eq u t is_t) nobody
    | inr other ↦ h.no_joiners u below (rw other at u_ended)
  ];
}
