-- ===== src/Sched/Safety/InThreads.antt =====
-- The calls of Sched/Threads keep the state consistent, and the scheduler starts consistent.
use can_boot.Common.{
  ℕ, zero, suc, ◌+◌, ◌-◌, ◌≤◌, ◌<◌, ◌≡◌, refl, sym, ap, ◌∙◌, fun_ext, ◌≢◌, ◌⊎◌, inl, inr, Bool,
  true, false, ◌&&◌, ◌||◌, Option, none, some, List, [], ◌∷◌, ◌++◌, arith, dec_lt, ltb, ◌==◌,
  if◌then◌else◌, ltb→lt, ==→eq, ne→==, Bool-cases,
}
use mathlib.Core.Path.{subst}
use can_boot.Sched.{
  ThreadState, free, new, runnable, running, blocked, exited, Cpu, Sched, pool_size, run_queue,
  join_queue, current_of, set_at, set_state, set_thread, push, wake_all,
}
use can_boot.Sched.Threads.{
  is_free, is_exited, free_slot, empty_queue, cleared, create, detach, exit, run_join, init,
  ap_online,
}
use can_boot.Sched.Chain.{set_at_self, Links-pop_ne}
use can_boot.Sched.Inv.{HasEnded, Inv, running_on, IsConsistent}
use can_boot.Sched.Moves.{Inv-frame, Inv-land_idle}
use can_boot.Sched.Wakes.{queued, Inv-push}
use can_boot.Sched.Reschedule.{IsOff}
use can_boot.Sched.Safety.Base.{
  IsConsistent-frame, IsConsistent-wake_all, end-IsOff, reschedule-IsConsistent,
  block_on-IsConsistent, Inv-ended_moving, IsConsistent-reap, IsConsistent-finish,
}

pub is_free→HasEnded : (st : ThreadState) → is_free st ≡ true → HasEnded st
is_free→HasEnded free h = tt
is_free→HasEnded new h = absurd (cc)
is_free→HasEnded runnable h = absurd (cc)
is_free→HasEnded running h = absurd (cc)
is_free→HasEnded blocked h = absurd (cc)
is_free→HasEnded exited h = tt

is_exited→HasEnded : (st : ThreadState) → is_exited st ≡ true → HasEnded st
is_exited→HasEnded exited h = tt
is_exited→HasEnded free h = tt
is_exited→HasEnded new h = absurd (cc)
is_exited→HasEnded runnable h = absurd (cc)
is_exited→HasEnded running h = absurd (cc)
is_exited→HasEnded blocked h = absurd (cc)

ended→HasEnded : (st : ThreadState) → (is_exited st || is_free st) ≡ true → HasEnded st
ended→HasEnded free h = tt
ended→HasEnded exited h = tt
ended→HasEnded new h = absurd (cc)
ended→HasEnded runnable h = absurd (cc)
ended→HasEnded running h = absurd (cc)
ended→HasEnded blocked h = absurd (cc)

not_ended→HasEnded : (st : ThreadState) → (is_exited st || is_free st) ≡ false → HasEnded st → ⊥
not_ended→HasEnded free h e = absurd (cc)
not_ended→HasEnded exited h e = absurd (cc)
not_ended→HasEnded new h e = e
not_ended→HasEnded runnable h e = e
not_ended→HasEnded running h e = e
not_ended→HasEnded blocked h e = e

-- The slot that `free_slot` finds is free, and every one before it is not.
pub free_slot-IsFirst :
    (state : ℕ → ThreadState) (i n t : ℕ)
    → free_slot state i n ≡ some t
    → (i ≤ t)
      × (t < i + n)
      × (is_free (state t) ≡ true)
      × ((u : ℕ) → i ≤ u → u < t → is_free (state u) ≡ false)
unfolding free_slot
free_slot-IsFirst state i zero t h = absurd (cc)
free_slot-IsFirst state i (suc n) t h = elim (Bool-cases (is_free (state i))) [
  | inl found ↦
      let here : i ≡ t = ground arith in
      (
        omega arith,
        omega arith,
        subst (λ (v : ℕ). is_free (state v) ≡ true) here found,
        λ u from below. absurd (omega arith),
      )
  | inr taken ↦
      let (from, below, is, first) = free_slot-IsFirst state (i + 1) n t (rw taken at h) in
      (
        omega arith,
        omega arith,
        is,
        λ u from' before. elim (dec_lt i u) [
          | yes later ↦ first u (omega arith) before
          | no at_i ↦ let same : u ≡ i = omega arith in rw same taken
        ],
      )
]

-- A slot whose links and queue of joiners are emptied.
Inv-clear :
    (s s' : Sched) (runs : ℕ → Option ℕ) (lists : ℕ → List ℕ) (t : ℕ)
    → Inv s runs (some t) lists
    → lists (join_queue t) ≡ []
    → s'.state ≡ s.state
    → s'.next ≡ set_at s.next t none
    → s'.queues ≡ set_at s.queues (join_queue t) empty_queue
    → Inv s' runs (some t) lists
Inv-clear s s' runs lists t h nobody same_state new_next new_queues = record {
  linked = λ q.
      rw (new_next, new_queues)
        (elim (Bool-cases (q == join_queue t)) [
          | inl same ↦
              let empty : lists q ≡ [] = ap lists (==→eq q (join_queue t) same) ∙ nobody in
              rw (same, empty) (refl, refl)
          | inr other ↦
              rw other
                (Links-pop_ne s.next (s.queues q) t (lists q) (h.linked q) (h.off_queues t q refl))
        ]);
  distinct = h.distinct;
  apart = h.apart;
  pooled = h.pooled;
  ready = λ u i. rw same_state (h.ready u i);
  waiting = λ q u n i. rw same_state (h.waiting q u n i);
  awake = λ c u e. rw same_state (h.awake c u e);
  own = h.own;
  exclusive = h.exclusive;
  off_queues = h.off_queues;
  off_cpus = h.off_cpus;
  moved_pooled = h.moved_pooled;
  kept = λ u small still. rw same_state (h.kept u small still);
  no_joiners = λ u small ended. h.no_joiners u small (rw same_state at ended);
}

push_cpus : (q t : ℕ) (s : Sched) → (push q t s).cpus ≡ s.cpus
unfolding push
push_cpus q t s = refl

pub create_at-IsConsistent :
    (t fn arg : ℕ) (s : Sched)
    → IsConsistent s
    → t < pool_size
    → HasEnded (s.state t)
    → IsConsistent (push run_queue t (cleared t fn arg s))
create_at-IsConsistent t fn arg s k small ended =
    let emptied : Sched = record (cleared t fn arg s) { state = s.state } in
    let moving =
      Inv-clear s emptied (running_on s.cpus) k.lists t
        (Inv-ended_moving s (running_on s.cpus) k.lists t k.holds small ended)
        (k.holds.no_joiners t small ended) refl refl refl in
    let same = push_cpus run_queue t (cleared t fn arg s) in
    record {
      lists = queued k.lists run_queue t;
      holds =
          subst
            (λ (u : ℕ → Cpu).
              Inv (push run_queue t (cleared t fn arg s)) (running_on u) none
                (queued k.lists run_queue t))
            (sym same)
            (Inv-push emptied (running_on s.cpus) k.lists run_queue t runnable moving
              (inl (refl, refl)) (λ u below e. absurd (omega arith)));
      idles = λ c. rw same (k.idles c);
    }

-- The new thread is last in the run queue.
pub create_at_line :
    (t fn arg : ℕ) (s : Sched) (k : IsConsistent s) (small : t < pool_size)
    (ended : HasEnded (s.state t))
    → (create_at-IsConsistent t fn arg s k small ended).lists run_queue
      ≡ k.lists run_queue ++ t ∷ []
unfolding create_at-IsConsistent
create_at_line t fn arg s k small ended =
    set_at_self k.lists run_queue (k.lists run_queue ++ t ∷ [])

pub Option-cases : (o : Option ℕ) → (o ≡ none) ⊎ ((t : ℕ) × (o ≡ some t))
Option-cases none = inl refl
Option-cases (some t) = inr (t, refl)

pub create-IsConsistent :
    (fn arg : ℕ) (s : Sched) → IsConsistent s → IsConsistent (create fn arg s).1
unfolding create
create-IsConsistent fn arg s k = elim (Option-cases (free_slot s.state 1 (pool_size - 1))) [
  | inl nothing ↦ rw nothing k
  | inr (t, found) ↦
      let (from, below, is, first) = free_slot-IsFirst s.state 1 (pool_size - 1) t found in
      rw found (create_at-IsConsistent t fn arg s k (omega arith) (is_free→HasEnded (s.state t) is))
]

pub detach-IsConsistent :
    (t : ℕ) (s : Sched) → IsConsistent s → t < pool_size → IsConsistent (detach t s)
unfolding detach
detach-IsConsistent t s k small = elim (Bool-cases (is_exited (s.state t))) [
  | inl over ↦ rw over (IsConsistent-reap t s k small (is_exited→HasEnded (s.state t) over))
  | inr alive ↦ rw alive (IsConsistent-frame s _ refl refl refl refl k)
]

HasEnded-if : (b : Bool) → HasEnded (if b then free else exited)
HasEnded-if true = tt
HasEnded-if false = tt

module _ (c : ℕ) (s : Sched) (k : IsConsistent s) (on : (s.cpus c).online ≡ true)
    (small : current_of c s < pool_size) where
  pub exit-IsConsistent : (retval : ℕ) → IsConsistent (exit retval c s)
  unfolding exit
  exit-IsConsistent retval =
      let self = current_of c s in
      let th = s.threads self in
      let done = set_thread self (record th { retval = retval; todo = [] }) s in
      let (woken, same, emptied) =
        IsConsistent-wake_all (join_queue self) done (omega arith)
          (IsConsistent-frame s done refl refl refl refl k) in
      let s' = wake_all (join_queue self) done in
      let st = if th.detached && ltb self pool_size then free else exited in
      let same_cpu = ap (λ (u : ℕ → Cpu). u c) same.cpus in
      let same_self : current_of c s' ≡ self = ap (λ (u : Cpu). u.current) same_cpu in
      let off : IsOff c (set_state (current_of c s') st s') woken.lists =
        end-IsOff c st s' woken (ap (λ (u : Cpu). u.online) same_cpu ∙ on) (rw same_self small)
          (HasEnded-if (th.detached && ltb self pool_size)) (rw same_self emptied) in
      reschedule-IsConsistent c _ _
        (subst (λ (v : ℕ). IsOff c (set_state v st s') woken.lists) same_self off)

  pub run_join-IsConsistent : (t : ℕ) → IsConsistent (run_join t c s)
  unfolding run_join
  run_join-IsConsistent t =
      let self = current_of c s in
      let stored = set_thread self (record (s.threads self) { joined = (s.threads t).retval }) s in
      let k' = IsConsistent-frame s stored refl refl refl refl k in
      elim (Bool-cases (is_exited (s.state t) || is_free (s.state t))) [
        | inl over ↦
            let ended = ended→HasEnded (s.state t) over in
            rw over (elim (Bool-cases (ltb t pool_size)) [
              | inl pooled ↦ rw pooled (
                  IsConsistent-finish c _
                    (IsConsistent-reap t stored k' (ltb→lt t pool_size pooled) ended))
              | inr other ↦ rw other (IsConsistent-finish c stored k')
            ])
        | inr alive ↦ rw alive (
            block_on-IsConsistent (join_queue t) c s k on small (omega arith) (λ u below e ended.
              let same : u ≡ t = omega arith in
              absurd (
                not_ended→HasEnded (s.state t) alive
                  (subst (λ (v : ℕ). HasEnded (s.state v)) same ended))))
      ]

-- A CPU that comes online runs its idle thread.
pub ap_online-IsConsistent :
    (c : ℕ) (s : Sched) → IsConsistent s → (s.cpus c).online ≡ false → IsConsistent (ap_online c s)
unfolding ap_online
ap_online-IsConsistent c s k off =
    let u : Cpu = record (s.cpus c) { current = 16 + c; idle = 16 + c; online = true } in
    let was_off : running_on s.cpus c ≡ none = rw off refl in
    let runs : set_at (running_on s.cpus) c (some (16 + c)) ≡ running_on (set_at s.cpus c u) =
      fun_ext
        (λ d. elim (Bool-cases (d == c)) [ inl same ↦ rw same refl | inr other ↦ rw other refl ]) in
    record {
      lists = k.lists;
      holds =
          subst (λ (r : ℕ → Option ℕ). Inv (ap_online c s) r none k.lists) runs
            (Inv-frame (set_state (16 + c) running s) _ refl refl refl
              (Inv-land_idle s (running_on s.cpus) k.lists c k.holds was_off));
      idles = λ d. elim (Bool-cases (d == c)) [
        | inl same ↦ rw same (ap (λ (v : ℕ). 16 + v) (sym (==→eq d c same)))
        | inr other ↦ rw other (k.idles d)
      ];
    }

init_runs : (c t : ℕ) → running_on init.cpus c ≡ some t → (c ≡ 0) × (t ≡ 0)
unfolding init
init_runs c t h = ground arith

init_state : (t : ℕ) → t ≢ 0 → t < 16 → init.state t ≡ free
unfolding init
init_state t other small = ground arith

pub init-IsConsistent : IsConsistent init
unfolding init
init-IsConsistent = record {
  lists = λ q. [];
  holds = record {
    linked = λ q. (refl, refl);
    distinct = λ q. tt;
    apart = λ q r t i i'. absurd (cc);
    pooled = λ q t i. absurd (cc);
    ready = λ t i. absurd (cc);
    waiting = λ q t n i. absurd (cc);
    awake = λ c t e. let (at_c, at_t) = init_runs c t e in rw at_t refl;
    own = λ c t e. let (at_c, at_t) = init_runs c t e in inl (omega arith);
    exclusive = λ c d t e e'.
        let (at_c, at_t) = init_runs c t e in
        let (at_d, at_t') = init_runs d t e' in at_c ∙ sym at_d;
    off_queues = λ t q e. refl;
    off_cpus = λ t c e on_c. cc;
    moved_pooled = λ t e. absurd (cc);
    kept = λ t small still. elim (Bool-cases (t == 0)) [
      | inl first ↦ rw first (0, ap some (sym (==→eq t 0 first)))
      | inr other ↦ rw (other, ne→== t 16 (omega (arith, small))) tt
    ];
    no_joiners = λ t small ended. refl;
  };
  idles = λ c. refl;
}
