-- ===== src/Sched/Wakes/Pops.antt =====
-- The first thread of a queue comes out, and is woken: `wq_pop`, `canboot_sched_wake_one` and
-- `canboot_sched_wake_all`.
use can_boot.Common.{
  ℕ, ◌≡◌, refl, sym, ap, ◌∙◌, ◌≢◌, inl, inr, true, false, Option, none, some, List, [], ◌∷◌, arith,
  ◌==◌, ==→eq, ==→ne, Bool-cases, contains,
}
use mathlib.Core.Path.{subst}
use can_boot.Sched.{
  ThreadState, free, new, runnable, running, blocked, exited, Sched, run_queue, join_queue, set_at,
  pop, tail_after,
}
use can_boot.Sched.Chain.{Links, Links-pop, Links-pop_ne}
use can_boot.Sched.Inv.{Distinct, IsKept, Inv}

cons_apart : {x : ℕ} {xs : List ℕ} → ◌≡◌ {A = List ℕ} [] (x ∷ xs) → ⊥
cons_apart e = cc

-- The state after thread `x`, the first of queue `q`, came out.
abbrev pub popped : ℕ → ℕ → Sched → Sched
popped q x s = record s {
  next = set_at s.next x none;
  queues =
      set_at s.queues q
        (record { head = s.next x; tail = tail_after (s.next x) (s.queues q).tail });
}

pub pop-some : (q x : ℕ) (s : Sched) → (s.queues q).head ≡ some x → pop q s ≡ (some x, popped q x s)
unfolding pop
pop-some q x s h = rw h refl

pub pop-none : (q : ℕ) (s : Sched) → (s.queues q).head ≡ none → pop q s ≡ (none, s)
unfolding pop
pop-none q s h = rw h refl

module _ (lists : ℕ → List ℕ) (q x : ℕ) (xs : List ℕ) (at_q : lists q ≡ x ∷ xs) where
  abbrev fewer : ℕ → List ℕ
  fewer = set_at lists q xs

  first_inside : contains x (lists q) ≡ true
  first_inside = rw at_q (ground arith)

  rest_inside : (u : ℕ) → contains u xs ≡ true → contains u (lists q) ≡ true
  rest_inside u inside = rw at_q (ground arith)

  in_fewer : (r u : ℕ) → contains u (fewer r) ≡ true → contains u (lists r) ≡ true
  in_fewer r u inside = elim (Bool-cases (r == q)) [
    | inl same ↦
        subst (λ (v : ℕ). contains u (lists v) ≡ true) (sym (==→eq r q same))
          (rest_inside u (rw same at inside))
    | inr other ↦ rw other at inside
  ]

  split_first : (u : ℕ) → u ≢ x → contains u (lists q) ≡ true → contains u xs ≡ true
  split_first u other inside =
      let inside' : contains u (x ∷ xs) ≡ true = rw at_q at inside in ground arith

  still_inside : (r u : ℕ) → u ≢ x → contains u (lists r) ≡ true → contains u (fewer r) ≡ true
  still_inside r u other inside = elim (Bool-cases (r == q)) [
    | inl same ↦ rw same (
        split_first u other
          (subst (λ (v : ℕ). contains u (lists v) ≡ true) (==→eq r q same) inside))
    | inr elsewhere ↦ rw elsewhere inside
  ]

  IsKept-fewer :
      (runs : ℕ → Option ℕ) (u : ℕ) (st : ThreadState)
      → u ≢ x
      → IsKept lists runs u st
      → IsKept fewer runs u st
  IsKept-fewer runs u runnable other k = still_inside run_queue u other k
  IsKept-fewer runs u blocked other (r, not_run, inside) =
      (r, not_run, still_inside r u other inside)
  IsKept-fewer runs u running other k = k
  IsKept-fewer runs u free other k = k
  IsKept-fewer runs u new other k = k
  IsKept-fewer runs u exited other k = k

  module _ (s : Sched) (runs : ℕ → Option ℕ) (h : Inv s runs none lists) where
    linked_here : Links s.next (s.queues q) (x ∷ xs)
    linked_here = subst (λ (l : List ℕ). Links s.next (s.queues q) l) at_q (h.linked q)

    Distinct-here : Distinct (x ∷ xs)
    Distinct-here = subst Distinct at_q (h.distinct q)

    first_gone : (r : ℕ) → contains x (fewer r) ≡ false
    first_gone r = elim (Bool-cases (r == q)) [
      | inl same ↦ rw same Distinct-here.0
      | inr other ↦ rw other (ground (arith, h.apart r q x, first_inside, ==→ne r q other))
    ]

    not_running : s.state x ≢ running
    not_running = λ e. elim (Bool-cases (q == run_queue)) [
      | inl is_run ↦
          let there : contains x (lists run_queue) ≡ true =
            subst (λ (v : ℕ). contains x (lists v) ≡ true) (==→eq q run_queue is_run)
              first_inside in
          ground (arith, h.ready x there)
      | inr other ↦ ground (arith, h.waiting q x (==→ne q run_queue other) first_inside)
    ]

    -- The thread that came out is the moving one.
    pub Inv-pop : Inv (popped q x s) runs (some x) fewer
    Inv-pop = record {
      linked = λ r. elim (Bool-cases (r == q)) [
        | inl same ↦ rw same (Links-pop s.next (s.queues q) x xs linked_here Distinct-here.0)
        | inr other ↦ rw other (
            Links-pop_ne s.next (s.queues r) x (lists r) (h.linked r)
              (ground (arith, h.apart r q x, first_inside, ==→ne r q other)))
      ];
      distinct = λ r. elim (Bool-cases (r == q)) [
        | inl same ↦ rw same Distinct-here.1
        | inr other ↦ rw other (h.distinct r)
      ];
      apart = λ r r' u i i'. h.apart r r' u (in_fewer r u i) (in_fewer r' u i');
      pooled = λ r u i. h.pooled r u (in_fewer r u i);
      ready = λ u i. h.ready u (in_fewer run_queue u i);
      waiting = λ r u other i. h.waiting r u other (in_fewer r u i);
      awake = h.awake;
      own = h.own;
      exclusive = h.exclusive;
      off_queues = λ u r e. let same : x ≡ u = cc in rw (sym same) (first_gone r);
      off_cpus = λ u d e on_d. not_running (h.awake d x (on_d ∙ sym e));
      moved_pooled = λ u e. let same : x ≡ u = cc in rw (sym same) (h.pooled q x first_inside);
      kept = λ u below still.
          IsKept-fewer runs u (s.state u) (λ e. still (ap some (sym e))) (h.kept u below (λ e. cc));
      no_joiners = λ u below ended. elim (Bool-cases (join_queue u == q)) [
        | inl same ↦
            let nobody : lists q ≡ [] =
              subst (λ (v : ℕ). lists v ≡ []) (==→eq (join_queue u) q same)
                (h.no_joiners u below ended) in
            absurd (cons_apart (sym nobody ∙ at_q))
        | inr other ↦ rw other (h.no_joiners u below ended)
      ];
    }
