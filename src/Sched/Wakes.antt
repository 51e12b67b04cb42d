-- ===== src/Sched/Wakes.antt =====
-- Threads that go into a queue and come out of it.
pub mod Pops
pub mod Wake
pub mod Few
use can_boot.Common.{
  ℕ, zero, suc, ◌+◌, ◌-◌, ◌*◌, ◌/◌, ◌%◌, ◌^◌, ◌≤◌, ◌<◌, min, ◌≡◌, refl, sym, ap, ap₂, ◌∙◌, fun_ext,
  ◌≢◌, ◌↔◌, ◌⊎◌, inl, inr, Bool, true, false, not, ◌&&◌, ◌||◌, Option, none, some, List, [], ◌∷◌,
  ◌++◌, map, append-nil, append_assoc, arith, dec_lt, dec_le, ℕ_discrete, ltb, leb, ◌==◌,
  if◌then◌else◌, ltb→lt, lt→ltb, le→ltb, ltb→le, ==→eq, ==→ne, eq→==, ne→==, Bool-cases, u8, u16,
  u32, u64, length, get_or, set, take, drop, replicate, All, length-append, length-set,
  get_or-set_self, get_or-set_ne, length-take, length-drop, length-replicate, take_all,
  take-append-drop, take-length-append, drop-length-append, All-append, same_bytes, same_bytes→eq,
  same_bytes_self, contains, get_or-take, get_or-drop, take-get_or-drop, take-take, All-of_index,
}
use mathlib.Core.Path.{subst}
use can_boot.Sched.{
  ThreadState, free, new, runnable, running, blocked, exited, WaitQueue, Cpu, Sched, pool_size,
  run_queue, join_queue, current_of, set_at, set_state, push, pop, pop_head, links_after,
  queue_after, tail_after,
}
use can_boot.Sched.Chain.{
  Links, set_at_self, set_at_ne, Links-push, Links-push_ne, Links-pop, Links-pop_ne, Links-head,
}
use can_boot.Sched.Inv.{Distinct, HasEnded, IsKept, Inv}

pub contains-append :
    (a : ℕ) (xs ys : List ℕ) → contains a (xs ++ ys) ≡ (contains a xs || contains a ys)
contains-append a [] ys = refl
contains-append a (x ∷ xs) ys = ground (arith, contains-append a xs ys)

Distinct-append_one :
    (xs : List ℕ) (t : ℕ) → Distinct xs → contains t xs ≡ false → Distinct (xs ++ t ∷ [])
Distinct-append_one [] t h lacks = (refl, tt)
Distinct-append_one (x ∷ xs) t h lacks = (
  ground (arith, contains-append x xs (t ∷ []), h.0),
  Distinct-append_one xs t h.1 (ground arith),
)

-- The state of a thread in a queue.
abbrev pub Suits : ℕ → ThreadState → Type 0
Suits q st = ((q ≡ run_queue) × (st ≡ runnable)) ⊎ ((q ≢ run_queue) × (st ≡ blocked))

abbrev pub queued : (ℕ → List ℕ) → ℕ → ℕ → ℕ → List ℕ
queued lists q t = set_at lists q (lists q ++ t ∷ [])

module _ (lists : ℕ → List ℕ) (q t : ℕ) where
  -- Who is in a queue after `t` came into queue `q`.
  in_queued :
      (r u : ℕ)
      → contains u (queued lists q t r) ≡ true
      → (contains u (lists r) ≡ true) ⊎ ((r ≡ q) × (u ≡ t))
  in_queued r u inside = ground (arith, contains-append u (lists q) (t ∷ []))

  still_queued : (r u : ℕ) → contains u (lists r) ≡ true → contains u (queued lists q t r) ≡ true
  still_queued r u inside = ground (arith, contains-append u (lists q) (t ∷ []))

  now_queued : contains t (queued lists q t q) ≡ true
  now_queued = ground (arith, contains-append t (lists q) (t ∷ []))

  IsKept-queued :
      (runs : ℕ → Option ℕ) (u : ℕ) (st : ThreadState)
      → IsKept lists runs u st
      → IsKept (queued lists q t) runs u st
  IsKept-queued runs u runnable k = still_queued run_queue u k
  IsKept-queued runs u blocked (r, other, inside) = (r, other, still_queued r u inside)
  IsKept-queued runs u running k = k
  IsKept-queued runs u free k = k
  IsKept-queued runs u new k = k
  IsKept-queued runs u exited k = k

  IsKept-queued_self :
      (runs : ℕ → Option ℕ) (st : ThreadState) → Suits q st → IsKept (queued lists q t) runs t st
  IsKept-queued_self runs st (inl (is_run, is_runnable)) =
      rw is_runnable (subst (λ (r : ℕ). contains t (queued lists q t r) ≡ true) is_run now_queued)
  IsKept-queued_self runs st (inr (other, is_blocked)) = rw is_blocked (q, other, now_queued)

Suits-HasEnded : (q : ℕ) (st : ThreadState) → Suits q st → HasEnded st → ⊥
Suits-HasEnded q st (inl (is_run, is_runnable)) ended = rw is_runnable at ended
Suits-HasEnded q st (inr (other, is_blocked)) ended = rw is_blocked at ended

-- The moving thread goes into a queue, in the state that suits it.
pub Inv-push :
    (s : Sched) (runs : ℕ → Option ℕ) (lists : ℕ → List ℕ) (q t : ℕ) (st : ThreadState)
    → Inv s runs (some t) lists
    → Suits q st
    → ((u : ℕ) → u < pool_size → q ≡ join_queue u → HasEnded (s.state u) → u ≡ t)
    → Inv (push q t (set_state t st s)) runs none (queued lists q t)
unfolding push
Inv-push s runs lists q t st h suits live = record {
  linked = λ r. elim (Bool-cases (r == q)) [
    | inl same ↦
        rw same (Links-push s.next (s.queues q) (lists q) t (h.linked q) (h.off_queues t q refl))
    | inr other ↦ rw other (
        Links-push_ne s.next (s.queues q) (s.queues r) (lists q) (lists r) t (h.linked q)
          (h.linked r) (h.off_queues t r refl) (λ k inside. ground (arith, h.apart q r k inside)))
  ];
  distinct = λ r. elim (Bool-cases (r == q)) [
    | inl same ↦ rw same (Distinct-append_one (lists q) t (h.distinct q) (h.off_queues t q refl))
    | inr other ↦ rw other (h.distinct r)
  ];
  apart = λ r r' u i i'. ground (
    arith,
    in_queued lists q t r u i,
    in_queued lists q t r' u i',
    h.apart r r' u,
    h.off_queues t r refl,
    h.off_queues t r' refl,
  );
  pooled = λ r u i. ground (arith, in_queued lists q t r u i, h.pooled r u, h.moved_pooled t refl);
  ready = λ u i.
      ground
        (arith, in_queued lists q t run_queue u i, h.ready u, h.off_queues t run_queue refl, suits);
  waiting = λ r u other i.
      ground (arith, in_queued lists q t r u i, h.waiting r u other, h.off_queues t r refl, suits);
  awake = λ d u e. ground (arith, h.awake d u e, h.off_cpus t d refl);
  own = h.own;
  exclusive = h.exclusive;
  off_queues = λ u r e. absurd (cc);
  off_cpus = λ u d e on_d. cc;
  moved_pooled = λ u e. absurd (cc);
  kept = λ u below still. elim (Bool-cases (u == t)) [
    | inl is_t ↦ rw is_t (
        subst (λ (v : ℕ). IsKept (queued lists q t) runs v st) (sym (==→eq u t is_t))
          (IsKept-queued_self lists q t runs st suits))
    | inr other ↦ rw other (
        IsKept-queued lists q t runs u (s.state u)
          (h.kept u below (λ e. ==→ne u t other (ground arith))))
  ];
  no_joiners = λ u below ended. elim (Bool-cases (u == t)) [
    | inl is_t ↦ absurd (Suits-HasEnded q st suits (rw is_t at ended))
    | inr other ↦
        let before : HasEnded (s.state u) = rw other at ended in
        let elsewhere : join_queue u ≢ q = λ e. ==→ne u t other (live u below (sym e) before) in
        rw (ne→== (join_queue u) q elsewhere) (h.no_joiners u below before)
  ];
}
