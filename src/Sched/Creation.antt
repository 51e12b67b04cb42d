-- ===== src/Sched/Creation.antt =====
-- What `canboot_thread_create` does to a consistent state.
use can_boot.Common.{
  ℕ, zero, suc, ◌+◌, ◌-◌, ◌≤◌, ◌<◌, ◌≡◌, refl, sym, ap, ◌∙◌, ◌≢◌, ◌⊎◌, inl, inr, true, false,
  Option, none, some, [], ◌∷◌, ◌++◌, arith, dec_lt, Bool-cases,
}
use mathlib.Core.Path.{subst}
use can_boot.Sched.{
  ThreadState, free, new, runnable, running, blocked, exited, Thread, Sched, pool_size, run_queue,
  push,
}
use can_boot.Sched.Threads.{is_free, free_slot, create, cleared, fresh_thread}
use can_boot.Sched.Safety.InThreads.{
  Option-cases, free_slot-IsFirst, is_free→HasEnded, create_at-IsConsistent, create_at_line,
}
use can_boot.Sched.Chain.{set_at_self}
use can_boot.Sched.Inv.{IsConsistent}
use can_boot.Sched.Fairness.{line}

create-none :
    (fn arg : ℕ) (s : Sched)
    → free_slot s.state 1 (pool_size - 1) ≡ none
    → create fn arg s ≡ (none, s)
unfolding create
create-none fn arg s h = rw h refl

create-some :
    (fn arg t : ℕ) (s : Sched)
    → free_slot s.state 1 (pool_size - 1) ≡ some t
    → create fn arg s ≡ (some t, push run_queue t (cleared t fn arg s))
unfolding create
create-some fn arg t s h = rw h refl

-- What `canboot_thread_create` gives back, and the state that it leaves.
pub record Created (fn arg t : ℕ) (s s' : Sched) (k : IsConsistent s) : Type 0 where
  pub free_before : s.state t ≡ free
  pub lowest : (u : ℕ) → 1 ≤ u → u < t → s.state u ≢ free
  pub in_pool : (1 ≤ t) × (t < pool_size)
  pub entry : (s'.threads t).entry ≡ fn
  pub arg_kept : (s'.threads t).arg ≡ arg
  pub consistent : IsConsistent s'
  pub last : line consistent ≡ line k ++ t ∷ []

is_free-true : (st : ThreadState) → is_free st ≡ true → st ≡ free
is_free-true free h = refl
is_free-true runnable h = absurd (cc)
is_free-true running h = absurd (cc)
is_free-true blocked h = absurd (cc)
is_free-true exited h = absurd (cc)
is_free-true new h = absurd (cc)

is_free-false : (st : ThreadState) → is_free st ≡ false → st ≢ free
is_free-false st h e = let wrong : is_free free ≡ false = ap is_free (sym e) ∙ h in cc

free_slot-none :
    (state : ℕ → ThreadState) (i n u : ℕ)
    → free_slot state i n ≡ none
    → i ≤ u
    → u < i + n
    → is_free (state u) ≡ false
unfolding free_slot
free_slot-none state i zero u h from below = absurd (omega arith)
free_slot-none state i (suc n) u h from below = elim (Bool-cases (is_free (state i))) [
  | inl found ↦ let wrong : some i ≡ none = rw found at h in absurd (cc)
  | inr taken ↦ elim (dec_lt i u) [
    | yes later ↦ free_slot-none state (i + 1) n u (rw taken at h) (omega arith) (omega arith)
    | no at_i ↦ let same : u ≡ i = omega arith in rw same taken
  ]
]

pushed_threads : (q t : ℕ) (s : Sched) → (push q t s).threads ≡ s.threads
unfolding push
pushed_threads q t s = refl

-- On a consistent state, `canboot_thread_create` takes the lowest free slot of the pool above slot 0
-- and puts the new thread, with its entry and argument, at the end of the run queue; it fails, and
-- changes nothing, only where no such slot is free.
pub create-Created :
    (fn arg : ℕ) (s : Sched) (k : IsConsistent s)
    → ((t : ℕ) × ((create fn arg s).0 ≡ some t) × Created fn arg t s (create fn arg s).1 k)
      ⊎ ((create fn arg s ≡ (none, s)) × ((u : ℕ) → 1 ≤ u → u < pool_size → s.state u ≢ free))
create-Created fn arg s k = elim (Option-cases (free_slot s.state 1 (pool_size - 1))) [
  | inl nothing ↦ inr (
    create-none fn arg s nothing,
    λ u from below.
        is_free-false (s.state u)
          (free_slot-none s.state 1 (pool_size - 1) u nothing from (omega arith)),
  )
  | inr (t, found) ↦
      let (from, below, is, first) = free_slot-IsFirst s.state 1 (pool_size - 1) t found in
      let s' = push run_queue t (cleared t fn arg s) in
      let made = pushed_threads run_queue t (cleared t fn arg s) in
      let self = set_at_self s.threads t (fresh_thread fn arg) in
      inl (
        t,
        ap (λ (r : Option ℕ × Sched). r.0) (create-some fn arg t s found),
        subst (λ (r : Option ℕ × Sched). Created fn arg t s r.1 k)
            (sym (create-some fn arg t s found))
            (record {
              free_before = is_free-true (s.state t) is;
              lowest = λ u low high. is_free-false (s.state u) (first u low high);
              in_pool = (from, omega arith);
              entry = ap (λ (f : ℕ → Thread). (f t).entry) made ∙ ap (λ (h : Thread). h.entry) self;
              arg_kept = ap (λ (f : ℕ → Thread). (f t).arg) made ∙ ap (λ (h : Thread). h.arg) self;
              consistent =
                  create_at-IsConsistent t fn arg s k (omega arith)
                    (is_free→HasEnded (s.state t) is);
              last = create_at_line t fn arg s k (omega arith) (is_free→HasEnded (s.state t) is);
            }),
      )
]
