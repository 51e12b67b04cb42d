-- ===== src/Sched/Wakes/Few.antt =====
-- A queue is never longer than the pool, so `wake_all` empties it.
use can_boot.Common.{
  ℕ, zero, suc, ◌≤◌, ◌<◌, ◌≡◌, refl, ap, ◌∙◌, ◌≢◌, inl, inr, true, false, Option, none, List, [],
  ◌∷◌, ◌++◌, arith, ◌==◌, if◌then◌else◌, ==→eq, ne→==, Bool-cases, length, drop, take_all, contains,
}
use can_boot.Sched.{Sched, pool_size, run_queue, wake_all}
use can_boot.Sched.Inv.{Distinct, Inv}
use can_boot.Sched.Wakes.Wake.{Woken, wake_up_to-Woken}

-- The list without a number.
without : ℕ → List ℕ → List ℕ
without a [] = []
without a (x ∷ xs) = if a == x then without a xs else x ∷ without a xs

contains-without :
    (a b : ℕ) (xs : List ℕ) → contains b (without a xs) ≡ true → (contains b xs ≡ true) × (b ≢ a)
unfolding without
contains-without a b [] h = absurd (cc)
contains-without a b (x ∷ xs) h = ground (arith, contains-without a b xs)

without_absent : (a : ℕ) (xs : List ℕ) → contains a xs ≡ false → without a xs ≡ xs
unfolding without
without_absent a [] h = refl
without_absent a (x ∷ xs) h =
    rw (ne→== a x (λ e. ground arith))
      (ap (λ (l : List ℕ). x ∷ l) (without_absent a xs (ground arith)))

lacks-without : (a b : ℕ) (xs : List ℕ) → contains b xs ≡ false → contains b (without a xs) ≡ false
unfolding without
lacks-without a b [] h = refl
lacks-without a b (x ∷ xs) h = ground (arith, lacks-without a b xs)

Distinct-without : (a : ℕ) (xs : List ℕ) → Distinct xs → Distinct (without a xs)
unfolding without
Distinct-without a [] h = tt
Distinct-without a (x ∷ xs) h = elim (Bool-cases (a == x)) [
  | inl same ↦ rw same (Distinct-without a xs h.1)
  | inr other ↦ rw other (lacks-without a x xs h.0, Distinct-without a xs h.1)
]

length-without : (a : ℕ) (xs : List ℕ) → Distinct xs → length xs ≤ suc (length (without a xs))
unfolding without
length-without a [] h = omega arith
length-without a (x ∷ xs) h = elim (Bool-cases (a == x)) [
  | inl same ↦ rw same (rw (without_absent a xs (rw (==→eq a x same) h.0)) (omega arith))
  | inr other ↦ rw other (omega (arith, length-without a xs h.1))
]

-- Distinct numbers below `n` are at most `n`.
few_below :
    (n : ℕ) (xs : List ℕ) → Distinct xs → ((k : ℕ) → contains k xs ≡ true → k < n) → length xs ≤ n
few_below n [] h below = omega arith
few_below zero (x ∷ xs) h below = absurd (omega (arith, below x (ground arith)))
few_below (suc n) (x ∷ xs) h below =
    let rest = without n (x ∷ xs) in
    let smaller : (k : ℕ) → contains k rest ≡ true → k < n = λ k inside.
      let (there, other) = contains-without n k (x ∷ xs) inside in
      omega (arith, below k there, other) in
    omega
      (arith, length-without n (x ∷ xs) h, few_below n rest (Distinct-without n (x ∷ xs) h) smaller)

drop_all {ℓ} : {A : Type ℓ} (n : ℕ) (xs : List A) → length xs ≤ n → drop n xs ≡ []
drop_all zero [] h = refl
drop_all zero (x ∷ xs) h = absurd (omega arith)
drop_all (suc n) [] h = refl
drop_all (suc n) (x ∷ xs) h = drop_all n xs (omega arith)

-- On a state that is well formed, `wake_all` sends every thread of the queue, in order, to the end
-- of the run queue; none is left.
pub wake_all-Woken :
    (q : ℕ) (s : Sched) (runs : ℕ → Option ℕ) (lists : ℕ → List ℕ)
    → q ≢ run_queue
    → Inv s runs none lists
    → (lists' : ℕ → List ℕ) × Woken pool_size q s (wake_all q s) runs lists lists'
      × (lists' q ≡ [])
      × (lists' run_queue ≡ lists run_queue ++ lists q)
wake_all-Woken q s runs lists waits h =
    let (lists', w) = wake_up_to-Woken pool_size q s runs lists waits h in
    let few = few_below pool_size (lists q) (h.distinct q) (λ k i. h.pooled q k i) in
    (
      lists',
      w,
      w.left ∙ drop_all pool_size (lists q) few,
      w.line ∙ ap (λ (l : List ℕ). lists run_queue ++ l) (take_all pool_size (lists q) few),
    )
