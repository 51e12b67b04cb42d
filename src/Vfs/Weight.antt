-- ===== src/Vfs/Weight.antt =====
-- How many bytes the names of a path take in fs/vfs.c.
use can_boot.Common.{
  ℕ, zero, suc, ◌+◌, ◌-◌, ◌≤◌, ◌≡◌, refl, List, [], ◌∷◌, ◌++◌, arith, length, take, length-append,
}
use can_boot.Fat32.Names.{slash}
use can_boot.Fat32.Path.Components.{join}
use can_boot.Vfs.Paths.{after_name, after_names}
use can_boot.Vfs.Rounds.{stays, goes_up, goes_down, is_full, Round-cases}

-- The bytes of the names, with one more for each.
unfoldable pub weight : List (List ℕ) → ℕ
weight [] = 0
weight (n ∷ ns) = length n + 1 + weight ns

pub weight_nil : weight [] ≡ 0
unfolding weight
weight_nil = refl

pub weight-join : (n : List ℕ) (ns : List (List ℕ)) → weight (n ∷ ns) ≡ length (join (n ∷ ns)) + 1
unfolding weight join
weight-join n [] = omega arith
weight-join n (m ∷ ms) = omega (arith, weight-join m ms, length-append n (slash ∷ join (m ∷ ms)))

pub length-join-weight : (ns : List (List ℕ)) → length (join ns) ≤ weight ns - 1
length-join-weight [] = unfold join in unfold weight in omega arith
length-join-weight (n ∷ ns) = omega (arith, weight-join n ns)

weight-append : (ns ms : List (List ℕ)) → weight (ns ++ ms) ≡ weight ns + weight ms
unfolding weight
weight-append [] ms = omega arith
weight-append (n ∷ ns) ms = omega (arith, weight-append ns ms)

weight-take : (k : ℕ) (ns : List (List ℕ)) → weight (take k ns) ≤ weight ns
unfolding weight
weight-take zero ns = omega arith
weight-take (suc k) [] = omega arith
weight-take (suc k) (n ∷ ns) = omega (arith, weight-take k ns)

weight-after_name :
    (kept : List (List ℕ)) (name : List ℕ)
    → weight (after_name kept name) ≤ weight kept + (length name + 1)
weight-after_name kept name = elim (Round-cases kept name) [
  | stays e step ↦ rw step (omega arith)
  | goes_up e step ↦ rw step (omega (arith, weight-take (length kept - 1) kept))
  | goes_down not_dot not_dots room step ↦
      rw step (unfold weight in omega (arith, weight-append kept (name ∷ [])))
  | is_full not_dot not_dots full step ↦ rw step (omega arith)
]

pub weight-after_names :
    (kept names : List (List ℕ)) → weight (after_names kept names) ≤ weight kept + weight names
unfolding after_names weight
weight-after_names kept [] = omega arith
weight-after_names kept (n ∷ ns) =
    omega (arith, weight-after_names (after_name kept n) ns, weight-after_name kept n)
