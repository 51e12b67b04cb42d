-- ===== src/Fat32/Table/Search.antt =====
-- `find_free_cluster` returns the lowest free cluster.
use can_boot.Common.{
  ℕ, zero, suc, ◌+◌, ◌≤◌, ◌<◌, ◌≡◌, refl, ◌≢◌, inl, inr, arith, ℕ_discrete, ◌==◌, ==→eq, ==→ne,
  Bool-cases,
}
use can_boot.Disk.{Disk, Outcome, ok, err, fault, out_of_fuel}
use can_boot.Fat32.{Volume}
use can_boot.Fat32.Table.{find_free_from, find_free_cluster}
use can_boot.Fat32.Table.Layout.{IsMounted}
use can_boot.Fat32.Table.Entries.{fat_at, read_fat_entry-IsMounted}

-- What a search for a free cluster from `c` below `hi` reports: the lowest one that there is, or
-- failure where there is none.
abbrev pub FirstFree : Volume → Disk → ℕ → ℕ → Outcome ℕ → Type 0
FirstFree fs d c hi (ok x) =
    (c ≤ x) × (x < hi) × (fat_at fs d x ≡ 0) × ((y : ℕ) → c ≤ y → y < x → fat_at fs d y ≢ 0)
FirstFree fs d c hi err = (y : ℕ) → c ≤ y → y < hi → fat_at fs d y ≢ 0
FirstFree fs d c hi fault = ⊥
FirstFree fs d c hi out_of_fuel = ⊥

-- A search that begins one cluster later, where this one is in use.
FirstFree-later :
    (fs : Volume) (d : Disk) (c hi : ℕ) (r : Outcome ℕ)
    → fat_at fs d c ≢ 0
    → FirstFree fs d (c + 1) hi r
    → FirstFree fs d c hi r
FirstFree-later fs d c hi (ok x) used (low, high, free, none_before) = (
  omega arith,
  high,
  free,
  λ y hy hx. elim (ℕ_discrete y c) [ yes e ↦ rw e used | no ne ↦ none_before y (omega arith) hx ],
)
FirstFree-later fs d c hi err used none_there =
    λ y hy hx. elim (ℕ_discrete y c) [ yes e ↦ rw e used | no ne ↦ none_there y (omega arith) hx ]
FirstFree-later fs d c hi fault used h = h
FirstFree-later fs d c hi out_of_fuel used h = h

find_free_from-FirstFree :
    (fs : Volume) (d : Disk) (c n hi : ℕ)
    → IsMounted fs d
    → c + n ≡ hi
    → ((find_free_from fs c n d).1 ≡ d) × FirstFree fs d c hi (find_free_from fs c n d).0
unfolding find_free_from
find_free_from-FirstFree fs d c zero hi m e = (refl, λ y a b. absurd (omega arith))
find_free_from-FirstFree fs d c (suc n) hi m e =
    let rest = find_free_from-FirstFree fs d (c + 1) n hi m (omega arith) in
    rw (read_fat_entry-IsMounted fs d c m) (elim (Bool-cases (fat_at fs d c == 0)) [
      | inl free ↦
          rw free (refl, (omega arith, omega arith, ==→eq _ 0 free, λ y a b. absurd (omega arith)))
      | inr used ↦ rw used (rest.0, FirstFree-later fs d c hi _ (==→ne _ 0 used) rest.1)
    ])

-- On a mounted volume `find_free_cluster` leaves the disk alone. It returns the lowest cluster whose
-- table entry is 0, and fails exactly when no cluster of the volume has such an entry; nothing else
-- can happen.
pub find_free_cluster-FirstFree :
    (fs : Volume) (d : Disk)
    → IsMounted fs d
    → ((find_free_cluster fs d).1 ≡ d)
      × FirstFree fs d 2 (fs.total_clusters + 2) (find_free_cluster fs d).0
unfolding find_free_cluster
find_free_cluster-FirstFree fs d m =
    find_free_from-FirstFree fs d 2 _ (fs.total_clusters + 2) m (omega (arith, m.few))
