-- ===== src/Fat32/Table/Count.antt =====
-- How many clusters are free, and how a write to one entry changes that.
use can_boot.Common.{
  ℕ, zero, suc, ◌+◌, ◌%◌, ◌^◌, ◌≤◌, ◌<◌, ◌≡◌, refl, ap, ◌≢◌, arith, ℕ_discrete, ◌==◌, if◌then◌else◌,
  ne→==,
}
use can_boot.Disk.{Disk}
use can_boot.Fat32.{Volume}
use can_boot.Fat32.Table.Entries.{fat_at, Updated}

-- The free ones among the first `n` clusters, whose numbers begin at 2.
pub count_free : Volume → Disk → ℕ → ℕ
count_free fs d zero = 0
count_free fs d (suc n) = count_free fs d n + (if fat_at fs d (n + 2) == 0 then 1 else 0)

abbrev pub free_clusters : Volume → Disk → ℕ
free_clusters fs d = count_free fs d fs.total_clusters

pub count_free-none :
    (fs : Volume) (d : Disk) (n : ℕ)
    → ((y : ℕ) → 2 ≤ y → y < n + 2 → fat_at fs d y ≢ 0)
    → count_free fs d n ≡ 0
unfolding count_free
count_free-none fs d zero used = refl
count_free-none fs d (suc n) used =
    let before = count_free-none fs d n (λ y low high. used y low (omega arith)) in
    rw (before, ne→== _ 0 (used (n + 2) (omega arith) (omega arith)))

module _ (fs : Volume) (c value : ℕ) (d d' : Disk) (u : Updated fs c value d d') where
  -- A write above the range does not count.
  count_free-above :
      (n : ℕ) → n ≤ fs.total_clusters → n + 2 ≤ c → count_free fs d' n ≡ count_free fs d n
  unfolding count_free
  count_free-above zero h above = refl
  count_free-above (suc n) h above =
      let same : fat_at fs d' (n + 2) ≡ fat_at fs d (n + 2) =
        ground (arith, u.entries (n + 2) (omega arith)) in
      rw (same, count_free-above n (omega arith) (omega arith))

  -- Taking a free cluster leaves one fewer.
  pub count_free-take :
      (n : ℕ)
      → n ≤ fs.total_clusters
      → 2 ≤ c
      → c < n + 2
      → fat_at fs d c ≡ 0
      → value % 2 ^ 28 ≢ 0
      → count_free fs d' n + 1 ≡ count_free fs d n
  unfolding count_free
  count_free-take zero h low high free taken = absurd (omega arith)
  count_free-take (suc n) h low high free taken = elim (ℕ_discrete c (n + 2)) [
    | yes last ↦ ground (
      arith,
      u.entries (n + 2) (omega arith),
      count_free-above n (omega arith) (omega arith),
      ap (λ (t : ℕ). fat_at fs d t) last,
    )
    | no before ↦ ground (
      arith,
      u.entries (n + 2) (omega arith),
      count_free-take n (omega arith) low (omega arith) free taken,
    )
  ]
