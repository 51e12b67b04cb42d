-- ===== src/Fat32/Table/Layout.antt =====
-- Where the entries of the file allocation table lie, on a volume whose layout is consistent.
use can_boot.Common.{ℕ, ◌+◌, ◌*◌, ◌/◌, ◌%◌, ◌^◌, ◌≤◌, ◌<◌, ◌≡◌, ap, ◌⊎◌, arith, dec_lt}
use native.Mathlib.Nat.{div_self, div-add-mod, mod-lt, div-lt_iff_lt-mul, mul-le-mul_right}
use can_boot.Disk.{Disk}
use can_boot.Disk.Blocks.{IsSound}
use can_boot.Fat32.{Volume, eoc}
use can_boot.Fat32.Table.{sector_blocks, entry_lba, entry_offset, fat_offset}

-- The volume `fs` as a working disk `d` carries it: sectors are the disk's blocks, table entries do
-- not straddle them, every copy of the table has room for each cluster's entry, and the data
-- clusters lie behind the last copy.
pub record IsMounted (fs : Volume) (d : Disk) : Type 0 where
  pub sound : IsSound d
  pub same_size : d.block_size ≡ fs.bytes_per_sector
  pub filled : 0 < fs.bytes_per_sector
  pub aligned : fs.bytes_per_sector % 4 ≡ 0
  pub copies : 0 < fs.num_fats
  pub fits : (fs.total_clusters + 2) * 4 ≤ fs.sectors_per_fat * fs.bytes_per_sector
  pub few : fs.total_clusters + 2 < eoc
  pub behind : fs.fat_start_lba + fs.num_fats * fs.sectors_per_fat ≤ fs.data_start_lba
  pub in_range : fs.data_start_lba < 2 ^ 64

-- Clusters with an entry in the table.
abbrev pub InTable : Volume → ℕ → Type 0
InTable fs c = c < fs.total_clusters + 2

-- The sector within one copy of the table.
abbrev pub entry_sector : Volume → ℕ → ℕ
entry_sector fs c = fat_offset c / fs.bytes_per_sector

module _ (fs : Volume) (d : Disk) (m : IsMounted fs d) where
  pub sector_blocks-eq-one : sector_blocks fs d ≡ 1
  sector_blocks-eq-one = rw (m.same_size, div_self m.filled)

  module _ (c : ℕ) (inside : InTable fs c) where
    pub entry_sector-lt : entry_sector fs c < fs.sectors_per_fat
    entry_sector-lt = (div-lt_iff_lt-mul m.filled).1 (omega arith)

    pub entry_sector-offset : fs.bytes_per_sector * entry_sector fs c + entry_offset fs c ≡ c * 4
    entry_sector-offset = omega (arith, div-add-mod (fat_offset c) fs.bytes_per_sector)

    entry_offset-lt : entry_offset fs c < fs.bytes_per_sector
    entry_offset-lt = mod-lt (fat_offset c) m.filled

    -- An entry starts at a multiple of four, and so ends inside its sector.
    entry_offset_aligned : entry_offset fs c % 4 ≡ 0
    entry_offset_aligned =
        let quarter : fs.bytes_per_sector ≡ 4 * (fs.bytes_per_sector / 4) =
          omega (arith, m.aligned) in
        omega (arith, entry_sector-offset, ap (λ (t : ℕ). t * entry_sector fs c) quarter)

    pub entry_offset-fits : entry_offset fs c + 4 ≤ fs.bytes_per_sector
    entry_offset-fits = omega (arith, entry_offset_aligned, entry_offset-lt, m.aligned)

    copy_room :
        (copy : ℕ)
        → copy < fs.num_fats
        → copy * fs.sectors_per_fat + fs.sectors_per_fat ≤ fs.num_fats * fs.sectors_per_fat
    copy_room copy h = omega (arith, mul-le-mul_right fs.sectors_per_fat h)

    pub entry_lba-eq :
        (copy : ℕ)
        → copy < fs.num_fats
        → entry_lba fs copy c d ≡ fs.fat_start_lba + copy * fs.sectors_per_fat + entry_sector fs c
    entry_lba-eq copy h =
        rw sector_blocks-eq-one
          (omega (arith, copy_room copy h, entry_sector-lt, m.behind, m.in_range))

    -- No entry lies in a data cluster.
    pub entry_lba-lt : (copy : ℕ) → copy < fs.num_fats → entry_lba fs copy c d < fs.data_start_lba
    entry_lba-lt copy h =
        omega (arith, entry_lba-eq copy h, copy_room copy h, entry_sector-lt, m.behind)

-- Two numbers in base `s` agree only digit by digit.
digits_unique : (s j k a b : ℕ) → a < s → b < s → j * s + a ≡ k * s + b → (j ≡ k) × (a ≡ b)
digits_unique s j k a b ha hb e = elim (dec_lt j k) [
  | yes p ↦ absurd (omega (arith, mul-le-mul_right s p))
  | no p ↦ elim (dec_lt k j) [
    | yes q ↦ absurd (omega (arith, mul-le-mul_right s q))
    | no q ↦ let same : j ≡ k = omega arith in (same, omega (arith, ap (λ (t : ℕ). t * s) same))
  ]
]

module _ (fs : Volume) (d : Disk) (m : IsMounted fs d) (j c k c' : ℕ) where
  -- Entries in one block are in one copy and one sector of it.
  entry_lba-injective :
      InTable fs c
      → InTable fs c'
      → j < fs.num_fats
      → k < fs.num_fats
      → entry_lba fs j c d ≡ entry_lba fs k c' d
      → (j ≡ k) × (entry_sector fs c ≡ entry_sector fs c')
  entry_lba-injective hc hc' hj hk e =
      digits_unique fs.sectors_per_fat j k (entry_sector fs c) (entry_sector fs c')
        (entry_sector-lt fs d m c hc) (entry_sector-lt fs d m c' hc')
        (omega (arith, entry_lba-eq fs d m c hc j hj, entry_lba-eq fs d m c' hc' k hk))

  -- Different entries in one block do not overlap.
  pub entries_apart :
      InTable fs c
      → InTable fs c'
      → j < fs.num_fats
      → k < fs.num_fats
      → entry_lba fs j c d ≡ entry_lba fs k c' d
      → (j ≡ k)
        × ((c ≡ c')
            ⊎ ((entry_offset fs c + 4 ≤ entry_offset fs c')
                ⊎ (entry_offset fs c' + 4 ≤ entry_offset fs c)))
  entries_apart hc hc' hj hk e =
      let (same, sector) = entry_lba-injective hc hc' hj hk e in
      (
        same,
        ground (
          arith,
          entry_sector-offset fs d m c hc,
          entry_sector-offset fs d m c' hc',
          ap (λ (t : ℕ). fs.bytes_per_sector * t) sector,
        ),
      )
