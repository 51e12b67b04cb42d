-- ===== src/Iso/Directory.antt =====
-- What `canboot_iso_lookup` of fs/iso9660.c finds in a directory that is written as the standard says.
use can_boot.Common.{
  ℕ, zero, suc, ◌+◌, ◌-◌, ◌*◌, ◌/◌, ◌^◌, ◌≤◌, ◌<◌, ◌≡◌, refl, ap, ◌∙◌, false, Option, none, some,
  List, [], ◌∷◌, ◌++◌, arith, ltb, ◌==◌, le→ltb, ne→==, u32, length, All,
}
use can_boot.Disk.{Outcome, ok, err, Disk, Io}
use can_boot.Iso.{Iso, Extent, iso_block, next_block, lookup_from, lookup}
use can_boot.Common.First.{First, nowhere, or_else, First-parts}
use can_boot.Iso.Matches.{Matches, First-first_match}
use can_boot.Iso.Contents.{
  IsImage, image_block, length-image_block, lba_bound, read_sector-image_block,
}
use can_boot.Iso.Records.{Record, IsRecord, laid, first_match, scan-first_match, length-laid}

-- The blocks of the image from `lba` on hold these records, block by block.
unfoldable pub Holds : Iso → Disk → ℕ → List (List Record) → Type 0
Holds iso d lba [] = Unit {0}
Holds iso d lba (rs ∷ rss) =
    ((filler : ℕ) × (image_block iso d lba ≡ laid rs filler))
    × (All IsRecord rs × Holds iso d (lba + 1) rss)

-- What a search over all blocks finds.
unfoldable first_match_in : List ℕ → List (List Record) → Option Extent
first_match_in name [] = none
first_match_in name (rs ∷ rss) = or_else (first_match name rs) (first_match_in name rss)

abbrev pub found : Option Extent → Outcome Extent
found none = err
found (some e) = ok e

next_block-found :
    (first rest : Option Extent) (onward : Io Extent) (d : Disk)
    → onward d ≡ (found rest, d)
    → next_block (ok first) onward d ≡ (found (or_else first rest), d)
next_block-found none rest onward d h = h
next_block-found (some e) rest onward d h = refl

lookup_from-Holds :
    (old : List ℕ) (iso : Iso) (name : List ℕ) (d : Disk) (fuel lba : ℕ) (rss : List (List Record))
    → IsImage iso d
    → length old ≤ iso_block
    → Holds iso d lba rss
    → length rss < fuel
    → lba + length rss < 2 ^ 32
    → lookup_from old iso name fuel lba (length rss * iso_block) d
      ≡ (found (first_match_in name rss), d)
unfolding lookup_from Holds first_match_in
lookup_from-Holds old iso name d zero lba rss i fits h enough room = absurd (omega arith)
lookup_from-Holds old iso name d (suc fuel) lba [] i fits h enough room = refl
lookup_from-Holds old iso name d (suc fuel) lba (rs ∷ rss) i fits h enough room =
    let ((filler, block), (records, later)) = h in
    let more : suc (length rss) * iso_block == 0 ≡ false =
      ne→== (suc (length rss) * iso_block) 0 (omega arith) in
    let goes_on : ltb (suc (length rss) * iso_block) iso_block ≡ false =
      le→ltb (suc (length rss) * iso_block) iso_block (omega arith) in
    let next : u32 (lba + 1) ≡ lba + 1 = omega (arith, room) in
    let left : suc (length rss) * iso_block - iso_block ≡ length rss * iso_block = omega arith in
    let bound = lba_bound lba iso.sectors_per (omega (arith, room)) i.few in
    let size : length rs < 2049 =
      omega
        (arith, length-laid rs filler records, ap length block, length-image_block iso d lba i) in
    let rest =
      lookup_from-Holds old iso name d fuel (lba + 1) rss i fits later (omega arith)
        (omega (arith, room)) in
    rw
      (
        more,
        read_sector-image_block old iso lba d i fits bound,
        block,
        scan-first_match name 2049 rs filler records size,
        goes_on,
        next,
        left,
      )
      (next_block-found (first_match name rs) (first_match_in name rss) _ d rest)

lookup-first_match_in :
    (old : List ℕ) (iso : Iso) (name : List ℕ) (d : Disk) (rss : List (List Record))
    → IsImage iso d
    → length old ≤ iso_block
    → Holds iso d iso.root_lba rss
    → iso.root_size ≡ length rss * iso_block
    → iso.root_lba + length rss < 2 ^ 32
    → lookup old iso name d ≡ (found (first_match_in name rss), d)
lookup-first_match_in old iso name d rss i fits h size room =
    let blocks : iso.root_size / iso_block ≡ length rss = omega (arith, size) in
    ap (λ (n : ℕ). lookup_from old iso name n iso.root_lba iso.root_size d)
      (ap (λ (k : ℕ). k + 2) blocks)
    ∙ ap (λ (n : ℕ). lookup_from old iso name (length rss + 2) iso.root_lba n d) size
    ∙ lookup_from-Holds old iso name d (length rss + 2) iso.root_lba rss i fits h (omega arith) room

-- All records of a directory, in order.
abbrev pub all_records : List (List Record) → List Record
all_records [] = []
all_records (rs ∷ rss) = rs ++ all_records rss

First-first_match_in :
    (name : List ℕ) (rss : List (List Record))
    → First (Matches name) (all_records rss) (first_match_in name rss)
unfolding first_match_in
First-first_match_in name [] = nowhere
First-first_match_in name (rs ∷ rss) =
    First-parts rs (all_records rss) (first_match name rs) (first_match_in name rss)
      (First-first_match name rs) (First-first_match_in name rss)

-- In an image whose root directory fills whole blocks with records as the standard lays them out,
-- `canboot_iso_lookup` ends with the disk as it was, and gives the place and size of the first record
-- whose name, up to its first semicolon, is the name sought but for upper and lower case; it returns
-- false exactly where no record has that name. The names of the directory itself and of its parent
-- match nothing.
pub lookup-Holds :
    (old : List ℕ) (iso : Iso) (name : List ℕ) (d : Disk) (rss : List (List Record))
    → IsImage iso d
    → length old ≤ iso_block
    → Holds iso d iso.root_lba rss
    → iso.root_size ≡ length rss * iso_block
    → iso.root_lba + length rss < 2 ^ 32
    → (r : Option Extent) × (lookup old iso name d ≡ (found r, d))
      × First (Matches name) (all_records rss) r
lookup-Holds old iso name d rss i fits h size room = (
  first_match_in name rss,
  lookup-first_match_in old iso name d rss i fits h size room,
  First-first_match_in name rss,
)
