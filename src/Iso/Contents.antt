-- ===== src/Iso/Contents.antt =====
-- The bytes that `canboot_iso_read_file` of fs/iso9660.c reads.
use can_boot.Common.{
  ℕ, zero, suc, ◌+◌, ◌-◌, ◌*◌, ◌/◌, ◌^◌, ◌≤◌, ◌<◌, min, ◌≡◌, refl, sym, ap, ap₂, ◌∙◌, inl, inr,
  false, List, [], ◌∷◌, ◌++◌, append-nil, arith, ltb, if◌then◌else◌, ltb→lt, le→ltb, ltb→le,
  Bool-cases, u32, u64, length, take, drop, length-append, take_all,
}
use can_boot.Disk.{ok, Disk, block_run}
use can_boot.Disk.Blocks.{IsSound, read-IsSound}
use can_boot.Iso.{Iso, iso_block, read_into, read_sector, read_blocks, read_file}

-- The disk works, and an image block is a whole number of its blocks.
pub record IsImage (iso : Iso) (d : Disk) : Type 0 where
  pub sound : IsSound d
  pub divides : iso.sectors_per * d.block_size ≡ iso_block
  pub few : iso.sectors_per ≤ iso_block

-- Block `lba` of the image, and `n` of them.
abbrev pub image_block : Iso → Disk → ℕ → List ℕ
image_block iso d lba = block_run d.blocks (lba * iso.sectors_per) iso.sectors_per

unfoldable pub image_from : Iso → Disk → ℕ → ℕ → List ℕ
image_from iso d lba zero = []
image_from iso d lba (suc n) = image_block iso d lba ++ image_from iso d (lba + 1) n

length-block_run :
    (d : Disk) (lba n : ℕ) → IsSound d → length (block_run d.blocks lba n) ≡ n * d.block_size
length-block_run d lba zero s = omega arith
length-block_run d lba (suc n) s =
    let rest = length-block_run d (lba + 1) n s in
    let more : suc n * d.block_size ≡ d.block_size + n * d.block_size = grind arith in
    length-append (d.blocks lba) (block_run d.blocks (lba + 1) n)
    ∙ ap₂ (λ (a b : ℕ). a + b) (s.whole lba) rest
    ∙ sym more

pub length-image_block :
    (iso : Iso) (d : Disk) (lba : ℕ) → IsImage iso d → length (image_block iso d lba) ≡ iso_block
length-image_block iso d lba i =
    length-block_run d (lba * iso.sectors_per) iso.sectors_per i.sound ∙ i.divides

drop_all : (n : ℕ) (xs : List ℕ) → length xs ≤ n → drop n xs ≡ []
drop_all zero [] h = refl
drop_all zero (x ∷ xs) h = absurd (omega arith)
drop_all (suc n) [] h = refl
drop_all (suc n) (x ∷ xs) h = drop_all n xs (omega arith)

-- A block of the image is read as it stands, whatever the buffer held.
pub read_sector-image_block :
    (old : List ℕ) (iso : Iso) (lba : ℕ) (d : Disk)
    → IsImage iso d
    → length old ≤ iso_block
    → lba * iso.sectors_per < 2 ^ 64
    → read_sector old iso lba d ≡ (ok (image_block iso d lba), d)
unfolding read_into
read_sector-image_block old iso lba d i fits small =
    let within : u64 (lba * iso.sectors_per) ≡ lba * iso.sectors_per = omega (arith, small) in
    let no_trap : ltb iso_block (iso.sectors_per * d.block_size) ≡ false =
      le→ltb iso_block (iso.sectors_per * d.block_size) (omega (arith, i.divides)) in
    rw
      (
        within,
        no_trap,
        read-IsSound d (lba * iso.sectors_per) iso.sectors_per i.sound,
        length-image_block iso d lba i,
        drop_all iso_block old fits,
        append-nil (image_block iso d lba),
      )
      refl

take_none : (k : ℕ) → take {A = ℕ} k [] ≡ []
take_none zero = refl
take_none (suc k) = refl

pub lba_bound : (a b : ℕ) → a < 2 ^ 32 → b ≤ iso_block → a * b < 2 ^ 64
lba_bound a b ha hb = grind arith

take-append : (k : ℕ) (xs ys : List ℕ) → take k (xs ++ ys) ≡ take k xs ++ take (k - length xs) ys
take-append k [] ys = let same : k - 0 ≡ k = omega arith in rw (same, take_none k) refl
take-append zero (x ∷ xs) ys =
    let none_left : 0 - suc (length xs) ≡ 0 = omega arith in rw none_left refl
take-append (suc k) (x ∷ xs) ys =
    let less : suc k - suc (length xs) ≡ k - length xs = omega arith in
    rw less (ap (λ (t : List ℕ). x ∷ t) (take-append k xs ys))

-- How many bytes a round copies.
abbrev chunk_of : ℕ → ℕ → ℕ
chunk_of copied to_read =
    if ltb to_read (u32 (copied + iso_block)) then to_read - copied else iso_block

chunk_of-take :
    (copied to_read : ℕ) (block rest : List ℕ)
    → length block ≡ iso_block
    → copied ≤ to_read
    → to_read + iso_block < 2 ^ 32
    → (copied + chunk_of copied to_read ≤ to_read)
      × (to_read - (copied + chunk_of copied to_read) ≡ (to_read - copied) - iso_block)
      × (take (chunk_of copied to_read) block ≡ take (to_read - copied) block)
chunk_of-take copied to_read block rest size inside small =
    let plain : u32 (copied + iso_block) ≡ copied + iso_block = omega (arith, small, inside) in
    elim (Bool-cases (ltb to_read (copied + iso_block))) [
      | inl h ↦
          let lt = ltb→lt to_read (copied + iso_block) h in
          rw (plain, h) (omega (arith, inside), omega (arith, inside, lt), refl)
      | inr h ↦
          let le = ltb→le to_read (copied + iso_block) h in
          rw (plain, h)
            (
              omega (arith, le),
              omega (arith, le),
              take_all iso_block block (omega (arith, size))
                  ∙ sym (take_all (to_read - copied) block (omega (arith, size, le))),
            )
    ]

read_blocks-image_from :
    (old : List ℕ) (iso : Iso) (n lba copied to_read : ℕ) (d : Disk)
    → IsImage iso d
    → length old ≤ iso_block
    → copied ≤ to_read
    → to_read + iso_block < 2 ^ 32
    → lba + n ≤ 2 ^ 32
    → to_read ≤ copied + n * iso_block
    → read_blocks old iso n lba copied to_read d
      ≡ (ok (take (to_read - copied) (image_from iso d lba n)), d)
unfolding read_blocks image_from
read_blocks-image_from old iso zero lba copied to_read d i fits inside small room enough =
    rw (take_none (to_read - copied)) refl
read_blocks-image_from old iso (suc n) lba copied to_read d i fits inside small room enough =
    let block = image_block iso d lba in
    let (bounded, left, taken) =
      chunk_of-take copied to_read block [] (length-image_block iso d lba i) inside small in
    let whole_lba : u32 lba ≡ lba = omega (arith, room) in
    let whole_sum : u32 (copied + chunk_of copied to_read) ≡ copied + chunk_of copied to_read =
      omega (arith, bounded, small) in
    let bound = lba_bound lba iso.sectors_per (omega (arith, room)) i.few in
    let rest =
      read_blocks-image_from old iso n (lba + 1) (copied + chunk_of copied to_read) to_read d i fits
        bounded small (omega (arith, room)) (omega (arith, enough, left, bounded)) in
    rw (whole_lba, read_sector-image_block old iso lba d i fits bound, whole_sum, rest, taken, left)
      (ap (λ (t : List ℕ). (ok t, d))
        (ap
            (λ (k : ℕ).
              take (to_read - copied) block
              ++ take (to_read - copied - k) (image_from iso d (lba + 1) n))
            (sym (length-image_block iso d lba i))
          ∙ sym (take-append (to_read - copied) block (image_from iso d (lba + 1) n))))

-- `canboot_iso_read_file` puts the first bytes of the file into the buffer, as many as both the file
-- and the buffer have, from the blocks that the file stands in, whatever the static buffer held. The
-- file ends below block 2 ^ 32 and has fewer than 2 ^ 32 - 2048 bytes.
pub read_file-image_from :
    (old : List ℕ) (iso : Iso) (lba size buf_size : ℕ) (d : Disk)
    → IsImage iso d
    → length old ≤ iso_block
    → size + iso_block < 2 ^ 32
    → lba + (min size buf_size + 2047) / iso_block ≤ 2 ^ 32
    → read_file old iso lba size buf_size d ≡ (
      ok (take (min size buf_size) (image_from iso d lba ((min size buf_size + 2047) / iso_block))),
      d,
    )
unfolding read_file
read_file-image_from old iso lba size buf_size d i fits small room =
    let smaller : (if ltb size buf_size then size else buf_size) ≡ min size buf_size =
      ground arith in
    let plain : u32 (min size buf_size + 2047) ≡ min size buf_size + 2047 = omega (arith, small) in
    let whole : min size buf_size - 0 ≡ min size buf_size = omega arith in
    rw (smaller, plain)
      (read_blocks-image_from old iso ((min size buf_size + 2047) / iso_block) lba 0
          (min size buf_size) d i fits (omega arith) (omega (arith, small)) room (omega arith)
        ∙ rw whole refl)
