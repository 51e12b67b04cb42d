-- ===== src/Fat32/Table/Entries.antt =====
-- The file allocation table as a map from clusters to entries: what `read_fat_entry` and
-- `write_fat_entry` do to it.
use can_boot.Common.{
  ℕ, zero, suc, ◌+◌, ◌%◌, ◌^◌, ◌≤◌, ◌<◌, ◌≡◌, refl, ◌⊎◌, ◌&&◌, List, arith, ℕ_discrete, ltb, leb,
  ◌==◌, if◌then◌else◌, length,
}
use can_boot.Common.Bytes.{get32, put32, length-put32, get32-put32_self, get32-put32_ne}
use can_boot.Disk.{Disk, ok}
use can_boot.Disk.Blocks.{read_one, write_one, with_block, with_block-IsSound}
use can_boot.Fat32.{Volume}
use can_boot.Fat32.Table.{
  entry_lba, entry_offset, read_fat_entry, merge_entry, merged_sector, write_copy, write_copies,
  write_fat_entry,
}
use can_boot.Fat32.Table.Layout.{IsMounted, InTable, entry_lba-lt, entry_offset-fits, entries_apart}

-- The 32 bits of cluster `c`'s entry in copy `copy`, and the entry that the code reads.
abbrev pub copy_at : Volume → Disk → ℕ → ℕ → ℕ
copy_at fs d copy c = get32 (d.blocks (entry_lba fs copy c d)) (entry_offset fs c)

abbrev pub fat_at : Volume → Disk → ℕ → ℕ
fat_at fs d c = copy_at fs d 0 c % 2 ^ 28

-- Reading an entry of a mounted volume gives its value and leaves the disk alone.
pub read_fat_entry-IsMounted :
    (fs : Volume) (d : Disk) (c : ℕ)
    → IsMounted fs d
    → read_fat_entry fs c d ≡ (ok (fat_at fs d c), d)
unfolding read_fat_entry
read_fat_entry-IsMounted fs d c m = rw (read_one d (entry_lba fs 0 c d) m.sound)

-- The disk after one copy of one entry was replaced.
abbrev after_copy : Volume → Disk → ℕ → ℕ → ℕ → Disk
after_copy fs d copy c value =
    let lba = entry_lba fs copy c d in with_block d lba (merged_sector fs c value (d.blocks lba))

-- A 32-bit field read from a block store after one field of one block was written.
other_block :
    (l k o p v : ℕ) (f : ℕ → List ℕ) {j copy c' c : ℕ}
    → p + 4 ≤ length (f k)
    → (l ≡ k → (j ≡ copy) × ((c' ≡ c) ⊎ ((o + 4 ≤ p) ⊎ (p + 4 ≤ o))))
    → (j ≡ copy → c' ≡ c → (l ≡ k) × (o ≡ p))
    → get32 (if l == k then put32 (f k) p v else f l) o
      ≡ (if j == copy && c' == c then v % 2 ^ 32 else get32 (f l) o)
other_block l k o p v f {j} {copy} {c'} {c} room apart same = elim (ℕ_discrete l k) [
  | yes e ↦ ground (arith, apart e, same, get32-put32_self (f k) p v, get32-put32_ne (f k) p v o)
  | no e ↦ ground (arith, same)
]

module _ (fs : Volume) (d : Disk) (m : IsMounted fs d) (copy c value : ℕ) where
  merged_length :
      length (merged_sector fs c value (d.blocks (entry_lba fs copy c d))) ≡ d.block_size
  merged_length = omega (arith, length-put32, m.sound.whole)

  write_copy-IsMounted : write_copy fs c value copy d ≡ (ok tt, after_copy fs d copy c value)
  unfolding write_copy
  write_copy-IsMounted =
      rw (read_one d (entry_lba fs copy c d) m.sound)
        (write_one d (entry_lba fs copy c d) _ m.sound merged_length)

  after_copy-IsMounted : IsMounted fs (after_copy fs d copy c value)
  after_copy-IsMounted = record {
    sound = with_block-IsSound d _ _ m.sound merged_length;
    same_size = m.same_size;
    filled = m.filled;
    aligned = m.aligned;
    copies = m.copies;
    fits = m.fits;
    few = m.few;
    behind = m.behind;
    in_range = m.in_range;
  }

  module _ (hc : InTable fs c) (hk : copy < fs.num_fats) (j c' : ℕ) (hc' : InTable fs c')
      (hj : j < fs.num_fats) where
    copy_at-after_copy : copy_at fs (after_copy fs d copy c value) j c' ≡ (
        if j == copy && c' == c
        then merge_entry (copy_at fs d copy c) value % 2 ^ 32
        else copy_at fs d j c')
    copy_at-after_copy =
        other_block (entry_lba fs j c' d) (entry_lba fs copy c d) (entry_offset fs c')
          (entry_offset fs c) (merge_entry (copy_at fs d copy c) value) d.blocks
          (omega (
            arith,
            entry_offset-fits fs d m c hc,
            m.sound.whole (entry_lba fs copy c d),
            m.same_size,
          ))
          (entries_apart fs d m j c' copy c hc' hc hj hk) (λ e e'. rw (e, e') (refl, refl))

-- What a call that only writes cluster `c`'s entry, in the copies from `lo` below `hi`, leaves.
record Wrote (fs : Volume) (c value lo hi : ℕ) (d d' : Disk) : Type 0 where
  mounted : IsMounted fs d'
  entries :
      (j c' : ℕ)
      → InTable fs c'
      → j < fs.num_fats
      → copy_at fs d' j c' ≡ (
          if (leb lo j && ltb j hi) && c' == c
          then merge_entry (copy_at fs d j c) value % 2 ^ 32
          else copy_at fs d j c')
  elsewhere : (l : ℕ) → fs.data_start_lba ≤ l → d'.blocks l ≡ d.blocks l
  same_writable : d'.writable ≡ d.writable

-- One more copy at the lower end.
merge_earlier :
    (f : ℕ → ℕ) (copy hi j c c' last next own before before_own first : ℕ)
    → copy < hi
    → last ≡ (if (leb (copy + 1) j && ltb j hi) && c' == c then f own else next)
    → next ≡ (if j == copy && c' == c then f first else before)
    → own ≡ (if j == copy && c == c then f first else before_own)
    → (j ≡ copy → first ≡ before_own)
    → last ≡ (if (leb copy j && ltb j hi) && c' == c then f before_own else before)
merge_earlier f copy hi j c c' last next own before before_own first h e1 e2 e3 e4 = ground arith

Wrote-earlier :
    (fs : Volume) (c value copy : ℕ) (d d' : Disk)
    → IsMounted fs d
    → InTable fs c
    → copy < fs.num_fats
    → Wrote fs c value (copy + 1) fs.num_fats (after_copy fs d copy c value) d'
    → Wrote fs c value copy fs.num_fats d d'
Wrote-earlier fs c value copy d d' m hc h w = record {
  mounted = w.mounted;
  entries = λ j c' hc' hj.
      merge_earlier (λ old. merge_entry old value % 2 ^ 32) copy fs.num_fats j c c' _ _ _ _ _ _ h
        (w.entries j c' hc' hj) (copy_at-after_copy fs d m copy c value hc h j c' hc' hj)
        (copy_at-after_copy fs d m copy c value hc h j c hc hj) (λ e. rw e);
  elsewhere = λ l k. ground (arith, w.elsewhere l k, entry_lba-lt fs d m c hc copy h);
  same_writable = w.same_writable;
}

write_copies-Wrote :
    (fs : Volume) (c value copy n : ℕ) (d : Disk)
    → IsMounted fs d
    → InTable fs c
    → copy + n ≡ fs.num_fats
    → ((write_copies fs c value copy n d).0 ≡ ok tt)
      × Wrote fs c value copy fs.num_fats d (write_copies fs c value copy n d).1
unfolding write_copies
write_copies-Wrote fs c value copy zero d m hc e = (
  refl,
  record {
    mounted = m;
    entries = λ j c' hc' hj. ground arith;
    elsewhere = λ l h. refl;
    same_writable = refl;
  },
)
write_copies-Wrote fs c value copy (suc n) d m hc e =
    let rest =
      write_copies-Wrote fs c value (copy + 1) n (after_copy fs d copy c value)
        (after_copy-IsMounted fs d m copy c value) hc (omega arith) in
    rw (write_copy-IsMounted fs d m copy c value)
      (rest.0, Wrote-earlier fs c value copy d _ m hc (omega arith) rest.1)

-- The table after a call that set cluster `c`'s entry to the low 28 bits of `value`.
pub record Updated (fs : Volume) (c value : ℕ) (d d' : Disk) : Type 0 where
  pub mounted : IsMounted fs d'
  pub entries :
      (c' : ℕ)
      → InTable fs c'
      → fat_at fs d' c' ≡ (if c' == c then value % 2 ^ 28 else fat_at fs d c')
  pub elsewhere : (l : ℕ) → fs.data_start_lba ≤ l → d'.blocks l ≡ d.blocks l
  pub same_writable : d'.writable ≡ d.writable

-- On a mounted volume `write_fat_entry` succeeds. The entry then reads as the low 28 bits of the
-- value, every other entry and every block behind the tables is as it was, and the volume is still
-- mounted.
pub write_fat_entry-Updated :
    (fs : Volume) (c value : ℕ) (d : Disk)
    → IsMounted fs d
    → InTable fs c
    → ((write_fat_entry fs c value d).0 ≡ ok tt)
      × Updated fs c value d (write_fat_entry fs c value d).1
unfolding write_fat_entry
write_fat_entry-Updated fs c value d m hc =
    let (done, w) = write_copies-Wrote fs c value 0 fs.num_fats d m hc (omega arith) in
    (
      done,
      record {
        mounted = w.mounted;
        entries = λ c' hc'. ground (arith, w.entries 0 c' hc' m.copies);
        elsewhere = w.elsewhere;
        same_writable = w.same_writable;
      },
    )

-- Every copy of the table holds the same entries.
abbrev pub Mirrored : Volume → Disk → Type 0
Mirrored fs d =
    (copy c : ℕ) → copy < fs.num_fats → InTable fs c → copy_at fs d copy c % 2 ^ 28 ≡ fat_at fs d c

-- `write_fat_entry` keeps the copies of the table equal on a mounted volume where they are equal.
pub write_fat_entry-Mirrored :
    (fs : Volume) (c value : ℕ) (d : Disk)
    → IsMounted fs d
    → InTable fs c
    → Mirrored fs d
    → Mirrored fs (write_fat_entry fs c value d).1
unfolding write_fat_entry
write_fat_entry-Mirrored fs c value d m hc same copy c' hk hc' =
    let (done, w) = write_copies-Wrote fs c value 0 fs.num_fats d m hc (omega arith) in
    ground (arith, w.entries copy c' hc' hk, w.entries 0 c' hc' m.copies, same copy c' hk hc')
