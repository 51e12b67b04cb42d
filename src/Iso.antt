-- ===== src/Iso.antt =====
-- fs/iso9660.c: reading the root directory and the files of an ISO 9660 image. `old` is what the
-- static buffer of a function held before, which is left behind a read that does not fill it.
pub mod Records
pub mod Matches
pub mod Directory
pub mod Contents
use can_boot.Common.{
  ℕ, zero, suc, ◌+◌, ◌-◌, ◌*◌, ◌/◌, ◌%◌, ◌^◌, ◌≤◌, ◌<◌, min, ◌≡◌, refl, sym, ap, ap₂, ◌∙◌, fun_ext,
  ◌≢◌, ◌↔◌, ◌⊎◌, inl, inr, Bool, true, false, not, ◌&&◌, ◌||◌, Option, none, some, List, [], ◌∷◌,
  ◌++◌, map, append-nil, append_assoc, arith, dec_lt, dec_le, ℕ_discrete, ltb, leb, ◌==◌,
  if◌then◌else◌, ltb→lt, lt→ltb, le→ltb, ltb→le, le→leb, lt→leb, leb→le, leb→lt, ==→eq, ==→ne,
  eq→==, ne→==, Bool-cases, u8, u16, u32, u64, length, get_or, set, take, drop, replicate, All,
  length-append, length-set, get_or-set_self, get_or-set_ne, length-take, length-drop,
  length-replicate, take_all, take-append-drop, take-length-append, drop-length-append, All-append,
  same_bytes, same_bytes→eq, same_bytes_self, contains, get_or-take, get_or-drop, take-get_or-drop,
  take-take, All-of_index,
}
use can_boot.Common.Bytes.{byte_at, get32}
use can_boot.Disk.{
  Outcome, ok, err, fault, out_of_fuel, Disk, Io, pure, fail, trap, get_disk, require, read, ◌>>=◌,
  ◌>>◌,
}
use can_boot.Fat32.Names.{before, upcase}

-- ISO_BLOCK
abbrev pub iso_block : ℕ
iso_block = 2048

-- `struct canboot_iso`
pub record Iso : Type 0 where
  pub sectors_per : ℕ
  pub root_lba : ℕ
  pub root_size : ℕ

-- `*out_lba` and `*out_size`
pub record Extent : Type 0 where
  pub lba : ℕ
  pub size : ℕ

-- `d->read(d, lba, n, buf)` into a buffer of 2048 bytes.
unfoldable pub read_into : List ℕ → ℕ → ℕ → Io (List ℕ)
read_into old lba n = do
  d ← get_disk
  let load = (do t ← read lba n; pure (t ++ drop (length t) old))
  if ltb iso_block (n * d.block_size) then trap else load

abbrev pub per_block : ℕ → ℕ
per_block block_size = if iso_block / block_size == 0 then 1 else iso_block / block_size

-- "CD001"
abbrev magic : List ℕ
magic = 0x43 ∷ 0x44 ∷ 0x30 ∷ 0x30 ∷ 0x31 ∷ []

-- `canboot_iso_open`: the record of the root directory is taken from byte 164 of the descriptor.
unfoldable pub open_iso : List ℕ → Io Iso
open_iso old = do
  d ← get_disk
  require (not (d.block_size == 0))
  buf ← read_into old (16 * per_block d.block_size) (per_block d.block_size)
  require (byte_at buf 0 == 1)
  require (same_bytes (take 5 (drop 1 buf)) magic)
  pure (record {
    sectors_per = per_block d.block_size;
    root_lba = get32 buf 166;
    root_size = get32 buf 174;
  })

abbrev pub icase_eq : List ℕ → List ℕ → Bool
icase_eq a b = same_bytes (map upcase a) (map upcase b)

abbrev pub semicolon : ℕ
semicolon = 0x3B

-- The name field of the record at the head of the text.
abbrev pub raw_name : List ℕ → List ℕ
raw_name text = take (byte_at text 32) (drop 33 text)

-- Does the search for the version read over the end of the buffer?
abbrev pub runs_over : List ℕ → Bool
runs_over text =
    ltb (length text) 33
    || (not (contains semicolon (raw_name text)) && ltb (length text) (33 + byte_at text 32))

-- A record of this name, whose version is not compared. The names 0 and 1 are the directory itself
-- and its parent.
unfoldable pub has_name : List ℕ → List ℕ → Bool
has_name name found =
    let n = length found in
    let special = n == 1 && (byte_at found 0 == 0 || byte_at found 0 == 1) in
    ltb 0 n && not special && icase_eq found name

abbrev pub extent_of : List ℕ → Extent
extent_of text = record { lba = get32 text 2; size = get32 text 10 }

-- The inner loop of `canboot_iso_lookup`: the records of one block from here on.
unfoldable pub scan : List ℕ → ℕ → List ℕ → Outcome (Option Extent)
scan name zero text = out_of_fuel
scan name (suc fuel) [] = ok none
scan name (suc fuel) (len ∷ rest) =
    let text = len ∷ rest in
    let onward = scan name fuel (drop len text) in
    if len == 0
    then ok none
    else if runs_over text
    then fault
    else if has_name name (before semicolon (raw_name text))
    then ok (some (extent_of text))
    else onward

-- Block `lba` of the image.
abbrev pub read_sector : List ℕ → Iso → ℕ → Io (List ℕ)
read_sector old iso lba = read_into old (u64 (lba * iso.sectors_per)) iso.sectors_per

abbrev pub next_block : Outcome (Option Extent) → Io Extent → Io Extent
next_block (ok (some e)) onward d = (ok e, d)
next_block (ok none) onward d = onward d
next_block err onward d = (err, d)
next_block fault onward d = (fault, d)
next_block out_of_fuel onward d = (out_of_fuel, d)

-- The outer loop of `canboot_iso_lookup`. A record takes at least one byte of its block.
unfoldable pub lookup_from : List ℕ → Iso → List ℕ → ℕ → ℕ → ℕ → Io Extent
lookup_from old iso name zero lba remaining = λ d. (out_of_fuel, d)
lookup_from old iso name (suc fuel) lba remaining =
    let onward =
      if ltb remaining iso_block
      then fail
      else lookup_from old iso name fuel (u32 (lba + 1)) (remaining - iso_block) in
    let round = (do
      buf ← read_sector old iso lba
      next_block (scan name (iso_block + 1) buf) onward) in
    if remaining == 0 then fail else round

-- `canboot_iso_lookup`
abbrev pub lookup : List ℕ → Iso → List ℕ → Io Extent
lookup old iso name =
    lookup_from old iso name (iso.root_size / iso_block + 2) iso.root_lba iso.root_size

-- The loop of `canboot_iso_read_file`: `n` blocks from `lba` on, where `copied` of `to_read` bytes
-- are there already.
unfoldable pub read_blocks : List ℕ → Iso → ℕ → ℕ → ℕ → ℕ → Io (List ℕ)
read_blocks old iso zero lba copied to_read = pure []
read_blocks old iso (suc n) lba copied to_read = do
  let chunk = if ltb to_read (u32 (copied + iso_block)) then to_read - copied else iso_block
  tmp ← read_sector old iso (u32 lba)
  rest ← read_blocks old iso n (lba + 1) (u32 (copied + chunk)) to_read
  pure (take chunk tmp ++ rest)

-- `canboot_iso_read_file`: the bytes put into the buffer.
unfoldable pub read_file : List ℕ → Iso → ℕ → ℕ → ℕ → Io (List ℕ)
read_file old iso lba size buf_size =
    let to_read = if ltb size buf_size then size else buf_size in
    read_blocks old iso (u32 (to_read + 2047) / iso_block) lba 0 to_read
