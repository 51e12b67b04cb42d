-- ===== src/Partition.antt =====
-- fs/partition.c: the tables of partitions on a disk, their constants and the reading of them.
-- A header and an entry are their bytes; fields stand at their offsets in the packed structures.
-- The C code's 512-byte buffers are written out: a transfer that would leave one is a `fault`.
-- Bytes of such a buffer behind a block shorter than 512 bytes are taken as 0.
pub mod Checksum
pub mod Write
use can_boot.Common.{
  ℕ, zero, suc, ◌+◌, ◌-◌, ◌*◌, ◌/◌, ◌%◌, ◌^◌, ◌≤◌, ◌<◌, min, ◌≡◌, refl, sym, ap, ap₂, ◌∙◌, fun_ext,
  ◌≢◌, ◌↔◌, ◌⊎◌, inl, inr, Bool, true, false, not, ◌&&◌, ◌||◌, Option, none, some, List, [], ◌∷◌,
  ◌++◌, map, append-nil, append_assoc, arith, dec_lt, dec_le, ℕ_discrete, ltb, leb, ◌==◌,
  if◌then◌else◌, ltb→lt, lt→ltb, le→ltb, ltb→le, ==→eq, ==→ne, eq→==, ne→==, Bool-cases, u8, u16,
  u32, u64, length, get_or, set, take, drop, replicate, All, length-append, length-set,
  get_or-set_self, get_or-set_ne, length-take, length-drop, length-replicate, take_all,
  take-append-drop, take-length-append, drop-length-append, All-append, same_bytes, same_bytes→eq,
  same_bytes_self, contains, get_or-take, get_or-drop, take-get_or-drop, take-take, All-of_index,
}
use can_boot.Common.Bytes.{byte_at, get16, get32, put16, put32, blit}
use can_boot.Disk.{
  Disk, Io, pure, fail, trap, get_disk, resume, ◌>>=◌, ◌>>◌, require, read, write, Outcome, ok, err,
  fault, out_of_fuel,
}
use Checksum.{crc32}

abbrev pub get64 : List ℕ → ℕ → ℕ
get64 buf i = get32 buf i + 2 ^ 32 * get32 buf (i + 4)

-- "EFI PART"
abbrev pub gpt_signature : List ℕ
gpt_signature = 0x45 ∷ 0x46 ∷ 0x49 ∷ 0x20 ∷ 0x50 ∷ 0x41 ∷ 0x52 ∷ 0x54 ∷ []

-- The GPT table's 16 KiB.
abbrev pub table_bytes : ℕ
table_bytes = 16384

-- CANBOOT_PART_SCHEME_*
pub data Scheme : Type 0 where
  no_scheme : Scheme
  mbr : Scheme
  gpt : Scheme

-- `struct canboot_partition`
pub record Partition : Type 0 where
  pub scheme : Scheme
  pub start_lba : ℕ
  pub end_lba : ℕ
  pub size_lba : ℕ
  pub type_mbr : ℕ
  pub type_gpt : List ℕ
  pub name : List ℕ
  pub bootable_mbr : Bool

-- A call whose -1 the caller looks at.
abbrev caught : {A : Type 0} → Outcome A → Outcome (Option A)
caught (ok a) = ok (some a)
caught err = ok none
caught fault = fault
caught out_of_fuel = out_of_fuel

abbrev pub attempt : {A : Type 0} → Io A → Io (Option A)
attempt m d = (caught (m d).0, (m d).1)

-- One block into a 512-byte buffer.
unfoldable pub read_block : ℕ → Io (List ℕ)
read_block lba = do d ← get_disk; if ltb 512 d.block_size then trap else read lba 1

abbrev pub header_size : List ℕ → ℕ
header_size h = get32 h 12

-- The header of 92 bytes.
unfoldable pub read_gpt_header : Io (List ℕ)
read_gpt_header = do
  d ← get_disk
  require (leb d.block_size 512)
  h ← read 1 1
  require (same_bytes (take 8 h) gpt_signature)
  require (leb 92 (header_size h) && leb (header_size h) d.block_size)
  require (crc32 (take (header_size h) (put32 h 16 0)) == get32 h 16)
  pure (take 92 h)

abbrev pub entry_count : List ℕ → ℕ
entry_count h = get32 h 80

abbrev pub entry_stride : List ℕ → ℕ
entry_stride h = get32 h 84

-- `read_gpt_table` into a buffer of 16 KiB whose former content is `old`.
unfoldable pub read_gpt_table : List ℕ → List ℕ → Io (List ℕ)
read_gpt_table h old = do
  d ← get_disk
  let bytes = min (u32 (entry_count h * entry_stride h)) table_bytes
  let n_sect = u32 (bytes + d.block_size + 2 ^ 32 - 1) / d.block_size
  let load = (do t ← read (get64 h 72) n_sect; pure (t ++ drop (length t) old))
  if d.block_size == 0 || ltb table_bytes (n_sect * d.block_size) then trap else load

abbrev pub mbr_entry : List ℕ → ℕ → List ℕ
mbr_entry buf i = take 16 (drop (446 + 16 * i) buf)

abbrev pub mbr_type : List ℕ → ℕ
mbr_type e = byte_at e 4

-- The tests on the sector that is read when there is no GPT.
unfoldable pub scheme_of_sector : Option (List ℕ) → Scheme
scheme_of_sector none = no_scheme
scheme_of_sector (some buf) =
    let blank =
      mbr_type (mbr_entry buf 0) == 0
      && (mbr_type (mbr_entry buf 1) == 0
          && (mbr_type (mbr_entry buf 2) == 0 && mbr_type (mbr_entry buf 3) == 0)) in
    if get16 buf 510 == 0xAA55 && not blank then mbr else no_scheme

abbrev detect_rest : Option (List ℕ) → Io Scheme
detect_rest (some h) = pure gpt
detect_rest none = do s ← attempt (read_block 0); pure (scheme_of_sector s)

unfoldable pub detect : Io Scheme
detect = do h ← attempt read_gpt_header; detect_rest h

abbrev mbr_partition : List ℕ → Partition
mbr_partition e = record {
  scheme = mbr;
  start_lba = get32 e 8;
  size_lba = get32 e 12;
  end_lba = u64 (get32 e 8 + get32 e 12 + 2 ^ 64 - 1);
  type_mbr = mbr_type e;
  type_gpt = replicate 16 0;
  name = [];
  bootable_mbr = byte_at e 0 == 0x80;
}

-- The loop of `list_mbr` over `n` entries from `i` on, with room for so many more results.
unfoldable pub list_mbr_from : List ℕ → ℕ → ℕ → ℕ → List Partition
list_mbr_from buf i zero room = []
list_mbr_from buf i (suc n) zero = []
list_mbr_from buf i (suc n) (suc room) =
    let e = mbr_entry buf i in
    let skipped = list_mbr_from buf (i + 1) n (suc room) in
    let kept = list_mbr_from buf (i + 1) n room in
    if mbr_type e == 0 || get32 e 12 == 0 then skipped else mbr_partition e ∷ kept

unfoldable pub list_mbr : ℕ → Io (List Partition)
list_mbr max = do buf ← read_block 0; pure (list_mbr_from buf 0 4 max)

-- `utf16le_to_ascii` on the name of an entry: `n` units from unit `k` on.
unfoldable pub utf16le_to_ascii : List ℕ → ℕ → ℕ → List ℕ
utf16le_to_ascii e k zero = []
utf16le_to_ascii e k (suc n) =
    let c = get16 e (56 + 2 * k) in
    let rest = utf16le_to_ascii e (k + 1) n in
    if c == 0 then [] else (if ltb c 0x80 then c else 0x3F) ∷ rest

abbrev gpt_partition : List ℕ → Partition
gpt_partition e = record {
  scheme = gpt;
  start_lba = get64 e 32;
  end_lba = get64 e 40;
  size_lba = u64 (get64 e 40 + 2 ^ 64 - get64 e 32 + 1);
  type_mbr = 0;
  type_gpt = take 16 e;
  name = utf16le_to_ascii e 0 36;
  bootable_mbr = false;
}

-- Entry `i` of the table, where it lies inside the buffer.
unfoldable pub gpt_entry : List ℕ → List ℕ → ℕ → Io (List ℕ)
gpt_entry h tbl i =
    let off = u32 (i * entry_stride h) in
    if ltb table_bytes (off + 128) then trap else pure (take 128 (drop off tbl))

abbrev pub is_empty_entry : List ℕ → Bool
is_empty_entry e = same_bytes (take 16 e) (replicate 16 0)

unfoldable pub list_gpt_from : List ℕ → List ℕ → ℕ → ℕ → ℕ → Io (List Partition)
list_gpt_from h tbl i zero room = pure []
list_gpt_from h tbl i (suc n) zero = pure []
list_gpt_from h tbl i (suc n) (suc room) = do
  e ← gpt_entry h tbl i
  let skipped = list_gpt_from h tbl (i + 1) n (suc room)
  let kept = (do ps ← list_gpt_from h tbl (i + 1) n room; pure (gpt_partition e ∷ ps))
  if is_empty_entry e then skipped else kept

unfoldable pub list_gpt : List ℕ → ℕ → Io (List Partition)
list_gpt old max = do
  h ← read_gpt_header
  tbl ← read_gpt_table h old
  list_gpt_from h tbl 0 (entry_count h) max

abbrev list_scheme : List ℕ → ℕ → Scheme → Io (List Partition)
list_scheme old max gpt = list_gpt old max
list_scheme old max mbr = list_mbr max
list_scheme old max no_scheme = pure []

-- `canboot_part_list`, with the former content of the table's buffer.
unfoldable pub list : List ℕ → ℕ → Io (List Partition)
list old max = do s ← detect; list_scheme old max s
