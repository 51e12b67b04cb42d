-- ===== src/Partition/Write.antt =====
-- fs/partition.c: the operations that change a partition table.
use can_boot.Common.{
  ℕ, zero, suc, ◌+◌, ◌-◌, ◌*◌, ◌/◌, ◌%◌, ◌^◌, not, ◌||◌, Option, none, some, List, [], ◌∷◌, ◌++◌,
  ltb, ◌==◌, if◌then◌else◌, u32, u64, length, set, take, replicate,
}
use can_boot.Common.Bytes.{get32, put32, blit}
use can_boot.Disk.{Io, pure, fail, trap, get_disk, ◌>>=◌, ◌>>◌, require, write}
use can_boot.Partition.Checksum.{crc32, bit_or}
use can_boot.Partition.{
  get64, gpt_signature, table_bytes, Scheme, no_scheme, mbr, gpt, read_block, header_size,
  read_gpt_header, entry_count, entry_stride, read_gpt_table, mbr_entry, mbr_type, detect,
  gpt_entry, is_empty_entry,
}

abbrev put64 : List ℕ → ℕ → ℕ → List ℕ
put64 buf i v = put32 (put32 buf i (v % 2 ^ 32)) (i + 4) (v / 2 ^ 32 % 2 ^ 32)

-- `if (!d->writable) return -1;`
abbrev pub require_writable : Io (Unit {0})
require_writable = do d ← get_disk; require d.writable

-- `write_lba` of `n` blocks out of `buf`.
unfoldable pub write_lba : ℕ → List ℕ → ℕ → Io (Unit {0})
write_lba lba buf n = do
  require_writable
  d ← get_disk
  if ltb (length buf) (n * d.block_size) then trap else write lba n buf

abbrev boot_signed : List ℕ → List ℕ
boot_signed buf = set (set buf 510 0x55) 511 0xAA

unfoldable pub init_mbr : Io (Unit {0})
init_mbr = require_writable >> write_lba 0 (boot_signed (replicate 512 0)) 1

-- A header with its checksum over `header_size` bytes.
unfoldable pub sealed : List ℕ → List ℕ
sealed h = let cleared = put32 h 16 0 in put32 cleared 16 (crc32 (take (header_size h) cleared))

abbrev sector_of : List ℕ → List ℕ
sector_of h = take (header_size h) h ++ replicate (512 - header_size h) 0

-- The header at the end of the disk, whose table stands right before it.
unfoldable pub backup_of : List ℕ → ℕ → List ℕ
backup_of h table_sectors =
    let moved = put64 (put64 h 24 (get64 h 32)) 32 (get64 h 24) in
    sealed (put64 moved 72 (u64 (get64 h 32 + 2 ^ 64 - table_sectors)))

abbrev write_header : List ℕ → List ℕ → ℕ → Io (Unit {0})
write_header h table table_sectors =
    write_lba (get64 h 72) table table_sectors >> write_lba (get64 h 24) (sector_of h) 1

-- `write_gpt_pair`. A header size above the structure's 92 bytes and a table above the buffer's
-- 16 KiB are read out of bounds.
unfoldable pub write_gpt_pair : List ℕ → List ℕ → ℕ → Io (Unit {0})
write_gpt_pair h table table_sectors =
    let bytes = u32 (entry_count h * entry_stride h) in
    let primary = sealed (put32 h 88 (crc32 (take bytes table))) in
    if ltb table_bytes bytes || ltb 92 (header_size h)
    then trap
    else write_header primary table table_sectors
      >> write_header (backup_of primary table_sectors) table table_sectors

abbrev protective_mbr : ℕ → List ℕ
protective_mbr total =
    let size = if ltb 0xFFFFFFFF (total - 1) then 0xFFFFFFFF else total - 1 in
    put32 (put32 (set (boot_signed (replicate 512 0)) 450 0xEE) 454 1) 458 size

-- `(GPT_TBL_BYTES + d->block_size - 1) / d->block_size`; the block size is not 0.
abbrev table_sectors_of : ℕ → ℕ
table_sectors_of block_size = u32 (table_bytes + block_size + 2 ^ 32 - 1) / block_size

unfoldable pub fresh_header : ℕ → ℕ → List ℕ
fresh_header total table_sectors =
    let named = put32 (put32 (blit (replicate 92 0) 0 gpt_signature) 8 0x00010000) 12 92 in
    let placed = put64 (put64 named 24 1) 32 (total - 1) in
    let usable = put64 (put64 placed 40 (2 + table_sectors)) 48 (total - 1 - table_sectors - 1) in
    let guid = put64 (put64 usable 56 0x63616e626f6f742d) 64 total in
    put32 (put32 (put64 guid 72 2) 80 128) 84 128

unfoldable pub init_gpt : Io (Unit {0})
init_gpt = do
  require_writable
  d ← get_disk
  require (d.block_size == 512)
  require (not (ltb d.block_count 64))
  write_lba 0 (protective_mbr d.block_count) 1
  let ts = table_sectors_of d.block_size
  write_gpt_pair (fresh_header d.block_count ts) (replicate table_bytes 0) ts

-- The first of the `n` MBR entries from `i` on whose type is 0.
unfoldable pub free_mbr_slot : List ℕ → ℕ → ℕ → Option ℕ
free_mbr_slot buf i zero = none
free_mbr_slot buf i (suc n) =
    let rest = free_mbr_slot buf (i + 1) n in
    if mbr_type (mbr_entry buf i) == 0 then some i else rest

abbrev filled_mbr : List ℕ → ℕ → ℕ → ℕ → ℕ → List ℕ
filled_mbr buf i first last type =
    let at = 446 + 16 * i in
    let typed = set (set buf at 0) (at + 4) (if type == 0 then 0x83 else type) in
    boot_signed (put32 (put32 typed (at + 8) (u32 first)) (at + 12) (u32 (last - first + 1)))

abbrev create_at : List ℕ → ℕ → ℕ → ℕ → Option ℕ → Io ℕ
create_at buf first last type none = fail
create_at buf first last type (some i) = do write_lba 0 (filled_mbr buf i first last type) 1; pure i

unfoldable pub create_mbr : ℕ → ℕ → ℕ → Io ℕ
create_mbr first last type = do
  buf ← read_block 0
  create_at buf first last type (free_mbr_slot buf 0 4)

-- CANBOOT_GPT_TYPE_BASIC_DATA
abbrev basic_data : List ℕ
basic_data =
    0xA2 ∷ 0xA0 ∷ 0xD0 ∷ 0xEB ∷ 0xE5 ∷ 0xB9 ∷ 0x33 ∷ 0x44 ∷ 0x87 ∷ 0xC0 ∷ 0x68 ∷ 0xB6 ∷ 0xB7 ∷ 0x26
    ∷ 0x99 ∷ 0xC7 ∷ []

-- The name as 16-bit units: at most 35 characters.
abbrev wide : List ℕ → List ℕ
wide [] = []
wide (c ∷ cs) = c ∷ 0 ∷ wide cs

abbrev name_field : Option (List ℕ) → List ℕ
name_field none = replicate 72 0
name_field (some name) =
    let units = take 35 name in wide units ++ replicate (72 - 2 * length units) 0

unfoldable pub new_entry : ℕ → ℕ → ℕ → Option (List ℕ) → List ℕ
new_entry i first last name =
    let typed = blit (replicate 128 0) 0 basic_data in
    -- `0x706172742d312300 | i`: the low byte and part of the second take the index.
    let tag = bit_or 64 0x706172742d312300 i in
    let guid = put64 (put64 typed 16 tag) 24 first in
    blit (put64 (put64 guid 32 first) 40 last) 56 (name_field name)

-- The first of the `n` GPT entries from `i` on that is empty.
unfoldable pub free_gpt_slot : List ℕ → List ℕ → ℕ → ℕ → Io ℕ
free_gpt_slot h tbl i zero = fail
free_gpt_slot h tbl i (suc n) = do
  e ← gpt_entry h tbl i
  let rest = free_gpt_slot h tbl (i + 1) n
  if is_empty_entry e then pure i else rest

abbrev put_gpt_entry : List ℕ → List ℕ → ℕ → List ℕ → Io (Unit {0})
put_gpt_entry h tbl i e = do
  d ← get_disk
  write_gpt_pair h (blit tbl (u32 (i * entry_stride h)) e) (table_sectors_of d.block_size)

unfoldable pub create_gpt : List ℕ → ℕ → ℕ → Option (List ℕ) → Io ℕ
create_gpt old first last name = do
  h ← read_gpt_header
  tbl ← read_gpt_table h old
  i ← free_gpt_slot h tbl 0 (entry_count h)
  put_gpt_entry h tbl i (new_entry i first last name)
  pure i

abbrev create_in : List ℕ → ℕ → ℕ → ℕ → Option (List ℕ) → Scheme → Io ℕ
create_in old first last type name mbr = create_mbr first last type
create_in old first last type name gpt = create_gpt old first last name
create_in old first last type name no_scheme = init_gpt >> create_gpt old first last name

-- `canboot_part_create`
unfoldable pub create : List ℕ → ℕ → ℕ → ℕ → Option (List ℕ) → Io ℕ
create old first last type name = do
  require_writable
  require (not (ltb last first))
  s ← detect
  create_in old first last type name s

abbrev delete_in : List ℕ → ℕ → Scheme → Io (Unit {0})
delete_in old idx no_scheme = fail
delete_in old idx mbr = do
  require (ltb idx 4)
  buf ← read_block 0
  write_lba 0 (blit buf (446 + 16 * idx) (replicate 16 0)) 1
delete_in old idx gpt = do
  h ← read_gpt_header
  require (ltb idx (entry_count h))
  tbl ← read_gpt_table h old
  e ← gpt_entry h tbl idx
  put_gpt_entry h tbl idx (replicate 128 0)

-- `canboot_part_delete`
unfoldable pub delete : List ℕ → ℕ → Io (Unit {0})
delete old idx = do require_writable; s ← detect; delete_in old idx s

abbrev resize_in : List ℕ → ℕ → ℕ → Scheme → Io (Unit {0})
resize_in old idx last no_scheme = fail
resize_in old idx last mbr = do
  require (ltb idx 4)
  buf ← read_block 0
  let e = mbr_entry buf idx
  require (not (mbr_type e == 0))
  require (not (ltb last (get32 e 8)))
  require (not (ltb 0xFFFFFFFF (last - get32 e 8 + 1)))
  write_lba 0 (put32 buf (458 + 16 * idx) (last - get32 e 8 + 1)) 1
resize_in old idx last gpt = do
  h ← read_gpt_header
  require (ltb idx (entry_count h))
  tbl ← read_gpt_table h old
  e ← gpt_entry h tbl idx
  require (not (is_empty_entry e))
  require (not (ltb last (get64 e 32)))
  put_gpt_entry h tbl idx (put64 e 40 last)

-- `canboot_part_resize`
unfoldable pub resize : List ℕ → ℕ → ℕ → Io (Unit {0})
resize old idx last = do require_writable; s ← detect; resize_in old idx last s
