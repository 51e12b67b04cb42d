-- ===== src/Fat32/Dir.antt =====
-- fs/fat32.c: one directory, given by its first cluster: `dir_find`, `dir_alloc_slot`,
-- `dir_write_entry`, `dir_mark_deleted` and `dir_is_empty`.
-- The chain walks take a number of rounds, since a table may run in a circle.
pub mod Lookup
use can_boot.Common.{
  ℕ, zero, suc, ◌+◌, ◌-◌, ◌*◌, ◌/◌, ◌%◌, ◌^◌, ◌≤◌, ◌<◌, min, ◌≡◌, refl, sym, ap, ap₂, ◌∙◌, fun_ext,
  ◌≢◌, ◌↔◌, ◌⊎◌, inl, inr, Bool, true, false, not, ◌&&◌, ◌||◌, Option, none, some, List, [], ◌∷◌,
  ◌++◌, map, append-nil, append_assoc, arith, dec_lt, dec_le, ℕ_discrete, ltb, leb, ◌==◌,
  if◌then◌else◌, ltb→lt, lt→ltb, le→ltb, ltb→le, ==→eq, ==→ne, eq→==, ne→==, Bool-cases, u8, u16,
  u32, u64, length, get_or, set, take, drop, replicate, All, length-append, length-set,
  get_or-set_self, get_or-set_ne, length-take, length-drop, length-replicate, take_all,
  take-append-drop, take-length-append, drop-length-append, All-append, same_bytes, same_bytes→eq,
  same_bytes_self, contains,
}
use can_boot.Common.Bytes.{byte_at, blit}
use can_boot.Disk.{Io, pure, fail, exhausted, require, ◌>>=◌, ◌>>◌}
use can_boot.Fat32.{Volume, dir_entry_size, attr_lfn, eoc, end_mark, buffer_size}
use can_boot.Fat32.Table.{
  read_fat_entry, write_fat_entry, read_cluster, write_cluster, find_free_cluster,
}
use can_boot.Fat32.Names.{space, dot}
use can_boot.Fat32.Entry.{
  Entry, slot, first_byte, entry_name, entry_attr, is_volume_id, is_directory,
}

-- `if (fs->bytes_per_cluster > sizeof(buf)) return -1;`
abbrev pub fits_buffer : Volume → Bool
fits_buffer fs = leb fs.bytes_per_cluster buffer_size

abbrev pub slots : Volume → ℕ
slots fs = fs.bytes_per_cluster / dir_entry_size

-- `cluster >= 2 && cluster < EOC`
abbrev pub in_chain : ℕ → Bool
in_chain cluster = leb 2 cluster && ltb cluster eoc

-- How a scan of one cluster's entries ends: at entry `i`, at the end marker, or with the cluster.
pub data Scan : Type 0 where
  hit : ℕ → Scan
  stop : Scan
  more : Scan

-- Entries that every scan passes over: deleted ones, parts of long names, and volume labels.
abbrev pub is_skipped : Entry → Bool
is_skipped e = first_byte e == 0xE5 || entry_attr e == attr_lfn || is_volume_id e

-- The `n` entries from `i` on: the first one with the name, before the end marker.
unfoldable pub scan_name : (Entry → Bool) → List ℕ → List ℕ → ℕ → ℕ → Scan
scan_name skip target buf i zero = more
scan_name skip target buf i (suc n) =
    let rest = scan_name skip target buf (i + 1) n in
    let e = slot buf i in
    if first_byte e == 0
    then stop
    else (if skip e then rest else (if same_bytes (entry_name e) target then hit i else rest))

-- An entry with the place where it stands.
pub record Found : Type 0 where
  pub entry : Entry
  pub cluster : ℕ
  pub index : ℕ

abbrev pub found_in : List ℕ → ℕ → ℕ → Found
found_in buf cluster i = record { entry = slot buf i; cluster = cluster; index = i }

-- `dir_find`: `none` stands for its 0.
unfoldable pub find_from : ℕ → Volume → List ℕ → ℕ → Io (Option Found)
find_from zero fs target cluster = exhausted
find_from (suc fuel) fs target cluster =
    let round = (do
      buf ← read_cluster fs cluster
      let onward = (do next ← read_fat_entry fs cluster; find_from fuel fs target next)
      elim (scan_name is_skipped target buf 0 (slots fs)) [
        | hit i ↦ pure (some (found_in buf cluster i))
        | stop ↦ pure none
        | more ↦ onward
      ]) in
    if in_chain cluster then round else pure none

unfoldable pub dir_find : ℕ → Volume → ℕ → List ℕ → Io (Option Found)
dir_find fuel fs dir_cluster target =
    if fits_buffer fs then find_from fuel fs target dir_cluster else fail

-- The first entry that is free: never used, or deleted.
unfoldable pub scan_free : List ℕ → ℕ → ℕ → Scan
scan_free buf i zero = more
scan_free buf i (suc n) =
    let rest = scan_free buf (i + 1) n in
    let e = slot buf i in if first_byte e == 0 || first_byte e == 0xE5 then hit i else rest

pub record Place : Type 0 where
  pub cluster : ℕ
  pub index : ℕ

-- The directory is extended behind its last cluster `last`.
unfoldable pub extend_dir : Volume → ℕ → Io Place
extend_dir fs last = do
  nc ← find_free_cluster fs
  write_fat_entry fs nc end_mark
  write_fat_entry fs last nc
  write_cluster fs nc (replicate fs.bytes_per_cluster 0)
  pure (record { cluster = nc; index = 0 })

unfoldable pub slot_from : ℕ → Volume → ℕ → ℕ → Io Place
slot_from zero fs last cluster = exhausted
slot_from (suc fuel) fs last cluster =
    let round = (do
      buf ← read_cluster fs cluster
      let onward = (do next ← read_fat_entry fs cluster; slot_from fuel fs cluster next)
      elim (scan_free buf 0 (slots fs)) [
        | hit i ↦ pure (record { cluster = cluster; index = i })
        | _ ↦ onward
      ]) in
    if in_chain cluster then round else extend_dir fs last

unfoldable pub dir_alloc_slot : ℕ → Volume → ℕ → Io Place
dir_alloc_slot fuel fs dir_cluster =
    if fits_buffer fs then slot_from fuel fs dir_cluster dir_cluster else fail

-- Read, change and write back one cluster.
unfoldable pub update_cluster : Volume → ℕ → (List ℕ → List ℕ) → Io (Unit {0})
update_cluster fs cluster change =
    if fits_buffer fs
    then (do buf ← read_cluster fs cluster; write_cluster fs cluster (change buf))
    else fail

unfoldable pub dir_write_entry : Volume → Place → Entry → Io (Unit {0})
dir_write_entry fs p e = update_cluster fs p.cluster (λ buf. blit buf (p.index * dir_entry_size) e)

unfoldable pub dir_mark_deleted : Volume → Place → Io (Unit {0})
dir_mark_deleted fs p = update_cluster fs p.cluster (λ buf. set buf (p.index * dir_entry_size) 0xE5)

-- "." and ".."
abbrev pub is_dot_entry : Entry → Bool
is_dot_entry e =
    byte_at e 0 == dot && (byte_at e 1 == space || (byte_at e 1 == dot && byte_at e 2 == space))

-- `stop`: the end marker; `hit`: an entry that makes the directory non-empty.
unfoldable pub scan_used : List ℕ → ℕ → ℕ → Scan
scan_used buf i zero = more
scan_used buf i (suc n) =
    let rest = scan_used buf (i + 1) n in
    let e = slot buf i in
    if first_byte e == 0
    then stop
    else (if first_byte e == 0xE5 || entry_attr e == attr_lfn || is_dot_entry e
        then rest
        else hit i)

unfoldable pub empty_from : ℕ → Volume → ℕ → Io Bool
empty_from zero fs cluster = exhausted
empty_from (suc fuel) fs cluster =
    let round = (do
      buf ← read_cluster fs cluster
      let onward = (do next ← read_fat_entry fs cluster; empty_from fuel fs next)
      elim (scan_used buf 0 (slots fs)) [
        | hit i ↦ pure false
        | stop ↦ pure true
        | more ↦ onward
      ]) in
    if in_chain cluster then round else pure true

unfoldable pub dir_is_empty : ℕ → Volume → ℕ → Io Bool
dir_is_empty fuel fs dir_cluster = if fits_buffer fs then empty_from fuel fs dir_cluster else fail
