-- ===== src/Fat32/Root.antt =====
-- fs/fat32.c: the helpers that know only the root directory: `find_root_entry`,
-- `canboot_fat32_read_root_file`, `_write_root_file`, `_delete_root_file` and `_list_root`, and
-- `canboot_fat32_list_path`, which shares the listing.
-- Their walks go on while the cluster is below 0x0FFFFFF8: a cluster below 2 does not end them.
use can_boot.Common.{
  ℕ, zero, suc, ◌+◌, ◌*◌, min, Bool, true, false, ◌||◌, Option, none, some, List, [], ◌∷◌, ◌++◌,
  ltb, leb, ◌==◌, if◌then◌else◌, length, get_or, set, same_bytes,
}
use can_boot.Disk.{Io, pure, fail, trap, exhausted, require, ◌>>=◌, ◌>>◌}
use can_boot.Fat32.{Volume, eoc, attr_lfn, dir_entry_size}
use can_boot.Fat32.Table.{
  read_fat_entry, read_cluster, write_cluster, reserve_clusters, link_clusters, free_chain,
}
use can_boot.Fat32.Names.{to_83, name_from_83}
use can_boot.Fat32.Entry.{
  Entry, slot, first_byte, entry_name, entry_attr, entry_size, entry_first_cluster, is_volume_id,
  is_directory, make_entry,
}
use can_boot.Common.Bytes.{blit}
use can_boot.Fat32.Dir.{
  fits_buffer, slots, in_chain, Scan, hit, stop, more, Found, found_in, scan_name, is_skipped,
  is_dot_entry,
}
use can_boot.Fat32.Path.{
  FileRead, read_chain, write_data, clusters_for, expect_found, require_writable, resolve_dir,
}

abbrev pub is_skipped_in_root : Entry → Bool
is_skipped_in_root e =
    first_byte e == 0xE5 || entry_attr e == attr_lfn || is_volume_id e || is_directory e

-- `find_root_entry`; the location that it can report is asked for by no caller.
unfoldable pub find_root_from : ℕ → Volume → List ℕ → ℕ → Io (Option Found)
find_root_from zero fs target cluster = exhausted
find_root_from (suc fuel) fs target cluster =
    let round = (do
      buf ← read_cluster fs cluster
      let onward = (do next ← read_fat_entry fs cluster; find_root_from fuel fs target next)
      elim (scan_name is_skipped_in_root target buf 0 (slots fs)) [
        | hit i ↦ pure (some (found_in buf cluster i))
        | stop ↦ pure none
        | more ↦ onward
      ]) in
    if ltb cluster eoc then round else pure none

unfoldable pub find_root_entry : ℕ → Volume → List ℕ → Io (Option Found)
find_root_entry fuel fs name =
    if fits_buffer fs then find_root_from fuel fs (to_83 name) fs.root_cluster else fail

unfoldable pub read_root_file : ℕ → Volume → List ℕ → ℕ → Io FileRead
read_root_file fuel fs name buf_size = do
  found ← find_root_entry fuel fs name
  f ← expect_found found
  require (fits_buffer fs)
  bytes ← read_chain fuel fs (entry_first_cluster f.entry) 0 (min (entry_size f.entry) buf_size)
  pure (record { size = entry_size f.entry; bytes = bytes })

-- The slot for a file of that name: the first one that is free or already holds the name.
unfoldable pub scan_root_slot : List ℕ → List ℕ → ℕ → ℕ → Scan
scan_root_slot target buf i zero = more
scan_root_slot target buf i (suc n) =
    let rest = scan_root_slot target buf (i + 1) n in
    let e = slot buf i in
    if first_byte e == 0 || first_byte e == 0xE5
    then hit i
    else (if entry_attr e == attr_lfn
        then rest
        else (if same_bytes (entry_name e) target then hit i else rest))

-- Every byte of the entry is assigned, so it is the entry that `make_entry` makes.
unfoldable pub put_root_entry : ℕ → Volume → Entry → ℕ → Io (Unit {0})
put_root_entry zero fs e cluster = exhausted
put_root_entry (suc fuel) fs e cluster =
    let round = (do
      buf ← read_cluster fs cluster
      let onward = (do next ← read_fat_entry fs cluster; put_root_entry fuel fs e next)
      elim (scan_root_slot (entry_name e) buf 0 (slots fs)) [
        | hit i ↦ write_cluster fs cluster (blit buf (i * dir_entry_size) e)
        | _ ↦ onward
      ]) in
    if ltb cluster eoc then round else fail

-- The clusters that the code asks for, at least one.
abbrev pub wanted_clusters : Volume → ℕ → ℕ
wanted_clusters fs len = if clusters_for fs len == 0 then 1 else clusters_for fs len

unfoldable pub write_root_file : ℕ → Volume → List ℕ → List ℕ → Io (Unit {0})
write_root_file fuel fs name bytes = do
  require_writable
  (if fs.bytes_per_cluster == 0 then trap else pure tt)
  require (leb (wanted_clusters fs (length bytes)) 8)
  chain ← reserve_clusters fs (wanted_clusters fs (length bytes))
  link_clusters fs chain
  require (fits_buffer fs)
  write_data fs chain bytes
  put_root_entry fuel fs (make_entry (to_83 name) 0x20 (get_or chain 0 0) (length bytes))
      fs.root_cluster

-- `canboot_fat32_delete_root_file`: the chain is freed before the entry is marked.
unfoldable pub delete_from : ℕ → Volume → List ℕ → ℕ → Io (Unit {0})
delete_from zero fs target cluster = exhausted
delete_from (suc fuel) fs target cluster =
    let round = (do
      buf ← read_cluster fs cluster
      let onward = (do next ← read_fat_entry fs cluster; delete_from fuel fs target next)
      elim (scan_name is_skipped_in_root target buf 0 (slots fs)) [
        | hit i ↦
            free_chain fuel fs (entry_first_cluster (slot buf i))
            >> write_cluster fs cluster (set buf (i * dir_entry_size) 0xE5)
        | stop ↦ fail
        | more ↦ onward
      ]) in
    if ltb cluster eoc then round else fail

unfoldable pub delete_root_file : ℕ → Volume → List ℕ → Io (Unit {0})
delete_root_file fuel fs name =
    if fits_buffer fs then delete_from fuel fs (to_83 name) fs.root_cluster else fail

-- What a listing hands to its callback. The result of a listing is the reports made, whose number
-- the C function returns; a listing that fails has made reports too, which are not modelled.
pub record Report : Type 0 where
  pub name : List ℕ
  pub size : ℕ
  pub is_dir : Bool

abbrev pub report : Entry → Report
report e = record { name = name_from_83 e; size = entry_size e; is_dir = is_directory e }

-- The reports of one cluster's entries, and whether the listing goes on behind them.
pub record Page : Type 0 where
  pub reports : List Report
  pub goes_on : Bool

abbrev pub page_cons : Report → Page → Page
page_cons r p = record p { reports = r ∷ p.reports }

-- `wants_more` is the callback: its result for a report, after the reports that it has had so far.
module _ (skip : Entry → Bool) (wants_more : List Report → Report → Bool) where
  unfoldable pub list_slots : List Report → List ℕ → ℕ → ℕ → Page
  list_slots before buf i zero = record { reports = []; goes_on = true }
  list_slots before buf i (suc n) =
      let e = slot buf i in
      let skipping = list_slots before buf (i + 1) n in
      let rest = list_slots (before ++ report e ∷ []) buf (i + 1) n in
      if first_byte e == 0
      then record { reports = []; goes_on = false }
      else (if skip e
          then skipping
          else (if wants_more before (report e)
              then page_cons (report e) rest
              else record { reports = report e ∷ []; goes_on = false }))

  unfoldable pub list_from : List Report → (ℕ → Bool) → ℕ → Volume → ℕ → Io (List Report)
  list_from before inside zero fs cluster = exhausted
  list_from before inside (suc fuel) fs cluster =
      let round = (do
        buf ← read_cluster fs cluster
        let page = list_slots before buf 0 (slots fs)
        let onward = (do
          next ← read_fat_entry fs cluster
          rest ← list_from (before ++ page.reports) inside fuel fs next
          pure (page.reports ++ rest))
        if page.goes_on then onward else pure page.reports) in
      if inside cluster then round else pure []

unfoldable pub list_root : (List Report → Report → Bool) → ℕ → Volume → Io (List Report)
list_root wants_more fuel fs =
    if fits_buffer fs
    then list_from is_skipped_in_root wants_more [] (λ c. ltb c eoc) fuel fs fs.root_cluster
    else fail

-- `canboot_fat32_list_path`
unfoldable pub list_path : (List Report → Report → Bool) → ℕ → Volume → List ℕ → Io (List Report)
list_path wants_more fuel fs path = do
  cluster ← resolve_dir fuel fs path
  require (fits_buffer fs)
  list_from (λ e. is_skipped e || is_dot_entry e) wants_more [] in_chain fuel fs cluster
