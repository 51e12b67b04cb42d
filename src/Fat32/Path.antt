-- ===== src/Fat32/Path.antt =====
-- fs/fat32.c: paths of nested directories: `resolve_dir`, `resolve_entry` and the path operations
-- `canboot_fat32_read_path`, `_write_path`, `_unlink_path`, `_mkdir`, `_rmdir`, `_rename` and
-- `_list_path`. The first argument of each is the number of rounds given to every chain walk.
pub mod Components
pub mod Contents
use can_boot.Common.{
  ℕ, zero, suc, ◌+◌, ◌-◌, ◌*◌, ◌/◌, ◌%◌, ◌^◌, ◌≤◌, ◌<◌, min, ◌≡◌, refl, sym, ap, ap₂, ◌∙◌, fun_ext,
  ◌≢◌, ◌↔◌, ◌⊎◌, inl, inr, Bool, true, false, not, ◌&&◌, ◌||◌, Option, none, some, List, [], ◌∷◌,
  ◌++◌, map, append-nil, append_assoc, arith, dec_lt, dec_le, ℕ_discrete, ltb, leb, ◌==◌,
  if◌then◌else◌, ltb→lt, lt→ltb, le→ltb, ltb→le, ==→eq, ==→ne, eq→==, ne→==, Bool-cases, u8, u16,
  u32, u64, length, get_or, set, take, drop, replicate, All, length-append, length-set,
  get_or-set_self, get_or-set_ne, length-take, length-drop, length-replicate, take_all,
  take-append-drop, take-length-append, drop-length-append, All-append, same_bytes, same_bytes→eq,
  same_bytes_self, contains,
}
use can_boot.Disk.{Disk, Io, pure, fail, trap, exhausted, get_disk, require, ◌>>=◌, ◌>>◌}
use can_boot.Fat32.{Volume, eoc, end_mark, attr_lfn, dir_entry_size}
use can_boot.Fat32.Table.{
  read_fat_entry, write_fat_entry, read_cluster, write_cluster, find_free_cluster, alloc_chain,
  free_chain,
}
use can_boot.Fat32.Names.{space, dot, slash, to_83, name_from_83, Parts, split_last}
use can_boot.Fat32.Entry.{
  Entry, slot, first_byte, entry_name, entry_attr, entry_size, entry_first_cluster, is_volume_id,
  is_directory, make_entry, set_first_cluster,
}
use can_boot.Common.Bytes.{blit}
use can_boot.Fat32.Dir.{
  fits_buffer, slots, in_chain, Found, Place, dir_find, dir_alloc_slot, dir_write_entry,
  dir_mark_deleted, dir_is_empty, is_dot_entry, is_skipped,
}

-- `while (*p == '/') p++;`
unfoldable pub skip_slashes : List ℕ → List ℕ
skip_slashes [] = []
skip_slashes (c ∷ cs) = let rest = skip_slashes cs in if c == slash then rest else c ∷ cs

-- `while (*p && *p != '/' && n < 15) comp[n++] = *p++;`: at most `n` bytes.
unfoldable pub component : ℕ → List ℕ → List ℕ
component zero cs = []
component (suc n) [] = []
component (suc n) (c ∷ cs) = if c == slash then [] else c ∷ component n cs

abbrev pub max_component : ℕ
max_component = 15

-- The components that the loop of `resolve_dir` takes from a path without leading slashes, in at
-- most `n` rounds. A name longer than `cap` bytes is cut into several.
unfoldable pub components : ℕ → ℕ → List ℕ → List (List ℕ)
components cap zero cs = []
components cap (suc n) [] = []
components cap (suc n) (c ∷ cs) =
    let comp = component cap (c ∷ cs) in
    comp ∷ components cap n (skip_slashes (drop (length comp) (c ∷ cs)))

-- A directory entry's cluster, where 0 stands for the root.
abbrev pub dir_cluster_of : Volume → Entry → ℕ
dir_cluster_of fs e = if entry_first_cluster e == 0 then fs.root_cluster else entry_first_cluster e

abbrev pub expect_dir : Volume → Option Found → Io ℕ
expect_dir fs none = fail
expect_dir fs (some f) = if is_directory f.entry then pure (dir_cluster_of fs f.entry) else fail

unfoldable pub resolve_from : ℕ → Volume → ℕ → List (List ℕ) → Io ℕ
resolve_from fuel fs cluster [] = pure cluster
resolve_from fuel fs cluster (comp ∷ rest) = do
  found ← dir_find fuel fs cluster (to_83 comp)
  next ← expect_dir fs found
  resolve_from fuel fs next rest

-- `resolve_dir`. Each round takes at least one byte of the path.
unfoldable pub resolve_dir : ℕ → Volume → List ℕ → Io ℕ
resolve_dir fuel fs path =
    resolve_from fuel fs fs.root_cluster
      (components max_component (length path) (skip_slashes path))

-- `split_last` with the buffers of its callers, `parent[256]` and `leaf[16]`.
abbrev pub parts_of : List ℕ → Io Parts
parts_of path = elim (split_last path 256 16) [ none ↦ fail | some p ↦ pure p ]

-- `resolve_entry`
unfoldable pub resolve_entry : ℕ → Volume → List ℕ → Io (Option Found)
resolve_entry fuel fs path = do
  p ← parts_of path
  pc ← resolve_dir fuel fs p.parent
  dir_find fuel fs pc (to_83 p.leaf)

-- `resolve_entry(…) != 1` returns -1.
abbrev pub expect_found : Option Found → Io Found
expect_found none = fail
expect_found (some f) = pure f

abbrev pub place_of : Found → Place
place_of f = record { cluster = f.cluster; index = f.index }

-- The copying loop: the bytes from `copied` on, of `to_read` bytes in all.
unfoldable pub read_chain : ℕ → Volume → ℕ → ℕ → ℕ → Io (List ℕ)
read_chain zero fs cluster copied to_read = exhausted
read_chain (suc fuel) fs cluster copied to_read =
    let whole = fs.bytes_per_cluster in
    let chunk = if ltb to_read (u32 (copied + whole)) then to_read - copied else whole in
    let round = (do
      buf ← read_cluster fs cluster
      next ← read_fat_entry fs cluster
      rest ← read_chain fuel fs next (u32 (copied + chunk)) to_read
      pure (take chunk buf ++ rest)) in
    if ltb copied to_read && in_chain cluster then round else pure []

-- `*out_size` and the bytes put into the caller's buffer, whose number is returned.
pub record FileRead : Type 0 where
  pub size : ℕ
  pub bytes : List ℕ

unfoldable pub read_path : ℕ → Volume → List ℕ → ℕ → Io FileRead
read_path fuel fs path buf_size = do
  found ← resolve_entry fuel fs path
  f ← expect_found found
  require (not (is_directory f.entry))
  require (fits_buffer fs)
  bytes ← read_chain fuel fs (entry_first_cluster f.entry) 0 (min (entry_size f.entry) buf_size)
  pure (record { size = entry_size f.entry; bytes = bytes })

-- One cluster's worth of data, filled up with zeros.
abbrev pub filled : ℕ → List ℕ → List ℕ
filled size bytes = take size bytes ++ replicate (size - length bytes) 0

unfoldable pub write_data : Volume → List ℕ → List ℕ → Io (Unit {0})
write_data fs [] bytes = pure tt
write_data fs (c ∷ cs) bytes =
    write_cluster fs c (filled fs.bytes_per_cluster bytes)
    >> write_data fs cs (drop fs.bytes_per_cluster bytes)

-- `(len + bytes_per_cluster - 1) / bytes_per_cluster`
abbrev pub clusters_for : Volume → ℕ → ℕ
clusters_for fs len = u32 (len + fs.bytes_per_cluster + 2 ^ 32 - 1) / fs.bytes_per_cluster

-- The chain that holds the data, and its first cluster; 0 for an empty file.
unfoldable pub store_data : Volume → List ℕ → Io ℕ
store_data fs [] = pure 0
store_data fs (b ∷ bytes) = if fs.bytes_per_cluster == 0 then trap else (do
  chain ← alloc_chain fs (clusters_for fs (length (b ∷ bytes)))
  require (fits_buffer fs)
  write_data fs chain (b ∷ bytes)
  pure (get_or chain 0 0))

abbrev pub require_writable : Io (Unit {0})
require_writable = do d ← get_disk; require d.writable

-- The slot for a file: that of the existing file, whose chain is freed, or a fresh one.
unfoldable pub claim_slot : ℕ → Volume → ℕ → Option Found → Io Place
claim_slot fuel fs pc none = dir_alloc_slot fuel fs pc
claim_slot fuel fs pc (some f) = do
  require (not (is_directory f.entry))
  free_chain fuel fs (entry_first_cluster f.entry)
  pure (place_of f)

unfoldable pub write_path : ℕ → Volume → List ℕ → List ℕ → Io (Unit {0})
write_path fuel fs path bytes = do
  require_writable
  p ← parts_of path
  pc ← resolve_dir fuel fs p.parent
  found ← dir_find fuel fs pc (to_83 p.leaf)
  place ← claim_slot fuel fs pc found
  first ← store_data fs bytes
  dir_write_entry fs place (make_entry (to_83 p.leaf) 0x20 first (length bytes))

unfoldable pub unlink_path : ℕ → Volume → List ℕ → Io (Unit {0})
unlink_path fuel fs path = do
  require_writable
  found ← resolve_entry fuel fs path
  f ← expect_found found
  require (not (is_directory f.entry))
  free_chain fuel fs (entry_first_cluster f.entry)
  dir_mark_deleted fs (place_of f)

-- `dir_find(…) == 1` returns -1; a failed search does not.
abbrev pub is_hit : Option Found → Bool
is_hit none = false
is_hit (some f) = true

-- `if (dir_find(…) == 1) return -1;`, which goes on where the search itself fails.
unfoldable pub require_absent : ℕ → Volume → ℕ → List ℕ → Io (Unit {0})
require_absent fuel fs cluster target d =
    let (r, d') = dir_find fuel fs cluster target d in
    elim r [
      | can_boot.Disk.Run.Outcome.ok found ↦ require (not (is_hit found)) d'
      | can_boot.Disk.Run.Outcome.err ↦ pure tt d'
      | can_boot.Disk.Run.Outcome.fault ↦ trap d'
      | can_boot.Disk.Run.Outcome.out_of_fuel ↦ exhausted d'
    ]

-- ".          " and "..         "
abbrev pub dot_name : List ℕ
dot_name = dot ∷ replicate 10 space

abbrev pub dot_dot_name : List ℕ
dot_dot_name = dot ∷ dot ∷ replicate 9 space

-- The first cluster of a new directory.
abbrev pub fresh_dir : Volume → ℕ → ℕ → List ℕ
fresh_dir fs dc pc =
    blit (blit (replicate fs.bytes_per_cluster 0) 0 (make_entry dot_name 0x10 dc 0)) dir_entry_size
      (make_entry dot_dot_name 0x10 (if pc == fs.root_cluster then 0 else pc) 0)

unfoldable pub mkdir : ℕ → Volume → List ℕ → Io (Unit {0})
mkdir fuel fs path = do
  require_writable
  p ← parts_of path
  pc ← resolve_dir fuel fs p.parent
  require_absent fuel fs pc (to_83 p.leaf)
  dc ← find_free_cluster fs
  write_fat_entry fs dc end_mark
  require (fits_buffer fs)
  write_cluster fs dc (fresh_dir fs dc pc)
  place ← dir_alloc_slot fuel fs pc
  dir_write_entry fs place (make_entry (to_83 p.leaf) 0x10 dc 0)

unfoldable pub rmdir : ℕ → Volume → List ℕ → Io (Unit {0})
rmdir fuel fs path = do
  require_writable
  found ← resolve_entry fuel fs path
  f ← expect_found found
  require (is_directory f.entry)
  empty ← dir_is_empty fuel fs (entry_first_cluster f.entry)
  require empty
  free_chain fuel fs (entry_first_cluster f.entry)
  dir_mark_deleted fs (place_of f)

-- `memcpy(ne.name, nt, 11)`
abbrev pub renamed : Entry → List ℕ → Entry
renamed e name = blit e 0 name

-- The ".." entry of a moved directory is pointed at the new parent, where there is one.
unfoldable pub repoint : Volume → ℕ → Option Found → Io (Unit {0})
repoint fs npc none = pure tt
repoint fs npc (some f) =
    dir_write_entry fs (place_of f)
      (set_first_cluster f.entry (if npc == fs.root_cluster then 0 else npc))

-- As above, a failed search for ".." is passed over.
unfoldable pub repoint_parent : ℕ → Volume → ℕ → Entry → Io (Unit {0})
repoint_parent fuel fs npc e d =
    let (r, d') = dir_find fuel fs (entry_first_cluster e) dot_dot_name d in
    elim r [
      | can_boot.Disk.Run.Outcome.ok found ↦ repoint fs npc found d'
      | can_boot.Disk.Run.Outcome.err ↦ pure tt d'
      | can_boot.Disk.Run.Outcome.fault ↦ trap d'
      | can_boot.Disk.Run.Outcome.out_of_fuel ↦ exhausted d'
    ]

unfoldable pub rename : ℕ → Volume → List ℕ → List ℕ → Io (Unit {0})
rename fuel fs old_path new_path = do
  require_writable
  found ← resolve_entry fuel fs old_path
  f ← expect_found found
  p ← parts_of new_path
  npc ← resolve_dir fuel fs p.parent
  require_absent fuel fs npc (to_83 p.leaf)
  place ← dir_alloc_slot fuel fs npc
  dir_write_entry fs place (renamed f.entry (to_83 p.leaf))
  (if is_directory f.entry && not (npc == f.cluster)
      then repoint_parent fuel fs npc f.entry
      else pure tt)
  dir_mark_deleted fs (place_of f)
