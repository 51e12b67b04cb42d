-- ===== src/Vfs/Calls.antt =====
-- fs/vfs.c: the calls handed on to the file system of the primary volume. `fuel` is the number of
-- rounds given to the FAT32 code's walks.
use can_boot.Common.{
  ℕ, zero, suc, ◌+◌, ◌*◌, Bool, Option, none, some, List, [], ◌∷◌, ◌++◌, ltb, if◌then◌else◌, u64,
  length,
}
use can_boot.Disk.{Outcome, ok, err, fault, out_of_fuel, Io, pure, fail, get_disk, ◌>>=◌}
use can_boot.Partition.{attempt}
use can_boot.Fat32.{Volume, open_volume}
use can_boot.Fat32.Names.{slash}
use can_boot.Fat32.Path.{mkdir, rmdir, unlink_path, rename}
use can_boot.Fat32.Root.{Report, list_path}
use can_boot.Vfs.{VolumeType, no_volume, fat32, ext4, ntfs, Device, Primary, Vfs, search_primary}

-- A driver of ext4 or NTFS: what its functions do to the disk. A handle is a number.
pub record Driver : Type 0 where
  pub open_at : ℕ → ℕ → Io ℕ
  pub close : ℕ → Io (Unit {0})
  pub delete : ℕ → List ℕ → Io (Unit {0})
  pub mkdir : ℕ → List ℕ → Io (Unit {0})
  pub rmdir : ℕ → List ℕ → Io (Unit {0})
  pub rename : ℕ → List ℕ → List ℕ → Io (Unit {0})
  pub list : ℕ → List ℕ → ℕ → Io (List ℕ)

abbrev pub Call : Type 0 → Type 0
Call A = Vfs → Outcome A × Vfs

-- Work on the disk of device number `i`.
unfoldable pub at_place : {A : Type 0} → List Device → ℕ → Io A → Outcome A × List Device
at_place [] i m = (fault, [])
at_place (v ∷ vs) zero m = ((m v.disk).0, record v { disk = (m v.disk).1 } ∷ vs)
at_place (v ∷ vs) (suc i) m = let rest = at_place vs i m in (rest.0, v ∷ rest.1)

abbrev pub on_device : {A : Type 0} → ℕ → Io A → Call A
on_device i m v = let worked = at_place v.devices i m in (worked.0, record v { devices = worked.1 })

abbrev pub given : Primary → Outcome Primary
given p = elim p.type [ no_volume ↦ err | fat32 ↦ ok p | ext4 ↦ ok p | ntfs ↦ ok p ]

abbrev pub after_search : Vfs → Outcome Primary → Outcome Primary × Vfs
after_search v (ok p) = (given p, record v { chosen = some p })
after_search v err = (err, v)
after_search v fault = (fault, v)
after_search v out_of_fuel = (out_of_fuel, v)

abbrev pub primary_from : Option Primary → Call Primary
primary_from (some p) v = (given p, v)
primary_from none v = after_search v (search_primary v.devices)

-- `primary`: the search is made once, also where it finds nothing.
unfoldable pub primary : Call Primary
primary v = primary_from v.chosen v

abbrev give : {A : Type 0} → Option A → Io A
give none = fail
give (some a) = pure a

-- A handle is closed after the call, whatever that returned.
abbrev with_handle : {A : Type 0} → Driver → ℕ → ℕ → (ℕ → Io A) → Io A
with_handle drv off size op = do
  h ← drv.open_at off size
  r ← attempt (op h)
  closed ← attempt (drv.close h)
  give r

-- The whole disk, in blocks for ext4 and in bytes for NTFS.
abbrev on_ext4 : {A : Type 0} → Driver → (ℕ → Io A) → Io A
on_ext4 drv op = do d ← get_disk; with_handle drv 0 d.block_count op

abbrev on_ntfs : {A : Type 0} → Driver → (ℕ → Io A) → Io A
on_ntfs drv op = do d ← get_disk; with_handle drv 0 (u64 (d.block_count * d.block_size)) op

abbrev on_fat32 : {A : Type 0} → (Volume → Io A) → Io A
on_fat32 op = do fs ← open_volume; op fs

module _ (fuel : ℕ) (ext4_driver ntfs_driver : Driver) where
  abbrev choose : {A : Type 0} → VolumeType → (Volume → Io A) → (ℕ → Io A) → (ℕ → Io A) → Io A
  choose t on_fat on_ext on_nt = elim t [
    | no_volume ↦ on_ntfs ntfs_driver on_nt
    | fat32 ↦ on_fat32 on_fat
    | ext4 ↦ on_ext4 ext4_driver on_ext
    | ntfs ↦ on_ntfs ntfs_driver on_nt
  ]

  abbrev pub on_volume :
      {A : Type 0}
      → Outcome Primary × Vfs
      → (Volume → Io A)
      → (ℕ → Io A)
      → (ℕ → Io A)
      → Outcome A × Vfs
  on_volume (ok p, v) on_fat on_ext on_nt = on_device p.place (choose p.type on_fat on_ext on_nt) v
  on_volume (err, v) on_fat on_ext on_nt = (err, v)
  on_volume (fault, v) on_fat on_ext on_nt = (fault, v)
  on_volume (out_of_fuel, v) on_fat on_ext on_nt = (out_of_fuel, v)

  unfoldable pub vfs_mkdir : List ℕ → Call (Unit {0})
  vfs_mkdir path v =
      on_volume (primary v) (λ fs. mkdir fuel fs path) (λ h. ext4_driver.mkdir h path)
        (λ h. ntfs_driver.mkdir h path)

  unfoldable pub vfs_rmdir : List ℕ → Call (Unit {0})
  vfs_rmdir path v =
      on_volume (primary v) (λ fs. rmdir fuel fs path) (λ h. ext4_driver.rmdir h path)
        (λ h. ntfs_driver.delete h path)

  unfoldable pub vfs_unlink : List ℕ → Call (Unit {0})
  vfs_unlink path v =
      on_volume (primary v) (λ fs. unlink_path fuel fs path) (λ h. ext4_driver.delete h path)
        (λ h. ntfs_driver.delete h path)

  unfoldable pub vfs_rename : List ℕ → List ℕ → Call (Unit {0})
  vfs_rename old_path new_path v =
      on_volume (primary v) (λ fs. rename fuel fs old_path new_path)
        (λ h. ext4_driver.rename h old_path new_path) (λ h. ntfs_driver.rename h old_path new_path)

-- The text of one report: its name, a slash for a directory, a line feed.
abbrev pub line_of : Report → List ℕ
line_of r = r.name ++ (if r.is_dir then slash ∷ 10 ∷ [] else 10 ∷ [])

-- The result of `fat_cb` where `used` bytes of `cap` are in use.
abbrev pub has_room : ℕ → ℕ → Report → Bool
has_room cap used r = ltb (used + length r.name + 2) cap

-- What `fat_cb` has written after these reports; the first that has no room ends it.
unfoldable pub text_of : ℕ → ℕ → List Report → List ℕ
text_of cap used [] = []
text_of cap used (r ∷ rs) =
    let rest = text_of cap (used + length (line_of r)) rs in
    if has_room cap used r then line_of r ++ rest else []

abbrev wants_more : ℕ → List Report → Report → Bool
wants_more cap before r = has_room cap (length (text_of cap 0 before)) r

abbrev list_fat32 : ℕ → List ℕ → ℕ → Volume → Io (List ℕ)
list_fat32 fuel path cap fs = do
  reports ← list_path (wants_more cap) fuel fs path
  pure (text_of cap 0 reports)

-- `vfs_list`: the text put into a buffer of `cap` bytes.
unfoldable pub vfs_list : ℕ → Driver → Driver → List ℕ → ℕ → Call (List ℕ)
vfs_list fuel ext4_driver ntfs_driver path cap v =
    on_volume fuel ext4_driver ntfs_driver (primary v) (list_fat32 fuel path cap)
      (λ h. ext4_driver.list h path cap) (λ h. ntfs_driver.list h path cap)
