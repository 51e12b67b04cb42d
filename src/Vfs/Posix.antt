-- ===== src/Vfs/Posix.antt =====
-- fs/vfs.c: the POSIX functions `mkdir`, `rmdir`, `unlink`, `rename`, `chdir`, `getcwd` and `stat`.
use can_boot.Common.{ℕ, ◌+◌, Option, List, ltb, ◌==◌, if◌then◌else◌, length, take}
use can_boot.Disk.{Outcome, ok, err, fault, out_of_fuel, Io, pure, ◌>>=◌}
use can_boot.Fat32.{open_volume}
use can_boot.Fat32.Path.{read_path}
use can_boot.Vfs.{Primary, Vfs, is_fat32}
use can_boot.Vfs.Calls.{
  Driver, on_device, primary, vfs_mkdir, vfs_rmdir, vfs_unlink, vfs_rename, vfs_list,
}
use can_boot.Vfs.Paths.{resolve}

-- `errno`
pub data Errno : Type 0 where
  eio enoent einval erange enosys : Errno

-- What a call returns: 0 or its value, or -1 with `errno` set.
pub data Reply (A : Type 0) : Type 0 where
  value : A → Reply A
  error : Errno → Reply A

abbrev pub or_error : {A : Type 0} → Errno → Outcome A → Outcome (Reply A)
or_error e (ok a) = ok (value a)
or_error e err = ok (error e)
or_error e fault = fault
or_error e out_of_fuel = out_of_fuel

abbrev pub replied : {A : Type 0} → Errno → Outcome A × Vfs → Outcome (Reply A) × Vfs
replied e (o, v) = (or_error e o, v)

-- An array of 256 bytes takes the resolved path. Where the path overruns it, the C goes on with
-- whatever the overrun has left in memory; here the call ends in `fault`, and what the state is after
-- it is not told.
abbrev pub at_path :
    {A : Type 0} → Outcome (List ℕ) → (List ℕ → Vfs → Outcome A × Vfs) → Vfs → Outcome A × Vfs
at_path (ok abs) op v = op abs v
at_path err op v = (err, v)
at_path fault op v = (fault, v)
at_path out_of_fuel op v = (out_of_fuel, v)

abbrev pub path_cap : ℕ
path_cap = 256

-- A call that asks for the primary volume first, with ENOSYS where there is none.
abbrev pub with_primary :
    {A : Type 0}
    → Outcome Primary × Vfs
    → (Primary → Vfs → Outcome (Reply A) × Vfs)
    → Outcome (Reply A) × Vfs
with_primary (ok p, v) rest = rest p v
with_primary (err, v) rest = (ok (error enosys), v)
with_primary (fault, v) rest = (fault, v)
with_primary (out_of_fuel, v) rest = (out_of_fuel, v)

-- What `stat` tells: a directory, or a regular file of so many bytes.
pub data Stat : Type 0 where
  directory : Stat
  regular : ℕ → Stat

abbrev pub cwd_after : List ℕ → Outcome (List ℕ) × Vfs → Outcome (Reply (Unit {0})) × Vfs
cwd_after abs (ok text, v) = (ok (value tt), record v { cwd = take 255 abs })
cwd_after abs (err, v) = (ok (error enoent), v)
cwd_after abs (fault, v) = (fault, v)
cwd_after abs (out_of_fuel, v) = (out_of_fuel, v)

-- `canboot_fat32_read_path` with no room for bytes, for the size.
abbrev file_size : ℕ → List ℕ → Io Stat
file_size fuel abs = do fs ← open_volume; f ← read_path fuel fs abs 0; pure (regular f.size)

abbrev pub stat_file : ℕ → Primary → List ℕ → Vfs → Outcome (Reply Stat) × Vfs
stat_file fuel p abs v =
    if is_fat32 p.type
    then replied enoent (on_device p.place (file_size fuel abs) v)
    else (ok (error enoent), v)

abbrev pub stat_listed : ℕ → Primary → List ℕ → Outcome (List ℕ) × Vfs → Outcome (Reply Stat) × Vfs
stat_listed fuel p abs (ok text, v) = (ok (value directory), v)
stat_listed fuel p abs (err, v) = stat_file fuel p abs v
stat_listed fuel p abs (fault, v) = (fault, v)
stat_listed fuel p abs (out_of_fuel, v) = (out_of_fuel, v)

module _ (fuel : ℕ) (ext4_driver ntfs_driver : Driver) where
  unfoldable pub mkdir : Option (List ℕ) → Vfs → Outcome (Reply (Unit {0})) × Vfs
  mkdir path v =
      at_path (resolve v.cwd path path_cap)
        (λ abs w. replied eio (vfs_mkdir fuel ext4_driver ntfs_driver abs w)) v

  unfoldable pub rmdir : Option (List ℕ) → Vfs → Outcome (Reply (Unit {0})) × Vfs
  rmdir path v =
      at_path (resolve v.cwd path path_cap)
        (λ abs w. replied eio (vfs_rmdir fuel ext4_driver ntfs_driver abs w)) v

  unfoldable pub unlink : Option (List ℕ) → Vfs → Outcome (Reply (Unit {0})) × Vfs
  unlink path v =
      at_path (resolve v.cwd path path_cap)
        (λ abs w. replied enoent (vfs_unlink fuel ext4_driver ntfs_driver abs w)) v

  unfoldable pub rename : Option (List ℕ) → Option (List ℕ) → Vfs → Outcome (Reply (Unit {0})) × Vfs
  rename old_path new_path v =
      at_path (resolve v.cwd old_path path_cap)
        (λ a.
          at_path (resolve v.cwd new_path path_cap)
            (λ b w. replied eio (vfs_rename fuel ext4_driver ntfs_driver a b w)))
        v

  -- `chdir` lists its target into 256 bytes; where that works, it is the new directory.
  unfoldable pub chdir : Option (List ℕ) → Vfs → Outcome (Reply (Unit {0})) × Vfs
  chdir path v =
      at_path (resolve v.cwd path path_cap)
        (λ abs w. cwd_after abs (vfs_list fuel ext4_driver ntfs_driver abs 256 w)) v

  unfoldable pub stat : Option (List ℕ) → Vfs → Outcome (Reply Stat) × Vfs
  stat path v = with_primary (primary v) (λ p.
      at_path (resolve v.cwd path path_cap)
        (λ abs w. stat_listed fuel p abs (vfs_list fuel ext4_driver ntfs_driver abs 256 w)))

-- `getcwd` into a buffer of `size` bytes; 0 stands for the null pointer too.
unfoldable pub getcwd : ℕ → Vfs → Reply (List ℕ)
getcwd size v =
    if size == 0
    then error einval
    else (if ltb size (length v.cwd + 1) then error erange else value v.cwd)
