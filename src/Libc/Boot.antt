-- ===== src/Libc/Boot.antt =====
-- rt/picolibc_port/syscalls.c: the search for a file in the root directories of the disks. Allocation
-- is taken to succeed. `fuel` is the number of rounds given to the FAT32 code's walks, and `old` tells
-- what the three static buffers of the ISO 9660 code held before.
use can_boot.Common.{
  ℕ, Bool, false, not, Option, none, some, List, [], ◌∷◌, ◌==◌, if◌then◌else◌, length,
}
use can_boot.Disk.{Outcome, ok, err, fault, out_of_fuel, Io, pure, ◌>>=◌}
use can_boot.Partition.{attempt}
use can_boot.Fat32.{Volume, open_volume}
use can_boot.Fat32.Path.{FileRead}
use can_boot.Fat32.Root.{Report, list_root, read_root_file}
use can_boot.Iso.{Iso, Extent, icase_eq, open_iso, lookup, read_file}
use can_boot.Vfs.{Device}

-- `name_eq_ci`
abbrev pub name_eq_ci : List ℕ → List ℕ → Bool
name_eq_ci a b = icase_eq a b

-- The result of `fat_size_cb`: the listing goes on while the name is another.
abbrev pub fat_size_cb : List ℕ → List Report → Report → Bool
fat_size_cb name before r = not (name_eq_ci r.name name)

-- The size that the callback has kept.
unfoldable pub size_of : List ℕ → List Report → Option ℕ
size_of name [] = none
size_of name (r ∷ rs) =
    let rest = size_of name rs in if name_eq_ci r.name name then some r.size else rest

abbrev size_in_listing : List ℕ → Option (List Report) → Option ℕ
size_in_listing name none = none
size_in_listing name (some rs) = size_of name rs

-- A read of no bytes counts as a failure.
abbrev some_bytes : Option FileRead → Option FileRead
some_bytes none = none
some_bytes (some f) = if length f.bytes == 0 then none else some f

abbrev read_sized : ℕ → List ℕ → Volume → Option ℕ → Io (Option FileRead)
read_sized fuel name fs none = pure none
read_sized fuel name fs (some size) = do
  f ← attempt (read_root_file fuel fs name size)
  pure (some_bytes f)

abbrev on_fat_volume : ℕ → List ℕ → Option Volume → Io (Option FileRead)
on_fat_volume fuel name none = pure none
on_fat_volume fuel name (some fs) = do
  rs ← attempt (list_root (fat_size_cb name) fuel fs)
  read_sized fuel name fs (size_in_listing name rs)

-- A disk in the first loop.
unfoldable pub slurp_fat : ℕ → List ℕ → Io (Option FileRead)
slurp_fat fuel name = do fs ← attempt open_volume; on_fat_volume fuel name fs

abbrev whole_file : ℕ → List ℕ → FileRead
whole_file size bytes = record { size = size; bytes = bytes }

abbrev sized : ℕ → Option (List ℕ) → Option FileRead
sized size none = none
sized size (some bytes) = some_bytes (some (whole_file size bytes))

abbrev read_extent : List ℕ → Iso → Option Extent → Io (Option FileRead)
read_extent old iso none = pure none
read_extent old iso (some e) = do
  bytes ← attempt (read_file old iso e.lba e.size e.size)
  pure (sized e.size bytes)

abbrev on_image : (ℕ → List ℕ) → List ℕ → Option Iso → Io (Option FileRead)
on_image old name none = pure none
on_image old name (some iso) = do e ← attempt (lookup (old 1) iso name); read_extent (old 2) iso e

-- A disk in the second loop.
unfoldable pub slurp_iso : (ℕ → List ℕ) → List ℕ → Io (Option FileRead)
slurp_iso old name = do iso ← attempt (open_iso (old 0)); on_image old name iso

abbrev or_next : Outcome (Option FileRead) → Outcome (Option FileRead) → Outcome (Option FileRead)
or_next (ok none) rest = rest
or_next (ok (some f)) rest = ok (some f)
or_next err rest = rest
or_next fault rest = fault
or_next out_of_fuel rest = out_of_fuel

-- One loop over the disks.
unfoldable pub slurp_from :
    (Device → Bool) → Io (Option FileRead) → List Device → Outcome (Option FileRead)
slurp_from passes one [] = ok none
slurp_from passes one (v ∷ vs) =
    let rest = slurp_from passes one vs in if passes v then rest else or_next (one v.disk).0 rest

abbrev or_missing : Outcome (Option FileRead) → Outcome FileRead
or_missing (ok none) = err
or_missing (ok (some f)) = ok f
or_missing err = err
or_missing fault = fault
or_missing out_of_fuel = out_of_fuel

-- `slurp_boot_file`
unfoldable pub slurp_boot_file : ℕ → (ℕ → List ℕ) → List Device → List ℕ → Outcome FileRead
slurp_boot_file fuel old vs name = or_missing (
    or_next (slurp_from (λ v. v.is_cdrom) (slurp_fat fuel name) vs)
      (slurp_from (λ v. false) (slurp_iso old name) vs))
