-- ===== src/Vfs/Registry.antt =====
-- hal/disk/disk.c: the table of disks that the drivers register.
use can_boot.Common.{
  ℕ, zero, suc, Bool, true, false, Option, none, some, List, [], ◌∷◌, ◌++◌, leb, if◌then◌else◌,
  length,
}
use can_boot.Disk.{Io, get_disk, require, read, write, ◌>>=◌, ◌>>◌}
use can_boot.Vfs.{Device}

-- CANBOOT_DISK_MAX
abbrev pub max_disks : ℕ
max_disks = 8

-- `canboot_disk_register`
unfoldable pub disk_register : Device → List Device → Bool × List Device
disk_register v vs = if leb max_disks (length vs) then (false, vs) else (true, vs ++ v ∷ [])

abbrev pub disk_count : List Device → ℕ
disk_count vs = length vs

-- `hal_disk_get`
unfoldable pub disk_get : List Device → ℕ → Option Device
disk_get [] i = none
disk_get (v ∷ vs) zero = some v
disk_get (v ∷ vs) (suc i) = disk_get vs i

-- `hal_disk_read` and `hal_disk_write`, whose driver has both functions.
abbrev pub disk_read : ℕ → ℕ → Io (List ℕ)
disk_read lba n = read lba n

unfoldable pub disk_write : ℕ → ℕ → List ℕ → Io (Unit {0})
disk_write lba n buf = do d ← get_disk; require d.writable; write lba n buf
