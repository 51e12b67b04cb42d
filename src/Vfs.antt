-- ===== src/Vfs.antt =====
-- fs/vfs.c: paths, the primary volume, and the POSIX operations that are handed on to the file
-- system of that volume. The disks are those that the drivers have registered. The ext4 and NTFS
-- drivers are records of functions, since their source is not in the repository.
pub mod Paths
pub mod Rounds
pub mod Normal
pub mod Weight
pub mod Resolve
pub mod Overrun
pub mod Calls
pub mod Posix
pub mod Streams
pub mod Search
pub mod Registry
pub mod Directory
pub mod Programs
pub mod Listing
use can_boot.Common.{
  ℕ, zero, suc, ◌+◌, ◌-◌, ◌*◌, ◌/◌, ◌%◌, ◌^◌, ◌≤◌, ◌<◌, min, ◌≡◌, refl, sym, ap, ap₂, ◌∙◌, fun_ext,
  ◌≢◌, ◌↔◌, ◌⊎◌, inl, inr, Bool, true, false, not, ◌&&◌, ◌||◌, Option, none, some, List, [], ◌∷◌,
  ◌++◌, map, append-nil, append_assoc, arith, dec_lt, dec_le, ℕ_discrete, ltb, leb, ◌==◌,
  if◌then◌else◌, ltb→lt, lt→ltb, le→ltb, ltb→le, le→leb, lt→leb, leb→le, leb→lt, ==→eq, ==→ne,
  eq→==, ne→==, Bool-cases, u8, u16, u32, u64, length, get_or, set, take, drop, replicate, All,
  length-append, length-set, get_or-set_self, get_or-set_ne, length-take, length-drop,
  length-replicate, take_all, take-append-drop, take-length-append, drop-length-append, All-append,
  same_bytes, same_bytes→eq, same_bytes_self, contains, get_or-take, get_or-drop, take-get_or-drop,
  take-take, All-of_index,
}
use can_boot.Disk.{Outcome, ok, err, fault, out_of_fuel, Disk, Io, pure, fail, trap, read, ◌>>=◌}
use can_boot.Common.Bytes.{byte_at, get16}
use can_boot.Partition.{attempt, read_block}

-- VFS_NONE, VFS_FAT32, VFS_EXT4, VFS_NTFS
pub data VolumeType : Type 0 where
  no_volume fat32 ext4 ntfs : VolumeType

-- A registered disk, and whether its kind is CANBOOT_DISK_KIND_CDROM.
pub record Device : Type 0 where
  pub is_cdrom : Bool
  pub disk : Disk

-- The primary volume is a whole disk, named by its place among the devices.
pub record Primary : Type 0 where
  pub type : VolumeType
  pub place : ℕ

-- `g_have` and `g_type` with `g_disk`: `chosen` is `none` until the search has been made. A search
-- that found nothing leaves `no_volume`.
pub record Vfs : Type 0 where
  pub chosen : Option Primary
  pub cwd : List ℕ
  pub devices : List Device

-- "NTFS" and "FAT32"
abbrev ntfs_mark : List ℕ
ntfs_mark = 0x4E ∷ 0x54 ∷ 0x46 ∷ 0x53 ∷ []

abbrev fat32_mark : List ℕ
fat32_mark = 0x46 ∷ 0x41 ∷ 0x54 ∷ 0x33 ∷ 0x32 ∷ []

abbrev pub type_of_super : Option (List ℕ) → VolumeType
type_of_super none = no_volume
type_of_super (some sb) = if get16 sb 56 == 0xEF53 then ext4 else no_volume

-- Two blocks into a buffer of 1024 bytes.
abbrev pub read_super : ℕ → Io (List ℕ)
read_super lba d = if ltb 512 d.block_size then (fault, d) else read (lba + 2) 2 d

abbrev pub detect_super : ℕ → Option (List ℕ) → Io VolumeType
detect_super lba none = pure no_volume
detect_super lba (some buf) =
    let look = (do sb ← attempt (read_super lba); pure (type_of_super sb)) in
    if same_bytes (take 4 (drop 3 buf)) ntfs_mark
    then pure ntfs
    else (if same_bytes (take 5 (drop 82 buf)) fat32_mark then pure fat32 else look)

-- `detect_at`
unfoldable pub detect_at : ℕ → Io VolumeType
detect_at lba = do buf ← attempt (read_block lba); detect_super lba buf

abbrev pub is_fat32 : VolumeType → Bool
is_fat32 fat32 = true
is_fat32 _ = false

abbrev pub is_other : VolumeType → Bool
is_other ext4 = true
is_other ntfs = true
is_other _ = false

abbrev pub found_at :
    (VolumeType → Bool)
    → ℕ
    → Outcome VolumeType
    → Outcome (Option Primary)
    → Outcome (Option Primary)
found_at wanted i (ok t) rest =
    if wanted t then ok (some (record { type = t; place = i })) else rest
found_at wanted i err rest = err
found_at wanted i fault rest = fault
found_at wanted i out_of_fuel rest = out_of_fuel

-- One pass of `primary` over the devices from number `i` on.
unfoldable pub pass : (VolumeType → Bool) → ℕ → List Device → Outcome (Option Primary)
pass wanted i [] = ok none
pass wanted i (v ∷ vs) =
    let rest = pass wanted (i + 1) vs in
    if v.is_cdrom || not v.disk.writable
    then rest
    else found_at wanted i (detect_at 0 v.disk).0 rest

abbrev pub nothing : Primary
nothing = record { type = no_volume; place = 0 }

abbrev pub or_nothing : Outcome (Option Primary) → Outcome Primary
or_nothing (ok none) = ok nothing
or_nothing (ok (some p)) = ok p
or_nothing err = err
or_nothing fault = fault
or_nothing out_of_fuel = out_of_fuel

abbrev pub second_pass : List Device → Outcome (Option Primary) → Outcome Primary
second_pass vs (ok (some p)) = ok p
second_pass vs (ok none) = or_nothing (pass is_other 0 vs)
second_pass vs err = err
second_pass vs fault = fault
second_pass vs out_of_fuel = out_of_fuel

-- The search of `primary`: FAT32 first.
unfoldable pub search_primary : List Device → Outcome Primary
search_primary vs = second_pass vs (pass is_fat32 0 vs)
