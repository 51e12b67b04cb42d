-- ===== src/Fat32/Format.antt =====
-- fs/fat32.c: `pick_spc` and `canboot_fat32_format`, which lays out a fresh volume.
use can_boot.Common.{
  ℕ, zero, suc, ◌+◌, ◌-◌, ◌*◌, ◌/◌, ◌^◌, not, ◌&&◌, Option, none, some, List, [], ◌∷◌, ◌++◌, map,
  ltb, leb, ◌==◌, if◌then◌else◌, u8, u32, u64, length, set, take, replicate,
}
use can_boot.Common.Bytes.{put16, put32, blit}
use can_boot.Disk.{Io, pure, get_disk, require, write, ◌>>=◌, ◌>>◌}

unfoldable pub pick_spc : ℕ → ℕ
pick_spc size_lba =
    if ltb size_lba 16384
    then 0
    else (if ltb size_lba 532480
        then 1
        else (if ltb size_lba 16777216
            then 8
            else (if ltb size_lba 33554432
                then 16
                else (if ltb size_lba 67108864 then 32 else 64))))

abbrev pub reserved : ℕ
reserved = 32

abbrev pub num_fats : ℕ
num_fats = 2

-- `size_lba - reserved - num_fats * fat_sectors`, in 64 bits; the product has 32.
abbrev pub avail : ℕ → ℕ → ℕ
avail size_lba fat_sectors = u64 (size_lba + 2 * 2 ^ 64 - reserved - u32 (num_fats * fat_sectors))

-- The sectors that a table with an entry for every cluster takes, of 128 entries each.
abbrev pub needed_sectors : ℕ → ℕ → ℕ → ℕ
needed_sectors size_lba spc fat_sectors =
    u32 (u64 (avail size_lba fat_sectors / spc + 128 - 1) / 128)

-- The loop that raises `fat_sectors`, of at most `n` rounds.
unfoldable pub fit_table : ℕ → ℕ → ℕ → ℕ → ℕ
fit_table size_lba spc zero fat_sectors = fat_sectors
fit_table size_lba spc (suc n) fat_sectors =
    let need = needed_sectors size_lba spc fat_sectors in
    let again = fit_table size_lba spc n need in if leb need fat_sectors then fat_sectors else again

-- The clusters of the volume, once the size of a table is settled.
abbrev pub cluster_count : ℕ → ℕ → ℕ → ℕ
cluster_count size_lba spc fat_sectors = u32 (avail size_lba fat_sectors / spc)

abbrev pub blank : List ℕ
blank = replicate 512 0

abbrev pub signed : List ℕ → List ℕ
signed sect = set (set sect 510 0x55) 511 0xAA

-- The volume label: given, in upper case and filled up with spaces, or "CANBOOT    ".
unfoldable pub label_field : Option (List ℕ) → List ℕ
label_field none = 0x43 ∷ 0x41 ∷ 0x4E ∷ 0x42 ∷ 0x4F ∷ 0x4F ∷ 0x54 ∷ 0x20 ∷ 0x20 ∷ 0x20 ∷ 0x20 ∷ []
label_field (some label) =
    map (λ c. if leb b'a' c && leb c b'z' then c - 32 else c) (take 11 label)
    ++ replicate (11 - length label) 0x20

-- The geometry fields of the boot sector, over the jump and the name "MSWIN4.1".
abbrev pub boot_fields : ℕ → ℕ → ℕ → ℕ → List ℕ
boot_fields start_lba size_lba spc fat_sectors =
    let jump = blit blank 0 (0xEB ∷ 0x58 ∷ 0x90 ∷ []) in
    let oem = blit jump 3 (0x4D ∷ 0x53 ∷ 0x57 ∷ 0x49 ∷ 0x4E ∷ 0x34 ∷ 0x2E ∷ 0x31 ∷ []) in
    let sizes = set (put16 (set (put16 oem 11 512) 13 (u8 spc)) 14 reserved) 16 num_fats in
    let legacy = put16 (put16 (set (put16 (put16 sizes 17 0) 19 0) 21 0xF8) 22 0) 24 63 in
    let hidden = put32 (put16 legacy 26 255) 28 (u32 start_lba) in
    let total = put32 hidden 32 (if ltb 0xFFFFFFFF size_lba then 0 else u32 size_lba) in
    put16 (put16 (put32 (put16 (put16 (put32 total 36 fat_sectors) 40 0) 42 0) 44 2) 48 1) 50 6

-- The whole boot sector, with drive number, serial, label, type and signature.
unfoldable pub boot_sector : ℕ → ℕ → ℕ → ℕ → Option (List ℕ) → List ℕ
boot_sector start_lba size_lba spc fat_sectors label =
    let fields = boot_fields start_lba size_lba spc fat_sectors in
    let serial = put32 (set (set fields 64 0x80) 66 0x29) 67 0xCA17B007 in
    signed (
      blit (blit serial 71 (label_field label)) 82
        (0x46 ∷ 0x41 ∷ 0x54 ∷ 0x33 ∷ 0x32 ∷ 0x20 ∷ 0x20 ∷ 0x20 ∷ []))

unfoldable pub info_sector : ℕ → List ℕ
info_sector clusters = signed (
    put32
      (put32 (put32 (put32 blank 0 0x41615252) 484 0x61417272) 488 (u32 (clusters + 2 ^ 32 - 1)))
      492 3)

unfoldable pub first_table_sector : List ℕ
first_table_sector = put32 (put32 (put32 blank 0 0x0FFFFFF8) 4 0x0FFFFFFF) 8 0x0FFFFFF8

-- The rest of both tables is zeroed, `n` sectors from offset `off` on.
unfoldable pub zero_tables : ℕ → ℕ → ℕ → ℕ → Io (Unit {0})
zero_tables fat0 fat_sectors off zero = pure tt
zero_tables fat0 fat_sectors off (suc n) =
    write (u64 (fat0 + off)) 1 blank
    >> write (u64 (fat0 + fat_sectors + off)) 1 blank
    >> zero_tables fat0 fat_sectors (off + 1) n

unfoldable pub zero_sectors : ℕ → ℕ → Io (Unit {0})
zero_sectors lba zero = pure tt
zero_sectors lba (suc n) = write lba 1 blank >> zero_sectors (u64 (lba + 1)) n

-- The writes of `canboot_fat32_format`, in its order.
unfoldable pub lay_out : ℕ → ℕ → ℕ → ℕ → Option (List ℕ) → Io (Unit {0})
lay_out start_lba size_lba spc fat_sectors label = do
  write start_lba 1 (boot_sector start_lba size_lba spc fat_sectors label)
  write (u64 (start_lba + 6)) 1 (boot_sector start_lba size_lba spc fat_sectors label)
  write (u64 (start_lba + 1)) 1 (info_sector (cluster_count size_lba spc fat_sectors))
  write (u64 (start_lba + 7)) 1 (info_sector (cluster_count size_lba spc fat_sectors))
  write (u64 (start_lba + reserved)) 1 first_table_sector
  write (u64 (start_lba + reserved + fat_sectors)) 1 first_table_sector
  zero_tables (u64 (start_lba + reserved)) fat_sectors 1 (fat_sectors - 1)
  zero_sectors (u64 (start_lba + reserved + u32 (num_fats * fat_sectors))) spc

unfoldable pub format : ℕ → ℕ → Option (List ℕ) → Io (Unit {0})
format start_lba size_lba label = do
  d ← get_disk
  require d.writable
  require (d.block_size == 512)
  require (not (pick_spc size_lba == 0))
  let fat_sectors = fit_table size_lba (pick_spc size_lba) 32 32
  require (leb 65525 (cluster_count size_lba (pick_spc size_lba) fat_sectors))
  lay_out start_lba size_lba (pick_spc size_lba) fat_sectors label
