-- ===== src/Fat32.antt =====
-- fs/fat32.c and fs/fat32.h: the mounted volume and `canboot_fat32_open`.
-- `fs->disk` is the disk that every call is given and gives back; the volume holds the rest of
-- `struct canboot_fat32`. The functions are in the modules below, the proofs below those.
pub mod Table
pub mod Names
pub mod Entry
pub mod Dir
pub mod Path
pub mod Root
pub mod Format
use can_boot.Common.{
  ℕ, ◌+◌, ◌-◌, ◌*◌, ◌/◌, ◌^◌, Bool, true, false, List, [], ◌∷◌, ltb, leb, ◌==◌, not, ◌||◌,
  if◌then◌else◌, u32, u64,
}
use can_boot.Common.Bytes.{byte_at, get16, get32}
use can_boot.Disk.{Disk, Io, pure, fail, trap, get_disk, require, read, ◌>>=◌, ◌>>◌}

-- DIR_ENTRY_SIZE, ATTR_LFN, ATTR_DIRECTORY and ATTR_VOLUME_ID; EOC is 0x0FFFFFF8.
abbrev pub dir_entry_size : ℕ
dir_entry_size = 32

abbrev pub attr_lfn : ℕ
attr_lfn = 0x0F

-- The least table value that ends a chain, EOC, and the value that the code writes there.
abbrev pub eoc : ℕ
eoc = 0x0FFFFFF8

abbrev pub end_mark : ℕ
end_mark = 0x0FFFFFFF

-- The size of the static buffers that hold one cluster.
abbrev pub buffer_size : ℕ
buffer_size = 8192

pub record Volume : Type 0 where
  pub bytes_per_sector : ℕ
  pub sectors_per_cluster : ℕ
  pub bytes_per_cluster : ℕ
  pub reserved_sectors : ℕ
  pub num_fats : ℕ
  pub sectors_per_fat : ℕ
  pub root_cluster : ℕ
  pub fat_start_lba : ℕ
  pub data_start_lba : ℕ
  pub total_clusters : ℕ

-- `uint32_t spb = bytes_per_sector / block_size; if (spb == 0) spb = 1;`
abbrev pub blocks_per_sector : ℕ → Disk → ℕ
blocks_per_sector bytes d = let q = bytes / d.block_size in if q == 0 then 1 else q

-- The volume that the fields of a boot sector describe.
abbrev pub mounted : List ℕ → Disk → Volume
mounted b d = record {
  bytes_per_sector = bytes;
  sectors_per_cluster = per_cluster;
  bytes_per_cluster = u32 (bytes * per_cluster);
  reserved_sectors = reserved;
  num_fats = fats;
  sectors_per_fat = per_fat;
  root_cluster = get32 b 44;
  fat_start_lba = u64 (reserved * spb);
  data_start_lba = u64 (reserved * spb + fats * per_fat * spb);
  total_clusters = data_sectors / per_cluster;
}
  where
    bytes : ℕ
    bytes = get16 b 11

    per_cluster : ℕ
    per_cluster = byte_at b 13

    reserved : ℕ
    reserved = get16 b 14

    fats : ℕ
    fats = byte_at b 16

    per_fat : ℕ
    per_fat = get32 b 36

    spb : ℕ
    spb = blocks_per_sector bytes d

    total : ℕ
    total = if get32 b 32 == 0 then get16 b 19 else get32 b 32

    data_sectors : ℕ
    data_sectors = u32 (total + 2 ^ 32 - u32 (reserved + fats * per_fat))

-- `canboot_fat32_open`. It divides by the block size and by the sectors per cluster with no test.
unfoldable pub open_volume : Io Volume
open_volume = do
  d ← get_disk
  require (leb d.block_size 4096)
  b ← read 0 1
  require (not (get16 b 11 == 0))
  require (get16 b 22 == 0)
  require (get16 b 17 == 0)
  if d.block_size == 0 || byte_at b 13 == 0 then trap else pure (mounted b d)
