-- ===== src/Fat32/Table.antt =====
-- fs/fat32.c: where clusters and their table entries lie on the disk, and the functions that read
-- and write them: `cluster_lba`, `read_fat_entry`, `write_fat_entry`, `read_cluster`,
-- `write_cluster`, `find_free_cluster`, `alloc_chain` and `free_chain`.
-- `& 0x0FFFFFFF` is written `% 2 ^ 28`, and `& 0xF0000000` of a 32-bit value `/ 2 ^ 28 * 2 ^ 28`.
pub mod Layout
pub mod Entries
pub mod Search
pub mod Chains
pub mod Count
pub mod Alloc
pub mod Clusters
use can_boot.Common.{
  ℕ, zero, suc, ◌+◌, ◌-◌, ◌*◌, ◌/◌, ◌%◌, ◌^◌, List, [], ◌∷◌, ltb, leb, ◌==◌, if◌then◌else◌, ◌&&◌,
  ◌||◌, u32, u64, length,
}
use can_boot.Common.Bytes.{get32, put32}
use can_boot.Disk.{Disk, Io, pure, fail, exhausted, get_disk, read, write, ◌>>=◌, ◌>>◌}
use can_boot.Fat32.{Volume, eoc, end_mark, blocks_per_sector}

abbrev pub sector_blocks : Volume → Disk → ℕ
sector_blocks fs d = blocks_per_sector fs.bytes_per_sector d

-- `cluster_lba`
abbrev pub cluster_lba : Volume → ℕ → Disk → ℕ
cluster_lba fs cluster d =
    u64
      (fs.data_start_lba + u32 (cluster + 2 ^ 32 - 2) * fs.sectors_per_cluster * sector_blocks fs d)

-- `fat_offset`, and the block that holds the entry in copy `copy` of the table.
abbrev pub fat_offset : ℕ → ℕ
fat_offset cluster = u32 (cluster * 4)

abbrev pub entry_lba : Volume → ℕ → ℕ → Disk → ℕ
entry_lba fs copy cluster d = u64 (
    fs.fat_start_lba
    + copy * fs.sectors_per_fat * sector_blocks fs d
    + fat_offset cluster / fs.bytes_per_sector * sector_blocks fs d)

abbrev pub entry_offset : Volume → ℕ → ℕ
entry_offset fs cluster = fat_offset cluster % fs.bytes_per_sector

unfoldable pub read_fat_entry : Volume → ℕ → Io ℕ
read_fat_entry fs cluster = do
  d ← get_disk
  sect ← read (entry_lba fs 0 cluster d) 1
  pure (get32 sect (entry_offset fs cluster) % 2 ^ 28)

-- `*e = (*e & 0xF0000000u) | (value & 0x0FFFFFFFu)`: the top four bits are kept.
abbrev pub merge_entry : ℕ → ℕ → ℕ
merge_entry old value = old / 2 ^ 28 * 2 ^ 28 + value % 2 ^ 28

abbrev pub merged_sector : Volume → ℕ → ℕ → List ℕ → List ℕ
merged_sector fs cluster value sect =
    let off = entry_offset fs cluster in put32 sect off (merge_entry (get32 sect off) value)

-- One round of the loop in `write_fat_entry`.
unfoldable pub write_copy : Volume → ℕ → ℕ → ℕ → Io (Unit {0})
write_copy fs cluster value copy = do
  d ← get_disk
  sect ← read (entry_lba fs copy cluster d) 1
  write (entry_lba fs copy cluster d) 1 (merged_sector fs cluster value sect)

-- The rounds for the `n` copies from `copy` on.
unfoldable pub write_copies : Volume → ℕ → ℕ → ℕ → ℕ → Io (Unit {0})
write_copies fs cluster value copy zero = pure tt
write_copies fs cluster value copy (suc n) =
    write_copy fs cluster value copy >> write_copies fs cluster value (copy + 1) n

unfoldable pub write_fat_entry : Volume → ℕ → ℕ → Io (Unit {0})
write_fat_entry fs cluster value = write_copies fs cluster value 0 fs.num_fats

unfoldable pub read_cluster : Volume → ℕ → Io (List ℕ)
read_cluster fs cluster = do
  d ← get_disk
  read (cluster_lba fs cluster d) (u32 (fs.sectors_per_cluster * sector_blocks fs d))

unfoldable pub write_cluster : Volume → ℕ → List ℕ → Io (Unit {0})
write_cluster fs cluster buf = do
  d ← get_disk
  write (cluster_lba fs cluster d) (u32 (fs.sectors_per_cluster * sector_blocks fs d)) buf

-- The loop of `find_free_cluster` over the `n` clusters from `c` on.
unfoldable pub find_free_from : Volume → ℕ → ℕ → Io ℕ
find_free_from fs c zero = fail
find_free_from fs c (suc n) = do
  entry ← read_fat_entry fs c
  let rest = find_free_from fs (c + 1) n
  if entry == 0 then pure c else rest

unfoldable pub find_free_cluster : Volume → Io ℕ
find_free_cluster fs = find_free_from fs 2 (u32 (2 + fs.total_clusters) - 2)

-- `free_chain`. A chain that runs in a circle meets its own freed entry, 0, and ends there.
unfoldable pub free_chain : ℕ → Volume → ℕ → Io (Unit {0})
free_chain zero fs cur = exhausted
free_chain (suc fuel) fs cur =
    let round = (do
      next ← read_fat_entry fs cur
      write_fat_entry fs cur 0
      free_chain fuel fs next) in
    if leb 2 cur && ltb cur eoc then round else pure tt

-- The first loop of `alloc_chain`: `n` clusters are found, and each is reserved at once.
unfoldable pub reserve_clusters : Volume → ℕ → Io (List ℕ)
reserve_clusters fs zero = pure []
reserve_clusters fs (suc n) = do
  c ← find_free_cluster fs
  write_fat_entry fs c end_mark
  rest ← reserve_clusters fs n
  pure (c ∷ rest)

-- The second loop: each cluster is linked to the one after it.
unfoldable pub link_clusters : Volume → List ℕ → Io (Unit {0})
link_clusters fs [] = pure tt
link_clusters fs (c ∷ []) = write_fat_entry fs c end_mark
link_clusters fs (c ∷ next ∷ rest) = write_fat_entry fs c next >> link_clusters fs (next ∷ rest)

-- `alloc_chain`, with FAT32_MAX_CHAIN.
abbrev pub max_chain : ℕ
max_chain = 256

unfoldable pub alloc_chain : Volume → ℕ → Io (List ℕ)
alloc_chain fs n =
    if n == 0 || ltb max_chain n
    then fail
    else (do chain ← reserve_clusters fs n; link_clusters fs chain; pure chain)
