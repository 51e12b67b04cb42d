-- ===== src/Tests/Volume.antt =====
-- fs/fat32.c on a volume of six clusters of 32 bytes, with two copies of an eight-entry table.
use can_boot.Common.{
  ℕ, ◌/◌, ◌%◌, ◌^◌, ◌≡◌, refl, inr, true, false, Option, some, List, [], ◌∷◌, ◌++◌, arith, ◌==◌,
  if◌then◌else◌, replicate, same_bytes,
}
use can_boot.Common.Bytes.{get32}
use can_boot.Disk.{Disk, ok, read}
use can_boot.Disk.Blocks.{IsSound}
use can_boot.Fat32.{Volume}
use can_boot.Fat32.Table.{
  read_fat_entry, write_fat_entry, find_free_cluster, find_free_from, free_chain, alloc_chain,
  write_cluster,
}
use can_boot.Fat32.Table.Layout.{IsMounted}
use can_boot.Fat32.Table.Entries.{
  fat_at, Updated, write_fat_entry-Updated, Mirrored, write_fat_entry-Mirrored,
}
use can_boot.Fat32.Table.Search.{FirstFree, find_free_cluster-FirstFree}
use can_boot.Fat32.Table.Chains.{IsChain, Freed, free_chain-Freed}
use can_boot.Fat32.Table.Alloc.{Allocates, alloc_chain-Allocates}
use can_boot.Fat32.Table.Clusters.{HasClusters, ClusterWritten, write_cluster-ClusterWritten}
use can_boot.Fat32.Dir.{Found, dir_find}
use can_boot.Fat32.Dir.Lookup.{
  lookup_name, names_nothing, dir_entries, entries_of, Reports, dir_find-FindsIn,
}
use can_boot.Fat32.Path.{store_data}
use can_boot.Fat32.Path.Contents.{Stores, store_data-Stores}

-- 32-bit words in little-endian order.
abbrev pub words : List ℕ → List ℕ
words [] = []
words (v ∷ vs) = v % 256 ∷ v / 2 ^ 8 % 256 ∷ v / 2 ^ 16 % 256 ∷ v / 2 ^ 24 % 256 ∷ words vs

-- The root is cluster 2, a file has clusters 3 and 4, and 5 to 7 are free.
abbrev pub table : List ℕ
table = words (0x0FFFFFF8 ∷ 0x0FFFFFFF ∷ 0x0FFFFFFF ∷ 4 ∷ 0x0FFFFFFF ∷ 0 ∷ 0 ∷ 0 ∷ [])

-- "INIT    CDO", an archive entry for cluster 3 with 40 bytes.
abbrev pub init_name : List ℕ
init_name = 0x49 ∷ 0x4E ∷ 0x49 ∷ 0x54 ∷ 0x20 ∷ 0x20 ∷ 0x20 ∷ 0x20 ∷ 0x43 ∷ 0x44 ∷ 0x4F ∷ []

abbrev pub init_entry : List ℕ
init_entry = init_name ++ 0x20 ∷ replicate 14 0 ++ 3 ∷ 0 ∷ 40 ∷ 0 ∷ 0 ∷ 0 ∷ []

abbrev pub disk : Disk
disk = record {
  block_size = 32;
  block_count = 9;
  writable = true;
  blocks = λ l.
      if l == 1
      then table
      else (if l == 2 then table else (if l == 3 then init_entry else replicate 32 0));
  read_fails = λ l n. false;
  write_fails = λ l n. false;
}

abbrev pub volume : Volume
volume = record {
  bytes_per_sector = 32;
  sectors_per_cluster = 1;
  bytes_per_cluster = 32;
  reserved_sectors = 1;
  num_fats = 2;
  sectors_per_fat = 1;
  root_cluster = 2;
  fat_start_lba = 1;
  data_start_lba = 3;
  total_clusters = 6;
}

disk-IsSound : IsSound disk
disk-IsSound = record { readable = λ l n. refl; writes = λ l n. refl; whole = λ l. ground arith }

volume-IsMounted : IsMounted volume disk
volume-IsMounted = record {
  sound = disk-IsSound;
  same_size = refl;
  filled = omega arith;
  aligned = refl;
  copies = omega arith;
  fits = omega arith;
  few = omega arith;
  behind = omega arith;
  in_range = omega arith;
}

volume-HasClusters : HasClusters volume
volume-HasClusters = omega arith

-- The boot disk's entries read as they were written.
fat_at_three : fat_at volume disk 3 ≡ 4
unfolding get32
fat_at_three = refl

fat_at_four : fat_at volume disk 4 ≡ 0x0FFFFFFF
unfolding get32
fat_at_four = refl

first_free_is_five : (find_free_cluster volume disk).0 ≡ ok 5
unfolding find_free_cluster find_free_from read_fat_entry read get32
first_free_is_five = refl

file-IsChain : IsChain volume disk 3 (3 ∷ 4 ∷ [])
unfolding get32
file-IsChain = (refl, omega arith, omega arith, (refl, omega arith, omega arith, inr (omega arith)))

root-IsChain : IsChain volume disk 2 (2 ∷ [])
unfolding get32
root-IsChain = (refl, omega arith, omega arith, inr (omega arith))

disk-Mirrored : Mirrored volume disk
unfolding get32
disk-Mirrored copy c below inside = ground arith

write_fat_entry-Updated_example :
    ((write_fat_entry volume 5 7 disk).0 ≡ ok tt)
    × Updated volume 5 7 disk (write_fat_entry volume 5 7 disk).1
write_fat_entry-Updated_example =
    write_fat_entry-Updated volume 5 7 disk volume-IsMounted (omega arith)

write_fat_entry-Mirrored_example : Mirrored volume (write_fat_entry volume 5 7 disk).1
write_fat_entry-Mirrored_example =
    write_fat_entry-Mirrored volume 5 7 disk volume-IsMounted (omega arith) disk-Mirrored

find_free_cluster-FirstFree_example :
    ((find_free_cluster volume disk).1 ≡ disk)
    × FirstFree volume disk 2 8 (find_free_cluster volume disk).0
find_free_cluster-FirstFree_example = find_free_cluster-FirstFree volume disk volume-IsMounted

free_chain-Freed_example :
    ((free_chain 3 volume 3 disk).0 ≡ ok tt)
    × Freed volume (3 ∷ 4 ∷ []) disk (free_chain 3 volume 3 disk).1
free_chain-Freed_example =
    free_chain-Freed 3 volume disk 3 (3 ∷ 4 ∷ []) volume-IsMounted file-IsChain (omega arith)

alloc_chain-Allocates_example :
    Allocates volume 2 disk (alloc_chain volume 2 disk).0 (alloc_chain volume 2 disk).1
alloc_chain-Allocates_example = alloc_chain-Allocates volume 2 disk volume-IsMounted

write_cluster-ClusterWritten_example :
    ((write_cluster volume 5 init_entry disk).0 ≡ ok tt)
    × ClusterWritten volume 5 init_entry disk (write_cluster volume 5 init_entry disk).1
write_cluster-ClusterWritten_example =
    write_cluster-ClusterWritten volume 5 init_entry disk volume-IsMounted volume-HasClusters
      (omega arith, omega arith) refl

store_data-Stores_example :
    Stores volume
      (1 ∷ 2 ∷ 3 ∷ [])
      disk
      (store_data volume (1 ∷ 2 ∷ 3 ∷ []) disk).0
      (store_data volume (1 ∷ 2 ∷ 3 ∷ []) disk).1
store_data-Stores_example =
    store_data-Stores volume (1 ∷ 2 ∷ 3 ∷ []) disk volume-IsMounted volume-HasClusters refl
      (omega arith)

dir_find-FindsIn_example :
    (r : Option Found) × (dir_find 2 volume 2 init_name disk ≡ (ok r, disk))
    × Reports volume disk (2 ∷ []) (lookup_name init_name (dir_entries volume disk (2 ∷ []))) r
dir_find-FindsIn_example =
    dir_find-FindsIn 2 volume disk init_name 2 (2 ∷ []) volume-IsMounted volume-HasClusters refl
      root-IsChain (omega arith)

-- The entry is found where it stands.
init_is_found : lookup_name init_name (dir_entries volume disk (2 ∷ [])) ≡ some init_entry
unfolding lookup_name names_nothing dir_entries entries_of same_bytes
init_is_found = refl
