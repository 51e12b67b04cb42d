-- ===== src/Fat32/Entry.antt =====
-- fs/fat32.c: `struct fat_dir`, an entry of 32 bytes, with `entry_first_cluster` and `make_entry`.
-- An entry is its bytes; the fields stand at their offsets in the packed structure.
use can_boot.Common.{ℕ, ◌+◌, ◌*◌, ◌/◌, ◌%◌, ◌^◌, Bool, List, ◌==◌, u16, set, take, drop, replicate}
use can_boot.Common.Bytes.{byte_at, get16, get32, put16, put32, blit}
use can_boot.Fat32.{dir_entry_size}

abbrev pub Entry : Type 0
Entry = List ℕ

abbrev pub entry_name : Entry → List ℕ
entry_name e = take 11 e

abbrev pub first_byte : Entry → ℕ
first_byte e = byte_at e 0

abbrev pub entry_attr : Entry → ℕ
entry_attr e = byte_at e 11

abbrev pub entry_size : Entry → ℕ
entry_size e = get32 e 28

-- `attr & ATTR_VOLUME_ID` (0x08) and `attr & ATTR_DIRECTORY` (0x10)
abbrev pub is_volume_id : Entry → Bool
is_volume_id e = entry_attr e / 8 % 2 == 1

abbrev pub is_directory : Entry → Bool
is_directory e = entry_attr e / 16 % 2 == 1

-- `((uint32_t)cluster_hi << 16) | cluster_lo`
unfoldable pub entry_first_cluster : Entry → ℕ
entry_first_cluster e = get16 e 20 * 2 ^ 16 + get16 e 26

abbrev pub set_first_cluster : Entry → ℕ → Entry
set_first_cluster e first = put16 (put16 e 20 (u16 (first / 2 ^ 16))) 26 (u16 first)

unfoldable pub make_entry : List ℕ → ℕ → ℕ → ℕ → Entry
make_entry name attr first size =
    let named = set (blit (replicate dir_entry_size 0) 0 name) 11 attr in
    put32 (set_first_cluster named first) 28 size

-- Entry `i` of a cluster buffer.
abbrev pub slot : List ℕ → ℕ → Entry
slot buf i = take dir_entry_size (drop (i * dir_entry_size) buf)
