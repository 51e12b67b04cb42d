-- ===== src/Partition/Checksum.antt =====
-- fs/partition.c: `crc32_buf`.
use can_boot.Common.{ℕ, zero, suc, ◌+◌, ◌*◌, ◌/◌, ◌%◌, List, [], ◌∷◌, ◌==◌, if◌then◌else◌}

-- C's `^` on words of `w` bits.
unfoldable pub xor : ℕ → ℕ → ℕ → ℕ
xor zero a b = 0
xor (suc w) a b = (a + b) % 2 + 2 * xor w (a / 2) (b / 2)

-- C's `|` on words of `w` bits.
unfoldable pub bit_or : ℕ → ℕ → ℕ → ℕ
bit_or zero a b = 0
bit_or (suc w) a b = (if (a % 2 + b % 2) == 0 then 0 else 1) + 2 * bit_or w (a / 2) (b / 2)

-- The inner loop that fills the table: `k` shifts.
unfoldable pub crc_shifts : ℕ → ℕ → ℕ
crc_shifts zero c = c
crc_shifts (suc k) c = crc_shifts k (if c % 2 == 1 then xor 32 0xEDB88320 (c / 2) else c / 2)

-- `table[i]`
abbrev pub crc_table : ℕ → ℕ
crc_table i = crc_shifts 8 i

unfoldable pub crc_from : ℕ → List ℕ → ℕ
crc_from c [] = c
crc_from c (b ∷ bs) = crc_from (xor 32 (crc_table (xor 32 c b % 256)) (c / 256)) bs

unfoldable pub crc32 : List ℕ → ℕ
crc32 bytes = xor 32 (crc_from 0xFFFFFFFF bytes) 0xFFFFFFFF
