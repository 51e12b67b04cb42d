-- ===== src/Tests/Partition.antt =====
-- The checksum of a GPT header, on its check value.
use can_boot.Common.{◌≡◌, refl, [], ◌∷◌}
use can_boot.Partition.Checksum.{xor, crc_shifts, crc_from, crc32}

-- The check value of CRC-32: the checksum of "123456789".
crc32_check : crc32 (0x31 ∷ 0x32 ∷ 0x33 ∷ 0x34 ∷ 0x35 ∷ 0x36 ∷ 0x37 ∷ 0x38 ∷ 0x39 ∷ []) ≡ 0xCBF43926
unfolding crc32 crc_from crc_shifts xor
crc32_check = refl
