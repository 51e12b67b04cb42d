-- ===== src/Encoding/Base64.antt =====
-- cando_port/lib/encoding.c: the base64 codec.
use can_boot.Common.{
  ℕ, zero, suc, ◌+◌, ◌-◌, ◌*◌, ◌/◌, ◌%◌, ◌^◌, ◌&&◌, Option, none, some, List, [], ◌∷◌, ◌++◌, ltb,
  leb, ◌==◌, if◌then◌else◌, length, take,
}
use can_boot.Encoding.{c_string}

-- `b64_alphabet[v]`
unfoldable pub digit_64 : ℕ → ℕ
digit_64 v =
    if ltb v 26
    then 0x41 + v
    else if ltb v 52
    then 0x61 + (v - 26)
    else if ltb v 62
    then 0x30 + (v - 52)
    else (if v == 62 then 0x2B else 0x2F)

-- `b64_value`, where `none` is -1.
unfoldable pub value_64 : ℕ → Option ℕ
value_64 c =
    if leb 0x41 c && leb c 0x5A
    then some (c - 0x41)
    else if leb 0x61 c && leb c 0x7A
    then some (26 + (c - 0x61))
    else if leb 0x30 c && leb c 0x39
    then some (52 + (c - 0x30))
    else (if c == 0x2B then some 62 else (if c == 0x2F then some 63 else none))

-- '='
abbrev pub pad : ℕ
pad = 0x3D

-- The digits of a word of 24 bits.
abbrev pub digit_at : ℕ → ℕ → ℕ
digit_at v shift = digit_64 (v / 2 ^ shift % 64)

-- `b_encode`, with room for so many groups of four digits.
unfoldable pub encode_groups : ℕ → List ℕ → List ℕ
encode_groups zero src = []
encode_groups (suc room) [] = []
encode_groups (suc room) (a ∷ []) =
    let v = a * 2 ^ 16 in digit_at v 18 ∷ digit_at v 12 ∷ pad ∷ pad ∷ []
encode_groups (suc room) (a ∷ b ∷ []) =
    let v = a * 2 ^ 16 + b * 2 ^ 8 in digit_at v 18 ∷ digit_at v 12 ∷ digit_at v 6 ∷ pad ∷ []
encode_groups (suc room) (a ∷ b ∷ c ∷ src) =
    let v = a * 2 ^ 16 + b * 2 ^ 8 + c in
    digit_at v 18 ∷ digit_at v 12 ∷ digit_at v 6 ∷ digit_at v 0 ∷ encode_groups room src

-- `b_encode`: a buffer of 16384 bytes has room for 4095 groups and the terminating zero.
unfoldable pub encode_64 : List ℕ → List ℕ
encode_64 src = encode_groups 4095 (c_string src)

-- The value of one of the last two digits of a group: `some none` is the padding.
unfoldable pub value_or_pad : ℕ → Option (Option ℕ)
value_or_pad c =
    if c == pad then some none else elim (value_64 c) [ none ↦ none | some v ↦ some (some v) ]

abbrev pub value_of : Option ℕ → ℕ
value_of none = 0
value_of (some v) = v

abbrev pub when_digit : Option ℕ → ℕ → List ℕ
when_digit none b = []
when_digit (some v) b = b ∷ []

-- The bytes of one group.
abbrev pub group_bytes : ℕ → ℕ → Option ℕ → Option ℕ → List ℕ
group_bytes a b c d =
    let v = a * 2 ^ 18 + b * 2 ^ 12 + value_of c * 2 ^ 6 + value_of d in
    v / 2 ^ 16 % 256 ∷ (when_digit c (v / 2 ^ 8 % 256) ++ when_digit d (v % 256))

abbrev pub join_group :
    Option ℕ → Option ℕ → Option (Option ℕ) → Option (Option ℕ) → Option (List ℕ) → Option (List ℕ)
join_group (some a) (some b) (some c) (some d) (some rest) = some (group_bytes a b c d ++ rest)
join_group _ _ _ _ _ = none

-- The loop of `b_decode`.
unfoldable pub decode_groups : List ℕ → Option (List ℕ)
decode_groups (a ∷ b ∷ c ∷ d ∷ src) =
    join_group (value_64 a) (value_64 b) (value_or_pad c) (value_or_pad d) (decode_groups src)
decode_groups _ = some []

abbrev pub cut_bytes : Option (List ℕ) → Option (List ℕ)
cut_bytes none = none
cut_bytes (some bytes) = some (take 12288 bytes)

-- `b_decode`: the buffer holds 12288 bytes, and what comes after them is dropped.
unfoldable pub decode_64 : List ℕ → Option (List ℕ)
decode_64 src =
    if length (c_string src) % 4 == 0 then cut_bytes (decode_groups (c_string src)) else none
