-- ===== src/Encoding.antt =====
-- cando_port/lib/encoding.c: the hex codec. An argument is the bytes that a script gives; the code
-- takes their `strlen`, and so what stands before the first NUL. `none` is the null that a script
-- gets.
pub mod RoundTrip
pub mod RoundTrip64
pub mod Base64
use can_boot.Common.{
  ℕ, zero, suc, ◌+◌, ◌-◌, ◌*◌, ◌/◌, ◌%◌, ◌^◌, ◌≤◌, ◌<◌, min, ◌≡◌, refl, sym, ap, ap₂, ◌∙◌, fun_ext,
  ◌≢◌, ◌↔◌, ◌⊎◌, inl, inr, Bool, true, false, not, ◌&&◌, ◌||◌, Option, none, some, List, [], ◌∷◌,
  ◌++◌, map, append-nil, append_assoc, arith, dec_lt, dec_le, ℕ_discrete, ltb, leb, ◌==◌,
  if◌then◌else◌, ltb→lt, lt→ltb, le→ltb, ltb→le, ==→eq, ==→ne, eq→==, ne→==, Bool-cases, u8, u16,
  u32, u64, length, get_or, set, take, drop, replicate, All, length-append, length-set,
  get_or-set_self, get_or-set_ne, length-take, length-drop, length-replicate, take_all,
  take-append-drop, take-length-append, drop-length-append, All-append, same_bytes, same_bytes→eq,
  same_bytes_self, contains, get_or-take, get_or-drop, take-get_or-drop, take-take, All-of_index,
}

-- `hex_digits[v]`
unfoldable pub hex_digit : ℕ → ℕ
hex_digit v = if ltb v 10 then 0x30 + v else 0x61 + (v - 10)

-- `unhex_nibble`, where `none` is -1.
unfoldable pub unhex_nibble : ℕ → Option ℕ
unhex_nibble c =
    if leb 0x30 c && leb c 0x39
    then some (c - 0x30)
    else if leb 0x61 c && leb c 0x66
    then some (10 + (c - 0x61))
    else (if leb 0x41 c && leb c 0x46 then some (10 + (c - 0x41)) else none)

unfoldable pub hex_digits_of : List ℕ → List ℕ
hex_digits_of [] = []
hex_digits_of (b ∷ bs) = hex_digit (b / 16) ∷ hex_digit (b % 16) ∷ hex_digits_of bs

-- The `strlen(src)` bytes before the first NUL.
unfoldable pub c_string : List ℕ → List ℕ
c_string [] = []
c_string (c ∷ cs) = let rest = c_string cs in if c == 0 then [] else c ∷ rest

-- `h_encode`: at most 8191 bytes are taken, for the buffer of 16384.
unfoldable pub hex_encode : List ℕ → List ℕ
hex_encode src = hex_digits_of (take 8191 (c_string src))

abbrev pub byte_cons : Option ℕ → Option ℕ → Option (List ℕ) → Option (List ℕ)
byte_cons none lo rest = none
byte_cons (some hi) none rest = none
byte_cons (some hi) (some lo) none = none
byte_cons (some hi) (some lo) (some bs) = some ((hi * 16 + lo) ∷ bs)

-- The loop of `h_decode` over `n` pairs of digits.
unfoldable pub hex_bytes : ℕ → List ℕ → Option (List ℕ)
hex_bytes zero src = some []
hex_bytes (suc n) src =
    byte_cons (unhex_nibble (get_or src 0 0)) (unhex_nibble (get_or src 1 0))
      (hex_bytes n (drop 2 src))

-- `h_decode`: at most 8192 bytes come out.
unfoldable pub hex_decode : List ℕ → Option (List ℕ)
hex_decode src =
    let text = c_string src in
    if length text % 2 == 0 then hex_bytes (min (length text / 2) 8192) text else none
