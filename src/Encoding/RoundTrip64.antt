-- ===== src/Encoding/RoundTrip64.antt =====
-- Decoding base64 that was encoded.
use can_boot.Common.{
  ℕ, zero, suc, ◌+◌, ◌*◌, ◌/◌, ◌%◌, ◌^◌, ◌≤◌, ◌<◌, ◌≡◌, refl, sym, ap, ap₂, ◌∙◌, ◌≢◌, none, some,
  List, [], ◌∷◌, arith, eq→==, ne→==, length, take, All, length-take, take_all,
}
use can_boot.Common.Bytes.{IsByte}
use can_boot.Encoding.{c_string}
use can_boot.Encoding.RoundTrip.{c_string-IsByte, c_string_whole}
use can_boot.Encoding.Base64.{
  digit_64, value_64, pad, digit_at, encode_groups, encode_64, value_or_pad, decode_groups,
  decode_64,
}

value_64-digit_64 : (v : ℕ) → v < 64 → value_64 (digit_64 v) ≡ some v
unfolding value_64 digit_64
value_64-digit_64 v h = ground arith

digit_64_no_pad : (v : ℕ) → digit_64 v ≢ pad
unfolding digit_64
digit_64_no_pad v = ground arith

value_or_pad-digit_64 : (v : ℕ) → v < 64 → value_or_pad (digit_64 v) ≡ some (some v)
unfolding value_or_pad
value_or_pad-digit_64 v h =
    rw (ne→== (digit_64 v) pad (digit_64_no_pad v), value_64-digit_64 v h) refl

-- The four digits of a word of 24 bits.
module _ (v : ℕ) (small : v < 2 ^ 24) where
  digits_whole :
      v / 2 ^ 18 % 64 * 2 ^ 18 + v / 2 ^ 12 % 64 * 2 ^ 12 + v / 2 ^ 6 % 64 * 2 ^ 6 + v / 2 ^ 0 % 64
      ≡ v
  digits_whole = omega (arith, small)

  decode_full :
      (src rest : List ℕ)
      → decode_groups src ≡ some rest
      → decode_groups (digit_at v 18 ∷ digit_at v 12 ∷ digit_at v 6 ∷ digit_at v 0 ∷ src)
        ≡ some (v / 2 ^ 16 % 256 ∷ v / 2 ^ 8 % 256 ∷ v % 256 ∷ rest)
  unfolding decode_groups
  decode_full src rest h =
      rw
        (
          value_64-digit_64 (v / 2 ^ 18 % 64) (omega arith),
          value_64-digit_64 (v / 2 ^ 12 % 64) (omega arith),
          value_or_pad-digit_64 (v / 2 ^ 6 % 64) (omega arith),
          value_or_pad-digit_64 (v / 2 ^ 0 % 64) (omega arith),
          h,
          digits_whole,
        )
        refl

value_or_pad-pad : value_or_pad pad ≡ some none
unfolding value_or_pad
value_or_pad-pad = refl

decode_nothing : decode_groups [] ≡ some []
unfolding decode_groups
decode_nothing = refl

decode_two :
    (v : ℕ)
    → v < 2 ^ 24
    → v % 64 ≡ 0
    → decode_groups (digit_at v 18 ∷ digit_at v 12 ∷ digit_at v 6 ∷ pad ∷ [])
      ≡ some (v / 2 ^ 16 % 256 ∷ v / 2 ^ 8 % 256 ∷ [])
unfolding decode_groups
decode_two v small even =
    let whole : v / 2 ^ 18 % 64 * 2 ^ 18 + v / 2 ^ 12 % 64 * 2 ^ 12 + v / 2 ^ 6 % 64 * 2 ^ 6 + 0
        ≡ v =
      omega (arith, small, even) in
    rw
      (
        value_64-digit_64 (v / 2 ^ 18 % 64) (omega arith),
        value_64-digit_64 (v / 2 ^ 12 % 64) (omega arith),
        value_or_pad-digit_64 (v / 2 ^ 6 % 64) (omega arith),
        value_or_pad-pad,
        whole,
      )
      refl

decode_one :
    (v : ℕ)
    → v < 2 ^ 24
    → v % 2 ^ 12 ≡ 0
    → decode_groups (digit_at v 18 ∷ digit_at v 12 ∷ pad ∷ pad ∷ []) ≡ some (v / 2 ^ 16 % 256 ∷ [])
unfolding decode_groups
decode_one v small even =
    let whole : v / 2 ^ 18 % 64 * 2 ^ 18 + v / 2 ^ 12 % 64 * 2 ^ 12 + 0 * 2 ^ 6 + 0 ≡ v =
      omega (arith, small, even) in
    rw
      (
        value_64-digit_64 (v / 2 ^ 18 % 64) (omega arith),
        value_64-digit_64 (v / 2 ^ 12 % 64) (omega arith),
        value_or_pad-pad,
        whole,
      )
      refl

take-three :
    (n : ℕ) (a b c : ℕ) (src : List ℕ)
    → take (3 * suc n) (a ∷ b ∷ c ∷ src) ≡ a ∷ b ∷ c ∷ take (3 * n) src
take-three n a b c src =
    let more : 3 * suc n ≡ suc (suc (suc (3 * n))) = omega arith in
    ap (λ (k : ℕ). take k (a ∷ b ∷ c ∷ src)) more

decode_groups-encode_groups :
    (n : ℕ) (src : List ℕ)
    → All IsByte src
    → decode_groups (encode_groups n src) ≡ some (take (3 * n) src)
unfolding encode_groups
decode_groups-encode_groups zero src h = decode_nothing
decode_groups-encode_groups (suc n) [] h =
    let more : 3 * suc n ≡ suc (suc (suc (3 * n))) = omega arith in rw more decode_nothing
decode_groups-encode_groups (suc n) (a ∷ []) h =
    let more : 3 * suc n ≡ suc (suc (suc (3 * n))) = omega arith in
    let v = a * 2 ^ 16 in
    let first : v / 2 ^ 16 % 256 ≡ a = omega (arith, h.0) in
    decode_one v (omega (arith, h.0)) (omega arith)
    ∙ ap (λ (x : ℕ). some (x ∷ [])) first
    ∙ ap (λ (k : ℕ). some (take k (a ∷ []))) (sym more)
decode_groups-encode_groups (suc n) (a ∷ b ∷ []) h =
    let more : 3 * suc n ≡ suc (suc (suc (3 * n))) = omega arith in
    let v = a * 2 ^ 16 + b * 2 ^ 8 in
    let first : v / 2 ^ 16 % 256 ≡ a = omega (arith, h.0, h.1.0) in
    let second : v / 2 ^ 8 % 256 ≡ b = omega (arith, h.0, h.1.0) in
    decode_two v (omega (arith, h.0, h.1.0)) (omega arith)
    ∙ ap₂ (λ (x y : ℕ). some (x ∷ y ∷ [])) first second
    ∙ ap (λ (k : ℕ). some (take k (a ∷ b ∷ []))) (sym more)
decode_groups-encode_groups (suc n) (a ∷ b ∷ c ∷ src) h =
    let v = a * 2 ^ 16 + b * 2 ^ 8 + c in
    let first : v / 2 ^ 16 % 256 ≡ a = omega (arith, h.0, h.1.0, h.1.1.0) in
    let second : v / 2 ^ 8 % 256 ≡ b = omega (arith, h.0, h.1.0, h.1.1.0) in
    let third : v % 256 ≡ c = omega (arith, h.1.1.0) in
    decode_full v (omega (arith, h.0, h.1.0, h.1.1.0)) (encode_groups n src) (take (3 * n) src)
      (decode_groups-encode_groups n src h.1.1.1)
    ∙ ap (λ (x : ℕ). some (x ∷ v / 2 ^ 8 % 256 ∷ v % 256 ∷ take (3 * n) src)) first
    ∙ ap₂ (λ (x y : ℕ). some (a ∷ x ∷ y ∷ take (3 * n) src)) second third
    ∙ ap some (sym (take-three n a b c src))

encode_groups-whole : (n : ℕ) (src : List ℕ) → length (encode_groups n src) % 4 ≡ 0
unfolding encode_groups
encode_groups-whole zero src = refl
encode_groups-whole (suc n) [] = refl
encode_groups-whole (suc n) (a ∷ []) = omega arith
encode_groups-whole (suc n) (a ∷ b ∷ []) = omega arith
encode_groups-whole (suc n) (a ∷ b ∷ c ∷ src) = omega (arith, encode_groups-whole n src)

digit_64_no_nul : (v : ℕ) → digit_64 v ≢ 0
unfolding digit_64
digit_64_no_nul v = ground arith

no_nul-encode_groups : (n : ℕ) (src : List ℕ) → All (λ c. c ≢ 0) (encode_groups n src)
unfolding encode_groups
no_nul-encode_groups zero src = tt
no_nul-encode_groups (suc n) [] = tt
no_nul-encode_groups (suc n) (a ∷ []) =
    (digit_64_no_nul _, (digit_64_no_nul _, (omega arith, (omega arith, tt))))
no_nul-encode_groups (suc n) (a ∷ b ∷ []) =
    (digit_64_no_nul _, (digit_64_no_nul _, (digit_64_no_nul _, (omega arith, tt))))
no_nul-encode_groups (suc n) (a ∷ b ∷ c ∷ src) = (
  digit_64_no_nul _,
  (digit_64_no_nul _, (digit_64_no_nul _, (digit_64_no_nul _, no_nul-encode_groups n src))),
)

-- Decoding what was encoded in base64 gives the bytes before the first NUL back, cut at the 12285
-- that the encoder's buffer has room for. What stands behind a NUL is lost.
pub decode_64-encode_64 :
    (src : List ℕ) → All IsByte src → decode_64 (encode_64 src) ≡ some (take 12285 (c_string src))
unfolding decode_64 encode_64
decode_64-encode_64 src h =
    let text = c_string src in
    let short : length (take 12285 text) ≤ 12288 = omega (arith, length-take 12285 text) in
    rw
      (
        c_string_whole (encode_groups 4095 text) (no_nul-encode_groups 4095 text),
        eq→== (length (encode_groups 4095 text) % 4) 0 (encode_groups-whole 4095 text),
        decode_groups-encode_groups 4095 text (c_string-IsByte src h),
        take_all 12288 (take 12285 text) short,
      )
      refl
