-- ===== src/Encoding/RoundTrip.antt =====
-- Decoding hex that was encoded.
use can_boot.Common.{
  ℕ, zero, suc, ◌+◌, ◌*◌, ◌/◌, ◌%◌, ◌<◌, min, ◌≡◌, refl, ap, true, some, List, [], ◌∷◌, arith, ◌==◌,
  ◌≢◌, inl, inr, Bool-cases, ne→==, eq→==, length, take, All, length-take,
}
use can_boot.Common.Bytes.{IsByte}
use can_boot.Encoding.{
  hex_digit, unhex_nibble, hex_digits_of, hex_encode, hex_bytes, hex_decode, c_string,
}

unhex_nibble-hex_digit : (v : ℕ) → v < 16 → unhex_nibble (hex_digit v) ≡ some v
unfolding unhex_nibble hex_digit
unhex_nibble-hex_digit v h = ground arith

hex_bytes-hex_digits_of :
    (bs : List ℕ) → All IsByte bs → hex_bytes (length bs) (hex_digits_of bs) ≡ some bs
unfolding hex_bytes hex_digits_of
hex_bytes-hex_digits_of [] h = refl
hex_bytes-hex_digits_of (b ∷ bs) h =
    let whole : b / 16 * 16 + b % 16 ≡ b = omega arith in
    rw (unhex_nibble-hex_digit (b / 16) (omega (arith, h.0))) (
      rw (unhex_nibble-hex_digit (b % 16) (omega arith))
        (rw (hex_bytes-hex_digits_of bs h.1) (ap (λ (t : ℕ). some (t ∷ bs)) whole)))

length-hex_digits_of : (bs : List ℕ) → length (hex_digits_of bs) ≡ 2 * length bs
unfolding hex_digits_of
length-hex_digits_of [] = refl
length-hex_digits_of (b ∷ bs) = omega (arith, length-hex_digits_of bs)

All-take : (n : ℕ) (bs : List ℕ) → All IsByte bs → All IsByte (take n bs)
All-take zero bs h = tt
All-take (suc n) [] h = tt
All-take (suc n) (b ∷ bs) h = (h.0, All-take n bs h.1)

pub c_string-IsByte : (bs : List ℕ) → All IsByte bs → All IsByte (c_string bs)
unfolding c_string
c_string-IsByte [] h = tt
c_string-IsByte (b ∷ bs) h = elim (Bool-cases (b == 0)) [
  | inl k ↦ rw k tt
  | inr k ↦ rw k (h.0, c_string-IsByte bs h.1)
]

-- A text without a NUL is taken whole.
pub c_string_whole : (cs : List ℕ) → All (λ c. c ≢ 0) cs → c_string cs ≡ cs
unfolding c_string
c_string_whole [] h = refl
c_string_whole (c ∷ cs) h = rw (ne→== c 0 h.0) (ap (λ (t : List ℕ). c ∷ t) (c_string_whole cs h.1))

hex_digit_no_nul : (v : ℕ) → hex_digit v ≢ 0
unfolding hex_digit
hex_digit_no_nul v = ground arith

hex_digits_no_nul : (bs : List ℕ) → All (λ c. c ≢ 0) (hex_digits_of bs)
unfolding hex_digits_of
hex_digits_no_nul [] = tt
hex_digits_no_nul (b ∷ bs) =
    (hex_digit_no_nul (b / 16), (hex_digit_no_nul (b % 16), hex_digits_no_nul bs))

-- Decoding what was encoded gives the bytes before the first NUL back, cut at the 8191 that the
-- encoder's buffer holds; the encoder's output is two digits for each of them. What stands behind a
-- NUL is lost.
pub hex_decode-hex_encode :
    (src : List ℕ)
    → All IsByte src
    → (hex_decode (hex_encode src) ≡ some (take 8191 (c_string src)))
      × (length (hex_encode src) ≡ 2 * min 8191 (length (c_string src)))
unfolding hex_decode hex_encode
hex_decode-hex_encode src h =
    let taken = take 8191 (c_string src) in
    let count = length-hex_digits_of taken in
    let even : (length (hex_digits_of taken) % 2 == 0) ≡ true = eq→== _ 0 (omega (arith, count)) in
    let rounds : min (length (hex_digits_of taken) / 2) 8192 ≡ length taken =
      omega (arith, count, length-take 8191 (c_string src)) in
    (
      rw (c_string_whole (hex_digits_of taken) (hex_digits_no_nul taken), even, rounds)
          (hex_bytes-hex_digits_of taken (All-take 8191 (c_string src) (c_string-IsByte src h))),
      omega (arith, count, length-take 8191 (c_string src)),
    )
