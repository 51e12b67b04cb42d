-- ===== src/Tests/Text.antt =====
-- Text forms: hex digits and addresses, and the theorems applied to them.
use can_boot.Common.{ℕ, ◌*◌, min, ◌≡◌, refl, none, some, List, [], ◌∷◌, arith, length, take}
use can_boot.Encoding.{hex_encode, hex_decode, c_string}
use can_boot.Encoding.Base64.{
  digit_64, value_64, value_or_pad, encode_groups, encode_64, decode_groups, decode_64,
}
use can_boot.Encoding.RoundTrip.{hex_decode-hex_encode}
use can_boot.Encoding.RoundTrip64.{decode_64-encode_64}
use can_boot.Inet.{parse_ipv4, parse_ipv6, ipv4_from, hex_val}
use can_boot.Inet.Colons.{parse_ipv6_single_colon}

-- "Man" is "TWFu", and "M" is "TQ==".
base64_man : encode_64 (0x4D ∷ 0x61 ∷ 0x6E ∷ []) ≡ 0x54 ∷ 0x57 ∷ 0x46 ∷ 0x75 ∷ []
unfolding encode_64 encode_groups digit_64 c_string
base64_man = refl

base64_m : decode_64 (0x54 ∷ 0x51 ∷ 0x3D ∷ 0x3D ∷ []) ≡ some (0x4D ∷ [])
unfolding decode_64 decode_groups value_64 value_or_pad c_string
base64_m = refl

-- "10.0.2.15"
abbrev guest_address : List ℕ
guest_address = 0x31 ∷ 0x30 ∷ 0x2E ∷ 0x30 ∷ 0x2E ∷ 0x32 ∷ 0x2E ∷ 0x31 ∷ 0x35 ∷ []

parse_guest : parse_ipv4 guest_address ≡ some (10 ∷ 0 ∷ 2 ∷ 15 ∷ [])
unfolding parse_ipv4 ipv4_from
parse_guest = refl

hex_decode-hex_encode_example :
    (hex_decode (hex_encode (0xCA ∷ 0x05 ∷ [])) ≡ some (take 8191 (c_string (0xCA ∷ 0x05 ∷ []))))
    × (length (hex_encode (0xCA ∷ 0x05 ∷ [])) ≡ 2 * min 8191 (length (c_string (0xCA ∷ 0x05 ∷ []))))
hex_decode-hex_encode_example =
    hex_decode-hex_encode (0xCA ∷ 0x05 ∷ []) (omega arith, (omega arith, tt))

decode_64-encode_64_example :
    decode_64 (encode_64 (0xCA ∷ 0x05 ∷ [])) ≡ some (take 12285 (c_string (0xCA ∷ 0x05 ∷ [])))
decode_64-encode_64_example =
    decode_64-encode_64 (0xCA ∷ 0x05 ∷ []) (omega arith, (omega arith, tt))

one_is_hex : hex_val 0x31 ≡ some 1
unfolding hex_val
one_is_hex = refl

-- "1:1:1:1:1:1:1:1"
parse_ipv6_single_colon_example :
    parse_ipv6 (
      0x31 ∷ 0x3A ∷ 0x31 ∷ 0x3A ∷ 0x31 ∷ 0x3A ∷ 0x31 ∷ 0x3A ∷ 0x31 ∷ 0x3A ∷ 0x31 ∷ 0x3A ∷ 0x31
      ∷ 0x3A ∷ 0x31 ∷ [])
    ≡ none
parse_ipv6_single_colon_example =
    parse_ipv6_single_colon 0x31 [] 0x31
      (0x3A ∷ 0x31 ∷ 0x3A ∷ 0x31 ∷ 0x3A ∷ 0x31 ∷ 0x3A ∷ 0x31 ∷ 0x3A ∷ 0x31 ∷ 0x3A ∷ 0x31 ∷ [])
      (1, one_is_hex) tt (omega arith) (omega arith)
