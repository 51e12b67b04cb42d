-- ===== src/Inet.antt =====
-- net/mbedtls_port/inet_pton.c: addresses in text form. A C string is its bytes before the
-- terminating zero; a zero is read behind its end.
pub mod Colons
pub mod Octets
use can_boot.Common.{
  ℕ, zero, suc, ◌+◌, ◌-◌, ◌*◌, ◌/◌, ◌%◌, ◌^◌, ◌≤◌, ◌<◌, min, ◌≡◌, refl, sym, ap, ap₂, ◌∙◌, fun_ext,
  ◌≢◌, ◌↔◌, ◌⊎◌, inl, inr, Bool, true, false, not, ◌&&◌, ◌||◌, Option, none, some, List, [], ◌∷◌,
  ◌++◌, map, append-nil, append_assoc, arith, dec_lt, dec_le, ℕ_discrete, ltb, leb, ◌==◌,
  if◌then◌else◌, ltb→lt, lt→ltb, le→ltb, ltb→le, ==→eq, ==→ne, eq→==, ne→==, Bool-cases, u8, u16,
  u32, u64, length, get_or, set, take, drop, replicate, All, length-append, length-set,
  get_or-set_self, get_or-set_ne, length-take, length-drop, length-replicate, take_all,
  take-append-drop, take-length-append, drop-length-append, All-append, same_bytes, same_bytes→eq,
  same_bytes_self, contains, get_or-take, get_or-drop, take-get_or-drop, take-take, All-of_index,
}
use can_boot.Common.Bytes.{byte_at}

abbrev is_digit : ℕ → Bool
is_digit c = leb 0x30 c && leb c 0x39

-- The loop of `parse_ipv4`: the octets so far, the value and whether a digit was seen.
unfoldable pub ipv4_from : List ℕ → List ℕ → ℕ → Bool → Option (List ℕ)
ipv4_from octets [] v saw = if length octets == 3 && saw then some (octets ++ v ∷ []) else none
ipv4_from octets (c ∷ cs) v saw =
    let digit = ipv4_from octets cs (v * 10 + (c - 0x30)) true in
    let next = ipv4_from (octets ++ v ∷ []) cs 0 false in
    if is_digit c
    then (if ltb 255 (v * 10 + (c - 0x30)) then none else digit)
    else if c == 0x2E
    then (if saw && ltb (length octets) 3 then next else none)
    else none

unfoldable pub parse_ipv4 : List ℕ → Option (List ℕ)
parse_ipv4 src = ipv4_from [] src 0 false

-- `hex_val`, where `none` is -1.
unfoldable pub hex_val : ℕ → Option ℕ
hex_val c =
    if leb 0x30 c && leb c 0x39
    then some (c - 0x30)
    else if leb 0x61 c && leb c 0x66
    then some (10 + (c - 0x61))
    else (if leb 0x41 c && leb c 0x46 then some (10 + (c - 0x41)) else none)

-- The value of a group, its number of digits and the text behind it.
pub record Group : Type 0 where
  pub value : ℕ
  pub chars : ℕ
  pub rest : List ℕ

abbrev is_some : Option ℕ → Bool
is_some none = false
is_some (some v) = true

abbrev digit_or_zero : Option ℕ → ℕ
digit_or_zero none = 0
digit_or_zero (some v) = v

-- The loop over at most `n` digits of a group.
unfoldable pub group_from : ℕ → ℕ → ℕ → List ℕ → Group
group_from n v chars [] = record { value = v; chars = chars; rest = [] }
group_from zero v chars (c ∷ cs) = record { value = v; chars = chars; rest = c ∷ cs }
group_from (suc n) v chars (c ∷ cs) =
    let more = group_from n (v * 16 + digit_or_zero (hex_val c)) (suc chars) cs in
    let stop : Group = record { value = v; chars = chars; rest = c ∷ cs } in
    if is_some (hex_val c) then more else stop

-- What the loop of `parse_ipv6` has found: its groups and where the "::" stands.
pub record Groups : Type 0 where
  pub parts : List ℕ
  pub gap_at : Option ℕ

-- One more group: what is behind it must be the end, or a ':' that is not the last character.
abbrev ends_well : List ℕ → Bool
ends_well [] = true
ends_well (c ∷ []) = false
ends_well (c ∷ d ∷ cs) = c == 0x3A

abbrev lacks_gap : Option ℕ → Bool
lacks_gap none = true
lacks_gap (some i) = false

abbrev second : List ℕ → ℕ
second p = byte_at p 1

-- The loop of `parse_ipv6`, one round for a group or a "::". At its start a "::" sets the gap to 0
-- again.
unfoldable pub ipv6_from : ℕ → List ℕ → Option ℕ → List ℕ → Option Groups
ipv6_from zero parts gap p = none
ipv6_from (suc fuel) parts gap [] = some (record { parts = parts; gap_at = gap })
ipv6_from (suc fuel) parts gap (c ∷ cs) =
    let p = c ∷ cs in
    let g = group_from 4 0 0 p in
    let leading = ipv6_from fuel parts (some 0) (drop 2 p) in
    let inner = ipv6_from fuel parts (some (length parts)) (drop 2 p) in
    let grouped = ipv6_from fuel (parts ++ g.value ∷ []) gap g.rest in
    if length parts == 8
    then none
    else if c == 0x3A && length parts == 0
    then (if second p == 0x3A then leading else none)
    else if c == 0x3A
    then (if second p == 0x3A && lacks_gap gap then inner else none)
    else (if not (g.chars == 0) && ends_well g.rest then grouped else none)

abbrev big_endian : List ℕ → List ℕ
big_endian [] = []
big_endian (v ∷ vs) = v / 256 ∷ v % 256 ∷ big_endian vs

-- The sixteen bytes: the gap is filled with zeros.
abbrev place : Option Groups → Option (List ℕ)
place none = none
place (some g) = elim (g.gap_at) [
  | none ↦ if length g.parts == 8 then some (big_endian g.parts) else none
  | some i ↦
      if ltb 7 (length g.parts)
      then none
      else some (
          big_endian (take i g.parts)
          ++ replicate (2 * (8 - length g.parts)) 0
          ++ big_endian (drop i g.parts))
]

-- `parse_ipv6`; every round takes at least one character.
unfoldable pub parse_ipv6 : List ℕ → Option (List ℕ)
parse_ipv6 src = place (ipv6_from (suc (length src)) [] none src)

-- AF_INET and AF_INET6; `some none` is the result 0 and `none` the result -1 of `inet_pton`.
unfoldable pub inet_pton : ℕ → List ℕ → Option (Option (List ℕ))
inet_pton af src =
    if af == 2 then some (parse_ipv4 src) else (if af == 10 then some (parse_ipv6 src) else none)
