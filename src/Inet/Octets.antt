-- ===== src/Inet/Octets.antt =====
-- What `parse_ipv4` returns.
use can_boot.Common.{
  ℕ, ◌+◌, ◌-◌, ◌*◌, ◌≤◌, ◌<◌, ◌≡◌, inl, inr, Bool, true, false, ◌&&◌, Option, none, some, List, [],
  ◌∷◌, ◌++◌, arith, ltb, leb, ◌==◌, Bool-cases, length, All, length-append, All-append,
}
use can_boot.Common.Bytes.{IsByte}
use can_boot.Inet.{ipv4_from, parse_ipv4}

-- Four bytes.
abbrev pub AreOctets : Option (List ℕ) → Type 0
AreOctets none = Unit
AreOctets (some r) = (length r ≡ 4) × All IsByte r

ipv4_from-AreOctets :
    (octets src : List ℕ) (v : ℕ) (saw : Bool)
    → length octets ≤ 3
    → All IsByte octets
    → v < 256
    → AreOctets (ipv4_from octets src v saw)
unfolding ipv4_from
ipv4_from-AreOctets octets [] v saw few bytes small =
    elim (Bool-cases (length octets == 3 && saw)) [
      | inl full ↦ rw full (
        ground (arith, length-append octets (v ∷ [])),
        All-append IsByte octets (v ∷ []) bytes (small, tt),
      )
      | inr short ↦ rw short tt
    ]
ipv4_from-AreOctets octets (c ∷ cs) v saw few bytes small =
    let digit = ipv4_from-AreOctets octets cs (v * 10 + (c - 0x30)) true few bytes in
    let next = ipv4_from-AreOctets (octets ++ v ∷ []) cs 0 false in
    let longer = length-append octets (v ∷ []) in
    let more = All-append IsByte octets (v ∷ []) bytes (small, tt) in
    elim (Bool-cases (leb 0x30 c && leb c 0x39)) [
      | inl is_digit ↦ elim (Bool-cases (ltb 255 (v * 10 + (c - 0x30)))) [
        | inl big ↦ rw (is_digit, big) tt
        | inr fits ↦ rw (is_digit, fits) (digit (ground arith))
      ]
      | inr other ↦ elim (Bool-cases (c == 0x2E)) [
        | inl dot ↦ elim (Bool-cases (saw && ltb (length octets) 3)) [
          | inl room ↦ rw (other, dot, room) (next (ground (arith, longer)) more (omega arith))
          | inr full ↦ rw (other, dot, full) tt
        ]
        | inr bad ↦ rw (other, bad) tt
      ]
    ]

-- Where `parse_ipv4` accepts a text, its result is exactly four bytes.
pub parse_ipv4-AreOctets : (src : List ℕ) → AreOctets (parse_ipv4 src)
unfolding parse_ipv4
parse_ipv4-AreOctets src = ipv4_from-AreOctets [] src 0 false (omega arith) tt (omega arith)
