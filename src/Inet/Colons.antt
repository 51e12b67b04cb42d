-- ===== src/Inet/Colons.antt =====
-- What `parse_ipv6` makes of a single colon between two groups.
use can_boot.Common.{
  ℕ, zero, suc, ◌+◌, ◌*◌, ◌≤◌, ◌<◌, ◌≡◌, refl, sym, ap, ◌∙◌, ◌≢◌, inl, inr, false, Option, none,
  some, List, [], ◌∷◌, ◌++◌, arith, ◌==◌, ==→eq, ne→==, Bool-cases, length, All,
}
use mathlib.Core.Path.{subst}
use can_boot.Inet.{hex_val, group_from, ipv6_from, parse_ipv6}

-- A hex digit of the text.
abbrev pub IsHex : ℕ → Type 0
IsHex c = (h : ℕ) × (hex_val c ≡ some h)

hex_val_colon : hex_val 0x3A ≡ none
unfolding hex_val
hex_val_colon = refl

none_apart : {a : ℕ} → ◌≡◌ {A = Option ℕ} none (some a) → ⊥
none_apart h = cc

group_rest :
    (n v chars : ℕ) (ds t : List ℕ)
    → All IsHex ds
    → length ds ≤ n
    → ((group_from n v chars (ds ++ 0x3A ∷ t)).rest ≡ 0x3A ∷ t)
      × ((group_from n v chars (ds ++ 0x3A ∷ t)).chars ≡ chars + length ds)
unfolding group_from
group_rest zero v chars [] t h short = (refl, omega arith)
group_rest zero v chars (d ∷ ds) t h short = absurd (omega arith)
group_rest (suc n) v chars [] t h short = rw hex_val_colon (refl, omega arith)
group_rest (suc n) v chars (d ∷ ds) t h short =
    let (same, count) = group_rest n (v * 16 + h.0.0) (suc chars) ds t h.1 (omega arith) in
    rw h.0.1 (same, omega (arith, count))

single_colon :
    (fuel : ℕ) (parts : List ℕ) (gap : Option ℕ) (c : ℕ) (cs : List ℕ)
    → 0 < length parts
    → c ≢ 0x3A
    → ipv6_from fuel parts gap (0x3A ∷ c ∷ cs) ≡ none
unfolding ipv6_from
single_colon zero parts gap c cs some_parts other = refl
single_colon (suc fuel) parts gap c cs some_parts other = ground (arith, ne→== c 0x3A other)

after_group :
    (fuel d : ℕ) (ds : List ℕ) (c : ℕ) (cs : List ℕ)
    → IsHex d
    → All IsHex ds
    → length ds ≤ 3
    → c ≢ 0x3A
    → ipv6_from fuel [] none (d ∷ (ds ++ 0x3A ∷ c ∷ cs)) ≡ none
unfolding ipv6_from
after_group zero d ds c cs hd h short other = refl
after_group (suc fuel) d ds c cs hd h short other =
    let (same, count) = group_rest 4 0 0 (d ∷ ds) (c ∷ cs) (hd, h) (omega arith) in
    let g = group_from 4 0 0 (d ∷ (ds ++ 0x3A ∷ c ∷ cs)) in
    let refused : ipv6_from fuel (g.value ∷ []) none g.rest ≡ none =
      subst (λ (r : List ℕ). ipv6_from fuel (g.value ∷ []) none r ≡ none) (sym same)
        (single_colon fuel (g.value ∷ []) none c cs (omega arith) other) in
    let no_colon : (d == 0x3A) ≡ false = elim (Bool-cases (d == 0x3A)) [
      | inl colon ↦
          absurd (none_apart (sym (ap hex_val (==→eq d 0x3A colon) ∙ hex_val_colon) ∙ hd.1))
      | inr other_digit ↦ other_digit
    ] in
    rw no_colon (rw refused (ground arith))

-- An address whose first group, of one to four hex digits, is followed by one colon and something
-- other than a colon is refused, whatever follows; so is every address in full form.
pub parse_ipv6_single_colon :
    (d : ℕ) (ds : List ℕ) (c : ℕ) (cs : List ℕ)
    → IsHex d
    → All IsHex ds
    → length ds ≤ 3
    → c ≢ 0x3A
    → parse_ipv6 (d ∷ (ds ++ 0x3A ∷ c ∷ cs)) ≡ none
unfolding parse_ipv6
parse_ipv6_single_colon d ds c cs hd h short other =
    rw (after_group (suc (length (d ∷ (ds ++ 0x3A ∷ c ∷ cs)))) d ds c cs hd h short other) refl
