-- ===== src/Input/Characters.antt =====
-- What keys and events mean to a reader of characters, said apart from the code that decides it.
use can_boot.Common.{
  ltb→lt, ==→eq, ltb, ◌&&◌, ap, zero, suc, length, get_or, ◌==◌, ℕ, ◌-◌, ◌≤◌, ◌<◌, ◌≡◌, refl, sym,
  ◌∙◌, ◌≢◌, ◌⊎◌, inl, inr, Bool, true, false, Option, none, some, List, [], ◌∷◌, arith, leb,
  Bool-cases,
}
use can_boot.Common.First.{First, at_head, behind, or_else}
use can_boot.Input.{Event}
use can_boot.Input.Getc.{key_down, char_of}
use can_boot.Input.Keyboard.{apply_shift, shift_map}

-- The character that the event of a key pressed gives: its code where that is printable, the control
-- characters of Enter, Backspace and Tab, and for Escape and the arrow keys their codes.
pub data Reads (ev : Event) : ℕ → Type 0 where
  printable : ev.type ≡ 1 → 0x20 ≤ ev.code → ev.code < 0x80 → Reads ev ev.code
  enter : ev.type ≡ 1 → ev.code ≡ 0x102 → Reads ev 0x0A
  backspace : ev.type ≡ 1 → ev.code ≡ 0x103 → Reads ev 0x08
  tab : ev.type ≡ 1 → ev.code ≡ 0x104 → Reads ev 0x09
  escape : ev.type ≡ 1 → ev.code ≡ 0x101 → Reads ev ev.code
  arrow : ev.type ≡ 1 → 0x120 ≤ ev.code → ev.code ≤ 0x123 → Reads ev ev.code

pub char_of-Reads : (ev : Event) (c : ℕ) → Reads ev c → char_of ev ≡ some c
unfolding char_of
char_of-Reads ev c (printable down low high) = ground arith
char_of-Reads ev c (enter down at) = ground arith
char_of-Reads ev c (backspace down at) = ground arith
char_of-Reads ev c (tab down at) = ground arith
char_of-Reads ev c (escape down at) = ground arith
char_of-Reads ev c (arrow down low high) = ground arith

-- The two signs on a key of the US layout: without shift, and with it.
abbrev lower_signs : List ℕ
lower_signs =
    b'1' ∷ b'2' ∷ b'3' ∷ b'4' ∷ b'5' ∷ b'6' ∷ b'7' ∷ b'8' ∷ b'9' ∷ b'0' ∷ b'-' ∷ b'=' ∷ b'[' ∷ b']'
    ∷ b';' ∷ 0x27 ∷ b'`' ∷ 0x5C ∷ b',' ∷ b'.' ∷ b'/' ∷ []

abbrev upper_signs : List ℕ
upper_signs =
    b'!' ∷ b'@' ∷ b'#' ∷ b'$' ∷ b'%' ∷ b'^' ∷ b'&' ∷ b'*' ∷ b'(' ∷ b')' ∷ b'_' ∷ b'+' ∷ b'{' ∷ b'}'
    ∷ b':' ∷ 0x22 ∷ b'~' ∷ b'|' ∷ b'<' ∷ b'>' ∷ b'?' ∷ []

-- What a key of this code types, with a shift key held or without.
pub data Types : Bool → ℕ → ℕ → Type 0 where
  plain : (c : ℕ) → 0x20 ≤ c → c < 0x80 → Types false c c
  capital : (c : ℕ) → 0x61 ≤ c → c ≤ 0x7A → Types true c (c - 0x20)
  sign : (i : ℕ) → i < 21 → Types true (get_or lower_signs i 0) (get_or upper_signs i 0)
  space : Types true 0x20 0x20
  line_end : (shift : Bool) → Types shift 0x102 0x0A
  rub_out : (shift : Bool) → Types shift 0x103 0x08
  tabulator : (shift : Bool) → Types shift 0x104 0x09

abbrev pub typed : Bool → ℕ → Event
typed shift code = record { type = 1; code = apply_shift shift code }

reads_or_none : (ev : Event) → ((c : ℕ) × Reads ev c) ⊎ (char_of ev ≡ none)
unfolding char_of
reads_or_none ev = elim (Bool-cases (ev.type == key_down)) [
  | inr other ↦ inr (rw other refl)
  | inl down ↦ elim (Bool-cases (leb 0x20 ev.code && ltb ev.code 0x80)) [
    | inl shown ↦ inl (ev.code, printable (ground arith) (ground arith) (ground arith))
    | inr hidden ↦ elim (Bool-cases (ev.code == 0x102)) [
      | inl k ↦ inl (0x0A, enter (ground arith) (ground arith))
      | inr no_enter ↦ elim (Bool-cases (ev.code == 0x103)) [
        | inl k ↦ inl (0x08, backspace (ground arith) (ground arith))
        | inr no_backspace ↦ elim (Bool-cases (ev.code == 0x104)) [
          | inl k ↦ inl (0x09, tab (ground arith) (ground arith))
          | inr no_tab ↦ elim (Bool-cases (ev.code == 0x101)) [
            | inl k ↦ inl (ev.code, escape (ground arith) (ground arith))
            | inr no_escape ↦ elim (Bool-cases (leb 0x120 ev.code && leb ev.code 0x123)) [
              | inl k ↦ inl (ev.code, arrow (ground arith) (ground arith) (ground arith))
              | inr no_arrow ↦
                  inr (rw (down, hidden, no_enter, no_backspace, no_tab, no_escape) (ground arith))
            ]
          ]
        ]
      ]
    ]
  ]
]

-- The first character among events, as the reader finds it.
pub First-char_of :
    (ev : Event) (evs : List Event) (r : Option ℕ)
    → First Reads evs r
    → First Reads (ev ∷ evs) (or_else (char_of ev) r)
First-char_of ev evs r later = elim (reads_or_none ev) [
  | inl (c, gives) ↦ rw (char_of-Reads ev c gives) (at_head c gives)
  | inr nothing ↦
      rw nothing (
        behind (λ c gives. let both = sym (char_of-Reads ev c gives) ∙ nothing in absurd (cc))
          later)
]

abbrev gives : Option ℕ → ℕ → Bool
gives none c = false
gives (some b) c = b == c

-- With a shift key held, the key of one sign types the other.
abbrev types_sign : ℕ → ℕ → Bool
types_sign low high = ltb 0 low && (ltb low 0x80 && gives (char_of (typed true low)) high)

-- So do all keys of a row.
abbrev all_types : List ℕ → List ℕ → Bool
all_types [] ys = true
all_types (x ∷ xs) [] = false
all_types (x ∷ xs) (y ∷ ys) = types_sign x y && all_types xs ys

all_signs : all_types lower_signs upper_signs ≡ true
unfolding char_of apply_shift shift_map
all_signs = refl

both : (a b : Bool) → (a && b) ≡ true → (a ≡ true) × (b ≡ true)
both true b h = (refl, h)
both false b h = absurd (cc)

types_sign_at :
    (xs ys : List ℕ) (i : ℕ)
    → all_types xs ys ≡ true
    → i < length xs
    → types_sign (get_or xs i 0) (get_or ys i 0) ≡ true
types_sign_at [] ys i h inside = absurd (omega arith)
types_sign_at (x ∷ xs) [] i h inside = absurd (cc)
types_sign_at (x ∷ xs) (y ∷ ys) zero h inside = (both (types_sign x y) (all_types xs ys) h).0
types_sign_at (x ∷ xs) (y ∷ ys) (suc i) h inside =
    types_sign_at xs ys i (both (types_sign x y) (all_types xs ys) h).1 (omega arith)

gives→some : (o : Option ℕ) (c : ℕ) → gives o c ≡ true → o ≡ some c
gives→some none c h = absurd (cc)
gives→some (some b) c h = ap some (==→eq b c h)

record IsSign (low high : ℕ) : Type 0 where
  some_code : 0 < low
  below : low < 0x80
  shifted : char_of (typed true low) ≡ some high

IsSign-at : (i : ℕ) → i < 21 → IsSign (get_or lower_signs i 0) (get_or upper_signs i 0)
IsSign-at i h =
    let low = get_or lower_signs i 0 in
    let high = get_or upper_signs i 0 in
    let (some_code, rest) =
      both (ltb 0 low) _ (types_sign_at lower_signs upper_signs i all_signs h) in
    let (below, shifted) = both (ltb low 0x80) _ rest in
    record {
      some_code = ltb→lt 0 low some_code;
      below = ltb→lt low 0x80 below;
      shifted = gives→some (char_of (typed true low)) high shifted;
    }

plain_typed : (c : ℕ) → 0x20 ≤ c → c < 0x80 → char_of (typed false c) ≡ some c
unfolding char_of apply_shift
plain_typed c low high = ground arith

capital_typed : (c : ℕ) → 0x61 ≤ c → c ≤ 0x7A → char_of (typed true c) ≡ some (c - 0x20)
unfolding char_of apply_shift
capital_typed c low high = ground arith

pub char_of-Types :
    (shift : Bool) (base c : ℕ) → Types shift base c → char_of (typed shift base) ≡ some c
unfolding char_of apply_shift shift_map
char_of-Types _ _ _ (plain c low high) = plain_typed c low high
char_of-Types _ _ _ (capital c low high) = capital_typed c low high
char_of-Types _ _ _ (sign i h) = (IsSign-at i h).shifted
char_of-Types _ _ _ space = refl
char_of-Types _ _ _ (line_end true) = refl
char_of-Types _ _ _ (line_end false) = refl
char_of-Types _ _ _ (rub_out true) = refl
char_of-Types _ _ _ (rub_out false) = refl
char_of-Types _ _ _ (tabulator true) = refl
char_of-Types _ _ _ (tabulator false) = refl

-- A key that types something is neither missing nor a shift key.
pub Types-mapped :
    (shift : Bool) (base c : ℕ) → Types shift base c → (base ≢ 0) × (base ≢ 0x110) × (base ≢ 0x111)
Types-mapped _ _ _ (plain c low high) = (omega arith, omega arith, omega arith)
Types-mapped _ _ _ (capital c low high) = (omega arith, omega arith, omega arith)
Types-mapped _ _ _ (sign i h) =
    let s = IsSign-at i h in
    (omega (arith, s.some_code), omega (arith, s.below), omega (arith, s.below))
Types-mapped _ _ _ space = (omega arith, omega arith, omega arith)
Types-mapped _ _ _ (line_end shift) = (omega arith, omega arith, omega arith)
Types-mapped _ _ _ (rub_out shift) = (omega arith, omega arith, omega arith)
Types-mapped _ _ _ (tabulator shift) = (omega arith, omega arith, omega arith)
