-- ===== src/Iso/Matches.antt =====
-- The records that a search in a directory of an ISO 9660 image is to find, said apart from the code
-- of fs/iso9660.c that compares the names.
use can_boot.Common.{
  ℕ, suc, ◌+◌, ◌≤◌, ◌≡◌, refl, sym, ap, ◌∙◌, ◌≢◌, ◌⊎◌, inl, inr, Bool, true, false, ◌&&◌, List, [],
  ◌∷◌, arith, ◌==◌, Bool-cases, eq→==, lt→ltb, ne→==, ==→eq, length, same_bytes,
}
use Prim.{⊥}
use mathlib.Core.Path.{subst}
use can_boot.Common.First.{First, nowhere, at_head, behind}
use can_boot.Fat32.Names.{before, upcase}
use can_boot.Iso.{Extent, icase_eq, has_name, semicolon}
use can_boot.Iso.Records.{Record, first_match}

-- The same byte, or the two cases of one letter.
abbrev SameLetter : ℕ → ℕ → Type 0
SameLetter a b =
    (a ≡ b)
    ⊎ (((0x41 ≤ a) × (a ≤ 0x5A) × (b ≡ a + 0x20)) ⊎ ((0x41 ≤ b) × (b ≤ 0x5A) × (a ≡ b + 0x20)))

abbrev SameName : List ℕ → List ℕ → Type 0
SameName [] [] = Unit {0}
SameName [] (b ∷ bs) = ⊥
SameName (a ∷ xs) [] = ⊥
SameName (a ∷ xs) (b ∷ bs) = SameLetter a b × SameName xs bs

-- What stands before the version, which the first semicolon begins.
pub data Stem : List ℕ → List ℕ → Type 0 where
  no_version : Stem [] []
  version : (rest : List ℕ) → Stem (0x3B ∷ rest) []
  letter : {c : ℕ} {cs stem : List ℕ} → c ≢ 0x3B → Stem cs stem → Stem (c ∷ cs) (c ∷ stem)

-- A record of this name: without its version the record's name is this one, upper and lower case
-- being the same. The names of no byte, and of the byte 0 or 1, which stand for the directory itself
-- and its parent, match nothing.
pub record IsNamed (name raw : List ℕ) : Type 0 where
  pub stem : List ℕ
  pub cut : Stem raw stem
  pub some_bytes : stem ≢ []
  pub not_self : stem ≢ 0 ∷ []
  pub not_parent : stem ≢ 1 ∷ []
  pub same : SameName stem name

-- A record that a search for the name may give, and its place and size.
pub data Matches (name : List ℕ) (r : Record) : Extent → Type 0 where
  named : IsNamed name r.name → Matches name r (record { lba = r.lba; size = r.size })

Stem-before : (raw : List ℕ) → Stem raw (before semicolon raw)
unfolding before
Stem-before [] = no_version
Stem-before (c ∷ cs) = elim (Bool-cases (c == semicolon)) [
  | inl here ↦
      rw here (subst (λ (x : ℕ). Stem (x ∷ cs) []) (sym (==→eq c semicolon here)) (version cs))
  | inr other ↦ rw other (letter (ground arith) (Stem-before cs))
]

before-Stem : (raw stem : List ℕ) → Stem raw stem → before semicolon raw ≡ stem
unfolding before
before-Stem _ _ no_version = refl
before-Stem _ _ (version rest) = refl
before-Stem _ _ (letter {c} {cs} {stem} other s) =
    rw (ne→== c semicolon other) (ap (λ (t : List ℕ). c ∷ t) (before-Stem cs stem s))

SameLetter-upcase : (a b : ℕ) → upcase a ≡ upcase b → SameLetter a b
SameLetter-upcase a b h = ground arith

upcase-SameLetter : (a b : ℕ) → SameLetter a b → upcase a ≡ upcase b
upcase-SameLetter a b (inl h) = ap (λ (c : ℕ). upcase c) h
upcase-SameLetter a b (inr (inl (low, high, h))) = ground arith
upcase-SameLetter a b (inr (inr (low, high, h))) = ground arith

SameName-icase_eq : (xs ys : List ℕ) → icase_eq xs ys ≡ true → SameName xs ys
unfolding same_bytes
SameName-icase_eq [] [] h = tt
SameName-icase_eq [] (y ∷ ys) h = absurd (cc)
SameName-icase_eq (x ∷ xs) [] h = absurd (cc)
SameName-icase_eq (x ∷ xs) (y ∷ ys) h = elim (Bool-cases (upcase x == upcase y)) [
  | inl same ↦ (
    SameLetter-upcase x y (==→eq (upcase x) (upcase y) same),
    SameName-icase_eq xs ys (sym (ap (λ (b : Bool). b && icase_eq xs ys) same) ∙ h),
  )
  | inr other ↦ let differs = sym (ap (λ (b : Bool). b && icase_eq xs ys) other) ∙ h in absurd (cc)
]

icase_eq-SameName : (xs ys : List ℕ) → SameName xs ys → icase_eq xs ys ≡ true
unfolding same_bytes
icase_eq-SameName [] [] h = refl
icase_eq-SameName [] (y ∷ ys) h = elim h [ ]
icase_eq-SameName (x ∷ xs) [] h = elim h [ ]
icase_eq-SameName (x ∷ xs) (y ∷ ys) h =
    rw (eq→== (upcase x) (upcase y) (upcase-SameLetter x y h.0)) (icase_eq-SameName xs ys h.1)

other_name : (name f g : List ℕ) → has_name name f ≡ true → has_name name g ≡ false → f ≢ g
other_name name f g h refused e =
    let both = sym h ∙ ap (λ (x : List ℕ). has_name name x) e ∙ refused in absurd (cc)

has_name-SameName : (name f : List ℕ) → has_name name f ≡ true → SameName f name
unfolding has_name
has_name-SameName name f h = elim (Bool-cases (icase_eq f name)) [
  | inl same ↦ SameName-icase_eq f name same
  | inr other ↦
      let refused : has_name name f ≡ false = ground arith in
      let both = sym h ∙ refused in absurd (cc)
]

has_name-IsNamed :
    (name raw : List ℕ) → has_name name (before semicolon raw) ≡ true → IsNamed name raw
has_name-IsNamed name raw h =
    let f = before semicolon raw in
    record {
      stem = f;
      cut = Stem-before raw;
      some_bytes = other_name name f [] h (unfold has_name in refl);
      not_self = other_name name f (0 ∷ []) h (unfold has_name in refl);
      not_parent = other_name name f (1 ∷ []) h (unfold has_name in refl);
      same = has_name-SameName name f h;
    }

has_name-SameName→ :
    (name f : List ℕ) → f ≢ [] → f ≢ 0 ∷ [] → f ≢ 1 ∷ [] → SameName f name → has_name name f ≡ true
unfolding has_name
has_name-SameName→ name [] some_bytes not_self not_parent same = absurd (some_bytes refl)
has_name-SameName→ name (c ∷ []) some_bytes not_self not_parent same =
    let not_zero = ne→== c 0 (λ e. not_self (ap (λ (x : ℕ). x ∷ []) e)) in
    let not_one = ne→== c 1 (λ e. not_parent (ap (λ (x : ℕ). x ∷ []) e)) in
    rw (not_zero, not_one, icase_eq-SameName (c ∷ []) name same) refl
has_name-SameName→ name (c ∷ d ∷ cs) some_bytes not_self not_parent same =
    let longer = ne→== (suc (suc (length cs))) 1 (omega arith) in
    let some_byte = lt→ltb 0 (suc (suc (length cs))) (omega arith) in
    rw (longer, icase_eq-SameName (c ∷ d ∷ cs) name same, some_byte) refl

IsNamed-has_name :
    (name raw : List ℕ) → IsNamed name raw → has_name name (before semicolon raw) ≡ true
IsNamed-has_name name raw n =
    ap (λ (x : List ℕ). has_name name x) (before-Stem raw n.stem n.cut)
    ∙ has_name-SameName→ name n.stem n.some_bytes n.not_self n.not_parent n.same

no_match :
    (name : List ℕ) (r : Record) (e : Extent)
    → has_name name (before semicolon r.name) ≡ false
    → Matches name r e
    → ⊥
no_match name r _ other (named n) =
    let both = sym (IsNamed-has_name name r.name n) ∙ other in absurd (cc)

-- The search through one block.
pub First-first_match :
    (name : List ℕ) (rs : List Record) → First (Matches name) rs (first_match name rs)
unfolding first_match
First-first_match name [] = nowhere
First-first_match name (r ∷ rs) = elim (Bool-cases (has_name name (before semicolon r.name))) [
  | inl found ↦ rw found (at_head _ (named (has_name-IsNamed name r.name found)))
  | inr other ↦ rw other (behind (λ e m. no_match name r e other m) (First-first_match name rs))
]
