-- ===== src/Vfs/Rounds.antt =====
-- What a round of `normalize` in fs/vfs.c does with a name.
use can_boot.Common.{
  ℕ, zero, suc, ◌-◌, ◌≤◌, ◌<◌, ◌≡◌, refl, ◌≢◌, inl, inr, true, false, List, [], ◌∷◌, ◌++◌, arith,
  ltb, ◌==◌, ltb→lt, ltb→le, ==→ne, ne→==, Bool-cases, length, get_or, take, All, same_bytes,
  same_bytes→eq, same_bytes_self,
}
use mathlib.Core.Path.{subst}
use can_boot.Fat32.Names.{dot, slash}
use can_boot.Fat32.Path.{component, components, skip_slashes}
use can_boot.Fat32.Path.Components.{IsPiece, join}
use can_boot.Vfs.Paths.{after_name, max_name, max_names}

-- A name that stays: not empty, without a slash, of at most 31 bytes, and not "." or "..".
pub record IsName (name : List ℕ) : Type 0 where
  pub piece : IsPiece max_name name
  pub not_dot : name ≢ dot ∷ []
  pub not_dots : name ≢ dot ∷ dot ∷ []

-- An absolute path of at most 24 such names with one slash before each.
pub record IsClean (p : List ℕ) : Type 0 where
  pub names : List (List ℕ)
  pub each : All IsName names
  pub few : length names ≤ max_names
  pub text : p ≡ slash ∷ join names

pub starts : (cs : List ℕ) → get_or (skip_slashes cs) 0 0 ≢ slash
unfolding skip_slashes
starts [] = omega arith
starts (c ∷ cs) = elim (Bool-cases (c == slash)) [
  | inl h ↦ rw h (starts cs)
  | inr h ↦ rw h (==→ne c slash h)
]

component_plain : (n : ℕ) (cs : List ℕ) → All (λ c. c ≢ slash) (component n cs)
unfolding component
component_plain zero cs = tt
component_plain (suc n) [] = tt
component_plain (suc n) (c ∷ cs) = elim (Bool-cases (c == slash)) [
  | inl h ↦ rw h tt
  | inr h ↦ rw h (==→ne c slash h, component_plain n cs)
]

component_short : (n : ℕ) (cs : List ℕ) → length (component n cs) ≤ n
unfolding component
component_short zero cs = omega arith
component_short (suc n) [] = omega arith
component_short (suc n) (c ∷ cs) = elim (Bool-cases (c == slash)) [
  | inl h ↦ rw h (omega arith)
  | inr h ↦ rw h (omega (arith, component_short n cs))
]

component-IsPiece :
    (cap c : ℕ) (cs : List ℕ) → 0 < cap → c ≢ slash → IsPiece cap (component cap (c ∷ cs))
component-IsPiece zero c cs some_room ne = absurd (omega arith)
component-IsPiece (suc cap) c cs some_room ne = record {
  some_bytes = unfold component in rw (ne→== c slash ne) (omega arith);
  short = component_short (suc cap) (c ∷ cs);
  plain = component_plain (suc cap) (c ∷ cs);
}

pub components-IsPiece :
    (cap n : ℕ) (cs : List ℕ)
    → 0 < cap
    → get_or cs 0 0 ≢ slash
    → All (IsPiece cap) (components cap n cs)
unfolding components
components-IsPiece cap zero cs some_room ne = tt
components-IsPiece cap (suc n) [] some_room ne = tt
components-IsPiece cap (suc n) (c ∷ cs) some_room ne =
    (component-IsPiece cap c cs some_room ne, components-IsPiece cap n _ some_room (starts _))

pub All-take : (P : List ℕ → Type 0) (n : ℕ) (xs : List (List ℕ)) → All P xs → All P (take n xs)
All-take P zero xs h = tt
All-take P (suc n) [] h = tt
All-take P (suc n) (x ∷ xs) h = (h.0, All-take P n xs h.1)

module _ (kept : List (List ℕ)) (name : List ℕ) where
  -- What a round does, by the kind of its name.
  pub data Round : Type 0 where
    stays : name ≡ dot ∷ [] → after_name kept name ≡ kept → Round
    goes_up : name ≡ dot ∷ dot ∷ [] → after_name kept name ≡ take (length kept - 1) kept → Round
    goes_down :
        name ≢ dot ∷ []
        → name ≢ dot ∷ dot ∷ []
        → length kept < max_names
        → after_name kept name ≡ kept ++ name ∷ []
        → Round
    is_full :
        name ≢ dot ∷ []
        → name ≢ dot ∷ dot ∷ []
        → max_names ≤ length kept
        → after_name kept name ≡ kept
        → Round

differ : (xs ys : List ℕ) → same_bytes xs ys ≡ false → xs ≢ ys
differ xs ys h e =
    let same : same_bytes xs ys ≡ true =
      subst (λ (l : List ℕ). same_bytes xs l ≡ true) e (same_bytes_self xs) in
    cc

pub differ→same_bytes : (xs ys : List ℕ) → xs ≢ ys → same_bytes xs ys ≡ false
differ→same_bytes xs ys ne = elim (Bool-cases (same_bytes xs ys)) [
  | inl h ↦ absurd (ne (same_bytes→eq xs ys h))
  | inr h ↦ h
]

pub Round-cases : (kept : List (List ℕ)) (name : List ℕ) → Round kept name
Round-cases kept name = elim (Bool-cases (same_bytes name (dot ∷ []))) [
  | inl h ↦ stays (same_bytes→eq name _ h) (unfold after_name in rw h refl)
  | inr not_dot ↦ elim (Bool-cases (same_bytes name (dot ∷ dot ∷ []))) [
    | inl h ↦ goes_up (same_bytes→eq name _ h) (unfold after_name in rw (not_dot, h) refl)
    | inr not_dots ↦ elim (Bool-cases (ltb (length kept) max_names)) [
      | inl h ↦
          goes_down (differ name _ not_dot) (differ name _ not_dots)
            (ltb→lt (length kept) max_names h) (unfold after_name in rw (not_dot, not_dots, h) refl)
      | inr h ↦
          is_full (differ name _ not_dot) (differ name _ not_dots)
            (ltb→le (length kept) max_names h) (unfold after_name in rw (not_dot, not_dots, h) refl)
    ]
  ]
]
