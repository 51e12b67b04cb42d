-- ===== src/Vfs/Overrun.antt =====
-- `resolve` of fs/vfs.c on a name that is longer than a row of `comps`.
use can_boot.Common.{
  ℕ, zero, suc, ◌+◌, ◌-◌, ◌*◌, ◌≤◌, ◌<◌, ◌≡◌, refl, sym, ap, ◌≢◌, some, List, [], ◌∷◌, arith,
  dec_le, lt→leb, length, get_or, take, drop, All, length-take, length-drop, take_all,
}
use Prim.{yes, no}
use mathlib.Core.Path.{subst}
use can_boot.Disk.{fault}
use can_boot.Fat32.Names.{dot, slash}
use can_boot.Fat32.Path.{component, components, skip_slashes}
use can_boot.Fat32.Path.Components.{
  IsPiece, join, component_whole, component_cut, skip_none, skip_one, drop_whole, components_nil,
  skip_nil, All-drop,
}
use can_boot.Vfs.Paths.{names_of, resolve, max_name}
use can_boot.Vfs.Rounds.{IsName, components-IsPiece}
use can_boot.Vfs.Normal.{after_names-append}
use can_boot.Vfs.Weight.{weight, weight_nil, weight-join}

-- A byte of a name: neither a slash nor a dot.
unfoldable pub IsLetter : ℕ → Type 0
IsLetter c = (c ≢ slash) × (c ≢ dot)

-- What is known of the pieces of a name of `n` bytes, taken with at most 31 bytes each.
record Pieces (n : ℕ) (names : List (List ℕ)) : Type 0 where
  heavy : 32 * n ≤ 31 * weight names
  few : 31 * length names ≤ n + 30
  letters : All (All IsLetter) names

nil-Pieces : Pieces 0 []
nil-Pieces = record { heavy = omega arith; few = omega arith; letters = tt }

single-Pieces :
    (name : List ℕ)
    → 0 < length name
    → length name ≤ max_name
    → All IsLetter name
    → Pieces (length name) (name ∷ [])
single-Pieces name some_bytes short letters = record {
  heavy = unfold weight in omega (arith, short);
  few = omega (arith, some_bytes);
  letters = (letters, tt);
}

cons-Pieces :
    (n : ℕ) (name : List ℕ) (names : List (List ℕ))
    → max_name < n
    → length name ≡ max_name
    → All IsLetter name
    → Pieces (n - max_name) names
    → Pieces n (name ∷ names)
cons-Pieces n name names long whole letters p = record {
  heavy = unfold weight in omega (arith, long, whole, p.heavy);
  few = omega (arith, long, p.few);
  letters = (letters, p.letters);
}

All-take : (n : ℕ) (xs : List ℕ) → All IsLetter xs → All IsLetter (take n xs)
All-take zero xs h = tt
All-take (suc n) [] h = tt
All-take (suc n) (x ∷ xs) h = (h.0, All-take n xs h.1)

no_slashes : (xs : List ℕ) → All IsLetter xs → All (λ c. c ≢ slash) xs
unfolding IsLetter
no_slashes [] h = tt
no_slashes (x ∷ xs) h = (h.0.0, no_slashes xs h.1)

skip_letters : (xs : List ℕ) → All IsLetter xs → skip_slashes xs ≡ xs
unfolding IsLetter
skip_letters [] h = skip_nil
skip_letters (x ∷ xs) h = skip_none x xs h.0.0

-- A round that takes the `n` bytes of `comp`.
components_step :
    (fuel n c : ℕ) (cs comp : List ℕ)
    → component max_name (c ∷ cs) ≡ comp
    → length comp ≡ n
    → All IsLetter (drop n (c ∷ cs))
    → components max_name (suc fuel) (c ∷ cs) ≡ comp ∷ components max_name fuel (drop n (c ∷ cs))
unfolding components
components_step fuel n c cs comp taken size letters =
    rw (taken, size, skip_letters (drop n (c ∷ cs)) letters) refl

components-Pieces :
    (fuel : ℕ) (name : List ℕ)
    → length name ≤ fuel
    → All IsLetter name
    → Pieces (length name) (components max_name fuel name)
unfolding components
components-Pieces zero [] enough letters = nil-Pieces
components-Pieces zero (c ∷ cs) enough letters = absurd (omega arith)
components-Pieces (suc fuel) [] enough letters = nil-Pieces
components-Pieces (suc fuel) (c ∷ cs) enough letters =
    let name = c ∷ cs in
    let plain = no_slashes name letters in
    elim (dec_le (length name) max_name) [
      | yes short ↦
          let rest : drop (length name) name ≡ [] = drop_whole name in
          rw
            (
              components_step fuel (length name) c cs name
                  (component_whole max_name name short plain) refl
                  (subst (All IsLetter) (sym rest) tt),
              rest,
              components_nil max_name fuel,
            )
            (single-Pieces name (omega arith) short letters)
      | no long ↦
          let size : length (take max_name name) ≡ max_name =
            omega (arith, length-take max_name name, long) in
          let left : length (drop max_name name) ≡ length name - max_name =
            omega (arith, length-drop max_name name, long) in
          let behind = All-drop IsLetter max_name name letters in
          rw
            (components_step fuel max_name c cs (take max_name name)
              (component_cut max_name name (omega (arith, long)) plain) size behind)
            (cons-Pieces (length name) (take max_name name)
              (components max_name fuel (drop max_name name)) (omega (arith, long)) size
              (All-take max_name name letters)
              (subst (λ (n : ℕ). Pieces n (components max_name fuel (drop max_name name))) left
                (components-Pieces fuel (drop max_name name) (omega (arith, enough, left)) behind)))
    ]

letters-IsName : (name : List ℕ) → IsPiece max_name name → All IsLetter name → IsName name
unfolding IsLetter
letters-IsName [] piece letters = let none : 0 < 0 = piece.some_bytes in absurd (omega arith)
letters-IsName (c ∷ cs) piece letters = record {
  piece = piece;
  not_dot = λ e. letters.0.1 (ap (λ (l : List ℕ). get_or l 0 0) e);
  not_dots = λ e. letters.0.1 (ap (λ (l : List ℕ). get_or l 0 0) e);
}

letters-All :
    (names : List (List ℕ))
    → All (IsPiece max_name) names
    → All (All IsLetter) names
    → All IsName names
letters-All [] pieces letters = tt
letters-All (n ∷ ns) pieces letters =
    (letters-IsName n pieces.0 letters.0, letters-All ns pieces.1 letters.1)

length-join-heavy :
    (names : List (List ℕ)) → 1 < weight names → weight names ≡ length (join names) + 1
length-join-heavy [] h = absurd (omega (arith, h, weight_nil))
length-join-heavy (n ∷ ns) h = weight-join n ns

letters_start : (name : List ℕ) → All IsLetter name → get_or name 0 0 ≢ slash
unfolding IsLetter
letters_start [] h = omega arith
letters_start (c ∷ cs) h = h.0.0

names_of_long :
    (name : List ℕ)
    → All IsLetter name
    → length name ≤ 254
    → names_of (slash ∷ name) ≡ components max_name (suc (length name)) name
unfolding names_of
names_of_long name letters short =
    let p = components-Pieces (suc (length name)) name (omega arith) letters in
    let pieces =
      components-IsPiece max_name (suc (length name)) name (omega arith)
        (letters_start name letters) in
    rw (skip_one name, skip_letters name letters)
      (after_names-append [] (components max_name (suc (length name)) name)
        (letters-All (components max_name (suc (length name)) name) pieces p.letters)
        (omega (arith, p.few, short)))

-- A single name of 248 bytes or more, none of them a dot, behind a slash is cut into so many names
-- of 31 bytes that the slashes put between them run over the end of the callers' array of 256 bytes,
-- though the path itself fits it.
pub resolve_long_name :
    (cwd name : List ℕ)
    → All IsLetter name
    → 248 ≤ length name
    → length name ≤ 254
    → resolve cwd (some (slash ∷ name)) 256 ≡ fault
unfolding resolve
resolve_long_name cwd name letters long short =
    let names = components max_name (suc (length name)) name in
    let p = components-Pieces (suc (length name)) name (omega arith) letters in
    let size = length-join-heavy names (omega (arith, p.heavy, long)) in
    rw
      (
        take_all 255 (slash ∷ name) (omega (arith, short)),
        names_of_long name letters short,
        lt→leb (length (slash ∷ join names) + 1) 256 (omega (arith, p.heavy, size, long)),
      )
      refl
