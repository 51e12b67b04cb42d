-- ===== src/Common/First.antt =====
-- The first element of a list that gives a result: what the searches of the C code stand for.
use Prim.{⊥}
use mathlib.Core.Option.{Option, none, some}
use mathlib.Core.Path.{◌≡◌, refl}
use mathlib.Core.List.{List, [], ◌∷◌, ◌++◌}

-- The first element that gives something gives it; the result is `none` where no element does.
pub data First {A B : Type 0} (Gives : A → B → Type 0) : List A → Option B → Type 0 where
  nowhere : First Gives [] none
  at_head : {a : A} {xs : List A} (b : B) → Gives a b → First Gives (a ∷ xs) (some b)
  behind :
      {a : A} {xs : List A} {r : Option B}
      → ((b : B) → Gives a b → ⊥)
      → First Gives xs r
      → First Gives (a ∷ xs) r

abbrev pub or_else : {B : Type 0} → Option B → Option B → Option B
or_else none later = later
or_else (some b) later = some b

-- A search whose step on one element is right.
pub First-or_else :
    {A B : Type 0} {Gives : A → B → Type 0} (a : A) (xs : List A) (here later : Option B)
    → ((b : B) → here ≡ some b → Gives a b)
    → (here ≡ none → (b : B) → Gives a b → ⊥)
    → First Gives xs later
    → First Gives (a ∷ xs) (or_else here later)
First-or_else a xs none later gives none_gives f = behind (none_gives refl) f
First-or_else a xs (some b) later gives none_gives f = at_head b (gives b refl)

-- A search in two parts.
pub First-parts :
    {A B : Type 0} {Gives : A → B → Type 0} (xs ys : List A) (here later : Option B)
    → First Gives xs here
    → First Gives ys later
    → First Gives (xs ++ ys) (or_else here later)
First-parts [] ys _ later nowhere g = g
First-parts (x ∷ xs) ys _ later (at_head b gives) g = at_head b gives
First-parts (x ∷ xs) ys _ later (behind gives_none f) g =
    behind gives_none (First-parts xs ys _ later f g)
