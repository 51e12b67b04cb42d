-- ===== src/Vfs/Normal.antt =====
-- What `normalize` of fs/vfs.c leaves.
use can_boot.Common.{
  ℕ, suc, ◌+◌, ◌-◌, ◌≤◌, ◌≡◌, refl, sym, ap, ◌∙◌, List, [], ◌∷◌, ◌++◌, append-nil, append_assoc,
  arith, length, All, length-append, length-take, All-append,
}
use can_boot.Fat32.Names.{slash}
use can_boot.Fat32.Path.{skip_slashes}
use can_boot.Fat32.Path.Components.{
  IsPiece, join, skip_one, skip_slashes-join, components-join, length-join,
}
use can_boot.Vfs.Paths.{after_name, after_names, names_of, normalize, max_name, max_names}
use can_boot.Vfs.Rounds.{
  IsName, IsClean, starts, components-IsPiece, All-take, stays, goes_up, goes_down, is_full,
  Round-cases,
}

Kept : List (List ℕ) → Type 0
Kept names = All IsName names × (length names ≤ max_names)

after_name-Kept :
    (kept : List (List ℕ)) (name : List ℕ)
    → Kept kept
    → IsPiece max_name name
    → Kept (after_name kept name)
unfolding Kept
after_name-Kept kept name (each, few) piece = elim (Round-cases kept name) [
  | stays e step ↦ rw step (each, few)
  | goes_up e step ↦ rw step (
    All-take IsName (length kept - 1) kept each,
    omega (arith, length-take (length kept - 1) kept),
  )
  | goes_down not_dot not_dots room step ↦
      let last : IsName name = record { piece = piece; not_dot = not_dot; not_dots = not_dots } in
      rw step (
        All-append IsName kept (name ∷ []) each (last, tt),
        omega (arith, length-append kept (name ∷ [])),
      )
  | is_full not_dot not_dots full step ↦ rw step (each, few)
]

after_names-Kept :
    (kept names : List (List ℕ))
    → Kept kept
    → All (IsPiece max_name) names
    → Kept (after_names kept names)
unfolding after_names
after_names-Kept kept [] k pieces = k
after_names-Kept kept (name ∷ names) k pieces =
    after_names-Kept (after_name kept name) names (after_name-Kept kept name k pieces.0) pieces.1

names_of-Kept : (p : List ℕ) → Kept (names_of p)
unfolding names_of
names_of-Kept p =
    after_names-Kept [] _ (unfold Kept in (tt, omega arith))
      (components-IsPiece max_name (length p) (skip_slashes p) (omega arith) (starts p))

pub normalize-IsClean : (p : List ℕ) → IsClean (normalize p)
unfolding Kept
normalize-IsClean p =
    let (each, few) = names_of-Kept p in
    record { names = names_of p; each = each; few = few; text = refl }

-- Names that stay are kept as they are.
pub after_names-append :
    (kept names : List (List ℕ))
    → All IsName names
    → length kept + length names ≤ max_names
    → after_names kept names ≡ kept ++ names
unfolding after_names
after_names-append kept [] each few = sym (append-nil kept)
after_names-append kept (name ∷ names) each few = elim (Round-cases kept name) [
  | stays e step ↦ absurd (each.0.not_dot e)
  | goes_up e step ↦ absurd (each.0.not_dots e)
  | goes_down not_dot not_dots room step ↦
      ap (λ (k : List (List ℕ)). after_names k names) step
      ∙ after_names-append (kept ++ name ∷ []) names each.1
          (omega (arith, few, length-append kept (name ∷ [])))
      ∙ append_assoc kept (name ∷ []) names
  | is_full not_dot not_dots full step ↦ absurd (omega (arith, few, full))
]

pub All-IsPiece : (names : List (List ℕ)) → All IsName names → All (IsPiece max_name) names
All-IsPiece [] h = tt
All-IsPiece (n ∷ ns) h = (h.0.piece, All-IsPiece ns h.1)

-- The names that `normalize` finds in an absolute path with one slash before each name.
pub names_of-join :
    (ns : List (List ℕ))
    → All (IsPiece max_name) ns
    → names_of (slash ∷ join ns) ≡ after_names [] ns
unfolding names_of
names_of-join ns h =
    rw
      (
        skip_one (join ns),
        skip_slashes-join max_name ns h,
        components-join max_name (suc (length (join ns))) ns h
            (omega (arith, length-join max_name ns h)),
      )
      refl

clean_stays : (p : List ℕ) → IsClean p → normalize p ≡ p
clean_stays p c =
    ap normalize c.text
    ∙ ap (λ (ns : List (List ℕ)). slash ∷ join ns)
        (names_of-join c.names (All-IsPiece c.names c.each)
          ∙ after_names-append [] c.names c.each (omega (arith, c.few)))
    ∙ sym c.text

-- Whatever text it is given, `normalize` leaves an absolute path of at most 24 names, with one slash
-- before each, where no name is empty, ".", ".." or longer than 31 bytes, and none holds a slash;
-- and `normalize` applied to its own result changes nothing.
pub normalize-normalize :
    (p : List ℕ) → IsClean (normalize p) × (normalize (normalize p) ≡ normalize p)
normalize-normalize p = (normalize-IsClean p, clean_stays (normalize p) (normalize-IsClean p))
