-- ===== src/Fat32/Path/Components.antt =====
-- How `resolve_dir` takes a path apart.
use can_boot.Common.{
  ℕ, zero, suc, ◌≤◌, ◌<◌, ◌≡◌, refl, ap, ◌∙◌, ◌≢◌, List, [], ◌∷◌, ◌++◌, arith, length, take, drop,
  All, length-append, length-take, length-drop, drop-length-append,
}
use can_boot.Disk.{Disk}
use can_boot.Fat32.{Volume}
use can_boot.Fat32.Names.{slash}
use can_boot.Fat32.Path.{
  skip_slashes, component, components, max_component, resolve_from, resolve_dir,
}

-- A component that the loop takes whole.
pub record IsPiece (cap : ℕ) (name : List ℕ) : Type 0 where
  pub some_bytes : 0 < length name
  pub short : length name ≤ cap
  pub plain : All (λ c. c ≢ slash) name

-- The pieces with one slash between neighbours.
unfoldable pub join : List (List ℕ) → List ℕ
join [] = []
join (n ∷ []) = n
join (n ∷ m ∷ rest) = n ++ slash ∷ join (m ∷ rest)

pub component_whole :
    (n : ℕ) (name : List ℕ) → length name ≤ n → All (λ c. c ≢ slash) name → component n name ≡ name
unfolding component
component_whole zero [] short plain = refl
component_whole zero (c ∷ cs) short plain = absurd (omega arith)
component_whole (suc n) [] short plain = refl
component_whole (suc n) (c ∷ cs) short plain =
    ground (arith, component_whole n cs (omega arith) plain.1)

component-append :
    (n : ℕ) (name rest : List ℕ)
    → length name ≤ n
    → All (λ c. c ≢ slash) name
    → component n (name ++ slash ∷ rest) ≡ name
unfolding component
component-append zero [] rest short plain = refl
component-append zero (c ∷ cs) rest short plain = absurd (omega arith)
component-append (suc n) [] rest short plain = ground arith
component-append (suc n) (c ∷ cs) rest short plain =
    ground (arith, component-append n cs rest (omega arith) plain.1)

pub component_cut :
    (n : ℕ) (name : List ℕ)
    → n ≤ length name
    → All (λ c. c ≢ slash) name
    → component n name ≡ take n name
unfolding component
component_cut zero name long plain = refl
component_cut (suc n) [] long plain = absurd (omega arith)
component_cut (suc n) (c ∷ cs) long plain = ground (arith, component_cut n cs (omega arith) plain.1)

pub skip_none : (c : ℕ) (cs : List ℕ) → c ≢ slash → skip_slashes (c ∷ cs) ≡ c ∷ cs
unfolding skip_slashes
skip_none c cs ne = ground arith

-- Nothing is skipped where a piece begins.
pub skip_slashes-join :
    (cap : ℕ) (ns : List (List ℕ)) → All (IsPiece cap) ns → skip_slashes (join ns) ≡ join ns
unfolding join
skip_slashes-join cap [] h = unfold skip_slashes in refl
skip_slashes-join cap ([] ∷ rest) h = let none : 0 < 0 = h.0.some_bytes in absurd (omega arith)
skip_slashes-join cap ((c ∷ cs) ∷ []) h = skip_none c cs h.0.plain.0
skip_slashes-join cap ((c ∷ cs) ∷ m ∷ rest) h = skip_none c _ h.0.plain.0

pub skip_one : (cs : List ℕ) → skip_slashes (slash ∷ cs) ≡ skip_slashes cs
unfolding skip_slashes
skip_one cs = ground arith

pub skip_nil : skip_slashes [] ≡ []
unfolding skip_slashes
skip_nil = refl

pub components_nil : (cap fuel : ℕ) → components cap fuel [] ≡ []
unfolding components
components_nil cap zero = refl
components_nil cap (suc fuel) = refl

pub drop_whole : (cs : List ℕ) → drop (length cs) cs ≡ []
drop_whole [] = refl
drop_whole (c ∷ cs) = drop_whole cs

pub components-join :
    (cap fuel : ℕ) (ns : List (List ℕ))
    → All (IsPiece cap) ns
    → length ns ≤ fuel
    → components cap fuel (join ns) ≡ ns
unfolding components join
components-join cap zero [] h enough = refl
components-join cap zero (n ∷ ns) h enough = absurd (omega arith)
components-join cap (suc fuel) [] h enough = refl
components-join cap (suc fuel) ([] ∷ rest) h enough =
    let none : 0 < 0 = h.0.some_bytes in absurd (omega arith)
components-join cap (suc fuel) ((c ∷ cs) ∷ []) h enough =
    rw (component_whole cap (c ∷ cs) h.0.short h.0.plain)
      (rw (drop_whole cs, skip_nil, components_nil cap fuel))
components-join cap (suc fuel) ((c ∷ cs) ∷ m ∷ rest) h enough =
    rw (component-append cap (c ∷ cs) (join (m ∷ rest)) h.0.short h.0.plain) (
      rw (
        drop-length-append cs (slash ∷ join (m ∷ rest)),
        skip_one (join (m ∷ rest)),
        skip_slashes-join cap (m ∷ rest) h.1,
        components-join cap fuel (m ∷ rest) h.1 (omega arith),
      ))

pub length-join :
    (cap : ℕ) (ns : List (List ℕ)) → All (IsPiece cap) ns → length ns ≤ length (join ns)
unfolding join
length-join cap [] h = omega arith
length-join cap (n ∷ []) h = omega (arith, h.0.some_bytes)
length-join cap (n ∷ m ∷ rest) h = omega (
  arith,
  h.0.some_bytes,
  length-join cap (m ∷ rest) h.1,
  length-append n (slash ∷ join (m ∷ rest)),
)

-- `resolve_dir` of an absolute path, whose names are not empty, hold no slash and have at most
-- fifteen bytes, goes down from the root through exactly these names, in their order.
pub resolve_dir-join :
    (fuel : ℕ) (fs : Volume) (ns : List (List ℕ)) (d : Disk)
    → All (IsPiece max_component) ns
    → resolve_dir fuel fs (slash ∷ join ns) d ≡ resolve_from fuel fs fs.root_cluster ns d
unfolding resolve_dir
resolve_dir-join fuel fs ns d h = rw (
  skip_one (join ns),
  skip_slashes-join max_component ns h,
  components-join max_component (suc (length (join ns))) ns h
      (omega (arith, length-join max_component ns h)),
)

pub All-drop : (P : ℕ → Type 0) (n : ℕ) (xs : List ℕ) → All P xs → All P (drop n xs)
All-drop P zero xs h = h
All-drop P (suc n) [] h = h
All-drop P (suc n) (x ∷ xs) h = All-drop P n xs h.1

-- What is left of a long name is a piece.
rest-IsPiece :
    (name : List ℕ)
    → All (λ c. c ≢ slash) name
    → 15 < length name
    → length name ≤ 30
    → IsPiece max_component (drop 15 name)
rest-IsPiece name plain long short = record {
  some_bytes = omega (arith, length-drop 15 name);
  short = omega (arith, length-drop 15 name);
  plain = All-drop (λ c. c ≢ slash) 15 name plain;
}

components_piece :
    (fuel : ℕ) (name : List ℕ)
    → IsPiece max_component name
    → components max_component (suc fuel) (skip_slashes name) ≡ name ∷ []
unfolding join
components_piece fuel name h =
    rw (skip_slashes-join max_component (name ∷ []) (h, tt))
      (components-join max_component (suc fuel) (name ∷ []) (h, tt) (omega arith))

-- One round, whose component is `comp` of `n` bytes.
components_round :
    (fuel n c : ℕ) (cs comp : List ℕ)
    → component max_component (c ∷ cs) ≡ comp
    → length comp ≡ n
    → components max_component (suc fuel) (c ∷ cs)
      ≡ comp ∷ components max_component fuel (skip_slashes (drop n (c ∷ cs)))
unfolding components
components_round fuel n c cs comp e len = rw (e, len)

components_cut :
    (fuel : ℕ) (c : ℕ) (cs : List ℕ)
    → All (λ x. x ≢ slash) (c ∷ cs)
    → 15 < length (c ∷ cs)
    → length (c ∷ cs) ≤ 30
    → 2 ≤ fuel
    → components max_component fuel (c ∷ cs) ≡ take 15 (c ∷ cs) ∷ drop 15 (c ∷ cs) ∷ []
components_cut zero c cs plain long short enough = absurd (omega arith)
components_cut (suc zero) c cs plain long short enough = absurd (omega arith)
components_cut (suc (suc fuel)) c cs plain long short enough =
    components_round (suc fuel) 15 c cs (take 15 (c ∷ cs))
      (component_cut max_component (c ∷ cs) (omega arith) plain)
      (omega (arith, length-take 15 (c ∷ cs)))
    ∙ ap (λ (t : List (List ℕ)). take 15 (c ∷ cs) ∷ t)
        (components_piece fuel (drop 15 (c ∷ cs)) (rest-IsPiece (c ∷ cs) plain long short))

-- A name of sixteen to thirty bytes is not taken whole: the search goes first for its first
-- fifteen bytes and then, inside that directory, for the rest.
pub resolve_dir_long_name :
    (fuel : ℕ) (fs : Volume) (name : List ℕ) (d : Disk)
    → All (λ c. c ≢ slash) name
    → 15 < length name
    → length name ≤ 30
    → resolve_dir fuel fs name d
      ≡ resolve_from fuel fs fs.root_cluster (take 15 name ∷ drop 15 name ∷ []) d
unfolding resolve_dir
resolve_dir_long_name fuel fs [] d plain long short = absurd (omega arith)
resolve_dir_long_name fuel fs (c ∷ cs) d plain long short = rw (skip_none c cs plain.0) (
    ap (λ (ns : List (List ℕ)). resolve_from fuel fs fs.root_cluster ns d)
      (components_cut (suc (length cs)) c cs plain long short (omega arith)))
