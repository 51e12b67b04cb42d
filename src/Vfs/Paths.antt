-- ===== src/Vfs/Paths.antt =====
-- fs/vfs.c: `normalize` and `resolve`.
use can_boot.Common.{
  ℕ, ◌+◌, ◌-◌, Bool, false, not, ◌||◌, Option, none, some, List, [], ◌∷◌, ◌++◌, ltb, leb, ◌==◌,
  if◌then◌else◌, length, get_or, take, same_bytes,
}
use can_boot.Disk.{Outcome, ok, fault}
use can_boot.Fat32.Names.{dot, slash}
use can_boot.Fat32.Path.{components, skip_slashes}
use can_boot.Fat32.Path.Components.{join}

-- A row of `comps`, without its NUL; and the number of rows.
abbrev pub max_name : ℕ
max_name = 31

abbrev pub max_names : ℕ
max_names = 24

-- A round of the loop, on the names kept so far.
unfoldable pub after_name : List (List ℕ) → List ℕ → List (List ℕ)
after_name kept name =
    if same_bytes name (dot ∷ [])
    then kept
    else if same_bytes name (dot ∷ dot ∷ [])
    then take (length kept - 1) kept
    else (if ltb (length kept) max_names then kept ++ name ∷ [] else kept)

unfoldable pub after_names : List (List ℕ) → List (List ℕ) → List (List ℕ)
after_names kept [] = kept
after_names kept (name ∷ names) = after_names (after_name kept name) names

-- The names that are left of a path.
unfoldable pub names_of : List ℕ → List (List ℕ)
names_of p = after_names [] (components max_name (length p) (skip_slashes p))

-- `normalize`: the text that it writes over its argument.
abbrev pub normalize : List ℕ → List ℕ
normalize p = slash ∷ join (names_of p)

-- `normalize` of a text in an array of `cap` bytes, which the new text and its NUL can overrun.
abbrev pub normalize_in : ℕ → List ℕ → Outcome (List ℕ)
normalize_in cap p = if leb (length (normalize p) + 1) cap then ok (normalize p) else fault

abbrev pub joined : List ℕ → List ℕ → List ℕ
joined cwd path =
    let open_end = length cwd == 0 || not (get_or cwd (length cwd - 1) 0 == slash) in
    (if open_end then cwd ++ slash ∷ [] else cwd) ++ path

abbrev pub starts_at_root : List ℕ → Bool
starts_at_root [] = false
starts_at_root (c ∷ cs) = c == slash

-- `resolve`: `none` is the null pointer, and an array of `cap` bytes takes the result.
unfoldable pub resolve : List ℕ → Option (List ℕ) → ℕ → Outcome (List ℕ)
resolve cwd none cap = ok []
resolve cwd (some path) cap =
    if starts_at_root path
    then normalize_in cap (take (cap - 1) path)
    else (if ltb cap (length cwd + 1 + length path + 1)
        then ok []
        else normalize_in cap (joined cwd path))
