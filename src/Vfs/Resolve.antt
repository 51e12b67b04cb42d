-- ===== src/Vfs/Resolve.antt =====
-- `resolve` of fs/vfs.c: a path from the working directory.
use can_boot.Common.{
  ℕ, zero, suc, ◌+◌, ◌-◌, ◌≤◌, ◌<◌, ◌≡◌, refl, sym, ap, ◌∙◌, ◌≢◌, false, some, List, [], ◌∷◌, ◌++◌,
  append_assoc, arith, le→ltb, le→leb, ne→==, length, get_or, All, length-append, All-append, take,
  same_bytes, same_bytes→eq, same_bytes_self, Bool-cases, ltb, ltb→lt, ltb→le, inl, inr, true,
}
use can_boot.Disk.{ok}
use mathlib.Core.Path.{subst}
use can_boot.Fat32.Names.{dot, slash}
use can_boot.Fat32.Path.Components.{IsPiece, join}
use can_boot.Vfs.Paths.{
  after_name, after_names, names_of, resolve, joined, max_name, max_names, starts_at_root,
}
use can_boot.Vfs.Rounds.{IsName}
use can_boot.Vfs.Normal.{after_names-append, All-IsPiece, names_of-join}
use can_boot.Vfs.Weight.{weight_nil, weight-join, length-join-weight, weight-after_names}

get_or-behind : (xs ys : List ℕ) (i d : ℕ) → get_or (xs ++ ys) (length xs + i) d ≡ get_or ys i d
get_or-behind [] ys i d = ap (λ (k : ℕ). get_or ys k d) (omega arith)
get_or-behind (x ∷ xs) ys i d =
    let later : suc (length xs) + i ≡ suc (length xs + i) = omega arith in
    ap (λ (k : ℕ). get_or (x ∷ xs ++ ys) k d) later ∙ get_or-behind xs ys i d

All-get_or : (P : ℕ → Type 0) (xs : List ℕ) (i d : ℕ) → All P xs → i < length xs → P (get_or xs i d)
All-get_or P [] i d h inside = absurd (omega arith)
All-get_or P (x ∷ xs) zero d h inside = h.0
All-get_or P (x ∷ xs) (suc i) d h inside = All-get_or P xs i d h.1 (omega arith)

-- The last byte of a path is not a slash.
last-join :
    (cap x : ℕ) (n : List ℕ) (ns : List (List ℕ))
    → All (IsPiece cap) (n ∷ ns)
    → get_or (x ∷ join (n ∷ ns)) (length (join (n ∷ ns))) 0 ≢ slash
unfolding join
last-join cap x [] [] h = let none : 0 < 0 = h.0.some_bytes in absurd (omega arith)
last-join cap x (c ∷ cs) [] h =
    All-get_or (λ b. b ≢ slash) (c ∷ cs) (length cs) 0 h.0.plain (omega arith)
last-join cap x n (m ∷ ms) h =
    let size : length (n ++ slash ∷ join (m ∷ ms)) ≡ suc (length n + length (join (m ∷ ms))) =
      omega (arith, length-append n (slash ∷ join (m ∷ ms))) in
    rw (size, get_or-behind n (slash ∷ join (m ∷ ms)) (length (join (m ∷ ms))) 0)
      (last-join cap slash m ms h.1)

join-append :
    (n : List ℕ) (ns : List (List ℕ)) (m : List ℕ) (ms : List (List ℕ))
    → join (n ∷ ns ++ m ∷ ms) ≡ join (n ∷ ns) ++ slash ∷ join (m ∷ ms)
unfolding join
join-append n [] m ms = refl
join-append n (n' ∷ ns) m ms =
    ap (λ (t : List ℕ). n ++ slash ∷ t) (join-append n' ns m ms)
    ∙ sym (append_assoc n (slash ∷ join (n' ∷ ns)) (slash ∷ join (m ∷ ms)))

joined-join :
    (ns : List (List ℕ)) (m : List ℕ) (ms : List (List ℕ))
    → All (IsPiece max_name) ns
    → joined (slash ∷ join ns) (join (m ∷ ms)) ≡ slash ∷ join (ns ++ m ∷ ms)
joined-join [] m ms h = unfold join in refl
joined-join (n ∷ ns) m ms h =
    let last = ne→== _ slash (last-join max_name slash n ns h) in
    let whole : suc (length (join (n ∷ ns))) - 1 ≡ length (join (n ∷ ns)) = omega arith in
    rw (ne→== (suc (length (join (n ∷ ns)))) 0 (omega arith), whole, last)
      (append_assoc (slash ∷ join (n ∷ ns)) (slash ∷ []) (join (m ∷ ms))
        ∙ ap (λ (t : List ℕ). slash ∷ t) (sym (join-append n ns m ms)))

after_names-after_names :
    (kept ns ms : List (List ℕ))
    → after_names kept (ns ++ ms) ≡ after_names (after_names kept ns) ms
unfolding after_names
after_names-after_names kept [] ms = refl
after_names-after_names kept (n ∷ ns) ms = after_names-after_names (after_name kept n) ns ms

not_at_root :
    (m : List ℕ) (ms : List (List ℕ))
    → All (IsPiece max_name) (m ∷ ms)
    → starts_at_root (join (m ∷ ms)) ≡ false
unfolding join
not_at_root [] ms h = let none : 0 < 0 = h.0.some_bytes in absurd (omega arith)
not_at_root (c ∷ cs) [] h = ne→== c slash h.0.plain.0
not_at_root (c ∷ cs) (m ∷ ms) h = ne→== c slash h.0.plain.0

All-pieces-append :
    (ns ms : List (List ℕ))
    → All IsName ns
    → All (IsPiece max_name) ms
    → All (IsPiece max_name) (ns ++ ms)
All-pieces-append ns ms named h = All-append (IsPiece max_name) ns ms (All-IsPiece ns named) h

-- The result with its NUL is no longer than what was put together.
fits :
    (ns : List (List ℕ)) (m : List ℕ) (ms : List (List ℕ))
    → length (slash ∷ join (after_names ns (m ∷ ms))) + 1
      ≤ length (slash ∷ join ns) + 1 + length (join (m ∷ ms)) + 1
fits [] m ms = omega (
  arith,
  weight_nil,
  weight-after_names [] (m ∷ ms),
  weight-join m ms,
  length-join-weight (after_names [] (m ∷ ms)),
)
fits (n ∷ ns) m ms = omega (
  arith,
  weight-after_names (n ∷ ns) (m ∷ ms),
  weight-join m ms,
  weight-join n ns,
  length-join-weight (after_names (n ∷ ns) (m ∷ ms)),
)

resolve-after_names :
    (ns : List (List ℕ)) (m : List ℕ) (ms : List (List ℕ)) (cap : ℕ)
    → All IsName ns
    → length ns ≤ max_names
    → All (IsPiece max_name) (m ∷ ms)
    → length (slash ∷ join ns) + 1 + length (join (m ∷ ms)) + 1 ≤ cap
    → resolve (slash ∷ join ns) (some (join (m ∷ ms))) cap
      ≡ ok (slash ∷ join (after_names ns (m ∷ ms)))
unfolding resolve
resolve-after_names ns m ms cap named few h room =
    let walk : names_of (slash ∷ join (ns ++ m ∷ ms)) ≡ after_names ns (m ∷ ms) =
      names_of-join (ns ++ m ∷ ms) (All-pieces-append ns (m ∷ ms) named h)
      ∙ after_names-after_names [] ns (m ∷ ms)
      ∙ ap (λ (k : List (List ℕ)). after_names k (m ∷ ms))
          (after_names-append [] ns named (omega (arith, few))) in
    rw
      (
        not_at_root m ms h,
        le→ltb cap (length (slash ∷ join ns) + 1 + length (join (m ∷ ms)) + 1) room,
        joined-join ns m ms (All-IsPiece ns named),
        walk,
        le→leb (length (slash ∷ join (after_names ns (m ∷ ms))) + 1) cap
            (omega (arith, room, fits ns m ms)),
      )
      refl

-- Where a walk ends that follows names from a directory, by what each name means: "." stays, ".."
-- leaves the last directory, at the root it stays there, and any other name is entered, but for those
-- that would be the 25th or later, which are dropped.
pub data Leads : List (List ℕ) → List (List ℕ) → List (List ℕ) → Type 0 where
  arrived : {ns : List (List ℕ)} → Leads ns [] ns
  stays : {ns ms r : List (List ℕ)} → Leads ns ms r → Leads ns ((0x2E ∷ []) ∷ ms) r
  goes_up :
      {ns ms r : List (List ℕ)} (n : List ℕ)
      → Leads ns ms r
      → Leads (ns ++ n ∷ []) ((0x2E ∷ 0x2E ∷ []) ∷ ms) r
  stays_at_root : {ms r : List (List ℕ)} → Leads [] ms r → Leads [] ((0x2E ∷ 0x2E ∷ []) ∷ ms) r
  enters :
      {ns ms r : List (List ℕ)} (m : List ℕ)
      → m ≢ 0x2E ∷ []
      → m ≢ 0x2E ∷ 0x2E ∷ []
      → length ns < 24
      → Leads (ns ++ m ∷ []) ms r
      → Leads ns (m ∷ ms) r
  drops :
      {ns ms r : List (List ℕ)} (m : List ℕ)
      → m ≢ 0x2E ∷ []
      → m ≢ 0x2E ∷ 0x2E ∷ []
      → 24 ≤ length ns
      → Leads ns ms r
      → Leads ns (m ∷ ms) r

other_bytes : (a b : List ℕ) → same_bytes a b ≡ false → a ≢ b
other_bytes a b h e =
    let same : same_bytes a b ≡ true = ap (λ (x : List ℕ). same_bytes x b) e ∙ same_bytes_self b in
    let differs = sym h ∙ same in absurd (cc)

but_last :
    (n : List ℕ) (ns : List (List ℕ))
    → (l : List ℕ) × (n ∷ ns ≡ take (length ns) (n ∷ ns) ++ l ∷ [])
but_last n [] = (n, refl)
but_last n (m ∷ ns) = let (l, same) = but_last m ns in (l, ap (λ (xs : List (List ℕ)). n ∷ xs) same)

Leads-up :
    (ns ms r : List (List ℕ))
    → Leads (take (length ns - 1) ns) ms r
    → Leads ns ((0x2E ∷ 0x2E ∷ []) ∷ ms) r
Leads-up [] ms r l = stays_at_root l
Leads-up (n ∷ ns) ms r l =
    let (last, same) = but_last n ns in
    let shorter : length (n ∷ ns) - 1 ≡ length ns = omega arith in
    subst (λ (xs : List (List ℕ)). Leads xs ((0x2E ∷ 0x2E ∷ []) ∷ ms) r) (sym same)
      (goes_up last (subst (λ (k : ℕ). Leads (take k (n ∷ ns)) ms r) shorter l))

Leads-after_names : (ns ms : List (List ℕ)) → Leads ns ms (after_names ns ms)
unfolding after_names after_name
Leads-after_names ns [] = arrived
Leads-after_names ns (m ∷ ms) = elim (Bool-cases (same_bytes m (dot ∷ []))) [
  | inl here ↦ rw here (
      subst (λ (x : List ℕ). Leads ns (x ∷ ms) (after_names ns ms))
        (sym (same_bytes→eq m (dot ∷ []) here)) (stays (Leads-after_names ns ms)))
  | inr moves ↦ elim (Bool-cases (same_bytes m (dot ∷ dot ∷ []))) [
    | inl up ↦
        let kept = take (length ns - 1) ns in
        rw (moves, up)
          (subst (λ (x : List ℕ). Leads ns (x ∷ ms) (after_names kept ms))
            (sym (same_bytes→eq m (dot ∷ dot ∷ []) up))
            (Leads-up ns ms (after_names kept ms) (Leads-after_names kept ms)))
    | inr down ↦
        let not_here = λ (e : m ≡ 0x2E ∷ []). other_bytes m (dot ∷ []) moves e in
        let not_up = λ (e : m ≡ 0x2E ∷ 0x2E ∷ []). other_bytes m (dot ∷ dot ∷ []) down e in
        elim (Bool-cases (ltb (length ns) max_names)) [
          | inl room ↦
              rw (moves, down, room)
                (enters m not_here not_up (ltb→lt (length ns) max_names room)
                  (Leads-after_names (ns ++ m ∷ []) ms))
          | inr full ↦
              rw (moves, down, full)
                (drops m not_here not_up (ltb→le (length ns) max_names full)
                  (Leads-after_names ns ms))
        ]
  ]
]

-- A relative path whose names have 1 to 31 bytes each, in a working directory of at most 24 names,
-- resolves to the path of the directory or file where a walk from there along its names ends, "."
-- staying, ".." going up and names behind the 24th being dropped, as long as both texts fit the array.
pub resolve-join :
    (ns : List (List ℕ)) (m : List ℕ) (ms : List (List ℕ)) (cap : ℕ)
    → All IsName ns
    → length ns ≤ max_names
    → All (IsPiece max_name) (m ∷ ms)
    → length (slash ∷ join ns) + 1 + length (join (m ∷ ms)) + 1 ≤ cap
    → (r : List (List ℕ)) × (resolve (slash ∷ join ns) (some (join (m ∷ ms))) cap
        ≡ ok (slash ∷ join r))
      × Leads ns (m ∷ ms) r
resolve-join ns m ms cap named few h room = (
  after_names ns (m ∷ ms),
  resolve-after_names ns m ms cap named few h room,
  Leads-after_names ns (m ∷ ms),
)
