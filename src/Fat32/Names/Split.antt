-- ===== src/Fat32/Names/Split.antt =====
-- `split_last`: the two parts of a path, and the path put together from them.
use can_boot.Common.{
  ℕ, zero, suc, ◌+◌, ◌-◌, ◌≤◌, ◌<◌, ◌≡◌, refl, sym, ◌∙◌, ◌≢◌, ◌⊎◌, inl, inr, ◌||◌, Option, none,
  some, List, [], ◌∷◌, ◌++◌, arith, ℕ_discrete, ltb, ◌==◌, ==→eq, ==→ne, Bool-cases, length, take,
  drop, All, length-take, length-drop, get_or-take, get_or-drop, take-get_or-drop, take-take,
  All-of_index,
}
use can_boot.Common.Bytes.{byte_at}
use can_boot.Fat32.Names.{slash, trimmed, last_slash, Parts, split_at, split_last}

-- `trimmed` takes nothing but slashes off the end.
trimmed-le : (path : List ℕ) (n : ℕ) → trimmed path n ≤ n
unfolding trimmed
trimmed-le path zero = omega arith
trimmed-le path (suc k) = ground (arith, trimmed-le path k)

trimmed_slashes : (path : List ℕ) (n i : ℕ) → trimmed path n ≤ i → i < n → byte_at path i ≡ slash
unfolding trimmed
trimmed_slashes path zero i low high = absurd (omega arith)
trimmed_slashes path (suc k) i low high = elim (ℕ_discrete i k) [
  | yes e ↦ rw e (ground (arith, e, low))
  | no ne ↦ ground (arith, trimmed_slashes path k i)
]

-- What `last_slash` says of the bytes below `len`.
abbrev LastSlash : List ℕ → ℕ → Option ℕ → Type 0
LastSlash path len none = (i : ℕ) → i < len → byte_at path i ≢ slash
LastSlash path len (some k) =
    (k < len) × (byte_at path k ≡ slash) × ((i : ℕ) → k < i → i < len → byte_at path i ≢ slash)

LastSlash-suc :
    (path : List ℕ) (k : ℕ) (r : Option ℕ)
    → byte_at path k ≢ slash
    → LastSlash path k r
    → LastSlash path (suc k) r
LastSlash-suc path k none ne h =
    λ i high. elim (ℕ_discrete i k) [ yes e ↦ rw e ne | no other ↦ h i (omega arith) ]
LastSlash-suc path k (some j) ne (below, at_j, later) = (
  omega arith,
  at_j,
  λ i low high. elim (ℕ_discrete i k) [ yes e ↦ rw e ne | no other ↦ later i low (omega arith) ],
)

last_slash-LastSlash : (path : List ℕ) (len : ℕ) → LastSlash path len (last_slash path len)
unfolding last_slash
last_slash-LastSlash path zero = λ i h. absurd (omega arith)
last_slash-LastSlash path (suc k) = elim (Bool-cases (byte_at path k == slash)) [
  | inl here ↦ rw here (omega arith, ==→eq _ slash here, λ i low high. absurd (omega arith))
  | inr other ↦
      rw other (LastSlash-suc path k _ (==→ne _ slash other) (last_slash-LastSlash path k))
]

-- The path without its trailing slashes, as its two parts stand in it.
abbrev Joined : List ℕ → Parts → Type 0
Joined whole p =
    (p.parent ≡ slash ∷ []) × ((whole ≡ p.leaf) ⊎ (whole ≡ slash ∷ p.leaf))
    ⊎ (whole ≡ p.parent ++ slash ∷ p.leaf)

-- What a successful split of a path with `len` bytes before its trailing slashes gives.
pub record Splits (path : List ℕ) (pcap lcap len : ℕ) (p : Parts) : Type 0 where
  pub leaf_plain : All (λ c. c ≢ slash) p.leaf
  pub leaf_some : 0 < length p.leaf
  pub leaf_fits : length p.leaf < lcap
  pub parent_fits : length p.parent < pcap
  pub joined : Joined (take len path) p

abbrev SplitsTo : List ℕ → ℕ → ℕ → ℕ → Option Parts → Type 0
SplitsTo path pcap lcap len none = Unit
SplitsTo path pcap lcap len (some p) = Splits path pcap lcap len p

-- No slash stands behind index `k` of what was kept.
leaf_plain :
    (path : List ℕ) (len k : ℕ)
    → ((i : ℕ) → k < i → i < len → byte_at path i ≢ slash)
    → All (λ c. c ≢ slash) (drop (suc k) (take len path))
leaf_plain path len k none_later =
    All-of_index (λ c. c ≢ slash) (drop (suc k) (take len path)) 0
      (λ i below.
        let inside : suc k + i < len =
          omega (arith, length-drop (suc k) (take len path), length-take len path) in
        rw (get_or-drop (suc k) (take len path) i 0, get_or-take len path (suc k + i) 0 inside)
          (none_later (suc k + i) (omega arith) inside))

-- The kept path, cut at its last slash.
cut_at :
    (path : List ℕ) (len k : ℕ)
    → len ≤ length path
    → k < len
    → byte_at path k ≡ slash
    → take len path ≡ take k path ++ slash ∷ drop (suc k) (take len path)
cut_at path len k short below here =
    let there : byte_at (take len path) k ≡ slash = get_or-take len path k 0 below ∙ here in
    let whole = take-get_or-drop k (take len path) 0 (omega (arith, length-take len path)) in
    sym (rw (there, take-take k len path (omega arith)) at whole)

split_at-Splits :
    (path : List ℕ) (pcap lcap len : ℕ) (r : Option ℕ)
    → len ≤ length path
    → LastSlash path len r
    → SplitsTo path pcap lcap len (split_at path pcap lcap len r)
unfolding split_at
split_at-Splits path pcap lcap len none short h =
    elim (Bool-cases (ltb pcap 2 || ltb lcap (len + 1) || len == 0)) [
      | inl refused ↦ rw refused tt
      | inr taken ↦ rw taken (record {
        leaf_plain =
            All-of_index (λ c. c ≢ slash) (take len path) 0
              (λ i below.
                let inside : i < len = omega (arith, length-take len path) in
                rw (get_or-take len path i 0 inside) (h i inside));
        leaf_some = ground (arith, length-take len path);
        leaf_fits = ground (arith, length-take len path);
        parent_fits = ground arith;
        joined = inl (refl, inl refl);
      })
    ]
split_at-Splits path pcap lcap len (some zero) short (below, here, later) =
    elim (Bool-cases (len - 0 - 1 == 0 || ltb lcap (len - 0 - 1 + 1) || ltb pcap 2)) [
      | inl refused ↦ rw refused tt
      | inr taken ↦ rw taken (record {
        leaf_plain = leaf_plain path len 0 later;
        leaf_some = ground (arith, length-drop 1 (take len path), length-take len path);
        leaf_fits = ground (arith, length-drop 1 (take len path), length-take len path);
        parent_fits = ground arith;
        joined = inl (refl, inr (cut_at path len 0 short below here));
      })
    ]
split_at-Splits path pcap lcap len (some (suc k)) short (below, here, later) =
    elim (Bool-cases
      (len - suc k - 1 == 0 || ltb lcap (len - suc k - 1 + 1) || ltb pcap (suc k + 1))) [
        | inl refused ↦ rw refused tt
        | inr taken ↦
            let at_end : suc k + 1 ≡ suc (suc k) = omega arith in
            rw (taken, at_end)
              (record {
                leaf_plain = leaf_plain path len (suc k) later;
                leaf_some =
                    ground (arith, length-drop (suc (suc k)) (take len path), length-take len path);
                leaf_fits =
                    ground (arith, length-drop (suc (suc k)) (take len path), length-take len path);
                parent_fits = ground (arith, length-take (suc k) path);
                joined = inr (cut_at path len (suc k) short below here);
              })
      ]

-- Where `split_last` succeeds, both parts fit their buffers with the terminating zero, and the leaf
-- is not empty and holds no slash. The path without its trailing slashes is the parent, a slash and
-- the leaf; or the parent is "/", and that path is the leaf, or a slash and the leaf. What was left
-- off at the end is slashes.
pub split_last-Splits :
    (path : List ℕ) (pcap lcap : ℕ) (p : Parts)
    → split_last path pcap lcap ≡ some p
    → (len : ℕ) × (len ≤ length path)
      × ((i : ℕ) → len ≤ i → i < length path → byte_at path i ≡ slash)
      × Splits path pcap lcap len p
unfolding split_last
split_last-Splits path pcap lcap p h =
    let len = trimmed path (length path) in
    let short = trimmed-le path (length path) in
    let found = last_slash-LastSlash path len in
    (
      len,
      short,
      trimmed_slashes path (length path),
      rw h at (split_at-Splits path pcap lcap len (last_slash path len) short found),
    )
