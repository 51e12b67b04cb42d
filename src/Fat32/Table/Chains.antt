-- ===== src/Fat32/Table/Chains.antt =====
-- Cluster chains, and `free_chain`.
use can_boot.Common.{
  ℕ, zero, suc, ◌≤◌, ◌<◌, ◌≡◌, refl, sym, ap, ◌∙◌, ◌⊎◌, inl, inr, true, false, ◌&&◌, List, [], ◌∷◌,
  arith, ltb, leb, ◌==◌, if◌then◌else◌, ==→eq, Bool-cases, length, contains,
}
use can_boot.Disk.{Disk, ok}
use can_boot.Fat32.{Volume, eoc}
use can_boot.Fat32.Table.{write_fat_entry, free_chain}
use can_boot.Fat32.Table.Layout.{IsMounted, InTable}
use can_boot.Fat32.Table.Entries.{
  fat_at, read_fat_entry-IsMounted, Updated, write_fat_entry-Updated,
}

-- The clusters that one meets from `first` on, following the table to a value that ends the chain.
abbrev pub IsChain : Volume → Disk → ℕ → List ℕ → Type 0
IsChain fs d first [] = (first < 2) ⊎ (eoc ≤ first)
IsChain fs d first (c ∷ cs) = (first ≡ c) × (2 ≤ c) × InTable fs c × IsChain fs d (fat_at fs d c) cs

-- A cluster of the table does not end a chain.
not_end :
    (fs : Volume) (d : Disk) (c : ℕ)
    → IsMounted fs d
    → 2 ≤ c
    → InTable fs c
    → ¬ ((c < 2) ⊎ (eoc ≤ c))
not_end fs d c m low inside = elim [ inl h ↦ omega arith | inr h ↦ omega (arith, m.few) ]

-- Chains with the same start have the same length.
IsChain-length :
    (fs : Volume) (d : Disk) (first : ℕ) (xs ys : List ℕ)
    → IsMounted fs d
    → IsChain fs d first xs
    → IsChain fs d first ys
    → length xs ≡ length ys
IsChain-length fs d first [] [] m hx hy = refl
IsChain-length fs d first [] (y ∷ ys) m hx (e, low, inside, rest) =
    absurd (not_end fs d y m low inside (rw (← e) hx))
IsChain-length fs d first (x ∷ xs) [] m (e, low, inside, rest) hy =
    absurd (not_end fs d x m low inside (rw (← e) hy))
IsChain-length fs d first (x ∷ xs) (y ∷ ys) m (e, low, inside, rest) (e', low', inside', rest') =
    let same : x ≡ y = sym e ∙ e' in
    ap suc (IsChain-length fs d (fat_at fs d y) xs ys m (rw same at rest) rest')

-- From a cluster of the chain on, the chain goes on no longer than the whole.
IsChain-suffix :
    (fs : Volume) (d : Disk) (first c : ℕ) (xs : List ℕ)
    → IsChain fs d first xs
    → contains c xs ≡ true
    → (ys : List ℕ) × IsChain fs d c ys × (length ys ≤ length xs)
IsChain-suffix fs d first c [] h e = cc
IsChain-suffix fs d first c (x ∷ xs) h e = elim (Bool-cases (c == x)) [
  | inl here ↦ let at_x : c ≡ x = ==→eq c x here in (x ∷ xs, (at_x, h.1, h.2, h.3), omega arith)
  | inr later ↦
      let (ys, chain, short) = IsChain-suffix fs d (fat_at fs d x) c xs h.3 (ground arith) in
      (ys, chain, omega arith)
]

-- A chain does not come back to where it was.
IsChain-no-return :
    (fs : Volume) (d : Disk) (first c : ℕ) (cs : List ℕ)
    → IsMounted fs d
    → IsChain fs d first (c ∷ cs)
    → contains c cs ≡ false
IsChain-no-return fs d first c cs m h = elim (Bool-cases (contains c cs)) [
  | inl back ↦
      let (ys, chain, short) = IsChain-suffix fs d (fat_at fs d c) c cs h.3 back in
      absurd (omega (arith, IsChain-length fs d c ys (c ∷ cs) m chain (refl, h.1, h.2, h.3)))
  | inr once ↦ once
]

-- A chain is still there after an entry outside it was written.
pub IsChain-Updated :
    (fs : Volume) (c value : ℕ) (d d' : Disk) (first : ℕ) (cs : List ℕ)
    → Updated fs c value d d'
    → contains c cs ≡ false
    → IsChain fs d first cs
    → IsChain fs d' first cs
IsChain-Updated fs c value d d' first [] u out h = h
IsChain-Updated fs c value d d' first (x ∷ xs) u out (e, low, inside, rest) =
    let kept : fat_at fs d' x ≡ fat_at fs d x = ground (arith, u.entries x inside) in
    (
      e,
      low,
      inside,
      rw kept (IsChain-Updated fs c value d d' (fat_at fs d x) xs u (ground arith) rest),
    )

-- The table after the clusters `cs` were given back, and nothing else was touched.
pub record Freed (fs : Volume) (cs : List ℕ) (d d' : Disk) : Type 0 where
  pub mounted : IsMounted fs d'
  pub entries :
      (c : ℕ) → InTable fs c → fat_at fs d' c ≡ (if contains c cs then 0 else fat_at fs d c)
  pub elsewhere : (l : ℕ) → fs.data_start_lba ≤ l → d'.blocks l ≡ d.blocks l
  pub same_writable : d'.writable ≡ d.writable

Freed-cons :
    (fs : Volume) (c : ℕ) (cs : List ℕ) (d d' d'' : Disk)
    → Updated fs c 0 d d'
    → Freed fs cs d' d''
    → Freed fs (c ∷ cs) d d''
Freed-cons fs c cs d d' d'' u f = record {
  mounted = f.mounted;
  entries = λ c' inside. ground (arith, f.entries c' inside, u.entries c' inside);
  elsewhere = λ l h. f.elsewhere l h ∙ u.elsewhere l h;
  same_writable = f.same_writable ∙ u.same_writable;
}

-- On a mounted volume, `free_chain` at the start of a chain ends after one round for each cluster
-- and one more, and succeeds. It sets the entry of every cluster of the chain to 0 and changes no
-- other entry and no block behind the tables.
pub free_chain-Freed :
    (fuel : ℕ) (fs : Volume) (d : Disk) (first : ℕ) (cs : List ℕ)
    → IsMounted fs d
    → IsChain fs d first cs
    → length cs < fuel
    → ((free_chain fuel fs first d).0 ≡ ok tt) × Freed fs cs d (free_chain fuel fs first d).1
unfolding free_chain
free_chain-Freed zero fs d first cs m h enough = absurd (omega arith)
free_chain-Freed (suc fuel) fs d first [] m h enough =
    let stops : (leb 2 first && ltb first eoc) ≡ false = ground arith in
    rw stops (
      refl,
      record {
        mounted = m;
        entries = λ c inside. refl;
        elsewhere = λ l k. refl;
        same_writable = refl;
      },
    )
free_chain-Freed (suc fuel) fs d first (c ∷ cs) m h enough =
    let runs : (leb 2 c && ltb c eoc) ≡ true = ground (arith, m.few, h.1, h.2) in
    let (wrote, u) = write_fat_entry-Updated fs c 0 d m h.2 in
    let rest =
      free_chain-Freed fuel fs (write_fat_entry fs c 0 d).1 (fat_at fs d c) cs u.mounted
        (IsChain-Updated fs c 0 d _ _ cs u (IsChain-no-return fs d first c cs m h) h.3)
        (omega arith) in
    rw (h.0, runs, read_fat_entry-IsMounted fs d c m, wrote)
      (rest.0, Freed-cons fs c cs d _ _ u rest.1)
