-- ===== src/Fat32/Table/Alloc.antt =====
-- `alloc_chain`: the clusters that it takes, the chain that it makes of them, and what is left where
-- there are too few.
use can_boot.Common.{
  ℕ, zero, suc, ◌+◌, ◌≤◌, ◌<◌, ◌≡◌, refl, sym, ap, ◌∙◌, ◌⊎◌, inl, inr, true, false, ◌||◌, List, [],
  ◌∷◌, arith, ℕ_discrete, ltb, ◌==◌, Bool-cases, length, get_or, All, contains,
}
use mathlib.Core.Path.{subst}
use can_boot.Disk.{Disk, Outcome, ok, err, fault, out_of_fuel, pure, resume, ◌>>=◌, ◌>>◌}
use can_boot.Fat32.{Volume, end_mark}
use can_boot.Fat32.Table.{write_fat_entry, reserve_clusters, link_clusters, alloc_chain, max_chain}
use can_boot.Fat32.Table.Layout.{IsMounted, InTable}
use can_boot.Fat32.Table.Entries.{fat_at, Updated, write_fat_entry-Updated}
use can_boot.Fat32.Table.Search.{FirstFree, find_free_cluster-FirstFree}
use can_boot.Fat32.Table.Chains.{IsChain}
use can_boot.Fat32.Table.Count.{free_clusters, count_free-none, count_free-take}

-- No number stands twice in the list.
abbrev pub Distinct : List ℕ → Type 0
Distinct [] = Unit
Distinct (x ∷ xs) = (contains x xs ≡ false) × Distinct xs

-- Clusters of the volume that are free on `d`.
abbrev pub AllFree : Volume → Disk → List ℕ → Type 0
AllFree fs d [] = Unit
AllFree fs d (c ∷ cs) = (2 ≤ c) × InTable fs c × (fat_at fs d c ≡ 0) × AllFree fs d cs

-- `d'` is `d` but for the entries of the clusters `cs`.
pub record Outside (fs : Volume) (cs : List ℕ) (d d' : Disk) : Type 0 where
  pub mounted : IsMounted fs d'
  pub entries : (c : ℕ) → InTable fs c → contains c cs ≡ false → fat_at fs d' c ≡ fat_at fs d c
  pub elsewhere : (l : ℕ) → fs.data_start_lba ≤ l → d'.blocks l ≡ d.blocks l
  pub same_writable : d'.writable ≡ d.writable

Outside-trans :
    (fs : Volume) (cs : List ℕ) (d d' d'' : Disk)
    → Outside fs cs d d'
    → Outside fs cs d' d''
    → Outside fs cs d d''
Outside-trans fs cs d d' d'' p q = record {
  mounted = q.mounted;
  entries = λ c inside out. q.entries c inside out ∙ p.entries c inside out;
  elsewhere = λ l h. q.elsewhere l h ∙ p.elsewhere l h;
  same_writable = q.same_writable ∙ p.same_writable;
}

Outside-Updated :
    (fs : Volume) (c value : ℕ) (cs : List ℕ) (d d' : Disk)
    → Updated fs c value d d'
    → contains c cs ≡ true
    → Outside fs cs d d'
Outside-Updated fs c value cs d d' u among = record {
  mounted = u.mounted;
  entries = λ c' inside out. elim (ℕ_discrete c' c) [
    | yes e ↦ cc (ap (λ (t : ℕ). contains t cs) e)
    | no ne ↦ ground (arith, u.entries c' inside)
  ];
  elsewhere = u.elsewhere;
  same_writable = u.same_writable;
}

-- More clusters may differ.
Outside-cons :
    (fs : Volume) (c : ℕ) (cs : List ℕ) (d d' : Disk)
    → Outside fs cs d d'
    → Outside fs (c ∷ cs) d d'
Outside-cons fs c cs d d' p = record {
  mounted = p.mounted;
  entries = λ c' inside out. p.entries c' inside (ground arith);
  elsewhere = p.elsewhere;
  same_writable = p.same_writable;
}

-- The first loop: clusters taken, or too few of them. A failure leaves no free cluster behind, for
-- what was reserved stays reserved.
abbrev Reserves : Volume → ℕ → Disk → Outcome (List ℕ) → Disk → Type 0
Reserves fs n d (ok cs) d' = (length cs ≡ n) × Distinct cs × AllFree fs d cs × Outside fs cs d d'
Reserves fs n d err d' = (free_clusters fs d < n) × (free_clusters fs d' ≡ 0) × IsMounted fs d'
Reserves fs n d fault d' = ⊥
Reserves fs n d out_of_fuel d' = ⊥

-- What was free after a cluster was taken is another cluster, and was free before.
AllFree-earlier :
    (fs : Volume) (c : ℕ) (d d' : Disk) (cs : List ℕ)
    → Updated fs c end_mark d d'
    → AllFree fs d' cs
    → (contains c cs ≡ false) × AllFree fs d cs
AllFree-earlier fs c d d' [] u h = (refl, tt)
AllFree-earlier fs c d d' (x ∷ xs) u (low, inside, free, rest) =
    let (out, before) = AllFree-earlier fs c d d' xs u rest in
    (ground (arith, u.entries x inside), (low, inside, ground (arith, u.entries x inside), before))

Reserves-cons :
    (fs : Volume) (n c : ℕ) (d d' d'' : Disk) (r : Outcome (List ℕ))
    → Updated fs c end_mark d d'
    → 2 ≤ c
    → InTable fs c
    → fat_at fs d c ≡ 0
    → Reserves fs n d' r d''
    → let p = resume r (λ rest. pure (c ∷ rest)) d'' in Reserves fs (suc n) d p.0 p.1
Reserves-cons fs n c d d' d'' (ok cs) u low inside free (len, distinct, all_free, out) =
    let (fresh, before) = AllFree-earlier fs c d d' cs u all_free in
    (
      ap suc len,
      (fresh, distinct),
      (low, inside, free, before),
      Outside-trans fs (c ∷ cs) d d' d''
          (Outside-Updated fs c end_mark (c ∷ cs) d d' u (ground arith))
          (Outside-cons fs c cs d' d'' out),
    )
Reserves-cons fs n c d d' d'' err u low inside free (short, used_up, mounted) = (
  omega (
    arith,
    count_free-take fs c end_mark d d' u fs.total_clusters (omega arith) low inside free
        (omega arith),
  ),
  used_up,
  mounted,
)
Reserves-cons fs n c d d' d'' fault u low inside free h = h
Reserves-cons fs n c d d' d'' out_of_fuel u low inside free h = h

-- One round of the loop, by the outcome of its search.
reserve_round :
    (fs : Volume) (n : ℕ) (d : Disk) (r : Outcome ℕ)
    → IsMounted fs d
    → ((d' : Disk)
        → IsMounted fs d'
        → Reserves fs n d' (reserve_clusters fs n d').0 (reserve_clusters fs n d').1)
    → FirstFree fs d 2 (fs.total_clusters + 2) r
    → let p =
        resume r
          (λ c.
            write_fat_entry fs c end_mark >> (reserve_clusters fs n >>= λ rest. pure (c ∷ rest)))
          d in
      Reserves fs (suc n) d p.0 p.1
reserve_round fs n d (ok c) m later (low, high, free, lowest) =
    let (wrote, u) = write_fat_entry-Updated fs c end_mark d m high in
    rw wrote (Reserves-cons fs n c d _ _ _ u low high free (later _ u.mounted))
reserve_round fs n d err m later none_there =
    let none_free = count_free-none fs d fs.total_clusters none_there in
    (omega (arith, none_free), none_free, m)
reserve_round fs n d fault m later h = h
reserve_round fs n d out_of_fuel m later h = h

reserve_clusters-Reserves :
    (fs : Volume) (n : ℕ) (d : Disk)
    → IsMounted fs d
    → Reserves fs n d (reserve_clusters fs n d).0 (reserve_clusters fs n d).1
unfolding reserve_clusters
reserve_clusters-Reserves fs zero d m = (
  refl,
  tt,
  tt,
  record {
    mounted = m;
    entries = λ c inside out. refl;
    elsewhere = λ l h. refl;
    same_writable = refl;
  },
)
reserve_clusters-Reserves fs (suc n) d m =
    let (same, found) = find_free_cluster-FirstFree fs d m in
    rw same (reserve_round fs n d _ m (λ d' m'. reserve_clusters-Reserves fs n d' m') found)

-- Clusters with an entry in the table.
AllInTable : Volume → List ℕ → Type 0
AllInTable fs cs = All (λ c. (2 ≤ c) × InTable fs c) cs

link_clusters_last :
    (fs : Volume) (c : ℕ) (d : Disk) → link_clusters fs (c ∷ []) d ≡ write_fat_entry fs c end_mark d
unfolding link_clusters
link_clusters_last fs c d = refl

link_clusters_more :
    (fs : Volume) (c next : ℕ) (rest : List ℕ) (d : Disk)
    → (write_fat_entry fs c next d).0 ≡ ok tt
    → link_clusters fs (c ∷ next ∷ rest) d
      ≡ link_clusters fs (next ∷ rest) (write_fat_entry fs c next d).1
unfolding link_clusters
link_clusters_more fs c next rest d wrote =
    ap
      (λ (r : Outcome Unit).
        resume r (λ _. link_clusters fs (next ∷ rest)) (write_fat_entry fs c next d).1)
      wrote

-- What the second loop leaves: the clusters are a chain, in their order.
abbrev Links : Volume → ℕ → List ℕ → Disk → Outcome (Unit {0}) × Disk → Type 0
Links fs c cs d p = (p.0 ≡ ok tt) × IsChain fs p.1 c (c ∷ cs) × Outside fs (c ∷ cs) d p.1

link_clusters-Links :
    (fs : Volume) (c : ℕ) (cs : List ℕ) (d : Disk)
    → IsMounted fs d
    → AllInTable fs (c ∷ cs)
    → Distinct (c ∷ cs)
    → Links fs c cs d (link_clusters fs (c ∷ cs) d)
unfolding AllInTable
link_clusters-Links fs c [] d m ((low, inside), _) distinct =
    let (wrote, u) = write_fat_entry-Updated fs c end_mark d m inside in
    subst (λ p. Links fs c [] d p) (sym (link_clusters_last fs c d))
      (
        wrote,
        (refl, low, inside, inr (ground (arith, u.entries c inside))),
        Outside-Updated fs c end_mark (c ∷ []) d _ u (ground arith),
      )
link_clusters-Links fs c (next ∷ rest) d m ((low, inside), others) (fresh, distinct) =
    let (wrote, u) = write_fat_entry-Updated fs c next d m inside in
    let (linked, chain, out) =
      link_clusters-Links fs next rest (write_fat_entry fs c next d).1 u.mounted others distinct in
    let last = (link_clusters fs (next ∷ rest) (write_fat_entry fs c next d).1).1 in
    let points : fat_at fs last c ≡ next =
      out.entries c inside fresh ∙ ground (arith, u.entries c inside, others.0.1, m.few) in
    subst (λ p. Links fs c (next ∷ rest) d p) (sym (link_clusters_more fs c next rest d wrote))
      (
        linked,
        (refl, low, inside, (points, chain.1, chain.2, chain.3)),
        Outside-trans fs (c ∷ next ∷ rest) d _ _
            (Outside-Updated fs c next (c ∷ next ∷ rest) d _ u (ground arith))
            (Outside-cons fs c (next ∷ rest) _ _ out),
      )

AllFree-AllInTable : (fs : Volume) (d : Disk) (cs : List ℕ) → AllFree fs d cs → AllInTable fs cs
unfolding AllInTable
AllFree-AllInTable fs d [] h = tt
AllFree-AllInTable fs d (c ∷ cs) (low, inside, free, rest) =
    ((low, inside), AllFree-AllInTable fs d cs rest)

-- The numbers of clusters that `alloc_chain` serves: at least one, and no more than its array holds.
abbrev pub IsServed : ℕ → Type 0
IsServed n = (0 < n) × (n ≤ 256)

-- What `alloc_chain` for `n` clusters does to a mounted volume.
abbrev pub Allocates : Volume → ℕ → Disk → Outcome (List ℕ) → Disk → Type 0
Allocates fs n d (ok cs) d' =
    (length cs ≡ n)
    × Distinct cs
    × AllFree fs d cs
    × IsChain fs d' (get_or cs 0 0) cs
    × Outside fs cs d d'
    × IsServed n
Allocates fs n d err d' =
    ((n ≡ 0) ⊎ (256 < n)) × (d' ≡ d)
    ⊎ (IsServed n × (free_clusters fs d < n) × (free_clusters fs d' ≡ 0))
Allocates fs n d fault d' = ⊥
Allocates fs n d out_of_fuel d' = ⊥

-- From the first loop's outcome to the whole.
link_reserved :
    (fs : Volume) (n : ℕ) (d d' : Disk) (r : Outcome (List ℕ))
    → IsServed n
    → Reserves fs n d r d'
    → let p = resume r (λ chain. link_clusters fs chain >> pure chain) d' in
      Allocates fs n d p.0 p.1
link_reserved fs n d d' (ok []) served h =
    let none_wanted : 0 ≡ n = h.0 in absurd (omega (arith, none_wanted, served.0))
link_reserved fs n d d' (ok (c ∷ cs)) served (len, distinct, all_free, out) =
    let (linked, chain, out') =
      link_clusters-Links fs c cs d' out.mounted (AllFree-AllInTable fs d (c ∷ cs) all_free)
        distinct in
    rw linked (len, distinct, all_free, chain, Outside-trans fs (c ∷ cs) d d' _ out out', served)
link_reserved fs n d d' err served (short, used_up, mounted) = inr (served, short, used_up)
link_reserved fs n d d' fault served h = h
link_reserved fs n d d' out_of_fuel served h = h

-- On a mounted volume `alloc_chain` either returns exactly `n` different clusters that were free,
-- linked in that order into a chain, with every other entry and every block behind the tables as it
-- was; or it fails. It always fails where `n` is 0 or above 256, and then changes nothing;
-- otherwise it fails only where fewer than `n` clusters are free, and then no cluster is free
-- afterwards.
pub alloc_chain-Allocates :
    (fs : Volume) (n : ℕ) (d : Disk)
    → IsMounted fs d
    → Allocates fs n d (alloc_chain fs n d).0 (alloc_chain fs n d).1
unfolding alloc_chain
alloc_chain-Allocates fs n d m = elim (Bool-cases (n == 0 || ltb max_chain n)) [
  | inl refused ↦ rw refused (inl (ground arith, refl))
  | inr allowed ↦
      rw allowed (link_reserved fs n d _ _ (ground arith) (reserve_clusters-Reserves fs n d m))
]
