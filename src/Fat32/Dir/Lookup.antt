-- ===== src/Fat32/Dir/Lookup.antt =====
-- `dir_find` against a directory seen as one list of entries.
use can_boot.Common.{
  ℕ, zero, suc, ◌+◌, ◌≤◌, ◌<◌, ◌≡◌, refl, ◌∙◌, inl, inr, true, false, Option, none, some, List, [],
  ◌∷◌, ◌++◌, arith, ◌==◌, if◌then◌else◌, Bool-cases, length, same_bytes, contains, ◌||◌, ◌%◌, ◌/◌,
  Bool, get_or, sym,
}
use can_boot.Disk.{Disk, Outcome, ok, Io, pure, ◌>>=◌}
use can_boot.Fat32.{Volume}
use can_boot.Fat32.Table.{read_fat_entry}
use can_boot.Fat32.Table.Layout.{IsMounted, InTable}
use can_boot.Fat32.Table.Entries.{fat_at, read_fat_entry-IsMounted}
use can_boot.Fat32.Table.Chains.{IsChain}
use can_boot.Fat32.Table.Clusters.{HasClusters, cluster_at, read_cluster-IsMounted}
use can_boot.Fat32.Entry.{Entry, slot, first_byte, entry_name}
use can_boot.Fat32.Dir.{
  fits_buffer, slots, in_chain, Scan, hit, stop, more, is_skipped, scan_name, Found, found_in,
  find_from, dir_find,
}

-- The entries of one cluster, and of a directory's clusters in order.
unfoldable pub entries_of : List ℕ → ℕ → ℕ → List Entry
entries_of buf i zero = []
entries_of buf i (suc n) = slot buf i ∷ entries_of buf (i + 1) n

unfoldable pub dir_entries : Volume → Disk → List ℕ → List Entry
dir_entries fs d [] = []
dir_entries fs d (c ∷ cs) = entries_of (cluster_at fs d c) 0 (slots fs) ++ dir_entries fs d cs

-- An entry that names nothing: deleted (its first byte is 0xE5), a part of a long name (its
-- attribute byte is 0x0F), or a volume label (bit 3 of the attribute byte is set).
unfoldable pub names_nothing : Entry → Bool
names_nothing e = (get_or e 0 0 == 0xE5) || (get_or e 11 0 == 0x0F) || (get_or e 11 0 % 16 / 8 == 1)

is_skipped-names_nothing : (e : Entry) → is_skipped e ≡ names_nothing e
unfolding names_nothing
is_skipped-names_nothing e =
    let bit : get_or e 11 0 / 8 % 2 ≡ get_or e 11 0 % 16 / 8 = omega arith in rw bit refl

-- The first entry of that name before the end marker, among those that name something.
unfoldable pub lookup_name : List ℕ → List Entry → Option Entry
lookup_name target [] = none
lookup_name target (e ∷ es) =
    if first_byte e == 0
    then none
    else (if names_nothing e
        then lookup_name target es
        else (if same_bytes (entry_name e) target then some e else lookup_name target es))

-- What a scan of `n` entries says about the list that they begin.
abbrev ScanSays : List ℕ → List ℕ → ℕ → ℕ → List Entry → Scan → Type 0
ScanSays target buf i n rest (hit j) =
    (j < i + n) × (lookup_name target (entries_of buf i n ++ rest) ≡ some (slot buf j))
ScanSays target buf i n rest stop = lookup_name target (entries_of buf i n ++ rest) ≡ none
ScanSays target buf i n rest more =
    lookup_name target (entries_of buf i n ++ rest) ≡ lookup_name target rest

-- One entry more in front, which the scan passes over.
ScanSays-suc :
    (target buf : List ℕ) (i n : ℕ) (rest : List Entry) (r : Scan)
    → lookup_name target (entries_of buf i (suc n) ++ rest)
      ≡ lookup_name target (entries_of buf (i + 1) n ++ rest)
    → ScanSays target buf (i + 1) n rest r
    → ScanSays target buf i (suc n) rest r
ScanSays-suc target buf i n rest (hit j) same (below, h) = (omega arith, same ∙ h)
ScanSays-suc target buf i n rest stop same h = same ∙ h
ScanSays-suc target buf i n rest more same h = same ∙ h

scan_name-ScanSays :
    (target buf : List ℕ) (i n : ℕ) (rest : List Entry)
    → ScanSays target buf i n rest (scan_name is_skipped target buf i n)
unfolding scan_name entries_of lookup_name
scan_name-ScanSays target buf i zero rest = refl
scan_name-ScanSays target buf i (suc n) rest =
    let e = slot buf i in
    let later = scan_name-ScanSays target buf (i + 1) n rest in
    elim (Bool-cases (first_byte e == 0)) [
      | inl at_end ↦ rw at_end (rw at_end)
      | inr used ↦ elim (Bool-cases (is_skipped e)) [
        | inl skipped ↦
            let nothing = sym (is_skipped-names_nothing e) ∙ skipped in
            rw (used, skipped) (ScanSays-suc target buf i n rest _ (rw (used, nothing)) later)
        | inr live ↦
            let something = sym (is_skipped-names_nothing e) ∙ live in
            elim (Bool-cases (same_bytes (entry_name e) target)) [
              | inl found ↦ rw (used, live, found) (omega arith, rw (used, something, found))
              | inr other ↦
                  rw (used, live, other)
                    (ScanSays-suc target buf i n rest _ (rw (used, something, other)) later)
            ]
      ]
    ]

-- What `dir_find` reports: the entry that the lookup gives, and where it stands.
abbrev pub Reports : Volume → Disk → List ℕ → Option Entry → Option Found → Type 0
Reports fs d cs expected none = expected ≡ none
Reports fs d cs expected (some f) =
    (expected ≡ some f.entry)
    × (contains f.cluster cs ≡ true)
    × (f.index < slots fs)
    × (slot (cluster_at fs d f.cluster) f.index ≡ f.entry)

-- A report about the clusters behind the first one.
Reports-behind :
    (fs : Volume) (d : Disk) (c : ℕ) (cs : List ℕ) (whole behind : Option Entry) (r : Option Found)
    → whole ≡ behind
    → Reports fs d cs behind r
    → Reports fs d (c ∷ cs) whole r
Reports-behind fs d c cs whole behind none same h = same ∙ h
Reports-behind fs d c cs whole behind (some f) same (found, among, below, there) =
    (same ∙ found, ground arith, below, there)

-- A walk's result: it ends, leaves the disk alone, and reports.
abbrev FindsIn : Volume → Disk → List ℕ → Option Entry → Outcome (Option Found) × Disk → Type 0
FindsIn fs d cs expected p = (r : Option Found) × (p ≡ (ok r, d)) × Reports fs d cs expected r

-- One cluster's round, by the outcome of its scan.
find_round :
    (fs : Volume) (d : Disk) (target : List ℕ) (c : ℕ) (cs : List ℕ) (s : Scan)
    (onward : Io (Option Found))
    → ScanSays target (cluster_at fs d c) 0 (slots fs) (dir_entries fs d cs) s
    → FindsIn fs d cs (lookup_name target (dir_entries fs d cs)) (onward d)
    → FindsIn fs d (c ∷ cs) (lookup_name target (dir_entries fs d (c ∷ cs))) (
        (elim s as (λ _. Io (Option Found)) [
          | hit i ↦ pure (some (found_in (cluster_at fs d c) c i))
          | stop ↦ pure none
          | more ↦ onward
        ])
          d)
unfolding dir_entries
find_round fs d target c cs (hit i) onward (below, found) rest =
    (some (found_in (cluster_at fs d c) c i), refl, (found, ground arith, omega arith, refl))
find_round fs d target c cs stop onward h rest = (none, refl, h)
find_round fs d target c cs more onward h (r, done, says) =
    (r, done, Reports-behind fs d c cs _ _ r h says)

find_from-end :
    (fuel : ℕ) (fs : Volume) (d : Disk) (target : List ℕ) (first : ℕ)
    → in_chain first ≡ false
    → FindsIn fs d []
        (lookup_name target (dir_entries fs d []))
        (find_from (suc fuel) fs target first d)
unfolding find_from lookup_name dir_entries
find_from-end fuel fs d target first stops = rw stops (none, refl, refl)

find_from-link :
    (fuel : ℕ) (fs : Volume) (d : Disk) (target : List ℕ) (c : ℕ) (cs : List ℕ)
    → IsMounted fs d
    → HasClusters fs
    → 2 ≤ c
    → InTable fs c
    → FindsIn fs d cs
        (lookup_name target (dir_entries fs d cs))
        (find_from fuel fs target (fat_at fs d c) d)
    → FindsIn fs d
        (c ∷ cs)
        (lookup_name target (dir_entries fs d (c ∷ cs)))
        (find_from (suc fuel) fs target c d)
unfolding find_from
find_from-link fuel fs d target c cs m g low inside rest =
    let runs : in_chain c ≡ true = ground (arith, m.few) in
    rw (runs, read_cluster-IsMounted fs d m g c (low, inside))
      (find_round fs d target c cs (scan_name is_skipped target (cluster_at fs d c) 0 (slots fs))
        (read_fat_entry fs c >>= λ next. find_from fuel fs target next)
        (scan_name-ScanSays target (cluster_at fs d c) 0 (slots fs) (dir_entries fs d cs))
        (rw (read_fat_entry-IsMounted fs d c m) rest))

find_from-FindsIn :
    (fuel : ℕ) (fs : Volume) (d : Disk) (target : List ℕ) (first : ℕ) (cs : List ℕ)
    → IsMounted fs d
    → HasClusters fs
    → IsChain fs d first cs
    → length cs < fuel
    → FindsIn fs d cs (lookup_name target (dir_entries fs d cs)) (find_from fuel fs target first d)
find_from-FindsIn zero fs d target first cs m g chain enough = absurd (omega arith)
find_from-FindsIn (suc fuel) fs d target first [] m g chain enough =
    find_from-end fuel fs d target first (ground arith)
find_from-FindsIn (suc fuel) fs d target first (c ∷ cs) m g (at_c, low, inside, rest) enough =
    rw at_c (
      find_from-link fuel fs d target c cs m g low inside
        (find_from-FindsIn fuel fs d target (fat_at fs d c) cs m g rest (omega arith)))

-- On a mounted volume whose clusters have at most 8192 bytes, `dir_find` in a directory whose clusters
-- form a chain ends, with one round more than there are clusters, and leaves the disk alone. It
-- reports the first entry of the name among the directory's entries before the end marker, leaving
-- out deleted entries, parts of long names and volume labels, with the cluster and index where that
-- entry stands; and it reports that there is none exactly where there is none. On larger clusters,
-- which are not covered, it fails.
pub dir_find-FindsIn :
    (fuel : ℕ) (fs : Volume) (d : Disk) (target : List ℕ) (first : ℕ) (cs : List ℕ)
    → IsMounted fs d
    → HasClusters fs
    → fits_buffer fs ≡ true
    → IsChain fs d first cs
    → length cs < fuel
    → (r : Option Found) × (dir_find fuel fs first target d ≡ (ok r, d))
      × Reports fs d cs (lookup_name target (dir_entries fs d cs)) r
unfolding dir_find
dir_find-FindsIn fuel fs d target first cs m g fits chain enough =
    rw fits (find_from-FindsIn fuel fs d target first cs m g chain enough)
