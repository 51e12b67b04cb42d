-- ===== src/Libc/Gaps.antt =====
-- The gaps between intervals that the loop of `canboot_heap_init` goes through
-- (rt/picolibc_port/syscalls.c).
use can_boot.Common.{
  ℕ, suc, ◌≤◌, ◌<◌, ◌≡◌, refl, ◌∙◌, ◌⊎◌, inl, inr, true, false, Option, none, some, List, [], ◌∷◌,
  arith, dec_le, ltb, if◌then◌else◌, ltb→lt, lt→ltb, le→ltb, ltb→le, le→leb, lt→leb, Bool-cases,
  All,
}
use Prim.{yes, no, ⊥}
use can_boot.Libc.{Interval, is_ahead, cut_from, closer, nearest}

-- The interval has nothing in common with the addresses from `lo` to below `hi`.
abbrev pub Apart : ℕ → ℕ → Interval → Type 0
Apart lo hi iv = (iv.e ≤ lo) ⊎ (hi ≤ iv.s)

-- The end of the gap that a cut leaves.
abbrev pub bound_of : ℕ → Option Interval → ℕ
bound_of ee none = ee
bound_of ee (some cut) = cut.s

-- The interval does not reach between `cursor` and `bound`.
abbrev pub Clear : ℕ → ℕ → Interval → Type 0
Clear cursor bound iv = (iv.e ≤ cursor) ⊎ ((bound ≤ iv.s) ⊎ (bound ≤ cursor))

Clear-less : (cursor b b' : ℕ) (iv : Interval) → b' ≤ b → Clear cursor b iv → Clear cursor b' iv
Clear-less cursor b b' iv le (inl h) = inl h
Clear-less cursor b b' iv le (inr (inl h)) = inr (inl (omega arith))
Clear-less cursor b b' iv le (inr (inr h)) = inr (inr (omega arith))

-- A cut lies between `cursor` and `ee` and ends behind `cursor`.
abbrev pub IsCut : ℕ → ℕ → Option Interval → Type 0
IsCut cursor ee none = Unit {0}
IsCut cursor ee (some cut) = (cursor ≤ cut.s) × ((cut.s < ee) × (cursor < cut.e))

abbrev next_cut : ℕ → ℕ → Option Interval → Interval → Option Interval
next_cut cursor ee cut iv = if is_ahead cursor ee iv then closer cut (cut_from cursor iv) else cut

bound_of-le : (cursor ee : ℕ) (cut : Option Interval) → IsCut cursor ee cut → bound_of ee cut ≤ ee
bound_of-le cursor ee none h = omega arith
bound_of-le cursor ee (some cut) h = omega (arith, h)

is_ahead-cases :
    (cursor ee : ℕ) (iv : Interval)
    → ((is_ahead cursor ee iv ≡ true) × (cursor < iv.e) × (iv.s < ee))
      ⊎ ((is_ahead cursor ee iv ≡ false) × ((iv.e ≤ cursor) ⊎ (ee ≤ iv.s)))
is_ahead-cases cursor ee iv = elim (dec_le iv.e cursor) [
  | yes h ↦ inr (rw (le→leb iv.e cursor h) refl, inl h)
  | no h ↦ elim (dec_le ee iv.s) [
    | yes k ↦ inr (rw (lt→leb iv.e cursor (omega (arith, h)), le→leb ee iv.s k) refl, inr k)
    | no k ↦ inl (
      rw (lt→leb iv.e cursor (omega (arith, h)), lt→leb ee iv.s (omega (arith, k))) refl,
      omega (arith, h),
      omega (arith, k),
    )
  ]
]

-- What cutting at `cursor` gives of an interval ahead.
cut_from_lem :
    (cursor ee : ℕ) (iv : Interval)
    → cursor < iv.e
    → iv.s < ee
    → cursor < ee
    → IsCut cursor ee (some (cut_from cursor iv))
      × (((cut_from cursor iv).s ≤ iv.s) ⊎ ((cut_from cursor iv).s ≤ cursor))
cut_from_lem cursor ee iv he hs inside = elim (Bool-cases (ltb iv.s cursor)) [
  | inl h ↦ rw h ((omega arith, (omega (arith, inside), he)), inr (omega arith))
  | inr h ↦
      let le = ltb→le iv.s cursor h in
      rw h ((omega (arith, le), (omega (arith, hs), he)), inl (omega arith))
]

-- The nearer of two cuts.
closer_lem :
    (cursor ee : ℕ) (cut : Option Interval) (c : Interval)
    → IsCut cursor ee cut
    → IsCut cursor ee (some c)
    → IsCut cursor ee (closer cut c)
      × (bound_of ee (closer cut c) ≤ bound_of ee cut)
      × (bound_of ee (closer cut c) ≤ c.s)
closer_lem cursor ee none c hc h = (h, omega (arith, h), omega arith)
closer_lem cursor ee (some cut) c hc h = elim (Bool-cases (ltb c.s cut.s)) [
  | inl k ↦ let lt = ltb→lt c.s cut.s k in rw k (h, omega (arith, lt), omega arith)
  | inr k ↦ let le = ltb→le c.s cut.s k in rw k (hc, omega arith, omega (arith, le))
]

pub record Nearest (cursor ee : ℕ) (cut r : Option Interval) (ivs : List Interval) : Type 0 where
  pub is_cut : IsCut cursor ee r
  pub less : bound_of ee r ≤ bound_of ee cut
  pub clear : All (Clear cursor (bound_of ee r)) ivs

next_cut_lem :
    (cursor ee : ℕ) (cut : Option Interval) (iv : Interval)
    → cursor < ee
    → IsCut cursor ee cut
    → IsCut cursor ee (next_cut cursor ee cut iv)
      × (bound_of ee (next_cut cursor ee cut iv) ≤ bound_of ee cut)
      × Clear cursor (bound_of ee (next_cut cursor ee cut iv)) iv
next_cut_lem cursor ee cut iv inside hc = elim (is_ahead-cases cursor ee iv) [
  | inl (ahead, he, hs) ↦
      let (is_cut, at_start) = cut_from_lem cursor ee iv he hs inside in
      let (kept, less, no_later) = closer_lem cursor ee cut (cut_from cursor iv) hc is_cut in
      rw ahead (
        kept,
        less,
        inr (elim at_start [
          | inl before ↦ inl (omega (arith, no_later, before))
          | inr here ↦ inr (omega (arith, no_later, here))
        ]),
      )
  | inr (not_ahead, away) ↦
      let bounded = bound_of-le cursor ee cut hc in
      rw not_ahead (
        hc,
        omega arith,
        elim away [ inl past ↦ inl past | inr later ↦ inr (inl (omega (arith, bounded, later))) ],
      )
]

pub nearest-Nearest :
    (ivs : List Interval) (cursor ee : ℕ) (cut : Option Interval)
    → cursor < ee
    → IsCut cursor ee cut
    → Nearest cursor ee cut (nearest ivs cursor ee cut) ivs
unfolding nearest
nearest-Nearest [] cursor ee cut inside hc = record { is_cut = hc; less = omega arith; clear = tt }
nearest-Nearest (iv ∷ ivs) cursor ee cut inside hc =
    let (hc', less, clear) = next_cut_lem cursor ee cut iv inside hc in
    let n = nearest-Nearest ivs cursor ee (next_cut cursor ee cut iv) inside hc' in
    record {
      is_cut = n.is_cut;
      less = omega (arith, n.less, less);
      clear = (Clear-less cursor _ _ iv n.less clear, n.clear);
    }

-- Some interval ends at `x`.
unfoldable pub HasEnd : ℕ → List Interval → Type 0
HasEnd x [] = ⊥
HasEnd x (iv ∷ ivs) = (iv.e ≡ x) ⊎ HasEnd x ivs

-- The result is the cut that was there, or the end of an interval.
unfoldable pub FromList : List Interval → Option Interval → Option Interval → Type 0
FromList ivs cut r = (r ≡ cut) ⊎ ((c : Interval) × (r ≡ some c) × HasEnd c.e ivs)

next_cut-FromList :
    (cursor ee : ℕ) (cut : Option Interval) (iv : Interval) (ivs : List Interval)
    → FromList (iv ∷ ivs) cut (next_cut cursor ee cut iv)
unfolding FromList HasEnd
next_cut-FromList cursor ee none iv ivs = elim (Bool-cases (is_ahead cursor ee iv)) [
  | inl h ↦ rw h (inr (cut_from cursor iv, refl, inl refl))
  | inr h ↦ rw h (inl refl)
]
next_cut-FromList cursor ee (some cut) iv ivs = elim (Bool-cases (is_ahead cursor ee iv)) [
  | inl h ↦ rw h (elim (Bool-cases (ltb (cut_from cursor iv).s cut.s)) [
    | inl k ↦ rw k (inr (cut_from cursor iv, refl, inl refl))
    | inr k ↦ rw k (inl refl)
  ])
  | inr h ↦ rw h (inl refl)
]

pub nearest-FromList :
    (ivs : List Interval) (cursor ee : ℕ) (cut : Option Interval)
    → FromList ivs cut (nearest ivs cursor ee cut)
unfolding nearest FromList HasEnd
nearest-FromList [] cursor ee cut = inl refl
nearest-FromList (iv ∷ ivs) cursor ee cut =
    elim (nearest-FromList ivs cursor ee (next_cut cursor ee cut iv)) [
      | inr (c, is_c, end) ↦ inr (c, is_c, inr end)
      | inl same ↦ elim (next_cut-FromList cursor ee cut iv ivs) [
        | inl kept ↦ inl (same ∙ kept)
        | inr (c, is_c, end) ↦ inr (c, same ∙ is_c, end)
      ]
    ]

-- How many intervals end behind `cursor`.
unfoldable pub ahead_count : ℕ → List Interval → ℕ
ahead_count cursor [] = 0
ahead_count cursor (iv ∷ ivs) =
    let rest = ahead_count cursor ivs in if ltb cursor iv.e then suc rest else rest

ahead_count-le : (c c' : ℕ) (ivs : List Interval) → c ≤ c' → ahead_count c' ivs ≤ ahead_count c ivs
unfolding ahead_count
ahead_count-le c c' [] le = omega arith
ahead_count-le c c' (iv ∷ ivs) le = ground (arith, ahead_count-le c c' ivs le)

-- Going on to an end behind leaves fewer.
pub ahead_count-HasEnd :
    (c x : ℕ) (ivs : List Interval) → c < x → HasEnd x ivs → ahead_count x ivs < ahead_count c ivs
unfolding ahead_count HasEnd
ahead_count-HasEnd c x [] lt e = elim e [ ]
ahead_count-HasEnd c x (iv ∷ ivs) lt (inl at) =
    let more = ahead_count-le c x ivs (omega arith) in
    rw (at, le→ltb x x (omega arith), lt→ltb c x lt) (omega (arith, more))
ahead_count-HasEnd c x (iv ∷ ivs) lt (inr later) =
    let more = ahead_count-HasEnd c x ivs lt later in ground (arith, more)
