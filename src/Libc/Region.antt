-- ===== src/Libc/Region.antt =====
-- The loop of `canboot_heap_init` over the gaps of one entry of the memory map
-- (rt/picolibc_port/syscalls.c).
use can_boot.Common.{
  ℕ, zero, suc, ◌+◌, ◌-◌, ◌≤◌, ◌<◌, ◌≡◌, refl, sym, ap, inl, inr, Option, none, some, List, [], ◌∷◌,
  arith, ltb, leb, ltb→lt, lt→ltb, leb→lt, Bool-cases, length, All,
}
use mathlib.Core.Path.{subst}
use can_boot.Libc.{Interval, Span, nearest, better, after_hit, scan_gaps}
use can_boot.Libc.Gaps.{
  Apart, Clear, Nearest, HasEnd, FromList, ahead_count, nearest-Nearest, nearest-FromList,
  ahead_count-HasEnd,
}

-- The search ends, with a span that has the property.
unfoldable pub Ends : (Span → Type 0) → Option Span → Type 0
Ends P r = (best : Span) × (r ≡ some best) × P best

Clear-Apart :
    (cursor bound : ℕ) (ivs : List Interval)
    → cursor < bound
    → All (Clear cursor bound) ivs
    → All (Apart cursor (cursor + (bound - cursor))) ivs
Clear-Apart cursor bound [] lt h = tt
Clear-Apart cursor bound (iv ∷ ivs) lt h = (
  elim h.0 [
    | inl past ↦ inl past
    | inr (inl later) ↦ inr (omega (arith, lt, later))
    | inr (inr no_gap) ↦ absurd (omega (arith, lt, no_gap))
  ],
  Clear-Apart cursor bound ivs lt h.1,
)

pub ahead_count-length : (c : ℕ) (ivs : List Interval) → ahead_count c ivs ≤ length ivs
unfolding ahead_count
ahead_count-length c [] = omega arith
ahead_count-length c (iv ∷ ivs) = ground (arith, ahead_count-length c ivs)

module _ (P : Span → Type 0) (excl : List Interval) (lo ee : ℕ)
    (safe : (base bound : ℕ)
      → lo ≤ base
      → base < bound
      → bound ≤ ee
      → All (Apart base (base + (bound - base))) excl
      → P (record { base = base; len = bound - base })) where
  better_lem :
      (cursor bound : ℕ) (best : Span)
      → lo ≤ cursor
      → bound ≤ ee
      → All (Clear cursor bound) excl
      → P best
      → P (better cursor bound best)
  unfolding better
  better_lem cursor bound best from upto clear h =
      elim (Bool-cases (ltb best.len (bound - cursor))) [
        | inl k ↦
            let lt = ltb→lt best.len (bound - cursor) k in
            let some_gap : cursor < bound = omega (arith, lt) in
            rw k
              (safe cursor bound from some_gap upto (Clear-Apart cursor bound excl some_gap clear))
        | inr k ↦ rw k h
      ]

  end_at : (cut c : Interval) → some cut ≡ some c → cut.e ≡ c.e
  end_at cut c same = ap (λ (o : Option Interval). elim o [ none ↦ 0 | some iv ↦ iv.e ]) same

  after_hit_lem :
      (cursor : ℕ) (best : Span) (r : Option Interval) (again : ℕ → Span → Option Span)
      → lo ≤ cursor
      → Nearest cursor ee none r excl
      → FromList excl none r
      → P best
      → ((cursor' : ℕ) (best' : Span)
          → lo ≤ cursor'
          → ahead_count cursor' excl < ahead_count cursor excl
          → P best'
          → Ends P (again cursor' best'))
      → Ends P (after_hit r cursor ee best again)
  unfolding Ends FromList
  after_hit_lem cursor best none again from n list h goes_on =
      (better cursor ee best, refl, better_lem cursor ee best from (omega arith) n.clear h)
  after_hit_lem cursor best (some cut) again from n (inl same) h goes_on = absurd (cc)
  after_hit_lem cursor best (some cut) again from n (inr (c, same, end)) h goes_on =
      let (at_least, (before, behind)) = n.is_cut in
      let ends = subst (λ (x : ℕ). HasEnd x excl) (sym (end_at cut c same)) end in
      rw (lt→ltb cursor cut.e behind) (
        goes_on cut.e (better cursor cut.s best) (omega (arith, from, behind))
          (ahead_count-HasEnd cursor cut.e excl behind ends)
          (better_lem cursor cut.s best from (omega (arith, before)) n.clear h))

  pub scan_gaps-Ends :
      (fuel cursor : ℕ) (best : Span)
      → lo ≤ cursor
      → ahead_count cursor excl < fuel
      → P best
      → Ends P (scan_gaps fuel excl ee cursor best)
  unfolding scan_gaps
  scan_gaps-Ends zero cursor best from enough h = absurd (omega arith)
  scan_gaps-Ends (suc fuel) cursor best from enough h = elim (Bool-cases (leb ee cursor)) [
    | inl k ↦ rw k (unfold Ends in (best, refl, h))
    | inr k ↦
        let inside = leb→lt ee cursor k in
        rw k (
          after_hit_lem cursor best (nearest excl cursor ee none) (scan_gaps fuel excl ee) from
            (nearest-Nearest excl cursor ee none inside tt) (nearest-FromList excl cursor ee none) h
            (λ cursor' best' from' fewer h'.
              scan_gaps-Ends fuel cursor' best' from' (omega (arith, fewer, enough)) h'))
  ]
