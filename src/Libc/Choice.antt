-- ===== src/Libc/Choice.antt =====
-- Which memory `canboot_heap_init` of rt/picolibc_port/syscalls.c takes for the heap.
use can_boot.Common.{
  ℕ, ◌+◌, ◌-◌, ◌%◌, ◌^◌, ◌≤◌, ◌<◌, ◌≡◌, refl, sym, ◌⊎◌, inl, inr, true, false, Option, some, List,
  [], ◌∷◌, arith, ltb, leb, ltb→lt, le→ltb, leb→le, Bool-cases, u64, length, take, All,
}
use Prim.{⊥}
use mathlib.Core.Path.{subst}
use can_boot.Libc.{
  Interval, MmapEntry, BootInfo, Span, Heap, end_of, scan_map, page, page_aligned, available,
  min_heap, take_span, no_span, heap_init, excluded,
}
use can_boot.Libc.Gaps.{Apart}
use can_boot.Libc.Protected.{Among, All-Among, Protected, excluded-Protected}
use can_boot.Libc.Region.{Ends, ahead_count-length, scan_gaps-Ends}

-- The span lies in a usable entry and below the ceiling.
unfoldable pub InSome : ℕ → List MmapEntry → ℕ → ℕ → Type 0
InSome ceiling [] lo hi = ⊥
InSome ceiling (m ∷ ms) lo hi =
    ((m.is_usable ≡ true) × ((m.base ≤ lo) × (hi ≤ end_of ceiling m))) ⊎ InSome ceiling ms lo hi

-- Nothing, or memory that is usable and not excluded.
IsSafe : ℕ → List Interval → List MmapEntry → Span → Type 0
IsSafe ceiling excl ms best =
    (best.len ≡ 0)
    ⊎ (All (Apart best.base (best.base + best.len)) excl
        × InSome ceiling ms best.base (best.base + best.len))

scan_map-Ends :
    (ceiling : ℕ) (excl : List Interval) (all ms : List MmapEntry) (best : Span)
    → ((lo hi : ℕ) → InSome ceiling ms lo hi → InSome ceiling all lo hi)
    → IsSafe ceiling excl all best
    → Ends (IsSafe ceiling excl all) (scan_map ceiling excl ms best)
unfolding scan_map Ends
scan_map-Ends ceiling excl all [] best part h = (best, refl, h)
scan_map-Ends ceiling excl all (m ∷ ms) best part h =
    let later = λ (lo hi : ℕ) (i : InSome ceiling ms lo hi). part lo hi (unfold InSome in inr i) in
    elim (Bool-cases m.is_usable) [
      | inr off ↦ rw off (scan_map-Ends ceiling excl all ms best later h)
      | inl on ↦ elim (Bool-cases (leb ceiling m.base)) [
        | inl above ↦ rw (on, above) (scan_map-Ends ceiling excl all ms best later h)
        | inr below ↦
            let (best', found, h') =
              scan_gaps-Ends (IsSafe ceiling excl all) excl m.base (end_of ceiling m)
                (λ base bound from some_gap upto apart.
                  unfold IsSafe in
                  inr (
                    apart,
                    part base (base + (bound - base))
                        (unfold InSome in inl (on, (from, omega (arith, some_gap, upto)))),
                  ))
                (length excl + 2) m.base best (omega arith)
                (omega (arith, ahead_count-length m.base excl)) h in
            rw (on, below, found) (scan_map-Ends ceiling excl all ms best' later h')
      ]
    ]

end_of-le : (ceiling : ℕ) (m : MmapEntry) → end_of ceiling m ≤ ceiling
end_of-le ceiling m = ground arith

InSome-below :
    (ceiling : ℕ) (ms : List MmapEntry) (lo hi : ℕ) → InSome ceiling ms lo hi → hi ≤ ceiling
unfolding InSome
InSome-below ceiling [] lo hi e = elim e [ ]
InSome-below ceiling (m ∷ ms) lo hi (inl h) = omega (arith, h.1.1, end_of-le ceiling m)
InSome-below ceiling (m ∷ ms) lo hi (inr h) = InSome-below ceiling ms lo hi h

InSome-part :
    (ceiling : ℕ) (ms : List MmapEntry) (lo hi lo' hi' : ℕ)
    → lo ≤ lo'
    → hi' ≤ hi
    → InSome ceiling ms lo hi
    → InSome ceiling ms lo' hi'
unfolding InSome
InSome-part ceiling [] lo hi lo' hi' hl hh e = elim e [ ]
InSome-part ceiling (m ∷ ms) lo hi lo' hi' hl hh (inl h) =
    inl (h.0, (omega (arith, h.1.0), omega (arith, h.1.1)))
InSome-part ceiling (m ∷ ms) lo hi lo' hi' hl hh (inr h) =
    inr (InSome-part ceiling ms lo hi lo' hi' hl hh h)

Apart-part :
    (ivs : List Interval) (lo hi lo' hi' : ℕ)
    → lo ≤ lo'
    → hi' ≤ hi
    → All (Apart lo hi) ivs
    → All (Apart lo' hi') ivs
Apart-part [] lo hi lo' hi' hl hh h = tt
Apart-part (iv ∷ ivs) lo hi lo' hi' hl hh h = (
  elim h.0 [ inl k ↦ inl (omega (arith, k)) | inr k ↦ inr (omega (arith, k)) ],
  Apart-part ivs lo hi lo' hi' hl hh h.1,
)

-- A heap of whole pages, at least a MiB, in usable memory below the ceiling, that has nothing in
-- common with any stretch of memory that is in use.
pub record IsRegion (ceiling : ℕ) (in_use : ℕ → ℕ → Type 0) (ms : List MmapEntry) (h : Heap)
    : Type 0 where
  pub ready : h.ready ≡ true
  pub empty : h.used ≡ 0
  pub big : min_heap ≤ h.size
  pub pages : (h.base % page ≡ 0) × (h.size % page ≡ 0)
  pub apart : (s e : ℕ) → in_use s e → s < e → (e ≤ h.base) ⊎ (h.base + h.size ≤ s)
  pub usable : InSome ceiling ms h.base (h.base + h.size)

record Aligned (best : Span) : Type 0 where
  from : best.base ≤ page_aligned best
  pages : (page_aligned best % page ≡ 0) × (available best % page ≡ 0)
  upto : (available best ≡ 0) ⊎ (page_aligned best + available best ≤ best.base + best.len)

page_aligned_lem : (best : Span) → best.base + page ≤ 2 ^ 64 → Aligned best
page_aligned_lem best low =
    let plain : u64 (best.base + 4095) ≡ best.base + 4095 = omega (arith, low) in
    let from : best.base ≤ page_aligned best = omega (arith, plain) in
    elim (Bool-cases (ltb (page_aligned best - best.base) best.len)) [
      | inl room ↦
          let lt = ltb→lt (page_aligned best - best.base) best.len room in
          record {
            from = from;
            pages = (omega arith, rw room (omega arith));
            upto = inr (rw room (omega (arith, from, lt)));
          }
      | inr no_room ↦ record {
        from = from;
        pages = (omega arith, rw no_room (omega arith));
        upto = inl (rw no_room refl);
      }
    ]

abbrev taken : Span → Heap → Heap
taken best h = record h { base = page_aligned best; size = available best; used = 0; ready = true }

take_span-cases :
    (best : Span) (h : Heap)
    → (take_span best h ≡ h) ⊎ ((min_heap ≤ available best) × (take_span best h ≡ taken best h))
unfolding take_span
take_span-cases best h = elim (Bool-cases (leb min_heap (available best))) [
  | inl k ↦ inr (leb→le min_heap (available best) k, rw k refl)
  | inr k ↦ inl (rw k refl)
]

taken-IsRegion :
    (ceiling : ℕ) (excl : List Interval) (in_use : ℕ → ℕ → Type 0) (ms : List MmapEntry)
    (best : Span) (h : Heap)
    → ((s e : ℕ) → in_use s e → s < e → Among (record { s = s; e = e }) excl)
    → ceiling + page ≤ 2 ^ 64
    → min_heap ≤ available best
    → IsSafe ceiling excl ms best
    → IsRegion ceiling in_use ms (taken best h)
unfolding IsSafe
taken-IsRegion ceiling excl in_use ms best h listed low big (inl nothing) =
    let none_left : available best ≡ 0 =
      rw (le→ltb (page_aligned best - best.base) best.len (omega (arith, nothing))) refl in
    absurd (omega (arith, none_left, big))
taken-IsRegion ceiling excl in_use ms best h listed low big (inr (apart, inside)) =
    let below = InSome-below ceiling ms best.base (best.base + best.len) inside in
    let a = page_aligned_lem best (omega (arith, below, low)) in
    elim a.upto [
      | inl none_left ↦ absurd (omega (arith, none_left, big))
      | inr upto ↦ record {
        ready = refl;
        empty = refl;
        big = big;
        pages = a.pages;
        apart = λ s e used some_bytes.
            All-Among (Apart (page_aligned best) (page_aligned best + available best))
              (record { s = s; e = e }) excl
              (Apart-part excl best.base (best.base + best.len) (page_aligned best)
                (page_aligned best + available best) a.from upto apart)
              (listed s e used some_bytes);
        usable =
            InSome-part ceiling ms best.base (best.base + best.len) (page_aligned best)
              (page_aligned best + available best) a.from upto inside;
      }
    ]

-- Before a heap has been chosen, `canboot_heap_init` ends, and either leaves the heap as it is or
-- chooses whole pages, at least a MiB of them, in usable memory below the ceiling, that have nothing
-- in common with the kernel's image, the boot information, the framebuffer, the first four boot files
-- and the stack from 512 KiB below its pointer to 64 KiB above it. The framebuffer, the boot files and
-- the stack count where they end below 2 ^ 64, and the stack where its pointer is at least 512 KiB;
-- the code drops the others. The ceiling is at most 2 ^ 64 - 4096.
pub heap_init-IsRegion :
    (kernel : Option Interval) (sp ceiling : ℕ) (bi : BootInfo) (h : Heap)
    → h.ready ≡ false
    → ceiling + page ≤ 2 ^ 64
    → (h' : Heap) × (heap_init kernel sp ceiling bi h ≡ some h')
      × ((h' ≡ h) ⊎ IsRegion ceiling (Protected kernel sp bi) (take 256 bi.mmap) h')
unfolding heap_init Ends
heap_init-IsRegion kernel sp ceiling bi h fresh low =
    let excl = excluded kernel sp bi in
    let ms = take 256 bi.mmap in
    let (best, found, safe) =
      scan_map-Ends ceiling excl ms ms no_span (λ lo hi i. i) (unfold IsSafe in inl refl) in
    (
      take_span best h,
      rw (fresh, found) refl,
      elim (take_span-cases best h) [
        | inl kept ↦ inl kept
        | inr (big, is_taken) ↦ inr (
            subst (IsRegion ceiling (Protected kernel sp bi) ms) (sym is_taken) (
              taken-IsRegion ceiling excl (Protected kernel sp bi) ms best h
                (excluded-Protected kernel sp bi) low big safe))
      ],
    )
