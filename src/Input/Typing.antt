-- ===== src/Input/Typing.antt =====
-- From the keyboard through the ring to a reader.
use can_boot.Common.{
  ℕ, zero, suc, ◌+◌, ◌%◌, ◌<◌, ◌≡◌, refl, sym, ap, ap₂, ◌∙◌, ◌≢◌, ◌⊎◌, inl, inr, false, Option,
  none, some, List, [], ◌∷◌, arith, lt→leb, ne→==, get_or, replicate,
}
use can_boot.Input.{Event, Queue, push, pop, run_pumps}
use can_boot.Input.Ring.{count, InRing, waiting, push-Pushed, Popped, pop-Popped}
use can_boot.Common.First.{First, nowhere, or_else}
use can_boot.Input.Characters.{Reads, Types, First-char_of, typed, char_of-Types, Types-mapped}
use can_boot.Input.Getc.{char_of, getc, getc_next}
use can_boot.Input.Keyboard.{base_map, apply_shift, Keys, emit, process_scancode}

-- The events from number `i` on, `n` of them.
abbrev events_from : (ℕ → Event) → ℕ → ℕ → List Event
events_from w i zero = []
events_from w i (suc n) = w i ∷ events_from w (i + 1) n

-- The events that wait, oldest first.
abbrev pub pending : Queue → List Event
pending q = events_from (waiting q) 0 (count q)

-- The character of the first event that has one.
unfoldable pub first_char : List Event → Option ℕ
first_char [] = none
first_char (ev ∷ evs) = or_else (char_of ev) (first_char evs)

events_from-shift :
    (w w' : ℕ → Event) (i n : ℕ)
    → ((k : ℕ) → w' k ≡ w (k + 1))
    → events_from w' i n ≡ events_from w (i + 1) n
events_from-shift w w' i zero same = refl
events_from-shift w w' i (suc n) same =
    ap₂ (λ (e : Event) (es : List Event). e ∷ es) (same i) (events_from-shift w w' (i + 1) n same)

pending-pop :
    (q : Queue) (r : Option Event × Queue) → Popped q r → pending q ≡ waiting q 0 ∷ pending r.1
pending-pop q r p =
    let longer : count q ≡ suc (count r.1) = omega (arith, p.shorter) in
    ap (λ (n : ℕ). events_from (waiting q) 0 n) longer
    ∙ ap (λ (es : List Event). waiting q 0 ∷ es)
        (sym (events_from-shift (waiting q) (waiting r.1) 0 (count r.1) p.rest))

getc_quiet :
    (n : ℕ) (q : Queue) → getc (replicate (suc n) []) q ≡ getc_next (pop q) (getc (replicate n []))
unfolding getc run_pumps
getc_quiet n q = refl

Option-cases {ℓ} : {A : Type ℓ} (o : Option A) → (o ≡ none) ⊎ ((a : A) × (o ≡ some a))
Option-cases none = inl refl
Option-cases (some a) = inr (a, refl)

getc_next-none :
    (ev : Event) (q : Queue) (again : Queue → Option (Option ℕ) × Queue)
    → char_of ev ≡ none
    → getc_next (some ev, q) again ≡ again q
getc_next-none ev q again h = rw h refl

getc_next-some :
    (ev : Event) (c : ℕ) (q : Queue) (again : Queue → Option (Option ℕ) × Queue)
    → char_of ev ≡ some c
    → getc_next (some ev, q) again ≡ (some (some c), q)
getc_next-some ev c q again h = rw h refl

first_char-none :
    (ev : Event) (es : List Event) → char_of ev ≡ none → first_char (ev ∷ es) ≡ first_char es
unfolding first_char
first_char-none ev es h = rw h refl

first_char-some :
    (ev : Event) (c : ℕ) (es : List Event) → char_of ev ≡ some c → first_char (ev ∷ es) ≡ some c
unfolding first_char
first_char-some ev c es h = rw h refl

getc-first_char :
    (n : ℕ) (q : Queue)
    → InRing q
    → count q < n
    → (getc (replicate n []) q).0 ≡ some (first_char (pending q))
unfolding first_char
getc-first_char zero q r enough = absurd (omega arith)
getc-first_char (suc n) q r enough = elim (pop-Popped q r) [
  | inl (some_wait, p) ↦
      let rest = (pop q).1 in
      let ev = waiting q 0 in
      let at_pop : pop q ≡ (some ev, rest) = ap (λ (o : Option Event). (o, rest)) p.first in
      let step =
        getc_quiet n q
        ∙ ap (λ (o : Option Event × Queue). getc_next o (getc (replicate n []))) at_pop in
      rw (pending-pop q (pop q) p) (elim (Option-cases (char_of ev)) [
        | inl passed ↦
            ap (λ (o : Option (Option ℕ) × Queue). o.0) (step ∙ getc_next-none ev rest _ passed)
            ∙ getc-first_char n rest p.in_ring (omega (arith, p.shorter))
            ∙ ap some (sym (first_char-none ev (pending rest) passed))
        | inr (c, found) ↦
            ap (λ (o : Option (Option ℕ) × Queue). o.0) (step ∙ getc_next-some ev c rest _ found)
            ∙ ap some (sym (first_char-some ev c (pending rest) found))
      ])
  | inr (nothing, at_pop) ↦
      ap (λ (o : Option (Option ℕ) × Queue). o.0)
        (getc_quiet n q
          ∙ ap (λ (o : Option Event × Queue). getc_next o (getc (replicate n []))) at_pop)
      ∙ ap (λ (k : ℕ). some (first_char (events_from (waiting q) 0 k))) (sym nothing)
]

First-first_char : (evs : List Event) → First Reads evs (first_char evs)
unfolding first_char
First-first_char [] = nowhere
First-first_char (ev ∷ evs) = First-char_of ev evs (first_char evs) (First-first_char evs)

-- Where nothing new arrives, `hal_input_getc` ends after at most one poll more than there are events.
-- It returns the character of the oldest waiting event that gives one, and -1 exactly where none
-- does: the code of a printable key, 10, 8 and 9 for Enter, Backspace and Tab, and also the codes
-- from 0x101 on of Escape and of the four arrow keys, which hal/input.h says are passed over.
pub getc-First :
    (n : ℕ) (q : Queue)
    → InRing q
    → count q < n
    → (r : Option ℕ) × ((getc (replicate n []) q).0 ≡ some r) × First Reads (pending q) r
getc-First n q r enough =
    (first_char (pending q), getc-first_char n q r enough, First-first_char (pending q))

-- A key that is not a shift key, pressed without a prefix.
pressed :
    (make : ℕ) (k : Keys)
    → make < 0x80
    → k.extended ≡ false
    → get_or base_map make 0 ≢ 0
    → get_or base_map make 0 ≢ 0x110
    → get_or base_map make 0 ≢ 0x111
    → process_scancode make k ≡ emit (apply_shift k.shift (get_or base_map make 0)) false k
unfolding process_scancode
pressed make k small plain mapped not_left not_right =
    let down = lt→leb 0x80 make small in
    let same : make % 0x80 ≡ make = omega (arith, small) in
    rw
      (
        down,
        same,
        plain,
        ne→== make 0xE0 (omega (arith, small)),
        ne→== _ 0 mapped,
        ne→== _ 0x110 not_left,
        ne→== _ 0x111 not_right,
      )
      refl

-- A key that types a character, pressed while the ring is empty, is read by the next
-- `hal_input_getc` as what it types: the plain sign without shift; the capital letter or the upper
-- sign of the US layout with a shift key held; and with or without it the space and the control
-- characters of Enter, Backspace and Tab.
pub getc-process_scancode :
    (make c : ℕ) (k : Keys)
    → InRing k.queue
    → count k.queue ≡ 0
    → make < 0x80
    → k.extended ≡ false
    → Types k.shift (get_or base_map make 0) c
    → (getc (replicate 2 []) (process_scancode make k).queue).0 ≡ some (some c)
getc-process_scancode make c k r empty small plain types =
    let (mapped, not_left, not_right) = Types-mapped k.shift (get_or base_map make 0) c types in
    let ev : Event = typed k.shift (get_or base_map make 0) in
    let is_char = char_of-Types k.shift (get_or base_map make 0) c types in
    let q = push ev k.queue in
    elim (push-Pushed ev k.queue r) [
      | inl (room, p) ↦
          let one : count q ≡ 1 = omega (arith, p.longer, empty) in
          let at_first : waiting q 0 ≡ ev = ap (λ (i : ℕ). waiting q i) (sym empty) ∙ p.last in
          ap (λ (u : Keys). (getc (replicate 2 []) u.queue).0)
            (pressed make k small plain mapped not_left not_right)
          ∙ getc-first_char 2 q p.in_ring (omega (arith, one))
          ∙ ap (λ (n : ℕ). some (first_char (events_from (waiting q) 0 n))) one
          ∙ ap some (first_char-some (waiting q 0) c [] (ap char_of at_first ∙ is_char))
      | inr (full, same) ↦ absurd (omega (arith, full, empty))
    ]
