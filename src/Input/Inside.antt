-- ===== src/Input/Inside.antt =====
-- The pointer stays on the screen.
use can_boot.Common.{
  ℕ, ◌-◌, ◌/◌, ◌<◌, ◌≡◌, refl, inl, inr, Bool, true, List, [], ◌∷◌, arith, ltb, lt→ltb, le→ltb,
  ltb→le, Bool-cases,
}
use can_boot.Common.Int.{ℤ, pos, negsuc, ◌+ℤ◌}
use can_boot.Input.Pointer.{
  Pointer, Screen, mouse_seed, clamped, mouse_clamp, move_rel, move_abs, button, turn_wheel,
  mouse_state, take_wheel, set_present, start,
}

-- A call on the pointer by a driver or a reader.
pub data PointerCall : Type 0 where
  moves_by : ℤ → ℤ → PointerCall
  moves_to : ℤ → ℤ → PointerCall
  presses : ℕ → Bool → PointerCall
  turns : ℤ → PointerCall
  reads takes_wheel : PointerCall
  sets_present : Bool → PointerCall

unfoldable pub after_call : Screen → PointerCall → Pointer → Pointer
after_call d (moves_by dx dy) p = move_rel d dx dy p
after_call d (moves_to x y) p = move_abs d x y p
after_call d (presses mask down) p = button mask down p
after_call d (turns delta) p = turn_wheel delta p
after_call d reads p = (mouse_state d p).1
after_call d takes_wheel p = (take_wheel p).1
after_call d (sets_present present) p = set_present present p

unfoldable pub after_calls : Screen → List PointerCall → Pointer → Pointer
after_calls d [] p = p
after_calls d (c ∷ cs) p = after_calls d cs (after_call d c p)

-- A coordinate from 0 to one below the size.
abbrev pub IsInside : ℕ → ℤ → Type 0
IsInside size (pos a) = a < size
IsInside size (negsuc a) = ⊥

abbrev pub IsOnScreen : ℕ → ℕ → Pointer → Type 0
IsOnScreen w h p = p.placed ≡ true → IsInside w p.x × IsInside h p.y

clamped-IsInside : (size : ℕ) (v : ℤ) → 0 < size → IsInside size (clamped (pos size) v)
clamped-IsInside size (pos a) some_size =
    rw (lt→ltb 0 size some_size) (elim (Bool-cases (ltb (size - 1) a)) [
      | inl over ↦ rw (le→ltb a 0 (omega arith), over) (omega (arith, some_size))
      | inr under ↦
          rw (le→ltb a 0 (omega arith), under) (omega (arith, ltb→le (size - 1) a under, some_size))
    ])
clamped-IsInside size (negsuc a) some_size = rw (lt→ltb 0 size some_size) some_size

abbrev pub screen : ℕ → ℕ → Screen
screen w h = record { width = pos w; height = pos h }

module _ (w h : ℕ) (some_width : 0 < w) (some_height : 0 < h) where
  half_inside : (n : ℕ) → 0 < n → n / 2 < n
  half_inside n some_size = omega arith

  seeded : (p : Pointer) → IsOnScreen w h p → IsOnScreen w h (mouse_seed (screen w h) p)
  unfolding mouse_seed
  seeded p inside placed = elim (Bool-cases p.placed) [
    | inl there ↦ rw there (inside there)
    | inr not_yet ↦ rw not_yet (half_inside w some_width, half_inside h some_height)
  ]

  placed-mouse_seed : (p : Pointer) → (mouse_seed (screen w h) p).placed ≡ true
  unfolding mouse_seed
  placed-mouse_seed p = elim (Bool-cases p.placed) [
    | inl there ↦ rw there refl
    | inr not_yet ↦ rw not_yet refl
  ]

  not_placed : IsOnScreen w h start
  unfolding start
  not_placed placed = absurd (cc)

  told :
      (p : Pointer)
      → IsOnScreen w h p
      → (let ((x, y, buttons), q) = mouse_state (screen w h) p in IsInside w x × IsInside h y)
  unfolding mouse_state
  told p inside = seeded p inside (placed-mouse_seed p)

  after_call-IsOnScreen :
      (c : PointerCall) (p : Pointer)
      → IsOnScreen w h p
      → IsOnScreen w h (after_call (screen w h) c p)
  unfolding after_call move_rel move_abs button turn_wheel mouse_state take_wheel set_present
      mouse_clamp
  after_call-IsOnScreen (moves_by dx dy) p inside placed = (
    clamped-IsInside w ((mouse_seed (screen w h) p).x +ℤ dx) some_width,
    clamped-IsInside h ((mouse_seed (screen w h) p).y +ℤ dy) some_height,
  )
  after_call-IsOnScreen (moves_to x y) p inside placed =
      (clamped-IsInside w x some_width, clamped-IsInside h y some_height)
  after_call-IsOnScreen (presses mask down) p inside placed = inside placed
  after_call-IsOnScreen (turns delta) p inside placed = inside placed
  after_call-IsOnScreen reads p inside placed = seeded p inside placed
  after_call-IsOnScreen takes_wheel p inside placed = inside placed
  after_call-IsOnScreen (sets_present present) p inside placed = inside placed

  after_calls-IsOnScreen :
      (cs : List PointerCall) (p : Pointer)
      → IsOnScreen w h p
      → IsOnScreen w h (after_calls (screen w h) cs p)
  unfolding after_calls
  after_calls-IsOnScreen [] p inside = inside
  after_calls-IsOnScreen (c ∷ cs) p inside =
      after_calls-IsOnScreen cs (after_call (screen w h) c p) (after_call-IsOnScreen c p inside)

  -- On a screen that is not empty, and from its start on, the pointer is never off the screen once it
  -- has a place, whatever calls drivers and readers make; and what a reader is told is on the screen.
  pub pointer-IsInside :
      (cs : List PointerCall)
      → IsOnScreen w h (after_calls (screen w h) cs start)
        × (let ((x, y, buttons), p) =
              mouse_state (screen w h) (after_calls (screen w h) cs start) in
            IsInside w x × IsInside h y)
  pointer-IsInside cs =
      let inside = after_calls-IsOnScreen cs start not_placed in
      (inside, told (after_calls (screen w h) cs start) inside)
