-- ===== src/Tests/Keys.antt =====
-- A ring whose head is about to wrap around, and the theorems applied to it.
use can_boot.Common.{
  ℕ, Option, ◌+◌, ◌<◌, ◌≡◌, refl, ◌⊎◌, true, false, none, some, [], ◌∷◌, arith, u32, replicate,
}
use can_boot.Common.Int.{pos, negsuc}
use can_boot.Input.Pointer.{mouse_state, start}
use can_boot.Input.Inside.{screen, after_calls, moves_by, IsOnScreen, IsInside, pointer-IsInside}
use can_boot.Input.Getc.{getc, char_of}
use can_boot.Input.Keyboard.{Keys, process_scancode, process_scancodes, apply_shift, shift_map}
use can_boot.Common.First.{First}
use can_boot.Input.Characters.{Reads, capital}
use can_boot.Input.Typing.{pending, getc-First, getc-process_scancode}
use can_boot.Input.{run_pumps, Event, Queue, push, pop}
use can_boot.Input.Ring.{count, InRing, Pushed, Popped, push-Pushed, pop-Popped}

abbrev enter : Event
enter = record { type = 1; code = 0x102 }

abbrev one_key : Queue
one_key = record {
  events = λ k. record { type = 1; code = 0x61 };
  head = 255;
  tail = 254;
  total = 1;
  dropped = 0;
  pumps = [];
}

one_key-InRing : InRing one_key
one_key-InRing = record { head_inside = omega arith; tail_inside = omega arith }

push-Pushed_example :
    ((count one_key < 255) × Pushed enter one_key (push enter one_key))
    ⊎ ((count one_key ≡ 255) × (push enter one_key ≡ record one_key { dropped = u32 (0 + 1) }))
push-Pushed_example = push-Pushed enter one_key one_key-InRing

pop-Popped_example :
    ((0 < count one_key) × Popped one_key (pop one_key))
    ⊎ ((count one_key ≡ 0) × (pop one_key ≡ (none, one_key)))
pop-Popped_example = pop-Popped one_key one_key-InRing

abbrev no_shift : Keys
no_shift = record { shift = false; extended = false; queue = record one_key { head = 254 } }

no_shift-InRing : InRing no_shift.queue
no_shift-InRing = record { head_inside = omega arith; tail_inside = omega arith }

-- The key 0x1E is the letter a, which is a capital with a shift key held.
abbrev with_shift : Keys
with_shift = record no_shift { shift = true }

getc-process_scancode_example :
    (getc (replicate 2 []) (process_scancode 0x1E with_shift).queue).0 ≡ some (some 0x41)
getc-process_scancode_example =
    getc-process_scancode 0x1E 0x41 with_shift no_shift-InRing refl (omega arith) refl
      (capital 0x61 (omega arith) (omega arith))

getc-First_example :
    (r : Option ℕ) × ((getc (replicate 5 []) one_key).0 ≡ some r) × First Reads (pending one_key) r
getc-First_example = getc-First 5 one_key one_key-InRing (omega arith)

pointer-IsInside_example :
    IsOnScreen 640 480 (after_calls (screen 640 480) (moves_by (pos 9999) (negsuc 9999) ∷ []) start)
    × (let ((x, y, buttons), p) =
          mouse_state
            (screen 640 480)
            (after_calls (screen 640 480) (moves_by (pos 9999) (negsuc 9999) ∷ []) start) in
        IsInside 640 x × IsInside 480 y)
pointer-IsInside_example =
    pointer-IsInside 640 480 (omega arith) (omega arith) (moves_by (pos 9999) (negsuc 9999) ∷ [])

-- Shift held, the key of the digit 1, and a mouse packet that moves by 3 and 2.
exclamation :
    (getc (replicate 3 []) (process_scancodes (0x2A ∷ 0x02 ∷ []) no_shift).queue).0
    ≡ some (some 0x21)
unfolding getc char_of process_scancodes process_scancode apply_shift shift_map pop push run_pumps
exclamation = refl
