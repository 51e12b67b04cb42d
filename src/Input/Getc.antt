-- ===== src/Input/Getc.antt =====
-- hal/input/input_queue.c: `hal_input_getc`.
use can_boot.Common.{
  ℕ, not, ◌&&◌, Option, none, some, List, [], ◌∷◌, ltb, leb, ◌==◌, if◌then◌else◌, contains,
}
use can_boot.Input.{Event, Queue, run_pumps, pop}

-- CANBOOT_EV_KEY_DOWN
abbrev pub key_down : ℕ
key_down = 1

-- What a key event is to a reader of characters; `none` for an event that is passed over.
unfoldable pub char_of : Event → Option ℕ
char_of ev =
    if not (ev.type == key_down)
    then none
    else if leb 0x20 ev.code && ltb ev.code 0x80
    then some ev.code
    else if ev.code == 0x102
    then some 0x0A
    else if ev.code == 0x103
    then some 0x08
    else if ev.code == 0x104
    then some 0x09
    else (if contains ev.code (0x101 ∷ 0x120 ∷ 0x121 ∷ 0x122 ∷ 0x123 ∷ [])
        then some ev.code
        else none)

abbrev pub getc_char :
    Option ℕ → Queue → (Queue → Option (Option ℕ) × Queue) → Option (Option ℕ) × Queue
getc_char none q again = again q
getc_char (some c) q again = (some (some c), q)

abbrev pub getc_next :
    Option Event × Queue → (Queue → Option (Option ℕ) × Queue) → Option (Option ℕ) × Queue
getc_next (none, q) again = (some none, q)
getc_next (some ev, q) again = getc_char (char_of ev) q again

-- `hal_input_getc`, polling at most as often as there are rounds. A round is what the pumps push at
-- that poll. The result is `some none` for -1, and `none` where the rounds are used up.
unfoldable pub getc : List (List (List Event)) → Queue → Option (Option ℕ) × Queue
getc [] q = (none, q)
getc (arriving ∷ rounds) q = getc_next (pop (run_pumps arriving q)) (getc rounds)
