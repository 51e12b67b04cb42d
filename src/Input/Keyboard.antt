-- ===== src/Input/Keyboard.antt =====
-- hal/input/ps2.c: what the PS/2 keyboard and mouse driver makes of the controller's bytes.
use can_boot.Common.{
  ℕ, ◌-◌, ◌%◌, Bool, true, false, not, ◌&&◌, ◌||◌, List, [], ◌∷◌, ◌++◌, ltb, leb, ◌==◌,
  if◌then◌else◌, length, get_or,
}
use Prim.Native.Nat.{bit_and}
use can_boot.Common.Int.{ℤ, pos, negsuc, ◌+ℤ◌, negate}
use can_boot.Input.{Event, Queue, push}
use can_boot.Input.Pointer.{Pointer, Screen, move_rel, button}

-- `base_map`: the code of a key without shift; 0 for none.
abbrev pub base_map : List ℕ
base_map =
    0 ∷ 0x101 ∷ 0x31 ∷ 0x32 ∷ 0x33 ∷ 0x34 ∷ 0x35 ∷ 0x36 ∷ 0x37 ∷ 0x38 ∷ 0x39 ∷ 0x30 ∷ 0x2D ∷ 0x3D
    ∷ 0x103 ∷ 0x104 ∷ 0x71 ∷ 0x77 ∷ 0x65 ∷ 0x72 ∷ 0x74 ∷ 0x79 ∷ 0x75 ∷ 0x69 ∷ 0x6F ∷ 0x70 ∷ 0x5B
    ∷ 0x5D ∷ 0x102 ∷ 0x112 ∷ 0x61 ∷ 0x73 ∷ 0x64 ∷ 0x66 ∷ 0x67 ∷ 0x68 ∷ 0x6A ∷ 0x6B ∷ 0x6C ∷ 0x3B
    ∷ 0x27 ∷ 0x60 ∷ 0x110 ∷ 0x5C ∷ 0x7A ∷ 0x78 ∷ 0x63 ∷ 0x76 ∷ 0x62 ∷ 0x6E ∷ 0x6D ∷ 0x2C ∷ 0x2E
    ∷ 0x2F ∷ 0x111 ∷ 0 ∷ 0x114 ∷ 0x20 ∷ 0x116 ∷ []

-- `shift_map`, as pairs of a character and the one above it.
abbrev pub shift_pairs : List (ℕ × ℕ)
shift_pairs =
    (0x31, 0x21)
    ∷ (0x32, 0x40)
    ∷ (0x33, 0x23)
    ∷ (0x34, 0x24)
    ∷ (0x35, 0x25)
    ∷ (0x36, 0x5E)
    ∷ (0x37, 0x26)
    ∷ (0x38, 0x2A)
    ∷ (0x39, 0x28)
    ∷ (0x30, 0x29)
    ∷ (0x2D, 0x5F)
    ∷ (0x3D, 0x2B)
    ∷ (0x5B, 0x7B)
    ∷ (0x5D, 0x7D)
    ∷ (0x3B, 0x3A)
    ∷ (0x27, 0x22)
    ∷ (0x60, 0x7E)
    ∷ (0x5C, 0x7C)
    ∷ (0x2C, 0x3C)
    ∷ (0x2E, 0x3E)
    ∷ (0x2F, 0x3F)
    ∷ []

unfoldable pub shift_map : List (ℕ × ℕ) → ℕ → ℕ
shift_map [] code = 0
shift_map ((from, to) ∷ pairs) code = if from == code then to else shift_map pairs code

unfoldable pub apply_shift : Bool → ℕ → ℕ
apply_shift shift code =
    let above = shift_map shift_pairs code in
    if leb 0x61 code && leb code 0x7A
    then (if shift then code - 0x20 else code)
    else (if shift && not (above == 0) then above else code)

-- `g_shift` and `g_extended`, with the queue that events go to.
pub record Keys : Type 0 where
  pub shift : Bool
  pub extended : Bool
  pub queue : Queue

-- `emit`
abbrev pub emit : ℕ → Bool → Keys → Keys
emit code is_release k =
    let ev : Event = record { type = if is_release then 2 else 1; code = code } in
    record k { queue = push ev k.queue }

-- The keys behind the prefix 0xE0; 0 for the others.
unfoldable pub extended_code : ℕ → ℕ
extended_code make =
    if make == 0x48
    then 0x120
    else if make == 0x50
    then 0x121
    else if make == 0x4B
    then 0x122
    else if make == 0x4D
    then 0x123
    else if make == 0x1D
    then 0x113
    else (if make == 0x38 then 0x115 else (if make == 0x1C then 0x102 else 0))

-- `process_scancode` of a byte.
unfoldable pub process_scancode : ℕ → Keys → Keys
process_scancode sc k =
    let is_release = leb 0x80 sc in
    let make = sc % 0x80 in
    let far = extended_code make in
    let code = get_or base_map make 0 in
    let prefixed = if far == 0 then k else emit far is_release k in
    let shifts = emit code is_release (record k { shift = not is_release }) in
    if sc == 0xE0
    then record k { extended = true }
    else if k.extended
    then record prefixed { extended = false }
    else if code == 0
    then k
    else if code == 0x110 || code == 0x111
    then shifts
    else emit (apply_shift k.shift code) is_release k

unfoldable pub process_scancodes : List ℕ → Keys → Keys
process_scancodes [] k = k
process_scancodes (sc ∷ scs) k = process_scancodes scs (process_scancode sc k)

-- `g_mouse_pkt` up to `g_mouse_idx`, with the pointer.
pub record Mouse : Type 0 where
  pub packet : List ℕ
  pub pointer : Pointer

-- A movement of nine bits: the byte, less 256 where the sign bit is set.
abbrev pub delta : ℕ → Bool → ℤ
delta b negative = if negative then pos b +ℤ negsuc 255 else pos b

abbrev pub has_bit : ℕ → ℕ → Bool
has_bit flags mask = not (bit_and flags mask == 0)

abbrev apply_packet : Screen → ℕ → ℕ → ℕ → Pointer → Pointer
apply_packet d flags b1 b2 p =
    let moved =
      move_rel d (delta b1 (has_bit flags 0x10)) (negate (delta b2 (has_bit flags 0x20))) p in
    button 4 (has_bit flags 0x04)
      (button 2 (has_bit flags 0x02) (button 1 (has_bit flags 0x01) moved))

-- The third byte ends a packet; one whose movement overflowed is dropped.
abbrev full_packet : Screen → List ℕ → Pointer → Pointer
full_packet d (flags ∷ b1 ∷ b2 ∷ []) p =
    if has_bit flags 0xC0 then p else apply_packet d flags b1 b2 p
full_packet d _ p = p

-- `process_mouse_byte`
unfoldable pub process_mouse_byte : Screen → ℕ → Mouse → Mouse
process_mouse_byte d b m =
    let packet = m.packet ++ b ∷ [] in
    if length m.packet == 0 && not (has_bit b 0x08)
    then m
    else if ltb (length packet) 3
    then record m { packet = packet }
    else record { packet = []; pointer = full_packet d packet m.pointer }
