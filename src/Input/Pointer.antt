-- ===== src/Input/Pointer.antt =====
-- hal/input/input_queue.c: the state of the pointer. The size of the framebuffer is an argument, as
-- `hal_display_width` and `hal_display_height` give it.
use can_boot.Common.{ℕ, ◌-◌, ◌/◌, ◌%◌, ◌^◌, Bool, true, false, if◌then◌else◌}
use Prim.Native.Nat.{bit_and, bit_or}
use can_boot.Common.Int.{ℤ, pos, negsuc, ◌+ℤ◌, int_ltb}

pub record Pointer : Type 0 where
  pub x : ℤ
  pub y : ℤ
  pub buttons : ℕ
  pub wheel : ℤ
  pub present : Bool
  pub placed : Bool

-- Width and height.
pub record Screen : Type 0 where
  pub width : ℤ
  pub height : ℤ

abbrev pub clampi : ℤ → ℤ → ℤ → ℤ
clampi v lo hi = if int_ltb v lo then lo else (if int_ltb hi v then hi else v)

-- `w > 0 ? w / 2 : 0`
abbrev pub middle : ℤ → ℤ
middle (pos n) = pos (n / 2)
middle (negsuc n) = pos 0

unfoldable pub mouse_seed : Screen → Pointer → Pointer
mouse_seed d p =
    if p.placed then p else record p { x = middle d.width; y = middle d.height; placed = true }

-- `if (w > 0) v = clampi(v, 0, w - 1);`
abbrev pub clamped : ℤ → ℤ → ℤ
clamped size v = if int_ltb (pos 0) size then clampi v (pos 0) (size +ℤ negsuc 0) else v

unfoldable pub mouse_clamp : Screen → Pointer → Pointer
mouse_clamp d p = record p { x = clamped d.width p.x; y = clamped d.height p.y }

unfoldable pub move_rel : Screen → ℤ → ℤ → Pointer → Pointer
move_rel d dx dy p =
    let q = mouse_seed d p in
    record (mouse_clamp d (record q { x = q.x +ℤ dx; y = q.y +ℤ dy })) { present = true }

unfoldable pub move_abs : Screen → ℤ → ℤ → Pointer → Pointer
move_abs d x y p = record (mouse_clamp d (record p { placed = true; x = x; y = y })) {
  present = true;
}

-- `mask` is a uint32_t: `~mask` is its complement to 2 ^ 32 - 1.
unfoldable pub button : ℕ → Bool → Pointer → Pointer
button mask down p = record p {
  buttons = if down then bit_or p.buttons mask else bit_and p.buttons (2 ^ 32 - 1 - mask % 2 ^ 32);
  present = true;
}

unfoldable pub turn_wheel : ℤ → Pointer → Pointer
turn_wheel delta p = record p { wheel = p.wheel +ℤ delta; present = true }

-- `canboot_input_mouse_state`: position and buttons.
unfoldable pub mouse_state : Screen → Pointer → (ℤ × ℤ × ℕ) × Pointer
mouse_state d p = let q = mouse_seed d p in ((q.x, q.y, q.buttons), q)

unfoldable pub take_wheel : Pointer → ℤ × Pointer
take_wheel p = (p.wheel, record p { wheel = pos 0 })

unfoldable pub set_present : Bool → Pointer → Pointer
set_present present p = record p { present = present }

-- The pointer's part of `hal_input_init`.
unfoldable pub start : Pointer
start = record { x = pos 0; y = pos 0; buttons = 0; wheel = pos 0; present = false; placed = false }
