-- ===== src/Input/Ps2.antt =====
-- hal/input/ps2.c: the pump that drains the controller, and the start of the driver. What the port
-- shows at each round, its status and its data byte, is an argument.
use can_boot.Common.{ℕ, zero, suc, Bool, true, false, ◌&&◌, List, [], ◌∷◌, if◌then◌else◌}
use can_boot.Input.Keyboard.{Keys, Mouse, process_scancode, process_mouse_byte, has_bit}
use can_boot.Input.Pointer.{Screen}

pub record Ps2 : Type 0 where
  pub keys : Keys
  pub mouse : Mouse
  pub mouse_enabled : Bool

-- A byte goes to the port that the status names, as long as the mouse is enabled.
unfoldable pub route : Screen → ℕ → ℕ → Ps2 → Ps2
route d status byte p =
    if p.mouse_enabled && has_bit status 0x20
    then record p { mouse = process_mouse_byte d byte p.mouse }
    else record p { keys = process_scancode byte p.keys }

-- `ps2_pump`, with `guard` rounds left.
unfoldable pub drain : Screen → ℕ → List (ℕ × ℕ) → Ps2 → Ps2
drain d zero reads p = p
drain d (suc guard) [] p = p
drain d (suc guard) ((status, byte) ∷ reads) p =
    let rest = drain d guard reads (route d status byte p) in
    if has_bit status 0x01 then rest else p

abbrev pub ps2_pump : Screen → List (ℕ × ℕ) → Ps2 → Ps2
ps2_pump d reads p = drain d 64 reads p

-- What `canboot_ps2_init` and `ps2_mouse_init` leave in the driver's state.
unfoldable pub ps2_init : Ps2 → Ps2
ps2_init p = record {
  keys = record (p.keys) { shift = false; extended = false };
  mouse = record (p.mouse) { packet = [] };
  mouse_enabled = true;
}
