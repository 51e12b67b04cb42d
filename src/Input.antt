-- ===== src/Input.antt =====
-- hal/input/input_queue.c: the ring of keyboard events and the list of drivers' pumps.
-- A pump belongs to a device driver. It is given by the events that it pushes when it is called.
-- The static array of the ring is a function from its 256 slots.
pub mod Ring
pub mod Pointer
pub mod Inside
pub mod Getc
pub mod Characters
pub mod Keyboard
pub mod Ps2
pub mod Typing
use can_boot.Common.{
  ℕ, zero, suc, ◌+◌, ◌-◌, ◌*◌, ◌/◌, ◌%◌, ◌^◌, ◌≤◌, ◌<◌, min, ◌≡◌, refl, sym, ap, ap₂, ◌∙◌, fun_ext,
  ◌≢◌, ◌↔◌, ◌⊎◌, inl, inr, Bool, true, false, not, ◌&&◌, ◌||◌, Option, none, some, List, [], ◌∷◌,
  ◌++◌, map, append-nil, append_assoc, arith, dec_lt, dec_le, ℕ_discrete, ltb, leb, ◌==◌,
  if◌then◌else◌, ltb→lt, lt→ltb, le→ltb, ltb→le, ==→eq, ==→ne, eq→==, ne→==, Bool-cases, u8, u16,
  u32, u64, length, get_or, set, take, drop, replicate, All, length-append, length-set,
  get_or-set_self, get_or-set_ne, length-take, length-drop, length-replicate, take_all,
  take-append-drop, take-length-append, drop-length-append, All-append, same_bytes, same_bytes→eq,
  same_bytes_self, contains, get_or-take, get_or-drop, take-get_or-drop, take-take, All-of_index,
}

-- `struct canboot_event`: the fields that the queue's readers look at.
pub record Event : Type 0 where
  pub type : ℕ
  pub code : ℕ

-- The static variables of the queue.
pub record Queue : Type 0 where
  pub events : ℕ → Event
  pub head : ℕ
  pub tail : ℕ
  pub total : ℕ
  pub dropped : ℕ
  pub pumps : List (List Event)

-- `canboot_input_register_pump`, of a pump that is not null: there is room for four.
unfoldable pub register_pump : List Event → Queue → Queue
register_pump fn q = if leb 4 (length q.pumps) then q else record q { pumps = q.pumps ++ fn ∷ [] }

abbrev stored_event : Event → Queue → Queue
stored_event ev q = record q {
  events = λ k. if k == q.head then ev else q.events k;
  head = (q.head + 1) % 256;
  total = u32 (q.total + 1);
}

abbrev dropped_event : Queue → Queue
dropped_event q = record q { dropped = u32 (q.dropped + 1) }

-- `canboot_input_push`: an event that finds the ring full is dropped.
unfoldable pub push : Event → Queue → Queue
push ev q = if (q.head + 1) % 256 == q.tail then dropped_event q else stored_event ev q

unfoldable pub push_all : List Event → Queue → Queue
push_all [] q = q
push_all (ev ∷ evs) q = push_all evs (push ev q)

unfoldable pub run_pumps : List (List Event) → Queue → Queue
run_pumps [] q = q
run_pumps (fn ∷ fns) q = run_pumps fns (push_all fn q)

-- `hal_input_pump`
unfoldable pub pump : Queue → Queue
pump q = run_pumps q.pumps q

-- The reading half of `hal_input_poll`.
unfoldable pub pop : Queue → Option Event × Queue
pop q =
    if q.tail == q.head
    then (none, q)
    else (some (q.events q.tail), record q { tail = (q.tail + 1) % 256 })

-- `hal_input_poll`
unfoldable pub poll : Queue → Option Event × Queue
poll q = pop (pump q)
