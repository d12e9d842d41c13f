-- ===== src/Hw/Mouse.antt =====
-- The Microsoft serial mouse (src/hw/mouse.rs). An event is three bytes, which the guest reads one
-- by one; the first read after a reset gives the letter M.
pub mod Events
pub mod Motion
use riapyx.Common.{
  ℕ, ◌+◌, bit_and, bit_or, leb, ◌==◌, not, if◌then◌else◌, shl8, shr8, Bool, true, false, Option,
  none, some, List, [], ◌∷◌, ◌++◌, Result, ok, panic, ◌>>=◌,
}
use riapyx.Common.Int.{ℤ, pos}
use riapyx.Hw.Serial.{SerialDevice}

pub record Event : Type 0 where
  pub first_byte : ℕ
  pub second_byte : ℕ
  pub third_byte : ℕ

pub record Mouse : Type 0 where
  pub hw_init : Bool
  pub initialized : Bool
  pub current_event_byte_count : ℕ
  pub events : List Event
  pub left_button_pressed : Bool
  pub right_button_pressed : Bool
  pub speed_divisor : ℤ

unfoldable pub new : Mouse
new = record {
  hw_init = false;
  initialized = false;
  current_event_byte_count = 0;
  events = [];
  left_button_pressed = false;
  right_button_pressed = false;
  speed_divisor = pos 1;
}

-- `event[i]`
abbrev pub event_byte : Event → ℕ → Result ℕ
event_byte e i =
    if i == 0
    then ok e.first_byte
    else if i == 1
    then ok e.second_byte
    else if i == 2
    then ok e.third_byte
    else panic

-- After three bytes the event is dropped: `events.pop_front().unwrap()`.
abbrev drop_event : List Event → Mouse → Result Mouse
drop_event [] m = panic
drop_event (e ∷ es) m = ok (record m { current_event_byte_count = 0; events = es })

abbrev next_byte : List Event → Mouse → Result (Option ℕ × Mouse)
next_byte [] m = ok (none, m)
next_byte (e ∷ es) m = do
  b ← event_byte e m.current_event_byte_count
  ok (some b, record m { current_event_byte_count = m.current_event_byte_count + 1 })

abbrev read_event : Mouse → Result (Option ℕ × Mouse)
read_event m = do
  m₁ ← if leb 3 m.current_event_byte_count then drop_event m.events m else ok m
  next_byte m₁.events m₁

unfoldable pub read : Mouse → Result (Option ℕ × Mouse)
read m =
    if not m.hw_init
    then ok (none, m)
    else if m.initialized
    then read_event m
    else ok (some b'M', record m { initialized = true })

unfoldable pub on_rts_enabled : Mouse → Mouse
on_rts_enabled m = record m {
  hw_init = true;
  initialized = false;
  current_event_byte_count = 0;
  right_button_pressed = false;
  left_button_pressed = false;
  events = [];
}

abbrev pub mouse_device : SerialDevice Mouse
mouse_device = record { new = new; read = read; on_rts_enabled = on_rts_enabled }

-- The event that `push_event` sends: two motions of eight bits and the buttons.
unfoldable pub encode_event : Bool → Bool → ℕ → ℕ → Event
encode_event left right dx dy = record {
  first_byte =
      bit_or
        (bit_or (bit_or (bit_or 0x40 (if left then 0x20 else 0x0)) (if right then 0x10 else 0x0))
          (shl8 (shr8 dy 6) 2))
        (shr8 dx 6);
  second_byte = bit_and dx 0x3f;
  third_byte = bit_and dy 0x3f;
}

unfoldable pub push_event : ℕ → ℕ → Mouse → Mouse
unfolding encode_event
push_event dx dy m =
    let e = encode_event m.left_button_pressed m.right_button_pressed dx dy in
    record m { events = m.events ++ (e ∷ []) }

-- The buttons that the program tells apart, of the crate sdl2's.
pub data MouseButton : Type 0 where
  left right other : MouseButton

abbrev set_button : MouseButton → Bool → Mouse → Mouse
set_button MouseButton.left b m = record m { left_button_pressed = b }
set_button MouseButton.right b m = record m { right_button_pressed = b }
set_button MouseButton.other b m = m

unfoldable pub on_button_down : MouseButton → Mouse → Mouse
unfolding push_event
on_button_down button m = push_event 0 0 (set_button button true m)

unfoldable pub on_button_up : MouseButton → Mouse → Mouse
unfolding push_event
on_button_up button m = push_event 0 0 (set_button button false m)

unfoldable pub set_speed_divisor : ℤ → Mouse → Mouse
set_speed_divisor d m = record m { speed_divisor = d }
