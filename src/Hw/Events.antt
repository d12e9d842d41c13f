-- ===== src/Hw/Events.antt =====
-- The events of the window (`HW::pump_events` and its callers in src/hw/mod.rs).
use riapyx.Common.{
  ℕ, Bool, true, false, Option, List, [], ◌∷◌, Result, ok, panic, ◌>>=◌, ◌==◌, if◌then◌else◌,
}
use riapyx.Common.Int.{ℤ, pos, ltb_ℤ}
use riapyx.Cpu.State.{Cpu}
use riapyx.Hw.Scancodes.{Scancode}
use riapyx.Hw.Keyboard.{Keyboard}
use riapyx.Hw.Keyboard.Events.{on_keydown, on_keyup}
use riapyx.Hw.Mouse.{Mouse, MouseButton, on_button_down, on_button_up, set_speed_divisor}
use riapyx.Hw.Mouse.Motion.{on_motion}
use riapyx.Hw.Devices.{Hw}

-- The events of the crate sdl2 that the program tells apart, with the fields that it reads: a
-- button's number of clicks, and the direction of the wheel, normal or flipped.
pub data SdlEvent : Type 0 where
  key_down key_up : Option Scancode → SdlEvent
  mouse_motion : (xrel yrel : ℤ) → SdlEvent
  mouse_button_down mouse_button_up : MouseButton → (clicks : ℕ) → SdlEvent
  mouse_wheel : (y : ℤ) → (normal : Bool) → SdlEvent
  quit other : SdlEvent

-- What the pump changes.
pub record Inputs : Type 0 where
  pub keyboard : Keyboard
  pub mouse : Mouse
  pub cpu : Cpu

abbrev on_keyboard : Inputs → Keyboard × Cpu → Inputs
on_keyboard s (k, c) = record s { keyboard = k; cpu = c }

-- The wheel's other effect, on the mouse of the window, is left out.
abbrev on_wheel : ℤ → Mouse → Mouse
on_wheel y m =
    if ltb_ℤ (pos 0) y
    then set_speed_divisor (pos 1) m
    else if ltb_ℤ y (pos 0)
    then set_speed_divisor (pos 1) m
    else m

-- `std::process::exit` does not return, as a panic.
unfoldable pub handle_event : SdlEvent → Inputs → Result Inputs
handle_event (SdlEvent.key_down key) s = ok (on_keyboard s (on_keydown key s.keyboard s.cpu))
handle_event (SdlEvent.key_up key) s = ok (on_keyboard s (on_keyup key s.keyboard s.cpu))
handle_event (SdlEvent.mouse_motion xrel yrel) s = do
  m ← on_motion xrel yrel s.mouse
  ok (record s { mouse = m })
handle_event (SdlEvent.mouse_button_down button clicks) s =
    ok (if clicks == 1 then record s { mouse = on_button_down button s.mouse } else s)
handle_event (SdlEvent.mouse_button_up button clicks) s =
    ok (if clicks == 1 then record s { mouse = on_button_up button s.mouse } else s)
handle_event (SdlEvent.mouse_wheel y true) s = ok (record s { mouse = on_wheel y s.mouse })
handle_event (SdlEvent.mouse_wheel y false) s = ok s
handle_event SdlEvent.quit s = panic
handle_event SdlEvent.other s = ok s

-- The events of the iterator, and whether to stop behind the first.
unfoldable pub pump_events : List SdlEvent → Bool → Inputs → Result Inputs
unfolding handle_event
pump_events [] at_most_one s = ok s
pump_events (event ∷ rest) true s = handle_event event s
pump_events (event ∷ rest) false s = handle_event event s >>= λ s₁. pump_events rest false s₁

module _ {F : Type 0} where
  abbrev pub pump_hw : List SdlEvent → Bool → Hw F → Cpu → Result (Hw F × Cpu)
  pump_hw events at_most_one hw c = do
    s ←
        pump_events events at_most_one
          (record { keyboard = hw.keyboard; mouse = hw.com1.device; cpu = c })
    let p = hw.com1
    ok (record hw { keyboard = s.keyboard; com1 = record p { device = s.mouse } }, s.cpu)

  -- The iterator waits for an event, which is given here.
  unfoldable pub wait_for_event : SdlEvent → Hw F → Cpu → Result (Hw F × Cpu)
  unfolding pump_events
  wait_for_event event hw c = pump_hw (event ∷ []) true hw c

  unfoldable pub try_pump_event : List SdlEvent → Hw F → Cpu → Result (Hw F × Cpu)
  unfolding pump_events
  try_pump_event events hw c = pump_hw events true hw c
