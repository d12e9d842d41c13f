-- ===== src/Tests/Devices.antt =====
-- The serial port and the mouse.
use riapyx.Common.{◌≡◌, refl, true, false, is_ok, Returns, some, [], ◌∷◌}
use riapyx.Common.Int.{pos}
use riapyx.Hw.Serial
use riapyx.Hw.Serial.{SerialPort, write_lc, read_lc, write_ier, read_ier, write_mc, read_mc}
use riapyx.Hw.Serial.Laws.{write_lc-is_ok}
use riapyx.Hw.Mouse.{Mouse, Event, mouse_device}
use riapyx.Hw.Mouse.Events.{reads, reads-event_bytes}

abbrev port : SerialPort Mouse
port = Serial.new mouse_device

write_lc-is_ok_example : is_ok (write_lc 0x87 port) ≡ false
write_lc-is_ok_example = write_lc-is_ok 0x87 port

abbrev click : Event
click = record { first_byte = 0x60; second_byte = 1; third_byte = 2 }

abbrev release : Event
release = record { first_byte = 0x40; second_byte = 3; third_byte = 4 }

abbrev ready_mouse : Mouse
ready_mouse = record {
  hw_init = true;
  initialized = true;
  current_event_byte_count = 0;
  events = click ∷ release ∷ [];
  left_button_pressed = false;
  right_button_pressed = false;
  speed_divisor = pos 1;
}

reads-event_bytes_example :
    Returns
      (λ t. t.0 ≡ some 0x60 ∷ some 1 ∷ some 2 ∷ some 0x40 ∷ some 3 ∷ some 4 ∷ [])
      (reads 6 ready_mouse)
reads-event_bytes_example = reads-event_bytes ready_mouse refl refl refl
