-- ===== src/Tests/Peripherals.antt =====
-- The keyboard, the mouse's motion, the display and the timer.
use riapyx.Common.{if◌then◌else◌, ltb, ◌==◌, ◌≡◌, refl, arith, true, Returns, [], ◌∷◌}
use riapyx.Common.Int.{pos, negsuc}
use riapyx.Hw.Bda.{get}
use riapyx.Hw.Display
use riapyx.Hw.Display.{Cursor, new_cursor, cursor_at}
use riapyx.Hw.Display.Cursors.{OnScreen, tty_output-OnScreen}
use riapyx.Hw.Display.Screen.{cell, tty_scroll-cell}
use riapyx.Hw.Display.Text.{tty_output, tty_scroll}
use riapyx.Hw.Keyboard.{Keyboard}
use riapyx.Hw.Keyboard.Events.{bios_pump_keystrokes}
use riapyx.Hw.Keyboard.Events.Pump.{modifiers, bios_pump_keystrokes-IsPumped}
use riapyx.Hw.Scancodes.{scancode_to_ascii}
use riapyx.Hw.Mouse
use riapyx.Hw.Mouse.Motion.{on_motion}
use riapyx.Hw.Mouse.Motion.Sum.{IsMoved, on_motion-IsMoved}
use riapyx.Hw.Timer.{update_clock, old_system_clock}
use riapyx.Hw.Timer.Laws.{IsClock, update_clock_lem}
use riapyx.Mem
use riapyx.Mem.{read_u8, read_u16}
use riapyx.Tests.Sample.{sample_cpu}

-- The left shift key, the key A, and both come up.
abbrev shifted_a : Keyboard
shifted_a = record {
  bios_queue = [];
  io_queue = 0x2a ∷ 0x1e ∷ 0x9e ∷ 0xaa ∷ [];
  ppi_a = 0;
  enable_irq = true;
  shift_flags = record { idx = 0x17 };
}

bios_pump_keystrokes-IsPumped_example :
    let r = bios_pump_keystrokes shifted_a Mem.new in
    (r.0.io_queue ≡ [])
    × (r.0.bios_queue
        ≡ record { scancode = 0x2a; ascii = 0 } ∷ record { scancode = 0x1e; ascii = b'A' } ∷ [])
    × (modifiers (get shifted_a.shift_flags r.1) ≡ modifiers 0)
unfolding get read_u8 Mem.new scancode_to_ascii
bios_pump_keystrokes-IsPumped_example =
    bios_pump_keystrokes-IsPumped shifted_a Mem.new
      (omega arith, (omega arith, (omega arith, (omega arith, tt))))

on_motion-IsMoved_example :
    Returns (IsMoved Mouse.new (pos 300) (negsuc 200)) (on_motion (pos 300) (negsuc 200) Mouse.new)
unfolding Mouse.new
on_motion-IsMoved_example = on_motion-IsMoved (pos 300) (negsuc 200) Mouse.new refl refl refl

tty_output-OnScreen_example :
    Returns (OnScreen (new_cursor 0x52)) (tty_output Display.new Mem.new 1 0x41 7)
unfolding Display.new new_cursor cursor_at Display.page_count Mem.new get read_u8
tty_output-OnScreen_example =
    tty_output-OnScreen Display.new Mem.new 1 0x41 7 (new_cursor 0x52) (omega arith)
      (record { is_there = refl; is_byte = omega arith; is_next = refl }) (omega arith, omega arith)

tty_scroll-cell_example :
    cell Display.new 0 (tty_scroll Display.new Mem.new 0 2 3 40 20 7) 5 20 ≡ 0x700
unfolding Display.new Display.page_count
tty_scroll-cell_example =
    tty_scroll-cell Display.new Mem.new 0 2 3 40 20 7 5 20 (omega arith) (omega arith) (omega arith)
      (omega arith) (omega arith) (omega arith) (omega arith)

update_clock_lem_example :
    let r = update_clock 110000000 sample_cpu Mem.new in
    IsClock 110000000 (old_system_clock r.1)
    × (r.0.pending_interrupts
        ≡ 8 ∷ 12 ∷ (if old_system_clock Mem.new == old_system_clock r.1 then [] else 8 ∷ []))
    × (read_u8 r.1 0x470 ≡ (
        if ltb (old_system_clock r.1) (old_system_clock Mem.new) then 1 else read_u8 Mem.new 0x470))
update_clock_lem_example = update_clock_lem 110000000 sample_cpu Mem.new
