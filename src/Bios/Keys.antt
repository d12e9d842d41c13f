-- ===== src/Bios/Keys.antt =====
-- The keyboard services, interrupt 0x16 (`BIOS::handle_interrupt` of src/bios.rs).
use riapyx.Common.{
  Bool, true, false, Option, none, some, List, [], ◌∷◌, select, Result, ok, panic, ◌>>=◌,
}
use riapyx.Cpu.Instruction.{BReg}
use riapyx.Cpu.State.{flag_z}
use riapyx.Cpu.Registers.{get_breg}
use riapyx.Cpu.Step.{System}
use riapyx.Hw.Keyboard.{
  Keyboard, Keystroke, set_irq, try_pop_keystroke, check_keystroke, get_shift_flags,
}
use riapyx.Hw.Keyboard.Events.{bios_pump_keystrokes}
use riapyx.Hw.Events.{SdlEvent, wait_for_event}
use riapyx.Mem.{Memory}
use riapyx.Bios.{put_breg, set_carry, set_flag_value}

module _ {F B : Type 0} where
  abbrev pub put_keyboard : Keyboard → System F B → System F B
  put_keyboard k sys = let hw = sys.hw in record sys { hw = record hw { keyboard = k } }

  abbrev pump_into : Keyboard × Memory → System F B → System F B
  pump_into (k, mem) sys = put_keyboard k (record sys { mem = mem })

  unfoldable pub pump_keystrokes : System F B → System F B
  unfolding bios_pump_keystrokes
  pump_keystrokes sys = pump_into (bios_pump_keystrokes sys.hw.keyboard sys.mem) sys

  abbrev put_keystroke : Keystroke → System F B → System F B
  put_keystroke stroke sys = put_breg BReg.al stroke.ascii (put_breg BReg.ah stroke.scancode sys)

  abbrev attempt : Option Keystroke × Keyboard → System F B → Bool × System F B
  attempt (none, k) sys = (false, put_keyboard k sys)
  attempt (some stroke, k) sys = (true, put_keystroke stroke (put_keyboard k sys))

  -- A turn of the loop that waits for a keystroke, and whether there was one.
  unfoldable pub try_keystroke : System F B → Bool × System F B
  unfolding pump_keystrokes try_pop_keystroke
  try_keystroke sys =
      let sys₁ = pump_keystrokes sys in attempt (try_pop_keystroke sys₁.hw.keyboard) sys₁

  -- The loop, given the events that it will meet. Where these run out it waits for ever, and does
  -- not return, as a panic.
  unfoldable pub await_keystroke : List SdlEvent → System F B → Result (System F B)
  unfolding try_keystroke wait_for_event
  await_keystroke [] sys =
      let (found, sys₁) = try_keystroke sys in elim found [ true ↦ ok sys₁ | false ↦ panic ]
  await_keystroke (event ∷ awaited) sys =
      let (found, sys₁) = try_keystroke sys in
      elim found [
        | true ↦ ok sys₁
        | false ↦ wait_for_event event sys₁.hw sys₁.cpu >>= λ (hw, c).
            await_keystroke awaited (record sys₁ { hw = hw; cpu = c })
      ]

  -- Keyboard interrupts are off while it waits.
  unfoldable pub wait_for_keystroke : List SdlEvent → System F B → Result (System F B)
  unfolding await_keystroke set_irq
  wait_for_keystroke awaited sys = do
    sys₁ ← await_keystroke awaited (put_keyboard (set_irq false sys.hw.keyboard) sys)
    ok (put_keyboard (set_irq true sys₁.hw.keyboard) sys₁)

  abbrev report_keystroke : Option Keystroke → System F B → System F B
  report_keystroke none sys = set_flag_value flag_z true sys
  report_keystroke (some stroke) sys = put_keystroke stroke (set_flag_value flag_z false sys)

  unfoldable pub keyboard_service : List SdlEvent → System F B → Result (System F B)
  unfolding wait_for_keystroke check_keystroke set_flag_value get_shift_flags set_carry get_breg
  keyboard_service awaited sys =
      select (get_breg sys.cpu BReg.ah)
        ((0x0, wait_for_keystroke awaited sys)
          ∷ (0x1, ok (report_keystroke (check_keystroke sys.hw.keyboard) sys))
          ∷ (0x2, ok (put_breg BReg.al (get_shift_flags sys.hw.keyboard sys.mem) sys))
          ∷ (0x92, ok (set_carry sys))
          ∷ (0x55, ok (set_carry sys))
          ∷ (0x03, ok (set_carry sys))
          ∷ (0xff, ok (set_carry sys))
          ∷ [])
        panic
