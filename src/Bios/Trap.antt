-- ===== src/Bios/Trap.antt =====
-- The BIOS call that the processor makes when CS is a trap segment (`cpu_trap` and
-- `handle_interrupt` of src/bios.rs): at the reset vector the machine boots, and elsewhere IP is the
-- number of the interrupt.
use riapyx.Common.{
  ℕ, leb, ◌==◌, ◌&&◌, ◌||◌, if◌then◌else◌, Bool, List, [], ◌∷◌, select, Result, ok, panic, ◌>>=◌,
}
use riapyx.Cpu.Step.{System}
use riapyx.Hw.Display.{tty_setcoords}
use riapyx.Hw.Events.{SdlEvent}
use riapyx.Hw.Storage.Disk.{FileOps}
use riapyx.Mem.{clear_vram}
use riapyx.Bios.{Bios, BiosState}
use riapyx.Bios.Boot.{boot}
use riapyx.Bios.Disk.{disk_service}
use riapyx.Bios.Keys.{keyboard_service, pump_keystrokes}
use riapyx.Bios.Services.{
  equipment_service, memory_service, serial_service, system_service, printer_service, time_service,
}
use riapyx.Bios.Video.{video_service}

module _ {F : Type 0} (ops : FileOps F) (awaited : List SdlEvent) where
  -- "CPU exception"
  abbrev crash : System F Bios → System F Bios
  crash sys = let bios = sys.bios in record sys { bios = record bios { state = BiosState.crashed } }

  unfoldable pub handle_interrupt : ℕ → System F Bios → Result (System F Bios)
  unfolding pump_keystrokes video_service equipment_service memory_service disk_service
      serial_service system_service keyboard_service printer_service time_service
  handle_interrupt interrupt_number sys =
      select interrupt_number
        ((0x0, ok (crash sys))
          ∷ (0x2, ok sys)
          ∷ (0x8, ok sys)
          ∷ (0x9, ok (pump_keystrokes sys))
          ∷ (0x10, video_service sys)
          ∷ (0x11, ok (equipment_service sys))
          ∷ (0x12, ok (memory_service sys))
          ∷ (0x13, disk_service ops sys)
          ∷ (0x14, serial_service sys)
          ∷ (0x15, system_service sys)
          ∷ (0x16, keyboard_service awaited sys)
          ∷ (0x17, printer_service sys)
          ∷ (0x1a, time_service sys)
          ∷ [])
        panic

  abbrev at_reset_vector : ℕ → ℕ → Bool
  at_reset_vector cs ip = (cs == 0xffff && ip == 0x0000) || (cs == 0xf000 && ip == 0xfff0)

  unfoldable pub cpu_trap : System F Bios → Result (System F Bios)
  cpu_trap sys =
      if at_reset_vector sys.cpu.cs sys.cpu.ip
      then (do
        mem ← tty_setcoords sys.hw.display (clear_vram sys.mem) 0 0 0
        boot ops (record sys { mem = mem }))
      else if leb sys.cpu.ip 0xff
      then handle_interrupt sys.cpu.ip sys
      else panic
