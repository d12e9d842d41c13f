-- ===== src/Hw/Devices.antt =====
-- The devices of the machine (`HW` of src/hw/mod.rs), but for the window's own handles.
use riapyx.Common.{ℕ, Option}
use riapyx.Hw.Keyboard.{Keyboard}
use riapyx.Hw.Display.{Display}
use riapyx.Hw.Storage.Disk.{Storage}
use riapyx.Hw.Serial.{SerialPort}
use riapyx.Hw.Mouse.{Mouse}

-- `F` is the type of the disk images.
pub record Hw (F : Type 0) : Type 0 where
  pub floppy : Option (Storage F)
  pub hdd : Option (Storage F)
  pub keyboard : Keyboard
  pub display : Display
  pub com1 : SerialPort Mouse
  pub last_event_pump_ns : ℕ
