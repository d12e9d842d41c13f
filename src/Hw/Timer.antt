-- ===== src/Hw/Timer.antt =====
-- A step of the hardware (`HW::step` of src/hw/mod.rs): the devices, the events, and the system
-- clock in the BIOS data area, which counts periods of 55 ms of the time that the machine is given.
pub mod Laws
use riapyx.Common.{
  ℕ, ◌+◌, ◌*◌, ◌/◌, ◌%◌, ◌^◌, bit_and, bit_or, ltb, ◌!=◌, if◌then◌else◌, u16, u32, false, Option,
  none, some, List, Result, ok, ◌>>=◌,
}
use riapyx.Cpu.State.{Cpu}
use riapyx.Cpu.Exec.Stack.{queue_hw_interrupt}
use riapyx.Mem.{Memory, read_u16, write_u16}
use riapyx.Hw.Serial
use riapyx.Hw.Keyboard
use riapyx.Hw.Display
use riapyx.Hw.Display.{render}
use riapyx.Hw.Mouse.{mouse_device}
use riapyx.Hw.Storage.Disk.{Storage, new_floppy, new_hdd}
use riapyx.Hw.Devices.{Hw}
use riapyx.Hw.Events.{SdlEvent, pump_events, pump_hw}

abbrev pub timer_period_ns : ℕ
timer_period_ns = 55000000

abbrev pub event_pump_period_ns : ℕ
event_pump_period_ns = 1000000

unfoldable pub old_system_clock : Memory → ℕ
old_system_clock mem = bit_or (read_u16 mem 0x46c) (u32 (read_u16 mem 0x46e * 2 ^ 16))

unfoldable pub system_clock_at : ℕ → ℕ
system_clock_at time_ns = u32 (time_ns / timer_period_ns % 0x1800B0)

-- "system time handling"
unfoldable pub update_clock : ℕ → Cpu → Memory → Cpu × Memory
unfolding old_system_clock system_clock_at queue_hw_interrupt
update_clock time_ns c mem =
    let old = old_system_clock mem in
    let system_clock = system_clock_at time_ns in
    let c₁ = if old != system_clock then queue_hw_interrupt 0x8 c else c in
    let m₁ = if ltb system_clock old then write_u16 mem 0x470 0x1 else mem in
    let m₂ = write_u16 m₁ 0x46c (u16 (bit_and system_clock 0xffff)) in
    (c₁, write_u16 m₂ 0x46e (u16 (system_clock / 2 ^ 16)))

abbrev insert_floppy : {F : Type 0} → Option F → Option (Storage F)
insert_floppy none = none
insert_floppy (some file) = some (new_floppy file)

abbrev attach_hdd : {F : Type 0} → Option (F × ℕ) → Result (Option (Storage F))
attach_hdd none = ok none
attach_hdd (some (file, size)) = do st ← new_hdd file size; ok (some st)

module _ {F : Type 0} where
  -- The image of the floppy disk, and that of the hard disk with its size.
  unfoldable pub new : Option F → Option (F × ℕ) → Result (Hw F)
  unfolding Serial.new Keyboard.new Display.new
  new floppy_file hdd_file = do
    hdd ← attach_hdd hdd_file
    ok (record {
      floppy = insert_floppy floppy_file;
      hdd = hdd;
      keyboard = Keyboard.new;
      com1 = Serial.new mouse_device;
      display = Display.new;
      last_event_pump_ns = 0;
    })

  -- The events that are there are pumped once every millisecond.
  abbrev pump_in_time : List SdlEvent → ℕ → Hw F → Cpu → Result (Hw F × Cpu)
  pump_in_time events time_ns hw c =
      if ltb ((hw.last_event_pump_ns + event_pump_period_ns) % 2 ^ 64) time_ns
      then (do
        (hw₁, c₁) ← pump_hw events false hw c
        ok (record hw₁ { last_event_pump_ns = time_ns }, c₁))
      else ok (hw, c)

  unfoldable pub step : List SdlEvent → ℕ → ℕ → Hw F → Cpu → Memory → Result (Hw F × Cpu × Memory)
  unfolding update_clock render pump_events
  step events clock time_ns hw c mem = do
    let (d, m₁) = render hw.display mem clock time_ns
    (p, c₁) ← Serial.step mouse_device hw.com1 c
    (hw₂, c₂) ← pump_in_time events time_ns (record hw { display = d; com1 = p }) c₁
    let (c₃, m₂) = update_clock time_ns c₂ m₁
    ok (hw₂, c₃, m₂)
