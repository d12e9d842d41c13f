-- ===== src/Bios/Services.antt =====
-- The services of equipment, memory, serial port, system, printer and time: interrupts 0x11, 0x12,
-- 0x14, 0x15, 0x17 and 0x1a (`BIOS::handle_interrupt` of src/bios.rs).
use riapyx.Common.{◌==◌, ◌!=◌, if◌then◌else◌, [], ◌∷◌, select, Result, ok, panic}
use riapyx.Cpu.Instruction.{BReg, WReg, SegReg}
use riapyx.Cpu.Registers.{get_breg, set_segreg}
use riapyx.Cpu.Step.{System}
use riapyx.Mem.{read_u8, read_u16, write_u8}
use riapyx.Bios.{
  with_cpu, with_mem, put_breg, put_wreg, set_carry, clear_carry, bios_segment, rom_conf_table_addr,
  equipment_word_addr,
}

module _ {F B : Type 0} where
  unfoldable pub equipment_service : System F B → System F B
  equipment_service sys = put_wreg WReg.ax (read_u16 sys.mem equipment_word_addr) sys

  unfoldable pub memory_service : System F B → System F B
  unfolding clear_carry
  memory_service sys = clear_carry (put_wreg WReg.ax 639 sys)

  unfoldable pub serial_service : System F B → Result (System F B)
  unfolding get_breg
  serial_service sys =
      if get_breg sys.cpu BReg.ah == 0x0 then ok (put_breg BReg.ah 0x80 sys) else panic

  abbrev get_configuration : System F B → System F B
  get_configuration sys =
      let sys₁ = put_wreg WReg.bx rom_conf_table_addr (put_wreg WReg.ax 0 sys) in
      clear_carry (with_cpu (λ c. set_segreg c SegReg.es bios_segment) sys₁)

  unfoldable pub system_service : System F B → Result (System F B)
  unfolding get_breg set_segreg set_carry clear_carry
  system_service sys =
      select (get_breg sys.cpu BReg.ah)
        ((0x41, ok sys)
          ∷ (0x88, ok (put_breg BReg.ah 0x86 (set_carry sys)))
          ∷ (0xC0, ok (get_configuration sys))
          ∷ (0xC1, ok (set_carry sys))
          ∷ [])
        panic

  unfoldable pub printer_service : System F B → Result (System F B)
  unfolding get_breg set_carry
  printer_service sys =
      if get_breg sys.cpu BReg.ah == 0x1
      then ok (set_carry (put_breg BReg.ah 0b00001000 sys))
      else panic

  -- The midnight flag is given once.
  unfoldable pub get_system_time : System F B → System F B
  get_system_time sys =
      let lo = read_u16 sys.mem 0x46c in
      let hi = read_u16 sys.mem 0x46e in
      let mf = read_u8 sys.mem 0x470 in
      let sys₁ = with_mem (λ mem. if mf != 0 then write_u8 mem 0x470 0 else mem) sys in
      put_wreg WReg.dx lo (put_wreg WReg.cx hi (put_breg BReg.al mf sys₁))

  abbrev get_rtc_time : System F B → System F B
  get_rtc_time sys =
      put_breg BReg.dl 0
        (put_breg BReg.dh 0 (put_breg BReg.cl 0 (put_breg BReg.ch 0 (clear_carry sys))))

  unfoldable pub time_service : System F B → Result (System F B)
  unfolding get_breg get_system_time set_carry clear_carry
  time_service sys =
      select (get_breg sys.cpu BReg.ah)
        ((0x0, ok (get_system_time sys))
          ∷ (0x1, ok sys)
          ∷ (0x2, ok (get_rtc_time sys))
          ∷ (0x4, ok (set_carry sys))
          ∷ [])
        panic
