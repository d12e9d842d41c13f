-- ===== src/Bios/Boot.antt =====
-- Booting (`BIOS::boot` of src/bios.rs): the tables, the drives' parameters, and the first sector of
-- the boot drive at 0x7c00, to which a far jump leads.
use riapyx.Common.{
  ℕ, ◌!=◌, ◌||◌, if◌then◌else◌, add16, Option, none, some, Result, ok, panic, ◌>>=◌,
}
use riapyx.Cpu.Instruction.{BReg}
use riapyx.Cpu.State.{phys_addr}
use riapyx.Cpu.Step.{System}
use riapyx.Hw.Devices.{Hw}
use riapyx.Hw.Display.{GraphicMode, set_mode}
use riapyx.Hw.Storage.Disk.{Storage, FileOps, init, read, unwrap}
use riapyx.Mem.{Memory, write_u8}
use riapyx.Bios.{Bios, BootDrive, init_ivt, init_romconf, write_ivt_entry, put_breg, bios_segment}
use riapyx.Bios.Disk.{put_storage, failed}

-- "jmp far 0:0x7c00"
unfoldable pub write_far_jmp : Memory → Memory
unfolding phys_addr
write_far_jmp mem =
    let at = λ (i : ℕ). phys_addr bios_segment (add16 0xfff0 i) in
    let m₁ = write_u8 mem (at 0) 0xea in
    let m₂ = write_u8 m₁ (at 1) 0x00 in
    let m₃ = write_u8 m₂ (at 2) 0x7c in let m₄ = write_u8 m₃ (at 3) 0x00 in write_u8 m₄ (at 4) 0x00

module _ {F : Type 0} where
  abbrev pub storage_init : Option (Storage F) → Memory → Memory
  storage_init none mem = mem
  storage_init (some st) mem =
      let ((irq, seg, addr), m₁) = init st mem in write_ivt_entry irq seg addr m₁

  -- The boot drive's number and its image, which must be there.
  unfoldable pub boot_storage : BootDrive → Hw F → Result (ℕ × Storage F)
  boot_storage BootDrive.floppy hw = do st ← unwrap hw.floppy; ok (0x0, st)
  boot_storage BootDrive.hard_drive hw = do st ← unwrap hw.hdd; ok (0x80, st)

  unfoldable pub boot : FileOps F → System F Bios → Result (System F Bios)
  unfolding init_ivt init_romconf write_ivt_entry init read write_far_jmp set_mode boot_storage
  boot ops sys = do
    let m₁ = init_ivt sys.mem
    let m₂ = storage_init sys.hw.hdd (storage_init sys.hw.floppy m₁)
    let m₃ = init_romconf m₂
    (bios_drive, st) ← boot_storage sys.bios.boot_drive sys.hw
    let sys₁ = put_breg BReg.dl bios_drive sys
    ((result, n), (st₁, m₄)) ← read ops st m₃ 0x0 0x7c00 512
    (if failed result || n != 512
        then panic
        else (let (d, m₅) = set_mode sys.hw.display (write_far_jmp m₄) GraphicMode.t8025 in
            let sys₂ = put_storage bios_drive st₁ (record sys₁ { mem = m₅ }) in
            let hw = sys₂.hw in ok (record sys₂ { hw = record hw { display = d } })))
