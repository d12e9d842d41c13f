-- ===== src/Bios/Disk.antt =====
-- The disk services, interrupt 0x13 (`BIOS::handle_interrupt` of src/bios.rs).
use riapyx.Common.{
  ℕ, ◌+◌, ◌-◌, ◌*◌, ◌/◌, ◌^◌, bit_and, bit_or, ◌==◌, if◌then◌else◌, u8, u16, u32, shl8, Bool, true,
  false, Option, none, some, [], ◌∷◌, select, Result, ok, panic, ◌>>=◌,
}
use riapyx.Cpu.Instruction.{BReg, WReg, SegReg}
use riapyx.Cpu.Registers.{get_breg, get_wreg, get_segreg}
use riapyx.Cpu.Step.{System}
use riapyx.Hw.Devices.{Hw}
use riapyx.Hw.Storage.{Status, get_bios_code, heads, cylinders, sectors_per_track}
use riapyx.Hw.Storage.Disk.{Storage, FileOps, read_chs, write_chs}
use riapyx.Bios.{put_breg, put_wreg, set_carry, clear_carry, set_carry_value}

-- Cylinder and sector as CX holds them.
abbrev pub cylinder_of : ℕ → ℕ
cylinder_of cx = u16 (bit_and cx 0xff00 / 2 ^ 8 + u16 (bit_and cx 0x00c0 * 2 ^ 2))

abbrev pub sector_of : ℕ → ℕ
sector_of cx = u8 (bit_and cx 0x003f)

-- `status != storage::Status::Success`
abbrev pub failed : Status → Bool
failed Status.success = false
failed Status.sector_not_found = true

abbrev pub target_storage : {F : Type 0} → ℕ → Hw F → Option (Storage F)
target_storage drive hw = if drive == 0x0 then hw.floppy else if drive == 0x80 then hw.hdd else none

module _ {F B : Type 0} where
  -- The storage behind the reference that `target_storage` gave.
  abbrev pub put_storage : ℕ → Storage F → System F B → System F B
  put_storage drive st sys =
      let hw = sys.hw in
      record sys {
        hw = if drive == 0x0 then record hw { floppy = some st } else record hw { hdd = some st };
      }

  abbrev pub disk_result : Status → ℕ → System F B → System F B
  disk_result status n sys =
      set_carry_value (failed status)
        (put_breg BReg.al n (put_breg BReg.ah (get_bios_code status) sys))

  unfoldable pub get_drive_parameters : ℕ → Storage F → System F B → Result (System F B)
  unfolding heads cylinders sectors_per_track clear_carry
  get_drive_parameters drive st sys = do
    drive_type ← select drive ((0, ok 4) ∷ (0x80, ok 0) ∷ []) panic
    let cyls = u16 (cylinders st.parameters)
    let heads_min1 = u8 (u32 (heads st.parameters + (2 ^ 32 - 1)))
    let spt = u8 (sectors_per_track st.parameters)
    let sys₁ = put_wreg WReg.ax 0 (put_breg BReg.dl 0x1 sys)
    let sys₂ = put_breg BReg.ch (u8 cyls) (put_breg BReg.bl drive_type sys₁)
    let sys₃ = put_breg BReg.cl (bit_or spt (shl8 (u8 (cyls / 2 ^ 8)) 6)) sys₂
    ok (clear_carry (put_breg BReg.dh heads_min1 sys₃))

  unfoldable pub get_disk_type : ℕ → Storage F → System F B → Result (System F B)
  unfolding heads cylinders sectors_per_track clear_carry
  get_disk_type drive st sys =
      let cyls = cylinders st.parameters in
      let sector_count = u32 (u32 (cyls * heads st.parameters) * sectors_per_track st.parameters) in
      if drive == 0
      then ok (clear_carry (put_breg BReg.ah 2 sys))
      else if drive == 0x80
      then ok (
          clear_carry (
            put_wreg WReg.dx (u16 sector_count)
              (put_wreg WReg.cx (u16 (sector_count / 2 ^ 16)) (put_breg BReg.ah 3 sys))))
      else panic

  module _ (ops : FileOps F) where
    unfoldable pub read_sectors : ℕ → Storage F → System F B → Result (System F B)
    unfolding read_chs get_breg get_wreg get_segreg get_bios_code set_carry_value
    read_sectors drive st sys = do
      let cx = get_wreg sys.cpu WReg.cx
      ((status, n), (st₁, mem)) ←
          read_chs ops st sys.mem (get_breg sys.cpu BReg.al) (cylinder_of cx)
            (get_breg sys.cpu BReg.dh) (sector_of cx) (get_segreg sys.cpu SegReg.es)
            (get_wreg sys.cpu WReg.bx)
      ok (disk_result status n (put_storage drive st₁ (record sys { mem = mem })))

    unfoldable pub write_sectors : ℕ → Storage F → System F B → Result (System F B)
    unfolding write_chs get_breg get_wreg get_segreg get_bios_code set_carry_value
    write_sectors drive st sys = do
      let cx = get_wreg sys.cpu WReg.cx
      ((status, n), st₁) ←
          write_chs ops st sys.mem (get_breg sys.cpu BReg.al) (cylinder_of cx)
            (get_breg sys.cpu BReg.dh) (sector_of cx) (get_segreg sys.cpu SegReg.es)
            (get_wreg sys.cpu WReg.bx)
      ok (disk_result status n (put_storage drive st₁ sys))

    -- The services of a drive that is there.
    unfoldable pub drive_service : ℕ → Storage F → System F B → Result (System F B)
    unfolding read_sectors write_sectors get_drive_parameters get_disk_type clear_carry
        set_carry_value get_breg
    drive_service drive st sys =
        select (get_breg sys.cpu BReg.ah)
          ((0x0, ok (set_carry_value false (put_breg BReg.ah 0 sys)))
            ∷ (0x1, ok (put_breg BReg.al 0 sys))
            ∷ (0x2, read_sectors drive st sys)
            ∷ (0x3, write_sectors drive st sys)
            ∷ (0x4, ok (put_breg BReg.ah 0x0 (clear_carry sys)))
            ∷ (0x8, get_drive_parameters drive st sys)
            ∷ (0x15, get_disk_type drive st sys)
            ∷ (0x16, ok (put_breg BReg.ah 0 (clear_carry sys)))
            ∷ (0x18, ok (put_breg BReg.ah 0x1 sys))
            ∷ [])
          panic

    abbrev pub on_drive : ℕ → Option (Storage F) → System F B → Result (System F B)
    on_drive drive none sys =
        if get_breg sys.cpu BReg.ah == 0x15
        then ok (put_breg BReg.ah 0x0 sys)
        else ok (set_carry sys)
    on_drive drive (some st) sys = drive_service drive st sys

    unfoldable pub disk_service : System F B → Result (System F B)
    unfolding drive_service get_breg set_carry
    disk_service sys =
        let drive = get_breg sys.cpu BReg.dl in on_drive drive (target_storage drive sys.hw) sys
