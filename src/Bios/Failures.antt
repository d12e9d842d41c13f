-- ===== src/Bios/Failures.antt =====
-- What a program sees of a transfer of sectors that its drive does not have.
use riapyx.Common.{ℕ, ◌≡◌, ap, arith, true, Returns}
use riapyx.Cpu.Instruction.{BReg, WReg}
use riapyx.Cpu.State.{Cpu, core, flag_c}
use riapyx.Cpu.Registers.{get_breg, set_breg, get_wreg, get_segreg, set_flag_value}
use riapyx.Cpu.Registers.Laws.{IsCpu}
use riapyx.Cpu.Exec.Stack.{
  push_frame, request_interrupt, return_from_interrupt, stack_push, stack_pop,
}
use riapyx.Cpu.Step.{System}
use riapyx.Hw.Storage.{Status, get_bios_code}
use riapyx.Hw.Storage.Disk.{Storage, FileOps, is_invalid_chs, read_chs, write_chs}
use riapyx.Bios.{set_carry_value, set_saved_flag}
use riapyx.Bios
use riapyx.Bios.Flags.{return_from_interrupt-set_saved_flag}
use riapyx.Bios.Disk.{cylinder_of, sector_of, disk_result, read_sectors, write_sectors}

-- The cylinder, head or sector that the registers name is none of the drive's.
abbrev pub NamesNoSector : {F : Type 0} → Storage F → Cpu → Type 0
NamesNoSector st c =
    let cx = get_wreg c WReg.cx in
    is_invalid_chs st.parameters (cylinder_of cx) (get_breg c BReg.dh) (sector_of cx) ≡ true

module _ {F B : Type 0} where
  -- The machine in the handler of interrupt `n`.
  abbrev pub interrupted : ℕ → System F B → System F B
  interrupted n sys =
      let t = request_interrupt n (core sys.cpu sys.mem) in record sys { cpu = t.cpu; mem = t.mem }

  -- Behind the `IRET`: "sector not found", no sectors, and carry.
  abbrev pub HasFailed : Cpu → System F B → Type 0
  HasFailed c sys =
      return_from_interrupt sys.mem sys.cpu
      ≡ set_breg (set_breg (set_flag_value flag_c true c) BReg.ah 4) BReg.al 0

  -- What a handler returns for a sector that is not found reaches the program.
  in_handler :
      (sys : System F B) (n : ℕ)
      → IsCpu sys.cpu
      → HasFailed sys.cpu (disk_result Status.sector_not_found 0 (interrupted n sys))
  unfolding request_interrupt push_frame get_bios_code set_carry_value Bios.set_flag_value
      return_from_interrupt set_breg stack_push stack_pop set_saved_flag
  in_handler sys n h =
      ap (λ c. set_breg (set_breg c BReg.ah 4) BReg.al 0)
        (return_from_interrupt-set_saved_flag (core sys.cpu sys.mem) n flag_c true h (omega arith))

  read_fails :
      (ops : FileOps F) (drive : ℕ) (st : Storage F) (sys : System F B) (n : ℕ)
      → IsCpu sys.cpu
      → NamesNoSector st sys.cpu
      → Returns (HasFailed sys.cpu) (read_sectors ops drive st (interrupted n sys))
  unfolding read_sectors read_chs request_interrupt push_frame get_breg get_wreg get_segreg
  read_fails ops drive st sys n h e = rw e (in_handler sys n h)

  write_fails :
      (ops : FileOps F) (drive : ℕ) (st : Storage F) (sys : System F B) (n : ℕ)
      → IsCpu sys.cpu
      → NamesNoSector st sys.cpu
      → Returns (HasFailed sys.cpu) (write_sectors ops drive st (interrupted n sys))
  unfolding write_sectors write_chs request_interrupt push_frame get_breg get_wreg get_segreg
  write_fails ops drive st sys n h e = rw e (in_handler sys n h)

  -- Where the registers fit their types and name a cylinder, a head or a sector that the drive does
  -- not have: both transfers return from the handler of an interrupt, and behind its `IRET` the
  -- program finds AH at 4, AL at 0 and the carry set, and its other registers as they were.
  pub transfers-HasFailed :
      (ops : FileOps F) (drive : ℕ) (st : Storage F) (sys : System F B) (n : ℕ)
      → IsCpu sys.cpu
      → NamesNoSector st sys.cpu
      → Returns (HasFailed sys.cpu) (read_sectors ops drive st (interrupted n sys))
        × Returns (HasFailed sys.cpu) (write_sectors ops drive st (interrupted n sys))
  transfers-HasFailed ops drive st sys n h e =
      (read_fails ops drive st sys n h e, write_fails ops drive st sys n h e)
