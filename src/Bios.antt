-- ===== src/Bios.antt =====
-- The BIOS (src/bios.rs): its state, the interrupt vectors and tables that it sets up, and the flags
-- that it returns. One child for the services of each device.
pub mod Disk
pub mod Video
pub mod Keys
pub mod Services
pub mod Boot
pub mod Trap
pub mod Tables
pub mod Flags
pub mod Drives
pub mod Failures
pub mod Booting
use riapyx.Common.{
  ℕ, zero, suc, ◌+◌, ◌-◌, ◌*◌, bit_and, bit_or, if◌then◌else◌, add16, Bool, true, false,
}
use riapyx.Cpu.State.{Cpu, complement, phys_addr, flag_c}
use riapyx.Cpu.Instruction.{BReg, WReg}
use riapyx.Cpu.Registers.{set_breg, set_wreg}
use riapyx.Cpu.Step.{System}
use riapyx.Mem.{Memory, read_u16, write_u8, write_u16}

pub data BiosState : Type 0 where
  good crashed : BiosState

pub data BootDrive : Type 0 where
  floppy hard_drive : BootDrive

pub record Bios : Type 0 where
  pub state : BiosState
  pub boot_drive : BootDrive

unfoldable pub new : BootDrive → Bios
new boot_drive = record { state = BiosState.good; boot_drive = boot_drive }

abbrev pub bios_segment : ℕ
bios_segment = 0xf000

abbrev pub rom_conf_table_addr : ℕ
rom_conf_table_addr = 0xE6F5

abbrev pub equipment_word : ℕ
equipment_word = 0x21

abbrev pub equipment_word_addr : ℕ
equipment_word_addr = 0x410

unfoldable pub write_ivt_entry : ℕ → ℕ → ℕ → Memory → Memory
write_ivt_entry number seg addr mem =
    write_u16 (write_u16 mem (number * 4) addr) (number * 4 + 2) seg

-- `for irq in 0..0xff`: `n` interrupts from `irq` on.
unfoldable pub init_vectors : ℕ → ℕ → Memory → Memory
unfolding write_ivt_entry phys_addr
init_vectors zero irq mem = mem
init_vectors (suc n) irq mem =
    init_vectors n (irq + 1)
      (write_u8 (write_ivt_entry irq bios_segment irq mem) (phys_addr bios_segment irq) 0b11001111)

unfoldable pub init_ivt : Memory → Memory
init_ivt mem = init_vectors 0xff 0 mem

unfoldable pub init_romconf : Memory → Memory
unfolding phys_addr
init_romconf mem =
    let at = λ (i : ℕ). phys_addr bios_segment (rom_conf_table_addr + i) in
    let m₁ = write_u16 mem (at 0) 8 in
    let m₂ = write_u8 m₁ (at 2) 0xFC in
    let m₃ = write_u8 m₂ (at 3) 0 in
    let m₄ = write_u8 m₃ (at 4) 0 in
    let m₅ = write_u8 m₄ (at 5) 0b00000000 in
    let m₆ = write_u8 m₅ (at 6) 0b00000000 in
    let m₇ = write_u8 m₆ (at 7) 0b00000000 in
    let m₈ = write_u8 m₇ (at 8) 0b00000000 in
    let m₉ = write_u8 m₈ (at 9) 0b00000000 in write_u16 m₉ equipment_word_addr equipment_word

-- `BIOS::set_flag_value`: the flags are those on the stack, which `IRET` restores.
unfoldable pub set_saved_flag : ℕ → Bool → Cpu → Memory → Memory
unfolding phys_addr complement
set_saved_flag flag_mask is_set c mem =
    let flags_addr = phys_addr c.ss (add16 c.sp 4) in
    let flags = read_u16 mem flags_addr in
    write_u16 mem flags_addr
      (if is_set then bit_or flags flag_mask else bit_and flags (complement flag_mask))

module _ {F B : Type 0} where
  abbrev pub with_cpu : (Cpu → Cpu) → System F B → System F B
  with_cpu f sys = record sys { cpu = f sys.cpu }

  abbrev pub with_mem : (Memory → Memory) → System F B → System F B
  with_mem f sys = record sys { mem = f sys.mem }

  abbrev pub put_breg : BReg → ℕ → System F B → System F B
  put_breg r val = with_cpu (λ c. set_breg c r val)

  abbrev pub put_wreg : WReg → ℕ → System F B → System F B
  put_wreg r val = with_cpu (λ c. set_wreg c r val)

  unfoldable pub set_flag_value : ℕ → Bool → System F B → System F B
  unfolding set_saved_flag
  set_flag_value flag_mask is_set sys = with_mem (set_saved_flag flag_mask is_set sys.cpu) sys

  unfoldable pub set_carry_value : Bool → System F B → System F B
  unfolding set_flag_value
  set_carry_value is_set sys = set_flag_value flag_c is_set sys

  unfoldable pub set_carry : System F B → System F B
  unfolding set_carry_value
  set_carry sys = set_carry_value true sys

  unfoldable pub clear_carry : System F B → System F B
  unfolding set_carry_value
  clear_carry sys = set_carry_value false sys
