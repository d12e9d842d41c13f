-- ===== src/Bios/Booting.antt =====
-- The way from the reset vector to the boot sector.
use riapyx.Common.{
  ℕ, suc, ◌+◌, ◌<◌, ◌≤◌, ◌≡◌, refl, ap, ◌∙◌, arith, none, List, [], Slice, ok, ◌>>=◌, Returns,
  >>=-Returns, Returns-mono, Bool-cases, inl, inr, ◌!=◌, bit_and,
}
use mathlib.Core.Path.{subst}
use riapyx.Cpu.Instruction.{
  Instruction, sized, SizedInstruction, BReg, SingleOperandFcOpCode, FlowControlOperand,
}
use riapyx.Cpu.State.{Cpu, core, phys_addr, flag_i}
use riapyx.Cpu.Registers.{set_breg}
use riapyx.Cpu.Parser.{parse_instruction}
use riapyx.Cpu.Parser.Iced.{IcedInstruction}
use riapyx.Cpu.Step.{
  System, system, step, next_non_prefix_instruction, execute_sized, poll_interrupts,
}
use riapyx.Cpu.Step.{execute}
use riapyx.Cpu.Access.{load_fcoperand}
use riapyx.Cpu.Exec.Control.{run_sfcop_ins}
use riapyx.Cpu.Step.Fetch.{Fetches, next_non_prefix_instruction_iff}
use riapyx.Hw.Display.{Display, GraphicMode, set_mode, tty_setcoords}
use riapyx.Hw.Display
use riapyx.Hw.Events.{SdlEvent}
use riapyx.Hw.Storage.Disk.{FileOps, Storage, copy_from}
use riapyx.Hw.Storage.Transfer.{IsFile, read_lem, copy_from_lem, found, found_byte, in_block}
use riapyx.Bios.{Bios, init_ivt, init_romconf}
use riapyx.Bios.Boot.{boot, boot_storage, storage_init, write_far_jmp}
use riapyx.Bios.Trap.{cpu_trap}
use riapyx.Mem
use riapyx.Mem.{Memory, clear_vram, addr_max, read_u8, write_u8, slice_from}

-- The far jump to 0:0x7c00, as the decoder reads it.
abbrev far_jmp : SizedInstruction
far_jmp =
    sized
      (Instruction.single_fc_operand SingleOperandFcOpCode.jmp
        (FlowControlOperand.direct_inter_seg 0 0x7c00))
      5

far_jmp-parsed :
    (iced : Slice → IcedInstruction) (byte : ℕ → ℕ)
    → byte 0 ≡ 0xea
    → byte 1 ≡ 0
    → byte 2 ≡ 0x7c
    → byte 3 ≡ 0
    → byte 4 ≡ 0
    → parse_instruction iced (record { len = 16; byte = byte }) ≡ ok far_jmp
unfolding parse_instruction riapyx.Cpu.Parser.Short.prefix4bit riapyx.Cpu.Parser.Short.prefix5bit
    riapyx.Cpu.Parser.Operands.get_wreg riapyx.Cpu.Parser.Short.prefix6bit
    riapyx.Cpu.Parser.Short.prefix3_3_bit riapyx.Cpu.Parser.Byte.prefix7bit
    riapyx.Cpu.Parser.Byte.prefix_8bit riapyx.Cpu.Parser.Byte.direct_interseg_fc_ins
    riapyx.Cpu.Parser.Operands.word_at
far_jmp-parsed iced byte a b c d e = rw (a, b, c, d, e) refl

-- The memory behind the last writes of the boot code.
abbrev finished : Memory → Memory
finished m = (set_mode Display.new (write_far_jmp m) GraphicMode.t8025).1

finished-below :
    (m : Memory) (b : ℕ) → 0x500 ≤ b → b < 0xffff0 → read_u8 (finished m) b ≡ read_u8 m b
unfolding write_far_jmp set_mode Display.new read_u8 write_u8 Mem.write_u16
finished-below m b p q = ground arith

-- The bytes at the reset vector.
abbrev rom_bytes : Memory → Slice
rom_bytes m = record { len = 16; byte = λ i. (finished m).ram (0xffff0 + i) }

rom_bytes-sliced : (m : Memory) → slice_from (finished m) 0xffff0 ≡ ok (rom_bytes m)
unfolding slice_from
rom_bytes-sliced m = refl

rom_bytes-parsed :
    (iced : Slice → IcedInstruction) (m : Memory)
    → parse_instruction iced (rom_bytes m) ≡ ok far_jmp
unfolding write_far_jmp set_mode Display.new write_u8 Mem.write_u16
rom_bytes-parsed iced m =
    far_jmp-parsed iced (λ i. (finished m).ram (0xffff0 + i)) refl refl refl refl refl

home :
    (d : Display) (m : Memory) → d ≡ Display.new → (m₁ : Memory) × (tty_setcoords d m 0 0 0 ≡ ok m₁)
unfolding tty_setcoords Display.new Display.cursor_at
home d m e = rw e (_, refl)

-- The processor at the reset vector, behind no prefix and with no interrupt that waits.
abbrev pub at_reset : Cpu → Cpu
at_reset c = record c {
  cs = 0xf000;
  ip = 0xfff0;
  segment_override_prefix = none;
  rep_prefix = none;
  pending_interrupts = [];
}

abbrev pub IsAtReset : Cpu → Type 0
IsAtReset c = at_reset c ≡ c

-- Of `c` and the drive's number: the processor has jumped to the boot sector, with the number in
-- DL, and the first sector of the drive's image, whose bytes are `sector`, is in memory there.
pub record IsBooted {F : Type 0} (c : Cpu) (drive : ℕ) (sector : ℕ → ℕ) (t : System F Bios)
    : Type 0 where
  pub jumped_there :
      t.cpu ≡ (let c₁ = set_breg c BReg.dl drive in record c₁ { cs = 0; ip = 0x7c00 })
  pub loaded_there : (i : ℕ) → i < 512 → read_u8 t.mem (0x7c00 + i) ≡ sector i

module _ {F : Type 0} (ops : FileOps F) (contents : F → ℕ → ℕ) (position : F → ℕ) (size : ℕ)
    (file : IsFile ops contents position size) (st : Storage F) (fits : 512 ≤ size) where
  -- What the boot code makes of the memory in which the tables stand.
  abbrev loaded : Memory → Memory
  loaded m =
      finished (copy_from (found ops contents position size file st.file 0 512) 512 0 0x7c00 m)

  loaded_byte :
      (m : Memory) (i : ℕ) → i < 512 → read_u8 (loaded m) (0x7c00 + i) ≡ contents st.file i
  loaded_byte m i h =
      let buf = found ops contents position size file st.file 0 512 in
      finished-below (copy_from buf 512 0 0x7c00 m) (0x7c00 + i) (omega arith) (omega (arith, h))
      ∙ copy_from_lem buf 512 0 0x7c00 m (0x7c00 + i) (omega arith) (omega (arith, h))
      ∙ in_block buf.byte 0x7c00 i 512 (read_u8 m (0x7c00 + i)) h
      ∙ found_byte ops contents position size file st.file 0 512 i
      ∙ ap (contents st.file) (omega arith)

  abbrev IsLoaded : Cpu → ℕ → System F Bios → Type 0
  IsLoaded c drive t = (m : Memory) × (t.mem ≡ loaded m) × (t.cpu ≡ set_breg c BReg.dl drive)

  boot_lem :
      (sys : System F Bios) (drive : ℕ)
      → sys.hw.display ≡ Display.new
      → boot_storage sys.bios.boot_drive sys.hw ≡ ok (drive, st)
      → Returns (IsLoaded sys.cpu drive) (boot ops sys)
  unfolding boot
  boot_lem sys drive d e =
      rw (e, read_lem ops contents position size file st _ 0 0x7c00 512 fits, d)
        (
          init_romconf (storage_init sys.hw.hdd (storage_init sys.hw.floppy (init_ivt sys.mem))),
          refl,
          refl,
        )

  trap_lem :
      (awaited : List SdlEvent) (c : Cpu) (sys : System F Bios) (drive : ℕ)
      → sys.hw.display ≡ Display.new
      → boot_storage sys.bios.boot_drive sys.hw ≡ ok (drive, st)
      → Returns
          (IsLoaded (at_reset c) drive)
          (cpu_trap ops awaited (record sys { cpu = at_reset c }))
  unfolding cpu_trap
  trap_lem awaited c sys drive d e =
      let (m, h) = home sys.hw.display (clear_vram sys.mem) d in
      rw h (boot_lem (record sys { cpu = at_reset c; mem = m }) drive d e)

  poll_lem : (c : Cpu) (m : Memory) → poll_interrupts (core (at_reset c) m) ≡ core (at_reset c) m
  unfolding poll_interrupts
  poll_lem c m = elim (Bool-cases (bit_and c.flags flag_i != 0)) [
    | inl h ↦ rw h refl
    | inr h ↦ rw h refl
  ]

  abbrev Booted : ℕ → Cpu → System F Bios → Type 0
  Booted drive c t =
      (m : Memory) × (t.mem ≡ loaded m)
      × (t.cpu
          ≡ (let c₁ = set_breg (at_reset c) BReg.dl drive in record c₁ { cs = 0; ip = 0x7c00 }))

  fetched :
      (iced : Slice → IcedInstruction) (fuel : ℕ) (c : Cpu) (m : Memory) (drive : ℕ)
      → let c₁ = set_breg (at_reset c) BReg.dl drive in
        next_non_prefix_instruction iced (suc fuel) (loaded m) c₁.ip c₁ ≡ ok (far_jmp, c₁)
  unfolding set_breg phys_addr
  fetched iced fuel c m drive =
      let c₁ = set_breg (at_reset c) BReg.dl drive in
      (next_non_prefix_instruction_iff iced (loaded m) (suc fuel) 0xfff0 c₁ c₁ far_jmp).1 (
        0,
        omega arith,
        Fetches.plain 0xfff0 c₁ (rom_bytes _) far_jmp (rom_bytes-sliced _) (rom_bytes-parsed iced _)
            tt,
      )

  jumped :
      (iced : Slice → IcedInstruction) (fuel : ℕ) (c : Cpu) (t : System F Bios) (drive : ℕ)
      → (m : Memory) → t.mem ≡ loaded m
      → t.cpu ≡ set_breg (at_reset c) BReg.dl drive
      → Returns (Booted drive c) (do
        (ins, c₁) ← next_non_prefix_instruction iced (suc fuel) t.mem t.cpu.ip t.cpu
        (s₃, hw₃) ← execute_sized iced ins (core c₁ t.mem) t.hw
        ok (system s₃ hw₃ t.bios))
  unfolding execute_sized set_breg execute run_sfcop_ins load_fcoperand
  jumped iced fuel c t drive m p q = rw (p, q) (rw (fetched iced fuel c m drive) (m, refl, refl))

  step_lem :
      (iced : Slice → IcedInstruction) (awaited : List SdlEvent) (fuel : ℕ) (c : Cpu)
      (sys : System F Bios) (drive : ℕ)
      → sys.hw.display ≡ Display.new
      → boot_storage sys.bios.boot_drive sys.hw ≡ ok (drive, st)
      → Returns
          (λ t.
            (m : Memory) × (t.mem ≡ loaded m)
            × (t.cpu ≡ (
                let c₁ = at_reset c in record (set_breg c₁ BReg.dl drive) { cs = 0; ip = 0x7c00 })))
          (step iced (cpu_trap ops awaited) (suc fuel) (record sys { cpu = at_reset c }))
  unfolding step
  step_lem iced awaited fuel c sys drive d e = rw (poll_lem c sys.mem) (
      >>=-Returns (IsLoaded (at_reset c) drive) _
        (cpu_trap ops awaited (record sys { cpu = at_reset c })) _
        (trap_lem awaited c sys drive d e) (λ t (m, p, q). jumped iced fuel c t drive m p q))

  booted :
      (drive : ℕ) (c : Cpu) (t : System F Bios)
      → Booted drive c t
      → IsBooted (at_reset c) drive (contents st.file) t
  booted drive c t (m, p, q) = record {
    jumped_there = q;
    loaded_there = λ i h. rw p (loaded_byte m i h);
  }

-- On a machine with a new display and a drive to boot from, whose image behaves as a file of a sector
-- or more: one step of the processor at the reset vector calls the BIOS, which loads the sector, and
-- then executes the jump to it that the BIOS has written. The step returns, on any fuel but none.
pub step-IsBooted :
    {F : Type 0} (ops : FileOps F) (contents : F → ℕ → ℕ) (position : F → ℕ) (size : ℕ)
    → IsFile ops contents position size
    → 512 ≤ size
    → (iced : Slice → IcedInstruction) (awaited : List SdlEvent) (fuel : ℕ) (sys : System F Bios)
      (drive : ℕ) (st : Storage F)
    → IsAtReset sys.cpu
    → sys.hw.display ≡ Display.new
    → boot_storage sys.bios.boot_drive sys.hw ≡ ok (drive, st)
    → Returns
        (IsBooted sys.cpu drive (contents st.file))
        (step iced (cpu_trap ops awaited) (suc fuel) sys)
step-IsBooted ops contents position size file fits iced awaited fuel sys drive st r d e =
    subst
      (λ c.
        Returns (IsBooted c drive (contents st.file))
          (step iced (cpu_trap ops awaited) (suc fuel) (record sys { cpu = c })))
      r
      (Returns-mono (Booted ops contents position size file st fits drive sys.cpu) _ _
        (step_lem ops contents position size file st fits iced awaited fuel sys.cpu sys drive d e)
        (booted ops contents position size file st fits drive sys.cpu))
