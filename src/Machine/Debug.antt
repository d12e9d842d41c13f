-- ===== src/Machine/Debug.antt =====
-- The debugger's view of the machine (src/machine.rs): disassembly, and memory that is printed or
-- written to a file. Of the machine each function takes the parts that it reads; what is printed is
-- a value here, and the files are a parameter.
use riapyx.Common.{
  ℕ, zero, suc, ◌+◌, ◌*◌, ◌==◌, if◌then◌else◌, add16, u16, u32, Option, List, [], ◌∷◌, Slice,
  Result, ok, panic, ◌>>=◌,
}
use riapyx.Cpu.Instruction.{SizedInstruction}
use riapyx.Cpu.State.{Cpu, phys_addr}
use riapyx.Cpu.Parser.{parse_instruction}
use riapyx.Cpu.Parser.Iced.{IcedInstruction}
use riapyx.Hw.Storage.Disk.{unwrap}
use riapyx.Mem.{Memory, read_u8, slice_from}

-- What the debugger prints: a line of the disassembly, or bytes of memory behind their address.
pub data Printed : Type 0 where
  disassembled : ℕ → ℕ → SizedInstruction → Printed
  bytes : ℕ → List ℕ → Printed

-- The bytes of `start..start + size`.
unfoldable pub bytes_from : Memory → ℕ → ℕ → List ℕ
unfolding read_u8
bytes_from mem zero start = []
bytes_from mem (suc size) start = read_u8 mem start ∷ bytes_from mem size (u32 (start + 1))

unfoldable pub print_memory : ℕ → ℕ → ℕ → Memory → Printed
unfolding bytes_from
print_memory seg addr size mem =
    let start = u32 (u32 (seg * 0x10) + addr) in bytes start (bytes_from mem size start)

module _ (iced : Slice → IcedInstruction) where
  -- `addr_start` and on, `count` instructions.
  unfoldable pub disas : ℕ → ℕ → ℕ → Memory → Result (List Printed)
  unfolding phys_addr slice_from parse_instruction
  disas seg addr zero mem = ok []
  disas seg addr (suc count) mem = do
    bytecode ← slice_from mem (phys_addr seg addr)
    instruction ← parse_instruction iced bytecode
    rest ← disas seg (add16 addr (u16 instruction.size)) count mem
    ok (disassembled seg addr instruction ∷ rest)

  -- The registers are printed with the feature "cpu_log" alone.
  unfoldable pub dump : Cpu → Memory → Result (List Printed)
  unfolding disas
  dump c mem = disas c.cs c.ip 5 mem

  unfoldable pub dump_trace : Cpu → Memory → Result (List Printed)
  unfolding disas
  dump_trace c mem = disas c.cs c.ip 1 mem

-- `File::create` and one `write`: the number of bytes that the new file of the name has taken. `none`
-- is an error of either.
abbrev pub FileWriter : Type 0 → Type 0
FileWriter N = N → Slice → Option ℕ

module _ {N : Type 0} (files : FileWriter N) where
  -- `buf[x] = self.memory.read_u8(start + x)`, and the write of the buffer, which must be whole.
  abbrev write_whole : Memory → ℕ → ℕ → N → Result (Unit {0})
  write_whole mem start size name = do
    written ← unwrap (files name (record { len = size; byte = λ x. read_u8 mem (u32 (start + x)) }))
    (if written == size then ok tt else panic)

  unfoldable pub dump_memory_to_file : N → Memory → Result (Unit {0})
  unfolding read_u8
  dump_memory_to_file name mem = write_whole mem 0 (1024 * 1024) name

  unfoldable pub dump_segment_to_file : ℕ → N → Memory → Result (Unit {0})
  unfolding read_u8
  dump_segment_to_file seg name mem = write_whole mem (u32 (seg * 0x10)) (64 * 1024) name
