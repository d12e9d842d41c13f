-- ===== src/Tests/Operands.antt =====
-- Registers, memory and the operations on values.
use riapyx.Common.{ℕ, ◌+◌, ◌*◌, ◌≤◌, ◌<◌, ◌≡◌, ◌⊎◌, arith, true, false, none, some, IsU16}
use mathlib.Core.Logic.{ite}
use riapyx.Cpu.Instruction.{BReg}
use riapyx.Cpu.Registers.{get_breg, set_breg}
use riapyx.Cpu.Registers.Laws.{get_breg-set_breg, BReg-discrete}
use riapyx.Cpu.Operand.Parity.{compute_parity}
use riapyx.Cpu.Operand.Parity.Laws.{compute_parity_lem}
use riapyx.Cpu.Operand.U8
use riapyx.Cpu.Operand.U16
use riapyx.Cpu.Operand.Products16.{mul_lem, div_lem}
use riapyx.Cpu.Operand.Rotates8.{ror-rol}
use riapyx.Mem.{read_u8, write_u8, read_u16, write_u16}
use riapyx.Mem
use riapyx.Mem.Access.{read_u16-write_u16_self, read_u16-write_u16_apart}
use riapyx.Tests.Sample.{sample_cpu, sample_cpu-IsCpu}

get_breg-set_breg_example :
    get_breg (set_breg sample_cpu BReg.ah 0x99) BReg.al
    ≡ ite (BReg-discrete BReg.ah BReg.al) 0x99 (get_breg sample_cpu BReg.al)
get_breg-set_breg_example =
    get_breg-set_breg sample_cpu BReg.ah BReg.al 0x99 sample_cpu-IsCpu (omega arith)

mul_lem_example :
    let (hi, lo, wide) = U16.mul 0x200 0x200 in
    (hi * 65536 + lo ≡ 0x40000) × IsU16 hi × IsU16 lo × (wide ≡ true)
mul_lem_example = mul_lem 0x200 0x200 (omega arith) (omega arith)

div_lem_example :
    ((7 ≤ 1) × (U16.div 7 1 2 ≡ none))
    ⊎ ((q : ℕ) × (r : ℕ) × (U16.div 7 1 2 ≡ some (q, r)) × (q * 7 + r ≡ 65538) × (r < 7) × IsU16 q)
div_lem_example = div_lem 7 1 2 (omega arith) (omega arith) (omega arith)

ror-rol_example : U8.ror (U8.rol 0x81 11) 11 ≡ 0x81
ror-rol_example = ror-rol 0x81 11 (omega arith)

read_u16-write_u16_self_example : read_u16 (write_u16 Mem.new 0xfffff 0xabcd) 0xfffff ≡ 0xabcd
read_u16-write_u16_self_example = read_u16-write_u16_self Mem.new 0xfffff 0xabcd (omega arith)

read_u16-write_u16_apart_example :
    read_u16 (write_u16 Mem.new 0x10 0xabcd) 0x12 ≡ read_u16 Mem.new 0x12
read_u16-write_u16_apart_example =
    read_u16-write_u16_apart Mem.new 0x10 0x12 0xabcd (λ e. omega arith) (λ e. omega arith)
      (λ e. omega arith)

compute_parity_lem_example : compute_parity 0x13 ≡ false
compute_parity_lem_example = compute_parity_lem 0x13
