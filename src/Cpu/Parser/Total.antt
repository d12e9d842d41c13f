-- ===== src/Cpu/Parser/Total.antt =====
-- The decoder returns on any six bytes.
pub mod Typed
pub mod Fields
pub mod Long
pub mod Immediate
pub mod Byte
pub mod Short
use riapyx.Common.{ℕ, ◌≤◌, ◌≡◌, u16, ◌⊎◌, Slice, IsU8, Result, Returns}
use riapyx.Cpu.Instruction.{Instruction, SizedInstruction}
use riapyx.Cpu.Parser.Iced.{IcedInstruction, IcedCode, IcedOpKind}
use riapyx.Cpu.Parser.Short.{prefix4bit}
use riapyx.Cpu.Parser.Total.Typed.{IsTyped}

-- What the crate documents of the instructions that the program asks it for: the kind of their
-- operand, and that an immediate value of 8 bits is a byte. Their length is any.
abbrev pub IsKnown : IcedCode → IcedOpKind → Type 0
IsKnown IcedCode.aad_imm8 kind = kind ≡ IcedOpKind.immediate8
IsKnown IcedCode.aam_imm8 kind = kind ≡ IcedOpKind.immediate8
IsKnown IcedCode.fninit kind = Unit {0}
IsKnown IcedCode.fnstcw_m2byte kind = kind ≡ IcedOpKind.memory
IsKnown IcedCode.other kind = Unit {0}

abbrev pub IsDocumented : (Slice → IcedInstruction) → Type 0
IsDocumented iced =
    (bytes : Slice) → IsKnown (iced bytes).code (iced bytes).op0_kind × IsU8 (iced bytes).immediate8

abbrev IsRefused : Result SizedInstruction → Type 0
IsRefused r = Returns (λ i. i.instruction ≡ Instruction.invalid) r

-- The size of an instruction is one that the tables here give, or, where they give `own`, which is
-- none, the one that the crate reports.
abbrev IsSized : Result SizedInstruction → ℕ → SizedInstruction → Type 0
IsSized own len ins =
    IsTyped ins.instruction × ((ins.size ≤ 6) ⊎ (IsRefused own × (ins.size ≡ u16 len)))

abbrev pub IsDecoded : (Slice → IcedInstruction) → Slice → SizedInstruction → Type 0
IsDecoded iced bytes ins = IsSized (prefix4bit bytes) (iced bytes).len ins
