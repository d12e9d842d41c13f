-- ===== src/Cpu/Instruction.antt =====
-- The decoded instructions (src/cpu/instruction.rs): an enum is a data type with the source's
-- constructors. An `i8` displacement is its bit pattern, below 256.
use riapyx.Common.{ℕ}

pub data WReg : Type 0 where
  ax bx cx dx si di bp sp ip : WReg

pub data BReg : Type 0 where
  ah al bh bl ch cl dh dl : BReg

pub data SegReg : Type 0 where
  cs ds es ss : SegReg

pub data IndReg : Type 0 where
  bxsi bxdi bpsi bpdi si di bp bx : IndReg

pub data BOperand : Type 0 where
  reg : BReg → BOperand
  indirect : IndReg → BOperand
  immediate : ℕ → BOperand
  direct : ℕ → BOperand
  indirect_8i_dis : IndReg → ℕ → BOperand
  indirect_16u_dis : IndReg → ℕ → BOperand

pub data WOperand : Type 0 where
  reg : WReg → WOperand
  seg_reg : SegReg → WOperand
  indirect : IndReg → WOperand
  immediate : ℕ → WOperand
  direct : ℕ → WOperand
  indirect_8i_dis : IndReg → ℕ → WOperand
  indirect_16u_dis : IndReg → ℕ → WOperand

pub data NoOperandOpCode : Type 0 where
  hlt cli sti xlat lahf sahf pushf popf aaa daa aas das cbw cwd into iret clc std cmc stc cld wait
        fninit :
      NoOperandOpCode

pub data ImplicitOperandOpCode : Type 0 where
  movs cmps scas lods stos : ImplicitOperandOpCode

pub data SingleOperandOpCode : Type 0 where
  push pop inc dec neg mul imul div idiv not aam aad : SingleOperandOpCode

pub data TwoOperandsOpCode : Type 0 where
  add adc mov sub sbb and or xor cmp test xchg lea lds les : TwoOperandsOpCode

pub data SingleOperandFcOpCode : Type 0 where
  call jmp fnstcw : SingleOperandFcOpCode

pub data NoOpFcOpCode : Type 0 where
  ret : NoOpFcOpCode

pub data SingleBImmOperandOpCode : Type 0 where
  jmps je jl jle jb jbe jp jo js jne jnl jnle jnb jnbe jnp jno jns loop loopz loopnz jcxz int inb
        inw outb outw invb invw outvb outvw :
      SingleBImmOperandOpCode

pub data ShiftRotateOpCode : Type 0 where
  shl shr sar rol ror rcl rcr : ShiftRotateOpCode

pub data ShiftRotateCount : Type 0 where
  one cl : ShiftRotateCount
  imm : ℕ → ShiftRotateCount

pub data SingleWImmFcOpCode : Type 0 where
  ret_and_add_to_sp : SingleWImmFcOpCode

pub data SingleWImmFcOperand : Type 0 where
  seg : ℕ → SingleWImmFcOperand
  inter_seg : ℕ → SingleWImmFcOperand

pub data FlowControlOperand : Type 0 where
  direct_seg : ℕ → FlowControlOperand
  indirect_seg : WOperand → FlowControlOperand
  direct_inter_seg : ℕ → ℕ → FlowControlOperand
  indirect_inter_seg : WOperand → FlowControlOperand

pub data Prefix : Type 0 where
  lock : Prefix
  segment : SegReg → Prefix
  rep repne : Prefix

pub data Instruction : Type 0 where
  no_operand : NoOperandOpCode → Instruction
  implicit_b_operand implicit_w_operand : ImplicitOperandOpCode → Instruction
  single_b_operand : SingleOperandOpCode → BOperand → Instruction
  single_w_operand : SingleOperandOpCode → WOperand → Instruction
  two_b_operands : TwoOperandsOpCode → BOperand → BOperand → Instruction
  two_w_operands : TwoOperandsOpCode → WOperand → WOperand → Instruction
  single_fc_operand : SingleOperandFcOpCode → FlowControlOperand → Instruction
  single_b_imm_operand : SingleBImmOperandOpCode → ℕ → Instruction
  fc_no_operand_seg fc_no_operand_inter_seg : NoOpFcOpCode → Instruction
  single_w_imm_fc_operand : SingleWImmFcOpCode → SingleWImmFcOperand → Instruction
  shift_rotate_b : ShiftRotateOpCode → ShiftRotateCount → BOperand → Instruction
  shift_rotate_w : ShiftRotateOpCode → ShiftRotateCount → WOperand → Instruction
  prefix : Prefix → Instruction
  invalid : Instruction

pub record SizedInstruction : Type 0 where
  pub instruction : Instruction
  pub size : ℕ

abbrev pub sized : Instruction → ℕ → SizedInstruction
sized i n = record { instruction = i; size = n }
