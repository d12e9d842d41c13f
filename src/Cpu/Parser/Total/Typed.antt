-- ===== src/Cpu/Parser/Total/Typed.antt =====
-- What the types of the operands guarantee of an instruction: an immediate value has the operand's
-- width, an address 16 bits.
use riapyx.Common.{◌<◌}
use riapyx.Cpu.Instruction.{Instruction, BOperand, WOperand, FlowControlOperand}

abbrev pub FitsB : BOperand → Type 0
FitsB (BOperand.immediate imm) = imm < 256
FitsB _ = Unit {0}

abbrev pub FitsW : WOperand → Type 0
FitsW (WOperand.immediate imm) = imm < 65536
FitsW (WOperand.direct addr) = addr < 65536
FitsW _ = Unit {0}

abbrev pub FitsFc : FlowControlOperand → Type 0
FitsFc (FlowControlOperand.direct_seg inc) = Unit {0}
FitsFc (FlowControlOperand.indirect_seg op) = FitsW op
FitsFc (FlowControlOperand.direct_inter_seg cs ip) = (cs < 65536) × (ip < 65536)
FitsFc (FlowControlOperand.indirect_inter_seg op) = Unit {0}

abbrev pub IsTyped : Instruction → Type 0
IsTyped (Instruction.two_w_operands op a b) = FitsW a × FitsW b
IsTyped (Instruction.two_b_operands op a b) = FitsB a × FitsB b
IsTyped (Instruction.single_b_operand op a) = FitsB a
IsTyped (Instruction.single_w_operand op a) = FitsW a
IsTyped (Instruction.single_b_imm_operand op n) = n < 256
IsTyped (Instruction.single_fc_operand op a) = FitsFc a
IsTyped (Instruction.shift_rotate_b op cnt a) = FitsB a
IsTyped (Instruction.shift_rotate_w op cnt a) = FitsW a
IsTyped _ = Unit {0}
