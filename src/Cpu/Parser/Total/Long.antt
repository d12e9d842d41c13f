-- ===== src/Cpu/Parser/Total/Long.antt =====
-- `prefix8_3bit` and `prefix7_3bit`.
use riapyx.Common.{
  ℕ, ◌+◌, ◌≤◌, ◌<◌, arith, bit_and, Slice, index, IsBytes, IsU8, select-AllArms, ◌also◌, Result,
  Returns, >>=-Returns,
}
use riapyx.Cpu.Instruction.{
  SizedInstruction, TwoOperandsOpCode, SingleOperandOpCode, SingleOperandFcOpCode,
  ShiftRotateOpCode, FlowControlOperand, WOperand, BOperand,
}
use riapyx.Cpu.Parser.Operands.{get_rm_boperand, get_rm_woperand}
use riapyx.Cpu.Parser.Iced.{invalid_instruction}
use riapyx.Cpu.Parser.Long.{
  opcode_sum, opcode_or, dispatch_w, two_operands_instruction_reg_rm, stack_ins, fc_ins,
  tp_ins_imm8ext_rm, sr_ins_imm8_rm, tp_ins_imm_rm_b, tp_ins_imm_rm_w, sp_ins_rm_b, sp_ins_rm_w,
  prefix7_3bit, prefix8_3bit, prefix7_3bit_arms, prefix8_3bit_arms,
}
use riapyx.Common.Bits.{bit_or-lt}
use riapyx.Common.Int.{sign_extend}
use riapyx.Cpu.Parser.Total.Typed.{FitsB, FitsW, FitsFc}
use riapyx.Cpu.Parser.Total.Fields.{
  Each, apply_swap-Each, Any, IsShort, IsSmall, select_two, low_bit, reg_field, get_breg-Any,
  get_wreg-Any, index-IsU8, get_rm_boperand-IsSmall, get_rm_woperand-IsSmall,
}

pub sign_extend-lt : (x : ℕ) → x < 256 → sign_extend x < 65536
sign_extend-lt x h = ground arith

pub dispatch_w-IsShort :
    {A : Type 0} (op : A) (w : ℕ) (f g : A → Result SizedInstruction)
    → w < 2
    → ((x : A) → Returns IsShort (f x))
    → ((x : A) → Returns IsShort (g x))
    → Returns IsShort (dispatch_w op w f g)
unfolding dispatch_w
dispatch_w-IsShort op w f g h p q = select_two IsShort w (f op) (g op) h (p op) (q op)

module _ (bytes : Slice) (long : 6 ≤ bytes.len) (b : IsBytes bytes) where
  byte_at : (i : ℕ) → i < 6 → Returns IsU8 (index bytes i)
  byte_at = index-IsU8 bytes long b

  byte_rm : Returns (IsSmall FitsB) (get_rm_boperand bytes)
  byte_rm = get_rm_boperand-IsSmall bytes long b

  word_rm : Returns (IsSmall FitsW) (get_rm_woperand bytes)
  word_rm = get_rm_woperand-IsSmall bytes long b

  pub opcode_sum-Any : Returns (Any {A = ℕ}) (opcode_sum bytes)
  unfolding opcode_sum
  opcode_sum-Any =
      >>=-Returns IsU8 Any _ _ (byte_at 0 (omega arith))
        (λ _ _. >>=-Returns IsU8 Any _ _ (byte_at 1 (omega arith)) (λ _ _. tt))

  pub opcode_or-Any : Returns (Any {A = ℕ}) (opcode_or bytes)
  unfolding opcode_or
  opcode_or-Any =
      >>=-Returns IsU8 Any _ _ (byte_at 0 (omega arith))
        (λ _ _. >>=-Returns IsU8 Any _ _ (byte_at 1 (omega arith)) (λ _ _. tt))

  pub reg_rm :
      (op : TwoOperandsOpCode) (d w : ℕ)
      → d < 2
      → w < 2
      → Returns IsShort (two_operands_instruction_reg_rm op d w bytes)
  unfolding two_operands_instruction_reg_rm
  reg_rm op d w h k = >>=-Returns IsU8 IsShort _ _ (byte_at 1 (omega arith)) (λ b₁ _.
      select_two IsShort w _ _ k
        (>>=-Returns (IsSmall FitsB) IsShort _ _ byte_rm (λ (rm, sz) p.
          >>=-Returns Any IsShort _ _ (get_breg-Any _ (reg_field b₁)) (λ r _.
            >>=-Returns (Each FitsB) IsShort _ _
              (apply_swap-Each FitsB (BOperand.reg r) rm d h tt p.0) (λ _ q. (omega arith, q)))))
        (>>=-Returns (IsSmall FitsW) IsShort _ _ word_rm (λ (rm, sz) p.
          >>=-Returns Any IsShort _ _ (get_wreg-Any _ (reg_field b₁)) (λ r _.
            >>=-Returns (Each FitsW) IsShort _ _
              (apply_swap-Each FitsW (WOperand.reg r) rm d h tt p.0) (λ _ q. (omega arith, q))))))

  stack_ins-IsShort : (op : SingleOperandOpCode) → Returns IsShort (stack_ins bytes op)
  unfolding stack_ins
  stack_ins-IsShort op =
      >>=-Returns (IsSmall FitsW) IsShort _ _ word_rm (λ (op, sz) p. (omega arith, p.0))

  fc_ins-IsShort :
      (op : SingleOperandFcOpCode) (wrap : WOperand → FlowControlOperand)
      → ((t : WOperand) → FitsW t → FitsFc (wrap t))
      → Returns IsShort (fc_ins bytes op wrap)
  unfolding fc_ins
  fc_ins-IsShort op wrap h =
      >>=-Returns (IsSmall FitsW) IsShort _ _ word_rm (λ (op, sz) p. (omega arith, h op p.0))

  tp_ins_imm8ext_rm-IsShort :
      (op : TwoOperandsOpCode) → Returns IsShort (tp_ins_imm8ext_rm bytes op)
  unfolding tp_ins_imm8ext_rm
  tp_ins_imm8ext_rm-IsShort op = >>=-Returns (IsSmall FitsW) IsShort _ _ word_rm (λ (op, sz) p.
      >>=-Returns IsU8 IsShort _ _ (byte_at (2 + sz) (omega arith))
        (λ imm q. (omega arith, (sign_extend-lt imm q, p.0))))

  sr_ins_imm8_rm-IsShort : (op : ShiftRotateOpCode) → Returns IsShort (sr_ins_imm8_rm bytes op)
  unfolding sr_ins_imm8_rm
  sr_ins_imm8_rm-IsShort op = >>=-Returns (IsSmall FitsW) IsShort _ _ word_rm (λ (op, sz) p.
      >>=-Returns IsU8 IsShort _ _ (byte_at (2 + sz) (omega arith)) (λ _ _. (omega arith, p.0)))

  tp_ins_imm_rm_b-IsShort : (op : TwoOperandsOpCode) → Returns IsShort (tp_ins_imm_rm_b bytes op)
  unfolding tp_ins_imm_rm_b
  tp_ins_imm_rm_b-IsShort op = >>=-Returns (IsSmall FitsB) IsShort _ _ byte_rm (λ (op, sz) p.
      >>=-Returns IsU8 IsShort _ _ (byte_at (2 + sz) (omega arith))
        (λ _ q. (omega arith, (q, p.0))))

  tp_ins_imm_rm_w-IsShort : (op : TwoOperandsOpCode) → Returns IsShort (tp_ins_imm_rm_w bytes op)
  unfolding tp_ins_imm_rm_w
  tp_ins_imm_rm_w-IsShort op = >>=-Returns (IsSmall FitsW) IsShort _ _ word_rm (λ (op, sz) p.
      >>=-Returns IsU8 IsShort _ _ (byte_at (2 + sz + 1) (omega arith)) (λ hi q.
        >>=-Returns IsU8 IsShort _ _ (byte_at (2 + sz) (omega arith))
          (λ lo r. (omega arith, (bit_or-lt 16 _ lo (omega arith) (omega arith), p.0)))))

  sp_ins_rm_b-IsShort : (op : SingleOperandOpCode) → Returns IsShort (sp_ins_rm_b bytes op)
  unfolding sp_ins_rm_b
  sp_ins_rm_b-IsShort op =
      >>=-Returns (IsSmall FitsB) IsShort _ _ byte_rm (λ (op, sz) p. (omega arith, p.0))

  sp_ins_rm_w-IsShort : (op : SingleOperandOpCode) → Returns IsShort (sp_ins_rm_w bytes op)
  unfolding sp_ins_rm_w
  sp_ins_rm_w-IsShort op =
      >>=-Returns (IsSmall FitsW) IsShort _ _ word_rm (λ (op, sz) p. (omega arith, p.0))

  prefix8_3bit-IsShort : Returns IsShort (prefix8_3bit bytes)
  unfolding prefix8_3bit invalid_instruction
  prefix8_3bit-IsShort = >>=-Returns Any IsShort _ _ opcode_sum-Any (λ both _.
      select-AllArms (Returns IsShort) (bit_and both 0b1111111100111000) (prefix8_3bit_arms bytes) _
        (stack_ins-IsShort SingleOperandOpCode.push
          also stack_ins-IsShort SingleOperandOpCode.pop
          also sr_ins_imm8_rm-IsShort ShiftRotateOpCode.shl
          also tp_ins_imm8ext_rm-IsShort TwoOperandsOpCode.and
          also tp_ins_imm8ext_rm-IsShort TwoOperandsOpCode.or
          also tp_ins_imm8ext_rm-IsShort TwoOperandsOpCode.xor
          also fc_ins-IsShort SingleOperandFcOpCode.call FlowControlOperand.indirect_seg (λ _ p. p)
          also fc_ins-IsShort SingleOperandFcOpCode.call FlowControlOperand.indirect_inter_seg
              (λ _ _. tt)
          also fc_ins-IsShort SingleOperandFcOpCode.jmp FlowControlOperand.indirect_seg (λ _ p. p)
          also fc_ins-IsShort SingleOperandFcOpCode.jmp FlowControlOperand.indirect_inter_seg
              (λ _ _. tt)
          also tt)
        (omega arith, tt))

  imm_rm :
      (op : TwoOperandsOpCode) (w : ℕ)
      → w < 2
      → Returns IsShort (dispatch_w op w (tp_ins_imm_rm_b bytes) (tp_ins_imm_rm_w bytes))
  imm_rm op w h = dispatch_w-IsShort op w _ _ h tp_ins_imm_rm_b-IsShort tp_ins_imm_rm_w-IsShort

  one_rm :
      (op : SingleOperandOpCode) (w : ℕ)
      → w < 2
      → Returns IsShort (dispatch_w op w (sp_ins_rm_b bytes) (sp_ins_rm_w bytes))
  one_rm op w h = dispatch_w-IsShort op w _ _ h sp_ins_rm_b-IsShort sp_ins_rm_w-IsShort

  pub prefix7_3bit-IsShort : Returns IsShort (prefix7_3bit bytes)
  unfolding prefix7_3bit
  prefix7_3bit-IsShort = >>=-Returns Any IsShort _ _ opcode_or-Any (λ both _.
      >>=-Returns IsU8 IsShort _ _ (byte_at 0 (omega arith)) (λ b₀ _.
        select-AllArms (Returns IsShort) (bit_and 0b1111111000111000 both)
          (prefix7_3bit_arms bytes (bit_and b₀ 0b1)) _
          (imm_rm TwoOperandsOpCode.mov (bit_and b₀ 0b1) (low_bit b₀)
            also one_rm SingleOperandOpCode.inc (bit_and b₀ 0b1) (low_bit b₀)
            also one_rm SingleOperandOpCode.dec (bit_and b₀ 0b1) (low_bit b₀)
            also one_rm SingleOperandOpCode.neg (bit_and b₀ 0b1) (low_bit b₀)
            also one_rm SingleOperandOpCode.mul (bit_and b₀ 0b1) (low_bit b₀)
            also one_rm SingleOperandOpCode.imul (bit_and b₀ 0b1) (low_bit b₀)
            also one_rm SingleOperandOpCode.div (bit_and b₀ 0b1) (low_bit b₀)
            also one_rm SingleOperandOpCode.idiv (bit_and b₀ 0b1) (low_bit b₀)
            also one_rm SingleOperandOpCode.not (bit_and b₀ 0b1) (low_bit b₀)
            also imm_rm TwoOperandsOpCode.and (bit_and b₀ 0b1) (low_bit b₀)
            also imm_rm TwoOperandsOpCode.test (bit_and b₀ 0b1) (low_bit b₀)
            also imm_rm TwoOperandsOpCode.or (bit_and b₀ 0b1) (low_bit b₀)
            also imm_rm TwoOperandsOpCode.xor (bit_and b₀ 0b1) (low_bit b₀)
            also tt)
          prefix8_3bit-IsShort))
