-- ===== src/Cpu/Parser/Total/Byte.antt =====
-- `prefix_8bit` and `prefix7bit`.
use riapyx.Common.{
  ℕ, ◌/◌, ◌≤◌, ◌<◌, arith, bit_and, Slice, index, IsBytes, IsU8, AllArms, select-AllArms, ◌also◌,
  Returns, >>=-Returns,
}
use riapyx.Cpu.Instruction.{
  TwoOperandsOpCode, SingleBImmOperandOpCode, SingleOperandFcOpCode, SingleWImmFcOperand,
  ImplicitOperandOpCode,
}
use riapyx.Cpu.Parser.Byte.{
  no_op_ins, jump_ins, iov_ins, direct_intraseg_fc_ins, direct_interseg_fc_ins, prefix_ins,
  ret_and_add, prefix_8bit_arms, prefix_8bit, two_op_ins_with_acc, string_ins, prefix7bit_arms,
  prefix7bit,
}
use riapyx.Cpu.Parser.Operands.{word_at}
use riapyx.Cpu.Parser.Total.Fields.{
  IsWord, IsShort, select_two, low_bit, index-IsU8, word_at-IsWord,
}
use riapyx.Cpu.Parser.Total.Long.{reg_rm}
use riapyx.Cpu.Parser.Total.Immediate.{prefix7_1_1bit-IsShort}

module _ (bytes : Slice) (long : 6 ≤ bytes.len) (b : IsBytes bytes) where
  byte_at : (i : ℕ) → i < 6 → Returns IsU8 (index bytes i)
  byte_at = index-IsU8 bytes long b

  word : (i : ℕ) → i < 5 → Returns IsWord (word_at i bytes)
  word = word_at-IsWord bytes long b

  jump : (op : SingleBImmOperandOpCode) → Returns IsShort (jump_ins bytes op)
  unfolding jump_ins
  jump op = >>=-Returns IsU8 IsShort _ _ (byte_at 1 (omega arith)) (λ _ p. (omega arith, p))

  near : (op : SingleOperandFcOpCode) → Returns IsShort (direct_intraseg_fc_ins bytes op)
  unfolding direct_intraseg_fc_ins
  near op = >>=-Returns IsWord IsShort _ _ (word 1 (omega arith)) (λ _ _. (omega arith, tt))

  far : (op : SingleOperandFcOpCode) → Returns IsShort (direct_interseg_fc_ins bytes op)
  unfolding direct_interseg_fc_ins
  far op =
      >>=-Returns IsWord IsShort _ _ (word 3 (omega arith)) (λ _ p.
        >>=-Returns IsWord IsShort _ _ (word 1 (omega arith)) (λ _ q. (omega arith, (p, q))))

  ret : (operand : ℕ → SingleWImmFcOperand) → Returns IsShort (ret_and_add bytes operand)
  unfolding ret_and_add
  ret operand = >>=-Returns IsWord IsShort _ _ (word 1 (omega arith)) (λ _ _. (omega arith, tt))

  arms_8 : AllArms (Returns IsShort) (prefix_8bit_arms bytes)
  unfolding no_op_ins iov_ins prefix_ins
  arms_8 =
      (omega arith
        also reg_rm bytes long b TwoOperandsOpCode.lea 1 1 (omega arith) (omega arith)
        also reg_rm bytes long b TwoOperandsOpCode.lds 1 1 (omega arith) (omega arith)
        also reg_rm bytes long b TwoOperandsOpCode.les 1 1 (omega arith) (omega arith)
        also omega arith
        also omega arith
        also omega arith
        also omega arith
        also omega arith
        also omega arith
        also omega arith
        also omega arith
        also omega arith
        also omega arith
        also near SingleOperandFcOpCode.call
        also far SingleOperandFcOpCode.call
        also near SingleOperandFcOpCode.jmp
        also jump SingleBImmOperandOpCode.jmps
        also far SingleOperandFcOpCode.jmp
        also omega arith
        also ret SingleWImmFcOperand.seg
        also omega arith
        also ret SingleWImmFcOperand.inter_seg
        also jump SingleBImmOperandOpCode.je
        also jump SingleBImmOperandOpCode.jl
        also jump SingleBImmOperandOpCode.jle
        also jump SingleBImmOperandOpCode.jb
        also jump SingleBImmOperandOpCode.jbe
        also jump SingleBImmOperandOpCode.jp
        also jump SingleBImmOperandOpCode.jo
        also jump SingleBImmOperandOpCode.js
        also jump SingleBImmOperandOpCode.jne
        also jump SingleBImmOperandOpCode.jnl
        also jump SingleBImmOperandOpCode.jnle
        also jump SingleBImmOperandOpCode.jnb
        also jump SingleBImmOperandOpCode.jnbe
        also jump SingleBImmOperandOpCode.jnp
        also jump SingleBImmOperandOpCode.jno
        also jump SingleBImmOperandOpCode.jns
        also jump SingleBImmOperandOpCode.loop
        also jump SingleBImmOperandOpCode.loopz
        also jump SingleBImmOperandOpCode.loopnz
        also jump SingleBImmOperandOpCode.jcxz
        also jump SingleBImmOperandOpCode.int
        also jump SingleBImmOperandOpCode.inb
        also jump SingleBImmOperandOpCode.inw
        also jump SingleBImmOperandOpCode.outb
        also jump SingleBImmOperandOpCode.outw
        also omega arith
        also omega arith
        also omega arith
        also omega arith
        also omega arith
        also omega arith
        also omega arith
        also omega arith
        also omega arith
        also omega arith
        also omega arith
        also omega arith
        also omega arith
        also omega arith
        also omega arith
        also omega arith
        also omega arith
        also omega arith
        also omega arith
        also tt)

  prefix_8bit-IsShort : Returns IsShort (prefix_8bit bytes)
  unfolding prefix_8bit
  prefix_8bit-IsShort = >>=-Returns IsU8 IsShort _ _ (byte_at 0 (omega arith)) (λ b₀ _.
      select-AllArms (Returns IsShort) b₀ (prefix_8bit_arms bytes) _ arms_8
        (prefix7_1_1bit-IsShort bytes long b))

  acc : (w : ℕ) (op : TwoOperandsOpCode) → w < 2 → Returns IsShort (two_op_ins_with_acc bytes op w)
  unfolding two_op_ins_with_acc
  acc w op h =
      select_two IsShort w _ _ h
        (>>=-Returns IsU8 IsShort _ _ (byte_at 1 (omega arith)) (λ _ p. (omega arith, (p, tt))))
        (>>=-Returns IsWord IsShort _ _ (word 1 (omega arith)) (λ _ p. (omega arith, (p, tt))))

  string : (w : ℕ) (op : ImplicitOperandOpCode) → w < 2 → Returns IsShort (string_ins bytes op w)
  unfolding string_ins
  string w op h = select_two IsShort w _ _ h (omega arith, tt) (omega arith, tt)

  arms_7 : (w : ℕ) → w < 2 → AllArms (Returns IsShort) (prefix7bit_arms bytes w)
  arms_7 w h =
      (reg_rm bytes long b TwoOperandsOpCode.xchg 0 w (omega arith) h
        also acc w TwoOperandsOpCode.add h
        also acc w TwoOperandsOpCode.adc h
        also acc w TwoOperandsOpCode.sub h
        also acc w TwoOperandsOpCode.sbb h
        also acc w TwoOperandsOpCode.and h
        also acc w TwoOperandsOpCode.test h
        also reg_rm bytes long b TwoOperandsOpCode.test 0 w (omega arith) h
        also acc w TwoOperandsOpCode.or h
        also acc w TwoOperandsOpCode.xor h
        also acc w TwoOperandsOpCode.cmp h
        also string w ImplicitOperandOpCode.movs h
        also string w ImplicitOperandOpCode.cmps h
        also string w ImplicitOperandOpCode.scas h
        also string w ImplicitOperandOpCode.lods h
        also string w ImplicitOperandOpCode.stos h
        also tt)

  pub prefix7bit-IsShort : Returns IsShort (prefix7bit bytes)
  unfolding prefix7bit
  prefix7bit-IsShort = >>=-Returns IsU8 IsShort _ _ (byte_at 0 (omega arith)) (λ b₀ _.
      select-AllArms (Returns IsShort) (b₀ / 2) (prefix7bit_arms bytes (bit_and b₀ 0b1)) _
        (arms_7 _ (low_bit b₀)) prefix_8bit-IsShort)
