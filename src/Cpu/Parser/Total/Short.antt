-- ===== src/Cpu/Parser/Total/Short.antt =====
-- The shortest masks.
use riapyx.Common.{
  ℕ, ◌/◌, ◌^◌, ◌≤◌, ◌<◌, arith, bit_and, [], ◌∷◌, Slice, index, IsBytes, IsU8, AllArms,
  select-AllArms, ◌also◌, Returns, >>=-Returns,
}
use riapyx.Cpu.Instruction.{TwoOperandsOpCode, SingleOperandOpCode, WReg, BReg, BOperand, WOperand}
use riapyx.Cpu.Parser.Short.{
  segreg_ins, prefix3_3_bit_arms, prefix3_3_bit, mov_acc, prefix6bit_arms, prefix6bit,
  make_reg_instruction, prefix5bit_arms, prefix5bit, make_imm_reg_instruction, prefix4bit,
}
use riapyx.Cpu.Parser.Operands.{word_at}
use riapyx.Cpu.Parser.Total.Typed.{FitsB, FitsW, IsTyped}
use riapyx.Cpu.Parser.Total.Fields.{
  IsWord, Each, apply_swap-Each, Any, IsShort, select_two, low_bit, second_bit, sreg_field,
  rm_field, get_breg-Any, get_wreg-Any, get_segreg-Any, index-IsU8, word_at-IsWord,
}
use riapyx.Cpu.Parser.Total.Long.{reg_rm}
use riapyx.Cpu.Parser.Total.Byte.{prefix7bit-IsShort}
use riapyx.Common.Bits.{bit_and_comm, bit_and-le_left}

width_bit : (b : ℕ) → bit_and b 0b00001000 / 2 ^ 3 < 2
width_bit b = omega (arith, bit_and_comm b 0b00001000, bit_and-le_left 0b00001000 b)

module _ (bytes : Slice) (long : 6 ≤ bytes.len) (b : IsBytes bytes) where
  byte_at : (i : ℕ) → i < 6 → Returns IsU8 (index bytes i)
  byte_at = index-IsU8 bytes long b

  word : (i : ℕ) → i < 5 → Returns IsWord (word_at i bytes)
  word = word_at-IsWord bytes long b

  segment :
      (op : SingleOperandOpCode) (sreg : ℕ) → sreg < 4 → Returns IsShort (segreg_ins bytes op sreg)
  unfolding segreg_ins
  segment op sreg h = >>=-Returns Any IsShort _ _ (get_segreg-Any sreg h) (λ _ _. omega arith)

  arms_3_3 : (sreg : ℕ) → sreg < 4 → AllArms (Returns IsShort) (prefix3_3_bit_arms bytes sreg)
  arms_3_3 sreg h =
      (segment SingleOperandOpCode.pop sreg h
        also segment SingleOperandOpCode.push sreg h
        also >>=-Returns Any IsShort _ _ (get_segreg-Any sreg h) (λ _ _. omega arith)
        also tt)

  prefix3_3_bit-IsShort : Returns IsShort (prefix3_3_bit bytes)
  unfolding prefix3_3_bit
  prefix3_3_bit-IsShort = >>=-Returns IsU8 IsShort _ _ (byte_at 0 (omega arith)) (λ b₀ _.
      select-AllArms (Returns IsShort) (bit_and b₀ 0b11100111)
        (prefix3_3_bit_arms bytes (bit_and b₀ 0b00011000 / 2 ^ 3)) _ (arms_3_3 _ (sreg_field b₀))
        (prefix7bit-IsShort bytes long b))

  mov_acc-IsShort : (d w : ℕ) → d < 2 → w < 2 → Returns IsShort (mov_acc bytes d w)
  unfolding mov_acc
  mov_acc-IsShort d w h k = >>=-Returns IsWord IsShort _ _ (word 1 (omega arith)) (λ addr p.
      >>=-Returns IsTyped IsShort _ _
        (select_two IsTyped w _ _ k
          (>>=-Returns (Each FitsB) IsTyped _ _
            (apply_swap-Each FitsB (BOperand.direct addr) (BOperand.reg BReg.al) d h tt tt)
            (λ _ q. q))
          (>>=-Returns (Each FitsW) IsTyped _ _
            (apply_swap-Each FitsW (WOperand.direct addr) (WOperand.reg WReg.ax) d h p tt)
            (λ _ q. q)))
        (λ _ q. (omega arith, q)))

  arms_6 : (d w : ℕ) → d < 2 → w < 2 → AllArms (Returns IsShort) (prefix6bit_arms bytes d w)
  arms_6 d w h k =
      (mov_acc-IsShort d w h k
        also reg_rm bytes long b TwoOperandsOpCode.mov d w h k
        also reg_rm bytes long b TwoOperandsOpCode.add d w h k
        also reg_rm bytes long b TwoOperandsOpCode.adc d w h k
        also reg_rm bytes long b TwoOperandsOpCode.sub d w h k
        also reg_rm bytes long b TwoOperandsOpCode.sbb d w h k
        also reg_rm bytes long b TwoOperandsOpCode.cmp d w h k
        also reg_rm bytes long b TwoOperandsOpCode.and d w h k
        also reg_rm bytes long b TwoOperandsOpCode.or d w h k
        also reg_rm bytes long b TwoOperandsOpCode.xor d w h k
        also tt)

  prefix6bit-IsShort : Returns IsShort (prefix6bit bytes)
  unfolding prefix6bit
  prefix6bit-IsShort = >>=-Returns IsU8 IsShort _ _ (byte_at 0 (omega arith)) (λ b₀ _.
      select-AllArms (Returns IsShort) (b₀ / 2 ^ 2)
        (prefix6bit_arms bytes (bit_and b₀ 0b00000010 / 2) (bit_and b₀ 0b00000001)) _
        (arms_6 _ _ (second_bit b₀) (low_bit b₀)) prefix3_3_bit-IsShort)

  arms_5 : (register : WReg) → AllArms (Returns IsShort) (prefix5bit_arms bytes register)
  unfolding make_reg_instruction
  arms_5 register =
      (omega arith also omega arith also omega arith also omega arith also omega arith also tt)

  prefix5bit-IsShort : Returns IsShort (prefix5bit bytes)
  unfolding prefix5bit
  prefix5bit-IsShort = >>=-Returns IsU8 IsShort _ _ (byte_at 0 (omega arith)) (λ b₀ _.
      >>=-Returns Any IsShort _ _ (get_wreg-Any _ (rm_field b₀)) (λ register _.
        select-AllArms (Returns IsShort) (b₀ / 2 ^ 3) (prefix5bit_arms bytes register) _
          (arms_5 register) prefix6bit-IsShort))

  imm_reg : (op : TwoOperandsOpCode) → Returns IsShort (make_imm_reg_instruction bytes op)
  unfolding make_imm_reg_instruction
  imm_reg op = >>=-Returns IsU8 IsShort _ _ (byte_at 0 (omega arith)) (λ b₀ _.
      select_two IsShort _ _ _ (width_bit b₀)
        (>>=-Returns Any IsShort _ _ (get_breg-Any _ (rm_field b₀)) (λ _ _.
          >>=-Returns IsU8 IsShort _ _ (byte_at 1 (omega arith)) (λ _ p. (omega arith, (p, tt)))))
        (>>=-Returns Any IsShort _ _ (get_wreg-Any _ (rm_field b₀)) (λ _ _.
          >>=-Returns IsWord IsShort _ _ (word 1 (omega arith)) (λ _ p. (omega arith, (p, tt))))))

  pub prefix4bit-IsShort : Returns IsShort (prefix4bit bytes)
  unfolding prefix4bit
  prefix4bit-IsShort = >>=-Returns IsU8 IsShort _ _ (byte_at 0 (omega arith)) (λ b₀ _.
      select-AllArms (Returns IsShort) (b₀ / 2 ^ 4)
        ((0b1011, make_imm_reg_instruction bytes TwoOperandsOpCode.mov) ∷ []) _
        (imm_reg TwoOperandsOpCode.mov, tt) prefix5bit-IsShort)
