-- ===== src/Cpu/Parser/Total/Immediate.antt =====
-- `prefix6_3bit` and `prefix7_1_1bit`.
use riapyx.Common.{
  ℕ, ◌+◌, ◌/◌, ◌≤◌, ◌<◌, arith, bit_and, [], ◌∷◌, Slice, index, IsBytes, IsU8, AllArms,
  select-AllArms, ◌also◌, ok, Returns, >>=-Returns,
}
use riapyx.Cpu.Instruction.{TwoOperandsOpCode, ShiftRotateOpCode, ShiftRotateCount, WOperand}
use riapyx.Cpu.Parser.Operands.{get_rm_boperand, get_rm_woperand}
use riapyx.Cpu.Parser.Long.{dispatch_w}
use riapyx.Cpu.Parser.Immediate.{
  imm_word, tp_imm_rm_w, tp_imm_rm_b, sr_rm, prefix6_3bit_arms, prefix6_3bit, mov_segreg,
  prefix7_1_1bit,
}
use riapyx.Cpu.Parser.Total.Typed.{FitsB, FitsW}
use riapyx.Cpu.Parser.Total.Fields.{
  IsWord, Each, apply_swap-Each, Any, IsShort, IsSmall, select_two, low_bit, second_bit, sreg_field,
  get_segreg-Any, index-IsU8, get_u16-IsWord, get_rm_boperand-IsSmall, get_rm_woperand-IsSmall,
}
use riapyx.Cpu.Parser.Total.Long.{
  sign_extend-lt, dispatch_w-IsShort, opcode_or-Any, opcode_sum-Any, prefix7_3bit-IsShort,
}

module _ (bytes : Slice) (long : 6 ≤ bytes.len) (b : IsBytes bytes) where
  byte_at : (i : ℕ) → i < 6 → Returns IsU8 (index bytes i)
  byte_at = index-IsU8 bytes long b

  byte_rm : Returns (IsSmall FitsB) (get_rm_boperand bytes)
  byte_rm = get_rm_boperand-IsSmall bytes long b

  word_rm : Returns (IsSmall FitsW) (get_rm_woperand bytes)
  word_rm = get_rm_woperand-IsSmall bytes long b

  imm_word-IsSmall : (sv sz : ℕ) → sv < 2 → sz ≤ 2 → Returns (IsSmall IsWord) (imm_word bytes sv sz)
  unfolding imm_word
  imm_word-IsSmall sv sz h p =
      select_two (IsSmall IsWord) sv _ _ h
        (>>=-Returns IsWord (IsSmall IsWord) _ _
          (get_u16-IsWord bytes long b (2 + sz) (omega arith)) (λ _ q. (q, omega arith)))
        (>>=-Returns IsU8 (IsSmall IsWord) _ _ (byte_at (2 + sz) (omega arith))
          (λ imm q. (sign_extend-lt imm q, omega arith)))

  tp_imm_rm_w-IsShort :
      (sv : ℕ) (op : TwoOperandsOpCode) → sv < 2 → Returns IsShort (tp_imm_rm_w bytes sv op)
  unfolding tp_imm_rm_w
  tp_imm_rm_w-IsShort sv op h = >>=-Returns (IsSmall FitsW) IsShort _ _ word_rm (λ (rm, sz) p.
      >>=-Returns (IsSmall IsWord) IsShort _ _ (imm_word-IsSmall sv sz h p.1)
        (λ (imm, n) q. (omega arith, (q.0, p.0))))

  tp_imm_rm_b-IsShort : (op : TwoOperandsOpCode) → Returns IsShort (tp_imm_rm_b bytes op)
  unfolding tp_imm_rm_b
  tp_imm_rm_b-IsShort op = >>=-Returns (IsSmall FitsB) IsShort _ _ byte_rm (λ (rm, sz) p.
      >>=-Returns IsU8 IsShort _ _ (byte_at (2 + sz) (omega arith))
        (λ _ q. (omega arith, (q, p.0))))

  sr_rm-IsShort :
      (sv w : ℕ) (op : ShiftRotateOpCode) → sv < 2 → w < 2 → Returns IsShort (sr_rm bytes sv w op)
  unfolding sr_rm
  sr_rm-IsShort sv w op h k =
      >>=-Returns Any IsShort _ _
        (select_two Any sv (ok ShiftRotateCount.one) (ok ShiftRotateCount.cl) h tt tt)
        (λ count _.
          select_two IsShort w _ _ k
            (>>=-Returns (IsSmall FitsB) IsShort _ _ byte_rm (λ (rm, sz) p. (omega arith, p.0)))
            (>>=-Returns (IsSmall FitsW) IsShort _ _ word_rm (λ (rm, sz) p. (omega arith, p.0))))

  imm_rm :
      (w sv : ℕ) (op : TwoOperandsOpCode)
      → w < 2
      → sv < 2
      → Returns IsShort (dispatch_w op w (tp_imm_rm_b bytes) (tp_imm_rm_w bytes sv))
  imm_rm w sv op h k =
      dispatch_w-IsShort op w _ _ h tp_imm_rm_b-IsShort (λ o. tp_imm_rm_w-IsShort sv o k)

  arms_6_3 : (w sv : ℕ) → w < 2 → sv < 2 → AllArms (Returns IsShort) (prefix6_3bit_arms bytes w sv)
  arms_6_3 w sv h k =
      (imm_rm w sv TwoOperandsOpCode.add h k
        also imm_rm w sv TwoOperandsOpCode.adc h k
        also imm_rm w sv TwoOperandsOpCode.sub h k
        also imm_rm w sv TwoOperandsOpCode.sbb h k
        also imm_rm w sv TwoOperandsOpCode.cmp h k
        also sr_rm-IsShort sv w ShiftRotateOpCode.shl k h
        also sr_rm-IsShort sv w ShiftRotateOpCode.shr k h
        also sr_rm-IsShort sv w ShiftRotateOpCode.sar k h
        also sr_rm-IsShort sv w ShiftRotateOpCode.rol k h
        also sr_rm-IsShort sv w ShiftRotateOpCode.ror k h
        also sr_rm-IsShort sv w ShiftRotateOpCode.rcl k h
        also sr_rm-IsShort sv w ShiftRotateOpCode.rcr k h
        also tt)

  prefix6_3bit-IsShort : Returns IsShort (prefix6_3bit bytes)
  unfolding prefix6_3bit
  prefix6_3bit-IsShort = >>=-Returns Any IsShort _ _ (opcode_or-Any bytes long b) (λ both _.
      >>=-Returns IsU8 IsShort _ _ (byte_at 0 (omega arith)) (λ b₀ _.
        select-AllArms (Returns IsShort) (bit_and 0b1111110000111000 both)
          (prefix6_3bit_arms bytes (bit_and b₀ 0b1) (bit_and b₀ 0b10 / 2)) _
          (arms_6_3 _ _ (low_bit b₀) (second_bit b₀)) (prefix7_3bit-IsShort bytes long b)))

  mov_segreg-IsShort : Returns IsShort (mov_segreg bytes)
  unfolding mov_segreg
  mov_segreg-IsShort = >>=-Returns IsU8 IsShort _ _ (byte_at 1 (omega arith)) (λ b₁ _.
      >>=-Returns IsU8 IsShort _ _ (byte_at 0 (omega arith)) (λ b₀ _.
        >>=-Returns (IsSmall FitsW) IsShort _ _ word_rm (λ (rm, sz) p.
          >>=-Returns Any IsShort _ _ (get_segreg-Any _ (sreg_field b₁)) (λ seg _.
            >>=-Returns (Each FitsW) IsShort _ _
              (apply_swap-Each FitsW (WOperand.seg_reg seg) rm _ (second_bit b₀) tt p.0)
              (λ _ q. (omega arith, q))))))

  pub prefix7_1_1bit-IsShort : Returns IsShort (prefix7_1_1bit bytes)
  unfolding prefix7_1_1bit
  prefix7_1_1bit-IsShort = >>=-Returns Any IsShort _ _ (opcode_sum-Any bytes long b) (λ both _.
      select-AllArms (Returns IsShort) (bit_and both 0b1111110100100000)
        ((0b1000110000000000, mov_segreg bytes) ∷ []) _ (mov_segreg-IsShort, tt)
        prefix6_3bit-IsShort)
