-- ===== src/Cpu/Branch/Compare.antt =====
-- A comparison followed by a conditional jump (`run_tgop_ins` and `run_sbiop_ins` of
-- src/cpu/instruction_exec.rs).
use riapyx.Common.{
  ℕ, ◌≡◌, sym, ap, ◌∙◌, arith, ltb, leb, ◌==◌, ◌!=◌, not, ◌≠ᵇ◌, bit_and, Bool, true, false,
  if◌then◌else◌, add16, sub16, IsU16, Returns, ◌>>=◌,
}
use riapyx.Common.Int.{signed, ltb_ℤ, sign_extend}
use riapyx.Cpu.Instruction.{SingleBImmOperandOpCode, TwoOperandsOpCode, WOperand}
use riapyx.Cpu.State.{Core, core, Cpu, flag_s, flag_z, flag_o, flag_c}
use riapyx.Cpu.Access.{load_woperand, w_access}
use riapyx.Cpu.Operand.{u16_operand}
use riapyx.Cpu.Operand.U16
use riapyx.Cpu.Operand.Sums16.{sub_oca_flags_lem, sub_less, sign_flag_lem}
use riapyx.Cpu.Exec.Flags.{set_szp_flags, set_oca_flags}
use riapyx.Cpu.Exec.Flags.Laws.{after_arithmetic, masked_s, masked_o, arithmetic_frame}
use riapyx.Cpu.Exec.TwoOperands.{run_tgop_ins, run_twop_ins}
use riapyx.Cpu.Branch.{run_sbiop_ins, jump_if}
use riapyx.Hw.Devices.{Hw}
use riapyx.Mem.{Memory}

-- The relations that a conditional jump decides, of unsigned and of signed words.
pub data Relation : Type 0 where
  below not_below below_or_equal above equal not_equal : Relation
  less not_less less_or_equal greater : Relation

abbrev pub jump_on : Relation → SingleBImmOperandOpCode
jump_on Relation.below = SingleBImmOperandOpCode.jb
jump_on Relation.not_below = SingleBImmOperandOpCode.jnb
jump_on Relation.below_or_equal = SingleBImmOperandOpCode.jbe
jump_on Relation.above = SingleBImmOperandOpCode.jnbe
jump_on Relation.equal = SingleBImmOperandOpCode.je
jump_on Relation.not_equal = SingleBImmOperandOpCode.jne
jump_on Relation.less = SingleBImmOperandOpCode.jl
jump_on Relation.not_less = SingleBImmOperandOpCode.jnl
jump_on Relation.less_or_equal = SingleBImmOperandOpCode.jle
jump_on Relation.greater = SingleBImmOperandOpCode.jnle

abbrev pub holds : Relation → ℕ → ℕ → Bool
holds Relation.below a b = ltb a b
holds Relation.not_below a b = leb b a
holds Relation.below_or_equal a b = leb a b
holds Relation.above a b = ltb b a
holds Relation.equal a b = a == b
holds Relation.not_equal a b = a != b
holds Relation.less a b = ltb_ℤ (signed 16 a) (signed 16 b)
holds Relation.not_less a b = not (ltb_ℤ (signed 16 a) (signed 16 b))
holds Relation.less_or_equal a b = not (ltb_ℤ (signed 16 b) (signed 16 a))
holds Relation.greater a b = ltb_ℤ (signed 16 b) (signed 16 a)

-- The flags of a comparison of `a` with `b`.
abbrev compared : ℕ → ℕ → Cpu → Cpu
compared a b c =
    set_szp_flags u16_operand (sub16 a b) (set_oca_flags (U16.sub_oca_flags (sub16 a b) a b) c)

module _ (a b : ℕ) (c : Cpu) (p : IsU16 a) (q : IsU16 b) where
  compared_c : (bit_and (compared a b c).flags flag_c != 0) ≡ ltb a b
  compared_c =
      after_arithmetic u16_operand (sub16 a b) (U16.sub_oca_flags (sub16 a b) a b) c 0 (omega arith)
      ∙ ap (λ t. t.1) (sub_oca_flags_lem a b p q)

  compared_z : (bit_and (compared a b c).flags flag_z != 0) ≡ (a == b)
  unfolding U16.zero_flag
  compared_z =
      after_arithmetic u16_operand (sub16 a b) (U16.sub_oca_flags (sub16 a b) a b) c 6 (omega arith)
      ∙ ground arith

  compared_s_o :
      ((bit_and (compared a b c).flags flag_s != 0) ≠ᵇ (bit_and (compared a b c).flags flag_o != 0))
      ≡ ltb_ℤ (signed 16 a) (signed 16 b)
  compared_s_o = ground (
    arith,
    after_arithmetic u16_operand (sub16 a b) (U16.sub_oca_flags (sub16 a b) a b) c 7 (omega arith),
    after_arithmetic u16_operand (sub16 a b) (U16.sub_oca_flags (sub16 a b) a b) c 11 (omega arith),
    sign_flag_lem (sub16 a b) (omega arith),
    sub_less a b p q,
  )

  ip_kept : (compared a b c).ip ≡ c.ip
  ip_kept =
      ap (λ (d : Cpu). d.ip)
        (arithmetic_frame u16_operand (sub16 a b) (U16.sub_oca_flags (sub16 a b) a b) c)

  decided :
      {F : Type 0} (t u : Bool) (n : ℕ) (mem : Memory) (hw : Hw F)
      → t ≡ u
      → Returns
          (λ r. r.0.cpu.ip ≡ (if u then add16 c.ip (sign_extend n) else c.ip))
          (jump_if t n (core (compared a b c) mem) hw)
  decided true u n mem hw e = rw (sym e) (ap (λ i. add16 i (sign_extend n)) ip_kept)
  decided false u n mem hw e = rw (sym e) ip_kept

  taken_iff :
      {F : Type 0} (rel : Relation) (n : ℕ) (mem : Memory) (hw : Hw F)
      → Returns
          (λ r. r.0.cpu.ip ≡ (if holds rel a b then add16 c.ip (sign_extend n) else c.ip))
          (run_sbiop_ins (jump_on rel) n (core (compared a b c) mem) hw)
  unfolding run_sbiop_ins
  taken_iff Relation.below n mem hw = decided _ _ n mem hw (ground (arith, compared_c))
  taken_iff Relation.not_below n mem hw = decided _ _ n mem hw (ground (arith, compared_c))
  taken_iff Relation.below_or_equal n mem hw =
      decided _ _ n mem hw (ground (arith, compared_c, compared_z))
  taken_iff Relation.above n mem hw = decided _ _ n mem hw (ground (arith, compared_c, compared_z))
  taken_iff Relation.equal n mem hw = decided _ _ n mem hw (ground (arith, compared_z))
  taken_iff Relation.not_equal n mem hw = decided _ _ n mem hw (ground (arith, compared_z))
  taken_iff Relation.less n mem hw = decided _ _ n mem hw (
      ground
        (arith, compared_s_o, masked_s (compared a b c).flags, masked_o (compared a b c).flags))
  taken_iff Relation.not_less n mem hw = decided _ _ n mem hw (
      ground
        (arith, compared_s_o, masked_s (compared a b c).flags, masked_o (compared a b c).flags))
  taken_iff Relation.less_or_equal n mem hw =
      decided _ _ n mem hw (ground (arith, compared_z, compared_s_o))
  taken_iff Relation.greater n mem hw =
      decided _ _ n mem hw (ground (arith, compared_z, compared_s_o))

-- `CMP` of words and then a conditional jump: the jump is taken exactly if the destination is in
-- the relation of the jump's name to the source, and else the next instruction follows.
pub compare_jump :
    {F : Type 0}
    → (rel : Relation) (from to : WOperand) (n : ℕ) (s : Core) (hw : Hw F)
    → IsU16 (load_woperand s from)
    → IsU16 (load_woperand s to)
    → Returns
        (λ r. r.0.cpu.ip ≡ (
          if holds rel (load_woperand s to) (load_woperand s from)
          then add16 s.cpu.ip (sign_extend n)
          else s.cpu.ip))
        (run_twop_ins TwoOperandsOpCode.cmp from to s >>= λ s₁. run_sbiop_ins (jump_on rel) n s₁ hw)
unfolding run_twop_ins run_tgop_ins
compare_jump rel from to n s hw p q =
    taken_iff (load_woperand s to) (load_woperand s from) s.cpu q p rel n s.mem hw
