-- ===== src/Cpu/Exec/TwoOperands.antt =====
-- `run_tgop_ins`, `run_twop_ins` and `run_tbop_ins`.
pub mod Sums
use riapyx.Common.{
  ℕ, ◌==◌, bit_and, bit_or, bit_xor, if◌then◌else◌, add16, true, false, Result, ok, panic, ◌>>=◌,
}
use riapyx.Common.Int.{sign_extend}
use riapyx.Cpu.Instruction.{TwoOperandsOpCode, BOperand, WOperand}
use riapyx.Cpu.State.{Cpu, Core, core, flag_c}
use riapyx.Cpu.Address.{get_ireg_addr}
use riapyx.Cpu.Access.{OperandAccess, b_access, w_access, load_woperand_32, store_woperand}
use riapyx.Cpu.Exec.Flags.{set_szp_flags, set_oca_flags, set_oc_flags, clear_oc_flags}

module _ {T : Type 0} ⦃a : OperandAccess T⦄ where
  unfoldable pub run_tgop_ins : TwoOperandsOpCode → T → T → Core → Result Core
  run_tgop_ins TwoOperandsOpCode.add from to s =
      let from_value = a.load_operand s from in
      let to_value = a.load_operand s to in
      let result = a.value.wrapping_add from_value to_value in
      let c₁ = set_oca_flags (a.value.add_oca_flags result to_value from_value) s.cpu in
      a.store_operand to result (core (set_szp_flags a.value result c₁) s.mem)
  run_tgop_ins TwoOperandsOpCode.adc from to s =
      let from_value = a.load_operand s from in
      let to_value = a.load_operand s to in
      let has_carry = bit_and s.cpu.flags flag_c == flag_c in
      let sum = a.value.wrapping_add from_value to_value in
      let result = if has_carry then a.value.inc sum else sum in
      let c₁ = set_oca_flags (a.value.add_oca_flags result to_value from_value) s.cpu in
      a.store_operand to result (core (set_szp_flags a.value result c₁) s.mem)
  run_tgop_ins TwoOperandsOpCode.sub from to s =
      let from_value = a.load_operand s from in
      let to_value = a.load_operand s to in
      let result = a.value.wrapping_sub to_value from_value in
      let c₁ = set_oca_flags (a.value.sub_oca_flags result to_value from_value) s.cpu in
      a.store_operand to result (core (set_szp_flags a.value result c₁) s.mem)
  run_tgop_ins TwoOperandsOpCode.sbb from to s =
      let from_value = a.load_operand s from in
      let to_value = a.load_operand s to in
      let has_borrow = bit_and s.cpu.flags flag_c == flag_c in
      let difference = a.value.wrapping_sub to_value from_value in
      let result = if has_borrow then a.value.dec difference else difference in
      let c₁ = set_oca_flags (a.value.sub_oca_flags result to_value from_value) s.cpu in
      a.store_operand to result (core (set_szp_flags a.value result c₁) s.mem)
  run_tgop_ins TwoOperandsOpCode.and from to s =
      let result = bit_and (a.load_operand s from) (a.load_operand s to) in
      let c₁ = clear_oc_flags (set_szp_flags a.value result s.cpu) in
      a.store_operand to result (core c₁ s.mem)
  run_tgop_ins TwoOperandsOpCode.xor from to s =
      let result = bit_xor (a.load_operand s from) (a.load_operand s to) in
      let c₁ = clear_oc_flags (set_szp_flags a.value result s.cpu) in
      a.store_operand to result (core c₁ s.mem)
  run_tgop_ins TwoOperandsOpCode.or from to s =
      let result = bit_or (a.load_operand s from) (a.load_operand s to) in
      let c₁ = clear_oc_flags (set_szp_flags a.value result s.cpu) in
      a.store_operand to result (core c₁ s.mem)
  run_tgop_ins TwoOperandsOpCode.mov from to s = a.store_operand to (a.load_operand s from) s
  run_tgop_ins TwoOperandsOpCode.cmp from to s =
      let from_value = a.load_operand s from in
      let to_value = a.load_operand s to in
      let result = a.value.wrapping_sub to_value from_value in
      let c₁ = set_oca_flags (a.value.sub_oca_flags result to_value from_value) s.cpu in
      ok (core (set_szp_flags a.value result c₁) s.mem)
  run_tgop_ins TwoOperandsOpCode.xchg from to s = do
    let from_value = a.load_operand s from
    let to_value = a.load_operand s to
    s₁ ← a.store_operand from to_value s
    a.store_operand to from_value s₁
  run_tgop_ins TwoOperandsOpCode.test from to s =
      let val = bit_and (a.load_operand s from) (a.load_operand s to) in
      ok (core (set_oc_flags (false, false) (set_szp_flags a.value val s.cpu)) s.mem)
  run_tgop_ins TwoOperandsOpCode.lea from to s = panic
  run_tgop_ins TwoOperandsOpCode.lds from to s = panic
  run_tgop_ins TwoOperandsOpCode.les from to s = panic

-- The offset that `LEA` stores.
unfoldable pub lea_offset : Cpu → WOperand → Result ℕ
lea_offset c (WOperand.direct addr) = ok addr
lea_offset c (WOperand.indirect ir) = ok (get_ireg_addr c ir).1
lea_offset c (WOperand.indirect_8i_dis ir dis) = ok (add16 (get_ireg_addr c ir).1 (sign_extend dis))
lea_offset c (WOperand.indirect_16u_dis ir dis) = ok (add16 (get_ireg_addr c ir).1 dis)
lea_offset c (WOperand.reg _) = panic
lea_offset c (WOperand.seg_reg _) = panic
lea_offset c (WOperand.immediate _) = panic

unfoldable pub run_twop_ins : TwoOperandsOpCode → WOperand → WOperand → Core → Result Core
unfolding lea_offset
run_twop_ins TwoOperandsOpCode.lds from to s = do
  (w₁, w₂) ← load_woperand_32 s from
  s₁ ← store_woperand to w₁ s
  ok (core (let c = s₁.cpu in record c { ds = w₂ }) s₁.mem)
run_twop_ins TwoOperandsOpCode.les from to s = do
  (w₁, w₂) ← load_woperand_32 s from
  s₁ ← store_woperand to w₁ s
  ok (core (let c = s₁.cpu in record c { es = w₂ }) s₁.mem)
run_twop_ins TwoOperandsOpCode.lea from to s = do
  offset ← lea_offset s.cpu from
  store_woperand to offset s
run_twop_ins op from to s = run_tgop_ins op from to s

unfoldable pub run_tbop_ins : TwoOperandsOpCode → BOperand → BOperand → Core → Result Core
run_tbop_ins TwoOperandsOpCode.lds from to s = panic
run_tbop_ins op from to s = run_tgop_ins op from to s
