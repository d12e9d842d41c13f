-- ===== src/Cpu/Exec/Strings.antt =====
-- `run_imgop_ins`: the string instructions, one element a call, and the repeat prefix.
use riapyx.Common.{
  ℕ, ◌/◌, ◌==◌, ◌!=◌, ◌&&◌, ◌||◌, bit_and, if◌then◌else◌, add16, sub16, Bool, true, false, Option,
  none, some, Result, ok, ◌>>=◌,
}
use riapyx.Cpu.Instruction.{ImplicitOperandOpCode}
use riapyx.Cpu.State.{Cpu, Core, core, RepPrefix, flag_d, flag_z}
use riapyx.Cpu.Registers.{has_flag}
use riapyx.Cpu.Operand.{Operand}
use riapyx.Cpu.Access.{OperandAccess}
use riapyx.Cpu.Exec.Flags.{set_szp_flags, set_oca_flags}

abbrev pub is_rep : Cpu → Bool
is_rep c = elim c.rep_prefix [ none ↦ false | some _ ↦ true ]

abbrev advance_si : ℕ → Cpu → Cpu
advance_si n c = record c { si = add16 c.si n }

abbrev advance_di : ℕ → Cpu → Cpu
advance_di n c = record c { di = add16 c.di n }

-- `should_rep_end` but for the test of CX.
unfoldable pub compare_ends : ImplicitOperandOpCode → RepPrefix → Cpu → Bool
compare_ends ImplicitOperandOpCode.movs mode c = false
compare_ends ImplicitOperandOpCode.stos mode c = false
compare_ends ImplicitOperandOpCode.lods mode c = false
compare_ends ImplicitOperandOpCode.cmps RepPrefix.rep c = bit_and c.flags flag_z == 0
compare_ends ImplicitOperandOpCode.cmps RepPrefix.repne c = bit_and c.flags flag_z != 0
compare_ends ImplicitOperandOpCode.scas RepPrefix.rep c = bit_and c.flags flag_z == 0
compare_ends ImplicitOperandOpCode.scas RepPrefix.repne c = bit_and c.flags flag_z != 0

abbrev rep_under : ImplicitOperandOpCode → Option RepPrefix → Cpu → Cpu
rep_under op none c = c
rep_under op (some mode) c =
    let c₁ = record c { cx = sub16 c.cx 1 } in
    if c₁.cx == 0 || compare_ends op mode c₁ then record c₁ { rep_prefix = none } else c₁

-- The update of CX and of the prefix behind the `match op`.
unfoldable pub handle_rep : ImplicitOperandOpCode → Cpu → Cpu
unfolding compare_ends
handle_rep op c = rep_under op c.rep_prefix c

-- `increment`: the size of an element, or minus it.
abbrev pub increment : Operand → Cpu → ℕ
increment v c =
    let operand_size = v.bit_count / 8 in
    if has_flag c flag_d then sub16 0 operand_size else operand_size

module _ {T : Type 0} ⦃a : OperandAccess T⦄ where
  -- The `match op`, with `src` and `dst`.
  unfoldable pub string_element : ImplicitOperandOpCode → T → T → Core → Result Core
  string_element ImplicitOperandOpCode.movs src dst s = do
    let n = increment a.value s.cpu
    s₁ ← a.store_operand dst (a.load_operand s src) s
    ok (core (advance_di n (advance_si n s₁.cpu)) s₁.mem)
  string_element ImplicitOperandOpCode.lods src dst s =
      let n = increment a.value s.cpu in
      ok (core (advance_si n (a.set_acc s.cpu (a.load_operand s src))) s.mem)
  string_element ImplicitOperandOpCode.stos src dst s = do
    let n = increment a.value s.cpu
    s₁ ← a.store_operand dst (a.get_acc s.cpu) s
    ok (core (advance_di n s₁.cpu) s₁.mem)
  string_element ImplicitOperandOpCode.cmps src dst s =
      let n = increment a.value s.cpu in
      let from_value = a.load_operand s src in
      let to_value = a.load_operand s dst in
      let result = a.value.wrapping_sub from_value to_value in
      let c₁ = set_oca_flags (a.value.sub_oca_flags result from_value to_value) s.cpu in
      let c₂ = set_szp_flags a.value result c₁ in ok (core (advance_di n (advance_si n c₂)) s.mem)
  string_element ImplicitOperandOpCode.scas src dst s =
      let n = increment a.value s.cpu in
      let from_value = a.get_acc s.cpu in
      let to_value = a.load_operand s dst in
      let result = a.value.wrapping_sub from_value to_value in
      let c₁ = set_oca_flags (a.value.sub_oca_flags result from_value to_value) s.cpu in
      let c₂ = set_szp_flags a.value result c₁ in ok (core (advance_di n c₂) s.mem)

  unfoldable pub run_imgop_ins : ImplicitOperandOpCode → T → T → Core → Result Core
  unfolding string_element handle_rep
  run_imgop_ins op src dst s =
      if is_rep s.cpu && s.cpu.cx == 0
      then ok (core (let c = s.cpu in record c { rep_prefix = none }) s.mem)
      else do s₁ ← string_element op src dst s; ok (core (handle_rep op s₁.cpu) s₁.mem)
