-- ===== src/Cpu/Exec/Flags.antt =====
-- The groups of flags that the arithmetic instructions set.
pub mod Laws
use riapyx.Common.{ℕ, Bool}
use riapyx.Cpu.State.{Cpu, flag_s, flag_z, flag_p, flag_o, flag_a, flag_c}
use riapyx.Cpu.Registers.{set_flag_value, clear_flag}
use riapyx.Cpu.Operand.{Operand}

unfoldable pub set_szp_flags : Operand → ℕ → Cpu → Cpu
set_szp_flags v val c =
    let c₁ = set_flag_value flag_s (v.sign_flag val) c in
    let c₂ = set_flag_value flag_z (v.zero_flag val) c₁ in
    set_flag_value flag_p (v.parity_flag val) c₂

unfoldable pub set_oa_flags : Bool × Bool → Cpu → Cpu
set_oa_flags (overflow, half_carry) c =
    set_flag_value flag_a half_carry (set_flag_value flag_o overflow c)

unfoldable pub set_oc_flags : Bool × Bool → Cpu → Cpu
set_oc_flags (overflow, carry) c = set_flag_value flag_c carry (set_flag_value flag_o overflow c)

unfoldable pub set_oca_flags : Bool × Bool × Bool → Cpu → Cpu
set_oca_flags (overflow, carry, half_carry) c =
    set_flag_value flag_a half_carry
      (set_flag_value flag_c carry (set_flag_value flag_o overflow c))

unfoldable pub clear_oc_flags : Cpu → Cpu
clear_oc_flags c = clear_flag flag_c (clear_flag flag_o c)
