-- ===== src/Cpu/Operand/Parity.antt =====
-- `compute_parity` (src/cpu/operand_access.rs).
pub mod Laws
use riapyx.Common.{ℕ, bit_and, bit_xor, ◌==◌, Bool, shr8}

unfoldable pub compute_parity : ℕ → Bool
compute_parity val =
    let r₁ = bit_xor val (shr8 val 4) in
    let r₂ = bit_xor r₁ (shr8 r₁ 2) in let r₃ = bit_xor r₂ (shr8 r₂ 1) in bit_and r₃ 1 == 0
