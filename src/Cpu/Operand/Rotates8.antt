-- ===== src/Cpu/Operand/Rotates8.antt =====
-- The rotations on `u8` undo one another.
use riapyx.Common.{ℕ, zero, suc, ◌%◌, ◌<◌, ◌≡◌, arith, IsU8, refl}
use riapyx.Cpu.Operand.U8

ror-rol_at : (x n k : ℕ) → IsU8 x → k < 8 → n % 8 ≡ k → U8.ror (U8.rol x n) n ≡ x
unfolding U8.ror U8.rol
ror-rol_at x n zero p h e = rw e (omega arith)
ror-rol_at x n (suc zero) p h e = rw e (omega arith)
ror-rol_at x n (suc (suc zero)) p h e = rw e (omega arith)
ror-rol_at x n (suc (suc (suc zero))) p h e = rw e (omega arith)
ror-rol_at x n (suc (suc (suc (suc zero)))) p h e = rw e (omega arith)
ror-rol_at x n (suc (suc (suc (suc (suc zero))))) p h e = rw e (omega arith)
ror-rol_at x n (suc (suc (suc (suc (suc (suc zero)))))) p h e = rw e (omega arith)
ror-rol_at x n (suc (suc (suc (suc (suc (suc (suc zero))))))) p h e = rw e (omega arith)
ror-rol_at x n (suc (suc (suc (suc (suc (suc (suc (suc k)))))))) p h e = omega arith

-- On a byte, `ROR` by any count undoes `ROL` by that count.
pub ror-rol : (x n : ℕ) → IsU8 x → U8.ror (U8.rol x n) n ≡ x
ror-rol x n p = ror-rol_at x n (n % 8) p (omega arith) refl
