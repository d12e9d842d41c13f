-- ===== src/Cpu/Parser/Operands.antt =====
-- The register fields and the addressing byte.
use riapyx.Common.{
  ℕ, ◌+◌, ◌*◌, ◌/◌, ◌^◌, bit_and, bit_or, ◌==◌, if◌then◌else◌, u16, [], ◌∷◌, Slice, index, select,
  Result, ok, panic, ◌>>=◌,
}
use riapyx.Cpu.Instruction.{WReg, BReg, SegReg, IndReg, BOperand, WOperand}

unfoldable pub get_breg : ℕ → Result BReg
get_breg reg =
    select reg
      ((0, ok BReg.al)
        ∷ (1, ok BReg.cl)
        ∷ (2, ok BReg.dl)
        ∷ (3, ok BReg.bl)
        ∷ (4, ok BReg.ah)
        ∷ (5, ok BReg.ch)
        ∷ (6, ok BReg.dh)
        ∷ (7, ok BReg.bh)
        ∷ [])
      panic

unfoldable pub get_wreg : ℕ → Result WReg
get_wreg reg =
    select reg
      ((0, ok WReg.ax)
        ∷ (1, ok WReg.cx)
        ∷ (2, ok WReg.dx)
        ∷ (3, ok WReg.bx)
        ∷ (4, ok WReg.sp)
        ∷ (5, ok WReg.bp)
        ∷ (6, ok WReg.si)
        ∷ (7, ok WReg.di)
        ∷ [])
      panic

unfoldable pub get_segreg : ℕ → Result SegReg
get_segreg sreg =
    select sreg ((0, ok SegReg.es) ∷ (1, ok SegReg.cs) ∷ (2, ok SegReg.ss) ∷ (3, ok SegReg.ds) ∷ [])
      panic

unfoldable pub get_indirect_register : ℕ → Result IndReg
get_indirect_register rm =
    select rm
      ((0, ok IndReg.bxsi)
        ∷ (1, ok IndReg.bxdi)
        ∷ (2, ok IndReg.bpsi)
        ∷ (3, ok IndReg.bpdi)
        ∷ (4, ok IndReg.si)
        ∷ (5, ok IndReg.di)
        ∷ (6, ok IndReg.bp)
        ∷ (7, ok IndReg.bx)
        ∷ [])
      panic

pub data RmOperand : Type 0 where
  direct : ℕ → RmOperand
  indirect : IndReg → RmOperand
  indirect_8i_dis : IndReg → ℕ → RmOperand
  indirect_16u_dis : IndReg → ℕ → RmOperand
  reg : ℕ → RmOperand

-- `(data[i] as u16) + ((data[i + 1] as u16) << 8)`, which the source writes out at each use.
unfoldable pub word_at : ℕ → Slice → Result ℕ
word_at i bytes = do lo ← index bytes i; hi ← index bytes (i + 1); ok (u16 (lo + u16 (hi * 2 ^ 8)))

-- The same with `|`.
unfoldable pub get_u16 : ℕ → Slice → Result ℕ
get_u16 off bytes = do
  lo ← index bytes off
  hi ← index bytes (off + 1)
  ok (bit_or lo (u16 (hi * 2 ^ 8)))

unfoldable pub get_simple_rm_operand : ℕ → Slice → Result (RmOperand × ℕ)
unfolding word_at
get_simple_rm_operand rm bytes =
    if rm == 6
    then (do addr ← word_at 2 bytes; ok (RmOperand.direct addr, 2))
    else (do ir ← get_indirect_register rm; ok (RmOperand.indirect ir, 0))

unfoldable pub get_8idisplaced_rm_operand : ℕ → Slice → Result RmOperand
get_8idisplaced_rm_operand rm bytes = do
  disp ← index bytes 2
  ir ← get_indirect_register rm
  ok (RmOperand.indirect_8i_dis ir disp)

unfoldable pub get_16udisplaced_rm_operand : ℕ → Slice → Result RmOperand
unfolding word_at
get_16udisplaced_rm_operand rm bytes = do
  disp ← word_at 2 bytes
  ir ← get_indirect_register rm
  ok (RmOperand.indirect_16u_dis ir disp)

-- The operand and the count of its displacement bytes.
unfoldable pub get_rm_operand : Slice → Result (RmOperand × ℕ)
unfolding get_simple_rm_operand get_8idisplaced_rm_operand get_16udisplaced_rm_operand
get_rm_operand bytes = do
  b₁ ← index bytes 1
  let rm = bit_and b₁ 0b111
  let mode = b₁ / 2 ^ 6
  select mode
      ((0, get_simple_rm_operand rm bytes)
        ∷ (1, (get_8idisplaced_rm_operand rm bytes >>= λ op. ok (op, 1)))
        ∷ (2, (get_16udisplaced_rm_operand rm bytes >>= λ op. ok (op, 2)))
        ∷ (3, ok (RmOperand.reg rm, 0))
        ∷ [])
      panic

abbrev pub boperand_of : RmOperand → Result BOperand
boperand_of (RmOperand.direct addr) = ok (BOperand.direct addr)
boperand_of (RmOperand.indirect ir) = ok (BOperand.indirect ir)
boperand_of (RmOperand.indirect_8i_dis ir dis) = ok (BOperand.indirect_8i_dis ir dis)
boperand_of (RmOperand.indirect_16u_dis ir dis) = ok (BOperand.indirect_16u_dis ir dis)
boperand_of (RmOperand.reg r) = do br ← get_breg r; ok (BOperand.reg br)

unfoldable pub get_rm_boperand : Slice → Result (BOperand × ℕ)
get_rm_boperand bytes = do (rm, sz) ← get_rm_operand bytes; op ← boperand_of rm; ok (op, sz)

abbrev pub woperand_of : RmOperand → Result WOperand
woperand_of (RmOperand.direct addr) = ok (WOperand.direct addr)
woperand_of (RmOperand.indirect ir) = ok (WOperand.indirect ir)
woperand_of (RmOperand.indirect_8i_dis ir dis) = ok (WOperand.indirect_8i_dis ir dis)
woperand_of (RmOperand.indirect_16u_dis ir dis) = ok (WOperand.indirect_16u_dis ir dis)
woperand_of (RmOperand.reg r) = do wr ← get_wreg r; ok (WOperand.reg wr)

unfoldable pub get_rm_woperand : Slice → Result (WOperand × ℕ)
get_rm_woperand bytes = do (rm, sz) ← get_rm_operand bytes; op ← woperand_of rm; ok (op, sz)

unfoldable pub apply_swap : {A : Type 0} → A → A → ℕ → Result (A × A)
apply_swap a b swap = select swap ((0, ok (a, b)) ∷ (1, ok (b, a)) ∷ []) panic
