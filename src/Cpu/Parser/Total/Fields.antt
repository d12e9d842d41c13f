-- ===== src/Cpu/Parser/Total/Fields.antt =====
-- The operand fields, of any bytes that are long enough.
use riapyx.Common.{
  ℕ, zero, suc, ◌+◌, ◌/◌, ◌^◌, ◌<◌, ◌≤◌, arith, ltb, ◌==◌, inl, inr, Bool-cases, bit_and, [], ◌∷◌,
  Slice, index, IsBytes, IsU8, select, Result, ok, panic, ◌>>=◌, Returns, >>=-Returns,
}
use riapyx.Cpu.Parser.Total.Typed.{FitsB, FitsW, IsTyped}
use riapyx.Common.Bits.{bit_or-lt, bit_and-mask, bit_and_comm, bit_and-le_left}
use riapyx.Cpu.Instruction.{SizedInstruction, WReg, BReg, SegReg, IndReg}
use riapyx.Cpu.Parser.Operands.{
  get_breg, get_wreg, get_segreg, get_indirect_register, RmOperand, word_at, get_u16,
  get_simple_rm_operand, get_8idisplaced_rm_operand, get_16udisplaced_rm_operand, get_rm_operand,
  boperand_of, get_rm_boperand, woperand_of, get_rm_woperand, apply_swap,
}

abbrev pub Any {ℓ} : {A : Type ℓ} → A → Type 0
Any _ = Unit {0}

abbrev pub IsWord : ℕ → Type 0
IsWord x = x < 65536

-- No instruction of the processor is longer than six bytes; its operands fit their types.
abbrev pub IsShort : SizedInstruction → Type 0
IsShort i = (i.size ≤ 6) × IsTyped i.instruction

pub select_two :
    {A : Type 0} (P : A → Type 0) (w : ℕ) (a b : Result A)
    → w < 2
    → Returns P a
    → Returns P b
    → Returns P (select w ((0, a) ∷ (1, b) ∷ []) panic)
select_two P zero a b h p q = p
select_two P (suc zero) a b h p q = q
select_two P (suc (suc w)) a b h p q = absurd (omega arith)

pub low_bit : (b : ℕ) → bit_and b 0b1 < 2
low_bit b = omega (arith, bit_and-mask 1 b)

pub second_bit : (b : ℕ) → bit_and b 0b10 / 2 < 2
second_bit b = omega (arith, bit_and_comm b 0b10, bit_and-le_left 0b10 b)

pub reg_field : (b : ℕ) → bit_and b 0b00111000 / 2 ^ 3 < 8
reg_field b = omega (arith, bit_and_comm b 0b00111000, bit_and-le_left 0b00111000 b)

pub sreg_field : (b : ℕ) → bit_and b 0b00011000 / 2 ^ 3 < 4
sreg_field b = omega (arith, bit_and_comm b 0b00011000, bit_and-le_left 0b00011000 b)

pub rm_field : (b : ℕ) → bit_and b 0b111 < 8
rm_field b = omega (arith, bit_and-mask 3 b)

pub get_breg-Any : (r : ℕ) → r < 8 → Returns (Any {A = BReg}) (get_breg r)
unfolding get_breg
get_breg-Any zero h = tt
get_breg-Any (suc zero) h = tt
get_breg-Any (suc (suc zero)) h = tt
get_breg-Any (suc (suc (suc zero))) h = tt
get_breg-Any (suc (suc (suc (suc zero)))) h = tt
get_breg-Any (suc (suc (suc (suc (suc zero))))) h = tt
get_breg-Any (suc (suc (suc (suc (suc (suc zero)))))) h = tt
get_breg-Any (suc (suc (suc (suc (suc (suc (suc zero))))))) h = tt
get_breg-Any (suc (suc (suc (suc (suc (suc (suc (suc r)))))))) h = absurd (omega arith)

pub get_wreg-Any : (r : ℕ) → r < 8 → Returns (Any {A = WReg}) (get_wreg r)
unfolding get_wreg
get_wreg-Any zero h = tt
get_wreg-Any (suc zero) h = tt
get_wreg-Any (suc (suc zero)) h = tt
get_wreg-Any (suc (suc (suc zero))) h = tt
get_wreg-Any (suc (suc (suc (suc zero)))) h = tt
get_wreg-Any (suc (suc (suc (suc (suc zero))))) h = tt
get_wreg-Any (suc (suc (suc (suc (suc (suc zero)))))) h = tt
get_wreg-Any (suc (suc (suc (suc (suc (suc (suc zero))))))) h = tt
get_wreg-Any (suc (suc (suc (suc (suc (suc (suc (suc r)))))))) h = absurd (omega arith)

pub get_segreg-Any : (r : ℕ) → r < 4 → Returns (Any {A = SegReg}) (get_segreg r)
unfolding get_segreg
get_segreg-Any zero h = tt
get_segreg-Any (suc zero) h = tt
get_segreg-Any (suc (suc zero)) h = tt
get_segreg-Any (suc (suc (suc zero))) h = tt
get_segreg-Any (suc (suc (suc (suc r)))) h = absurd (omega arith)

pub get_indirect_register-Any :
    (r : ℕ) → r < 8 → Returns (Any {A = IndReg}) (get_indirect_register r)
unfolding get_indirect_register
get_indirect_register-Any zero h = tt
get_indirect_register-Any (suc zero) h = tt
get_indirect_register-Any (suc (suc zero)) h = tt
get_indirect_register-Any (suc (suc (suc zero))) h = tt
get_indirect_register-Any (suc (suc (suc (suc zero)))) h = tt
get_indirect_register-Any (suc (suc (suc (suc (suc zero))))) h = tt
get_indirect_register-Any (suc (suc (suc (suc (suc (suc zero)))))) h = tt
get_indirect_register-Any (suc (suc (suc (suc (suc (suc (suc zero))))))) h = tt
get_indirect_register-Any (suc (suc (suc (suc (suc (suc (suc (suc r)))))))) h = absurd (omega arith)

abbrev pub Each : {A : Type 0} → (A → Type 0) → A × A → Type 0
Each P (x, y) = P x × P y

pub apply_swap-Each :
    {A : Type 0} (P : A → Type 0) (a b : A) (d : ℕ)
    → d < 2
    → P a
    → P b
    → Returns (Each P) (apply_swap a b d)
unfolding apply_swap
apply_swap-Each P a b d h p q = select_two (Each P) d (ok (a, b)) (ok (b, a)) h (p, q) (q, p)

-- A register operand names a register, and an address has 16 bits.
abbrev pub IsRm : RmOperand → Type 0
IsRm (RmOperand.reg r) = r < 8
IsRm (RmOperand.direct addr) = addr < 65536
IsRm _ = Unit {0}

boperand_of-FitsB : (rm : RmOperand) → IsRm rm → Returns FitsB (boperand_of rm)
boperand_of-FitsB (RmOperand.reg r) h =
    >>=-Returns Any FitsB (get_breg r) _ (get_breg-Any r h) (λ _ _. tt)
boperand_of-FitsB (RmOperand.direct _) h = tt
boperand_of-FitsB (RmOperand.indirect _) h = tt
boperand_of-FitsB (RmOperand.indirect_8i_dis _ _) h = tt
boperand_of-FitsB (RmOperand.indirect_16u_dis _ _) h = tt

woperand_of-FitsW : (rm : RmOperand) → IsRm rm → Returns FitsW (woperand_of rm)
woperand_of-FitsW (RmOperand.reg r) h =
    >>=-Returns Any FitsW (get_wreg r) _ (get_wreg-Any r h) (λ _ _. tt)
woperand_of-FitsW (RmOperand.direct _) h = h
woperand_of-FitsW (RmOperand.indirect _) h = tt
woperand_of-FitsW (RmOperand.indirect_8i_dis _ _) h = tt
woperand_of-FitsW (RmOperand.indirect_16u_dis _ _) h = tt

-- An operand takes two bytes of displacement at most.
abbrev pub IsSmall : {A : Type 0} → (A → Type 0) → A × ℕ → Type 0
IsSmall P (x, sz) = P x × (sz ≤ 2)

module _ (bytes : Slice) (long : 6 ≤ bytes.len) (b : IsBytes bytes) where
  pub index-IsU8 : (i : ℕ) → i < 6 → Returns IsU8 (index bytes i)
  index-IsU8 i h = elim (Bool-cases (ltb i bytes.len)) [
    | inl e ↦ rw e (b i)
    | inr e ↦ absurd (ground arith)
  ]

  pub word_at-IsWord : (i : ℕ) → i < 5 → Returns IsWord (word_at i bytes)
  unfolding word_at
  word_at-IsWord i h =
      >>=-Returns IsU8 IsWord _ _ (index-IsU8 i (omega arith))
        (λ _ _. >>=-Returns IsU8 IsWord _ _ (index-IsU8 (i + 1) (omega arith)) (λ _ _. omega arith))

  pub get_u16-IsWord : (i : ℕ) → i < 5 → Returns IsWord (get_u16 i bytes)
  unfolding get_u16
  get_u16-IsWord i h = >>=-Returns IsU8 IsWord _ _ (index-IsU8 i (omega arith)) (λ lo p.
      >>=-Returns IsU8 IsWord _ _ (index-IsU8 (i + 1) (omega arith))
        (λ hi q. bit_or-lt 16 lo _ (omega arith) (omega arith)))

  abbrev IsSmallRm : RmOperand × ℕ → Type 0
  IsSmallRm = IsSmall IsRm

  simple_rm : (rm : ℕ) → rm < 8 → Returns IsSmallRm (get_simple_rm_operand rm bytes)
  unfolding get_simple_rm_operand
  simple_rm rm h = elim (Bool-cases (rm == 6)) [
    | inl e ↦ rw e (
        >>=-Returns IsWord IsSmallRm _ _ (word_at-IsWord 2 (omega arith)) (λ _ p. (p, omega arith)))
    | inr e ↦
        rw e (
          >>=-Returns Any IsSmallRm _ _ (get_indirect_register-Any rm h) (λ _ _. (tt, omega arith)))
  ]

  displaced_8 : (rm : ℕ) → rm < 8 → Returns IsRm (get_8idisplaced_rm_operand rm bytes)
  unfolding get_8idisplaced_rm_operand
  displaced_8 rm h =
      >>=-Returns IsU8 IsRm _ _ (index-IsU8 2 (omega arith))
        (λ _ _. >>=-Returns Any IsRm _ _ (get_indirect_register-Any rm h) (λ _ _. tt))

  displaced_16 : (rm : ℕ) → rm < 8 → Returns IsRm (get_16udisplaced_rm_operand rm bytes)
  unfolding get_16udisplaced_rm_operand
  displaced_16 rm h =
      >>=-Returns IsWord IsRm _ _ (word_at-IsWord 2 (omega arith))
        (λ _ _. >>=-Returns Any IsRm _ _ (get_indirect_register-Any rm h) (λ _ _. tt))

  abbrev modes : ℕ → ℕ → Result (RmOperand × ℕ)
  modes mode rm =
      select mode
        ((0, get_simple_rm_operand rm bytes)
          ∷ (1, (get_8idisplaced_rm_operand rm bytes >>= λ op. ok (op, 1)))
          ∷ (2, (get_16udisplaced_rm_operand rm bytes >>= λ op. ok (op, 2)))
          ∷ (3, ok (RmOperand.reg rm, 0))
          ∷ [])
        panic

  modes-IsSmallRm : (mode rm : ℕ) → mode < 4 → rm < 8 → Returns IsSmallRm (modes mode rm)
  modes-IsSmallRm zero rm h p = simple_rm rm p
  modes-IsSmallRm (suc zero) rm h p =
      >>=-Returns IsRm IsSmallRm _ _ (displaced_8 rm p) (λ _ q. (q, omega arith))
  modes-IsSmallRm (suc (suc zero)) rm h p =
      >>=-Returns IsRm IsSmallRm _ _ (displaced_16 rm p) (λ _ q. (q, omega arith))
  modes-IsSmallRm (suc (suc (suc zero))) rm h p = (p, omega arith)
  modes-IsSmallRm (suc (suc (suc (suc mode)))) rm h p = absurd (omega arith)

  get_rm_operand-IsSmallRm : Returns IsSmallRm (get_rm_operand bytes)
  unfolding get_rm_operand
  get_rm_operand-IsSmallRm =
      >>=-Returns IsU8 IsSmallRm _ _ (index-IsU8 1 (omega arith))
        (λ b₁ h. modes-IsSmallRm (b₁ / 2 ^ 6) (bit_and b₁ 0b111) (omega arith) (rm_field b₁))

  pub get_rm_boperand-IsSmall : Returns (IsSmall FitsB) (get_rm_boperand bytes)
  unfolding get_rm_boperand
  get_rm_boperand-IsSmall =
      >>=-Returns IsSmallRm (IsSmall FitsB) _ _ get_rm_operand-IsSmallRm (λ (rm, sz) h.
        >>=-Returns FitsB (IsSmall FitsB) _ _ (boperand_of-FitsB rm h.0) (λ _ p. (p, h.1)))

  pub get_rm_woperand-IsSmall : Returns (IsSmall FitsW) (get_rm_woperand bytes)
  unfolding get_rm_woperand
  get_rm_woperand-IsSmall =
      >>=-Returns IsSmallRm (IsSmall FitsW) _ _ get_rm_operand-IsSmallRm (λ (rm, sz) h.
        >>=-Returns FitsW (IsSmall FitsW) _ _ (woperand_of-FitsW rm h.0) (λ _ p. (p, h.1)))
