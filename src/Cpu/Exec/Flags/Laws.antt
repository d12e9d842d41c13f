-- ===== src/Cpu/Exec/Flags/Laws.antt =====
-- What the flags are behind an arithmetic instruction.
use riapyx.Common.{
  ℕ, ◌≡◌, refl, ◌∙◌, ap, ◌^◌, ◌<◌, true, false, arith, bit_and, ◌==◌, ◌!=◌, not, Bool,
  if◌then◌else◌,
}
use riapyx.Common.Bits.{bit_and-two_pow}
use riapyx.Cpu.State.{Cpu, flag_s, flag_z, flag_p, flag_o, flag_a, flag_c}
use riapyx.Cpu.Registers.{set_flag_value, has_flag}
use riapyx.Cpu.Registers.Laws.{has_flag-set_flag_value}
use riapyx.Cpu.Operand.{Operand}
use riapyx.Cpu.Exec.Flags.{set_szp_flags, set_oca_flags}

module _ (v : Operand) (val : ℕ) (c : Cpu) (j : ℕ) (h : j < 16) where
  after_szp : has_flag (set_szp_flags v val c) (2 ^ j) ≡ (
      if 2 == j
      then v.parity_flag val
      else if 6 == j
      then v.zero_flag val
      else if 7 == j
      then v.sign_flag val
      else has_flag c (2 ^ j))
  unfolding set_szp_flags
  after_szp =
      let c₁ = set_flag_value flag_s (v.sign_flag val) c in
      let c₂ = set_flag_value flag_z (v.zero_flag val) c₁ in
      has_flag-set_flag_value c₂ 2 j (v.parity_flag val) h
      ∙ ap (λ b. if 2 == j then v.parity_flag val else b)
          (has_flag-set_flag_value c₁ 6 j (v.zero_flag val) h
            ∙ ap (λ b. if 6 == j then v.zero_flag val else b)
                (has_flag-set_flag_value c 7 j (v.sign_flag val) h))

module _ (o k a : Bool) (c : Cpu) (j : ℕ) (h : j < 16) where
  after_oca :
      has_flag (set_oca_flags (o, k, a) c) (2 ^ j)
      ≡ (if 4 == j then a else if 0 == j then k else if 11 == j then o else has_flag c (2 ^ j))
  unfolding set_oca_flags
  after_oca =
      let c₁ = set_flag_value flag_o o c in
      let c₂ = set_flag_value flag_c k c₁ in
      has_flag-set_flag_value c₂ 4 j a h
      ∙ ap (λ b. if 4 == j then a else b)
          (has_flag-set_flag_value c₁ 0 j k h
            ∙ ap (λ b. if 0 == j then k else b) (has_flag-set_flag_value c 11 j o h))

-- The flags as the bits of weights 2 ^ 0, 2, 4, 6, 7 and 11, behind both groups of updates; every
-- other flag is kept.
abbrev pub arithmetic_flag : Operand → ℕ → Bool × Bool × Bool → Cpu → ℕ → Bool
arithmetic_flag v val (o, k, a) c j =
    if j == 0
    then k
    else if j == 2
    then v.parity_flag val
    else if j == 4
    then a
    else if j == 6
    then v.zero_flag val
    else if j == 7
    then v.sign_flag val
    else if j == 11
    then o
    else has_flag c (2 ^ j)

pub after_arithmetic :
    (v : Operand) (val : ℕ) (oca : Bool × Bool × Bool) (c : Cpu) (j : ℕ)
    → j < 16
    → has_flag (set_szp_flags v val (set_oca_flags oca c)) (2 ^ j) ≡ arithmetic_flag v val oca c j
after_arithmetic v val (o, k, a) c j h =
    ground (arith, after_szp v val (set_oca_flags (o, k, a) c) j h, after_oca o k a c j h)

-- A masked flag that is not zero is the mask.
pub masked_s : (f : ℕ) → (bit_and f flag_s != flag_s) ≡ not (bit_and f flag_s != 0)
masked_s f = ground (arith, bit_and-two_pow 7 f)

pub masked_o : (f : ℕ) → (bit_and f flag_o != flag_o) ≡ not (bit_and f flag_o != 0)
masked_o f = ground (arith, bit_and-two_pow 11 f)

-- `d` is `c` but for the flags.
abbrev pub IsCpuButFlags : Cpu → Cpu → Type 0
IsCpuButFlags c d = d ≡ record c { flags = d.flags }

abbrev with_flags : ℕ → Cpu → Cpu
with_flags f c = record c { flags = f }

frame_trans : (c d e : Cpu) → IsCpuButFlags c d → IsCpuButFlags d e → IsCpuButFlags c e
frame_trans c d e p q = q ∙ ap (with_flags e.flags) p

set_flag_value_frame : (m : ℕ) (b : Bool) (c : Cpu) → IsCpuButFlags c (set_flag_value m b c)
unfolding set_flag_value
set_flag_value_frame m true c = refl
set_flag_value_frame m false c = refl

two_flags_frame :
    (m n : ℕ) (a b : Bool) (c : Cpu) → IsCpuButFlags c (set_flag_value m a (set_flag_value n b c))
two_flags_frame m n a b c =
    let d = set_flag_value n b c in
    frame_trans c d (set_flag_value m a d) (set_flag_value_frame n b c) (set_flag_value_frame m a d)

three_flags_frame :
    (l m n : ℕ) (z a b : Bool) (c : Cpu)
    → IsCpuButFlags c (set_flag_value l z (set_flag_value m a (set_flag_value n b c)))
three_flags_frame l m n z a b c =
    let d = set_flag_value m a (set_flag_value n b c) in
    frame_trans c d (set_flag_value l z d) (two_flags_frame m n a b c) (set_flag_value_frame l z d)

pub arithmetic_frame :
    (v : Operand) (val : ℕ) (oca : Bool × Bool × Bool) (c : Cpu)
    → IsCpuButFlags c (set_szp_flags v val (set_oca_flags oca c))
unfolding set_szp_flags set_oca_flags
arithmetic_frame v val (o, k, a) c =
    let d = set_oca_flags (o, k, a) c in
    frame_trans c d (set_szp_flags v val d) (three_flags_frame flag_a flag_c flag_o a k o c) (
      three_flags_frame flag_p flag_z flag_s (v.parity_flag val) (v.zero_flag val) (v.sign_flag val)
        d)
