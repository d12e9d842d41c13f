-- ===== src/Common/Bits/Step.antt =====
-- `&`, `|` and `^` by their lowest digit. The library gives each operation as a recursion on
-- digits that spends fuel; the laws here are free of it, and come from one law of all three.
use Prim.Native.Nat.{ℕ, zero, suc, ◌+◌, ◌*◌, ◌/◌, ◌%◌, ◌≤◌, ◌<◌, min, max, digits, bitwise}
use Prim.Native.Nat.{bit_and, bit_or, bit_xor, bit_and-bitwise, bit_or-bitwise, bit_xor-bitwise}
use Prim.Native.Nat.{differ}
use mathlib.Core.Path.{◌≡◌, refl, sym, ap, ◌∙◌}
use native.Mathlib.Omega.{arith}

module _ (op : ℕ → ℕ → ℕ) (rest : ℕ → ℕ) (digit : ℕ → ℕ → ℕ)
    (meaning : (a b : ℕ) → op a b ≡ bitwise rest digit a b)
    (base : (b : ℕ) → rest b ≡ rest (b / 2) * 2 + digit 0 (b % 2)) where
  steady :
      (a b : ℕ) (more less : ℕ)
      → a ≤ less
      → a ≤ more
      → digits rest digit more a b ≡ digits rest digit less a b
  steady (suc a) b (suc more) (suc less) h k =
      ap (λ (x : ℕ). x * 2 + digit (suc a % 2) (b % 2))
        (steady (suc a / 2) (b / 2) more less (omega arith) (omega arith))
  steady (suc a) b more zero h k = absurd (omega arith)
  steady (suc a) b zero (suc less) h k = absurd (omega arith)
  steady zero b (suc more) (suc less) h k = refl
  steady zero b (suc more) zero h k = refl
  steady zero b zero (suc less) h k = refl
  steady zero b zero zero h k = refl

  by_digit : (a b : ℕ) → op a b ≡ op (a / 2) (b / 2) * 2 + digit (a % 2) (b % 2)
  by_digit zero b =
      meaning zero b ∙ base b ∙ ap (λ (x : ℕ). x * 2 + digit 0 (b % 2)) (sym (meaning 0 (b / 2)))
  by_digit (suc a) b =
      meaning (suc a) b
      ∙ ap (λ (x : ℕ). x * 2 + digit (suc a % 2) (b % 2))
          (steady (suc a / 2) (b / 2) a (suc a / 2) (omega arith) (omega arith)
            ∙ sym (meaning (suc a / 2) (b / 2)))

pub bit_and_step : (a b : ℕ) → bit_and a b ≡ bit_and (a / 2) (b / 2) * 2 + min (a % 2) (b % 2)
bit_and_step = by_digit bit_and (λ _. 0) min bit_and-bitwise (λ b. omega arith)

pub bit_or_step : (a b : ℕ) → bit_or a b ≡ bit_or (a / 2) (b / 2) * 2 + max (a % 2) (b % 2)
bit_or_step = by_digit bit_or (λ b. b) max bit_or-bitwise (λ b. omega arith)

two_digits : (x y : ℕ) → x < 2 → y < 2 → differ x y ≡ (x + y) % 2
two_digits (suc zero) (suc zero) h k = refl
two_digits (suc zero) zero h k = refl
two_digits zero (suc zero) h k = refl
two_digits zero zero h k = refl
two_digits (suc (suc x)) y h k = absurd (omega arith)
two_digits (suc zero) (suc (suc y)) h k = absurd (omega arith)
two_digits zero (suc (suc y)) h k = absurd (omega arith)

differ_lem : (a b : ℕ) → differ (a % 2) (b % 2) ≡ (a % 2 + b % 2) % 2
differ_lem a b = two_digits (a % 2) (b % 2) (omega arith) (omega arith)

pub bit_xor_step : (a b : ℕ) → bit_xor a b ≡ bit_xor (a / 2) (b / 2) * 2 + (a % 2 + b % 2) % 2
bit_xor_step a b =
    by_digit bit_xor (λ c. c) differ bit_xor-bitwise (λ c. omega (arith, differ_lem 0 c)) a b
    ∙ ap (λ (d : ℕ). bit_xor (a / 2) (b / 2) * 2 + d) (differ_lem a b)
