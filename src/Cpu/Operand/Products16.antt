-- ===== src/Cpu/Operand/Products16.antt =====
-- What the products and the quotients on `u16` are.
use riapyx.Common.{
  ℕ, ◌+◌, ◌*◌, ◌/◌, ◌%◌, ◌≤◌, ◌<◌, ◌≡◌, ◌⊎◌, inl, inr, arith, Bool-cases, leb, none, some, IsU16,
}
use riapyx.Common.Bits.{bit_and-mask}
use riapyx.Cpu.Operand.U16
use native.Mathlib.Nat.{div-add-mod', mod-lt, le-div_iff_mul-le, div-lt_iff_lt-mul}

product-lt : (x y : ℕ) → IsU16 x → IsU16 y → y * x < 4294967296
product-lt x y p q = grind arith

-- `MUL` of words: the halves make up the product, and the flag tells whether it needs the high
-- half.
pub mul_lem :
    (x y : ℕ)
    → IsU16 x
    → IsU16 y
    → let (hi, lo, wide) = U16.mul x y in
      (hi * 65536 + lo ≡ y * x) × IsU16 hi × IsU16 lo × (wide ≡ leb 65536 (y * x))
unfolding U16.mul
mul_lem x y p q = ground (arith, product-lt x y, bit_and-mask 16 (y * x % 4294967296))

quotient_fits : (x hi lo : ℕ) → lo < 65536 → hi < x → (hi * 65536 + lo) / x < 65536
quotient_fits x hi lo p h = (div-lt_iff_lt-mul (omega arith)).1 (omega arith)

quotient_too_big : (x hi lo : ℕ) → 0 < x → x ≤ hi → 65536 ≤ (hi * 65536 + lo) / x
quotient_too_big x hi lo p h = (le-div_iff_mul-le p).1 (omega arith)

dividend_eq :
    (hi lo : ℕ)
    → IsU16 hi
    → IsU16 lo
    → (hi * 65536 % 4294967296 + lo) % 4294967296 ≡ hi * 65536 + lo
dividend_eq hi lo p q = omega arith

div_fails : (x hi lo : ℕ) → IsU16 hi → IsU16 lo → x ≤ hi → U16.div x hi lo ≡ none
unfolding U16.div
div_fails x hi lo p q h = rw (dividend_eq hi lo p q) (ground (arith, quotient_too_big x hi lo))

div_succeeds :
    (x hi lo : ℕ)
    → IsU16 x
    → IsU16 hi
    → IsU16 lo
    → hi < x
    → U16.div x hi lo ≡ some ((hi * 65536 + lo) / x, (hi * 65536 + lo) % x)
unfolding U16.div
div_succeeds x hi lo r p q h =
    rw (dividend_eq hi lo p q)
      (ground (arith, quotient_fits x hi lo q h, mod-lt (hi * 65536 + lo) {m = x}))

-- `DIV` of two words by a third fails exactly where the quotient does not fit, a zero divisor
-- included; else it gives the quotient and the remainder of the double-width dividend.
pub div_lem :
    (x hi lo : ℕ)
    → IsU16 x
    → IsU16 hi
    → IsU16 lo
    → ((x ≤ hi) × (U16.div x hi lo ≡ none))
      ⊎ ((q : ℕ) × (r : ℕ) × (U16.div x hi lo ≡ some (q, r))
          × (q * x + r ≡ hi * 65536 + lo)
          × (r < x)
          × IsU16 q)
unfolding U16.div
div_lem x hi lo p q r = elim (Bool-cases (leb x hi)) [
  | inl e ↦ inl (ground arith, div_fails x hi lo q r (ground arith))
  | inr e ↦ inr (
    (hi * 65536 + lo) / x,
    (hi * 65536 + lo) % x,
    div_succeeds x hi lo p q r (ground arith),
    div-add-mod' (hi * 65536 + lo) x,
    mod-lt (hi * 65536 + lo) (ground arith),
    quotient_fits x hi lo r (ground arith),
  )
]
