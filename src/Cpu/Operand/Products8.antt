-- ===== src/Cpu/Operand/Products8.antt =====
-- What the products and the quotients on `u8` are.
use riapyx.Common.{
  ℕ, ◌+◌, ◌*◌, ◌/◌, ◌%◌, ◌≤◌, ◌<◌, ◌≡◌, ◌⊎◌, inl, inr, arith, Bool-cases, leb, none, some, IsU8,
}
use riapyx.Common.Bits.{bit_and-mask}
use riapyx.Cpu.Operand.U8
use native.Mathlib.Nat.{div-add-mod', mod-lt, le-div_iff_mul-le, div-lt_iff_lt-mul}

product-lt : (x y : ℕ) → IsU8 x → IsU8 y → y * x < 65536
product-lt x y p q = grind arith

-- `MUL` of bytes: the halves make up the product, and the flag tells whether it needs the high
-- half.
pub mul_byte_lem :
    (x y : ℕ)
    → IsU8 x
    → IsU8 y
    → let (hi, lo, wide) = U8.mul x y in
      (hi * 256 + lo ≡ y * x) × IsU8 hi × IsU8 lo × (wide ≡ leb 256 (y * x))
unfolding U8.mul
mul_byte_lem x y p q = ground (arith, product-lt x y, bit_and-mask 8 (y * x % 65536))

quotient_fits : (x hi lo : ℕ) → lo < 256 → hi < x → (hi * 256 + lo) / x < 256
quotient_fits x hi lo p h = (div-lt_iff_lt-mul (omega arith)).1 (omega arith)

quotient_too_big : (x hi lo : ℕ) → 0 < x → x ≤ hi → 256 ≤ (hi * 256 + lo) / x
quotient_too_big x hi lo p h = (le-div_iff_mul-le p).1 (omega arith)

dividend_eq : (hi lo : ℕ) → IsU8 hi → IsU8 lo → (hi * 256 % 65536 + lo) % 65536 ≡ hi * 256 + lo
dividend_eq hi lo p q = omega arith

div_fails : (x hi lo : ℕ) → IsU8 hi → IsU8 lo → x ≤ hi → U8.div x hi lo ≡ none
unfolding U8.div
div_fails x hi lo p q h = rw (dividend_eq hi lo p q) (ground (arith, quotient_too_big x hi lo))

div_succeeds :
    (x hi lo : ℕ)
    → IsU8 x
    → IsU8 hi
    → IsU8 lo
    → hi < x
    → U8.div x hi lo ≡ some ((hi * 256 + lo) / x, (hi * 256 + lo) % x)
unfolding U8.div
div_succeeds x hi lo r p q h =
    rw (dividend_eq hi lo p q)
      (ground (arith, quotient_fits x hi lo q h, mod-lt (hi * 256 + lo) {m = x}))

-- `DIV` of two bytes by a third fails exactly where the quotient does not fit, a zero divisor
-- included; else it gives the quotient and the remainder of the double-width dividend.
pub div_byte_lem :
    (x hi lo : ℕ)
    → IsU8 x
    → IsU8 hi
    → IsU8 lo
    → ((x ≤ hi) × (U8.div x hi lo ≡ none))
      ⊎ ((q : ℕ) × (r : ℕ) × (U8.div x hi lo ≡ some (q, r))
          × (q * x + r ≡ hi * 256 + lo)
          × (r < x)
          × IsU8 q)
unfolding U8.div
div_byte_lem x hi lo p q r = elim (Bool-cases (leb x hi)) [
  | inl e ↦ inl (ground arith, div_fails x hi lo q r (ground arith))
  | inr e ↦ inr (
    (hi * 256 + lo) / x,
    (hi * 256 + lo) % x,
    div_succeeds x hi lo p q r (ground arith),
    div-add-mod' (hi * 256 + lo) x,
    mod-lt (hi * 256 + lo) (ground arith),
    quotient_fits x hi lo r (ground arith),
  )
]
