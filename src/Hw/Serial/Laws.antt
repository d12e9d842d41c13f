-- ===== src/Hw/Serial/Laws.antt =====
-- The registers of the serial port.
use riapyx.Common.{
  ℕ, ◌+◌, ◌*◌, ◌/◌, ◌%◌, ◌≡◌, arith, bit_and, ◌==◌, ◌&&◌, false, IsU8, is_ok, ok, ◌>>=◌,
}
use riapyx.Common.Bits.{bit_and-mask, bit_and-two_pow}
use riapyx.Hw.Serial.{
  SerialPort, SerialDevice, write_lc, read_lc, write_ier, read_ier, write_mc, read_mc,
}

bits :
    (v : ℕ)
    → (bit_and v 0x3 ≡ v % 4)
      × (bit_and v 0x4 ≡ v / 4 % 2 * 4)
      × (bit_and v 0x8 ≡ v / 8 % 2 * 8)
      × (bit_and v 0x40 ≡ v / 64 % 2 * 64)
      × (bit_and v 0x80 ≡ v / 128 % 2 * 128)
bits v = (
  bit_and-mask 2 v,
  bit_and-two_pow 2 v,
  bit_and-two_pow 3 v,
  bit_and-two_pow 6 v,
  bit_and-two_pow 7 v,
)

module _ {T : Type 0} where
  -- The line control register takes a value exactly if the bits for two stop bits, for parity and
  -- for a break are clear, and it panics on any other.
  pub write_lc-is_ok :
      (v : ℕ) (p : SerialPort T)
      → is_ok (write_lc v p) ≡ (v / 4 % 2 == 0 && (v / 8 % 2 == 0 && v / 64 % 2 == 0))
  unfolding write_lc
  write_lc-is_ok v p = ground (arith, bits v)

  -- A byte that is accepted is read back, without the bits that have no meaning, if the port has no
  -- parity.
  write_lc-read_lc :
      (v : ℕ) (p : SerialPort T)
      → IsU8 v
      → p.parity_enable ≡ false
      → v / 4 % 2 ≡ 0
      → v / 8 % 2 ≡ 0
      → v / 64 % 2 ≡ 0
      → (write_lc v p >>= read_lc) ≡ ok (v / 128 * 128 + v % 4)
  unfolding write_lc read_lc
  write_lc-read_lc v p h e a b c = ground (arith, bits v)

  -- With the divisor latch off, the interrupt enable register reads back its four bits.
  pub write_ier-read_ier :
      (v : ℕ) (p : SerialPort T)
      → p.baud_rate_divisor_latch ≡ false
      → read_ier (write_ier v p) ≡ v % 16
  unfolding write_ier read_ier
  write_ier-read_ier v p h = rw h (ground (arith, bits v, bit_and-two_pow 0 v, bit_and-two_pow 1 v))

  -- The modem control register reads back the bits of DTR, RTS and the interrupts, whether or not
  -- the write resets the device.
  write_mc-read_mc :
      (d : SerialDevice T) (v : ℕ) (p : SerialPort T)
      → read_mc (write_mc d v p) ≡ v / 8 % 2 * 8 + v % 4
  unfolding write_mc read_mc
  write_mc-read_mc d v p = ground (arith, bits v, bit_and-two_pow 0 v, bit_and-two_pow 1 v)
