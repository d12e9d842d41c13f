-- ===== src/Common/Word.antt =====
-- Rust's unsigned integers as native numbers. The program is built with `--release`, where
-- arithmetic wraps around and the count of a shift is taken modulo the width.
use Prim.Native.Nat.{ℕ, ◌+◌, ◌-◌, ◌*◌, ◌/◌, ◌%◌, ◌^◌, ◌<◌}

abbrev pub u8 : ℕ → ℕ
u8 n = n % 256

abbrev pub u16 : ℕ → ℕ
u16 n = n % 65536

abbrev pub u32 : ℕ → ℕ
u32 n = n % 4294967296

abbrev pub add8 : ℕ → ℕ → ℕ
add8 a b = (a + b) % 256

abbrev pub sub8 : ℕ → ℕ → ℕ
sub8 a b = (a + 256 - b) % 256

abbrev pub add16 : ℕ → ℕ → ℕ
add16 a b = (a + b) % 65536

abbrev pub sub16 : ℕ → ℕ → ℕ
sub16 a b = (a + 65536 - b) % 65536

-- `x << k` and `x >> k` on `u8` and `u16`.
abbrev pub shl8 : ℕ → ℕ → ℕ
shl8 x k = x * 2 ^ (k % 8) % 256

abbrev pub shr8 : ℕ → ℕ → ℕ
shr8 x k = x / 2 ^ (k % 8)

abbrev pub shl16 : ℕ → ℕ → ℕ
shl16 x k = x * 2 ^ (k % 16) % 65536

abbrev pub shr16 : ℕ → ℕ → ℕ
shr16 x k = x / 2 ^ (k % 16)

abbrev pub IsU8 : ℕ → Type 0
IsU8 n = n < 256

abbrev pub IsU16 : ℕ → Type 0
IsU16 n = n < 65536
