-- ===== src/Mem/Access.antt =====
-- What a read sees after a write.
use riapyx.Common.{
  ℕ, ◌+◌, ◌%◌, ◌≡◌, ◌≢◌, arith, ◌==◌, if◌then◌else◌, IsU16, u8, u16, ◌*◌, ◌/◌, ◌^◌, refl,
}
use riapyx.Common.Bits.{bit_and-mask}
use riapyx.Mem.{Memory, addr_max, read_u8, read_u16, write_u8, write_u16}

-- A byte that is written is read back, and every other byte is kept; addresses are equal modulo the
-- size of the memory.
pub read_u8-write_u8 :
    (m : Memory) (a b v : ℕ)
    → read_u8 (write_u8 m a v) b ≡ (if b % addr_max == a % addr_max then v else read_u8 m b)
unfolding read_u8 write_u8
read_u8-write_u8 m a b v = ground arith

-- A word that is written is read back, wherever it lies.
pub read_u16-write_u16_self : (m : Memory) (a v : ℕ) → IsU16 v → read_u16 (write_u16 m a v) a ≡ v
unfolding read_u16 write_u16
read_u16-write_u16_self m a v h = ground (arith, bit_and-mask 8 v)

-- A word that is written changes no word that shares no byte with it.
pub read_u16-write_u16_apart :
    (m : Memory) (a b v : ℕ)
    → a % addr_max ≢ b % addr_max
    → (a + 1) % addr_max ≢ b % addr_max
    → a % addr_max ≢ (b + 1) % addr_max
    → read_u16 (write_u16 m a v) b ≡ read_u16 m b
unfolding read_u16 write_u16
read_u16-write_u16_apart m a b v p q r = ground arith

-- Addresses that are equal modulo the size of the memory hold the same word.
pub read_u16_wrap :
    (m : Memory) (a b : ℕ) → a % addr_max ≡ b % addr_max → read_u16 m a ≡ read_u16 m b
unfolding read_u16
read_u16_wrap m a b e = ground arith

-- The bytes of a word that is written.
pub read_u8-write_u16 :
    (m : Memory) (a b v : ℕ)
    → read_u8 (write_u16 m a v) b ≡ (
        if b % addr_max == (a + 1) % addr_max
        then u8 (v / 2 ^ 8)
        else if b % addr_max == a % addr_max
        then v % 256
        else read_u8 m b)
unfolding read_u8 write_u16
read_u8-write_u16 m a b v = ground (arith, bit_and-mask 8 v)

pub read_u16_bytes :
    (m : Memory) (a : ℕ) → read_u16 m a ≡ u16 (read_u8 m a + read_u8 m (a + 1) * 2 ^ 8)
unfolding read_u16 read_u8
read_u16_bytes m a = refl
