-- ===== src/Hw/Bda.antt =====
-- Entries of the BIOS data area (`ByteBdaEntry` and `WordBdaEntry` of src/bios.rs).
use riapyx.Common.{ℕ, ◌+◌}
use riapyx.Mem.{Memory, read_u8, write_u8, write_u16}

pub record ByteBdaEntry : Type 0 where
  pub idx : ℕ

unfoldable pub get : ByteBdaEntry → Memory → ℕ
get e mem = read_u8 mem (0x400 + e.idx)

unfoldable pub set : ByteBdaEntry → ℕ → Memory → Memory
set e val mem = write_u8 mem (0x400 + e.idx) val

pub record WordBdaEntry : Type 0 where
  pub idx : ℕ

unfoldable pub set_word : WordBdaEntry → ℕ → Memory → Memory
set_word e val mem = write_u16 mem (0x400 + e.idx) val
