-- ===== src/Common/Bytes.antt =====
-- A slice `&[u8]` that the program only reads.
use Prim.Native.Nat.{ℕ, ◌<◌}
use riapyx.Common.Tests.{ltb, if◌then◌else◌}
use riapyx.Common.Panic.{Result, ok, panic}

pub record Slice : Type 0 where
  pub len : ℕ
  pub byte : ℕ → ℕ

-- `s[i]`, which panics out of bounds.
abbrev pub index : Slice → ℕ → Result ℕ
index s i = if ltb i s.len then ok (s.byte i) else panic

abbrev pub IsBytes : Slice → Type 0
IsBytes s = (i : ℕ) → s.byte i < 256
