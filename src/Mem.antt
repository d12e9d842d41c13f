-- ===== src/Mem.antt =====
-- `Memory` (src/mem.rs). The machine has 1 MiB of RAM (`Machine::new`), as many bytes as the
-- address space that every access is reduced to, so no byte access is out of bounds.
pub mod Access
use riapyx.Common.{
  ℕ, ◌+◌, ◌-◌, ◌%◌, ◌/◌, ◌*◌, ◌^◌, bit_and, Bool, true, false, ◌==◌, leb, if◌then◌else◌, Result, ok,
  panic, Slice, u8, u16,
}

abbrev pub addr_max : ℕ
addr_max = 0x100000

abbrev pub vram_mask : ℕ
vram_mask = 0xf8000

abbrev pub vram_val : ℕ
vram_val = 0xb8000

pub record Memory : Type 0 where
  pub ram : ℕ → ℕ
  pub dirty : Bool

abbrev pub put : (ℕ → ℕ) → ℕ → ℕ → ℕ → ℕ
put ram a v i = if i == a then v else ram i

unfoldable pub new : Memory
new = record { ram = λ _. 0; dirty = true }

unfoldable pub read_u8 : Memory → ℕ → ℕ
read_u8 m addr = m.ram (addr % addr_max)

unfoldable pub read_u16 : Memory → ℕ → ℕ
read_u16 m addr = u16 (m.ram (addr % addr_max) + m.ram ((addr + 1) % addr_max) * 2 ^ 8)

-- The feature "vram-dirty" is on.
unfoldable pub touch_vram : Memory → ℕ → Memory
touch_vram m addr = record m {
  dirty = if bit_and addr vram_mask == vram_val then true else m.dirty;
}

unfoldable pub write_u8 : Memory → ℕ → ℕ → Memory
unfolding touch_vram
write_u8 m addr val =
    let m' = touch_vram m addr in record m' { ram = put m'.ram (addr % addr_max) val }

unfoldable pub write_u16 : Memory → ℕ → ℕ → Memory
unfolding touch_vram
write_u16 m addr val =
    let m₁ = touch_vram m addr in
    let m₂ = record m₁ { ram = put m₁.ram (addr % addr_max) (bit_and val 0xff) } in
    record m₂ { ram = put m₂.ram ((addr + 1) % addr_max) (u8 (val / 2 ^ 8)) }

-- `&self.ram[addr .. len]`
unfoldable pub slice_from : Memory → ℕ → Result Slice
slice_from m addr =
    if leb addr addr_max
    then ok (record { len = addr_max - addr; byte = λ i. m.ram (addr + i) })
    else panic

-- `&self.ram[addr .. addr + len]`
unfoldable pub slice : Memory → ℕ → ℕ → Result Slice
slice m addr len =
    if leb (addr + len) addr_max
    then ok (record { len = len; byte = λ i. m.ram (addr + i) })
    else panic

unfoldable pub clear_vram_dirty : Memory → Memory
clear_vram_dirty m = record m { dirty = false }

unfoldable pub is_vram_dirty : Memory → Bool
is_vram_dirty m = m.dirty

-- `for i in start..start + n`, one byte each.
unfoldable pub clear_range : ℕ → ℕ → Memory → Memory
clear_range ℕ.zero start m = m
clear_range (ℕ.suc n) start m = clear_range n (start + 1) (write_u8 m start 0)

unfoldable pub clear_vram : Memory → Memory
unfolding clear_range
clear_vram m = clear_range (0xbffff - 0xa0000) 0xa0000 m
