-- ===== src/Cpu/Address.antt =====
-- Memory operands (src/cpu/mem_access.rs and src/cpu/ireg_access.rs): a segment and an offset make
-- an address, a segment prefix replaces the segment, and the `noov` variants ignore that prefix.
use riapyx.Common.{ℕ, ◌+◌, ◌*◌, add16, Option, none, some}
use riapyx.Common.Int.{sign_extend}
use riapyx.Cpu.Instruction.{IndReg, SegReg}
use riapyx.Cpu.State.{Cpu}
use riapyx.Cpu.Registers.{get_segreg}
use riapyx.Mem.{Memory, read_u8, read_u16, write_u8, write_u16}

abbrev override_of : Cpu → Option SegReg → ℕ → ℕ
override_of c none seg = seg
override_of c (some sr) seg = get_segreg c sr

unfoldable pub apply_segment_override : Cpu → ℕ → ℕ
apply_segment_override c seg = override_of c c.segment_override_prefix seg

unfoldable pub store_memory_u16 : Cpu → Memory → ℕ → ℕ → ℕ → Memory
store_memory_u16 c mem seg addr val = write_u16 mem (apply_segment_override c seg * 0x10 + addr) val

unfoldable pub load_memory_u16 : Cpu → Memory → ℕ → ℕ → ℕ
load_memory_u16 c mem seg addr = read_u16 mem (apply_segment_override c seg * 0x10 + addr)

unfoldable pub store_memory_u8 : Cpu → Memory → ℕ → ℕ → ℕ → Memory
store_memory_u8 c mem seg addr val = write_u8 mem (apply_segment_override c seg * 0x10 + addr) val

unfoldable pub load_memory_u8 : Cpu → Memory → ℕ → ℕ → ℕ
load_memory_u8 c mem seg addr = read_u8 mem (apply_segment_override c seg * 0x10 + addr)

unfoldable pub store_memory_u16_noov : Memory → ℕ → ℕ → ℕ → Memory
store_memory_u16_noov mem seg addr val = write_u16 mem (seg * 0x10 + addr) val

unfoldable pub load_memory_u16_noov : Memory → ℕ → ℕ → ℕ
load_memory_u16_noov mem seg addr = read_u16 mem (seg * 0x10 + addr)

unfoldable pub store_memory_u8_noov : Memory → ℕ → ℕ → ℕ → Memory
store_memory_u8_noov mem seg addr val = write_u8 mem (seg * 0x10 + addr) val

unfoldable pub load_memory_u8_noov : Memory → ℕ → ℕ → ℕ
load_memory_u8_noov mem seg addr = read_u8 mem (seg * 0x10 + addr)

-- The segment and the offset.
unfoldable pub get_ireg_addr : Cpu → IndReg → ℕ × ℕ
get_ireg_addr c IndReg.bx = (c.ds, c.bx)
get_ireg_addr c IndReg.bp = (c.ss, c.bp)
get_ireg_addr c IndReg.si = (c.ds, c.si)
get_ireg_addr c IndReg.di = (c.ds, c.di)
get_ireg_addr c IndReg.bxsi = (c.ds, add16 c.bx c.si)
get_ireg_addr c IndReg.bxdi = (c.ds, add16 c.bx c.di)
get_ireg_addr c IndReg.bpsi = (c.ss, add16 c.bp c.si)
get_ireg_addr c IndReg.bpdi = (c.ss, add16 c.bp c.di)

unfoldable pub get_ireg_u16_value : Cpu → Memory → IndReg → ℕ
get_ireg_u16_value c mem ir = let (seg, addr) = get_ireg_addr c ir in load_memory_u16 c mem seg addr

unfoldable pub get_ireg_u8d_u16_value : Cpu → Memory → IndReg → ℕ → ℕ
get_ireg_u8d_u16_value c mem ir dis =
    let (seg, addr) = get_ireg_addr c ir in load_memory_u16 c mem seg (add16 addr (sign_extend dis))

unfoldable pub get_ireg_u16d_u16_value : Cpu → Memory → IndReg → ℕ → ℕ
get_ireg_u16d_u16_value c mem ir dis =
    let (seg, addr) = get_ireg_addr c ir in load_memory_u16 c mem seg (add16 addr dis)

unfoldable pub get_ireg_u8_value : Cpu → Memory → IndReg → ℕ
get_ireg_u8_value c mem ir = let (seg, addr) = get_ireg_addr c ir in load_memory_u8 c mem seg addr

unfoldable pub get_ireg_u8d_u8_value : Cpu → Memory → IndReg → ℕ → ℕ
get_ireg_u8d_u8_value c mem ir dis =
    let (seg, addr) = get_ireg_addr c ir in load_memory_u8 c mem seg (add16 addr (sign_extend dis))

unfoldable pub get_ireg_u16d_u8_value : Cpu → Memory → IndReg → ℕ → ℕ
get_ireg_u16d_u8_value c mem ir dis =
    let (seg, addr) = get_ireg_addr c ir in load_memory_u8 c mem seg (add16 addr dis)

unfoldable pub set_ireg_u8_value : Cpu → Memory → IndReg → ℕ → Memory
set_ireg_u8_value c mem ir val =
    let (seg, addr) = get_ireg_addr c ir in store_memory_u8 c mem seg addr val

unfoldable pub set_ireg_u8d_u8_value : Cpu → Memory → IndReg → ℕ → ℕ → Memory
set_ireg_u8d_u8_value c mem ir dis val =
    let (seg, addr) = get_ireg_addr c ir in
    store_memory_u8 c mem seg (add16 addr (sign_extend dis)) val

unfoldable pub set_ireg_u16d_u8_value : Cpu → Memory → IndReg → ℕ → ℕ → Memory
set_ireg_u16d_u8_value c mem ir dis val =
    let (seg, addr) = get_ireg_addr c ir in store_memory_u8 c mem seg (add16 addr dis) val

unfoldable pub set_ireg_u16_value : Cpu → Memory → IndReg → ℕ → Memory
set_ireg_u16_value c mem ir val =
    let (seg, addr) = get_ireg_addr c ir in store_memory_u16 c mem seg addr val

unfoldable pub set_ireg_u8d_u16_value : Cpu → Memory → IndReg → ℕ → ℕ → Memory
set_ireg_u8d_u16_value c mem ir dis val =
    let (seg, addr) = get_ireg_addr c ir in
    store_memory_u16 c mem seg (add16 addr (sign_extend dis)) val

unfoldable pub set_ireg_u16d_u16_value : Cpu → Memory → IndReg → ℕ → ℕ → Memory
set_ireg_u16d_u16_value c mem ir dis val =
    let (seg, addr) = get_ireg_addr c ir in store_memory_u16 c mem seg (add16 addr dis) val
