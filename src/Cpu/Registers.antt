-- ===== src/Cpu/Registers.antt =====
-- Registers and flags (src/cpu/reg_access.rs). The trait `RegisterAccess` has one implementation
-- for each kind of register: `WRegs`, `BRegs`, `SegRegs`.
pub mod Laws
use riapyx.Common.{
  ℕ, ◌*◌, ◌/◌, ◌^◌, bit_and, bit_or, ◌!=◌, Bool, true, false, if◌then◌else◌, u8, u16,
}
use riapyx.Cpu.Instruction.{WReg, BReg, SegReg}
use riapyx.Cpu.State.{Cpu, complement}

unfoldable pub get_wreg : Cpu → WReg → ℕ
get_wreg c WReg.ax = c.ax
get_wreg c WReg.bx = c.bx
get_wreg c WReg.cx = c.cx
get_wreg c WReg.dx = c.dx
get_wreg c WReg.sp = c.sp
get_wreg c WReg.bp = c.bp
get_wreg c WReg.si = c.si
get_wreg c WReg.di = c.di
get_wreg c WReg.ip = c.ip

unfoldable pub set_wreg : Cpu → WReg → ℕ → Cpu
set_wreg c WReg.ax val = record c { ax = val }
set_wreg c WReg.bx val = record c { bx = val }
set_wreg c WReg.cx val = record c { cx = val }
set_wreg c WReg.dx val = record c { dx = val }
set_wreg c WReg.sp val = record c { sp = val }
set_wreg c WReg.bp val = record c { bp = val }
set_wreg c WReg.si val = record c { si = val }
set_wreg c WReg.di val = record c { di = val }
set_wreg c WReg.ip val = record c { ip = val }

unfoldable pub get_breg : Cpu → BReg → ℕ
get_breg c BReg.al = u8 (bit_and c.ax 0xff)
get_breg c BReg.ah = u8 (c.ax / 2 ^ 8)
get_breg c BReg.bl = u8 (bit_and c.bx 0xff)
get_breg c BReg.bh = u8 (c.bx / 2 ^ 8)
get_breg c BReg.cl = u8 (bit_and c.cx 0xff)
get_breg c BReg.ch = u8 (c.cx / 2 ^ 8)
get_breg c BReg.dl = u8 (bit_and c.dx 0xff)
get_breg c BReg.dh = u8 (c.dx / 2 ^ 8)

unfoldable pub set_low : ℕ → ℕ → ℕ
set_low val orig = bit_or (bit_and orig 0xff00) val

unfoldable pub set_high : ℕ → ℕ → ℕ
set_high val orig = bit_or (bit_and orig 0x00ff) (u16 (val * 2 ^ 8))

unfoldable pub set_breg : Cpu → BReg → ℕ → Cpu
set_breg c BReg.al val = record c { ax = set_low val c.ax }
set_breg c BReg.ah val = record c { ax = set_high val c.ax }
set_breg c BReg.bl val = record c { bx = set_low val c.bx }
set_breg c BReg.bh val = record c { bx = set_high val c.bx }
set_breg c BReg.cl val = record c { cx = set_low val c.cx }
set_breg c BReg.ch val = record c { cx = set_high val c.cx }
set_breg c BReg.dl val = record c { dx = set_low val c.dx }
set_breg c BReg.dh val = record c { dx = set_high val c.dx }

unfoldable pub get_segreg : Cpu → SegReg → ℕ
get_segreg c SegReg.cs = c.cs
get_segreg c SegReg.ds = c.ds
get_segreg c SegReg.ss = c.ss
get_segreg c SegReg.es = c.es

unfoldable pub set_segreg : Cpu → SegReg → ℕ → Cpu
set_segreg c SegReg.cs val = record c { cs = val }
set_segreg c SegReg.ds val = record c { ds = val }
set_segreg c SegReg.ss val = record c { ss = val }
set_segreg c SegReg.es val = record c { es = val }

unfoldable pub set_flag : ℕ → Cpu → Cpu
set_flag mask c = record c { flags = bit_or c.flags mask }

unfoldable pub clear_flag : ℕ → Cpu → Cpu
unfolding complement
clear_flag mask c = record c { flags = bit_and c.flags (complement mask) }

unfoldable pub set_flag_value : ℕ → Bool → Cpu → Cpu
unfolding set_flag clear_flag
set_flag_value mask set c = if set then set_flag mask c else clear_flag mask c

-- `self.flags & mask != 0`
abbrev pub has_flag : Cpu → ℕ → Bool
has_flag c mask = bit_and c.flags mask != 0

unfoldable pub get_cr0 : Cpu → ℕ
get_cr0 c = c.cr0

unfoldable pub set_cr0 : ℕ → Cpu → Cpu
set_cr0 new_cr0 c = record c { cr0 = new_cr0 }
