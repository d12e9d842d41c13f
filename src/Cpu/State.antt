-- ===== src/Cpu/State.antt =====
-- The processor's state (src/cpu/base.rs). The trace file `log` is left out: it exists only under
-- the feature "cpu-trace", which is off.
use riapyx.Common.{ℕ, ◌+◌, ◌*◌, bit_and, bit_xor, Option, none, List, []}
use riapyx.Cpu.Instruction.{SegReg}
use riapyx.Mem.{Memory}

abbrev pub flag_c : ℕ
flag_c = 0b0000000000000001

abbrev pub flag_p : ℕ
flag_p = 0b0000000000000100

abbrev pub flag_a : ℕ
flag_a = 0b0000000000010000

abbrev pub flag_z : ℕ
flag_z = 0b0000000001000000

abbrev pub flag_s : ℕ
flag_s = 0b0000000010000000

abbrev pub flag_t : ℕ
flag_t = 0b0000000100000000

abbrev pub flag_i : ℕ
flag_i = 0b0000001000000000

abbrev pub flag_d : ℕ
flag_d = 0b0000010000000000

abbrev pub flag_o : ℕ
flag_o = 0b0000100000000000

abbrev pub flag_set_8086 : ℕ
flag_set_8086 = 0b1111000000000000

abbrev pub cs_bios_trap1 : ℕ
cs_bios_trap1 = 0xf000

abbrev pub cs_bios_trap2 : ℕ
cs_bios_trap2 = 0xffff

pub data ImplicitBOperand : Type 0 where
  dssi esdi : ImplicitBOperand

pub data ImplicitWOperand : Type 0 where
  dssi esdi : ImplicitWOperand

-- `not`
unfoldable pub complement : ℕ → ℕ
complement x = bit_xor x 0xffff

unfoldable pub phys_addr : ℕ → ℕ → ℕ
phys_addr seg addr = bit_and (seg * 0x10 + addr) 0xfffff

pub data RepPrefix : Type 0 where
  rep repne : RepPrefix

pub data CpuState : Type 0 where
  running paused crashed : CpuState

pub record Cpu : Type 0 where
  pub ax : ℕ
  pub bx : ℕ
  pub cx : ℕ
  pub dx : ℕ
  pub sp : ℕ
  pub bp : ℕ
  pub si : ℕ
  pub di : ℕ
  pub cs : ℕ
  pub ds : ℕ
  pub ss : ℕ
  pub es : ℕ
  pub ip : ℕ
  pub flags : ℕ
  pub cr0 : ℕ
  pub segment_override_prefix : Option SegReg
  pub rep_prefix : Option RepPrefix
  pub state : CpuState
  pub pending_interrupts : List ℕ

unfoldable pub new : ℕ → ℕ → Cpu
new cs ip = record {
  ax = 0xbad0;
  bx = 0xbad0;
  cx = 0xbad0;
  dx = 0xbad0;
  bp = 0xbad0;
  sp = 0xbad0;
  si = 0xbad0;
  di = 0xbad0;
  ip = ip;
  cs = cs;
  ds = 0xbad0;
  ss = 0xbad0;
  es = 0xbad0;
  flags = flag_set_8086;
  cr0 = 0x4;
  segment_override_prefix = none;
  rep_prefix = none;
  state = CpuState.paused;
  pending_interrupts = [];
}

-- What an instruction works on: `&mut self` and `mem: &mut Memory`.
pub record Core : Type 0 where
  pub cpu : Cpu
  pub mem : Memory

abbrev pub core : Cpu → Memory → Core
core c m = record { cpu = c; mem = m }
