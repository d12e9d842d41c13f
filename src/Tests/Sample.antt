-- ===== src/Tests/Sample.antt =====
-- A machine for the examples.
use riapyx.Common.{◌+◌, ◌-◌, leb, ltb, ◌&&◌, if◌then◌else◌, some, Slice, ℕ, arith, none, [], ◌∷◌}
use riapyx.Cpu.State.{Cpu, CpuState, Core, core}
use riapyx.Cpu.Registers.Laws.{IsCpu}
use riapyx.Mem
use riapyx.Cpu.Parser.Iced.{IcedInstruction, IcedCode, IcedOpKind}
use riapyx.Hw.Storage.Disk.{FileOps}
use riapyx.Hw.Devices.{Hw}
use riapyx.Hw.Display
use riapyx.Hw.Keyboard
use riapyx.Hw.Serial
use riapyx.Hw.Mouse.{mouse_device}

abbrev pub sample_cpu : Cpu
sample_cpu = record {
  ax = 0x1234;
  bx = 0xfffe;
  cx = 3;
  dx = 0x8000;
  sp = 1;
  bp = 0;
  si = 0x10;
  di = 0x20;
  cs = 0x0070;
  ds = 0x2000;
  ss = 0x3000;
  es = 0x4000;
  ip = 0x0100;
  flags = 0xf201;
  cr0 = 4;
  segment_override_prefix = none;
  rep_prefix = none;
  state = CpuState.running;
  pending_interrupts = 8 ∷ 12 ∷ [];
}

abbrev pub sample : Core
sample = core sample_cpu Mem.new

-- The bytes of an image and the position in it.
pub record Image : Type 0 where
  pub byte : ℕ → ℕ
  pub position : ℕ

abbrev overwrite : (ℕ → ℕ) → ℕ → Slice → ℕ → ℕ
overwrite old at s b = if leb at b && ltb b (at + s.len) then s.byte (b - at) else old b

abbrev pub image_ops : FileOps Image
image_ops = record {
  seek = λ f n. (some n, record f { position = n });
  read_into = λ f n. (
    some (record { len = n; byte = λ i. f.byte (f.position + i) }),
    record f { position = f.position + n },
  );
  write_from = λ f s.
      (some s.len, record { byte = overwrite f.byte f.position s; position = f.position + s.len });
}

abbrev pub blank : Image
blank = record { byte = λ _. 0; position = 0 }

abbrev pub sample_hw : Hw Image
sample_hw = record {
  keyboard = Keyboard.new;
  com1 = Serial.new mouse_device;
  floppy = none;
  hdd = none;
  display = Display.new;
  last_event_pump_ns = 0;
}

pub sample_cpu-IsCpu : IsCpu sample_cpu
sample_cpu-IsCpu = record {
  ax_fits = omega arith;
  bx_fits = omega arith;
  cx_fits = omega arith;
  dx_fits = omega arith;
  sp_fits = omega arith;
  bp_fits = omega arith;
  si_fits = omega arith;
  di_fits = omega arith;
  cs_fits = omega arith;
  ds_fits = omega arith;
  ss_fits = omega arith;
  es_fits = omega arith;
  ip_fits = omega arith;
  flags_fit = omega arith;
}

abbrev pub no_decoder : Slice → IcedInstruction
no_decoder _ = record {
  code = IcedCode.other;
  op0_kind = IcedOpKind.other;
  immediate8 = 0;
  memory_displacement64 = 0;
  len = 1;
}
