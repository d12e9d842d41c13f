-- ===== src/Machine.antt =====
-- The machine (src/machine.rs): its parts, and its loop, one instruction of the processor and one step
-- of the hardware in a turn. What the program takes from outside in a turn is an input: the time,
-- the events of the window that are there, and those that the BIOS will meet if it waits for a key.
pub mod Laws
pub mod Debug
use riapyx.Common.{
  ℕ, ◌+◌, ◌%◌, ◌==◌, ◌&&◌, if◌then◌else◌, u32, Bool, true, false, Option, List, [], Slice, Result,
  ok, ◌>>=◌,
}
use riapyx.Cpu.State
use riapyx.Cpu.State.{Cpu, CpuState}
use riapyx.Cpu.Parser.Iced.{IcedInstruction}
use riapyx.Cpu.Step
use riapyx.Cpu.Step.{System}
use riapyx.Hw.Events.{SdlEvent, try_pump_event}
use riapyx.Hw.Storage.Disk.{FileOps}
use riapyx.Hw.Timer
use riapyx.Mem
use riapyx.Bios
use riapyx.Bios.{Bios, BiosState, BootDrive}
use riapyx.Bios.Trap.{cpu_trap}
use riapyx.Machine.Debug.{dump_trace}

pub record Machine (F : Type 0) : Type 0 where
  pub system : System F Bios
  pub clock : ℕ
  pub last_time_ns : ℕ
  pub last_mcycle_ns : ℕ
  pub trace : Bool

pub record StepInput : Type 0 where
  pub time_ns : ℕ
  pub events : List SdlEvent
  pub awaited : List SdlEvent

abbrev is_cpu_running : CpuState → Bool
is_cpu_running CpuState.running = true
is_cpu_running CpuState.paused = false
is_cpu_running CpuState.crashed = false

abbrev is_cpu_crashed : CpuState → Bool
is_cpu_crashed CpuState.running = false
is_cpu_crashed CpuState.paused = false
is_cpu_crashed CpuState.crashed = true

abbrev is_bios_good : BiosState → Bool
is_bios_good BiosState.good = true
is_bios_good BiosState.crashed = false

module _ {F : Type 0} where
  -- The time at which the machine is made, and its images.
  unfoldable pub new : BootDrive → Option F → Option (F × ℕ) → ℕ → Result (Machine F)
  unfolding Timer.new State.new Mem.new Bios.new
  new boot_drive floppy_file hdd_file time_ns = do
    hw ← Timer.new floppy_file hdd_file
    ok (record {
      system = record {
        cpu = State.new 0xf000 0xfff0;
        bios = Bios.new boot_drive;
        mem = Mem.new;
        hw = hw;
      };
      clock = 0;
      last_time_ns = time_ns;
      last_mcycle_ns = time_ns;
      trace = false;
    })

  unfoldable pub get_pc : Machine F → ℕ × ℕ
  get_pc m = (m.system.cpu.cs, m.system.cpu.ip)

  unfoldable pub is_running : Machine F → Bool
  is_running m = is_cpu_running m.system.cpu.state && is_bios_good m.system.bios.state

  unfoldable pub crashed : Machine F → Bool
  crashed m = is_cpu_crashed m.system.cpu.state

  abbrev put_state : CpuState → System F Bios → System F Bios
  put_state state sys = let c = sys.cpu in record sys { cpu = record c { state = state } }

  unfoldable pub resume : Bool → Machine F → Machine F
  resume trace m = record m { system = put_state CpuState.running m.system; trace = trace }

  unfoldable pub pause : Machine F → Machine F
  pause m = record m { system = put_state CpuState.paused m.system }

  -- The time is read once in a thousand turns.
  abbrev pub read_time : ℕ → Machine F → Machine F
  read_time time_ns m = if m.clock % 1000 == 0 then record m { last_time_ns = time_ns } else m

  module _ (iced : Slice → IcedInstruction) (ops : FileOps F) (fuel : ℕ) where
    -- A turn of a machine that runs. What it prints with `trace` on is left out.
    unfoldable pub run_turn : StepInput → Machine F → Result (Machine F)
    unfolding cpu_trap Timer.step Step.step dump_trace
    run_turn input m = do
      let m₁ = read_time input.time_ns (record m { clock = u32 (m.clock + 1) })
      sys₁ ← Step.step iced (cpu_trap ops input.awaited) fuel m₁.system
      (hw, c, mem) ← Timer.step input.events m₁.clock m₁.last_time_ns sys₁.hw sys₁.cpu sys₁.mem
      let m₂ = record m₁ { system = record sys₁ { cpu = c; mem = mem; hw = hw } }
      _ ← if m₂.trace then dump_trace iced c mem else ok []
      ok (if m₂.clock % 10000000 == 0 then record m₂ { last_mcycle_ns = m₂.last_time_ns } else m₂)

    unfoldable pub step : StepInput → Machine F → Result (Machine F)
    unfolding run_turn is_running try_pump_event
    step input m =
        let sys = m.system in
        if is_running m then run_turn input m else (do
          (hw, c) ← try_pump_event input.events sys.hw sys.cpu
          ok (record m { system = record sys { hw = hw; cpu = c } }))
