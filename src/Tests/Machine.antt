-- ===== src/Tests/Machine.antt =====
-- The BIOS and the machine.
use riapyx.Common.{◌≡◌, refl, arith, false, some, IfReturns, [], ◌∷◌}
use riapyx.Cpu.State.{flag_c, phys_addr}
use riapyx.Cpu.Registers.{set_flag_value}
use riapyx.Cpu.Exec.Stack.{request_interrupt, return_from_interrupt}
use riapyx.Bios.{BiosState, BootDrive, init_ivt, bios_segment, set_saved_flag}
use riapyx.Bios.Flags.{return_from_interrupt-set_saved_flag}
use riapyx.Bios.Tables.{init_ivt_lem}
use riapyx.Hw.Events.{SdlEvent}
use riapyx.Hw.Scancodes.{Scancode}
use riapyx.Machine.{Machine, StepInput, step, is_running}
use riapyx.Machine.Laws.{IsIdle, step-IsIdle}
use riapyx.Mem
use riapyx.Mem.{read_u8, read_u16}
use riapyx.Tests.Sample.{
  sample, sample_cpu, sample_cpu-IsCpu, sample_hw, no_decoder, Image, image_ops,
}

return_from_interrupt-set_saved_flag_example :
    let t = request_interrupt 0x13 sample in
    return_from_interrupt (set_saved_flag flag_c false t.cpu t.mem) t.cpu
    ≡ set_flag_value flag_c false sample_cpu
return_from_interrupt-set_saved_flag_example =
    return_from_interrupt-set_saved_flag sample 0x13 flag_c false sample_cpu-IsCpu (omega arith)

init_ivt_lem_example :
    (read_u16 (init_ivt Mem.new) 0x4c ≡ 0x13)
    × (read_u16 (init_ivt Mem.new) 0x4e ≡ bios_segment)
    × (read_u8 (init_ivt Mem.new) (phys_addr bios_segment 0x13) ≡ 0b11001111)
    × (read_u16 (init_ivt Mem.new) 1020 ≡ read_u16 Mem.new 1020)
    × (read_u16 (init_ivt Mem.new) 1022 ≡ read_u16 Mem.new 1022)
init_ivt_lem_example = init_ivt_lem Mem.new 0x13 (omega arith)

-- A machine of which the BIOS has crashed.
abbrev pub crashed_machine : Machine Image
crashed_machine = record {
  system = record {
    cpu = sample_cpu;
    mem = Mem.new;
    hw = sample_hw;
    bios = record { state = BiosState.crashed; boot_drive = BootDrive.floppy };
  };
  clock = 5;
  last_time_ns = 0;
  last_mcycle_ns = 0;
  trace = false;
}

abbrev pub key_press : StepInput
key_press = record { time_ns = 9; events = SdlEvent.key_down (some Scancode.a) ∷ []; awaited = [] }

step-IsIdle_example :
    IfReturns (IsIdle crashed_machine) (step no_decoder image_ops 8 key_press crashed_machine)
unfolding is_running
step-IsIdle_example = step-IsIdle no_decoder image_ops 8 key_press crashed_machine refl
