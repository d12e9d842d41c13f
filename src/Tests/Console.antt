-- ===== src/Tests/Console.antt =====
-- The debugger.
use riapyx.Common.{false, ◌≡◌, refl, arith, inl, none, some, [], ◌∷◌, ok, ◌>>=◌, IfReturns, List}
use riapyx.Console.{Word, Command, codes, parse_command}
use riapyx.Console.Breakpoints.{no_breakpoints}
use riapyx.Console.Reading.{words_of, parse_command-words_of}
use riapyx.Console.Run.{Session, TurnInput, turn, run}
use riapyx.Console.Stops.{IsStoppedAt, run-IsStoppedAt}
use riapyx.Console.Halted.{IsDead, run-IsDead}
use riapyx.Machine.Debug.{FileWriter}
use riapyx.Machine.{Machine}
use riapyx.Bios.{BiosState, BootDrive}
use riapyx.Mem
use riapyx.Tests.Sample.{sample_cpu, sample_hw, no_decoder, Image, image_ops, blank}
use riapyx.Tests.Machine.{crashed_machine, key_press}

-- A file system where every image is blank and every write succeeds.
abbrev files : FileWriter Word
files name s = some s.len

abbrev session : Session Image
session = record { machine = crashed_machine; bpm = no_breakpoints; printed = [] }

-- A machine that runs at 70:100, in a memory of zeros, and no interrupt waits.
abbrev running_machine : Machine Image
running_machine = record crashed_machine {
  system = record {
    cpu = record sample_cpu { pending_interrupts = [] };
    mem = Mem.new;
    hw = sample_hw;
    bios = record { state = BiosState.good; boot_drive = BootDrive.floppy };
  };
}

abbrev running_session : Session Image
running_session = record session { machine = running_machine }

-- A breakpoint at 70:102, where the first of the instructions ends, and `c`.
abbrev turns : List TurnInput
turns =
    record { command = some (Command.insert_breakpoint 0x70 0x102); machine_input = key_press }
    ∷ record { command = some (Command.continue_ false); machine_input = key_press }
    ∷ []

-- A turn without a command.
abbrev idle_turn : TurnInput
idle_turn = record { command = none; machine_input = key_press }

parse_command-words_of_example :
    parse_command (words_of (Command.insert_breakpoint 0xf000 0xfff0))
    ≡ ok (some (Command.insert_breakpoint 0xf000 0xfff0))
parse_command-words_of_example =
    parse_command-words_of (Command.insert_breakpoint 0xf000 0xfff0) (omega arith, omega arith)

-- The command `f` is not known.
unknown_f : parse_command (codes "f" ∷ []) ≡ ok none
unfolding parse_command
unknown_f = refl

run-IsStoppedAt_example : IfReturns (IsStoppedAt 0x70 0x102) (
    run no_decoder image_ops 8 files (λ _. some blank) turns running_session >>= λ t.
    turn no_decoder image_ops 8 files (λ _. some blank) idle_turn t)
run-IsStoppedAt_example =
    run-IsStoppedAt no_decoder image_ops 8 files (λ _. some blank) 0x70 0x102 turns key_press
      running_session (inl refl)

run-IsDead_example :
    IfReturns
      (λ t. IsDead crashed_machine t.machine)
      (run no_decoder image_ops 8 files (λ _. some blank) turns session)
run-IsDead_example = run-IsDead no_decoder image_ops 8 files (λ _. some blank) turns session refl
