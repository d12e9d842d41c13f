-- ===== src/Console/Run.antt =====
-- Commands at work and the loop of the emulator (src/main.rs): in a turn a command that waits is
-- executed, or else the machine makes a step, which ends in a pause at a breakpoint.
use riapyx.Common.{
  ℕ, if◌then◌else◌, true, Option, none, some, List, [], ◌∷◌, Slice, Result, ok, panic, ◌>>=◌,
}
use riapyx.Cpu.Parser.Iced.{IcedInstruction}
use riapyx.Hw.Storage.Disk.{FileOps, new_floppy, unwrap}
use riapyx.Bios.{BootDrive}
use riapyx.Machine
use riapyx.Machine.{Machine, StepInput, get_pc, is_running, crashed, resume, pause, step}
use riapyx.Machine.Debug.{Printed, FileWriter, print_memory, disas, dump, dump_memory_to_file}
use riapyx.Console.{Word, Command, codes, ◌is◌}
use riapyx.Console.Breakpoints.{BreakpointManager, no_breakpoints, add_breakpoint, get_breakpoint}

-- The machine, the breakpoints and what the turn printed.
pub record Session (F : Type 0) : Type 0 where
  pub machine : Machine F
  pub bpm : BreakpointManager
  pub printed : List Printed

-- What a turn takes from outside: the command that waits, if one does, and the machine's input.
pub record TurnInput : Type 0 where
  pub command : Option Command
  pub machine_input : StepInput

-- `--boot`, and the image that it needs.
unfoldable pub boot_drive_of : Word → Option Word → Option Word → Result BootDrive
boot_drive_of flag_boot flag_fd flag_hd =
    if flag_boot is codes "fd"
    then (do _ ← unwrap flag_fd; ok BootDrive.floppy)
    else if flag_boot is codes "hd"
    then (do _ ← unwrap flag_hd; ok BootDrive.hard_drive)
    else panic

-- The image of a name, if one is given, must open.
abbrev opened : {A : Type 0} → (Word → Option A) → Option Word → Result (Option A)
opened open_file none = ok none
opened open_file (some name) = do f ← unwrap (open_file name); ok (some f)

module _ {F : Type 0} (open_file : Word → Option F) (open_hdd : Word → Option (F × ℕ)) where
  -- The options of the command line, and what `main` does before its loop.
  unfoldable pub start :
      (Slice → IcedInstruction) → Word → Option Word → Option Word → ℕ → Result (Session F)
  start iced flag_boot flag_fd flag_hd time_ns = do
    boot_drive ← boot_drive_of flag_boot flag_fd flag_hd
    floppy ← opened open_file flag_fd
    hdd ← opened open_hdd flag_hd
    m ← Machine.new boot_drive floppy hdd time_ns
    printed ← dump iced m.system.cpu m.system.mem
    ok (record { machine = m; bpm = no_breakpoints; printed = printed })

-- `m.pause()` if the machine has crashed.
abbrev pub pause_crashed : {F : Type 0} → Machine F → Machine F
pause_crashed m = if crashed m then pause m else m

-- The pause of a running machine whose PC is at a breakpoint.
abbrev pub pause_at : {F : Type 0} → BreakpointManager → Machine F → Machine F
pause_at bpm m =
    if is_running m
    then elim (get_breakpoint (get_pc m).0 (get_pc m).1 bpm) [ some bkpt ↦ pause m | none ↦ m ]
    else m

module _ {F : Type 0} (iced : Slice → IcedInstruction) (ops : FileOps F) (fuel : ℕ)
    (files : FileWriter Word) (open_file : Word → Option F) where
  -- `StepCommand`: one step of a machine that does not run.
  unfoldable pub step_command : StepInput → Session F → Result (Session F)
  step_command input s = if is_running s.machine then ok s else (do
    m ← step iced ops fuel input (resume true s.machine)
    printed ← dump iced m.system.cpu m.system.mem
    ok (record s { machine = pause m; printed = printed }))

  -- `Command::execute`. `QuitCommand` exits, so that nothing is returned.
  unfoldable pub execute : Command → StepInput → Session F → Result (Session F)
  execute Command.quit input s = panic
  execute (Command.dump seg addr) input s =
      ok (record s { printed = print_memory seg addr 16 s.machine.system.mem ∷ [] })
  execute (Command.continue_ trace) input s = ok (record s { machine = resume trace s.machine })
  execute Command.step input s = step_command input s
  execute (Command.insert_breakpoint seg addr) input s =
      ok (record s { bpm = add_breakpoint seg addr s.bpm })
  execute (Command.disassemble seg addr) input s = do
    printed ← disas iced seg addr 5 s.machine.system.mem
    ok (record s { printed = printed })
  execute (Command.write_memory filename) input s = do
    _ ← dump_memory_to_file files filename s.machine.system.mem
    ok s
  execute (Command.change_floppy filename) input s = do
    f ← unwrap (open_file filename)
    let m = s.machine
    let sys = m.system
    let hw = sys.hw
    ok (record s {
      machine = record m {
        system = record sys { hw = record hw { floppy = some (new_floppy f) } };
      };
    })

  -- The arm of the loop without a command.
  unfoldable pub advance : StepInput → Session F → Result (Session F)
  advance input s = do
    m ← step iced ops fuel input s.machine
    ok (record s { machine = pause_at s.bpm (pause_crashed m) })

  -- One turn of the emulator's loop.
  unfoldable pub turn : TurnInput → Session F → Result (Session F)
  unfolding execute advance
  turn input s = elim input.command [
    | some cmd ↦ execute cmd input.machine_input (record s { printed = [] })
    | none ↦ advance input.machine_input (record s { printed = [] })
  ]

  -- The turns, in order.
  unfoldable pub run : List TurnInput → Session F → Result (Session F)
  unfolding turn
  run [] s = ok s
  run (input ∷ rest) s = do s₁ ← turn input s; run rest s₁
