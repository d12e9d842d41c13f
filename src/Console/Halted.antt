-- ===== src/Console/Halted.antt =====
-- A machine whose BIOS has crashed does not run again.
use riapyx.Common.{
  ℕ, ◌≡◌, refl, sym, ap, ◌∙◌, false, inl, inr, Option, some, List, [], ◌∷◌, Slice, ◌&&◌, true, Bool,
  Bool-cases, Option-cases, IfReturns, >>=-IfReturns, >>=-IfReturns_any, IfReturns-mono,
}
use riapyx.Cpu.Parser.Iced.{IcedInstruction}
use riapyx.Cpu.State.{Cpu, CpuState}
use riapyx.Hw.Storage.Disk.{Storage, FileOps, new_floppy, unwrap}
use riapyx.Console.Breakpoints.{BreakpointManager}
use riapyx.Bios.{BiosState}
use riapyx.Machine.{Machine, StepInput, is_running, crashed, resume, pause, step}
use riapyx.Machine.Laws.{IsIdle, step-IsIdle}
use riapyx.Machine.Debug.{FileWriter, disas, dump, dump_memory_to_file}
use riapyx.Console.{Word, Command}
use riapyx.Console.Run.{
  Session, TurnInput, step_command, execute, pause_crashed, pause_at, advance, turn, run,
}

-- The processor but for its state and the interrupts that wait.
abbrev pub registers : Cpu → Cpu
registers c = record c { state = CpuState.running; pending_interrupts = [] }

-- What is left alone.
pub record IsDead {F : Type 0} (before after : Machine F) : Type 0 where
  pub same_registers : registers after.system.cpu ≡ registers before.system.cpu
  pub same_mem : after.system.mem ≡ before.system.mem
  pub same_hdd : after.system.hw.hdd ≡ before.system.hw.hdd
  pub same_display : after.system.hw.display ≡ before.system.hw.display
  pub same_clock : after.clock ≡ before.clock
  pub still_crashed : after.system.bios.state ≡ BiosState.crashed

not-and : (a : Bool) → (a && false) ≡ false
not-and true = refl
not-and false = refl

module _ {F : Type 0} where
  not_running : (m : Machine F) → m.system.bios.state ≡ BiosState.crashed → is_running m ≡ false
  unfolding is_running
  not_running m e = rw e (not-and _)

  here : (m : Machine F) → m.system.bios.state ≡ BiosState.crashed → IsDead m m
  here m e = record {
    same_registers = refl;
    same_mem = refl;
    same_hdd = refl;
    same_display = refl;
    same_clock = refl;
    still_crashed = e;
  }

  -- A machine of the same parts but for what the processor may change.
  moved :
      (m n k : Machine F)
      → IsDead m n
      → registers k.system.cpu ≡ registers n.system.cpu
      → k.system.mem ≡ n.system.mem
      → k.system.hw.hdd ≡ n.system.hw.hdd
      → k.system.hw.display ≡ n.system.hw.display
      → k.clock ≡ n.clock
      → k.system.bios ≡ n.system.bios
      → IsDead m k
  moved m n k h a b c d e f = record {
    same_registers = a ∙ h.same_registers;
    same_mem = b ∙ h.same_mem;
    same_hdd = c ∙ h.same_hdd;
    same_display = d ∙ h.same_display;
    same_clock = e ∙ h.same_clock;
    still_crashed = ap (λ b. b.state) f ∙ h.still_crashed;
  }

  resume-IsDead : (trace : Bool) (m n : Machine F) → IsDead m n → IsDead m (resume trace n)
  unfolding resume
  resume-IsDead trace m n h = moved m n _ h refl refl refl refl refl refl

  pause-IsDead : (m n : Machine F) → IsDead m n → IsDead m (pause n)
  unfolding pause
  pause-IsDead m n h = moved m n _ h refl refl refl refl refl refl

  idle : (m n k : Machine F) → IsDead m n → IsIdle n k → IsDead m k
  idle m n k h i =
      moved m n k h (ap registers (sym i.same_cpu)) i.same_mem i.same_hdd i.same_display
        i.same_clock i.same_bios

  change_floppy-IsDead :
      (m n : Machine F) (st : Storage F)
      → IsDead m n
      → IsDead m (
          let sys = n.system in
          let hw = sys.hw in
          record n { system = record sys { hw = record hw { floppy = some st } } })
  change_floppy-IsDead m n st h = moved m n _ h refl refl refl refl refl refl

  pause_crashed-IsDead : (m n : Machine F) → IsDead m n → IsDead m (pause_crashed n)
  pause_crashed-IsDead m n h = elim (Bool-cases (crashed n)) [
    | inl e ↦ rw e (pause-IsDead m n h)
    | inr e ↦ rw e h
  ]

  pause_at-IsDead :
      (bpm : BreakpointManager) (m n : Machine F) → IsDead m n → IsDead m (pause_at bpm n)
  pause_at-IsDead bpm m n h = rw (not_running n h.still_crashed) h

module _ {F : Type 0} (iced : Slice → IcedInstruction) (ops : FileOps F) (fuel : ℕ)
    (files : FileWriter Word) (open_file : Word → Option F) (m : Machine F) where
  abbrev pub KeepsDead : Session F → Type 0
  KeepsDead s = IsDead m s.machine

  step-IsDead :
      (input : StepInput) (n : Machine F)
      → IsDead m n
      → IfReturns (IsDead m) (step iced ops fuel input n)
  step-IsDead input n h =
      IfReturns-mono (IsIdle n) (IsDead m) _
        (step-IsIdle iced ops fuel input n (not_running n h.still_crashed)) (λ k. idle m n k h)

  advance-KeepsDead :
      (input : StepInput) (s : Session F)
      → KeepsDead s
      → IfReturns KeepsDead (advance iced ops fuel files open_file input s)
  unfolding advance
  advance-KeepsDead input s h =
      >>=-IfReturns (IsDead m) KeepsDead (step iced ops fuel input s.machine) _
        (step-IsDead input s.machine h)
        (λ n k. pause_at-IsDead s.bpm m (pause_crashed n) (pause_crashed-IsDead m n k))

  step_command-KeepsDead :
      (input : StepInput) (s : Session F)
      → KeepsDead s
      → IfReturns KeepsDead (step_command iced ops fuel files open_file input s)
  unfolding step_command
  step_command-KeepsDead input s h = rw (not_running s.machine h.still_crashed) (
      >>=-IfReturns (IsDead m) KeepsDead (step iced ops fuel input (resume true s.machine)) _
        (step-IsDead input (resume true s.machine) (resume-IsDead true m s.machine h))
        (λ n k.
          >>=-IfReturns_any KeepsDead (dump iced n.system.cpu n.system.mem) _
            (λ _. pause-IsDead m n k)))

  execute-KeepsDead :
      (cmd : Command) (input : StepInput) (s : Session F)
      → KeepsDead s
      → IfReturns KeepsDead (execute iced ops fuel files open_file cmd input s)
  unfolding execute
  execute-KeepsDead Command.quit input s h = tt
  execute-KeepsDead (Command.dump x y) input s h = h
  execute-KeepsDead (Command.continue_ trace) input s h = resume-IsDead trace m s.machine h
  execute-KeepsDead Command.step input s h = step_command-KeepsDead input s h
  execute-KeepsDead (Command.insert_breakpoint x y) input s h = h
  execute-KeepsDead (Command.disassemble x y) input s h =
      >>=-IfReturns_any KeepsDead (disas iced x y 5 s.machine.system.mem) _ (λ _. h)
  execute-KeepsDead (Command.write_memory filename) input s h =
      >>=-IfReturns_any KeepsDead (dump_memory_to_file files filename s.machine.system.mem) _
        (λ _. h)
  execute-KeepsDead (Command.change_floppy filename) input s h =
      >>=-IfReturns_any KeepsDead (unwrap (open_file filename)) _
        (λ f. change_floppy-IsDead m s.machine (new_floppy f) h)

  turn-KeepsDead :
      (input : TurnInput) (s : Session F)
      → KeepsDead s
      → IfReturns KeepsDead (turn iced ops fuel files open_file input s)
  unfolding turn
  turn-KeepsDead input s h = elim (Option-cases input.command) [
    | inl e ↦ rw e (advance-KeepsDead input.machine_input (record s { printed = [] }) h)
    | inr (cmd, e) ↦ rw e (execute-KeepsDead cmd input.machine_input (record s { printed = [] }) h)
  ]

  run-KeepsDead :
      (turns : List TurnInput) (s : Session F)
      → KeepsDead s
      → IfReturns KeepsDead (run iced ops fuel files open_file turns s)
  unfolding run
  run-KeepsDead [] s h = h
  run-KeepsDead (input ∷ rest) s h =
      >>=-IfReturns KeepsDead KeepsDead (turn iced ops fuel files open_file input s) _
        (turn-KeepsDead input s h) (λ t k. run-KeepsDead rest t k)

module _ {F : Type 0} (iced : Slice → IcedInstruction) (ops : FileOps F) (fuel : ℕ)
    (files : FileWriter Word) (open_file : Word → Option F) where
  -- Behind a crash of the BIOS no command of the debugger makes the machine run: whatever the turns
  -- are, they leave the memory, the hard disk, the display, the clock and, but for its state and the
  -- interrupts that wait, the processor as they were, and the BIOS crashed.
  pub run-IsDead :
      (turns : List TurnInput) (s : Session F)
      → s.machine.system.bios.state ≡ BiosState.crashed
      → IfReturns (λ t. IsDead s.machine t.machine) (run iced ops fuel files open_file turns s)
  run-IsDead turns s h =
      run-KeepsDead iced ops fuel files open_file s.machine turns s (here s.machine h)
