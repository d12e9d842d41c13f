-- ===== src/Console/Stops.antt =====
-- The machine stops at a breakpoint.
use riapyx.Common.{
  ℕ, ◌≡◌, refl, sym, ap, ◌∙◌, arith, ◌==◌, ◌&&◌, if◌then◌else◌, true, false, ◌⊎◌, inl, inr,
  Bool-cases, Option, none, some, List, [], ◌∷◌, Slice, ◌>>=◌, IfReturns, >>=-IfReturns,
  >>=-IfReturns_any, Option-cases,
}
use riapyx.Cpu.Parser.Iced.{IcedInstruction}
use riapyx.Hw.Storage.Disk.{FileOps, unwrap}
use riapyx.Machine.{Machine, StepInput, get_pc, is_running, resume, pause, step}
use riapyx.Machine.Debug.{FileWriter, disas, dump, dump_memory_to_file}
use riapyx.Console.{Word, Command}
use riapyx.Console.Breakpoints.{BreakpointManager, insert, lookup, add_breakpoint, get_breakpoint}
use riapyx.Console.Run.{
  Session, TurnInput, step_command, execute, pause_crashed, pause_at, advance, turn, run,
}

pub lookup-insert :
    (seg addr s a bkpt : ℕ) (m : List ((ℕ × ℕ) × ℕ))
    → lookup seg addr (insert s a bkpt m)
      ≡ (if s == seg && a == addr then some bkpt else lookup seg addr m)
unfolding lookup insert
lookup-insert seg addr s a bkpt [] = refl
lookup-insert seg addr s a bkpt (((s₁, a₁), old) ∷ m) =
    ground (arith, lookup-insert seg addr s a bkpt m)

abbrev HasBreakpoint : ℕ → ℕ → BreakpointManager → Type 0
HasBreakpoint seg addr bpm = (bkpt : ℕ) × (get_breakpoint seg addr bpm ≡ some bkpt)

add_breakpoint-HasBreakpoint :
    (seg addr s a : ℕ) (bpm : BreakpointManager)
    → HasBreakpoint seg addr bpm
    → HasBreakpoint seg addr (add_breakpoint s a bpm)
unfolding add_breakpoint get_breakpoint
add_breakpoint-HasBreakpoint seg addr s a bpm (bkpt, e) =
    elim (Bool-cases (s == seg && a == addr)) [
      | inl h ↦ (bpm.next, lookup-insert seg addr s a bpm.next bpm.addr_bkpt ∙ rw h refl)
      | inr h ↦ (bkpt, lookup-insert seg addr s a bpm.next bpm.addr_bkpt ∙ rw h e)
    ]

add_breakpoint-IsSet_self :
    (seg addr : ℕ) (bpm : BreakpointManager) → HasBreakpoint seg addr (add_breakpoint seg addr bpm)
unfolding add_breakpoint get_breakpoint
add_breakpoint-IsSet_self seg addr bpm =
    (bpm.next, lookup-insert seg addr seg addr bpm.next bpm.addr_bkpt ∙ ground arith)

-- A command of the turns has inserted a breakpoint at the address.
abbrev pub Inserts : ℕ → ℕ → List TurnInput → Type 0
Inserts seg addr [] = ⊥
Inserts seg addr (input ∷ rest) =
    (input.command ≡ some (Command.insert_breakpoint seg addr)) ⊎ Inserts seg addr rest

-- The machine does not run on at the address.
abbrev pub IsStoppedAt : {F : Type 0} → ℕ → ℕ → Session F → Type 0
IsStoppedAt seg addr t = get_pc t.machine ≡ (seg, addr) → is_running t.machine ≡ false

pause-is_running : {F : Type 0} (m : Machine F) → is_running (pause m) ≡ false
unfolding is_running pause
pause-is_running m = refl

get_pc-pause : {F : Type 0} (m : Machine F) → get_pc (pause m) ≡ get_pc m
unfolding get_pc pause
get_pc-pause m = refl

module _ {F : Type 0} (seg addr : ℕ) where
  -- A running machine at a breakpoint is paused.
  caught :
      (bpm : BreakpointManager) (m : Machine F)
      → HasBreakpoint seg addr bpm
      → get_pc m ≡ (seg, addr)
      → is_running (pause_at bpm m) ≡ false
  caught bpm m (bkpt, e) h = elim (Bool-cases (is_running m)) [
    | inl r ↦ rw (r, ap (λ (p : ℕ × ℕ). p.0) h, ap (λ (p : ℕ × ℕ). p.1) h, e) (pause-is_running m)
    | inr r ↦ rw r r
  ]

  get_pc-pause_at : (bpm : BreakpointManager) (m : Machine F) → get_pc (pause_at bpm m) ≡ get_pc m
  get_pc-pause_at bpm m = elim (Bool-cases (is_running m)) [
    | inl r ↦ rw r (elim (Option-cases (get_breakpoint (get_pc m).0 (get_pc m).1 bpm)) [
      | inl e ↦ rw e refl
      | inr (bkpt, e) ↦ rw e (get_pc-pause m)
    ])
    | inr r ↦ rw r refl
  ]

  pause_at-IsStoppedAt :
      (s : Session F) (m : Machine F)
      → HasBreakpoint seg addr s.bpm
      → IsStoppedAt seg addr (record s { machine = pause_at s.bpm m })
  pause_at-IsStoppedAt s m b h = caught s.bpm m b (sym (get_pc-pause_at s.bpm m) ∙ h)

module _ {F : Type 0} (iced : Slice → IcedInstruction) (ops : FileOps F) (fuel : ℕ)
    (files : FileWriter Word) (open_file : Word → Option F) (seg addr : ℕ) where
  -- The breakpoint is set.
  abbrev Guards : Session F → Type 0
  Guards s = HasBreakpoint seg addr s.bpm

  advance-IsStoppedAt :
      (input : StepInput) (s : Session F)
      → Guards s
      → IfReturns (IsStoppedAt seg addr) (advance iced ops fuel files open_file input s)
  unfolding advance
  advance-IsStoppedAt input s b =
      >>=-IfReturns_any (IsStoppedAt seg addr) (step iced ops fuel input s.machine) _
        (λ m. pause_at-IsStoppedAt seg addr s (pause_crashed m) b)

  advance-Guards :
      (input : StepInput) (s : Session F)
      → Guards s
      → IfReturns Guards (advance iced ops fuel files open_file input s)
  unfolding advance
  advance-Guards input s b =
      >>=-IfReturns_any Guards (step iced ops fuel input s.machine) _ (λ m. b)

  step_command-Guards :
      (input : StepInput) (s : Session F)
      → Guards s
      → IfReturns Guards (step_command iced ops fuel files open_file input s)
  unfolding step_command
  step_command-Guards input s b = elim (Bool-cases (is_running s.machine)) [
    | inl r ↦ rw r b
    | inr r ↦ rw r (
        >>=-IfReturns_any Guards (step iced ops fuel input (resume true s.machine)) _
          (λ m. >>=-IfReturns_any Guards (dump iced m.system.cpu m.system.mem) _ (λ _. b)))
  ]

  execute-Guards :
      (cmd : Command) (input : StepInput) (s : Session F)
      → Guards s
      → IfReturns Guards (execute iced ops fuel files open_file cmd input s)
  unfolding execute
  execute-Guards Command.quit input s b = tt
  execute-Guards (Command.dump x y) input s b = b
  execute-Guards (Command.continue_ trace) input s b = b
  execute-Guards Command.step input s b = step_command-Guards input s b
  execute-Guards (Command.insert_breakpoint x y) input s b =
      add_breakpoint-HasBreakpoint seg addr x y s.bpm b
  execute-Guards (Command.disassemble x y) input s b =
      >>=-IfReturns_any Guards (disas iced x y 5 s.machine.system.mem) _ (λ _. b)
  execute-Guards (Command.write_memory filename) input s b =
      >>=-IfReturns_any Guards (dump_memory_to_file files filename s.machine.system.mem) _ (λ _. b)
  execute-Guards (Command.change_floppy filename) input s b =
      >>=-IfReturns_any Guards (unwrap (open_file filename)) _ (λ _. b)

  turn-Guards :
      (input : TurnInput) (s : Session F)
      → Guards s
      → IfReturns Guards (turn iced ops fuel files open_file input s)
  unfolding turn
  turn-Guards input s b = elim (Option-cases input.command) [
    | inl e ↦ rw e (advance-Guards input.machine_input (record s { printed = [] }) b)
    | inr (cmd, e) ↦ rw e (execute-Guards cmd input.machine_input (record s { printed = [] }) b)
  ]

  turn-inserts :
      (input : TurnInput) (s : Session F)
      → input.command ≡ some (Command.insert_breakpoint seg addr)
      → IfReturns Guards (turn iced ops fuel files open_file input s)
  unfolding turn execute
  turn-inserts input s e = rw e (add_breakpoint-IsSet_self seg addr s.bpm)

  run-Guards :
      (turns : List TurnInput) (s : Session F)
      → Inserts seg addr turns ⊎ Guards s
      → IfReturns Guards (run iced ops fuel files open_file turns s)
  unfolding run
  run-Guards [] s (inl h) = elim h [ ]
  run-Guards [] s (inr b) = b
  run-Guards (input ∷ rest) s (inr b) =
      >>=-IfReturns Guards Guards (turn iced ops fuel files open_file input s) _
        (turn-Guards input s b) (λ t c. run-Guards rest t (inr c))
  run-Guards (input ∷ rest) s (inl (inl e)) =
      >>=-IfReturns Guards Guards (turn iced ops fuel files open_file input s) _
        (turn-inserts input s e) (λ t c. run-Guards rest t (inr c))
  run-Guards (input ∷ rest) s (inl (inr h)) =
      >>=-IfReturns_any Guards (turn iced ops fuel files open_file input s) _
        (λ t. run-Guards rest t (inl h))

  -- Whatever the turns are, if one of their commands has inserted a breakpoint, then a turn without
  -- a command behind them does not leave the machine running at its address.
  pub run-IsStoppedAt :
      (turns : List TurnInput) (last : StepInput) (s : Session F)
      → Inserts seg addr turns
      → IfReturns (IsStoppedAt seg addr) (
          run iced ops fuel files open_file turns s >>= λ t.
          turn iced ops fuel files open_file (record { command = none; machine_input = last }) t)
  unfolding turn
  run-IsStoppedAt turns last s h =
      >>=-IfReturns Guards (IsStoppedAt seg addr) (run iced ops fuel files open_file turns s) _
        (run-Guards turns s (inl h)) (λ t b. advance-IsStoppedAt last (record t { printed = [] }) b)
