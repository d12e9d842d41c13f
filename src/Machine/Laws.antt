-- ===== src/Machine/Laws.antt =====
-- A machine that does not run.
use riapyx.Common.{
  ℕ, ◌≡◌, refl, sym, ap, ◌∙◌, Option, none, some, ◌==◌, true, false, Slice, List, [], ◌∷◌, Result,
  ok, panic, IfReturns, >>=-IfReturns, inl, inr, Bool-cases,
}
use riapyx.Cpu.State.{Cpu}
use riapyx.Cpu.Parser.Iced.{IcedInstruction}
use riapyx.Hw.Devices.{Hw}
use riapyx.Hw.Keyboard.{Keyboard}
use riapyx.Hw.Scancodes.{Scancode, sdlk_to_scancode}
use riapyx.Hw.Keyboard.Events.{on_keydown, on_keyup, pressed, released}
use riapyx.Cpu.Exec.Stack.{queue_hw_interrupt}
use riapyx.Hw.Events.{SdlEvent, Inputs, handle_event, pump_events, try_pump_event}
use riapyx.Hw.Mouse.Motion.{on_motion}
use riapyx.Hw.Storage.Disk.{FileOps}
use riapyx.Machine.{Machine, StepInput, is_running, step}

-- The processor but for the interrupts that wait.
abbrev pub SameButPending : Cpu → Cpu → Type 0
SameButPending c d = (let q = d.pending_interrupts in record c { pending_interrupts = q }) ≡ d

abbrev KeepsCpu : Cpu → Inputs → Type 0
KeepsCpu c s = SameButPending c s.cpu

any : {A : Type 0} (r : Result A) → IfReturns (λ _. Unit {0}) r
any (ok a) = tt
any panic = tt

pressed_keeps : (o : Option ℕ) (k : Keyboard) (c : Cpu) → SameButPending c (pressed o k c).1
unfolding queue_hw_interrupt
pressed_keeps none k c = refl
pressed_keeps (some s) k c = refl

released_keeps : (o : Option ℕ) (k : Keyboard) (c : Cpu) → SameButPending c (released o k c).1
unfolding queue_hw_interrupt
released_keeps none k c = refl
released_keeps (some s) k c = refl

keydown_keeps :
    (key : Option Scancode) (k : Keyboard) (c : Cpu) → SameButPending c (on_keydown key k c).1
unfolding on_keydown
keydown_keeps none k c = refl
keydown_keeps (some key) k c = pressed_keeps (sdlk_to_scancode key) k c

keyup_keeps :
    (key : Option Scancode) (k : Keyboard) (c : Cpu) → SameButPending c (on_keyup key k c).1
unfolding on_keyup
keyup_keeps none k c = refl
keyup_keeps (some key) k c = released_keeps (sdlk_to_scancode key) k c

-- An event of the window changes no more of the processor than the interrupts that wait.
event_keeps : (event : SdlEvent) (s : Inputs) → IfReturns (KeepsCpu s.cpu) (handle_event event s)
unfolding handle_event
event_keeps (SdlEvent.key_down key) s = keydown_keeps key s.keyboard s.cpu
event_keeps (SdlEvent.key_up key) s = keyup_keeps key s.keyboard s.cpu
event_keeps (SdlEvent.mouse_motion xrel yrel) s =
    >>=-IfReturns (λ _. Unit {0}) (KeepsCpu s.cpu) (on_motion xrel yrel s.mouse) _
      (any (on_motion xrel yrel s.mouse)) (λ _ _. refl)
event_keeps (SdlEvent.mouse_button_down button clicks) s = elim (Bool-cases (clicks == 1)) [
  | inl e ↦ rw e refl
  | inr e ↦ rw e refl
]
event_keeps (SdlEvent.mouse_button_up button clicks) s = elim (Bool-cases (clicks == 1)) [
  | inl e ↦ rw e refl
  | inr e ↦ rw e refl
]
event_keeps (SdlEvent.mouse_wheel y true) s = refl
event_keeps (SdlEvent.mouse_wheel y false) s = refl
event_keeps SdlEvent.quit s = tt
event_keeps SdlEvent.other s = refl

pump_keeps :
    (events : List SdlEvent) (s : Inputs) → IfReturns (KeepsCpu s.cpu) (pump_events events true s)
unfolding pump_events
pump_keeps [] s = refl
pump_keeps (event ∷ rest) s = event_keeps event s

-- What a turn of a machine that does not run leaves as it was.
pub record IsIdle {F : Type 0} (before after : Machine F) : Type 0 where
  pub same_cpu : SameButPending before.system.cpu after.system.cpu
  pub same_mem : after.system.mem ≡ before.system.mem
  pub same_floppy : after.system.hw.floppy ≡ before.system.hw.floppy
  pub same_hdd : after.system.hw.hdd ≡ before.system.hw.hdd
  pub same_display : after.system.hw.display ≡ before.system.hw.display
  pub same_bios : after.system.bios ≡ before.system.bios
  pub same_clock : after.clock ≡ before.clock
  pub still_stopped : is_running after ≡ false

abbrev KeepsDevices : {F : Type 0} → Hw F → Cpu → Hw F × Cpu → Type 0
KeepsDevices hw c (hw₁, c₁) =
    SameButPending c c₁ × (hw₁.floppy ≡ hw.floppy) × (hw₁.hdd ≡ hw.hdd) × (hw₁.display ≡ hw.display)

module _ {F : Type 0} where
  try_pump_keeps :
      (events : List SdlEvent) (hw : Hw F) (c : Cpu)
      → IfReturns (KeepsDevices hw c) (try_pump_event events hw c)
  unfolding try_pump_event
  try_pump_keeps events hw c =
      let s : Inputs = record { keyboard = hw.keyboard; mouse = hw.com1.device; cpu = c } in
      >>=-IfReturns (KeepsCpu c) (KeepsDevices hw c) (pump_events events true s) _
        (pump_keeps events s) (λ _ h. (h, refl, refl, refl))

  stopped :
      (m : Machine F) (hw : Hw F) (c : Cpu)
      → is_running m ≡ false
      → SameButPending m.system.cpu c
      → is_running (let sys = m.system in record m { system = record sys { hw = hw; cpu = c } })
        ≡ false
  unfolding is_running
  stopped m hw c h e =
      ap
        (λ d.
          is_running (let sys = m.system in record m { system = record sys { hw = hw; cpu = d } }))
        (sym e)
      ∙ h

module _ {F : Type 0} (iced : Slice → IcedInstruction) (ops : FileOps F) (fuel : ℕ) where
  -- A machine that is paused or has crashed does not run on, whatever the input: a step that returns
  -- keeps the memory, the disks, the display, the BIOS, the clock and, but for the interrupts that
  -- wait, the processor, and the machine is stopped behind it.
  pub step-IsIdle :
      (input : StepInput) (m : Machine F)
      → is_running m ≡ false
      → IfReturns (IsIdle m) (step iced ops fuel input m)
  unfolding step
  step-IsIdle input m h = rw h (
      >>=-IfReturns (KeepsDevices m.system.hw m.system.cpu) (IsIdle m)
        (try_pump_event input.events m.system.hw m.system.cpu) _
        (try_pump_keeps input.events m.system.hw m.system.cpu)
        (λ (hw, c) (same, a, b, d). record {
          same_cpu = same;
          same_mem = refl;
          same_floppy = a;
          same_hdd = b;
          same_display = d;
          same_bios = refl;
          same_clock = refl;
          still_stopped = stopped m hw c h same;
        }))
