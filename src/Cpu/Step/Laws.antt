-- ===== src/Cpu/Step/Laws.antt =====
-- Interrupts between instructions, and what a step leaves.
use riapyx.Common.{
  ℕ, ◌+◌, ◌*◌, ◌⊎◌, ◌≡◌, refl, Bool, Bool-cases, true, false, inl, inr, if◌then◌else◌, none, List,
  [], ◌∷◌, Slice, Result, ok, panic, ◌>>=◌, IfReturns, >>=-IfReturns,
}
use riapyx.Cpu.State.{Cpu, Core, core, flag_i}
use riapyx.Cpu.Registers.{has_flag}
use riapyx.Cpu.Registers.Laws.{IsCpu}
use riapyx.Cpu.Exec.Stack.{return_from_interrupt, request_interrupt, push_frame, stack_push}
use riapyx.Mem.{read_u16}
use riapyx.Cpu.Exec.Stack.Interrupts.{
  return_from_interrupt-request_interrupt, request_interrupt-disables,
}
use riapyx.Cpu.Parser.Iced.{IcedInstruction}
use riapyx.Hw.Devices.{Hw}
use riapyx.Cpu.Step.{
  System, take_irq, poll_interrupts, execute, execute_sized, advance_ip,
  next_non_prefix_instruction, system, enter_bios, step,
}
use riapyx.Cpu.Exec.Strings.{is_rep}
use riapyx.Cpu.Instruction.{SizedInstruction}

masked_poll : (s : Core) → has_flag s.cpu flag_i ≡ false → poll_interrupts s ≡ s
unfolding poll_interrupts
masked_poll s e = rw e refl

taken_poll :
    (s : Core) (q : List ℕ)
    → s.cpu.pending_interrupts ≡ q
    → has_flag s.cpu flag_i ≡ true
    → poll_interrupts (take_irq q s) ≡ take_irq q s
unfolding poll_interrupts
taken_poll s [] e f = rw f (rw e refl)
taken_poll s (irq ∷ rest) e f = masked_poll _ (request_interrupt-disables irq _).0

poll_interrupts_idem : (s : Core) → poll_interrupts (poll_interrupts s) ≡ poll_interrupts s
unfolding poll_interrupts
poll_interrupts_idem s = elim (Bool-cases (has_flag s.cpu flag_i)) [
  | inl e ↦ rw e (taken_poll s s.cpu.pending_interrupts refl e)
  | inr e ↦ rw e (masked_poll s e)
]

-- The interrupts `q` that wait before a poll and the machine `t` behind it: the poll of `s` did
-- nothing, as interrupts are disabled or none waits, or it took the one that is first, which the processor jumps to.
abbrev pub IsPolled : Core → List ℕ → Core → Type 0
IsPolled s q t =
    ((t ≡ s) × ((has_flag s.cpu flag_i ≡ false) ⊎ (q ≡ [])))
    ⊎ ((irq : ℕ) × (q ≡ irq ∷ t.cpu.pending_interrupts)
        × (t.cpu.ip ≡ read_u16 t.mem (irq * 4))
        × (t.cpu.cs ≡ read_u16 t.mem (irq * 4 + 2)))

take_irq-IsPolled :
    (q : List ℕ) (s : Core) → s.cpu.pending_interrupts ≡ q → IsPolled s q (take_irq q s)
unfolding request_interrupt push_frame stack_push
take_irq-IsPolled [] s e = inl (refl, inr refl)
take_irq-IsPolled (irq ∷ rest) s e = inr (irq, refl, refl, refl)

if_enabled-IsPolled :
    (s : Core) (b : Bool)
    → has_flag s.cpu flag_i ≡ b
    → IsPolled s s.cpu.pending_interrupts (if b then take_irq s.cpu.pending_interrupts s else s)
if_enabled-IsPolled s true e = take_irq-IsPolled s.cpu.pending_interrupts s refl
if_enabled-IsPolled s false e = inl (refl, inl e)

-- One poll takes one interrupt at most, the oldest: either it does nothing, as interrupts are
-- disabled or none waits, or the processor is at
-- the address of that interrupt's vector and all the others still wait, in their order. Polling
-- again at once does nothing.
pub poll_interrupts_once :
    (s : Core)
    → IsPolled s s.cpu.pending_interrupts (poll_interrupts s)
      × (poll_interrupts (poll_interrupts s) ≡ poll_interrupts s)
unfolding poll_interrupts
poll_interrupts_once s =
    (if_enabled-IsPolled s (has_flag s.cpu flag_i) refl, poll_interrupts_idem s)

-- Where the registers fit their types, with interrupts enabled, the oldest pending one is taken: the
-- processor is at the address in the vector of its number, in the memory that holds the frame.
-- `IRET` there resumes the program where it was, and this interrupt alone is no longer pending.
pub poll_interrupts-resumes :
    (s : Core) (irq : ℕ) (rest : List ℕ)
    → IsCpu s.cpu
    → has_flag s.cpu flag_i ≡ true
    → s.cpu.pending_interrupts ≡ irq ∷ rest
    → let t = poll_interrupts s in
      (t.cpu.ip ≡ read_u16 t.mem (irq * 4))
      × (t.cpu.cs ≡ read_u16 t.mem (irq * 4 + 2))
      × (return_from_interrupt t.mem t.cpu
          ≡ (let c = s.cpu in record c { pending_interrupts = rest }))
unfolding poll_interrupts request_interrupt
poll_interrupts-resumes s irq rest h e q = rw e (
    rw q (
      refl,
      refl,
      return_from_interrupt-request_interrupt
          (core (let c = s.cpu in record c { pending_interrupts = rest }) s.mem) irq
          record {
            ax_fits = h.ax_fits;
            bx_fits = h.bx_fits;
            cx_fits = h.cx_fits;
            dx_fits = h.dx_fits;
            sp_fits = h.sp_fits;
            bp_fits = h.bp_fits;
            si_fits = h.si_fits;
            di_fits = h.di_fits;
            cs_fits = h.cs_fits;
            ds_fits = h.ds_fits;
            ss_fits = h.ss_fits;
            es_fits = h.es_fits;
            ip_fits = h.ip_fits;
            flags_fit = h.flags_fit;
          },
    ))

after :
    {A B : Type 0} (Q : B → Type 0) (m : Result A) (f : A → Result B)
    → ((a : A) → IfReturns Q (f a))
    → IfReturns Q (m >>= f)
after Q (ok a) f k = k a
after Q panic f k = tt

abbrev pub HasNoPrefix : Cpu → Type 0
HasNoPrefix c = (c.rep_prefix ≡ none) × (c.segment_override_prefix ≡ none)

abbrev CleanSystem : {F B : Type 0} → System F B → Type 0
CleanSystem t = HasNoPrefix t.cpu

abbrev CleanCore : {F : Type 0} → Core × Hw F → Type 0
CleanCore (s, hw) = HasNoPrefix s.cpu

execute_sized-CleanCore :
    {F : Type 0}
    → (iced : Slice → IcedInstruction) (ins : SizedInstruction) (s : Core) (hw : Hw F)
    → IfReturns CleanCore (execute_sized iced ins s hw)
unfolding execute_sized
execute_sized-CleanCore iced ins s hw =
    let s₁ = if is_rep s.cpu then s else core (advance_ip ins.size s.cpu) s.mem in
    after CleanCore (execute ins.instruction s₁ hw) _ (λ _. (refl, refl))

-- No prefix outlives the instruction that it stands before, whatever the BIOS and the crate's
-- decoder do: a step that returns leaves none.
pub step-HasNoPrefix :
    {F B : Type 0}
    → (iced : Slice → IcedInstruction) (cpu_trap : System F B → Result (System F B)) (fuel : ℕ)
      (sys : System F B)
    → IfReturns (λ t. HasNoPrefix t.cpu) (step iced cpu_trap fuel sys)
unfolding step execute_sized
step-HasNoPrefix iced cpu_trap fuel sys =
    after CleanSystem
      (enter_bios iced cpu_trap (system (poll_interrupts (core sys.cpu sys.mem)) sys.hw sys.bios)) _
      (λ sys₂.
        after CleanSystem (next_non_prefix_instruction iced fuel sys₂.mem sys₂.cpu.ip sys₂.cpu) _
          (λ (ins, c).
            >>=-IfReturns CleanCore CleanSystem (execute_sized iced ins (core c sys₂.mem) sys₂.hw) _
              (execute_sized-CleanCore iced ins (core c sys₂.mem) sys₂.hw) (λ _ h. h)))
