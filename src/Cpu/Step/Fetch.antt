-- ===== src/Cpu/Step/Fetch.antt =====
-- The fetch of an instruction behind its prefixes, as a relation.
use riapyx.Common.{
  ℕ, zero, suc, ◌+◌, ◌<◌, ◌≡◌, ◌↔◌, ◌⊎◌, inl, inr, refl, arith, add16, u16, Slice, Result, ok,
  panic, IfReturns, >>=-IfReturns,
}
use mathlib.Core.Path.{subst}
use riapyx.Cpu.Instruction.{Instruction, SizedInstruction, sized, Prefix}
use riapyx.Cpu.State.{Cpu, phys_addr}
use riapyx.Cpu.Parser.{parse_instruction}
use riapyx.Cpu.Parser.Iced.{IcedInstruction}
use riapyx.Cpu.Exec.Single.{handle_prefix}
use riapyx.Cpu.Step.{next_non_prefix_instruction}
use riapyx.Mem.{Memory, slice_from}

abbrev pub IsNoPrefix : Instruction → Type 0
IsNoPrefix i = elim i [ Instruction.prefix p ↦ ⊥ | _ ↦ Unit {0} ]

prefix_or_not : (i : Instruction) → ((p : Prefix) × (i ≡ Instruction.prefix p)) ⊎ IsNoPrefix i
prefix_or_not i = elim i as (λ i. ((p : Prefix) × (i ≡ Instruction.prefix p)) ⊎ IsNoPrefix i) [
  | Instruction.prefix p ↦ inl (p, refl)
  | _ ↦ inr tt
]

other_arm :
    {A : Type 0} (i : Instruction) (f : Prefix → A) (a : A)
    → IsNoPrefix i
    → (elim i [ Instruction.prefix p ↦ f p | _ ↦ a ]) ≡ a
other_arm i f a h =
    elim i as (λ i. IsNoPrefix i → (elim i [ Instruction.prefix p ↦ f p | _ ↦ a ]) ≡ a) [
      | Instruction.prefix p ↦ λ h. elim h [ ]
      | _ ↦ λ _. refl
    ]
      h

Result-cases : {A : Type 0} (r : Result A) → ((a : A) × (r ≡ ok a)) ⊎ (r ≡ panic)
Result-cases (ok a) = inl (a, refl)
Result-cases panic = inr refl

other_arm-IfReturns :
    {A : Type 0} (P : A → Type 0) (i : Instruction) (f : Prefix → Result A) (r : Result A)
    → IsNoPrefix i
    → IfReturns P r
    → IfReturns P (elim i [ Instruction.prefix p ↦ f p | _ ↦ r ])
other_arm-IfReturns P i f r h k = rw (other_arm i f r h) k

none_below : (n : ℕ) → n < 0 → ⊥
none_below n h = omega (arith, h)

-- With the decoder `iced` and the memory `mem`, `n` prefixes stand at `ip` before the instruction
-- `ins`, whose size counts them, and they take the processor to a new state.
module _ (iced : Slice → IcedInstruction) (mem : Memory) where
  pub data Fetches : ℕ → ℕ → Cpu → SizedInstruction → Cpu → Type 0 where
    plain :
        (ip : ℕ) (c : Cpu) (bytecode : Slice) (ins : SizedInstruction)
        → slice_from mem (phys_addr c.cs ip) ≡ ok bytecode
        → parse_instruction iced bytecode ≡ ok ins
        → IsNoPrefix ins.instruction
        → Fetches zero ip c ins c
    prefixed :
        (n ip : ℕ) (c c₁ : Cpu) (bytecode : Slice) (candidate ins : SizedInstruction) (p : Prefix)
        → slice_from mem (phys_addr c.cs ip) ≡ ok bytecode
        → parse_instruction iced bytecode ≡ ok candidate
        → candidate.instruction ≡ Instruction.prefix p
        → Fetches n (add16 ip candidate.size) (handle_prefix p c) ins c₁
        → Fetches (suc n) ip c (sized ins.instruction (u16 (candidate.size + ins.size))) c₁

  enough_fuel :
      (fuel n ip : ℕ) (c c₁ : Cpu) (ins : SizedInstruction)
      → n < fuel
      → Fetches n ip c ins c₁
      → next_non_prefix_instruction iced fuel mem ip c ≡ ok (ins, c₁)
  unfolding next_non_prefix_instruction
  enough_fuel zero n ip c c₁ ins h k = elim (none_below n h) [ ]
  enough_fuel (suc fuel) n ip c c₁ ins h (Fetches.plain _ _ bytecode _ a b k) =
      rw (a, b) (other_arm ins.instruction _ _ k)
  enough_fuel (suc fuel) n ip c c₁ ins h (Fetches.prefixed m _ _ _ bytecode candidate i p a b e k) =
      rw
        (
          a,
          b,
          e,
          enough_fuel fuel m (add16 ip candidate.size) (handle_prefix p c) c₁ i (omega arith) k,
        )
        refl

  -- What a run of the code has fetched.
  abbrev IsFetched : ℕ → ℕ → Cpu → SizedInstruction × Cpu → Type 0
  IsFetched fuel ip c (ins, c₁) = (n : ℕ) × (n < fuel) × Fetches n ip c ins c₁

  behind_prefix :
      (fuel ip : ℕ) (c : Cpu) (bytecode : Slice) (candidate : SizedInstruction) (p : Prefix)
      → slice_from mem (phys_addr c.cs ip) ≡ ok bytecode
      → parse_instruction iced bytecode ≡ ok candidate
      → candidate.instruction ≡ Instruction.prefix p
      → (r : SizedInstruction × Cpu)
      → IsFetched fuel (add16 ip candidate.size) (handle_prefix p c) r
      → IsFetched (suc fuel) ip c (sized r.0.instruction (u16 (candidate.size + r.0.size)), r.1)
  behind_prefix fuel ip c bytecode candidate p a b e (ins, c₁) (n, h, k) =
      (suc n, omega (arith, h), Fetches.prefixed n ip c c₁ bytecode candidate ins p a b e k)

  fetched :
      (fuel ip : ℕ) (c : Cpu)
      → IfReturns (IsFetched fuel ip c) (next_non_prefix_instruction iced fuel mem ip c)
  unfolding next_non_prefix_instruction
  fetched zero ip c = tt
  fetched (suc fuel) ip c = elim (Result-cases (slice_from mem (phys_addr c.cs ip))) [
    | inr a ↦ rw a tt
    | inl (bytecode, a) ↦ rw a (elim (Result-cases (parse_instruction iced bytecode)) [
      | inr b ↦ rw b tt
      | inl (candidate, b) ↦ rw b (elim (prefix_or_not candidate.instruction) [
        | inl (p, e) ↦ rw e (
            >>=-IfReturns (IsFetched fuel (add16 ip candidate.size) (handle_prefix p c))
              (IsFetched (suc fuel) ip c)
              (next_non_prefix_instruction iced fuel mem (add16 ip candidate.size)
                (handle_prefix p c))
              _ (fetched fuel (add16 ip candidate.size) (handle_prefix p c))
              (behind_prefix fuel ip c bytecode candidate p a b e))
        | inr k ↦
            other_arm-IfReturns (IsFetched (suc fuel) ip c) candidate.instruction _
              (ok (candidate, c)) k (zero, omega arith, Fetches.plain ip c bytecode candidate a b k)
      ])
    ])
  ]

  -- The code fetches an instruction exactly if it stands at IP behind fewer prefixes than the
  -- fuel: with the size of both, and with the prefixes handled in order.
  pub next_non_prefix_instruction_iff :
      (fuel ip : ℕ) (c c₁ : Cpu) (ins : SizedInstruction)
      → (next_non_prefix_instruction iced fuel mem ip c ≡ ok (ins, c₁))
        ↔ ((n : ℕ) × (n < fuel) × Fetches n ip c ins c₁)
  next_non_prefix_instruction_iff fuel ip c c₁ ins = (
    λ e. subst (IfReturns (IsFetched fuel ip c)) e (fetched fuel ip c),
    λ (n, h, k). enough_fuel fuel n ip c c₁ ins h k,
  )
