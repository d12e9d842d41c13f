-- ===== src/Hw/Timer/Laws.antt =====
-- The system clock.
use riapyx.Common.{
  ℕ, ◌+◌, ◌*◌, ◌≤◌, ◌/◌, ◌%◌, ◌^◌, ◌<◌, ◌≡◌, ◌∙◌, sym, refl, arith, bit_and, bit_or, ltb, ◌==◌,
  ◌!=◌, if◌then◌else◌, u16, u32, Bool, true, false, [], ◌∷◌, ◌++◌,
}
use riapyx.Common.Bits.{bit_and-mask, bit_or_fields, bit_or_comm}
use Prim.Native.Nat.{compare, Ordering}
use mathlib.Core.List.{append-nil}
use riapyx.Cpu.Exec.Stack.{queue_hw_interrupt}
use riapyx.Cpu.State.{Cpu}
use riapyx.Hw.Timer.{old_system_clock, system_clock_at, update_clock}
use riapyx.Mem.{Memory, read_u8, write_u16}
use riapyx.Mem.Access.{read_u16-write_u16_self, read_u16-write_u16_apart, read_u8-write_u16}

joined : (t : ℕ) → t < 2 ^ 32 → bit_or (t % 65536) (u32 (t / 2 ^ 16 * 2 ^ 16)) ≡ t
joined t h =
    ground
      (arith, bit_or_comm (t % 65536) (t / 65536 * 65536), bit_or_fields 16 (t / 65536) (t % 65536))

low_word : (t : ℕ) → u16 (bit_and t 0xffff) ≡ t % 65536
low_word t = ground (arith, bit_and-mask 16 t)

-- What is written is the clock that is read.
stored_clock :
    (m : Memory) (t : ℕ)
    → t < 2 ^ 32
    → old_system_clock
        (write_u16 (write_u16 m 0x46c (u16 (bit_and t 0xffff))) 0x46e (u16 (t / 2 ^ 16)))
      ≡ t
unfolding old_system_clock
stored_clock m t h =
    let lo = u16 (bit_and t 0xffff) in
    let hi = u16 (t / 2 ^ 16) in
    rw
      (read_u16-write_u16_apart (write_u16 m 0x46c lo) 0x46e 0x46c hi (λ z. omega arith)
        (λ z. omega arith) (λ z. omega arith))
      (rw (read_u16-write_u16_self m 0x46c lo (omega arith)) (
        rw (read_u16-write_u16_self (write_u16 m 0x46c lo) 0x46e hi (omega arith))
          (ground (arith, low_word t, joined t h))))

system_clock_at-lt : (t : ℕ) → system_clock_at t < 2 ^ 32
unfolding system_clock_at
system_clock_at-lt t = omega arith

-- The clock counts the periods of 55 ms of a time in nanoseconds, and starts again at 0x1800B0.
abbrev pub IsClock : ℕ → ℕ → Type 0
IsClock time_ns clock =
    (clock < 0x1800B0)
    × ((round : ℕ) × (let periods = round * 0x1800B0 + clock in
          (periods * 55000000 ≤ time_ns) × (time_ns < (periods + 1) * 55000000)))

system_clock_at-IsClock : (t : ℕ) → IsClock t (system_clock_at t)
unfolding system_clock_at
system_clock_at-IsClock t = (omega arith, (t / 55000000 / 0x1800B0, (omega arith, omega arith)))

queued_if :
    (t u : ℕ) (c : Cpu)
    → (if t != u then queue_hw_interrupt 0x8 c else c).pending_interrupts
      ≡ c.pending_interrupts ++ (if t == u then [] else 8 ∷ [])
unfolding queue_hw_interrupt
queued_if t u c =
    elim (compare t u)
      as (λ o.
        (if (elim o [ Ordering.eq ↦ false | _ ↦ true ])
          then queue_hw_interrupt 0x8 c
          else c).pending_interrupts
        ≡ c.pending_interrupts
          ++ (if (elim o [ Ordering.eq ↦ true | _ ↦ false ]) then [] else 8 ∷ [])) [
            | Ordering.lt ↦ refl
            | Ordering.eq ↦ sym (append-nil c.pending_interrupts)
            | Ordering.gt ↦ refl
          ]

flagged_if :
    (b : Bool) (m : Memory)
    → read_u8 (if b then write_u16 m 0x470 1 else m) 0x470 ≡ (if b then 1 else read_u8 m 0x470)
flagged_if true m = read_u8-write_u16 m 0x470 0x470 1
flagged_if false m = refl

-- After an update the words of the clock count the periods of 55 ms of the machine's time, up to
-- 0x1800B0 of them. Interrupt 8 is queued exactly if they changed, and the byte at 470h is set to 1
-- exactly if they went back, and is else as it was.
pub update_clock_lem :
    (time_ns : ℕ) (c : Cpu) (m : Memory)
    → let r = update_clock time_ns c m in
      IsClock time_ns (old_system_clock r.1)
      × (r.0.pending_interrupts
          ≡ c.pending_interrupts
            ++ (if old_system_clock m == old_system_clock r.1 then [] else 8 ∷ []))
      × (read_u8 r.1 0x470
          ≡ (if ltb (old_system_clock r.1) (old_system_clock m) then 1 else read_u8 m 0x470))
unfolding update_clock
update_clock_lem time_ns c m =
    let old = old_system_clock m in
    let t = system_clock_at time_ns in
    let m₁ = if ltb t old then write_u16 m 0x470 1 else m in
    rw (stored_clock m₁ t (system_clock_at-lt time_ns)) (
      system_clock_at-IsClock time_ns,
      queued_if old t c,
      read_u8-write_u16 _ 0x46e 0x470 (u16 (t / 2 ^ 16))
          ∙ read_u8-write_u16 _ 0x46c 0x470 (u16 (bit_and t 0xffff))
          ∙ flagged_if (ltb t old) m,
    )
