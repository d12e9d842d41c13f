-- ===== src/Bios/Flags.antt =====
-- A flag that a BIOS service returns reaches the program.
use riapyx.Common.{
  ℕ, ◌+◌, ◌*◌, ◌%◌, ◌<◌, ◌≡◌, ◌⊎◌, inl, inr, sym, refl, ◌∙◌, ap, arith, add16, bit_and, bit_or,
  Bool, true, false, if◌then◌else◌, IsU16,
}
use riapyx.Common.Bits.{bit_and-mask, bit_or-lt, bit_and-le_left}
use riapyx.Cpu.State.{Core, Cpu, complement, phys_addr}
use riapyx.Cpu.Address.{store_memory_u16_noov, load_memory_u16_noov}
use riapyx.Cpu.Registers.{set_flag, clear_flag, set_flag_value}
use riapyx.Cpu.Registers.Laws.{IsCpu}
use riapyx.Cpu.Exec.Stack.{
  stack_push, stack_pop, push_frame, request_interrupt, return_from_interrupt,
}
use riapyx.Cpu.Exec.Stack.Interrupts.{frame, frame_sp, frame_ip, frame_cs, frame_flags, frame_sp_up}
use riapyx.Mem.{Memory, addr_max, read_u16, write_u16}
use riapyx.Mem.Access.{read_u16-write_u16_self, read_u16-write_u16_apart, read_u16_wrap}
use riapyx.Bios.{set_saved_flag}

phys_addr_lem : (seg addr : ℕ) → phys_addr seg addr ≡ (seg * 16 + addr) % addr_max
unfolding phys_addr
phys_addr_lem seg addr = bit_and-mask 20 (seg * 16 + addr)

-- The flags with one of them set or cleared.
abbrev flags_with : Bool → ℕ → ℕ → ℕ
flags_with is_set mask flags = if is_set then bit_or flags mask else bit_and flags (complement mask)

flags_with-lt :
    (b : Bool) (mask flags : ℕ) → mask < 65536 → flags < 65536 → flags_with b mask flags < 65536
flags_with-lt true mask flags p q = bit_or-lt 16 flags mask q p
flags_with-lt false mask flags p q = omega (arith, bit_and-le_left flags (complement mask), q)

-- An interrupt's frame of which the flags are written again.
module _ (m : Memory) (ss sp ip cs flags v : ℕ) (h : ss < 65536) (p : sp < 65536) where
  abbrev at_flags : ℕ
  at_flags = phys_addr ss (add16 (frame_sp m ss sp ip cs flags) 4)

  abbrev patched : Memory
  patched = write_u16 (frame m ss sp ip cs flags) at_flags v

  abbrev base : ℕ
  base = frame_sp m ss sp ip cs flags

  -- The word at `x` is none of the flags' bytes.
  beside :
      (x : ℕ)
      → (x ≡ base) ⊎ (x ≡ add16 base 2)
      → read_u16 patched (ss * 16 + x) ≡ read_u16 (frame m ss sp ip cs flags) (ss * 16 + x)
  beside x (inl e) =
      read_u16-write_u16_apart (frame m ss sp ip cs flags) at_flags (ss * 16 + x) v
        (λ z. omega (arith, phys_addr_lem ss (add16 base 4)))
        (λ z. omega (arith, phys_addr_lem ss (add16 base 4)))
        (λ z. omega (arith, phys_addr_lem ss (add16 base 4)))
  beside x (inr e) =
      read_u16-write_u16_apart (frame m ss sp ip cs flags) at_flags (ss * 16 + x) v
        (λ z. omega (arith, phys_addr_lem ss (add16 base 4)))
        (λ z. omega (arith, phys_addr_lem ss (add16 base 4)))
        (λ z. omega (arith, phys_addr_lem ss (add16 base 4)))

  patched_ip : IsU16 ip → read_u16 patched (ss * 16 + base) ≡ ip
  patched_ip q = beside base (inl refl) ∙ frame_ip m ss sp ip cs flags q

  patched_cs : IsU16 ip → IsU16 cs → read_u16 patched (ss * 16 + add16 base 2) ≡ cs
  patched_cs q r = beside (add16 base 2) (inr refl) ∙ frame_cs m ss sp ip cs flags h p r

  same_place : at_flags % addr_max ≡ (ss * 16 + add16 (add16 base 2) 2) % addr_max
  same_place = omega (arith, phys_addr_lem ss (add16 base 4))

  patched_flags : IsU16 v → read_u16 patched (ss * 16 + add16 (add16 base 2) 2) ≡ v
  patched_flags q =
      read_u16_wrap patched (ss * 16 + add16 (add16 base 2) 2) at_flags (sym same_place)
      ∙ read_u16-write_u16_self _ at_flags v q

  saved_flags : IsU16 flags → read_u16 (frame m ss sp ip cs flags) at_flags ≡ flags
  saved_flags q = read_u16_wrap _ at_flags _ same_place ∙ frame_flags m ss sp ip cs flags h p q

-- `IRET` on a patched frame.
module _ (m : Memory) (c : Cpu) (is_set : Bool) (mask : ℕ) (h : IsCpu c) (q : IsU16 mask) where
  abbrev new_flags : ℕ
  new_flags = flags_with is_set mask (
      read_u16 (frame m c.ss c.sp c.ip c.cs c.flags)
        (phys_addr c.ss (add16 (frame_sp m c.ss c.sp c.ip c.cs c.flags) 4)))

  new_flags_lem : new_flags ≡ flags_with is_set mask c.flags
  new_flags_lem =
      ap (flags_with is_set mask)
        (saved_flags m c.ss c.sp c.ip c.cs c.flags 0 h.ss_fits h.sp_fits h.flags_fit)

  new_flags-IsU16 : IsU16 new_flags
  new_flags-IsU16 = omega (arith, new_flags_lem, flags_with-lt is_set mask c.flags q h.flags_fit)

  resumed_flags :
      read_u16
        (write_u16
          (frame m c.ss c.sp c.ip c.cs c.flags)
          (phys_addr c.ss (add16 (frame_sp m c.ss c.sp c.ip c.cs c.flags) 4))
          new_flags)
        (c.ss * 16 + add16 (add16 (frame_sp m c.ss c.sp c.ip c.cs c.flags) 2) 2)
      ≡ flags_with is_set mask c.flags
  resumed_flags =
      patched_flags m c.ss c.sp c.ip c.cs c.flags new_flags h.ss_fits h.sp_fits new_flags-IsU16
      ∙ new_flags_lem

-- Where the registers fit their types: a flag that a service sets or clears on the stack is, behind
-- its `IRET`, the one change of the program's processor.
pub return_from_interrupt-set_saved_flag :
    (s : Core) (n mask : ℕ) (is_set : Bool)
    → IsCpu s.cpu
    → IsU16 mask
    → let t = request_interrupt n s in
      return_from_interrupt (set_saved_flag mask is_set t.cpu t.mem) t.cpu
      ≡ set_flag_value mask is_set s.cpu
unfolding set_flag clear_flag return_from_interrupt request_interrupt push_frame stack_pop
    stack_push load_memory_u16_noov store_memory_u16_noov set_saved_flag set_flag_value
return_from_interrupt-set_saved_flag s n mask true h q =
    let c = s.cpu in
    let v = new_flags s.mem c true mask h q in
    λ i. record c {
      ip = patched_ip s.mem c.ss c.sp c.ip c.cs c.flags v h.ss_fits h.sp_fits h.ip_fits i;
      cs = patched_cs s.mem c.ss c.sp c.ip c.cs c.flags v h.ss_fits h.sp_fits h.ip_fits h.cs_fits i;
      flags = resumed_flags s.mem c true mask h q i;
      sp = frame_sp_up s.mem c.ss c.sp c.ip c.cs c.flags h.sp_fits i;
    }
return_from_interrupt-set_saved_flag s n mask false h q =
    let c = s.cpu in
    let v = new_flags s.mem c false mask h q in
    λ i. record c {
      ip = patched_ip s.mem c.ss c.sp c.ip c.cs c.flags v h.ss_fits h.sp_fits h.ip_fits i;
      cs = patched_cs s.mem c.ss c.sp c.ip c.cs c.flags v h.ss_fits h.sp_fits h.ip_fits h.cs_fits i;
      flags = resumed_flags s.mem c false mask h q i;
      sp = frame_sp_up s.mem c.ss c.sp c.ip c.cs c.flags h.sp_fits i;
    }
