-- ===== src/Cpu/Exec/Stack/Interrupts.antt =====
-- What is pushed is popped, and `IRET` resumes what an interrupt left.
use riapyx.Common.{
  ℕ, ◌+◌, ◌*◌, ◌%◌, ◌<◌, ◌≡◌, ◌⊎◌, inl, inr, refl, ◌∙◌, arith, add16, sub16, IsU16, ◌^◌, bit_and,
  ◌!=◌, false,
}
use riapyx.Cpu.State.{Core, complement, flag_i, flag_t}
use riapyx.Common.Bits.{bit-bit_and}
use riapyx.Cpu.Registers.{has_flag}
use riapyx.Cpu.Registers.Laws.{IsCpu, bit_flag, complement-bit}
use riapyx.Cpu.Address.{store_memory_u16_noov, load_memory_u16_noov}
use riapyx.Cpu.Exec.Stack.{
  stack_push, stack_pop, push_frame, request_interrupt, return_from_interrupt,
}
use riapyx.Mem.{Memory, read_u16, write_u16}
use riapyx.Mem.Access.{read_u16-write_u16_self, read_u16-write_u16_apart}

-- Words of the stack that lie two or four bytes apart are disjoint, also where SP wraps around.
slots_apart :
    (m : Memory) (ss x y v : ℕ)
    → ss < 65536
    → x < 65536
    → (y ≡ (x + 2) % 65536) ⊎ (y ≡ (x + 4) % 65536)
    → read_u16 (write_u16 m (ss * 16 + x) v) (ss * 16 + y) ≡ read_u16 m (ss * 16 + y)
slots_apart m ss x y v p q (inl e) =
    read_u16-write_u16_apart m (ss * 16 + x) (ss * 16 + y) v (λ z. omega arith) (λ z. omega arith)
      (λ z. omega arith)
slots_apart m ss x y v p q (inr e) =
    read_u16-write_u16_apart m (ss * 16 + x) (ss * 16 + y) v (λ z. omega arith) (λ z. omega arith)
      (λ z. omega arith)

up_down : (n : ℕ) → n < 65536 → add16 (sub16 n 2) 2 ≡ n
up_down n h = omega arith

-- With SP a word, a word that is pushed is popped again, and the processor is as it was.
pub stack_pop-stack_push :
    (s : Core) (val : ℕ)
    → IsU16 s.cpu.sp
    → IsU16 val
    → stack_pop (stack_push val s).mem (stack_push val s).cpu ≡ (val, s.cpu)
unfolding stack_pop stack_push load_memory_u16_noov store_memory_u16_noov
stack_pop-stack_push s val p q =
    let c = s.cpu in
    λ i. (
      read_u16-write_u16_self s.mem (c.ss * 16 + sub16 c.sp 2) val q i,
      record c { sp = up_down c.sp p i },
    )

-- The three words of an interrupt's frame.
module _ (m : Memory) (ss sp ip cs flags : ℕ) where
  abbrev pub frame : Memory
  frame =
      let a = sub16 sp 2 in
      let b = sub16 a 2 in
      let d = sub16 b 2 in
      write_u16 (write_u16 (write_u16 m (ss * 16 + a) flags) (ss * 16 + b) cs) (ss * 16 + d) ip

  abbrev pub frame_sp : ℕ
  frame_sp = sub16 (sub16 (sub16 sp 2) 2) 2

  pub frame_ip : IsU16 ip → read_u16 frame (ss * 16 + frame_sp) ≡ ip
  frame_ip h = read_u16-write_u16_self _ (ss * 16 + frame_sp) ip h

  pub frame_cs :
      ss < 65536 → sp < 65536 → IsU16 cs → read_u16 frame (ss * 16 + add16 frame_sp 2) ≡ cs
  frame_cs h p q =
      slots_apart _ ss frame_sp (add16 frame_sp 2) ip h (omega arith) (inl refl)
      ∙ rw (up_down (sub16 (sub16 sp 2) 2) (omega arith))
          (read_u16-write_u16_self _ (ss * 16 + sub16 (sub16 sp 2) 2) cs q)

  pub frame_flags :
      ss < 65536
      → sp < 65536
      → IsU16 flags
      → read_u16 frame (ss * 16 + add16 (add16 frame_sp 2) 2) ≡ flags
  frame_flags h p q = rw (up_down (sub16 (sub16 sp 2) 2) (omega arith)) (
      rw (up_down (sub16 sp 2) (omega arith)) (
        slots_apart _ ss frame_sp (sub16 sp 2) ip h (omega arith) (inr (omega arith))
        ∙ slots_apart _ ss (sub16 (sub16 sp 2) 2) (sub16 sp 2) cs h (omega arith)
            (inl (omega arith))
        ∙ read_u16-write_u16_self m (ss * 16 + sub16 sp 2) flags q))

  pub frame_sp_up : sp < 65536 → add16 (add16 (add16 frame_sp 2) 2) 2 ≡ sp
  frame_sp_up p = omega arith

-- Where the registers fit their types, `IRET` behind an interrupt that was taken: the processor
-- is exactly as before it, with IP, CS, the flags and SP, whatever the handler's address is.
pub return_from_interrupt-request_interrupt :
    (s : Core) (n : ℕ)
    → IsCpu s.cpu
    → return_from_interrupt (request_interrupt n s).mem (request_interrupt n s).cpu ≡ s.cpu
unfolding return_from_interrupt request_interrupt push_frame stack_pop stack_push
    load_memory_u16_noov store_memory_u16_noov
return_from_interrupt-request_interrupt s n h =
    let c = s.cpu in
    λ i. record c {
      ip = frame_ip s.mem c.ss c.sp c.ip c.cs c.flags h.ip_fits i;
      cs = frame_cs s.mem c.ss c.sp c.ip c.cs c.flags h.ss_fits h.sp_fits h.cs_fits i;
      flags = frame_flags s.mem c.ss c.sp c.ip c.cs c.flags h.ss_fits h.sp_fits h.flags_fit i;
      sp = frame_sp_up s.mem c.ss c.sp c.ip c.cs c.flags h.sp_fits i;
    }

masked_bit :
    (f i j k : ℕ)
    → k < 16
    → (k ≡ i) ⊎ (k ≡ j)
    → (bit_and (bit_and (bit_and f (complement (2 ^ i))) (complement (2 ^ j))) (2 ^ k) != 0) ≡ false
masked_bit f i j k h e =
    let g = bit_and f (complement (2 ^ i)) in
    ground (
      arith,
      e,
      bit_flag (bit_and g (complement (2 ^ j))) k,
      bit-bit_and k g (complement (2 ^ j)),
      bit-bit_and k f (complement (2 ^ i)),
      complement-bit i k h,
      complement-bit j k h,
    )

-- The handler starts with interrupts and single steps disabled.
pub request_interrupt-disables :
    (n : ℕ) (s : Core)
    → (has_flag (request_interrupt n s).cpu flag_i ≡ false)
      × (has_flag (request_interrupt n s).cpu flag_t ≡ false)
unfolding request_interrupt push_frame stack_push
request_interrupt-disables n s = (
  masked_bit s.cpu.flags 9 8 9 (omega arith) (inl refl),
  masked_bit s.cpu.flags 9 8 8 (omega arith) (inr refl),
)
