-- ===== src/Cpu/Exec/Stack.antt =====
-- The stack and the interrupts.
pub mod Interrupts
use riapyx.Common.{ℕ, ◌+◌, ◌*◌, add16, sub16, bit_and, List, [], ◌∷◌, ◌++◌}
use riapyx.Cpu.State.{Cpu, Core, core, complement, flag_i, flag_t}
use riapyx.Cpu.Address.{store_memory_u16_noov, load_memory_u16_noov}
use riapyx.Mem.{Memory, read_u16}

unfoldable pub stack_push : ℕ → Core → Core
stack_push val s =
    let c = s.cpu in
    let sp = sub16 c.sp 2 in core (record c { sp = sp }) (store_memory_u16_noov s.mem c.ss sp val)

unfoldable pub stack_pop : Memory → Cpu → ℕ × Cpu
stack_pop mem c =
    let value = load_memory_u16_noov mem c.ss c.sp in (value, record c { sp = add16 c.sp 2 })

unfoldable pub return_from_interrupt : Memory → Cpu → Cpu
unfolding stack_pop
return_from_interrupt mem c =
    let (ip, c₁) = stack_pop mem c in
    let (cs, c₂) = stack_pop mem c₁ in
    let c₃ = record c₂ { ip = ip; cs = cs } in
    let (flags, c₄) = stack_pop mem c₃ in record c₄ { flags = flags }

unfoldable pub queue_hw_interrupt : ℕ → Cpu → Cpu
queue_hw_interrupt n c = record c { pending_interrupts = c.pending_interrupts ++ (n ∷ []) }

-- The three pushes of `request_interrupt`, the flags masked after the first.
unfoldable pub push_frame : Core → Core
unfolding stack_push complement
push_frame s =
    let flags = s.cpu.flags in
    let ip = s.cpu.ip in
    let cs = s.cpu.cs in
    let s₁ = stack_push flags s in
    let c₁ = s₁.cpu in
    let masked = bit_and (bit_and c₁.flags (complement flag_i)) (complement flag_t) in
    stack_push ip (stack_push cs (core (record c₁ { flags = masked }) s₁.mem))

unfoldable pub request_interrupt : ℕ → Core → Core
unfolding push_frame
request_interrupt n s =
    let s₁ = push_frame s in
    let ivt_addr = n * 4 in
    let handler_ip = read_u16 s₁.mem ivt_addr in
    let handler_cs = read_u16 s₁.mem (ivt_addr + 2) in
    let c₁ = s₁.cpu in core (record c₁ { cs = handler_cs; ip = handler_ip }) s₁.mem
