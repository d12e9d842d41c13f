-- ===== src/Bios/Tables.antt =====
-- The interrupt vectors that booting sets up.
use riapyx.Common.{
  ℕ, zero, suc, ◌+◌, ◌*◌, ◌^◌, ◌<◌, ◌≤◌, ◌≡◌, ◌⊎◌, inl, inr, refl, sym, ap, ◌∙◌, arith, ◌==◌,
  if◌then◌else◌, u16,
}
use riapyx.Common.Bits.{bit_and-mask}
use riapyx.Cpu.State.{phys_addr}
use riapyx.Mem.{Memory, addr_max, read_u8, read_u16, write_u8, write_u16}
use riapyx.Mem.Access.{read_u8-write_u8, read_u8-write_u16, read_u16_bytes}
use riapyx.Bios.{write_ivt_entry, init_vectors, init_ivt, bios_segment}

handler_addr : (irq : ℕ) → irq < 256 → phys_addr 0xf000 irq ≡ 0xf0000 + irq
unfolding phys_addr
handler_addr irq h = omega (arith, bit_and-mask 20 (0xf0000 + irq))

none_between : (a b : ℕ) → a ≤ b → b < a + 0 → ⊥
none_between a b h k = omega arith

eq_or_lt : (a b : ℕ) → a ≤ b → (b ≡ a) ⊎ (a < b)
eq_or_lt a b h = ground arith

-- One turn of the loop, byte by byte.
turn_lem :
    (irq : ℕ) (m : Memory) (b : ℕ)
    → irq < 256
    → b < addr_max
    → read_u8
        (write_u8 (write_ivt_entry irq bios_segment irq m) (phys_addr bios_segment irq) 0b11001111)
        b
      ≡ (if b == 0xf0000 + irq
          then 0b11001111
          else if b == irq * 4 + 3
          then 0xf0
          else if b == irq * 4 + 2
          then 0
          else if b == irq * 4 + 1
          then 0
          else if b == irq * 4
          then irq
          else read_u8 m b)
unfolding write_ivt_entry
turn_lem irq m b h k = ground (
  arith,
  handler_addr irq h,
  read_u8-write_u8 (write_ivt_entry irq bios_segment irq m) (phys_addr bios_segment irq) b
      0b11001111,
  read_u8-write_u16 (write_u16 m (irq * 4) irq) (irq * 4 + 2) b bios_segment,
  read_u8-write_u16 m (irq * 4) b irq,
)

-- What the loop leaves alone.
untouched :
    (n irq : ℕ) (m : Memory) (b : ℕ)
    → irq + n < 256
    → (b < irq * 4) ⊎ ((0xf0000 ≤ b) × (b < 0xf0000 + irq))
    → read_u8 (init_vectors n irq m) b ≡ read_u8 m b
unfolding init_vectors
untouched zero irq m b h k = refl
untouched (suc n) irq m b h k =
    untouched n (irq + 1) _ b (omega arith)
      (elim k [ inl e ↦ inl (omega arith) | inr e ↦ inr (e.0, omega arith) ])
    ∙ turn_lem irq m b (omega arith) (ground (arith, k))
    ∙ ground (arith, k)

above :
    (n irq : ℕ) (m : Memory) (b : ℕ)
    → irq + n < 256
    → (irq + n) * 4 ≤ b
    → b < 0xf0000
    → read_u8 (init_vectors n irq m) b ≡ read_u8 m b
unfolding init_vectors
above zero irq m b h p q = refl
above (suc n) irq m b h p q =
    above n (irq + 1) _ b (omega arith) (omega arith) q
    ∙ turn_lem irq m b (omega arith) (omega arith)
    ∙ ground arith

-- The bytes of a vector that leads to its handler in the ROM, and the handler, an `IRET`.
abbrev IsVector : Memory → ℕ → Type 0
IsVector m irq =
    (read_u8 m (irq * 4) ≡ irq)
    × (read_u8 m (irq * 4 + 1) ≡ 0)
    × (read_u8 m (irq * 4 + 2) ≡ 0)
    × (read_u8 m (irq * 4 + 2 + 1) ≡ 0xf0)
    × (read_u8 m (0xf0000 + irq) ≡ 0xcf)

init_vectors-IsVector :
    (n irq : ℕ) (m : Memory) (j : ℕ)
    → irq + n < 256
    → irq ≤ j
    → j < irq + n
    → IsVector (init_vectors n irq m) j
unfolding init_vectors
init_vectors-IsVector zero irq m j h p q = elim (none_between irq j p q) [ ]
init_vectors-IsVector (suc n) irq m j h p q = elim (eq_or_lt irq j p) [
  | inl e ↦ (
    untouched n (irq + 1) _ (j * 4) (omega arith) (inl (omega arith))
        ∙ turn_lem irq m (j * 4) (omega arith) (omega arith)
        ∙ ground arith,
    untouched n (irq + 1) _ (j * 4 + 1) (omega arith) (inl (omega arith))
        ∙ turn_lem irq m (j * 4 + 1) (omega arith) (omega arith)
        ∙ ground arith,
    untouched n (irq + 1) _ (j * 4 + 2) (omega arith) (inl (omega arith))
        ∙ turn_lem irq m (j * 4 + 2) (omega arith) (omega arith)
        ∙ ground arith,
    untouched n (irq + 1) _ (j * 4 + 2 + 1) (omega arith) (inl (omega arith))
        ∙ turn_lem irq m (j * 4 + 2 + 1) (omega arith) (omega arith)
        ∙ ground arith,
    untouched n (irq + 1) _ (0xf0000 + j) (omega arith) (inr (omega arith, omega arith))
        ∙ turn_lem irq m (0xf0000 + j) (omega arith) (omega arith)
        ∙ ground arith,
  )
  | inr e ↦ init_vectors-IsVector n (irq + 1) _ j (omega arith) (omega arith) (omega arith)
]

word_of :
    (m : Memory) (a lo hi : ℕ)
    → read_u8 m a ≡ lo
    → read_u8 m (a + 1) ≡ hi
    → read_u16 m a ≡ u16 (lo + hi * 2 ^ 8)
word_of m a lo hi p q = rw (read_u16_bytes m a, p, q) refl

kept_word :
    (m : Memory) (a : ℕ)
    → 255 * 4 ≤ a
    → a + 1 < 0xf0000
    → read_u16 (init_vectors 0xff 0 m) a ≡ read_u16 m a
kept_word m a p q =
    word_of (init_vectors 0xff 0 m) a (read_u8 m a) (read_u8 m (a + 1))
      (above 0xff 0 m a (omega arith) p (omega arith))
      (above 0xff 0 m (a + 1) (omega arith) (omega arith) q)
    ∙ sym (read_u16_bytes m a)

-- Behind `init_ivt`, with which booting begins, the vector of each interrupt but 255 is the address
-- in the ROM that has the number of the interrupt as its IP, and an `IRET` stands there; vector 255
-- is left as it was.
pub init_ivt_lem :
    (m : Memory) (irq : ℕ)
    → irq < 255
    → (read_u16 (init_ivt m) (irq * 4) ≡ irq)
      × (read_u16 (init_ivt m) (irq * 4 + 2) ≡ bios_segment)
      × (read_u8 (init_ivt m) (phys_addr bios_segment irq) ≡ 0b11001111)
      × (read_u16 (init_ivt m) (255 * 4) ≡ read_u16 m (255 * 4))
      × (read_u16 (init_ivt m) (255 * 4 + 2) ≡ read_u16 m (255 * 4 + 2))
unfolding init_ivt
init_ivt_lem m irq h =
    let v = init_vectors-IsVector 0xff 0 m irq (omega arith) (omega arith) h in
    (
      word_of (init_vectors 0xff 0 m) (irq * 4) irq 0 v.0 v.1 ∙ omega arith,
      word_of (init_vectors 0xff 0 m) (irq * 4 + 2) 0 0xf0 v.2 v.3,
      ap (read_u8 (init_vectors 0xff 0 m)) (handler_addr irq (omega arith)) ∙ v.4,
      kept_word m (255 * 4) (omega arith) (omega arith),
      kept_word m (255 * 4 + 2) (omega arith) (omega arith),
    )
