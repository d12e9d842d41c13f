-- ===== src/Hw/Keyboard/Events/Pump.antt =====
-- What the BIOS makes of the waiting scancodes, as a machine that knows which of the four modifier
-- keys are down.
use riapyx.Common.{
  ℕ, ◌+◌, ◌/◌, ◌%◌, ◌^◌, ◌<◌, ◌≡◌, refl, sym, ap, ◌∙◌, arith, bit_and, bit_xor, ltb, ◌==◌, ◌||◌,
  not, if◌then◌else◌, Bool, true, false, Bool-cases, inl, inr, IsU8, List, [], ◌∷◌, ◌++◌, select,
}
use mathlib.Core.List.{append-nil, append_assoc}
use riapyx.Common.Bits.{
  bit-bit_and, bit-bit_or, bit-bit_xor, bit-two_pow, bit_ones, bit_and-mask, bit_and-two_pow,
}
use riapyx.Hw.Bda.{ByteBdaEntry, get, set}
use riapyx.Hw.Scancodes.{scancode_to_ascii}
use riapyx.Hw.Keyboard.{Keystroke, Keyboard}
use riapyx.Hw.Keyboard.Events.{
  bios_pump_keystrokes, pump_all, pump_scancode, update_shift_flags, with_flag, is_released,
  is_shift_pressed, ascii_or_zero,
}
use riapyx.Mem.{Memory}
use riapyx.Mem.Access.{read_u8-write_u8}

pub record Modifiers : Type 0 where
  pub right_shift : Bool
  pub left_shift : Bool
  pub ctrl : Bool
  pub alt : Bool

abbrev bit_at : ℕ → ℕ → Bool
bit_at j x = x / 2 ^ j % 2 == 1

-- The keys that a byte of flags says are down.
abbrev pub modifiers : ℕ → Modifiers
modifiers flags = record {
  right_shift = bit_at 0 flags;
  left_shift = bit_at 1 flags;
  ctrl = bit_at 2 flags;
  alt = bit_at 3 flags;
}

-- A scancode below 128 is a key that goes down, and 128 more the same key that comes up.
abbrev pub turn : ℕ → Modifiers → Modifiers
turn scancode k = record {
  right_shift = if scancode % 128 == 0x36 then ltb scancode 128 else k.right_shift;
  left_shift = if scancode % 128 == 0x2a then ltb scancode 128 else k.left_shift;
  ctrl = if scancode % 128 == 0x1d then ltb scancode 128 else k.ctrl;
  alt = if scancode % 128 == 0x38 then ltb scancode 128 else k.alt;
}

with_flag-bit :
    (j k : ℕ) (b : Bool) (f : ℕ)
    → j < 8
    → bit_at j (with_flag (2 ^ k) b f) ≡ (if k == j then b else bit_at j f)
with_flag-bit j k true f h = ground (arith, bit-bit_or j f (2 ^ k), bit-two_pow k j)
with_flag-bit j k false f h = ground (
  arith,
  bit-bit_and j f (bit_xor (2 ^ k) 0xff),
  bit-bit_xor j (2 ^ k) 0xff,
  bit-two_pow k j,
  bit_ones 8 j h,
)

released_lem : (s : ℕ) → IsU8 s → not (is_released s) ≡ ltb s 128
released_lem s h = ground (arith, bit_and-two_pow 7 s)

key_lem : (s : ℕ) → bit_and s 0x7f ≡ s % 128
key_lem s = bit_and-mask 7 s

shift_lem : (f : ℕ) → is_shift_pressed f ≡ (bit_at 0 f || bit_at 1 f)
shift_lem f = ground (arith, bit_and-mask 2 f)

get-set : (e : ByteBdaEntry) (v : ℕ) (m : Memory) → get e (set e v m) ≡ v
unfolding get set
get-set e v m = read_u8-write_u8 m (0x400 + e.idx) (0x400 + e.idx) v ∙ ground arith

-- The flags behind one scancode.
abbrev flags_behind : ℕ → ℕ → ℕ
flags_behind scancode flags =
    let set_flag = λ (flag : ℕ). with_flag flag (not (is_released scancode)) flags in
    select (bit_and scancode 0x7f)
      ((0x2a, set_flag 2) ∷ (0x36, set_flag 1) ∷ (0x38, set_flag 8) ∷ (0x1d, set_flag 4) ∷ []) flags

get-update_shift_flags :
    (e : ByteBdaEntry) (s : ℕ) (m : Memory)
    → get e (update_shift_flags e s m) ≡ flags_behind s (get e m)
unfolding update_shift_flags
get-update_shift_flags e s m = ground (
  arith,
  get-set e (with_flag 2 (not (is_released s)) (get e m)) m,
  get-set e (with_flag 1 (not (is_released s)) (get e m)) m,
  get-set e (with_flag 8 (not (is_released s)) (get e m)) m,
  get-set e (with_flag 4 (not (is_released s)) (get e m)) m,
)

abbrev turned_flags : ℕ → Bool → ℕ → ℕ
turned_flags x t f =
    select x
      ((0x2a, with_flag 2 t f)
        ∷ (0x36, with_flag 1 t f)
        ∷ (0x38, with_flag 8 t f)
        ∷ (0x1d, with_flag 4 t f)
        ∷ [])
      f

-- One bit of the flags, behind a scancode of the key `x` that goes down or comes up.
bit_behind :
    (j x f : ℕ) (t : Bool)
    → j < 4
    → bit_at j (turned_flags x t f) ≡ (
        if x == 0x2a
        then (if 1 == j then t else bit_at j f)
        else if x == 0x36
        then (if 0 == j then t else bit_at j f)
        else if x == 0x38
        then (if 3 == j then t else bit_at j f)
        else if x == 0x1d
        then (if 2 == j then t else bit_at j f)
        else bit_at j f)
bit_behind j x f t h =
    let k : j < 8 = omega (arith, h) in
    elim (Bool-cases (x == 0x2a)) [
      | inl e ↦ rw e (with_flag-bit j 1 t f k)
      | inr e ↦ rw e (elim (Bool-cases (x == 0x36)) [
        | inl e₂ ↦ rw e₂ (with_flag-bit j 0 t f k)
        | inr e₂ ↦ rw e₂ (elim (Bool-cases (x == 0x38)) [
          | inl e₃ ↦ rw e₃ (with_flag-bit j 3 t f k)
          | inr e₃ ↦ rw e₃ (elim (Bool-cases (x == 0x1d)) [
            | inl e₄ ↦ rw e₄ (with_flag-bit j 2 t f k)
            | inr e₄ ↦ rw e₄ refl
          ])
        ])
      ])
    ]

first : (x f : ℕ) (t : Bool) → bit_at 0 (turned_flags x t f) ≡ (if x == 0x36 then t else bit_at 0 f)
first x f t = bit_behind 0 x f t (omega arith) ∙ ground arith

second :
    (x f : ℕ) (t : Bool) → bit_at 1 (turned_flags x t f) ≡ (if x == 0x2a then t else bit_at 1 f)
second x f t = bit_behind 1 x f t (omega arith) ∙ ground arith

third : (x f : ℕ) (t : Bool) → bit_at 2 (turned_flags x t f) ≡ (if x == 0x1d then t else bit_at 2 f)
third x f t = bit_behind 2 x f t (omega arith) ∙ ground arith

fourth :
    (x f : ℕ) (t : Bool) → bit_at 3 (turned_flags x t f) ≡ (if x == 0x38 then t else bit_at 3 f)
fourth x f t = bit_behind 3 x f t (omega arith) ∙ ground arith

modifiers_behind : (s f : ℕ) → IsU8 s → modifiers (flags_behind s f) ≡ turn s (modifiers f)
modifiers_behind s f h =
    let t = ltb s 128 in
    let x = s % 128 in
    rw (key_lem s, released_lem s h)
      (λ i. record {
        right_shift = first x f t i;
        left_shift = second x f t i;
        ctrl = third x f t i;
        alt = fourth x f t i;
      })

abbrev pub AllU8 : List ℕ → Type 0
AllU8 [] = Unit {0}
AllU8 (s ∷ ss) = IsU8 s × AllU8 ss

-- The keys that are down behind some scancodes.
abbrev pub turns : List ℕ → Modifiers → Modifiers
turns [] k = k
turns (s ∷ ss) k = turns ss (turn s k)

-- The keystrokes: one for each key that goes down, with its character under the modifiers then.
abbrev pub typed : List ℕ → Modifiers → List Keystroke
typed [] k = []
typed (s ∷ ss) k =
    let rest = typed ss (turn s k) in
    if ltb s 128
    then record {
      scancode = s;
      ascii = ascii_or_zero (scancode_to_ascii s (k.right_shift || k.left_shift));
    }
      ∷ rest
    else rest

-- What a run over a queue leaves.
abbrev pub IsPumped : List ℕ → Keyboard → Memory → Keyboard × Memory → Type 0
IsPumped queue k m (k₁, m₁) =
    (k₁.io_queue ≡ [])
    × (k₁.bios_queue ≡ k.bios_queue ++ typed queue (modifiers (get k.shift_flags m)))
    × (modifiers (get k.shift_flags m₁) ≡ turns queue (modifiers (get k.shift_flags m)))

turned :
    (e : ByteBdaEntry) (s : ℕ) (m : Memory)
    → IsU8 s
    → modifiers (get e (update_shift_flags e s m)) ≡ turn s (modifiers (get e m))
turned e s m h = ap modifiers (get-update_shift_flags e s m) ∙ modifiers_behind s (get e m) h

appended :
    (b t : Bool) (xs ys : List Keystroke) (x : Keystroke)
    → not b ≡ t
    → (if b then xs else xs ++ (x ∷ [])) ++ ys ≡ xs ++ (if t then x ∷ ys else ys)
appended true t xs ys x e = rw (sym e) refl
appended false t xs ys x e = rw (sym e) (append_assoc xs (x ∷ []) ys)

pump_all-IsPumped :
    (queue : List ℕ) (k : Keyboard) (m : Memory)
    → k.io_queue ≡ queue
    → AllU8 queue
    → IsPumped queue k m (pump_all queue k m)
unfolding pump_all pump_scancode
pump_all-IsPumped [] k m e h = (e, sym (append-nil k.bios_queue), refl)
pump_all-IsPumped (s ∷ ss) k m e h =
    let f = get k.shift_flags m in
    let same = turned k.shift_flags s m h.0 in
    let stroke : Keystroke = record {
      scancode = s;
      ascii = ascii_or_zero (scancode_to_ascii s (is_shift_pressed f));
    } in
    let rest =
      pump_all-IsPumped ss (pump_scancode s (record k { io_queue = ss }) m).0
        (update_shift_flags k.shift_flags s m) refl h.1 in
    (
      rest.0,
      rest.1
          ∙ ap
              (λ z.
                (if is_released s then k.bios_queue else k.bios_queue ++ (stroke ∷ []))
                ++ typed ss z)
              same
          ∙ appended (is_released s) (ltb s 128) k.bios_queue (typed ss (turn s (modifiers f)))
              stroke (released_lem s h.0)
          ∙ ap
              (λ b.
                k.bios_queue
                ++ (if ltb s 128
                    then record { scancode = s; ascii = ascii_or_zero (scancode_to_ascii s b) }
                      ∷ typed ss (turn s (modifiers f))
                    else typed ss (turn s (modifiers f))))
              (shift_lem f),
      rest.2 ∙ ap (turns ss) same,
    )

-- Where the waiting scancodes are bytes, all of them are consumed. Behind the waiting keystrokes
-- come, in order, one for each key that goes down, with its character under the shift keys that are
-- down then, and the shift flags tell the modifier keys that are down at the end.
pub bios_pump_keystrokes-IsPumped :
    (k : Keyboard) (m : Memory)
    → AllU8 k.io_queue
    → IsPumped k.io_queue k m (bios_pump_keystrokes k m)
unfolding bios_pump_keystrokes
bios_pump_keystrokes-IsPumped k m h = pump_all-IsPumped k.io_queue k m refl h
