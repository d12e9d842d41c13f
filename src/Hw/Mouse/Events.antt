-- ===== src/Hw/Mouse/Events.antt =====
-- What the guest reads of the mouse's events.
use riapyx.Common.{
  ℕ, zero, suc, ◌+◌, ◌*◌, ◌/◌, ◌%◌, ◌^◌, ◌≡◌, refl, ap, ◌∙◌, arith, bit_or, shl8, shr8, ◌==◌, Bool,
  true, false, IsU8, Option, some, List, [], ◌∷◌, Result, ok, panic, ◌>>=◌, Returns,
}
use riapyx.Common.Int.{ℤ}
use riapyx.Common.Bits.{bit_and-mask, bit_or_fields}
use riapyx.Hw.Mouse.{Event, Mouse, read, encode_event}

-- `n` reads, one after the other.
abbrev pub reads : ℕ → Mouse → Result (List (Option ℕ) × Mouse)
reads zero m = ok ([], m)
reads (suc n) m = read m >>= λ (v, m₁). reads n m₁ >>= λ (vs, m₂). ok (v ∷ vs, m₂)

abbrev pub byte_count : List Event → ℕ
byte_count [] = zero
byte_count (e ∷ es) = suc (suc (suc (byte_count es)))

abbrev pub event_bytes : List Event → List (Option ℕ)
event_bytes [] = []
event_bytes (e ∷ es) = some e.first_byte ∷ some e.second_byte ∷ some e.third_byte ∷ event_bytes es

-- A mouse that the guest has reset and greeted, `count` bytes into its first event.
abbrev ready : ℕ → List Event → Bool → Bool → ℤ → Mouse
ready count es l r d = record {
  hw_init = true;
  initialized = true;
  current_event_byte_count = count;
  events = es;
  left_button_pressed = l;
  right_button_pressed = r;
  speed_divisor = d;
}

abbrev IsRead : List Event → List (Option ℕ) × Mouse → Type 0
IsRead es (vs, _) = vs ≡ event_bytes es

three_more :
    (e : Event) (es : List Event) (m : Result (List (Option ℕ) × Mouse))
    → Returns (IsRead es) m
    → Returns (IsRead (e ∷ es)) (
        ((m >>= λ (vs, m₁). ok (some e.third_byte ∷ vs, m₁)) >>= λ (vs, m₁).
        ok (some e.second_byte ∷ vs, m₁))
        >>= λ (vs, m₁). ok (some e.first_byte ∷ vs, m₁))
three_more e es (ok (vs, m₁)) h =
    ap (λ xs. some e.first_byte ∷ some e.second_byte ∷ some e.third_byte ∷ xs) h
three_more e es panic h = h

behind_event :
    (old : Event) (es : List Event) (l r : Bool) (d : ℤ)
    → Returns (IsRead es) (reads (byte_count es) (ready 3 (old ∷ es) l r d))
unfolding read
behind_event old [] l r d = refl
behind_event old (e ∷ es) l r d = three_more e es _ (behind_event e es l r d)

at_event :
    (es : List Event) (l r : Bool) (d : ℤ)
    → Returns (IsRead es) (reads (byte_count es) (ready 0 es l r d))
unfolding read
at_event [] l r d = refl
at_event (e ∷ es) l r d = three_more e es _ (behind_event e es l r d)

is_ready :
    (m : Mouse)
    → m.hw_init ≡ true
    → m.initialized ≡ true
    → m.current_event_byte_count ≡ 0
    → m ≡ ready 0 m.events m.left_button_pressed m.right_button_pressed m.speed_divisor
is_ready m p q h =
    λ i. record m { hw_init = p i; initialized = q i; current_event_byte_count = h i }

-- Reading as often as the queued events have bytes returns these bytes in order, with none missing
-- or repeated, if the mouse is initialized and no event is half read.
pub reads-event_bytes :
    (m : Mouse)
    → m.hw_init ≡ true
    → m.initialized ≡ true
    → m.current_event_byte_count ≡ 0
    → Returns (λ t. t.0 ≡ event_bytes m.events) (reads (byte_count m.events) m)
reads-event_bytes m p q h =
    let l = m.left_button_pressed in
    let r = m.right_button_pressed in rw (is_ready m p q h) (at_event m.events l r m.speed_divisor)

motion_bits : (dy : ℕ) → IsU8 dy → shl8 (shr8 dy 6) 2 ≡ dy / 64 * 4
motion_bits dy h = omega arith

shifted : (c n : ℕ) → c * 2 ^ 4 + n * 4 ≡ (c * 4 + n) * 2 ^ 2
shifted c n = omega arith

first_byte_lem :
    (c dx dy : ℕ)
    → IsU8 dx
    → IsU8 dy
    → bit_or (bit_or (c * 2 ^ 4) (shl8 (shr8 dy 6) 2)) (shr8 dx 6)
      ≡ (c * 4 + dy / 64) * 2 ^ 2 + dx / 64
first_byte_lem c dx dy p q =
    ap (λ z. bit_or (bit_or (c * 2 ^ 4) z) (shr8 dx 6)) (motion_bits dy q)
    ∙ ap (λ z. bit_or z (shr8 dx 6)) (bit_or_fields 4 c (dy / 64 * 4) (omega arith))
    ∙ ap (λ z. bit_or z (shr8 dx 6)) (shifted c (dy / 64))
    ∙ bit_or_fields 2 (c * 4 + dy / 64) (shr8 dx 6) (omega arith)

-- The bytes of an event hold the buttons and the two motions, of a byte each.
pub encode_event_lem :
    (left right : Bool) (dx dy : ℕ)
    → IsU8 dx
    → IsU8 dy
    → let e = encode_event left right dx dy in
      (e.first_byte % 4 * 64 + e.second_byte ≡ dx)
      × (e.first_byte / 4 % 4 * 64 + e.third_byte ≡ dy)
      × ((e.first_byte / 32 % 2 == 1) ≡ left)
      × ((e.first_byte / 16 % 2 == 1) ≡ right)
      × (e.first_byte / 64 ≡ 1)
unfolding encode_event
encode_event_lem true true dx dy p q =
    ground (arith, first_byte_lem 7 dx dy p q, bit_and-mask 6 dx, bit_and-mask 6 dy)
encode_event_lem true false dx dy p q =
    ground (arith, first_byte_lem 6 dx dy p q, bit_and-mask 6 dx, bit_and-mask 6 dy)
encode_event_lem false true dx dy p q =
    ground (arith, first_byte_lem 5 dx dy p q, bit_and-mask 6 dx, bit_and-mask 6 dy)
encode_event_lem false false dx dy p q =
    ground (arith, first_byte_lem 4 dx dy p q, bit_and-mask 6 dx, bit_and-mask 6 dy)
