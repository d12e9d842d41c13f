-- ===== src/Hw/Mouse/Motion/Sum.antt =====
-- The parts of a motion add up to it.
use riapyx.Common.{
  ℕ, zero, suc, ◌+◌, ◌*◌, ◌/◌, ◌%◌, ◌≤◌, ◌<◌, ◌≡◌, refl, sym, ap, ◌∙◌, arith, true, false, ◌&&◌,
  Bool-cases, inl, inr, IsU8, List, [], ◌∷◌, ◌++◌, Result, ok, panic, Returns,
}
use mathlib.Core.List.{append-nil, append_assoc}
use riapyx.Common.Int.{
  ℤ, pos, negsuc, signed, pattern_of, is_zero, div_overflows, quot, abs, ◌-ℤ◌, ◌+ℤ◌,
}
use riapyx.Hw.Mouse.{Event, Mouse, push_event, encode_event}
use riapyx.Hw.Mouse.Events.{encode_event_lem}
use riapyx.Hw.Mouse.Motion.{clamp, push_motion, on_motion, checked_quot}

-- The motions that an event holds, and their sums.
abbrev pub dx_of : Event → ℤ
dx_of e = signed 8 (e.first_byte % 4 * 64 + e.second_byte)

abbrev pub dy_of : Event → ℤ
dy_of e = signed 8 (e.first_byte / 4 % 4 * 64 + e.third_byte)

abbrev pub sum : (Event → ℤ) → List Event → ℤ
sum f [] = pos 0
sum f (e ∷ es) = f e +ℤ sum f es

-- A motion of eight bits survives its pattern.
clamp_fits : (x : ℤ) → signed 8 (pattern_of 8 (clamp x)) ≡ clamp x
unfolding clamp
clamp_fits (pos n) = ground arith
clamp_fits (negsuc n) = ground arith

pattern-IsU8 : (x : ℤ) → IsU8 (pattern_of 8 x)
pattern-IsU8 (pos n) = omega arith
pattern-IsU8 (negsuc n) = omega arith

add_rest : (x : ℤ) → clamp x +ℤ (x -ℤ clamp x) ≡ x
unfolding clamp
add_rest (pos n) = ground arith
add_rest (negsuc n) = ground arith

less_left : (x : ℤ) → abs (x -ℤ clamp x) ≤ abs x
unfolding clamp
less_left (pos n) = ground arith
less_left (negsuc n) = ground arith

closer : (x : ℤ) → is_zero x ≡ false → abs (x -ℤ clamp x) < abs x
unfolding clamp
closer (pos n) h = ground (arith, h)
closer (negsuc n) h = ground arith

zero_of : (x : ℤ) → is_zero x ≡ true → pos 0 ≡ x
zero_of (pos n) h = ap pos (ground (arith, h))
zero_of (negsuc n) h = ground (arith, h)

-- `after` has the events of `before` and, behind them, some that add up to `x` and `y`.
abbrev pub IsMoved : Mouse → ℤ → ℤ → Mouse → Type 0
IsMoved before x y after =
    (es : List Event) × (after.events ≡ before.events ++ es)
    × (sum dx_of es ≡ x)
    × (sum dy_of es ≡ y)

rest-IsMoved :
    (m : Mouse) (x y : ℤ) (r : Result Mouse)
    → Returns
        (IsMoved
          (push_event (pattern_of 8 (clamp x)) (pattern_of 8 (clamp y)) m)
          (x -ℤ clamp x)
          (y -ℤ clamp y))
        r
    → Returns (IsMoved m x y) r
unfolding push_event
rest-IsMoved m x y (ok after) (es, a, p, q) =
    let e =
      encode_event m.left_button_pressed m.right_button_pressed (pattern_of 8 (clamp x))
        (pattern_of 8 (clamp y)) in
    let c =
      encode_event_lem m.left_button_pressed m.right_button_pressed (pattern_of 8 (clamp x))
        (pattern_of 8 (clamp y)) (pattern-IsU8 (clamp x)) (pattern-IsU8 (clamp y)) in
    (
      e ∷ es,
      a ∙ append_assoc m.events (e ∷ []) es,
      ap (λ z. signed 8 z +ℤ sum dx_of es) c.0
          ∙ ap (λ z. z +ℤ sum dx_of es) (clamp_fits x)
          ∙ ap (λ z. clamp x +ℤ z) p
          ∙ add_rest x,
      ap (λ z. signed 8 z +ℤ sum dy_of es) c.1
          ∙ ap (λ z. z +ℤ sum dy_of es) (clamp_fits y)
          ∙ ap (λ z. clamp y +ℤ z) q
          ∙ add_rest y,
    )
rest-IsMoved m x y panic h = h

at_rest : (m : Mouse) (x y : ℤ) → (is_zero x && is_zero y) ≡ true → IsMoved m x y m
at_rest m x y h =
    ([], sym (append-nil m.events), zero_of x (ground (arith, h)), zero_of y (ground (arith, h)))

fuel_left :
    (n : ℕ) (x y : ℤ)
    → abs x + abs y ≤ suc n
    → (is_zero x && is_zero y) ≡ false
    → abs (x -ℤ clamp x) + abs (y -ℤ clamp y) ≤ n
fuel_left n x y h k = elim (Bool-cases (is_zero x)) [
  | inl e ↦ omega (arith, less_left x, closer y (ground (arith, e, k)), h)
  | inr e ↦ omega (arith, less_left y, closer x e, h)
]

no_fuel : (x y : ℤ) → abs x + abs y ≤ 0 → (is_zero x && is_zero y) ≡ true
no_fuel (pos a) (pos b) h = ground (arith, h)
no_fuel (pos a) (negsuc b) h = ground (arith, h)
no_fuel (negsuc a) y h = ground (arith, h)

push_motion-IsMoved :
    (n : ℕ) (x y : ℤ) (m : Mouse)
    → abs x + abs y ≤ n
    → Returns (IsMoved m x y) (push_motion n x y m)
unfolding push_motion
push_motion-IsMoved zero x y m h = rw (no_fuel x y h) (at_rest m x y (no_fuel x y h))
push_motion-IsMoved (suc n) x y m h = elim (Bool-cases (is_zero x && is_zero y)) [
  | inl e ↦ rw e (at_rest m x y e)
  | inr e ↦ rw e (rest-IsMoved m x y _ (push_motion-IsMoved n _ _ _ (fuel_left n x y h e)))
]

quot_ok :
    (a b : ℤ) → is_zero b ≡ false → div_overflows 32 a b ≡ false → checked_quot a b ≡ ok (quot a b)
unfolding checked_quot
quot_ok a b p q = rw (p, q) refl

-- Where the divisor is not zero and neither division overflows, a motion is sent: the loop ends, the
-- waiting events stay, and the parts in the events behind them add up to the two quotients.
pub on_motion-IsMoved :
    (dx dy : ℤ) (m : Mouse)
    → is_zero m.speed_divisor ≡ false
    → div_overflows 32 dx m.speed_divisor ≡ false
    → div_overflows 32 dy m.speed_divisor ≡ false
    → Returns (IsMoved m (quot dx m.speed_divisor) (quot dy m.speed_divisor)) (on_motion dx dy m)
unfolding on_motion
on_motion-IsMoved dx dy m p q r =
    let x = quot dx m.speed_divisor in
    let y = quot dy m.speed_divisor in
    rw (quot_ok dx m.speed_divisor p q, quot_ok dy m.speed_divisor p r)
      (push_motion-IsMoved (abs x + abs y) x y m (omega arith))
