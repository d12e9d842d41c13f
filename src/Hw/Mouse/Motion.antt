-- ===== src/Hw/Mouse/Motion.antt =====
-- A motion is sent in parts that fit a byte each (`on_motion` of src/hw/mouse.rs).
pub mod Sum
use riapyx.Common.{ℕ, zero, suc, ◌+◌, ◌&&◌, ◌||◌, if◌then◌else◌, Result, ok, panic, ◌>>=◌}
use riapyx.Common.Int.{ℤ, pos, negsuc, ltb_ℤ, quot, div_overflows, is_zero, abs, ◌-ℤ◌, pattern_of}
use riapyx.Hw.Mouse.{Mouse, push_event}

unfoldable pub clamp : ℤ → ℤ
clamp x = if ltb_ℤ x (negsuc 127) then negsuc 127 else if ltb_ℤ (pos 127) x then pos 127 else x

-- `dx / self.speed_divisor` on `i32`, which panics on a zero divisor and on `MIN / -1`.
unfoldable pub checked_quot : ℤ → ℤ → Result ℤ
checked_quot a b = if is_zero b || div_overflows 32 a b then panic else ok (quot a b)

-- The loop; where the fuel is spent, it panics.
unfoldable pub push_motion : ℕ → ℤ → ℤ → Mouse → Result Mouse
unfolding clamp push_event
push_motion zero dx_remain dy_remain m =
    if is_zero dx_remain && is_zero dy_remain then ok m else panic
push_motion (suc fuel) dx_remain dy_remain m =
    let dx_cur = clamp dx_remain in
    let dy_cur = clamp dy_remain in
    let rest =
      push_motion fuel (dx_remain -ℤ dx_cur) (dy_remain -ℤ dy_cur)
        (push_event (pattern_of 8 dx_cur) (pattern_of 8 dy_cur) m) in
    if is_zero dx_remain && is_zero dy_remain then ok m else rest

-- A turn of the loop brings one of the two remainders closer to zero, so this many turns are enough.
unfoldable pub on_motion : ℤ → ℤ → Mouse → Result Mouse
unfolding push_motion checked_quot
on_motion dx dy m = do
  dx_remain ← checked_quot dx m.speed_divisor
  dy_remain ← checked_quot dy m.speed_divisor
  push_motion (abs dx_remain + abs dy_remain) dx_remain dy_remain m
