-- ===== src/Hw/Keyboard/Events.antt =====
-- Keys that are pressed and released, and the keystrokes that the BIOS makes of the waiting
-- scancodes (`on_keydown`, `on_keyup` and `bios_pump_keystrokes` of src/hw/keyboard.rs).
pub mod Pump
use riapyx.Common.{
  ℕ, bit_and, bit_or, bit_xor, ◌!=◌, not, if◌then◌else◌, Bool, Option, none, some, List, [], ◌∷◌,
  ◌++◌, select,
}
use riapyx.Cpu.State.{Cpu}
use riapyx.Cpu.Exec.Stack.{queue_hw_interrupt}
use riapyx.Mem.{Memory}
use riapyx.Hw.Bda.{ByteBdaEntry, get, set}
use riapyx.Hw.Scancodes.{Scancode, sdlk_to_scancode, scancode_to_ascii}
use riapyx.Hw.Keyboard.{Keystroke, Keyboard}

abbrev pub rshift_flag : ℕ
rshift_flag = 0x1

abbrev pub rshift_scancode : ℕ
rshift_scancode = 0x36

abbrev pub lshift_flag : ℕ
lshift_flag = 0x2

abbrev pub lshift_scancode : ℕ
lshift_scancode = 0x2a

abbrev pub ctrl_flag : ℕ
ctrl_flag = 0x4

abbrev pub ctrl_scancode : ℕ
ctrl_scancode = 0x1d

abbrev pub alt_flag : ℕ
alt_flag = 0x8

abbrev pub alt_scancode : ℕ
alt_scancode = 0x38

-- `self.io_queue.push_back(scancode)` and interrupt 9.
abbrev pub push_scancode : ℕ → Keyboard → Cpu → Keyboard × Cpu
push_scancode scancode k c =
    (record k { io_queue = k.io_queue ++ (scancode ∷ []) }, queue_hw_interrupt 0x9 c)

abbrev pub pressed : Option ℕ → Keyboard → Cpu → Keyboard × Cpu
pressed none k c = (k, c)
pressed (some scancode) k c = push_scancode scancode k c

abbrev pub released : Option ℕ → Keyboard → Cpu → Keyboard × Cpu
released none k c = (k, c)
released (some scancode) k c = push_scancode (bit_or scancode 0x80) k c

-- The key is `None` where the crate knows none.
unfoldable pub on_keydown : Option Scancode → Keyboard → Cpu → Keyboard × Cpu
on_keydown none k c = (k, c)
on_keydown (some sdlk) k c = pressed (sdlk_to_scancode sdlk) k c

unfoldable pub on_keyup : Option Scancode → Keyboard → Cpu → Keyboard × Cpu
on_keyup none k c = (k, c)
on_keyup (some sdlk) k c = released (sdlk_to_scancode sdlk) k c

abbrev pub is_released : ℕ → Bool
is_released scancode = bit_and scancode 0x80 != 0

abbrev pub is_shift_pressed : ℕ → Bool
is_shift_pressed shift_flags = bit_and shift_flags (bit_or rshift_flag lshift_flag) != 0

abbrev pub with_flag : ℕ → Bool → ℕ → ℕ
with_flag flag is_set shift_flags =
    if is_set then bit_or shift_flags flag else bit_and shift_flags (bit_xor flag 0xff)

-- "Shift flags handling"
unfoldable pub update_shift_flags : ByteBdaEntry → ℕ → Memory → Memory
update_shift_flags e scancode mem =
    let set_flag =
      λ (flag : ℕ). set e (with_flag flag (not (is_released scancode)) (get e mem)) mem in
    select (bit_and scancode 0x7f)
      ((lshift_scancode, set_flag lshift_flag)
        ∷ (rshift_scancode, set_flag rshift_flag)
        ∷ (alt_scancode, set_flag alt_flag)
        ∷ (ctrl_scancode, set_flag ctrl_flag)
        ∷ [])
      mem

abbrev pub ascii_or_zero : Option ℕ → ℕ
ascii_or_zero none = 0
ascii_or_zero (some ascii) = ascii

-- One turn of the loop. The shift keys that choose the character are those before this scancode.
unfoldable pub pump_scancode : ℕ → Keyboard → Memory → Keyboard × Memory
pump_scancode scancode k mem =
    let shifted = is_shift_pressed (get k.shift_flags mem) in
    let stroke : Keystroke = record {
      scancode = scancode;
      ascii = ascii_or_zero (scancode_to_ascii scancode shifted);
    } in
    let queue = if is_released scancode then k.bios_queue else k.bios_queue ++ (stroke ∷ []) in
    (record k { bios_queue = queue }, update_shift_flags k.shift_flags scancode mem)

unfoldable pub pump_all : List ℕ → Keyboard → Memory → Keyboard × Memory
pump_all [] k mem = (k, mem)
pump_all (scancode ∷ rest) k mem =
    let (k₁, mem₁) = pump_scancode scancode (record k { io_queue = rest }) mem in
    pump_all rest k₁ mem₁

unfoldable pub bios_pump_keystrokes : Keyboard → Memory → Keyboard × Memory
unfolding pump_all
bios_pump_keystrokes k mem = pump_all k.io_queue k mem
