-- ===== src/Hw/Keyboard.antt =====
-- The keyboard (src/hw/keyboard.rs): scancodes wait in the I/O queue until the BIOS makes keystrokes
-- of them, or until the guest enables the keyboard through bit 7 of port 0x61.
pub mod Events
use riapyx.Common.{
  ℕ, ◌+◌, bit_and, ◌==◌, ◌!=◌, ◌&&◌, if◌then◌else◌, Bool, true, Option, none, some, List, [], ◌∷◌,
  Result, ok, panic,
}
use riapyx.Mem.{Memory}
use riapyx.Hw.Bda.{ByteBdaEntry, get}

pub record Keystroke : Type 0 where
  pub scancode : ℕ
  pub ascii : ℕ

pub record Keyboard : Type 0 where
  pub bios_queue : List Keystroke
  pub io_queue : List ℕ
  pub ppi_a : ℕ
  pub enable_irq : Bool
  pub shift_flags : ByteBdaEntry

unfoldable pub new : Keyboard
new = record {
  bios_queue = [];
  io_queue = [];
  ppi_a = 0;
  enable_irq = true;
  shift_flags = record { idx = 0x17 };
}

abbrev front {ℓ} : {A : Type ℓ} → List A → Option A
front [] = none
front (x ∷ xs) = some x

abbrev pop_bios : List Keystroke → Keyboard → Option Keystroke × Keyboard
pop_bios [] k = (none, k)
pop_bios (x ∷ xs) k = (some x, record k { bios_queue = xs })

unfoldable pub try_pop_keystroke : Keyboard → Option Keystroke × Keyboard
try_pop_keystroke k = pop_bios k.bios_queue k

unfoldable pub check_keystroke : Keyboard → Option Keystroke
check_keystroke k = front k.bios_queue

unfoldable pub io_get_scancode : Keyboard → Option ℕ
io_get_scancode k = front k.io_queue

-- The entry is dropped behind an assertion that there is one.
abbrev drop_front : List ℕ → Keyboard → Result Keyboard
drop_front [] k = panic
drop_front (x ∷ xs) k = ok (record k { io_queue = xs })

unfoldable pub set_ppi_a : ℕ → Keyboard → Result Keyboard
set_ppi_a val k =
    let k₁ = record k { ppi_a = val } in
    if bit_and k.ppi_a 0x80 != 0 && bit_and val 0x80 == 0 then drop_front k.io_queue k₁ else ok k₁

unfoldable pub get_ppi_a : Keyboard → ℕ
get_ppi_a k = k.ppi_a

unfoldable pub set_irq : Bool → Keyboard → Keyboard
set_irq enabled k = record k { enable_irq = enabled }

unfoldable pub get_shift_flags : Keyboard → Memory → ℕ
unfolding get
get_shift_flags k mem = get k.shift_flags mem
