-- ===== src/Console.antt =====
-- The debugger's console (src/main.rs): the commands and how a line is read. The standard library
-- splits a line into its words; a word is its bytes.
pub mod Breakpoints
pub mod Run
pub mod Reading
pub mod Stops
pub mod Halted
use Prim.Native.Char.{code}
use Prim.Native.String.{String}
use riapyx.Common.{
  ℕ, ◌+◌, ◌-◌, ◌*◌, ◌==◌, ◌&&◌, ◌||◌, leb, if◌then◌else◌, u16, u32, Bool, true, false, Option, none,
  some, List, [], ◌∷◌, Result, ok, panic, ◌>>=◌,
}

abbrev pub Word : Type 0
Word = List ℕ

-- The bytes of a text of ASCII characters.
abbrev pub codes : String → Word
codes String.[] = []
codes (String.◌∷◌ c s) = code c ∷ codes s

infix 50 ◌is◌
abbrev pub ◌is◌ : Word → Word → Bool
[] is [] = true
[] is (c ∷ w) = false
(c ∷ v) is [] = false
(c ∷ v) is (d ∷ w) = c == d && v is w

unfoldable pub hex_digit : ℕ → Result ℕ
hex_digit c =
    if leb b'0' c && leb c b'9'
    then ok (c - b'0')
    else if leb b'a' c && leb c b'f'
    then ok (c - b'a' + 0xa)
    else panic

-- The loop over the bytes, with `res`.
unfoldable pub hex_from : ℕ → Word → Result ℕ
unfolding hex_digit
hex_from res [] = ok res
hex_from res (c ∷ s) = do to_add ← hex_digit c; hex_from (u32 (u32 (res * 0x10) + to_add)) s

unfoldable pub u32_from_hex_str : Word → Result ℕ
unfolding hex_from
u32_from_hex_str s = hex_from 0 s

pub data Command : Type 0 where
  quit step : Command
  dump disassemble insert_breakpoint : ℕ → ℕ → Command
  continue_ : Bool → Command
  write_memory change_floppy : Word → Command

-- The commands that take a segment and an address; without them, usage is printed.
unfoldable pub with_address : (ℕ → ℕ → Command) → List Word → Result (Option Command)
unfolding u32_from_hex_str
with_address make (seg_str ∷ addr_str ∷ rest) = do
  seg ← u32_from_hex_str seg_str
  addr ← u32_from_hex_str addr_str
  ok (some (make (u16 seg) (u16 addr)))
with_address make (seg_str ∷ []) = ok none
with_address make [] = ok none

abbrev with_name : (Word → Command) → List Word → Result (Option Command)
with_name make (fname ∷ rest) = ok (some (make fname))
with_name make [] = ok none

-- The command of a line. `none` is a line that is refused with a message, and another is read.
unfoldable pub parse_command : List Word → Result (Option Command)
unfolding with_address
parse_command [] = ok (some step)
parse_command (word0 ∷ args) =
    if word0 is codes "q"
    then ok (some quit)
    else if word0 is codes "b"
    then with_address insert_breakpoint args
    else if word0 is codes "d"
    then with_address dump args
    else if word0 is codes "u"
    then with_address disassemble args
    else if word0 is codes "c"
    then ok (some (continue_ false))
    else if word0 is codes "t"
    then ok (some (continue_ true))
    else if word0 is codes "w"
    then with_name write_memory args
    else if word0 is codes "change-floppy"
    then with_name change_floppy args
    else ok none
