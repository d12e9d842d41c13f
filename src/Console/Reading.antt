-- ===== src/Console/Reading.antt =====
-- Each command of the debugger as a line. The command `f` that Readme.md lists is none of them.
use riapyx.Common.{
  ℕ, ◌+◌, ◌-◌, ◌/◌, ◌%◌, ◌<◌, ◌≡◌, refl, ap, arith, ltb, if◌then◌else◌, u16, true, false, some,
  List, [], ◌∷◌, ok,
}
use riapyx.Console.{
  Word, Command, codes, hex_digit, hex_from, u32_from_hex_str, with_address, parse_command,
}

-- The character of a digit, in lower case.
abbrev pub hex_char : ℕ → ℕ
hex_char d = if ltb d 10 then b'0' + d else b'a' + d - 10

-- The four digits that the debugger prints of a segment or an address.
abbrev pub hex_word : ℕ → Word
hex_word n =
    hex_char (n / 4096) ∷ hex_char (n / 256 % 16) ∷ hex_char (n / 16 % 16) ∷ hex_char (n % 16) ∷ []

-- The words of a command.
pub words_of : Command → List Word
words_of Command.quit = codes "q" ∷ []
words_of Command.step = []
words_of (Command.dump seg addr) = codes "d" ∷ hex_word seg ∷ hex_word addr ∷ []
words_of (Command.disassemble seg addr) = codes "u" ∷ hex_word seg ∷ hex_word addr ∷ []
words_of (Command.insert_breakpoint seg addr) = codes "b" ∷ hex_word seg ∷ hex_word addr ∷ []
words_of (Command.continue_ true) = codes "t" ∷ []
words_of (Command.continue_ false) = codes "c" ∷ []
words_of (Command.write_memory filename) = codes "w" ∷ filename ∷ []
words_of (Command.change_floppy filename) = codes "change-floppy" ∷ filename ∷ []

-- What the types of a segment and an address guarantee.
abbrev pub Fits : Command → Type 0
Fits (Command.dump seg addr) = (seg < 65536) × (addr < 65536)
Fits (Command.disassemble seg addr) = (seg < 65536) × (addr < 65536)
Fits (Command.insert_breakpoint seg addr) = (seg < 65536) × (addr < 65536)
Fits _ = Unit

hex_digit-hex_char : (d : ℕ) → d < 16 → hex_digit (hex_char d) ≡ ok d
unfolding hex_digit
hex_digit-hex_char d h = ground arith

u32_from_hex_str-hex_word : (n : ℕ) → n < 65536 → u32_from_hex_str (hex_word n) ≡ ok n
unfolding u32_from_hex_str hex_from
u32_from_hex_str-hex_word n h =
    rw
      (
        hex_digit-hex_char (n / 4096) (omega arith),
        hex_digit-hex_char (n / 256 % 16) (omega arith),
        hex_digit-hex_char (n / 16 % 16) (omega arith),
        hex_digit-hex_char (n % 16) (omega arith),
      )
      (ap ok (omega (arith, h)))

small : (n : ℕ) → n < 65536 → u16 n ≡ n
small n h = omega (arith, h)

with_address-hex_word :
    (make : ℕ → ℕ → Command) (seg addr : ℕ)
    → seg < 65536
    → addr < 65536
    → with_address make (hex_word seg ∷ hex_word addr ∷ []) ≡ ok (some (make seg addr))
unfolding with_address
with_address-hex_word make seg addr p q =
    rw (u32_from_hex_str-hex_word seg p, u32_from_hex_str-hex_word addr q)
      (ap (λ n. ok (some n)) (rw (small seg p, small addr q) refl))

-- Each command of the data type `Command` whose segment and address fit their types is read from
-- its line, a segment and an address as the four hexadecimal digits that the debugger prints.
pub parse_command-words_of : (c : Command) → Fits c → parse_command (words_of c) ≡ ok (some c)
unfolding parse_command words_of
parse_command-words_of Command.quit h = refl
parse_command-words_of Command.step h = refl
parse_command-words_of (Command.dump seg addr) (p, q) =
    with_address-hex_word Command.dump seg addr p q
parse_command-words_of (Command.disassemble seg addr) (p, q) =
    with_address-hex_word Command.disassemble seg addr p q
parse_command-words_of (Command.insert_breakpoint seg addr) (p, q) =
    with_address-hex_word Command.insert_breakpoint seg addr p q
parse_command-words_of (Command.continue_ true) h = refl
parse_command-words_of (Command.continue_ false) h = refl
parse_command-words_of (Command.write_memory filename) h = refl
parse_command-words_of (Command.change_floppy filename) h = refl
