-- ===== src/Hw/Scancodes.antt =====
-- The tables of src/hw/scancodes.rs: the scancode of a key, and the character of a scancode.
use riapyx.Common.{ℕ, Bool, if◌then◌else◌, Option, none, some, List, [], ◌∷◌, select}

-- The keys of the crate sdl2 that the table names; `other` is any other key.
pub data Scancode : Type 0 where
  escape num1 num2 num3 num4 num5 num6 num7 num8 num9 : Scancode
  num0 minus equals backspace tab q w e r t : Scancode
  y u i o p left_bracket right_bracket return left_ctrl a : Scancode
  s d f g h j k l semicolon apostrophe : Scancode
  grave left_shift backslash z x c v b n m : Scancode
  comma period slash right_shift left_alt space caps_lock f1 f2 f3 : Scancode
  f4 f5 f6 f7 f8 f9 f10 scroll_lock home up : Scancode
  page_up left right end down page_down insert delete other : Scancode

unfoldable pub sdlk_to_scancode : Scancode → Option ℕ
sdlk_to_scancode Scancode.escape = some 0x01
sdlk_to_scancode Scancode.num1 = some 0x02
sdlk_to_scancode Scancode.num2 = some 0x03
sdlk_to_scancode Scancode.num3 = some 0x04
sdlk_to_scancode Scancode.num4 = some 0x05
sdlk_to_scancode Scancode.num5 = some 0x06
sdlk_to_scancode Scancode.num6 = some 0x07
sdlk_to_scancode Scancode.num7 = some 0x08
sdlk_to_scancode Scancode.num8 = some 0x09
sdlk_to_scancode Scancode.num9 = some 0x0a
sdlk_to_scancode Scancode.num0 = some 0x0b
sdlk_to_scancode Scancode.minus = some 0x0c
sdlk_to_scancode Scancode.equals = some 0x0d
sdlk_to_scancode Scancode.backspace = some 0x0e
sdlk_to_scancode Scancode.tab = some 0x0f
sdlk_to_scancode Scancode.q = some 0x10
sdlk_to_scancode Scancode.w = some 0x11
sdlk_to_scancode Scancode.e = some 0x12
sdlk_to_scancode Scancode.r = some 0x13
sdlk_to_scancode Scancode.t = some 0x14
sdlk_to_scancode Scancode.y = some 0x15
sdlk_to_scancode Scancode.u = some 0x16
sdlk_to_scancode Scancode.i = some 0x17
sdlk_to_scancode Scancode.o = some 0x18
sdlk_to_scancode Scancode.p = some 0x19
sdlk_to_scancode Scancode.left_bracket = some 0x1a
sdlk_to_scancode Scancode.right_bracket = some 0x1b
sdlk_to_scancode Scancode.return = some 0x1c
sdlk_to_scancode Scancode.left_ctrl = some 0x1d
sdlk_to_scancode Scancode.a = some 0x1e
sdlk_to_scancode Scancode.s = some 0x1f
sdlk_to_scancode Scancode.d = some 0x20
sdlk_to_scancode Scancode.f = some 0x21
sdlk_to_scancode Scancode.g = some 0x22
sdlk_to_scancode Scancode.h = some 0x23
sdlk_to_scancode Scancode.j = some 0x24
sdlk_to_scancode Scancode.k = some 0x25
sdlk_to_scancode Scancode.l = some 0x26
sdlk_to_scancode Scancode.semicolon = some 0x27
sdlk_to_scancode Scancode.apostrophe = some 0x28
sdlk_to_scancode Scancode.grave = some 0x29
sdlk_to_scancode Scancode.left_shift = some 0x2a
sdlk_to_scancode Scancode.backslash = some 0x2b
sdlk_to_scancode Scancode.z = some 0x2c
sdlk_to_scancode Scancode.x = some 0x2d
sdlk_to_scancode Scancode.c = some 0x2e
sdlk_to_scancode Scancode.v = some 0x2f
sdlk_to_scancode Scancode.b = some 0x30
sdlk_to_scancode Scancode.n = some 0x31
sdlk_to_scancode Scancode.m = some 0x32
sdlk_to_scancode Scancode.comma = some 0x33
sdlk_to_scancode Scancode.period = some 0x34
sdlk_to_scancode Scancode.slash = some 0x35
sdlk_to_scancode Scancode.right_shift = some 0x36
sdlk_to_scancode Scancode.left_alt = some 0x38
sdlk_to_scancode Scancode.space = some 0x39
sdlk_to_scancode Scancode.caps_lock = some 0x3a
sdlk_to_scancode Scancode.f1 = some 0x3b
sdlk_to_scancode Scancode.f2 = some 0x3c
sdlk_to_scancode Scancode.f3 = some 0x3d
sdlk_to_scancode Scancode.f4 = some 0x3e
sdlk_to_scancode Scancode.f5 = some 0x3f
sdlk_to_scancode Scancode.f6 = some 0x40
sdlk_to_scancode Scancode.f7 = some 0x41
sdlk_to_scancode Scancode.f8 = some 0x42
sdlk_to_scancode Scancode.f9 = some 0x43
sdlk_to_scancode Scancode.f10 = some 0x44
sdlk_to_scancode Scancode.scroll_lock = some 0x46
sdlk_to_scancode Scancode.home = some 0x47
sdlk_to_scancode Scancode.up = some 0x48
sdlk_to_scancode Scancode.page_up = some 0x49
sdlk_to_scancode Scancode.left = some 0x4b
sdlk_to_scancode Scancode.right = some 0x4d
sdlk_to_scancode Scancode.end = some 0x4f
sdlk_to_scancode Scancode.down = some 0x50
sdlk_to_scancode Scancode.page_down = some 0x51
sdlk_to_scancode Scancode.insert = some 0x52
sdlk_to_scancode Scancode.delete = some 0x53
sdlk_to_scancode Scancode.other = none

abbrev plain_ascii : List (ℕ × Option ℕ)
plain_ascii =
    (0x01, some 0x1b)
    ∷ (0x02, some b'1')
    ∷ (0x03, some b'2')
    ∷ (0x04, some b'3')
    ∷ (0x05, some b'4')
    ∷ (0x06, some b'5')
    ∷ (0x07, some b'6')
    ∷ (0x08, some b'7')
    ∷ (0x09, some b'8')
    ∷ (0x0a, some b'9')
    ∷ (0x0b, some b'0')
    ∷ (0x0c, some b'-')
    ∷ (0x0d, some b'=')
    ∷ (0x0e, some 0x8)
    ∷ (0x0f, some 0x09)
    ∷ (0x10, some b'q')
    ∷ (0x11, some b'w')
    ∷ (0x12, some b'e')
    ∷ (0x13, some b'r')
    ∷ (0x14, some b't')
    ∷ (0x15, some b'y')
    ∷ (0x16, some b'u')
    ∷ (0x17, some b'i')
    ∷ (0x18, some b'o')
    ∷ (0x19, some b'p')
    ∷ (0x1a, some b'[')
    ∷ (0x1b, some b']')
    ∷ (0x1c, some 0x0d)
    ∷ (0x1e, some b'a')
    ∷ (0x1f, some b's')
    ∷ (0x20, some b'd')
    ∷ (0x21, some b'f')
    ∷ (0x22, some b'g')
    ∷ (0x23, some b'h')
    ∷ (0x24, some b'j')
    ∷ (0x25, some b'k')
    ∷ (0x26, some b'l')
    ∷ (0x27, some b';')
    ∷ (0x28, some 0x27)
    ∷ (0x29, some b'`')
    ∷ (0x2b, some 0x5c)
    ∷ (0x2c, some b'z')
    ∷ (0x2d, some b'x')
    ∷ (0x2e, some b'c')
    ∷ (0x2f, some b'v')
    ∷ (0x30, some b'b')
    ∷ (0x31, some b'n')
    ∷ (0x32, some b'm')
    ∷ (0x33, some b',')
    ∷ (0x34, some b'.')
    ∷ (0x35, some b'/')
    ∷ (0x39, some b' ')
    ∷ []

abbrev shifted_ascii : List (ℕ × Option ℕ)
shifted_ascii =
    (0x01, some 0x1b)
    ∷ (0x02, some b'!')
    ∷ (0x03, some b'@')
    ∷ (0x04, some b'#')
    ∷ (0x05, some b'$')
    ∷ (0x06, some b'%')
    ∷ (0x07, some b'^')
    ∷ (0x08, some b'&')
    ∷ (0x09, some b'*')
    ∷ (0x0a, some b'(')
    ∷ (0x0b, some b')')
    ∷ (0x0c, some b'_')
    ∷ (0x0d, some b'+')
    ∷ (0x0e, some 0x8)
    ∷ (0x0f, some 0x09)
    ∷ (0x10, some b'Q')
    ∷ (0x11, some b'W')
    ∷ (0x12, some b'E')
    ∷ (0x13, some b'R')
    ∷ (0x14, some b'T')
    ∷ (0x15, some b'Y')
    ∷ (0x16, some b'U')
    ∷ (0x17, some b'I')
    ∷ (0x18, some b'O')
    ∷ (0x19, some b'P')
    ∷ (0x1a, some b'{')
    ∷ (0x1b, some b'}')
    ∷ (0x1c, some 0x0d)
    ∷ (0x1e, some b'A')
    ∷ (0x1f, some b'S')
    ∷ (0x20, some b'D')
    ∷ (0x21, some b'F')
    ∷ (0x22, some b'G')
    ∷ (0x23, some b'H')
    ∷ (0x24, some b'J')
    ∷ (0x25, some b'K')
    ∷ (0x26, some b'L')
    ∷ (0x27, some b':')
    ∷ (0x28, some b'"')
    ∷ (0x29, some b'~')
    ∷ (0x2b, some b'|')
    ∷ (0x2c, some b'Z')
    ∷ (0x2d, some b'X')
    ∷ (0x2e, some b'C')
    ∷ (0x2f, some b'V')
    ∷ (0x30, some b'B')
    ∷ (0x31, some b'N')
    ∷ (0x32, some b'M')
    ∷ (0x33, some b'<')
    ∷ (0x34, some b'>')
    ∷ (0x35, some b'?')
    ∷ (0x39, some b' ')
    ∷ []

unfoldable pub scancode_to_ascii : ℕ → Bool → Option ℕ
scancode_to_ascii scancode shifted =
    if shifted then select scancode shifted_ascii none else select scancode plain_ascii none
