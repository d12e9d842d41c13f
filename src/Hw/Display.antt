-- ===== src/Hw/Display.antt =====
-- The display (src/hw/display.rs), a CGA adapter: modes, pages and the cursors that the BIOS data
-- area holds. The window and the font of the crate sdl2, on which `render` draws, are left out.
pub mod Text
pub mod Screen
pub mod Cursors
use riapyx.Common.{
  ℕ, ◌+◌, ◌-◌, ◌*◌, ◌%◌, ◌^◌, ltb, ◌==◌, ◌||◌, ◌&&◌, not, if◌then◌else◌, List, [], ◌∷◌, Result, ok,
  panic, assert, ◌>>=◌, ◌>>◌,
}
use riapyx.Hw.Bda.{ByteBdaEntry, WordBdaEntry, get, set, set_word}
use riapyx.Mem.{Memory, clear_vram_dirty, is_vram_dirty}

abbrev pub sync_period_ns : ℕ
sync_period_ns = 16666667

abbrev pub vram_addr : ℕ
vram_addr = 0xb8000

abbrev pub vram_used_interval : ℕ
vram_used_interval = 1

pub data GraphicMode : Type 0 where
  t8025 g640200 : GraphicMode

unfoldable pub cols : GraphicMode → ℕ
cols GraphicMode.t8025 = 80
cols GraphicMode.g640200 = 80

unfoldable pub rows : GraphicMode → ℕ
rows GraphicMode.t8025 = 25
rows GraphicMode.g640200 = 25

unfoldable pub page_size : GraphicMode → ℕ
page_size GraphicMode.t8025 = 4096
page_size GraphicMode.g640200 = 16384

unfoldable pub page_count : GraphicMode → ℕ
page_count GraphicMode.t8025 = 4
page_count GraphicMode.g640200 = 1

unfoldable pub from_bios : ℕ → Result GraphicMode
from_bios mode =
    if mode == 0x3
    then ok GraphicMode.t8025
    else if mode == 0x6
    then ok GraphicMode.g640200
    else panic

unfoldable pub to_bios : GraphicMode → ℕ
to_bios GraphicMode.t8025 = 0x3
to_bios GraphicMode.g640200 = 0x6

pub record Cursor : Type 0 where
  pub x : ByteBdaEntry
  pub y : ByteBdaEntry

unfoldable pub new_cursor : ℕ → Cursor
new_cursor bda_idx = record { x = record { idx = bda_idx }; y = record { idx = bda_idx + 1 } }

pub record Display : Type 0 where
  pub mode : GraphicMode
  pub cursors : List Cursor
  pub num_cols : WordBdaEntry
  pub cur_page : ℕ
  pub last_sync_ns : ℕ
  pub count_until_vram_used : ℕ

unfoldable pub new : Display
unfolding new_cursor
new = record {
  mode = GraphicMode.t8025;
  cursors =
      new_cursor 0x50
      ∷ new_cursor 0x52
      ∷ new_cursor 0x54
      ∷ new_cursor 0x56
      ∷ new_cursor 0x58
      ∷ new_cursor 0x5a
      ∷ new_cursor 0x5c
      ∷ new_cursor 0x5e
      ∷ [];
  num_cols = record { idx = 0x4a };
  cur_page = 0;
  count_until_vram_used = vram_used_interval;
  last_sync_ns = 0;
}

-- `self.cursors[page as usize]`
unfoldable pub cursor_at : List Cursor → ℕ → Result Cursor
cursor_at [] page = panic
cursor_at (cursor ∷ rest) ℕ.zero = ok cursor
cursor_at (cursor ∷ rest) (ℕ.suc page) = cursor_at rest page

unfoldable pub page_addr : Display → ℕ → ℕ
unfolding page_size
page_addr d page = vram_addr + page_size d.mode * page

unfoldable pub chr_addr : Display → ℕ → ℕ → ℕ → ℕ
unfolding page_addr cols
chr_addr d page x y = page_addr d page + (y * cols d.mode + x) * 2

unfoldable pub tty_coords : Display → Memory → ℕ → Result (ℕ × ℕ)
unfolding cursor_at get
tty_coords d mem page = do
  cursor ← cursor_at d.cursors page
  ok (get cursor.x mem, get cursor.y mem)

unfoldable pub tty_setcoords : Display → Memory → ℕ → ℕ → ℕ → Result Memory
unfolding cursor_at set
tty_setcoords d mem page x y = do
  cursor ← cursor_at d.cursors page
  ok (set cursor.y y (set cursor.x x mem))

unfoldable pub cur_addr : Display → Memory → ℕ → Result ℕ
unfolding tty_coords chr_addr
cur_addr d mem page = do (x, y) ← tty_coords d mem page; ok (chr_addr d page x y)

-- What `render` changes; it draws no more often than sixty times a second.
unfoldable pub render : Display → Memory → ℕ → ℕ → Display × Memory
unfolding clear_vram_dirty is_vram_dirty
render d mem clock time_ns =
    if ltb time_ns ((d.last_sync_ns + sync_period_ns) % 2 ^ 64)
      || not (is_vram_dirty mem && clock % 10000 == 0)
    then (d, mem)
    else (record d { last_sync_ns = time_ns }, clear_vram_dirty mem)

unfoldable pub set_mode : Display → Memory → GraphicMode → Display × Memory
unfolding cols set_word
set_mode d mem mode = (record d { mode = mode }, set_word d.num_cols (cols mode) mem)

unfoldable pub set_page : Display → ℕ → Result Display
unfolding page_count
set_page d page = assert (ltb page (page_count d.mode)) >> ok (record d { cur_page = page })

unfoldable pub get_status_reg : Display → ℕ × Display
get_status_reg d =
    if ltb 0 d.count_until_vram_used
    then (9, record d { count_until_vram_used = d.count_until_vram_used - 1 })
    else (0, record d { count_until_vram_used = vram_used_interval })
