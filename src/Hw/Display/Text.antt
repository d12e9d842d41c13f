-- ===== src/Hw/Display/Text.antt =====
-- The text services of the display (src/hw/display.rs): output at the cursor, and scrolling.
use riapyx.Common.{
  ℕ, zero, suc, ◌+◌, ◌-◌, ◌*◌, ◌^◌, ltb, leb, ◌==◌, if◌then◌else◌, u16, add8, Result, ok, assert,
  ◌>>=◌, ◌>>◌,
}
use riapyx.Hw.Bda.{set}
use riapyx.Hw.Display.{
  Display, cols, rows, page_addr, cur_addr, tty_coords, tty_setcoords, cursor_at, vram_addr,
}
use riapyx.Mem.{Memory, read_u8, write_u8, read_u16, write_u16}

-- The cell in column `x` and row `y` of a page that starts at `topleft`, `width` cells wide.
abbrev pub cell_addr : ℕ → ℕ → ℕ → ℕ → ℕ
cell_addr topleft width x y = topleft + (y * width + x) * 2

-- `for x in x1 .. x2 + 1`: `n` cells from column `x` on take those of the row below.
unfoldable pub pull_row : ℕ → ℕ → ℕ → ℕ → ℕ → Memory → Memory
pull_row topleft width y zero x mem = mem
pull_row topleft width y (suc n) x mem =
    let cell = read_u16 mem (cell_addr topleft width x (y + 1)) in
    pull_row topleft width y n (x + 1) (write_u16 mem (cell_addr topleft width x y) cell)

-- `for y in y1 .. y2`: `n` rows from row `y` on.
unfoldable pub pull_rows : ℕ → ℕ → ℕ → ℕ → ℕ → ℕ → Memory → Memory
pull_rows topleft width count x zero y mem = mem
pull_rows topleft width count x (suc n) y mem =
    pull_rows topleft width count x n (y + 1) (pull_row topleft width y count x mem)

unfoldable pub blank_row : ℕ → ℕ → ℕ → ℕ → ℕ → ℕ → Memory → Memory
blank_row topleft width attr y zero x mem = mem
blank_row topleft width attr y (suc n) x mem =
    blank_row topleft width attr y n (x + 1)
      (write_u16 mem (cell_addr topleft width x y) (u16 (attr * 2 ^ 8)))

unfoldable pub tty_scroll : Display → Memory → ℕ → ℕ → ℕ → ℕ → ℕ → ℕ → Memory
unfolding page_addr cols rows
tty_scroll d mem page x1 y1 x2_ y2_ attr =
    let width = cols d.mode in
    let x2 = if leb width x2_ then width - 1 else x2_ in
    let y2 = if leb (rows d.mode) y2_ then rows d.mode - 1 else y2_ in
    let topleft = page_addr d page in
    let count = x2 + 1 - x1 in
    blank_row topleft width attr y2 count x1 (pull_rows topleft width count x1 (y2 - y1) y1 mem)

unfoldable pub tty_read_at_cur : Display → Memory → ℕ → Result (ℕ × ℕ)
unfolding cur_addr
tty_read_at_cur d mem page = do
  addr ← cur_addr d mem page
  ok (read_u8 mem addr, read_u8 mem (addr + 1))

-- The new coordinates and the memory.
unfoldable pub put_char : ℕ → ℕ → ℕ → ℕ → ℕ → Memory → Result ((ℕ × ℕ) × Memory)
put_char chr text_color target_addr x y mem =
    if chr == 0xd
    then ok ((0, y), mem)
    else if chr == 0xa
    then ok ((x, add8 y 1), mem)
    else if chr == 0x8
    then ok ((if ltb 0 x then x - 1 else x, y), mem)
    else assert (ltb target_addr (vram_addr + 16 * 1024))
      >> ok (
        if leb 80 (add8 x 1) then (0, add8 y 1) else (add8 x 1, y),
        write_u8 (write_u8 mem target_addr chr) (target_addr + 1) text_color,
      )

-- "Scroll if necessary"
unfoldable pub scroll_at_bottom : Display → ℕ → ℕ → Memory → Result Memory
scroll_at_bottom d page new_y mem =
    if leb 25 new_y
    then (do
      let mem₁ = tty_scroll d mem page 0 0 (cols d.mode) (rows d.mode) 0
      cursor ← cursor_at d.cursors page
      ok (set cursor.y (new_y - 1) mem₁))
    else ok mem

unfoldable pub tty_output : Display → Memory → ℕ → ℕ → ℕ → Result Memory
tty_output d mem page chr text_color = do
  target_addr ← cur_addr d mem page
  (x, y) ← tty_coords d mem page
  ((new_x, new_y), mem₁) ← put_char chr text_color target_addr x y mem
  mem₂ ← tty_setcoords d mem₁ page new_x new_y
  scroll_at_bottom d page new_y mem₂

-- `for idx in 0 .. cnt`, from `idx` on, `n` times.
unfoldable pub repeat_char : ℕ → ℕ → ℕ → ℕ → ℕ → Memory → Memory
repeat_char addr chr attr zero idx mem = mem
repeat_char addr chr attr (suc n) idx mem =
    repeat_char addr chr attr n (idx + 1)
      (write_u8 (write_u8 mem (addr + idx * 2) chr) (addr + idx * 2 + 1) attr)

-- The coordinates of the current page are read as well, for a message, so that page is in range.
unfoldable pub write_char_at_cur : Display → Memory → ℕ → ℕ → ℕ → ℕ → Result Memory
unfolding cur_addr tty_coords repeat_char
write_char_at_cur d mem page chr attr cnt = do
  addr ← cur_addr d mem page
  _ ← tty_coords d mem d.cur_page
  ok (repeat_char addr chr attr cnt 0 mem)
