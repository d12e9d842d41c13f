-- ===== src/Hw/Display/Cursors.antt =====
-- The cursor stays on the screen.
use riapyx.Common.{
  ℕ, zero, suc, ◌+◌, ◌-◌, ◌*◌, ◌^◌, ◌<◌, ◌≤◌, ◌≡◌, refl, ◌∙◌, arith, ltb, leb, ◌==◌, u16, add8,
  true, Bool-cases, inl, inr, ok, >>=-Returns, Returns,
}
use riapyx.Hw.Bda.{get, set}
use riapyx.Hw.Display.{
  Display, GraphicMode, Cursor, cursor_at, tty_coords, tty_setcoords, cur_addr, chr_addr, page_addr,
  page_size, page_count, cols, rows, vram_addr,
}
use riapyx.Hw.Display.Text.{
  cell_addr, pull_row, pull_rows, blank_row, tty_scroll, put_char, scroll_at_bottom, tty_output,
}
use riapyx.Hw.Display.Screen.{page_fits, cols_lem, rows_lem}
use riapyx.Mem.{Memory, addr_max, read_u8, read_u16, write_u8, write_u16}
use riapyx.Mem.Access.{read_u8-write_u8, read_u8-write_u16}

-- Scrolling a whole page writes to the page alone.
module _ (t b : ℕ) (h : t + 4000 < addr_max) (k : b < t) where
  word_kept :
      (m : Memory) (i v : ℕ) → i < 2000 → read_u8 (write_u16 m (t + i * 2) v) b ≡ read_u8 m b
  word_kept m i v p = ground (arith, read_u8-write_u16 m (t + i * 2) b v)

  pull_row_kept :
      (m : Memory) (y n x : ℕ)
      → x + n ≤ 80
      → y < 25
      → read_u8 (pull_row t 80 y n x m) b ≡ read_u8 m b
  unfolding pull_row
  pull_row_kept m y zero x p q = refl
  pull_row_kept m y (suc n) x p q =
      pull_row_kept (write_u16 m (t + (y * 80 + x) * 2) (read_u16 m (cell_addr t 80 x (y + 1)))) y n
        (x + 1) (omega arith) q
      ∙ word_kept m (y * 80 + x) _ (omega arith)

  pull_rows_kept :
      (m : Memory) (count n y : ℕ)
      → count ≤ 80
      → y + n < 25
      → read_u8 (pull_rows t 80 count 0 n y m) b ≡ read_u8 m b
  unfolding pull_rows
  pull_rows_kept m count zero y p q = refl
  pull_rows_kept m count (suc n) y p q =
      pull_rows_kept (pull_row t 80 y count 0 m) count n (y + 1) p (omega arith)
      ∙ pull_row_kept m y count 0 (omega arith) (omega arith)

  blank_row_kept :
      (m : Memory) (attr y n x : ℕ)
      → x + n ≤ 80
      → y < 25
      → read_u8 (blank_row t 80 attr y n x m) b ≡ read_u8 m b
  unfolding blank_row
  blank_row_kept m attr y zero x p q = refl
  blank_row_kept m attr y (suc n) x p q =
      blank_row_kept (write_u16 m (t + (y * 80 + x) * 2) (u16 (attr * 2 ^ 8))) attr y n (x + 1)
        (omega arith) q
      ∙ word_kept m (y * 80 + x) _ (omega arith)

below_page : (d : Display) (page b : ℕ) → b < vram_addr → b < page_addr d page
unfolding page_addr
below_page d page b k = omega (arith, k)

tty_scroll_kept :
    (d : Display) (m : Memory) (page b : ℕ)
    → page < page_count d.mode
    → b < vram_addr
    → read_u8 (tty_scroll d m page 0 0 (cols d.mode) (rows d.mode) 0) b ≡ read_u8 m b
unfolding tty_scroll
tty_scroll_kept d m page b h k =
    rw (cols_lem d.mode, rows_lem d.mode)
      (blank_row_kept (page_addr d page) b (page_fits d page h) (below_page d page b k)
          (pull_rows (page_addr d page) 80 80 0 24 0 m) 0 24 80 0 (omega arith) (omega arith)
        ∙ pull_rows_kept (page_addr d page) b (page_fits d page h) (below_page d page b k) m 80 24 0
            (omega arith) (omega arith))

-- The cursor of a page, in two neighbouring bytes of the data area.
pub record IsCursor (d : Display) (page : ℕ) (cursor : Cursor) : Type 0 where
  pub is_there : cursor_at d.cursors page ≡ ok cursor
  pub is_byte : cursor.x.idx < 255
  pub is_next : cursor.y.idx ≡ cursor.x.idx + 1

abbrev pub OnScreen : Cursor → Memory → Type 0
OnScreen cursor m = (get cursor.x m < 80) × (get cursor.y m < 25)

-- A page with a cursor.
module _ (d : Display) (page : ℕ) (cursor : Cursor) (h : IsCursor d page cursor) where
  tty_coords_lem : (m : Memory) → tty_coords d m page ≡ ok (get cursor.x m, get cursor.y m)
  unfolding tty_coords
  tty_coords_lem m = rw h.is_there refl

  cur_addr_lem :
      (m : Memory) → cur_addr d m page ≡ ok (chr_addr d page (get cursor.x m) (get cursor.y m))
  unfolding cur_addr
  cur_addr_lem m = rw (tty_coords_lem m) refl

  tty_setcoords_lem :
      (m : Memory) (x y : ℕ) → tty_setcoords d m page x y ≡ ok (set cursor.y y (set cursor.x x m))
  unfolding tty_setcoords
  tty_setcoords_lem m x y = rw h.is_there refl

  get_x : (m : Memory) (x y : ℕ) → get cursor.x (set cursor.y y (set cursor.x x m)) ≡ x
  unfolding get set
  get_x m x y = ground (
    arith,
    h.is_byte,
    h.is_next,
    read_u8-write_u8 (write_u8 m (0x400 + cursor.x.idx) x) (0x400 + cursor.y.idx)
        (0x400 + cursor.x.idx) y,
    read_u8-write_u8 m (0x400 + cursor.x.idx) (0x400 + cursor.x.idx) x,
  )

  get_x-set_y : (m : Memory) (y : ℕ) → get cursor.x (set cursor.y y m) ≡ get cursor.x m
  unfolding get set
  get_x-set_y m y = ground (
    arith,
    h.is_byte,
    h.is_next,
    read_u8-write_u8 m (0x400 + cursor.y.idx) (0x400 + cursor.x.idx) y,
  )

  get_y : (m : Memory) (y : ℕ) → get cursor.y (set cursor.y y m) ≡ y
  unfolding get set
  get_y m y = ground (arith, read_u8-write_u8 m (0x400 + cursor.y.idx) (0x400 + cursor.y.idx) y)

  get_x-tty_scroll :
      (m : Memory)
      → page < page_count d.mode
      → get cursor.x (tty_scroll d m page 0 0 (cols d.mode) (rows d.mode) 0) ≡ get cursor.x m
  unfolding get
  get_x-tty_scroll m p =
      tty_scroll_kept d m page (0x400 + cursor.x.idx) p (omega (arith, h.is_byte))

  scroll_at_bottom-OnScreen :
      (m : Memory) (new_y : ℕ)
      → page < page_count d.mode
      → get cursor.x m < 80
      → get cursor.y m ≡ new_y
      → new_y < 26
      → Returns (OnScreen cursor) (scroll_at_bottom d page new_y m)
  unfolding scroll_at_bottom
  scroll_at_bottom-OnScreen m new_y p a e b = elim (Bool-cases (leb 25 new_y)) [
    | inl u ↦
        rw (u, h.is_there)
          ((let m₁ = tty_scroll d m page 0 0 (cols d.mode) (rows d.mode) 0 in
            (
              omega (arith, get_x-set_y m₁ (new_y - 1), get_x-tty_scroll m p, a),
              omega (arith, get_y m₁ (new_y - 1), b),
            )))
    | inr u ↦ rw u (a, ground (arith, u, e))
  ]

in_vram : (a : ℕ) → a < vram_addr + 16 * 1024 → ltb a (vram_addr + 16 * 1024) ≡ true
in_vram a h = ground (arith, h)

abbrev Near : (ℕ × ℕ) × Memory → Type 0
Near ((x, y), m) = (x < 80) × (y < 26)

put_char-Near :
    (chr color target x y : ℕ) (m : Memory)
    → x < 80
    → y < 25
    → target < vram_addr + 16 * 1024
    → Returns Near (put_char chr color target x y m)
unfolding put_char
put_char-Near chr color target x y m a b c = elim (Bool-cases (chr == 0xd)) [
  | inl e ↦ rw e (omega arith, omega arith)
  | inr e ↦ rw e (elim (Bool-cases (chr == 0xa)) [
    | inl e₂ ↦ rw e₂ (a, omega arith)
    | inr e₂ ↦ rw e₂ (elim (Bool-cases (chr == 0x8)) [
      | inl e₃ ↦ rw e₃ (ground arith, omega arith)
      | inr e₃ ↦
          rw (e₃, in_vram target c)
            (elim (Bool-cases (leb 80 (add8 x 1))) [
              | inl e₄ ↦ rw e₄ (omega arith, omega arith)
              | inr e₄ ↦ rw e₄ (ground (arith, e₄), omega arith)
            ])
    ])
  ])
]

cell_in_vram :
    (d : Display) (page x y : ℕ)
    → page < page_count d.mode
    → x < 80
    → y < 25
    → chr_addr d page x y < vram_addr + 16 * 1024
unfolding chr_addr page_addr page_count page_size
cell_in_vram d page x y h a b = rw (cols_lem d.mode) (
    elim d.mode
        as (λ mode.
          page < page_count mode → 0xb8000 + page_size mode * page + (y * 80 + x) * 2 < 0xbc000) [
            | GraphicMode.t8025 ↦ λ k. omega arith
            | GraphicMode.g640200 ↦ λ k. omega arith
          ]
      h)

-- On a page that the mode has: with the cursor on the screen, output of any character succeeds, the
-- page scrolls where it has to, and the cursor is on the screen again.
pub tty_output-OnScreen :
    (d : Display) (m : Memory) (page chr text_color : ℕ) (cursor : Cursor)
    → page < page_count d.mode
    → IsCursor d page cursor
    → OnScreen cursor m
    → Returns (OnScreen cursor) (tty_output d m page chr text_color)
unfolding tty_output
tty_output-OnScreen d m page chr text_color cursor p h (a, b) =
    let x = get cursor.x m in
    let y = get cursor.y m in
    rw (cur_addr_lem d page cursor h m, tty_coords_lem d page cursor h m)
      (>>=-Returns Near (OnScreen cursor) (put_char chr text_color (chr_addr d page x y) x y m) _
        (put_char-Near chr text_color (chr_addr d page x y) x y m a b
          (cell_in_vram d page x y p a b))
        (λ ((new_x, new_y), m₁) (u, v). rw (tty_setcoords_lem d page cursor h m₁ new_x new_y) (
          scroll_at_bottom-OnScreen d page cursor h (set cursor.y new_y (set cursor.x new_x m₁))
            new_y p (omega (arith, get_x d page cursor h m₁ new_x new_y, u))
            (get_y d page cursor h (set cursor.x new_x m₁) new_y) v)))
