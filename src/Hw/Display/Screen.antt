-- ===== src/Hw/Display/Screen.antt =====
-- Scrolling, as the guest sees the cells of a page.
use riapyx.Common.{
  ℕ, zero, suc, ◌+◌, ◌-◌, ◌*◌, ◌^◌, ◌<◌, ◌≤◌, ◌≡◌, refl, ap, ◌∙◌, arith, ltb, leb, ◌==◌, ◌&&◌,
  if◌then◌else◌, u16, Bool, false, Bool-cases, inl, inr,
}
use riapyx.Hw.Display.{Display, GraphicMode, chr_addr, page_addr, page_size, page_count, cols, rows}
use riapyx.Hw.Display.Text.{cell_addr, pull_row, pull_rows, blank_row, tty_scroll}
use riapyx.Mem.{Memory, addr_max, read_u16, write_u16}
use riapyx.Mem.Access.{read_u16-write_u16_self, read_u16-write_u16_apart}

read_u16-lt : (m : Memory) (a : ℕ) → read_u16 m a < 65536
unfolding read_u16
read_u16-lt m a = omega arith

-- Cells are words two bytes apart; a page of them lies within the memory.
module _ (t : ℕ) (h : t + 4000 < addr_max) where
  cell_write :
      (m : Memory) (i j v : ℕ)
      → i < 2000
      → j < 2000
      → v < 65536
      → read_u16 (write_u16 m (t + i * 2) v) (t + j * 2)
        ≡ (if i == j then v else read_u16 m (t + j * 2))
  cell_write m i j v p q r = elim (Bool-cases (i == j)) [
    | inl e ↦ rw e (
        ap (λ k. read_u16 (write_u16 m (t + i * 2) v) (t + k * 2)) (ground (arith, e))
        ∙ read_u16-write_u16_self m (t + i * 2) v r)
    | inr e ↦ rw e (
        read_u16-write_u16_apart m (t + i * 2) (t + j * 2) v (λ z. ground (arith, e, z))
          (λ z. omega arith) (λ z. omega arith))
  ]

  pull_row_cell :
      (m : Memory) (y n x x' y' : ℕ)
      → x + n ≤ 80
      → y < 24
      → x' < 80
      → y' < 25
      → read_u16 (pull_row t 80 y n x m) (cell_addr t 80 x' y') ≡ (
          if y' == y && (leb x x' && ltb x' (x + n))
          then read_u16 m (cell_addr t 80 x' (y' + 1))
          else read_u16 m (cell_addr t 80 x' y'))
  unfolding pull_row
  pull_row_cell m y zero x x' y' a b c d = ground arith
  pull_row_cell m y (suc n) x x' y' a b c d =
      let cell = read_u16 m (cell_addr t 80 x (y + 1)) in
      ground (
        arith,
        pull_row_cell (write_u16 m (cell_addr t 80 x y) cell) y n (x + 1) x' y' (omega arith) b c d,
        cell_write m (y * 80 + x) (y' * 80 + x') cell (omega arith) (omega arith)
            (read_u16-lt m (cell_addr t 80 x (y + 1))),
        cell_write m (y * 80 + x) ((y + 1) * 80 + x') cell (omega arith) (omega arith)
            (read_u16-lt m (cell_addr t 80 x (y + 1))),
      )

  pull_rows_cell :
      (m : Memory) (n y count x x' y' : ℕ)
      → x + count ≤ 80
      → y + n ≤ 24
      → x' < 80
      → y' < 25
      → read_u16 (pull_rows t 80 count x n y m) (cell_addr t 80 x' y') ≡ (
          if (leb y y' && ltb y' (y + n)) && (leb x x' && ltb x' (x + count))
          then read_u16 m (cell_addr t 80 x' (y' + 1))
          else read_u16 m (cell_addr t 80 x' y'))
  unfolding pull_rows
  pull_rows_cell m zero y count x x' y' a b c d = ground arith
  pull_rows_cell m (suc n) y count x x' y' a b c d =
      let m₁ = pull_row t 80 y count x m in
      elim (Bool-cases (ltb y' 24)) [
        | inl e ↦ ground (
          arith,
          e,
          pull_rows_cell m₁ n (y + 1) count x x' y' a (omega arith) c d,
          pull_row_cell m y count x x' y' a (omega arith) c d,
          pull_row_cell m y count x x' (y' + 1) a (omega arith) c (ground (arith, e)),
        )
        | inr e ↦ ground (
          arith,
          e,
          pull_rows_cell m₁ n (y + 1) count x x' y' a (omega arith) c d,
          pull_row_cell m y count x x' y' a (omega arith) c d,
        )
      ]

  blank_row_cell :
      (m : Memory) (attr y n x x' y' : ℕ)
      → x + n ≤ 80
      → y < 25
      → x' < 80
      → y' < 25
      → read_u16 (blank_row t 80 attr y n x m) (cell_addr t 80 x' y') ≡ (
          if y' == y && (leb x x' && ltb x' (x + n))
          then u16 (attr * 2 ^ 8)
          else read_u16 m (cell_addr t 80 x' y'))
  unfolding blank_row
  blank_row_cell m attr y zero x x' y' a b c d = ground arith
  blank_row_cell m attr y (suc n) x x' y' a b c d =
      let cell = u16 (attr * 2 ^ 8) in
      ground (
        arith,
        blank_row_cell (write_u16 m (cell_addr t 80 x y) cell) attr y n (x + 1) x' y' (omega arith)
            b c d,
        cell_write m (y * 80 + x) (y' * 80 + x') cell (omega arith) (omega arith) (omega arith),
      )

-- A cell of a page, and whether it lies in a window.
abbrev pub cell : Display → ℕ → Memory → ℕ → ℕ → ℕ
cell d page m x y = read_u16 m (chr_addr d page x y)

abbrev pub in_window : ℕ → ℕ → ℕ → ℕ → ℕ → ℕ → Bool
in_window x1 y1 x2 y2 x y = (leb y1 y && leb y y2) && (leb x1 x && leb x x2)

pub page_fits :
    (d : Display) (page : ℕ) → page < page_count d.mode → page_addr d page + 4000 < addr_max
unfolding page_addr page_count page_size
page_fits d page h =
    elim d.mode
        as (λ mode. page < page_count mode → 0xb8000 + page_size mode * page + 4000 < addr_max) [
          | GraphicMode.t8025 ↦ λ k. omega arith
          | GraphicMode.g640200 ↦ λ k. omega arith
        ]
      h

pub cols_lem : (mode : GraphicMode) → cols mode ≡ 80
unfolding cols
cols_lem GraphicMode.t8025 = refl
cols_lem GraphicMode.g640200 = refl

pub rows_lem : (mode : GraphicMode) → rows mode ≡ 25
unfolding rows
rows_lem GraphicMode.t8025 = refl
rows_lem GraphicMode.g640200 = refl

module _ (t : ℕ) (h : t + 4000 < addr_max) (m : Memory) (x1 y1 x2 y2 attr : ℕ) (p : x1 ≤ x2)
    (q : x2 < 80) (r : y1 ≤ y2) (u : y2 < 25) where
  window_cell :
      (x y : ℕ)
      → x < 80
      → y < 25
      → read_u16
          (blank_row t 80 attr y2 (x2 + 1 - x1) x1 (pull_rows t 80 (x2 + 1 - x1) x1 (y2 - y1) y1 m))
          (cell_addr t 80 x y)
        ≡ (if in_window x1 y1 x2 y2 x y
            then (if y == y2 then u16 (attr * 2 ^ 8) else read_u16 m (cell_addr t 80 x (y + 1)))
            else read_u16 m (cell_addr t 80 x y))
  window_cell x y a b = ground (
    arith,
    blank_row_cell t h (pull_rows t 80 (x2 + 1 - x1) x1 (y2 - y1) y1 m) attr y2 (x2 + 1 - x1) x1 x y
        (omega arith) u a b,
    pull_rows_cell t h m (y2 - y1) y1 (x2 + 1 - x1) x1 x y (omega arith) (omega arith) a b,
  )

too_small : (a b : ℕ) → a < b → leb b a ≡ false
too_small a b h = ground (arith, h)

scroll_lem :
    (d : Display) (m : Memory) (page x1 y1 x2 y2 attr : ℕ)
    → x2 < 80
    → y2 < 25
    → tty_scroll d m page x1 y1 x2 y2 attr
      ≡ blank_row
          (page_addr d page)
          80
          attr
          y2
          (x2 + 1 - x1)
          x1
          (pull_rows (page_addr d page) 80 (x2 + 1 - x1) x1 (y2 - y1) y1 m)
unfolding tty_scroll
scroll_lem d m page x1 y1 x2 y2 attr q u =
    rw (cols_lem d.mode, rows_lem d.mode, too_small x2 80 q, too_small y2 25 u) refl

cell_lem :
    (d : Display) (page : ℕ) (m : Memory) (x y : ℕ)
    → cell d page m x y ≡ read_u16 m (cell_addr (page_addr d page) 80 x y)
unfolding chr_addr
cell_lem d page m x y = rw (cols_lem d.mode) refl

-- On a page that the mode has, with a window on the screen: scrolling moves each row of the window
-- but the first one up, leaves its last row blank with the attribute that is asked for, and changes
-- no cell outside the window.
pub tty_scroll-cell :
    (d : Display) (m : Memory) (page x1 y1 x2 y2 attr x y : ℕ)
    → page < page_count d.mode
    → x1 ≤ x2
    → x2 < 80
    → y1 ≤ y2
    → y2 < 25
    → x < 80
    → y < 25
    → cell d page (tty_scroll d m page x1 y1 x2 y2 attr) x y ≡ (
        if in_window x1 y1 x2 y2 x y
        then (if y == y2 then u16 (attr * 2 ^ 8) else cell d page m x (y + 1))
        else cell d page m x y)
tty_scroll-cell d m page x1 y1 x2 y2 attr x y h p q r u a b =
    rw
      (
        scroll_lem d m page x1 y1 x2 y2 attr q u,
        cell_lem d page m x y,
        cell_lem d page m x (y + 1),
        cell_lem d page
            (blank_row (page_addr d page) 80 attr y2 (x2 + 1 - x1) x1
              (pull_rows (page_addr d page) 80 (x2 + 1 - x1) x1 (y2 - y1) y1 m))
            x y,
      )
      (window_cell (page_addr d page) (page_fits d page h) m x1 y1 x2 y2 attr p q r u x y a b)
