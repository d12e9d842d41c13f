-- ===== src/Bios/Video.antt =====
-- The video services, interrupt 0x10 (`BIOS::handle_interrupt` of src/bios.rs).
use riapyx.Common.{
  ℕ, zero, suc, ◌+◌, ◌*◌, ltb, ◌==◌, if◌then◌else◌, u8, [], ◌∷◌, select, Result, ok, panic, assert,
  ◌>>=◌, ◌>>◌,
}
use riapyx.Cpu.Instruction.{BReg, WReg}
use riapyx.Cpu.Registers.{get_breg, get_wreg}
use riapyx.Cpu.Step.{System}
use riapyx.Hw.Display.{
  Display, from_bios, to_bios, cols, tty_setcoords, tty_coords, set_mode, set_page,
}
use riapyx.Hw.Display.Text.{tty_scroll, tty_read_at_cur, write_char_at_cur, tty_output}
use riapyx.Mem.{Memory, write_u8}
use riapyx.Bios.{put_breg, set_carry}

-- `for _ in 0 .. cnt`
unfoldable pub scroll_times : ℕ → (Memory → Memory) → Memory → Memory
scroll_times zero scroll mem = mem
scroll_times (suc cnt) scroll mem = scroll_times cnt scroll (scroll mem)

module _ {F B : Type 0} where
  abbrev put_display : Display → System F B → System F B
  put_display d sys = let hw = sys.hw in record sys { hw = record hw { display = d } }

  unfoldable pub set_video_mode : System F B → Result (System F B)
  unfolding from_bios set_mode get_breg
  set_video_mode sys = do
    mode ← from_bios (get_breg sys.cpu BReg.al)
    let (d, mem) = set_mode sys.hw.display sys.mem mode
    ok (put_display d (record sys { mem = mem }))

  unfoldable pub set_cursor_coords : System F B → Result (System F B)
  unfolding tty_setcoords get_breg
  set_cursor_coords sys = do
    let page = get_breg sys.cpu BReg.bh
    let y = get_breg sys.cpu BReg.dh
    let x = get_breg sys.cpu BReg.dl
    mem ← tty_setcoords sys.hw.display sys.mem page x y
    ok (record sys { mem = write_u8 (write_u8 mem 0x450 x) 0x451 y })

  unfoldable pub get_cursor_coords : System F B → Result (System F B)
  unfolding tty_coords get_breg
  get_cursor_coords sys = do
    let bh = get_breg sys.cpu BReg.bh
    let page = if ltb 8 bh then sys.hw.display.cur_page else bh
    (x, y) ← tty_coords sys.hw.display sys.mem page
    ok (
        put_breg BReg.dl x (
          put_breg BReg.dh y
            (put_breg BReg.cl (u8 (y * 8 + 7)) (put_breg BReg.ch (u8 (y * 8)) sys))))

  unfoldable pub select_page : System F B → Result (System F B)
  unfolding set_page get_breg
  select_page sys = do
    d ← set_page sys.hw.display (get_breg sys.cpu BReg.al)
    ok (put_display d sys)

  unfoldable pub scroll_window : System F B → System F B
  unfolding scroll_times tty_scroll get_breg
  scroll_window sys =
      let al = get_breg sys.cpu BReg.al in
      let cnt = if al == 0 then 25 else al in
      let d = sys.hw.display in
      let y1 = get_breg sys.cpu BReg.ch in
      let x1 = get_breg sys.cpu BReg.cl in
      let y2 = get_breg sys.cpu BReg.dh in
      let x2 = get_breg sys.cpu BReg.dl in
      let attr = get_breg sys.cpu BReg.bh in
      record sys {
        mem = scroll_times cnt (λ mem. tty_scroll d mem d.cur_page x1 y1 x2 y2 attr) sys.mem;
      }

  unfoldable pub read_char : System F B → Result (System F B)
  unfolding tty_read_at_cur get_breg
  read_char sys = do
    (chr, attr) ← tty_read_at_cur sys.hw.display sys.mem (get_breg sys.cpu BReg.bh)
    ok (put_breg BReg.al chr (put_breg BReg.ah attr sys))

  unfoldable pub write_char : System F B → Result (System F B)
  unfolding write_char_at_cur get_breg get_wreg
  write_char sys = do
    let chr = get_breg sys.cpu BReg.al
    let attr = get_breg sys.cpu BReg.bl
    let page = get_breg sys.cpu BReg.bh
    let cnt = get_wreg sys.cpu WReg.cx
    mem ← write_char_at_cur sys.hw.display sys.mem page chr attr cnt
    ok (record sys { mem = mem })

  unfoldable pub output_char : System F B → Result (System F B)
  unfolding tty_output get_breg
  output_char sys = do
    let char_to_print = get_breg sys.cpu BReg.al
    let page = get_breg sys.cpu BReg.bh
    let foreground_color = get_breg sys.cpu BReg.bl
    mem ← tty_output sys.hw.display sys.mem page char_to_print foreground_color
    ok (record sys { mem = mem })

  unfoldable pub get_video_mode : System F B → System F B
  unfolding to_bios cols
  get_video_mode sys =
      let d = sys.hw.display in
      put_breg BReg.bh d.cur_page
        (put_breg BReg.al (to_bios d.mode) (put_breg BReg.ah (u8 (cols d.mode)) sys))

  -- The services of which the program says that they are not implemented return with carry.
  unfoldable pub video_service : System F B → Result (System F B)
  unfolding set_video_mode set_cursor_coords get_cursor_coords select_page scroll_window read_char
      write_char output_char get_video_mode set_carry get_breg
  video_service sys =
      select (get_breg sys.cpu BReg.ah)
        ((0x0, set_video_mode sys)
          ∷ (0x1, ok sys)
          ∷ (0x2, set_cursor_coords sys)
          ∷ (0x3, get_cursor_coords sys)
          ∷ (0x5, select_page sys)
          ∷ (0x6, ok (scroll_window sys))
          ∷ (0x8, read_char sys)
          ∷ (0x9, write_char sys)
          ∷ (0x0e, output_char sys)
          ∷ (0xf, ok (get_video_mode sys))
          ∷ (0xb, ok sys)
          ∷ (0x11, ok (set_carry sys))
          ∷ (0x1a, ok (set_carry sys))
          ∷ (0xef, ok (set_carry sys))
          ∷ (0xfa, ok (set_carry sys))
          ∷ (0x10, ok (set_carry sys))
          ∷ (0xf0, ok (set_carry sys))
          ∷ (0x30, ok (set_carry sys))
          ∷ (0x6f, ok (set_carry sys))
          ∷ (0xfe, ok (set_carry sys))
          ∷ (0xcc, ok (set_carry sys))
          ∷ (0x12, (assert (get_breg sys.cpu BReg.bl == 0x10) >> ok sys))
          ∷ (0x1b, ok (set_carry (put_breg BReg.al 0 sys)))
          ∷ [])
        panic
