-- ===== src/Hw/Port.antt =====
-- The ports (src/cpu/io_dispatch.rs) over the devices that they reach.
use riapyx.Common.{ℕ, ◌==◌, if◌then◌else◌, Option, none, some, Result, ok, ◌>>=◌}
use riapyx.Hw.Keyboard.{io_get_scancode, set_ppi_a, get_ppi_a}
use riapyx.Hw.Serial.{
  read_rtd, read_ier, read_iir, read_lc, read_mc, read_lsr, write_rtd, write_ier, write_lc,
  write_mc,
}
use riapyx.Hw.Mouse.{mouse_device}
use riapyx.Hw.Display.{get_status_reg}
use riapyx.Hw.Devices.{Hw}

abbrev scancode_or_zero : Option ℕ → ℕ
scancode_or_zero none = 0x0
scancode_or_zero (some scancode) = scancode

module _ {F : Type 0} where
  unfoldable pub io_inb : ℕ → Hw F → Result (ℕ × Hw F)
  io_inb port hw =
      if port == 0x60
      then ok (scancode_or_zero (io_get_scancode hw.keyboard), hw)
      else if port == 0x61
      then ok (get_ppi_a hw.keyboard, hw)
      else if port == 0x3da
      then (let (val, d) = get_status_reg hw.display in ok (val, record hw { display = d }))
      else if port == 0x3f8
      then (let (val, p) = read_rtd hw.com1 in ok (val, record hw { com1 = p }))
      else if port == 0x3f9
      then ok (read_ier hw.com1, hw)
      else if port == 0x3fa
      then ok (read_iir hw.com1, hw)
      else if port == 0x3fb
      then (do val ← read_lc hw.com1; ok (val, hw))
      else if port == 0x3fc
      then ok (read_mc hw.com1, hw)
      else if port == 0x3fd
      then ok (read_lsr hw.com1, hw)
      else ok (0x0, hw)

  -- No word port is known.
  unfoldable pub io_inw : ℕ → Hw F → ℕ
  io_inw port hw = 0x0

  unfoldable pub io_outb : ℕ → ℕ → Hw F → Result (Hw F)
  io_outb port val hw =
      if port == 0x61
      then (do k ← set_ppi_a val hw.keyboard; ok (record hw { keyboard = k }))
      else if port == 0x3f8
      then ok (record hw { com1 = write_rtd val hw.com1 })
      else if port == 0x3f9
      then ok (record hw { com1 = write_ier val hw.com1 })
      else if port == 0x3fb
      then (do p ← write_lc val hw.com1; ok (record hw { com1 = p }))
      else if port == 0x3fc
      then ok (record hw { com1 = write_mc mouse_device val hw.com1 })
      else ok hw

  unfoldable pub io_outw : ℕ → ℕ → Hw F → Hw F
  io_outw port val hw = hw
