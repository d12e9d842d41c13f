-- ===== src/Hw/Serial.antt =====
-- The serial port (src/hw/serial.rs) over any device that implements the trait `SerialDevice`.
pub mod Laws
use riapyx.Common.{
  ℕ, ◌+◌, ◌-◌, ◌*◌, ◌/◌, ◌^◌, bit_and, bit_or, ltb, ◌==◌, ◌&&◌, not, if◌then◌else◌, u8, u16, Bool,
  true, false, Option, none, some, List, [], ◌∷◌, ◌++◌, Result, ok, panic, assert, ◌>>=◌, ◌>>◌,
}
use riapyx.Cpu.State.{Cpu}
use riapyx.Cpu.Exec.Stack.{queue_hw_interrupt}

pub record SerialDevice (T : Type 0) : Type 0 where
  pub new : T
  pub read : T → Result (Option ℕ × T)
  pub on_rts_enabled : T → T

pub data SerialIrq : Type 0 where
  data_avail : SerialIrq

abbrev pub cycles_before_next_read_max : ℕ
cycles_before_next_read_max = 1

unfoldable pub iir_value : SerialIrq → ℕ
iir_value SerialIrq.data_avail = 0x0

pub record SerialPort (T : Type 0) : Type 0 where
  pub data_avail_irq : Bool
  pub transmitter_empty_irq : Bool
  pub error_irq : Bool
  pub status_change_irq : Bool
  pub word_length : ℕ
  pub stop_bits : ℕ
  pub parity_enable : Bool
  pub baud_rate_divisor_latch : Bool
  pub baud_rate_divisor : ℕ
  pub data_terminal_ready : Bool
  pub request_to_send : Bool
  pub interrupt_enable : Bool
  pub cycles_before_next_read : ℕ
  pub current_byte_read : Bool
  pub current_read_byte : ℕ
  pub data_for_guest : List ℕ
  pub irq_queue : List SerialIrq
  pub device : T

-- `val |= flag` if the flag is set.
abbrev pub or_flag : ℕ → Bool → ℕ → ℕ
or_flag flag is_set val = if is_set then bit_or val flag else val

abbrev pop_front : List ℕ → List ℕ
pop_front [] = []
pop_front (x ∷ xs) = xs

abbrev pending_iir : List SerialIrq → ℕ
pending_iir [] = 0
pending_iir (irq ∷ _) = bit_or 1 (iir_value irq * 2)

-- The code of a word length, and of the stop bits; `unreachable!` otherwise.
abbrev word_code : ℕ → Result ℕ
word_code n =
    if n == 5
    then ok 0x0
    else if n == 6
    then ok 0x1
    else if n == 7
    then ok 0x2
    else if n == 8
    then ok 0x3
    else panic

abbrev stop_code : ℕ → Result ℕ
stop_code n = if n == 1 then ok 0x0 else if n == 2 then ok 0x4 else panic

-- `match val & 0x3` and `match val & 0x4`.
abbrev length_of_code : ℕ → Result ℕ
length_of_code n =
    if n == 0
    then ok 5
    else if n == 1
    then ok 6
    else if n == 2
    then ok 7
    else if n == 3
    then ok 8
    else panic

abbrev stop_of_code : ℕ → Result ℕ
stop_of_code n = if n == 0 then ok 1 else if n == 1 then ok 2 else panic

module _ {T : Type 0} where
  unfoldable pub new : SerialDevice T → SerialPort T
  new d = record {
    data_avail_irq = false;
    transmitter_empty_irq = false;
    error_irq = false;
    status_change_irq = false;
    word_length = 8;
    stop_bits = 1;
    parity_enable = false;
    baud_rate_divisor_latch = false;
    baud_rate_divisor = 2;
    data_terminal_ready = false;
    request_to_send = false;
    interrupt_enable = false;
    cycles_before_next_read = 0;
    current_byte_read = false;
    current_read_byte = 0;
    data_for_guest = [];
    irq_queue = [];
    device = d.new;
  }

  unfoldable pub write_rtd : ℕ → SerialPort T → SerialPort T
  write_rtd val p =
      if not p.baud_rate_divisor_latch
      then p
      else record p { baud_rate_divisor = bit_or p.baud_rate_divisor val }

  unfoldable pub read_rtd : SerialPort T → ℕ × SerialPort T
  read_rtd p =
      if not p.baud_rate_divisor_latch
      then (p.current_read_byte, record p { current_byte_read = true })
      else (u8 p.baud_rate_divisor, p)

  unfoldable pub write_ier : ℕ → SerialPort T → SerialPort T
  write_ier val p =
      if not p.baud_rate_divisor_latch
      then record p {
        data_avail_irq = ltb 0 (bit_and val 0x1);
        transmitter_empty_irq = ltb 0 (bit_and val 0x2);
        error_irq = ltb 0 (bit_and val 0x4);
        status_change_irq = ltb 0 (bit_and val 0x8);
      }
      else record p { baud_rate_divisor = bit_or p.baud_rate_divisor (u16 (val * 2 ^ 8)) }

  unfoldable pub read_ier : SerialPort T → ℕ
  read_ier p =
      if not p.baud_rate_divisor_latch
      then or_flag 0x8 p.status_change_irq (
          or_flag 0x4 p.error_irq
            (or_flag 0x2 p.transmitter_empty_irq (or_flag 0x1 p.data_avail_irq 0)))
      else u8 (p.baud_rate_divisor / 2 ^ 8)

  unfoldable pub read_iir : SerialPort T → ℕ
  unfolding iir_value
  read_iir p = pending_iir p.irq_queue

  unfoldable pub read_lc : SerialPort T → Result ℕ
  read_lc p = do
    w ← word_code p.word_length
    v ← stop_code p.stop_bits
    assert (not p.parity_enable)
    ok (or_flag 0x80 p.baud_rate_divisor_latch (bit_or w v))

  unfoldable pub write_lc : ℕ → SerialPort T → Result (SerialPort T)
  write_lc val p = do
    w ← length_of_code (bit_and val 0x3)
    v ← stop_of_code (bit_and val 0x4)
    assert (bit_and val 0x8 == 0)
    assert (bit_and val 0x40 == 0)
    ok (record p {
      word_length = w;
      stop_bits = v;
      baud_rate_divisor_latch = ltb 0 (bit_and val 0x80);
    })

  unfoldable pub write_mc : SerialDevice T → ℕ → SerialPort T → SerialPort T
  write_mc d val p =
      let rts = ltb 0 (bit_and val 0x2) in
      let p₁ = record p { data_terminal_ready = ltb 0 (bit_and val 0x1) } in
      let p₂ =
        if rts && not p.request_to_send
        then record p₁ {
          device = d.on_rts_enabled p.device;
          cycles_before_next_read = 0;
          data_for_guest = pop_front p.data_for_guest;
        }
        else p₁ in
      record p₂ { request_to_send = rts; interrupt_enable = ltb 0 (bit_and val 0x8) }

  unfoldable pub read_mc : SerialPort T → ℕ
  read_mc p =
      or_flag 0x8 p.interrupt_enable
        (or_flag 0x2 p.request_to_send (or_flag 0x1 p.data_terminal_ready 0))

  unfoldable pub read_lsr : SerialPort T → ℕ
  read_lsr p = if p.current_byte_read then 0 else bit_or 0 1

  -- What follows a read of the device: a byte is latched, and an interrupt is asked for.
  abbrev pub receive : Option ℕ → SerialPort T → Cpu → SerialPort T × Cpu
  receive none p c = (p, c)
  receive (some val) p c =
      let p₁ = record p {
        cycles_before_next_read = cycles_before_next_read_max;
        current_read_byte = val;
        current_byte_read = false;
      } in
      if p.interrupt_enable && p.data_avail_irq
      then (
        record p₁ { irq_queue = p.irq_queue ++ (SerialIrq.data_avail ∷ []) },
        queue_hw_interrupt 0x0C c,
      )
      else (p₁, c)

  unfoldable pub step : SerialDevice T → SerialPort T → Cpu → Result (SerialPort T × Cpu)
  step d p c =
      let p₁ = record p { cycles_before_next_read = p.cycles_before_next_read - 1 } in
      if p₁.cycles_before_next_read == 0 && p₁.current_byte_read
      then (d.read p₁.device >>= λ (val, dev). ok (receive val (record p₁ { device = dev }) c))
      else ok (p₁, c)
