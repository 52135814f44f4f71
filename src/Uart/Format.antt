-- ===== src/Uart/Format.antt =====
-- The frame format: what the line control register says after `uart_set_format`.
use t113_c.Base.{ℕ, ◌+◌, ◌%◌, ◌^◌, ◌==◌, leb, if◌then◌else◌, ◌&&◌, ◌||◌, ◌≡◌, refl}
use t113_c.Base.{◌∷◌, arith}
use t113_c.Base.Bits.{digit}
use t113_c.Hw.{Trace, store, w8, writeb}
use t113_c.Uart.{with_data_bits, with_stop_bits, with_parity, uart_set_format, ok, lcr}

-- How the hardware reads the register: the data bits, the stop bits, and the parity with 0 for
-- none, 1 for odd and 2 for even.
abbrev pub data_bits_of : ℕ → ℕ
data_bits_of v = v % 4 + 5

abbrev pub stop_bits_of : ℕ → ℕ
stop_bits_of v = digit v 2 + 1

abbrev pub parity_of : ℕ → ℕ
parity_of v = if digit v 3 == 0 then 0 else digit v 4 + 1

abbrev pub dlab_of : ℕ → ℕ
dlab_of v = digit v 7

-- The byte that is written.
abbrev pub frame : ℕ → ℕ → ℕ → ℕ
frame data_bits stop_bits parity =
    with_parity parity (with_stop_bits stop_bits (with_data_bits data_bits 0)) % 2 ^ 8

-- `uart_set_format` writes one byte, to LCR. Read back, the byte gives the data bits, the stop bits
-- and the parity that were asked for, or 8, 1 and none in place of a value that is not defined, and
-- leaves the divisor latch closed.
pub uart_set_format_lem :
    (base data_bits stop_bits parity : ℕ) (t : Trace)
    → let v = frame data_bits stop_bits parity in
      (uart_set_format base data_bits stop_bits parity t ≡ (ok, store w8 (lcr base) v ∷ t))
      × (data_bits_of v ≡ (if leb 5 data_bits && leb data_bits 7 then data_bits else 8))
      × (stop_bits_of v ≡ (if stop_bits == 2 then 2 else 1))
      × (parity_of v ≡ (if parity == 1 || parity == 2 then parity else 0))
      × (dlab_of v ≡ 0)
unfolding uart_set_format with_data_bits with_stop_bits with_parity writeb digit
uart_set_format_lem base d s p t = (refl, ground arith, ground arith, ground arith, ground arith)
