-- ===== src/Uart/Tests.antt =====
-- The serial theorems at the console's address, on a port that is always ready and on one that
-- never is.
use t113_c.Base.{
  ℕ, ◌+◌, ◌*◌, ◌<◌, ◌≤◌, ◌%◌, ◌^◌, ◌==◌, if◌then◌else◌, leb, ◌&&◌, ◌||◌, ◌≡◌, refl, arith,
}
use t113_c.Base.{[], ◌∷◌, ◌++◌, some, pos, u8, bit_and, ◌>>>◌, length}
use t113_c.Hw.{Device, Trace, store, w8}
use t113_c.Hw.History.{bytes_out}
use t113_c.Uart.{lsr, lcr, halt, thr, rbr, uart_set_format, uart_set_baudrate, uart_send, uart_recv}
use t113_c.Uart.{ok, timeout, divisor, uart_send_byte, wait_until, timeout_us, lcrup_clear}
use t113_c.Uart.Wait.{look, after_looks}
use t113_c.Uart.Format.{frame, data_bits_of, stop_bits_of, parity_of, dlab_of, uart_set_format_lem}
use t113_c.Uart.Baud.{divisor-nearest, at_wait, old_lcr, uart_set_baudrate-updated}
use t113_c.Uart.Baud.{uart_set_baudrate-timeout}
use t113_c.Uart.Transfer.{Sent, uart_send-prefix, uart_send-all, Transmits, as_bytes}

abbrev console : ℕ
console = 0x02500800

abbrev serial : Device
serial = record { bus = λ t w a. if a == lsr console then 0x61 else 0x10; csr_of = λ t c. 0 }

abbrev stuck : Device
stuck = record { bus = λ t w a. 0x04; csr_of = λ t c. 0 }

-- 7 data bits, 2 stop bits, even parity.
format_run : frame 7 2 2 ≡ 0x1e
unfolding t113_c.Uart.with_data_bits t113_c.Uart.with_stop_bits t113_c.Uart.with_parity
format_run = refl

divisor_run : divisor 24000000 115200 ≡ 13
unfolding divisor
divisor_run = refl

serial-Transmits : Transmits serial console
unfolding uart_send_byte wait_until t113_c.Hw.readb
serial-Transmits t = refl

uart_set_format_lem_example :
    let v = frame 7 2 2 in
    (uart_set_format console 7 2 2 [] ≡ (ok, store w8 (lcr console) v ∷ []))
    × (data_bits_of v ≡ (if leb 5 7 && leb 7 7 then 7 else 8))
    × (stop_bits_of v ≡ (if 2 == 2 then 2 else 1))
    × (parity_of v ≡ (if (2 == 1) || (2 == 2) then 2 else 0))
    × (dlab_of v ≡ 0)
uart_set_format_lem_example = uart_set_format_lem console 7 2 2 []

divisor-nearest_example :
    let q = divisor 24000000 115200 in
    (16 * 115200 * q ≤ 24000000 + 8 * 115200)
    × (24000000 < 16 * 115200 * q + 8 * 115200)
    × (256 * u8 (q >>> 8) + bit_and q 0xff ≡ q % 2 ^ 16)
divisor-nearest_example = divisor-nearest 24000000 115200 (omega arith) (omega arith) (omega arith)

uart_set_baudrate-updated_example : uart_set_baudrate serial console 24000000 115200 [] ≡ (
  ok,
  store w8 (halt console) 2
      ∷ store w8 (lcr console) (old_lcr serial console 24000000 115200 [])
      ∷ look serial (lcrup_clear serial) (halt console) (
          after_looks serial
            (lcrup_clear serial)
            (halt console)
            0
            (at_wait serial console 24000000 115200 [])),
)
uart_set_baudrate-updated_example =
    uart_set_baudrate-updated serial console 24000000 115200 [] 0 (omega arith) (omega arith)
      (λ j lt. absurd (omega arith)) refl

uart_set_baudrate-timeout_example : uart_set_baudrate stuck console 24000000 115200 [] ≡ (
  timeout,
  look stuck (lcrup_clear stuck) (halt console) (
      after_looks stuck
        (lcrup_clear stuck)
        (halt console)
        timeout_us
        (at_wait stuck console 24000000 115200 [])),
)
uart_set_baudrate-timeout_example =
    uart_set_baudrate-timeout stuck console 24000000 115200 [] (omega arith) (λ j lt. refl)

uart_send-prefix_example :
    let (z, t') = uart_send serial console (some (0x68 ∷ 0x69 ∷ [])) [] in
    (k : ℕ) × (z ≡ pos k) × Sent serial console (0x68 ∷ 0x69 ∷ []) k [] t'
uart_send-prefix_example = uart_send-prefix serial console 0x68 (0x69 ∷ []) []

uart_send-all_example :
    let (z, t') = uart_send serial console (some (0x68 ∷ 0x69 ∷ [])) [] in
    (z ≡ pos (length {A = ℕ} (0x68 ∷ 0x69 ∷ [])))
    × (bytes_out (thr console) t' ≡ bytes_out (thr console) [] ++ as_bytes (0x68 ∷ 0x69 ∷ []))
uart_send-all_example = uart_send-all serial console serial-Transmits 0x68 (0x69 ∷ []) []
