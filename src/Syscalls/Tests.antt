-- ===== src/Syscalls/Tests.antt =====
-- The system calls on a port that takes every byte, on one that takes none, and a heap of 4096 bytes.
use t113_c.Base.{ℕ, ◌==◌, if◌then◌else◌, ◌≡◌, refl, arith}
use t113_c.Base.{[], ◌∷◌, ◌++◌, length, none, pos}
use t113_c.Hw.{Device}
use t113_c.Uart.{uart_send_byte, wait_until, lsr}
use t113_c.Uart.Transfer.{as_bytes, Transmits}
use t113_c.Uart.Wait.{wait_until-never}
use t113_c.Syscalls.{uart_base, write_r}
use t113_c.Syscalls.Console.{crlf, console_out, Silent, write_r-crlf, write_r-lost}
use t113_c.Syscalls.Heap.{grow, Packed, grow-Packed}

abbrev port : Device
port = record { bus = λ t w a. if a == lsr uart_base then 0x61 else 0x41; csr_of = λ t c. 0 }

abbrev dead : Device
dead = record { bus = λ t w a. 0; csr_of = λ t c. 0 }

port-Transmits : Transmits port uart_base
unfolding uart_send_byte wait_until t113_c.Hw.readb
port-Transmits t = refl

dead-Silent : Silent dead
unfolding uart_send_byte
dead-Silent t = ground (
  arith,
  wait_until-never dead (t113_c.Uart.thr_empty dead) (lsr uart_base) 100000 t (λ j lt. refl),
)

write_r-crlf_example :
    let (result, t') = write_r port (pos 1) (72 ∷ 10 ∷ []) [] in
    (result ≡ (pos (length {A = ℕ} (72 ∷ 10 ∷ [])), none))
    × (console_out port t' ≡ console_out port [] ++ as_bytes (crlf (72 ∷ 10 ∷ [])))
write_r-crlf_example = write_r-crlf port (pos 1) (72 ∷ 10 ∷ []) [] port-Transmits refl

write_r-lost_example :
    let (result, t') = write_r dead (pos 1) (72 ∷ 10 ∷ []) [] in
    (result ≡ (pos (length {A = ℕ} (72 ∷ 10 ∷ [])), none))
    × (console_out dead t' ≡ console_out dead [])
write_r-lost_example = write_r-lost dead (pos 1) (72 ∷ 10 ∷ []) [] dead-Silent refl

grow-Packed_example :
    let (h', blocks') = grow 0x1000 0x2000 (16 ∷ 8192 ∷ 32 ∷ []) none [] in
    Packed 0x1000 0x2000 h' blocks'
grow-Packed_example =
    grow-Packed 0x1000 0x2000 (16 ∷ 8192 ∷ 32 ∷ []) none [] (omega arith)
      (omega arith, (omega arith, (omega arith, tt))) (refl, omega arith)
