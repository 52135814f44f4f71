-- ===== src/Syscalls/Console.antt =====
-- `_write_r` and `_read_r`: what reaches the console.
use t113_c.Base.{ℕ, ◌==◌, ◌≡◌, refl, sym, true, false, arith}
use t113_c.Base.{List, [], ◌∷◌, ◌++◌, length, none, u8, if◌then◌else◌, ℤ, pos}
use mathlib.Core.List.{append-nil, append_assoc}
use t113_c.Hw.{Device, Trace}
use t113_c.Hw.History.{bytes_out}
use t113_c.Uart.{uart_send_byte, thr, is_ok}
use t113_c.Uart.Transfer.{as_bytes, Transmits, uart_send_byte-out, uart_send_byte-code}
use t113_c.Syscalls.{uart_base, is_standard, write_loop, write_r}

-- A text with a carriage return before each line feed.
abbrev pub crlf : List ℕ → List ℕ
crlf [] = []
crlf (b ∷ bs) = if b == 10 then 13 ∷ b ∷ crlf bs else b ∷ crlf bs

module _ (dev : Device) where
  abbrev pub console_out : Trace → List ℕ
  console_out t = bytes_out (thr uart_base) t

  -- The port never takes a byte.
  abbrev pub Silent : Type 0
  Silent = (t : Trace) → is_ok (uart_send_byte dev uart_base 0 t).0 ≡ false

  sent :
      Transmits dev uart_base
      → (ch : ℕ) (t : Trace)
      → console_out (uart_send_byte dev uart_base ch t).1 ≡ console_out t ++ (u8 ch ∷ [])
  sent ready ch t = ground (
    arith,
    uart_send_byte-out dev uart_base ch t,
    uart_send_byte-code dev uart_base ch t,
    ready t,
  )

  lost :
      Silent
      → (ch : ℕ) (t : Trace) → console_out (uart_send_byte dev uart_base ch t).1 ≡ console_out t
  lost silent ch t = ground (
    arith,
    uart_send_byte-out dev uart_base ch t,
    uart_send_byte-code dev uart_base ch t,
    silent t,
    append-nil (console_out t),
  )

  write_loop-crlf :
      Transmits dev uart_base
      → (buf : List ℕ) (t : Trace)
      → console_out (write_loop dev buf t).1 ≡ console_out t ++ as_bytes (crlf buf)
  unfolding write_loop
  write_loop-crlf ready [] t = sym (append-nil _)
  write_loop-crlf ready (b ∷ buf) t =
      let t1 = (uart_send_byte dev uart_base 13 t).1 in
      let plain = (uart_send_byte dev uart_base (u8 b) t).1 in
      let after = (uart_send_byte dev uart_base (u8 b) t1).1 in
      let rest = as_bytes (crlf buf) in
      ground (
        arith,
        sent ready 13 t,
        sent ready (u8 b) t,
        sent ready (u8 b) t1,
        write_loop-crlf ready buf plain,
        write_loop-crlf ready buf after,
        append_assoc (console_out t) (u8 b ∷ []) rest,
        append_assoc (console_out t) (13 ∷ []) (u8 b ∷ rest),
        append_assoc (console_out t ++ (13 ∷ [])) (u8 b ∷ []) rest,
      )

  write_loop-lost :
      Silent → (buf : List ℕ) (t : Trace) → console_out (write_loop dev buf t).1 ≡ console_out t
  unfolding write_loop
  write_loop-lost silent [] t = refl
  write_loop-lost silent (b ∷ buf) t =
      let t1 = (uart_send_byte dev uart_base 13 t).1 in
      ground (
        arith,
        lost silent 13 t,
        lost silent (u8 b) t,
        lost silent (u8 b) t1,
        write_loop-lost silent buf (uart_send_byte dev uart_base (u8 b) t).1,
        write_loop-lost silent buf (uart_send_byte dev uart_base (u8 b) t1).1,
      )

  -- Where the port always takes a byte in time, `_write_r` on standard input, output or error, or on
  -- a negative descriptor, sends the buffer with a carriage return before each line feed, and
  -- returns its length.
  pub write_r-crlf :
      (fd : ℤ) (buf : List ℕ) (t : Trace)
      → Transmits dev uart_base
      → is_standard fd ≡ true
      → let (result, t') = write_r dev fd buf t in
        (result ≡ (pos (length buf), none))
        × (console_out t' ≡ console_out t ++ as_bytes (crlf buf))
  unfolding write_r
  write_r-crlf fd buf t ready std =
      (ground (arith, std), ground (arith, std, write_loop-crlf ready buf t))

  -- Where the port never takes a byte, `_write_r` sends nothing, and returns the length all the same.
  pub write_r-lost :
      (fd : ℤ) (buf : List ℕ) (t : Trace)
      → Silent
      → is_standard fd ≡ true
      → let (result, t') = write_r dev fd buf t in
        (result ≡ (pos (length buf), none)) × (console_out t' ≡ console_out t)
  unfolding write_r
  write_r-lost fd buf t silent std =
      (ground (arith, std), ground (arith, std, write_loop-lost silent buf t))
