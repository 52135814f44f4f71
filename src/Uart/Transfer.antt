-- ===== src/Uart/Transfer.antt =====
-- The bytes that `uart_send` and `uart_recv` move, on any device.
use t113_c.Base.{
  ℕ, zero, suc, ◌+◌, ◌≤◌, ◌<◌, ap, Option-cases, ◌≡◌, refl, ◌∙◌, sym, true, false, arith,
}
use t113_c.Base.{List, [], ◌∷◌, ◌++◌, length, take, none, some, u8, if◌then◌else◌}
use t113_c.Base.{pos, Bool-cases, inl, inr}
use mathlib.Core.List.{append-nil, append_assoc}
use t113_c.Hw.{Device, Trace, writeb, readb}
use t113_c.Hw.History.{bytes_out, bytes_in}
use t113_c.Uart.{uart_send_byte, uart_recv_byte, send_loop, recv_loop, uart_send, uart_recv, is_ok}
use t113_c.Uart.{lsr, thr, rbr, thr_empty, data_ready, timeout_us}
use t113_c.Uart.Wait.{wait_until-bytes_out, wait_until-bytes_in}

-- The bytes as the 8-bit store cuts them.
abbrev pub as_bytes : List ℕ → List ℕ
as_bytes [] = []
as_bytes (x ∷ xs) = u8 x ∷ as_bytes xs

module _ (dev : Device) (base : ℕ) where
  pub uart_send_byte-out :
      (ch : ℕ) (t : Trace)
      → let (e, t') = uart_send_byte dev base ch t in
        bytes_out (thr base) t' ≡ bytes_out (thr base) t ++ (if is_ok e then u8 ch ∷ [] else [])
  unfolding uart_send_byte writeb bytes_out
  uart_send_byte-out ch t = ground (
    arith,
    wait_until-bytes_out dev (thr_empty dev) (lsr base) (thr base) timeout_us t,
    append-nil (bytes_out (thr base) t),
  )

  -- What a send of `bytes` has done when it returns: of the bytes, the first `count` are out.
  abbrev pub Sent : List ℕ → ℕ → Trace → Trace → Type 0
  Sent bytes count t t' =
      (count ≤ length bytes)
      × (bytes_out (thr base) t' ≡ bytes_out (thr base) t ++ as_bytes (take count bytes))

  send_loop-ok :
      (ch : ℕ) (bytes : List ℕ) (sent : ℕ) (t : Trace)
      → let (e, t1) = uart_send_byte dev base ch t in
        is_ok e ≡ true
        → send_loop dev base (ch ∷ bytes) sent t ≡ send_loop dev base bytes (sent + 1) t1
  unfolding send_loop
  send_loop-ok ch bytes sent t good = ground (arith, good)

  send_loop-stop :
      (ch : ℕ) (bytes : List ℕ) (sent : ℕ) (t : Trace)
      → let (e, t1) = uart_send_byte dev base ch t in
        is_ok e ≡ false → send_loop dev base (ch ∷ bytes) sent t ≡ (sent, t1)
  unfolding send_loop
  send_loop-stop ch bytes sent t bad = ground (arith, bad)

  send_loop-Sent :
      (bytes : List ℕ) (sent : ℕ) (t : Trace)
      → let (n, t') = send_loop dev base bytes sent t in
        (k : ℕ) × (n ≡ sent + k) × Sent bytes k t t'
  send_loop-Sent [] sent t =
      unfold send_loop in ((0, omega arith, (omega arith, sym (append-nil _))))
  send_loop-Sent (ch ∷ bytes) sent t =
      let (e, t1) = uart_send_byte dev base ch t in
      let one = uart_send_byte-out ch t in
      elim (Bool-cases (is_ok e)) [
        | inl good ↦
            let (k, count, sent_k) = send_loop-Sent bytes (sent + 1) t1 in
            let joined =
              append_assoc (bytes_out (thr base) t) (u8 ch ∷ []) (as_bytes (take k bytes)) in
            rw (send_loop-ok ch bytes sent t good) (
              suc k,
              count ∙ omega arith,
              (omega (arith, sent_k.0), sent_k.1 ∙ ground (arith, one, good, joined)),
            )
        | inr bad ↦
            rw (send_loop-stop ch bytes sent t bad)
              (0, omega arith, (omega arith, ground (arith, one, bad)))
      ]

  -- On any device, `uart_send` of at least one byte returns a count `k`: the first `k` bytes were
  -- written to the transmit register, in order, and nothing else.
  pub uart_send-prefix :
      (ch : ℕ) (bytes : List ℕ) (t : Trace)
      → let (z, t') = uart_send dev base (some (ch ∷ bytes)) t in
        (k : ℕ) × (z ≡ pos k) × Sent (ch ∷ bytes) k t t'
  unfolding uart_send
  uart_send-prefix ch bytes t =
      let (k, count, sent) = send_loop-Sent (ch ∷ bytes) 0 t in
      (k, ap pos (count ∙ omega arith), sent)

  -- The transmit holding register empties within the wait, whatever happened before.
  abbrev pub Transmits : Type 0
  Transmits = (t : Trace) → is_ok (uart_send_byte dev base 0 t).0 ≡ true

  pub uart_send_byte-code :
      (ch : ℕ) (t : Trace) → (uart_send_byte dev base ch t).0 ≡ (uart_send_byte dev base 0 t).0
  unfolding uart_send_byte
  uart_send_byte-code ch t = ground arith

  send_loop-all :
      Transmits
      → (bytes : List ℕ) (sent : ℕ) (t : Trace)
      → let (n, t') = send_loop dev base bytes sent t in
        (n ≡ sent + length bytes)
        × (bytes_out (thr base) t' ≡ bytes_out (thr base) t ++ as_bytes bytes)
  send_loop-all ready [] sent t = unfold send_loop in ((omega arith, sym (append-nil _)))
  send_loop-all ready (ch ∷ bytes) sent t =
      let (e, t1) = uart_send_byte dev base ch t in
      let good : is_ok e ≡ true = rw (uart_send_byte-code ch t) (ready t) in
      let (count, out) = send_loop-all ready bytes (sent + 1) t1 in
      let joined = append_assoc (bytes_out (thr base) t) (u8 ch ∷ []) (as_bytes bytes) in
      rw (send_loop-ok ch bytes sent t good)
        (count ∙ omega arith, out ∙ ground (arith, good, uart_send_byte-out ch t, joined))

  -- On a device whose transmit register always empties in time, `uart_send` sends every byte.
  pub uart_send-all :
      Transmits
      → (ch : ℕ) (bytes : List ℕ) (t : Trace)
      → let (z, t') = uart_send dev base (some (ch ∷ bytes)) t in
        (z ≡ pos (length (ch ∷ bytes)))
        × (bytes_out (thr base) t' ≡ bytes_out (thr base) t ++ as_bytes (ch ∷ bytes))
  unfolding uart_send
  uart_send-all ready ch bytes t =
      let (count, out) = send_loop-all ready (ch ∷ bytes) 0 t in (ap pos (count ∙ omega arith), out)

  uart_recv_byte-in :
      (t : Trace)
      → let ((e, got), t') = uart_recv_byte dev base false t in
        bytes_in (rbr base) t' ≡ bytes_in (rbr base) t ++ elim got [ none ↦ [] | some ch ↦ ch ∷ [] ]
  unfolding uart_recv_byte readb bytes_in
  uart_recv_byte-in t = ground (
    arith,
    wait_until-bytes_in dev (data_ready dev) (lsr base) (rbr base) timeout_us t (λ e. omega arith),
    append-nil (bytes_in (rbr base) t),
  )

  recv_loop-none :
      (left : ℕ) (t : Trace)
      → let ((e, got), t1) = uart_recv_byte dev base false t in
        got ≡ none → recv_loop dev base (suc left) t ≡ ([], t1)
  unfolding recv_loop
  recv_loop-none left t missing = ground (arith, missing)

  recv_loop-some :
      (left ch : ℕ) (t : Trace)
      → let ((e, got), t1) = uart_recv_byte dev base false t in
        let (more, t2) = recv_loop dev base left t1 in
        got ≡ some ch → recv_loop dev base (suc left) t ≡ (ch ∷ more, t2)
  unfolding recv_loop
  recv_loop-some left ch t found = ground (arith, found)

  pub recv_loop-in :
      (left : ℕ) (t : Trace)
      → let (got, t') = recv_loop dev base left t in
        (length got ≤ left) × (bytes_in (rbr base) t' ≡ bytes_in (rbr base) t ++ got)
  recv_loop-in zero t = unfold recv_loop in ((omega arith, sym (append-nil _)))
  recv_loop-in (suc left) t =
      let (r, t1) = uart_recv_byte dev base false t in
      let one = uart_recv_byte-in t in
      let (le, in_rest) = recv_loop-in left t1 in
      let more = (recv_loop dev base left t1).0 in
      elim (Option-cases r.1) [
        | inl missing ↦
            rw (recv_loop-none left t missing) (omega arith, ground (arith, one, missing))
        | inr (ch, found) ↦ rw (recv_loop-some left ch t found) (
          omega (arith, le),
          in_rest ∙ ground (arith, one, found, append_assoc (bytes_in (rbr base) t) (ch ∷ []) more),
        )
      ]

  uart_recv-loop :
      (left : ℕ) (t : Trace)
      → let (got, t') = recv_loop dev base (suc left) t in
        uart_recv dev base false (suc left) t ≡ ((pos (length got), got), t')
  unfolding uart_recv
  uart_recv-loop left t = ground arith

  -- On any device, `uart_recv` into a buffer that is not NULL, for at least one byte, returns the
  -- number of bytes that it stored, at most `len`; they are what it read from the receive
  -- register, in order, and it read that register for nothing else.
  pub uart_recv-in :
      (len : ℕ) (t : Trace)
      → 0 < len
      → let ((z, got), t') = uart_recv dev base false len t in
        (z ≡ pos (length got))
        × (length got ≤ len)
        × (bytes_in (rbr base) t' ≡ bytes_in (rbr base) t ++ got)
  uart_recv-in zero t h = absurd (omega arith)
  uart_recv-in (suc left) t h =
      let (le, got) = recv_loop-in (suc left) t in rw (uart_recv-loop left t) (refl, le, got)
