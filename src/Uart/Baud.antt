-- ===== src/Uart/Baud.antt =====
-- `uart_set_baudrate`: the divisor, and the sequence of writes on both ends of its wait.
use t113_c.Base.{ℕ, suc, ◌+◌, ◌*◌, ◌/◌, ◌%◌, ◌^◌, ◌≤◌, ◌<◌, ◌≡◌}
use t113_c.Base.{◌∷◌, bit_and, bit_or, ◌>>>◌, arith, u8, true}
use t113_c.Base.Bits.{bit_and-mask}
use t113_c.Hw.{Device, Trace, answer, load, store, w8, writeb, readb}
use t113_c.Uart.{
  divisor, uart_set_baudrate, lcrup_clear, lcr, halt, dlh, dll, timeout_us, ok, timeout,
}
use t113_c.Uart.Wait.{look, after_looks, NotReady, ready_at, wait_until-ready, wait_until-never}
use native.Mathlib.Nat.{mod-eq_of_lt, mod-lt, div-add-mod}

-- Where no product wraps, the divisor is the integer nearest to `uart_clk / (16 * baudrate)`, and the
-- two latch bytes give it back if it fits in 16 bits.
pub divisor-nearest :
    (uart_clk baudrate : ℕ)
    → 0 < baudrate
    → baudrate < 2 ^ 28
    → uart_clk + 8 * baudrate < 2 ^ 32
    → let q = divisor uart_clk baudrate in
      (16 * baudrate * q ≤ uart_clk + 8 * baudrate)
      × (uart_clk < 16 * baudrate * q + 8 * baudrate)
      × (256 * u8 (q >>> 8) + bit_and q 0xff ≡ q % 2 ^ 16)
unfolding divisor
divisor-nearest clk b low high fits =
    let q = divisor clk b in
    let n = clk + 8 * b in
    let d = 16 * b in
    let whole : q ≡ n / d = ground (
      arith,
      mod-eq_of_lt {n = 8 * b} {m = 2 ^ 32} (omega arith),
      mod-eq_of_lt {n = n} {m = 2 ^ 32} fits,
      mod-eq_of_lt {n = d} {m = 2 ^ 32} (omega arith),
    ) in
    let split : d * (n / d) + n % d ≡ n = div-add-mod n d in
    let rest : n % d < d = mod-lt n (omega arith) in
    rw whole (omega arith, omega arith, omega (arith, bit_and-mask 8 (n / d)))

module _ (dev : Device) (base uart_clk baudrate : ℕ) (t : Trace) where
  abbrev pub old_lcr : ℕ
  old_lcr = answer dev w8 (lcr base) t

  -- The history at the wait: transmission is halted, the latch is open, and the divisor is in it.
  abbrev pub at_wait : Trace
  at_wait =
      let quot = divisor uart_clk baudrate in
      store w8 (halt base) 7
      ∷ store w8 (dll base) (bit_and quot 0xff % 2 ^ 8)
      ∷ store w8 (dlh base) (u8 (quot >>> 8) % 2 ^ 8)
      ∷ store w8 (lcr base) (bit_or old_lcr 0x80 % 2 ^ 8)
      ∷ store w8 (halt base) 3
      ∷ load w8 (lcr base) old_lcr
      ∷ t

  -- If the device ends the update at the look `k`, one of 100001, `uart_set_baudrate` succeeds: it
  -- then writes back the line control register as it found it, and lets transmission go on.
  pub uart_set_baudrate-updated :
      (k : ℕ)
      → 0 < baudrate
      → k ≤ timeout_us
      → NotReady dev (lcrup_clear dev) (halt base) k at_wait
      → ready_at dev
          (lcrup_clear dev)
          (halt base)
          (after_looks dev (lcrup_clear dev) (halt base) k at_wait)
        ≡ true
      → uart_set_baudrate dev base uart_clk baudrate t ≡ (
        ok,
        store w8 (halt base) 2
            ∷ store w8 (lcr base) old_lcr
            ∷ look dev
                (lcrup_clear dev)
                (halt base)
                (after_looks dev (lcrup_clear dev) (halt base) k at_wait),
      )
  unfolding uart_set_baudrate writeb readb
  uart_set_baudrate-updated k low le busy done =
      ground (
        arith,
        wait_until-ready dev (lcrup_clear dev) (halt base) k timeout_us at_wait le busy done,
      )

  -- If no look finds the update ended, it returns UART_ERROR_TIMEOUT and leaves the history as the
  -- wait does: the latch is open and transmission is halted.
  pub uart_set_baudrate-timeout :
      0 < baudrate
      → NotReady dev (lcrup_clear dev) (halt base) (suc timeout_us) at_wait
      → uart_set_baudrate dev base uart_clk baudrate t ≡ (
        timeout,
        look dev
            (lcrup_clear dev)
            (halt base)
            (after_looks dev (lcrup_clear dev) (halt base) timeout_us at_wait),
      )
  unfolding uart_set_baudrate writeb readb
  uart_set_baudrate-timeout low busy =
      ground (arith, wait_until-never dev (lcrup_clear dev) (halt base) timeout_us at_wait busy)
