-- ===== src/Uart.antt =====
-- hal/sources/uart.c and uart.h: the driver of the serial port.
pub mod Wait
pub mod Format
pub mod Baud
pub mod Transfer
mod Tests
use t113_c.Base.{
  ℕ, zero, suc, ◌+◌, ◌-◌, ◌*◌, ◌/◌, ◌^◌, ◌==◌, if◌then◌else◌, Bool, true, false, not, ◌||◌,
}
use t113_c.Base.{
  length, List, [], ◌∷◌, Option, none, some, bit_and, bit_or, ◌>>>◌, complement, u8, u32,
}
use t113_c.Base.{ℤ, pos, negsuc}
use t113_c.Hw.{Hw, Device, readb, writeb, return, ◌>>=◌, ◌>>◌}
use t113_c.Delay.{udelay}

-- `uart_error_t`, and its values as an `int`.
pub data UartError : Type 0 where
  ok error param timeout : UartError

abbrev pub is_ok : UartError → Bool
is_ok ok = true
is_ok _ = false

abbrev pub error_param : ℤ
error_param = negsuc 1

-- The registers. The address is a sum in 32 bits.
abbrev pub reg : ℕ → ℕ → ℕ
reg base offset = u32 (base + offset)

abbrev pub rbr : ℕ → ℕ
rbr base = reg base 0x00

abbrev pub thr : ℕ → ℕ
thr base = reg base 0x00

abbrev pub dll : ℕ → ℕ
dll base = reg base 0x00

abbrev pub dlh : ℕ → ℕ
dlh base = reg base 0x04

abbrev pub ier : ℕ → ℕ
ier base = reg base 0x04

abbrev pub fcr : ℕ → ℕ
fcr base = reg base 0x08

abbrev pub lcr : ℕ → ℕ
lcr base = reg base 0x0c

abbrev pub lsr : ℕ → ℕ
lsr base = reg base 0x14

abbrev pub usr : ℕ → ℕ
usr base = reg base 0x7c

abbrev pub halt : ℕ → ℕ
halt base = reg base 0xA4

-- UART_TIMEOUT_US
abbrev pub timeout_us : ℕ
timeout_us = 100000

-- `uart_config_t`
pub record UartConfig : Type 0 where
  pub base_addr : ℕ
  pub uart_clk : ℕ
  pub baudrate : ℕ
  pub data_bits : ℕ
  pub stop_bits : ℕ
  pub parity : ℕ

-- The three `switch` statements of `uart_set_format`, each on the value of `lcr` so far.
pub with_data_bits : ℕ → ℕ → ℕ
with_data_bits data_bits v =
    if data_bits == 5
    then bit_or v 0x0
    else if data_bits == 6
    then bit_or v 0x1
    else if data_bits == 7
    then bit_or v 0x2
    else bit_or v 0x3

pub with_stop_bits : ℕ → ℕ → ℕ
with_stop_bits stop_bits v =
    if stop_bits == 2 then bit_or v 0x04 else bit_and v (complement 32 0x04)

pub with_parity : ℕ → ℕ → ℕ
with_parity parity v =
    if parity == 1
    then bit_and (bit_or v 0x08) (complement 32 0x10)
    else if parity == 2
    then bit_or v (bit_or 0x08 0x10)
    else bit_and v (complement 32 0x08)

-- `uint32_t` division. By zero it is undefined in C; the core's `divuw` gives all ones.
abbrev pub div_u32 : ℕ → ℕ → ℕ
div_u32 a b = if b == 0 then 2 ^ 32 - 1 else a / b

-- `(uart_clk + 8 * baudrate) / (16 * baudrate)` in 32 bits
pub divisor : ℕ → ℕ → ℕ
divisor uart_clk baudrate = div_u32 (u32 (uart_clk + u32 (8 * baudrate))) (u32 (16 * baudrate))

pub uart_set_format : ℕ → ℕ → ℕ → ℕ → Hw UartError
uart_set_format base data_bits stop_bits parity = do
  writeb (with_parity parity (with_stop_bits stop_bits (with_data_bits data_bits 0))) (lcr base)
  return ok

pub uart_deinit : Option UartConfig → Hw UartError
uart_deinit none = return param
uart_deinit (some c) = do writeb 0 (fcr c.base_addr); writeb 0 (ier c.base_addr); return ok

module _ (dev : Device) where
  -- `while (!ready(readb(a))) { if (timeout-- == 0) return …; udelay(1); }`, which answers whether
  -- the loop ended because the register was ready.
  unfoldable pub wait_until : (ℕ → Bool) → ℕ → ℕ → Hw Bool
  wait_until ready a zero = do v ← readb dev a; return (ready v)
  wait_until ready a (suc left) = do
    v ← readb dev a
    elim (ready v) [ true ↦ return true | false ↦ (do udelay 1; wait_until ready a left) ]

  -- LCRUP, bit 2 of the halt register, is still set.
  abbrev pub lcrup_clear : ℕ → Bool
  lcrup_clear v = bit_and v 0x04 == 0

  pub uart_set_baudrate : ℕ → ℕ → ℕ → Hw UartError
  uart_set_baudrate base uart_clk baudrate = if baudrate == 0 then return param else do
    old ← readb dev (lcr base)
    let quot = divisor uart_clk baudrate
    writeb (bit_or 0x1 0x2) (halt base)
    writeb (bit_or old 0x80) (lcr base)
    writeb (u8 (quot >>> 8)) (dlh base)
    writeb (bit_and quot 0xff) (dll base)
    writeb (bit_or (bit_or 0x1 0x2) 0x4) (halt base)
    updated ← wait_until lcrup_clear (halt base) timeout_us
    elim updated [
      | false ↦ return timeout
      | true ↦ (do writeb old (lcr base); writeb 0x2 (halt base); return ok)
    ]

  pub uart_enable_fifo : ℕ → Hw UartError
  uart_enable_fifo base = do
    writeb (bit_or (bit_or (bit_or (bit_or 0x01 0x02) 0x04) 0x80) 0x20) (fcr base)
    _ ← readb dev (fcr base)
    return ok

  -- `none` is NULL. A failure of a step is reported as UART_ERROR, and ends the setup.
  pub uart_init : Option UartConfig → Hw UartError
  uart_init none = return param
  uart_init (some c) = do
    e1 ← uart_set_format c.base_addr c.data_bits c.stop_bits c.parity
    elim (is_ok e1) [
      | false ↦ return error
      | true ↦ do
        e2 ← uart_set_baudrate c.base_addr c.uart_clk c.baudrate
        elim (is_ok e2) [
          | false ↦ return error
          | true ↦ do
            e3 ← uart_enable_fifo c.base_addr
            elim (is_ok e3) [ false ↦ return error | true ↦ return ok ]
        ]
    ]

  -- UART_LSR_THRE and UART_LSR_DR
  abbrev pub thr_empty : ℕ → Bool
  thr_empty v = not (bit_and v 0x20 == 0)

  abbrev pub data_ready : ℕ → Bool
  data_ready v = not (bit_and v 0x01 == 0)

  unfoldable pub uart_send_byte : ℕ → ℕ → Hw UartError
  uart_send_byte base ch = do
    empty ← wait_until thr_empty (lsr base) timeout_us
    elim empty [ false ↦ return timeout | true ↦ (do writeb ch (thr base); return ok) ]

  -- What is stored in `*ch` comes with the result. `is_null` is `ch == NULL`.
  pub uart_recv_byte : ℕ → Bool → Hw (UartError × Option ℕ)
  uart_recv_byte base true = return (param, none)
  uart_recv_byte base false = do
    ready ← wait_until data_ready (lsr base) timeout_us
    elim ready [
      | false ↦ return (timeout, none)
      | true ↦ (do ch ← readb dev (rbr base); return (ok, some ch))
    ]

  -- The loop of `uart_send`, with `sent` so far.
  pub send_loop : ℕ → List ℕ → ℕ → Hw ℕ
  send_loop base [] sent = return sent
  send_loop base (ch ∷ bytes) sent = do
    e ← uart_send_byte base ch
    elim (is_ok e) [ true ↦ send_loop base bytes (sent + 1) | false ↦ return sent ]

  -- `bytes` stands for the `len` bytes that the pointer names, fewer than 2 ^ 31; `none` is NULL.
  pub uart_send : ℕ → Option (List ℕ) → Hw ℤ
  uart_send base none = return error_param
  uart_send base (some []) = return error_param
  uart_send base (some (ch ∷ bytes)) = do sent ← send_loop base (ch ∷ bytes) 0; return (pos sent)

  -- The loop of `uart_recv` for `left` more bytes; it returns those that it stored, in order.
  unfoldable pub recv_loop : ℕ → ℕ → Hw (List ℕ)
  recv_loop base zero = return []
  recv_loop base (suc left) = do
    got ← uart_recv_byte base false
    elim got.1 [ none ↦ return [] | some ch ↦ (do more ← recv_loop base left; return (ch ∷ more)) ]

  -- The result, and the bytes stored at the front of the buffer.
  pub uart_recv : ℕ → Bool → ℕ → Hw (ℤ × List ℕ)
  uart_recv base is_null len =
      if is_null || (len == 0)
      then return (error_param, [])
      else do got ← recv_loop base len; return (pos (length got), got)

  -- UART_USR_TFE and UART_USR_RFNE
  pub uart_is_tx_empty : ℕ → Hw ℤ
  uart_is_tx_empty base = do
    v ← readb dev (usr base)
    return (pos (if bit_and v 0x04 == 0 then 0 else 1))

  pub uart_is_rx_ready : ℕ → Hw ℤ
  uart_is_rx_ready base = do
    v ← readb dev (usr base)
    return (pos (if bit_and v 0x08 == 0 then 0 else 1))
