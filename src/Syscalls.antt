-- ===== src/Syscalls.antt =====
-- hal/sources/syscalls.c: the system calls of the C library, over the console.
pub mod Console
pub mod Heap
mod Tests
use t113_c.Base.{ℕ, zero, suc, ◌+◌, ◌-◌, ◌%◌, ◌^◌, ◌==◌, ltb, if◌then◌else◌, Bool, true, false}
use t113_c.Base.{List, [], ◌∷◌, length, Option, none, some, u8, u64, ℤ, pos, negsuc}
use t113_c.Hw.{Hw, Device, return, skip, ◌>>=◌, ◌>>◌}
use t113_c.Uart.{UartError, uart_send_byte, uart_recv_byte}

-- The error codes that the calls set.
pub data Errno : Type 0 where
  enosys einval enotsup espipe enomem : Errno

-- UART_BASE, which is SUNXI_UART2_BASE
abbrev pub uart_base : ℕ
uart_base = 0x02500800

-- `fd < 3`, for an `int`
abbrev pub is_standard : ℤ → Bool
is_standard (pos n) = ltb n 3
is_standard (negsuc n) = true

module _ (dev : Device) where
  -- The loop of `_write_r`. It drops the results of `uart_send_byte`.
  pub write_loop : List ℕ → Hw (Unit {0})
  write_loop [] = skip
  write_loop (b ∷ buf) = do
    if b == 10 then (do _ ← uart_send_byte dev uart_base 13; skip) else skip
    _ ← uart_send_byte dev uart_base (u8 b)
    write_loop buf

  -- `_write_r` on the bytes of the buffer. With the result comes the value set to `errno`, if any.
  pub write_r : ℤ → List ℕ → Hw (ℤ × Option Errno)
  write_r fd buf =
      if is_standard fd
      then (do write_loop buf; return (pos (length buf), none))
      else return (negsuc 0, some enosys)

  -- The loop of `_read_r` for `left` more bytes; it returns those stored, in order.
  pub read_loop : ℕ → Hw (List ℕ)
  read_loop zero = return []
  read_loop (suc left) = do
    got ← uart_recv_byte dev uart_base false
    elim got.1 [ none ↦ return [] | some ch ↦ (do more ← read_loop left; return (ch ∷ more)) ]

  -- The result, the value set to `errno`, and the bytes stored at the front of the buffer.
  pub read_r : ℤ → ℕ → Hw (ℤ × Option Errno × List ℕ)
  read_r fd nbytes =
      if is_standard fd
      then (do got ← read_loop nbytes; return (pos (length got), none, got))
      else return (negsuc 0, some enosys, [])

pub close_r : ℤ → ℤ × Option Errno
close_r fd = if is_standard fd then (negsuc 0, some einval) else (negsuc 0, some enosys)

-- The third component is whether `st_mode` was set to S_IFCHR.
pub fstat_r : ℤ → ℤ × Option Errno × Bool
fstat_r fd = if is_standard fd then (pos 0, none, true) else (negsuc 0, some enosys, false)

pub isatty_r : ℤ → ℤ × Option Errno
isatty_r (pos n) = if ltb n 3 then (pos 1, none) else (pos 0, some enotsup)
isatty_r (negsuc n) = (pos 0, some enotsup)

pub lseek_r : ℤ → ℤ → ℤ → ℤ × Option Errno
lseek_r fd offset whence =
    if is_standard fd then (negsuc 0, some espipe) else (negsuc 0, some enosys)

pub kill : ℤ → ℤ → ℤ × Option Errno
kill pid sig = (negsuc 0, some enosys)

pub getpid : ℤ
getpid = pos 1

-- A pointer plus a `ptrdiff_t`, in 64 bits.
abbrev pub add_offset : ℕ → ℤ → ℕ
add_offset p (pos n) = u64 (p + n)
add_offset p (negsuc n) = u64 (p + (2 ^ 64 - (n + 1) % 2 ^ 64))

-- `_sbrk_r`. The linker gives the bounds of the heap. `none` is the NULL that `heap_end` starts as;
-- the result `none` is the pointer -1, with ENOMEM.
module _ (bss_end heap_limit : ℕ) where
  abbrev pub current : Option ℕ → ℕ
  current none = bss_end
  current (some p) = p

  pub sbrk_r : ℤ → Option ℕ → Option ℕ × Option ℕ
  sbrk_r incr heap_end =
      let prev = current heap_end in
      if ltb heap_limit (add_offset prev incr)
      then (none, some prev)
      else (some prev, some (add_offset prev incr))
