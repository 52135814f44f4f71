-- ===== src/Hw/Access.antt =====
-- arch/includes/rv_io.h, instruction by instruction: the loads and stores of every accessor, its fences, and
-- the buffer of the string forms in memory. The macros for the four widths are one definition.
pub mod Forget
pub mod Order
pub mod Relay
mod Tests
use t113_c.Base.{ℕ, zero, suc, ◌+◌, ◌%◌, ◌^◌, Bool, true, false, List, [], ◌∷◌, u64}
use t113_c.Hw.{Width, w8, w16, w32, w64, modulus}

-- The fences: the accesses that they order, before and after.
pub data Fence : Type 0 where
  i_r w_o io_i i_ior iow_o o_io : Fence

-- An access of a device register, or of memory, or a fence.
pub data Access : Type 0 where
  dev_load dev_store mem_load mem_store : Width → ℕ → ℕ → Access
  barrier : Fence → Access

-- The accesses so far, latest first. Registers and memory answer from these.
abbrev pub Accesses : Type 0
Accesses = List Access

pub record Machine : Type 0 where
  pub register : Accesses → Width → ℕ → ℕ
  pub memory : Accesses → Width → ℕ → ℕ

abbrev pub Io : Type 0 → Type 0
Io A = Accesses → A × Accesses

infixl 5 ◌>>=◌ ◌>>◌
abbrev pub ◌>>=◌ : {A B : Type 0} → Io A → (A → Io B) → Io B
◌>>=◌ m f t = let (a, u) = m t in f a u

abbrev pub ◌>>◌ : {B : Type 0} → Io (Unit {0}) → Io B → Io B
◌>>◌ m k t = let (_, u) = m t in k u

abbrev pub return : {A : Type 0} → A → Io A
return a t = (a, t)

abbrev pub make : Access → Io (Unit {0})
make a t = (tt, a ∷ t)

-- `sizeof(ctype)`
abbrev pub size_of : Width → ℕ
size_of w8 = 1
size_of w16 = 2
size_of w32 = 4
size_of w64 = 8

-- `__raw_write` and `cpu_to_le`, which changes nothing.
pub raw_write : Width → ℕ → ℕ → Io (Unit {0})
raw_write w v a = make (dev_store w a (v % modulus w))

abbrev pub write_cpu : Width → ℕ → ℕ → Io (Unit {0})
write_cpu = raw_write

-- `write_relaxed` has empty macros about it.
abbrev pub write_relaxed : Width → ℕ → ℕ → Io (Unit {0})
write_relaxed w v a = write_cpu w v a

pub mmio_write : Width → ℕ → ℕ → Io (Unit {0})
mmio_write w v a = do make (barrier w_o); write_cpu w v a

module _ (m : Machine) where
  pub raw_read : Width → ℕ → Io ℕ
  raw_read w a t = let v = m.register t w a % modulus w in (v, dev_load w a v ∷ t)

  -- `do { ctype x = __raw_read(addr); *buf++ = x; } while (--count);` under `if (count)`.
  pub read_block : Width → ℕ → ℕ → ℕ → Io (Unit {0})
  read_block w addr buf zero t = (tt, t)
  read_block w addr buf (suc count) t =
      let (x, u) = raw_read w addr t in
      read_block w addr (u64 (buf + size_of w)) count (mem_store w buf x ∷ u)

  -- `do { __raw_write(*buf++, addr); } while (--count);` under `if (count)`.
  pub write_block : Width → ℕ → ℕ → ℕ → Io (Unit {0})
  write_block w addr buf zero t = (tt, t)
  write_block w addr buf (suc count) t =
      let v = m.memory t w buf % modulus w in
      let (_, u) = raw_write w v addr (mem_load w buf v ∷ t) in
      write_block w addr (u64 (buf + size_of w)) count u

  -- `__reads`, `__ins`, `__writes` and `__outs`, which take the address as it is.
  pub mmio_reads : Width → ℕ → ℕ → ℕ → Io (Unit {0})
  mmio_reads w addr buf count = do read_block w addr buf count; make (barrier i_r)

  pub port_ins : Width → ℕ → ℕ → ℕ → Io (Unit {0})
  port_ins w addr buf count = do
    make (barrier io_i)
    read_block w addr buf count
    make (barrier i_ior)

  pub mmio_writes : Width → ℕ → ℕ → ℕ → Io (Unit {0})
  mmio_writes w addr buf count = do make (barrier w_o); write_block w addr buf count

  pub port_outs : Width → ℕ → ℕ → ℕ → Io (Unit {0})
  port_outs w addr buf count = do
    make (barrier iow_o)
    write_block w addr buf count
    make (barrier o_io)

  -- `le16_to_cpu`, `le64_to_cpu` and `PCI_IO_START` are named there and defined nowhere.
  module _ (le16_to_cpu le64_to_cpu : ℕ → ℕ) (pci_io_start : ℕ) where
    abbrev pub to_cpu : Width → ℕ → ℕ
    to_cpu w8 v = v
    to_cpu w16 v = le16_to_cpu v
    to_cpu w32 v = v
    to_cpu w64 v = le64_to_cpu v

    abbrev pub read_cpu : Width → ℕ → Io ℕ
    read_cpu w a = do v ← raw_read w a; return (to_cpu w v % modulus w)

    abbrev pub read_relaxed : Width → ℕ → Io ℕ
    read_relaxed w a = read_cpu w a

    pub mmio_read : Width → ℕ → Io ℕ
    mmio_read w a = do v ← read_cpu w a; make (barrier i_r); return v

    -- `PCI_IOBASE + c`, which the 64-bit forms leave out.
    abbrev pub port_address : Width → ℕ → ℕ
    port_address w8 c = u64 (pci_io_start + c)
    port_address w16 c = u64 (pci_io_start + c)
    port_address w32 c = u64 (pci_io_start + c)
    port_address w64 c = c

    pub port_in : Width → ℕ → Io ℕ
    port_in w c = do
      make (barrier io_i)
      v ← read_cpu w (port_address w c)
      make (barrier i_ior)
      return v

    pub port_out : Width → ℕ → ℕ → Io (Unit {0})
    port_out w v c = do make (barrier iow_o); write_cpu w v (port_address w c); make (barrier o_io)
