-- ===== src/Hw/Access/Order.antt =====
-- Which accesses the fences of rv_io.h keep in order.
pub mod Kept
pub mod Ports
use t113_c.Base.{
  ℕ, zero, suc, ◌+◌, ◌%◌, ◌^◌, Bool, true, false, ◌&&◌, ◌||◌, not, ◌≡◌, refl, arith, List, [], ◌∷◌,
  u64,
}
use t113_c.Hw.{Width, w8, w16, w32, w64, modulus}
use t113_c.Hw.Access.{
  Fence, i_r, w_o, io_i, i_ior, iow_o, o_io, Access, dev_load, dev_store, mem_load, mem_store,
  barrier, Accesses, Machine, Io, ◌>>◌, make, size_of, raw_read, raw_write, read_block, write_block,
  mmio_read, mmio_write, mmio_reads, mmio_writes, port_in, port_out, port_ins, port_outs,
  read_relaxed, write_relaxed,
}

-- The letters of a `fence` instruction.
pub data Class : Type 0 where
  input output mem_read mem_write : Class

unfoldable pub is_before : Fence → Class → Bool
is_before i_r input = true
is_before w_o mem_write = true
is_before io_i input = true
is_before io_i output = true
is_before i_ior input = true
is_before iow_o input = true
is_before iow_o output = true
is_before iow_o mem_write = true
is_before o_io output = true
is_before _ _ = false

unfoldable pub is_after : Fence → Class → Bool
is_after i_r mem_read = true
is_after w_o output = true
is_after io_i input = true
is_after i_ior input = true
is_after i_ior output = true
is_after i_ior mem_read = true
is_after iow_o output = true
is_after o_io input = true
is_after o_io output = true
is_after _ _ = false

unfoldable pub is_class : Class → Access → Bool
is_class input (dev_load w a v) = true
is_class output (dev_store w a v) = true
is_class mem_read (mem_load w a v) = true
is_class mem_write (mem_store w a v) = true
is_class _ _ = false

-- An access of class `c` was made that no fence orders before the accesses of class `d` to come.
unfoldable pub unfenced : Class → Class → Accesses → Bool
unfenced c d [] = false
unfenced c d (barrier k ∷ t) = not (is_before k c && is_after k d) && unfenced c d t
unfenced c d (a ∷ t) = is_class c a || unfenced c d t

-- A fence stands between each access of class `c` and each later one of class `d`.
unfoldable pub is_ordered : Class → Class → Accesses → Bool
is_ordered c d [] = true
is_ordered c d (barrier k ∷ t) = is_ordered c d t
is_ordered c d (a ∷ t) = not (is_class d a && unfenced c d t) && is_ordered c d t

-- What a driver does: it accesses memory, and calls the accessors, the relaxed ones included.
pub data Op : Type 0 where
  load_memory : Width → ℕ → Op
  store_memory : Width → ℕ → ℕ → Op
  read_register : Width → ℕ → Op
  write_register : Width → ℕ → ℕ → Op
  read_unordered : Width → ℕ → Op
  write_unordered : Width → ℕ → ℕ → Op
  read_registers write_registers : Width → ℕ → ℕ → ℕ → Op
  read_port : Width → ℕ → Op
  write_port : Width → ℕ → ℕ → Op
  read_ports write_ports : Width → ℕ → ℕ → ℕ → Op

-- Whether a driver calls a relaxed read, or a relaxed write.
unfoldable pub is_relaxed_read : Op → Bool
is_relaxed_read (read_unordered w a) = true
is_relaxed_read _ = false

unfoldable pub is_relaxed_write : Op → Bool
is_relaxed_write (write_unordered w v a) = true
is_relaxed_write _ = false

unfoldable pub reads_relaxed : List Op → Bool
reads_relaxed [] = false
reads_relaxed (o ∷ os) = is_relaxed_read o || reads_relaxed os

unfoldable pub writes_relaxed : List Op → Bool
writes_relaxed [] = false
writes_relaxed (o ∷ os) = is_relaxed_write o || writes_relaxed os

module _ (m : Machine) (le16_to_cpu le64_to_cpu : ℕ → ℕ) (pci_io_start : ℕ) where
  unfoldable pub perform : Op → Accesses → Accesses
  perform (load_memory w a) t = mem_load w a (m.memory t w a % modulus w) ∷ t
  perform (store_memory w a v) t = mem_store w a (v % modulus w) ∷ t
  perform (read_register w a) t = (mmio_read m le16_to_cpu le64_to_cpu pci_io_start w a t).1
  perform (write_register w v a) t = (mmio_write w v a t).1
  perform (read_unordered w a) t = (read_relaxed m le16_to_cpu le64_to_cpu pci_io_start w a t).1
  perform (write_unordered w v a) t = (write_relaxed w v a t).1
  perform (read_registers w a buf n) t = (mmio_reads m w a buf n t).1
  perform (write_registers w a buf n) t = (mmio_writes m w a buf n t).1
  perform (read_port w c) t = (port_in m le16_to_cpu le64_to_cpu pci_io_start w c t).1
  perform (write_port w v c) t = (port_out m le16_to_cpu le64_to_cpu pci_io_start w v c t).1
  perform (read_ports w a buf n) t = (port_ins m w a buf n t).1
  perform (write_ports w a buf n) t = (port_outs m w a buf n t).1

  unfoldable pub performs : List Op → Accesses → Accesses
  performs [] t = t
  performs (o ∷ os) t = performs os (perform o t)
