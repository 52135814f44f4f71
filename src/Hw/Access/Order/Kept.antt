-- ===== src/Hw/Access/Order/Kept.antt =====
-- Memory writes reach memory before the device is told, and the device is read before memory is.
use t113_c.Base.{
  ℕ, zero, suc, ◌+◌, true, false, ◌&&◌, ◌||◌, ◌≡◌, refl, arith, List, [], ◌∷◌, u64, Bool,
  Bool-cases, inl, inr,
}
use t113_c.Hw.{Width}
use t113_c.Hw.Access.{
  Fence, i_r, w_o, io_i, i_ior, iow_o, barrier, Accesses, Machine, size_of, raw_read, raw_write,
  read_block, write_block, mmio_read, mmio_write, mmio_reads, mmio_writes, port_in, port_out,
  port_ins, port_outs,
}
use t113_c.Hw.Access.Order.{
  input, output, mem_read, mem_write, is_before, is_after, is_class, unfenced, is_ordered, Op,
  load_memory, store_memory, read_register, write_register, read_registers, write_registers,
  read_port, write_port, read_ports, write_ports, read_unordered, write_unordered, is_relaxed_read,
  is_relaxed_write, reads_relaxed, writes_relaxed, perform, performs,
}

or_false : {a b : Bool} → (a || b) ≡ false → (a ≡ false) × (b ≡ false)
or_false e = ground (arith, e)

-- Between two calls: no read of a register is still to be ordered.
record IsKept (t : Accesses) : Type 0 where
  reads_in : is_ordered input mem_read t ≡ true
  fenced : unfenced input mem_read t ≡ false

-- The loops of the string forms.
module _ (m : Machine) where
  read_block-writes :
      (n : ℕ) (w : Width) (a buf : ℕ) (t : Accesses)
      → is_ordered mem_write output t ≡ true
      → is_ordered mem_write output (read_block m w a buf n t).1 ≡ true
  unfolding read_block raw_read is_ordered is_class
  read_block-writes zero w a buf t h = h
  read_block-writes (suc n) w a buf t h =
      read_block-writes n w a (u64 (buf + size_of w)) _ (ground (arith, h))

  read_block-reads :
      (n : ℕ) (w : Width) (a buf : ℕ) (t : Accesses)
      → is_ordered input mem_read t ≡ true
      → is_ordered input mem_read (read_block m w a buf n t).1 ≡ true
  unfolding read_block raw_read is_ordered is_class
  read_block-reads zero w a buf t h = h
  read_block-reads (suc n) w a buf t h =
      read_block-reads n w a (u64 (buf + size_of w)) _ (ground (arith, h))

  write_block-writes :
      (n : ℕ) (w : Width) (a buf : ℕ) (t : Accesses)
      → is_ordered mem_write output t ≡ true
      → unfenced mem_write output t ≡ false
      → is_ordered mem_write output (write_block m w a buf n t).1 ≡ true
  unfolding write_block raw_write is_ordered is_class unfenced
  write_block-writes zero w a buf t h e = h
  write_block-writes (suc n) w a buf t h e =
      write_block-writes n w a (u64 (buf + size_of w)) _ (ground (arith, h, e)) (ground (arith, e))

  write_block-IsKept :
      (n : ℕ) (w : Width) (a buf : ℕ) (t : Accesses)
      → IsKept t
      → IsKept (write_block m w a buf n t).1
  unfolding write_block raw_write is_ordered is_class unfenced
  write_block-IsKept zero w a buf t h = h
  write_block-IsKept (suc n) w a buf t h =
      write_block-IsKept n w a (u64 (buf + size_of w)) _ (ground (arith, h))

-- A block of reads, closed by a fence for them.
closed-IsKept :
    (k : Fence) (t : Accesses)
    → (is_before k input && is_after k mem_read) ≡ true
    → is_ordered input mem_read t ≡ true
    → IsKept (barrier k ∷ t)
unfolding is_ordered unfenced
closed-IsKept k t covers h = record { reads_in = h; fenced = ground (arith, covers) }

-- A fence for the writes opens a block of writes.
opened_writes :
    (k : Fence) (t : Accesses)
    → (is_before k mem_write && is_after k output) ≡ true
    → unfenced mem_write output (barrier k ∷ t) ≡ false
unfolding unfenced
opened_writes k t covers = ground (arith, covers)

module _ (m : Machine) (le16_to_cpu le64_to_cpu : ℕ → ℕ) (pci_io_start : ℕ) where
  perform-writes :
      (o : Op) (t : Accesses)
      → is_relaxed_write o ≡ false
      → is_ordered mem_write output t ≡ true
      → is_ordered mem_write output (perform m le16_to_cpu le64_to_cpu pci_io_start o t) ≡ true
  unfolding perform mmio_read mmio_write mmio_reads mmio_writes port_in port_out port_ins port_outs
      raw_read raw_write is_ordered unfenced is_class is_before is_after is_relaxed_write
  perform-writes (load_memory w a) t e h = ground (arith, h)
  perform-writes (store_memory w a v) t e h = ground (arith, h)
  perform-writes (read_register w a) t e h = ground (arith, h)
  perform-writes (write_register w v a) t e h = ground (arith, h)
  perform-writes (read_unordered w a) t e h = ground (arith, h)
  perform-writes (write_unordered w v a) t e h = absurd (ground (arith, e))
  perform-writes (read_registers w a buf n) t e h = read_block-writes m n w a buf t h
  perform-writes (write_registers w a buf n) t e h =
      write_block-writes m n w a buf (barrier w_o ∷ t) h (opened_writes w_o t refl)
  perform-writes (read_port w c) t e h = ground (arith, h)
  perform-writes (write_port w v c) t e h = ground (arith, h)
  perform-writes (read_ports w a buf n) t e h = read_block-writes m n w a buf (barrier io_i ∷ t) h
  perform-writes (write_ports w a buf n) t e h =
      write_block-writes m n w a buf (barrier iow_o ∷ t) h (opened_writes iow_o t refl)

  perform-IsKept :
      (o : Op) (t : Accesses)
      → is_relaxed_read o ≡ false
      → IsKept t
      → IsKept (perform m le16_to_cpu le64_to_cpu pci_io_start o t)
  unfolding perform mmio_read mmio_write mmio_reads mmio_writes port_in port_out port_ins port_outs
      raw_read raw_write is_ordered unfenced is_class is_before is_after is_relaxed_read
  perform-IsKept (load_memory w a) t e h = ground (arith, h)
  perform-IsKept (store_memory w a v) t e h = ground (arith, h)
  perform-IsKept (read_register w a) t e h = closed-IsKept i_r _ refl (ground (arith, h))
  perform-IsKept (write_register w v a) t e h = ground (arith, h)
  perform-IsKept (read_unordered w a) t e h = absurd (ground (arith, e))
  perform-IsKept (write_unordered w v a) t e h = ground (arith, h)
  perform-IsKept (read_registers w a buf n) t e h =
      closed-IsKept i_r _ refl (read_block-reads m n w a buf t h.reads_in)
  perform-IsKept (write_registers w a buf n) t e h =
      write_block-IsKept m n w a buf (barrier w_o ∷ t) (ground (arith, h))
  perform-IsKept (read_port w c) t e h = closed-IsKept i_ior _ refl (ground (arith, h))
  perform-IsKept (write_port w v c) t e h = ground (arith, h)
  perform-IsKept (read_ports w a buf n) t e h =
      closed-IsKept i_ior _ refl (read_block-reads m n w a buf (barrier io_i ∷ t) h.reads_in)
  perform-IsKept (write_ports w a buf n) t e h =
      let done = write_block-IsKept m n w a buf (barrier iow_o ∷ t) (ground (arith, h)) in
      record { reads_in = done.reads_in; fenced = ground (arith, done.fenced) }

  performs-writes :
      (os : List Op) (t : Accesses)
      → writes_relaxed os ≡ false
      → is_ordered mem_write output t ≡ true
      → is_ordered mem_write output (performs m le16_to_cpu le64_to_cpu pci_io_start os t) ≡ true
  unfolding performs writes_relaxed
  performs-writes [] t e h = h
  performs-writes (o ∷ os) t e h =
      let (one, rest) = or_false e in
      performs-writes os (perform m le16_to_cpu le64_to_cpu pci_io_start o t) rest
        (perform-writes o t one h)

  performs-IsKept :
      (os : List Op) (t : Accesses)
      → reads_relaxed os ≡ false
      → IsKept t
      → IsKept (performs m le16_to_cpu le64_to_cpu pci_io_start os t)
  unfolding performs reads_relaxed
  performs-IsKept [] t e h = h
  performs-IsKept (o ∷ os) t e h =
      let (one, rest) = or_false e in
      performs-IsKept os (perform m le16_to_cpu le64_to_cpu pci_io_start o t) rest
        (perform-IsKept o t one h)

-- Whatever a driver does with memory and the accessors, the string, port and relaxed forms included: if
-- it calls no relaxed write, a fence stands between each write of memory and each later store to a
-- register, and if it calls no relaxed read, a fence stands between each load of a register and each
-- later read of memory.
pub performs-is_ordered :
    (m : Machine) (le16_to_cpu le64_to_cpu : ℕ → ℕ) (pci_io_start : ℕ) (os : List Op)
    → let t = performs m le16_to_cpu le64_to_cpu pci_io_start os [] in
      ((writes_relaxed os || is_ordered mem_write output t) ≡ true)
      × ((reads_relaxed os || is_ordered input mem_read t) ≡ true)
unfolding is_ordered unfenced
performs-is_ordered m le16_to_cpu le64_to_cpu pci_io_start os = (
  elim (Bool-cases (writes_relaxed os)) [
    | inl relaxed ↦ ground (arith, relaxed)
    | inr fenced ↦
        ground (arith, performs-writes m le16_to_cpu le64_to_cpu pci_io_start os [] fenced refl)
  ],
  elim (Bool-cases (reads_relaxed os)) [
    | inl relaxed ↦ ground (arith, relaxed)
    | inr fenced ↦
        let none_yet : IsKept [] = record { reads_in = refl; fenced = refl } in
        let kept = performs-IsKept m le16_to_cpu le64_to_cpu pci_io_start os [] fenced none_yet in
        ground (arith, kept.reads_in)
  ],
)

-- Both conditions are needed: a fence is missing between a write of memory and a relaxed write of a
-- register, and between a relaxed read of a register and a read of memory.
pub relaxed_unordered :
    (m : Machine) (le16_to_cpu le64_to_cpu : ℕ → ℕ) (pci_io_start : ℕ) (w : Width) (a b v : ℕ)
    (t : Accesses)
    → (is_ordered mem_write output (
          performs m le16_to_cpu le64_to_cpu pci_io_start
            (store_memory w b v ∷ write_unordered w v a ∷ [])
            t)
        ≡ false)
      × (is_ordered input mem_read (
            performs m le16_to_cpu le64_to_cpu pci_io_start
              (read_unordered w a ∷ load_memory w b ∷ [])
              t)
          ≡ false)
unfolding performs perform raw_read raw_write is_ordered unfenced is_class is_before is_after
relaxed_unordered m le16_to_cpu le64_to_cpu pci_io_start w a b v t = (ground arith, ground arith)

-- The fence of a read orders no later write of memory, and the fence of a write no earlier read of it: a
-- fence is missing after a load of a register for a store to memory, and between a read of memory and a
-- store to a register.
pub unordered :
    (m : Machine) (le16_to_cpu le64_to_cpu : ℕ → ℕ) (pci_io_start : ℕ) (w : Width) (a b v : ℕ)
    (t : Accesses)
    → (is_ordered input mem_write (
          performs m le16_to_cpu le64_to_cpu pci_io_start
            (read_register w a ∷ store_memory w b v ∷ [])
            t)
        ≡ false)
      × (is_ordered mem_read output (
            performs m le16_to_cpu le64_to_cpu pci_io_start
              (load_memory w b ∷ write_register w v a ∷ [])
              t)
          ≡ false)
unfolding performs perform mmio_read mmio_write raw_read raw_write is_ordered unfenced is_class
    is_before is_after
unordered m le16_to_cpu le64_to_cpu pci_io_start w a b v t = (ground arith, ground arith)
