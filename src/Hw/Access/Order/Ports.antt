-- ===== src/Hw/Access/Order/Ports.antt =====
-- The port accessors are ordered with respect to each other.
use t113_c.Base.{ℕ, true, ◌≡◌, refl, arith, List, [], ◌∷◌}
use t113_c.Hw.{Width}
use t113_c.Hw.Access.{Accesses, Machine, raw_read, raw_write, port_in, port_out}
use t113_c.Hw.Access.Order.{
  input, output, is_before, is_after, is_class, unfenced, is_ordered, Op, load_memory, store_memory,
  read_port, write_port, perform, performs,
}

-- What a driver of port devices does.
pub data PortOp : Type 0 where
  in_port : Width → ℕ → PortOp
  out_port : Width → ℕ → ℕ → PortOp
  read_memory : Width → ℕ → PortOp
  write_memory : Width → ℕ → ℕ → PortOp

unfoldable pub op_of : PortOp → Op
op_of (in_port w c) = read_port w c
op_of (out_port w v c) = write_port w v c
op_of (read_memory w a) = load_memory w a
op_of (write_memory w a v) = store_memory w a v

unfoldable pub ops_of : List PortOp → List Op
ops_of [] = []
ops_of (o ∷ os) = op_of o ∷ ops_of os

-- All device accesses, of both kinds.
record AllOrdered (t : Accesses) : Type 0 where
  in_in : is_ordered input input t ≡ true
  in_out : is_ordered input output t ≡ true
  out_in : is_ordered output input t ≡ true
  out_out : is_ordered output output t ≡ true

module _ (m : Machine) (le16_to_cpu le64_to_cpu : ℕ → ℕ) (pci_io_start : ℕ) where
  perform-AllOrdered :
      (o : PortOp) (t : Accesses)
      → AllOrdered t
      → AllOrdered (perform m le16_to_cpu le64_to_cpu pci_io_start (op_of o) t)
  unfolding perform op_of port_in port_out raw_read raw_write is_ordered unfenced is_class is_before
      is_after
  perform-AllOrdered (in_port w c) t h = ground (arith, h)
  perform-AllOrdered (out_port w v c) t h = ground (arith, h)
  perform-AllOrdered (read_memory w a) t h = ground (arith, h)
  perform-AllOrdered (write_memory w a v) t h = ground (arith, h)

  performs-AllOrdered :
      (os : List PortOp) (t : Accesses)
      → AllOrdered t
      → AllOrdered (performs m le16_to_cpu le64_to_cpu pci_io_start (ops_of os) t)
  unfolding performs ops_of
  performs-AllOrdered [] t h = h
  performs-AllOrdered (o ∷ os) t h =
      performs-AllOrdered os (perform m le16_to_cpu le64_to_cpu pci_io_start (op_of o) t)
        (perform-AllOrdered o t h)

-- In any sequence of memory accesses and of the port accessors `in` and `out`, a fence stands between each
-- two accesses of a port, reads and writes alike.
pub ports-is_ordered :
    (m : Machine) (le16_to_cpu le64_to_cpu : ℕ → ℕ) (pci_io_start : ℕ) (os : List PortOp)
    → let t = performs m le16_to_cpu le64_to_cpu pci_io_start (ops_of os) [] in
      (is_ordered input input t ≡ true)
      × (is_ordered input output t ≡ true)
      × (is_ordered output input t ≡ true)
      × (is_ordered output output t ≡ true)
unfolding is_ordered
ports-is_ordered m le16_to_cpu le64_to_cpu pci_io_start os =
    let none_yet : AllOrdered [] = record {
      in_in = refl;
      in_out = refl;
      out_in = refl;
      out_out = refl;
    } in
    let h = performs-AllOrdered m le16_to_cpu le64_to_cpu pci_io_start os [] none_yet in
    (h.in_in, h.in_out, h.out_in, h.out_out)
