-- ===== src/Hw/Access/Tests.antt =====
-- A machine whose registers count, with a memory of cells.
use t113_c.Base.{ℕ, ◌==◌, if◌then◌else◌, true, ◌||◌, ◌≡◌, refl, arith, List, [], ◌∷◌, ◌++◌, length}
use t113_c.Hw.{w8, w32}
use t113_c.Hw.Access.{mem_store, Accesses, Machine, mmio_reads, mmio_writes}
use t113_c.Hw.Access.Order.{
  input, output, mem_read, mem_write, is_ordered, Op, store_memory, read_register, write_register,
  load_memory, writes_relaxed, reads_relaxed, read_registers, write_registers, performs,
}
use t113_c.Hw.Access.Order.Kept.{performs-is_ordered}
use t113_c.Hw.Access.Relay.{IsMemory, loaded, stored, span, mmio_writes-mmio_reads}

cells : Accesses → ℕ → ℕ
cells [] a = 0
cells (mem_store w b v ∷ t) a = let old = cells t a in if b == a then v else old
cells (_ ∷ t) a = cells t a

abbrev counting : Machine
counting = record { register = λ t w a. length t; memory = λ t w a. cells t a }

counting-IsMemory : IsMemory counting w32
unfolding cells
counting-IsMemory = record {
  reads_back = λ a v t. ground arith;
  apart = λ a b v t le. ground (arith, le);
  device_load = λ a b v t. refl;
  device_store = λ a b v t. refl;
  load = λ a b v t. refl;
  fence = λ a t. refl;
  fence_out = λ a t. refl;
}

-- A buffer is filled in memory and announced by a register; an answer is read and then the memory.
abbrev exchange : List Op
exchange =
    store_memory w32 0x1000 7
    ∷ write_register w32 1 0x5000
    ∷ read_registers w8 0x5004 0x2000 3
    ∷ load_memory w32 0x2000
    ∷ write_registers w8 0x5004 0x2000 3
    ∷ read_register w32 0x5008
    ∷ load_memory w32 0x2000
    ∷ []

performs-is_ordered_example :
    let t = performs counting (λ v. v) (λ v. v) 0 exchange [] in
    ((writes_relaxed exchange || is_ordered mem_write output t) ≡ true)
    × ((reads_relaxed exchange || is_ordered input mem_read t) ≡ true)
performs-is_ordered_example = performs-is_ordered counting (λ v. v) (λ v. v) 0 exchange

abbrev three : ℕ
three = 3

mmio_writes-mmio_reads_example :
    let u = (mmio_reads counting w32 0x5004 0x2000 three []).1 in
    let z = (mmio_writes counting w32 0x5104 0x2000 three u).1 in
    (xs : List ℕ) × (length xs ≡ 3)
    × (loaded 0x5004 u ≡ loaded 0x5004 [] ++ xs)
    × (stored 0x5104 z ≡ stored 0x5104 [] ++ xs)
mmio_writes-mmio_reads_example =
    mmio_writes-mmio_reads counting w32 0x5004 0x5104 three 0x2000 [] counting-IsMemory
      (unfold span in omega arith)
