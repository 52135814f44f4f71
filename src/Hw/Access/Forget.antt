-- ===== src/Hw/Access/Forget.antt =====
-- The accessors that the drivers use, seen without their fences.
use t113_c.Base.{ℕ, ◌≡◌, refl, arith, [], ◌∷◌}
use t113_c.Hw.{Width, w8, w32, Device, Trace, load, store, readb, readl, writeb, writel}
use t113_c.Hw.Access.{
  dev_load, dev_store, Accesses, Machine, raw_read, raw_write, mmio_read, mmio_write, read_relaxed,
  write_relaxed,
}

-- The history of the drivers: the accesses of registers.
unfoldable pub forget : Accesses → Trace
forget [] = []
forget (dev_load w a v ∷ t) = load w a v ∷ forget t
forget (dev_store w a v ∷ t) = store w a v ∷ forget t
forget (_ ∷ t) = forget t

-- A device of the drivers, with a memory beside it.
abbrev pub machine_of : Device → (Accesses → Width → ℕ → ℕ) → Machine
machine_of dev memory = record { register = λ t w a. dev.bus (forget t) w a; memory = memory }

module _ (dev : Device) (memory : Accesses → Width → ℕ → ℕ) (le16_to_cpu le64_to_cpu : ℕ → ℕ)
    (pci_io_start : ℕ) where
  -- For the drivers, `readl` and `readb` give and do what the two accessors of rv_io.h do, and so do their
  -- relaxed forms, which lack the fence; `writel` and `writeb` likewise.
  pub mmio_read-forget :
      (a v : ℕ) (t : Accesses)
      → let m = machine_of dev memory in
        let seen : ℕ × Accesses → ℕ × Trace = λ r. (r.0, forget r.1) in
        (seen (mmio_read m le16_to_cpu le64_to_cpu pci_io_start w32 a t) ≡ readl dev a (forget t))
        × (seen (mmio_read m le16_to_cpu le64_to_cpu pci_io_start w8 a t) ≡ readb dev a (forget t))
        × (seen (read_relaxed m le16_to_cpu le64_to_cpu pci_io_start w32 a t)
            ≡ readl dev a (forget t))
        × (seen (read_relaxed m le16_to_cpu le64_to_cpu pci_io_start w8 a t)
            ≡ readb dev a (forget t))
        × (forget (mmio_write w32 v a t).1 ≡ (writel v a (forget t)).1)
        × (forget (mmio_write w8 v a t).1 ≡ (writeb v a (forget t)).1)
        × (forget (write_relaxed w32 v a t).1 ≡ (writel v a (forget t)).1)
        × (forget (write_relaxed w8 v a t).1 ≡ (writeb v a (forget t)).1)
  unfolding mmio_read mmio_write raw_read raw_write forget readl readb writel writeb
  mmio_read-forget a v t =
      (ground arith, ground arith, ground arith, ground arith, refl, refl, refl, refl)
