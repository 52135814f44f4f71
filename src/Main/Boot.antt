-- ===== src/Main/Boot.antt =====
-- What `low_level_init` leaves to the interrupt table and to the timer.
use t113_c.Base.{ℕ, ◌+◌, ◌≡◌, refl, arith, ◌∷◌, pos}
use t113_c.Base.{u64, bit_and, ◌>>>◌}
use t113_c.Hw.{Device, Trace, writel, csr_read, csr_set, csr_answer, csr, csrr, csrs}
use t113_c.Hw.Csr.{mie, mie_msie, mie_mtie}
use t113_c.Irq.{Irq}
use t113_c.Irq.Tracks.{
  Tracks, KeepsEnables, irq_at_start, irq_at_start-Tracks, Tracks-csr, Tracks-store,
}
use t113_c.Plic.{at_reset, plic_init}
use t113_c.Local.{
  Clic, Port, plic_base_csr, time_csr, clic_driver_init, write_compare, riscv_get_cycles,
  riscv_system_tick_init,
}
use t113_c.Main.{low_level_init}

-- The core-local registers of the chip, which the CSR of the PLIC base gives.
abbrev pub clint : Clic
clint = record { base = 0x14000000; mtime = 0x1400bff8; comp = 0x14004000 }

clic_known :
    (dev : Device) (t : Trace)
    → ((u : Trace) → csr_answer dev plic_base_csr u ≡ 0x10000000)
    → clic_driver_init dev t
      ≡ (pos 0, clint, csr csrr plic_base_csr 0x10000000 ∷ csr csrs mie mie_msie ∷ t)
unfolding clic_driver_init csr_set csr_read
clic_known dev t base = rw (base (csr csrs mie mie_msie ∷ t)) refl

module _ {C : Type 0} (dev : Device) (r : ℕ → ℕ) (keeps : KeepsEnables dev r) where
  tick-Tracks :
      (delta : ℕ) (s : Irq C) (p : Port) (t : Trace)
      → Tracks dev s t
      → let (q, t') = riscv_system_tick_init dev delta clint p t in
        (q.compare_register ≡ clint.comp) × Tracks dev s t'
  unfolding riscv_system_tick_init riscv_get_cycles write_compare csr_set csr_read writel
  tick-Tracks delta s p t tracks =
      let next = u64 (csr_answer dev time_csr t + delta) in
      (
        refl,
        Tracks-store dev r keeps 0x14004004 (next >>> 32) s _ (λ j hi e. omega arith)
            (Tracks-store dev r keeps 0x14004000 (bit_and next 0xffffffff) s _
              (λ j hi e. omega arith)
              (Tracks-csr dev r keeps csrs mie mie_mtie s _
                (Tracks-csr dev r keeps csrr time_csr (csr_answer dev time_csr t) s t tracks))),
      )

  -- The part that follows `uart_init`.
  from_plic :
      (delta : ℕ) (p : Port) (t : Trace)
      → ((u : Trace) → csr_answer dev plic_base_csr u ≡ 0x10000000)
      → let (plic, t1) = plic_init dev at_reset t in
        let (z, clic, t2) = clic_driver_init dev t1 in
        let (port, t3) = riscv_system_tick_init dev delta clic p t2 in
        Tracks dev (irq_at_start C plic) t3 × (clic ≡ clint) × (port.compare_register ≡ clint.comp)
  from_plic delta p t base =
      let (plic, t1) = plic_init dev at_reset t in
      let t2 = csr csrr plic_base_csr 0x10000000 ∷ csr csrs mie mie_msie ∷ t1 in
      let start = irq_at_start-Tracks C dev r t keeps in
      let both =
        Tracks-csr dev r keeps csrr plic_base_csr 0x10000000 (irq_at_start C plic) _
          (Tracks-csr dev r keeps csrs mie mie_msie (irq_at_start C plic) t1 start) in
      let ticked = tick-Tracks delta (irq_at_start C plic) p t2 both in
      rw (clic_known dev t1 base) (ticked.1, refl, ticked.0)

  -- On a controller that keeps its enable registers, at the address of the chip, `low_level_init` leaves the
  -- bitmap of irq.c, which is still cleared, in agreement with the controller; the core-local registers
  -- are known, and the port has the compare register of the timer.
  pub low_level_init-Tracks :
      (delta : ℕ) (c : Clic) (p : Port) (t : Trace)
      → ((u : Trace) → csr_answer dev plic_base_csr u ≡ 0x10000000)
      → let (b, t') = low_level_init dev delta (record { plic = at_reset; clic = c; port = p }) t in
        Tracks dev (irq_at_start C b.plic) t'
        × (b.clic ≡ clint)
        × (b.port.compare_register ≡ clint.comp)
  unfolding low_level_init
  low_level_init-Tracks delta c p t base = from_plic delta p _ base
