-- ===== src/Plic/Startup.antt =====
-- `plic_init`: the first call disables every line of the chip, and any later call does nothing.
use t113_c.Base.{ℕ, zero, suc, ◌+◌, ◌*◌, ◌/◌, ◌%◌, ◌<◌, if◌then◌else◌, leb, ltb, ◌&&◌}
use t113_c.Base.{◌≡◌, refl, ◌∷◌, arith, true}
use t113_c.Hw.{Device, Trace, writel, store, w32}
use t113_c.Hw.Registers.{IsRegister, bit_at-store}
use t113_c.Plic.{Plic, at_reset, nr_irqs, enable_reg, plic_toggle, disable_from, plic_init}
use t113_c.Plic.Lines.{enabled, IsReady, plic_toggle-enabled}

abbrev pub ready : Plic
ready = record {
  regs = 0x10000000;
  present = true;
  hart_base = 0x10200000;
  enable_base = 0x10002000;
}

-- The loop from `first` clears the bits of the lines `first` to `first + left - 1`.
disable_from-enabled :
    (dev : Device) (p : Plic) (j r left first : ℕ) (t : Trace)
    → IsRegister dev (enable_reg p j) r
    → enabled dev p j (disable_from dev p first left t).1
      ≡ (if leb first j && ltb j (first + left) then 0 else enabled dev p j t)
unfolding disable_from
disable_from-enabled dev p j r zero first t reg = ground arith
disable_from-enabled dev p j r (suc left) first t reg =
    let t' = (plic_toggle dev p first 0 t).1 in
    ground (
      arith,
      disable_from-enabled dev p j r left (first + 1) t' reg,
      plic_toggle-enabled dev p first j r 0 t reg,
    )

-- After the first `plic_init` the controller is ready. On a controller whose enable register of
-- line `j` keeps what is written to it, line `j` below 1024 is then disabled if it is one of 1 to 198,
-- and as it was if not. A second `plic_init` changes neither the state nor the hardware.
pub plic_init_lem :
    (dev : Device) (j r : ℕ) (t : Trace)
    → j < 1024
    → IsRegister dev (0x10002000 + j / 32 * 4) r
    → let (p, t') = plic_init dev at_reset t in
      IsReady p
      × (enabled dev p j t' ≡ (if leb 1 j && leb j nr_irqs then 0 else enabled dev p j t))
      × (plic_init dev p t' ≡ (p, t'))
unfolding plic_init writel
plic_init_lem dev j r t hj reg =
    let t' = store w32 (ready.hart_base + 0) 0 ∷ t in
    (
      record { is_present = refl; regs_at = refl; enable_at = refl; hart_at = refl },
      ground (
        arith,
        disable_from-enabled dev ready j r nr_irqs 1 t' reg,
        bit_at-store (enable_reg ready j) 0x10200000 r 0 (j % 32) t reg,
      ),
      refl,
    )
