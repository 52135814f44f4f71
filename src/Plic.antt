-- ===== src/Plic.antt =====
-- hal/sources/plic.c: the platform interrupt controller. Its loop over claimed interrupts calls
-- the dispatcher of arch/riscv/irq.c, and stands in Irq/Dispatch.
pub mod Quiet
pub mod Lines
pub mod Startup
use t113_c.Base.{
  ℕ, zero, suc, ◌+◌, ◌-◌, ◌*◌, ◌/◌, ◌%◌, ◌^◌, ◌==◌, if◌then◌else◌, Bool, true, false, not,
}
use t113_c.Base.{bit_and, bit_or, ◌<<<◌, complement, ◌∷◌}
use t113_c.Hw.{Hw, Device, readl, writel, skip, ◌>>=◌, ◌>>◌, Trace}

-- C906_PLIC_PHY_ADDR, NR_IRQS, PRIORITY_PER_ID, ENABLE_BASE, CONTEXT_BASE, CONTEXT_THRESHOLD and
-- CONTEXT_CLAIM. PRIORITY_BASE, ENABLE_PER_HART and CONTEXT_PER_HART are 0.
abbrev pub c906_plic_phy_addr : ℕ
c906_plic_phy_addr = 0x10000000

abbrev pub nr_irqs : ℕ
nr_irqs = 198

abbrev pub priority_base : ℕ
priority_base = 0

abbrev pub priority_per_id : ℕ
priority_per_id = 4

abbrev pub enable_base_offset : ℕ
enable_base_offset = 0x2000

abbrev pub context_base : ℕ
context_base = 0x200000

abbrev pub context_threshold : ℕ
context_threshold = 0x00

abbrev pub context_claim : ℕ
context_claim = 0x04

-- `c906_plic_regs`, where 0 is NULL, and the one entry of `c906_plic_handlers`.
pub record Plic : Type 0 where
  pub regs : ℕ
  pub present : Bool
  pub hart_base : ℕ
  pub enable_base : ℕ

-- What the C runtime leaves before `plic_init`.
abbrev pub at_reset : Plic
at_reset = record { regs = 0; present = false; hart_base = 0; enable_base = 0 }

-- The register and the bit of an interrupt line.
abbrev pub enable_reg : Plic → ℕ → ℕ
enable_reg p hwirq = p.enable_base + hwirq / 32 * 4

abbrev pub priority_reg : Plic → ℕ → ℕ
priority_reg p hwirq = p.regs + priority_base + hwirq * priority_per_id

module _ (dev : Device) where
  pub plic_toggle : Plic → ℕ → ℕ → Hw (Unit {0})
  plic_toggle p hwirq enable =
      let reg = enable_reg p hwirq in
      let hwirq_mask = 1 <<< (hwirq % 32) in
      if enable == 0
      then (do v ← readl dev reg; writel (bit_and v (complement 32 hwirq_mask)) reg)
      else do v ← readl dev reg; writel (bit_or v hwirq_mask) reg

  pub plic_irq_toggle : Plic → ℕ → ℕ → Hw (Unit {0})
  plic_irq_toggle p hwirq enable = do
    writel enable (priority_reg p hwirq)
    if p.present then plic_toggle p hwirq enable else skip

  pub plic_irq_enable : Plic → ℕ → Hw (Unit {0})
  plic_irq_enable p hwirq = plic_irq_toggle p hwirq 1

  pub plic_irq_disable : Plic → ℕ → Hw (Unit {0})
  plic_irq_disable p hwirq = plic_irq_toggle p hwirq 0

  -- `for (hwirq = first; left rounds; hwirq++) plic_toggle(handler, hwirq, 0)`
  pub disable_from : Plic → ℕ → ℕ → Hw (Unit {0})
  disable_from p first zero = skip
  disable_from p first (suc left) = do plic_toggle p first 0; disable_from p (first + 1) left

  -- The loop over contexts runs once, with `i` = 0.
  pub plic_init : Plic → Trace → Plic × Trace
  plic_init p t =
      if p.regs == 0
      then (let threshold = if p.present then 0xffffffff else 0 in
          let q : Plic = record {
            regs = c906_plic_phy_addr;
            present = true;
            hart_base = if p.present then p.hart_base else c906_plic_phy_addr + context_base;
            enable_base =
                if p.present then p.enable_base else c906_plic_phy_addr + enable_base_offset;
          } in
          let (_, t') = writel threshold (q.hart_base + context_threshold) t in
          let (_, t'') = disable_from q 1 nr_irqs t' in (q, t''))
      else (p, t)

-- `plic_irq_eoi`
unfoldable pub plic_irq_eoi : Plic → ℕ → Hw (Unit {0})
plic_irq_eoi p hwirq = writel hwirq (p.hart_base + context_claim)
