-- ===== src/Plic/Quiet.antt =====
-- The PLIC driver calls no library.
use t113_c.Base.{ℕ, ◌≡◌, arith}
use t113_c.Hw.{Device, Trace, readl, writel}
use t113_c.Hw.History.{called}
use t113_c.Plic.{Plic, plic_toggle, plic_irq_toggle, plic_irq_enable}

pub plic_irq_enable-called :
    (dev : Device) (p : Plic) (hwirq : ℕ) (t : Trace)
    → called (plic_irq_enable dev p hwirq t).1 ≡ called t
unfolding plic_irq_enable plic_irq_toggle plic_toggle readl writel called
plic_irq_enable-called dev p hwirq t = ground arith
