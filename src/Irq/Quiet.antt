-- ===== src/Irq/Quiet.antt =====
-- The registration of a handler calls no library.
use Prim.Native.String.{String}
use t113_c.Base.{ℕ, ◌≡◌, arith, Option}
use t113_c.Hw.{Device, Trace, csr_set}
use t113_c.Hw.History.{called}
use t113_c.Irq.{Irq, Handler, irq_request}
use t113_c.Plic.Quiet.{plic_irq_enable-called}

pub irq_request-called :
    {C : Type 0} (dev : Device) (irq_no : ℕ) (handler : Option (Handler C)) (param : ℕ)
    (name : Option String) (s : Irq C) (t : Trace)
    → called (irq_request dev irq_no handler param name s t).2 ≡ called t
unfolding irq_request csr_set called
irq_request-called dev irq_no handler param name s t = grind (arith, plic_irq_enable-called)
