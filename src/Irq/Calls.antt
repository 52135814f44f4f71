-- ===== src/Irq/Calls.antt =====
-- Sequences of calls of the interface of arch/riscv/irq.c.
use Prim.Native.String.{String}
use t113_c.Base.{ℕ, ◌<◌, List, [], ◌∷◌, Option}
use t113_c.Hw.{Device, Trace}
use t113_c.Irq.{Handler, Irq, irq_request, irq_free, irq_enable, irq_disable}

pub data Call (C : Type 0) : Type 0 where
  request : ℕ → Option (Handler C) → ℕ → Option String → Call C
  free : ℕ → Call C
  enable : ℕ → Call C
  disable : ℕ → Call C

-- `irq_enable` and `irq_disable` write past the bitmap at 224 and above.
abbrev pub InRange : {C : Type 0} → Call C → Type 0
InRange (request n h p name) = Unit
InRange (free n) = Unit
InRange (enable n) = n < 224
InRange (disable n) = n < 224

abbrev pub AllInRange : {C : Type 0} → List (Call C) → Type 0
AllInRange [] = Unit
AllInRange (c ∷ cs) = InRange c × AllInRange cs

module _ {C : Type 0} (dev : Device) where
  abbrev pub run_call : Call C → Irq C → Trace → Irq C × Trace
  run_call (request n h p name) s t = let (_, s', t') = irq_request dev n h p name s t in (s', t')
  run_call (free n) s t = let (_, s', t') = irq_free dev n s t in (s', t')
  run_call (enable n) s t = let (_, s', t') = irq_enable dev n s t in (s', t')
  run_call (disable n) s t = let (_, s', t') = irq_disable dev n s t in (s', t')

  abbrev pub run_calls : List (Call C) → Irq C → Trace → Irq C × Trace
  run_calls [] s t = (s, t)
  run_calls (c ∷ cs) s t = let (s', t') = run_call c s t in run_calls cs s' t'
