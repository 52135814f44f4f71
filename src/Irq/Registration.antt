-- ===== src/Irq/Registration.antt =====
-- What `irq_request` and `irq_free` do on each branch.
use Prim.Native.String.{String}
use t113_c.Base.{ℕ, ◌+◌, ◌<◌, ◌≤◌, ◌==◌, leb, if◌then◌else◌, false, ◌≡◌, refl}
use t113_c.Base.{arith, ◌∷◌, Option, none, some, length}
use t113_c.Base.{get_or-set_self, get_or-set_ne, pos, negsuc, ◌⊎◌}
use t113_c.Hw.{Device, Trace, log}
use t113_c.Plic.{nr_irqs}
use t113_c.Irq.{Handler, Entry, no_entry, Irq, table_len, name_or_anon}
use t113_c.Irq.{irq_request, irq_free, generic_handle_irq, run_entry}
use t113_c.Plic.{plic_irq_eoi, context_claim}
use t113_c.Hw.{store, w32, warn, writel}
use native.Mathlib.Decide.{ℕ_discrete}
use t113_c.Base.{sym, ◌%◌, ◌^◌}

module _ {C : Type 0} (dev : Device) (n : ℕ) (s : Irq C) (t : Trace) where
  -- `irq_request` on a number of 198 or more, or with a NULL handler, returns -1 and changes
  -- neither the tables nor the hardware.
  irq_request-refuses :
      (h : Option (Handler C)) (p : ℕ) (name : Option String)
      → (nr_irqs ≤ n) ⊎ (h ≡ none)
      → irq_request dev n h p name s t ≡ (negsuc 0, s, t)
  unfolding irq_request
  irq_request-refuses h p name bad = ground arith

  -- The table has its 199 entries.
  module _ (full : length s.table ≡ table_len) (below : n < nr_irqs) where
    -- With a handler, on a number below 198, `irq_request` returns 0; from then on an interrupt `n`
    -- runs that handler on the registered parameter and is completed, and any other interrupt is
    -- handled as before.
    pub irq_request-handles :
        (h : Handler C) (p : ℕ) (name : Option String) (m : ℕ) (c : C) (u : Trace)
        → let (z, s', _) = irq_request dev n (some h) p name s t in
          (z ≡ pos 0)
          × (generic_handle_irq s' m c u ≡ (
              if m == n
              then (
                pos 0,
                (h p c u).0,
                store w32 (s.plic.hart_base + context_claim) (n % 2 ^ 32) ∷ (h p c u).1,
              )
              else generic_handle_irq s m c u))
    unfolding irq_request generic_handle_irq run_entry plic_irq_eoi writel
    irq_request-handles h p name m c u =
        let hb : leb nr_irqs n ≡ false = ground arith in
        let entry : Entry C = record { handler = some h; param = p; name = name_or_anon name } in
        rw hb (
          refl,
          elim (ℕ_discrete m n) [
            | yes e ↦
                rw (e, hb, get_or-set_self s.table n entry no_entry (omega arith)) (ground arith)
            | no ne ↦ rw (get_or-set_ne s.table n m entry no_entry (λ e. ne (sym e))) (ground arith)
          ],
        )

    -- After `irq_free(n)` on a number below 198 the call returned 0; an interrupt `n` runs no
    -- handler, yet is completed, and any other interrupt is handled as before.
    pub irq_free-forgets :
        (m : ℕ) (c : C) (u : Trace)
        → let (z, s', _) = irq_free dev n s t in
          (z ≡ pos 0)
          × (generic_handle_irq s' m c u ≡ (
              if m == n
              then (
                pos 0,
                c,
                store w32 (s.plic.hart_base + context_claim) (n % 2 ^ 32)
                    ∷ log warn "unhandled IRQ %u"
                    ∷ u,
              )
              else generic_handle_irq s m c u))
    unfolding irq_free generic_handle_irq run_entry plic_irq_eoi writel
    irq_free-forgets m c u =
        let hb : leb nr_irqs n ≡ false = ground arith in
        rw hb (
          refl,
          elim (ℕ_discrete m n) [
            | yes e ↦
                rw (e, hb, get_or-set_self s.table n no_entry no_entry (omega arith)) (ground arith)
            | no ne ↦
                rw (get_or-set_ne s.table n m no_entry no_entry (λ e. ne (sym e))) (ground arith)
          ],
        )
