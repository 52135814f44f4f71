-- ===== src/Irq/Dispatch/Serve.antt =====
-- The claim loop serves the pending interrupts one by one, and completes each that is in range.
use t113_c.Base.{ℕ, zero, suc, ◌+◌, ◌%◌, ◌^◌, ◌<◌, ◌==◌, ltb, if◌then◌else◌, ◌||◌, not}
use t113_c.Base.{false, ◌≡◌, ap, ◌∙◌, sym, arith, List, [], ◌∷◌, ◌++◌, length, get_or}
use t113_c.Hw.{Device, Trace, readl, load, w32, csr, csrs, csrc, csr_set, csr_clear}
use t113_c.Hw.{writel}
use native.Mathlib.Nat.{mod-eq_of_lt}
use mathlib.Core.List.{append-nil, append_assoc}
use t113_c.Plic.Lines.{IsReady}
use t113_c.Hw.History.{reads, writes, reads-load_self}
use t113_c.Hw.Csr.{mie, mie_meie}
use t113_c.Plic.{nr_irqs, plic_irq_eoi}
use t113_c.Irq.{Irq, no_entry, run_entry, generic_handle_irq}
use t113_c.Irq.Dispatch.{Outcome, done, claim_reg, claim_loop, plic_handle_irq}

-- What the claim register holds: `pending`, one for each read from `t` on, then zeros.
abbrev pub Pending : Device → ℕ → List ℕ → Trace → Type 0
Pending dev a pending t =
    (k : ℕ) (u : Trace) → reads a u ≡ reads a t + k → dev.bus u w32 a ≡ get_or pending k 0

abbrev pub AreIds : List ℕ → Type 0
AreIds [] = Unit
AreIds (x ∷ xs) = (0 < x) × (x < 2 ^ 32) × AreIds xs

module _ {C : Type 0} (s : Irq C) where
  -- No handler reads or writes the claim register.
  pub record LeaveClaims : Type 0 where
    pub same_reads :
        (m : ℕ) (c : C) (u : Trace)
        → reads (claim_reg s) (run_entry (get_or s.table m no_entry) c u).1 ≡ reads (claim_reg s) u
    pub same_writes :
        (m : ℕ) (c : C) (u : Trace)
        → writes (claim_reg s) (run_entry (get_or s.table m no_entry) c u).1
          ≡ writes (claim_reg s) u

  -- Each pending interrupt is claimed and handed to `generic_handle_irq`, in order.
  pub serve : List ℕ → C → Trace → C × Trace
  serve [] c t = (c, t)
  serve (x ∷ xs) c t =
      let (_, c', t') = generic_handle_irq s x c (load w32 (claim_reg s) x ∷ t) in serve xs c' t'

  -- The interrupts that get completed.
  unfoldable pub in_range : List ℕ → List ℕ
  in_range [] = []
  in_range (x ∷ xs) = if ltb x nr_irqs then x ∷ in_range xs else in_range xs

  generic_handle_irq-reads :
      LeaveClaims
      → (x : ℕ) (c : C) (u : Trace)
      → reads (claim_reg s) (generic_handle_irq s x c u).2 ≡ reads (claim_reg s) u
  unfolding generic_handle_irq plic_irq_eoi writel reads
  generic_handle_irq-reads leave x c u = ground (arith, leave.same_reads x c u)

  generic_handle_irq-writes :
      LeaveClaims
      → (x : ℕ) (c : C) (u : Trace)
      → writes (claim_reg s) (generic_handle_irq s x c u).2
        ≡ (if ltb x nr_irqs then writes (claim_reg s) u ++ (x ∷ []) else writes (claim_reg s) u)
  unfolding generic_handle_irq plic_irq_eoi writel writes
  generic_handle_irq-writes leave x c u = ground (arith, leave.same_writes x c u)

  module _ (dev : Device) (leave : LeaveClaims) where
    claim_loop-serve :
        (pending : List ℕ) (fuel : ℕ) (c : C) (t : Trace)
        → length pending < fuel
        → AreIds pending
        → Pending dev (claim_reg s) pending t
        → claim_loop dev s fuel c t
          ≡ (done (serve pending c t).0, load w32 (claim_reg s) 0 ∷ (serve pending c t).1)
    unfolding claim_loop readl serve
    claim_loop-serve pending zero c t h ids dv = absurd (omega arith)
    claim_loop-serve [] (suc fuel) c t h ids dv =
        rw (dv 0 t (omega arith), claim_loop) (rw (dv 0 t (omega arith)))
    claim_loop-serve (x ∷ xs) (suc fuel) c t h ids dv =
        let nonzero : (x == 0) ≡ false = ground arith in
        let word : dev.bus t w32 (claim_reg s) % 2 ^ 32 ≡ x =
          ap (λ (n : ℕ). n % 2 ^ 32) (dv 0 t (omega arith)) ∙ mod-eq_of_lt (omega arith) in
        let claimed = load w32 (claim_reg s) x ∷ t in
        let t' = (generic_handle_irq s x c claimed).2 in
        let later : Pending dev (claim_reg s) xs t' = λ k u e. dv (suc k) u (
          omega (
            arith,
            generic_handle_irq-reads leave x c claimed,
            reads-load_self (claim_reg s) x t,
          )) in
        rw (word, nonzero, claim_loop)
          (rw word (claim_loop-serve xs fuel _ t' (omega arith) ids.2 later))

  serve-writes :
      LeaveClaims
      → (pending : List ℕ) (c : C) (t : Trace)
      → writes (claim_reg s) (serve pending c t).1 ≡ writes (claim_reg s) t ++ in_range pending
  unfolding serve in_range writes
  serve-writes leave [] c t = sym (append-nil _)
  serve-writes leave (x ∷ xs) c t =
      let claimed = load w32 (claim_reg s) x ∷ t in
      let t' = (generic_handle_irq s x c claimed).2 in
      ground (
        arith,
        serve-writes leave xs (generic_handle_irq s x c claimed).1 t',
        generic_handle_irq-writes leave x c claimed,
        append_assoc (writes (claim_reg s) t) (x ∷ []) (in_range xs),
      )

  -- On an initialised controller with the interrupts `pending`, and handlers that leave the claim
  -- register alone, `plic_handle_irq` returns: with external interrupts masked, it claims each
  -- pending interrupt and hands it to `generic_handle_irq`, in order, reads the zero that ends the
  -- loop, and unmasks. It completes exactly the pending interrupts below 198, in order.
  pub plic_handle_irq-serve :
      (dev : Device) (pending : List ℕ) (fuel : ℕ) (c : C) (t : Trace)
      → LeaveClaims
      → IsReady s.plic
      → length pending < fuel
      → AreIds pending
      → Pending dev (claim_reg s) pending t
      → let (c', t') = serve pending c (csr csrc mie mie_meie ∷ t) in
        let out = plic_handle_irq dev s fuel c t in
        (out ≡ (done c', csr csrs mie mie_meie ∷ load w32 (claim_reg s) 0 ∷ t'))
        × (writes (claim_reg s) out.1 ≡ writes (claim_reg s) t ++ in_range pending)
  plic_handle_irq-serve dev pending fuel c t leave ready h ids dv =
      (runs, ap (λ (o : Outcome C × Trace). writes (claim_reg s) o.1) runs ∙ completes)
    where
      masked : Trace
      masked = csr csrc mie mie_meie ∷ t

      loop :
          claim_loop dev s fuel c masked
          ≡ (done (serve pending c masked).0, load w32 (claim_reg s) 0 ∷ (serve pending c masked).1)
      loop = unfold reads in claim_loop-serve dev leave pending fuel c masked h ids dv

      runs : plic_handle_irq dev s fuel c t ≡ (
        done (serve pending c masked).0,
        csr csrs mie mie_meie ∷ load w32 (claim_reg s) 0 ∷ (serve pending c masked).1,
      )
      runs =
          let guard : (s.plic.regs == 0 || not s.plic.present) ≡ false = ground arith in
          unfold plic_handle_irq csr_set csr_clear in
          rw guard (rw (loop, plic_handle_irq) (rw loop))

      completes :
          writes
            (claim_reg s)
            (csr csrs mie mie_meie ∷ load w32 (claim_reg s) 0 ∷ (serve pending c masked).1)
          ≡ writes (claim_reg s) t ++ in_range pending
      completes = unfold writes in serve-writes leave pending c masked
