-- ===== src/Irq/Tracks.antt =====
-- The bitmap `plic_irq_rec` shows which lines are enabled in the controller.
use Prim.Native.String.{String}
use t113_c.Base.{ℕ, ◌+◌, ◌*◌, ◌/◌, ◌%◌, ◌<◌, ◌≤◌, leb, ◌||◌}
use t113_c.Base.{◌≡◌, ◌≢◌, ◌^◌, refl, arith, List, [], ◌∷◌, Option, length}
use t113_c.Base.{set, replicate}
use t113_c.Base.{get_or-replicate, Bool-cases, inl, inr}
use t113_c.Base.Bits.{digit-zero}
use t113_c.Hw.{Device, Trace, csr_set, log, info, csr, csrs, CsrOp, LogLevel, store, w32}
use t113_c.Hw.Csr.{mie, mstatus, mie_meie, sr_mie}
use t113_c.Hw.Registers.{IsRegister, bit_at-csr, bit_at-log, bit_at-store}
use t113_c.Plic.{nr_irqs, Plic, at_reset, enable_reg, plic_init}
use t113_c.Plic.Lines.{enabled, IsReady, plic_irq_enable-disable}
use t113_c.Plic.Startup.{plic_init_lem}
use t113_c.Irq.{Handler, Entry, no_entry, Irq, table_len, rec_len}
use t113_c.Irq.Calls.{
  Call, request, free, enable, disable, InRange, AllInRange, run_call, run_calls,
}
use t113_c.Irq.{is_null, irq_request, irq_free, irq_enable, irq_disable}
use t113_c.Irq.Bitmap.{recorded, recorded-enable, recorded-disable, length-record}

-- The bitmap has its words, the controller is initialised, and both agree on the lines 1 to 198.
pub record Tracks {C : Type 0} (dev : Device) (s : Irq C) (t : Trace) : Type 0 where
  pub words : length s.enabled_rec ≡ rec_len
  pub ready : IsReady s.plic
  pub agrees : (j : ℕ) → 1 ≤ j → j < table_len → recorded j s.enabled_rec ≡ enabled dev s.plic j t

-- The device keeps what is written to its enable registers.
abbrev pub KeepsEnables : Device → (ℕ → ℕ) → Type 0
KeepsEnables dev r = (j : ℕ) → IsRegister dev (0x10002000 + j / 32 * 4) (r j)

keeps_at :
    {dev : Device} (r : ℕ → ℕ)
    → KeepsEnables dev r
    → (p : Plic) (j : ℕ) → IsReady p
    → IsRegister dev (enable_reg p j) (r j)
keeps_at r keeps p j ready = rw (ready.enable_at) (keeps j)

module _ {C : Type 0} (dev : Device) (r : ℕ → ℕ) (keeps : KeepsEnables dev r) where
  irq_enable-Tracks :
      (n : ℕ) (s : Irq C) (t : Trace)
      → n < 224
      → Tracks dev s t
      → Tracks dev (irq_enable dev n s t).1 (irq_enable dev n s t).2
  unfolding irq_enable
  irq_enable-Tracks n s t h v = record {
    words = ground (arith, length-record n s.enabled_rec, v.words);
    ready = v.ready;
    agrees = λ j lo hi. ground (
      arith,
      recorded-enable n j s.enabled_rec,
      plic_irq_enable-disable dev s.plic n j (r j) t v.ready (omega arith)
          (keeps_at r keeps s.plic j v.ready),
      v.agrees j lo hi,
      v.words,
    );
  }

  irq_disable-Tracks :
      (n : ℕ) (s : Irq C) (t : Trace)
      → n < 224
      → Tracks dev s t
      → Tracks dev (irq_disable dev n s t).1 (irq_disable dev n s t).2
  unfolding irq_disable
  irq_disable-Tracks n s t h v = record {
    words = ground (arith, length-record n s.enabled_rec, v.words);
    ready = v.ready;
    agrees = λ j lo hi. ground (
      arith,
      recorded-disable n j s.enabled_rec,
      plic_irq_enable-disable dev s.plic n j (r j) t v.ready (omega arith)
          (keeps_at r keeps s.plic j v.ready),
      v.agrees j lo hi,
      v.words,
    );
  }

  pub Tracks-csr :
      (op : CsrOp) (c m : ℕ) (s : Irq C) (t : Trace)
      → Tracks dev s t
      → Tracks dev s (csr op c m ∷ t)
  Tracks-csr op c m s t v = record {
    words = v.words;
    ready = v.ready;
    agrees = λ j lo hi.
        rw
          (bit_at-csr (enable_reg s.plic j) (r j) (j % 32) op c m t
            (keeps_at r keeps s.plic j v.ready))
          (v.agrees j lo hi);
  }

  pub Tracks-log :
      (l : LogLevel) (m : String) (s : Irq C) (t : Trace)
      → Tracks dev s t
      → Tracks dev s (log l m ∷ t)
  Tracks-log l m s t v = record {
    words = v.words;
    ready = v.ready;
    agrees = λ j lo hi.
        rw
          (bit_at-log (enable_reg s.plic j) (r j) (j % 32) l m t
            (keeps_at r keeps s.plic j v.ready))
          (v.agrees j lo hi);
  }

  -- A store beside the enable registers.
  pub Tracks-store :
      (a v : ℕ) (s : Irq C) (t : Trace)
      → ((j : ℕ) → j < table_len → 0x10002000 + j / 32 * 4 ≢ a)
      → Tracks dev s t
      → Tracks dev s (store w32 a (v % 2 ^ 32) ∷ t)
  Tracks-store a v s t beside tr = record {
    words = tr.words;
    ready = tr.ready;
    agrees = λ j lo hi.
        let at : enable_reg s.plic j ≡ 0x10002000 + j / 32 * 4 =
          omega (arith, tr.ready.enable_at) in
        ground (
          arith,
          bit_at-store (enable_reg s.plic j) a (r j) v (j % 32) t
              (keeps_at r keeps s.plic j tr.ready),
          tr.agrees j lo hi,
          beside j hi,
          at,
        );
  }

  Tracks-table :
      (table : List (Entry C)) (s : Irq C) (t : Trace)
      → Tracks dev s t
      → Tracks dev (record s { table = table }) t
  Tracks-table table s t v = record { words = v.words; ready = v.ready; agrees = v.agrees }

  irq_free-Tracks :
      (n : ℕ) (s : Irq C) (t : Trace)
      → Tracks dev s t
      → Tracks dev (irq_free dev n s t).1 (irq_free dev n s t).2
  irq_free-Tracks n s t v = elim (Bool-cases (leb nr_irqs n)) [
    | inl bad ↦ unfold irq_free in rw bad v
    | inr good ↦
        let below : n < 224 = ground arith in
        let step = irq_disable-Tracks n s t below v in
        unfold irq_free irq_disable in
        rw good
          (Tracks-log info "irq %u freed" _ _ (Tracks-table (set s.table n no_entry) _ _ step))
  ]

  irq_request-Tracks :
      (n : ℕ) (h : Option (Handler C)) (p : ℕ) (name : Option String) (s : Irq C) (t : Trace)
      → Tracks dev s t
      → Tracks dev (irq_request dev n h p name s t).1 (irq_request dev n h p name s t).2
  irq_request-Tracks n h p name s t v = elim (Bool-cases (leb nr_irqs n || is_null h)) [
    | inl bad ↦ unfold irq_request in rw bad v
    | inr good ↦
        let below : n < 224 = ground arith in
        let on = Tracks-csr csrs mstatus sr_mie s _ (Tracks-csr csrs mie mie_meie s t v) in
        let step = irq_enable-Tracks n s _ below on in
        unfold irq_request irq_enable csr_set in
        rw good (Tracks-log info _ _ _ (Tracks-table _ _ _ step))
  ]

  run_call-Tracks :
      (c : Call C) (s : Irq C) (t : Trace)
      → InRange c
      → Tracks dev s t
      → let (s', t') = run_call dev c s t in Tracks dev s' t'
  run_call-Tracks (request n h p name) s t _ v = irq_request-Tracks n h p name s t v
  run_call-Tracks (free n) s t _ v = irq_free-Tracks n s t v
  run_call-Tracks (enable n) s t h v = irq_enable-Tracks n s t h v
  run_call-Tracks (disable n) s t h v = irq_disable-Tracks n s t h v

  -- On a device that keeps what is written to its enable registers: if the bitmap agrees with the
  -- controller on the lines 1 to 198, it still does after any sequence of `irq_request`,
  -- `irq_free`, `irq_enable` and `irq_disable`, failed requests included, where the last two are
  -- called on numbers below 224.
  pub run_calls-Tracks :
      (cs : List (Call C)) (s : Irq C) (t : Trace)
      → AllInRange cs
      → Tracks dev s t
      → let (s', t') = run_calls dev cs s t in Tracks dev s' t'
  run_calls-Tracks [] s t _ v = v
  run_calls-Tracks (c ∷ cs) s t h v = run_calls-Tracks cs _ _ h.1 (run_call-Tracks c s t h.0 v)

-- The state of irq.c before any call, once `plic_init` has run.
abbrev pub irq_at_start : (C : Type 0) → Plic → Irq C
irq_at_start C p = record {
  table = replicate table_len no_entry;
  enabled_rec = replicate rec_len 0;
  plic = p;
}

-- After `plic_init` the cleared bitmap agrees with the controller.
pub irq_at_start-Tracks :
    (C : Type 0) (dev : Device) (r : ℕ → ℕ) (t : Trace)
    → KeepsEnables dev r
    → let (p, t') = plic_init dev at_reset t in Tracks dev (irq_at_start C p) t'
unfolding recorded
irq_at_start-Tracks C dev r t keeps = record {
  words = refl;
  ready = (plic_init_lem dev 0 (r 0) t (omega arith) (keeps 0)).0;
  agrees = λ j lo hi. ground (
    arith,
    plic_init_lem dev j (r j) t (omega arith) (keeps j),
    get_or-replicate {A = ℕ} 7 (j / 32) 0 0,
    digit-zero (j % 32),
  );
}
