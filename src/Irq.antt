-- ===== src/Irq.antt =====
-- arch/riscv/irq.c: the table of interrupt handlers, and the bitmap of enabled lines.
-- `C` is the state of the code behind the handlers.
pub mod Quiet
pub mod Bitmap
pub mod Tracks
pub mod Registration
pub mod Dispatch
mod Tests
pub mod Calls
use Prim.Native.String.{String}
use t113_c.Base.{ℕ, ◌+◌, ◌/◌, ◌%◌, ◌==◌, leb, if◌then◌else◌, Bool, true, false, ◌||◌, List, ◌∷◌}
use t113_c.Base.{Option, none, some, get_or, set, replicate, bit_and, bit_or, ◌<<<◌, complement}
use t113_c.Base.{ℤ, pos, negsuc, to_unsigned}
use t113_c.Hw.{Device, Trace, csr_set, log, info, warn}
use t113_c.Hw.Csr.{mie, mstatus, mie_meie, sr_mie}
use t113_c.Plic.{Plic, nr_irqs, plic_irq_enable, plic_irq_disable, plic_irq_eoi}

-- `irq_handler_t`, called with the registered parameter.
abbrev pub Handler : Type 0 → Type 0
Handler C = ℕ → C → Trace → C × Trace

-- `struct irq_handler_entry`; `none` is NULL.
pub record Entry (C : Type 0) : Type 0 where
  pub handler : Option (Handler C)
  pub param : ℕ
  pub name : Option String

abbrev pub no_entry : {C : Type 0} → Entry C
no_entry = record { handler = none; param = 0; name = none }

-- `irq_table`, `plic_irq_rec`, and the state of plic.c.
pub record Irq (C : Type 0) : Type 0 where
  pub table : List (Entry C)
  pub enabled_rec : List ℕ
  pub plic : Plic

-- The lengths of both arrays.
abbrev pub table_len : ℕ
table_len = nr_irqs + 1

abbrev pub rec_len : ℕ
rec_len = (nr_irqs + 1 + 32) / 32

-- `record_irq_enable` and `record_irq_disable`
pub record_irq_enable : ℕ → List ℕ → List ℕ
record_irq_enable irq_no words =
    let word = get_or words (irq_no / 32) 0 in
    let mask = 1 <<< (irq_no % 32) in
    if bit_and word mask == 0 then set words (irq_no / 32) (bit_or word mask) else words

pub record_irq_disable : ℕ → List ℕ → List ℕ
record_irq_disable irq_no words =
    let word = get_or words (irq_no / 32) 0 in
    let mask = 1 <<< (irq_no % 32) in
    if bit_and word mask == 0
    then words
    else set words (irq_no / 32) (bit_and word (complement 32 mask))

abbrev pub is_null {ℓ} : {A : Type ℓ} → Option A → Bool
is_null none = true
is_null (some a) = false

-- `name ? name : "anon"`
abbrev pub name_or_anon : Option String → Option String
name_or_anon none = some "anon"
name_or_anon (some n) = some n

module _ {C : Type 0} (dev : Device) where
  pub irq_request : ℕ → Option (Handler C) → ℕ → Option String → Irq C → Trace → ℤ × Irq C × Trace
  irq_request irq_no handler param name s t =
      if leb nr_irqs irq_no || is_null handler
      then (negsuc 0, s, t)
      else (let entry : Entry C = record {
        handler = handler;
        param = param;
        name = name_or_anon name;
      } in
          let (_, t1) = csr_set mie mie_meie t in
          let (_, t2) = csr_set mstatus sr_mie t1 in
          let (_, t3) = plic_irq_enable dev s.plic irq_no t2 in
          (
            pos 0,
            record s {
              table = set s.table irq_no entry;
              enabled_rec = record_irq_enable irq_no s.enabled_rec;
            },
            log info "irq %u (%s) registered and enabled" ∷ t3,
          ))

  pub irq_free : ℕ → Irq C → Trace → ℤ × Irq C × Trace
  irq_free irq_no s t =
      if leb nr_irqs irq_no
      then (negsuc 0, s, t)
      else (let (_, t1) = plic_irq_disable dev s.plic irq_no t in
          (
            pos 0,
            record s {
              table = set s.table irq_no no_entry;
              enabled_rec = record_irq_disable irq_no s.enabled_rec;
            },
            log info "irq %u freed" ∷ t1,
          ))

  -- `irq_enable` and `irq_disable`
  -- Neither checks the number.
  pub irq_enable : ℕ → Irq C → Trace → ℤ × Irq C × Trace
  irq_enable irq_no s t =
      let (_, t1) = plic_irq_enable dev s.plic irq_no t in
      (pos 0, record s { enabled_rec = record_irq_enable irq_no s.enabled_rec }, t1)

  pub irq_disable : ℕ → Irq C → Trace → ℤ × Irq C × Trace
  irq_disable irq_no s t =
      let (_, t1) = plic_irq_disable dev s.plic irq_no t in
      (pos 0, record s { enabled_rec = record_irq_disable irq_no s.enabled_rec }, t1)

  -- The architecture's names for both, which drop the result and pass on the signed number.
  arch_enable_irq : ℤ → Irq C → Trace → Irq C × Trace
  arch_enable_irq irq s t = let (_, s1, t1) = irq_enable (to_unsigned irq) s t in (s1, t1)

  arch_disable_irq : ℤ → Irq C → Trace → Irq C × Trace
  arch_disable_irq irq s t = let (_, s1, t1) = irq_disable (to_unsigned irq) s t in (s1, t1)

-- `entry->handler(entry->param)`, or the warning where there is no handler.
unfoldable pub run_entry : {C : Type 0} → Entry C → C → Trace → C × Trace
run_entry entry c t = elim entry.handler [
  | some h ↦ h entry.param c t
  | none ↦ (c, log warn "unhandled IRQ %u" ∷ t)
]

pub generic_handle_irq : {C : Type 0} → Irq C → ℕ → C → Trace → ℤ × C × Trace
generic_handle_irq s irq c t =
    if leb nr_irqs irq
    then (negsuc 0, c, log warn "spurious IRQ %u (>= NR_IRQS)" ∷ t)
    else (let (c', t') = run_entry (get_or s.table irq no_entry) c t in
        let (_, t'') = plic_irq_eoi s.plic irq t' in (pos 0, c', t''))
