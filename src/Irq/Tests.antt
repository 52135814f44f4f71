-- ===== src/Irq/Tests.antt =====
-- Runs of the interrupt layer on small devices, and the theorems at such inputs.
use t113_c.Base.{ℕ, zero, suc, ◌+◌, ◌%◌, ◌^◌, ◌==◌, leb, if◌then◌else◌, ◌&&◌, ◌≡◌, refl}
use t113_c.Base.{◌⊎◌, arith, List, [], ◌∷◌, ◌++◌, none, some, inl, inr, get_or, replicate, pos}
use t113_c.Hw.{Device, Trace, log, info, warn, csr, csrs, csrc, load, store, w32}
use t113_c.Hw.Csr.{mie, mie_meie}
use t113_c.Hw.History.{reads, writes}
use t113_c.Hw.Registers.{memory, memory-IsRegister}
use t113_c.Plic.{at_reset, plic_init}
use t113_c.Plic.Lines.{enabled, IsReady}
use t113_c.Plic.Startup.{ready, plic_init_lem}
use t113_c.Irq.{
  Irq, Handler, Entry, no_entry, table_len, run_entry, irq_request, irq_free, generic_handle_irq,
}
use t113_c.Irq.Calls.{Call, request, free, disable, run_calls}
use t113_c.Irq.Tracks.{Tracks, KeepsEnables, irq_at_start, run_calls-Tracks, irq_at_start-Tracks}
use t113_c.Irq.Registration.{irq_request-handles, irq_free-forgets}
use t113_c.Irq.Dispatch.{done, claim_reg, plic_handle_irq}
use t113_c.Irq.Dispatch.Serve.{Pending, LeaveClaims, serve, in_range, plic_handle_irq-serve}

-- A handler that counts its calls.
abbrev count_call : Handler ℕ
count_call p c t = (c + 1, log info "handled" ∷ t)

abbrev start : Irq ℕ
start = irq_at_start ℕ ready

memory-KeepsEnables : KeepsEnables memory (λ j. 0)
memory-KeepsEnables j = memory-IsRegister _

ready-IsReady : IsReady ready
ready-IsReady = record { is_present = refl; regs_at = refl; enable_at = refl; hart_at = refl }

plic_init_lem_example :
    let (p, t') = plic_init memory at_reset [] in
    IsReady p
    × (enabled memory p 146 t' ≡ (if leb 1 146 && leb 146 198 then 0 else enabled memory p 146 []))
    × (plic_init memory p t' ≡ (p, t'))
plic_init_lem_example = plic_init_lem memory 146 0 [] (omega arith) (memory-IsRegister _)

memory_at_start-Tracks :
    let (p, t') = plic_init memory at_reset [] in Tracks memory (irq_at_start ℕ p) t'
memory_at_start-Tracks = irq_at_start-Tracks ℕ memory (λ j. 0) [] memory-KeepsEnables

abbrev calls : List (Call ℕ)
calls = request 146 (some count_call) 1 none ∷ request 200 none 0 none ∷ disable 146 ∷ free 146 ∷ []

run_calls-Tracks_example :
    let (p, t) = plic_init memory at_reset [] in
    let (s', t') = run_calls memory calls (irq_at_start ℕ p) t in Tracks memory s' t'
run_calls-Tracks_example =
    run_calls-Tracks memory (λ j. 0) memory-KeepsEnables calls
      (irq_at_start ℕ (plic_init memory at_reset []).0) (plic_init memory at_reset []).1
      (tt, (tt, (omega arith, (tt, tt)))) memory_at_start-Tracks

irq_request-handles_example :
    let (z, s', _) = irq_request memory 146 (some count_call) 1 none start [] in
    (z ≡ pos 0)
    × (generic_handle_irq s' 146 5 [] ≡ (
        if 146 == 146
        then (pos 0, 6, store w32 (0x10200000 + 4) (146 % 2 ^ 32) ∷ log info "handled" ∷ [])
        else generic_handle_irq start 146 5 []))
irq_request-handles_example =
    irq_request-handles memory 146 start [] refl (omega arith) count_call 1 none 146 5 []

irq_free-forgets_example :
    let (z, s', _) = irq_free memory 146 start [] in
    (z ≡ pos 0)
    × (generic_handle_irq s' 146 5 [] ≡ (
        if 146 == 146
        then (
          pos 0,
          5,
          store w32 (0x10200000 + 4) (146 % 2 ^ 32) ∷ log warn "unhandled IRQ %u" ∷ [],
        )
        else generic_handle_irq start 146 5 []))
irq_free-forgets_example = irq_free-forgets memory 146 start [] refl (omega arith) 146 5 []

-- Every line has the counting handler.
abbrev counting : Entry ℕ
counting = record { handler = some count_call; param = 0; name = none }

abbrev busy : Irq ℕ
busy = record start { table = replicate table_len counting }

get_or-replicate_cases :
    (n m : ℕ) (e d : Entry ℕ) → (get_or (replicate n e) m d ≡ e) ⊎ (get_or (replicate n e) m d ≡ d)
get_or-replicate_cases zero m e d = inr refl
get_or-replicate_cases (suc n) zero e d = inl refl
get_or-replicate_cases (suc n) (suc m) e d = get_or-replicate_cases n m e d

busy-LeaveClaims : LeaveClaims busy
unfolding run_entry reads writes
busy-LeaveClaims = record {
  same_reads = λ m c u. elim (get_or-replicate_cases 199 m counting no_entry) [
    | inl e ↦ rw e
    | inr e ↦ rw e
  ];
  same_writes = λ m c u. elim (get_or-replicate_cases 199 m counting no_entry) [
    | inl e ↦ rw e
    | inr e ↦ rw e
  ];
}

-- 500 is no line of the chip.
abbrev claims : List ℕ
claims = 146 ∷ 500 ∷ 20 ∷ []

claim_bus : Trace → ℕ → ℕ
claim_bus t a = if a == 0x10200004 then get_or claims (reads a t) 0 else 0

abbrev claim_device : Device
claim_device = record { bus = λ t w a. claim_bus t a; csr_of = λ t c. 0 }

claim_device-Pending : Pending claim_device (claim_reg busy) claims []
unfolding claim_bus reads
claim_device-Pending k u e = let taken : reads 0x10200004 u ≡ k = omega (arith, e) in rw taken

plic_handle_irq-serve_example :
    let (c', t') = serve busy claims 0 (csr csrc mie mie_meie ∷ []) in
    let out = plic_handle_irq claim_device busy 4 0 [] in
    (out ≡ (done c', csr csrs mie mie_meie ∷ load w32 (claim_reg busy) 0 ∷ t'))
    × (writes (claim_reg busy) out.1 ≡ writes (claim_reg busy) [] ++ in_range busy claims)
plic_handle_irq-serve_example =
    plic_handle_irq-serve busy claim_device claims 4 0 [] busy-LeaveClaims ready-IsReady
      (omega arith) (omega arith) claim_device-Pending

-- Only 146 and 20 are completed.
completed : in_range busy claims ≡ 146 ∷ 20 ∷ []
unfolding in_range
completed = refl
