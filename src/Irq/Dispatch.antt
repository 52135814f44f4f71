-- ===== src/Irq/Dispatch.antt =====
-- The path of an external interrupt: `plic_handle_irq` of hal/sources/plic.c, and the entry
-- `C906_Default_IRQHandler` of arch/riscv/trap.c that calls it.
pub mod Serve
use t113_c.Base.{ℕ, zero, suc, ◌+◌, ◌==◌, if◌then◌else◌, Bool, true, false, not, ◌||◌, ◌∷◌}
use t113_c.Hw.{
  Hw, Device, Trace, skip, log, error, readl, csr_set, csr_clear, enter_interrupt, exit_interrupt,
}
use t113_c.Hw.Csr.{mie, mie_meie}
use t113_c.Plic.{context_claim}
use t113_c.Irq.{Irq, generic_handle_irq}

-- `spins` is `while(1);`. `out_of_fuel` is a loop that is still running.
pub data Outcome (C : Type 0) : Type 0 where
  done : C → Outcome C
  spins : Outcome C
  out_of_fuel : Outcome C

abbrev pub claim_reg : {C : Type 0} → Irq C → ℕ
claim_reg s = s.plic.hart_base + context_claim

module _ {C : Type 0} (dev : Device) (s : Irq C) where
  -- `while ((irq = readl(claim))) generic_handle_irq(irq);`
  pub claim_loop : ℕ → C → Trace → Outcome C × Trace
  claim_loop zero c t = (out_of_fuel, t)
  claim_loop (suc fuel) c t =
      let (irq, t1) = readl dev (claim_reg s) t in
      elim (irq == 0) [
        | true ↦ (done c, t1)
        | false ↦ let (_, c2, t2) = generic_handle_irq s irq c t1 in claim_loop fuel c2 t2
      ]

  pub plic_handle_irq : ℕ → C → Trace → Outcome C × Trace
  plic_handle_irq fuel c t =
      if s.plic.regs == 0 || not s.plic.present
      then (spins, t)
      else (let (_, t1) = csr_clear mie mie_meie t in
          let (out, t2) = claim_loop fuel c t1 in
          let (_, t3) = csr_set mie mie_meie t2 in
          elim out [
            | done c' ↦ (done c', t3)
            | spins ↦ (spins, t2)
            | out_of_fuel ↦ (out_of_fuel, t2)
          ])

  -- `C906_Default_IRQHandler` and its alias `c906_default_irq_handler`. The two functions around
  -- the call are FreeRTOS's, and count the nesting depth.
  pub default_irq_handler : ℕ → C → Trace → Outcome C × Trace
  default_irq_handler fuel c t =
      let (out, t1) = plic_handle_irq fuel c (enter_interrupt ∷ t) in
      elim out [
        | done c' ↦ (done c', exit_interrupt ∷ t1)
        | spins ↦ (spins, t1)
        | out_of_fuel ↦ (out_of_fuel, t1)
      ]

-- `riscv_trap_handler` logs the exception and never returns its `mepc`.
pub riscv_trap_handler : ℕ → ℕ → ℕ → Trace → Outcome ℕ × Trace
riscv_trap_handler mcause mepc mtval t =
    (spins, log error "Unhandled exception: mcause=0x%lx, mepc=0x%lx, mtval=0x%lx" ∷ t)

pub riscv_cpu_handle_exception : Hw (Unit {0})
riscv_cpu_handle_exception = skip
