-- ===== src/Local/Tests.antt =====
-- A nested critical section on a core whose registers follow its instructions.
use t113_c.Base.{◌≡◌, refl, ◌∷◌, []}
use t113_c.Base.Bits.{digit}
use t113_c.Hw.{Device, Trace, nops, csr_read_clear, csr_set}
use t113_c.Hw.Csr.{mstatus, csr_value, csr_effect}
use t113_c.Local.{
  xport_interrupt_disable, xport_interrupt_enable, arch_local_irq_save, arch_local_irq_restore,
}
use t113_c.Local.Flags.{mie_bit, critical}

abbrev quiet : Device
quiet = record { bus = λ t w a. 0; csr_of = λ t c. csr_value mstatus 8 t }

-- The code of a section that only waits.
abbrev wait : Trace → Trace
wait t = nops 200 ∷ t

nested : mie_bit quiet 8 (critical quiet 8 (critical quiet 8 wait) []) ≡ 1
unfolding critical xport_interrupt_disable xport_interrupt_enable arch_local_irq_save
    arch_local_irq_restore csr_read_clear csr_set csr_value csr_effect digit
nested = refl
