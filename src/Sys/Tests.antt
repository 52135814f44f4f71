-- ===== src/Sys/Tests.antt =====
-- A nested section of libmetal on a core whose status register follows its instructions.
use t113_c.Base.{◌≡◌, refl, ◌∷◌}
use t113_c.Hw.{Device, Trace, nops}
use t113_c.Hw.Csr.{mstatus, csr_value}
use t113_c.Local.Flags.{mie_bit, KeepsBit, Follows}
use t113_c.Sys.{sys_irq_save_disable}
use t113_c.Sys.Flags.{section, section-KeepsBit}

abbrev quiet : Device
quiet = record { bus = λ t w a. 0; csr_of = λ t c. csr_value mstatus 8 t }

-- The code of a section that only waits.
abbrev wait : Trace → Trace
wait t = nops 200 ∷ t

wait-KeepsBit : KeepsBit quiet 8 wait
unfolding csr_value
wait-KeepsBit t = refl

quiet-Follows : Follows quiet 8
quiet-Follows t = refl

section-KeepsBit_example :
    ((t : Trace) → mie_bit quiet 8 (sys_irq_save_disable quiet t).1 ≡ 0)
    × KeepsBit quiet 8 (section quiet wait)
section-KeepsBit_example = section-KeepsBit quiet 8 wait quiet-Follows wait-KeepsBit
