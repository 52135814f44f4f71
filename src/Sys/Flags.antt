-- ===== src/Sys/Flags.antt =====
-- The critical sections of libmetal.
use t113_c.Base.{ℕ, ◌≡◌, arith, u32}
use t113_c.Base.Bits.{digit-lt, digit-mod}
use t113_c.Hw.{Device, Trace}
use t113_c.Hw.Csr.{csr_value, mstatus}
use t113_c.Local.{xport_interrupt_disable}
use t113_c.Local.Flags.{Follows, mie_bit, KeepsBit, disabled, restored, flags_bit, one_bit}
use t113_c.Sys.{sys_irq_restore_enable, sys_irq_save_disable}

-- The code between `sys_irq_save_disable` and `sys_irq_restore_enable`.
pub section : Device → (Trace → Trace) → Trace → Trace
section dev code t =
    let (flags, t1) = sys_irq_save_disable dev t in (sys_irq_restore_enable flags (code t1)).1

module _ (dev : Device) (r : ℕ) where
  -- On a core whose status register follows its instructions, around code that leaves the interrupt enable
  -- bit alone: after `sys_irq_save_disable` interrupts are disabled, and with the flags that it returned
  -- `sys_irq_restore_enable` leaves the bit as it was before, though both cut the flags to 32 bits. So the
  -- whole section leaves the bit alone, and sections nest to any depth.
  pub section-KeepsBit :
      (code : Trace → Trace)
      → Follows dev r
      → KeepsBit dev r code
      → ((t : Trace) → mie_bit dev r (sys_irq_save_disable dev t).1 ≡ 0)
        × KeepsBit dev r (section dev code)
  unfolding section sys_irq_save_disable sys_irq_restore_enable
  section-KeepsBit code follows keeps = (
    disabled dev r,
    λ t.
        let t1 = (xport_interrupt_disable dev t).1 in
        let flags = (xport_interrupt_disable dev t).0 in
        omega (
          arith,
          restored dev r (u32 (u32 flags)) (code t1),
          keeps t1,
          disabled dev r t,
          flags_bit dev r follows t,
          one_bit dev r,
          digit-mod 32 (u32 flags) 3 (omega arith),
          digit-mod 32 flags 3 (omega arith),
          digit-lt (csr_value mstatus r t) 3,
        ),
  )
