-- ===== src/Local/Flags.antt =====
-- Critical sections: `xport_interrupt_disable`, some code, `xport_interrupt_enable`.
use t113_c.Base.{ℕ, ◌%◌, ◌^◌, ◌≡◌, refl, arith, bit_and, min, max}
use t113_c.Base.Bits.{digit, digit-lt, digit-bit_or, digit-bit_and, digit-clear_bit, digit-mod}
use t113_c.Hw.{Device, Trace, csr_answer, csr_read_clear, csr_set}
use t113_c.Hw.Csr.{csr_effect, csr_value, mstatus, sr_mie}
use t113_c.Local.{xport_interrupt_disable, xport_interrupt_enable, arch_local_irq_save}
use t113_c.Local.{arch_local_irq_restore}

module _ (dev : Device) (r : ℕ) where
  -- The register reads as the instructions so far have left it, from the value `r` on.
  abbrev pub Follows : Type 0
  Follows = (t : Trace) → csr_answer dev mstatus t ≡ csr_value mstatus r t % 2 ^ 64

  -- The interrupt enable bit.
  abbrev pub mie_bit : Trace → ℕ
  mie_bit t = digit (csr_value mstatus r t) 3

  -- The code leaves the bit as it finds it.
  abbrev pub KeepsBit : (Trace → Trace) → Type 0
  KeepsBit code = (t : Trace) → mie_bit (code t) ≡ mie_bit t

  -- The code as a critical section.
  unfoldable pub critical : (Trace → Trace) → Trace → Trace
  critical code t =
      let (flags, t1) = xport_interrupt_disable dev t in (xport_interrupt_enable flags (code t1)).1

  pub disabled : (t : Trace) → mie_bit (xport_interrupt_disable dev t).1 ≡ 0
  unfolding xport_interrupt_disable arch_local_irq_save csr_read_clear csr_value csr_effect
  disabled t =
      ground (arith, digit-clear_bit 64 (csr_value mstatus r t) 3 3 (omega arith) (omega arith))

  pub restored :
      (flags : ℕ) (t : Trace)
      → mie_bit (xport_interrupt_enable flags t).1
        ≡ max (mie_bit t) (min (digit flags 3) (digit sr_mie 3))
  unfolding xport_interrupt_enable arch_local_irq_restore csr_set csr_value csr_effect
  restored flags t = ground (
    arith,
    digit-bit_or (csr_value mstatus r t) (bit_and flags sr_mie) 3,
    digit-bit_and flags sr_mie 3,
  )

  pub flags_bit : Follows → (t : Trace) → digit (xport_interrupt_disable dev t).0 3 ≡ mie_bit t
  unfolding xport_interrupt_disable arch_local_irq_save csr_read_clear
  flags_bit follows t = rw (follows t) (digit-mod 64 (csr_value mstatus r t) 3 (omega arith))

  pub one_bit : digit sr_mie 3 ≡ 1
  unfolding digit
  one_bit = refl

  -- On a core whose status register follows its instructions, around code that leaves the
  -- interrupt enable bit alone: the code starts with interrupts disabled, and the section as a
  -- whole leaves the bit alone too, so that sections nest to any depth.
  pub critical-KeepsBit :
      (code : Trace → Trace)
      → Follows
      → KeepsBit code
      → ((t : Trace) → mie_bit (xport_interrupt_disable dev t).1 ≡ 0) × KeepsBit (critical code)
  unfolding critical
  critical-KeepsBit code follows keeps = (
    disabled,
    λ t.
        let t1 = (xport_interrupt_disable dev t).1 in
        let flags = (xport_interrupt_disable dev t).0 in
        omega (
          arith,
          restored flags (code t1),
          keeps t1,
          disabled t,
          flags_bit follows t,
          one_bit,
          digit-lt (csr_value mstatus r t) 3,
        ),
  )
