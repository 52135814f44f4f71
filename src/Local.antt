-- ===== src/Local.antt =====
-- The interrupts of the core itself: arch/includes/irqflags.h, arch/riscv/irqport.c,
-- arch/riscv/softirq.c, arch/riscv/timer.c and hal/sources/clic.c.
pub mod Flags
pub mod Compare
mod Tests
use t113_c.Base.{ℕ, ◌+◌, ◌*◌, ◌/◌, ◌%◌, ◌^◌, ◌==◌, if◌then◌else◌, Bool, true, false, not, ◌∷◌}
use t113_c.Base.{bit_and, ◌>>>◌, u32, u64, ℤ, pos}
use t113_c.Hw.{
  Hw, Device, Trace, writel, emit, skip, return, csr_read, csr_set, csr_clear, csr_read_clear,
}
use t113_c.Hw.{◌>>=◌, ◌>>◌, log, error, fence, switch_context}
use t113_c.Hw.Csr.{mstatus, sr_mie, mie, mie_msie, mie_mtie}

pub arch_irqs_disabled_flags : ℕ → Bool
arch_irqs_disabled_flags flags = bit_and flags sr_mie == 0

module _ (dev : Device) where
  pub arch_local_save_flags : Hw ℕ
  arch_local_save_flags = csr_read dev mstatus

  pub arch_irqs_disabled : Hw Bool
  arch_irqs_disabled = do flags ← arch_local_save_flags; return (arch_irqs_disabled_flags flags)

  unfoldable pub arch_local_irq_save : Hw ℕ
  arch_local_irq_save = csr_read_clear dev mstatus sr_mie

  unfoldable pub xport_interrupt_disable : Hw ℕ
  xport_interrupt_disable = arch_local_irq_save

pub arch_local_irq_enable : Hw (Unit {0})
arch_local_irq_enable = csr_set mstatus sr_mie

pub arch_local_irq_disable : Hw (Unit {0})
arch_local_irq_disable = csr_clear mstatus sr_mie

unfoldable pub arch_local_irq_restore : ℕ → Hw (Unit {0})
arch_local_irq_restore flags = csr_set mstatus (bit_and flags sr_mie)

unfoldable pub xport_interrupt_enable : ℕ → Hw (Unit {0})
xport_interrupt_enable flags = arch_local_irq_restore flags

-- `arch_enable_all_irq` and `arch_disable_all_irq` of arch/riscv/irq.c
pub arch_enable_all_irq : Hw (Unit {0})
arch_enable_all_irq = arch_local_irq_enable

pub arch_disable_all_irq : Hw (Unit {0})
arch_disable_all_irq = arch_local_irq_disable

-- The three addresses that clic.c keeps.
pub record Clic : Type 0 where
  pub base : ℕ
  pub mtime : ℕ
  pub comp : ℕ

-- CSR_PLIC_BASE and CSR_TIME
abbrev pub plic_base_csr : ℕ
plic_base_csr = 0xfc1

abbrev pub time_csr : ℕ
time_csr = 0xc01

unfoldable pub clic_driver_init : Device → Trace → ℤ × Clic × Trace
clic_driver_init dev t =
    let (_, t1) = csr_set mie mie_msie t in
    let (found, t2) = csr_read dev plic_base_csr t1 in
    let base = u64 (found + 0x04000000) in
    let t3 = if base == 0 then log error "clic_driver_init: CSR_PLIC_BASE is zero!" ∷ t2 else t2 in
    (pos 0, record { base = base; mtime = u64 (base + 0xbff8); comp = u64 (base + 0x4000) }, t3)

-- `*msip_reg = v` with its two barriers, `fence iorw,iorw` and `sync`, where the register is known.
pub set_msip : Clic → ℕ → Hw (Unit {0})
set_msip c v = if c.base == 0 then skip else (do writel v c.base; emit fence; emit fence)

pub riscv_trigger_soft_interrupt : Clic → Hw (Unit {0})
riscv_trigger_soft_interrupt c = set_msip c 1

pub riscv_soft_irq_handler : Clic → Hw (Unit {0})
riscv_soft_irq_handler c = do set_msip c 0; emit switch_context

-- The names under which the kernel calls both.
rv_trigger_soft_interrupt : Clic → Hw (Unit {0})
rv_trigger_soft_interrupt = riscv_trigger_soft_interrupt

rv_soft_irq_handler_non_vec_mode : Clic → Hw (Unit {0})
rv_soft_irq_handler_non_vec_mode = riscv_soft_irq_handler

-- The variables of the FreeRTOS port: `pullMachineTimerCompareRegister` and `ullNextTime`.
pub record Port : Type 0 where
  pub compare_register : ℕ
  pub next_time : ℕ

-- The two halves of a compare value. The address of the second is a sum of a pointer.
unfoldable pub write_compare : ℕ → ℕ → Hw (Unit {0})
write_compare addr value = do
  writel (bit_and value 0xffffffff) addr
  writel (value >>> 32) (u64 (addr + 0x04))

module _ (dev : Device) where
  unfoldable pub riscv_get_cycles : Hw ℕ
  riscv_get_cycles = csr_read dev time_csr

  -- `delta` is TICK_DELTA.
  pub riscv_timer_interrupt : ℕ → Clic → Hw (Unit {0})
  riscv_timer_interrupt delta c = do
    now ← riscv_get_cycles
    csr_clear mie mie_mtie
    write_compare c.comp (u64 (now + delta))
    csr_set mie mie_mtie

  unfoldable pub riscv_system_tick_init : ℕ → Clic → Port → Hw Port
  riscv_system_tick_init delta c p = do
    now ← riscv_get_cycles
    let next = u64 (now + delta)
    csr_set mie mie_mtie
    write_compare c.comp next
    return (
        if c.comp == 0
        then p
        else record { compare_register = c.comp; next_time = u64 (next + delta) })

  -- `ticks` is `uxTimerIncrementsForOneTick`, which the port sets.
  pub riscv_timer_port_setup : ℕ → Clic → Port → Hw Port
  riscv_timer_port_setup ticks c p =
      if c.comp == 0
      then (do emit (log error "riscv_timer_port_setup: invalid timer base"); return p)
      else do
        now ← riscv_get_cycles
        let first = u64 (now + ticks)
        write_compare c.comp first
        return (record { compare_register = c.comp; next_time = u64 (first + ticks) })
