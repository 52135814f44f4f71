-- ===== src/Sys.antt =====
-- openamp/libmetal/system/generic/sunxi/sys.c: what libmetal asks of this machine.
pub mod Flags
mod Tests
use t113_c.Base.{ℕ, ◌+◌, ◌==◌, if◌then◌else◌, Bool, true, ◌&&◌, u32, u64}
use t113_c.Calls.{scheduler_state, task_delay}
use t113_c.Delay.{mdelay}
use t113_c.Local.{xport_interrupt_disable, xport_interrupt_enable}
use t113_c.Hw.{Hw, Device, Library, return, call, call_pointer, ◌>>=◌, ◌>>◌}
use t113_c.Plic.{Plic, plic_irq_enable, plic_irq_disable}
use t113_c.Cache.{awos_arch_clean_flush_cache, awos_arch_flush_cache, dcache_write_back_range}
use t113_c.Cache.{dcache_invalidate_range}

-- `hal_interrupt_enable_irqrestore` and `hal_interrupt_disable_irqsave` of hal/includes/irq.h are the two
-- functions of arch/riscv/irqport.c. The flags are cut to 32 bits on both ways.
unfoldable pub sys_irq_restore_enable : ℕ → Hw (Unit {0})
sys_irq_restore_enable flags = xport_interrupt_enable (u32 flags)

unfoldable pub sys_irq_save_disable : Device → Hw ℕ
sys_irq_save_disable dev = do flags ← xport_interrupt_disable dev; return (u32 flags)

module _ (lib : Library) where
  -- taskSCHEDULER_NOT_STARTED is 1; a millisecond is one tick.
  pub metal_generic_default_poll : Hw (Unit {0})
  metal_generic_default_poll = do
    state ← call_pointer lib scheduler_state
    if state == 1 then mdelay 1 else call (task_delay 1)

module _ (dev : Device) (p : Plic) where
  pub sys_irq_enable : ℕ → Hw (Unit {0})
  sys_irq_enable vector = plic_irq_enable dev p vector

  pub sys_irq_disable : ℕ → Hw (Unit {0})
  sys_irq_disable vector = plic_irq_disable dev p vector

-- With NULL and 0 both act on the whole cache. They answer whether the line loop ended on its fuel.
unfoldable pub metal_machine_cache_flush : ℕ → ℕ → ℕ → Hw Bool
metal_machine_cache_flush fuel addr len =
    if (addr == 0) && (len == 0)
    then (do awos_arch_clean_flush_cache; return true)
    else dcache_write_back_range fuel addr (u64 (addr + len))

unfoldable pub metal_machine_cache_invalidate : ℕ → ℕ → ℕ → Hw Bool
metal_machine_cache_invalidate fuel addr len =
    if (addr == 0) && (len == 0)
    then (do awos_arch_flush_cache; return true)
    else dcache_invalidate_range fuel addr (u64 (addr + len))

-- 0 is NULL.
pub metal_machine_io_mem_map : ℕ → ℕ → ℕ
metal_machine_io_mem_map va pa = if va == 0 then pa else va
