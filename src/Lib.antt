-- ===== src/Lib.antt =====
-- Firmware of the C906 core: drivers, interrupt handling, and the mailbox that carries the
-- messages of OpenAMP between this core and the ARM core.
--
-- How the parts interact. A driver acts through the accessors of arch/includes/rv_io.h and
-- arch/includes/csr.h (Hw). An external interrupt enters at C906_Default_IRQHandler
-- (arch/riscv/trap.c), which calls plic_handle_irq (hal/sources/plic.c): it claims interrupts
-- and hands each one to generic_handle_irq (arch/riscv/irq.c), which calls the handler that
-- irq_request put into its table, and completes the interrupt. The mailbox
-- (openamp/platform/ipi.c) registers such a handler in msgbox_init. The handler drains the
-- receive FIFO with msgbox_poll, which hands each word to a callback, and wakes the task. The
-- platform code (openamp/platform/platform.c) starts the mailbox and the libraries in their order,
-- and its callback notifies open-amp of each word; open-amp reads and writes the messages through
-- the shared memory operations (openamp/platform/shmem_ops.c), which keep the caches of the two
-- cores in step by the functions of hal/sources/cache.c.
--
-- The hardware is a parameter: a Device gives the answer of each register read from the whole
-- history, so that code is a function from a history to a result and a longer history. A history
-- lists loads, stores, CSR instructions, cache instructions, fences, delays, log lines and the
-- calls of the kernel and of the libraries, latest first. What a theorem needs of the hardware
-- is a named hypothesis: a register that keeps what is written (Hw/Registers), a FIFO that holds
-- given words (Msgbox/Fifo) or that words enter at any moment (Msgbox/Arrivals), a claim
-- register that answers with given interrupts (Irq/Dispatch). The shared memory operations see
-- memory through an interface with laws (Shmem/Interface); a core with a private cache is an
-- instance (Coherent/Core). The libraries are a parameter too: a Library answers each of their
-- calls from the history.
--
-- Files.
--   Base, Base/...      numbers, lists, machine words, binary digits
--   Hw, Hw/...          arch/includes/rv_io.h and csr.h: accessors, events, devices
--   Hw/Access           rv_io.h again, instruction by instruction: all accessors with their fences
--                       (readl is mmio_read, readsl is mmio_reads, inl is port_in)
--   Delay               hal/sources/delay.c: udelay, mdelay
--   Ccu, Ccu/...        hal/sources/ccu.c: clocks and resets (CCU_EnableClock is enable_clock);
--                       Ccu/Gates/Table is what a caller may rely on
--   Plic, Plic/...      hal/sources/plic.c: the interrupt controller
--   Irq, Irq/...        arch/riscv/irq.c: the table of handlers, and the bitmap of lines
--   Irq/Dispatch        plic_handle_irq, and the entry of arch/riscv/trap.c
--   Msgbox, Msgbox/...  openamp/platform/ipi.c: msgbox_send, msgbox_poll
--   Msgbox/Setup        msgbox_irq_handler, msgbox_init
--   Msgbox/Race         the polls of the task and of the interrupt handler, access by access;
--                       Msgbox/Race/Code joins them to msgbox_poll
--   Uart, Uart/...      hal/sources/uart.c: the serial port
--   Syscalls, ...       hal/sources/syscalls.c: the calls of the C library (_write_r is write_r)
--   Cache, Cache/...    hal/sources/cache.c: cache maintenance (DcacheWriteBackRange is
--                       dcache_write_back_range)
--   Local, Local/...    arch/includes/irqflags.h, arch/riscv/irqport.c, softirq.c and timer.c, and
--                       hal/sources/clic.c: the interrupts of the core itself
--   Log, Log/...        core/log.c: log_printf, as the bytes that it prints
--   Sys                 openamp/libmetal/system/generic/sunxi/sys.c: what libmetal asks of the machine
--   Shmem, Shmem/...    openamp/platform/shmem_ops.c: loads, stores, block copies and fills of shared
--                       memory, over an interface of memories (Shmem/Interface)
--   Coherent, ...       cores with private caches over one memory: what the cache instructions do
--                       to the bytes a core sees; Coherent/Message joins shmem_ops.c, sys.c and cache.c
--   Calls               the calls of FreeRTOS, libmetal and open-amp
--   Platform, ...       openamp/platform/platform.c: the bring-up of the remote processor, its
--                       mappings (Platform/Memory), the poll and the callbacks; two cores
--                       that are connected by their mailboxes (Platform/Wire)
--   Rsc                 core/rsc_tab.c and rsc_table.h: the resource table
--   Main, Main/...      core/main.c: the start-up, and the task that serves the mailbox
--
-- Fuel. The loops of msgbox_poll and of plic_handle_irq have no bound in the source: they run
-- until the hardware reports that nothing is left. They take fuel, and a result says when it ran
-- out. The theorems on them show that more fuel than there are words or interrupts is enough.
-- The line loop of the cache functions takes fuel too, and more fuel than lines is enough. The
-- loop of platform_rproc_remove ends with more fuel than mappings. Every other loop has its bound
-- in the source and is recursion on it.
--
-- Numbers. Values are natural numbers, cut to 8, 32 or 64 bits where the source stores them in
-- such a type; int results are integers. Addresses are numbers, with 0 for NULL.
--
-- Not modelled: FreeRTOS, open-amp and libmetal, which are copies of other projects, and
-- the assembly of core/head_s.S. What vprintf prints is a parameter.
pub mod Base
pub mod Cache
pub mod Calls
pub mod Ccu
pub mod Coherent
pub mod Delay
pub mod Hw
pub mod Irq
pub mod Local
pub mod Log
pub mod Main
pub mod Msgbox
pub mod Platform
pub mod Plic
pub mod Rsc
pub mod Shmem
pub mod Sys
pub mod Syscalls
pub mod Uart
