-- ===== src/Main.antt =====
-- core/main.c: the start-up of the firmware, and the task that serves the mailbox.
pub mod Boot
pub mod Service
mod Tests
use t113_c.Base.{ℕ, zero, suc, ◌+◌, ◌%◌, ◌^◌, ◌==◌, ltb, if◌then◌else◌, true, false, ◌||◌}
use t113_c.Base.{Option, none, some, ℤ, pos, negsuc, is_zero, bit_and, u32, ◌∷◌}
use t113_c.Calls.{task_current, task_notify_take, task_create, task_delay, start_scheduler}
use t113_c.Hw.{
  Hw, Device, Library, Trace, log, info, debug, error, library, skip, return, emit, call,
  call_pointer, ◌>>=◌, ◌>>◌,
}
use t113_c.Cache.{cache_initialize, instruction_cache_enable, data_cache_enable}
use t113_c.Ccu.{bus_uart2, rst_uart2, enable_clock, reset}
use t113_c.Uart.{UartConfig, uart_init}
use t113_c.Plic.{Plic, plic_init}
use t113_c.Local.{Clic, Port, clic_driver_init, riscv_system_tick_init}
use t113_c.Msgbox.{Driver}
use t113_c.Msgbox.Setup.{Polled}
use t113_c.Platform.{World, Outcome, done, returned, running, platform_rproc_init, platform_poll}

-- `uart_cfg`, as `low_level_init` fills it.
abbrev pub uart_cfg : UartConfig
uart_cfg = record {
  base_addr = 0x02500800;
  uart_clk = 24000000;
  baudrate = 115200;
  data_bits = 8;
  stop_bits = 1;
  parity = 0;
}

-- What the drivers know of the board.
pub record Board : Type 0 where
  pub plic : Plic
  pub clic : Clic
  pub port : Port

-- `delta` is TICK_DELTA. The results of `uart_init` and `clic_driver_init` are not looked at.
pub low_level_init : Device → ℕ → Board → Hw Board
low_level_init dev delta b t =
    let (_, t1) = cache_initialize t in
    let (_, t2) = instruction_cache_enable t1 in
    let (_, t3) = data_cache_enable t2 in
    let (_, t4) = enable_clock dev bus_uart2 t3 in
    let (_, t5) = reset dev rst_uart2 t4 in
    let (_, t6) = uart_init dev (some uart_cfg) t5 in
    let (plic, t7) = plic_init dev b.plic t6 in
    let (_, clic, t8) = clic_driver_init dev t7 in
    let (port, t9) = riscv_system_tick_init dev delta clic b.port t8 in
    (record { plic = plic; clic = clic; port = port }, t9)

-- `start_kernel`, up to the endless loop that it ends with. PDPASS is 1.
pub start_kernel : Device → Library → ℕ → Board → Hw Board
start_kernel dev lib delta b = do
  b' ← low_level_init dev delta b
  emit (log info "Starting FreeRTOS on C906...")
  created ← call_pointer lib task_create
  if created == 1
      then (do
        emit (log info "Main task created successfully!")
        call start_scheduler
        emit (log error "Scheduler returned unexpectedly!"))
      else emit (log error "Failed to create main task!")
  emit (log error "System halted!")
  return b'

-- `wake_total`, and the driver of the mailbox.
pub record Served : Type 0 where
  pub wake_total : ℕ
  pub driver : Driver

-- The log line of a wake-up.
pub wake_report : ℕ → Hw (Unit {0})
wake_report wake_total =
    if ltb wake_total 5 || (bit_and wake_total 0x3F == 0)
    then emit (log info "OpenAMP woke by mailbox IRQ (batch=%lu total=%lu)")
    else emit (log debug "OpenAMP woke by IRQ (batch=%lu total=%lu)")

-- The state after the poll; `none` is a poll that is still running.
pub served_by : ℕ → Polled → Option Served
served_by wake_total none = none
served_by wake_total (some d) = some (record { wake_total = wake_total; driver = d })

-- `n = ulTaskNotifyTake(...)` and `if (n) …`. pdMS_TO_TICKS(20) is 20.
pub wake : Library → Served → Hw ℕ
wake lib s = do
  answer ← call_pointer lib (task_notify_take 20)
  let n = u32 answer
  let wake_total = if n == 0 then s.wake_total else u32 (s.wake_total + n)
  if n == 0 then skip else wake_report wake_total
  return wake_total

module _ (dev : Device) (lib : Library) (fuel : ℕ) where
  -- One round of `while (1)`.
  pub round : ℕ → Served → Hw (Option Served)
  round at s = do
    wake_total ← wake lib s
    polled ← platform_poll dev fuel at s.driver
    return (served_by wake_total polled)

  -- The first rounds of the loop, which has no end.
  pub rounds : ℕ → ℕ → Served → Hw (Option Served)
  rounds at zero s = return (some s)
  rounds at (suc k) s = do
    served ← round at s
    elim served [ none ↦ return none | some s' ↦ rounds at k s' ]

  -- `halt:`, where the delay is repeated for ever.
  pub halt_task : ℕ → Hw (Unit {0})
  halt_task k = do emit (log error "OpenAMP task halted."); delays k
    where
      delays : ℕ → Hw (Unit {0})
      delays zero = skip
      delays (suc k) = do call (task_delay 1000); delays k

  -- `main_task`, for its first `k` rounds. `handle` is what `g_openamp_task_handle` gets. An `int`
  -- that is returned as 0 cannot be a failure.
  pub main_task : ℕ → ℕ → ℕ → World → Option Served × Trace
  main_task k table_at at w =
      let handle = lib.pointer task_current w.trace in
      let t1 =
        log info "OpenAMP: init begin"
        ∷ log info "OpenAMP task handle registered for mailbox IRQ wakeups (%p)"
        ∷ library task_current
        ∷ w.trace in
      let (o, w') = platform_rproc_init lib dev fuel handle table_at at (record w { trace = t1 }) in
      elim o [
        | running ↦ (none, w'.trace)
        | returned z ↦ (none, (halt_task k (log error "OpenAMP init failed (%d)" ∷ w'.trace)).1)
        | done z ↦
            rounds at k (record { wake_total = 0; driver = w'.driver })
              (log info "OpenAMP init ok, echo ready." ∷ w'.trace)
      ]
