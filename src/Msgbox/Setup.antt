-- ===== src/Msgbox/Setup.antt =====
-- The interrupt handler of the mailbox, and `msgbox_init`.
pub mod Topology
pub mod Muted
pub mod Returns
pub mod Quiet
use t113_c.Base.{
  ℕ, zero, suc, ◌+◌, ◌*◌, ◌%◌, ◌^◌, ◌==◌, ltb, if◌then◌else◌, Bool, true, false, ◌||◌,
}
use t113_c.Base.{
  List, [], ◌∷◌, Option, none, some, get_or, bit_and, u32, u64, ℤ, pos, negsuc, is_negative,
}
use t113_c.Hw.{Hw, Device, Trace, return, skip, emit, log, info, debug, error, notify_give}
use t113_c.Hw.{yield_from_isr, ◌>>=◌, ◌>>◌}
use t113_c.Irq.{Handler, Irq, irq_request}
use t113_c.Msgbox.{Msgbox, Driver, RxCallback, msgbox_base, read_irq_enable, read_irq_status}
use t113_c.Msgbox.{
  write_irq_enable, write_irq_status, write_irq_threshold, rd_irq_shift, wr_irq_shift,
}
use t113_c.Msgbox.{reg_bits_set, reg_bits_clear, msgbox_pending, msgbox_poll}

-- MSGBOX_ARM_ID, MSGBOX_DSP_ID and MSGBOX_RV_ID; RISCV_MBOX_CPUX.
abbrev pub arm_id : ℕ
arm_id = 0

abbrev pub dsp_id : ℕ
dsp_id = 1

abbrev pub rv_id : ℕ
rv_id = 2

abbrev pub riscv_mbox_cpux : ℕ
riscv_mbox_cpux = 146

-- `coef_table`: the box of a core that another core writes to; -1 for the core itself.
abbrev pub coef_table : List (List ℤ)
coef_table =
    (negsuc 0 ∷ pos 0 ∷ pos 1 ∷ [])
    ∷ (pos 0 ∷ negsuc 0 ∷ pos 1 ∷ [])
    ∷ (pos 0 ∷ pos 1 ∷ negsuc 0 ∷ [])
    ∷ []

-- `coef_table[i][j]`, for indices that the table has.
unfoldable pub coef : ℕ → ℕ → ℤ
coef i j = get_or (get_or coef_table i []) j (negsuc 0)

-- The state that the mailbox's interrupt works on; `none` is a poll that is still running.
abbrev pub Polled : Type 0
Polled = Option Driver

module _ (dev : Device) (fuel : ℕ) where
  -- `do { msgbox_poll(mb); loops++; } while (msgbox_pending(mb) && loops < 32);` with the rounds left.
  pub drain_loop : ℕ → Driver → Hw Polled
  drain_loop zero d = return (some d)
  drain_loop (suc rounds) d = do
    polled ← msgbox_poll dev fuel d
    elim polled [
      | none ↦ return none
      | some d' ↦ do
        pend ← msgbox_pending dev d'.mb
        elim (pend == 0) [ true ↦ return (some d') | false ↦ drain_loop rounds d' ]
    ]

  -- The log line of every 64th interrupt, and of the first ones, reads the status for its argument.
  pub irq_report : Msgbox → Hw (Unit {0})
  irq_report mb =
      if ltb mb.irq_count 8 || (bit_and mb.irq_count 0x3F == 0)
      then (do
        _ ← msgbox_pending dev mb
        emit (log info "IRQ%d fired #%u loops=%u rx_total=%u last=0x%x zero=%u pend=%u"))
      else emit (log debug "IRQ%d handled loops=%u rx_tot=%u last=0x%x zero=%u")

  -- `g_openamp_task_handle`, where 0 is NULL. `portYIELD_FROM_ISR` is called with the flag that
  -- `vTaskNotifyGiveFromISR` set.
  pub wake_task : ℕ → Hw (Unit {0})
  wake_task task_handle =
      if task_handle == 0 then skip else (do emit (notify_give task_handle); emit yield_from_isr)

  -- `msgbox_irq_handler`; its argument is the address of the mailbox.
  pub msgbox_irq_handler : ℕ → Handler Polled
  msgbox_irq_handler task_handle arg none t = (none, t)
  msgbox_irq_handler task_handle arg (some d) t =
      if arg == 0
      then (some d, t)
      else (let (polled, t1) = drain_loop 32 d t in
          elim polled [
            | none ↦ (none, t1)
            | some d' ↦
                let counted : Driver = record d' {
                  mb = record d'.mb { irq_count = u32 (d'.mb.irq_count + 1) };
                } in
                let (_, t2) = irq_report counted.mb t1 in
                let (_, t3) = wake_task task_handle t2 in (some counted, t3)
          ])

-- The fields that `msgbox_init` sets before it looks at the box numbers.
unfoldable pub fresh_mailbox : ℕ → ℕ → ℕ → Option RxCallback → ℕ → Msgbox
fresh_mailbox local_id remote_id channel cb priv = record {
  base = 0x03003000 ∷ 0x01701000 ∷ 0x0601F000 ∷ [];
  local_id = local_id;
  remote_id = remote_id;
  local_n = coef local_id remote_id;
  remote_n = coef remote_id local_id;
  channel = channel;
  fifo_depth = 8;
  rx_cb = cb;
  rx_priv = priv;
  irq_registered = false;
  irq_count = 0;
  rx_count = 0;
  last_data = 0;
  zero_data_cnt = 0;
}

-- `mb->rx_cb = saved_cb;`
pub restore_cb : Option RxCallback → Polled → Polled
restore_cb cb none = none
restore_cb cb (some d) = some (record d { mb = record d.mb { rx_cb = cb } })

module _ (dev : Device) (fuel : ℕ) where
  -- Up to the initial poll, which runs with the callback taken out.
  pub prepare_local : Driver → Hw Polled
  prepare_local d = do
    let mb = d.mb
    let local = msgbox_base mb mb.local_id
    reg_bits_set dev (u64 (local + read_irq_enable mb.local_n)) 1 (rd_irq_shift mb.channel)
    emit (log info "step: local RX IRQ enabled (base=0x%lx n=%d p=%d irq=%d)")
    reg_bits_set dev (u64 (local + read_irq_status mb.local_n)) 1 (rd_irq_shift mb.channel)
    emit (log info "step: local pending cleared")
    let muted : Driver = record d { mb = record mb { rx_cb = none } }
    polled ← msgbox_poll dev fuel muted
    emit (log info "step: initial poll done")
    return (restore_cb mb.rx_cb polled)

  -- The peer's write interrupt is cleared and disabled, and its threshold set.
  pub prepare_remote : Msgbox → Hw (Unit {0})
  prepare_remote mb = do
    let remote = msgbox_base mb mb.remote_id
    reg_bits_set dev (u64 (remote + write_irq_status mb.remote_n)) 1 (wr_irq_shift mb.channel)
    reg_bits_clear dev (u64 (remote + write_irq_enable mb.remote_n)) 1 (wr_irq_shift mb.channel)
    emit (log info "step: remote write IRQ cleared/disabled")
    reg_bits_clear dev (u64 (remote + write_irq_threshold mb.remote_n mb.channel)) 0x3 0
    emit (log info "step: remote write threshold set to 1")

  -- What follows the initial poll: the peer's side, and the registration of the handler.
  pub finish_init : ℕ → ℕ → Driver → Irq Polled → Trace → Option ℤ × Polled × Irq Polled × Trace
  finish_init task_handle address d irq t =
      let (_, t1) = prepare_remote d.mb t in
      let (z, irq', t2) =
        irq_request dev riscv_mbox_cpux (some (msgbox_irq_handler dev fuel task_handle)) address
          (some "msgbox_rx") irq t1 in
      let registered : Bool = elim z [ pos n ↦ n == 0 | negsuc n ↦ false ] in
      let d' : Driver = record d {
        mb = record d.mb { irq_registered = registered || d.mb.irq_registered };
      } in
      let t3 =
        if registered
        then log info "irq %d registered for mailbox (CPU->RV)" ∷ t2
        else log error "failed to register mailbox irq %d, fallback to polling" ∷ t2 in
      let (_, t4) = msgbox_pending dev d'.mb t3 in
      (some (pos 0), some d', irq', log info "init done (pending=%u)" ∷ t4)

  -- A poll that is still running does not come here: there is no result.
  pub after_poll : ℕ → ℕ → Polled → Irq Polled → Trace → Option ℤ × Polled × Irq Polled × Trace
  after_poll task_handle address none irq t = (none, none, irq, t)
  after_poll task_handle address (some d) irq t = finish_init task_handle address d irq t

  -- `msgbox_init` on a mailbox at `address`, where 0 is NULL. `d` gives the static variables of
  -- `msgbox_poll`, and `task_handle` the value that the handler will find. The result is `none` while
  -- the initial poll is still running.
  pub msgbox_init :
      ℕ
      → ℕ
      → ℕ
      → ℕ
      → ℕ
      → Option RxCallback
      → ℕ
      → Driver
      → Irq Polled
      → Trace
      → Option ℤ × Polled × Irq Polled × Trace
  msgbox_init task_handle address local_id remote_id channel cb priv d irq t =
      if address == 0
      then (some (negsuc 0), some d, irq, t)
      else (let mb = fresh_mailbox local_id remote_id channel cb priv in
          let d1 : Driver = record d { mb = mb } in
          let t1 = log info "init: local=%d remote=%d channel=%d" ∷ t in
          if is_negative mb.local_n || is_negative mb.remote_n
          then (some (negsuc 0), some d1, irq, log error "init failed: local_n=%d remote_n=%d" ∷ t1)
          else (let t2 =
                log info "base: local=0x%lx remote=0x%lx local_n=%d remote_n=%d fifo_depth=%u"
                ∷ t1 in
              let (polled, t3) = prepare_local d1 t2 in
              after_poll task_handle address polled irq t3))
