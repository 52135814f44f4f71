-- ===== src/Msgbox/Race/Code/Tests.antt =====
-- The polls of the task and of the interrupt handler on a FIFO that a word enters with the first look.
use t113_c.Base.{◌+◌, ◌≡◌, refl, arith, List, [], ◌∷◌}
use t113_c.Calls.{remoteproc_get_notification}
use t113_c.Hw.{readl, writel}
use t113_c.Hw.History.{called}
use t113_c.Msgbox.{
  status_reg, fifo_reg, rd_irq_shift, account, deliver, reg_bits_set, reg_bits_get, msgbox_pending,
  poll_report,
}
use t113_c.Msgbox.Arrivals.{taken}
use t113_c.Msgbox.Arrivals.Late.{
  late, late_bus, late_device, listener, late-FedBy, listener-IsCall, apart, nothing_taken,
}
use t113_c.Msgbox.Race.{Move, run, at_rest}
use t113_c.Msgbox.Race.Exact.{count, held}
use t113_c.Msgbox.Race.Code.{Turn, task_turn, handler_turn, is_resting, poll_move, turn, turns}
use t113_c.Msgbox.Race.Code.Held.{drop}
use t113_c.Base.{false, if◌then◌else◌}
use t113_c.Msgbox.Race.Code.Late.{late_turns}
use t113_c.Msgbox.Race.Code.Runs.{Refines}
use t113_c.Msgbox.Race.Code.Accounts.{begin, turns-Refines_exact}

-- The word enters with the look of the task, which does not see it. The interrupt comes before the task's
-- last read, and the handler passes the word on.
abbrev saved : List Turn
saved =
    task_turn ∷ task_turn ∷ handler_turn ∷ handler_turn ∷ handler_turn ∷ handler_turn ∷ handler_turn
    ∷ handler_turn ∷ handler_turn ∷ task_turn ∷ []

passed_on_once :
    called (turns late_device saved (begin listener [])).history
    ≡ remoteproc_get_notification 7 ∷ []
unfolding turns turn is_resting poll_move poll_report msgbox_pending reg_bits_get reg_bits_set
    status_reg fifo_reg readl writel called taken late late_bus account deliver
passed_on_once = refl

-- The task goes on first: it takes the word and drops it.
dropped_at_once :
    called (turns late_device (task_turn ∷ task_turn ∷ task_turn ∷ []) (begin listener [])).history
    ≡ []
unfolding turns turn is_resting poll_move poll_report msgbox_pending reg_bits_get status_reg
    fifo_reg readl called taken late late_bus
dropped_at_once = refl

turns-Refines_exact_example :
    let c = turns late_device saved (begin listener []) in
    let first = taken late (fifo_reg listener.mb) [] in
    let too_late = late_turns late_device late saved (begin listener []) false in
    (ms : List Move) × (let s = run ms at_rest in
      Refines late_device late remoteproc_get_notification
        (status_reg listener.mb)
        (fifo_reg listener.mb)
        (rd_irq_shift listener.mb.channel)
        (called [])
        first
        too_late
        c
        s
      × (count 7 (drop first (late c.history))
          ≡ count 7 s.passed
            + count 7 s.dropped
            + count 7 (drop (taken late (fifo_reg listener.mb) c.history) (late c.history))
            + held 7 s.task
            + held 7 s.handler)
      × ((if too_late then [] else s.dropped) ≡ []))
turns-Refines_exact_example =
    turns-Refines_exact late_device late remoteproc_get_notification saved listener [] 7
      (rw nothing_taken (omega arith)) late-FedBy apart listener-IsCall
