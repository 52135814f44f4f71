-- ===== src/Msgbox/Arrivals/Tests.antt =====
-- A word that enters the FIFO just after a look: a poll that looks only once takes it and drops it.
use t113_c.Base.{◌≡◌, refl, arith}
use t113_c.Base.{[], ◌∷◌, some}
use t113_c.Calls.{remoteproc_get_notification}
use t113_c.Hw.{readl}
use t113_c.Hw.History.{called}
use t113_c.Msgbox.{
  Driver, status_reg, fifo_reg, msgbox_poll, poll_loop, poll_report, msgbox_pending, reg_bits_get,
}
use t113_c.Msgbox.Arrivals.{taken}
use t113_c.Msgbox.Arrivals.Sweep.{Swept}
use t113_c.Msgbox.Arrivals.Late.{
  late, late_device, late_bus, listener, late-bound, late-FedBy, listener-IsCall, apart,
  nothing_taken,
}
use t113_c.Msgbox.Arrivals.Traffic.{msgbox_poll-Swept}

-- The one look sees no word, and the read after it takes the word 7: no call is made.
word_lost :
    let u = (msgbox_poll late_device 2 listener []).1 in
    (called u ≡ []) × (taken late 0x0601F070 u ≡ 1) × (late u ≡ 7 ∷ [])
unfolding msgbox_poll poll_loop poll_report msgbox_pending reg_bits_get status_reg fifo_reg readl
    called taken late late_bus
word_lost = (refl, refl, refl)

msgbox_poll-Swept_example :
    let (polled, u) = msgbox_poll late_device 2 listener [] in
    ((d' : Driver) × (polled ≡ some d'))
    × Swept late remoteproc_get_notification (fifo_reg listener.mb) [] u
msgbox_poll-Swept_example =
    msgbox_poll-Swept late_device late remoteproc_get_notification 1 2 listener [] late-bound
      (rw nothing_taken (omega arith)) (rw nothing_taken (omega arith)) late-FedBy apart
      listener-IsCall
