-- ===== src/Main/Service.antt =====
-- One round of the task, from the mailbox to open-amp.
use t113_c.Base.{ℕ, ◌+◌, ◌<◌, ◌≡◌, ◌≢◌, ◌∙◌, ap, arith, List, ◌∷◌, some, length, u32}
use t113_c.Calls.{task_notify_take, remoteproc_get_notification}
use t113_c.Hw.{Device, Library, Trace}
use t113_c.Hw.History.{called}
use t113_c.Msgbox.{status_reg, fifo_reg}
use t113_c.Msgbox.Fifo.{Holds}
use t113_c.Msgbox.Notify.{calls_for}
use t113_c.Platform.{msgbox_rx}
use t113_c.Platform.Poll.{platform_poll-notifies}
use t113_c.Main.{Served, round, wake, wake_report, served_by}

wake-called :
    (lib : Library) (s : Served) (t : Trace)
    → (called (wake lib s t).1 ≡ task_notify_take 20 ∷ called t)
      × (u32 (wake lib s t).0 ≡ u32 (s.wake_total + lib.pointer (task_notify_take 20) t))
unfolding wake wake_report called
wake-called lib s t = (ground arith, ground arith)

-- The mailbox has the callback that `platform_rproc_init` gave it, and its receive FIFO holds `words`
-- once the task has taken its notifications. With more fuel than words a round returns, whether or not
-- an interrupt woke the task: it has asked for the notifications, then notified open-amp of every word,
-- zeros included, once and in order, and counted the wake-ups in 32 bits.
pub round-notifies :
    (dev : Device) (lib : Library) (words : List ℕ) (fuel at : ℕ) (s : Served) (t : Trace)
    → at ≢ 0
    → s.driver.mb.rx_cb ≡ some msgbox_rx
    → s.driver.mb.rx_priv ≢ 0
    → status_reg s.driver.mb ≢ fifo_reg s.driver.mb
    → Holds dev s.driver.mb words (wake lib s t).1
    → length words < fuel
    → let (served, t') = round dev lib fuel at s t in
      ((s' : Served) × (served ≡ some s')
        × (u32 s'.wake_total ≡ u32 (s.wake_total + lib.pointer (task_notify_take 20) t)))
      × (called t' ≡ calls_for remoteproc_get_notification words (task_notify_take 20 ∷ called t))
unfolding round served_by
round-notifies dev lib words fuel at s t there cb priv apart holds short =
    let ((d, e), calls) =
      platform_poll-notifies dev words fuel at s.driver (wake lib s t).1 there cb priv apart holds
        short in
    let woken = wake-called lib s t in
    (
      (
        record { wake_total = (wake lib s t).0; driver = d },
        ap (served_by (wake lib s t).0) e,
        woken.1,
      ),
      calls ∙ ap (calls_for remoteproc_get_notification words) woken.0,
    )
