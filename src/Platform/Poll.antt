-- ===== src/Platform/Poll.antt =====
-- From the receive FIFO of the mailbox to open-amp.
use t113_c.Base.{ℕ, ◌<◌, ◌==◌, false, ◌≡◌, ◌≢◌, refl, arith, List, ◌∷◌, some, length}
use t113_c.Calls.{remoteproc_get_notification}
use t113_c.Hw.{Device, Trace, library}
use t113_c.Hw.History.{called, reads}
use t113_c.Msgbox.{Msgbox, Driver, deliver, status_reg, fifo_reg}
use t113_c.Msgbox.Fifo.{Holds, LeavesFifo}
use t113_c.Msgbox.Notify.{CallsFor, calls_for, msgbox_poll-calls_for}
use t113_c.Platform.{msgbox_rx, platform_poll}

deliver-msgbox_rx :
    (mb : Msgbox) (w : ℕ) (u : Trace)
    → mb.rx_cb ≡ some msgbox_rx
    → mb.rx_priv ≢ 0
    → (deliver mb w u).1 ≡ library (remoteproc_get_notification w) ∷ u
unfolding deliver msgbox_rx
deliver-msgbox_rx mb w u cb priv = rw cb (ground (arith, priv))

msgbox_rx-CallsFor :
    (mb : Msgbox)
    → mb.rx_cb ≡ some msgbox_rx
    → mb.rx_priv ≢ 0
    → CallsFor remoteproc_get_notification mb × LeavesFifo mb
unfolding called reads
msgbox_rx-CallsFor mb cb priv = (
  λ w u. rw (deliver-msgbox_rx mb w u cb priv) refl,
  λ w u. rw (deliver-msgbox_rx mb w u cb priv) refl,
)

-- The mailbox has the callback that `platform_rproc_init` gave it, and its receive FIFO holds `words`.
-- With more fuel than words, a poll of a platform that is not NULL returns, and open-amp is notified
-- of every word, zeros included, once and in order.
pub platform_poll-notifies :
    (dev : Device) (words : List ℕ) (fuel at : ℕ) (d : Driver) (t : Trace)
    → at ≢ 0
    → d.mb.rx_cb ≡ some msgbox_rx
    → d.mb.rx_priv ≢ 0
    → status_reg d.mb ≢ fifo_reg d.mb
    → Holds dev d.mb words t
    → length words < fuel
    → let (polled, t') = platform_poll dev fuel at d t in
      ((d' : Driver) × (polled ≡ some d'))
      × (called t' ≡ calls_for remoteproc_get_notification words (called t))
unfolding platform_poll
platform_poll-notifies dev words fuel at d t there cb priv apart holds short =
    let c = msgbox_rx-CallsFor d.mb cb priv in
    let (d', e, calls) =
      msgbox_poll-calls_for dev remoteproc_get_notification words fuel d t short apart c.1 c.0
        holds in
    let open_at : (at == 0) ≡ false = ground (arith, there) in
    ((d', rw open_at e), rw open_at calls)
