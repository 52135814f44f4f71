-- ===== src/Msgbox/Setup/Muted.antt =====
-- The initial drain of `msgbox_init` is silent, and the callback is back in its place afterwards.
use t113_c.Base.{ℕ, ◌≡◌, refl, arith, Option, none, some}
use t113_c.Hw.{Device, Trace}
use t113_c.Irq.{Irq}
use t113_c.Msgbox.{Driver, RxCallback, msgbox_pending, status_reg}
use t113_c.Msgbox.Setup.{
  Polled, fresh_mailbox, prepare_local, prepare_remote, restore_cb, after_poll, finish_init,
  msgbox_init,
}

module _ (dev : Device) (fuel task_handle address : ℕ) (irq : Irq Polled) where
  -- The callback plays no part after the drain.
  finish_init-callback :
      (cb : Option RxCallback) (d : Driver) (t : Trace)
      → (finish_init dev fuel task_handle address
          (record d { mb = record d.mb { rx_cb = cb } })
          irq
          t).3
        ≡ (finish_init dev fuel task_handle address d irq t).3
  unfolding finish_init prepare_remote msgbox_pending status_reg
  finish_init-callback cb d t = refl

  after_poll-callback :
      (cb : Option RxCallback) (p : Polled) (t : Trace)
      → (after_poll dev fuel task_handle address (restore_cb cb p) irq t).3
        ≡ (after_poll dev fuel task_handle address p irq t).3
  unfolding after_poll restore_cb
  after_poll-callback cb none t = refl
  after_poll-callback cb (some d) t = finish_init-callback cb d t

  -- Whatever callback it is given, `msgbox_init` does to the hardware what it does without one: the
  -- words that it finds in the FIFO are delivered to nobody.
  pub msgbox_init-silent :
      (i j channel : ℕ) (cb : Option RxCallback) (priv : ℕ) (d : Driver) (t : Trace)
      → (msgbox_init dev fuel task_handle address i j channel cb priv d irq t).3
        ≡ (msgbox_init dev fuel task_handle address i j channel none priv d irq t).3
  unfolding msgbox_init prepare_local fresh_mailbox
  msgbox_init-silent i j channel cb priv d t = grind (arith, after_poll-callback)
