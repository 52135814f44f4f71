-- ===== src/Msgbox/Setup/Quiet.antt =====
-- `msgbox_init` calls no library: the poll in it runs without the callback.
use t113_c.Base.{ℕ, zero, suc, ◌≡◌, refl, ◌∙◌, arith, ◌∷◌}
use t113_c.Base.{Option, none, some}
use t113_c.Hw.{Device, Trace, readl, writel, answer, load, w32}
use t113_c.Hw.History.{called}
use t113_c.Irq.{Irq}
use t113_c.Irq.Quiet.{irq_request-called}
use t113_c.Msgbox.{
  Msgbox, Driver, RxCallback, account, deliver, reg_bits_set, reg_bits_clear, reg_bits_get,
}
use t113_c.Msgbox.{msgbox_pending, poll_loop, poll_report, msgbox_poll, status_reg, fifo_reg}
use t113_c.Msgbox.Setup.{
  Polled, after_poll, finish_init, prepare_local, prepare_remote, msgbox_init,
}

account-rx_cb : (w n : ℕ) (d : Driver) → (account w (n, d)).1.mb.rx_cb ≡ d.mb.rx_cb
unfolding account
account-rx_cb w n d = ground arith

deliver-none : (mb : Msgbox) (w : ℕ) (t : Trace) → mb.rx_cb ≡ none → deliver mb w t ≡ (tt, t)
unfolding deliver
deliver-none mb w t e = rw e refl

module _ (dev : Device) where
  poll_loop-called :
      (fuel n : ℕ) (d : Driver) (t : Trace)
      → d.mb.rx_cb ≡ none
      → called (poll_loop dev fuel (n, d) t).1 ≡ called t
  unfolding poll_loop msgbox_pending reg_bits_get reg_bits_set readl writel called
  poll_loop-called zero n d t mute = refl
  poll_loop-called (suc fuel) n d t mute =
      let t1 = load w32 (status_reg d.mb) (answer dev w32 (status_reg d.mb) t) ∷ t in
      let word = answer dev w32 (fifo_reg d.mb) t1 in
      let s = account word (n, d) in
      let still : s.1.mb.rx_cb ≡ none = account-rx_cb word n d ∙ mute in
      let quiet : (u : Trace) → deliver s.1.mb word u ≡ (tt, u) =
        λ u. deliver-none s.1.mb word u still in
      let rest : (u : Trace) → called (poll_loop dev fuel s u).1 ≡ called u =
        λ u. poll_loop-called fuel s.0 s.1 u still in
      grind (arith, quiet, rest)

  msgbox_poll-called :
      (fuel : ℕ) (d : Driver) (t : Trace)
      → d.mb.rx_cb ≡ none
      → called (msgbox_poll dev fuel d t).1 ≡ called t
  unfolding msgbox_poll poll_report msgbox_pending reg_bits_get readl called
  msgbox_poll-called fuel d t mute = ground (arith, poll_loop-called fuel 0 d t mute)

  module _ (fuel task_handle address : ℕ) (irq : Irq Polled) where
    after_poll-called :
        (p : Polled) (t : Trace)
        → called (after_poll dev fuel task_handle address p irq t).3 ≡ called t
    unfolding after_poll finish_init prepare_remote msgbox_pending reg_bits_get reg_bits_set
        reg_bits_clear readl writel called
    after_poll-called none t = refl
    after_poll-called (some d) t = grind (arith, irq_request-called)

    prepare_local-called :
        (d : Driver) (t : Trace) → called (prepare_local dev fuel d t).1 ≡ called t
    unfolding prepare_local reg_bits_set readl writel called
    prepare_local-called d t = grind (arith, msgbox_poll-called)

    pub msgbox_init-called :
        (i j channel : ℕ) (cb : Option RxCallback) (priv : ℕ) (d : Driver) (t : Trace)
        → called (msgbox_init dev fuel task_handle address i j channel cb priv d irq t).3 ≡ called t
    unfolding msgbox_init called
    msgbox_init-called i j channel cb priv d t =
        grind (arith, prepare_local-called, after_poll-called)
