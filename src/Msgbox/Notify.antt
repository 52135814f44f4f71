-- ===== src/Msgbox/Notify.antt =====
-- The library calls of a poll, where the callback makes one call for each word.
use t113_c.Base.{ℕ, ◌<◌, ◌≡◌, ◌≢◌, refl, ◌∙◌, ap, arith, List, [], ◌∷◌}
use t113_c.Base.{Option, some, length}
use t113_c.Calls.{Call}
use t113_c.Hw.{Device, Trace, readl, writel}
use t113_c.Hw.History.{called}
use t113_c.Msgbox.{
  Msgbox, Driver, account, deliver, reg_bits_set, reg_bits_get, msgbox_pending, poll_report,
  msgbox_poll,
}
use t113_c.Msgbox.{status_reg, fifo_reg}
use t113_c.Msgbox.Fifo.{
  Holds, LeavesFifo, account-deliver, receive, receive_all, last_look, msgbox_poll-receive_all,
}

-- The callback makes the call `f w` for a word `w`.
abbrev pub CallsFor : (ℕ → Call) → Msgbox → Type 0
CallsFor f mb = (w : ℕ) (u : Trace) → called (deliver mb w u).1 ≡ f w ∷ called u

-- A call for each word, the last one first, before those that were made already.
abbrev pub calls_for : (ℕ → Call) → List ℕ → List Call → List Call
calls_for f [] before = before
calls_for f (w ∷ ws) before = calls_for f ws (f w ∷ before)

module _ (dev : Device) (f : ℕ → Call) where
  receive-called :
      (w n : ℕ) (d : Driver) (t : Trace)
      → CallsFor f d.mb
      → called (receive dev w (n, d) t).1 ≡ f w ∷ called t
  unfolding receive msgbox_pending reg_bits_get reg_bits_set readl writel called
  receive-called w n d t makes = rw (account-deliver w n d) (makes w _)

  receive_all-called :
      (ws : List ℕ) (n : ℕ) (d : Driver) (t : Trace)
      → CallsFor f d.mb
      → called (receive_all dev ws (n, d) t).1 ≡ calls_for f ws (called t)
  unfolding receive_all receive
  receive_all-called [] n d t makes = refl
  receive_all-called (w ∷ ws) n d t makes =
      let s = account w (n, d) in
      receive_all-called ws s.0 s.1 (receive dev w (n, d) t).1 (rw (account-deliver w n d) makes)
      ∙ ap (calls_for f ws) (receive-called w n d t makes)

  end-called :
      (s : ℕ × Driver) (t : Trace) → called (poll_report dev s (last_look dev s t).1).1 ≡ called t
  unfolding poll_report last_look msgbox_pending reg_bits_get readl called
  end-called s t = ground arith

  -- A poll of a FIFO that holds `words` returns, and makes one call for each word, in order.
  pub msgbox_poll-calls_for :
      (words : List ℕ) (fuel : ℕ) (d : Driver) (t : Trace)
      → length words < fuel
      → status_reg d.mb ≢ fifo_reg d.mb
      → LeavesFifo d.mb
      → CallsFor f d.mb
      → Holds dev d.mb words t
      → (d' : Driver) × ((msgbox_poll dev fuel d t).0 ≡ some d')
        × (called (msgbox_poll dev fuel d t).1 ≡ calls_for f words (called t))
  msgbox_poll-calls_for words fuel d t short apart leaves makes holds =
      let (s, t1) = receive_all dev words (0, d) t in
      let e = msgbox_poll-receive_all dev words fuel d t short apart leaves holds in
      (
        s.1,
        ap (λ (r : Option Driver × Trace). r.0) e,
        ap (λ (r : Option Driver × Trace). called r.1) e
            ∙ end-called s t1
            ∙ receive_all-called words 0 d t makes,
      )
