-- ===== src/Msgbox/Arrivals/Traffic.antt =====
-- A poll of a FIFO that words enter while it runs.
use t113_c.Base.{ℕ, ◌+◌, ◌<◌, ◌≤◌, ◌==◌, false, ◌≡◌, ◌≢◌, sym, ◌∙◌, ap, arith, List, ◌∷◌, length}
use mathlib.Core.Path.{subst}
use t113_c.Base.{Option, some, inl, inr, Bool-cases}
use t113_c.Calls.{Call}
use Prim.Native.String.{String}
use t113_c.Hw.{Event, Device, Trace, load, log, debug, w32, answer, readl}
use t113_c.Hw.History.{called}
use t113_c.Msgbox.{
  Driver, status_reg, fifo_reg, reg_bits_get, msgbox_pending, poll_loop, poll_report, msgbox_poll,
}
use t113_c.Msgbox.Arrivals.{taken, Grown, Grown-trans, taken-load_ne}
use t113_c.Msgbox.Arrivals.Sweep.{Swept}
use t113_c.Msgbox.Arrivals.Loop.{IsCall, FedBy, poll_loop-Swept}

module _ (dev : Device) (arrived : Trace → List ℕ) (f : ℕ → Call) where
  -- The log line of the end takes no word.
  report-history :
      (s : ℕ × Driver) (u : Trace)
      → (s.0 == 0) ≡ false
      → (v : ℕ) × ((poll_report dev s u).1
          ≡ log debug "poll drained %u msg(s), last=0x%x total_rx=%u pend=%u"
            ∷ load w32 (status_reg s.1.mb) v
            ∷ u)
  unfolding poll_report msgbox_pending reg_bits_get readl
  report-history s u some_words = (answer dev w32 (status_reg s.1.mb) u, ground (arith, some_words))

  log-Swept :
      (fifo b v : ℕ) (text : String) (t u : Trace)
      → fifo ≢ b
      → ((e : Event) (v : Trace) → Grown arrived v (e ∷ v))
      → Swept arrived f fifo t u
      → Swept arrived f fifo t (log debug text ∷ load w32 b v ∷ u)
  unfolding called taken
  log-Swept fifo b v text t u apart grows swept =
      let u2 : Trace = log debug text ∷ load w32 b v ∷ u in
      let more =
        Grown-trans arrived u (load w32 b v ∷ u) u2 (grows (load w32 b v) u)
          (grows (log debug text) _) in
      let same : taken arrived fifo u2 ≡ taken arrived fifo u =
        taken-load_ne arrived fifo b v u apart in
      record {
        words = swept.words;
        calls = swept.calls;
        in_order = λ k lt.
            swept.in_order k lt
            ∙ sym (more.same (taken arrived fifo t + k) (omega (arith, swept.entered, lt)));
        all_before = swept.all_before;
        entered = omega (arith, swept.entered, more.longer);
        at_least = omega (arith, swept.at_least, same);
        at_most = omega (arith, swept.at_most, same);
        grown = Grown-trans arrived t u u2 swept.grown more;
      }

  report-Swept :
      (fifo : ℕ) (s : ℕ × Driver) (t u : Trace)
      → fifo ≢ status_reg s.1.mb
      → ((e : Event) (v : Trace) → Grown arrived v (e ∷ v))
      → Swept arrived f fifo t u
      → Swept arrived f fifo t (poll_report dev s u).1
  unfolding poll_report
  report-Swept fifo s t u apart grows swept = elim (Bool-cases (s.0 == 0)) [
    | inl none_read ↦ rw none_read swept
    | inr some_words ↦
        let (v, history) = report-history s u some_words in
        subst (λ (w : Trace). Swept arrived f fifo t w) (sym history)
          (log-Swept fifo (status_reg s.1.mb) v
            "poll drained %u msg(s), last=0x%x total_rx=%u pend=%u" t u apart grows swept)
  ]

  poll-returns :
      (fuel : ℕ) (d : Driver) (s : ℕ × Driver) (t : Trace)
      → (poll_loop dev fuel (0, d) t).0 ≡ some s
      → msgbox_poll dev fuel d t ≡ (some s.1, (poll_report dev s (poll_loop dev fuel (0, d) t).1).1)
  unfolding msgbox_poll
  poll-returns fuel d s t returned = ground (arith, returned)

  -- Words enter the receive FIFO at any moment, `most` in all, and the driver's callback makes one call for
  -- each word. With more fuel than words can come, `msgbox_poll` returns. It has passed on, once and in
  -- order, every word that had entered before it began, and maybe later ones. Of the words that it took
  -- from the FIFO it has passed on all but at most one, the last: its last read comes after its last look.
  pub msgbox_poll-Swept :
      (most fuel : ℕ) (d : Driver) (t : Trace)
      → ((u : Trace) → length (arrived u) ≤ most)
      → taken arrived (fifo_reg d.mb) t ≤ length (arrived t)
      → most < fuel + taken arrived (fifo_reg d.mb) t
      → FedBy dev arrived f d
      → fifo_reg d.mb ≢ status_reg d.mb
      → IsCall f d.mb
      → let (polled, u) = msgbox_poll dev fuel d t in
        ((d' : Driver) × (polled ≡ some d')) × Swept arrived f (fifo_reg d.mb) t u
  unfolding msgbox_poll
  msgbox_poll-Swept most fuel d t bound sound enough fed apart makes =
      let (s, returned, at, swept) =
        poll_loop-Swept dev arrived f most fuel 0 d t bound sound enough fed apart makes in
      let reported =
        report-Swept (fifo_reg d.mb) s t (poll_loop dev fuel (0, d) t).1 (λ e. apart (e ∙ at))
          fed.grows swept in
      let e = poll-returns fuel d s t returned in
      (
        (s.1, ap (λ (r : Option Driver × Trace). r.0) e),
        subst (λ (r : Option Driver × Trace). Swept arrived f (fifo_reg d.mb) t r.1) (sym e)
            reported,
      )
