-- ===== src/Msgbox/Race/Code/Moves.antt =====
-- A move of the code does what an access of the finer model does.
use t113_c.Base.{
  ℕ, ◌==◌, ◌≡◌, ◌≢◌, refl, ◌∙◌, ◌%◌, ◌^◌, bit_or, ◌<<<◌, List, [], ◌∷◌, Option, none, some,
}
use t113_c.Base.{Bool-cases, inl, inr}
use mathlib.Core.Path.{subst}
use t113_c.Calls.{Call}
use t113_c.Hw.{Device, Trace, load, store, w32, answer, readl, writel}
use t113_c.Hw.History.{called}
use t113_c.Msgbox.{
  Driver, status_reg, rd_irq_shift, msgbox_pending, reg_bits_get, reg_bits_set, poll_report,
}
use t113_c.Msgbox.Fifo.{account-deliver}
use t113_c.Msgbox.Arrivals.{taken, Grown-refl, Grown-trans, IsFed, taken-load_ne}
use t113_c.Msgbox.Race.{Place, idle, look, last, ack, hand, Shared, access}
use t113_c.Msgbox.Race.Code.{Point, closing, acking, handing, poll_move}
use t113_c.Msgbox.Race.Code.Held.{Holding}
use t113_c.Msgbox.Race.Code.Places.{
  At, at_idle, at_look, at_fetch, at_ack, at_ack_stray, at_hand, at_hand_stray, at_last, Handed,
  word, stray,
}
use t113_c.Msgbox.Race.Code.Wired.{IsWired, account-IsWired, Ready, Moved, Moves}
use t113_c.Msgbox.Race.Code.Reads.{look-Moves, fetch-Moves, took, taken-none, taken-one}

module _ (dev : Device) (arrived : Trace → List ℕ) (f : ℕ → Call) (status fifo shift : ℕ) where
  module _ (fed : IsFed dev status fifo shift arrived) (apart : fifo ≢ status) where
    -- The acknowledgement.
    ack_history : ℕ → Trace → Trace
    ack_history x t = store w32 status x ∷ load w32 status (answer dev w32 status t) ∷ t

    acknowledged :
        {before : List Call} {first : ℕ} {p : Point} {q : Place} {d : Driver} {s : Shared} (x : ℕ)
        (t : Trace)
        → At p q
        → Ready dev arrived f status fifo shift before first d t s
        → Moved dev arrived f status fifo shift before first t p d (ack_history x t) q s
    unfolding called taken ack_history
    acknowledged x t at r = record {
      at = at;
      held = rw (taken-load_ne arrived fifo status (answer dev w32 status t) t apart) r.held;
      handed = r.handed;
      wired = r.wired;
      grown = Grown-trans arrived t _ _ (fed.grows _ t) (fed.grows _ _);
    }

    set-history :
        (d : Driver) (t : Trace)
        → IsWired status fifo shift f d
        → (x : ℕ) × ((reg_bits_set dev (status_reg d.mb) 1 (rd_irq_shift d.mb.channel) t).1
            ≡ ack_history x t)
    unfolding reg_bits_set readl writel ack_history
    set-history d t h = (
      bit_or (answer dev w32 status t) (1 <<< rd_irq_shift d.mb.channel) % 2 ^ 32,
      rw h.status_at refl,
    )

    ack-Moves :
        {before : List Call} {first : ℕ} {n w : ℕ} {m : Option ℕ} (d : Driver) (ws : List ℕ)
        (t : Trace) (s : Shared)
        → At (handing n w) (hand m)
        → Ready dev arrived f status fifo shift before first d t s
        → Moves dev arrived f status fifo shift before first t
            (poll_move dev (acking n w) d t)
            (access (ack m) ws s)
    unfolding poll_move access
    ack-Moves d ws t s at r =
        let (x, history) = set-history d t r.wired in rw history (acknowledged x t at r)

    -- A word, or a stray value, is passed on.
    passed_on :
        {before : List Call} {first : ℕ} {s s' : Shared} (n w : ℕ) (d : Driver) (t : Trace)
        → Ready dev arrived f status fifo shift before first d t s
        → s'.fifo ≡ s.fifo
        → s'.entered ≡ s.entered
        → Handed f before s'.passed s'.strays (f w ∷ called t)
        → Moves dev arrived f status fifo shift before first t
            (poll_move dev (handing n w) d t)
            (look, s')
    unfolding poll_move called taken
    passed_on n w d t r same entered handed = rw (account-deliver w n d) (
        rw (r.wired.makes w t) (record {
          at = at_look _;
          held = record {
            fifo = same ∙ r.held.fifo;
            entered = entered ∙ r.held.entered;
            taken = r.held.taken;
            started = r.held.started;
          };
          handed = handed;
          wired = account-IsWired w n d r.wired;
          grown = fed.grows _ t;
        }))

    hand-Moves :
        {before : List Call} {first : ℕ} (n w v : ℕ) (d : Driver) (ws : List ℕ) (t : Trace)
        (s : Shared)
        → w ≡ v
        → Ready dev arrived f status fifo shift before first d t s
        → Moves dev arrived f status fifo shift before first t
            (poll_move dev (handing n w) d t)
            (access (hand (some v)) ws s)
    unfolding access
    hand-Moves {before} n w v d ws t s e r = passed_on n w d t r refl refl (
        subst (λ (x : ℕ). Handed f before (x ∷ s.passed) s.strays (f w ∷ called t)) e
          (word w r.handed))

    hand_stray-Moves :
        {before : List Call} {first : ℕ} (n w : ℕ) (d : Driver) (ws : List ℕ) (t : Trace)
        (s : Shared)
        → Ready dev arrived f status fifo shift before first d t s
        → Moves dev arrived f status fifo shift before first t
            (poll_move dev (handing n w) d t)
            (access (hand none) ws s)
    unfolding access
    hand_stray-Moves n w d ws t s r = passed_on n w d t r refl refl (stray w r.handed)

    -- The read without a pending word, and the log line of the end.
    closed :
        {before : List Call} {first : ℕ} {d : Driver} {s' : Shared} (n : ℕ) (t : Trace)
        → IsWired status fifo shift f d
        → Holding first
            (taken arrived fifo (load w32 fifo (answer dev w32 fifo t) ∷ t))
            (arrived t)
            s'
        → Handed f before s'.passed s'.strays (called t)
        → Moves dev arrived f status fifo shift before first t
            (poll_move dev (closing n) d t)
            (idle, s')
    unfolding poll_move readl called poll_report msgbox_pending reg_bits_get taken
    closed {d = d} n t wired held handed = elim (Bool-cases (n == 0)) [
      | inl quiet ↦
          rw (quiet, wired.fifo_at)
            (record {
              at = at_idle;
              held = held;
              handed = handed;
              wired = wired;
              grown = fed.grows _ t;
            })
      | inr some_words ↦
          let t1 = load w32 fifo (answer dev w32 fifo t) ∷ t in
          rw (some_words, wired.fifo_at, wired.status_at)
            (record {
              at = at_idle;
              held =
                  rw (taken-load_ne arrived fifo status (answer dev w32 status t1) t1 apart) held;
              handed = handed;
              wired = wired;
              grown =
                  Grown-trans arrived t _ _ (fed.grows _ t)
                    (Grown-trans arrived _ _ _ (fed.grows _ _) (fed.grows _ _));
            })
    ]

    last-Moves :
        {before : List Call} {first : ℕ} (n : ℕ) (d : Driver) (ws : List ℕ) (t : Trace) (s : Shared)
        → s.fifo ≡ ws
        → Ready dev arrived f status fifo shift before first d t s
        → Moves dev arrived f status fifo shift before first t
            (poll_move dev (closing n) d t)
            (access last ws s)
    unfolding access
    last-Moves n d [] t s e r =
        closed n t r.wired
          (rw
            (taken-none dev arrived f status fifo shift fed apart (answer dev w32 fifo t) t e
              r.held)
            r.held)
          r.handed
    last-Moves n d (w ∷ ws) t s e r =
        closed n t r.wired
          (rw
            (taken-one dev arrived f status fifo shift fed apart w ws (answer dev w32 fifo t) t e
              r.held)
            (took dev arrived f status fifo shift fed apart w ws e r.held refl refl))
          r.handed

    -- Every move of the code.
    pub poll_move-Moves :
        {before : List Call} {first : ℕ} {p : Point} {q : Place} (d : Driver) (ws : List ℕ)
        (t : Trace) (s : Shared)
        → At p q
        → s.fifo ≡ ws
        → Ready dev arrived f status fifo shift before first d t s
        → Moves dev arrived f status fifo shift before first t (poll_move dev p d t) (access q ws s)
    unfolding poll_move access
    poll_move-Moves d ws t s at_idle e r = record {
      at = at_look 0;
      held = r.held;
      handed = r.handed;
      wired = r.wired;
      grown = Grown-refl arrived t;
    }
    poll_move-Moves d ws t s (at_look n) e r =
        look-Moves dev arrived f status fifo shift fed apart n d ws t s e r
    poll_move-Moves d ws t s (at_fetch n) e r =
        fetch-Moves dev arrived f status fifo shift fed apart n d ws t s e r
    poll_move-Moves d ws t s (at_ack n w v same) e r = ack-Moves d ws t s (at_hand n w v same) r
    poll_move-Moves d ws t s (at_ack_stray n w) e r = ack-Moves d ws t s (at_hand_stray n w) r
    poll_move-Moves d ws t s (at_hand n w v same) e r = hand-Moves n w v d ws t s same r
    poll_move-Moves d ws t s (at_hand_stray n w) e r = hand_stray-Moves n w d ws t s r
    poll_move-Moves d ws t s (at_last n) e r = last-Moves n d ws t s e r
