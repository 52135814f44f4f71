-- ===== src/Msgbox/Race/Code/Alone.antt =====
-- A poll that nobody interrupts, move by move.
use t113_c.Base.{ℕ, zero, suc, ◌==◌, true, false, ◌≡◌, sym, ◌∙◌, ap, arith, Option, some}
use mathlib.Core.Path.{subst}
use t113_c.Base.{Bool-cases, inl, inr, ap₂, Option-cases}
use t113_c.Hw.{Device, Trace, readl, answer, w32}
use t113_c.Msgbox.{Driver, fifo_reg, msgbox_pending, poll_loop, poll_report, msgbox_poll}
use t113_c.Msgbox.Fifo.{receive, last_look}
use t113_c.Msgbox.Race.Code.{resting, looking, poll_move, poll_moves}

module _ (dev : Device) where
  -- What the next read of the FIFO gives after a look.
  abbrev next_word : Driver → Trace → ℕ
  next_word d t = answer dev w32 (fifo_reg d.mb) (msgbox_pending dev d.mb t).1

  loop_empty :
      (fuel n : ℕ) (d : Driver) (t : Trace)
      → ((msgbox_pending dev d.mb t).0 == 0) ≡ true
      → poll_loop dev (suc fuel) (n, d) t ≡ (some (n, d), (last_look dev (n, d) t).1)
  unfolding poll_loop last_look
  loop_empty fuel n d t empty = ground (arith, empty)

  moves_empty :
      (n : ℕ) (d : Driver) (t : Trace)
      → ((msgbox_pending dev d.mb t).0 == 0) ≡ true
      → poll_moves dev 2 (looking n, d) t
        ≡ ((resting, d), (poll_report dev (n, d) (last_look dev (n, d) t).1).1)
  unfolding poll_moves poll_move last_look
  moves_empty n d t empty = ground (arith, empty)

  loop_word :
      (fuel n : ℕ) (d : Driver) (t : Trace)
      → ((msgbox_pending dev d.mb t).0 == 0) ≡ false
      → let (s, u) = receive dev (next_word d t) (n, d) t in
        poll_loop dev (suc fuel) (n, d) t ≡ poll_loop dev fuel s u
  unfolding poll_loop receive readl
  loop_word fuel n d t pending = ground (arith, pending)

  moves_word :
      (k n : ℕ) (d : Driver) (t : Trace)
      → ((msgbox_pending dev d.mb t).0 == 0) ≡ false
      → let (s, u) = receive dev (next_word d t) (n, d) t in
        poll_moves dev (suc (suc (suc (suc k)))) (looking n, d) t
        ≡ poll_moves dev k (looking s.0, s.1) u
  unfolding poll_moves poll_move receive readl
  moves_word k n d t pending = ground (arith, pending)

  poll_loop-moves :
      (fuel n : ℕ) (d : Driver) (s : ℕ × Driver) (t : Trace)
      → (poll_loop dev fuel (n, d) t).0 ≡ some s
      → (k : ℕ) × (poll_moves dev k (looking n, d) t
          ≡ ((resting, s.1), (poll_report dev s (poll_loop dev fuel (n, d) t).1).1))
  poll_loop-moves zero n d s t e = absurd (unfold poll_loop in ground (arith, e))
  poll_loop-moves (suc fuel) n d s t e = elim (Bool-cases ((msgbox_pending dev d.mb t).0 == 0)) [
    | inl empty ↦
        let round = loop_empty fuel n d t empty in
        let same : some (n, d) ≡ some s =
          sym (ap (λ (r : Option (ℕ × Driver) × Trace). r.0) round) ∙ e in
        let ended : (n, d) ≡ s = ground (arith, same) in
        (
          2,
          subst
              (λ (r : ℕ × Driver).
                poll_moves dev 2 (looking n, d) t
                ≡ ((resting, r.1), (poll_report dev r (poll_loop dev (suc fuel) (n, d) t).1).1))
              ended
              (moves_empty n d t empty
                ∙ sym (
                    ap
                      (λ (r : Option (ℕ × Driver) × Trace).
                        ((resting, d), (poll_report dev (n, d) r.1).1))
                      round)),
        )
    | inr pending ↦
        let round = loop_word fuel n d t pending in
        let (s', u) = receive dev (next_word d t) (n, d) t in
        let (k, rest) =
          poll_loop-moves fuel s'.0 s'.1 s u
            (sym (ap (λ (r : Option (ℕ × Driver) × Trace). r.0) round) ∙ e) in
        (
          suc (suc (suc (suc k))),
          moves_word k n d t pending
              ∙ rest
              ∙ sym (
                  ap
                    (λ (r : Option (ℕ × Driver) × Trace).
                      ((resting, s.1), (poll_report dev s r.1).1))
                    round),
        )
  ]

  returned :
      (fuel : ℕ) (d d' : Driver) (t : Trace)
      → (msgbox_poll dev fuel d t).0 ≡ some d'
      → (s : ℕ × Driver) × ((poll_loop dev fuel (0, d) t).0 ≡ some s)
        × (s.1 ≡ d')
        × ((msgbox_poll dev fuel d t).1 ≡ (poll_report dev s (poll_loop dev fuel (0, d) t).1).1)
  unfolding msgbox_poll
  returned fuel d d' t e = elim (Option-cases (poll_loop dev fuel (0, d) t).0) [
    | inl running ↦ absurd (ground (arith, running, e))
    | inr ended ↦ (ended.0, ended.1, ground (arith, ended.1, e), ground (arith, ended.1))
  ]

  -- The moves of one poll, with nothing between them, are `msgbox_poll`: where it returns, so many moves
  -- from rest to rest leave the same mailbox and the same history.
  pub msgbox_poll-moves :
      (fuel : ℕ) (d d' : Driver) (t : Trace)
      → (msgbox_poll dev fuel d t).0 ≡ some d'
      → (k : ℕ) × (poll_moves dev k (resting, d) t ≡ ((resting, d'), (msgbox_poll dev fuel d t).1))
  unfolding poll_moves poll_move
  msgbox_poll-moves fuel d d' t e =
      let (s, ended, same, history) = returned fuel d d' t e in
      let (k, moved) = poll_loop-moves fuel 0 d s t ended in
      (suc k, moved ∙ ap₂ (λ (a : Driver) (u : Trace). ((resting, a), u)) same (sym history))
