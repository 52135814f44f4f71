-- ===== src/Msgbox/Race/Code/Late.antt =====
-- Words that enter the FIFO when a poll is about to make its read without a pending word.
use t113_c.Base.{
  ℕ, zero, suc, ltb, Bool, true, false, ◌&&◌, ◌||◌, ◌≡◌, refl, arith, List, [], ◌∷◌, length,
}
use t113_c.Hw.{Device, Trace}
use t113_c.Msgbox.Race.{Place, Shared, send, move, run, is_last, at_rest}
use t113_c.Msgbox.Race.Code.{Point, closing, Config, Turn, turn}
use t113_c.Msgbox.Race.Code.Held.{drop, sends}
use t113_c.Msgbox.Race.Code.Places.{
  At, at_idle, at_look, at_fetch, at_ack, at_ack_stray, at_hand, at_hand_stray, at_last,
}

unfoldable pub is_closing : Point → Bool
is_closing (closing n) = true
is_closing _ = false

module _ (dev : Device) (arrived : Trace → List ℕ) where
  -- With the events of this move a word entered, and now a poll is before its last read.
  unfoldable pub late_turn : Turn → Config → Bool
  late_turn a c =
      let c' = turn dev a c in
      ltb (length (arrived c.history)) (length (arrived c'.history))
      && (is_closing c'.task || is_closing c'.handler)

  -- One of the moves was such, or one before them.
  unfoldable pub late_turns : List Turn → Config → Bool → Bool
  late_turns [] c before = before
  late_turns (a ∷ rest) c before = late_turns rest (turn dev a c) (before || late_turn a c)

pub At-closing : {p : Point} {q : Place} → At p q → is_closing p ≡ is_last q
unfolding is_closing is_last
At-closing at_idle = refl
At-closing (at_look n) = refl
At-closing (at_fetch n) = refl
At-closing (at_ack n w v e) = refl
At-closing (at_ack_stray n w) = refl
At-closing (at_hand n w v e) = refl
At-closing (at_hand_stray n w) = refl
At-closing (at_last n) = refl

pub length-drop : (n : ℕ) (xs : List ℕ) → ltb 0 (length (drop n xs)) ≡ ltb n (length xs)
unfolding drop
length-drop zero xs = refl
length-drop (suc n) [] = ground arith
length-drop (suc n) (x ∷ xs) = ground (arith, length-drop n xs)

-- In the finer model: what the words that enter make of the record.
pub run-sends_late :
    (ws : List ℕ) (s : Shared)
    → s.late ≡ false
    → (ltb 0 (length ws) && (is_last s.task || is_last s.handler)) ≡ false
    → (run (sends ws) s).late ≡ false
unfolding run move sends
run-sends_late [] s h e = h
run-sends_late (w ∷ ws) s h e =
    run-sends_late ws (move (send w) s) (ground (arith, h, e)) (ground (arith, e))

pub rest_late : (ws : List ℕ) → (run (sends ws) at_rest).late ≡ false
unfolding is_last
rest_late ws = run-sends_late ws at_rest refl (ground arith)
