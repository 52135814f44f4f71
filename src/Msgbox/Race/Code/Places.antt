-- ===== src/Msgbox/Race/Code/Places.antt =====
-- The points of the code and the places of the finer model.
use t113_c.Base.{
  ℕ, suc, ◌+◌, ltb, true, false, ◌≡◌, sym, ◌∙◌, arith, List, [], ◌∷◌, length, get_or, none, some,
}
use t113_c.Base.{Bool-cases, inl, inr}
use t113_c.Calls.{Call}
use t113_c.Msgbox.Race.{Place, idle, look, fetch, last, ack, hand, Shared}
use t113_c.Msgbox.Race.Code.{Point, resting, looking, reading, closing, acking, handing}
use t113_c.Msgbox.Race.Code.Held.{Holding, drop, drop-all, drop-cons}

-- The place of the finer model at which a point of the code stands. What a read of an empty FIFO gave
-- may be any value.
pub data At : Point → Place → Type 0 where
  at_idle : At resting idle
  at_look : (n : ℕ) → At (looking n) look
  at_fetch : (n : ℕ) → At (reading n) fetch
  at_ack : (n w v : ℕ) → w ≡ v → At (acking n w) (ack (some v))
  at_ack_stray : (n w : ℕ) → At (acking n w) (ack none)
  at_hand : (n w v : ℕ) → w ≡ v → At (handing n w) (hand (some v))
  at_hand_stray : (n w : ℕ) → At (handing n w) (hand none)
  at_last : (n : ℕ) → At (closing n) last

-- The calls made since `before`: one for each word passed on, and one for each stray value.
pub data Handed (f : ℕ → Call) (before : List Call) : List ℕ → ℕ → List Call → Type 0 where
  start : Handed f before [] 0 before
  word :
      {words : List ℕ} {strays : ℕ} {calls : List Call} (w : ℕ)
      → Handed f before words strays calls
      → Handed f before (w ∷ words) strays (f w ∷ calls)
  stray :
      {words : List ℕ} {strays : ℕ} {calls : List Call} (v : ℕ)
      → Handed f before words strays calls
      → Handed f before words (strays + 1) (f v ∷ calls)

-- Which words the FIFO has, seen from the finer model.
pub fifo-empty :
    {start k : ℕ} {xs : List ℕ} {s : Shared}
    → Holding start k xs s
    → s.fifo ≡ []
    → ltb k (length xs) ≡ false
fifo-empty {start} {k} {xs} {s} h e = elim (Bool-cases (ltb k (length xs))) [
  | inr none_left ↦ none_left
  | inl left ↦
      let shape = drop-cons k xs (ground (arith, left)) in
      absurd (ground (arith, sym e ∙ h.fifo ∙ shape))
]

pub fifo-cons :
    {start k : ℕ} {xs : List ℕ} {s : Shared} (w : ℕ) (ws : List ℕ)
    → Holding start k xs s
    → s.fifo ≡ w ∷ ws
    → (ltb k (length xs) ≡ true) × (get_or xs k 0 ≡ w) × (drop (suc k) xs ≡ ws)
fifo-cons {start} {k} {xs} {s} w ws h e = elim (Bool-cases (ltb k (length xs))) [
  | inr none_left ↦
      let shape = drop-all k xs (ground (arith, none_left)) in
      absurd (ground (arith, sym e ∙ h.fifo ∙ shape))
  | inl left ↦
      let shape = drop-cons k xs (ground (arith, left)) in
      let both = sym shape ∙ sym h.fifo ∙ e in (left, ground (arith, both), ground (arith, both))
]
