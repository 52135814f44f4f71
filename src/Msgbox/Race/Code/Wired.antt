-- ===== src/Msgbox/Race/Code/Wired.antt =====
-- What holds before and after a move of the code, seen from the finer model.
use t113_c.Base.{ℕ, ◌≡◌, ◌∙◌, ap, List}
use t113_c.Calls.{Call}
use t113_c.Hw.{Device, Trace}
use t113_c.Hw.History.{called}
use t113_c.Msgbox.{Driver, status_reg, fifo_reg, rd_irq_shift, account}
use t113_c.Msgbox.Fifo.{account-deliver, account-registers}
use t113_c.Msgbox.Arrivals.{taken, Grown}
use t113_c.Msgbox.Arrivals.Loop.{IsCall}
use t113_c.Msgbox.Race.{Place, Shared}
use t113_c.Msgbox.Race.Code.{Point}
use t113_c.Msgbox.Race.Code.Held.{Holding}
use t113_c.Msgbox.Race.Code.Places.{At, Handed}

-- A driver whose registers and callback are these.
pub record IsWired (status fifo shift : ℕ) (f : ℕ → Call) (d : Driver) : Type 0 where
  pub status_at : status_reg d.mb ≡ status
  pub fifo_at : fifo_reg d.mb ≡ fifo
  pub shift_at : rd_irq_shift d.mb.channel ≡ shift
  pub makes : IsCall f d.mb

pub account-IsWired :
    {status fifo shift : ℕ} {f : ℕ → Call} (w n : ℕ) (d : Driver)
    → IsWired status fifo shift f d
    → IsWired status fifo shift f (account w (n, d)).1
account-IsWired w n d h =
    let same = account-registers w n d in
    record {
      status_at = same.0 ∙ h.status_at;
      fifo_at = same.1 ∙ h.fifo_at;
      shift_at = ap rd_irq_shift same.2 ∙ h.shift_at;
      makes = rw (account-deliver w n d) h.makes;
    }

module _ (dev : Device) (arrived : Trace → List ℕ) (f : ℕ → Call) (status fifo shift : ℕ) where
  -- What holds before a move.
  pub record Ready (before : List Call) (first : ℕ) (d : Driver) (t : Trace) (s : Shared)
      : Type 0 where
    pub wired : IsWired status fifo shift f d
    pub held : Holding first (taken arrived fifo t) (arrived t) s
    pub handed : Handed f before s.passed s.strays (called t)

  -- The history `u` after a move from `t`, seen from the finer model: the reader stands at `q` and the FIFO
  -- and the record are those of `s`, apart from the words that entered with the events of the move.
  pub record Moved (before : List Call) (first : ℕ) (t : Trace) (p : Point) (d : Driver) (u : Trace)
      (q : Place) (s : Shared) : Type 0 where
    pub at : At p q
    pub held : Holding first (taken arrived fifo u) (arrived t) s
    pub handed : Handed f before s.passed s.strays (called u)
    pub wired : IsWired status fifo shift f d
    pub grown : Grown arrived t u

  abbrev pub Moves : List Call → ℕ → Trace → (Point × Driver) × Trace → Place × Shared → Type 0
  Moves before first t ((p, d), u) (q, s) = Moved before first t p d u q s
