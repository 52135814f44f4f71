-- ===== src/Msgbox/Race/Code.antt =====
-- openamp/platform/ipi.c, `msgbox_poll` cut at its accesses to the FIFO and the status, and two such polls
-- that share the mailbox: the task's, and the interrupt handler's. Of the handler only its poll takes
-- part; its look after the poll, its counter and its log line are in Msgbox/Setup.
pub mod Alone
pub mod Held
pub mod Places
pub mod Late
pub mod Wired
pub mod Reads
pub mod Moves
pub mod Runs
pub mod Played
pub mod Accounts
mod Tests
use t113_c.Base.{ℕ, zero, suc, ◌==◌, if◌then◌else◌, Bool, true, false, List, [], ◌∷◌}
use t113_c.Hw.{Hw, Device, Trace, readl, return, ◌>>=◌, ◌>>◌}
use t113_c.Msgbox.{
  Driver, status_reg, fifo_reg, rd_irq_shift, account, deliver, reg_bits_set, msgbox_pending,
  poll_report,
}

-- What a run of `msgbox_poll` does next, with its local `drained` and, once it is read, the word.
pub data Point : Type 0 where
  resting : Point
  looking reading closing : ℕ → Point
  acking handing : ℕ → ℕ → Point

pub is_resting : Point → Bool
is_resting resting = true
is_resting _ = false

module _ (dev : Device) where
  -- The code from one point to the next.
  pub poll_move : Point → Driver → Hw (Point × Driver)
  poll_move resting d = return (looking 0, d)
  poll_move (looking n) d = do
    pend ← msgbox_pending dev d.mb
    return (if pend == 0 then closing n else reading n, d)
  poll_move (reading n) d = do word ← readl dev (fifo_reg d.mb); return (acking n word, d)
  poll_move (acking n word) d = do
    reg_bits_set dev (status_reg d.mb) 1 (rd_irq_shift d.mb.channel)
    return (handing n word, d)
  poll_move (handing n word) d = do
    deliver (account word (n, d)).1.mb word
    return (looking (account word (n, d)).0, (account word (n, d)).1)
  poll_move (closing n) d = do
    _ ← readl dev (fifo_reg d.mb)
    poll_report dev (n, d)
    return (resting, d)

  -- So many moves of one poll, with nothing between them.
  pub poll_moves : ℕ → Point × Driver → Hw (Point × Driver)
  poll_moves zero p t = (p, t)
  poll_moves (suc k) (p, d) t = let (q, u) = poll_move p d t in poll_moves k q u

-- The two polls, the mailbox that they share, and the history.
pub record Config : Type 0 where
  pub task : Point
  pub handler : Point
  pub driver : Driver
  pub history : Trace

pub data Turn : Type 0 where
  task_turn handler_turn : Turn

module _ (dev : Device) where
  -- The task goes on only when the handler has ended.
  pub turn : Turn → Config → Config
  turn task_turn c =
      if is_resting c.handler
      then (let ((p, d), u) = poll_move dev c.task c.driver c.history in
          record c { task = p; driver = d; history = u })
      else c
  turn handler_turn c =
      let ((p, d), u) = poll_move dev c.handler c.driver c.history in
      record c { handler = p; driver = d; history = u }

  pub turns : List Turn → Config → Config
  turns [] c = c
  turns (a ∷ rest) c = turns rest (turn a c)
