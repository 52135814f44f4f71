-- ===== src/Msgbox/Race.antt =====
-- The polls of the task and of the interrupt handler on one receive FIFO, access by access. The handler
-- interrupts the task at any point, and the task goes on when the handler has ended.
pub mod Exact
pub mod Code
mod Tests
use t113_c.Base.{
  ℕ, zero, suc, ◌+◌, Bool, true, false, ◌&&◌, ◌||◌, not, if◌then◌else◌, List, [], ◌∷◌, ◌++◌, Option,
  none, some,
}

-- Where a run of `msgbox_poll` is: before its look at the status, before its read of a word, before it
-- acknowledges and before it passes on what it read, or before the read without a pending word. `none`
-- is what a read of an empty FIFO gave.
pub data Place : Type 0 where
  idle look fetch last : Place
  ack : Option ℕ → Place
  hand : Option ℕ → Place

pub is_idle : Place → Bool
is_idle idle = true
is_idle _ = false

pub is_last : Place → Bool
is_last last = true
is_last _ = false

-- The FIFO and its two readers. For the record there are the words that entered, were passed on and were
-- dropped, the values passed on that were no words, and whether a word entered before a `last` read.
pub record Shared : Type 0 where
  pub fifo : List ℕ
  pub task : Place
  pub handler : Place
  pub entered : List ℕ
  pub passed : List ℕ
  pub dropped : List ℕ
  pub strays : ℕ
  pub late : Bool

-- A poll begins, or makes one access; the FIFO holds these words.
pub access : Place → List ℕ → Shared → Place × Shared
access idle ws s = (look, s)
access look [] s = (last, s)
access look (w ∷ ws) s = (fetch, s)
access fetch [] s = (ack none, s)
access fetch (w ∷ ws) s = (ack (some w), record s { fifo = ws })
access (ack m) ws s = (hand m, s)
access (hand none) ws s = (look, record s { strays = s.strays + 1 })
access (hand (some w)) ws s = (look, record s { passed = w ∷ s.passed })
access last [] s = (idle, s)
access last (w ∷ ws) s = (idle, record s { fifo = ws; dropped = w ∷ s.dropped })

abbrev pub advance : Place → Shared → Place × Shared
advance p s = access p s.fifo s

-- A move of the sender, of the task and of the handler.
pub data Move : Type 0 where
  send : ℕ → Move
  task_moves handler_moves : Move

pub move : Move → Shared → Shared
move (send w) s = record s {
  fifo = s.fifo ++ (w ∷ []);
  entered = w ∷ s.entered;
  late = s.late || (is_last s.task || is_last s.handler);
}
move task_moves s =
    if is_idle s.handler then (let (p, s') = advance s.task s in record s' { task = p }) else s
move handler_moves s = let (p, s') = advance s.handler s in record s' { handler = p }

pub run : List Move → Shared → Shared
run [] s = s
run (m ∷ ms) s = run ms (move m s)

abbrev pub at_rest : Shared
at_rest = record {
  fifo = [];
  task = idle;
  handler = idle;
  entered = [];
  passed = [];
  dropped = [];
  strays = 0;
  late = false;
}
