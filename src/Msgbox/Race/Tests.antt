-- ===== src/Msgbox/Race/Tests.antt =====
-- Runs of the two readers.
use t113_c.Base.{◌≡◌, refl, false, List, [], ◌∷◌}
use t113_c.Msgbox.Race.{
  Move, send, task_moves, handler_moves, access, is_idle, is_last, move, run, at_rest,
}

-- The interrupt comes between the task's look and its read, and the handler takes the word: the task then
-- reads an empty FIFO, and passes on what that gave.
abbrev interrupted : List Move
interrupted =
    send 5
    ∷ task_moves
    ∷ task_moves
    ∷ handler_moves
    ∷ handler_moves
    ∷ handler_moves
    ∷ handler_moves
    ∷ handler_moves
    ∷ handler_moves
    ∷ handler_moves
    ∷ task_moves
    ∷ task_moves
    ∷ task_moves
    ∷ []

stray : let s = run interrupted at_rest in (s.passed ≡ 5 ∷ []) × (s.strays ≡ 1) × (s.late ≡ false)
unfolding run move access is_idle is_last
stray = (refl, refl, refl)

-- A word enters between the task's look and its last read.
abbrev too_late : List Move
too_late = task_moves ∷ task_moves ∷ send 5 ∷ task_moves ∷ []

lost : let s = run too_late at_rest in (s.dropped ≡ 5 ∷ []) × (s.passed ≡ []) × (s.fifo ≡ [])
unfolding run move access is_idle is_last
lost = (refl, refl, refl)
