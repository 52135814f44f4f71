-- ===== src/Msgbox/Race/Code/Accounts.antt =====
-- What the interleaved polls of the code do with the words.
use t113_c.Base.{ℕ, ◌+◌, ◌≤◌, ◌≡◌, ◌≢◌, refl, ap, arith, List, [], ◌∷◌, ◌++◌, length}
use t113_c.Calls.{Call}
use t113_c.Hw.{Device, Trace}
use t113_c.Hw.History.{called}
use t113_c.Msgbox.{Driver, status_reg, fifo_reg, rd_irq_shift}
use t113_c.Msgbox.Arrivals.{taken}
use t113_c.Msgbox.Arrivals.Loop.{IsCall, FedBy}
use t113_c.Msgbox.Race.{Move, run, at_rest}
use t113_c.Msgbox.Race.Exact.{count, held, run-exact}
use t113_c.Msgbox.Race.Code.{resting, Config, Turn, turns}
use t113_c.Msgbox.Race.Code.Held.{drop, sends, reversed_onto, run-append}
use t113_c.Msgbox.Race.Code.Wired.{IsWired}
use t113_c.Base.{Bool, true, false, ◌&&◌, not, if◌then◌else◌}
use t113_c.Msgbox.Race.Code.Late.{late_turns}
use t113_c.Msgbox.Race.Code.Runs.{Refines}
use t113_c.Msgbox.Race.Code.Played.{turns-Refines, at_rest-Refines}

count-reversed_onto :
    (v : ℕ) (xs ys : List ℕ) → count v (reversed_onto xs ys) ≡ count v xs + count v ys
unfolding reversed_onto count
count-reversed_onto v [] ys = omega arith
count-reversed_onto v (x ∷ xs) ys = ground (arith, count-reversed_onto v xs (x ∷ ys))

-- None was dropped, if the code saw no word come late.
kept_all :
    (seen late : Bool) (dropped : List ℕ)
    → (late && not seen) ≡ false
    → (if late then [] else dropped) ≡ []
    → (if seen then [] else dropped) ≡ []
kept_all true late dropped e h = refl
kept_all false true dropped e h = absurd (ground (arith, e))
kept_all false false dropped e h = h

-- The history of the polls that begin with these.
abbrev pub begin : Driver → Trace → Config
begin d t = record { task = resting; handler = resting; driver = d; history = t }

-- The polls of the task and of the interrupt handler begin at rest, words enter the FIFO at any moment, and
-- the driver's callback makes one call for each word. However the moves of the two polls interleave,
-- what the code has done refines a run of the finer model; so, of each value, as many words have
-- entered the FIFO since as the code has passed on, has dropped, holds in a reader, or has left in the
-- FIFO. The calls that were made are those for the words passed on, and one for each stray value. Unless
-- a word entered when a poll was before its last read, none was dropped.
pub turns-Refines_exact :
    (dev : Device) (arrived : Trace → List ℕ) (f : ℕ → Call) (played : List Turn) (d : Driver)
    (t : Trace) (v : ℕ)
    → taken arrived (fifo_reg d.mb) t ≤ length (arrived t)
    → FedBy dev arrived f d
    → fifo_reg d.mb ≢ status_reg d.mb
    → IsCall f d.mb
    → let c = turns dev played (begin d t) in
      let first = taken arrived (fifo_reg d.mb) t in
      let late = late_turns dev arrived played (begin d t) false in
      (ms : List Move) × (let s = run ms at_rest in
        Refines dev arrived f
          (status_reg d.mb)
          (fifo_reg d.mb)
          (rd_irq_shift d.mb.channel)
          (called t)
          first
          late
          c
          s
        × (count v (drop first (arrived c.history))
            ≡ count v s.passed
              + count v s.dropped
              + count v (drop (taken arrived (fifo_reg d.mb) c.history) (arrived c.history))
              + held v s.task
              + held v s.handler)
        × ((if late then [] else s.dropped) ≡ []))
unfolding count
turns-Refines_exact dev arrived f played d t v sound fed apart makes =
    let first = taken arrived (fifo_reg d.mb) t in
    let wired : IsWired (status_reg d.mb) (fifo_reg d.mb) (rd_irq_shift d.mb.channel) f d = record {
      status_at = refl;
      fifo_at = refl;
      shift_at = refl;
      makes = makes;
    } in
    let begun =
      at_rest-Refines dev arrived f (status_reg d.mb) (fifo_reg d.mb) (rd_irq_shift d.mb.channel)
        fed apart d t sound wired in
    let late = late_turns dev arrived played (begin d t) false in
    let before = sends (drop first (arrived t)) in
    let (ms, r) =
      turns-Refines dev arrived f (status_reg d.mb) (fifo_reg d.mb) (rd_irq_shift d.mb.channel) fed
        apart played false (begin d t) (run before at_rest) begun in
    let e = run-append before ms at_rest in
    let moves = before ++ ms in
    let refined : Refines dev arrived f (status_reg d.mb) (fifo_reg d.mb)
        (rd_irq_shift d.mb.channel) (called t) first late (turns dev played (begin d t))
        (run moves at_rest) =
      rw e r in
    (
      moves,
      (
        refined,
        omega (
          arith,
          (run-exact v moves).0,
          ap (count v) refined.ready.held.entered,
          count-reversed_onto v (drop first (arrived (turns dev played (begin d t)).history)) [],
          ap (count v) refined.ready.held.fifo,
        ),
        kept_all late (run moves at_rest).late (run moves at_rest).dropped refined.late
            (run-exact v moves).1,
      ),
    )
