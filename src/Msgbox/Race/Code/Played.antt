-- ===== src/Msgbox/Race/Code/Played.antt =====
-- Every interleaving of the two polls is a run of the finer model.
use t113_c.Base.{ℕ, Bool, false, ◌||◌, ◌≤◌, ◌≢◌, refl, sym, List, [], ◌∷◌, ◌++◌, length}
use mathlib.Core.Path.{subst}
use t113_c.Calls.{Call}
use t113_c.Hw.{Device, Trace}
use t113_c.Hw.History.{called}
use t113_c.Msgbox.{Driver}
use t113_c.Msgbox.Arrivals.{taken, IsFed}
use t113_c.Msgbox.Race.{Shared, Move, run, at_rest}
use t113_c.Msgbox.Race.Code.{resting, Config, Turn, turn, turns}
use t113_c.Msgbox.Race.Code.Held.{drop, sends, run-sends, run-append}
use t113_c.Msgbox.Race.Code.Places.{start, At, at_idle, Handed}
use t113_c.Msgbox.Race.Code.Late.{late_turn, late_turns}
use t113_c.Msgbox.Race.Code.Wired.{IsWired}
use t113_c.Msgbox.Race.Code.Late.{rest_late}
use t113_c.Msgbox.Race.Code.Runs.{Refines, turn-Refines}

module _ (dev : Device) (arrived : Trace → List ℕ) (f : ℕ → Call) (status fifo shift : ℕ) where
  module _ (fed : IsFed dev status fifo shift arrived) (apart : fifo ≢ status) where
    pub turns-Refines :
        {before : List Call} {first : ℕ} (played : List Turn) (seen : Bool) (c : Config)
        (s : Shared)
        → Refines dev arrived f status fifo shift before first seen c s
        → (ms : List Move) × Refines dev arrived f status fifo shift before first
            (late_turns dev arrived played c seen)
            (turns dev played c)
            (run ms s)
    unfolding turns run late_turns
    turns-Refines [] seen c s r = ([], r)
    turns-Refines {before} {first} (a ∷ rest) seen c s r =
        let (ms, one) = turn-Refines dev arrived f status fifo shift fed apart a c s r in
        let (ns, all) =
          turns-Refines rest (seen || late_turn dev arrived a c) (turn dev a c) (run ms s) one in
        (
          ms ++ ns,
          subst
              (Refines dev arrived f status fifo shift before first
                (late_turns dev arrived rest (turn dev a c) (seen || late_turn dev arrived a c))
                (turns dev rest (turn dev a c)))
              (sym (run-append ms ns s)) all,
        )

    -- Both polls are at rest, and the FIFO holds what has arrived.
    pub at_rest-Refines :
        (d : Driver) (t : Trace)
        → taken arrived fifo t ≤ length (arrived t)
        → IsWired status fifo shift f d
        → let first = taken arrived fifo t in
          Refines dev arrived f status fifo shift
            (called t)
            first
            false
            (record { task = resting; handler = resting; driver = d; history = t })
            (run (sends (drop first (arrived t))) at_rest)
    at_rest-Refines d t sound wired =
        let first = taken arrived fifo t in
        let s = run (sends (drop first (arrived t))) at_rest in
        let (same, fifo, entered) = run-sends (drop first (arrived t)) at_rest in
        record {
          task = subst (At resting) (sym same.task) at_idle;
          handler = subst (At resting) (sym same.handler) at_idle;
          late = rw (rest_late (drop first (arrived t))) refl;
          ready = record {
            wired = wired;
            held = record { fifo = fifo; entered = entered; taken = sound; started = sound };
            handed =
                subst (λ (l : List ℕ). Handed f (called t) l s.strays (called t)) (sym same.passed)
                  (subst (λ (n : ℕ). Handed f (called t) [] n (called t)) (sym same.strays) start);
          };
        }
