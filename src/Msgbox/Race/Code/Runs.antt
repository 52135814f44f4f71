-- ===== src/Msgbox/Race/Code/Runs.antt =====
-- One move of the two polls, and the run of the finer model that it refines.
use t113_c.Base.{
  ℕ, Bool, false, ltb, ◌&&◌, ◌||◌, not, ap, arith, true, ◌≡◌, ◌≢◌, refl, sym, ◌∙◌, List, [], ◌∷◌,
  length,
}
use t113_c.Base.{Bool-cases, inl, inr}
use mathlib.Core.Path.{subst}
use t113_c.Calls.{Call}
use t113_c.Hw.{Device, Trace}
use t113_c.Hw.History.{called}
use t113_c.Msgbox.{Driver}
use t113_c.Msgbox.Arrivals.{taken, IsFed}
use t113_c.Msgbox.Race.{Place, Shared, Move, task_moves, handler_moves, is_idle, advance, move, run}
use t113_c.Msgbox.Race.Exact.{access-keeps}
use t113_c.Msgbox.Race.Code.{
  Point, is_resting, poll_move, Config, Turn, task_turn, handler_turn, turn,
}
use t113_c.Msgbox.Race.Code.Held.{drop, sends, run-sends, SameReaders, Holding, Holding-sends}
use t113_c.Msgbox.Race.Code.Places.{
  At, at_idle, at_look, at_fetch, at_ack, at_ack_stray, at_hand, at_hand_stray, at_last, Handed,
}
use t113_c.Msgbox.Race.Code.Late.{is_closing, late_turn, At-closing, length-drop, run-sends_late}
use t113_c.Msgbox.Race.Code.Wired.{Ready, Moved}
use t113_c.Msgbox.Race.Code.Moves.{poll_move-Moves}

At-resting : {p : Point} {q : Place} → At p q → is_resting p ≡ is_idle q
unfolding is_resting is_idle
At-resting at_idle = refl
At-resting (at_look n) = refl
At-resting (at_fetch n) = refl
At-resting (at_ack n w v e) = refl
At-resting (at_ack_stray n w) = refl
At-resting (at_hand n w v e) = refl
At-resting (at_hand_stray n w) = refl
At-resting (at_last n) = refl

-- The task moves only while the handler rests.
task_advanced : Shared → Shared
task_advanced s = record (advance s.task s).1 { task = (advance s.task s).0 }

move-task_moves : (s : Shared) → is_idle s.handler ≡ true → move task_moves s ≡ task_advanced s
unfolding move task_advanced
move-task_moves s e = rw e refl

task_turned : Device → Config → Config
task_turned dev c =
    let ((p, d), u) = poll_move dev c.task c.driver c.history in
    record c { task = p; driver = d; history = u }

turn-task_turn :
    (dev : Device) (c : Config)
    → is_resting c.handler ≡ true
    → turn dev task_turn c ≡ task_turned dev c
unfolding turn task_turned
turn-task_turn dev c e = rw e refl

module _ (dev : Device) (arrived : Trace → List ℕ) (f : ℕ → Call) (status fifo shift : ℕ) where
  -- The two polls stand where the readers of `s` stand. The FIFO holds the words of `s`: of those that
  -- arrived, all but the first `first` have entered it. Since the calls `before`, the calls that were made
  -- are those for the words passed on, and one for each stray value. If the code saw no word come late,
  -- none did.
  pub record Refines (before : List Call) (first : ℕ) (seen : Bool) (c : Config) (s : Shared)
      : Type 0 where
    pub task : At c.task s.task
    pub handler : At c.handler s.handler
    pub ready : Ready dev arrived f status fifo shift before first c.driver c.history s
    pub late : (s.late && not seen) ≡ false

  -- The words that entered with the events of a move.
  entered_since : Trace → Trace → List Move
  entered_since t u = sends (drop (length (arrived t)) (arrived u))

  settled :
      {before : List Call} {first : ℕ} {t : Trace} {p : Point} {d : Driver} {u : Trace} {q : Place}
      {s s' : Shared}
      → Moved dev arrived f status fifo shift before first t p d u q s
      → s'.fifo ≡ s.fifo
      → s'.entered ≡ s.entered
      → s'.passed ≡ s.passed
      → s'.strays ≡ s.strays
      → SameReaders s' (run (entered_since t u) s')
        × Ready dev arrived f status fifo shift before first d u (run (entered_since t u) s')
  unfolding entered_since
  settled {before} {first} {t} {p} {d} {u} {q} {s} {s'} m fifo_same entered passed strays =
      let (same, fifo', entered') = run-sends (drop (length (arrived t)) (arrived u)) s' in
      let held : Holding first (taken arrived fifo u) (arrived t) s' = record {
        fifo = fifo_same ∙ m.held.fifo;
        entered = entered ∙ m.held.entered;
        taken = m.held.taken;
        started = m.held.started;
      } in
      (
        same,
        record {
          wired = m.wired;
          held =
              Holding-sends first (taken arrived fifo u) (arrived t) (arrived u) s' m.grown.longer
                m.grown.same held;
          handed =
              subst
                (λ (l : List ℕ). Handed f before l (run (entered_since t u) s').strays (called u))
                (sym (same.passed ∙ passed))
                (subst (λ (n : ℕ). Handed f before s.passed n (called u))
                  (sym (same.strays ∙ strays)) m.handed);
        },
      )

  -- Nothing is late after a move, if the code saw nothing late in it.
  settled_calm :
      (seen : Bool) (p q : Point) (s : Shared) (t u : Trace)
      → At p s.task
      → At q s.handler
      → (seen ≡ false → s.late ≡ false)
      → (seen || (ltb (length (arrived t)) (length (arrived u)) && (is_closing p || is_closing q)))
        ≡ false
      → (run (entered_since t u) s).late ≡ false
  unfolding entered_since
  settled_calm seen p q s t u at bt before calm =
      run-sends_late (drop (length (arrived t)) (arrived u)) s (before (ground (arith, calm))) (
        ground
          (arith, calm, length-drop (length (arrived t)) (arrived u), At-closing at, At-closing bt))

  settled_late :
      (seen : Bool) (p q : Point) (s : Shared) (t u : Trace)
      → At p s.task
      → At q s.handler
      → (s.late && not seen) ≡ false
      → ((run (entered_since t u) s).late
          && not (
              seen
              || (ltb (length (arrived t)) (length (arrived u)) && (is_closing p || is_closing q))))
        ≡ false
  settled_late seen p q s t u at bt before =
      let now =
        seen || (ltb (length (arrived t)) (length (arrived u)) && (is_closing p || is_closing q)) in
      elim (Bool-cases now) [
        | inl late ↦ rw late (ground arith)
        | inr calm ↦
            rw (settled_calm seen p q s t u at bt (λ e. ground (arith, e, before)) calm) refl
      ]

  module _ (fed : IsFed dev status fifo shift arrived) (apart : fifo ≢ status) where
    pub turn-Refines :
        {before : List Call} {first : ℕ} {seen : Bool} (a : Turn) (c : Config) (s : Shared)
        → Refines before first seen c s
        → (ms : List Move) × Refines before first
            (seen || late_turn dev arrived a c)
            (turn dev a c)
            (run ms s)
    unfolding turn run move task_advanced task_turned late_turn
    turn-Refines {seen = seen} handler_turn c s r =
        let m =
          poll_move-Moves dev arrived f status fifo shift fed apart c.driver s.fifo c.history s
            r.handler refl r.ready in
        let k = access-keeps s.handler s.fifo s in
        let u = (poll_move dev c.handler c.driver c.history).1 in
        let (same, ready) = settled {s' = move handler_moves s} m refl refl refl refl in
        let task_at = subst (At c.task) (sym k.1) r.task in
        (
          handler_moves ∷ entered_since c.history u,
          record {
            task = subst (At c.task) (sym same.task) task_at;
            handler = subst (At _) (sym same.handler) m.at;
            ready = ready;
            late =
                settled_late seen c.task (poll_move dev c.handler c.driver c.history).0.0
                  (move handler_moves s) c.history u task_at m.at
                  (ap (λ (b : Bool). b && not seen) k.3 ∙ r.late);
          },
        )
    turn-Refines {before} {first} {seen} task_turn c s r =
        elim (Bool-cases (is_resting c.handler)) [
          | inr busy ↦ (
            [],
            rw busy (record {
              task = r.task;
              handler = r.handler;
              ready = r.ready;
              late = ground (arith, r.late);
            }),
          )
          | inl free ↦
              let m =
                poll_move-Moves dev arrived f status fifo shift fed apart c.driver s.fifo c.history
                  s r.task refl r.ready in
              let k = access-keeps s.task s.fifo s in
              let u = (poll_move dev c.task c.driver c.history).1 in
              let idle_too = sym (At-resting r.handler) ∙ free in
              let (same, ready) = settled {s' = task_advanced s} m refl refl refl refl in
              let handler_at = subst (At c.handler) (sym k.2) r.handler in
              let seen' = seen || late_turn dev arrived task_turn c in
              let after : Refines before first seen' (task_turned dev c)
                  (run (entered_since c.history u) (task_advanced s)) =
                record {
                  task = subst (At _) (sym same.task) m.at;
                  handler = subst (At c.handler) (sym same.handler) handler_at;
                  ready = ready;
                  late = rw (turn-task_turn dev c free) (
                      settled_late seen (poll_move dev c.task c.driver c.history).0.0 c.handler
                        (task_advanced s) c.history u m.at handler_at
                        (ap (λ (b : Bool). b && not seen) k.3 ∙ r.late));
                } in
              (
                task_moves ∷ entered_since c.history u,
                subst
                    (λ (c' : Config).
                      Refines before first seen' c'
                        (run (task_moves ∷ entered_since c.history u) s))
                    (sym (turn-task_turn dev c free))
                    (subst
                      (λ (s' : Shared).
                        Refines before first seen' (task_turned dev c)
                          (run (entered_since c.history u) s'))
                      (sym (move-task_moves s idle_too)) after),
              )
        ]
