-- ===== src/Msgbox/Race/Exact.antt =====
-- Every word that enters the FIFO is passed on once, or dropped by a `last` read that it came before.
use t113_c.Base.{
  ℕ, suc, ◌+◌, ◌==◌, true, false, if◌then◌else◌, ◌≡◌, refl, ◌∙◌, ap, sym, arith, List, [], ◌∷◌,
  ◌++◌, none, some,
}
use t113_c.Base.{Bool-cases, inl, inr}
use t113_c.Msgbox.Race.{
  Place, idle, look, fetch, last, ack, hand, is_idle, is_last, Shared, access, advance, Move, send,
  task_moves, handler_moves, move, run, at_rest,
}

unfoldable pub count : ℕ → List ℕ → ℕ
count v [] = 0
count v (x ∷ xs) = let n = count v xs in if v == x then suc n else n

count-append : (v : ℕ) (xs ys : List ℕ) → count v (xs ++ ys) ≡ count v xs + count v ys
unfolding count
count-append v [] ys = omega arith
count-append v (x ∷ xs) ys = ground (arith, count-append v xs ys)

-- The word that a reader holds.
abbrev pub held : ℕ → Place → ℕ
held v (ack (some w)) = if v == w then 1 else 0
held v (hand (some w)) = if v == w then 1 else 0
held v _ = 0

-- The words of value `v` that entered are passed on, dropped, held or still in the FIFO.
abbrev Accounted : ℕ → Shared → Type 0
Accounted v s =
    count v s.entered
    ≡ count v s.passed + count v s.dropped + count v s.fifo + held v s.task + held v s.handler

-- What an access does to the words, for the reader that makes it.
access-count :
    (v : ℕ) (p : Place) (ws : List ℕ) (s : Shared)
    → s.fifo ≡ ws
    → let (q, s') = access p ws s in
      count v s'.passed + count v s'.dropped + count v s'.fifo + held v q
      ≡ count v s.passed + count v s.dropped + count v s.fifo + held v p
unfolding access count
access-count v idle ws s e = refl
access-count v look [] s e = refl
access-count v look (w ∷ ws) s e = refl
access-count v fetch [] s e = refl
access-count v fetch (w ∷ ws) s e = rw e (ground arith)
access-count v (ack none) ws s e = refl
access-count v (ack (some w)) ws s e = refl
access-count v (hand none) ws s e = refl
access-count v (hand (some w)) ws s e = ground arith
access-count v last [] s e = refl
access-count v last (w ∷ ws) s e = rw e (ground arith)

-- The rest of the record is left.
pub access-keeps :
    (p : Place) (ws : List ℕ) (s : Shared)
    → let (q, s') = access p ws s in
      (s'.entered ≡ s.entered) × (s'.task ≡ s.task) × (s'.handler ≡ s.handler) × (s'.late ≡ s.late)
unfolding access
access-keeps idle ws s = (refl, refl, refl, refl)
access-keeps look [] s = (refl, refl, refl, refl)
access-keeps look (w ∷ ws) s = (refl, refl, refl, refl)
access-keeps fetch [] s = (refl, refl, refl, refl)
access-keeps fetch (w ∷ ws) s = (refl, refl, refl, refl)
access-keeps (ack m) ws s = (refl, refl, refl, refl)
access-keeps (hand none) ws s = (refl, refl, refl, refl)
access-keeps (hand (some w)) ws s = (refl, refl, refl, refl)
access-keeps last [] s = (refl, refl, refl, refl)
access-keeps last (w ∷ ws) s = (refl, refl, refl, refl)

move-Accounted : (v : ℕ) (m : Move) (s : Shared) → Accounted v s → Accounted v (move m s)
unfolding move count
move-Accounted v (send w) s h = ground (arith, h, count-append v s.fifo (w ∷ []))
move-Accounted v task_moves s h = elim (Bool-cases (is_idle s.handler)) [
  | inr busy ↦ ground (arith, busy, h)
  | inl free ↦
      let k = access-keeps s.task s.fifo s in
      ground
        (arith, free, h, access-count v s.task s.fifo s refl, ap (count v) k.0, ap (held v) k.2)
]
move-Accounted v handler_moves s h =
    let k = access-keeps s.handler s.fifo s in
    ground (arith, h, access-count v s.handler s.fifo s refl, ap (count v) k.0, ap (held v) k.1)

run-Accounted : (v : ℕ) (ms : List Move) (s : Shared) → Accounted v s → Accounted v (run ms s)
unfolding run
run-Accounted v [] s h = h
run-Accounted v (m ∷ ms) s h = run-Accounted v ms (move m s) (move-Accounted v m s h)

-- A reader before its `last` read has seen the FIFO empty, and nothing is dropped.
record Calm (s : Shared) : Type 0 where
  none_dropped : s.dropped ≡ []
  task_last : is_last s.task ≡ true → s.fifo ≡ []
  handler_last : is_last s.handler ≡ true → s.fifo ≡ []

cons-ne : (w : ℕ) (ws : List ℕ) (xs : List ℕ) → xs ≡ w ∷ ws → xs ≡ [] → ⊥
cons-ne w ws xs e f = absurd (ground (arith, e, f))

-- What an access of a reader does to an empty FIFO, and what it knows before its `last` read.
access-calm :
    (p : Place) (ws : List ℕ) (s : Shared)
    → s.fifo ≡ ws
    → (is_last p ≡ true → s.fifo ≡ [])
    → let (q, s') = access p ws s in
      (s'.dropped ≡ s.dropped) × (is_last q ≡ true → s'.fifo ≡ []) × (s.fifo ≡ [] → s'.fifo ≡ [])
unfolding access is_last
access-calm idle ws s e l = (refl, λ t. absurd (ground (arith, t)), λ f. f)
access-calm look [] s e l = (refl, λ t. e, λ f. f)
access-calm look (w ∷ ws) s e l = (refl, λ t. absurd (ground (arith, t)), λ f. f)
access-calm fetch [] s e l = (refl, λ t. absurd (ground (arith, t)), λ f. f)
access-calm fetch (w ∷ ws) s e l =
    (refl, λ t. absurd (ground (arith, t)), λ f. absurd (cons-ne w ws s.fifo e f))
access-calm (ack m) ws s e l = (refl, λ t. absurd (ground (arith, t)), λ f. f)
access-calm (hand none) ws s e l = (refl, λ t. absurd (ground (arith, t)), λ f. f)
access-calm (hand (some w)) ws s e l = (refl, λ t. absurd (ground (arith, t)), λ f. f)
access-calm last [] s e l = (refl, λ t. e, λ f. f)
access-calm last (w ∷ ws) s e l = absurd (cons-ne w ws s.fifo e (l refl))

move-late : (m : Move) (s : Shared) → (move m s).late ≡ false → s.late ≡ false
unfolding move
move-late (send w) s h = ground (arith, h)
move-late task_moves s h = elim (Bool-cases (is_idle s.handler)) [
  | inr busy ↦ ground (arith, busy, h)
  | inl free ↦ ground (arith, free, h, (access-keeps s.task s.fifo s).3)
]
move-late handler_moves s h = ground (arith, h, (access-keeps s.handler s.fifo s).3)

move-Calm : (m : Move) (s : Shared) → (move m s).late ≡ false → Calm s → Calm (move m s)
unfolding move
move-Calm (send w) s h c = record {
  none_dropped = c.none_dropped;
  task_last = λ t. absurd (ground (arith, h, t));
  handler_last = λ t. absurd (ground (arith, h, t));
}
move-Calm task_moves s h c =
    let k = access-keeps s.task s.fifo s in
    let a = access-calm s.task s.fifo s refl c.task_last in
    let moved : Calm (record (advance s.task s).1 { task = (advance s.task s).0 }) = record {
      none_dropped = a.0 ∙ c.none_dropped;
      task_last = a.1;
      handler_last = λ t. a.2 (c.handler_last (sym (ap is_last k.2) ∙ t));
    } in
    elim (Bool-cases (is_idle s.handler)) [ inl free ↦ rw free moved | inr busy ↦ rw busy c ]
move-Calm handler_moves s h c =
    let k = access-keeps s.handler s.fifo s in
    let a = access-calm s.handler s.fifo s refl c.handler_last in
    record {
      none_dropped = a.0 ∙ c.none_dropped;
      task_last = λ t. a.2 (c.task_last (sym (ap is_last k.1) ∙ t));
      handler_last = a.1;
    }

run-late : (ms : List Move) (s : Shared) → (run ms s).late ≡ false → s.late ≡ false
unfolding run
run-late [] s h = h
run-late (m ∷ ms) s h = move-late m s (run-late ms (move m s) h)

run-Calm : (ms : List Move) (s : Shared) → (run ms s).late ≡ false → Calm s → Calm (run ms s)
unfolding run
run-Calm [] s h c = c
run-Calm (m ∷ ms) s h c = run-Calm ms (move m s) h (move-Calm m s (run-late ms (move m s) h) c)

-- However the sender, the task and the interrupt handler move: of each value, as many words entered the FIFO
-- as were passed on, dropped, are held by a reader, or are in the FIFO. So no word is passed on twice,
-- though both readers take words. Unless a word entered while a reader was before its `last` read,
-- none was dropped.
pub run-exact :
    (v : ℕ) (ms : List Move)
    → let s = run ms at_rest in
      (count v s.entered
        ≡ count v s.passed + count v s.dropped + count v s.fifo + held v s.task + held v s.handler)
      × ((if s.late then [] else s.dropped) ≡ [])
unfolding count
run-exact v ms =
    let s = run ms at_rest in
    let still : Calm at_rest = record {
      none_dropped = refl;
      task_last = λ t. refl;
      handler_last = λ t. refl;
    } in
    (
      run-Accounted v ms at_rest (omega arith),
      elim (Bool-cases s.late) [
        | inl late ↦ rw late refl
        | inr calm ↦ rw calm (run-Calm ms at_rest calm still).none_dropped
      ],
    )
