-- ===== src/Msgbox/Race/Code/Held.antt =====
-- The words of a FIFO that is fed, as the finer model holds them.
use t113_c.Base.{
  ℕ, zero, suc, ◌<◌, ◌≤◌, ◌≡◌, refl, sym, ◌∙◌, ap, ap₂, arith, List, [], ◌∷◌, ◌++◌, length, get_or,
}
use mathlib.Core.List.{append_assoc, append-nil}
use t113_c.Msgbox.Race.{Shared, Move, send, move, run}

unfoldable pub drop : ℕ → List ℕ → List ℕ
drop zero xs = xs
drop (suc n) [] = []
drop (suc n) (x ∷ xs) = drop n xs

unfoldable pub reversed_onto : List ℕ → List ℕ → List ℕ
reversed_onto [] ys = ys
reversed_onto (x ∷ xs) ys = reversed_onto xs (x ∷ ys)

pub drop-append : (n : ℕ) (xs ys : List ℕ) → n ≤ length xs → drop n (xs ++ ys) ≡ drop n xs ++ ys
unfolding drop
drop-append zero xs ys le = refl
drop-append (suc n) [] ys le = absurd (omega arith)
drop-append (suc n) (x ∷ xs) ys le = drop-append n xs ys (omega arith)

pub drop-all : (n : ℕ) (xs : List ℕ) → length xs ≤ n → drop n xs ≡ []
unfolding drop
drop-all zero [] le = refl
drop-all zero (x ∷ xs) le = absurd (omega arith)
drop-all (suc n) [] le = refl
drop-all (suc n) (x ∷ xs) le = drop-all n xs (omega arith)

pub drop-cons : (n : ℕ) (xs : List ℕ) → n < length xs → drop n xs ≡ get_or xs n 0 ∷ drop (suc n) xs
unfolding drop
drop-cons n [] lt = absurd (omega arith)
drop-cons zero (x ∷ xs) lt = refl
drop-cons (suc n) (x ∷ xs) lt = drop-cons n xs (omega arith)

pub reversed_onto-append :
    (xs ys zs : List ℕ) → reversed_onto (xs ++ ys) zs ≡ reversed_onto ys (reversed_onto xs zs)
unfolding reversed_onto
reversed_onto-append [] ys zs = refl
reversed_onto-append (x ∷ xs) ys zs = reversed_onto-append xs ys (x ∷ zs)

-- A list that begins with another.
pub grown-append :
    (xs ys : List ℕ)
    → length xs ≤ length ys
    → ((k : ℕ) → k < length xs → get_or ys k 0 ≡ get_or xs k 0)
    → ys ≡ xs ++ drop (length xs) ys
unfolding drop
grown-append [] ys le same = refl
grown-append (x ∷ xs) [] le same = absurd (omega arith)
grown-append (x ∷ xs) (y ∷ ys) le same =
    ap₂ (λ (a : ℕ) (l : List ℕ). a ∷ l) (same 0 (omega arith))
      (grown-append xs ys (omega arith) (λ k lt. same (suc k) (omega arith)))

unfoldable pub sends : List ℕ → List Move
sends [] = []
sends (w ∷ ws) = send w ∷ sends ws

-- What the sender does not touch.
pub record SameReaders (s s' : Shared) : Type 0 where
  pub task : s'.task ≡ s.task
  pub handler : s'.handler ≡ s.handler
  pub passed : s'.passed ≡ s.passed
  pub strays : s'.strays ≡ s.strays

pub run-sends :
    (ws : List ℕ) (s : Shared)
    → let s' = run (sends ws) s in
      SameReaders s s' × (s'.fifo ≡ s.fifo ++ ws) × (s'.entered ≡ reversed_onto ws s.entered)
unfolding run move sends reversed_onto
run-sends [] s = (
  record { task = refl; handler = refl; passed = refl; strays = refl },
  sym (append-nil s.fifo),
  refl,
)
run-sends (w ∷ ws) s =
    let (same, fifo, entered) = run-sends ws (move (send w) s) in
    (
      record {
        task = same.task;
        handler = same.handler;
        passed = same.passed;
        strays = same.strays;
      },
      fifo ∙ append_assoc s.fifo (w ∷ []) ws,
      entered,
    )

pub run-append : (ms ns : List Move) (s : Shared) → run (ms ++ ns) s ≡ run ns (run ms s)
unfolding run
run-append [] ns s = refl
run-append (m ∷ ms) ns s = run-append ms ns (move m s)

-- The FIFO of `s` holds the words after the first `k` of `arrived`, and those after the first `start` have
-- entered it.
pub record Holding (start k : ℕ) (arrived : List ℕ) (s : Shared) : Type 0 where
  pub fifo : s.fifo ≡ drop k arrived
  pub entered : s.entered ≡ reversed_onto (drop start arrived) []
  pub taken : k ≤ length arrived
  pub started : start ≤ length arrived

-- More words arrive: the sender makes a move for each.
pub Holding-sends :
    (start k : ℕ) (xs ys : List ℕ) (s : Shared)
    → length xs ≤ length ys
    → ((i : ℕ) → i < length xs → get_or ys i 0 ≡ get_or xs i 0)
    → Holding start k xs s
    → Holding start k ys (run (sends (drop (length xs) ys)) s)
Holding-sends start k xs ys s longer same h =
    let new = drop (length xs) ys in
    let whole = grown-append xs ys longer same in
    let (readers, fifo, entered) = run-sends new s in
    record {
      fifo =
          fifo
          ∙ ap (λ (l : List ℕ). l ++ new) h.fifo
          ∙ sym (drop-append k xs new h.taken)
          ∙ ap (drop k) (sym whole);
      entered =
          entered
          ∙ ap (reversed_onto new) h.entered
          ∙ sym (reversed_onto-append (drop start xs) new [])
          ∙ ap (λ (l : List ℕ). reversed_onto l []) (sym (drop-append start xs new h.started))
          ∙ ap (λ (l : List ℕ). reversed_onto (drop start l) []) (sym whole);
      taken = omega (arith, h.taken, longer);
      started = omega (arith, h.started, longer);
    }
