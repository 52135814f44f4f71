-- ===== src/Msgbox/Arrivals.antt =====
-- A receive FIFO that words may enter at any moment, also while `msgbox_poll` runs.
pub mod Sweep
pub mod Loop
pub mod Traffic
pub mod Late
mod Tests
use t113_c.Base.{
  ℕ, zero, suc, ◌+◌, ◌<◌, ◌≤◌, ◌==◌, ltb, if◌then◌else◌, true, false, ◌&&◌, ◌≡◌, ◌≢◌, refl, sym,
  ◌∙◌, arith, List, [], ◌∷◌, length, get_or,
}
use t113_c.Hw.{Event, Device, Trace, load, w32, answer}
use t113_c.Hw.Registers.{bit_at}

-- How many words the reads of the FIFO at `a` have taken, where `arrived` gives the words that had
-- entered at each moment, oldest first. A read of an empty FIFO takes none.
unfoldable pub taken : (Trace → List ℕ) → ℕ → Trace → ℕ
taken arrived a [] = 0
taken arrived a (load w32 b v ∷ t) =
    let n = taken arrived a t in if (a == b) && ltb n (length (arrived t)) then suc n else n
taken arrived a (_ ∷ t) = taken arrived a t

-- The words that had entered stay what they were.
pub record Grown (arrived : Trace → List ℕ) (t u : Trace) : Type 0 where
  pub longer : length (arrived t) ≤ length (arrived u)
  pub same : (k : ℕ) → k < length (arrived t) → get_or (arrived u) k 0 ≡ get_or (arrived t) k 0

pub Grown-refl : (arrived : Trace → List ℕ) (t : Trace) → Grown arrived t t
Grown-refl arrived t = record { longer = omega arith; same = λ k lt. refl }

pub Grown-trans :
    (arrived : Trace → List ℕ) (t u v : Trace)
    → Grown arrived t u
    → Grown arrived u v
    → Grown arrived t v
Grown-trans arrived t u v g h = record {
  longer = omega (arith, g.longer, h.longer);
  same = λ k lt. h.same k (omega (arith, g.longer)) ∙ g.same k lt;
}

-- The FIFO at `fifo` is fed with these words: bit `shift` of the register at `status` is 1 exactly while
-- words are left, and a read gives the oldest one that is left.
pub record IsFed (dev : Device) (status fifo shift : ℕ) (arrived : Trace → List ℕ) : Type 0 where
  pub pending :
      (t : Trace)
      → bit_at dev status shift t
        ≡ (if ltb (taken arrived fifo t) (length (arrived t)) then 1 else 0)
  pub oldest :
      (t : Trace)
      → taken arrived fifo t < length (arrived t)
      → answer dev w32 fifo t ≡ get_or (arrived t) (taken arrived fifo t) 0
  pub grows : (e : Event) (t : Trace) → Grown arrived t (e ∷ t)

pub taken-load_self :
    (arrived : Trace → List ℕ) (a v : ℕ) (t : Trace)
    → taken arrived a (load w32 a v ∷ t) ≡ (
        if ltb (taken arrived a t) (length (arrived t))
        then suc (taken arrived a t)
        else taken arrived a t)
unfolding taken
taken-load_self arrived a v t = ground arith

pub taken-load_ne :
    (arrived : Trace → List ℕ) (a b v : ℕ) (t : Trace)
    → a ≢ b
    → taken arrived a (load w32 b v ∷ t) ≡ taken arrived a t
unfolding taken
taken-load_ne arrived a b v t ne = ground arith
