-- ===== src/Msgbox/Arrivals/Sweep.antt =====
-- What a run of a reader takes from the FIFO and passes on.
use t113_c.Base.{
  ℕ, zero, suc, ◌+◌, ◌<◌, ◌≤◌, ◌≡◌, ◌≢◌, refl, sym, ◌∙◌, ap, arith, List, [], ◌∷◌, length, get_or,
}
use t113_c.Calls.{Call}
use t113_c.Hw.{Event, Device, Trace, load, store, library, w32}
use t113_c.Hw.History.{called}
use t113_c.Msgbox.Notify.{calls_for}
use t113_c.Msgbox.Arrivals.{taken, Grown, Grown-trans, IsFed, taken-load_self, taken-load_ne}

-- A word before others that stand in `xs` from the next place on.
cons_in_order :
    (w n : ℕ) (ws xs : List ℕ)
    → w ≡ get_or xs n 0
    → ((k : ℕ) → k < length ws → get_or ws k 0 ≡ get_or xs (suc n + k) 0)
    → (k : ℕ) → k < length (w ∷ ws)
    → get_or (w ∷ ws) k 0 ≡ get_or xs (n + k) 0
cons_in_order w n ws xs first rest zero lt = first ∙ ap (λ (i : ℕ). get_or xs i 0) (omega arith)
cons_in_order w n ws xs first rest (suc k) lt =
    rest k (omega arith) ∙ ap (λ (i : ℕ). get_or xs i 0) (omega arith)

module _ (arrived : Trace → List ℕ) (f : ℕ → Call) where
  -- From the history `t` to `u` these words were taken and passed on: all that had entered before `t`,
  -- and, besides them, at most one was taken.
  pub record Swept (fifo : ℕ) (t u : Trace) : Type 0 where
    pub words : List ℕ
    pub calls : called u ≡ calls_for f words (called t)
    pub in_order :
        (k : ℕ)
        → k < length words
        → get_or words k 0 ≡ get_or (arrived u) (taken arrived fifo t + k) 0
    pub all_before : length (arrived t) ≤ taken arrived fifo t + length words
    pub entered : taken arrived fifo t + length words ≤ length (arrived u)
    pub at_least : taken arrived fifo t + length words ≤ taken arrived fifo u
    pub at_most : taken arrived fifo u ≤ suc (taken arrived fifo t + length words)
    pub grown : Grown arrived t u

  module _ (dev : Device) (status fifo shift : ℕ) (fed : IsFed dev status fifo shift arrived)
      (apart : fifo ≢ status) where
    -- A look that finds nothing, and the read after it.
    pub sweep-nil :
        (t : Trace)
        → length (arrived t) ≤ taken arrived fifo t
        → taken arrived fifo t ≤ length (arrived t)
        → (x v : ℕ) → Swept fifo t (load w32 fifo x ∷ load w32 status v ∷ t)
    unfolding called
    sweep-nil t none_left sound x v =
        let t1 = load w32 status v ∷ t in
        record {
          words = [];
          calls = refl;
          in_order = λ k lt. absurd (omega arith);
          all_before = omega (arith, none_left);
          entered = omega (
            arith,
            sound,
            (fed.grows (load w32 status v) t).longer,
            (fed.grows (load w32 fifo x) t1).longer,
          );
          at_least = ground (
            arith,
            taken-load_self arrived fifo x t1,
            taken-load_ne arrived fifo status v t apart,
          );
          at_most = ground (
            arith,
            taken-load_self arrived fifo x t1,
            taken-load_ne arrived fifo status v t apart,
          );
          grown = Grown-trans arrived t t1 _ (fed.grows _ t) (fed.grows _ t1);
        }

    pub grown_four : (a b c e : Event) (t : Trace) → Grown arrived t (a ∷ b ∷ c ∷ e ∷ t)
    grown_four a b c e t =
        Grown-trans arrived t (c ∷ e ∷ t) _
          (Grown-trans arrived t (e ∷ t) _ (fed.grows e t) (fed.grows c (e ∷ t)))
          (Grown-trans arrived (c ∷ e ∷ t) (b ∷ c ∷ e ∷ t) _ (fed.grows b _) (fed.grows a _))

    pub taken-round :
        (w x y v : ℕ) (t : Trace)
        → let t1 = load w32 status v ∷ t in
          taken arrived fifo t < length (arrived t)
          → taken arrived fifo
              (library (f w) ∷ store w32 status x ∷ load w32 status y ∷ load w32 fifo w ∷ t1)
            ≡ suc (taken arrived fifo t)
    unfolding taken
    taken-round w x y v t left =
        ground (arith, apart, left, (fed.grows (load w32 status v) t).longer)

    -- One word, and the rest.
    pub sweep-cons :
        (w x y v : ℕ) (t u : Trace)
        → let t1 = load w32 status v ∷ t in
          let t5 = library (f w) ∷ store w32 status x ∷ load w32 status y ∷ load w32 fifo w ∷ t1 in
          taken arrived fifo t < length (arrived t)
          → w ≡ get_or (arrived t1) (taken arrived fifo t) 0
          → Swept fifo t5 u
          → Swept fifo t u
    unfolding called
    sweep-cons w x y v t u left oldest rest =
        let t1 = load w32 status v ∷ t in
        let n = taken arrived fifo t in
        let five = taken-round w x y v t left in
        let first = fed.grows (load w32 status v) t in
        let later = Grown-trans arrived t1 _ u (grown_four _ _ _ _ t1) rest.grown in
        let whole = Grown-trans arrived t t1 u first later in
        record {
          words = w ∷ rest.words;
          calls = rest.calls;
          in_order =
              cons_in_order w n rest.words (arrived u)
                (oldest ∙ sym (later.same n (omega (arith, left, first.longer))))
                (λ k lt. rest.in_order k lt ∙ ap (λ (i : ℕ). get_or (arrived u) (i + k) 0) five);
          all_before = omega (
            arith,
            rest.all_before,
            five,
            (grown_four (library (f w)) (store w32 status x) (load w32 status y) (load w32 fifo w)
                t1).longer,
            first.longer,
          );
          entered = omega (arith, rest.entered, five);
          at_least = omega (arith, rest.at_least, five);
          at_most = omega (arith, rest.at_most, five);
          grown = whole;
        }
