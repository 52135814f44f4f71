-- ===== src/Msgbox/Arrivals/Loop.antt =====
-- The loop of `msgbox_poll`, while words enter the FIFO.
use t113_c.Base.{
  ℕ, zero, suc, ◌+◌, ◌<◌, ◌≤◌, ltb, false, ◌≡◌, ◌≢◌, refl, sym, ◌∙◌, ap, arith, List, ◌∷◌, length,
  get_or,
}
use mathlib.Core.Path.{subst}
use t113_c.Base.{bit_or, ◌<<<◌, Option, some, inl, inr, Bool-cases, ◌%◌, ◌^◌}
use t113_c.Calls.{Call}
use t113_c.Hw.{Device, Trace, load, store, library, w32, answer, readl, writel}
use t113_c.Hw.Registers.{bit_at}
use t113_c.Msgbox.{
  Msgbox, Driver, account, deliver, status_reg, fifo_reg, rd_irq_shift, reg_bits_set, reg_bits_get,
  msgbox_pending, poll_loop,
}
use t113_c.Msgbox.Fifo.{
  receive, last_look, account-deliver, account-registers, poll_loop-word, poll_loop-none,
}
use t113_c.Msgbox.Arrivals.{taken, IsFed, taken-load_ne}
use t113_c.Msgbox.Arrivals.Sweep.{Swept, grown_four, taken-round, sweep-nil, sweep-cons}

-- The callback makes one call for each word, and does nothing else.
abbrev pub IsCall : (ℕ → Call) → Msgbox → Type 0
IsCall f mb = (w : ℕ) (u : Trace) → deliver mb w u ≡ (tt, library (f w) ∷ u)

module _ (dev : Device) (arrived : Trace → List ℕ) (f : ℕ → Call) where
  -- What one word leaves in the history.
  receive-history :
      (w n : ℕ) (d : Driver) (t : Trace)
      → IsCall f d.mb
      → (x y : ℕ) × (receive dev w (n, d) t ≡ (
        account w (n, d),
        library (f w)
            ∷ store w32 (status_reg d.mb) x
            ∷ load w32 (status_reg d.mb) y
            ∷ load w32 (fifo_reg d.mb) w
            ∷ load w32 (status_reg d.mb) (answer dev w32 (status_reg d.mb) t)
            ∷ t,
      ))
  unfolding receive msgbox_pending reg_bits_get reg_bits_set readl writel
  receive-history w n d t makes =
      let looked = load w32 (status_reg d.mb) (answer dev w32 (status_reg d.mb) t) ∷ t in
      let y = answer dev w32 (status_reg d.mb) (load w32 (fifo_reg d.mb) w ∷ looked) in
      (
        bit_or y (1 <<< rd_irq_shift d.mb.channel) % 2 ^ 32,
        y,
        rw (account-deliver w n d)
            (ap (λ (r : Unit {0} × Trace). (account w (n, d), r.1)) (makes w _)),
      )

  -- The FIFO of a driver.
  abbrev pub FedBy : Driver → Type 0
  FedBy d = IsFed dev (status_reg d.mb) (fifo_reg d.mb) (rd_irq_shift d.mb.channel) arrived

  -- A run that returns, with what it took and passed on.
  abbrev pub Ends : ℕ → ℕ → Trace → Option (ℕ × Driver) × Trace → Type 0
  Ends status fifo t r =
      (s : ℕ × Driver) × (r.0 ≡ some s) × (status_reg s.1.mb ≡ status) × Swept arrived f fifo t r.1

  last_look-history :
      (n : ℕ) (d : Driver) (t : Trace)
      → (x v : ℕ) × ((last_look dev (n, d) t).1
          ≡ load w32 (fifo_reg d.mb) x ∷ load w32 (status_reg d.mb) v ∷ t)
  unfolding last_look msgbox_pending reg_bits_get readl
  last_look-history n d t =
      let v = answer dev w32 (status_reg d.mb) t in
      (answer dev w32 (fifo_reg d.mb) (load w32 (status_reg d.mb) v ∷ t), v, refl)

  poll-empty :
      (fuel n : ℕ) (d : Driver) (t : Trace)
      → FedBy d
      → fifo_reg d.mb ≢ status_reg d.mb
      → taken arrived (fifo_reg d.mb) t ≤ length (arrived t)
      → ltb (taken arrived (fifo_reg d.mb) t) (length (arrived t)) ≡ false
      → Ends (status_reg d.mb) (fifo_reg d.mb) t (poll_loop dev (suc fuel) (n, d) t)
  poll-empty fuel n d t fed apart sound empty =
      let clear : bit_at dev (status_reg d.mb) (rd_irq_shift d.mb.channel) t ≡ 0 =
        fed.pending t ∙ rw empty refl in
      let (x, v, history) = last_look-history n d t in
      let e = poll_loop-none dev n fuel d t clear in
      (
        (n, d),
        ap (λ (r : Option (ℕ × Driver) × Trace). r.0) e,
        refl,
        subst (λ (u : Trace). Swept arrived f (fifo_reg d.mb) t u)
            (sym (ap (λ (r : Option (ℕ × Driver) × Trace). r.1) e ∙ history))
            (sweep-nil arrived f dev (status_reg d.mb) (fifo_reg d.mb) (rd_irq_shift d.mb.channel)
              fed apart t (ground (arith, empty)) sound x v),
      )

  -- The history after a round that took the word `w`.
  abbrev after : Driver → ℕ → ℕ → ℕ → Trace → Trace
  after d w x y t =
      library (f w)
      ∷ store w32 (status_reg d.mb) x
      ∷ load w32 (status_reg d.mb) y
      ∷ load w32 (fifo_reg d.mb) w
      ∷ load w32 (status_reg d.mb) (answer dev w32 (status_reg d.mb) t)
      ∷ t

  -- Such a round takes the oldest word that is left.
  poll-word :
      (fuel n : ℕ) (d : Driver) (t : Trace)
      → FedBy d
      → fifo_reg d.mb ≢ status_reg d.mb
      → IsCall f d.mb
      → taken arrived (fifo_reg d.mb) t < length (arrived t)
      → let t1 = load w32 (status_reg d.mb) (answer dev w32 (status_reg d.mb) t) ∷ t in
        (w x y : ℕ) × (w ≡ get_or (arrived t1) (taken arrived (fifo_reg d.mb) t) 0)
        × (poll_loop dev (suc fuel) (n, d) t
            ≡ poll_loop dev fuel (account w (n, d)) (after d w x y t))
  poll-word fuel n d t fed apart makes left =
      let v = answer dev w32 (status_reg d.mb) t in
      let t1 = load w32 (status_reg d.mb) v ∷ t in
      let w = answer dev w32 (fifo_reg d.mb) t1 in
      let one : bit_at dev (status_reg d.mb) (rd_irq_shift d.mb.channel) t ≡ 1 =
        ground (arith, fed.pending t, left) in
      let (x, y, round) = receive-history w n d t makes in
      let still = taken-load_ne arrived (fifo_reg d.mb) (status_reg d.mb) v t apart in
      let longer = (fed.grows (load w32 (status_reg d.mb) v) t).longer in
      (
        w,
        x,
        y,
        fed.oldest t1 (omega (arith, still, longer, left))
            ∙ ap (λ (k : ℕ). get_or (arrived t1) k 0) still,
        poll_loop-word dev w n fuel d t one refl
            ∙ ap (λ (r : (ℕ × Driver) × Trace). poll_loop dev fuel r.0 r.1) round,
      )

  pub poll_loop-Swept :
      (most fuel n : ℕ) (d : Driver) (t : Trace)
      → ((u : Trace) → length (arrived u) ≤ most)
      → taken arrived (fifo_reg d.mb) t ≤ length (arrived t)
      → most < fuel + taken arrived (fifo_reg d.mb) t
      → FedBy d
      → fifo_reg d.mb ≢ status_reg d.mb
      → IsCall f d.mb
      → Ends (status_reg d.mb) (fifo_reg d.mb) t (poll_loop dev fuel (n, d) t)
  poll_loop-Swept most zero n d t bound sound enough fed apart makes =
      absurd (omega (arith, bound t))
  poll_loop-Swept most (suc fuel) n d t bound sound enough fed apart makes =
      elim (Bool-cases (ltb (taken arrived (fifo_reg d.mb) t) (length (arrived t)))) [
        | inl left ↦
            let v = answer dev w32 (status_reg d.mb) t in
            let shift = rd_irq_shift d.mb.channel in
            let some_left : taken arrived (fifo_reg d.mb) t < length (arrived t) =
              ground (arith, left) in
            let (w, x, y, oldest, e) = poll-word fuel n d t fed apart makes some_left in
            let t1 = load w32 (status_reg d.mb) v ∷ t in
            let t5 = after d w x y t in
            let longer = (fed.grows (load w32 (status_reg d.mb) v) t).longer in
            let five =
              taken-round arrived f dev (status_reg d.mb) (fifo_reg d.mb) shift fed apart w x y v t
                some_left in
            let later =
              grown_four arrived f dev (status_reg d.mb) (fifo_reg d.mb) shift fed apart
                (library (f w)) (store w32 (status_reg d.mb) x) (load w32 (status_reg d.mb) y)
                (load w32 (fifo_reg d.mb) w) t1 in
            let same = account-registers w n d in
            let rest =
              poll_loop-Swept most fuel (account w (n, d)).0 (account w (n, d)).1 t5 bound
                (rw same.1 (omega (arith, five, some_left, longer, later.longer)))
                (rw same.1 (omega (arith, five, enough))) (rw (same.0, same.1, same.2) fed)
                (rw (same.0, same.1) apart) (rw (account-deliver w n d) makes) in
            let (s, returned, at, swept) =
              subst
                (λ (a : ℕ). Ends (status_reg d.mb) a t5 (poll_loop dev fuel (account w (n, d)) t5))
                same.1
                (subst
                  (λ (a : ℕ).
                    Ends a (fifo_reg (account w (n, d)).1.mb) t5
                      (poll_loop dev fuel (account w (n, d)) t5))
                  same.0 rest) in
            subst (λ (r : Option (ℕ × Driver) × Trace). Ends (status_reg d.mb) (fifo_reg d.mb) t r)
              (sym e)
              (
                s,
                returned,
                at,
                sweep-cons arrived f dev (status_reg d.mb) (fifo_reg d.mb) shift fed apart w x y v t
                    (poll_loop dev fuel (account w (n, d)) t5).1 some_left oldest swept,
              )
        | inr empty ↦ poll-empty fuel n d t fed apart sound empty
      ]
