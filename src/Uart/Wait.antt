-- ===== src/Uart/Wait.antt =====
-- The bounded wait of the serial driver: `timeout` is checked after a look and before a delay, so
-- that a wait with the count `n` looks `n` + 1 times.
use t113_c.Base.{ℕ, zero, suc, ◌≤◌, ◌<◌, ◌≡◌, ◌≢◌, refl, ◌∙◌, Bool, true, false, arith}
use t113_c.Base.{◌∷◌}
use t113_c.Hw.{Device, Trace, answer, load, w8, nops, readb}
use t113_c.Hw.History.{bytes_out, bytes_in}
use t113_c.Delay.{udelay}
use t113_c.Uart.{wait_until}

module _ (dev : Device) (ready : ℕ → Bool) (a : ℕ) where
  -- Whether the register is ready, and one look at it.
  abbrev pub ready_at : Trace → Bool
  ready_at t = ready (answer dev w8 a t)

  abbrev pub look : Trace → Trace
  look t = load w8 a (answer dev w8 a t) ∷ t

  -- The history after `k` looks, each followed by a delay of one microsecond.
  unfoldable pub after_looks : ℕ → Trace → Trace
  after_looks zero t = t
  after_looks (suc k) t = after_looks k (nops 200 ∷ look t)

  -- The first `k` looks find the register not ready.
  abbrev pub NotReady : ℕ → Trace → Type 0
  NotReady k t = (j : ℕ) → j < k → ready_at (after_looks j t) ≡ false

  wait_until-again :
      (left : ℕ) (t : Trace)
      → ready_at t ≡ false
      → wait_until dev ready a (suc left) t ≡ wait_until dev ready a left (nops 200 ∷ look t)
  unfolding wait_until readb udelay
  wait_until-again left t waits = ground (arith, waits)

  wait_until-now :
      (left : ℕ) (t : Trace) → ready_at t ≡ true → wait_until dev ready a left t ≡ (true, look t)
  unfolding wait_until readb
  wait_until-now zero t is_ready = ground (arith, is_ready)
  wait_until-now (suc left) t is_ready = ground (arith, is_ready)

  -- If the look `k` is the first that finds the register ready, and `k` is at most the count, the
  -- wait ends with it.
  pub wait_until-ready :
      (k left : ℕ) (t : Trace)
      → k ≤ left
      → NotReady k t
      → ready_at (after_looks k t) ≡ true
      → wait_until dev ready a left t ≡ (true, look (after_looks k t))
  unfolding after_looks
  wait_until-ready zero left t le waits is_ready = wait_until-now left t is_ready
  wait_until-ready (suc k) zero t le waits is_ready = absurd (omega arith)
  wait_until-ready (suc k) (suc left) t le waits is_ready =
      wait_until-again left t (waits 0 (omega arith))
      ∙ wait_until-ready k left (nops 200 ∷ look t) (omega arith)
          (λ j lt. waits (suc j) (omega arith)) is_ready

  -- If no look up to the count finds it ready, the wait gives up.
  pub wait_until-never :
      (left : ℕ) (t : Trace)
      → NotReady (suc left) t
      → wait_until dev ready a left t ≡ (false, look (after_looks left t))
  unfolding after_looks
  wait_until-never zero t waits = unfold wait_until readb in (ground (arith, waits 0 (omega arith)))
  wait_until-never (suc left) t waits =
      wait_until-again left t (waits 0 (omega arith))
      ∙ wait_until-never left (nops 200 ∷ look t) (λ j lt. waits (suc j) (omega arith))

  -- However it ends, a wait writes no byte, and reads none from another register.
  pub wait_until-bytes_out :
      (b left : ℕ) (t : Trace) → bytes_out b (wait_until dev ready a left t).1 ≡ bytes_out b t
  unfolding wait_until readb udelay bytes_out
  wait_until-bytes_out b zero t = refl
  wait_until-bytes_out b (suc left) t =
      ground (arith, wait_until-bytes_out b left (nops 200 ∷ look t))

  pub wait_until-bytes_in :
      (b left : ℕ) (t : Trace) → b ≢ a → bytes_in b (wait_until dev ready a left t).1 ≡ bytes_in b t
  unfolding wait_until readb udelay bytes_in
  wait_until-bytes_in b zero t ne = ground arith
  wait_until-bytes_in b (suc left) t ne =
      ground (arith, wait_until-bytes_in b left (nops 200 ∷ look t) ne)
