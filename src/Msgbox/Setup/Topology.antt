-- ===== src/Msgbox/Setup/Topology.antt =====
-- Which cores can talk, and what `msgbox_init` registers.
use t113_c.Base.{ℕ, zero, suc, ◌<◌, ◌==◌, if◌then◌else◌, true, false, ◌||◌, ◌≡◌, refl}
use t113_c.Base.{arith, ◌∷◌, ◌∙◌, Option, some, pos, negsuc, is_negative, Bool-cases, inl, inr}
use t113_c.Hw.{Device, Trace, log, info, error}
use t113_c.Irq.{Irq}
use t113_c.Msgbox.{Driver, RxCallback}
use t113_c.Msgbox.Setup.{Polled, coef, fresh_mailbox, msgbox_init}
use t113_c.Msgbox.Setup.Returns.{Bounded, msgbox_init-returns, muted-apart}

-- A box has a number exactly where two cores differ, and two peers of one core use two boxes.
coef_table_lem : (i j : ℕ) → i < 3 → j < 3 → is_negative (coef i j) ≡ (i == j)
unfolding coef
coef_table_lem zero zero hi hj = refl
coef_table_lem zero (suc zero) hi hj = refl
coef_table_lem zero (suc (suc zero)) hi hj = refl
coef_table_lem (suc zero) zero hi hj = refl
coef_table_lem (suc zero) (suc zero) hi hj = refl
coef_table_lem (suc zero) (suc (suc zero)) hi hj = refl
coef_table_lem (suc (suc zero)) zero hi hj = refl
coef_table_lem (suc (suc zero)) (suc zero) hi hj = refl
coef_table_lem (suc (suc zero)) (suc (suc zero)) hi hj = refl
coef_table_lem i (suc (suc (suc j))) hi hj = absurd (omega arith)
coef_table_lem (suc (suc (suc i))) j hi hj = absurd (omega arith)

-- The log of a refused `msgbox_init`.
abbrev pub refusal : ℕ → Trace → Trace
refusal address t =
    if address == 0
    then t
    else log error "init failed: local_n=%d remote_n=%d"
      ∷ log info "init: local=%d remote=%d channel=%d"
      ∷ t

module _ (dev : Device) (fuel task_handle address i j channel : ℕ) (cb : Option RxCallback)
    (priv : ℕ) (d : Driver) (irq : Irq Polled) (t : Trace) where
  init-go :
      (address == 0 || i == j) ≡ false
      → i < 3
      → j < 3
      → channel < 4
      → Bounded dev fuel i j channel priv
      → (msgbox_init dev fuel task_handle address i j channel cb priv d irq t).0 ≡ some (pos 0)
  init-go good hi hj hc bounded =
      let there : (address == 0) ≡ false = ground (arith, good) in
      let differ : (i == j) ≡ false = ground (arith, good, there) in
      let back : is_negative (coef j i) ≡ false =
        coef_table_lem j i hj hi ∙ ground (arith, differ) in
      (msgbox_init-returns dev fuel task_handle address i j channel priv irq
        (muted-apart i j channel priv hi hj differ hc) bounded cb d t there
        (coef_table_lem i j hi hj ∙ differ) back).0

  init-refused :
      (address == 0 || i == j) ≡ true
      → i < 3
      → j < 3
      → let (z, _, irq', t') =
          msgbox_init dev fuel task_handle address i j channel cb priv d irq t in
        (z ≡ some (negsuc 0)) × (irq' ≡ irq) × (t' ≡ refusal address t)
  unfolding msgbox_init fresh_mailbox
  init-refused bad hi hj = ground (arith, coef_table_lem i j hi hj, coef_table_lem j i hj hi)

  -- For cores 0 to 2, `msgbox_init` returns -1 exactly if the mailbox is NULL or a core is to talk to
  -- itself, and then it has registered no handler and touched no register. Otherwise, on a channel
  -- below 4 and with a receive FIFO that at every moment holds fewer words than there is fuel, the
  -- initial poll ends and it returns 0.
  pub msgbox_init-code :
      i < 3
      → j < 3
      → ((address == 0 || i == j) ≡ false → (channel < 4) × Bounded dev fuel i j channel priv)
      → let (z, _, irq', t') =
          msgbox_init dev fuel task_handle address i j channel cb priv d irq t in
        let refused = address == 0 || i == j in
        (z ≡ some (if refused then negsuc 0 else pos 0))
        × ((if refused then irq' else irq) ≡ irq)
        × ((if refused then t' else refusal address t) ≡ refusal address t)
  msgbox_init-code hi hj bounds = elim (Bool-cases (address == 0 || i == j)) [
    | inl bad ↦ let r = init-refused bad hi hj in rw bad r
    | inr good ↦
        let (hc, bounded) = bounds good in rw good (init-go good hi hj hc bounded, refl, refl)
  ]
