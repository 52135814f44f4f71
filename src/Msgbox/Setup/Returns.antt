-- ===== src/Msgbox/Setup/Returns.antt =====
-- `msgbox_init` returns where the receive FIFO holds fewer words than there is fuel.
use t113_c.Base.{
  zero, suc, ℕ, ◌==◌, ◌%◌, ◌^◌, ◌<◌, Bool, true, false, ◌≡◌, ◌≢◌, refl, ◌∙◌, ap, arith, List, [],
}
use t113_c.Base.{Option, none, some, length, pos, is_negative}
use t113_c.Base.Bits.{digit, digit-zero}
use t113_c.Hw.{Width, w32, answer, Device, Trace}
use t113_c.Irq.{Irq}
use t113_c.Msgbox.{
  Msgbox, Driver, RxCallback, msgbox_poll, deliver, rd_irq_shift, status_reg, fifo_reg,
}
use t113_c.Msgbox.Fifo.{Holds, LeavesFifo, msgbox_poll-receive_all}
use t113_c.Msgbox.Setup.{Polled, after_poll, finish_init, prepare_local, msgbox_init}
use t113_c.Msgbox.Setup.{fresh_mailbox, restore_cb, coef}

abbrev pub is_some : Polled → Bool
is_some none = false
is_some (some d) = true

-- The mailbox of the core `i` towards the core `j`, with its callback taken out.
abbrev muted : ℕ → ℕ → ℕ → ℕ → Msgbox
muted i j channel priv = fresh_mailbox i j channel none priv

-- At every moment its receive FIFO holds fewer than `fuel` words.
abbrev pub Bounded : Device → ℕ → ℕ → ℕ → ℕ → ℕ → Type 0
Bounded dev fuel i j channel priv =
    (u : Trace)
    → (words : List ℕ) × (length words < fuel) × Holds dev (muted i j channel priv) words u

pub muted-apart :
    (i j channel priv : ℕ)
    → i < 3
    → j < 3
    → (i == j) ≡ false
    → channel < 4
    → status_reg (muted i j channel priv) ≢ fifo_reg (muted i j channel priv)
unfolding status_reg fifo_reg fresh_mailbox coef
muted-apart zero zero channel priv hi hj ne hc = absurd (ground (arith, ne))
muted-apart zero (suc zero) channel priv hi hj ne hc = omega arith
muted-apart zero (suc (suc zero)) channel priv hi hj ne hc = omega arith
muted-apart (suc zero) zero channel priv hi hj ne hc = omega arith
muted-apart (suc zero) (suc zero) channel priv hi hj ne hc = absurd (ground (arith, ne))
muted-apart (suc zero) (suc (suc zero)) channel priv hi hj ne hc = omega arith
muted-apart (suc (suc zero)) zero channel priv hi hj ne hc = omega arith
muted-apart (suc (suc zero)) (suc zero) channel priv hi hj ne hc = omega arith
muted-apart (suc (suc zero)) (suc (suc zero)) channel priv hi hj ne hc = absurd (ground (arith, ne))
muted-apart i (suc (suc (suc j))) channel priv hi hj ne hc = absurd (omega arith)
muted-apart (suc (suc (suc i))) j channel priv hi hj ne hc = absurd (omega arith)

muted-leaves : (i j channel priv : ℕ) → LeavesFifo (muted i j channel priv)
unfolding deliver fresh_mailbox
muted-leaves i j channel priv w u = refl

module _ (dev : Device) (fuel task_handle address i j channel priv : ℕ) (irq : Irq Polled)
    (apart : status_reg (muted i j channel priv) ≢ fifo_reg (muted i j channel priv))
    (bounded : Bounded dev fuel i j channel priv) where
  quick_poll :
      (v r : ℕ) (t : Trace)
      → is_some
          (msgbox_poll dev fuel
            (record { mb = muted i j channel priv; last_vqid = v; repeat = r })
            t).0
        ≡ true
  quick_poll v r t =
      let (words, short, holds) = bounded t in
      let d : Driver = record { mb = muted i j channel priv; last_vqid = v; repeat = r } in
      ap (λ (x : Polled × Trace). is_some x.0)
        (msgbox_poll-receive_all dev words fuel d t short apart (muted-leaves i j channel priv)
          holds)

  -- The code that `msgbox_init` returns after a poll that has ended, and its driver.
  after_poll-returns :
      (cb : Option RxCallback) (p : Polled) (t : Trace)
      → is_some p ≡ true
      → let r = after_poll dev fuel task_handle address (restore_cb cb p) irq t in
        (r.0 ≡ some (pos 0)) × (is_some r.1 ≡ true)
  unfolding after_poll restore_cb finish_init
  after_poll-returns cb none t e = absurd (ground (arith, e))
  after_poll-returns cb (some d) t e = (refl, refl)

  pub msgbox_init-returns :
      (cb : Option RxCallback) (d : Driver) (t : Trace)
      → (address == 0) ≡ false
      → is_negative (coef i j) ≡ false
      → is_negative (coef j i) ≡ false
      → let r = msgbox_init dev fuel task_handle address i j channel cb priv d irq t in
        (r.0 ≡ some (pos 0)) × (is_some r.1 ≡ true)
  unfolding msgbox_init prepare_local fresh_mailbox
  msgbox_init-returns cb d t there out back =
      let poll : (u : Trace)
          → is_some
              (msgbox_poll dev fuel
                (record { mb = muted i j channel priv; last_vqid = d.last_vqid; repeat = d.repeat })
                u).0
            ≡ true =
        λ u. quick_poll d.last_vqid d.repeat u in
      grind (arith, poll, after_poll-returns)

-- A FIFO that stays empty is one.
pub empty_fifo-Bounded :
    (dev : Device) (fuel i j channel priv : ℕ)
    → 0 < fuel
    → ((t : Trace) (w : Width) (a : ℕ) → dev.bus t w a ≡ 0)
    → Bounded dev fuel i j channel priv
unfolding fresh_mailbox
empty_fifo-Bounded dev fuel i j channel priv some_fuel still u = (
  [],
  some_fuel,
  record {
    status = λ k v e.
        let none_set : answer dev w32 (status_reg (muted i j channel priv)) v ≡ 0 =
          ap (λ (x : ℕ). x % 2 ^ 32) (still v w32 (status_reg (muted i j channel priv))) in
        ap (λ (x : ℕ). digit x (rd_irq_shift channel)) none_set
        ∙ ground (arith, digit-zero (rd_irq_shift channel));
    oldest = λ k v e lt. absurd (omega arith);
  },
)
