-- ===== src/Plic/Lines.antt =====
-- Enabling or disabling one interrupt line changes that line and its priority, and no other line.
use t113_c.Base.{ℕ, ◌%◌, ◌^◌, ◌<◌, ◌==◌, if◌then◌else◌, ◌≡◌, ◌∷◌, arith}
use t113_c.Base.{true, ◌≢◌, Bool-cases, inl, inr}
use t113_c.Hw.{Device, Trace, readl, writel, store, w32}
use t113_c.Hw.Registers.{IsRegister, bit_at, bit_at-store}
use t113_c.Hw.Bitfield.{set_bit, clear_bit, bit_at-set_bit, bit_at-clear_bit}
use t113_c.Plic.{Plic, enable_reg, priority_reg, plic_toggle, plic_irq_toggle}
use t113_c.Plic.{plic_irq_enable, plic_irq_disable}

-- The enable bit of line `j`.
abbrev pub enabled : Device → Plic → ℕ → Trace → ℕ
enabled dev p j t = bit_at dev (enable_reg p j) (j % 32) t

-- The controller was initialised: `plic_init` leaves these addresses.
pub record IsReady (p : Plic) : Type 0 where
  pub is_present : p.present ≡ true
  pub regs_at : p.regs ≡ 0x10000000
  pub enable_at : p.enable_base ≡ 0x10002000
  pub hart_at : p.hart_base ≡ 0x10200000

plic_toggle-steps :
    (dev : Device) (p : Plic) (i e : ℕ) (t : Trace)
    → (plic_toggle dev p i e t).1 ≡ (
        if e == 0
        then clear_bit dev (enable_reg p i) (i % 32) t
        else set_bit dev (enable_reg p i) (i % 32) t)
unfolding plic_toggle readl writel
plic_toggle-steps dev p i e t = elim (Bool-cases (e == 0)) [ inl off ↦ rw off | inr on ↦ rw on ]

plic_irq_toggle-steps :
    (dev : Device) (p : Plic) (i e : ℕ) (t : Trace)
    → p.present ≡ true
    → (plic_irq_toggle dev p i e t).1
      ≡ (plic_toggle dev p i e (store w32 (priority_reg p i) (e % 2 ^ 32) ∷ t)).1
unfolding plic_irq_toggle writel
plic_irq_toggle-steps dev p i e t h = rw h

module _ (dev : Device) (p : Plic) (i j r : ℕ) where
  pub plic_toggle-enabled :
      (e : ℕ) (t : Trace)
      → IsRegister dev (enable_reg p j) r
      → enabled dev p j (plic_toggle dev p i e t).1
        ≡ (if i == j then (if e == 0 then 0 else 1) else enabled dev p j t)
  plic_toggle-enabled e t reg = ground (
    arith,
    plic_toggle-steps dev p i e t,
    bit_at-set_bit (enable_reg p j) (enable_reg p i) (i % 32) (j % 32) r t reg,
    bit_at-clear_bit (enable_reg p j) (enable_reg p i) (i % 32) (j % 32) r t reg,
  )

  -- The priority register that is written first is no enable register.
  pub plic_irq_toggle-enabled :
      (e : ℕ) (t : Trace)
      → IsReady p
      → i < 1024
      → IsRegister dev (enable_reg p j) r
      → enabled dev p j (plic_irq_toggle dev p i e t).1
        ≡ (if i == j then (if e == 0 then 0 else 1) else enabled dev p j t)
  plic_irq_toggle-enabled e t ready hi reg =
      let t' = store w32 (priority_reg p i) (e % 2 ^ 32) ∷ t in
      let apart : enable_reg p j ≢ priority_reg p i = omega arith in
      ground (
        arith,
        plic_irq_toggle-steps dev p i e t,
        plic_toggle-enabled e t' reg,
        bit_at-store (enable_reg p j) (priority_reg p i) r e (j % 32) t reg,
      )

  -- On an initialised controller whose enable register of line `j` keeps what is written to it,
  -- `plic_irq_enable(i)` sets the enable bit of line `i`, `plic_irq_disable(i)` clears it, and
  -- neither changes the bit of another line `j`, for every `i` below 1024.
  pub plic_irq_enable-disable :
      (t : Trace)
      → IsReady p
      → i < 1024
      → IsRegister dev (enable_reg p j) r
      → (enabled dev p j (plic_irq_enable dev p i t).1 ≡ (if i == j then 1 else enabled dev p j t))
        × (enabled dev p j (plic_irq_disable dev p i t).1
            ≡ (if i == j then 0 else enabled dev p j t))
  unfolding plic_irq_enable plic_irq_disable
  plic_irq_enable-disable t ready hi reg =
      (plic_irq_toggle-enabled 1 t ready hi reg, plic_irq_toggle-enabled 0 t ready hi reg)
