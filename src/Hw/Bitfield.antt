-- ===== src/Hw/Bitfield.antt =====
-- Read-modify-write of one bit of a register.
use t113_c.Base.{ℕ, ◌%◌, ◌^◌, ◌<◌, ◌==◌, if◌then◌else◌, ◌&&◌, ◌≡◌, ◌∷◌, arith}
use t113_c.Base.{bit_and, bit_or, ◌<<<◌, ◌>>>◌, complement, not}
use t113_c.Base.Bits.{digit, digit-lt, digit-set_bit, digit-clear_bit, shr-digit}
use t113_c.Hw.{Device, Trace, answer, load, store, w32}
use t113_c.Hw.Registers.{IsRegister, bit_at, bit_at-store, bit_at-load}

-- The history after `v = readl(c); writel(v | (1 << b), c)`.
abbrev pub set_bit : Device → ℕ → ℕ → Trace → Trace
set_bit dev c b t =
    let v = answer dev w32 c t in store w32 c (bit_or v (1 <<< b) % 2 ^ 32) ∷ load w32 c v ∷ t

-- The history after `v = readl(c); writel(v & ~(1 << b), c)`.
abbrev pub clear_bit : Device → ℕ → ℕ → Trace → Trace
clear_bit dev c b t =
    let v = answer dev w32 c t in
    store w32 c (bit_and v (complement 32 (1 <<< b)) % 2 ^ 32) ∷ load w32 c v ∷ t

module _ {dev : Device} (a c b i r : ℕ) (t : Trace) (reg : IsRegister dev a r) (h : i < 32) where
  pub bit_at-set_bit :
      bit_at dev a i (set_bit dev c b t) ≡ (if a == c && i == b then 1 else bit_at dev a i t)
  bit_at-set_bit =
      let v = answer dev w32 c t in
      ground (
        arith,
        bit_at-store a c r (bit_or v (1 <<< b)) i (load w32 c v ∷ t) reg h,
        bit_at-load a r i w32 c v t reg,
        digit-set_bit v b i,
      )

  pub bit_at-clear_bit :
      b < 32
      → bit_at dev a i (clear_bit dev c b t) ≡ (if a == c && i == b then 0 else bit_at dev a i t)
  bit_at-clear_bit hb =
      let v = answer dev w32 c t in
      ground (
        arith,
        bit_at-store a c r (bit_and v (complement 32 (1 <<< b))) i (load w32 c v ∷ t) reg h,
        bit_at-load a r i w32 c v t reg,
        digit-clear_bit 32 v b i hb h,
      )

-- `((v >> i) & 1)` is zero exactly when digit `i` is.
pub bit_get-test : (v i : ℕ) → (bit_and (v >>> i) 1 == 0) ≡ not (digit v i == 1)
bit_get-test v i = ground (arith, shr-digit i v, digit-lt v i)
