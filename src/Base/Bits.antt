-- ===== src/Base/Bits.antt =====
-- The binary digits of `|`, `&`, `~` and `1 << b`, at every width.
mod Step
use Step.{or-halves, and-halves}
pub use Step.{bit_and-zero}
use native.Mathlib.Nat.{pow-suc, pow-succ', one-le-pow, div-div-eq-div-mul}
use native.Mathlib.Nat.{mod-lt, mod-eq_of_lt, div-add-mod, mul-add-mod_self_left}
use t113_c.Base.Tests.{◌==◌, if◌then◌else◌}
use t113_c.Base.Word.{◌<<<◌, ◌>>>◌, complement}
use Prim.Native.Nat.{ℕ, zero, suc, ◌+◌, ◌-◌, ◌*◌, ◌/◌, ◌%◌, ◌^◌, ◌≤◌, ◌<◌, min, max}
use Prim.Native.Nat.{bit_and, bit_or}
use mathlib.Core.Path.{◌≡◌, refl, ◌∙◌, ap, sym}
use mathlib.Core.Logic.{◌⊎◌, inl, inr}
use native.Mathlib.Decide.{dec_lt}
use native.Mathlib.Omega.{arith}

-- Digit `i` of `x`.
unfoldable pub digit : ℕ → ℕ → ℕ
digit x zero = x % 2
digit x (suc i) = digit (x / 2) i

pub digit-lt : (x i : ℕ) → digit x i < 2
unfolding digit
digit-lt x zero = omega arith
digit-lt x (suc i) = digit-lt (x / 2) i

pub digit-bit_or : (a b i : ℕ) → digit (bit_or a b) i ≡ max (digit a i) (digit b i)
unfolding digit
digit-bit_or a b zero = omega (arith, or-halves a b)
digit-bit_or a b (suc i) =
    let e : bit_or a b / 2 ≡ bit_or (a / 2) (b / 2) = omega (arith, or-halves a b) in
    rw e (digit-bit_or (a / 2) (b / 2) i)

pub digit-bit_and : (a b i : ℕ) → digit (bit_and a b) i ≡ min (digit a i) (digit b i)
unfolding digit
digit-bit_and a b zero = omega (arith, and-halves a b)
digit-bit_and a b (suc i) =
    let e : bit_and a b / 2 ≡ bit_and (a / 2) (b / 2) = omega (arith, and-halves a b) in
    rw e (digit-bit_and (a / 2) (b / 2) i)

pub digit-zero : (i : ℕ) → digit 0 i ≡ 0
unfolding digit
digit-zero zero = refl
digit-zero (suc i) = digit-zero i

-- `1 << b` has the digit `b` and no other.
pub digit-shl_one : (b i : ℕ) → digit (1 <<< b) i ≡ (if i == b then 1 else 0)
unfolding digit
digit-shl_one zero zero = refl
digit-shl_one zero (suc i) = ground (arith, digit-zero i)
digit-shl_one (suc b) zero = ground (arith, pow-suc 2 b)
digit-shl_one (suc b) (suc i) =
    let e : 1 * 2 ^ suc b / 2 ≡ 1 * 2 ^ b = omega (arith, pow-suc 2 b) in
    ground (arith, ap (λ (t : ℕ). digit t i) e, digit-shl_one b i)

-- `~x` flips each digit below the width.
pub digit-complement : (w x i : ℕ) → x < 2 ^ w → i < w → digit (complement w x) i ≡ 1 - digit x i
unfolding digit
digit-complement zero x i fits h = absurd (omega arith)
digit-complement (suc w) x zero fits h = omega (arith, pow-suc 2 w)
digit-complement (suc w) x (suc i) fits h =
    let half : (2 ^ suc w - 1 - x) / 2 ≡ 2 ^ w - 1 - x / 2 = omega (arith, pow-suc 2 w) in
    ap (λ (t : ℕ). digit t i) half
    ∙ digit-complement w (x / 2) i (omega (arith, pow-suc 2 w)) (omega arith)

-- `(x >> i) & 1` is the digit.
pub bit_and-one : (x : ℕ) → bit_and x 1 ≡ x % 2
bit_and-one x = ground (arith, bit_and-zero (x / 2), and-halves x 1)

pub shr-digit : (i x : ℕ) → bit_and (x >>> i) 1 ≡ digit x i
unfolding digit
shr-digit zero x = bit_and-one (x / 2 ^ 0) ∙ omega arith
shr-digit (suc i) x =
    let e : x / 2 ^ suc i ≡ x / 2 / 2 ^ i =
      ap (λ (t : ℕ). x / t) (pow-succ' 2 i) ∙ sym (div-div-eq-div-mul x 2 (2 ^ i)) in
    rw e (shr-digit i (x / 2))

two-pow_mono : (b w : ℕ) → b < w → 2 ^ b < 2 ^ w
two-pow_mono zero zero h = absurd (omega arith)
two-pow_mono zero (suc w) h = omega (arith, pow-suc 2 w, one-le-pow w 2)
two-pow_mono (suc b) zero h = absurd (omega arith)
two-pow_mono (suc b) (suc w) h =
    omega (arith, pow-suc 2 w, pow-suc 2 b, two-pow_mono b w (omega arith))

-- `v |= 1 << b` sets digit `b` and keeps the others.
pub digit-set_bit : (v b i : ℕ) → digit (bit_or v (1 <<< b)) i ≡ (if i == b then 1 else digit v i)
digit-set_bit v b i = ground (arith, digit-bit_or v (1 <<< b) i, digit-shl_one b i, digit-lt v i)

-- `v &= ~(1 << b)` clears digit `b` and keeps the others below the width.
pub digit-clear_bit :
    (w v b i : ℕ)
    → b < w
    → i < w
    → digit (bit_and v (complement w (1 <<< b))) i ≡ (if i == b then 0 else digit v i)
digit-clear_bit w v b i hb hi = ground (
  arith,
  digit-bit_and v (complement w (1 <<< b)) i,
  digit-complement w (1 <<< b) i (omega (arith, two-pow_mono b w hb)) hi,
  digit-shl_one b i,
  digit-lt v i,
)

-- Halving a remainder by an even number.
mod-halves : (p x : ℕ) → 0 < p → (x % (p * 2) % 2 ≡ x % 2) × (x % (p * 2) / 2 ≡ x / 2 % p)
mod-halves p x h =
    let q = x / (p * 2) in
    let r = x % (p * 2) in
    let split : p * 2 * q + r ≡ x = div-add-mod x (p * 2) in
    let below : r < p * 2 = mod-lt x (omega arith) in
    let half : x / 2 ≡ p * q + r / 2 = omega arith in
    (
      omega arith,
      sym (
          ap (λ (t : ℕ). t % p) half
          ∙ mul-add-mod_self_left p q (r / 2)
          ∙ mod-eq_of_lt {n = r / 2} {m = p} (omega arith)),
    )

-- A cast to `w` bits keeps the digits below `w`.
pub digit-mod : (w x i : ℕ) → i < w → digit (x % 2 ^ w) i ≡ digit x i
unfolding digit
digit-mod zero x i h = absurd (omega arith)
digit-mod (suc w) x zero h =
    rw (pow-suc 2 w) (mod-halves (2 ^ w) x (one-le-pow w 2 (omega arith))).0
digit-mod (suc w) x (suc i) h =
    let e : x % 2 ^ suc w / 2 ≡ x / 2 % 2 ^ w =
      rw (pow-suc 2 w) (mod-halves (2 ^ w) x (one-le-pow w 2 (omega arith))).1 in
    ap (λ (t : ℕ). digit t i) e ∙ digit-mod w (x / 2) i (omega arith)

pub bit_and-shl_one : (v b : ℕ) → bit_and v (1 <<< b) ≡ digit v b * 2 ^ b
unfolding digit
bit_and-shl_one v zero = omega (arith, bit_and-one v)
bit_and-shl_one v (suc b) =
    let even : 1 * 2 ^ suc b % 2 ≡ 0 = omega (arith, pow-suc 2 b) in
    let half : 1 * 2 ^ suc b / 2 ≡ 1 * 2 ^ b = omega (arith, pow-suc 2 b) in
    let ih : bit_and (v / 2) (1 * 2 ^ suc b / 2) ≡ digit (v / 2) b * 2 ^ b =
      rw half (bit_and-shl_one (v / 2) b) in
    let twice : digit (v / 2) b * 2 ^ suc b ≡ 2 * (digit (v / 2) b * 2 ^ b) =
      omega (arith, ap (λ (n : ℕ). digit (v / 2) b * n) (pow-suc 2 b)) in
    omega (arith, and-halves v (1 * 2 ^ suc b))

-- So it is zero exactly when the digit is.
pub bit_and-shl_test : (v b : ℕ) → (bit_and v (1 <<< b) == 0) ≡ (digit v b == 0)
bit_and-shl_test v b = elim (digit-cases v b) [
  | inl off ↦ rw (bit_and-shl_one v b, off) (ground arith)
  | inr on ↦ rw (bit_and-shl_one v b, on) (ground (arith, one-le-pow b 2))
]
  where
    digit-cases : (v b : ℕ) → (digit v b ≡ 0) ⊎ (digit v b ≡ 1)
    digit-cases v b = elim (dec_lt 0 (digit v b)) [
      | yes p ↦ inr (omega (arith, digit-lt v b))
      | no p ↦ inl (omega arith)
    ]

-- A mask of `w` ones is a cast to `w` bits.
pub bit_and-mask : (w x : ℕ) → bit_and x (2 ^ w - 1) ≡ x % 2 ^ w
bit_and-mask zero x = omega (arith, bit_and-zero x)
bit_and-mask (suc w) x =
    let wide : 0 < 2 ^ w = one-le-pow w 2 (omega arith) in
    let ones : (2 ^ suc w - 1) / 2 ≡ 2 ^ w - 1 = omega (arith, pow-suc 2 w) in
    let (low, high) = mod-halves (2 ^ w) x wide in
    let ih : bit_and (x / 2) ((2 ^ suc w - 1) / 2) ≡ x / 2 % 2 ^ w =
      rw ones (bit_and-mask w (x / 2)) in
    let split : x % (2 ^ w * 2) ≡ x / 2 % 2 ^ w * 2 + x % 2 = omega arith in
    omega (arith, and-halves x (2 ^ suc w - 1), pow-suc 2 w, ap (λ (n : ℕ). x % n) (pow-suc 2 w))

-- A mask that ends in `k` zeros.
pub bit_and-high : (k m x : ℕ) → bit_and x (2 ^ k * m) ≡ 2 ^ k * bit_and (x / 2 ^ k) m
bit_and-high zero m x =
    let mask : 2 ^ 0 * m ≡ m = omega arith in
    let same : x / 2 ^ 0 ≡ x = omega arith in rw (mask, same) (omega arith)
bit_and-high (suc k) m x =
    let mask : 2 ^ suc k * m ≡ 2 * (2 ^ k * m) =
      ap (λ (n : ℕ). n * m) (pow-suc 2 k) ∙ omega arith in
    let half : 2 * (2 ^ k * m) / 2 ≡ 2 ^ k * m = omega arith in
    let quarter : x / 2 ^ suc k ≡ x / 2 / 2 ^ k =
      ap (λ (n : ℕ). x / n) (pow-succ' 2 k) ∙ sym (div-div-eq-div-mul x 2 (2 ^ k)) in
    let twice : 2 ^ suc k * bit_and (x / 2 / 2 ^ k) m ≡ 2 * (2 ^ k * bit_and (x / 2 / 2 ^ k) m) =
      ap (λ (n : ℕ). n * bit_and (x / 2 / 2 ^ k) m) (pow-suc 2 k) ∙ omega arith in
    let step : bit_and x (2 * (2 ^ k * m)) ≡ 2 * bit_and (x / 2) (2 * (2 ^ k * m) / 2) =
      omega (arith, and-halves x (2 * (2 ^ k * m))) in
    let rest : bit_and (x / 2) (2 * (2 ^ k * m) / 2) ≡ 2 ^ k * bit_and (x / 2 / 2 ^ k) m =
      rw half (bit_and-high k m (x / 2)) in
    rw (mask, quarter, twice) (step ∙ ap (λ (n : ℕ). 2 * n) rest)
