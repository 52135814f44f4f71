-- ===== src/Base/Bits/Step.antt =====
-- `bit_or` and `bit_and` by their lowest digit: the native operations stand for `digits`, which
-- runs on as much fuel as its first number is large.
use Prim.Native.Nat.{ℕ, zero, suc, ◌+◌, ◌*◌, ◌/◌, ◌%◌, ◌≤◌, min, max, bit_and, bit_or}
use Prim.Native.Nat.{digits, bitwise, bit_and-bitwise, bit_or-bitwise}
use mathlib.Core.Path.{◌≡◌, refl, ◌∙◌, ap}
use native.Mathlib.Omega.{arith}

module _ (rest : ℕ → ℕ) (op : ℕ → ℕ → ℕ) where
  -- Once the fuel covers the number, one unit more changes nothing; hence no amount does.
  one_more : (fuel a b : ℕ) → a ≤ fuel → digits rest op (suc fuel) a b ≡ digits rest op fuel a b
  one_more zero zero b le = refl
  one_more (suc fuel) zero b le = refl
  one_more zero (suc a) b le = absurd (omega arith)
  one_more (suc fuel) (suc a) b le = rw (one_more fuel (suc a / 2) (b / 2) (omega arith))

  surplus :
      (more fuel total a b : ℕ)
      → more + fuel ≡ total
      → a ≤ fuel
      → digits rest op total a b ≡ digits rest op fuel a b
  surplus zero fuel total a b sum le =
      let same : total ≡ fuel = omega arith in ap (λ (n : ℕ). digits rest op n a b) same
  surplus (suc more) fuel zero a b sum le = absurd (omega arith)
  surplus (suc more) fuel (suc total) a b sum le =
      one_more total a b (omega arith) ∙ surplus more fuel total a b (omega arith) le

  -- The recursive call on half of the number has fuel to spare.
  low_digit :
      (n b : ℕ)
      → bitwise rest op (suc n) b ≡ bitwise rest op (suc n / 2) (b / 2) * 2 + op (suc n % 2) (b % 2)
  low_digit n b = rw (surplus (n / 2) (suc n / 2) n (suc n / 2) (b / 2) (omega arith) (omega arith))

pub or-halves : (a b : ℕ) → bit_or a b ≡ 2 * bit_or (a / 2) (b / 2) + max (a % 2) (b % 2)
or-halves zero b = omega (arith, bit_or-bitwise 0 b, bit_or-bitwise 0 (b / 2))
or-halves (suc n) b =
    let low = low_digit (λ y. y) max n b in
    omega (arith, bit_or-bitwise (suc n) b, bit_or-bitwise (suc n / 2) (b / 2), low)

pub and-halves : (a b : ℕ) → bit_and a b ≡ 2 * bit_and (a / 2) (b / 2) + min (a % 2) (b % 2)
and-halves zero b = omega (arith, bit_and-bitwise 0 b, bit_and-bitwise 0 (b / 2))
and-halves (suc n) b =
    let low = low_digit (λ y. 0) min n b in
    omega (arith, bit_and-bitwise (suc n) b, bit_and-bitwise (suc n / 2) (b / 2), low)

-- A zero on the right leaves nothing, whatever the fuel.
nothing_left : (fuel a : ℕ) → digits (λ y. 0) min fuel a 0 ≡ 0
nothing_left zero a = refl
nothing_left (suc fuel) zero = refl
nothing_left (suc fuel) (suc a) = omega (arith, nothing_left fuel (suc a / 2))

pub bit_and-zero : (a : ℕ) → bit_and a 0 ≡ 0
bit_and-zero a = bit_and-bitwise a 0 ∙ nothing_left a a
