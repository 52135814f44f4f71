-- ===== src/Shmem/Bytes.antt =====
-- Loads and stores of several bytes, one byte at a time.
use t113_c.Base.{ℕ, zero, suc, ◌+◌, ◌*◌, ◌/◌, ◌%◌, ◌^◌, ◌≤◌, ◌<◌}
use t113_c.Base.{◌≡◌, refl, ◌∙◌, arith}
use native.Mathlib.Nat.{
  pow-succ', one-le-pow, div-add-mod, mod-lt, mul_assoc, mul-add-mod_self_left, mod-eq_of_lt,
}
use t113_c.Base.{sym, ap}
use t113_c.Shmem.Interface.{Memory, IsMemory}
use t113_c.Shmem.{load_n, store_n}

-- Byte `i` of a number.
abbrev pub byte_of : ℕ → ℕ → ℕ
byte_of v zero = v % 256
byte_of v (suc i) = byte_of (v / 256) i

-- A remainder by a multiple of 256, from its lowest byte and the rest.
mod-bytes : (x q : ℕ) → 0 < q → x % 256 + 256 * (x / 256 % q) ≡ x % (256 * q)
mod-bytes x q pos =
    let a = x / 256 / q in
    let r = x / 256 % q in
    let split : q * a + r ≡ x / 256 = div-add-mod (x / 256) q in
    let below : r < q = mod-lt (x / 256) pos in
    let scale : 256 * q * a ≡ 256 * (q * a) = mul_assoc 256 q a in
    let whole : x ≡ 256 * q * a + (256 * r + x % 256) = omega arith in
    sym (
      ap (λ (n : ℕ). n % (256 * q)) whole
      ∙ mul-add-mod_self_left (256 * q) a (256 * r + x % 256)
      ∙ mod-eq_of_lt {n = 256 * r + x % 256} {m = 256 * q} (omega arith)
      ∙ omega arith)

module _ {S : Type 0} (m : Memory S) (law : IsMemory m) where
  pub store_n-below : (n v p b : ℕ) (s : S) → b < p → m.get (store_n m n v p s) b ≡ m.get s b
  unfolding store_n
  store_n-below zero v p b s lt = refl
  store_n-below (suc n) v p b s lt =
      store_n-below n (v / 256) (p + 1) b (m.put p (v % 256) s) (omega arith)
      ∙ ground (arith, law.get-put p (v % 256) b s)

  pub store_n-above : (n v p b : ℕ) (s : S) → p + n ≤ b → m.get (store_n m n v p s) b ≡ m.get s b
  unfolding store_n
  store_n-above zero v p b s le = refl
  store_n-above (suc n) v p b s le =
      store_n-above n (v / 256) (p + 1) b (m.put p (v % 256) s) (omega arith)
      ∙ ground (arith, law.get-put p (v % 256) b s)

  -- Within the stored bytes, the byte at `p + i` is byte `i` of the value.
  pub store_n-inside :
      (n v p i : ℕ) (s : S) → i < n → m.get (store_n m n v p s) (p + i) ≡ byte_of v i
  unfolding store_n
  store_n-inside zero v p i s lt = absurd (omega arith)
  store_n-inside (suc n) v p zero s lt =
      store_n-below n (v / 256) (p + 1) (p + 0) (m.put p (v % 256) s) (omega arith)
      ∙ ground (arith, law.get-put p (v % 256) (p + 0) s)
  store_n-inside (suc n) v p (suc i) s lt =
      let shift : p + suc i ≡ p + 1 + i = omega arith in
      rw shift (store_n-inside n (v / 256) (p + 1) i (m.put p (v % 256) s) (omega arith))

  -- A load puts the bytes together again.
  pub load_n-byte : (n p i : ℕ) (s : S) → i < n → byte_of (load_n m n p s) i ≡ m.get s (p + i)
  unfolding load_n
  load_n-byte zero p i s lt = absurd (omega arith)
  load_n-byte (suc n) p zero s lt =
      let same : p + 0 ≡ p = omega arith in rw same (omega (arith, law.get-lt s p))
  load_n-byte (suc n) p (suc i) s lt =
      let shift : p + suc i ≡ p + 1 + i = omega arith in
      let rest : (m.get s p + 256 * load_n m n (p + 1) s) / 256 ≡ load_n m n (p + 1) s =
        omega (arith, law.get-lt s p) in
      rw (shift, rest) (load_n-byte n (p + 1) i s (omega arith))

  -- A load after a store of the same width gives the value, cut to the width.
  pub load_n-store_n :
      (n v p : ℕ) (s t : S)
      → ((b : ℕ) → m.get t b ≡ m.get (store_n m n v p s) b)
      → load_n m n p t ≡ v % 256 ^ n
  unfolding load_n store_n
  load_n-store_n zero v p s t same = omega arith
  load_n-store_n (suc n) v p s t same =
      let first : m.get t p ≡ v % 256 =
        same p
        ∙ store_n-below n (v / 256) (p + 1) p (m.put p (v % 256) s) (omega arith)
        ∙ ground (arith, law.get-put p (v % 256) p s) in
      let rest : load_n m n (p + 1) t ≡ v / 256 % 256 ^ n =
        load_n-store_n n (v / 256) (p + 1) (m.put p (v % 256) s) t same in
      rw (first, rest, pow-succ' 256 n) (mod-bytes v (256 ^ n) (one-le-pow n 256 (omega arith)))
