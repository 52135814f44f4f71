-- ===== src/Shmem/Copy.antt =====
-- A copy of a block: what it leaves, and how two copies follow one another.
pub mod Loops
pub mod Block
pub mod Valid
use t113_c.Base.{
  ℕ, zero, suc, ◌+◌, ◌-◌, ◌*◌, ◌/◌, ◌%◌, ◌^◌, ◌≤◌, ◌<◌, ◌==◌, ltb, leb, if◌then◌else◌, ◌&&◌,
}
use t113_c.Base.{◌≡◌, refl, ◌∙◌, sym, ap, true, false, arith, ◌⊎◌, inl, inr, Bool-cases, u32}
use native.Mathlib.Decide.{dec_lt}
use t113_c.Shmem.Interface.{Memory, IsMemory}
use t113_c.Shmem.Bytes.{byte_of, store_n-below, store_n-above, store_n-inside, load_n-byte}
use t113_c.Shmem.{load_n, store_n, Progress, copy_head, copy_words, copy_tail, copy_block}
use t113_c.Shmem.{shmem_metal_io_block_read, shmem_metal_io_block_write}

-- Two regions of `n` bytes that do not overlap.
abbrev pub Disjoint : ℕ → ℕ → ℕ → Type 0
Disjoint n d p = (d + n ≤ p) ⊎ (p + n ≤ d)

pub Disjoint-shift : (k n len d p : ℕ) → k + n ≡ len → Disjoint len d p → Disjoint n (d + k) (p + k)
Disjoint-shift k n len d p sum (inl before) = inl (omega arith)
Disjoint-shift k n len d p sum (inr after) = inr (omega arith)

pub Disjoint-le : (k n d p : ℕ) → k ≤ n → Disjoint n d p → Disjoint k d p
Disjoint-le k n d p le (inl before) = inl (omega arith)
Disjoint-le k n d p le (inr after) = inr (omega arith)

module _ {S : Type 0} (m : Memory S) where
  -- `t` is `s` with the `n` bytes at `p` copied to `d`.
  abbrev pub Copied : ℕ → ℕ → ℕ → S → S → Type 0
  Copied n d p s t =
      (b : ℕ) → m.get t b ≡ (if leb d b && ltb b (d + n) then m.get s (p + (b - d)) else m.get s b)

module _ {S : Type 0} (m : Memory S) (law : IsMemory m) where
  pub Copied-zero : (d p : ℕ) (s : S) → Copied m 0 d p s s
  Copied-zero d p s b = ground arith

  -- Two copies, one after the other.
  pub Copied-trans :
      (k n d p : ℕ) (s t u : S)
      → Disjoint (k + n) d p
      → Copied m k d p s t
      → Copied m n (d + k) (p + k) t u
      → Copied m (k + n) d p s u
  Copied-trans k n d p s t u apart first second b =
      let shift : d + k ≤ b → p + k + (b - (d + k)) ≡ p + (b - d) = λ le. omega arith in
      second b ∙ elim (dec_lt b (d + k)) [
        | yes low ↦ ground (arith, first b)
        | no high ↦ elim (dec_lt b (d + (k + n))) [
          | yes inside ↦
              rw (sym (shift (omega arith))) (ground (arith, first (p + k + (b - (d + k)))))
          | no beyond ↦ ground (arith, first b)
        ]
      ]

  pub byte-Copied : (d p : ℕ) (s : S) → Copied m 1 d p s (m.put d (m.get s p) s)
  byte-Copied d p s b = law.get-put d (m.get s p) b s ∙ elim (dec_lt b d) [
    | yes low ↦ ground arith
    | no high ↦ elim (dec_lt d b) [
      | yes beyond ↦ ground arith
      | no same ↦
          let here : d ≡ b = omega arith in
          let start : p + (b - d) ≡ p = omega arith in
          let small : m.get s p % 256 ≡ m.get s p = omega (arith, law.get-lt s p) in
          rw start (ground (arith, small))
    ]
  ]

  pub word-Copied : (n d p : ℕ) (s : S) → Copied m n d p s (store_n m n (load_n m n p s) d s)
  word-Copied n d p s b = elim (dec_lt b d) [
    | yes low ↦ store_n-below m law n (load_n m n p s) d b s low ∙ ground arith
    | no high ↦ elim (dec_lt b (d + n)) [
      | yes inside ↦
          let at : b ≡ d + (b - d) = omega arith in
          ap (m.get (store_n m n (load_n m n p s) d s)) at
          ∙ store_n-inside m law n (load_n m n p s) d (b - d) s (omega arith)
          ∙ load_n-byte m law n p (b - d) s (omega arith)
          ∙ ground arith
      | no beyond ↦ store_n-above m law n (load_n m n p s) d b s (omega arith) ∙ ground arith
    ]
  ]
