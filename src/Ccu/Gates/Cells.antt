-- ===== src/Ccu/Gates/Cells.antt =====
-- A table of one-bit cells, each at a register and a bit position.
use t113_c.Base.{scan, scan-holds}
use t113_c.Base.{ℕ, ◌<◌, ◌==◌, ltb, if◌then◌else◌, ◌≡◌, Bool, true, false, not, ◌&&◌}
use t113_c.Base.{arith}
use t113_c.Hw.{Device, Trace}
use t113_c.Hw.Registers.{IsRegister, bit_at}
use t113_c.Hw.Bitfield.{set_bit, clear_bit, bit_at-set_bit, bit_at-clear_bit}

-- Whether two tests agree.
abbrev agree : Bool → Bool → Bool
agree true b = b
agree false b = not b

module _ (reg bit : ℕ → ℕ) where
  -- Cell `i` lies within 32 bits, and is cell `j` only if `i` is `j`.
  abbrev pair_check : ℕ → ℕ → Bool
  pair_check i j = ltb (bit i) 32 && agree (reg j == reg i && bit j == bit i) (i == j)

  abbrev pub apart_check : ℕ → Bool
  apart_check n = scan (λ i. scan (pair_check i) 0 n) 0 n

  abbrev pub Apart : ℕ → Type 0
  Apart n = (i j : ℕ) → i < n → j < n → pair_check i j ≡ true

  pub Apart-holds : (n : ℕ) → apart_check n ≡ true → Apart n
  Apart-holds n e i j hi hj =
      scan-holds (pair_check i) n 0 j (omega arith) (omega arith)
        (scan-holds (λ k. scan (pair_check k) 0 n) n 0 i (omega arith) (omega arith) e)

  abbrev pub cell_bit : Device → ℕ → Trace → ℕ
  cell_bit dev j t = bit_at dev (reg j) (bit j) t

module _ (reg bit : ℕ → ℕ) {n : ℕ} (apart : Apart reg bit n) (dev : Device) (i j r : ℕ)
    (t : Trace) where
  pub cell-set_bit :
      IsRegister dev (reg j) r
      → i < n
      → j < n
      → cell_bit reg bit dev j (set_bit dev (reg i) (bit i) t)
        ≡ (if i == j then 1 else cell_bit reg bit dev j t)
  cell-set_bit keeps hi hj = ground (
    arith,
    apart i j hi hj,
    apart j i hj hi,
    bit_at-set_bit (reg j) (reg i) (bit i) (bit j) r t keeps,
  )

  pub cell-clear_bit :
      IsRegister dev (reg j) r
      → i < n
      → j < n
      → cell_bit reg bit dev j (clear_bit dev (reg i) (bit i) t)
        ≡ (if i == j then 0 else cell_bit reg bit dev j t)
  cell-clear_bit keeps hi hj = ground (
    arith,
    apart i j hi hj,
    apart j i hj hi,
    bit_at-clear_bit (reg j) (reg i) (bit i) (bit j) r t keeps,
  )
