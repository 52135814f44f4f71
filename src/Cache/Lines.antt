-- ===== src/Cache/Lines.antt =====
-- The range functions: which lines they work on.
use t113_c.Base.{
  ℕ, zero, suc, ◌+◌, ◌-◌, ◌*◌, ◌/◌, ◌%◌, ◌^◌, ◌==◌, ◌≤◌, ◌<◌, ltb, leb, if◌then◌else◌, ◌&&◌,
}
use t113_c.Base.{[], ◌∷◌, ◌≡◌, true, arith, u64}
use t113_c.Base.{lt→ltb, le→ltb_false}
use t113_c.Base.Bits.{bit_and-high, bit_and-mask}
use t113_c.Hw.{Trace, LineOp, line, sync_i, dcache_cpa, dcache_ipa, dcache_cipa, icache_ipa}
use t113_c.Cache.{align_down, line_loop, range}
use native.Mathlib.Nat.{mod-eq_of_lt}

pub align_down_lem : (x : ℕ) → x < 2 ^ 64 → align_down x ≡ x - x % 64
align_down_lem x h =
    let line_no : x / 64 % 2 ^ 58 ≡ x / 64 = mod-eq_of_lt {n = x / 64} {m = 2 ^ 58} (omega arith) in
    omega (arith, bit_and-high 6 (2 ^ 58 - 1) x, bit_and-mask 58 (x / 64), line_no)

-- The instruction on `n` lines from `i` on.
unfoldable pub sweep : LineOp → ℕ → ℕ → Trace → Trace
sweep op i zero t = t
sweep op i (suc n) t = sweep op (i + 64) n (line op i ∷ t)

line_loop-sweep :
    (op : LineOp) (n fuel i end_ : ℕ) (t : Trace)
    → n < fuel
    → end_ + 64 ≤ 2 ^ 64
    → end_ ≤ i + 64 * n
    → 64 * n < end_ - i + 64
    → line_loop op fuel i end_ t ≡ (true, sweep op i n t)
unfolding line_loop sweep
line_loop-sweep op n zero i e t lt room above below = absurd (omega arith)
line_loop-sweep op zero (suc fuel) i e t lt room above below =
    ground (arith, le→ltb_false i e (omega arith))
line_loop-sweep op (suc n) (suc fuel) i e t lt room above below =
    let next : u64 (i + 64) ≡ i + 64 = mod-eq_of_lt {n = i + 64} {m = 2 ^ 64} (omega arith) in
    ground (
      arith,
      lt→ltb i e (omega arith),
      next,
      line_loop-sweep op n fuel (i + 64) e (line op i ∷ t) (omega arith) room (omega arith)
          (omega arith),
    )

abbrev pub op_code : LineOp → ℕ
op_code dcache_cpa = 0
op_code dcache_ipa = 1
op_code dcache_cipa = 2
op_code icache_ipa = 3

-- How often a history has the instruction `op` on the line at `l`.
unfoldable pub line_count : LineOp → ℕ → Trace → ℕ
line_count op l [] = 0
line_count op l (line o a ∷ t) =
    let rest = line_count op l t in if (op_code o == op_code op) && (a == l) then suc rest else rest
line_count op l (_ ∷ t) = line_count op l t

sweep-line_count :
    (op : LineOp) (l n i : ℕ) (t : Trace)
    → l % 64 ≡ 0
    → i % 64 ≡ 0
    → line_count op l (sweep op i n t)
      ≡ (if leb i l && ltb l (i + 64 * n) then 1 else 0) + line_count op l t
unfolding sweep line_count
sweep-line_count op l zero i t hl hi = ground arith
sweep-line_count op l (suc n) i t hl hi =
    ground (arith, sweep-line_count op l n (i + 64) (line op i ∷ t) hl (omega arith))

-- The number of lines from the one of `start` to the one before `end`.
abbrev pub line_total : ℕ → ℕ → ℕ
line_total start end_ = (end_ - (start - start % 64) + 63) / 64

-- On a range that ends at least a line below 2 ^ 64, with more fuel than lines, a range function
-- ends: it works exactly once on each 64-byte line that meets the range, on no other line, and
-- then issues the barrier.
pub range-lines :
    (op : LineOp) (fuel start end_ l : ℕ) (t : Trace)
    → start < 2 ^ 64
    → end_ + 64 ≤ 2 ^ 64
    → line_total start end_ < fuel
    → l % 64 ≡ 0
    → let t' = sweep op (start - start % 64) (line_total start end_) t in
      (range op fuel start end_ t ≡ (true, sync_i ∷ t'))
      × (line_count op l t'
          ≡ (if ltb start (l + 64) && ltb l end_ then 1 else 0) + line_count op l t)
unfolding range
range-lines op fuel start e l t inside room enough hl =
    let i = start - start % 64 in
    let loop =
      line_loop-sweep op (line_total start e) fuel i e t enough room (omega arith) (omega arith) in
    let count = sweep-line_count op l (line_total start e) i t hl (omega arith) in
    (ground (arith, align_down_lem start inside, loop), ground (arith, count))
