-- ===== src/Shmem/Fill.antt =====
-- `shmem_metal_io_block_set`: three loops, that do what a fill byte by byte does.
use t113_c.Base.{ℕ, zero, suc, ◌+◌, ◌-◌, ◌*◌, ◌%◌, ◌<◌, ◌==◌, ltb, leb, if◌then◌else◌, ◌&&◌}
use t113_c.Base.{
  ◌≡◌, ◌≢◌, refl, ◌∙◌, ap, true, false, arith, Bool-cases, inl, inr, u8, u32, scan, scan-holds,
  ==_iff,
}
use native.Mathlib.Decide.{dec_lt}
use t113_c.Shmem.Interface.{Memory, IsMemory}
use t113_c.Shmem.Bytes.{byte_of, store_n-below, store_n-above, store_n-inside}
use t113_c.Shmem.{store_n, Progress, fill_head, fill_words, fill_tail, spread}
use t113_c.Shmem.{shmem_metal_io_block_set}

-- Each byte of the word that is stored is the value. All values are tried.
spread_table : scan (λ v. spread v == v + 256 * v + 65536 * v + 16777216 * v) 0 256 ≡ true
unfolding spread scan
spread_table = refl

spread_lem : (v : ℕ) → v < 256 → spread v ≡ v + 256 * v + 65536 * v + 16777216 * v
spread_lem v h = (==_iff _ _).0 (
    scan-holds (λ v. spread v == v + 256 * v + 65536 * v + 16777216 * v) 256 0 v (omega arith)
      (omega arith) spread_table)

byte_of-spread : (v i : ℕ) → v < 256 → i < 4 → byte_of (spread v) i ≡ v
byte_of-spread v zero h lt = rw (spread_lem v h) (omega arith)
byte_of-spread v (suc zero) h lt = rw (spread_lem v h) (omega arith)
byte_of-spread v (suc (suc zero)) h lt = rw (spread_lem v h) (omega arith)
byte_of-spread v (suc (suc (suc zero))) h lt = rw (spread_lem v h) (omega arith)
byte_of-spread v (suc (suc (suc (suc i)))) h lt = absurd (omega arith)

module _ {S : Type 0} (m : Memory S) where
  -- `t` is `s` with the `n` bytes at `p` set to `v`.
  abbrev pub Filled : ℕ → ℕ → ℕ → S → S → Type 0
  Filled v n p s t = (b : ℕ) → m.get t b ≡ (if leb p b && ltb b (p + n) then v else m.get s b)

module _ {S : Type 0} (m : Memory S) (law : IsMemory m) (v : ℕ) (small : v < 256) where
  fill_tail-Filled : (n p : ℕ) (s : S) → Filled m v n p s (fill_tail m v n p s)
  unfolding fill_tail
  fill_tail-Filled zero p s b = ground arith
  fill_tail-Filled (suc n) p s b =
      fill_tail-Filled n (p + 1) (m.put p v s) b ∙ ground (arith, law.get-put p v b s)

  -- The last loop, run on what an earlier loop leaves.
  abbrev finish : Progress S → S
  finish q = fill_tail m v q.left q.to q.now

  word-Filled : (p : ℕ) (s : S) → Filled m v 4 p s (store_n m 4 (spread v) p s)
  word-Filled p s b = elim (dec_lt b p) [
    | yes low ↦ store_n-below m law 4 (spread v) p b s low ∙ ground arith
    | no high ↦ elim (dec_lt b (p + 4)) [
      | yes inside ↦
          let at : b ≡ p + (b - p) = omega arith in
          ap (m.get (store_n m 4 (spread v) p s)) at
          ∙ store_n-inside m law 4 (spread v) p (b - p) s (omega arith)
          ∙ byte_of-spread v (b - p) small (omega arith)
          ∙ ground arith
      | no beyond ↦ store_n-above m law 4 (spread v) p b s (omega arith) ∙ ground arith
    ]
  ]

  fill_words-Filled : (n p : ℕ) (s : S) → Filled m v n p s (finish (fill_words m (spread v) n p s))
  unfolding fill_words
  fill_words-Filled zero p s b = fill_tail-Filled 0 p s b
  fill_words-Filled (suc zero) p s b = fill_tail-Filled 1 p s b
  fill_words-Filled (suc (suc zero)) p s b = fill_tail-Filled 2 p s b
  fill_words-Filled (suc (suc (suc zero))) p s b = fill_tail-Filled 3 p s b
  fill_words-Filled (suc (suc (suc (suc n)))) p s b =
      fill_words-Filled n (p + 4) (store_n m 4 (spread v) p s) b ∙ ground (arith, word-Filled p s b)

  -- The last two loops, on what the first leaves.
  abbrev finish_words : Progress S → S
  finish_words q = finish (fill_words m (spread v) q.left q.to q.now)

  fill_head-stop :
      (n p : ℕ) (s : S)
      → (p % 4 == 0) ≡ true
      → fill_head m v (suc n) p s ≡ record { left = suc n; to = p; from = 0; now = s }
  unfolding fill_head
  fill_head-stop n p s aligned = ground (arith, aligned)

  fill_head-step :
      (n p : ℕ) (s : S)
      → (p % 4 == 0) ≡ false
      → fill_head m v (suc n) p s ≡ fill_head m v n (p + 1) (m.put p v s)
  unfolding fill_head
  fill_head-step n p s skewed = ground (arith, skewed)

  fill_head-Filled : (n p : ℕ) (s : S) → Filled m v n p s (finish_words (fill_head m v n p s))
  fill_head-Filled zero p s b = unfold fill_head in (fill_words-Filled 0 p s b)
  fill_head-Filled (suc n) p s b = elim (Bool-cases (p % 4 == 0)) [
    | inl aligned ↦ rw (fill_head-stop n p s aligned) (fill_words-Filled (suc n) p s b)
    | inr skewed ↦
        rw (fill_head-step n p s skewed)
          (fill_head-Filled n (p + 1) (m.put p v s) b ∙ ground (arith, law.get-put p v b s))
  ]

-- On a region that maps the offset, `block_set` leaves each of the `len` bytes of the region equal to
-- the low byte of the value, and this core sees every other byte as before.
pub block_set-Filled :
    {S : Type 0} (m : Memory S) (virt : ℕ → ℕ) (offset value len : ℕ) (s : S)
    → IsMemory m
    → virt offset ≢ 0
    → Filled m (u8 value) len (virt offset) s (shmem_metal_io_block_set m virt offset value len s)
unfolding shmem_metal_io_block_set
block_set-Filled m virt offset value len s law mapped b =
    let ptr = virt offset in
    let head = fill_head m (u8 value) len ptr s in
    let body = fill_words m (spread (u8 value)) head.left head.to head.now in
    ground (
      arith,
      law.get-flush ptr (u32 len) b (fill_tail m (u8 value) body.left body.to body.now) mapped,
      fill_head-Filled m law (u8 value) (omega arith) len ptr s b,
    )
