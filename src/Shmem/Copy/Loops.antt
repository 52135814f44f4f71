-- ===== src/Shmem/Copy/Loops.antt =====
-- The three loops of the block copies: byte by byte, word by word, byte by byte.
use t113_c.Base.{ℕ, zero, suc, ◌+◌, ◌%◌, ◌==◌, ◌&&◌}
use t113_c.Base.{◌≡◌, refl, true, false, arith, inl, inr, Bool-cases}
use t113_c.Shmem.Interface.{Memory, IsMemory}
use t113_c.Shmem.{load_n, store_n, Progress, copy_head, copy_words, copy_tail, copy_block}
use t113_c.Shmem.Copy.{Disjoint, Copied, Copied-zero, Copied-trans, byte-Copied, word-Copied}
use t113_c.Shmem.Copy.{Disjoint-shift, Disjoint-le}

module _ {S : Type 0} (m : Memory S) where
  pub copy_head-stop :
      (n d p : ℕ) (s : S)
      → (d % 4 == 0 && p % 4 == 0) ≡ true
      → copy_head m (suc n) d p s ≡ record { left = suc n; to = d; from = p; now = s }
  unfolding copy_head
  copy_head-stop n d p s aligned = ground (arith, aligned)

  pub copy_head-step :
      (n d p : ℕ) (s : S)
      → (d % 4 == 0 && p % 4 == 0) ≡ false
      → copy_head m (suc n) d p s ≡ copy_head m n (d + 1) (p + 1) (m.put d (m.get s p) s)
  unfolding copy_head
  copy_head-step n d p s skewed = ground (arith, skewed)

module _ {S : Type 0} (m : Memory S) (law : IsMemory m) where
  -- A loop has copied the first `k` of `len` bytes, and moved both pointers on by `k`.
  pub record Advanced (len d p : ℕ) (s : S) (q : Progress S) : Type 0 where
    pub k : ℕ
    pub rest : k + q.left ≡ len
    pub to_at : q.to ≡ d + k
    pub from_at : q.from ≡ p + k
    pub copied : Copied m k d p s q.now

  stay :
      (len d p : ℕ) (s : S) → Advanced len d p s (record { left = len; to = d; from = p; now = s })
  stay len d p s = record {
    k = 0;
    rest = omega arith;
    to_at = omega arith;
    from_at = omega arith;
    copied = Copied-zero m law d p s;
  }

  -- The loop goes on after a first step of `j` bytes.
  go_on :
      (j n len d p : ℕ) (s t : S) (q : Progress S)
      → j + n ≡ len
      → Disjoint len d p
      → Copied m j d p s t
      → Advanced n (d + j) (p + j) t q
      → Advanced len d p s q
  go_on j n len d p s t q sum apart first v = record {
    k = j + v.k;
    rest = omega (arith, v.rest);
    to_at = omega (arith, v.to_at);
    from_at = omega (arith, v.from_at);
    copied = Copied-trans m law j v.k d p s t q.now near first v.copied;
  }
    where
      near : Disjoint (j + v.k) d p
      near = Disjoint-le (j + v.k) len d p (omega (arith, v.rest)) apart

  copy_head-Advanced :
      (len d p : ℕ) (s : S) → Disjoint len d p → Advanced len d p s (copy_head m len d p s)
  copy_head-Advanced zero d p s apart = unfold copy_head in (stay 0 d p s)
  copy_head-Advanced (suc n) d p s apart =
      let t = m.put d (m.get s p) s in
      let rest =
        copy_head-Advanced n (d + 1) (p + 1) t
          (Disjoint-shift 1 n (suc n) d p (omega arith) apart) in
      elim (Bool-cases (d % 4 == 0 && p % 4 == 0)) [
        | inl aligned ↦ rw (copy_head-stop m n d p s aligned) (stay (suc n) d p s)
        | inr skewed ↦ rw (copy_head-step m n d p s skewed) (
            go_on 1 n (suc n) d p s t (copy_head m n (d + 1) (p + 1) t) (omega arith) apart
              (byte-Copied m law d p s) rest)
      ]

  copy_words-Advanced :
      (len d p : ℕ) (s : S) → Disjoint len d p → Advanced len d p s (copy_words m len d p s)
  unfolding copy_words
  copy_words-Advanced zero d p s apart = stay 0 d p s
  copy_words-Advanced (suc zero) d p s apart = stay 1 d p s
  copy_words-Advanced (suc (suc zero)) d p s apart = stay 2 d p s
  copy_words-Advanced (suc (suc (suc zero))) d p s apart = stay 3 d p s
  copy_words-Advanced (suc (suc (suc (suc n)))) d p s apart =
      let t = store_n m 4 (load_n m 4 p s) d s in
      let len = suc (suc (suc (suc n))) in
      go_on 4 n len d p s t (copy_words m n (d + 4) (p + 4) t) (omega arith) apart
        (word-Copied m law 4 d p s)
        (copy_words-Advanced n (d + 4) (p + 4) t (Disjoint-shift 4 n len d p (omega arith) apart))

  -- The last loop, with the pointers that it ends with.
  abbrev finish : ℕ → ℕ → ℕ → S → Progress S
  finish len d p s = record { left = 0; to = d + len; from = p + len; now = copy_tail m len d p s }

  copy_tail-Advanced :
      (len d p : ℕ) (s : S) → Disjoint len d p → Advanced len d p s (finish len d p s)
  unfolding copy_tail
  copy_tail-Advanced zero d p s apart = record {
    k = 0;
    rest = omega arith;
    to_at = refl;
    from_at = refl;
    copied = Copied-zero m law d p s;
  }
  copy_tail-Advanced (suc n) d p s apart =
      let t = m.put d (m.get s p) s in
      let after = copy_tail m n (d + 1) (p + 1) t in
      let v =
        copy_tail-Advanced n (d + 1) (p + 1) t
          (Disjoint-shift 1 n (suc n) d p (omega arith) apart) in
      let to : d + 1 + n ≡ d + suc n = omega arith in
      let from : p + 1 + n ≡ p + suc n = omega arith in
      go_on 1 n (suc n) d p s t (record { left = 0; to = d + suc n; from = p + suc n; now = after })
        (omega arith) apart (byte-Copied m law d p s) (rw (to, from) at v)

  -- One loop after another, where the second is right for all that the first can leave.
  chain :
      (len d p : ℕ) (s : S) (q : Progress S) (next : ℕ → ℕ → ℕ → S → Progress S)
      → ((n a b : ℕ) (t : S) → Disjoint n a b → Advanced n a b t (next n a b t))
      → Disjoint len d p
      → Advanced len d p s q
      → Advanced len d p s (next q.left q.to q.from q.now)
  chain len d p s q next right apart v =
      rw (v.to_at, v.from_at)
        (go_on v.k q.left len d p s q.now (next q.left (d + v.k) (p + v.k) q.now) v.rest apart
          v.copied
          (right q.left (d + v.k) (p + v.k) q.now (Disjoint-shift v.k q.left len d p v.rest apart)))

  -- The three loops copy the whole block.
  pub copy_block-Copied :
      (len d p : ℕ) (s : S) → Disjoint len d p → Copied m len d p s (copy_block m len d p s)
  unfolding copy_block
  copy_block-Copied len d p s apart =
      let head = copy_head-Advanced len d p s apart in
      let body =
        chain len d p s (copy_head m len d p s) (copy_words m) copy_words-Advanced apart head in
      let words = λ (q : Progress S). copy_words m q.left q.to q.from q.now in
      let all =
        chain len d p s (words (copy_head m len d p s)) finish copy_tail-Advanced apart body in
      let full : all.k ≡ len = omega (arith, all.rest) in rw full at all.copied
