-- ===== src/Shmem/Copy/Valid.antt =====
-- A block copy keeps a state valid, since every store does.
use t113_c.Base.{ℕ, zero, suc, ◌+◌, ◌%◌, ◌==◌, ◌&&◌, Bool-cases, inl, inr}
use t113_c.Shmem.Interface.{Memory, IsSynced}
use t113_c.Shmem.Access.{store_n-Valid}
use t113_c.Shmem.{load_n, store_n, copy_head, copy_words, copy_tail, copy_block}
use t113_c.Shmem.Copy.Loops.{copy_head-stop, copy_head-step}

module _ {S : Type 0} (m : Memory S) (Valid : S → Type 0) (synced : IsSynced m Valid) where
  copy_head-Valid : (n d p : ℕ) (s : S) → Valid s → Valid (copy_head m n d p s).now
  copy_head-Valid zero d p s valid = unfold copy_head in valid
  copy_head-Valid (suc n) d p s valid = elim (Bool-cases (d % 4 == 0 && p % 4 == 0)) [
    | inl aligned ↦ rw (copy_head-stop m n d p s aligned) valid
    | inr skewed ↦ rw (copy_head-step m n d p s skewed) (
        copy_head-Valid n (d + 1) (p + 1) (m.put d (m.get s p) s)
          (synced.put-Valid d (m.get s p) s valid))
  ]

  copy_words-Valid : (n d p : ℕ) (s : S) → Valid s → Valid (copy_words m n d p s).now
  unfolding copy_words
  copy_words-Valid zero d p s valid = valid
  copy_words-Valid (suc zero) d p s valid = valid
  copy_words-Valid (suc (suc zero)) d p s valid = valid
  copy_words-Valid (suc (suc (suc zero))) d p s valid = valid
  copy_words-Valid (suc (suc (suc (suc n)))) d p s valid =
      copy_words-Valid n (d + 4) (p + 4) (store_n m 4 (load_n m 4 p s) d s)
        (store_n-Valid m Valid synced 4 (load_n m 4 p s) d s valid)

  copy_tail-Valid : (n d p : ℕ) (s : S) → Valid s → Valid (copy_tail m n d p s)
  unfolding copy_tail
  copy_tail-Valid zero d p s valid = valid
  copy_tail-Valid (suc n) d p s valid =
      copy_tail-Valid n (d + 1) (p + 1) (m.put d (m.get s p) s)
        (synced.put-Valid d (m.get s p) s valid)

  pub copy_block-Valid : (len d p : ℕ) (s : S) → Valid s → Valid (copy_block m len d p s)
  unfolding copy_block
  copy_block-Valid len d p s valid =
      let head = copy_head m len d p s in
      let body = copy_words m head.left head.to head.from head.now in
      copy_tail-Valid body.left body.to body.from body.now
        (copy_words-Valid head.left head.to head.from head.now (copy_head-Valid len d p s valid))
