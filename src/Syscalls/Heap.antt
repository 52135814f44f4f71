-- ===== src/Syscalls/Heap.antt =====
-- `_sbrk_r`: the blocks that it grants.
use t113_c.Base.{ℕ, ◌+◌, ◌^◌, ◌≤◌, ◌<◌, ltb, ◌≡◌, refl, arith}
use t113_c.Base.{
  List, [], ◌∷◌, Option, none, some, u64, pos, Bool-cases, inl, inr, ltb→lt, ltb_false→le, lt→ltb,
  le→ltb_false,
}
use t113_c.Syscalls.{sbrk_r, current}
use native.Mathlib.Nat.{mod-eq_of_lt}

-- A granted block, by its first address and its size.
pub record Block : Type 0 where
  pub start : ℕ
  pub size : ℕ

module _ (bss_end heap_limit : ℕ) where
  -- A sequence of requests for more memory, and the blocks that it is granted, latest first.
  pub grow : List ℕ → Option ℕ → List Block → Option ℕ × List Block
  grow [] h blocks = (h, blocks)
  grow (n ∷ ns) h blocks =
      let (got, h') = sbrk_r bss_end heap_limit (pos n) h in
      grow ns h' (elim got [ none ↦ blocks | some p ↦ record { start = p; size = n } ∷ blocks ])

  -- The blocks lie end to end from the end of the static data up to `top`.
  abbrev pub EndToEnd : List Block → ℕ → Type 0
  EndToEnd [] top = bss_end ≡ top
  EndToEnd (b ∷ bs) top = (b.start + b.size ≡ top) × EndToEnd bs b.start

  abbrev pub Packed : Option ℕ → List Block → Type 0
  Packed h blocks =
      EndToEnd blocks (current bss_end heap_limit h) × (current bss_end heap_limit h ≤ heap_limit)

  -- Requests below 2 ^ 63.
  abbrev pub Moderate : List ℕ → Type 0
  Moderate [] = Unit
  Moderate (n ∷ ns) = (n < 2 ^ 63) × Moderate ns

  abbrev grown : ℕ → Option ℕ → ℕ
  grown n h = current bss_end heap_limit h + n

  grow-granted :
      (n : ℕ) (ns : List ℕ) (h : Option ℕ) (blocks : List Block)
      → grown n h ≤ heap_limit
      → heap_limit < 2 ^ 63
      → let block : Block = record { start = current bss_end heap_limit h; size = n } in
        grow (n ∷ ns) h blocks ≡ grow ns (some (grown n h)) (block ∷ blocks)
  unfolding grow sbrk_r
  grow-granted n ns h blocks fits small =
      let flat : u64 (grown n h) ≡ grown n h =
        mod-eq_of_lt {n = grown n h} {m = 2 ^ 64} (omega arith) in
      ground (arith, flat, le→ltb_false heap_limit (grown n h) fits)

  grow-refused :
      (n : ℕ) (ns : List ℕ) (h : Option ℕ) (blocks : List Block)
      → heap_limit < grown n h
      → current bss_end heap_limit h ≤ heap_limit
      → heap_limit < 2 ^ 63
      → n < 2 ^ 63
      → grow (n ∷ ns) h blocks ≡ grow ns (some (current bss_end heap_limit h)) blocks
  unfolding grow sbrk_r
  grow-refused n ns h blocks over inside small moderate =
      let flat : u64 (grown n h) ≡ grown n h =
        mod-eq_of_lt {n = grown n h} {m = 2 ^ 64} (omega arith) in
      ground (arith, flat, lt→ltb heap_limit (grown n h) over)

  -- A heap below 2 ^ 63 whose blocks lie end to end from the end of the static data and below the
  -- limit is so still after any sequence of requests below 2 ^ 63, refused ones included.
  pub grow-Packed :
      (ns : List ℕ) (h : Option ℕ) (blocks : List Block)
      → heap_limit < 2 ^ 63
      → Moderate ns
      → Packed h blocks
      → let (h', blocks') = grow ns h blocks in Packed h' blocks'
  grow-Packed [] h blocks small moderate packed = unfold grow in packed
  grow-Packed (n ∷ ns) h blocks small moderate (joined, inside) =
      elim (Bool-cases (ltb heap_limit (grown n h))) [
        | inl over ↦ rw (grow-refused n ns h blocks (ltb→lt _ _ over) inside small moderate.0) (
            grow-Packed ns (some (current bss_end heap_limit h)) blocks small moderate.1
              (joined, inside))
        | inr fits ↦
            rw (grow-granted n ns h blocks (ltb_false→le heap_limit (grown n h) fits) small) (
              grow-Packed ns (some (current bss_end heap_limit h + n)) _ small moderate.1
                ((refl, joined), ltb_false→le heap_limit (grown n h) fits))
      ]
