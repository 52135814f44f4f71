-- ===== src/Hw/Access/Relay.antt =====
-- What the string forms carry between a register and a buffer.
use t113_c.Base.{
  ℕ, zero, suc, ◌+◌, ◌≤◌, ◌<◌, ◌%◌, ◌^◌, ◌==◌, if◌then◌else◌, ◌≡◌, refl, sym, ◌∙◌, ap, arith, List,
  [], ◌∷◌, ◌++◌, length, u64,
}
use mathlib.Core.List.{append_assoc, append-nil}
use t113_c.Hw.{Width, w8, w16, w32, w64, modulus}
use t113_c.Hw.Access.{
  dev_load, dev_store, mem_load, mem_store, barrier, i_r, w_o, Accesses, Machine, size_of, raw_read,
  raw_write, read_block, write_block, mmio_reads, mmio_writes,
}

-- The values loaded from, and stored to, the register at `a`, oldest first.
unfoldable pub loaded : ℕ → Accesses → List ℕ
loaded a [] = []
loaded a (dev_load w b v ∷ t) = if a == b then loaded a t ++ (v ∷ []) else loaded a t
loaded a (_ ∷ t) = loaded a t

unfoldable pub stored : ℕ → Accesses → List ℕ
stored a [] = []
stored a (dev_store w b v ∷ t) = if a == b then stored a t ++ (v ∷ []) else stored a t
stored a (_ ∷ t) = stored a t

-- The memory keeps what is stored with the width `w`, until a store that overlaps it.
pub record IsMemory (m : Machine) (w : Width) : Type 0 where
  pub reads_back : (a v : ℕ) (t : Accesses) → m.memory (mem_store w a v ∷ t) w a ≡ v
  pub apart :
      (a b v : ℕ) (t : Accesses)
      → b + size_of w ≤ a
      → m.memory (mem_store w a v ∷ t) w b ≡ m.memory t w b
  pub device_load : (a b v : ℕ) (t : Accesses) → m.memory (dev_load w a v ∷ t) w b ≡ m.memory t w b
  pub device_store :
      (a b v : ℕ) (t : Accesses) → m.memory (dev_store w a v ∷ t) w b ≡ m.memory t w b
  pub load : (a b v : ℕ) (t : Accesses) → m.memory (mem_load w a v ∷ t) w b ≡ m.memory t w b
  pub fence : (a : ℕ) (t : Accesses) → m.memory (barrier i_r ∷ t) w a ≡ m.memory t w a
  pub fence_out : (a : ℕ) (t : Accesses) → m.memory (barrier w_o ∷ t) w a ≡ m.memory t w a

-- The bytes of `n` elements.
unfoldable pub span : Width → ℕ → ℕ
span w zero = 0
span w (suc n) = size_of w + span w n

value_fits : (w : Width) (v : ℕ) → v % modulus w < modulus w
value_fits w8 v = omega arith
value_fits w16 v = omega arith
value_fits w32 v = omega arith
value_fits w64 v = omega arith

value_same : (w : Width) (v : ℕ) → v < modulus w → v % modulus w ≡ v
value_same w8 v lt = omega (arith, lt)
value_same w16 v lt = omega (arith, lt)
value_same w32 v lt = omega (arith, lt)
value_same w64 v lt = omega (arith, lt)

loaded_self :
    (w : Width) (a v : ℕ) (t : Accesses) → loaded a (dev_load w a v ∷ t) ≡ loaded a t ++ (v ∷ [])
unfolding loaded
loaded_self w a v t = ground arith

stored_self :
    (w : Width) (a v : ℕ) (t : Accesses) → stored a (dev_store w a v ∷ t) ≡ stored a t ++ (v ∷ [])
unfolding stored
stored_self w a v t = ground arith

module _ (m : Machine) (w : Width) where
  -- The elements from `buf` on are `xs`.
  abbrev Buffered : ℕ → List ℕ → Accesses → Type 0
  Buffered buf [] t = Unit
  Buffered buf (x ∷ xs) t =
      (m.memory t w buf ≡ x) × (x < modulus w) × Buffered (u64 (buf + size_of w)) xs t

  -- A change of the history that memory does not see.
  Buffered-same :
      (xs : List ℕ) (buf : ℕ) (t u : Accesses)
      → ((a : ℕ) → m.memory u w a ≡ m.memory t w a)
      → Buffered buf xs t
      → Buffered buf xs u
  Buffered-same [] buf t u same h = tt
  Buffered-same (x ∷ xs) buf t u same h =
      (same buf ∙ h.0, h.1, Buffered-same xs (u64 (buf + size_of w)) t u same h.2)

  module _ (mem : IsMemory m w) (a : ℕ) where
    -- The loop of reads leaves what lies below its buffer.
    read_block-below :
        (n buf c : ℕ) (t : Accesses)
        → buf + span w n < 2 ^ 64
        → c + size_of w ≤ buf
        → m.memory (read_block m w a buf n t).1 w c ≡ m.memory t w c
    unfolding read_block raw_read span
    read_block-below zero buf c t fits le = refl
    read_block-below (suc n) buf c t fits le =
        let v = m.register t w a % modulus w in
        let next : u64 (buf + size_of w) ≡ buf + size_of w = omega (arith, fits) in
        read_block-below n (u64 (buf + size_of w)) c (mem_store w buf v ∷ dev_load w a v ∷ t)
          (omega (arith, fits, next)) (omega (arith, le, next))
        ∙ mem.apart buf c v (dev_load w a v ∷ t) le
        ∙ mem.device_load a c v t

    read_block-Buffered :
        (n buf : ℕ) (t : Accesses)
        → buf + span w n < 2 ^ 64
        → let u = (read_block m w a buf n t).1 in
          (xs : List ℕ) × (length xs ≡ n) × (loaded a u ≡ loaded a t ++ xs) × Buffered buf xs u
    unfolding read_block raw_read span loaded
    read_block-Buffered zero buf t fits = ([], refl, sym (append-nil (loaded a t)), tt)
    read_block-Buffered (suc n) buf t fits =
        let v = m.register t w a % modulus w in
        let t1 = mem_store w buf v ∷ dev_load w a v ∷ t in
        let next : u64 (buf + size_of w) ≡ buf + size_of w = omega (arith, fits) in
        let (xs, len, log, rest) =
          read_block-Buffered n (u64 (buf + size_of w)) t1 (omega (arith, fits, next)) in
        (
          v ∷ xs,
          ap suc len,
          log
              ∙ ap (λ (l : List ℕ). l ++ xs) (loaded_self w a v t)
              ∙ append_assoc (loaded a t) (v ∷ []) xs,
          (
            read_block-below n (u64 (buf + size_of w)) buf t1 (omega (arith, fits, next))
                  (omega (arith, next))
                ∙ mem.reads_back buf v (dev_load w a v ∷ t),
            value_fits w (m.register t w a),
            rest,
          ),
        )

    write_block-stored :
        (xs : List ℕ) (buf : ℕ) (t : Accesses)
        → Buffered buf xs t
        → stored a (write_block m w a buf (length xs) t).1 ≡ stored a t ++ xs
    unfolding write_block raw_write stored
    write_block-stored [] buf t h = sym (append-nil (stored a t))
    write_block-stored (x ∷ xs) buf t h =
        let v = m.memory t w buf % modulus w in
        let t1 = mem_load w buf v ∷ t in
        let t2 = dev_store w a (v % modulus w) ∷ t1 in
        let same : v % modulus w ≡ x =
          value_same w v (value_fits w (m.memory t w buf))
          ∙ ap (λ (k : ℕ). k % modulus w) h.0
          ∙ value_same w x h.1 in
        write_block-stored xs (u64 (buf + size_of w)) t2 (
          Buffered-same xs (u64 (buf + size_of w)) t t2
            (λ c. mem.device_store a c (v % modulus w) t1 ∙ mem.load buf c v t) h.2)
        ∙ ap (λ (l : List ℕ). l ++ xs)
            (stored_self w a (v % modulus w) t1 ∙ ap (λ (k : ℕ). stored a t ++ (k ∷ [])) same)
        ∙ append_assoc (stored a t) (x ∷ []) xs

  read_block-stored :
      (a b n buf : ℕ) (t : Accesses) → stored b (read_block m w a buf n t).1 ≡ stored b t
  unfolding read_block raw_read stored
  read_block-stored a b zero buf t = refl
  read_block-stored a b (suc n) buf t = read_block-stored a b n (u64 (buf + size_of w)) _

-- With a memory that keeps what is stored in it, and a buffer that ends below 2 ^ 64: a string read of
-- `n` values from one register, and then a string write of the buffer to another, store to the second
-- register exactly the `n` values that were loaded from the first, in order.
pub mmio_writes-mmio_reads :
    (m : Machine) (w : Width) (a b n buf : ℕ) (t : Accesses)
    → IsMemory m w
    → buf + span w n < 2 ^ 64
    → let u = (mmio_reads m w a buf n t).1 in
      let z = (mmio_writes m w b buf n u).1 in
      (xs : List ℕ) × (length xs ≡ n)
      × (loaded a u ≡ loaded a t ++ xs)
      × (stored b z ≡ stored b t ++ xs)
unfolding mmio_reads mmio_writes loaded stored
mmio_writes-mmio_reads m w a b n buf t mem fits =
    let (xs, len, log, kept) = read_block-Buffered m w mem a n buf t fits in
    let u = (read_block m w a buf n t).1 in
    let start = barrier w_o ∷ barrier i_r ∷ u in
    let sent = write_block-stored m w mem b xs buf start (
      Buffered-same m w xs buf u start (λ c. mem.fence_out c (barrier i_r ∷ u) ∙ mem.fence c u)
        kept) in
    (
      xs,
      len,
      log,
      ap (λ (k : ℕ). stored b (write_block m w b buf k start).1) (sym len)
          ∙ sent
          ∙ ap (λ (l : List ℕ). l ++ xs) (read_block-stored m w a b n buf t),
    )
