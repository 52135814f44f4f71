-- ===== src/Shmem.antt =====
-- openamp/platform/shmem_ops.c: the accesses to shared memory that libmetal is given.
pub mod Interface
pub mod Bytes
pub mod Copy
pub mod Fill
pub mod Access
mod Tests
use t113_c.Base.{ℕ, zero, suc, ◌+◌, ◌-◌, ◌*◌, ◌/◌, ◌%◌, ◌^◌, ◌==◌, if◌then◌else◌, true, false, ◌&&◌}
use t113_c.Base.{bit_or, ◌<<<◌, u8, u32}
use Interface.{Memory}

-- The widths that have an atomic type.
pub is_width : ℕ → ℕ
is_width w =
    if w == 1 then 1 else if w == 2 then 2 else if w == 4 then 4 else if w == 8 then 8 else 0

-- `for (i = 1; i < sizeof(int); i++) cint |= value << (CHAR_BIT * i)`
pub spread : ℕ → ℕ
spread value =
    bit_or (bit_or (bit_or value (u32 (value <<< 8))) (u32 (value <<< 16))) (u32 (value <<< 24))

-- What a loop leaves: the length that is left, the two pointers and the memory.
pub record Progress (S : Type 0) : Type 0 where
  pub left : ℕ
  pub to : ℕ
  pub from : ℕ
  pub now : S

-- Pointers stay within one object, so that their sums do not wrap. A length is not negative.
module _ {S : Type 0} (m : Memory S) where
  -- Loads and stores of `n` bytes; the core is little-endian.
  pub load_n : ℕ → ℕ → S → ℕ
  load_n zero p s = 0
  load_n (suc n) p s = m.get s p + 256 * load_n n (p + 1) s

  pub store_n : ℕ → ℕ → ℕ → S → S
  store_n zero v p s = s
  store_n (suc n) v p s = store_n n (v / 256) (p + 1) (m.put p (v % 256) s)

  -- `virt` is `metal_io_virt` of the region, where 0 is NULL. The memory order has no part in it.
  pub shmem_metal_io_read : (ℕ → ℕ) → ℕ → ℕ → S → ℕ × S
  shmem_metal_io_read virt offset width s =
      let ptr = virt offset in
      if ptr == 0
      then (0, s)
      else (let s1 = m.invalidate ptr (u32 width) s in (load_n (is_width width) ptr s1, s1))

  pub shmem_metal_io_write : (ℕ → ℕ) → ℕ → ℕ → ℕ → S → S
  shmem_metal_io_write virt offset value width s =
      let ptr = virt offset in
      if ptr == 0 then s else m.flush ptr (u32 width) (store_n (is_width width) value ptr s)

  -- Byte by byte, until both pointers are aligned.
  pub copy_head : ℕ → ℕ → ℕ → S → Progress S
  copy_head zero d p s = record { left = 0; to = d; from = p; now = s }
  copy_head (suc n) d p s = elim (d % 4 == 0 && p % 4 == 0) [
    | true ↦ record { left = suc n; to = d; from = p; now = s }
    | false ↦ copy_head n (d + 1) (p + 1) (m.put d (m.get s p) s)
  ]

  -- Word by word.
  pub copy_words : ℕ → ℕ → ℕ → S → Progress S
  copy_words (suc (suc (suc (suc n)))) d p s =
      copy_words n (d + 4) (p + 4) (store_n 4 (load_n 4 p s) d s)
  copy_words n d p s = record { left = n; to = d; from = p; now = s }

  pub copy_tail : ℕ → ℕ → ℕ → S → S
  copy_tail zero d p s = s
  copy_tail (suc n) d p s = copy_tail n (d + 1) (p + 1) (m.put d (m.get s p) s)

  -- The three loops, which both block copies have.
  pub copy_block : ℕ → ℕ → ℕ → S → S
  copy_block len d p s =
      let head = copy_head len d p s in
      let body = copy_words head.left head.to head.from head.now in
      copy_tail body.left body.to body.from body.now

  pub shmem_metal_io_block_read : (ℕ → ℕ) → ℕ → ℕ → ℕ → S → ℕ × S
  shmem_metal_io_block_read virt offset dst len s =
      let ptr = virt offset in
      if ptr == 0 then (0, s) else (len, copy_block len dst ptr (m.invalidate ptr (u32 len) s))

  pub shmem_metal_io_block_write : (ℕ → ℕ) → ℕ → ℕ → ℕ → S → ℕ × S
  shmem_metal_io_block_write virt offset src len s =
      let ptr = virt offset in
      if ptr == 0 then (0, s) else (len, m.flush ptr (u32 len) (copy_block len ptr src s))

  pub fill_head : ℕ → ℕ → ℕ → S → Progress S
  fill_head value zero p s = record { left = 0; to = p; from = 0; now = s }
  fill_head value (suc n) p s = elim (p % 4 == 0) [
    | true ↦ record { left = suc n; to = p; from = 0; now = s }
    | false ↦ fill_head value n (p + 1) (m.put p value s)
  ]

  pub fill_words : ℕ → ℕ → ℕ → S → Progress S
  fill_words cint (suc (suc (suc (suc n)))) p s = fill_words cint n (p + 4) (store_n 4 cint p s)
  fill_words cint n p s = record { left = n; to = p; from = 0; now = s }

  pub fill_tail : ℕ → ℕ → ℕ → S → S
  fill_tail value zero p s = s
  fill_tail value (suc n) p s = fill_tail value n (p + 1) (m.put p value s)

  -- `value` is an `unsigned char`.
  pub shmem_metal_io_block_set : (ℕ → ℕ) → ℕ → ℕ → ℕ → S → S
  shmem_metal_io_block_set virt offset value len s =
      let ptr = virt offset in
      if ptr == 0
      then s
      else (let head = fill_head (u8 value) len ptr s in
          let body = fill_words (spread (u8 value)) head.left head.to head.now in
          m.flush ptr (u32 len) (fill_tail (u8 value) body.left body.to body.now))
