-- ===== src/Shmem/Copy/Block.antt =====
-- `shmem_metal_io_block_read` and `shmem_metal_io_block_write`, on any memory system.
use t113_c.Base.{ℕ, ◌≡◌, ◌≢◌, arith, u32}
use t113_c.Shmem.Interface.{Memory, IsMemory}
use t113_c.Shmem.{copy_block, shmem_metal_io_block_read, shmem_metal_io_block_write}
use t113_c.Shmem.Copy.{Disjoint, Copied}
use t113_c.Shmem.Copy.Loops.{copy_block-Copied}

module _ {S : Type 0} (m : Memory S) (law : IsMemory m) (virt : ℕ → ℕ) where
  -- On a region that maps the offset, and a buffer that does not overlap it, `block_read` returns the
  -- length. After it the buffer holds the bytes that the region held once its lines were
  -- invalidated, and every other byte is as the invalidation left it.
  pub block_read-Copied :
      (offset dst len : ℕ) (s : S)
      → virt offset ≢ 0
      → Disjoint len dst (virt offset)
      → let (z, t) = shmem_metal_io_block_read m virt offset dst len s in
        (z ≡ len) × Copied m len dst (virt offset) (m.invalidate (virt offset) (u32 len) s) t
  unfolding shmem_metal_io_block_read
  block_read-Copied offset dst len s mapped apart =
      let s1 = m.invalidate (virt offset) (u32 len) s in
      (ground arith, λ b. ground (arith, copy_block-Copied m law len dst (virt offset) s1 apart b))

  -- On a region that maps the offset, and a buffer that does not overlap it, `block_write` returns the
  -- length. After it this core sees the bytes of the buffer in the region, and every other byte as
  -- before.
  pub block_write-Copied :
      (offset src len : ℕ) (s : S)
      → virt offset ≢ 0
      → Disjoint len (virt offset) src
      → let (z, t) = shmem_metal_io_block_write m virt offset src len s in
        (z ≡ len) × Copied m len (virt offset) src s t
  unfolding shmem_metal_io_block_write
  block_write-Copied offset src len s mapped apart =
      let t = copy_block m len (virt offset) src s in
      (
        ground arith,
        λ b. ground (
          arith,
          law.get-flush (virt offset) (u32 len) b t mapped,
          copy_block-Copied m law len (virt offset) src s apart b,
        ),
      )

module _ {S : Type 0} (m : Memory S) (virt : ℕ → ℕ) where
  -- The two operations as they act on the state, on a mapped offset.
  pub block_write-flush :
      (offset src len : ℕ) (s : S)
      → virt offset ≢ 0
      → (shmem_metal_io_block_write m virt offset src len s).1
        ≡ m.flush (virt offset) (u32 len) (copy_block m len (virt offset) src s)
  unfolding shmem_metal_io_block_write
  block_write-flush offset src len s mapped = ground arith
