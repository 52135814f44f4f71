-- ===== src/Coherent/Message.antt =====
-- A message through shared memory, between two cores that each have a cache of their own.
use t113_c.Base.{ℕ, ◌+◌, ◌-◌, ◌*◌, ◌/◌, ◌%◌, ◌^◌, ◌≤◌, ◌<◌, ◌≡◌, ◌≢◌, ◌∙◌, ap, arith, [], u32, true}
use native.Mathlib.Nat.{mod-eq_of_lt}
use t113_c.Shmem.{copy_block, shmem_metal_io_block_read, shmem_metal_io_block_write}
use t113_c.Shmem.Copy.{Disjoint}
use t113_c.Shmem.Copy.Loops.{copy_block-Copied}
use t113_c.Shmem.Copy.Block.{block_read-Copied, block_write-flush}
use t113_c.Shmem.Copy.Valid.{copy_block-Valid}
use t113_c.Sys.{metal_machine_cache_flush, metal_machine_cache_invalidate}
use t113_c.Coherent.{Cached, Valid, Allocates, view, replay, core}
use t113_c.Coherent.Lines.{region, region-inside, flush-Cleaned, invalidate-Dropped}
use t113_c.Coherent.Core.{Cleaned-mem, Dropped-view, core-IsMemory, core-IsSynced}

module _ (allocates : Allocates) (fuel : ℕ) (virt : ℕ → ℕ) (offset len i : ℕ)
    (mapped : virt offset ≢ 0) (room : virt offset + len + 64 ≤ 2 ^ 64) (short : len < 2 ^ 32)
    (enough : len + 64 ≤ 64 * fuel) (within : i < len) where
  abbrev base : ℕ
  base = virt offset

  visited : region fuel base (u32 len) ((base + i) / 64) ≡ true
  visited =
      let flat : u32 len ≡ len = mod-eq_of_lt {n = len} {m = 2 ^ 32} short in
      rw flat (region-inside fuel base len (base + i) (omega arith) (omega arith) room enough)

  -- What the writer leaves in memory.
  written :
      (src : ℕ) (w : Cached)
      → Valid w
      → Disjoint len base src
      → (shmem_metal_io_block_write (core allocates fuel) virt offset src len w).1.mem (base + i)
          % 256
        ≡ view w (src + i) % 256
  written src w valid apart =
      let t = copy_block (core allocates fuel) len base src w in
      let v = replay (metal_machine_cache_flush fuel base (u32 len) []).1 t in
      let kept =
        copy_block-Valid (core allocates fuel) Valid (core-IsSynced allocates fuel) len base src w
          valid in
      let stored : v.mem (base + i) ≡ view t (base + i) =
        Cleaned-mem (region fuel base (u32 len)) t v (base + i) kept visited
          (flush-Cleaned fuel base (u32 len) t mapped) in
      let at : src + (base + i - base) ≡ src + i = omega arith in
      let copied =
        copy_block-Copied (core allocates fuel) (core-IsMemory allocates fuel) len base src w apart
          (base + i) in
      rw (block_write-flush (core allocates fuel) virt offset src len w mapped) (
        ap (λ (x : ℕ). x % 256) stored ∙ copied ∙ ground (arith, ap (λ (x : ℕ). view w x % 256) at))

  -- What the reader finds in its buffer.
  found :
      (dst : ℕ) (r : Cached)
      → Disjoint len dst base
      → view (shmem_metal_io_block_read (core allocates fuel) virt offset dst len r).1 (dst + i)
          % 256
        ≡ r.mem (base + i) % 256
  found dst r apart =
      let u = replay (metal_machine_cache_invalidate fuel base (u32 len) []).1 r in
      let seen : view u (base + i) ≡ r.mem (base + i) =
        Dropped-view (region fuel base (u32 len)) r u (base + i)
          (invalidate-Dropped fuel base (u32 len) r mapped)
        ∙ ground (arith, visited) in
      let at : base + (dst + i - dst) ≡ base + i = omega arith in
      let copied =
        (block_read-Copied (core allocates fuel) (core-IsMemory allocates fuel) virt offset dst len
            r mapped apart).1
          (dst + i) in
      copied ∙ ground (arith, ap (λ (x : ℕ). view u x % 256) at) ∙ ap (λ (x : ℕ). x % 256) seen

  -- Two cores map the same shared block, of less than 2 ^ 32 bytes and ending a line below 2 ^ 64. One, in
  -- a valid state, writes a buffer to it; the other, whatever its cache holds, then reads the block
  -- from the memory that the first left. A store to a line that is not cached fetches it or goes to
  -- memory, by any rule. Where no buffer overlaps the block, and the line loops
  -- have fuel for it, byte `i` of the reader's buffer is byte `i` of the writer's.
  pub block_read-block_write :
      (src dst : ℕ) (w r : Cached)
      → Valid w
      → Disjoint len base src
      → Disjoint len dst base
      → ((b : ℕ)
          → r.mem b
            ≡ (shmem_metal_io_block_write (core allocates fuel) virt offset src len w).1.mem b)
      → view (shmem_metal_io_block_read (core allocates fuel) virt offset dst len r).1 (dst + i)
          % 256
        ≡ view w (src + i) % 256
  block_read-block_write src dst w r valid apart_w apart_r shared =
      found dst r apart_r
      ∙ ap (λ (x : ℕ). x % 256) (shared (base + i))
      ∙ written src w valid apart_w
