-- ===== src/Shmem/Access.antt =====
-- `shmem_metal_io_read` and `shmem_metal_io_write`: what is written is read back.
use t113_c.Base.{zero, suc, ℕ, ◌+◌, ◌/◌, ◌%◌, ◌^◌, ◌==◌, if◌then◌else◌, ◌≡◌, ◌≢◌, arith, u32}
use t113_c.Shmem.Interface.{Memory, IsMemory, IsSynced}
use t113_c.Shmem.Bytes.{load_n-store_n}
use t113_c.Shmem.{store_n, is_width, shmem_metal_io_read, shmem_metal_io_write}

pub store_n-Valid :
    {S : Type 0} (m : Memory S) (Valid : S → Type 0) (synced : IsSynced m Valid) (n v p : ℕ) (s : S)
    → Valid s
    → Valid (store_n m n v p s)
unfolding store_n
store_n-Valid m Valid synced zero v p s valid = valid
store_n-Valid m Valid synced (suc n) v p s valid =
    store_n-Valid m Valid synced n (v / 256) (p + 1) (m.put p (v % 256) s)
      (synced.put-Valid p (v % 256) s valid)

-- In a valid state of a memory system with the laws of the interface, a read of a mapped offset after a
-- write of the same width gives the value cut to 8, 16, 32 or 64 bits, and 0 for any other width.
pub io_read-io_write :
    {S : Type 0} (m : Memory S) (Valid : S → Type 0) (virt : ℕ → ℕ) (offset value width : ℕ) (s : S)
    → IsMemory m
    → IsSynced m Valid
    → Valid s
    → virt offset ≢ 0
    → (shmem_metal_io_read m virt offset width (shmem_metal_io_write m virt offset value width s)).0
      ≡ (if width == 1
          then value % 2 ^ 8
          else if width == 2
          then value % 2 ^ 16
          else if width == 4
          then value % 2 ^ 32
          else if width == 8
          then value % 2 ^ 64
          else 0)
unfolding shmem_metal_io_read shmem_metal_io_write is_width
io_read-io_write m Valid virt offset value width s law synced valid mapped =
    let p = virt offset in
    let back = λ (n : ℕ).
      load_n-store_n m law n value p s
        (m.invalidate p (u32 width) (m.flush p (u32 width) (store_n m n value p s)))
        (λ b.
          synced.get-invalidate p (u32 width) b (store_n m n value p s) mapped
            (store_n-Valid m Valid synced n value p s valid)) in
    ground (arith, back 1, back 2, back 4, back 8, back 0)
