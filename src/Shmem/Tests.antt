-- ===== src/Shmem/Tests.antt =====
-- The shared memory theorems on a memory with no cache, with a region that maps offset 0 to 64.
use t113_c.Base.{ℕ, ◌+◌, ◌%◌, ◌^◌, ◌==◌, if◌then◌else◌, ◌≡◌, ◌≢◌, refl, arith, inl, inr, u8}
use t113_c.Shmem.Interface.{Memory, IsMemory, IsSynced}
use t113_c.Shmem.{shmem_metal_io_read, shmem_metal_io_write, shmem_metal_io_block_read}
use t113_c.Shmem.{shmem_metal_io_block_write, shmem_metal_io_block_set}
use t113_c.Shmem.Copy.{Copied}
use t113_c.Shmem.Copy.Block.{block_read-Copied, block_write-Copied}
use t113_c.Shmem.Access.{io_read-io_write}
use t113_c.Shmem.Fill.{Filled, block_set-Filled}

abbrev flat : Memory (ℕ → ℕ)
flat = record {
  get = λ s a. s a % 256;
  put = λ a v s b. if a == b then v % 256 else s b;
  flush = λ a n s. s;
  invalidate = λ a n s. s;
}

flat-IsMemory : IsMemory flat
flat-IsMemory = record {
  get-lt = λ s a. omega arith;
  get-put = λ a v b s. ground arith;
  get-flush = λ a n b s ne. refl;
}

flat-IsSynced : IsSynced flat (λ s. Unit {0})
flat-IsSynced = record { put-Valid = λ a v s h. tt; get-invalidate = λ a n b s ne h. refl }

abbrev at_64 : ℕ → ℕ
at_64 offset = 64 + offset

abbrev pattern_bytes : ℕ → ℕ
pattern_bytes a = a

at_64-ne : at_64 3 ≢ 0
at_64-ne e = omega arith

-- 6 bytes from 67 on, to 99: three bytes of the head and three of the tail are copied one by one.
block_read_run : (shmem_metal_io_block_read flat at_64 3 99 6 pattern_bytes).1 104 ≡ 72
unfolding shmem_metal_io_block_read t113_c.Shmem.copy_block t113_c.Shmem.copy_head
    t113_c.Shmem.copy_words t113_c.Shmem.copy_tail t113_c.Shmem.store_n t113_c.Shmem.load_n
block_read_run = refl

block_read-Copied_example :
    let (z, t) = shmem_metal_io_block_read flat at_64 3 99 6 pattern_bytes in
    (z ≡ 6) × Copied flat 6 99 67 pattern_bytes t
block_read-Copied_example =
    block_read-Copied flat flat-IsMemory at_64 3 99 6 pattern_bytes at_64-ne (inr (omega arith))

block_write-Copied_example :
    let (z, t) = shmem_metal_io_block_write flat at_64 3 99 6 pattern_bytes in
    (z ≡ 6) × Copied flat 6 67 99 pattern_bytes t
block_write-Copied_example =
    block_write-Copied flat flat-IsMemory at_64 3 99 6 pattern_bytes at_64-ne (inl (omega arith))

block_set-Filled_example :
    Filled flat
      (u8 0x1ab)
      9
      67
      pattern_bytes
      (shmem_metal_io_block_set flat at_64 3 0x1ab 9 pattern_bytes)
block_set-Filled_example =
    block_set-Filled flat at_64 3 0x1ab 9 pattern_bytes flat-IsMemory at_64-ne

io_read-io_write_example :
    (shmem_metal_io_read flat at_64 3 2
      (shmem_metal_io_write flat at_64 3 0x12345 2 pattern_bytes)).0
    ≡ (if 2 == 1
        then 0x12345 % 2 ^ 8
        else if 2 == 2
        then 0x12345 % 2 ^ 16
        else if 2 == 4
        then 0x12345 % 2 ^ 32
        else if 2 == 8
        then 0x12345 % 2 ^ 64
        else 0)
io_read-io_write_example =
    io_read-io_write flat (λ s. Unit {0}) at_64 3 0x12345 2 pattern_bytes flat-IsMemory
      flat-IsSynced tt at_64-ne
