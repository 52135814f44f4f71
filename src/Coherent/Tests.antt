-- ===== src/Coherent/Tests.antt =====
-- A message of ten bytes between two cores: the writer's cache has its buffer changed, and the
-- reader's cache holds an old copy of the block.
use t113_c.Base.{ℕ, ◌+◌, ◌%◌, ◌≡◌, ◌≢◌, refl, arith, [], true, false, inl, inr}
use t113_c.Shmem.{shmem_metal_io_block_read, shmem_metal_io_block_write}
use t113_c.Coherent.{Cached, Valid, Allocates, view, core}
use t113_c.Coherent.Message.{block_read-block_write}

abbrev mapped_at : ℕ → ℕ
mapped_at offset = 0x414B0000 + offset

-- No line is fetched for a store.
abbrev never : Allocates
never stores a = false

abbrev writer : Cached
writer = record { mem = λ b. 0; content = λ b. b; held = λ l. true; dirty = λ l. true; stores = [] }

abbrev reader : Cached
reader = record {
  mem = (shmem_metal_io_block_write (core never 8) mapped_at 0 0x1000 10 writer).1.mem;
  content = λ b. 7;
  held = λ l. true;
  dirty = λ l. false;
  stores = [];
}

writer-Valid : Valid writer
writer-Valid b clean = ground arith

mapped_at-ne : mapped_at 0 ≢ 0
mapped_at-ne e = omega arith

block_read-block_write_example :
    view (shmem_metal_io_block_read (core never 8) mapped_at 0 0x2000 10 reader).1 (0x2000 + 4)
      % 256
    ≡ view writer (0x1000 + 4) % 256
block_read-block_write_example =
    block_read-block_write never 8 mapped_at 0 10 4 mapped_at-ne (omega arith) (omega arith)
      (omega arith) (omega arith) 0x1000 0x2000 writer reader writer-Valid (inr (omega arith))
      (inl (omega arith)) (λ b. refl)
