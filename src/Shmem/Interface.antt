-- ===== src/Shmem/Interface.antt =====
-- What the shared memory operations need of the memory system: bytes as this core sees them, and
-- the cache functions of libmetal, `metal_cache_flush` and `metal_cache_invalidate`.
use t113_c.Base.{ℕ, ◌%◌, ◌<◌, ◌==◌, if◌then◌else◌, ◌≡◌, ◌≢◌}

pub record Memory (S : Type 0) : Type 0 where
  pub get : S → ℕ → ℕ
  pub put : ℕ → ℕ → S → S
  pub flush : ℕ → ℕ → S → S
  pub invalidate : ℕ → ℕ → S → S

-- A byte reads as it was last written by this core, and a flush of a region changes nothing that
-- the core sees.
pub record IsMemory {S : Type 0} (m : Memory S) : Type 0 where
  pub get-lt : (s : S) (a : ℕ) → m.get s a < 256
  pub get-put :
      (a v b : ℕ) (s : S) → m.get (m.put a v s) b ≡ (if a == b then v % 256 else m.get s b)
  pub get-flush : (a n b : ℕ) (s : S) → a ≢ 0 → m.get (m.flush a n s) b ≡ m.get s b

-- In a valid state, the region that was just flushed can be invalidated and reads the same.
pub record IsSynced {S : Type 0} (m : Memory S) (Valid : S → Type 0) : Type 0 where
  pub put-Valid : (a v : ℕ) (s : S) → Valid s → Valid (m.put a v s)
  pub get-invalidate :
      (a n b : ℕ) (s : S) → a ≢ 0 → Valid s → m.get (m.invalidate a n (m.flush a n s)) b ≡ m.get s b
