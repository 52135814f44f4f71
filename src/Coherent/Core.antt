-- ===== src/Coherent/Core.antt =====
-- A core with its cache is a memory system, as openamp/platform/shmem_ops.c needs it.
use t113_c.Base.{ℕ, ◌/◌, ◌%◌, ◌==◌, if◌then◌else◌, Bool, true}
use t113_c.Base.{◌≡◌, ◌≢◌, ◌∙◌, ap, arith, [], Bool-cases, inl, inr}
use t113_c.Shmem.Interface.{IsMemory, IsSynced}
use t113_c.Sys.{metal_machine_cache_flush, metal_machine_cache_invalidate}
use t113_c.Coherent.{Cached, Valid, Allocates, view, store_byte, replay, core}
use t113_c.Coherent.Lines.{Cleaned, Dropped, region, flush-Cleaned, invalidate-Dropped}

pub Cleaned-view :
    (picked : ℕ → Bool) (u v : Cached) (b : ℕ) → Cleaned picked u v → view v b ≡ view u b
Cleaned-view picked u v b c = ground (arith, c.mem b, c.content b, c.held (b / 64))

-- A dropped line is seen as memory has it.
pub Dropped-view :
    (picked : ℕ → Bool) (u v : Cached) (b : ℕ)
    → Dropped picked u v
    → view v b ≡ (if picked (b / 64) then u.mem b else view u b)
Dropped-view picked u v b d = ground (arith, d.mem b, d.content b, d.held (b / 64))

-- In a valid state memory has what the core sees once the line is written back.
pub Cleaned-mem :
    (picked : ℕ → Bool) (u v : Cached) (b : ℕ)
    → Valid u
    → picked (b / 64) ≡ true
    → Cleaned picked u v
    → v.mem b ≡ view u b
Cleaned-mem picked u v b valid hit c = ground (arith, c.mem b, valid b, hit)

pub store_byte-Valid :
    (allocates : Allocates) (a v : ℕ) (s : Cached) → Valid s → Valid (store_byte allocates a v s)
unfolding store_byte
store_byte-Valid allocates a v s valid b clean = ground (arith, valid b, ap (λ (x : ℕ). x / 64))

store_byte-view :
    (allocates : Allocates) (a v b : ℕ) (s : Cached)
    → view (store_byte allocates a v s) b % 256 ≡ (if a == b then v % 256 else view s b % 256)
unfolding store_byte
store_byte-view allocates a v b s = ground (arith, ap (λ (x : ℕ). s.held (x / 64)))

pub core-IsMemory : (allocates : Allocates) (fuel : ℕ) → IsMemory (core allocates fuel)
core-IsMemory allocates fuel = record {
  get-lt = λ s a. omega arith;
  get-put = store_byte-view allocates;
  get-flush = λ a n b s ne.
      ap (λ (x : ℕ). x % 256)
        (Cleaned-view (region fuel a n) s (replay (metal_machine_cache_flush fuel a n []).1 s) b
          (flush-Cleaned fuel a n s ne));
}

invalidate_view :
    (fuel a n b : ℕ) (s : Cached)
    → a ≢ 0
    → Valid s
    → let u = replay (metal_machine_cache_flush fuel a n []).1 s in
      view (replay (metal_machine_cache_invalidate fuel a n []).1 u) b ≡ view s b
invalidate_view fuel a n b s ne valid =
    let u = replay (metal_machine_cache_flush fuel a n []).1 s in
    let w = replay (metal_machine_cache_invalidate fuel a n []).1 u in
    let c = flush-Cleaned fuel a n s ne in
    Dropped-view (region fuel a n) u w b (invalidate-Dropped fuel a n u ne)
    ∙ elim (Bool-cases (region fuel a n (b / 64))) [
      | inl hit ↦ rw hit (Cleaned-mem (region fuel a n) s u b valid hit c)
      | inr miss ↦ rw miss (Cleaned-view (region fuel a n) s u b c)
    ]

pub core-IsSynced : (allocates : Allocates) (fuel : ℕ) → IsSynced (core allocates fuel) Valid
core-IsSynced allocates fuel = record {
  put-Valid = store_byte-Valid allocates;
  get-invalidate =
      λ a n b s ne valid. ap (λ (x : ℕ). x % 256) (invalidate_view fuel a n b s ne valid);
}
