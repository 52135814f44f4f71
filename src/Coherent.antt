-- ===== src/Coherent.antt =====
-- Cores with private caches over one memory: what the cache instructions of hal/sources/cache.c do
-- to the bytes that a core sees, and the memory of openamp/platform/shmem_ops.c on such a core.
pub mod Lines
pub mod Core
pub mod Message
mod Tests
use t113_c.Base.{
  ℕ, ◌≡◌, ◌+◌, ◌/◌, ◌%◌, ◌==◌, if◌then◌else◌, Bool, true, false, ◌&&◌, ◌||◌, not, List, [], ◌∷◌,
}
use t113_c.Hw.{Event, Trace, LineOp, CacheOp, line, cache, dcache_cpa, dcache_ipa, dcache_cipa}
use t113_c.Hw.{icache_ipa, dcache_call, dcache_ciall, dcache_iall, icache_iall}
use t113_c.Sys.{metal_machine_cache_flush, metal_machine_cache_invalidate}
use t113_c.Shmem.Interface.{Memory}

-- The memory, and for each 64-byte line whether this core's cache holds it and has changed it; and the
-- addresses of the core's stores, latest first. Lines are not evicted.
pub record Cached : Type 0 where
  pub mem : ℕ → ℕ
  pub content : ℕ → ℕ
  pub held : ℕ → Bool
  pub dirty : ℕ → Bool
  pub stores : List ℕ

-- What the core sees at an address.
abbrev pub view : Cached → ℕ → ℕ
view s b = if s.held (b / 64) then s.content b else s.mem b

-- A clean cached line agrees with memory: no other core has written it since it was fetched.
abbrev pub Valid : Cached → Type 0
Valid s = (b : ℕ) → (s.held (b / 64) && not (s.dirty (b / 64))) ≡ true → s.content b ≡ s.mem b

-- Write-back and removal of the lines that a test picks, as the instruction set describes them.
abbrev pub clean : (ℕ → Bool) → Cached → Cached
clean picked s = record s {
  mem = λ b.
      if picked (b / 64) && (s.held (b / 64) && s.dirty (b / 64)) then s.content b else s.mem b;
  dirty = λ l. if picked l then false else s.dirty l;
}

abbrev pub drop : (ℕ → Bool) → Cached → Cached
drop picked s = record s { held = λ l. if picked l then false else s.held l }

abbrev pub on_line : LineOp → (ℕ → Bool) → Cached → Cached
on_line dcache_cpa picked s = clean picked s
on_line dcache_ipa picked s = drop picked s
on_line dcache_cipa picked s = drop picked (clean picked s)
on_line icache_ipa picked s = s

abbrev pub on_cache : CacheOp → Cached → Cached
on_cache dcache_call s = clean (λ l. true) s
on_cache dcache_ciall s = drop (λ l. true) (clean (λ l. true) s)
on_cache dcache_iall s = drop (λ l. true) s
on_cache icache_iall s = s

abbrev pub perform : Event → Cached → Cached
perform (line op a) s = on_line op (λ l. a / 64 == l) s
perform (cache op) s = on_cache op s
perform _ s = s

-- The state after a history, from the state before it.
pub replay : Trace → Cached → Cached
replay [] s = s
replay (e ∷ t) s = perform e (replay t s)

-- Whether a store to an address that is not cached fetches its line, after the stores so far: never
-- without write allocation, and with it perhaps not after a run of stores (the bits WA and AMR that
-- hal/sources/cache.c sets).
abbrev pub Allocates : Type 0
Allocates = List ℕ → ℕ → Bool

-- A store changes the line in the cache, if the cache holds it or fetches it, and memory if not.
pub store_byte : Allocates → ℕ → ℕ → Cached → Cached
store_byte allocates a v s =
    if s.held (a / 64) || allocates s.stores a
    then record s {
      content = λ b. if a == b then v % 256 else view s b;
      held = λ l. a / 64 == l || s.held l;
      dirty = λ l. a / 64 == l || s.dirty l;
      stores = a ∷ s.stores;
    }
    else record s { mem = λ b. if a == b then v % 256 else s.mem b; stores = a ∷ s.stores }

-- The memory system of one core. `fuel` is that of the line loops.
abbrev pub core : Allocates → ℕ → Memory Cached
core allocates fuel = record {
  get = λ s b. view s b % 256;
  put = store_byte allocates;
  flush = λ a n s. replay (metal_machine_cache_flush fuel a n []).1 s;
  invalidate = λ a n s. replay (metal_machine_cache_invalidate fuel a n []).1 s;
}
