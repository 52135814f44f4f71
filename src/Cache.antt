-- ===== src/Cache.antt =====
-- hal/sources/cache.c: cache maintenance by line and on whole caches, and the cache setup.
pub mod Lines
mod Tests
use t113_c.Base.{
  ℕ, zero, suc, ◌+◌, ◌-◌, ◌%◌, ◌^◌, ltb, if◌then◌else◌, Bool, true, false, bit_and, complement, u32,
  u64,
}
use t113_c.Hw.{
  Hw, return, emit, LineOp, CacheOp, line, cache, sync_i, csr_write, csr_set, ◌>>=◌, ◌>>◌,
}
use t113_c.Hw.{dcache_cpa, dcache_ipa, dcache_cipa, icache_ipa}
use t113_c.Hw.{dcache_call, dcache_ciall, dcache_iall, icache_iall}

-- L1_CACHE_BYTES
abbrev pub l1_cache_bytes : ℕ
l1_cache_bytes = 64

-- `start & ~(L1_CACHE_BYTES - 1)`
abbrev pub align_down : ℕ → ℕ
align_down start = bit_and start (complement 64 (l1_cache_bytes - 1))

-- `for (; i < end; i += L1_CACHE_BYTES)` on fuel. It answers whether the loop has ended.
unfoldable pub line_loop : LineOp → ℕ → ℕ → ℕ → Hw Bool
line_loop op zero i end_ = return false
line_loop op (suc fuel) i end_ = elim (ltb i end_) [
  | false ↦ return true
  | true ↦ (do emit (line op i); line_loop op fuel (u64 (i + l1_cache_bytes)) end_)
]

-- The four range functions differ in the instruction. The barrier is `.long 0x01b0000b`.
unfoldable pub range : LineOp → ℕ → ℕ → ℕ → Hw Bool
range op fuel start end_ = do
  ended ← line_loop op fuel (align_down start) end_
  elim ended [ true ↦ (do emit sync_i; return true) | false ↦ return false ]

abbrev pub dcache_write_back_range : ℕ → ℕ → ℕ → Hw Bool
dcache_write_back_range fuel start end_ = range dcache_cpa fuel start end_

abbrev pub dcache_invalidate_range : ℕ → ℕ → ℕ → Hw Bool
dcache_invalidate_range fuel start end_ = range dcache_ipa fuel start end_

abbrev pub dcache_write_back_invalidate_range : ℕ → ℕ → ℕ → Hw Bool
dcache_write_back_invalidate_range fuel start end_ = range dcache_cipa fuel start end_

abbrev pub icache_invalidate_range : ℕ → ℕ → ℕ → Hw Bool
icache_invalidate_range fuel start end_ = range icache_ipa fuel start end_

abbrev pub flush_data_cache_all : Hw (Unit {0})
flush_data_cache_all = emit (cache dcache_call)

abbrev pub awos_arch_clean_flush_data_cache : Hw (Unit {0})
awos_arch_clean_flush_data_cache = emit (cache dcache_ciall)

abbrev pub invalidate_data_cache : Hw (Unit {0})
invalidate_data_cache = emit (cache dcache_iall)

abbrev pub flush_instruction_cache_all : Hw (Unit {0})
flush_instruction_cache_all = emit (cache icache_iall)

-- `len` is an `unsigned int` here, and an `unsigned long` in the other region functions.
pub invalidate_instruction_cache_region : ℕ → ℕ → ℕ → Hw Bool
invalidate_instruction_cache_region fuel start len =
    icache_invalidate_range fuel start (u64 (start + u32 len))

pub awos_arch_mems_flush_instruction_cache_region : ℕ → ℕ → ℕ → Hw Bool
awos_arch_mems_flush_instruction_cache_region fuel start len =
    icache_invalidate_range fuel start (u64 (start + len))

pub flush_data_cache_region : ℕ → ℕ → ℕ → Hw Bool
flush_data_cache_region fuel start len = dcache_write_back_range fuel start (u64 (start + len))

pub awos_arch_mems_clean_flush_data_cache_region : ℕ → ℕ → ℕ → Hw Bool
awos_arch_mems_clean_flush_data_cache_region fuel start len =
    dcache_write_back_invalidate_range fuel start (u64 (start + len))

pub invalidate_data_cache_region : ℕ → ℕ → ℕ → Hw Bool
invalidate_data_cache_region fuel start len = dcache_invalidate_range fuel start (u64 (start + len))

pub awos_arch_clean_flush_cache_region : ℕ → ℕ → ℕ → Hw Bool
awos_arch_clean_flush_cache_region fuel start len = do
  ended ← awos_arch_mems_clean_flush_data_cache_region fuel start len
  elim ended [
    | true ↦ awos_arch_mems_flush_instruction_cache_region fuel start len
    | false ↦ return false
  ]

abbrev pub awos_arch_clean_flush_cache : Hw (Unit {0})
awos_arch_clean_flush_cache = do invalidate_data_cache; flush_instruction_cache_all

abbrev pub awos_arch_flush_cache : Hw (Unit {0})
awos_arch_flush_cache = do invalidate_data_cache; flush_instruction_cache_all

-- CSR_MCOR, CSR_MHCR, CSR_MXSTATUS and CSR_MHINT
abbrev pub mcor : ℕ
mcor = 0x7c2

abbrev pub mhcr : ℕ
mhcr = 0x7c1

abbrev pub mxstatus : ℕ
mxstatus = 0x7c0

abbrev pub mhint : ℕ
mhint = 0x7c5

pub cache_initialize : Hw (Unit {0})
cache_initialize = do
  csr_write mcor 0x70013
  csr_set mhcr 0x11fc
  csr_set mxstatus 0x638000
  csr_write mhint 0x16e30c

pub data_cache_enable : Hw (Unit {0})
data_cache_enable = csr_set mhcr 0x2

pub instruction_cache_enable : Hw (Unit {0})
instruction_cache_enable = csr_set mhcr 0x1
