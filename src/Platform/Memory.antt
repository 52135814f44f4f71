-- ===== src/Platform/Memory.antt =====
-- The mappings of the remote processor: `platform_rproc_mmap` and `platform_rproc_remove`.
pub mod Freed
use t113_c.Base.{ℕ, zero, suc, ◌-◌, ◌^◌, ◌==◌, if◌then◌else◌, Bool, true, false, ◌||◌, ◌&&◌}
use t113_c.Base.{List, [], ◌∷◌, Option, none, some}
use t113_c.Calls.{
  Call, metal_allocate_memory, metal_free_memory, metal_list_first, metal_list_del,
  metal_list_add_tail, metal_io_init, remoteproc_init_mem, remoteproc_add_mem,
}
use t113_c.Hw.{Hw, Library, Trace, log, debug, skip, return, emit, call, call_pointer, ◌>>=◌, ◌>>◌}

-- METAL_BAD_PHYS, which is -1.
abbrev pub metal_bad_phys : ℕ
metal_bad_phys = 2 ^ 64 - 1

-- `(pa && *pa != METAL_BAD_PHYS) ? *pa : METAL_BAD_PHYS`; `none` is a NULL pointer.
abbrev pub given : Option ℕ → ℕ
given none = metal_bad_phys
given (some a) = a

-- A write through a pointer that may be NULL.
abbrev pub put : Option ℕ → ℕ → Option ℕ
put none a = none
put (some b) a = some a

-- The result, what `pa` and `da` point to afterwards, and the entry whose region `io` gets, 0 if none.
pub record Mapping : Type 0 where
  pub va : ℕ
  pub pa : Option ℕ
  pub da : Option ℕ
  pub entry : ℕ

abbrev pub refused : Option ℕ → Option ℕ → Mapping
refused pa da = record { va = 0; pa = pa; da = da; entry = 0 }

module _ (lib : Library) where
  -- With both addresses known.
  pub add_mapping : ℕ → ℕ → Option ℕ → Option ℕ → ℕ → ℕ → Hw Mapping
  add_mapping lpa lda pa da size attribute = do
    emit (log debug "pa=0x%lx da=0x%lx size=0x%zx va=%p attr=0x%x")
    entry ← call_pointer lib metal_allocate_memory
    elim (entry == 0) [
      | true ↦ return (refused pa da)
      | false ↦ do
        call (remoteproc_init_mem entry lpa lda size)
        call (metal_io_init entry lpa size attribute)
        call (remoteproc_add_mem entry)
        call (metal_list_add_tail entry)
        return (record { va = lpa; pa = put pa lpa; da = put da lda; entry = entry })
    ]

  -- `plat` is `rproc->priv`.
  pub platform_rproc_mmap : ℕ → Option ℕ → Option ℕ → ℕ → ℕ → Hw Mapping
  platform_rproc_mmap plat pa da size attribute =
      if plat == 0 || (given pa == metal_bad_phys && given da == metal_bad_phys)
      then return (refused pa da)
      else add_mapping (if given pa == metal_bad_phys then given da else given pa)
          (if given da == metal_bad_phys then given pa else given da) pa da size attribute

  -- `while ((node = metal_list_first(...)) != NULL)`; `false` is a loop that is still running.
  pub remove_loop : ℕ → Hw Bool
  remove_loop zero = return false
  remove_loop (suc fuel) = do
    entry ← call_pointer lib metal_list_first
    elim (entry == 0) [
      | true ↦ return true
      | false ↦ do call (metal_list_del entry); call (metal_free_memory entry); remove_loop fuel
    ]

  -- `plat` is `rproc->priv`, or 0 where `rproc` is NULL.
  pub platform_rproc_remove : ℕ → ℕ → Hw Bool
  platform_rproc_remove fuel plat = if plat == 0 then return true else remove_loop fuel
