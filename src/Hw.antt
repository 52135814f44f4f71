-- ===== src/Hw.antt =====
-- How the firmware meets its hardware: the accessors of arch/includes/rv_io.h and
-- arch/includes/csr.h, over a device that is a parameter.
pub mod Registers
pub mod Csr
pub mod History
pub mod Bitfield
pub mod Access
use Prim.Native.String.{String}
use t113_c.Base.{ℕ, ◌%◌, ◌^◌, List, ◌∷◌, ℤ}
use t113_c.Calls.{Call}

-- `enum log_level`
pub data LogLevel : Type 0 where
  emerg alert crit error warn notice info debug : LogLevel

-- The widths of the accessors. The firmware uses the first and the third.
pub data Width : Type 0 where
  w8 w16 w32 w64 : Width

abbrev pub modulus : Width → ℕ
modulus w8 = 2 ^ 8
modulus w16 = 2 ^ 16
modulus w32 = 2 ^ 32
modulus w64 = 2 ^ 64

-- The forms of a CSR instruction. The last three read the old value too.
pub data CsrOp : Type 0 where
  csrr csrw csrs csrc csrrc csrrs csrrw : CsrOp

-- The cache instructions: by physical address, and on a whole cache.
pub data LineOp : Type 0 where
  dcache_cpa dcache_ipa dcache_cipa icache_ipa : LineOp

pub data CacheOp : Type 0 where
  dcache_call dcache_ciall dcache_iall icache_iall : CacheOp

-- What the core does to the outside. An access to a device register stands with its fence.
pub data Event : Type 0 where
  load : Width → ℕ → ℕ → Event
  store : Width → ℕ → ℕ → Event
  csr : CsrOp → ℕ → ℕ → Event
  line : LineOp → ℕ → Event
  cache : CacheOp → Event
  sync_i : Event
  fence : Event
  nops : ℕ → Event
  log : LogLevel → String → Event
  notify_give : ℕ → Event
  yield_from_isr : Event
  switch_context : Event
  enter_interrupt exit_interrupt : Event
  library : Call → Event

-- The history of the core, latest event first.
abbrev pub Trace : Type 0
Trace = List Event

-- A device answers each read from all that was done so far. Its own state is a function of that.
pub record Device : Type 0 where
  pub bus : Trace → Width → ℕ → ℕ
  pub csr_of : Trace → ℕ → ℕ

-- A library answers each call from all that was done so far: with a code, or with a pointer or count.
pub record Library : Type 0 where
  pub code : Call → Trace → ℤ
  pub pointer : Call → Trace → ℕ

-- Code that acts on the outside.
abbrev pub Hw : Type 0 → Type 0
Hw A = Trace → A × Trace

infixl 5 ◌>>=◌ ◌>>◌
abbrev pub ◌>>=◌ : {A B : Type 0} → Hw A → (A → Hw B) → Hw B
◌>>=◌ m f t = let (a, t') = m t in f a t'

abbrev pub ◌>>◌ : {B : Type 0} → Hw (Unit {0}) → Hw B → Hw B
◌>>◌ m k t = let (_, t') = m t in k t'

abbrev pub return : {A : Type 0} → A → Hw A
return a t = (a, t)

abbrev pub skip : Hw (Unit {0})
skip t = (tt, t)

abbrev pub emit : Event → Hw (Unit {0})
emit e t = (tt, e ∷ t)

-- `writeb` and `writel`. The stored value is cut to the width.
unfoldable pub writeb : ℕ → ℕ → Hw (Unit {0})
writeb v a = emit (store w8 a (v % 2 ^ 8))

unfoldable pub writel : ℕ → ℕ → Hw (Unit {0})
writel v a = emit (store w32 a (v % 2 ^ 32))

unfoldable pub csr_write : ℕ → ℕ → Hw (Unit {0})
csr_write c v = emit (csr csrw c v)

unfoldable pub csr_set : ℕ → ℕ → Hw (Unit {0})
csr_set c v = emit (csr csrs c v)

unfoldable pub csr_clear : ℕ → ℕ → Hw (Unit {0})
csr_clear c v = emit (csr csrc c v)

module _ (dev : Device) where
  -- What a read of a register returns after the history `t`.
  abbrev pub answer : Width → ℕ → Trace → ℕ
  answer w a t = dev.bus t w a % modulus w

  unfoldable pub readb : ℕ → Hw ℕ
  readb a t = let v = answer w8 a t in (v, load w8 a v ∷ t)

  unfoldable pub readl : ℕ → Hw ℕ
  readl a t = let v = answer w32 a t in (v, load w32 a v ∷ t)

  abbrev pub csr_answer : ℕ → Trace → ℕ
  csr_answer c t = dev.csr_of t c % 2 ^ 64

  unfoldable pub csr_read : ℕ → Hw ℕ
  csr_read c t = let v = csr_answer c t in (v, csr csrr c v ∷ t)

  unfoldable pub csr_read_clear : ℕ → ℕ → Hw ℕ
  csr_read_clear c m t = let v = csr_answer c t in (v, csr csrrc c m ∷ t)

  unfoldable pub csr_read_set : ℕ → ℕ → Hw ℕ
  csr_read_set c m t = let v = csr_answer c t in (v, csr csrrs c m ∷ t)

  unfoldable pub csr_swap : ℕ → ℕ → Hw ℕ
  csr_swap c v t = let old = csr_answer c t in (old, csr csrrw c v ∷ t)

-- A call stands for all that the library does in it.
abbrev pub call : Call → Hw (Unit {0})
call c = emit (library c)

module _ (lib : Library) where
  abbrev pub call_code : Call → Hw ℤ
  call_code c t = (lib.code c t, library c ∷ t)

  abbrev pub call_pointer : Call → Hw ℕ
  call_pointer c t = (lib.pointer c t, library c ∷ t)
