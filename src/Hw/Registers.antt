-- ===== src/Hw/Registers.antt =====
-- Registers that keep what is written to them.
use t113_c.Base.Bits.{digit, digit-mod}
use t113_c.Base.{ap, ◌<◌, ◌%◌, ◌^◌, ℕ, ◌==◌, if◌then◌else◌, ◌≡◌, refl, ◌≢◌, arith, [], ◌∷◌}
use Prim.Native.String.{String}
use t113_c.Hw.{csr, log, CsrOp, LogLevel, nops, answer, Width, load, store, Trace, Device, w32}

-- What the trace left in the 32-bit register at `a`, whose value at reset is `r`.
unfoldable pub last_word : ℕ → ℕ → Trace → ℕ
last_word a r [] = r
last_word a r (store w32 b v ∷ t) = if a == b then v else last_word a r t
last_word a r (_ ∷ t) = last_word a r t

-- The device has a plain register at `a`: it reads back the last value that was written.
pub record IsRegister (dev : Device) (a r : ℕ) : Type 0 where
  pub reads_back : (t : Trace) → dev.bus t w32 a ≡ last_word a r t

pub last_word-store_self : (a r v : ℕ) (t : Trace) → last_word a r (store w32 a v ∷ t) ≡ v
unfolding last_word
last_word-store_self a r v t = ground arith

pub last_word-store_ne :
    (a b r v : ℕ) (t : Trace) → a ≢ b → last_word a r (store w32 b v ∷ t) ≡ last_word a r t
unfolding last_word
last_word-store_ne a b r v t ne = ground arith

-- A memory of plain registers, all zero at reset.
abbrev pub memory : Device
memory = record { bus = λ t w a. last_word a 0 t; csr_of = λ t c. 0 }

pub memory-IsRegister : (a : ℕ) → IsRegister memory a 0
memory-IsRegister a = record { reads_back = λ t. refl }

-- Digit `i` of what the next read of the 32-bit register at `a` returns.
abbrev pub bit_at : Device → ℕ → ℕ → Trace → ℕ
bit_at dev a i t = digit (answer dev w32 a t) i

-- After a store to `b`, the register at `a` has the digits of the stored value if `a` is `b`,
-- and its old digits if not.
pub bit_at-store :
    {dev : Device} (a b r v i : ℕ) (t : Trace)
    → IsRegister dev a r
    → i < 32
    → bit_at dev a i (store w32 b (v % 2 ^ 32) ∷ t)
      ≡ (if a == b then digit v i else bit_at dev a i t)
bit_at-store {dev} a b r v i t reg h = ground (
  arith,
  ap (λ (n : ℕ). digit (n % 2 ^ 32) i) (reg.reads_back (store w32 b (v % 2 ^ 32) ∷ t)),
  ap (λ (n : ℕ). digit (n % 2 ^ 32) i) (reg.reads_back t),
  last_word-store_self b r (v % 2 ^ 32) t,
  last_word-store_ne a b r (v % 2 ^ 32) t,
  digit-mod 32 (v % 2 ^ 32) i h,
  digit-mod 32 v i h,
)

-- Events that are no stores to `a` leave the register at `a` alone.
pub bit_at-load :
    {dev : Device} (a r i : ℕ) (w : Width) (b v : ℕ) (t : Trace)
    → IsRegister dev a r
    → bit_at dev a i (load w b v ∷ t) ≡ bit_at dev a i t
unfolding last_word
bit_at-load {dev} a r i w b v t reg = rw (reg.reads_back (load w b v ∷ t), reg.reads_back t) refl

pub bit_at-nops :
    {dev : Device} (a r i n : ℕ) (t : Trace)
    → IsRegister dev a r
    → bit_at dev a i (nops n ∷ t) ≡ bit_at dev a i t
unfolding last_word
bit_at-nops a r i n t reg = rw (reg.reads_back (nops n ∷ t), reg.reads_back t) refl

pub bit_at-csr :
    {dev : Device} (a r i : ℕ) (op : CsrOp) (c v : ℕ) (t : Trace)
    → IsRegister dev a r
    → bit_at dev a i (csr op c v ∷ t) ≡ bit_at dev a i t
unfolding last_word
bit_at-csr a r i op c v t reg = rw (reg.reads_back (csr op c v ∷ t), reg.reads_back t) refl

pub bit_at-log :
    {dev : Device} (a r i : ℕ) (l : LogLevel) (m : String) (t : Trace)
    → IsRegister dev a r
    → bit_at dev a i (log l m ∷ t) ≡ bit_at dev a i t
unfolding last_word
bit_at-log a r i l m t reg = rw (reg.reads_back (log l m ∷ t), reg.reads_back t) refl
