-- ===== src/Hw/History.antt =====
-- What a history says of one 32-bit register.
use t113_c.Base.{ℕ, suc, ◌==◌, if◌then◌else◌, ◌≡◌, ◌≢◌, arith, List, [], ◌∷◌, ◌++◌}
use t113_c.Calls.{Call}
use t113_c.Hw.{Trace, load, store, w8, w32, library}

-- How often the register at `a` was read.
unfoldable pub reads : ℕ → Trace → ℕ
reads a [] = 0
reads a (load w32 b v ∷ t) = if a == b then suc (reads a t) else reads a t
reads a (_ ∷ t) = reads a t

-- The values that were written to the register at `a`, oldest first.
unfoldable pub writes : ℕ → Trace → List ℕ
writes a [] = []
writes a (store w32 b v ∷ t) = if a == b then writes a t ++ (v ∷ []) else writes a t
writes a (_ ∷ t) = writes a t

pub reads-load_self : (a v : ℕ) (t : Trace) → reads a (load w32 a v ∷ t) ≡ suc (reads a t)
unfolding reads
reads-load_self a v t = ground arith

pub reads-load_ne : (a b v : ℕ) (t : Trace) → a ≢ b → reads a (load w32 b v ∷ t) ≡ reads a t
unfolding reads
reads-load_ne a b v t ne = ground arith

-- The bytes that were written to, or read from, the 8-bit register at `a`, oldest first.
unfoldable pub bytes_out : ℕ → Trace → List ℕ
bytes_out a [] = []
bytes_out a (store w8 b v ∷ t) = if a == b then bytes_out a t ++ (v ∷ []) else bytes_out a t
bytes_out a (_ ∷ t) = bytes_out a t

unfoldable pub bytes_in : ℕ → Trace → List ℕ
bytes_in a [] = []
bytes_in a (load w8 b v ∷ t) = if a == b then bytes_in a t ++ (v ∷ []) else bytes_in a t
bytes_in a (_ ∷ t) = bytes_in a t

-- The calls of the libraries, latest first.
unfoldable pub called : Trace → List Call
called [] = []
called (library c ∷ t) = c ∷ called t
called (_ ∷ t) = called t
