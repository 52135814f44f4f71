-- ===== src/Platform/Bringup.antt =====
-- The bring-up stops at the first call that fails.
pub mod Order
pub mod Whole
use Prim.Native.String.{String}
use t113_c.Base.{ℕ, ◌==◌, if◌then◌else◌, Bool, true, false, ◌||◌, ◌≡◌, ◌≢◌, refl, ◌∙◌, arith}
use mathlib.Core.Path.{subst}
use t113_c.Base.{List, [], ◌∷◌, ℤ, pos, negsuc, is_zero, Bool-cases, inl, inr}
use t113_c.Calls.{
  Call, metal_init, metal_list_init, remoteproc_init, remoteproc_mmap, remoteproc_set_rsc_table,
  remoteproc_config, remoteproc_start, remoteproc_create_virtio, remoteproc_get_io_with_da,
  rpmsg_init_vdev, rpmsg_create_ept,
}
use t113_c.Hw.{Library, Trace, library, log, error, info}
use t113_c.Hw.History.{called}
use t113_c.Platform.{
  World, OpenampPlatform, Outcome, Step, done, returned, running, check, found, ◌>>◌,
}

-- A call of the bring-up is made once, so that its answer can be given with the call.
module _ (code : Call → ℤ) (pointer : Call → ℕ) where
  abbrev pub steady : Library
  steady = record { code = λ c t. code c; pointer = λ c t. pointer c }

  -- What a call counts as: NULL is -1.
  abbrev pub null_code : ℕ → ℤ
  null_code p = if p == 0 then negsuc 0 else pos 0

  abbrev pub verdict : Call → ℤ
  verdict (remoteproc_init at) = null_code (pointer (remoteproc_init at))
  verdict (remoteproc_mmap pa da size) = null_code (pointer (remoteproc_mmap pa da size))
  verdict (remoteproc_create_virtio id role) =
      null_code (pointer (remoteproc_create_virtio id role))
  verdict (remoteproc_get_io_with_da da) = null_code (pointer (remoteproc_get_io_with_da da))
  verdict metal_list_init = pos 0
  verdict c = code c

  -- The first code that is not 0, or 0, and the calls up to that one, latest first.
  unfoldable pub first_failure : List Call → ℤ
  first_failure [] = pos 0
  first_failure (c ∷ cs) = if is_zero (verdict c) then first_failure cs else verdict c

  unfoldable pub attempted : List Call → List Call → List Call
  attempted [] before = before
  attempted (c ∷ cs) before = if is_zero (verdict c) then attempted cs (c ∷ before) else c ∷ before

  -- A step makes these calls after those before, and ends with the first failure or with 0.
  pub record Follows (cs before : List Call) (r : Outcome ℤ × World) : Type 0 where
    pub outcome :
        r.0 ≡ (if is_zero (first_failure cs) then done (pos 0) else returned (first_failure cs))
    pub calls : called r.1.trace ≡ attempted cs before
    pub ready : r.1.plat.rpmsg_ready ≡ is_zero (first_failure cs)

  -- The rest of the bring-up, from the result of a step.
  abbrev pub proceed : Step ℤ → Outcome (Unit {0}) × World → Outcome ℤ × World
  proceed k r = elim r.0 [
    | done a ↦ k r.1
    | returned z ↦ (returned z, r.1)
    | running ↦ (running, r.1)
  ]

  -- A failing call is the last one.
  pub stop-Follows :
      (c : Call) (cs before : List Call) (w : World)
      → is_zero (verdict c) ≡ false
      → w.plat.rpmsg_ready ≡ false
      → called w.trace ≡ c ∷ before
      → Follows (c ∷ cs) before (returned (verdict c), w)
  unfolding first_failure attempted
  stop-Follows c cs before w bad idle last = record {
    outcome = rw (bad, bad) refl;
    calls = rw bad last;
    ready = rw (bad, bad) idle;
  }

  pub go-Follows :
      (c : Call) (cs before : List Call) (r : Outcome ℤ × World)
      → is_zero (verdict c) ≡ true
      → Follows cs (c ∷ before) r
      → Follows (c ∷ cs) before r
  unfolding first_failure attempted
  go-Follows c cs before r good rest = record {
    outcome = rw good rest.outcome;
    calls = rw good rest.calls;
    ready = rw good rest.ready;
  }

  check-go :
      (text : String) (c : Call) (w : World)
      → is_zero (code c) ≡ true
      → check steady text c w ≡ (done tt, record w { trace = library c ∷ w.trace })
  unfolding check
  check-go text c w good = rw good refl

  check-stop :
      (text : String) (c : Call) (w : World)
      → is_zero (code c) ≡ false
      → check steady text c w
        ≡ (returned (code c), record w { trace = log error text ∷ library c ∷ w.trace })
  unfolding check
  check-stop text c w bad = rw bad refl

  found-go :
      (text : String) (c : Call) (keep : ℕ → OpenampPlatform → OpenampPlatform) (w : World)
      → (pointer c == 0) ≡ false
      → found steady text c keep w
        ≡ (done tt, record w { plat = keep (pointer c) w.plat; trace = library c ∷ w.trace })
  unfolding found
  found-go text c keep w there = rw there refl

  found-stop :
      (text : String) (c : Call) (keep : ℕ → OpenampPlatform → OpenampPlatform) (w : World)
      → (pointer c == 0) ≡ true
      → found steady text c keep w ≡ (
        returned (negsuc 0),
        record w { plat = keep (pointer c) w.plat; trace = log error text ∷ library c ∷ w.trace },
      )
  unfolding found
  found-stop text c keep w null = rw null refl

  pub check-Follows :
      (text : String) (c : Call) (k : Step ℤ) (cs : List Call) (w : World)
      → verdict c ≡ code c
      → w.plat.rpmsg_ready ≡ false
      → Follows cs (c ∷ called w.trace) (k (record w { trace = library c ∷ w.trace }))
      → Follows (c ∷ cs) (called w.trace) (proceed k (check steady text c w))
  unfolding called
  check-Follows text c k cs w same idle rest = elim (Bool-cases (is_zero (code c))) [
    | inl good ↦ rw (check-go text c w good) (
        go-Follows c cs (called w.trace) (k (record w { trace = library c ∷ w.trace }))
          (rw same good) rest)
    | inr bad ↦ rw (check-stop text c w bad) (
        subst
          (λ (z : ℤ).
            Follows (c ∷ cs) (called w.trace)
              (returned z, record w { trace = log error text ∷ library c ∷ w.trace }))
          same
          (stop-Follows c cs (called w.trace)
            (record w { trace = log error text ∷ library c ∷ w.trace }) (rw same bad) idle refl))
  ]

  pub found-Follows :
      (text : String) (c : Call) (keep : ℕ → OpenampPlatform → OpenampPlatform) (k : Step ℤ)
      (cs : List Call) (w : World)
      → verdict c ≡ null_code (pointer c)
      → (keep (pointer c) w.plat).rpmsg_ready ≡ false
      → ((pointer c == 0) ≡ false
          → Follows cs
              (c ∷ called w.trace)
              (k (record w { plat = keep (pointer c) w.plat; trace = library c ∷ w.trace })))
      → Follows (c ∷ cs) (called w.trace) (proceed k (found steady text c keep w))
  unfolding called
  found-Follows text c keep k cs w same idle rest = elim (Bool-cases (pointer c == 0)) [
    | inl null ↦
        let w' : World = record w {
          plat = keep (pointer c) w.plat;
          trace = log error text ∷ library c ∷ w.trace;
        } in
        rw (found-stop text c keep w null) (
          subst (λ (z : ℤ). Follows (c ∷ cs) (called w.trace) (returned z, w'))
            (same ∙ rw null refl)
            (stop-Follows c cs (called w.trace) w' (rw (same, null) refl) idle refl))
    | inr there ↦ rw (found-go text c keep w there) (
        go-Follows c cs (called w.trace)
          (k (record w { plat = keep (pointer c) w.plat; trace = library c ∷ w.trace }))
          (rw (same, there) refl) (rest there))
  ]
