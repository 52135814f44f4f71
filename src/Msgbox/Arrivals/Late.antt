-- ===== src/Msgbox/Arrivals/Late.antt =====
-- A device whose receive FIFO a word enters with the first look at its status.
use t113_c.Base.{
  ℕ, zero, suc, ◌≤◌, ◌%◌, ◌^◌, ◌==◌, ltb, if◌then◌else◌, Bool, true, false, ◌≡◌, ◌≢◌, refl, arith,
}
use t113_c.Base.{List, [], ◌∷◌, some, length, get_or, Bool-cases, inl, inr}
use t113_c.Base.Bits.{digit}
use t113_c.Calls.{remoteproc_get_notification}
use t113_c.Hw.{Event, Device, Trace, load, w32, call}
use t113_c.Msgbox.{Driver, deliver, status_reg, fifo_reg}
use t113_c.Msgbox.Devices.{box_with}
use t113_c.Msgbox.Arrivals.{taken, Grown}
use t113_c.Msgbox.Arrivals.Loop.{IsCall, FedBy}

abbrev is_look : Event → Bool
is_look (load w32 a v) = a == 0x0601F024
is_look _ = false

-- The word 7 enters with the first look at the status.
unfoldable pub late : Trace → List ℕ
late [] = []
late (e ∷ t) = let ws = late t in if length ws == 0 then (if is_look e then 7 ∷ [] else []) else ws

pub late-bound : (t : Trace) → length (late t) ≤ 1
unfolding late
late-bound [] = omega arith
late-bound (e ∷ t) = ground (arith, late-bound t)

first_fits :
    (b : Bool) (k : ℕ)
    → get_or (if b then 7 ∷ [] else []) k 0 % 2 ^ 32 ≡ get_or (if b then 7 ∷ [] else []) k 0
first_fits true zero = refl
first_fits true (suc k) = refl
first_fits false k = refl

late-fits : (k : ℕ) (t : Trace) → get_or (late t) k 0 % 2 ^ 32 ≡ get_or (late t) k 0
unfolding late
late-fits k [] = refl
late-fits k (e ∷ t) = elim (Bool-cases (length (late t) == 0)) [
  | inl none_yet ↦ rw none_yet (first_fits (is_look e) k)
  | inr some_word ↦ rw some_word (late-fits k t)
]

late-Grown : (e : Event) (t : Trace) → Grown late t (e ∷ t)
unfolding late
late-Grown e t = elim (Bool-cases (length (late t) == 0)) [
  | inl none_yet ↦ record {
    longer = ground (arith, none_yet);
    same = λ k lt. absurd (ground (arith, none_yet, lt));
  }
  | inr some_word ↦ record { longer = rw some_word (omega arith); same = λ k lt. rw some_word refl }
]

unfoldable pub late_bus : Trace → ℕ → ℕ
late_bus t a =
    let n = taken late 0x0601F070 t in
    if a == 0x0601F024
    then (if ltb n (length (late t)) then 1 else 0)
    else if a == 0x0601F070
    then get_or (late t) n 0
    else 0

abbrev pub late_device : Device
late_device = record { bus = λ t w a. late_bus t a; csr_of = λ t c. 0 }

abbrev pub listener : Driver
listener = record {
  mb = box_with (some (λ p w. call (remoteproc_get_notification w))) 1;
  last_vqid = 0;
  repeat = 0;
}

pub listener-IsCall : IsCall remoteproc_get_notification listener.mb
unfolding deliver
listener-IsCall w u = refl

pub late-FedBy : FedBy late_device late remoteproc_get_notification listener
unfolding late_bus status_reg fifo_reg digit
late-FedBy = record {
  pending = λ t. ground arith;
  oldest = λ t lt. late-fits (taken late 0x0601F070 t) t;
  grows = late-Grown;
}

pub apart : fifo_reg listener.mb ≢ status_reg listener.mb
unfolding fifo_reg status_reg
apart e = omega (arith, e)

pub nothing_taken : taken late (fifo_reg listener.mb) [] ≡ 0
unfolding taken
nothing_taken = refl
