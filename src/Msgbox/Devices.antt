-- ===== src/Msgbox/Devices.antt =====
-- Small devices on which the mailbox driver is run.
use t113_c.Base.{ℕ, zero, suc, ◌%◌, ◌^◌, ◌==◌, ltb, if◌then◌else◌, true, ◌≡◌, ◌≢◌, refl, arith}
use t113_c.Base.{List, [], ◌∷◌, Option, length, get_or, pos}
use t113_c.Base.Bits.{digit}
use t113_c.Hw.{Device, Trace}
use t113_c.Hw.History.{reads}
use t113_c.Msgbox.{Msgbox, RxCallback, status_reg, fifo_reg}
use t113_c.Msgbox.Fifo.{Holds}

-- The mailbox of the C906 towards the ARM cores.
abbrev pub box_with : Option RxCallback → ℕ → Msgbox
box_with cb priv = record {
  base = 0x03003000 ∷ 0x01701000 ∷ 0x0601F000 ∷ [];
  local_id = 2;
  remote_id = 0;
  local_n = pos 0;
  remote_n = pos 1;
  channel = 0;
  fifo_depth = 8;
  rx_cb = cb;
  rx_priv = priv;
  irq_registered = true;
  irq_count = 0;
  rx_count = 0;
  last_data = 0;
  zero_data_cnt = 0;
}

-- A receive FIFO that was filled with `words` at the start.
pub fifo_bus : List ℕ → Trace → ℕ → ℕ
fifo_bus words t a =
    let taken = reads 0x0601F070 t in
    if a == 0x0601F070
    then get_or words taken 0
    else if a == 0x0601F024
    then (if ltb taken (length words) then 1 else 0)
    else 0

abbrev pub fifo_device : List ℕ → Device
fifo_device words = record { bus = λ t w a. fifo_bus words t a; csr_of = λ t c. 0 }

abbrev pub three_words : List ℕ
three_words = 7 ∷ 0 ∷ 9 ∷ []

pub box-apart :
    (cb : Option RxCallback) (priv : ℕ)
    → status_reg (box_with cb priv) ≢ fifo_reg (box_with cb priv)
unfolding status_reg fifo_reg
box-apart cb priv = omega arith

three_words_fit : (k : ℕ) → get_or three_words k 0 % 2 ^ 32 ≡ get_or three_words k 0
three_words_fit zero = refl
three_words_fit (suc zero) = refl
three_words_fit (suc (suc zero)) = refl
three_words_fit (suc (suc (suc k))) = refl

-- From any history in which the FIFO was not read yet.
pub fifo_device-Holds_at :
    (cb : Option RxCallback) (priv : ℕ) (t : Trace)
    → reads 0x0601F070 t ≡ 0
    → Holds (fifo_device three_words) (box_with cb priv) three_words t
unfolding status_reg fifo_reg fifo_bus digit
fifo_device-Holds_at cb priv t none_read = record {
  status = λ k u e.
      let taken : reads 0x0601F070 u ≡ k = omega (arith, e, none_read) in rw taken (ground arith);
  oldest = λ k u e lt.
      let taken : reads 0x0601F070 u ≡ k = omega (arith, e, none_read) in
      rw taken (three_words_fit k);
}

pub fifo_device-Holds :
    (cb : Option RxCallback) (priv : ℕ)
    → Holds (fifo_device three_words) (box_with cb priv) three_words []
unfolding reads
fifo_device-Holds cb priv = fifo_device-Holds_at cb priv [] refl
