-- ===== src/Msgbox/Send.antt =====
-- `msgbox_send`: the word is written once, as soon as the peer's FIFO has room, or not at all.
use t113_c.Base.{ℕ, zero, suc, ◌-◌, ◌%◌, ◌^◌, ◌<◌, ◌≤◌, ◌==◌, ltb, if◌then◌else◌, ◌≡◌, refl}
use t113_c.Base.{true, false, arith, ◌∷◌, some, bit_and, ◌>>>◌, pos, negsuc, ◌∙◌}
use t113_c.Base.{lt→ltb, le→ltb_false}
use t113_c.Hw.{Device, Trace, answer, readl, writel, load, store, w32, nops, log, warn, debug}
use t113_c.Delay.{udelay}
use t113_c.Msgbox.{Msgbox, peer_status_reg, peer_fifo_reg, msg_num_mask, reg_bits_get, wait_room}
use t113_c.Msgbox.{msgbox_send}

module _ (dev : Device) (mb : Msgbox) where
  -- The number of words that the peer's status reports after the history `t`.
  abbrev pub queued : Trace → ℕ
  queued t = bit_and (answer dev w32 (peer_status_reg mb) t >>> 0) msg_num_mask

  -- One look at the status.
  abbrev pub looked : Trace → Trace
  looked t = load w32 (peer_status_reg mb) (answer dev w32 (peer_status_reg mb) t) ∷ t

  -- The history after `k` looks that found no room, each followed by a delay of one microsecond.
  unfoldable pub waited : ℕ → Trace → Trace
  waited zero t = t
  waited (suc k) t = waited k (nops 200 ∷ looked t)

  -- Before the look `k` there was no room.
  abbrev pub FullBefore : ℕ → Trace → Type 0
  FullBefore k t = (j : ℕ) → j < k → mb.fifo_depth ≤ queued (waited j t)

  wait_room-step :
      (retry : ℕ) (t : Trace)
      → mb.fifo_depth ≤ queued t
      → wait_room dev mb (suc retry) t ≡ wait_room dev mb retry (nops 200 ∷ looked t)
  unfolding wait_room reg_bits_get readl udelay
  wait_room-step retry t full =
      let test : ltb (queued t) mb.fifo_depth ≡ false = le→ltb_false _ _ full in
      ground (arith, test)

  wait_room-found :
      (retry : ℕ) (t : Trace)
      → queued t < mb.fifo_depth
      → wait_room dev mb (suc retry) t ≡ (suc retry, looked t)
  unfolding wait_room reg_bits_get readl
  wait_room-found retry t room =
      let test : ltb (queued t) mb.fifo_depth ≡ true = lt→ltb _ _ room in ground (arith, test)

  wait_room-room :
      (k retry : ℕ) (t : Trace)
      → k < retry
      → FullBefore k t
      → queued (waited k t) < mb.fifo_depth
      → wait_room dev mb retry t ≡ (retry - k, looked (waited k t))
  unfolding waited
  wait_room-room k zero t h full room = absurd (omega arith)
  wait_room-room zero (suc retry) t h full room = wait_room-found retry t room ∙ ground arith
  wait_room-room (suc k) (suc retry) t h full room =
      wait_room-step retry t (full 0 (omega arith))
      ∙ wait_room-room k retry (nops 200 ∷ looked t) (omega arith)
          (λ j lt. full (suc j) (omega arith)) room
      ∙ ground arith

  wait_room-full :
      (retry : ℕ) (t : Trace) → FullBefore retry t → wait_room dev mb retry t ≡ (0, waited retry t)
  unfolding waited
  wait_room-full zero t full = unfold wait_room in refl
  wait_room-full (suc retry) t full =
      wait_room-step retry t (full 0 (omega arith))
      ∙ wait_room-full retry (nops 200 ∷ looked t) (λ j lt. full (suc j) (omega arith))

  -- If the peer's FIFO first has room at the look `k`, one of the first 5000, `msgbox_send` returns 0:
  -- after `k` waits it writes the word to the peer's FIFO register, once, and nothing else.
  pub msgbox_send-room :
      (k word : ℕ) (t : Trace)
      → k < 5000
      → FullBefore k t
      → queued (waited k t) < mb.fifo_depth
      → let sent = store w32 (peer_fifo_reg mb) (word % 2 ^ 32) ∷ looked (waited k t) in
        msgbox_send dev (some mb) word t
        ≡ (pos 0, if word == 0 then sent else log debug "send: vqid=%u" ∷ sent)
  unfolding msgbox_send writel
  msgbox_send-room k word t h full room = ground (arith, wait_room-room k 5000 t h full room)

  -- If all of 5000 looks find the peer's FIFO full, `msgbox_send` returns -1 and has written to no
  -- register.
  pub msgbox_send-full :
      (word : ℕ) (t : Trace)
      → FullBefore 5000 t
      → msgbox_send dev (some mb) word t
        ≡ (negsuc 0, log warn "send timeout: remote=%d n=%d p=%d" ∷ waited 5000 t)
  unfolding msgbox_send
  msgbox_send-full word t full = ground (arith, wait_room-full 5000 t full)
