-- ===== src/Msgbox/Counters.antt =====
-- The counters of a mailbox after a run of received words.
use t113_c.Base.{ℕ, suc, ◌+◌, ◌==◌, if◌then◌else◌, ◌≡◌, refl, ap, arith, List, [], ◌∷◌, u32}
use t113_c.Hw.{Device, Trace}
use t113_c.Base.{◌<◌, ◌≢◌, Option, some, length}
use t113_c.Msgbox.{Driver, account, status_reg, fifo_reg, msgbox_poll}
use t113_c.Msgbox.Fifo.{Holds, LeavesFifo, msgbox_poll-receive_all, receive, receive_all}

-- How many of the words are kicks, that is not zero.
pub kicks : List ℕ → ℕ
kicks [] = 0
kicks (w ∷ ws) = if w == 0 then kicks ws else suc (kicks ws)

-- The last kick, or `old` where there is none.
pub last_kick : ℕ → List ℕ → ℕ
last_kick old [] = old
last_kick old (w ∷ ws) = last_kick (if w == 0 then old else w) ws

pub receive_all-counters :
    (dev : Device) (ws : List ℕ) (n : ℕ) (d : Driver) (t : Trace)
    → let (s, _) = receive_all dev ws (n, d) t in
      (u32 s.0 ≡ u32 (n + kicks ws))
      × (u32 s.1.mb.rx_count ≡ u32 (d.mb.rx_count + kicks ws))
      × (s.1.mb.last_data ≡ last_kick d.mb.last_data ws)
      × (s.1.mb.zero_data_cnt ≡ d.mb.zero_data_cnt)
      × (s.1.mb.irq_count ≡ d.mb.irq_count)
unfolding receive_all receive account kicks last_kick
receive_all-counters dev [] n d t = (omega arith, omega arith, refl, refl, refl)
receive_all-counters dev (w ∷ ws) n d t =
    let s = account w (n, d) in
    ground (arith, receive_all-counters dev ws s.0 s.1 (receive dev w (n, d) t).1)

-- Under the conditions of the drain, `msgbox_poll` returns a mailbox in which `rx_count` has grown by
-- the number of words that are not zero, modulo 2 ^ 32, `last_data` is the last of those, and
-- `irq_count` and `zero_data_cnt` are as they were: the words that are zero are counted nowhere.
pub msgbox_poll-counters :
    (dev : Device) (words : List ℕ) (fuel : ℕ) (d : Driver) (t : Trace)
    → length words < fuel
    → status_reg d.mb ≢ fifo_reg d.mb
    → LeavesFifo d.mb
    → Holds dev d.mb words t
    → (d' : Driver) × ((msgbox_poll dev fuel d t).0 ≡ some d')
      × (u32 d'.mb.rx_count ≡ u32 (d.mb.rx_count + kicks words))
      × (d'.mb.last_data ≡ last_kick d.mb.last_data words)
      × (d'.mb.irq_count ≡ d.mb.irq_count)
      × (d'.mb.zero_data_cnt ≡ d.mb.zero_data_cnt)
msgbox_poll-counters dev words fuel d t lt apart leaves h =
    let c = receive_all-counters dev words 0 d t in
    (
      (receive_all dev words (0, d) t).0.1,
      ap (λ (o : Option Driver × Trace). o.0)
          (msgbox_poll-receive_all dev words fuel d t lt apart leaves h),
      c.1,
      c.2,
      c.4,
      c.3,
    )
