-- ===== src/Msgbox/Tests.antt =====
-- Runs of the mailbox driver on small devices, and the theorems at such inputs.
use t113_c.Base.{
  zero, suc, ℕ, ◌+◌, ◌%◌, ◌^◌, ◌<◌, ◌==◌, ltb, if◌then◌else◌, ◌≡◌, ◌≢◌, refl, arith, [], ◌∷◌,
}
use t113_c.Base.{none, some, pos, negsuc, u32, ◌||◌}
use t113_c.Hw.{Device, Trace, emit, log, info, debug, warn, w32, store}
use t113_c.Hw.History.{reads}
use t113_c.Irq.{Irq}
use t113_c.Irq.Tracks.{irq_at_start}
use t113_c.Plic.Startup.{ready}
use t113_c.Msgbox.{Msgbox, Driver, status_reg, fifo_reg, peer_status_reg, peer_fifo_reg, deliver}
use t113_c.Msgbox.{msgbox_poll, poll_report, msgbox_send}
use t113_c.Msgbox.Devices.{box_with, box-apart, fifo_device, three_words, fifo_device-Holds}
use t113_c.Msgbox.Fifo.{LeavesFifo, receive_all, last_look, msgbox_poll-receive_all}
use t113_c.Msgbox.Counters.{kicks, last_kick, msgbox_poll-counters}
use t113_c.Msgbox.Send.{waited, looked, queued, FullBefore, msgbox_send-room, msgbox_send-full}
use t113_c.Msgbox.Setup.{Polled, msgbox_init}
use t113_c.Msgbox.Setup.Topology.{refusal, msgbox_init-code}
use t113_c.Msgbox.Setup.Returns.{empty_fifo-Bounded}
use t113_c.Msgbox.Setup.Muted.{msgbox_init-silent}

-- The callback logs.
abbrev box : Msgbox
box = box_with (some (λ p w. emit (log info "rx"))) 1

abbrev driver : Driver
driver = record { mb = box; last_vqid = 0; repeat = 0 }

box_apart : status_reg box ≢ fifo_reg box
box_apart = box-apart box.rx_cb 1

box_leaves : LeavesFifo box
unfolding deliver reads
box_leaves w u = refl

msgbox_poll-receive_all_example :
    let (s, t1) = receive_all (fifo_device three_words) three_words (0, driver) [] in
    let (_, t2) = last_look (fifo_device three_words) s t1 in
    msgbox_poll (fifo_device three_words) 4 driver []
    ≡ (some s.1, (poll_report (fifo_device three_words) s t2).1)
msgbox_poll-receive_all_example =
    msgbox_poll-receive_all (fifo_device three_words) three_words 4 driver [] (omega arith)
      box_apart box_leaves (fifo_device-Holds box.rx_cb 1)

msgbox_poll-counters_example :
    (d' : Driver) × ((msgbox_poll (fifo_device three_words) 4 driver []).0 ≡ some d')
    × (u32 d'.mb.rx_count ≡ u32 (0 + kicks three_words))
    × (d'.mb.last_data ≡ last_kick 0 three_words)
    × (d'.mb.irq_count ≡ 0)
    × (d'.mb.zero_data_cnt ≡ 0)
msgbox_poll-counters_example =
    msgbox_poll-counters (fifo_device three_words) three_words 4 driver [] (omega arith) box_apart
      box_leaves (fifo_device-Holds box.rx_cb 1)

-- The peer reports `queue` waiting words until it has been looked at `late` times, then none.
late_bus : ℕ → Trace → ℕ → ℕ
late_bus late t a = if a == 0x03003160 then (if ltb (reads 0x03003160 t) late then 8 else 0) else 0

abbrev late_device : ℕ → Device
late_device late = record { bus = λ t w a. late_bus late t a; csr_of = λ t c. 0 }

late_full : FullBefore (late_device 1) box 1 []
unfolding waited late_bus reads peer_status_reg
late_full zero h = omega arith
late_full (suc j) h = absurd (omega arith)

late_room : queued (late_device 1) box (waited (late_device 1) box 1 []) < 8
unfolding waited late_bus reads peer_status_reg
late_room = omega arith

msgbox_send-room_example :
    let sent =
      store w32 (peer_fifo_reg box) (5 % 2 ^ 32)
      ∷ looked (late_device 1) box (waited (late_device 1) box 1 []) in
    msgbox_send (late_device 1) (some box) 5 []
    ≡ (pos 0, if 5 == 0 then sent else log debug "send: vqid=%u" ∷ sent)
msgbox_send-room_example =
    msgbox_send-room (late_device 1) box 1 5 [] (omega arith) late_full late_room

-- A peer that never takes a word.
abbrev stuck_device : Device
stuck_device = record { bus = λ t w a. 8; csr_of = λ t c. 0 }

stuck_full : FullBefore stuck_device box 5000 []
stuck_full j h = omega arith

msgbox_send-full_example :
    msgbox_send stuck_device (some box) 5 []
    ≡ (negsuc 0, log warn "send timeout: remote=%d n=%d p=%d" ∷ waited stuck_device box 5000 [])
msgbox_send-full_example = msgbox_send-full stuck_device box 5 [] stuck_full

-- A device whose registers are all 0.
abbrev quiet : Device
quiet = record { bus = λ t w a. 0; csr_of = λ t c. 0 }

abbrev irq0 : Irq Polled
irq0 = irq_at_start Polled ready

msgbox_init-code_example :
    let (z, _, irq', t') = msgbox_init quiet 4 9 1 2 0 1 none 0 driver irq0 [] in
    let refused = 1 == 0 || 2 == 0 in
    (z ≡ some (if refused then negsuc 0 else pos 0))
    × ((if refused then irq' else irq0) ≡ irq0)
    × ((if refused then t' else refusal 1 []) ≡ refusal 1 [])
msgbox_init-code_example =
    msgbox_init-code quiet 4 9 1 2 0 1 none 0 driver irq0 [] (omega arith) (omega arith)
      (λ good. (omega arith, empty_fifo-Bounded quiet 4 2 0 1 0 (omega arith) (λ t w a. refl)))

msgbox_init-silent_example :
    (msgbox_init (fifo_device three_words) 4 9 1 2 0 0 box.rx_cb 0 driver irq0 []).3
    ≡ (msgbox_init (fifo_device three_words) 4 9 1 2 0 0 none 0 driver irq0 []).3
msgbox_init-silent_example =
    msgbox_init-silent (fifo_device three_words) 4 9 1 irq0 2 0 0 box.rx_cb 0 driver []
