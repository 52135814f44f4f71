-- ===== src/Main/Tests.antt =====
-- The start-up on a small board, and one round of the task.
use t113_c.Base.{ℕ, ◌+◌, ◌≡◌, ◌≢◌, refl, arith, [], ◌∷◌, some, pos, u32}
use t113_c.Calls.{task_notify_take, remoteproc_get_notification}
use t113_c.Hw.{Device, Library}
use t113_c.Hw.History.{called, reads}
use t113_c.Hw.Registers.{last_word}
use t113_c.Irq.Tracks.{Tracks, irq_at_start}
use t113_c.Plic.{at_reset}
use t113_c.Local.{Port}
use t113_c.Msgbox.Devices.{box_with, box-apart, fifo_device, three_words, fifo_device-Holds_at}
use t113_c.Msgbox.Notify.{calls_for}
use t113_c.Platform.{msgbox_rx}
use t113_c.Main.{Served, low_level_init, round, wake, wake_report}
use t113_c.Main.Boot.{clint, low_level_init-Tracks}
use t113_c.Main.Service.{round-notifies}

-- Registers that keep what is written to them, and the CSRs of the chip.
abbrev board : Device
board = record { bus = λ t w a. last_word a 0 t; csr_of = λ t c. 0x10000000 }

abbrev port : Port
port = record { compare_register = 0; next_time = 0 }

low_level_init-Tracks_example :
    let (b, t') =
      low_level_init board 24000 (record { plic = at_reset; clic = clint; port = port }) [] in
    Tracks board (irq_at_start ℕ b.plic) t'
    × (b.clic ≡ clint)
    × (b.port.compare_register ≡ clint.comp)
low_level_init-Tracks_example =
    low_level_init-Tracks {C = ℕ} board (λ j. 0) (λ j. record { reads_back = λ t. refl }) 24000
      clint port [] (λ u. refl)

abbrev plat_at : ℕ
plat_at = 0x41480000

plat_at-ne : plat_at ≢ 0
plat_at-ne e = omega arith

-- Two notifications are waiting.
abbrev notified : Library
notified = record { code = λ c t. pos 0; pointer = λ c t. 2 }

abbrev serving : Served
serving = record {
  wake_total = 63;
  driver = record { mb = box_with (some msgbox_rx) plat_at; last_vqid = 0; repeat = 0 };
}

unread : reads 0x0601F070 (wake notified serving []).1 ≡ 0
unfolding wake wake_report reads
unread = refl

round-notifies_example :
    let (served, t') = round (fifo_device three_words) notified 4 plat_at serving [] in
    ((s' : Served) × (served ≡ some s') × (u32 s'.wake_total ≡ u32 (63 + 2)))
    × (called t'
        ≡ calls_for remoteproc_get_notification three_words (task_notify_take 20 ∷ called []))
round-notifies_example =
    round-notifies (fifo_device three_words) notified three_words 4 plat_at serving [] plat_at-ne
      refl plat_at-ne (box-apart (some msgbox_rx) plat_at)
      (fifo_device-Holds_at (some msgbox_rx) plat_at _ unread) (omega arith)
