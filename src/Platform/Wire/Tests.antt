-- ===== src/Platform/Wire/Tests.antt =====
-- Three notifications on their way from the ARM core 0 to the C906.
use t113_c.Base.{ℕ, ◌%◌, ◌^◌, ◌==◌, if◌then◌else◌, min, ◌≡◌, ◌≢◌, refl, sym, arith}
use t113_c.Base.{[], length, replicate, none, some, pos, bit_and, ◌>>>◌}
use mathlib.Core.Path.{subst}
use t113_c.Base.Bits.{bit_and-mask}
use t113_c.Calls.{remoteproc_get_notification}
use t113_c.Hw.{Device, Trace}
use t113_c.Hw.History.{called, writes}
use t113_c.Msgbox.{Driver, status_reg, fifo_reg, peer_status_reg, peer_fifo_reg}
use t113_c.Msgbox.Devices.{fifo_device, three_words, fifo_device-Holds}
use t113_c.Msgbox.Fifo.{Holds}
use t113_c.Msgbox.Notify.{calls_for}
use t113_c.Msgbox.Setup.{fresh_mailbox, coef}
use t113_c.Platform.{msgbox_rx, platform_poll}
use t113_c.Platform.Wire.{
  notify_all, words_of, CountsWords, connected, notify_all-writes, platform_poll-notify_all,
}

-- The sender sees how many words it has written.
counting_bus : Trace → ℕ → ℕ
counting_bus t a = if a == 0x0601F060 then min 15 (length (writes 0x0601F070 t)) else 0

abbrev counting : Device
counting = record { bus = λ t w a. counting_bus t a; csr_of = λ t c. 0 }

abbrev arm : Driver
arm = connected 0 2 0 none 0

abbrev plat_at : ℕ
plat_at = 0x41480000

abbrev c906 : Driver
c906 = connected 2 0 0 (some msgbox_rx) plat_at

counting-CountsWords : CountsWords counting arm.mb
unfolding counting_bus peer_status_reg peer_fifo_reg fresh_mailbox coef
counting-CountsWords u =
    let n = min 15 (length (writes 0x0601F070 u)) in
    let shifted : (n % 2 ^ 32) >>> 0 ≡ n = omega arith in
    let masked : bit_and ((n % 2 ^ 32) >>> 0) 15 ≡ ((n % 2 ^ 32) >>> 0) % 2 ^ 4 =
      bit_and-mask 4 ((n % 2 ^ 32) >>> 0) in
    let word : bit_and ((n % 2 ^ 32) >>> 0) 15 ≡ n = omega (arith, shifted, masked) in word

nothing_sent : writes (fifo_reg c906.mb) [] ≡ []
unfolding writes
nothing_sent = refl

nothing_sent_yet : writes (peer_fifo_reg arm.mb) [] ≡ []
unfolding writes
nothing_sent_yet = refl

same_words : words_of three_words ≡ three_words
unfolding words_of
same_words = refl

c906-apart : status_reg c906.mb ≢ fifo_reg c906.mb
unfolding status_reg fifo_reg fresh_mailbox coef
c906-apart = omega arith

c906-Holds : Holds (fifo_device three_words) c906.mb three_words []
unfolding status_reg fifo_reg fresh_mailbox coef
c906-Holds =
    let full = fifo_device-Holds (some msgbox_rx) plat_at in
    record { status = full.status; oldest = full.oldest }

-- The words that the ARM core writes are those that the receiver's FIFO hands out.
arrived : writes (fifo_reg c906.mb) (notify_all counting arm three_words []).1 ≡ three_words
unfolding fifo_reg peer_fifo_reg fresh_mailbox coef writes words_of
arrived = (notify_all-writes counting arm three_words [] counting-CountsWords refl (omega arith)).1

platform_poll-notify_all_example :
    let (codes, t') = notify_all counting arm three_words [] in
    let (polled, u') = platform_poll (fifo_device three_words) 4 plat_at c906 [] in
    (codes ≡ replicate 3 (pos 0))
    × ((e : Driver) × (polled ≡ some e))
    × (called u' ≡ calls_for remoteproc_get_notification (words_of three_words) (called []))
platform_poll-notify_all_example =
    platform_poll-notify_all counting (fifo_device three_words) 0 2 0 0 plat_at 4 none three_words
      [] [] counting-CountsWords nothing_sent
      (subst (λ l. Holds (fifo_device three_words) c906.mb l []) (sym arrived) c906-Holds)
      c906-apart (λ e. omega (arith, e)) (omega arith) (omega arith)
