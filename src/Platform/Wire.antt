-- ===== src/Platform/Wire.antt =====
-- From one core to the other: what `platform_rproc_notify` sends, the poll of the peer hands on.
mod Tests
use t113_c.Base.{
  ℕ, zero, suc, ◌+◌, ◌≤◌, ◌<◌, ◌%◌, ◌^◌, ◌==◌, if◌then◌else◌, min, ◌≡◌, ◌≢◌, refl, sym, ◌∙◌, ap,
  ap₂, arith, List, [], ◌∷◌, ◌++◌, length, replicate, length-append, some, Option, ℤ, pos,
  Bool-cases, inl, inr,
}
use mathlib.Core.List.{append_assoc, append-nil}
use mathlib.Core.Path.{subst}
use t113_c.Calls.{remoteproc_get_notification}
use t113_c.Hw.{Device, Trace, store, w32, log, debug}
use t113_c.Hw.History.{called, writes}
use t113_c.Msgbox.{Driver, Msgbox, RxCallback, status_reg, fifo_reg, peer_fifo_reg, msgbox_send}
use t113_c.Msgbox.Fifo.{Holds}
use t113_c.Msgbox.Notify.{calls_for}
use t113_c.Msgbox.Send.{queued, looked, waited, msgbox_send-room}
use t113_c.Msgbox.Setup.{fresh_mailbox}
use t113_c.Platform.{msgbox_rx, platform_poll, platform_rproc_notify}
use t113_c.Platform.Poll.{platform_poll-notifies}

-- Where one core writes, the other reads.
pub peer_fifo_reg-fifo_reg :
    (i j channel : ℕ) (cb cb' : Option RxCallback) (priv priv' : ℕ)
    → peer_fifo_reg (fresh_mailbox i j channel cb priv)
      ≡ fifo_reg (fresh_mailbox j i channel cb' priv')
unfolding peer_fifo_reg fifo_reg fresh_mailbox
peer_fifo_reg-fifo_reg i j channel cb cb' priv priv' = refl

-- A run of notifications, with their results.
unfoldable pub notify_all : Device → Driver → List ℕ → Trace → List ℤ × Trace
notify_all dev d [] t = ([], t)
notify_all dev d (w ∷ ws) t =
    let (code, u) = platform_rproc_notify dev 0 d w t in
    let (codes, z) = notify_all dev d ws u in (code ∷ codes, z)

-- What enters the FIFO: 32 bits of each.
unfoldable pub words_of : List ℕ → List ℕ
words_of [] = []
words_of (w ∷ ws) = (w % 2 ^ 32) ∷ words_of ws

-- The status of the peer's FIFO counts the words that were written to it, up to 15.
abbrev pub CountsWords : Device → Msgbox → Type 0
CountsWords dev mb = (u : Trace) → queued dev mb u ≡ min 15 (length (writes (peer_fifo_reg mb) u))

module _ (dev : Device) (d : Driver) where
  notify-writes :
      (w : ℕ) (t : Trace)
      → queued dev d.mb t < d.mb.fifo_depth
      → let (code, u) = platform_rproc_notify dev 0 d w t in
        (code ≡ pos 0)
        × (writes (peer_fifo_reg d.mb) u ≡ writes (peer_fifo_reg d.mb) t ++ ((w % 2 ^ 32) ∷ []))
  unfolding platform_rproc_notify writes waited
  notify-writes w t room =
      let sent =
        msgbox_send-room dev d.mb 0 w t (omega arith) (λ j lt. absurd (omega arith)) room in
      (
        ap (λ (r : ℤ × Trace). r.0) sent,
        ap (λ (r : ℤ × Trace). writes (peer_fifo_reg d.mb) r.1) sent ∙ ground arith,
      )

  pub notify_all-writes :
      (ws : List ℕ) (t : Trace)
      → CountsWords dev d.mb
      → d.mb.fifo_depth ≡ 8
      → length (writes (peer_fifo_reg d.mb) t) + length ws ≤ 8
      → let (codes, u) = notify_all dev d ws t in
        (codes ≡ replicate (length ws) (pos 0))
        × (writes (peer_fifo_reg d.mb) u ≡ writes (peer_fifo_reg d.mb) t ++ words_of ws)
  unfolding notify_all words_of
  notify_all-writes [] t counts depth fits =
      (refl, sym (append-nil (writes (peer_fifo_reg d.mb) t)))
  notify_all-writes (w ∷ ws) t counts depth fits =
      let before = writes (peer_fifo_reg d.mb) t in
      let (code, entry) = notify-writes w t (omega (arith, counts t, depth, fits)) in
      let u = (platform_rproc_notify dev 0 d w t).1 in
      let longer : length (writes (peer_fifo_reg d.mb) u) ≡ length before + 1 =
        ap length entry ∙ length-append before ((w % 2 ^ 32) ∷ []) in
      let (codes, logs) = notify_all-writes ws u counts depth (omega (arith, longer, fits)) in
      (
        ap₂ (λ (c : ℤ) (cs : List ℤ). c ∷ cs) code codes,
        logs
            ∙ ap (λ (l : List ℕ). l ++ words_of ws) entry
            ∙ append_assoc before ((w % 2 ^ 32) ∷ []) (words_of ws),
      )

length-words_of : (ws : List ℕ) → length (words_of ws) ≡ length ws
unfolding words_of
length-words_of [] = refl
length-words_of (w ∷ ws) = ap suc (length-words_of ws)

-- The drivers after `msgbox_init` has connected the core `i` to the core `j`.
abbrev pub connected : ℕ → ℕ → ℕ → Option RxCallback → ℕ → Driver
connected i j channel cb priv = record {
  mb = fresh_mailbox i j channel cb priv;
  last_vqid = 0;
  repeat = 0;
}

-- Two cores that `msgbox_init` connects on one channel, the receiver with the callback of the platform. The
-- sender's status register counts the words in the peer's FIFO, into which nothing was written yet, and the
-- receiver's FIFO holds what the sender wrote to that address. Then up to 8 calls of
-- `platform_rproc_notify` all return 0, and with more fuel than words a poll on the other core
-- returns and notifies open-amp there of every word, cut to 32 bits, once and in order.
pub platform_poll-notify_all :
    (sender receiver : Device) (i j channel priv at fuel : ℕ) (cb : Option RxCallback) (ws : List ℕ)
    (t u : Trace)
    → CountsWords sender (connected i j channel cb priv).mb
    → writes (fifo_reg (connected j i channel (some msgbox_rx) at).mb) t ≡ []
    → Holds receiver
        (connected j i channel (some msgbox_rx) at).mb
        (writes
          (fifo_reg (connected j i channel (some msgbox_rx) at).mb)
          (notify_all sender (connected i j channel cb priv) ws t).1)
        u
    → status_reg (connected j i channel (some msgbox_rx) at).mb
      ≢ fifo_reg (connected j i channel (some msgbox_rx) at).mb
    → at ≢ 0
    → length ws ≤ 8
    → length ws < fuel
    → let (codes, t') = notify_all sender (connected i j channel cb priv) ws t in
      let (polled, u') =
        platform_poll receiver fuel at (connected j i channel (some msgbox_rx) at) u in
      (codes ≡ replicate (length ws) (pos 0))
      × ((e : Driver) × (polled ≡ some e))
      × (called u' ≡ calls_for remoteproc_get_notification (words_of ws) (called u))
unfolding fresh_mailbox
platform_poll-notify_all sender receiver i j channel priv at fuel cb ws t u counts empty holds apart
      there few enough =
    let d = connected i j channel cb priv in
    let e = connected j i channel (some msgbox_rx) at in
    let wire = peer_fifo_reg-fifo_reg i j channel cb (some msgbox_rx) priv at in
    let none_yet : writes (peer_fifo_reg d.mb) t ≡ [] = ap (λ (a : ℕ). writes a t) wire ∙ empty in
    let (codes, entries) =
      notify_all-writes sender d ws t counts refl (omega (arith, ap length none_yet, few)) in
    let z = (notify_all sender d ws t).1 in
    let fed : writes (fifo_reg e.mb) z ≡ words_of ws =
      ap (λ (a : ℕ). writes a z) (sym wire)
      ∙ entries
      ∙ ap (λ (l : List ℕ). l ++ words_of ws) none_yet in
    let held = subst (λ (l : List ℕ). Holds receiver e.mb l u) fed holds in
    let (returned, calls) =
      platform_poll-notifies receiver (words_of ws) fuel at e u there refl there apart held
        (omega (arith, length-words_of ws, enough)) in
    (codes, returned, calls)
