-- ===== src/Msgbox/Fifo.antt =====
-- `msgbox_poll` empties the receive FIFO: every word is delivered, once and in order.
use t113_c.Base.{ℕ, zero, suc, ◌+◌, ◌<◌, ◌==◌, ltb, if◌then◌else◌, true, false}
use t113_c.Base.{◌≡◌, ◌≢◌, sym, ◌∙◌, arith, List, [], ◌∷◌, some, length, get_or}
use t113_c.Base.{u32}
use t113_c.Hw.{Hw, Device, Trace, readl, writel, return, answer, load, w32, ◌>>=◌}
use t113_c.Hw.Registers.{bit_at}
use t113_c.Hw.Bitfield.{bit_get-test}
use t113_c.Hw.History.{reads, reads-load_ne}
use t113_c.Msgbox.{Msgbox, Driver, status_reg, fifo_reg, rd_irq_shift, account, deliver}
use t113_c.Msgbox.{reg_bits_set, reg_bits_get, msgbox_pending, poll_loop, poll_report, msgbox_poll}

-- The receive FIFO holds `words` from the history `t` on: while words are left the status bit of the
-- channel is 1 and a read of the FIFO takes the oldest, then the bit is 0.
pub record Holds (dev : Device) (mb : Msgbox) (words : List ℕ) (t : Trace) : Type 0 where
  pub status :
      (k : ℕ) (u : Trace)
      → reads (fifo_reg mb) u ≡ reads (fifo_reg mb) t + k
      → bit_at dev (status_reg mb) (rd_irq_shift mb.channel) u
        ≡ (if ltb k (length words) then 1 else 0)
  pub oldest :
      (k : ℕ) (u : Trace)
      → reads (fifo_reg mb) u ≡ reads (fifo_reg mb) t + k
      → k < length words
      → answer dev w32 (fifo_reg mb) u ≡ get_or words k 0

-- The callback does not read the FIFO.
abbrev pub LeavesFifo : Msgbox → Type 0
LeavesFifo mb = (w : ℕ) (u : Trace) → reads (fifo_reg mb) (deliver mb w u).1 ≡ reads (fifo_reg mb) u

-- What counts for the driver is unchanged by the counters.
account-mb :
    (w n : ℕ) (d : Driver)
    → (account w (n, d)).1.mb ≡ record d.mb {
      last_data = if w == 0 then d.mb.last_data else w;
      rx_count = if w == 0 then d.mb.rx_count else u32 (d.mb.rx_count + 1);
    }
unfolding account
account-mb w n d = ground arith

pub account-deliver : (w n : ℕ) (d : Driver) → deliver (account w (n, d)).1.mb ≡ deliver d.mb
unfolding deliver
account-deliver w n d = rw account-mb

pub account-registers :
    (w n : ℕ) (d : Driver)
    → (status_reg (account w (n, d)).1.mb ≡ status_reg d.mb)
      × (fifo_reg (account w (n, d)).1.mb ≡ fifo_reg d.mb)
      × ((account w (n, d)).1.mb.channel ≡ d.mb.channel)
unfolding status_reg fifo_reg
account-registers w n d = (rw account-mb, rw account-mb, rw account-mb)

module _ (dev : Device) where
  -- One word: it is seen, read, acknowledged, counted and delivered.
  unfoldable pub receive : ℕ → ℕ × Driver → Hw (ℕ × Driver)
  receive word (n, d) t =
      let (_, t1) = msgbox_pending dev d.mb t in
      let (_, t2) =
        reg_bits_set dev (status_reg d.mb) 1 (rd_irq_shift d.mb.channel)
          (load w32 (fifo_reg d.mb) word ∷ t1) in
      let s = account word (n, d) in let (_, t3) = deliver s.1.mb word t2 in (s, t3)

  unfoldable pub receive_all : List ℕ → ℕ × Driver → Hw (ℕ × Driver)
  receive_all [] s t = (s, t)
  receive_all (w ∷ ws) s t = let (s', t') = receive w s t in receive_all ws s' t'

  -- The last look: no word is pending, and the FIFO is read once more.
  unfoldable pub last_look : ℕ × Driver → Hw (Unit {0})
  last_look (n, d) = do _ ← msgbox_pending dev d.mb; _ ← readl dev (fifo_reg d.mb); return tt

  receive-reads :
      (w n : ℕ) (d : Driver) (t : Trace)
      → status_reg d.mb ≢ fifo_reg d.mb
      → LeavesFifo d.mb
      → reads (fifo_reg d.mb) (receive w (n, d) t).1 ≡ suc (reads (fifo_reg d.mb) t)
  unfolding receive msgbox_pending reg_bits_get reg_bits_set readl writel reads
  receive-reads w n d t apart leaves = rw (account-deliver w n d) (rw leaves (ground arith))

  -- After one word has been received the FIFO holds the others.
  Holds-receive :
      (w n : ℕ) (ws : List ℕ) (d : Driver) (t : Trace)
      → status_reg d.mb ≢ fifo_reg d.mb
      → LeavesFifo d.mb
      → Holds dev d.mb (w ∷ ws) t
      → Holds dev (account w (n, d)).1.mb ws (receive w (n, d) t).1
  Holds-receive w n ws d t apart leaves h =
      let same = account-registers w n d in
      let once = receive-reads w n d t apart leaves in
      let next : (k : ℕ) (u : Trace)
          → reads (fifo_reg (account w (n, d)).1.mb) u
            ≡ reads (fifo_reg (account w (n, d)).1.mb) (receive w (n, d) t).1 + k
          → reads (fifo_reg d.mb) u ≡ reads (fifo_reg d.mb) t + suc k =
        λ k u e. omega (arith, rw same.1 at e, once) in
      record {
        status = λ k u e. rw (same.0, same.2) (ground (arith, h.status (suc k) u (next k u e)));
        oldest = λ k u e lt. rw same.1 (h.oldest (suc k) u (next k u e) (omega arith));
      }

  -- A round that sees a word, and one that sees none.
  pub poll_loop-word :
      (w n fuel : ℕ) (d : Driver) (t : Trace)
      → bit_at dev (status_reg d.mb) (rd_irq_shift d.mb.channel) t ≡ 1
      → answer dev w32
          (fifo_reg d.mb)
          (load w32 (status_reg d.mb) (answer dev w32 (status_reg d.mb) t) ∷ t)
        ≡ w
      → poll_loop dev (suc fuel) (n, d) t
        ≡ poll_loop dev fuel (receive w (n, d) t).0 (receive w (n, d) t).1
  unfolding poll_loop receive msgbox_pending reg_bits_get reg_bits_set readl writel
  poll_loop-word w n fuel d t one word =
      let v = answer dev w32 (status_reg d.mb) t in
      let pend : ((msgbox_pending dev d.mb t).0 == 0) ≡ false =
        ground (arith, bit_get-test v (rd_irq_shift d.mb.channel), one) in
      ground (arith, pend, word)

  pub poll_loop-none :
      (n fuel : ℕ) (d : Driver) (t : Trace)
      → bit_at dev (status_reg d.mb) (rd_irq_shift d.mb.channel) t ≡ 0
      → poll_loop dev (suc fuel) (n, d) t ≡ (some (n, d), (last_look (n, d) t).1)
  unfolding poll_loop last_look msgbox_pending reg_bits_get readl
  poll_loop-none n fuel d t clear =
      let v = answer dev w32 (status_reg d.mb) t in
      let pend : ((msgbox_pending dev d.mb t).0 == 0) ≡ true =
        ground (arith, bit_get-test v (rd_irq_shift d.mb.channel), clear) in
      ground (arith, pend)

  poll_loop-cons :
      (w n fuel : ℕ) (ws : List ℕ) (d : Driver) (t : Trace)
      → status_reg d.mb ≢ fifo_reg d.mb
      → Holds dev d.mb (w ∷ ws) t
      → poll_loop dev (suc fuel) (n, d) t
        ≡ poll_loop dev fuel (receive w (n, d) t).0 (receive w (n, d) t).1
  poll_loop-cons w n fuel ws d t apart h =
      let v = answer dev w32 (status_reg d.mb) t in
      let untouched = reads-load_ne (fifo_reg d.mb) (status_reg d.mb) v t (λ e. apart (sym e)) in
      poll_loop-word w n fuel d t (h.status 0 t (omega arith) ∙ ground arith)
        (h.oldest 0 (load w32 (status_reg d.mb) v ∷ t) (omega (arith, untouched)) (omega arith))

  poll_loop-nil :
      (n fuel : ℕ) (d : Driver) (t : Trace)
      → Holds dev d.mb [] t
      → poll_loop dev (suc fuel) (n, d) t ≡ (some (n, d), (last_look (n, d) t).1)
  poll_loop-nil n fuel d t h = poll_loop-none n fuel d t (h.status 0 t (omega arith))

  poll_loop-receive_all :
      (ws : List ℕ) (fuel n : ℕ) (d : Driver) (t : Trace)
      → length ws < fuel
      → status_reg d.mb ≢ fifo_reg d.mb
      → LeavesFifo d.mb
      → Holds dev d.mb ws t
      → let (s, t') = receive_all ws (n, d) t in
        poll_loop dev fuel (n, d) t ≡ (some s, (last_look s t').1)
  unfolding receive_all receive
  poll_loop-receive_all ws zero n d t lt apart leaves h = absurd (omega arith)
  poll_loop-receive_all [] (suc fuel) n d t lt apart leaves h = poll_loop-nil n fuel d t h
  poll_loop-receive_all (w ∷ ws) (suc fuel) n d t lt apart leaves h =
      let s = account w (n, d) in
      let same = account-registers w n d in
      poll_loop-cons w n fuel ws d t apart h
      ∙ poll_loop-receive_all ws fuel s.0 s.1 (receive w (n, d) t).1 (omega arith)
          (rw (same.0, same.1) apart) (rw (same.1, account-deliver w n d) leaves)
          (Holds-receive w n ws d t apart leaves h)

  -- On a mailbox whose receive FIFO holds `words`, with more fuel than words and a callback that does
  -- not read the FIFO, `msgbox_poll` returns: it receives every word once and in order, each being
  -- seen, read, acknowledged, counted and delivered, looks a last time, and reports.
  pub msgbox_poll-receive_all :
      (words : List ℕ) (fuel : ℕ) (d : Driver) (t : Trace)
      → length words < fuel
      → status_reg d.mb ≢ fifo_reg d.mb
      → LeavesFifo d.mb
      → Holds dev d.mb words t
      → let (s, t1) = receive_all words (0, d) t in
        let (_, t2) = last_look s t1 in
        msgbox_poll dev fuel d t ≡ (some s.1, (poll_report dev s t2).1)
  unfolding msgbox_poll
  msgbox_poll-receive_all words fuel d t lt apart leaves h =
      ground (arith, poll_loop-receive_all words fuel 0 d t lt apart leaves h)
