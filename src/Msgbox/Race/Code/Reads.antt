-- ===== src/Msgbox/Race/Code/Reads.antt =====
-- The look at the status and the read of the FIFO.
use t113_c.Base.{ℕ, suc, ◌==◌, ltb, not, ◌≡◌, ◌≢◌, refl, sym, ◌∙◌, arith, List, [], ◌∷◌, length}
use t113_c.Calls.{Call}
use t113_c.Hw.{Device, Trace, load, w32, answer, readl}
use t113_c.Hw.Bitfield.{bit_get-test}
use t113_c.Hw.History.{called}
use t113_c.Msgbox.{Driver, msgbox_pending, reg_bits_get}
use t113_c.Msgbox.Arrivals.{taken, IsFed, taken-load_self, taken-load_ne}
use t113_c.Msgbox.Race.{Place, look, fetch, Shared, access}
use t113_c.Msgbox.Race.Code.{Point, looking, reading, poll_move}
use t113_c.Msgbox.Race.Code.Held.{Holding}
use t113_c.Msgbox.Race.Code.Places.{
  At, at_fetch, at_ack, at_ack_stray, at_last, fifo-empty, fifo-cons,
}
use t113_c.Msgbox.Race.Code.Wired.{IsWired, Ready, Moved, Moves}

module _ (dev : Device) (arrived : Trace → List ℕ) (f : ℕ → Call) (status fifo shift : ℕ) where
  module _ (fed : IsFed dev status fifo shift arrived) (apart : fifo ≢ status) where
    pending-test :
        (d : Driver) (t : Trace)
        → IsWired status fifo shift f d
        → ((msgbox_pending dev d.mb t).0 == 0)
          ≡ not (ltb (taken arrived fifo t) (length (arrived t)))
    unfolding msgbox_pending reg_bits_get readl
    pending-test d t h =
        rw (h.status_at, h.shift_at)
          (ground (arith, bit_get-test (answer dev w32 status t) shift, fed.pending t))

    pending-history :
        (d : Driver) (t : Trace)
        → IsWired status fifo shift f d
        → (msgbox_pending dev d.mb t).1 ≡ load w32 status (answer dev w32 status t) ∷ t
    unfolding msgbox_pending reg_bits_get readl
    pending-history d t h = rw h.status_at refl

    -- A read of the status takes no word.
    looked :
        {before : List Call} {first : ℕ} {p : Point} {q : Place} {d : Driver} {s : Shared} (v : ℕ)
        (t : Trace)
        → At p q
        → Ready dev arrived f status fifo shift before first d t s
        → Moved dev arrived f status fifo shift before first t p d (load w32 status v ∷ t) q s
    unfolding called
    looked v t at r = record {
      at = at;
      held = rw (taken-load_ne arrived fifo status v t apart) r.held;
      handed = r.handed;
      wired = r.wired;
      grown = fed.grows _ t;
    }

    pub look-Moves :
        {before : List Call} {first : ℕ} (n : ℕ) (d : Driver) (ws : List ℕ) (t : Trace) (s : Shared)
        → s.fifo ≡ ws
        → Ready dev arrived f status fifo shift before first d t s
        → Moves dev arrived f status fifo shift before first t
            (poll_move dev (looking n) d t)
            (access look ws s)
    unfolding poll_move access
    look-Moves n d [] t s e r =
        rw (pending-test d t r.wired, pending-history d t r.wired, fifo-empty r.held e)
          (looked (answer dev w32 status t) t (at_last n) r)
    look-Moves n d (w ∷ ws) t s e r =
        rw (pending-test d t r.wired, pending-history d t r.wired, (fifo-cons w ws r.held e).0)
          (looked (answer dev w32 status t) t (at_fetch n) r)

    -- A read of the FIFO.
    pub took :
        {first k : ℕ} {xs : List ℕ} {s s' : Shared} (w : ℕ) (ws : List ℕ)
        → s.fifo ≡ w ∷ ws
        → Holding first k xs s
        → s'.fifo ≡ ws
        → s'.entered ≡ s.entered
        → Holding first (suc k) xs s'
    took {k = k} {xs} w ws e held fifo entered =
        let (left, oldest, rest) = fifo-cons w ws held e in
        record {
          fifo = fifo ∙ sym rest;
          entered = entered ∙ held.entered;
          taken = ground (arith, left);
          started = held.started;
        }

    pub taken-none :
        {first : ℕ} {s : Shared} (v : ℕ) (t : Trace)
        → s.fifo ≡ []
        → Holding first (taken arrived fifo t) (arrived t) s
        → taken arrived fifo (load w32 fifo v ∷ t) ≡ taken arrived fifo t
    taken-none v t e held = ground (arith, taken-load_self arrived fifo v t, fifo-empty held e)

    pub taken-one :
        {first : ℕ} {s : Shared} (w : ℕ) (ws : List ℕ) (v : ℕ) (t : Trace)
        → s.fifo ≡ w ∷ ws
        → Holding first (taken arrived fifo t) (arrived t) s
        → taken arrived fifo (load w32 fifo v ∷ t) ≡ suc (taken arrived fifo t)
    taken-one w ws v t e held =
        ground (arith, taken-load_self arrived fifo v t, (fifo-cons w ws held e).0)

    pub fetch-Moves :
        {before : List Call} {first : ℕ} (n : ℕ) (d : Driver) (ws : List ℕ) (t : Trace) (s : Shared)
        → s.fifo ≡ ws
        → Ready dev arrived f status fifo shift before first d t s
        → Moves dev arrived f status fifo shift before first t
            (poll_move dev (reading n) d t)
            (access fetch ws s)
    unfolding poll_move access readl called
    fetch-Moves n d [] t s e r = rw r.wired.fifo_at (record {
      at = at_ack_stray n _;
      held = rw (taken-none (answer dev w32 fifo t) t e r.held) r.held;
      handed = r.handed;
      wired = r.wired;
      grown = fed.grows _ t;
    })
    fetch-Moves n d (w ∷ ws) t s e r =
        let (left, oldest, rest) = fifo-cons w ws r.held e in
        rw r.wired.fifo_at (record {
          at = at_ack n _ w (fed.oldest t (ground (arith, left)) ∙ oldest);
          held =
              rw (taken-one w ws (answer dev w32 fifo t) t e r.held) (took w ws e r.held refl refl);
          handed = r.handed;
          wired = r.wired;
          grown = fed.grows _ t;
        })
