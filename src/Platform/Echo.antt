-- ===== src/Platform/Echo.antt =====
-- What a run of messages gets back from the echo.
use t113_c.Base.{
  ℕ, ◌==◌, if◌then◌else◌, ◌≡◌, ◌≢◌, refl, ◌∙◌, ap, ap₂, arith, List, [], ◌∷◌, ℤ, pos, length,
  replicate,
}
use t113_c.Calls.{Call, rpmsg_send}
use t113_c.Hw.{Library, Trace}
use t113_c.Hw.History.{called}
use t113_c.Platform.{rpmsg_addr_any, rpmsg_echo_cb}

-- A message as the callback gets it.
pub record Incoming : Type 0 where
  pub data_at : ℕ
  pub len : ℕ
  pub src : ℕ

-- The messages of an endpoint, one after the other; its address of destination, and the results.
unfoldable pub echoes : Library → List Incoming → ℕ → Trace → (ℕ × List ℤ) × Trace
echoes lib [] dest t = ((dest, []), t)
echoes lib (m ∷ ms) dest t =
    let ((dest', code), u) = rpmsg_echo_cb lib dest m.data_at m.len m.src t in
    let ((last, codes), z) = echoes lib ms dest' u in ((last, code ∷ codes), z)

-- Each message is sent to `peer`; the last call first.
unfoldable pub sent_to : ℕ → List Incoming → List Call → List Call
sent_to peer [] before = before
sent_to peer (m ∷ ms) before = sent_to peer ms (rpmsg_send peer m.data_at m.len ∷ before)

module _ (lib : Library) where
  echo-called :
      (dest data_at len src : ℕ) (t : Trace)
      → let peer = if dest == rpmsg_addr_any then src else dest in
        let ((dest', code), u) = rpmsg_echo_cb lib dest data_at len src t in
        (dest' ≡ peer) × (code ≡ pos 0) × (called u ≡ rpmsg_send peer data_at len ∷ called t)
  unfolding rpmsg_echo_cb called
  echo-called dest data_at len src t = (refl, refl, ground arith)

  -- All of `ms` were sent to `peer`, who stays the destination, and reported as sent.
  abbrev Echoed : ℕ → List Incoming → Trace → (ℕ × List ℤ) × Trace → Type 0
  Echoed peer ms t ((last, codes), u) =
      (last ≡ peer)
      × (codes ≡ replicate (length ms) (pos 0))
      × (called u ≡ sent_to peer ms (called t))

  echoes-cons :
      (m : Incoming) (ms : List Incoming) (dest peer : ℕ) (t : Trace)
      → (if dest == rpmsg_addr_any then m.src else dest) ≡ peer
      → let u = (rpmsg_echo_cb lib dest m.data_at m.len m.src t).1 in
        Echoed peer ms u (echoes lib ms peer u)
        → Echoed peer (m ∷ ms) t (echoes lib (m ∷ ms) dest t)
  unfolding echoes sent_to
  echoes-cons m ms dest peer t bound rest =
      let (to, code, call) = echo-called dest m.data_at m.len m.src t in
      let u = (rpmsg_echo_cb lib dest m.data_at m.len m.src t).1 in
      let same = to ∙ bound in
      (
        ap (λ (k : ℕ). (echoes lib ms k u).0.0) same ∙ rest.0,
        ap₂ (λ (c : ℤ) (cs : List ℤ). c ∷ cs) code
            (ap (λ (k : ℕ). (echoes lib ms k u).0.1) same ∙ rest.1),
        ap (λ (k : ℕ). called (echoes lib ms k u).1) same
            ∙ rest.2
            ∙ ap (sent_to peer ms)
                (call ∙ ap (λ (k : ℕ). rpmsg_send k m.data_at m.len ∷ called t) bound),
      )

  bound-echoes :
      (ms : List Incoming) (dest : ℕ) (t : Trace)
      → dest ≢ rpmsg_addr_any
      → Echoed dest ms t (echoes lib ms dest t)
  unfolding echoes sent_to
  bound-echoes [] dest t known = (refl, refl, refl)
  bound-echoes (m ∷ ms) dest t known =
      echoes-cons m ms dest dest t (ground (arith, known)) (bound-echoes ms dest _ known)

  -- The first message binds a fresh endpoint to its sender. From then on every message, whoever sent it, is
  -- sent once and in order to that first sender, and the callback reports success, also where the
  -- library could not send.
  pub echoes-sent_to :
      (m : Incoming) (ms : List Incoming) (t : Trace)
      → m.src ≢ rpmsg_addr_any
      → let ((last, codes), u) = echoes lib (m ∷ ms) rpmsg_addr_any t in
        (last ≡ m.src)
        × (codes ≡ replicate (length (m ∷ ms)) (pos 0))
        × (called u ≡ sent_to m.src (m ∷ ms) (called t))
  echoes-sent_to m ms t known =
      echoes-cons m ms rpmsg_addr_any m.src t (ground arith) (bound-echoes ms m.src _ known)
