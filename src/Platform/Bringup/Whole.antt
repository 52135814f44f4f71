-- ===== src/Platform/Bringup/Whole.antt =====
-- `platform_rproc_init` as a whole, with the mailbox between the calls of the libraries.
use Prim.Native.String.{String}
use mathlib.Core.Path.{subst}
use t113_c.Base.{ℕ, if◌then◌else◌, Bool, true, ◌≡◌, ◌≢◌, refl, sym, ap, arith}
use t113_c.Base.{List, ◌∷◌, Option, none, some, ℤ, pos, is_zero, Bool-cases, inl, inr}
use t113_c.Calls.{Call, metal_init, metal_list_init, remoteproc_init}
use t113_c.Hw.{Device, Trace, LogLevel, library}
use t113_c.Hw.History.{called}
use t113_c.Irq.{Irq}
use t113_c.Msgbox.{Driver}
use t113_c.Msgbox.Setup.{Polled, arm_id, rv_id, coef, msgbox_init}
use t113_c.Msgbox.Setup.Quiet.{msgbox_init-called}
use t113_c.Msgbox.Setup.Returns.{is_some, Bounded, muted-apart, msgbox_init-returns}
use t113_c.Platform.{
  World, OpenampPlatform, Outcome, Step, done, returned, check_metal, start_mailbox,
}
use t113_c.Platform.{
  mailbox_done, msgbox_rx, prepared, platform_rproc_init, platform_get_rpmsg_device, clear_platform,
  ◌>>◌, say,
}
use t113_c.Platform.Bringup.{
  steady, first_failure, attempted, Follows, proceed, go-Follows, stop-Follows,
}
use t113_c.Platform.Bringup.Order.{
  Makes, Anything, say-Makes, found-Makes, setup_order, setup_rpmsg-Makes,
}

mailbox_done-go :
    (w : World) (r : Option ℤ × Polled × Irq Polled × Trace)
    → r.0 ≡ some (pos 0)
    → is_some r.1 ≡ true
    → (d : Driver) × (mailbox_done w r ≡ (done tt, record w { driver = d; irq = r.2; trace = r.3 }))
unfolding mailbox_done
mailbox_done-go w (none, polled, irq, t) ok e = absurd (ground (arith, ok))
mailbox_done-go w (some z, none, irq, t) ok e = absurd (ground (arith, e))
mailbox_done-go w (some z, some d, irq, t) ok e = (d, ground (arith, ok))

module _ (code : Call → ℤ) (pointer : Call → ℕ) where
  metal-Makes :
      {P : OpenampPlatform → Type 0} {k : Step ℤ} {cs : List Call}
      → Makes code pointer P cs k
      → Makes code pointer P (metal_init ∷ cs) (check_metal (steady code pointer) >> k)
  unfolding ◌>>◌ check_metal called
  metal-Makes {k = k} {cs} rest = record {
    follows = λ w p idle.
        let w' : World = record w { trace = library metal_init ∷ w.trace } in
        elim (Bool-cases (is_zero (code metal_init))) [
          | inl good ↦
              subst
                (λ (r : Outcome (Unit {0}) × World).
                  Follows code pointer (metal_init ∷ cs) (called w.trace)
                    (proceed code pointer k r))
                (sym (
                  ap (λ (b : Bool). if b then (done tt, w') else (returned (code metal_init), w'))
                    good))
                (go-Follows code pointer metal_init cs (called w.trace) (k w') good
                  (rest.follows w' p idle))
          | inr bad ↦
              subst
                (λ (r : Outcome (Unit {0}) × World).
                  Follows code pointer (metal_init ∷ cs) (called w.trace)
                    (proceed code pointer k r))
                (sym (
                  ap (λ (b : Bool). if b then (done tt, w') else (returned (code metal_init), w'))
                    bad))
                (stop-Follows code pointer metal_init cs (called w.trace) w' bad idle refl)
        ];
  }

  begin-Follows :
      {k : Step ℤ} {cs : List Call} (level : LogLevel) (text : String) (w : World)
      → Makes code pointer Anything cs k
      → Follows code pointer
          (metal_list_init ∷ cs)
          (called w.trace)
          ((say level text >> (clear_platform >> k)) w)
  unfolding ◌>>◌ say clear_platform called
  begin-Follows level text w rest =
      go-Follows code pointer metal_list_init _ (called w.trace) _ refl (rest.follows _ tt refl)

  module _ (dev : Device) (fuel task_handle at : ℕ) (there : at ≢ 0)
      (bounded : Bounded dev fuel rv_id arm_id 0 at) where
    mailbox-Makes :
        {k : Step ℤ} {cs : List Call}
        → Makes code pointer Anything cs k
        → Makes code pointer Anything cs (start_mailbox dev fuel task_handle at >> k)
    unfolding ◌>>◌ start_mailbox
    mailbox-Makes {k = k} {cs} rest = record {
      follows = λ w p idle.
          let r =
            msgbox_init dev fuel task_handle at rv_id arm_id 0 (some msgbox_rx) at w.driver w.irq
              w.trace in
          let (zero_code, some_driver) =
            msgbox_init-returns dev fuel task_handle at rv_id arm_id 0 at w.irq
              (muted-apart rv_id arm_id 0 at (omega arith) (omega arith) refl (omega arith)) bounded
              (some msgbox_rx) w.driver w.trace (ground (arith, there)) (unfold coef in refl)
              (unfold coef in refl) in
          let (d, e) = mailbox_done-go w r zero_code some_driver in
          subst
            (λ (o : Outcome (Unit {0}) × World).
              Follows code pointer cs (called w.trace) (proceed code pointer k o))
            (sym e)
            (subst
              (λ (before : List Call).
                Follows code pointer cs before
                  (k (record w { driver = d; irq = r.2; trace = r.3 })))
              (msgbox_init-called dev fuel task_handle at w.irq rv_id arm_id 0 (some msgbox_rx) at
                w.driver w.trace)
              (rest.follows (record w { driver = d; irq = r.2; trace = r.3 }) tt idle));
    }

    prepared-Follows :
        (table : ℕ) (w : World)
        → Follows code pointer
            (metal_list_init ∷ metal_init ∷ remoteproc_init at ∷ setup_order code pointer table)
            (called w.trace)
            (prepared (steady code pointer) dev fuel task_handle table at w)
    unfolding prepared
    prepared-Follows table w = begin-Follows _ _ w (
        metal-Makes (
          say-Makes code pointer _ _ (
            mailbox-Makes (
              say-Makes code pointer _ _ (
                say-Makes code pointer _ _ (
                  found-Makes code pointer {Q = Anything} _ _ refl (λ plat. refl) (λ plat e p. tt)
                    (say-Makes code pointer _ _ (setup_rpmsg-Makes code pointer table))))))))

    -- On a platform that is not NULL, with a receive FIFO that holds fewer words than there is fuel, and with
    -- libraries whose answer to a call is given by the call, `platform_rproc_init` returns. It makes the
    -- calls of the list in this order, up to and with the first that fails; it returns the code of that
    -- call, -1 for a NULL pointer, and 0 if none fails. `platform_get_rpmsg_device` then gives the
    -- device exactly if the result is 0, and NULL otherwise.
    pub platform_rproc_init-first_failure :
        (table rdev_at : ℕ) (w : World)
        → let order =
            metal_list_init ∷ metal_init ∷ remoteproc_init at ∷ setup_order code pointer table in
          let z = first_failure code pointer order in
          let (o, w') = platform_rproc_init (steady code pointer) dev fuel task_handle table at w in
          (o ≡ (if is_zero z then done (pos 0) else returned z))
          × (called w'.trace ≡ attempted code pointer order (called w.trace))
          × (platform_get_rpmsg_device rdev_at at w'.plat ≡ (if is_zero z then rdev_at else 0))
    unfolding platform_rproc_init platform_get_rpmsg_device
    platform_rproc_init-first_failure table rdev_at w =
        let f = prepared-Follows table w in
        (
          ground (arith, there, f.outcome),
          ground (arith, there, f.calls),
          ground (arith, there, f.ready),
        )
