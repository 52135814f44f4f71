-- ===== src/Platform/Bringup/Order.antt =====
-- The calls of `platform_rproc_init` in their order, and what it returns.
use Prim.Native.String.{String}
use mathlib.Core.Path.{subst}
use t113_c.Base.{ℕ, ◌==◌, true, false, ◌≡◌, refl, sym, ◌∙◌, ap₂, arith}
use t113_c.Base.{List, [], ◌∷◌, ℤ, pos}
use t113_c.Calls.{
  Call, remoteproc_mmap, remoteproc_set_rsc_table, remoteproc_config, remoteproc_start,
  remoteproc_create_virtio, remoteproc_get_io_with_da, rpmsg_init_vdev, rpmsg_create_ept,
}
use t113_c.Hw.{LogLevel, library, log, info}
use t113_c.Hw.History.{called}
use t113_c.Platform.{World, OpenampPlatform, Step, check, found, setup_rpmsg}
use t113_c.Platform.{◌>>◌, say, update, reading, finished}
use t113_c.Platform.Bringup.{
  steady, verdict, null_code, first_failure, attempted, Follows, proceed, check-Follows,
  found-Follows,
}

-- What the platform knows before its first calls, and below before its last ones.
abbrev pub Anything : OpenampPlatform → Type 0
Anything plat = Unit {0}

module _ (code : Call → ℤ) (pointer : Call → ℕ) where
  -- A step makes these calls from every world whose platform is as `P` says and not yet ready.
  pub record Makes (P : OpenampPlatform → Type 0) (cs : List Call) (m : Step ℤ) : Type 0 where
    pub follows :
        (w : World)
        → P w.plat
        → w.plat.rpmsg_ready ≡ false
        → Follows code pointer cs (called w.trace) (m w)

  pub say-Makes :
      {P : OpenampPlatform → Type 0} {k : Step ℤ} {cs : List Call} (level : LogLevel)
      (text : String)
      → Makes P cs k
      → Makes P cs (say level text >> k)
  unfolding ◌>>◌ say called
  say-Makes level text rest = record {
    follows = λ w p idle. rest.follows (record w { trace = log level text ∷ w.trace }) p idle;
  }

  check-Makes :
      {P : OpenampPlatform → Type 0} {c : Call} {k : Step ℤ} {cs : List Call} (text : String)
      → verdict code pointer c ≡ code c
      → Makes P cs k
      → Makes P (c ∷ cs) (check (steady code pointer) text c >> k)
  unfolding ◌>>◌ called
  check-Makes {c = c} {k} {cs} text same rest = record {
    follows = λ w p idle.
        check-Follows code pointer text c k cs w same idle
          (rest.follows (record w { trace = library c ∷ w.trace }) p idle);
  }

  pub found-Makes :
      {P : OpenampPlatform → Type 0} {Q : OpenampPlatform → Type 0} {c : Call} {k : Step ℤ}
      {cs : List Call} (text : String) (keep : ℕ → OpenampPlatform → OpenampPlatform)
      → verdict code pointer c ≡ null_code code pointer (pointer c)
      → ((plat : OpenampPlatform) → (keep (pointer c) plat).rpmsg_ready ≡ plat.rpmsg_ready)
      → ((plat : OpenampPlatform) → (pointer c == 0) ≡ false → P plat → Q (keep (pointer c) plat))
      → Makes Q cs k
      → Makes P (c ∷ cs) (found (steady code pointer) text c keep >> k)
  unfolding ◌>>◌ called
  found-Makes {c = c} {k} {cs} text keep same kept next rest = record {
    follows = λ w p idle.
        found-Follows code pointer text c keep k cs w same (kept w.plat ∙ idle) (λ there.
          rest.follows (record w { plat = keep (pointer c) w.plat; trace = library c ∷ w.trace })
            (next w.plat there p) (kept w.plat ∙ idle));
  }

  -- The end: the platform is ready.
  end-Makes :
      {P : OpenampPlatform → Type 0} (text : String)
      → Makes P [] (
          update (λ plat. record plat { rpmsg_ready = true })
          >> (say info text >> finished (pos 0)))
  unfolding ◌>>◌ say update finished called first_failure attempted
  end-Makes text = record {
    follows = λ w p idle. record { outcome = refl; calls = refl; ready = refl };
  }

  reading-Makes :
      {P : OpenampPlatform → Type 0} {d : Call} {k : Step ℤ} {cs : List Call} (text : String)
      (c : OpenampPlatform → Call)
      → verdict code pointer d ≡ code d
      → ((plat : OpenampPlatform) → P plat → c plat ≡ d)
      → Makes P cs k
      → Makes P (d ∷ cs) (reading (λ plat. check (steady code pointer) text (c plat)) >> k)
  unfolding ◌>>◌ reading called
  reading-Makes {d = d} {k} {cs} text c same known rest = record {
    follows = λ w p idle.
        subst
          (λ (e : Call).
            Follows code pointer (d ∷ cs) (called w.trace)
              (proceed code pointer k (check (steady code pointer) text e w)))
          (sym (known w.plat p))
          (check-Follows code pointer text d k cs w same idle
            (rest.follows (record w { trace = library d ∷ w.trace }) p idle));
  }

  abbrev pub setup_order : ℕ → List Call
  setup_order table =
      let vdev = pointer (remoteproc_create_virtio 0 1) in
      let shm = pointer (remoteproc_get_io_with_da 0x414B0000) in
      remoteproc_mmap table table 148
      ∷ remoteproc_set_rsc_table table 148
      ∷ remoteproc_config
      ∷ remoteproc_start
      ∷ remoteproc_create_virtio 0 1
      ∷ remoteproc_get_io_with_da 0x414B0000
      ∷ rpmsg_init_vdev vdev shm
      ∷ rpmsg_create_ept 0x400 0xFFFFFFFF
      ∷ []

  abbrev HasVdev : OpenampPlatform → Type 0
  HasVdev plat = plat.vdev ≡ pointer (remoteproc_create_virtio 0 1)

  abbrev HasBoth : OpenampPlatform → Type 0
  HasBoth plat = HasVdev plat × (plat.shm_io ≡ pointer (remoteproc_get_io_with_da 0x414B0000))

  pub setup_rpmsg-Makes :
      (table : ℕ) → Makes Anything (setup_order table) (setup_rpmsg (steady code pointer) table)
  unfolding setup_rpmsg
  setup_rpmsg-Makes table = say-Makes _ _ (
      say-Makes _ _ (
        say-Makes _ _ (
          say-Makes _ _ (
            found-Makes {Q = Anything} _ _ refl (λ plat. refl) (λ plat there p. tt)
              (check-Makes _ refl (
                say-Makes _ _ (
                  check-Makes _ refl (
                    say-Makes _ _ (
                      check-Makes _ refl (
                        say-Makes _ _ (
                          found-Makes {Q = HasVdev} _ _ refl (λ plat. refl) (λ plat there p. refl)
                            (say-Makes _ _ (
                              found-Makes {Q = HasBoth} _ _ refl (λ plat. ground arith)
                                (λ plat there p. ground (arith, there, p))
                                (reading-Makes _ (λ plat. rpmsg_init_vdev plat.vdev plat.shm_io)
                                  refl (λ plat p. ap₂ rpmsg_init_vdev p.0 p.1)
                                  (say-Makes _ _ (
                                    check-Makes _ refl (say-Makes _ _ (end-Makes _))))))))))))))))))
