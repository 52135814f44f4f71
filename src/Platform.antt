-- ===== src/Platform.antt =====
-- openamp/platform/platform.c: the bring-up of the remote processor, over the mailbox and the
-- calls of libmetal and open-amp. Platform/Memory has the mappings of the remote processor.
pub mod Echo
pub mod Wire
pub mod Bringup
pub mod Memory
pub mod Poll
mod Tests
use Prim.Native.String.{String}
use t113_c.Base.{ℕ, ◌+◌, ◌^◌, ◌==◌, if◌then◌else◌, Bool, true, false, ◌||◌, not}
use t113_c.Base.{List, [], ◌∷◌, Option, none, some, ℤ, pos, negsuc, is_zero, is_negative}
use t113_c.Calls.{
  Call, metal_init, metal_list_init, remoteproc_init, remoteproc_mmap, remoteproc_set_rsc_table,
  remoteproc_config, remoteproc_start, remoteproc_create_virtio, remoteproc_get_io_with_da,
  remoteproc_get_notification, rpmsg_init_vdev, rpmsg_create_ept, rpmsg_send,
}
use t113_c.Hw.{Hw, Device, Library, Trace, LogLevel, log, info, error, library, skip, emit, call}
use t113_c.Irq.{Irq}
use t113_c.Rsc.{resource_table, resource_table_init, resource_table_get_rvdev_shm_entry}
use t113_c.Msgbox.{Msgbox, Driver, RxCallback, msgbox_poll, msgbox_send}
use t113_c.Msgbox.Setup.{Polled, arm_id, rv_id, msgbox_init}

-- VDEV_ID, VRING_ROLE (VIRTIO_DEV_SLAVE), the endpoint's address and RPMSG_ADDR_ANY.
abbrev pub vdev_id : ℕ
vdev_id = 0

abbrev pub vring_role : ℕ
vring_role = 1

abbrev pub ept_addr : ℕ
ept_addr = 0x400

abbrev pub rpmsg_addr_any : ℕ
rpmsg_addr_any = 0xFFFFFFFF

-- `struct openamp_platform` where it is not the libraries' own; its mailbox is in the driver below.
-- The pool, which is only cleared, is left out.
pub record OpenampPlatform : Type 0 where
  pub vdev : ℕ
  pub shm_io : ℕ
  pub rpmsg_ready : Bool

-- The two fields of open-amp's `struct remoteproc` that the platform sets.
pub record Remoteproc : Type 0 where
  pub priv : ℕ
  pub ops : ℕ

pub platform_rproc_init_cb : ℕ → ℕ → Remoteproc → Remoteproc
platform_rproc_init_cb ops priv rproc = record { priv = priv; ops = ops }

-- What the code works on.
pub record World : Type 0 where
  pub plat : OpenampPlatform
  pub driver : Driver
  pub irq : Irq Polled
  pub trace : Trace

-- How a step of the bring-up ends: it goes on, it returns a code, or a poll is still running.
pub data Outcome (A : Type 0) : Type 0 where
  done : A → Outcome A
  returned : ℤ → Outcome A
  running : Outcome A

abbrev pub Step : Type 0 → Type 0
Step A = World → Outcome A × World

-- A step that goes on is followed by the rest.
infixr 5 ◌>>◌
pub ◌>>◌ : {B : Type 0} → Step (Unit {0}) → Step B → Step B
◌>>◌ m k w =
    let (o, w') = m w in
    elim o [ done a ↦ k w' | returned z ↦ (returned z, w') | running ↦ (running, w') ]

pub say : LogLevel → String → Step (Unit {0})
say level text w = (done tt, record w { trace = log level text ∷ w.trace })

-- A step whose call has a field of the platform as an argument.
pub reading : {A : Type 0} → (OpenampPlatform → Step A) → Step A
reading f w = f w.plat w

-- A change of the platform's own fields.
pub update : (OpenampPlatform → OpenampPlatform) → Step (Unit {0})
update f w = (done tt, record w { plat = f w.plat })

pub finished : {A : Type 0} → A → Step A
finished a w = (done a, w)

-- `memset(plat, 0, sizeof(*plat))`. The polled state is not in it.
abbrev pub cleared : OpenampPlatform
cleared = record { vdev = 0; shm_io = 0; rpmsg_ready = false }

abbrev pub cleared_mailbox : Msgbox
cleared_mailbox = record {
  base = 0 ∷ 0 ∷ 0 ∷ [];
  local_id = 0;
  remote_id = 0;
  local_n = pos 0;
  remote_n = pos 0;
  channel = 0;
  fifo_depth = 0;
  rx_cb = none;
  rx_priv = 0;
  irq_registered = false;
  irq_count = 0;
  rx_count = 0;
  last_data = 0;
  zero_data_cnt = 0;
}

pub clear_platform : Step (Unit {0})
clear_platform w = (
  done tt,
  record w {
    plat = cleared;
    driver = record w.driver { mb = cleared_mailbox };
    trace = library metal_list_init ∷ w.trace;
  },
)

-- `msgbox_rx`; `priv` is the platform's address.
pub msgbox_rx : RxCallback
msgbox_rx priv word = if priv == 0 then skip else call (remoteproc_get_notification word)

-- `platform_get_rpmsg_device`: the address of the device in a platform at `at`.
pub platform_get_rpmsg_device : ℕ → ℕ → OpenampPlatform → ℕ
platform_get_rpmsg_device rdev_at at plat = if at == 0 || not plat.rpmsg_ready then 0 else rdev_at

-- What follows `ret = msgbox_init(...)`.
pub mailbox_done : World → Option ℤ × Polled × Irq Polled × Trace → Outcome (Unit {0}) × World
mailbox_done w (none, polled, irq, t) = (running, record w { irq = irq; trace = t })
mailbox_done w (some z, none, irq, t) = (running, record w { irq = irq; trace = t })
mailbox_done w (some z, some d, irq, t) =
    let w' : World = record w { driver = d; irq = irq; trace = t } in
    if is_zero z
    then (done tt, w')
    else (returned z, record w' { trace = log error "msgbox_init failed (%d)" ∷ t })

module _ (dev : Device) (fuel task_handle : ℕ) where
  -- The mailbox of the platform at `at`: this core, the ARM core, channel 0.
  pub start_mailbox : ℕ → Step (Unit {0})
  start_mailbox at w = mailbox_done w (
      msgbox_init dev fuel task_handle at rv_id arm_id 0 (some msgbox_rx) at w.driver w.irq w.trace)

module _ (lib : Library) where
  -- `ret = call; if (ret) { LOGE(text); return ret; }`
  pub check : String → Call → Step (Unit {0})
  check text c w =
      let z = lib.code c w.trace in
      let t = library c ∷ w.trace in
      if is_zero z
      then (done tt, record w { trace = t })
      else (returned z, record w { trace = log error text ∷ t })

  -- A call that gives a pointer, which is kept, and `if (!p) { LOGE(text); return -1; }`.
  pub found : String → Call → (ℕ → OpenampPlatform → OpenampPlatform) → Step (Unit {0})
  found text c keep w =
      let p = lib.pointer c w.trace in
      let t = library c ∷ w.trace in
      let plat = keep p w.plat in
      if p == 0
      then (returned (negsuc 0), record w { plat = plat; trace = log error text ∷ t })
      else (done tt, record w { plat = plat; trace = t })

  pub setup_rpmsg : ℕ → Step ℤ
  setup_rpmsg table_at = do
    let (table, size) = resource_table_init table_at 0
    say info "resource table @%p len=%d version=%u entries=%u"
    say info "shm: da=0x%08x pa=0x%08x len=0x%x flags=0x%x"
    say info "vring0: da=0x%08x align=%u num=%u notify=%u"
    say info "vring1: da=0x%08x align=%u num=%u notify=%u"
    found "remoteproc_mmap rsc failed" (remoteproc_mmap table table size) (λ p plat. plat)
    check "remoteproc_set_rsc_table failed (%d)" (remoteproc_set_rsc_table table size)
    say info "resource table registered (pa=0x%lx da=0x%lx)"
    check "remoteproc_config failed (%d)" remoteproc_config
    say info "remoteproc_config done"
    check "remoteproc_start failed (%d)" remoteproc_start
    say info "remoteproc_start done"
    found "remoteproc_create_virtio failed" (remoteproc_create_virtio vdev_id vring_role)
        (λ p plat. record plat { vdev = p })
    say info "virtio device created (notifyid=%u role=%u)"
    let carveout = resource_table_get_rvdev_shm_entry resource_table 0
    found "remoteproc_get_io_with_da failed (da=0x%lx)" (remoteproc_get_io_with_da carveout.da)
        (λ p plat. if p == 0 then plat else record plat { shm_io = p })
    reading (λ plat. check "rpmsg_init_vdev failed (%d)" (rpmsg_init_vdev plat.vdev plat.shm_io))
    say info "rpmsg virtio ready (support_ns=%d)"
    check "rpmsg_create_ept failed (%d)" (rpmsg_create_ept ept_addr rpmsg_addr_any)
    say info "endpoint '%s' src=0x%x dst=0x%x created"
    update (λ plat. record plat { rpmsg_ready = true })
    say info "RPMSG stack ready, waiting for host pings"
    finished (pos 0)

  -- `ret = metal_init(...); if (ret) return ret;`
  pub check_metal : Step (Unit {0})
  check_metal w =
      let z = lib.code metal_init w.trace in
      let w' : World = record w { trace = library metal_init ∷ w.trace } in
      if is_zero z then (done tt, w') else (returned z, w')

  module _ (dev : Device) (fuel task_handle : ℕ) where
    -- On a platform that is not NULL.
    pub prepared : ℕ → ℕ → Step ℤ
    prepared table_at at = do
      say info "platform_rproc_init begin"
      clear_platform
      check_metal
      say info "metal_init ok"
      start_mailbox dev fuel task_handle at
      say info "msgbox ready (local=%d remote=%d local_n=%d remote_n=%d chan=%d)"
      say info "msgbox will now signal via IRQ %d (CPU->RV) with polling as fallback"
      found "remoteproc_init failed" (remoteproc_init at) (λ p plat. plat)
      say info "remoteproc_init ok (rproc=%p)"
      setup_rpmsg table_at

    -- On a platform at `at`, where 0 is NULL. Its mailbox is its first field.
    pub platform_rproc_init : ℕ → ℕ → Step ℤ
    platform_rproc_init table_at at w =
        if at == 0 then (returned (negsuc 0), w) else prepared table_at at w

module _ (lib : Library) where
  -- `rpmsg_echo_cb`, with `ept->dest_addr` before and after, which `rpmsg_send` reads. The second line has
  -- the first bytes in hexadecimal.
  pub rpmsg_echo_cb : ℕ → ℕ → ℕ → ℕ → Hw (ℕ × ℤ)
  rpmsg_echo_cb dest_addr data_at len src t =
      let dest = if dest_addr == rpmsg_addr_any then src else dest_addr in
      let t1 = log info "rpmsg rx: src=0x%x dst=0x%x len=%u" ∷ t in
      let t2 = if data_at == 0 || len == 0 then t1 else log info "%s" ∷ t1 in
      let ret = lib.code (rpmsg_send dest data_at len) t2 in
      let text =
        if is_negative ret
        then log error "rpmsg echo send failed (%d)"
        else log info "rpmsg echo send ok (len=%d)" in
      ((dest, pos 0), text ∷ library (rpmsg_send dest data_at len) ∷ t2)

module _ (dev : Device) (fuel : ℕ) where
  -- `platform_poll`; `none` is a poll that is still running.
  pub platform_poll : ℕ → Driver → Hw Polled
  platform_poll at d = if at == 0 then (λ t. (some d, t)) else msgbox_poll dev fuel d

  -- `platform_rproc_notify`, by which open-amp rings the other core.
  pub platform_rproc_notify : Driver → ℕ → Hw ℤ
  platform_rproc_notify d id = msgbox_send dev (some d.mb) id

-- `platform_rproc_start` and `platform_rproc_stop`
abbrev pub platform_rproc_start : ℤ
platform_rproc_start = pos 0

abbrev pub platform_rproc_stop : ℤ
platform_rproc_stop = pos 0
