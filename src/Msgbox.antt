-- ===== src/Msgbox.antt =====
-- openamp/platform/ipi.c and ipi.h: the driver of the mailbox between the cores. The interrupt
-- handler and `msgbox_init` stand in Msgbox/Setup.
pub mod Setup
pub mod Fifo
pub mod Notify
pub mod Arrivals
pub mod Race
pub mod Devices
pub mod Counters
pub mod Send
mod Tests
use t113_c.Base.{ℕ, zero, suc, ◌+◌, ◌*◌, ◌%◌, ◌^◌, ◌==◌, ltb, if◌then◌else◌, Bool, true, false, not}
use t113_c.Base.{
  List, [], ◌∷◌, Option, none, some, get_or, bit_and, bit_or, ◌<<<◌, ◌>>>◌, complement,
}
use t113_c.Base.{u32, u64, ℤ, pos, negsuc, to_unsigned}
use t113_c.Hw.{Hw, Device, Trace, readl, writel, return, skip, emit, log, debug, warn, ◌>>=◌, ◌>>◌}
use t113_c.Delay.{udelay}

-- SUNXI_MSGBOX_*: offsets of the registers of box `n` and channel `p`.
abbrev pub msgbox_offset : ℤ → ℕ
msgbox_offset n = u32 (0x100 * to_unsigned n)

abbrev pub read_irq_enable : ℤ → ℕ
read_irq_enable n = u32 (0x20 + msgbox_offset n)

abbrev pub read_irq_status : ℤ → ℕ
read_irq_status n = u32 (0x24 + msgbox_offset n)

abbrev pub write_irq_enable : ℤ → ℕ
write_irq_enable n = u32 (0x30 + msgbox_offset n)

abbrev pub write_irq_status : ℤ → ℕ
write_irq_status n = u32 (0x34 + msgbox_offset n)

abbrev pub msg_status : ℤ → ℕ → ℕ
msg_status n p = u32 (0x60 + msgbox_offset n + 0x4 * p)

abbrev pub msg_fifo : ℤ → ℕ → ℕ
msg_fifo n p = u32 (0x70 + msgbox_offset n + 0x4 * p)

abbrev pub write_irq_threshold : ℤ → ℕ → ℕ
write_irq_threshold n p = u32 (0x80 + msgbox_offset n + 0x4 * p)

-- RD_IRQ_*_SHIFT and WR_IRQ_*_SHIFT; the masks are 1. MSG_NUM_MASK, with shift 0.
abbrev pub rd_irq_shift : ℕ → ℕ
rd_irq_shift p = p * 2

abbrev pub wr_irq_shift : ℕ → ℕ
wr_irq_shift p = p * 2 + 1

abbrev pub msg_num_mask : ℕ
msg_num_mask = 0xF

-- `msgbox_rx_cb`, called with the private pointer and the word. It acts through the hardware.
abbrev pub RxCallback : Type 0
RxCallback = ℕ → ℕ → Hw (Unit {0})

-- `struct msgbox`
pub record Msgbox : Type 0 where
  pub base : List ℕ
  pub local_id : ℕ
  pub remote_id : ℕ
  pub local_n : ℤ
  pub remote_n : ℤ
  pub channel : ℕ
  pub fifo_depth : ℕ
  pub rx_cb : Option RxCallback
  pub rx_priv : ℕ
  pub irq_registered : Bool
  pub irq_count : ℕ
  pub rx_count : ℕ
  pub last_data : ℕ
  pub zero_data_cnt : ℕ

-- A mailbox, and the static variables of `msgbox_poll`.
pub record Driver : Type 0 where
  pub mb : Msgbox
  pub last_vqid : ℕ
  pub repeat : ℕ

-- `msgbox_base`
abbrev pub msgbox_base : Msgbox → ℕ → ℕ
msgbox_base mb id = get_or mb.base id 0

-- The registers that one box uses: its receive status and FIFO, and the peer's.
unfoldable pub status_reg : Msgbox → ℕ
status_reg mb = u64 (msgbox_base mb mb.local_id + read_irq_status mb.local_n)

unfoldable pub fifo_reg : Msgbox → ℕ
fifo_reg mb = u64 (msgbox_base mb mb.local_id + msg_fifo mb.local_n mb.channel)

unfoldable pub peer_status_reg : Msgbox → ℕ
peer_status_reg mb = u64 (msgbox_base mb mb.remote_id + msg_status mb.remote_n mb.channel)

unfoldable pub peer_fifo_reg : Msgbox → ℕ
peer_fifo_reg mb = u64 (msgbox_base mb mb.remote_id + msg_fifo mb.remote_n mb.channel)

-- What `msgbox_poll` does with the counters for one received word. `drained` is its local counter.
pub account : ℕ → ℕ × Driver → ℕ × Driver
account word (drained, d) =
    if word == 0
    then (drained, d)
    else (let mb : Msgbox = record d.mb { last_data = word; rx_count = u32 (d.mb.rx_count + 1) } in
        (
          u32 (drained + 1),
          if word == d.last_vqid
              then record { mb = mb; last_vqid = d.last_vqid; repeat = u32 (d.repeat + 1) }
              else record { mb = mb; last_vqid = word; repeat = 0 },
        ))

-- `if (mb->rx_cb) mb->rx_cb(mb->rx_priv, data);`
unfoldable pub deliver : Msgbox → ℕ → Hw (Unit {0})
deliver mb word = elim mb.rx_cb [ none ↦ skip | some cb ↦ cb mb.rx_priv word ]

module _ (dev : Device) where
  pub reg_bits_set : ℕ → ℕ → ℕ → Hw (Unit {0})
  reg_bits_set addr mask shift = do v ← readl dev addr; writel (bit_or v (mask <<< shift)) addr

  pub reg_bits_clear : ℕ → ℕ → ℕ → Hw (Unit {0})
  reg_bits_clear addr mask shift = do
    v ← readl dev addr
    writel (bit_and v (complement 32 (mask <<< shift))) addr

  pub reg_bits_get : ℕ → ℕ → ℕ → Hw ℕ
  reg_bits_get addr mask shift = do v ← readl dev addr; return (bit_and (v >>> shift) mask)

  pub msgbox_pending : Msgbox → Hw ℕ
  msgbox_pending mb = reg_bits_get (status_reg mb) 1 (rd_irq_shift mb.channel)

  -- `do { … } while (pend);`. `none` is a loop that is still running.
  pub poll_loop : ℕ → ℕ × Driver → Hw (Option (ℕ × Driver))
  poll_loop zero s = return none
  poll_loop (suc fuel) (drained, d) = do
    pend ← msgbox_pending d.mb
    elim (pend == 0) [
      | true ↦ (do _ ← readl dev (fifo_reg d.mb); return (some (drained, d)))
      | false ↦ do
        word ← readl dev (fifo_reg d.mb)
        reg_bits_set (status_reg d.mb) 1 (rd_irq_shift d.mb.channel)
        deliver (account word (drained, d)).1.mb word
        poll_loop fuel (account word (drained, d))
    ]

  -- The log line of the end reads the status once more, for its argument.
  pub poll_report : ℕ × Driver → Hw (Unit {0})
  poll_report (drained, d) = if drained == 0 then skip else do
    _ ← msgbox_pending d.mb
    emit (log debug "poll drained %u msg(s), last=0x%x total_rx=%u pend=%u")

  -- `msgbox_poll` on a mailbox that is not NULL.
  pub msgbox_poll : ℕ → Driver → Hw (Option Driver)
  msgbox_poll fuel d = do
    out ← poll_loop fuel (0, d)
    elim out [ none ↦ return none | some s ↦ (do poll_report s; return (some s.1)) ]

  -- The retries that are left when the peer's FIFO has room; 0 after the last one.
  pub wait_room : Msgbox → ℕ → Hw ℕ
  wait_room mb zero = return 0
  wait_room mb (suc retry) = do
    msg_num ← reg_bits_get (peer_status_reg mb) msg_num_mask 0
    elim (ltb msg_num mb.fifo_depth) [
      | true ↦ return (suc retry)
      | false ↦ (do udelay 1; wait_room mb retry)
    ]

  -- `none` is the NULL pointer.
  pub msgbox_send : Option Msgbox → ℕ → Hw ℤ
  msgbox_send none word = return (negsuc 0)
  msgbox_send (some mb) word = do
    retry ← wait_room mb 5000
    elim (retry == 0) [
      | true ↦ (do emit (log warn "send timeout: remote=%d n=%d p=%d"); return (negsuc 0))
      | false ↦ do
        writel word (peer_fifo_reg mb)
        if word == 0 then skip else emit (log debug "send: vqid=%u")
        return (pos 0)
    ]
