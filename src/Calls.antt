-- ===== src/Calls.antt =====
-- The calls of FreeRTOS, libmetal and open-amp that the firmware makes, which are other projects.
use t113_c.Base.{ℕ}

-- A call with the arguments that matter here. Pointers are addresses, with 0 for NULL.
pub data Call : Type 0 where
  metal_init : Call
  remoteproc_init : ℕ → Call
  remoteproc_mmap : ℕ → ℕ → ℕ → Call
  remoteproc_set_rsc_table : ℕ → ℕ → Call
  remoteproc_config : Call
  remoteproc_start : Call
  remoteproc_create_virtio : ℕ → ℕ → Call
  remoteproc_get_io_with_da : ℕ → Call
  remoteproc_get_notification : ℕ → Call
  remoteproc_init_mem : ℕ → ℕ → ℕ → ℕ → Call
  remoteproc_add_mem : ℕ → Call
  rpmsg_init_vdev : ℕ → ℕ → Call
  rpmsg_create_ept : ℕ → ℕ → Call
  rpmsg_send : ℕ → ℕ → ℕ → Call
  metal_list_init : Call
  metal_list_first : Call
  metal_list_del : ℕ → Call
  metal_list_add_tail : ℕ → Call
  metal_allocate_memory : Call
  metal_free_memory : ℕ → Call
  metal_io_init : ℕ → ℕ → ℕ → ℕ → Call
  task_current : Call
  task_notify_take : ℕ → Call
  task_create : Call
  task_delay : ℕ → Call
  scheduler_state : Call
  start_scheduler : Call
