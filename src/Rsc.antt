-- ===== src/Rsc.antt =====
-- core/rsc_tab.c and core/rsc_table.h: the resource table, by which the other core learns where the
-- rings and the shared buffers are. The entries have the fields of open-amp's remoteproc.h.
use Prim.Native.String.{String}
use t113_c.Base.{ℕ, ◌+◌, ◌*◌, List, [], ◌∷◌}

pub record Carveout : Type 0 where
  pub type : ℕ
  pub da : ℕ
  pub pa : ℕ
  pub len : ℕ
  pub flags : ℕ
  pub reserved : ℕ
  pub name : String

pub record Vdev : Type 0 where
  pub type : ℕ
  pub id : ℕ
  pub notifyid : ℕ
  pub dfeatures : ℕ
  pub gfeatures : ℕ
  pub config_len : ℕ
  pub status : ℕ
  pub num_of_vrings : ℕ
  pub reserved : List ℕ

pub record Vring : Type 0 where
  pub da : ℕ
  pub align : ℕ
  pub num : ℕ
  pub notifyid : ℕ
  pub reserved : ℕ

-- `struct sunxi_resource_table`, without the trace entry, which the configuration leaves out.
pub record ResourceTable : Type 0 where
  pub version : ℕ
  pub num : ℕ
  pub reserved : List ℕ
  pub offset : List ℕ
  pub rvdev_shm : Carveout
  pub vdev : Vdev
  pub vring0 : Vring
  pub vring1 : Vring

-- The sizes of the packed parts: six words and a name of 32 bytes; six words and four bytes; five words.
abbrev pub carveout_size : ℕ
carveout_size = 6 * 4 + 32

abbrev pub vdev_size : ℕ
vdev_size = 6 * 4 + 4

abbrev pub vring_size : ℕ
vring_size = 5 * 4

abbrev pub head_size : ℕ
head_size = 4 + 4 + 2 * 4 + 2 * 4

abbrev pub resource_table : ResourceTable
resource_table = record {
  version = 1;
  num = 2;
  reserved = 0 ∷ 0 ∷ [];
  offset = head_size ∷ (head_size + carveout_size) ∷ [];
  rvdev_shm = record {
    type = 0;
    da = 0x414B0000;
    pa = 0x414B0000;
    len = 0x40000;
    flags = 1;
    reserved = 0;
    name = "vdev0buffer";
  };
  vdev = record {
    type = 3;
    id = 7;
    notifyid = 0;
    dfeatures = 1;
    gfeatures = 0;
    config_len = 0;
    status = 0;
    num_of_vrings = 2;
    reserved = 0 ∷ 0 ∷ [];
  };
  vring0 = record { da = 0x414AC000; align = 64; num = 128; notifyid = 1; reserved = 0 };
  vring1 = record { da = 0x414AE000; align = 64; num = 128; notifyid = 2; reserved = 0 };
}

-- The table is at an address that the linker gives. The id is not used.
abbrev pub resource_table_init : ℕ → ℕ → ℕ × ℕ
resource_table_init table_at rsc_id =
    (table_at, head_size + carveout_size + vdev_size + 2 * vring_size)

abbrev pub resource_table_get_rvdev_shm_entry : ResourceTable → ℕ → Carveout
resource_table_get_rvdev_shm_entry table rvdev_id = table.rvdev_shm

abbrev pub resource_table_vdev_notifyid : ResourceTable → ℕ
resource_table_vdev_notifyid table = table.vdev.notifyid

abbrev pub resource_table_get_vdev : ResourceTable → ℕ → Vdev
resource_table_get_vdev table index = table.vdev
