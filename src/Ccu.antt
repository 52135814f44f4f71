-- ===== src/Ccu.antt =====
-- hal/sources/ccu.c and hal/includes/ccu.h: clock gates and reset lines of the bus clocks.
-- A clock or a reset line is a number below 13, as the enums of ccu.h count them.
pub mod Gates
mod Tests
use Prim.Native.String.{String}
use t113_c.Base.{ℕ, ◌+◌, ◌==◌, leb, if◌then◌else◌, Bool, true, false, not, List, [], ◌∷◌, get_or}
use t113_c.Base.{bit_and, bit_or, ◌<<<◌, ◌>>>◌, complement}
use t113_c.Hw.{Hw, Device, readl, writel, return, skip, ◌>>=◌, ◌>>◌}
use t113_c.Delay.{udelay}

-- CCU_BASE_ADDR, PARENT_CLK_PSI_AHB, PARENT_CLK_APB1
abbrev pub ccu_base_addr : ℕ
ccu_base_addr = 0x02001000

abbrev pub parent_clk_psi_ahb : ℕ
parent_clk_psi_ahb = 0xFF

abbrev pub parent_clk_apb1 : ℕ
parent_clk_apb1 = 0xFE

-- `clk_cfg_t`
pub record ClkCfg : Type 0 where
  pub name : String
  pub reg_offset : ℕ
  pub bit_pos : ℕ
  pub parent_clk_id : ℕ
  pub has_parent : Bool

-- `rst_cfg_t`
pub record RstCfg : Type 0 where
  pub reg_offset : ℕ
  pub bit_pos : ℕ

abbrev clk : String → ℕ → ℕ → ℕ → ClkCfg
clk n o b p = record { name = n; reg_offset = o; bit_pos = b; parent_clk_id = p; has_parent = true }

abbrev rst : ℕ → ℕ → RstCfg
rst o b = record { reg_offset = o; bit_pos = b }

abbrev pub clk_table : List ClkCfg
clk_table =
    clk "bus-mmc0" 0x84c 0 parent_clk_psi_ahb
    ∷ clk "bus-mmc1" 0x84c 1 parent_clk_psi_ahb
    ∷ clk "bus-mmc2" 0x84c 2 parent_clk_psi_ahb
    ∷ clk "bus-uart0" 0x90c 0 parent_clk_apb1
    ∷ clk "bus-uart1" 0x90c 1 parent_clk_apb1
    ∷ clk "bus-uart2" 0x90c 2 parent_clk_apb1
    ∷ clk "bus-uart3" 0x90c 3 parent_clk_apb1
    ∷ clk "bus-uart4" 0x90c 4 parent_clk_apb1
    ∷ clk "bus-uart5" 0x90c 5 parent_clk_apb1
    ∷ clk "bus-i2c0" 0x91c 0 parent_clk_apb1
    ∷ clk "bus-i2c1" 0x91c 1 parent_clk_apb1
    ∷ clk "bus-i2c2" 0x91c 2 parent_clk_apb1
    ∷ clk "bus-i2c3" 0x91c 3 parent_clk_apb1
    ∷ []

abbrev pub rst_table : List RstCfg
rst_table =
    rst 0x2c0 16
    ∷ rst 0x2c0 17
    ∷ rst 0x2c0 18
    ∷ rst 0x2d8 16
    ∷ rst 0x2d8 17
    ∷ rst 0x2d8 18
    ∷ rst 0x2d8 19
    ∷ rst 0x2d8 20
    ∷ rst 0x2d8 21
    ∷ rst 0x2d0 0
    ∷ rst 0x2d0 1
    ∷ rst 0x2d0 2
    ∷ rst 0x2d0 3
    ∷ []

-- CLK_MAX and RST_MAX, the counts of both enums.
abbrev pub clk_max : ℕ
clk_max = 13

abbrev pub rst_max : ℕ
rst_max = 13

-- Both tables are read below their end only: the value past it is never used.
pub clk_cfg : ℕ → ClkCfg
clk_cfg id = get_or clk_table id (clk "" 0 0 0)

pub rst_cfg : ℕ → RstCfg
rst_cfg id = get_or rst_table id (rst 0 0)

-- CCU_REG, as an address.
abbrev pub ccu_reg : ℕ → ℕ
ccu_reg offset = ccu_base_addr + offset

-- BIT_SET, BIT_CLR and BIT_GET on a 32-bit value.
abbrev pub bit_set : ℕ → ℕ → ℕ
bit_set reg b = bit_or reg (1 <<< b)

abbrev pub bit_clr : ℕ → ℕ → ℕ
bit_clr reg b = bit_and reg (complement 32 (1 <<< b))

abbrev pub bit_get : ℕ → ℕ → ℕ
bit_get reg b = bit_and (reg >>> b) 1

-- UART2, the console: its clock and its reset line.
abbrev pub bus_uart2 : ℕ
bus_uart2 = 5

abbrev pub rst_uart2 : ℕ
rst_uart2 = 5

module _ (dev : Device) where
  pub enable_clock : ℕ → Hw (Unit {0})
  enable_clock id = if leb clk_max id then skip else do
    reg_val ← readl dev (ccu_reg (clk_cfg id).reg_offset)
    writel (bit_set reg_val (clk_cfg id).bit_pos) (ccu_reg (clk_cfg id).reg_offset)

  pub disable_clock : ℕ → Hw (Unit {0})
  disable_clock id = if leb clk_max id then skip else do
    reg_val ← readl dev (ccu_reg (clk_cfg id).reg_offset)
    writel (bit_clr reg_val (clk_cfg id).bit_pos) (ccu_reg (clk_cfg id).reg_offset)

  pub is_clock_enabled : ℕ → Hw Bool
  is_clock_enabled id = if leb clk_max id then return false else do
    reg_val ← readl dev (ccu_reg (clk_cfg id).reg_offset)
    return (not (bit_get reg_val (clk_cfg id).bit_pos == 0))

  pub reset_assert : ℕ → Hw (Unit {0})
  reset_assert id = if leb rst_max id then skip else do
    reg_val ← readl dev (ccu_reg (rst_cfg id).reg_offset)
    writel (bit_clr reg_val (rst_cfg id).bit_pos) (ccu_reg (rst_cfg id).reg_offset)

  pub reset_deassert : ℕ → Hw (Unit {0})
  reset_deassert id = if leb rst_max id then skip else do
    reg_val ← readl dev (ccu_reg (rst_cfg id).reg_offset)
    writel (bit_set reg_val (rst_cfg id).bit_pos) (ccu_reg (rst_cfg id).reg_offset)

  pub reset : ℕ → Hw (Unit {0})
  reset id = if leb rst_max id then skip else do reset_assert id; udelay 10; reset_deassert id

  pub get_reset_status : ℕ → Hw Bool
  get_reset_status id = if leb rst_max id then return false else do
    reg_val ← readl dev (ccu_reg (rst_cfg id).reg_offset)
    return (bit_get reg_val (rst_cfg id).bit_pos == 0)

-- CCU_SetClockRate has an empty body.
pub set_clock_rate : ℕ → ℕ → Hw (Unit {0})
set_clock_rate id rate = skip

pub get_clock_rate : ℕ → ℕ
get_clock_rate id =
    if leb clk_max id
    then 0
    else if (clk_cfg id).parent_clk_id == parent_clk_psi_ahb
    then 600000000
    else if (clk_cfg id).parent_clk_id == parent_clk_apb1
    then 24000000
    else 0
