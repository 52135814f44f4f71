-- ===== src/Ccu/Gates.antt =====
-- Each gate and each reset line is a bit of its own: an operation on one leaves the others alone.
mod Cells
pub mod Table
use Cells.{Apart, apart_check, Apart-holds, cell_bit, cell-set_bit, cell-clear_bit}
use t113_c.Base.{
  scan, ℕ, ◌==◌, ltb, if◌then◌else◌, ◌≡◌, refl, ap, Bool, true, false, not, ◌&&◌, arith,
}
use t113_c.Base.{◌∷◌}
use t113_c.Hw.{Device, Trace, readl, writel, answer, w32, nops}
use t113_c.Hw.Registers.{IsRegister, bit_at-nops}
use t113_c.Hw.Bitfield.{set_bit, clear_bit, bit_get-test}
use t113_c.Delay.{udelay}
use t113_c.Ccu.{clk_cfg, rst_cfg, clk_max, rst_max, ccu_reg}
use t113_c.Ccu.{enable_clock, disable_clock, is_clock_enabled}
use t113_c.Ccu.{reset_assert, reset_deassert, reset, get_reset_status}

abbrev pub clk_reg : ℕ → ℕ
clk_reg i = ccu_reg (clk_cfg i).reg_offset

abbrev pub clk_bit : ℕ → ℕ
clk_bit i = (clk_cfg i).bit_pos

abbrev pub rst_reg : ℕ → ℕ
rst_reg i = ccu_reg (rst_cfg i).reg_offset

abbrev pub rst_bit : ℕ → ℕ
rst_bit i = (rst_cfg i).bit_pos

clk-Apart : Apart clk_reg clk_bit clk_max
unfolding scan clk_cfg
clk-Apart = Apart-holds clk_reg clk_bit clk_max refl

rst-Apart : Apart rst_reg rst_bit rst_max
unfolding scan rst_cfg
rst-Apart = Apart-holds rst_reg rst_bit rst_max refl

module _ (dev : Device) where
  pub is_clock_enabled-cell :
      (j : ℕ) (t : Trace)
      → (is_clock_enabled dev j t).0 ≡ (ltb j clk_max && (cell_bit clk_reg clk_bit dev j t == 1))
  unfolding is_clock_enabled readl
  is_clock_enabled-cell j t =
      ground (arith, bit_get-test (answer dev w32 (clk_reg j) t) (clk_bit j))

  pub enable_clock-set_bit :
      (i : ℕ) (t : Trace)
      → (enable_clock dev i t).1
        ≡ (if ltb i clk_max then set_bit dev (clk_reg i) (clk_bit i) t else t)
  unfolding enable_clock readl writel
  enable_clock-set_bit i t = ground arith

  pub disable_clock-clear_bit :
      (i : ℕ) (t : Trace)
      → (disable_clock dev i t).1
        ≡ (if ltb i clk_max then clear_bit dev (clk_reg i) (clk_bit i) t else t)
  unfolding disable_clock readl writel
  disable_clock-clear_bit i t = ground arith

  pub get_reset_status-cell :
      (j : ℕ) (t : Trace)
      → (get_reset_status dev j t).0
        ≡ (ltb j rst_max && not (cell_bit rst_reg rst_bit dev j t == 1))
  unfolding get_reset_status readl
  get_reset_status-cell j t =
      ground (arith, bit_get-test (answer dev w32 (rst_reg j) t) (rst_bit j))

  pub reset_assert-clear_bit :
      (i : ℕ) (t : Trace)
      → (reset_assert dev i t).1
        ≡ (if ltb i rst_max then clear_bit dev (rst_reg i) (rst_bit i) t else t)
  unfolding reset_assert readl writel
  reset_assert-clear_bit i t = ground arith

  pub reset_deassert-set_bit :
      (i : ℕ) (t : Trace)
      → (reset_deassert dev i t).1
        ≡ (if ltb i rst_max then set_bit dev (rst_reg i) (rst_bit i) t else t)
  unfolding reset_deassert readl writel
  reset_deassert-set_bit i t = ground arith

  pub reset-steps :
      (i : ℕ) (t : Trace)
      → (reset dev i t).1 ≡ (
          if ltb i rst_max
          then set_bit dev
              (rst_reg i)
              (rst_bit i)
              (nops 2000 ∷ clear_bit dev (rst_reg i) (rst_bit i) t)
          else t)
  unfolding reset reset_assert reset_deassert readl writel udelay
  reset-steps i t = ground arith

  module _ (i j r : ℕ) (t : Trace) where
    -- If the register of clock `j` keeps what is written to it, then after `CCU_EnableClock(i)`
    -- the test `CCU_IsClockEnabled(j)` answers true for the clock `i` itself, where `i` is a clock
    -- at all, and as before for every other `j`.
    pub enable_clock_lem :
        IsRegister dev (clk_reg j) r
        → (is_clock_enabled dev j (enable_clock dev i t).1).0
          ≡ (if i == j then ltb i clk_max else (is_clock_enabled dev j t).0)
    enable_clock_lem reg = ground (
      arith,
      is_clock_enabled-cell j (enable_clock dev i t).1,
      is_clock_enabled-cell j t,
      enable_clock-set_bit i t,
      cell-set_bit clk_reg clk_bit clk-Apart dev i j r t reg,
    )

    -- If the register of clock `j` keeps what is written to it, then after `CCU_DisableClock(i)`
    -- the test `CCU_IsClockEnabled(j)` answers false for `i` itself, and as before for every other
    -- `j`.
    pub disable_clock_lem :
        IsRegister dev (clk_reg j) r
        → (is_clock_enabled dev j (disable_clock dev i t).1).0
          ≡ (if i == j then false else (is_clock_enabled dev j t).0)
    disable_clock_lem reg = ground (
      arith,
      is_clock_enabled-cell j (disable_clock dev i t).1,
      is_clock_enabled-cell j t,
      disable_clock-clear_bit i t,
      cell-clear_bit clk_reg clk_bit clk-Apart dev i j r t reg,
    )

    -- If the register of reset line `j` keeps what is written to it, then after `CCU_Reset(i)` the
    -- line `i` is released, and every other line is as it was.
    pub reset_lem :
        IsRegister dev (rst_reg j) r
        → (get_reset_status dev j (reset dev i t).1).0
          ≡ (if i == j then false else (get_reset_status dev j t).0)
    reset_lem reg =
        let mid = clear_bit dev (rst_reg i) (rst_bit i) t in
        ground (
          arith,
          get_reset_status-cell j (reset dev i t).1,
          get_reset_status-cell j t,
          reset-steps i t,
          cell-set_bit rst_reg rst_bit rst-Apart dev i j r (nops 2000 ∷ mid) reg,
          bit_at-nops (rst_reg j) r (rst_bit j) 2000 mid reg,
          cell-clear_bit rst_reg rst_bit rst-Apart dev i j r t reg,
        )

    pub reset_assert_lem :
        IsRegister dev (rst_reg j) r
        → (get_reset_status dev j (reset_assert dev i t).1).0
          ≡ (if i == j then ltb i rst_max else (get_reset_status dev j t).0)
    reset_assert_lem reg = ground (
      arith,
      get_reset_status-cell j (reset_assert dev i t).1,
      get_reset_status-cell j t,
      reset_assert-clear_bit i t,
      cell-clear_bit rst_reg rst_bit rst-Apart dev i j r t reg,
    )

    pub reset_deassert_lem :
        IsRegister dev (rst_reg j) r
        → (get_reset_status dev j (reset_deassert dev i t).1).0
          ≡ (if i == j then false else (get_reset_status dev j t).0)
    reset_deassert_lem reg = ground (
      arith,
      get_reset_status-cell j (reset_deassert dev i t).1,
      get_reset_status-cell j t,
      reset_deassert-set_bit i t,
      cell-set_bit rst_reg rst_bit rst-Apart dev i j r t reg,
    )
