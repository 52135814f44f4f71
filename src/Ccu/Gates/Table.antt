-- ===== src/Ccu/Gates/Table.antt =====
-- The clock control as two tables of independent switches, which its operations implement.
use t113_c.Base.{
  scan, scan-holds, ℕ, ◌<◌, ◌==◌, ltb, if◌then◌else◌, ◌≡◌, refl, ◌∙◌, Bool, true, false, not, ◌&&◌,
  arith,
}
use t113_c.Base.{List, [], ◌∷◌}
use t113_c.Hw.{Device, Trace, nops}
use t113_c.Hw.Registers.{IsRegister, bit_at-nops}
use t113_c.Hw.Bitfield.{clear_bit, bit_at-set_bit, bit_at-clear_bit}
use t113_c.Ccu.{
  clk_cfg, rst_cfg, clk_max, rst_max, enable_clock, disable_clock, is_clock_enabled, reset_assert,
  reset_deassert, reset, get_reset_status,
}
use t113_c.Ccu.Gates.{
  clk_reg, clk_bit, rst_reg, rst_bit, is_clock_enabled-cell, get_reset_status-cell,
  enable_clock-set_bit, disable_clock-clear_bit, reset_assert-clear_bit, reset_deassert-set_bit,
  reset-steps, enable_clock_lem, clk-Apart, rst-Apart, disable_clock_lem, reset_assert_lem,
  reset_deassert_lem, reset_lem,
}

-- Which clocks run, and which lines are held in reset.
pub record Switches : Type 0 where
  pub running : ℕ → Bool
  pub held : ℕ → Bool

pub data Request : Type 0 where
  enable disable assert deassert pulse : ℕ → Request

abbrev switch : ℕ → Bool → (ℕ → Bool) → ℕ → Bool
switch i b s j = if i == j then b else s j

-- What a caller may rely on. A number beyond the table switches nothing: its answer is false.
unfoldable pub request : Request → Switches → Switches
request (enable i) s = record s { running = switch i (ltb i clk_max) s.running }
request (disable i) s = record s { running = switch i false s.running }
request (assert i) s = record s { held = switch i (ltb i rst_max) s.held }
request (deassert i) s = record s { held = switch i false s.held }
request (pulse i) s = record s { held = switch i false s.held }

unfoldable pub requests : List Request → Switches → Switches
requests [] s = s
requests (q ∷ qs) s = requests qs (request q s)

module _ (dev : Device) where
  -- What the code does.
  unfoldable pub serve : Request → Trace → Trace
  serve (enable i) t = (enable_clock dev i t).1
  serve (disable i) t = (disable_clock dev i t).1
  serve (assert i) t = (reset_assert dev i t).1
  serve (deassert i) t = (reset_deassert dev i t).1
  serve (pulse i) t = (reset dev i t).1

  unfoldable pub serves : List Request → Trace → Trace
  serves [] t = t
  serves (q ∷ qs) t = serves qs (serve q t)

  -- The tests answer what the tables say.
  pub record Shows (t : Trace) (s : Switches) : Type 0 where
    pub running : (j : ℕ) → (is_clock_enabled dev j t).0 ≡ s.running j
    pub held : (j : ℕ) → (get_reset_status dev j t).0 ≡ s.held j

  -- The registers of the gates and of the reset lines keep what is written to them.
  pub record IsPlain (start : ℕ → ℕ) : Type 0 where
    pub gates : (j : ℕ) → IsRegister dev (clk_reg j) (start (clk_reg j))
    pub lines : (j : ℕ) → IsRegister dev (rst_reg j) (start (rst_reg j))

-- No gate and no reset line share a register.
abbrev distinct_check : ℕ → Bool
distinct_check i =
    scan (λ j. not (clk_reg i == rst_reg j) && not (rst_reg j == clk_reg i)) 0 rst_max

distinct :
    (i j : ℕ)
    → i < clk_max
    → j < rst_max
    → (not (clk_reg i == rst_reg j) && not (rst_reg j == clk_reg i)) ≡ true
unfolding scan clk_cfg rst_cfg
distinct i j hi hj =
    scan-holds (λ k. not (clk_reg i == rst_reg k) && not (rst_reg k == clk_reg i)) rst_max 0 j
      (omega arith) (omega arith)
      (scan-holds distinct_check clk_max 0 i (omega arith) (omega arith) refl)

-- A request on one table leaves the other alone.
module _ (dev : Device) (i j r : ℕ) (t : Trace) where
  enable-held :
      IsRegister dev (rst_reg j) r
      → (get_reset_status dev j (enable_clock dev i t).1).0 ≡ (get_reset_status dev j t).0
  enable-held reg = ground (
    arith,
    get_reset_status-cell dev j (enable_clock dev i t).1,
    get_reset_status-cell dev j t,
    enable_clock-set_bit dev i t,
    distinct i j,
    rst-Apart j j,
    bit_at-set_bit (rst_reg j) (clk_reg i) (clk_bit i) (rst_bit j) r t reg,
  )

  disable-held :
      IsRegister dev (rst_reg j) r
      → (get_reset_status dev j (disable_clock dev i t).1).0 ≡ (get_reset_status dev j t).0
  disable-held reg = ground (
    arith,
    get_reset_status-cell dev j (disable_clock dev i t).1,
    get_reset_status-cell dev j t,
    disable_clock-clear_bit dev i t,
    distinct i j,
    rst-Apart j j,
    clk-Apart i i,
    bit_at-clear_bit (rst_reg j) (clk_reg i) (clk_bit i) (rst_bit j) r t reg,
  )

  assert-running :
      IsRegister dev (clk_reg j) r
      → (is_clock_enabled dev j (reset_assert dev i t).1).0 ≡ (is_clock_enabled dev j t).0
  assert-running reg = ground (
    arith,
    is_clock_enabled-cell dev j (reset_assert dev i t).1,
    is_clock_enabled-cell dev j t,
    reset_assert-clear_bit dev i t,
    distinct j i,
    rst-Apart i i,
    clk-Apart j j,
    bit_at-clear_bit (clk_reg j) (rst_reg i) (rst_bit i) (clk_bit j) r t reg,
  )

  deassert-running :
      IsRegister dev (clk_reg j) r
      → (is_clock_enabled dev j (reset_deassert dev i t).1).0 ≡ (is_clock_enabled dev j t).0
  deassert-running reg = ground (
    arith,
    is_clock_enabled-cell dev j (reset_deassert dev i t).1,
    is_clock_enabled-cell dev j t,
    reset_deassert-set_bit dev i t,
    distinct j i,
    clk-Apart j j,
    bit_at-set_bit (clk_reg j) (rst_reg i) (rst_bit i) (clk_bit j) r t reg,
  )

  reset-running :
      IsRegister dev (clk_reg j) r
      → (is_clock_enabled dev j (reset dev i t).1).0 ≡ (is_clock_enabled dev j t).0
  reset-running reg =
      let mid = clear_bit dev (rst_reg i) (rst_bit i) t in
      ground (
        arith,
        is_clock_enabled-cell dev j (reset dev i t).1,
        is_clock_enabled-cell dev j t,
        reset-steps dev i t,
        distinct j i,
        rst-Apart i i,
        clk-Apart j j,
        bit_at-set_bit (clk_reg j) (rst_reg i) (rst_bit i) (clk_bit j) r (nops 2000 ∷ mid) reg,
        bit_at-nops (clk_reg j) r (clk_bit j) 2000 mid reg,
        bit_at-clear_bit (clk_reg j) (rst_reg i) (rst_bit i) (clk_bit j) r t reg,
      )

module _ (dev : Device) (start : ℕ → ℕ) (plain : IsPlain dev start) where
  serve-Shows :
      (q : Request) (t : Trace) (s : Switches)
      → Shows dev t s
      → Shows dev (serve dev q t) (request q s)
  unfolding serve request
  serve-Shows (enable i) t s h = record {
    running = λ j.
        ground (arith, enable_clock_lem dev i j (start (clk_reg j)) t (plain.gates j), h.running j);
    held = λ j. enable-held dev i j (start (rst_reg j)) t (plain.lines j) ∙ h.held j;
  }
  serve-Shows (disable i) t s h = record {
    running = λ j.
        ground
          (arith, disable_clock_lem dev i j (start (clk_reg j)) t (plain.gates j), h.running j);
    held = λ j. disable-held dev i j (start (rst_reg j)) t (plain.lines j) ∙ h.held j;
  }
  serve-Shows (assert i) t s h = record {
    running = λ j. assert-running dev i j (start (clk_reg j)) t (plain.gates j) ∙ h.running j;
    held = λ j.
        ground (arith, reset_assert_lem dev i j (start (rst_reg j)) t (plain.lines j), h.held j);
  }
  serve-Shows (deassert i) t s h = record {
    running = λ j. deassert-running dev i j (start (clk_reg j)) t (plain.gates j) ∙ h.running j;
    held = λ j.
        ground (arith, reset_deassert_lem dev i j (start (rst_reg j)) t (plain.lines j), h.held j);
  }
  serve-Shows (pulse i) t s h = record {
    running = λ j. reset-running dev i j (start (clk_reg j)) t (plain.gates j) ∙ h.running j;
    held = λ j. ground (arith, reset_lem dev i j (start (rst_reg j)) t (plain.lines j), h.held j);
  }

  -- The clock control implements two tables of independent switches. On a device whose gate and reset
  -- registers keep what is written to them: if the tests answer what the tables say, they still do
  -- after any sequence of enabling, disabling, asserting, releasing and resetting, each of which
  -- switches one entry of one table.
  pub serves-Shows :
      (qs : List Request) (t : Trace) (s : Switches)
      → Shows dev t s
      → Shows dev (serves dev qs t) (requests qs s)
  unfolding serves requests
  serves-Shows [] t s h = h
  serves-Shows (q ∷ qs) t s h = serves-Shows qs (serve dev q t) (request q s) (serve-Shows q t s h)
