-- ===== src/Ccu/Tests.antt =====
-- The clock control over a memory of plain registers.
use t113_c.Base.{ltb, ◌≡◌, refl, true, false, List, [], ◌∷◌}
use t113_c.Hw.Registers.{memory, memory-IsRegister}
use t113_c.Base.{arith}
use t113_c.Base.Bits.{digit-zero}
use t113_c.Hw.Registers.{last_word}
use t113_c.Ccu.Gates.{is_clock_enabled-cell, get_reset_status-cell, clk_bit, rst_bit}
use t113_c.Ccu.{bus_uart2, rst_uart2, rst_max}
use t113_c.Ccu.Gates.Table.{
  Switches, Request, enable, disable, pulse, request, requests, serves, Shows, IsPlain,
  serves-Shows,
}

-- At reset every gate is shut, and every line of the table is held.
abbrev at_reset : Switches
at_reset = record { running = λ i. false; held = λ i. ltb i rst_max }

memory-IsPlain : IsPlain memory (λ a. 0)
memory-IsPlain = record { gates = λ j. memory-IsRegister _; lines = λ j. memory-IsRegister _ }

memory-Shows : Shows memory [] at_reset
unfolding last_word
memory-Shows = record {
  running = λ j. ground (arith, is_clock_enabled-cell memory j [], digit-zero (clk_bit j));
  held = λ j. ground (arith, get_reset_status-cell memory j [], digit-zero (rst_bit j));
}

abbrev console : List Request
console = enable bus_uart2 ∷ pulse rst_uart2 ∷ enable 20 ∷ disable 3 ∷ []

serves-Shows_example : Shows memory (serves memory console []) (requests console at_reset)
serves-Shows_example = serves-Shows memory (λ a. 0) memory-IsPlain console [] at_reset memory-Shows

console_runs :
    let s = requests console at_reset in
    (s.running 5 ≡ true) × (s.held 5 ≡ false) × (s.running 20 ≡ false) × (s.held 6 ≡ true)
unfolding requests request
console_runs = (refl, refl, refl, refl)
