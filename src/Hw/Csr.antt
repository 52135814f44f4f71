-- ===== src/Hw/Csr.antt =====
-- Control and status registers, as the instruction set describes them.
use t113_c.Base.{ℕ, ◌==◌, if◌then◌else◌, bit_and, bit_or, complement, [], ◌∷◌}
use t113_c.Hw.{csr, csrr, csrw, csrs, csrc, csrrc, csrrs, csrrw, CsrOp, Trace}

-- What one instruction makes of the old value.
unfoldable pub csr_effect : CsrOp → ℕ → ℕ → ℕ
csr_effect csrr v old = old
csr_effect csrw v old = v
csr_effect csrs v old = bit_or old v
csr_effect csrc v old = bit_and old (complement 64 v)
csr_effect csrrc v old = bit_and old (complement 64 v)
csr_effect csrrs v old = bit_or old v
csr_effect csrrw v old = v

unfoldable pub csr_value : ℕ → ℕ → Trace → ℕ
csr_value c r [] = r
csr_value c r (csr op b v ∷ t) =
    let old = csr_value c r t in if c == b then csr_effect op v old else old
csr_value c r (_ ∷ t) = csr_value c r t

-- The numbers of the registers, and the bits that the firmware uses.
abbrev pub mstatus : ℕ
mstatus = 0x300

abbrev pub mie : ℕ
mie = 0x304

abbrev pub sr_mie : ℕ
sr_mie = 0x8

abbrev pub mie_msie : ℕ
mie_msie = 0x8

abbrev pub mie_mtie : ℕ
mie_mtie = 0x80

abbrev pub mie_meie : ℕ
mie_meie = 0x800
