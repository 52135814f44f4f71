-- ===== src/Delay.antt =====
-- hal/sources/delay.c: busy waiting by counted `nop` loops.
use t113_c.Base.{ℕ, ◌*◌}
use t113_c.Base.{u32}
use t113_c.Hw.{Hw, emit, nops}

-- UDELAY_FACTOR
abbrev pub udelay_factor : ℕ
udelay_factor = 200

-- `us *= UDELAY_FACTOR` is done in 32 bits. The loop runs one `nop` for each count.
unfoldable pub udelay : ℕ → Hw (Unit {0})
udelay us = emit (nops (u32 (us * udelay_factor)))

unfoldable pub mdelay : ℕ → Hw (Unit {0})
unfolding udelay
mdelay ms = udelay (u32 (ms * 1000))
