-- ===== src/Local/Compare.antt =====
-- The timer compare register, which is written in two halves.
use t113_c.Base.{ℕ, ◌+◌, ◌*◌, ◌%◌, ◌^◌, ◌≡◌, refl, arith, ◌∷◌, bit_and, ◌>>>◌, u64}
use t113_c.Base.Bits.{bit_and-mask}
use t113_c.Hw.{
  Device, Trace, csr_answer, csr, csrr, csrs, csrc, store, w32, writel, csr_read, csr_set,
  csr_clear,
}
use t113_c.Hw.Csr.{mie, mie_mtie}
use t113_c.Local.{Clic, time_csr, write_compare, riscv_get_cycles, riscv_timer_interrupt}

-- `riscv_timer_interrupt` reads the time, and with the timer interrupt masked writes the two halves of
-- the time plus a tick, the lower first; put together they are that sum modulo 2 ^ 64.
pub riscv_timer_interrupt_lem :
    (dev : Device) (delta : ℕ) (c : Clic) (t : Trace)
    → let now = csr_answer dev time_csr t in
      let next = u64 (now + delta) in
      let low = bit_and next 0xffffffff % 2 ^ 32 in
      let high = (next >>> 32) % 2 ^ 32 in
      ((riscv_timer_interrupt dev delta c t).1
        ≡ csr csrs mie mie_mtie
          ∷ store w32 (u64 (c.comp + 4)) high
          ∷ store w32 c.comp low
          ∷ csr csrc mie mie_mtie
          ∷ csr csrr time_csr now
          ∷ t)
      × (high * 2 ^ 32 + low ≡ next)
unfolding riscv_timer_interrupt riscv_get_cycles write_compare writel csr_read csr_set csr_clear
riscv_timer_interrupt_lem dev delta c t =
    let next = u64 (csr_answer dev time_csr t + delta) in
    (refl, omega (arith, bit_and-mask 32 next))
