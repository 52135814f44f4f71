-- ===== src/Irq/Bitmap.antt =====
-- The words of `plic_irq_rec`, bit by bit.
use t113_c.Base.{ℕ, ◌/◌, ◌%◌, ◌<◌, ◌==◌, if◌then◌else◌}
use t113_c.Base.{◌≡◌, arith, List, length}
use t113_c.Base.{get_or, length-set, get_or-set_self, get_or-set_ne}
use t113_c.Base.{bit_and, bit_or, ◌<<<◌, complement}
use t113_c.Base.Bits.{digit, digit-lt, digit-set_bit, digit-clear_bit, bit_and-shl_test}
use t113_c.Irq.{record_irq_enable}
use t113_c.Irq.{record_irq_disable}

-- Bit `j` of the bitmap.
unfoldable pub recorded : ℕ → List ℕ → ℕ
recorded j words = digit (get_or words (j / 32) 0) (j % 32)

pub recorded-enable :
    (i j : ℕ) (words : List ℕ)
    → i / 32 < length words
    → recorded j (record_irq_enable i words) ≡ (if i == j then 1 else recorded j words)
unfolding recorded record_irq_enable
recorded-enable i j words h =
    let word = get_or words (i / 32) 0 in
    let new = bit_or word (1 <<< (i % 32)) in
    ground (
      arith,
      bit_and-shl_test word (i % 32),
      digit-lt word (i % 32),
      digit-set_bit word (i % 32) (j % 32),
      get_or-set_self words (i / 32) new 0 h,
      get_or-set_ne words (i / 32) (j / 32) new 0,
    )

pub recorded-disable :
    (i j : ℕ) (words : List ℕ)
    → i / 32 < length words
    → recorded j (record_irq_disable i words) ≡ (if i == j then 0 else recorded j words)
unfolding recorded record_irq_disable
recorded-disable i j words h =
    let word = get_or words (i / 32) 0 in
    let new = bit_and word (complement 32 (1 <<< (i % 32))) in
    ground (
      arith,
      bit_and-shl_test word (i % 32),
      digit-clear_bit 32 word (i % 32) (j % 32),
      get_or-set_self words (i / 32) new 0 h,
      get_or-set_ne words (i / 32) (j / 32) new 0,
    )

pub length-record :
    (i : ℕ) (words : List ℕ)
    → (length (record_irq_enable i words) ≡ length words)
      × (length (record_irq_disable i words) ≡ length words)
unfolding record_irq_enable record_irq_disable
length-record i words =
    let word = get_or words (i / 32) 0 in
    (
      ground (arith, length-set words (i / 32) (bit_or word (1 <<< (i % 32)))),
      ground (arith, length-set words (i / 32) (bit_and word (complement 32 (1 <<< (i % 32))))),
    )
