-- ===== src/Log/Tests.antt =====
-- A log line of the mailbox.
use t113_c.Base.{
  ℕ, ◌*◌, ◌/◌, ◌%◌, ◌^◌, if◌then◌else◌, true, false, ◌≡◌, refl, arith, List, [], ◌∷◌, Option, none,
  some,
}
use t113_c.Log.{
  log_get_time_ms, decimal, padded, log_header, lacks_newline, line_end, tag_or_null, log_printf,
}
use t113_c.Log.Stamp.{read_stamp, log_printf-read_stamp}

-- A format without directives is printed as it is.
abbrev plainly : Option (List ℕ) → List ℕ
plainly none = []
plainly (some fmt) = fmt

abbrev greeting : List ℕ
greeting = b'h' ∷ b'i' ∷ []

greeted :
    log_printf plainly true 12345 6 none (some greeting)
    ≡ some (
        b'[' ∷ b' ' ∷ b' ' ∷ b' ' ∷ b' ' ∷ b' ' ∷ b' ' ∷ b'1' ∷ b'2' ∷ b'.' ∷ b'3' ∷ b'4' ∷ b'5'
        ∷ b']' ∷ b' ' ∷ b'N' ∷ b'U' ∷ b'L' ∷ b'L' ∷ b':' ∷ b' ' ∷ b'h' ∷ b'i' ∷ 10 ∷ [])
unfolding log_printf log_get_time_ms decimal padded log_header lacks_newline line_end tag_or_null
greeted = refl

log_printf-read_stamp_example :
    (out : List ℕ) × (log_printf plainly true 12345 6 none (some greeting) ≡ some out)
    × (read_stamp out ≡ (if true then 12345 * 1000 % 2 ^ 64 / 1000 else 0))
    × (lacks_newline out ≡ false)
log_printf-read_stamp_example =
    log_printf-read_stamp plainly (λ fmt h. h) true 12345 6 none (some greeting) (omega arith)
