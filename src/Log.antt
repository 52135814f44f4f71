-- ===== src/Log.antt =====
-- core/log.c: log_printf, as the bytes that it prints. What vprintf makes of the format and its arguments is
-- a parameter.
pub mod Decimal
pub mod Stamp
mod Tests
use t113_c.Base.{
  ℕ, zero, suc, ◌+◌, ◌-◌, ◌*◌, ◌/◌, ◌%◌, ◌^◌, ◌==◌, ltb, leb, if◌then◌else◌, Bool, true, false,
  ◌||◌, not,
}
use t113_c.Base.{List, [], ◌∷◌, ◌++◌, Option, none, some, length, replicate, u64}
use t113_c.Hw.{LogLevel, emerg, alert, crit, error, warn, notice, info, debug}

-- The values of `enum log_level`.
pub level_number : LogLevel → ℕ
level_number emerg = 0
level_number alert = 1
level_number crit = 2
level_number error = 3
level_number warn = 4
level_number notice = 5
level_number info = 6
level_number debug = 7

-- The entries of `log_level_names`, of which only the number is used. LOG_LEVEL is LOG_LEVEL_DEBUG, and
-- configTICK_RATE_HZ is 1000.
abbrev pub log_level_names : ℕ
log_level_names = 8

abbrev pub log_level : ℕ
log_level = 7

abbrev pub tick_rate : ℕ
tick_rate = 1000

-- `running` is the scheduler's state, and `ticks` its count.
pub log_get_time_ms : Bool → ℕ → ℕ
log_get_time_ms running ticks = if not running then 0 else u64 (ticks * 1000) / tick_rate

-- `%lu`: the decimal digits, with so many at most.
pub decimal : ℕ → ℕ → List ℕ
decimal zero n = []
decimal (suc most) n =
    let higher = decimal most (n / 10) in
    if ltb n 10 then (48 + n) ∷ [] else higher ++ ((48 + n % 10) ∷ [])

-- A field of the width `w`, filled on the left. A 64-bit number has 20 digits at most.
pub padded : ℕ → ℕ → ℕ → List ℕ
padded w fill n = let ds = decimal 20 n in replicate (w - length ds) fill ++ ds

-- `"[  %6lu.%03lu] %s: "`
pub log_header : ℕ → ℕ → List ℕ → List ℕ
log_header sec msec tag =
    b'['
    ∷ b' '
    ∷ b' '
    ∷ (padded 6 b' ' sec
        ++ (b'.' ∷ (padded 3 b'0' msec ++ (b']' ∷ b' ' ∷ (tag ++ (b':' ∷ b' ' ∷ []))))))

-- `fmt_len == 0 || fmt[fmt_len - 1] != '\n'`, for the bytes of the format.
pub lacks_newline : List ℕ → Bool
lacks_newline [] = true
lacks_newline (c ∷ []) = not (c == 10)
lacks_newline (c ∷ d ∷ cs) = lacks_newline (d ∷ cs)

-- A tag or a format of `none` is NULL.
pub line_end : Option (List ℕ) → List ℕ
line_end none = 10 ∷ []
line_end (some fmt) = if lacks_newline fmt then 10 ∷ [] else []

pub tag_or_null : Option (List ℕ) → List ℕ
tag_or_null none = b'N' ∷ b'U' ∷ b'L' ∷ b'L' ∷ []
tag_or_null (some tag) = tag

module _ (vprintf : Option (List ℕ) → List ℕ) where
  -- The result `none` prints nothing.
  pub log_printf : Bool → ℕ → ℕ → Option (List ℕ) → Option (List ℕ) → Option (List ℕ)
  log_printf running ticks level tag fmt =
      if ltb log_level level || leb log_level_names level
      then none
      else (let ms = log_get_time_ms running ticks in
          some
            (log_header (ms / 1000) (ms % 1000) (tag_or_null tag) ++ (vprintf fmt ++ line_end fmt)))
