-- ===== src/Log/Stamp.antt =====
-- A log line: its time stamp can be read back, and it ends its line.
use t113_c.Base.{
  ℕ, ◌+◌, ◌*◌, ◌/◌, ◌%◌, ◌^◌, ◌<◌, if◌then◌else◌, Bool, false, ◌≡◌, refl, ◌∙◌, ap, arith,
  Bool-cases, inl, inr,
}
use t113_c.Base.{List, [], ◌∷◌, ◌++◌, Option, none, some}
use mathlib.Core.List.{append_assoc, append-nil}
use t113_c.Log.{
  log_get_time_ms, padded, log_header, lacks_newline, line_end, tag_or_null, log_printf,
}
use t113_c.Log.Decimal.{
  is_digit, read_number, read_number-stop, skip_spaces, read_number-padded, skip_spaces-padded,
}

-- After `[`, the seconds; after the point, the milliseconds.
abbrev thousandths : ℕ × List ℕ → ℕ
thousandths (sec, []) = sec * 1000
thousandths (sec, c ∷ cs) = sec * 1000 + (read_number 0 cs).0

unfoldable pub read_stamp : List ℕ → ℕ
read_stamp [] = 0
read_stamp (c ∷ cs) = thousandths (read_number 0 (skip_spaces cs))

skip_two : (xs : List ℕ) → skip_spaces (b' ' ∷ b' ' ∷ xs) ≡ skip_spaces xs
unfolding skip_spaces
skip_two xs = refl

read_stamp-log_header :
    (sec msec : ℕ) (tag rest : List ℕ)
    → sec < 2 ^ 64
    → msec < 1000
    → read_stamp (log_header sec msec tag ++ rest) ≡ sec * 1000 + msec
unfolding read_stamp log_header is_digit
read_stamp-log_header sec msec tag rest fits small =
    let after = b']' ∷ b' ' ∷ ((tag ++ (b':' ∷ b' ' ∷ [])) ++ rest) in
    let milli = padded 3 b'0' msec ++ after in
    let cut : (padded 6 b' ' sec
            ++ (b'.' ∷ (padded 3 b'0' msec ++ (b']' ∷ b' ' ∷ (tag ++ (b':' ∷ b' ' ∷ []))))))
          ++ rest
        ≡ padded 6 b' ' sec ++ (b'.' ∷ milli) =
      append_assoc (padded 6 b' ' sec) _ rest
      ∙ ap (λ (l : List ℕ). padded 6 b' ' sec ++ (b'.' ∷ l))
          (append_assoc (padded 3 b'0' msec) (b']' ∷ b' ' ∷ (tag ++ (b':' ∷ b' ' ∷ []))) rest) in
    let seconds : read_number 0 (skip_spaces (padded 6 b' ' sec ++ (b'.' ∷ milli)))
        ≡ (sec, b'.' ∷ milli) =
      skip_spaces-padded 6 sec (b'.' ∷ milli) (omega (arith, fits))
      ∙ read_number-stop sec b'.' milli refl in
    let millis : (read_number 0 milli).0 ≡ msec =
      ap (λ (r : ℕ × List ℕ). r.0)
        (read_number-padded 3 msec after (omega (arith, small))
          ∙ read_number-stop msec b']' (b' ' ∷ ((tag ++ (b':' ∷ b' ' ∷ [])) ++ rest)) refl) in
    ap (λ (l : List ℕ). thousandths (read_number 0 l)) (skip_two _ ∙ ap skip_spaces cut)
    ∙ ap thousandths seconds
    ∙ ap (λ (k : ℕ). sec * 1000 + k) millis

lacks_newline-cons :
    (c : ℕ) (ys : List ℕ) → lacks_newline ys ≡ false → lacks_newline (c ∷ ys) ≡ false
unfolding lacks_newline
lacks_newline-cons c [] e = absurd (ground (arith, e))
lacks_newline-cons c (y ∷ ys) e = e

lacks_newline-append :
    (xs ys : List ℕ) → lacks_newline ys ≡ false → lacks_newline (xs ++ ys) ≡ false
lacks_newline-append [] ys e = e
lacks_newline-append (x ∷ xs) ys e = lacks_newline-cons x (xs ++ ys) (lacks_newline-append xs ys e)

module _ (vprintf : Option (List ℕ) → List ℕ)
    (keeps : (fmt : List ℕ)
      → lacks_newline fmt ≡ false
      → lacks_newline (vprintf (some fmt)) ≡ false) where
  ended : (fmt : Option (List ℕ)) → lacks_newline (vprintf fmt ++ line_end fmt) ≡ false
  unfolding line_end lacks_newline
  ended none = lacks_newline-append (vprintf none) (10 ∷ []) refl
  ended (some fmt) = elim (Bool-cases (lacks_newline fmt)) [
    | inl lacks ↦ rw lacks (lacks_newline-append (vprintf (some fmt)) (10 ∷ []) refl)
    | inr has ↦ rw (has, append-nil) (keeps fmt has)
  ]

  -- With a `vprintf` that ends its text with a line feed where the format ends with one: a message of one
  -- of the eight levels is printed, on a line that it ends, and the time stamp in front of it, read
  -- back, is the number of milliseconds of the scheduler's clock. It is 0 while the scheduler does not run.
  pub log_printf-read_stamp :
      (running : Bool) (ticks level : ℕ) (tag fmt : Option (List ℕ))
      → level < 8
      → (out : List ℕ) × (log_printf vprintf running ticks level tag fmt ≡ some out)
        × (read_stamp out ≡ (if running then ticks * 1000 % 2 ^ 64 / 1000 else 0))
        × (lacks_newline out ≡ false)
  unfolding log_printf log_get_time_ms
  log_printf-read_stamp running ticks level tag fmt lt =
      let ms = log_get_time_ms running ticks in
      let bound : ms < 2 ^ 64 = ground arith in
      let clock : ms ≡ (if running then ticks * 1000 % 2 ^ 64 / 1000 else 0) = ground arith in
      let head = log_header (ms / 1000) (ms % 1000) (tag_or_null tag) in
      (
        head ++ (vprintf fmt ++ line_end fmt),
        ground (arith, lt),
        read_stamp-log_header (ms / 1000) (ms % 1000) (tag_or_null tag)
              (vprintf fmt ++ line_end fmt) (omega (arith, bound)) (omega arith)
            ∙ omega arith
            ∙ clock,
        lacks_newline-append head (vprintf fmt ++ line_end fmt) (ended fmt),
      )
