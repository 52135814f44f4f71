-- ===== src/Log/Decimal.antt =====
-- A printed number can be read back.
use t113_c.Base.{
  ℕ, zero, suc, ◌+◌, ◌-◌, ◌*◌, ◌/◌, ◌%◌, ◌^◌, ◌<◌, ◌==◌, ltb, leb, if◌then◌else◌, Bool, true, false,
  ◌&&◌, ◌≡◌, refl, ◌∙◌, ap, arith, Bool-cases, inl, inr,
}
use t113_c.Base.{List, [], ◌∷◌, ◌++◌, length, replicate}
use mathlib.Core.List.{append_assoc}
use native.Mathlib.Nat.{pow-suc}
use t113_c.Log.{decimal, padded}

unfoldable pub is_digit : ℕ → Bool
is_digit c = leb 48 c && ltb c 58

-- The number at the head of a text, after `acc`, and the rest.
unfoldable pub read_number : ℕ → List ℕ → ℕ × List ℕ
read_number acc [] = (acc, [])
read_number acc (c ∷ cs) = elim (is_digit c) [
  | true ↦ read_number (acc * 10 + (c - 48)) cs
  | false ↦ (acc, c ∷ cs)
]

unfoldable pub skip_spaces : List ℕ → List ℕ
skip_spaces [] = []
skip_spaces (c ∷ cs) = let rest = skip_spaces cs in if c == b' ' then rest else c ∷ cs

is_digit_lem : (d : ℕ) → d < 10 → is_digit (48 + d) ≡ true
unfolding is_digit
is_digit_lem d lt = ground (arith, lt)

read_number-step :
    (acc c : ℕ) (cs : List ℕ)
    → is_digit c ≡ true
    → read_number acc (c ∷ cs) ≡ read_number (acc * 10 + (c - 48)) cs
unfolding read_number
read_number-step acc c cs e = ground (arith, e)

pub read_number-stop :
    (acc c : ℕ) (cs : List ℕ) → is_digit c ≡ false → read_number acc (c ∷ cs) ≡ (acc, c ∷ cs)
unfolding read_number
read_number-stop acc c cs e = ground (arith, e)

read_number-digit :
    (acc d : ℕ) (cs : List ℕ)
    → d < 10
    → read_number acc ((48 + d) ∷ cs) ≡ read_number (acc * 10 + d) cs
read_number-digit acc d cs lt =
    read_number-step acc (48 + d) cs (is_digit_lem d lt)
    ∙ ap (λ (k : ℕ). read_number (acc * 10 + k) cs) (omega arith)

read_number-first :
    (d : ℕ) (cs : List ℕ) → d < 10 → read_number 0 ((48 + d) ∷ cs) ≡ read_number d cs
read_number-first d cs lt =
    read_number-digit 0 d cs lt ∙ ap (λ (k : ℕ). read_number k cs) (omega arith)

decimal-small : (most n : ℕ) → ltb n 10 ≡ true → decimal (suc most) n ≡ (48 + n) ∷ []
unfolding decimal
decimal-small most n e = rw e refl

decimal-large :
    (most n : ℕ)
    → ltb n 10 ≡ false
    → decimal (suc most) n ≡ decimal most (n / 10) ++ ((48 + n % 10) ∷ [])
unfolding decimal
decimal-large most n e = rw e refl

tenth-lt : (most n : ℕ) → n < 10 ^ suc most → n / 10 < 10 ^ most
tenth-lt most n lt = omega (arith, lt, pow-suc 10 most)

pub read_number-decimal :
    (most n : ℕ) (rest : List ℕ)
    → n < 10 ^ most
    → ltb 0 most ≡ true
    → read_number 0 (decimal most n ++ rest) ≡ read_number n rest
read_number-decimal zero n rest lt some_digits = absurd (ground (arith, some_digits))
read_number-decimal (suc zero) n rest lt some_digits =
    ap (λ (l : List ℕ). read_number 0 (l ++ rest)) (decimal-small 0 n (ground (arith, lt)))
    ∙ read_number-first n rest (omega (arith, lt))
read_number-decimal (suc (suc most)) n rest lt some_digits = elim (Bool-cases (ltb n 10)) [
  | inl small ↦
      ap (λ (l : List ℕ). read_number 0 (l ++ rest)) (decimal-small (suc most) n small)
      ∙ read_number-first n rest (ground (arith, small))
  | inr large ↦
      ap (λ (l : List ℕ). read_number 0 (l ++ rest)) (decimal-large (suc most) n large)
      ∙ ap (read_number 0) (append_assoc (decimal (suc most) (n / 10)) ((48 + n % 10) ∷ []) rest)
      ∙ read_number-decimal (suc most) (n / 10) ((48 + n % 10) ∷ rest) (tenth-lt (suc most) n lt)
          (ground arith)
      ∙ read_number-digit (n / 10) (n % 10) rest (omega arith)
      ∙ ap (λ (k : ℕ). read_number k rest) (omega arith)
]

read_number-zeros :
    (k : ℕ) (xs : List ℕ) → read_number 0 (replicate k b'0' ++ xs) ≡ read_number 0 xs
read_number-zeros zero xs = refl
read_number-zeros (suc k) xs =
    read_number-first 0 (replicate k b'0' ++ xs) (omega arith) ∙ read_number-zeros k xs

-- Blanks before a text that begins with none.
skip_spaces-blanks : (k : ℕ) (xs : List ℕ) → skip_spaces (replicate k b' ' ++ xs) ≡ skip_spaces xs
unfolding skip_spaces
skip_spaces-blanks zero xs = refl
skip_spaces-blanks (suc k) xs = skip_spaces-blanks k xs

skip_spaces-digit : (d : ℕ) (xs : List ℕ) → d < 10 → skip_spaces ((48 + d) ∷ xs) ≡ (48 + d) ∷ xs
unfolding skip_spaces
skip_spaces-digit d xs lt = ground (arith, lt)

skip_spaces-decimal :
    (most n : ℕ) (rest : List ℕ)
    → n < 10 ^ suc most
    → skip_spaces (decimal (suc most) n ++ rest) ≡ decimal (suc most) n ++ rest
skip_spaces-decimal zero n rest lt =
    let e = decimal-small 0 n (ground (arith, lt)) in
    rw e (skip_spaces-digit n rest (omega (arith, lt)))
skip_spaces-decimal (suc most) n rest lt = elim (Bool-cases (ltb n 10)) [
  | inl small ↦
      let e = decimal-small (suc most) n small in
      rw e (skip_spaces-digit n rest (ground (arith, small)))
  | inr large ↦
      let e = decimal-large (suc most) n large in
      let a = append_assoc (decimal (suc most) (n / 10)) ((48 + n % 10) ∷ []) rest in
      rw e
        (rw a (skip_spaces-decimal most (n / 10) ((48 + n % 10) ∷ rest) (tenth-lt (suc most) n lt)))
]

-- A padded field is read back.
pub read_number-padded :
    (w n : ℕ) (rest : List ℕ)
    → n < 10 ^ 20
    → read_number 0 (padded w b'0' n ++ rest) ≡ read_number n rest
unfolding padded
read_number-padded w n rest lt =
    ap (read_number 0)
      (append_assoc (replicate (w - length (decimal 20 n)) b'0') (decimal 20 n) rest)
    ∙ read_number-zeros (w - length (decimal 20 n)) (decimal 20 n ++ rest)
    ∙ read_number-decimal 20 n rest lt refl

pub skip_spaces-padded :
    (w n : ℕ) (rest : List ℕ)
    → n < 10 ^ 20
    → read_number 0 (skip_spaces (padded w b' ' n ++ rest)) ≡ read_number n rest
unfolding padded
skip_spaces-padded w n rest lt =
    ap (λ (l : List ℕ). read_number 0 (skip_spaces l))
      (append_assoc (replicate (w - length (decimal 20 n)) b' ') (decimal 20 n) rest)
    ∙ ap (read_number 0) (
        skip_spaces-blanks (w - length (decimal 20 n)) (decimal 20 n ++ rest)
        ∙ skip_spaces-decimal 19 n rest lt)
    ∙ read_number-decimal 20 n rest lt refl
