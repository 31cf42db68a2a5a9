-- ===== src/Base/Decimal.antt =====
-- The decimal numbers that snprintf ("%d") writes and atoi reads, over lists of character codes.
use Prim.Native.Nat.{ℕ, zero, suc, ◌+◌, ◌-◌, ◌*◌, ◌/◌, ◌%◌, ◌<◌}
use mathlib.Core.Path.{◌≡◌, refl, ap, ◌∙◌}
use mathlib.Core.Bool.{Bool, true, false, ◌&&◌}
use mathlib.Core.List.{List, [], ◌∷◌, ◌++◌, append_assoc}
use mathlib.Core.Logic.{inl, inr}
use native.Mathlib.Omega.{arith}
use irods_netcdf.Base.Int.{ℤ, pos, sub_ℕ}
use irods_netcdf.Base.Tests.{ltb, leb, ◌==◌, ltb→lt, if◌then◌else◌, Bool-cases}

abbrev pub isdigit : ℕ → Bool
isdigit c = leb b'0' c && leb c b'9'

-- atoi on a text without sign: the digits in front, and 0 if there is none.
atoi_loop : ℕ → List ℕ → ℕ
atoi_loop n [] = n
atoi_loop n (c ∷ cs) =
    let rest = atoi_loop (n * 10 + (c - b'0')) cs in if isdigit c then rest else n

unfoldable pub atoi : List ℕ → ℕ
unfolding atoi_loop
atoi = atoi_loop 0

-- atoll: blanks, a sign and digits.
unfoldable pub atoll : List ℕ → ℤ
unfolding atoi_loop atoi
atoll [] = pos 0
atoll (c ∷ cs) =
    let rest = atoll cs in
    if c == b' '
    then rest
    else if c == b'-'
    then sub_ℕ 0 (atoi cs)
    else if c == b'+'
    then pos (atoi cs)
    else pos (atoi (c ∷ cs))

-- With fuel for the digits; a number below the fuel has enough.
digits_fuel : ℕ → ℕ → List ℕ
digits_fuel zero n = []
digits_fuel (suc f) n =
    let front = digits_fuel f (n / 10) in
    if ltb n 10 then (b'0' + n) ∷ [] else front ++ (b'0' + n % 10) ∷ []

unfoldable pub decimal : ℕ → List ℕ
unfolding digits_fuel
decimal n = digits_fuel (n + 1) n

-- The text that follows begins with no digit.
abbrev pub EndsNumber : List ℕ → Type 0
EndsNumber [] = Unit
EndsNumber (c ∷ cs) = isdigit c ≡ false

atoi_loop-end : (n : ℕ) (rest : List ℕ) → EndsNumber rest → atoi_loop n rest ≡ n
unfolding atoi_loop
atoi_loop-end n [] h = refl
atoi_loop-end n (c ∷ cs) h = rw h

atoi_loop-digit :
    (n d : ℕ) (rest : List ℕ)
    → d < 10
    → atoi_loop n ((b'0' + d) ∷ rest) ≡ atoi_loop (n * 10 + d) rest
unfolding atoi_loop
atoi_loop-digit n d rest h = rw (is_digit, value)
  where
    is_digit : isdigit (b'0' + d) ≡ true
    is_digit = ground arith

    value : n * 10 + (b'0' + d - b'0') ≡ n * 10 + d
    value = omega arith

atoi_loop-digits :
    (f n : ℕ) (rest : List ℕ) → n < f → atoi_loop 0 (digits_fuel f n ++ rest) ≡ atoi_loop n rest
unfolding digits_fuel
atoi_loop-digits zero n rest h = absurd (omega arith)
atoi_loop-digits (suc f) n rest h = elim (Bool-cases (ltb n 10)) [
  | inl small ↦
      rw small
        (atoi_loop-digit 0 n rest (ltb→lt n 10 small) ∙ ap (λ k. atoi_loop k rest) (omega arith))
  | inr large ↦
      rw (large, append_assoc)
        (atoi_loop-digits f (n / 10) ((b'0' + n % 10) ∷ rest) (ground arith)
          ∙ atoi_loop-digit (n / 10) (n % 10) rest (omega arith)
          ∙ ap (λ k. atoi_loop k rest) (omega arith))
]

-- atoi reads back a number that snprintf wrote, whatever follows it that is no digit.
pub atoi-decimal : (n : ℕ) (rest : List ℕ) → EndsNumber rest → atoi (decimal n ++ rest) ≡ n
unfolding atoi decimal
atoi-decimal n rest h = atoi_loop-digits (n + 1) n rest (omega arith) ∙ atoi_loop-end n rest h

-- The test *ptr of the source: a digit stands in front.
abbrev pub starts_digit : List ℕ → Bool
starts_digit [] = false
starts_digit (c ∷ cs) = isdigit c

starts_digit-digits :
    (f n : ℕ) (rest : List ℕ) → n < f → starts_digit (digits_fuel f n ++ rest) ≡ true
unfolding digits_fuel
starts_digit-digits zero n rest h = absurd (omega arith)
starts_digit-digits (suc f) n rest h = elim (Bool-cases (ltb n 10)) [
  | inl small ↦ rw small (ground arith)
  | inr large ↦
      rw (large, append_assoc)
        (starts_digit-digits f (n / 10) ((b'0' + n % 10) ∷ rest) (ground arith))
]

pub starts_digit-decimal : (n : ℕ) (rest : List ℕ) → starts_digit (decimal n ++ rest) ≡ true
unfolding decimal
starts_digit-decimal n rest = starts_digit-digits (n + 1) n rest (omega arith)

abbrev pub AllDigits : List ℕ → Type 0
AllDigits [] = Unit {0}
AllDigits (c ∷ cs) = (isdigit c ≡ true) × AllDigits cs

append-AllDigits : (xs ys : List ℕ) → AllDigits xs → AllDigits ys → AllDigits (xs ++ ys)
append-AllDigits [] ys h k = k
append-AllDigits (x ∷ xs) ys (d, h) k = (d, append-AllDigits xs ys h k)

digits_fuel-AllDigits : (f n : ℕ) → AllDigits (digits_fuel f n)
unfolding digits_fuel
digits_fuel-AllDigits zero n = tt
digits_fuel-AllDigits (suc f) n = elim (Bool-cases (ltb n 10)) [
  | inl small ↦
      let d : isdigit (b'0' + n) ≡ true = ground (arith, ltb→lt n 10 small) in rw small (d, tt)
  | inr large ↦
      let d : isdigit (b'0' + n % 10) ≡ true = ground arith in
      rw large (
        append-AllDigits (digits_fuel f (n / 10)) ((b'0' + n % 10) ∷ [])
          (digits_fuel-AllDigits f (n / 10)) (d, tt))
]

pub decimal-AllDigits : (n : ℕ) → AllDigits (decimal n)
unfolding decimal
decimal-AllDigits n = digits_fuel-AllDigits (n + 1) n
