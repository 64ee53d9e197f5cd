-- ===== src/Arguments/Numbers/Decimal.antt =====
-- Numbers that are printed in decimal are read again.
use cachetest.Prelude.{
  ℕ, zero, suc, ◌+◌, ◌-◌, ◌*◌, ◌/◌, ◌%◌, ◌≤◌, ◌<◌, ◌≡◌, refl, inl, inr, order_cases, arith, [], ◌∷◌,
  All, some, true, false, ltb, ◌==◌, done, two32, two64,
}
use cachetest.Arguments.Split.{Text}
use cachetest.Arguments.Numbers.{
  is_digit, is_space, skip_spaces, value, magnitude, read_number, atoi, stoi, stoull, decimal_from,
  decimal,
}

abbrev pub IsDigit : ℕ → Type 0
IsDigit c = (48 ≤ c) × (c ≤ 57)

IsDigit-is_digit : (c : ℕ) → IsDigit c → is_digit c ≡ true
IsDigit-is_digit c h = ground (arith, h)

value-digit :
    (r : ℕ) (text : Text) (read : ℕ)
    → r < 10
    → value ((48 + r) ∷ text) read ≡ value text (read * 10 + r)
unfolding value
value-digit r text read h =
    let digit : r ≡ 48 + r - 48 = omega arith in
    rw (IsDigit-is_digit (48 + r) (omega arith, omega arith), ← digit) refl

value-nil : (n : ℕ) → value [] n ≡ n
unfolding value
value-nil n = refl

-- The printed number, read on, is the number.
value-decimal_from :
    (fuel n : ℕ) (text : Text) → n < fuel → value (decimal_from fuel n text) 0 ≡ value text n
unfolding decimal_from
value-decimal_from zero n text h = absurd (omega arith)
value-decimal_from (suc fuel) n text h = elim (order_cases n 10) [
  | inl small ↦
      let test : ltb n 10 ≡ true = ground arith in
      let last : 0 * 10 + n % 10 ≡ n = omega arith in
      rw (test, value-digit (n % 10) text 0 (omega arith), last) refl
  | inr large ↦
      let test : ltb n 10 ≡ false = ground arith in
      let whole : n / 10 * 10 + n % 10 ≡ n = omega arith in
      rw
        (
          test,
          value-decimal_from fuel (n / 10) ((48 + n % 10) ∷ text) (omega arith),
          value-digit (n % 10) text (n / 10) (omega arith),
          whole,
        )
        refl
]

-- A printed number has digits only, one or more.
decimal_from-IsDigit :
    (fuel n : ℕ) (text : Text)
    → n < fuel
    → All IsDigit text
    → (c : ℕ) × (cs : Text) × (decimal_from fuel n text ≡ c ∷ cs) × All IsDigit (c ∷ cs)
unfolding decimal_from
decimal_from-IsDigit zero n text h digits = absurd (omega arith)
decimal_from-IsDigit (suc fuel) n text h digits = elim (order_cases n 10) [
  | inl small ↦
      let test : ltb n 10 ≡ true = ground arith in
      (48 + n % 10, text, rw test refl, ((omega arith, omega arith), digits))
  | inr large ↦
      let test : ltb n 10 ≡ false = ground arith in
      let (c, cs, e, all) =
        decimal_from-IsDigit fuel (n / 10) ((48 + n % 10) ∷ text) (omega arith)
          ((omega arith, omega arith), digits) in
      (c, cs, rw (test, e) refl, all)
]

pub decimal-IsDigit : (n : ℕ) → All IsDigit (decimal n)
unfolding decimal
decimal-IsDigit n =
    let (c, cs, e, all) = decimal_from-IsDigit (suc n) n [] (omega arith) tt in rw e all

digits_read :
    (c : ℕ) (cs : Text) → IsDigit c → read_number (c ∷ cs) ≡ some (false, value (c ∷ cs) 0)
unfolding read_number skip_spaces magnitude
digits_read c cs h =
    let digit = IsDigit-is_digit c h in
    let solid : is_space c ≡ false = ground (arith, h) in
    let no_minus : (c == 45) ≡ false = ground (arith, h) in
    let no_plus : (c == 43) ≡ false = ground (arith, h) in rw (solid, no_minus, no_plus, digit) refl

read_number-decimal : (n : ℕ) → read_number (decimal n) ≡ some (false, n)
unfolding decimal
read_number-decimal n =
    let (c, cs, e, all) = decimal_from-IsDigit (suc n) n [] (omega arith) tt in
    rw (e, digits_read c cs all.0, ← e, value-decimal_from (suc n) n [] (omega arith), value-nil n)
      refl

-- A number printed in decimal is read as that number, if it fits the type that it is read as: an
-- `int` for `stoi` and `atoi`, and 64 bits for `stoull`.
pub stoi-decimal :
    (n : ℕ)
    → (n < 0x8000_0000 → (stoi (decimal n) ≡ done n) × (atoi (decimal n) ≡ n))
      × (n < two64 → stoull (decimal n) ≡ done n)
unfolding stoi atoi stoull
stoi-decimal n = (as_int, as_word)
  where
    as_int : n < 0x8000_0000 → (stoi (decimal n) ≡ done n) × (atoi (decimal n) ≡ n)
    as_int h =
        let test : ltb n 0x8000_0000 ≡ true = ground arith in
        let bound : ltb n 0x7fff_ffff_ffff_ffff ≡ true = ground arith in
        let exact : n % two32 ≡ n = omega arith in
        (
          rw (stoi, read_number-decimal n, test) refl,
          rw (atoi, read_number-decimal n, bound, exact) refl,
        )

    as_word : n < two64 → stoull (decimal n) ≡ done n
    as_word h =
        let test : ltb n two64 ≡ true = ground arith in
        rw (stoull, read_number-decimal n, test) refl

-- A printed number is not empty.
pub decimal-cons : (n : ℕ) → (c : ℕ) × (cs : Text) × (decimal n ≡ c ∷ cs)
unfolding decimal
decimal-cons n =
    let (c, cs, e, all) = decimal_from-IsDigit (suc n) n [] (omega arith) tt in (c, cs, e)
