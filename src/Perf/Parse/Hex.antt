-- ===== src/Perf/Parse/Hex.antt =====
-- Numbers in hexadecimal, as `from_string` (src/include/Perf.hpp) reads them.
use cachetest.Prelude.{
  ℕ, zero, suc, ◌+◌, ◌-◌, ◌*◌, ◌/◌, ◌%◌, ◌≤◌, ◌<◌, ◌≡◌, refl, ◌∙◌, inl, inr, order_cases, arith, [],
  ◌∷◌, All, some, true, false, ltb, leb, ◌==◌, ◌&&◌, ◌||◌, if◌then◌else◌, two64,
}
use cachetest.Arguments.Split.{Text}
use cachetest.Arguments.Numbers.{is_digit, is_space, skip_spaces}
use cachetest.Perf.Parse.{hex_digit, hex_value, hex_digits, hex_magnitude, from_string}

-- A number written in hexadecimal, with small letters.
abbrev pub digit_char : ℕ → ℕ
digit_char d = if ltb d 10 then 48 + d else 87 + d

unfoldable pub hex_from : (fuel n : ℕ) → Text → Text
hex_from zero n text = text
hex_from (suc fuel) n text =
    let longer = hex_from fuel (n / 16) (digit_char (n % 16) ∷ text) in
    if ltb n 16 then digit_char (n % 16) ∷ text else longer

unfoldable pub hex : ℕ → Text
hex n = hex_from (suc n) n []

hex_digit-digit_char : (d : ℕ) → d < 16 → hex_digit (digit_char d) ≡ some d
unfolding hex_digit
hex_digit-digit_char d h = elim (order_cases d 10) [
  | inl small ↦
      let test : ltb d 10 ≡ true = ground arith in
      let digit : is_digit (48 + d) ≡ true = ground arith in
      let value : 48 + d - 48 ≡ d = omega arith in rw (test, digit, value) refl
  | inr large ↦
      let test : ltb d 10 ≡ false = ground arith in
      let digit : is_digit (87 + d) ≡ false = ground arith in
      let letter : (leb 97 (87 + d) && leb (87 + d) 102) ≡ true = ground arith in
      let value : 87 + d - 87 ≡ d = omega arith in rw (test, digit, letter, value) refl
]

hex_value-digit :
    (d : ℕ) (text : Text) (read : ℕ)
    → d < 16
    → hex_value (digit_char d ∷ text) read ≡ hex_value text (read * 16 + d)
unfolding hex_value
hex_value-digit d text read h = rw (hex_value, hex_digit-digit_char d h) refl

hex_value-nil : (n : ℕ) → hex_value [] n ≡ n
unfolding hex_value
hex_value-nil n = refl

hex_value-hex_from :
    (fuel n : ℕ) (text : Text) → n < fuel → hex_value (hex_from fuel n text) 0 ≡ hex_value text n
unfolding hex_from
hex_value-hex_from zero n text h = absurd (omega arith)
hex_value-hex_from (suc fuel) n text h = elim (order_cases n 16) [
  | inl small ↦
      let test : ltb n 16 ≡ true = ground arith in
      let last : 0 * 16 + n % 16 ≡ n = omega arith in
      rw (test, hex_value-digit (n % 16) text 0 (omega arith), last) refl
  | inr large ↦
      let test : ltb n 16 ≡ false = ground arith in
      let whole : n / 16 * 16 + n % 16 ≡ n = omega arith in
      rw
        (
          test,
          hex_value-hex_from fuel (n / 16) (digit_char (n % 16) ∷ text) (omega arith),
          hex_value-digit (n % 16) text (n / 16) (omega arith),
          whole,
        )
        refl
]

-- A character of a number in hexadecimal.
abbrev pub IsHex : ℕ → Type 0
IsHex c = (d : ℕ) × (d < 16) × (c ≡ digit_char d)

pub hex_from-IsHex :
    (fuel n : ℕ) (text : Text)
    → n < fuel
    → All IsHex text
    → (c : ℕ) × (cs : Text) × (hex_from fuel n text ≡ c ∷ cs) × All IsHex (c ∷ cs)
unfolding hex_from
hex_from-IsHex zero n text h digits = absurd (omega arith)
hex_from-IsHex (suc fuel) n text h digits = elim (order_cases n 16) [
  | inl small ↦
      let test : ltb n 16 ≡ true = ground arith in
      (digit_char (n % 16), text, rw test refl, ((n % 16, omega arith, refl), digits))
  | inr large ↦
      let test : ltb n 16 ≡ false = ground arith in
      let (c, cs, e, all) =
        hex_from-IsHex fuel (n / 16) (digit_char (n % 16) ∷ text) (omega arith)
          ((n % 16, omega arith, refl), digits) in
      (c, cs, rw (test, e) refl, all)
]

-- What a digit is not.
pub digit_char_range : (d : ℕ) → d < 16 → (48 ≤ digit_char d) × (digit_char d < 103)
digit_char_range d h = (ground arith, ground arith)

hex_digits-digit :
    (d : ℕ) (cs : Text)
    → d < 16
    → hex_digits (digit_char d ∷ cs) ≡ some (hex_value (digit_char d ∷ cs) 0)
unfolding hex_digits
hex_digits-digit d cs h = rw (hex_digits, hex_digit-digit_char d h) refl

magnitude-hex :
    (c : ℕ) (cs : Text) → All IsHex (c ∷ cs) → hex_magnitude (c ∷ cs) ≡ some (hex_value (c ∷ cs) 0)
unfolding hex_magnitude
magnitude-hex c [] h = rw h.0.2 (hex_digits-digit h.0.0 [] h.0.1)
magnitude-hex c (x ∷ cs) h =
    let range = digit_char_range h.1.0.0 h.1.0.1 in
    let no_prefix : (c == 48 && (x == 120 || x == 88)) ≡ false = ground (arith, h.1.0.2, range) in
    rw (no_prefix, h.0.2) (hex_digits-digit h.0.0 (x ∷ cs) h.0.1)

-- A number of 64 bits that is written in hexadecimal is read as that number.
pub from_string-hex : (n : ℕ) → n < two64 → from_string two64 (hex n) ≡ some n
unfolding from_string hex skip_spaces
from_string-hex n h =
    let (c, cs, e, all) = hex_from-IsHex (suc n) n [] (omega arith) tt in
    let range = digit_char_range all.0.0 all.0.1 in
    let solid : is_space c ≡ false = ground (arith, all.0.2, range) in
    let no_minus : (c == 45) ≡ false = ground (arith, all.0.2, range) in
    let no_plus : (c == 43) ≡ false = ground (arith, all.0.2, range) in
    let value : hex_value (c ∷ cs) 0 ≡ n =
      rw (← e) (hex_value-hex_from (suc n) n [] (omega arith) ∙ hex_value-nil n) in
    let fits : ltb n two64 ≡ true = ground arith in
    rw (e, solid, no_minus, no_plus, magnitude-hex c cs all, value, fits) refl
