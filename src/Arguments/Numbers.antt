-- ===== src/Arguments/Numbers.antt =====
-- Numbers in texts, as the calls of `atoi`, `stoi`, `stoull` and `<<` in src/cachetest.cc read and
-- print them. A text is the list of its characters' codes.
pub mod Decimal
use cachetest.Prelude.{
  ℕ, zero, suc, ◌+◌, ◌-◌, ◌*◌, ◌/◌, ◌%◌, Bool, true, false, ◌&&◌, ◌||◌, List, [], ◌∷◌, Option, some,
  none, ◌==◌, ltb, leb, if◌then◌else◌, u32, two32, two64, Outcome, done, aborted,
}
use cachetest.Arguments.Split.{Text}

abbrev pub is_space : ℕ → Bool
is_space c = c == 32 || (leb 9 c && leb c 13)

abbrev pub is_digit : ℕ → Bool
is_digit c = leb 48 c && leb c 57

unfoldable pub skip_spaces : Text → Text
skip_spaces [] = []
skip_spaces (c ∷ cs) = let rest = skip_spaces cs in if is_space c then rest else c ∷ cs

-- The value of the digits that the text begins with, after digits of the value `read`.
unfoldable pub value : Text → (read : ℕ) → ℕ
value [] read = read
value (c ∷ cs) read =
    let more = value cs (read * 10 + (c - 48)) in if is_digit c then more else read

unfoldable pub magnitude : Text → Option ℕ
magnitude [] = none
magnitude (c ∷ cs) = if is_digit c then some (value (c ∷ cs) 0) else none

-- Whether there is a minus sign, and the number after the sign, if there is one.
unfoldable pub read_number : Text → Option (Bool × ℕ)
read_number text = signed (skip_spaces text)
  where
    with_sign : Bool → Option ℕ → Option (Bool × ℕ)
    with_sign negative none = none
    with_sign negative (some n) = some (negative, n)

    signed : Text → Option (Bool × ℕ)
    signed [] = none
    signed (c ∷ cs) =
        if c == 45
        then with_sign true (magnitude cs)
        else if c == 43
        then with_sign false (magnitude cs)
        else with_sign false (magnitude (c ∷ cs))

abbrev least : ℕ → ℕ → ℕ
least a b = if ltb a b then a else b

-- `atoi`, as a word of 32 bits: a `long` that stops at its bounds, cut to an `int`.
unfoldable pub atoi : Text → ℕ
atoi text = elim (read_number text) [
  | none ↦ 0
  | some (negative, n) ↦
      if negative
      then u32 (two64 - least n 0x8000_0000_0000_0000)
      else u32 (least n 0x7fff_ffff_ffff_ffff)
]

-- `std::stoi`, as a word of 32 bits. Its exceptions are not caught.
unfoldable pub stoi : Text → Outcome ℕ
stoi text = elim (read_number text) [
  | none ↦ aborted
  | some (negative, n) ↦
      if negative
      then (if leb n 0x8000_0000 then done (u32 (two32 - n)) else aborted)
      else (if ltb n 0x8000_0000 then done n else aborted)
]

-- `std::stoull`, which takes a minus sign as well.
unfoldable pub stoull : Text → Outcome ℕ
stoull text = elim (read_number text) [
  | none ↦ aborted
  | some (negative, n) ↦
      if ltb n two64 then done (if negative then (two64 - n) % two64 else n) else aborted
]

-- A number printed in decimal.
unfoldable pub decimal_from : (fuel n : ℕ) → Text → Text
decimal_from zero n text = text
decimal_from (suc fuel) n text =
    let longer = decimal_from fuel (n / 10) ((48 + n % 10) ∷ text) in
    if ltb n 10 then (48 + n % 10) ∷ text else longer

unfoldable pub decimal : ℕ → Text
decimal n = decimal_from (suc n) n []

-- `<<` of an `int`, given as a word of 32 bits.
unfoldable pub show_int : ℕ → Text
show_int n = if ltb n 0x8000_0000 then decimal n else 45 ∷ decimal (two32 - n)
