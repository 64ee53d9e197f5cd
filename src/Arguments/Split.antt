-- ===== src/Arguments/Split.antt =====
-- `split` (src/cachetest.cc) cuts a text at a delimiter. A text is the list of its characters' codes.
pub mod Tokens
use cachetest.Prelude.{
  ℕ, zero, suc, Bool, List, [], ◌∷◌, length, Option, some, none, ◌==◌, if◌then◌else◌, Outcome, done,
  out_of_fuel, ◌>>=◌,
}

abbrev pub Text : Type 0
Text = List ℕ

-- What follows `del`, if the text begins with it.
unfoldable pub strip : (del text : Text) → Option Text
strip [] text = some text
strip (d ∷ ds) [] = none
strip (d ∷ ds) (c ∷ cs) = let rest = strip ds cs in if d == c then rest else none

-- `find` and the two `substr`s: the text before the first `del`, and the text after it.
unfoldable pub find : (del text : Text) → Option (Text × Text)
find del [] = elim (strip del []) [ some rest ↦ some ([], rest) | none ↦ none ]
find del (c ∷ cs) =
    let later = find del cs in
    elim (strip del (c ∷ cs)) [
      | some rest ↦ some ([], rest)
      | none ↦ elim later [ some (before, rest) ↦ some (c ∷ before, rest) | none ↦ none ]
    ]

-- The `while` loop of `split`, from what is left of the text on.
unfoldable pub split_from : (fuel : ℕ) (text del : Text) → Outcome (List Text)
split_from zero text del = out_of_fuel
split_from (suc fuel) text del = elim (find del text) [
  | none ↦ done (text ∷ [])
  | some (before, rest) ↦ split_from fuel rest del >>= λ tokens. done (before ∷ tokens)
]

-- `split`
unfoldable pub split : (text del : Text) → Outcome (List Text)
split text del = split_from (suc (length text)) text del
