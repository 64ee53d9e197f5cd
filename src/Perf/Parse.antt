-- ===== src/Perf/Parse.antt =====
-- `parseEvents` (src/Perf_Cachetest.cc) and `from_string` (src/include/Perf.hpp) with `std::hex`.
pub mod Limit
pub mod Hex
pub mod Codes
use Prim.Native.Nat.{bit_and, bit_or}
use cachetest.Prelude.{
  ℕ, zero, suc, ◌+◌, ◌-◌, ◌*◌, ◌/◌, ◌%◌, Bool, true, false, ◌&&◌, ◌||◌, List, [], ◌∷◌, ◌++◌, Option,
  some, none, ◌==◌, ltb, leb, if◌then◌else◌, minus_one, u32, two32, two64, Outcome, done, exited,
  ◌>>=◌,
}
use cachetest.Arguments.Split.{Text}
use cachetest.Arguments.Numbers.{skip_spaces, is_digit}
use cachetest.Perf.{Event, custom_prefix, l1d_hit, l1d_miss, same_text}

-- The value of a hexadecimal digit.
unfoldable pub hex_digit : ℕ → Option ℕ
hex_digit c =
    if is_digit c
    then some (c - 48)
    else if leb 97 c && leb c 102
    then some (c - 87)
    else if leb 65 c && leb c 70
    then some (c - 55)
    else none

-- The value of the digits that the text begins with, after digits of the value `read`.
unfoldable pub hex_value : Text → (read : ℕ) → ℕ
hex_value [] read = read
hex_value (c ∷ cs) read = elim (hex_digit c) [ none ↦ read | some d ↦ hex_value cs (read * 16 + d) ]

unfoldable pub hex_digits : Text → Option ℕ
hex_digits [] = none
hex_digits (c ∷ cs) = elim (hex_digit c) [ none ↦ none | some d ↦ some (hex_value (c ∷ cs) 0) ]

-- The digits may have `0x` or `0X` before them.
unfoldable pub hex_magnitude : Text → Option ℕ
hex_magnitude [] = none
hex_magnitude (c ∷ []) = hex_digits (c ∷ [])
hex_magnitude (c ∷ x ∷ cs) =
    if c == 48 && (x == 120 || x == 88) then hex_digits cs else hex_digits (c ∷ x ∷ cs)

-- `from_string` for an unsigned type of `bound` values, less its white space at the front. It fails
-- without digits and on a value that is too large. What follows the digits is not looked at.
unfoldable pub from_string : (bound : ℕ) → Text → Option ℕ
from_string bound text = signed (skip_spaces text)
  where
    fit : Bool → Option ℕ → Option ℕ
    fit negative none = none
    fit negative (some n) =
        if ltb n bound then some (if negative then (bound - n) % bound else n) else none

    signed : Text → Option ℕ
    signed [] = none
    signed (c ∷ cs) =
        if c == 45
        then fit true (hex_magnitude cs)
        else if c == 43
        then fit false (hex_magnitude cs)
        else fit false (hex_magnitude (c ∷ cs))

-- The pieces that successive calls of `strtok` give: those between commas that are not empty.
-- `piece` is what has been read of the current one.
unfoldable pub strtok_pieces : Text → (piece : Text) → List Text
strtok_pieces [] [] = []
strtok_pieces [] (p ∷ ps) = (p ∷ ps) ∷ []
strtok_pieces (c ∷ cs) [] =
    let skip = strtok_pieces cs [] in
    let go = strtok_pieces cs (c ∷ []) in if c == 44 then skip else go
strtok_pieces (c ∷ cs) (p ∷ ps) =
    let cut = strtok_pieces cs [] in
    let go = strtok_pieces cs (p ∷ (ps ++ c ∷ [])) in if c == 44 then (p ∷ ps) ∷ cut else go

-- Method 1: the event of a code.
unfoldable pub code_event : ℕ → Event
code_event code = record {
  event_id = bit_or (u32 (bit_and (code / 0x1_0000_0000) 0xf * 0x100)) (bit_and code 0xff);
  unit_mask = bit_and (code / 0x100) 0xff;
  string_event = [];
}

-- `:l1d_hit` and `:l1d_miss`.
unfoldable pub named_event : Text → Outcome Event
named_event test_name =
    if same_text l1d_hit test_name
    then done (named l1d_hit)
    else if same_text l1d_miss test_name
    then done (named l1d_miss)
    else exited 1
  where
    named : Text → Event
    named name = record {
      event_id = minus_one;
      unit_mask = minus_one;
      string_event = custom_prefix ++ name;
    }

-- An end of the program if there is no number.
unfoldable pub number_or_exit : Option ℕ → Outcome ℕ
number_or_exit none = exited 1
number_or_exit (some n) = done n

abbrev pub is_first : ℕ → Text → Bool
is_first c [] = false
is_first c (d ∷ ds) = d == c

abbrev pub behind_first : Text → Text
behind_first [] = []
behind_first (d ∷ ds) = ds

-- The loop of `parseEvents` over the pieces. `count` is `num_events`. `unset` is the mask that an
-- `Event` has which is not given one: the field is not initialised.
unfoldable pub parse_pieces : (unset count : ℕ) → List Text → List Event → Outcome (List Event)
parse_pieces unset count [] events = done events
parse_pieces unset count (piece ∷ []) events =
    if ltb 4 (count + 1)
    then exited 1
    else if is_first 114 piece
    then (number_or_exit (from_string two64 (behind_first piece)) >>= λ code.
        done (events ++ code_event code ∷ []))
    else if is_first 58 piece
    then (named_event (behind_first piece) >>= λ event. done (events ++ event ∷ []))
    else (number_or_exit (from_string two32 piece) >>= λ id.
        done (events ++ record { event_id = id; unit_mask = unset; string_event = [] } ∷ []))
parse_pieces unset count (piece ∷ next ∷ pieces) events =
    let one =
      λ (event : Event). parse_pieces unset (count + 1) (next ∷ pieces) (events ++ event ∷ []) in
    let two = λ (event : Event). parse_pieces unset (count + 1) pieces (events ++ event ∷ []) in
    if ltb 4 (count + 1)
    then exited 1
    else if is_first 114 piece
    then (number_or_exit (from_string two64 (behind_first piece)) >>= λ code. one (code_event code))
    else if is_first 58 piece
    then (named_event (behind_first piece) >>= one)
    else (number_or_exit (from_string two32 piece) >>= λ id.
        if is_first 117 next
        then (number_or_exit (from_string two32 (behind_first next)) >>= λ mask.
            two (record { event_id = id; unit_mask = mask; string_event = [] }))
        else one (record { event_id = id; unit_mask = unset; string_event = [] }))

-- `parseEvents`, which gives no list for no event.
unfoldable pub parse_events : (unset : ℕ) → Text → Outcome (Option (List Event))
parse_events unset text =
    parse_pieces unset 0 (strtok_pieces text []) [] >>= λ events. done (some_if events)
  where
    some_if : List Event → Option (List Event)
    some_if [] = none
    some_if (e ∷ es) = some (e ∷ es)
