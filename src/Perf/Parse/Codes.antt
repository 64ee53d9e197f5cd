-- ===== src/Perf/Parse/Codes.antt =====
-- `parseEvents` (src/Perf_Cachetest.cc) on codes that are written in hexadecimal.
use mathlib.Core.List.{append-nil, append_assoc}
use cachetest.Prelude.{
  ℕ, suc, ◌+◌, ◌≤◌, ◌<◌, ◌≡◌, ◌≢◌, refl, arith, List, [], ◌∷◌, ◌++◌, map, length, All, some, false,
  ltb, two64, done, ==_of_ne,
}
use cachetest.Arguments.Split.{Text}
use cachetest.Arguments.Split.Tokens.{join}
use cachetest.Perf.{Event}
use cachetest.Perf.Parse.{strtok_pieces, code_event, number_or_exit, parse_pieces, parse_events}
use cachetest.Perf.Parse.Hex.{hex, IsHex, hex_from-IsHex, digit_char_range, from_string-hex}

-- A code as the usage message describes it, and a list of them.
abbrev pub r_code : ℕ → Text
r_code n = 114 ∷ hex n

abbrev pub r_codes : List ℕ → Text
r_codes codes = join (44 ∷ []) (map r_code codes)

hex_free : (n : ℕ) → All (λ x. x ≢ 44) (hex n)
unfolding hex
hex_free n =
    let (c, cs, e, all) = hex_from-IsHex (suc n) n [] (omega arith) tt in
    rw e (no_commas (c ∷ cs) all)
  where
    no_commas : (xs : Text) → All IsHex xs → All (λ x. x ≢ 44) xs
    no_commas [] h = tt
    no_commas (x ∷ xs) h =
        ((λ e. omega (arith, digit_char_range h.0.0 h.0.1, h.0.2, e)), no_commas xs h.1)

-- A piece ends with the text, or at the next comma.
strtok_pieces-end :
    (text : Text) (p : ℕ) (ps : Text)
    → All (λ x. x ≢ 44) text
    → strtok_pieces text (p ∷ ps) ≡ (p ∷ (ps ++ text)) ∷ []
unfolding strtok_pieces
strtok_pieces-end [] p ps h = rw (append-nil ps) refl
strtok_pieces-end (c ∷ cs) p ps h =
    rw (==_of_ne c 44 h.0, strtok_pieces-end cs p (ps ++ c ∷ []) h.1, append_assoc ps (c ∷ []) cs)
      refl

strtok_pieces-comma :
    (text rest : Text) (p : ℕ) (ps : Text)
    → All (λ x. x ≢ 44) text
    → strtok_pieces (text ++ 44 ∷ rest) (p ∷ ps) ≡ (p ∷ (ps ++ text)) ∷ strtok_pieces rest []
unfolding strtok_pieces
strtok_pieces-comma [] rest p ps h = rw (append-nil ps) refl
strtok_pieces-comma (c ∷ cs) rest p ps h =
    rw
      (
        ==_of_ne c 44 h.0,
        strtok_pieces-comma cs rest p (ps ++ c ∷ []) h.1,
        append_assoc ps (c ∷ []) cs,
      )
      refl

strtok_pieces-r_codes :
    (code : ℕ) (codes : List ℕ)
    → strtok_pieces (r_codes (code ∷ codes)) [] ≡ map r_code (code ∷ codes)
unfolding strtok_pieces
strtok_pieces-r_codes code [] = strtok_pieces-end (hex code) 114 [] (hex_free code)
strtok_pieces-r_codes code (next ∷ codes) =
    rw
      (
        strtok_pieces-comma (hex code) (r_codes (next ∷ codes)) 114 [] (hex_free code),
        strtok_pieces-r_codes next codes,
      )
      refl

parse_pieces-r_codes :
    (unset count : ℕ) (codes : List ℕ) (events : List Event)
    → count + length codes ≤ 4
    → All (λ n. n < two64) codes
    → parse_pieces unset count (map r_code codes) events ≡ done (events ++ map code_event codes)
unfolding parse_pieces number_or_exit
parse_pieces-r_codes unset count [] events h small = rw (append-nil events) refl
parse_pieces-r_codes unset count (code ∷ []) events h small =
    let room : ltb 4 (count + 1) ≡ false = ground arith in
    rw (room, from_string-hex code small.0) refl
parse_pieces-r_codes unset count (code ∷ next ∷ codes) events h small =
    let room : ltb 4 (count + 1) ≡ false = ground arith in
    rw
      (
        room,
        from_string-hex code small.0,
        parse_pieces-r_codes unset (count + 1) (next ∷ codes) (events ++ code_event code ∷ [])
            (omega arith) small.1,
        append_assoc events (code_event code ∷ []) (map code_event (next ∷ codes)),
      )
      refl

-- One to four codes of at most 64 bits, each written in hexadecimal with `r` before it, with commas
-- between them, are read as the events of the codes, in order.
pub parse_events-r_codes :
    (unset code : ℕ) (codes : List ℕ)
    → length (code ∷ codes) ≤ 4
    → All (λ n. n < two64) (code ∷ codes)
    → parse_events unset (r_codes (code ∷ codes)) ≡ done (some (map code_event (code ∷ codes)))
unfolding parse_events
parse_events-r_codes unset code codes h small =
    rw
      (
        strtok_pieces-r_codes code codes,
        parse_pieces-r_codes unset 0 (code ∷ codes) [] (omega arith) small,
      )
      refl
