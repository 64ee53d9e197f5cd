-- ===== src/Perf/Parse/Limit.antt =====
-- `parseEvents` (src/Perf_Cachetest.cc) gives at most four events.
use cachetest.Prelude.{
  ℕ, ◌+◌, ◌≤◌, ◌≡◌, refl, ◌⊎◌, inl, inr, arith, Bool, true, false, List, [], ◌∷◌, ◌++◌, length,
  length-append, Option, some, none, ltb, Bool-cases, if◌then◌else◌, two32, two64, Outcome, done,
  exited, ◌>>=◌,
}
use cachetest.Arguments.Split.{Text}
use cachetest.Perf.{Event, same_text, l1d_hit, l1d_miss}
use cachetest.Perf.Parse.{
  from_string, strtok_pieces, code_event, named_event, number_or_exit, is_first, behind_first,
  parse_pieces, parse_events,
}

-- The call returns events, from `few` to four of them, or the program ends with status 1.
abbrev Ends : ℕ → Outcome (List Event) → Type 0
Ends few m =
    ((events : List Event) × (m ≡ done events) × (few ≤ length events) × (length events ≤ 4))
    ⊎ (m ≡ exited 1)

Ends-if :
    (few : ℕ) (b : Bool) (m n : Outcome (List Event))
    → (b ≡ true → Ends few m)
    → (b ≡ false → Ends few n)
    → Ends few (if b then m else n)
Ends-if few true m n h k = h refl
Ends-if few false m n h k = k refl

Ends-number :
    (few : ℕ) (o : Option ℕ) (f : ℕ → Outcome (List Event))
    → ((n : ℕ) → Ends few (f n))
    → Ends few (number_or_exit o >>= f)
unfolding number_or_exit
Ends-number few none f h = inr refl
Ends-number few (some n) f h = h n

Ends-named :
    (few : ℕ) (name : Text) (f : Event → Outcome (List Event))
    → ((e : Event) → Ends few (f e))
    → Ends few (named_event name >>= f)
unfolding named_event
Ends-named few name f h = elim (Bool-cases (same_text l1d_hit name)) [
  | inl hit ↦ rw (named_event, hit) (h _)
  | inr other ↦ elim (Bool-cases (same_text l1d_miss name)) [
    | inl miss ↦ rw (named_event, other, miss) (h _)
    | inr unknown ↦ rw (named_event, other, unknown) (inr refl)
  ]
]

Ends-fewer : (few less : ℕ) (m : Outcome (List Event)) → less ≤ few → Ends few m → Ends less m
Ends-fewer few less m h (inl (events, e, low, high)) = inl (events, e, omega arith, high)
Ends-fewer few less m h (inr e) = inr e

parse_pieces-Ends :
    (unset count : ℕ) (pieces : List Text) (events : List Event)
    → length events ≡ count
    → count ≤ 4
    → Ends count (parse_pieces unset count pieces events)
unfolding parse_pieces
parse_pieces-Ends unset count [] events e h = inl (events, refl, omega arith, omega arith)
parse_pieces-Ends unset count (piece ∷ []) events e h =
    Ends-if count (ltb 4 (count + 1)) _ _ (λ many. inr refl)
      (λ room.
        Ends-if count (is_first 114 piece) _ _
          (λ t.
            Ends-number count (from_string two64 (behind_first piece)) _
              (λ code. last room (code_event code)))
          (λ t.
            Ends-if count (is_first 58 piece) _ _
              (λ u. Ends-named count (behind_first piece) _ (λ event. last room event))
              (λ u. Ends-number count (from_string two32 piece) _ (λ id. last room _))))
  where
    last : ltb 4 (count + 1) ≡ false → (event : Event) → Ends count (done (events ++ event ∷ []))
    last room event = inl (
      events ++ event ∷ [],
      refl,
      omega (arith, e, length-append events (event ∷ [])),
      ground (arith, e, length-append events (event ∷ []), room),
    )
parse_pieces-Ends unset count (piece ∷ next ∷ pieces) events e h =
    let one = λ (room : ltb 4 (count + 1) ≡ false) (event : Event).
      Ends-fewer (count + 1) count _ (omega arith) (
        parse_pieces-Ends unset (count + 1) (next ∷ pieces) (events ++ event ∷ [])
          (omega (arith, e, length-append events (event ∷ []))) (ground (arith, room))) in
    let two = λ (room : ltb 4 (count + 1) ≡ false) (event : Event).
      Ends-fewer (count + 1) count _ (omega arith) (
        parse_pieces-Ends unset (count + 1) pieces (events ++ event ∷ [])
          (omega (arith, e, length-append events (event ∷ []))) (ground (arith, room))) in
    Ends-if count (ltb 4 (count + 1)) _ _ (λ many. inr refl)
      (λ room.
        Ends-if count (is_first 114 piece) _ _
          (λ t.
            Ends-number count (from_string two64 (behind_first piece)) _
              (λ code. one room (code_event code)))
          (λ t.
            Ends-if count (is_first 58 piece) _ _
              (λ u. Ends-named count (behind_first piece) _ (λ event. one room event))
              (λ u. Ends-number count (from_string two32 piece) _ (λ id.
                Ends-if count (is_first 117 next) _ _
                  (λ v.
                    Ends-number count (from_string two32 (behind_first next)) _
                      (λ mask. two room _))
                  (λ v. one room _)))))

-- Whatever the text, `parseEvents` gives no list, or a list of one to four events, or ends the
-- program with status 1.
pub parse_events-cases :
    (unset : ℕ) (text : Text)
    → (parse_events unset text ≡ done none)
      ⊎ ((events : List Event) × (parse_events unset text ≡ done (some events))
          × (1 ≤ length events)
          × (length events ≤ 4))
      ⊎ (parse_events unset text ≡ exited 1)
unfolding parse_events
parse_events-cases unset text =
    elim (parse_pieces-Ends unset 0 (strtok_pieces text []) [] refl (omega arith)) [
      | inl (events, runs, low, high) ↦ found events runs high
      | inr ends ↦ inr (inr (rw (parse_events, ends) refl))
    ]
  where
    found :
        (events : List Event)
        → parse_pieces unset 0 (strtok_pieces text []) [] ≡ done events
        → length events ≤ 4
        → (parse_events unset text ≡ done none)
          ⊎ ((events : List Event) × (parse_events unset text ≡ done (some events))
              × (1 ≤ length events)
              × (length events ≤ 4))
          ⊎ (parse_events unset text ≡ exited 1)
    found [] runs high = inl (rw (parse_events, runs) refl)
    found (e ∷ es) runs high = inr (inl (e ∷ es, rw (parse_events, runs) refl, omega arith, high))
