-- ===== src/Arguments/Split/Tokens.antt =====
-- `split` (src/cachetest.cc) and its inverse.
use mathlib.Core.List.{append_assoc}
use cachetest.Prelude.{
  ℕ, zero, suc, ◌<◌, ◌≡◌, ◌≢◌, refl, sym, ap, ◌⊎◌, inl, inr, arith, List, [], ◌∷◌, ◌++◌, length,
  length-append, All, some, none, eq_cases, done, ==_self, ==_of_ne,
}
use cachetest.Arguments.Split.{Text, strip, find, split_from, split}

pub strip-append : (del r : Text) → strip del (del ++ r) ≡ some r
unfolding strip
strip-append [] r = refl
strip-append (d ∷ ds) r = rw (==_self d, strip-append ds r) refl

-- What `strip` takes off is the delimiter.
strip_cases :
    (del t : Text) → (strip del t ≡ none) ⊎ ((r : Text) × (strip del t ≡ some r) × (t ≡ del ++ r))
unfolding strip
strip_cases [] t = inr (t, refl, refl)
strip_cases (d ∷ ds) [] = inl refl
strip_cases (d ∷ ds) (c ∷ cs) = elim (eq_cases d c) [
  | inl same ↦ elim (strip_cases ds cs) [
    | inl e ↦ inl (rw (same, ==_self c, e) refl)
    | inr (r, e, whole) ↦ inr (r, rw (same, ==_self c, e) refl, rw (same, ← whole) refl)
  ]
  | inr other ↦ inl (rw (==_of_ne d c other) refl)
]

-- A text that does not begin with the delimiter has no part that does.
strip_part :
    (d : ℕ) (ds b rest : Text) → strip (d ∷ ds) (b ++ rest) ≡ none → strip (d ∷ ds) b ≡ none
strip_part d ds b rest e = elim (strip_cases (d ∷ ds) b) [
  | inl h ↦ h
  | inr (r, h, whole) ↦
      let whole_rest : (d ∷ ds) ++ (r ++ rest) ≡ b ++ rest =
        rw whole (sym (append_assoc (d ∷ ds) r rest)) in
      absurd (cc (e, strip-append (d ∷ ds) (r ++ rest), whole_rest))
]

-- How `find` ends, for a delimiter that is not empty: the text has no delimiter, or it is cut at the
-- first.
pub record Cut (del text before rest : Text) : Type 0 where
  pub found : find del text ≡ some (before, rest)
  pub whole : text ≡ before ++ (del ++ rest)
  pub first : find del before ≡ none

module _ (d : ℕ) (ds : Text) where
  abbrev mark : Text
  mark = d ∷ ds

  strip-nil : strip mark [] ≡ none
  unfolding strip
  strip-nil = refl

  find-nil : find mark [] ≡ none
  unfolding find
  find-nil = rw (find, strip-nil) refl

  find_cases :
      (text : Text)
      → (find mark text ≡ none) ⊎ ((before : Text) × (rest : Text) × Cut mark text before rest)
  unfolding find
  find_cases [] = inl find-nil
  find_cases (c ∷ cs) = elim (strip_cases mark (c ∷ cs)) [
    | inr (r, e, whole) ↦
        inr ([], r, record { found = rw (find, e) refl; whole = whole; first = find-nil })
    | inl e ↦ elim (find_cases cs) [
      | inl f ↦ inl (rw (find, e, f) refl)
      | inr (before, rest, cut) ↦ inr (
        c ∷ before,
        rest,
        record {
          found = rw (find, e, cut.found) refl;
          whole = rw (← cut.whole) refl;
          first =
              let begins : strip mark (c ∷ before) ≡ none =
                strip_part d ds (c ∷ before) (mark ++ rest) (rw (← cut.whole) e) in
              rw (find, begins, cut.first) refl;
        },
      )
    ]
  ]

-- The tokens with the delimiter between them.
abbrev pub join : Text → List Text → Text
join del [] = []
join del (t ∷ []) = t
join del (t ∷ u ∷ ts) = t ++ (del ++ join del (u ∷ ts))

module _ (d : ℕ) (ds : Text) where
  -- With enough fuel the loop ends. The tokens make up the text again, and none contains the delimiter.
  split_from_lem :
      (fuel : ℕ) (text : Text)
      → length text < fuel
      → (t : Text) × (ts : List Text) × (split_from fuel text (d ∷ ds) ≡ done (t ∷ ts))
        × (join (d ∷ ds) (t ∷ ts) ≡ text)
        × All (λ u. find (d ∷ ds) u ≡ none) (t ∷ ts)
  unfolding split_from
  split_from_lem zero text h = absurd (omega arith)
  split_from_lem (suc fuel) text h = elim (find_cases d ds text) [
    | inl f ↦ (text, [], rw (split_from, f) refl, refl, (f, tt))
    | inr (before, rest, cut) ↦
        let shorter : length rest < fuel = omega (
          arith,
          ap length cut.whole,
          length-append before ((d ∷ ds) ++ rest),
          length-append ds rest,
        ) in
        let (t, ts, runs, whole, free) = split_from_lem fuel rest shorter in
        (
          before,
          t ∷ ts,
          rw (split_from, cut.found, runs) refl,
          rw whole (sym cut.whole),
          (cut.first, free),
        )
  ]

-- For a delimiter that is not empty `split` returns. There is at least one token, no token contains
-- the delimiter, and the tokens with the delimiter between them are the text.
pub split_lem :
    (d : ℕ) (ds text : Text)
    → (t : Text) × (ts : List Text) × (split text (d ∷ ds) ≡ done (t ∷ ts))
      × (join (d ∷ ds) (t ∷ ts) ≡ text)
      × All (λ u. find (d ∷ ds) u ≡ none) (t ∷ ts)
unfolding split
split_lem d ds text = split_from_lem d ds (suc (length text)) text (omega arith)

module _ (c : ℕ) where
  strip_self : (xs : Text) → strip (c ∷ []) (c ∷ xs) ≡ some xs
  unfolding strip
  strip_self xs = rw (==_self c) refl

  strip_other : (x : ℕ) (xs : Text) → c ≢ x → strip (c ∷ []) (x ∷ xs) ≡ none
  unfolding strip
  strip_other x xs ne = rw (==_of_ne c x ne) refl

  pub find-free : (t : Text) → All (λ x. c ≢ x) t → find (c ∷ []) t ≡ none
  unfolding find
  find-free [] h = find-nil c []
  find-free (x ∷ xs) h = rw (find, strip_other x xs h.0, find-free xs h.1) refl

  pub find-token :
      (t rest : Text) → All (λ x. c ≢ x) t → find (c ∷ []) (t ++ c ∷ rest) ≡ some (t, rest)
  unfolding find
  find-token [] rest h = rw (find, strip_self rest) refl
  find-token (x ∷ xs) rest h =
      rw (find, strip_other x (xs ++ c ∷ rest) h.0, find-token xs rest h.1) refl

  split_from-join :
      (fuel : ℕ) (t : Text) (ts : List Text)
      → length (join (c ∷ []) (t ∷ ts)) < fuel
      → All (λ u. All (λ x. c ≢ x) u) (t ∷ ts)
      → split_from fuel (join (c ∷ []) (t ∷ ts)) (c ∷ []) ≡ done (t ∷ ts)
  unfolding split_from
  split_from-join zero t ts h free = absurd (omega arith)
  split_from-join (suc fuel) t [] h free = rw (split_from, find-free t free.0) refl
  split_from-join (suc fuel) t (u ∷ us) h free =
      let shorter : length (join (c ∷ []) (u ∷ us)) < fuel =
        omega (arith, length-append t (c ∷ join (c ∷ []) (u ∷ us))) in
      rw
        (
          split_from,
          find-token t (join (c ∷ []) (u ∷ us)) free.0,
          split_from-join fuel u us shorter free.1,
        )
        refl

  -- Splitting takes joining back: tokens that do not contain the character are found again, if there is at
  -- least one.
  pub split-join :
      (t : Text) (ts : List Text)
      → All (λ u. All (λ x. c ≢ x) u) (t ∷ ts)
      → split (join (c ∷ []) (t ∷ ts)) (c ∷ []) ≡ done (t ∷ ts)
  unfolding split
  split-join t ts free =
      split_from-join (suc (length (join (c ∷ []) (t ∷ ts)))) t ts (omega arith) free
