-- ===== src/Arguments/Cpus/Lists.antt =====
-- `parseCSVOrRange` (src/cachetest.cc) on lists and ranges that are written in decimal.
use cachetest.Prelude.{
  ℕ, ◌+◌, ◌-◌, ◌<◌, ◌≡◌, ◌≢◌, refl, ◌⊎◌, inl, inr, arith, List, [], ◌∷◌, ◌++◌, map, All, All_mono,
  range_from, false, done, crashed, ◌==◌,
}
use cachetest.Arguments.Split.{Text}
use cachetest.Arguments.Split.Tokens.{join, split-join, find-free, find-token}
use cachetest.Arguments.Numbers.{stoi, decimal}
use cachetest.Arguments.Numbers.Decimal.{IsDigit, decimal-IsDigit, stoi-decimal}
use cachetest.Arguments.Cpus.{comma, dash, contains, each, interval, last_int, parse_csv_or_range}

-- The texts that the usage message describes.
abbrev pub csv : List ℕ → Text
csv ids = join (comma ∷ []) (map decimal ids)

abbrev pub cpu_range : ℕ → ℕ → Text
cpu_range first last = join (dash ∷ []) (decimal first ∷ decimal last ∷ [])

decimal_free : (c n : ℕ) → (c < 48) ⊎ (57 < c) → All (λ x. c ≢ x) (decimal n)
decimal_free c n h = All_mono {P = IsDigit} (differs h) (decimal n) (decimal-IsDigit n)
  where
    differs : (c < 48) ⊎ (57 < c) → (x : ℕ) → IsDigit x → c ≢ x
    differs (inl low) x digit e = omega arith
    differs (inr high) x digit e = omega arith

All-append {κ} : (P : ℕ → Type κ) (xs ys : List ℕ) → All P xs → All P ys → All P (xs ++ ys)
All-append P [] ys h k = k
All-append P (x ∷ xs) ys h k = (h.0, All-append P xs ys h.1 k)

-- A character that is no digit is in a list only if it is the comma.
pub csv_free : (c : ℕ) (ids : List ℕ) → (c < 48) ⊎ (57 < c) → c ≢ comma → All (λ x. c ≢ x) (csv ids)
csv_free c [] h ne = tt
csv_free c (n ∷ []) h ne = decimal_free c n h
csv_free c (n ∷ m ∷ ids) h ne =
    All-append (λ x. c ≢ x) (decimal n) (comma ∷ csv (m ∷ ids)) (decimal_free c n h)
      (ne, csv_free c (m ∷ ids) h ne)

pub tokens_free :
    (c : ℕ) (ids : List ℕ) → (c < 48) ⊎ (57 < c) → All (λ u. All (λ x. c ≢ x) u) (map decimal ids)
tokens_free c [] h = tt
tokens_free c (n ∷ ids) h = (decimal_free c n h, tokens_free c ids h)

each-stoi : (ids : List ℕ) → All (λ n. n < 0x8000_0000) ids → each stoi (map decimal ids) ≡ done ids
each-stoi [] small = refl
each-stoi (n ∷ ids) small = rw (((stoi-decimal n).0 small.0).0, each-stoi ids small.1) refl

pub contains-free : (c : ℕ) (text : Text) → All (λ x. c ≢ x) text → contains c text ≡ false
unfolding contains
contains-free c text free = rw (contains, find-free c text free) refl

-- CPUs from 0 to 2^31 - 1 that are written in decimal are read again: a list of one or more, with
-- commas between them, and a range up to a number below 2^31 - 1, which stands for the numbers from
-- its first to its last. A range up to 2^31 - 1 is not read: the counter overflows.
pub parse_csv_or_range-csv :
    (first : ℕ) (ids : List ℕ)
    → All (λ n. n < 0x8000_0000) (first ∷ ids)
    → (parse_csv_or_range (csv (first ∷ ids)) ≡ done (first ∷ ids))
      × ((last : ℕ)
          → last < last_int
          → parse_csv_or_range (cpu_range first last) ≡ done (range_from first (last + 1 - first)))
      × (parse_csv_or_range (cpu_range first last_int) ≡ crashed)
unfolding parse_csv_or_range interval contains
parse_csv_or_range-csv first ids small = (list, bounds, endless)
  where
    no_dash : contains dash (csv (first ∷ ids)) ≡ false
    no_dash =
        contains-free dash (csv (first ∷ ids))
          (csv_free dash (first ∷ ids) (inl (omega arith)) (λ e. omega arith))

    list : parse_csv_or_range (csv (first ∷ ids)) ≡ done (first ∷ ids)
    list =
        rw
          (
            no_dash,
            split-join comma (decimal first) (map decimal ids)
                (tokens_free comma (first ∷ ids) (inl (omega arith))),
            each-stoi (first ∷ ids) small,
          )
          refl

    bounds :
        (last : ℕ)
        → last < last_int
        → parse_csv_or_range (cpu_range first last) ≡ done (range_from first (last + 1 - first))
    bounds last h =
        let other : (last == last_int) ≡ false = ground (arith, h) in
        rw
          (
            parse_csv_or_range,
            contains,
            find-token dash (decimal first) (decimal last)
                (decimal_free dash first (inl (omega arith))),
            split-join dash (decimal first) (decimal last ∷ [])
                (tokens_free dash (first ∷ last ∷ []) (inl (omega arith))),
            ((stoi-decimal first).0 small.0).0,
            ((stoi-decimal last).0 (omega (arith, h))).0,
            other,
          )
          refl

    endless : parse_csv_or_range (cpu_range first last_int) ≡ crashed
    endless =
        rw
          (
            parse_csv_or_range,
            contains,
            find-token dash (decimal first) (decimal last_int)
                (decimal_free dash first (inl (omega arith))),
            split-join dash (decimal first) (decimal last_int ∷ [])
                (tokens_free dash (first ∷ last_int ∷ []) (inl (omega arith))),
            ((stoi-decimal first).0 small.0).0,
            ((stoi-decimal last_int).0 (omega arith)).0,
          )
          refl
