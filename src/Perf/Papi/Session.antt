-- ===== src/Perf/Papi/Session.antt =====
-- A measurement with `Perf_PAPI` (src/Perf_PAPI.cc).
use mathlib.Core.List.{append-nil, append_assoc}
use cachetest.Prelude.{
  ℕ, zero, suc, ◌+◌, ◌<◌, ◌≤◌, ◌≡◌, ◌≢◌, Bool-cases, ◌⊎◌, inl, inr, refl, sym, ap, ◌∙◌, arith, true,
  false, List, [], ◌∷◌, ◌++◌, length, length-append, some, ◌==◌, ltb, u32, two32, done, crashed,
}
use cachetest.Arguments.Split.{Text}
use cachetest.Perf.{Event}
use cachetest.Perf.Papi.{
  adding_event, unknown_error_code, explain, Library, Papi, new_papi, report, compared, add_name,
  add_names, papi_start, number_of_results, papi_stop, read_values, papi_read_results,
}

-- Documented behaviour of PAPI: an event set has the events that were added, and stopping writes a
-- value for each of them.
pub record IsPapi (l : Library) : Type 0 where
  pub counts : (codes : List ℕ) → l.num_events codes ≡ length codes
  pub writes : (codes : List ℕ) → length (l.stop codes) ≡ length codes

-- PAPI takes the events, one after the other, into a set that has some codes already, and starts the
-- set that it has then: it knows each name, and has no conflict between the events.
abbrev pub AreTaken : Library → (codes : List ℕ) → List Event → Type 0
AreTaken l codes [] = l.start codes ≡ l.ok
AreTaken l codes (e ∷ es) =
    (code : ℕ) × (l.event_name_to_code e.string_event ≡ (l.ok, code))
    × (l.add_event codes code ≡ l.ok)
    × AreTaken l (codes ++ code ∷ []) es

read_values-length :
    (values results : List ℕ)
    → read_values (length values) values results ≡ done (results ++ values)
unfolding read_values
read_values-length [] results = ap done (sym (append-nil results))
read_values-length (v ∷ vs) results =
    read_values-length vs (results ++ v ∷ []) ∙ ap done (append_assoc results (v ∷ []) vs)

-- At a null pointer there is no result.
read_values-empty : (k : ℕ) (results : List ℕ) → 0 < k → read_values k [] results ≡ crashed
unfolding read_values
read_values-empty zero results pos = absurd (omega (arith, pos))
read_values-empty (suc k) results pos = refl

-- Events that PAPI takes are all added.
module _ (l : Library) (lawful : IsPapi l) where
  add_name_taken :
      (e : Event) (p : Papi) (code : ℕ)
      → l.event_name_to_code e.string_event ≡ (l.ok, code)
      → l.add_event p.event_set code ≡ l.ok
      → add_name l e.string_event p ≡ (record p { event_set = p.event_set ++ code ∷ [] }, true)
  unfolding add_name compared
  add_name_taken e p code named added =
      let same : (l.ok == l.ok) ≡ true = ground arith in rw (add_name, named, added, same) refl

  add_names-AreTaken :
      (es : List Event) (p : Papi)
      → AreTaken l p.event_set es
      → (codes : List ℕ) × (length codes ≡ length p.event_set + length es)
        × (add_names l es p ≡ (record p { event_set = codes }, true))
        × (l.start codes ≡ l.ok)
  unfolding add_names
  add_names-AreTaken [] p started = (p.event_set, omega arith, refl, started)
  add_names-AreTaken (e ∷ es) p (code, named, added, taken) =
      let q : Papi = record p { event_set = p.event_set ++ code ∷ [] } in
      let longer = length-append p.event_set (code ∷ []) in
      let (codes, count, runs, started) = add_names-AreTaken es q taken in
      (
        codes,
        omega (arith, count, longer),
        rw (add_names, add_name_taken e p code named added, runs) refl,
        started,
      )

  number_of_results-events :
      (p : Papi)
      → p.available_counters ≡ u32 l.num_counters
      → length p.event_set ≤ l.num_counters
      → l.num_counters < two32
      → number_of_results l p ≡ length p.event_set
  unfolding number_of_results
  number_of_results-events p available room small =
      rw (lawful.counts p.event_set, available) ground (arith, room, small)

  -- A measurement of one or more events that PAPI takes, no more than it has counters: they are added, counted from `start` on, and after `stop` there is a result for each. A second
  -- `stop` is refused, and reading the results before the first one goes through a null pointer.
  pub add_names-results :
      (e : Event) (es : List Event)
      → AreTaken l [] (e ∷ es)
      → length (e ∷ es) ≤ l.num_counters
      → l.num_counters < two32
      → (p started stopped : Papi) × (values : List ℕ) × (add_names l (e ∷ es) (new_papi l)
          ≡ (p, true))
        × (papi_start l p ≡ done (started, true))
        × (papi_stop l started ≡ done (stopped, true))
        × (papi_read_results l stopped [] ≡ done values)
        × (length values ≡ length (e ∷ es))
        × (papi_stop l stopped ≡ done (stopped, false))
        × (papi_read_results l started [] ≡ crashed)
  unfolding new_papi papi_start report papi_stop papi_read_results
  add_names-results e es taken room small =
      let (codes, count, runs, starts) = add_names-AreTaken (e ∷ es) (new_papi l) taken in
      let p : Papi = record (new_papi l) { event_set = codes } in
      let started : Papi = record p { running = true } in
      let values = l.stop codes in
      let stopped : Papi = record started { result_vector = some values; running = false } in
      let written = lawful.writes codes in
      let some_events : (length codes == 0) ≡ false = ground (arith, count) in
      let fits : ltb (length codes) (length values) ≡ false = ground (arith, written) in
      let same : (l.ok == l.ok) ≡ true = ground arith in
      let number : number_of_results l started ≡ length codes =
        number_of_results-events started refl (omega (arith, count, room)) small in
      (
        p,
        started,
        stopped,
        values,
        runs,
        rw (papi_start, lawful.counts codes, starts, same, some_events) refl,
        rw (papi_stop, number, some_events, fits) refl,
        rw (number_of_results-events stopped refl (omega (arith, count, room)) small, sym written)
            (read_values-length values []),
        omega (arith, written, count),
        refl,
        rw number (read_values-empty (length codes) [] (omega (arith, count))),
      )

-- The return codes of PAPI are 0 and negative numbers.
pub record HasCodes (l : Library) : Type 0 where
  pub ok : l.ok ≢ 1
  pub einval : l.einval ≢ 1
  pub esys : l.esys ≢ 1
  pub enoevst : l.enoevst ≢ 1
  pub eisrun : l.eisrun ≢ 1
  pub ecnflct : l.ecnflct ≢ 1
  pub enoevnt : l.enoevnt ≢ 1

explain-one : (l : Library) → HasCodes l → explain l 1 ≡ unknown_error_code
unfolding explain
explain-one l h = ground (arith, h.einval, h.esys, h.enoevst, h.eisrun, h.ecnflct, h.enoevnt)

-- PAPI refuses the event: it does not know the name, or does not add the event.
abbrev pub IsRefused : Library → Text → Papi → Type 0
IsRefused l event p =
    ((l.event_name_to_code event).0 ≢ l.ok)
    ⊎ (l.add_event p.event_set (l.event_name_to_code event).1 ≢ l.ok)

-- The comparison is 1 unless the call succeeds.
compared-one : (l : Library) (status : ℕ) → status ≢ l.ok → compared l status ≡ 1
unfolding compared
compared-one l status fails = ground (arith, fails)

compared-cases : (l : Library) (status : ℕ) → (compared l status ≡ 0) ⊎ (compared l status ≡ 1)
unfolding compared
compared-cases l status = elim (Bool-cases (status == l.ok)) [
  | inl same ↦ inl (rw same refl)
  | inr other ↦ inr (rw other refl)
]

report-one :
    (l : Library) (p : Papi)
    → HasCodes l
    → (report l adding_event 1 p).0
      ≡ record p { error_out = p.error_out ++ (adding_event, unknown_error_code) ∷ [] }
unfolding report
report-one l p h =
    let fails : (1 == l.ok) ≡ false = ground (arith, h.ok) in
    rw (report, fails, explain-one l h) refl

-- If PAPI refuses the event, `addEvent` is false and the event set stays as it is; whatever the code
-- that PAPI returns, the error that is written is an unknown one.
pub add_name-IsRefused :
    (l : Library) (event : Text) (p : Papi)
    → HasCodes l
    → IsRefused l event p
    → add_name l event p
      ≡ (record p { error_out = p.error_out ++ (adding_event, unknown_error_code) ∷ [] }, false)
unfolding add_name
add_name-IsRefused l event p h (inl unknown) =
    rw (add_name, compared-one l _ unknown, report-one l p h) refl
add_name-IsRefused l event p h (inr refused) =
    elim (compared-cases l (l.event_name_to_code event).0) [
      | inl known ↦ rw (add_name, known, compared-one l _ refused, report-one l p h) refl
      | inr unknown ↦ rw (add_name, unknown, report-one l p h) refl
    ]
