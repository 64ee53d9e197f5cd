-- ===== src/Tests/Papi.antt =====
-- Measurements with a PAPI of four counters that knows each event by its name, as the name's length,
-- and refuses the empty name.
use cachetest.Prelude.{
  ℕ, ◌≡◌, refl, arith, true, false, List, [], ◌∷◌, ◌++◌, length, ltb, ◌==◌, if◌then◌else◌, inl, map,
  length-map, ◌*◌, two32, ◌-◌, done, crashed, some,
}
use cachetest.Perf.{Event}
use cachetest.Perf.Papi.{
  Library, Papi, new_papi, add_name, add_names, papi_start, papi_stop, papi_read_results,
  event_names, adding_event, unknown_error_code,
}
use cachetest.Perf.Papi.Session.{IsPapi, HasCodes, add_names-results, add_name-IsRefused}

-- The code `-k`, as a word.
abbrev negative : ℕ → ℕ
negative k = two32 - k

abbrev four_counters : Library
four_counters = record {
  ok = 0;
  einval = negative 1;
  esys = negative 3;
  enoevst = negative 11;
  eisrun = negative 10;
  ecnflct = negative 8;
  enoevnt = negative 7;
  num_counters = 4;
  event_name_to_code = λ name. (if length name == 0 then negative 7 else 0, length name);
  add_event = λ codes code. if ltb (length codes) 4 then 0 else negative 8;
  num_events = λ codes. length codes;
  start = λ codes. if length codes == 0 then negative 1 else 0;
  stop = λ codes. map (λ code. code * 100) codes;
}

abbrev cycles_event : Event
cycles_event = record { event_id = 0; unit_mask = 0; string_event = 67 ∷ 89 ∷ 67 ∷ [] }

four_counters-IsPapi : IsPapi four_counters
four_counters-IsPapi = record {
  counts = λ codes. refl;
  writes = λ codes. length-map (λ code. code * 100) codes;
}

four_counters-HasCodes : HasCodes four_counters
four_counters-HasCodes = record {
  ok = λ e. omega (arith, e);
  einval = λ e. omega (arith, e);
  esys = λ e. omega (arith, e);
  enoevst = λ e. omega (arith, e);
  eisrun = λ e. omega (arith, e);
  ecnflct = λ e. omega (arith, e);
  enoevnt = λ e. omega (arith, e);
}

-- `CYC,,C`
event_names_names :
    event_names 7 (67 ∷ 89 ∷ 67 ∷ 44 ∷ 44 ∷ 67 ∷ [])
    ≡ some (
        record { event_id = 7; unit_mask = 7; string_event = 67 ∷ 89 ∷ 67 ∷ [] }
        ∷ record { event_id = 7; unit_mask = 7; string_event = 67 ∷ [] }
        ∷ [])
unfolding event_names cachetest.Perf.Parse.strtok_pieces
event_names_names = refl

add_names-results_example :
    (p started stopped : Papi) × (values : List ℕ) × (add_names four_counters
        (cycles_event ∷ cycles_event ∷ [])
        (new_papi four_counters)
      ≡ (p, true))
    × (papi_start four_counters p ≡ done (started, true))
    × (papi_stop four_counters started ≡ done (stopped, true))
    × (papi_read_results four_counters stopped [] ≡ done values)
    × (length values ≡ 2)
    × (papi_stop four_counters stopped ≡ done (stopped, false))
    × (papi_read_results four_counters started [] ≡ crashed)
add_names-results_example =
    add_names-results four_counters four_counters-IsPapi cycles_event (cycles_event ∷ [])
      (3, refl, refl, (3, refl, refl, refl)) (omega arith) (omega arith)

-- An event without a name.
add_name-IsRefused_example : add_name four_counters [] (new_papi four_counters) ≡ (
  record (new_papi four_counters) {
    error_out = (new_papi four_counters).error_out ++ (adding_event, unknown_error_code) ∷ [];
  },
  false,
)
add_name-IsRefused_example =
    add_name-IsRefused four_counters [] (new_papi four_counters) four_counters-HasCodes
      (inl (λ e. omega (arith, e)))
