-- ===== src/Perf/Papi.antt =====
-- `Perf_PAPI` (src/Perf_PAPI.cc), the class of counters for a build with PAPI, and
-- `Perf::parseEvents` (src/Perf.cc), which it inherits. PAPI itself is a parameter.
pub mod Session
use cachetest.Prelude.{
  ℕ, zero, suc, Bool, true, false, ◌&&◌, not, length, List, [], ◌∷◌, ◌++◌, map, Option, some, none,
  ◌==◌, ltb, if◌then◌else◌, u32, Outcome, done, exited, crashed,
}
use cachetest.Arguments.Split.{Text}
use cachetest.Perf.{Event}
use cachetest.Perf.Parse.{strtok_pieces}

-- `Perf::parseEvents`: an event for each name; its numbers are not set.
unfoldable pub event_names : (unset : ℕ) → Text → Option (List Event)
event_names unset text = some_if (
    map (λ idx. record { event_id = unset; unit_mask = unset; string_event = idx })
      (strtok_pieces text []))
  where
    some_if : List Event → Option (List Event)
    some_if [] = none
    some_if (e ∷ es) = some (e ∷ es)

-- PAPI: its return codes, and what its calls give. The calls on an event set are given the codes
-- that have been added to it.
pub record Library : Type 0 where
  pub ok : ℕ
  pub einval : ℕ
  pub esys : ℕ
  pub enoevst : ℕ
  pub eisrun : ℕ
  pub ecnflct : ℕ
  pub enoevnt : ℕ
  pub num_counters : ℕ
  -- The return code, and the code of the event.
  pub event_name_to_code : Text → ℕ × ℕ
  pub add_event : List ℕ → ℕ → ℕ
  pub num_events : List ℕ → ℕ
  pub start : List ℕ → ℕ
  -- The values that are written to the array.
  pub stop : List ℕ → List ℕ

-- What `error` writes: the message, and the words for the code.
pub data Message : Type 0 where
  adding_event : Message
  starting_counter : Message

pub data Explanation : Type 0 where
  invalid_argument : Explanation
  system_error : Explanation
  no_event_set : Explanation
  already_counting : Explanation
  conflict : Explanation
  not_available : Explanation
  unknown_error_code : Explanation

-- The members of `Perf_PAPI`, and what has been written to `error_out`.
pub record Papi : Type 0 where
  pub event_set : List ℕ
  pub result_vector : Option (List ℕ)
  pub available_counters : ℕ
  pub running : Bool
  pub error_out : List (Message × Explanation)

-- The constructor.
unfoldable pub new_papi : Library → Papi
new_papi l = record {
  event_set = [];
  result_vector = none;
  available_counters = u32 l.num_counters;
  running = false;
  error_out = [];
}

-- The `switch` of `error`, for a code other than `PAPI_OK`.
unfoldable pub explain : Library → ℕ → Explanation
explain l code =
    if code == l.einval
    then invalid_argument
    else if code == l.esys
    then system_error
    else if code == l.enoevst
    then no_event_set
    else if code == l.eisrun
    then already_counting
    else if code == l.ecnflct
    then conflict
    else if code == l.enoevnt
    then not_available
    else unknown_error_code

unfoldable pub report : Library → Message → ℕ → Papi → Papi × Bool
report l message code p =
    if code == l.ok
    then (p, false)
    else (record p { error_out = p.error_out ++ (message, explain l code) ∷ [] }, true)

-- `return_code = call != PAPI_OK`: the comparison is what is stored.
unfoldable pub compared : Library → ℕ → ℕ
compared l status = if status == l.ok then 0 else 1

-- `addEvent` of a name.
unfoldable pub add_name : Library → Text → Papi → Papi × Bool
add_name l event p =
    let (status, event_id) = l.event_name_to_code event in
    let unknown = compared l status in
    let refused = compared l (l.add_event p.event_set event_id) in
    if not (unknown == 0)
    then ((report l adding_event unknown p).0, false)
    else if not (refused == 0)
    then ((report l adding_event refused p).0, false)
    else (record p { event_set = p.event_set ++ event_id ∷ [] }, true)

-- `addEvent` of an `Event` for each of the measured events, which is the loop of `Setup_perf`
-- (src/cachetest.cc).
unfoldable pub add_names : Library → List Event → Papi → Papi × Bool
add_names l [] p = (p, true)
add_names l (e ∷ es) p =
    let (q, added) = add_name l e.string_event p in
    let rest = add_names l es q in if added then rest else (q, false)

unfoldable pub papi_start : Library → Papi → Outcome (Papi × Bool)
papi_start l p =
    let (q, failed) = report l starting_counter (l.start p.event_set) p in
    if l.num_events p.event_set == 0
    then done (p, false)
    else if failed
    then exited 1
    else done (record q { running = true }, true)

unfoldable pub number_of_results : Library → Papi → ℕ
number_of_results l p =
    let events = u32 (l.num_events p.event_set) in
    if ltb p.available_counters events then p.available_counters else events

-- The array has `number_of_results` elements, and PAPI writes a value for each event: more of them
-- are written past its end.
unfoldable pub papi_stop : Library → Papi → Outcome (Papi × Bool)
papi_stop l p =
    let number = number_of_results l p in
    let values = l.stop p.event_set in
    if is_null p.result_vector && p.running && not (number == 0)
    then if ltb number (length values)
      then crashed
      else done (record p { result_vector = some values; running = false }, true)
    else done (p, false)
  where
    is_null : Option (List ℕ) → Bool
    is_null none = true
    is_null (some values) = false

-- The loop of `read_results`, on the rest of the array. There is nothing at a null pointer, nor where
-- PAPI has not written.
unfoldable pub read_values : ℕ → List ℕ → (results : List ℕ) → Outcome (List ℕ)
read_values zero values results = done results
read_values (suc k) [] results = crashed
read_values (suc k) (v ∷ vs) results = read_values k vs (results ++ v ∷ [])

unfoldable pub papi_read_results : Library → Papi → (results : List ℕ) → Outcome (List ℕ)
papi_read_results l p results =
    read_values (number_of_results l p) (elements p.result_vector) results
  where
    elements : Option (List ℕ) → List ℕ
    elements none = []
    elements (some values) = values
