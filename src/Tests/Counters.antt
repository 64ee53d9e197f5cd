-- ===== src/Tests/Counters.antt =====
-- Events, counters, random numbers and the launcher.
use cachetest.Prelude.{
  ltb, ◌+◌, ◌*◌, ◌%◌, ◌≤◌, ◌<◌, ◌≡◌, ◌⊎◌, refl, arith, true, List, [], ◌∷◌, map, length, some, none,
  done, exited, out_of_fuel,
}
use cachetest.Arguments.Numbers.{skip_spaces}
use cachetest.Perf.{Event, Kernel, raw_config}
use cachetest.Perf.Code.{code_event-raw_config}
use cachetest.Perf.Parse.{
  code_event, parse_events, parse_pieces, strtok_pieces, from_string, hex_magnitude, hex_digits,
  hex_digit, hex_value, number_or_exit,
}
use cachetest.Perf.Parse.Codes.{r_codes, parse_events-r_codes}
use cachetest.Perf.Parse.Limit.{parse_events-cases}
use cachetest.Launcher.{
  pin_experiment, cpu_mask, execv_args, overwrite, cleared, allocated, Calls, child, operand, stale,
}
use cachetest.Genzipf.{draw, multiplier, modulus, rand_step}
use cachetest.Genzipf.Schrage.{rand_step_lem, draw_lem}

code_event-raw_config_example :
    code_event (raw_config 0x1b7 0x10)
    ≡ record { event_id = 0x1b7; unit_mask = 0x10; string_event = [] }
code_event-raw_config_example = code_event-raw_config 0x1b7 0x10 (omega arith) (omega arith)

parse_events-r_codes_example :
    parse_events 0 (r_codes (0x1_0000_10b7 ∷ 0xc0 ∷ []))
    ≡ done (some (map code_event (0x1_0000_10b7 ∷ 0xc0 ∷ [])))
parse_events-r_codes_example =
    parse_events-r_codes 0 0x1_0000_10b7 (0xc0 ∷ []) (omega arith) (omega arith, (omega arith, tt))

-- `2e`: what is not set stays so.
parse_events-cases_example :
    (parse_events 77 (50 ∷ 101 ∷ []) ≡ done none)
    ⊎ ((events : List Event) × (parse_events 77 (50 ∷ 101 ∷ []) ≡ done (some events))
        × (1 ≤ length events)
        × (length events ≤ 4))
    ⊎ (parse_events 77 (50 ∷ 101 ∷ []) ≡ exited 1)
parse_events-cases_example = parse_events-cases 77 (50 ∷ 101 ∷ [])

no_mask_run :
    parse_events 77 (50 ∷ 101 ∷ [])
    ≡ done (some (record { event_id = 0x2e; unit_mask = 77; string_event = [] } ∷ []))
unfolding parse_events parse_pieces strtok_pieces from_string skip_spaces hex_magnitude hex_digits
    hex_digit hex_value number_or_exit
no_mask_run = refl

-- The descriptors count up from 3, and each reads as its own number.
abbrev kernel : Kernel
kernel = record { perf_event_open = λ n a g. some (3 + n); read = λ fd. some fd }

abbrev event : Event
event = record { event_id = 0x2e; unit_mask = 0x41; string_event = [] }

rand_step_lem_example :
    (rand_step 12345 ≡ multiplier * 12345 % modulus)
    × (0 < rand_step 12345)
    × (rand_step 12345 < modulus)
rand_step_lem_example = rand_step_lem 12345 (omega arith) (omega arith)

draw_lem_example :
    (0 < 12345
      → 12345 < modulus
      → (draw 1 12345 ≡ done (multiplier * 12345 % modulus))
        × (0 < multiplier * 12345 % modulus)
        × (multiplier * 12345 % modulus < modulus))
    × (draw 0 modulus ≡ out_of_fuel)
draw_lem_example = draw_lem 0 12345

abbrev calls : Calls
calls = record {
  can_schedule = true;
  can_alloc = true;
  can_pin = λ cpus. ltb 0 (length cpus);
  can_renice = true;
}

-- `launcher -c 64 -- x`: the set has no CPU.
child_unpinned :
    child calls (64 ∷ []) ((120 ∷ []) ∷ [])
    ≡ done (record { pinned = none; args = operand (120 ∷ []) ∷ stale ∷ stale ∷ [] })
unfolding child pin_experiment cpu_mask execv_args overwrite cleared allocated
child_unpinned = refl
