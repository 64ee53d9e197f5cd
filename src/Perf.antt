-- ===== src/Perf.antt =====
-- The performance counters (src/include/Perf.hpp, src/Perf_Cachetest.cc): events, how they are
-- opened, counted and read. `Perf_Cachetest` is the class that is built without PAPI, for x86.
pub mod Code
pub mod Parse
pub mod Group
pub mod Papi
use Prim.Native.Nat.{bit_and, bit_or}
use cachetest.Prelude.{
  ℕ, zero, suc, ◌+◌, ◌*◌, ◌/◌, Bool, true, false, ◌&&◌, List, [], ◌∷◌, ◌++◌, Option, some, none,
  length, ◌==◌, if◌then◌else◌, u32, u64, minus_one, Outcome, done, exited, ◌>>=◌,
}
use cachetest.Arguments.Split.{Text, strip}

-- `Event`
pub record Event : Type 0 where
  pub event_id : ℕ
  pub unit_mask : ℕ
  pub string_event : Text

-- `CUSTOM`, `l1d_hit` and `l1d_miss`.
abbrev pub custom_prefix : Text
custom_prefix = 67 ∷ 85 ∷ 83 ∷ 84 ∷ 79 ∷ 77 ∷ []

abbrev pub l1d_hit : Text
l1d_hit = 108 ∷ 49 ∷ 100 ∷ 95 ∷ 104 ∷ 105 ∷ 116 ∷ []

abbrev pub l1d_miss : Text
l1d_miss = 108 ∷ 49 ∷ 100 ∷ 95 ∷ 109 ∷ 105 ∷ 115 ∷ 115 ∷ []

unfoldable pub same_text : Text → Text → Bool
same_text [] [] = true
same_text [] (d ∷ ds) = false
same_text (c ∷ cs) [] = false
same_text (c ∷ cs) (d ∷ ds) = c == d && same_text cs ds

-- The fields of `perf_event_attr` that tell one event from another. The flags are the same for all.
pub data EventType : Type 0 where
  hw_cache : EventType
  raw : EventType

pub record Attr : Type 0 where
  pub type : EventType
  pub config : ℕ

-- The `config` of a raw event.
unfoldable pub raw_config : (event_id unit_mask : ℕ) → ℕ
raw_config event_id unit_mask =
    bit_or
      (bit_or (bit_or 0x1_0000 (bit_and (u64 (event_id * 0x100_0000)) 0xf_0000_0000))
        (bit_and event_id 0xff))
      (bit_and (u32 (unit_mask * 0x100)) 0xff00)

-- The attributes that `addEvent` asks the kernel for. The events of the hardware's caches are the
-- reads of the first level, and those of them that miss.
unfoldable pub attr_of : Event → Outcome Attr
attr_of e =
    if e.event_id == minus_one && e.unit_mask == minus_one
    then named (strip custom_prefix e.string_event)
    else done (record { type = raw; config = raw_config e.event_id e.unit_mask })
  where
    named : Option Text → Outcome Attr
    named none = done (record { type = raw; config = raw_config e.event_id e.unit_mask })
    named (some test_name) =
        if same_text test_name l1d_hit
        then done
            (record { type = hw_cache; config = bit_or (bit_or 0 (0 * 0x100)) (0 * 0x1_0000) })
        else if same_text test_name l1d_miss
        then done
            (record { type = hw_cache; config = bit_or (bit_or 0 (0 * 0x100)) (1 * 0x1_0000) })
        else exited 255

-- The state of `Perf_Cachetest`: the first descriptor that was opened, and all of them.
pub record Counters : Type 0 where
  pub leader : Option ℕ
  pub fds : List ℕ

abbrev pub new_counters : Counters
new_counters = record { leader = none; fds = [] }

-- The kernel: what `perf_event_open` gives for some attributes and a group, when `n` descriptors
-- have been opened, and what `read` gives for a descriptor. `none` stands for a failure.
pub record Kernel : Type 0 where
  pub perf_event_open : (n : ℕ) → Attr → Option ℕ → Option ℕ
  pub read : ℕ → Option ℕ

-- A descriptor is noted, and leads the group if there is no leader.
unfoldable pub lead : Option ℕ → ℕ → ℕ
lead none fd = fd
lead (some leader) fd = leader

unfoldable pub note : Counters → Option ℕ → Outcome Counters
note p none = exited 1
note p (some fd) = done (record { leader = some (lead p.leader fd); fds = p.fds ++ fd ∷ [] })

-- `addEvent` of an `Event`.
unfoldable pub add_event : Kernel → Event → Counters → Outcome Counters
add_event k e p = attr_of e >>= λ attr. note p (k.perf_event_open (length p.fds) attr p.leader)

-- `addEvents`, which is also the loop of `Setup_perf`.
unfoldable pub add_events : Kernel → List Event → Counters → Outcome Counters
add_events k [] p = done p
add_events k (e ∷ es) p = add_event k e p >>= add_events k es

-- The requests that `start` and `stop` make of the leader.
pub data Request : Type 0 where
  reset : ℕ → Request
  enable : ℕ → Request
  disable : ℕ → Request

-- `start` and `stop`: what they ask for, and their result.
unfoldable pub start : Counters → List Request × Bool
start p = go p.leader
  where
    go : Option ℕ → List Request × Bool
    go none = ([], false)
    go (some fd) = if fd == 0 then ([], false) else (reset fd ∷ enable fd ∷ [], true)

unfoldable pub stop : Counters → List Request × Bool
stop p = go p.leader
  where
    go : Option ℕ → List Request × Bool
    go none = ([], false)
    go (some fd) = if fd == 0 then ([], false) else (disable fd ∷ [], true)

-- `read_results`: what has been read of the descriptors, and whether all could be.
unfoldable pub read_results : Kernel → List ℕ → List ℕ → List ℕ × Bool
read_results k [] results = (results, true)
read_results k (fd ∷ fds) results = elim (k.read fd) [
  | none ↦ (results, false)
  | some value ↦ read_results k fds (results ++ value ∷ [])
]
