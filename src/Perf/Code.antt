-- ===== src/Perf/Code.antt =====
-- The codes of raw events: what `parseEvents` reads and what `addEvent` gives to the kernel
-- (src/Perf_Cachetest.cc).
use Prim.Native.Nat.{bit_and, bit_or}
use cachetest.Prelude.{
  ℕ, ◌+◌, ◌*◌, ◌/◌, ◌%◌, ◌^◌, ◌<◌, ◌≡◌, refl, sym, ap, ◌∙◌, arith, [], u32, u64, bit_and-low,
  bit_and-field, bit_or-within, bit_or-below, bit_or-zero_left,
}
use cachetest.Perf.{raw_config}
use cachetest.Perf.Parse.{code_event}

-- The layout of a code: 8 bits of the event, the mask, a bit that is set in every configuration, and
-- the other 4 bits of the event.
abbrev pub layout : (low mask flag high : ℕ) → ℕ
layout low mask flag high = low + 0x100 * mask + 0x1_0000 * flag + 0x1_0000_0000 * high

code_event-layout :
    (code : ℕ)
    → code_event code ≡ record {
      event_id = code / 0x1_0000_0000 % 16 * 0x100 + code % 0x100;
      unit_mask = code / 0x100 % 0x100;
      string_event = [];
    }
unfolding code_event
code_event-layout code =
    let high : bit_and (code / 0x1_0000_0000) 0xf ≡ code / 0x1_0000_0000 % 16 =
      bit_and-low 4 (code / 0x1_0000_0000) in
    let low : bit_and code 0xff ≡ code % 0x100 = bit_and-low 8 code in
    let mask : bit_and (code / 0x100) 0xff ≡ code / 0x100 % 0x100 = bit_and-low 8 (code / 0x100) in
    let exact : u32 (code / 0x1_0000_0000 % 16 * 0x100) ≡ code / 0x1_0000_0000 % 16 * 0x100 =
      omega arith in
    let none : code / 0x1_0000_0000 % 16 * 0x100 + 0 ≡ code / 0x1_0000_0000 % 16 * 0x100 =
      omega arith in
    let both : bit_or (code / 0x1_0000_0000 % 16 * 0x100) (code % 0x100)
        ≡ code / 0x1_0000_0000 % 16 * 0x100 + code % 0x100 =
      sym (ap (λ (n : ℕ). bit_or n (code % 0x100)) none)
      ∙ omega (
        arith,
        bit_or-within 8 (code / 0x1_0000_0000 % 16) 0 (code % 0x100) (omega arith) (omega arith),
        bit_or-zero_left (code % 0x100),
      ) in
    rw (high, low, mask, exact, both) refl

raw_config-layout :
    (id mask : ℕ) → raw_config id mask ≡ layout (id % 0x100) (mask % 0x100) 1 (id / 0x100 % 16)
unfolding raw_config
raw_config-layout id mask =
    let m = mask % 0x100 in
    let l = id % 0x100 in
    let h = id / 0x100 % 16 in
    let high : bit_and (u64 (id * 0x100_0000)) 0xf_0000_0000 ≡ h * 0x1_0000_0000 =
      omega (arith, bit_and-field 32 4 (u64 (id * 0x100_0000))) in
    let low : bit_and id 0xff ≡ l = bit_and-low 8 id in
    let field : bit_and (u32 (mask * 0x100)) 0xff00 ≡ m * 0x100 =
      omega (arith, bit_and-field 8 8 (u32 (mask * 0x100))) in
    let first : bit_or 0x1_0000 (h * 0x1_0000_0000) ≡ (1 + h * 0x1_0000) * 2 ^ 16 + 0 =
      omega (arith, bit_or-below 32 0x1_0000 h (omega arith)) in
    let second : bit_or ((1 + h * 0x1_0000) * 2 ^ 16 + 0) l ≡ (1 + h * 0x1_0000) * 2 ^ 16 + l =
      omega (
        arith,
        bit_or-within 16 (1 + h * 0x1_0000) 0 l (omega arith) (omega arith),
        bit_or-zero_left l,
      ) in
    let third : bit_or ((1 + h * 0x1_0000) * 2 ^ 16 + l) (m * 0x100) ≡ layout l m 1 h = omega (
      arith,
      bit_or-within 16 (1 + h * 0x1_0000) l (m * 0x100) (omega arith) (omega arith),
      bit_or-below 8 l m (omega arith),
    ) in
    rw (high, low, field, first, second, third) refl

-- For an event of 12 bits and a mask of 8 bits, the configuration that `addEvent` makes is a code
-- from which `parseEvents` makes the event again.
pub code_event-raw_config :
    (id mask : ℕ)
    → id < 0x1000
    → mask < 0x100
    → code_event (raw_config id mask)
      ≡ record { event_id = id; unit_mask = mask; string_event = [] }
code_event-raw_config id mask h k =
    let config = raw_config-layout id mask in
    let event : raw_config id mask / 0x1_0000_0000 % 16 * 0x100 + raw_config id mask % 0x100 ≡ id =
      omega (arith, config) in
    let field : raw_config id mask / 0x100 % 0x100 ≡ mask = omega (arith, config) in
    rw (code_event-layout (raw_config id mask), event, field) refl

-- Of any code that is read, the configuration of its event has the 12 bits of the event and the 8
-- bits of the mask where the code has them, and bit 16, which counts in user mode, set; whatever else the
-- code says is dropped.
raw_config-code_event :
    (code : ℕ)
    → raw_config (code_event code).event_id (code_event code).unit_mask
      ≡ layout (code % 0x100) (code / 0x100 % 0x100) 1 (code / 0x1_0000_0000 % 16)
raw_config-code_event code =
    let event = code_event-layout code in
    omega (
      arith,
      raw_config-layout (code_event code).event_id (code_event code).unit_mask,
      ap (λ e. e.event_id) event,
      ap (λ e. e.unit_mask) event,
    )
