-- ===== src/Buffer/Allocate.antt =====
-- How a buffer is made (src/Buffer.cc, src/Small_buffer.cc, src/Large_buffer.cc): the constructors,
-- `Initialize`, and the search that it starts.

pub mod Number
pub mod Small
use cachetest.Prelude.{
  ℕ, zero, suc, ◌+◌, ◌-◌, ◌*◌, ◌/◌, ◌%◌, ◌^◌, Bool, true, false, map, range, ltb, ◌==◌,
  if◌then◌else◌, u64, Option, some, none, [], Outcome, done, crashed, exited, out_of_fuel, ◌>>=◌,
}
use cachetest.Buffer.{Buffer, get_allocated_size}
use cachetest.Buffer.Frames.{
  round_to_alignment, FrameMap, PageInfo, populate, find_contiguous_range,
}

-- `Buffer::Error_code`
pub data ErrorCode : Type 0 where
  ok : ErrorCode
  failed_get_memory_from_os : ErrorCode
  failed_allocate_buffer : ErrorCode
  failed_contiguous_lookup : ErrorCode
  buffer_not_allocated : ErrorCode
  failed_to_open_pagemap : ErrorCode
  failed_to_open_kpageflags : ErrorCode
  failed_to_seek_pagemap : ErrorCode
  failed_to_seek_kpageflags : ErrorCode
  not_implemented : ErrorCode
  no_contiguous_range_found : ErrorCode

-- The number of an error, which the process exits with.
unfoldable pub error_number : ErrorCode → ℕ
error_number ok = 0
error_number failed_get_memory_from_os = 1
error_number failed_allocate_buffer = 2
error_number failed_contiguous_lookup = 3
error_number buffer_not_allocated = 4
error_number failed_to_open_pagemap = 5
error_number failed_to_open_kpageflags = 6
error_number failed_to_seek_pagemap = 7
error_number failed_to_seek_kpageflags = 8
error_number not_implemented = 9
error_number no_contiguous_range_found = 10

-- What the operating system gives: the result of `getpagesize`, of `malloc` (0 for no memory) and of
-- `mmap` with huge pages, the byte at an address before the program writes it, whether `pagemap` can
-- be sought to an offset, and what the two files say of the page whose entry is at an offset.
-- `unset` is what the caller of a function finds that ends with no `return`.
pub record System : Type 0 where
  pub getpagesize : ℕ
  pub malloc : ℕ → ℕ
  pub mmap : ℕ → Option ℕ
  pub contents : ℕ → ℕ
  pub can_seek : ℕ → Bool
  pub page_info : ℕ → PageInfo
  pub unset : ErrorCode

-- `Page_number`. It does not return for 0.
unfoldable pub page_number : (fuel address offset : ℕ) → Outcome ℕ
page_number zero address offset = out_of_fuel
page_number (suc fuel) address offset =
    let rest = page_number fuel (address / 2) (offset + 1) in
    if address == 1 then done offset else rest

abbrev pub pool_size_4kb : ℕ
pool_size_4kb = 0x200_0000

abbrev pub page_1gb : ℕ
page_1gb = 0x4000_0000

-- `Buffer::Buffer`. The two addresses are not set yet.
unfoldable pub new_buffer :
    System
    → (large : Bool) (buffer_size pool_size logical_page_size : ℕ) (contiguous : Bool) → Buffer
new_buffer sys large buffer_size pool_size logical_page_size contiguous = record {
  buffer_size = buffer_size;
  contiguous = contiguous;
  logical_page_size = logical_page_size;
  page_size = sys.getpagesize;
  buffer = 0;
  start_address = 0;
  buffer_slabs = [];
  pool_size = round_to_alignment (u64 (pool_size + buffer_size)) logical_page_size;
  large = large;
  memory = sys.contents;
}

-- The buffer starts at `address`. Its bytes are named by their offset from there.
abbrev pub at_address : System → ℕ → Buffer → Buffer
at_address sys address b = record b { buffer = address; memory = λ x. sys.contents (address + x) }

-- `memset` of the whole allocation.
unfoldable pub clear : Buffer → Buffer
clear b = record b { memory = λ x. if ltb x b.pool_size then 0 else b.memory x }

-- `Round_to_alignment` of `M_Buffer`, if it is no multiple of the page size.
unfoldable pub align : Buffer → Buffer
align b =
    let address = round_to_alignment b.buffer b.logical_page_size in
    if b.buffer % b.page_size == 0
    then b
    else record b { buffer = address; memory = λ x. b.memory (x + address - b.buffer) }

-- `Populate_frame_to_page_map`. The status of `Open_proc_files` is not looked at, and where the loop
-- ends there is no `return`.
unfoldable pub populate_frame_to_page_map : System → Buffer → Outcome (FrameMap × ErrorCode)
populate_frame_to_page_map sys b =
    if b.page_size == 0
    then crashed
    else (page_number 65 b.page_size 0 >>= λ bits.
        let offset = u64 (b.buffer / 2 ^ bits * 8) in
        let entries =
          map (λ i. sys.page_info (offset + 8 * i)) (range (get_allocated_size b / b.page_size)) in
        if sys.can_seek offset
        then (populate b entries 0 [] >>= λ frames. done (frames, sys.unset))
        else done ([], failed_to_seek_pagemap))

-- `Find_contiguous_range`, with the map that it populates.
unfoldable pub search_contiguous : System → Buffer → Outcome (Buffer × ErrorCode)
search_contiguous sys b = populate_frame_to_page_map sys b >>= λ found. with_frames found.0 found.1
  where
    with_frames : FrameMap → ErrorCode → Outcome (Buffer × ErrorCode)
    with_frames frames ok = find_contiguous_range b frames >>= λ r.
        done (r.0, if r.1 then ok else no_contiguous_range_found)
    with_frames frames status = done (b, status)

-- `Initialize`
unfoldable pub initialize : System → Buffer → Outcome (Buffer × ErrorCode)
initialize sys b =
    if b.buffer == 0
    then done (b, buffer_not_allocated)
    else if b.contiguous
    then (search_contiguous sys (align (clear b)) >>= λ r. after r.0 r.1)
    else after (align (clear b)) ok
  where
    after : Buffer → ErrorCode → Outcome (Buffer × ErrorCode)
    after c ok = done (record c { start_address = c.buffer }, ok)
    after c status = done (c, failed_contiguous_lookup)

-- What a constructor does with the status of `Initialize`.
unfoldable pub unless_failed : Buffer × ErrorCode → Outcome Buffer
unless_failed (b, ok) = done b
unless_failed (b, status) = exited (error_number status)

-- `Small_buffer::Small_buffer` and its `Allocate_memory`, whose status is not looked at.
unfoldable pub small_buffer : System → (buffer_size : ℕ) (contiguous : Bool) → Outcome Buffer
small_buffer sys buffer_size contiguous =
    let b = new_buffer sys false buffer_size pool_size_4kb sys.getpagesize contiguous in
    initialize sys (at_address sys (sys.malloc (get_allocated_size b)) b) >>= unless_failed

-- `Large_buffer::Large_buffer` and its `Allocate_memory`.
unfoldable pub large_buffer : System → (buffer_size : ℕ) (contiguous : Bool) → Outcome Buffer
large_buffer sys buffer_size contiguous =
    let b = new_buffer sys true buffer_size 0 page_1gb contiguous in
    allocated b (sys.mmap (get_allocated_size b))
  where
    allocated : Buffer → Option ℕ → Outcome Buffer
    allocated b none = exited (error_number failed_get_memory_from_os)
    allocated b (some address) = initialize sys (at_address sys address b) >>= unless_failed
