-- ===== src/Buffer.antt =====
-- The buffer of the experiment (src/include/Buffer.hpp, src/Buffer.cc): its state and accessors.
pub mod Frames
pub mod Allocate
use cachetest.Prelude.{ℕ, ◌+◌, ◌-◌, Bool, List, u32, u64, two64}
use cachetest.Memory.{Memory}

-- The fields of `Buffer`, the class of the object (`large`), and the bytes that it owns, by their
-- offset from `M_Buffer`.
pub record Buffer : Type 0 where
  pub buffer_size : ℕ
  pub contiguous : Bool
  pub logical_page_size : ℕ
  pub page_size : ℕ
  pub buffer : ℕ
  pub start_address : ℕ
  pub buffer_slabs : List ℕ
  pub pool_size : ℕ
  pub large : Bool
  pub memory : Memory

unfoldable pub get_size : Buffer → ℕ
get_size b = b.buffer_size

unfoldable pub get_allocated_size : Buffer → ℕ
get_allocated_size b = b.pool_size

unfoldable pub get_buffer_pointer : Buffer → ℕ
get_buffer_pointer b = b.buffer

unfoldable pub get_start_address : Buffer → ℕ
get_start_address b = b.start_address

unfoldable pub set_buffer_offset : ℕ → Buffer → Buffer
set_buffer_offset offset b = record b { start_address = u64 (b.start_address + offset) }

-- Virtual: the answer is the class's.
unfoldable pub is_large_buffer : Buffer → Bool
is_large_buffer b = b.large

unfoldable pub get_slabs : Buffer → List ℕ
get_slabs b = b.buffer_slabs

-- `Get_start_address() - Get_buffer_pointer()` as the `element_size_t` that the callers store it in.
unfoldable pub buffer_offset : Buffer → ℕ
buffer_offset b = u32 (b.start_address + two64 - b.buffer)
