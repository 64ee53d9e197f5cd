-- ===== src/Memory.antt =====
-- The bytes of the buffer, by their offset from `Get_buffer_pointer()` (src/Buffer.cc), and the
-- accesses `*(element_size_t*)(buffer->Get_buffer_pointer() + a)` of src/Distribution.cc and
-- src/cachetest.cc. A word is little-endian, as on the x86 machines that the program targets.
pub mod Words
pub mod Chain
pub mod Route
use cachetest.Prelude.{ℕ, ◌+◌, ◌*◌, ◌/◌, ◌%◌, ◌==◌, if◌then◌else◌}

abbrev pub Memory : Type 0
Memory = ℕ → ℕ

-- Reads the `unsigned int` at byte offset `a`.
unfoldable pub load32 : Memory → ℕ → ℕ
load32 m a = m a + 256 * m (a + 1) + 65536 * m (a + 2) + 16777216 * m (a + 3)

-- Writes the `unsigned int` `v` at byte offset `a`.
unfoldable pub store32 : Memory → ℕ → ℕ → Memory
store32 m a v x =
    if x == a
    then v % 256
    else if x == a + 1
    then v / 256 % 256
    else if x == a + 2
    then v / 65536 % 256
    else if x == a + 3
    then v / 16777216 % 256
    else m x
