-- ===== src/Buffer/Allocate/Small.antt =====
-- The buffer that `Small_buffer` (src/Small_buffer.cc) makes.
use native.Mathlib.Nat.{pow-le-pow_right, one-le-pow}
use cachetest.Prelude.{
  ℕ, ◌+◌, ◌%◌, ◌^◌, ◌≤◌, ◌<◌, ◌≡◌, refl, ap, arith, inl, inr, eq_cases, true, false, ◌==◌, u64,
  two64, done, exited,
}
use cachetest.Buffer.{Buffer, get_allocated_size}
use cachetest.Buffer.Frames.{round_to_alignment}
use cachetest.Buffer.Frames.Align.{round_to_alignment-le}
use cachetest.Buffer.Allocate.{
  System, new_buffer, at_address, clear, align, initialize, small_buffer, pool_size_4kb,
  unless_failed, error_number,
}

-- Documented behaviour of the system: a page has `2 ^ bits` bytes, at most 32 MB, and what `malloc`
-- gives lies within the address space.
pub record IsSystem (sys : System) (bits : ℕ) : Type 0 where
  pub page : sys.getpagesize ≡ 2 ^ bits
  pub page_le : bits ≤ 25
  pub malloc_room : (n : ℕ) → n < two64 → sys.malloc n + n ≤ two64

-- The memory of a cleared and aligned buffer: the address is a multiple of the page size, less than
-- a page above the start of the allocation, and the bytes up to its end are zero.
record Aligned (b c : Buffer) (bits : ℕ) : Type 0 where
  multiple : c.buffer % 2 ^ bits ≡ 0
  low : b.buffer ≤ c.buffer
  high : c.buffer < b.buffer + 2 ^ bits
  zeros : (x : ℕ) → c.buffer + x < b.buffer + b.pool_size → c.memory x ≡ 0
  same : c ≡ record b { buffer = c.buffer; memory = c.memory }

align-Aligned :
    (b : Buffer) (bits : ℕ)
    → bits ≤ 25
    → b.page_size ≡ 2 ^ bits
    → b.logical_page_size ≡ 2 ^ bits
    → b.buffer + 2 ^ bits ≤ two64
    → Aligned b (align (clear b)) bits
unfolding align clear
align-Aligned b bits few page logical room = elim (eq_cases (b.buffer % b.page_size) 0) [
  | inl multiple ↦
      let test : (b.buffer % b.page_size == 0) ≡ true = ground arith in
      rw test (record {
        multiple = rw (← page, multiple) refl;
        low = omega arith;
        high = omega (arith, one-le-pow bits 2 (omega arith));
        zeros = λ x h. ground arith;
        same = refl;
      })
  | inr other ↦
      let test : (b.buffer % b.page_size == 0) ≡ false = ground arith in
      let (multiple, low, high) = round_to_alignment-le b.buffer bits (omega arith) room in
      rw (test, logical)
        (record {
          multiple = multiple;
          low = low;
          high = high;
          zeros = λ x h. ground (arith, low);
          same = refl;
        })
]

-- A buffer of `size` bytes in an allocation of `pool` bytes at `start`. It begins at a multiple of the page
-- size, and it and at least 32 MB less a page behind it lie in the allocation and are zero.
pub record IsPlaced (bits size start pool : ℕ) (b : Buffer) : Type 0 where
  pub size_is : b.buffer_size ≡ size
  pub pool_is : b.pool_size ≡ pool
  pub plain : b.large ≡ false
  pub first : b.start_address ≡ b.buffer
  pub multiple : b.buffer % 2 ^ bits ≡ 0
  pub low : start ≤ b.buffer
  pub inside : b.buffer ≤ two64
  pub high : (x : ℕ) → x + 2 ^ bits ≤ pool_size_4kb + size → b.buffer + x < start + pool
  pub zeros : (x : ℕ) → x + 2 ^ bits ≤ pool_size_4kb + size → b.memory x ≡ 0

-- The size of the allocation.
abbrev pub pool_for : System → ℕ → ℕ
pool_for sys size = round_to_alignment (u64 (pool_size_4kb + size)) sys.getpagesize

module _ (sys : System) (bits size : ℕ) (lawful : IsSystem sys bits)
    (small : size < 0x8000_0000) where
  abbrev pool : ℕ
  pool = pool_for sys size

  page_le : 2 ^ bits ≤ pool_size_4kb
  page_le = omega (arith, pow-le-pow_right {n = 2} (omega arith) lawful.page_le)

  pool_le : (pool_size_4kb + size ≤ pool) × (pool < pool_size_4kb + size + 2 ^ bits)
  pool_le =
      let exact : u64 (pool_size_4kb + size) ≡ pool_size_4kb + size = omega arith in
      let (multiple, low, high) =
        round_to_alignment-le (pool_size_4kb + size) bits (omega (arith, lawful.page_le))
          (omega (arith, page_le)) in
      rw (exact, lawful.page) (low, high)

  abbrev raw : Buffer
  raw =
      at_address sys (sys.malloc pool)
        (new_buffer sys false size pool_size_4kb sys.getpagesize false)

  raw-Aligned : Aligned raw (align (clear raw)) bits
  unfolding new_buffer
  raw-Aligned =
      align-Aligned raw bits lawful.page_le lawful.page lawful.page
        (omega (arith, lawful.malloc_room pool (omega (arith, pool_le, page_le)), pool_le, page_le))

  -- Without the search for contiguous frames the constructor ends the program with status 4 if there is no
  -- memory. Otherwise it makes a buffer that lies in the allocation, on a page boundary, and is zero.
  pub small_buffer-IsPlaced :
      (sys.malloc (pool_for sys size) ≡ 0 → small_buffer sys size false ≡ exited 4)
      × (0 < sys.malloc (pool_for sys size)
          → (b : Buffer) × (small_buffer sys size false ≡ done b)
            × IsPlaced bits size (sys.malloc (pool_for sys size)) (pool_for sys size) b)
  unfolding small_buffer initialize new_buffer get_allocated_size unless_failed error_number
  small_buffer-IsPlaced = (refused, given)
    where
      refused : sys.malloc (pool_for sys size) ≡ 0 → small_buffer sys size false ≡ exited 4
      refused e = rw e refl

      given :
          0 < sys.malloc (pool_for sys size)
          → (b : Buffer) × (small_buffer sys size false ≡ done b)
            × IsPlaced bits size (sys.malloc (pool_for sys size)) (pool_for sys size) b
      given pos =
          let test : (sys.malloc (pool_for sys size) == 0) ≡ false = ground arith in
          let a = raw-Aligned in
          (
            record (align (clear raw)) { start_address = (align (clear raw)).buffer },
            rw test refl,
            record {
              size_is = ap (λ z. z.buffer_size) a.same;
              pool_is = ap (λ z. z.pool_size) a.same;
              plain = ap (λ z. z.large) a.same;
              first = refl;
              multiple = a.multiple;
              low = a.low;
              inside = omega (
                arith,
                a.high,
                pool_le,
                page_le,
                lawful.malloc_room pool (omega (arith, pool_le, page_le)),
              );
              high = λ x h. omega (arith, a.high, pool_le);
              zeros = λ x h. a.zeros x (omega (arith, a.high, pool_le));
            },
          )
