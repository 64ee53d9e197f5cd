-- ===== src/Buffer/Frames.antt =====
-- The search for pages whose frames are contiguous (src/Buffer.cc): `Populate_frame_to_page_map`,
-- `Find_contiguous_range`.

pub mod Runs
pub mod Align
pub mod Lookup
use Prim.Native.Nat.{bit_and}
use cachetest.Prelude.{
  ℕ, zero, suc, ◌+◌, ◌-◌, ◌*◌, ◌/◌, Bool, true, false, not, ◌&&◌, List, [], ◌∷◌, ◌++◌, ltb, ◌==◌,
  if◌then◌else◌, u64, two64, pred64, Outcome, done, crashed, exited, ◌>>=◌, ◌>>◌,
}
use cachetest.Buffer.{Buffer, get_allocated_size, is_large_buffer}

-- `Round_to_alignment`
unfoldable pub round_to_alignment : (address alignment : ℕ) → ℕ
round_to_alignment address alignment =
    bit_and (u64 (address + pred64 alignment)) (two64 - 1 - pred64 alignment)

-- `std::map`: an entry is put in its place by its key, or replaced.
abbrev pub FrameMap : Type 0
FrameMap = List (ℕ × ℕ)

unfoldable pub map_set : ℕ → ℕ → FrameMap → FrameMap
map_set k v [] = (k, v) ∷ []
map_set k v ((k', v') ∷ es) =
    let rest = map_set k v es in
    if k == k' then (k, v) ∷ es else if ltb k k' then (k, v) ∷ (k', v') ∷ es else (k', v') ∷ rest

-- What the kernel says of one page: its frame, and whether it is the head of a compound page. A
-- read or seek that fails ends the program.
pub data PageInfo : Type 0 where
  page : (pfn : ℕ) (is_head : Bool) → PageInfo
  failure : PageInfo

-- The loop of `Populate_frame_to_page_map`, from page `i` on.
unfoldable pub populate : Buffer → List PageInfo → ℕ → FrameMap → Outcome FrameMap
populate b [] i frames = done frames
populate b (failure ∷ pages) i frames = exited 1
populate b (page pfn is_head ∷ pages) i frames =
    let keep = populate b pages (i + 1) (map_set pfn (u64 (b.buffer + i * b.page_size)) frames) in
    let skip = populate b pages (i + 1) frames in
    if is_large_buffer b && not is_head then skip else keep

-- The loop of `Find_contiguous_range`: the slabs, and whether they suffice.
unfoldable pub scan : FrameMap → (needed required last : ℕ) → List ℕ → List ℕ × Bool
scan [] needed required last slabs = (slabs, required == 0)
scan ((pfn, vpn) ∷ es) needed required last slabs =
    let next = scan es needed (required - 1) pfn (slabs ++ vpn ∷ []) in
    let again = scan es needed needed pfn (vpn ∷ []) in
    if required == 0 then (slabs, true) else if pfn == u64 (last + 1) then next else again

-- The pages that are needed after the first.
unfoldable pub required_pages : Buffer → ℕ
required_pages b =
    pred64 (round_to_alignment b.buffer_size b.logical_page_size / b.logical_page_size)

-- `Find_contiguous_range` on a map that has been populated. It reads the first entry, so an empty
-- map faults.
unfoldable pub find_contiguous_range : Buffer → FrameMap → Outcome (Buffer × Bool)
find_contiguous_range b [] = crashed
find_contiguous_range b ((pfn, vpn) ∷ es) =
    let (slabs, ok) =
      scan ((pfn, vpn) ∷ es) (required_pages b) (required_pages b) 0 (b.buffer_slabs ++ vpn ∷ []) in
    done (record b { buffer_slabs = slabs }, ok)
