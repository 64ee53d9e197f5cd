-- ===== src/Tests/Frames.antt =====
-- The search for contiguous frames.
use cachetest.Prelude.{
  ◌≤◌, ◌<◌, ◌*◌, ◌+◌, ℕ, ◌≡◌, refl, arith, Bool, true, false, List, [], ◌∷◌, done,
}
use cachetest.Buffer.{Buffer, is_large_buffer}
use cachetest.Buffer.Frames.{FrameMap, scan, find_contiguous_range, map_set, populate, page}
use cachetest.Buffer.Frames.Runs.{Range, find_contiguous_range-Range}
use cachetest.Buffer.Frames.Lookup.{read, map_get, or_else, last_page, populate-last_page}
use cachetest.Tests.Sample.{four_lines}

abbrev two_pages : Buffer
two_pages = record four_lines { buffer_size = 8192 }

find_contiguous_range-Range_example :
    (needed : ℕ) × (b' : Buffer) × (ok : Bool) × (8192 ≤ needed * 4096)
    × (needed * 4096 < 8192 + 4096)
    × (find_contiguous_range two_pages ((5, 4096) ∷ (6, 8192) ∷ []) ≡ done (b', ok))
    × (ok ≡ true → Range needed ((5, 4096) ∷ (6, 8192) ∷ []) b'.buffer_slabs)
    × ((slabs : List ℕ) → Range needed ((5, 4096) ∷ (6, 8192) ∷ []) slabs → ok ≡ true)
find_contiguous_range-Range_example =
    find_contiguous_range-Range two_pages 12 5 4096 ((6, 8192) ∷ []) refl (omega arith)
      (omega arith) (omega arith) refl (λ e. omega arith)

-- Frame 1, where it is the first, is taken for the one after it as well.
frame_one_run : scan ((1, 4096) ∷ (5, 8192) ∷ []) 1 1 0 (4096 ∷ []) ≡ (4096 ∷ 4096 ∷ [], true)
unfolding scan
frame_one_run = refl

populate_run :
    populate four_lines (page 6 false ∷ page 5 true ∷ []) 0 [] ≡ done ((5, 8192) ∷ (6, 4096) ∷ [])
unfolding populate map_set is_large_buffer
populate_run = refl

populate-last_page_example :
    (frames' : FrameMap) × (populate four_lines (page 6 false ∷ page 5 false ∷ []) 0 []
      ≡ done frames')
    × ((pfn : ℕ)
        → map_get pfn frames'
          ≡ or_else
              (last_page four_lines (page 6 false ∷ page 5 false ∷ []) 0 pfn)
              (map_get pfn []))
populate-last_page_example =
    populate-last_page four_lines (page 6 false ∷ page 5 false ∷ []) 0 [] (read, (read, tt))
