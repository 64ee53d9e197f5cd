-- ===== src/Buffer/Frames/Lookup.antt =====
-- What the map of `Populate_frame_to_page_map` (src/Buffer.cc) says of a frame.
use cachetest.Prelude.{
  ℕ, ◌+◌, ◌*◌, ◌≡◌, ◌≢◌, refl, sym, ◌∙◌, inl, inr, eq_cases, arith, Bool, true, false, not, ◌&&◌,
  ◌||◌, List, [], ◌∷◌, All, Option, some, none, ◌==◌, ltb, Bool-cases, if◌then◌else◌, u64, done,
  ==_self, ==_of_ne,
}
use cachetest.Buffer.{Buffer, is_large_buffer}
use cachetest.Buffer.Frames.{FrameMap, map_set, PageInfo, page, failure, populate}

-- The kernel has told of the page.
pub data IsRead : PageInfo → Type 0 where
  read : {pfn : ℕ} {is_head : Bool} → IsRead (page pfn is_head)

-- A map as a partial function.
abbrev pub map_get : ℕ → FrameMap → Option ℕ
map_get k [] = none
map_get k ((k', v') ∷ es) = if k == k' then some v' else map_get k es

abbrev pub or_else : Option ℕ → Option ℕ → Option ℕ
or_else none o = o
or_else (some a) o = some a

-- Setting a key is an update of the function.
map_set-same : (k v : ℕ) (es : FrameMap) → map_get k (map_set k v es) ≡ some v
unfolding map_set
map_set-same k v [] = rw (==_self k) refl
map_set-same k v ((k', v') ∷ es) = elim (Bool-cases (k == k')) [
  | inl same ↦ rw (same, ==_self k) refl
  | inr other ↦ elim (Bool-cases (ltb k k')) [
    | inl lt ↦ rw (other, lt, ==_self k) refl
    | inr ge ↦ rw (other, ge, other) (map_set-same k v es)
  ]
]

map_set-other : (k v n : ℕ) (es : FrameMap) → n ≢ k → map_get n (map_set k v es) ≡ map_get n es
unfolding map_set
map_set-other k v n [] ne = rw (==_of_ne n k ne) refl
map_set-other k v n ((k', v') ∷ es) ne = elim (Bool-cases (k == k')) [
  | inl same ↦
      let key : k ≡ k' = ground arith in
      let off : (n == k') ≡ false = ==_of_ne n k' (λ e. ne (e ∙ sym key)) in
      rw (same, ==_of_ne n k ne, off) refl
  | inr other ↦ elim (Bool-cases (ltb k k')) [
    | inl lt ↦ rw (other, lt, ==_of_ne n k ne) refl
    | inr ge ↦ rw (other, ge, map_set-other k v n es ne) refl
  ]
]

-- The address of page `i` of the buffer.
abbrev pub page_address : Buffer → ℕ → ℕ
page_address b i = u64 (b.buffer + i * b.page_size)

-- The address of the last page that the kernel tells of as being in frame `pfn`. Of a large buffer
-- the heads of compound pages count only. The pages are those from page `i` on.
abbrev pub last_page : Buffer → List PageInfo → (i pfn : ℕ) → Option ℕ
last_page b [] i pfn = none
last_page b (failure ∷ pages) i pfn = last_page b pages (i + 1) pfn
last_page b (page frame is_head ∷ pages) i pfn =
    or_else (last_page b pages (i + 1) pfn) (
      if (not (is_large_buffer b) || is_head) && frame == pfn
      then some (page_address b i)
      else none)

or_else_assoc : (a b c : Option ℕ) → or_else (or_else a b) c ≡ or_else a (or_else b c)
or_else_assoc none b c = refl
or_else_assoc (some x) b c = refl

counts-skip : (large head : Bool) → (large && not head) ≡ true → (not large || head) ≡ false
counts-skip true false e = refl
counts-skip true true e = absurd (cc e)
counts-skip false head e = absurd (cc e)

counts-keep : (large head : Bool) → (large && not head) ≡ false → (not large || head) ≡ true
counts-keep true true e = refl
counts-keep true false e = absurd (cc e)
counts-keep false head e = refl

-- A page that does not count, and one that does.
or_else-none : (a b : Option ℕ) → or_else a b ≡ or_else (or_else a none) b
or_else-none none b = refl
or_else-none (some x) b = refl

or_else-set :
    (a : Option ℕ) (frame v pfn : ℕ) (frames : FrameMap)
    → or_else a (map_get pfn (map_set frame v frames))
      ≡ or_else (or_else a (if frame == pfn then some v else none)) (map_get pfn frames)
or_else-set a frame v pfn frames = elim (eq_cases frame pfn) [
  | inl same ↦
      rw (same, ==_self pfn, map_set-same pfn v frames)
        (sym (or_else_assoc a (some v) (map_get pfn frames)))
  | inr other ↦
      rw (==_of_ne frame pfn other, map_set-other frame v pfn frames (λ e. other (sym e)))
        (or_else-none a (map_get pfn frames))
]

-- If no read fails, the loop refines the search for the last page: the map that it ends with gives for
-- each frame the address of the last page in that frame, and what it gave before if there is no such page.
pub populate-last_page :
    (b : Buffer) (pages : List PageInfo) (i : ℕ) (frames : FrameMap)
    → All IsRead pages
    → (frames' : FrameMap) × (populate b pages i frames ≡ done frames')
      × ((pfn : ℕ) → map_get pfn frames' ≡ or_else (last_page b pages i pfn) (map_get pfn frames))
unfolding populate
populate-last_page b [] i frames reads = (frames, refl, λ pfn. refl)
populate-last_page b (failure ∷ pages) i frames reads = elim reads.0 [ ]
populate-last_page b (page frame is_head ∷ pages) i frames reads =
    elim (Bool-cases (is_large_buffer b && not is_head)) [
      | inl skip ↦
          let (frames', runs, says) = populate-last_page b pages (i + 1) frames reads.1 in
          (
            frames',
            rw skip runs,
            λ pfn.
                says pfn
                ∙ rw (counts-skip (is_large_buffer b) is_head skip)
                    (or_else-none (last_page b pages (i + 1) pfn) (map_get pfn frames)),
          )
      | inr keep ↦
          let (frames', runs, says) =
            populate-last_page b pages (i + 1) (map_set frame (page_address b i) frames) reads.1 in
          (
            frames',
            rw keep runs,
            λ pfn.
                says pfn
                ∙ rw (counts-keep (is_large_buffer b) is_head keep) (
                    or_else-set (last_page b pages (i + 1) pfn) frame (page_address b i) pfn
                      frames),
          )
    ]
