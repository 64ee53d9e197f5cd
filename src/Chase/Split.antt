-- ===== src/Chase/Split.antt =====
-- `splitPointerChasingPath` (src/cachetest.cc) makes a cycle of each subpath.
use cachetest.Prelude.{
  ℕ, ◌+◌, ◌*◌, ◌≤◌, ◌<◌, ◌≡◌, ◌≢◌, ◌⊎◌, inl, inr, arith, List, [], ◌∷◌, length, All-last, last,
  two32, order_cases, eq_cases,
}
use cachetest.Memory.{Memory, store32}
use cachetest.Memory.Words.{store32-other}
use cachetest.Memory.Route.{word, Route-redirect}
use cachetest.Distribution.Subpath.{line_size}
use cachetest.Distribution.Subpath.Distribute.Layer.{words_per_line}
use cachetest.Distribution.Subpath.Distribute.Ring.{chunk_at, chunk_room, Closed, Closed-frame}
use cachetest.Chase.{SubpathInfo, split_pointer_chasing_path}
use cachetest.Chase.Measure.{IsInfo, InfosFrom}

-- The cycle of a chunk: its path leads back to its own first word.
abbrev pub itself : ℕ → ℕ
itself i = i

-- A byte of chunk `j` is none of a word of another chunk `i`.
pub chunk_apart :
    (at per i j k x : ℕ)
    → j ≢ i
    → k < words_per_line * per
    → chunk_at at per j ≤ x
    → x < chunk_at at per j + line_size * per
    → (x < word (chunk_at at per i) k) ⊎ (word (chunk_at at per i) k + 4 ≤ x)
chunk_apart at per i j k x ne h lo hi = elim (order_cases j i) [
  | inl before ↦ inl (omega (arith, chunk_room j i per before))
  | inr rest ↦ inr (omega (arith, chunk_room i j per (omega arith)))
]

module _ (Shape : List ℕ → Type 0) (at per : ℕ) where
  -- A write to a word of another chunk.
  abbrev pub Closed-store32 :
      (next : ℕ → ℕ) (m : Memory) (i j k v : ℕ)
      → j ≢ i
      → k < words_per_line * per
      → Closed Shape at per next m j
      → Closed Shape at per next (store32 m (word (chunk_at at per i) k) v) j
  Closed-store32 next m i j k v ne h c =
      Closed-frame Shape at per next m _ j
        (λ x lo hi.
          store32-other m (word (chunk_at at per i) k) v x (chunk_apart at per i j k x ne h lo hi))
        c

  -- Infos of later chunks stay true.
  InfosFrom-store32 :
      (next : ℕ → ℕ) (m : Memory) (i j k v : ℕ) (infos : List SubpathInfo)
      → i < j
      → k < words_per_line * per
      → InfosFrom Shape at per next m j infos
      → InfosFrom Shape at per next (store32 m (word (chunk_at at per i) k) v) j infos
  InfosFrom-store32 next m i j k v [] h lt known = tt
  InfosFrom-store32 next m i j k v (info ∷ infos) h lt known = (
    record {
      closed = Closed-store32 next m i j k v (omega arith) lt known.0.closed;
      start = known.0.start;
      end = known.0.end;
      count = known.0.count;
    },
    InfosFrom-store32 next m i (j + 1) k v infos (omega arith) lt known.1,
  )

  -- The subpath of an info, redirected to its own start.
  Closed-redirect :
      (next : ℕ → ℕ) (m : Memory) (i : ℕ) (info : SubpathInfo)
      → chunk_at at per i < two32
      → IsInfo Shape at per next m i info
      → Closed Shape at per itself (store32 m info.end_idx info.start_idx) i
  Closed-redirect next m i info small known =
      let c = known.closed in
      record {
        steps = c.steps;
        shape = c.shape;
        distinct = c.distinct;
        bound = c.bound;
        route =
            rw (known.end, known.start)
              (Route-redirect m (chunk_at at per i) 0 c.steps _ _ small c.distinct c.route);
      }

  split-Closed :
      (next : ℕ → ℕ) (m : Memory) (i subpaths : ℕ) (infos : List SubpathInfo)
      → i + length infos ≡ subpaths
      → 0 < per
      → chunk_at at per subpaths ≤ two32
      → InfosFrom Shape at per next m i infos
      → ((j : ℕ) → j < i → Closed Shape at per itself m j)
      → (j : ℕ) → j < subpaths
      → Closed Shape at per itself (split_pointer_chasing_path infos m) j
  unfolding split_pointer_chasing_path
  split-Closed next m i subpaths [] e pos room known closed j h = closed j (omega arith)
  split-Closed next m i subpaths (info ∷ infos) e pos room known closed j h =
      let first = known.0 in
      let fits = chunk_room i subpaths per (omega arith) in
      let k = last 0 first.closed.steps in
      let k_lt : k < words_per_line * per =
        All-last (λ x. x < words_per_line * per) 0 first.closed.steps first.closed.bound in
      let m1 = store32 m info.end_idx info.start_idx in
      split-Closed next m1 (i + 1) subpaths infos (omega arith) pos room
        (rw first.end
          (InfosFrom-store32 next m i (i + 1) k info.start_idx infos (omega arith) k_lt known.1))
        (λ j h. elim (eq_cases j i) [
          | inl here ↦ rw here (Closed-redirect next m i info (omega arith) first)
          | inr before ↦
              rw first.end
                (Closed-store32 itself m i j k info.start_idx before k_lt (closed j (omega arith)))
        ])
        j h

  -- On infos of all subpaths, as `collectPointerChasingSubpathInfo` finds them, the call turns every
  -- subpath into a cycle through the same words.
  pub split_lem :
      (next : ℕ → ℕ) (m : Memory) (infos : List SubpathInfo)
      → 0 < per
      → chunk_at at per (length infos) ≤ two32
      → InfosFrom Shape at per next m 0 infos
      → (j : ℕ) → j < length infos
      → Closed Shape at per itself (split_pointer_chasing_path infos m) j
  split_lem next m infos pos room known j h =
      split-Closed next m 0 (length infos) infos (omega arith) pos room known (λ i lt. elim lt [ ])
        j h
