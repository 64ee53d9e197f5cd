-- ===== src/Distribution/Subpath/Uniform.antt =====
-- `uniformSubpath` (src/Distribution.cc) lays one pointer chain through all datalines of its chunk.
use mathlib.Core.List.{Permᴰ, append_assoc}
use cachetest.Prelude.{
  ℕ, suc, ◌+◌, ◌*◌, ◌≤◌, ◌<◌, ◌≡◌, ◌∙◌, refl, ◌⊎◌, arith, two32, List, [], ◌∷◌, ◌++◌, map, length,
  All-map, All_mono, All-last, last, range, perm-range-lt, perm-range-Distinct, perm-range-length,
  perm-cons-map-suc, done, u32, length-map, subst, pred64, u64, ◌==◌, true,
}
use cachetest.Memory.{Memory}
use cachetest.Memory.Chain.{Chain}
use cachetest.Buffer.{buffer_offset}
use cachetest.Distribution.{Generator, IsLawful, Distribution, with_memory}
use cachetest.Distribution.Subpath.{path_index, line_size, uniform_subpath, Walk, Chunk, link}
use cachetest.Distribution.Subpath.Link.{IsFit, IsReady, Linked, link_lem}
use cachetest.Distribution.Subpath.Prepare.{
  prepared, prepared-path, prepared-Indices, prepared-other,
}

module _ (c : Chunk) (k : ℕ) (order : List ℕ) (m : Memory) (seq : List ℕ) (n : ℕ) where
  -- The variables when the loop starts.
  abbrev start : Walk
  start = record { memory = prepared k c.base order m; prev = 0; sequence = seq; entries = n }

  pub start-IsReady :
      c.size ≡ suc k → suc k < two32 → Permᴰ order (range k) → IsReady c 0 start (map suc order)
  start-IsReady size small p =
      let q = perm-cons-map-suc k p in
      let lt = perm-range-lt (suc k) q in
      record {
        indices = prepared-Indices k c.base order m p small;
        free = All_mono (λ l h. prepared-path k c.base order m p l h) (0 ∷ map suc order) lt;
        range =
            All-map (λ x. (0 < x) × (x < c.size)) suc order
              (All_mono (λ x h. ground arith) order (perm-range-lt k p));
        distinct = perm-range-Distinct (suc k) q;
        prev_lt = omega arith;
        rounds = omega (arith, perm-range-length k p, length-map suc order);
      }

-- What a call of `uniformSubpath` for `size` datalines from dataline `offset` on does.
pub record Laid (d : Distribution) (offset size : ℕ) (visits : List ℕ) (e : ℕ) (d' : Distribution)
    : Type 0 where
  pub chain :
      Chain d'.buffer.memory
        (buffer_offset d.buffer + line_size * offset)
        (map (path_index (buffer_offset d.buffer + line_size * offset)) visits)
  pub end : e ≡ path_index (buffer_offset d.buffer + line_size * offset) (last 0 visits)
  pub all : Permᴰ (0 ∷ visits) (range size)
  pub outside :
      (x : ℕ)
      → (x < buffer_offset d.buffer + line_size * offset)
        ⊎ (buffer_offset d.buffer + line_size * (offset + size) + 3 ≤ x)
      → d'.buffer.memory x ≡ d.buffer.memory x
  pub sequence : d'.sequence ≡ d.sequence ++ map (λ l. u32 (offset + l)) (0 ∷ visits)
  pub entries : d'.entries ≡ u32 (d.entries + size)
  -- Nothing else of the object changes.
  pub frame :
      d' ≡ record (with_memory d d'.buffer.memory) { sequence = d'.sequence; entries = d'.entries }

module _ (g : Generator) (lawful : IsLawful g) where
  module _ (d : Distribution) (offset k : ℕ) (s : g.State) (cl : d.cacheline ≡ line_size) where
    abbrev at : ℕ
    at = buffer_offset d.buffer

    abbrev chunk : Chunk
    chunk = record {
      base = at + line_size * offset;
      offset = offset;
      size = suc k;
      cacheline = d.cacheline;
    }

    abbrev first : Walk
    first =
        start chunk k (g.shuffle_order k s).0 d.buffer.memory (d.sequence ++ u32 (offset + 0) ∷ [])
          (u32 (d.entries + 1))

    uniform_subpath-link :
        at + line_size * (offset + suc k) ≤ two32
        → (w' : Walk) → link k chunk 0 first ≡ done w'
        → uniform_subpath g d offset (suc k) s
          ≡ done (
            u32 (at + line_size * offset + w'.prev * d.cacheline),
            record (with_memory d w'.memory) { sequence = w'.sequence; entries = w'.entries },
            (g.shuffle_order k s).1,
          )
    unfolding uniform_subpath prepared
    uniform_subpath-link room w' e = rw (filled, rounds, bytes, test, e)
      where
        filled : u64 (suc k * d.cacheline) ≡ line_size * suc k
        filled = rw cl (omega arith)

        rounds : pred64 (suc k) ≡ k
        rounds = omega arith

        bytes : u32 (offset * d.cacheline) ≡ line_size * offset
        bytes = rw cl (omega arith)

        test : (64 == d.cacheline) ≡ true
        test = rw cl

    abbrev visits : List ℕ
    visits = map suc (g.shuffle_order k s).0

    abbrev result : Walk → Distribution
    result w' = record (with_memory d w'.memory) { sequence = w'.sequence; entries = w'.entries }

    Linked-Laid :
        at + line_size * (offset + suc k) ≤ two32
        → (w' : Walk) → Linked chunk 0 first visits w'
        → Laid d offset
            (suc k)
            visits
            (u32 (at + line_size * offset + w'.prev * d.cacheline))
            (result w')
    Linked-Laid room w' t =
        let p = lawful.shuffle_order-perm k s in
        let lt =
          All-last (λ l. l < suc k) 0 visits (perm-range-lt (suc k) (perm-cons-map-suc k p)) in
        let from : path_index chunk.base 0 ≡ chunk.base = omega arith in
        record {
          chain = subst (λ b. Chain w'.memory b (map (path_index chunk.base) visits)) from t.chain;
          end = rw (cl, t.end) (omega arith);
          all = perm-cons-map-suc k p;
          outside = λ x h.
              t.outside x (ground arith)
              ∙ prepared-other k chunk.base (g.shuffle_order k s).0 d.buffer.memory p x
                  (ground arith);
          sequence = t.visited ∙ append_assoc d.sequence (u32 (offset + 0) ∷ []) _;
          entries =
              t.count (omega arith)
              ∙ omega (arith, perm-range-length k p, length-map suc (g.shuffle_order k s).0);
          frame = refl;
        }

    -- On a chunk of `suc k` datalines of 64 bytes that lies within the first 2^32 bytes, the call
    -- returns, and has laid one chain through all of the chunk's datalines.
    pub uniform_subpath-suc :
        at + line_size * (offset + suc k) ≤ two32
        → (e : ℕ) × (d' : Distribution) × (uniform_subpath g d offset (suc k) s
            ≡ done (e, d', (g.shuffle_order k s).1))
          × Laid d offset (suc k) visits e d'
    uniform_subpath-suc room =
        let p = lawful.shuffle_order-perm k s in
        let fit : IsFit chunk = record { lines = cl; room = omega arith } in
        let ready = start-IsReady chunk k (g.shuffle_order k s).0 _ _ _ refl (omega arith) p in
        let (w', t) = link_lem chunk 0 first visits fit ready in
        let count : length visits ≡ k =
          length-map suc (g.shuffle_order k s).0 ∙ perm-range-length k p in
        let runs = subst (λ j. link j chunk 0 first ≡ done w') count t.runs in
        (_, result w', uniform_subpath-link room w' runs, Linked-Laid room w' t)
