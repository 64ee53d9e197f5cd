-- ===== src/Distribution/Subpath/Distribute/Whole.antt =====
-- `SubpathDistribution::doDistribute` (src/Distribution.cc) as a whole.
use cachetest.Prelude.{
  ℕ, ◌*◌, ◌/◌, ◌%◌, ◌≤◌, ◌<◌, ◌≡◌, refl, subst, arith, [], ◌&&◌, not, Bool, true, false, two32,
  through_int, through_int_small, mul_div, mul_mod, done, ◌==◌, if◌then◌else◌,
}
use cachetest.Buffer.{get_size, buffer_offset, is_large_buffer, get_slabs}
use cachetest.Distribution.{Generator, IsLawful, Distribution}
use cachetest.Distribution.Subpath.{line_size, uniform_subpath}
use cachetest.Distribution.Subpath.Zipf.{zipf_subpath}
use cachetest.Distribution.Subpath.Distribute.{is_empty, chunks, subpath_do_distribute}
use cachetest.Distribution.Subpath.Distribute.Layer.{Layer}
use cachetest.Distribution.Subpath.Distribute.Ring.{
  chunk_at, chunk_room, ring, Closed, Ready, Kept, chunks-Closed,
}
use cachetest.Distribution.Subpath.Distribute.Uniform.{AllLines, uniform_layer}

-- The buffer is `subpaths` chunks of `per` datalines of 64 bytes, and is addressed by 32-bit words.
pub record IsSplit (subpaths per : ℕ) (d : Distribution) : Type 0 where
  pub plain : (is_large_buffer d.buffer && not (is_empty (get_slabs d.buffer))) ≡ false
  pub cacheline : d.cacheline ≡ line_size
  pub size : get_size d.buffer ≡ line_size * (subpaths * per)
  pub some_subpath : 0 < subpaths
  pub some_line : 0 < per
  pub room : chunk_at (buffer_offset d.buffer) per subpaths ≤ two32

module _ (g : Generator) (subpaths per : ℕ) (d : Distribution)
    (split : IsSplit subpaths per d) where
  abbrev cleared : Distribution
  cleared = record d { sequence = []; entries = 0 }

  abbrev at : ℕ
  at = buffer_offset d.buffer

  -- The call does its checks and then the rounds of the loop.
  whole_loop :
      (zipf : Bool) (d' : Distribution) (s' : g.State)
      → chunks g
          (if zipf then zipf_subpath g else uniform_subpath g)
          subpaths
          per
          subpaths
          0
          cleared
          (g.seeded d.seed)
        ≡ done (d', s')
      → subpath_do_distribute g subpaths zipf d ≡ done d'
  unfolding subpath_do_distribute
  whole_loop zipf d' s' e = rw (split.plain, datalines, some, quotient, rest, e)
    where
      open split use {room, some_subpath}

      datalines : through_int (get_size d.buffer / d.cacheline) ≡ subpaths * per
      datalines =
          let lines : get_size d.buffer / d.cacheline ≡ subpaths * per =
            rw (split.size, split.cacheline) (omega arith) in
          rw lines (through_int_small (subpaths * per) (omega arith))

      some : (subpaths == 0) ≡ false
      some = ground arith

      quotient : through_int (subpaths * per / subpaths) ≡ per
      quotient =
          rw (mul_div subpaths per some_subpath)
            (through_int_small per (omega (arith, chunk_room 0 subpaths per some_subpath)))

      rest : (subpaths * per % subpaths == 0) ≡ true
      rest = rw (mul_mod subpaths per)

  -- With a layer of paths, the loop makes a ring of them.
  whole-Closed :
      (zipf : Bool) (layer : Layer g (if zipf then zipf_subpath g else uniform_subpath g))
      → layer.Needs per subpaths (g.seeded d.seed) cleared 0
      → chunk_at at per subpaths ≤ layer.limit
      → (d' : Distribution) × (subpath_do_distribute g subpaths zipf d ≡ done d')
        × ((j : ℕ)
            → j < subpaths
            → Closed (layer.Shape per) at per (ring subpaths) d'.buffer.memory j)
        × Kept d d'
  whole-Closed zipf layer needs fits =
      let zero_lines : 0 ≡ 0 * per = omega arith in
      let ready : Ready g _ layer at per subpaths split.some_line fits subpaths (g.seeded d.seed) 0
          cleared =
        record {
          cacheline = split.cacheline;
          offset = refl;
          needs = subst (layer.Needs per subpaths (g.seeded d.seed) cleared) zero_lines needs;
          closed = λ j h. elim h [ ];
        } in
      let (d', s', runs, closed, kept) =
        chunks-Closed g _ layer at per subpaths split.some_line fits subpaths 0 cleared
          (g.seeded d.seed) (omega arith) ready in
      (d', whole_loop zipf d' s' runs, closed, kept)

-- The uniform case (`zipfAlpha <= 0`): on a buffer that splits evenly the call returns, and each
-- chunk then holds a path that visits every one of its datalines once, and that ends with a link to
-- the first word of the next chunk.
pub subpath_do_distribute-uniform :
    (g : Generator) (subpaths per : ℕ) (d : Distribution)
    → IsLawful g
    → IsSplit subpaths per d
    → (d' : Distribution) × (subpath_do_distribute g subpaths false d ≡ done d')
      × ((j : ℕ)
          → j < subpaths
          → Closed (AllLines per) (buffer_offset d.buffer) per (ring subpaths) d'.buffer.memory j)
      × Kept d d'
subpath_do_distribute-uniform g subpaths per d lawful split =
    whole-Closed g subpaths per d split false (uniform_layer g lawful) tt split.room
