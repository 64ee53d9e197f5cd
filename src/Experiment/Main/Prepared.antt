-- ===== src/Experiment/Main/Prepared.antt =====
-- `main` (src/cachetest.cc) from the parsed options to the measured subpaths.
use cachetest.Prelude.{
  u32, ℕ, ◌+◌, ◌*◌, ◌^◌, ◌≤◌, ◌<◌, ◌≡◌, refl, sym, ◌∙◌, Bool, false, arith, List, length, All,
  through_int, through_int_small, done, subst,
}
use cachetest.Buffer.{
  Buffer, get_size, buffer_offset, is_large_buffer, get_slabs, set_buffer_offset,
}
use cachetest.Buffer.Allocate.{System, pool_size_4kb}
use cachetest.Buffer.Allocate.Small.{IsSystem, pool_for, small_buffer-IsPlaced}
use cachetest.Distribution.{Generator, IsLawful, Distribution}
use cachetest.Distribution.Subpath.{line_size}
use cachetest.Distribution.Subpath.Distribute.Layer.{words_per_line}
use cachetest.Distribution.Subpath.Distribute.Ring.{chunk_at, ring}
use cachetest.Distribution.Subpath.Distribute.Uniform.{AllLines}
use cachetest.Chase.{SubpathInfo}
use cachetest.Chase.Measure.{InfosFrom}
use cachetest.Experiment.{Options, configure_experiment, setup_distribution}
use cachetest.Experiment.Configure.{configure_experiment-cases}
use cachetest.Experiment.Subpaths.{IsRegular, setup_distribution-uniform}
use cachetest.Experiment.Main.{setup_buffer, check_dataset, prepare}

-- Options for a run without huge pages on a dataset that splits evenly into `subpaths` chunks of
-- `per` datalines of 64 bytes, with a buffer factor of 1 and an offset that leaves a page of the pool.
pub record IsPlainRun (opt : Options) (bits subpaths per : ℕ) : Type 0 where
  pub huge : opt.huge ≡ false
  pub cont : opt.cont ≡ false
  pub factor : opt.buffer_factor ≡ 1
  pub duration : 1 ≤ opt.duration
  pub cacheline : opt.cacheline ≡ line_size
  pub dataset : opt.dataset ≡ line_size * (subpaths * per)
  pub small : opt.dataset < 0x8000_0000
  pub offset : opt.buffer_offset + 2 ^ bits ≤ pool_size_4kb
  pub some_subpath : 0 < subpaths
  pub some_line : 0 < per

module _ (sys : System) (bits : ℕ) (lawful : IsSystem sys bits) (opt : Options) (subpaths per : ℕ)
    (run : IsPlainRun opt bits subpaths per)
    (memory : 0 < sys.malloc (pool_for sys opt.dataset)) where
  -- The buffer is one that the pattern is meant for, at the offset of the options, and is zero.
  pub setup_buffer-IsRegular :
      (b : Buffer) × (setup_buffer sys opt ≡ done b)
      × IsRegular opt b subpaths per
      × ((x : ℕ)
          → buffer_offset b ≤ x
          → x < chunk_at (buffer_offset b) per subpaths
          → b.memory x ≡ 0)
      × (buffer_offset b ≡ opt.buffer_offset)
      × (get_size b ≡ opt.dataset)
  unfolding setup_buffer set_buffer_offset get_size buffer_offset is_large_buffer get_slabs
  setup_buffer-IsRegular =
      let (b, runs, p) = (small_buffer-IsPlaced sys bits opt.dataset lawful run.small).1 memory in
      let product : u32 (opt.dataset * opt.buffer_factor) ≡ opt.dataset =
        rw run.factor (omega (arith, run.small)) in
      let size : through_int (u32 (opt.dataset * opt.buffer_factor)) ≡ opt.dataset =
        rw product (through_int_small opt.dataset run.small) in
      let at : buffer_offset (set_buffer_offset opt.buffer_offset b) ≡ opt.buffer_offset =
        omega (arith, p.first, p.inside, run.offset) in
      (
        set_buffer_offset opt.buffer_offset b,
        rw (size, run.huge, run.cont, runs) refl,
        record {
          plain = rw p.plain refl;
          cacheline = run.cacheline;
          dataset = sym p.size_is;
          size = p.size_is ∙ run.dataset;
          some_subpath = run.some_subpath;
          some_line = run.some_line;
          room = omega (arith, at, run.offset, run.dataset, run.small);
        },
        (λ x low high. p.zeros x (omega (arith, at, run.offset, run.dataset))),
        at,
        p.size_is,
      )

  pub checked : check_dataset opt ≡ done tt
  unfolding check_dataset
  checked = rw run.huge refl

  pub configured : configure_experiment opt ≡ done tt
  configured = (configure_experiment-cases opt).0 run.duration (omega (arith, run.cacheline))

  prepare-setup :
      (g : Generator) (fuel : ℕ) (zipf : Bool) (b : Buffer)
      → setup_buffer sys opt ≡ done b
      → prepare sys g fuel opt subpaths zipf ≡ setup_distribution g fuel opt b subpaths zipf
  unfolding prepare
  prepare-setup g fuel zipf b runs = rw (checked, configured, runs) refl

  -- If the system has memory, a plain run with the uniform pattern is prepared, whatever the random
  -- numbers and wherever the buffer lies. The infos are those of the subpaths in order, from the
  -- offset of the options on: each is for a path that visits every dataline of its chunk once.
  pub prepare-uniform :
      (g : Generator) (fuel : ℕ)
      → IsLawful g
      → words_per_line * per ≤ fuel
      → (d : Distribution) × (infos : List SubpathInfo) × (prepare sys g fuel opt subpaths false
          ≡ done (d, infos))
        × (length infos ≡ subpaths)
        × InfosFrom (AllLines per) opt.buffer_offset per (ring subpaths) d.buffer.memory 0 infos
        × All (λ info. info.length ≡ per) infos
  prepare-uniform g fuel fair enough =
      let (b, runs, regular, zeros, at, size) = setup_buffer-IsRegular in
      let (d, infos, ends, count, known, lengths) =
        setup_distribution-uniform g fuel opt b subpaths per fair regular enough in
      (
        d,
        infos,
        prepare-setup g fuel false b runs ∙ ends,
        count,
        subst (λ o. InfosFrom (AllLines per) o per (ring subpaths) d.buffer.memory 0 infos) at
            known,
        lengths,
      )
