-- ===== src/Experiment.antt =====
-- The options of a run (src/include/Options.hpp) and the set-up of the experiment
-- (src/cachetest.cc).
pub mod Subpaths
pub mod Race
pub mod Configure
pub mod Main
pub mod Fibres
use cachetest.Prelude.{
  ℕ, Bool, false, ◌*◌, ◌<◌, List, Option, some, ltb, if◌then◌else◌, Outcome, done, exited, crashed,
  aborted, ◌>>=◌, ◌>>◌, exit_if,
}
use cachetest.Buffer.{Buffer, buffer_offset}
use cachetest.Distribution.{Generator, Distribution, setup}
use cachetest.Distribution.Subpath.Distribute.{subpath_do_distribute}
use cachetest.Chase.{SubpathInfo, collect_pointer_chasing_subpath_info}

-- `Options`. `seed` and `cpu` are words; -1 is all ones.
pub record Options : Type 0 where
  pub buffer_factor : ℕ
  pub duration : ℕ
  pub loop_factor : ℕ
  pub cacheline : ℕ
  pub buffer_offset : ℕ
  pub dataset : ℕ
  pub seed : ℕ
  pub cpu : ℕ
  pub cont : Bool
  pub huge : Bool
  pub append : Bool
  pub wait : Bool
  pub dump_seq : Bool

-- `Options()`. The object is a global one, so the fields that are not set are zero.
abbrev pub default_options : Options
default_options = record {
  buffer_factor = 1;
  duration = 1;
  loop_factor = 1;
  cacheline = 64;
  buffer_offset = 0;
  dataset = 0;
  seed = 0xffff_ffff;
  cpu = 0xffff_ffff;
  cont = false;
  huge = false;
  append = false;
  wait = false;
  dump_seq = false;
}

-- `Configure_experiment`. The loop factor is unsigned, and so never below 0.
unfoldable pub configure_experiment : Options → Outcome (Unit {0})
configure_experiment opt = do
  exit_if (ltb opt.duration 1) 1
  exit_if (ltb opt.loop_factor 0) 1
  exit_if (ltb opt.cacheline (2 * 4)) 1
  done tt

-- `Setup_distribution`, less its printing: the pattern is laid and then measured. `fuel` bounds the
-- walks of the measurement.
unfoldable pub setup_distribution :
    (g : Generator) (fuel : ℕ)
    → Options
    → Buffer
    → (subpaths : ℕ) (zipf : Bool) → Outcome (Distribution × List SubpathInfo)
setup_distribution g fuel opt b subpaths zipf = do
  d ← subpath_do_distribute g subpaths zipf (setup b 4 opt.seed opt.cacheline)
  infos ←
      collect_pointer_chasing_subpath_info fuel d.buffer.memory (buffer_offset d.buffer) opt.dataset
        subpaths
  done (d, infos)
