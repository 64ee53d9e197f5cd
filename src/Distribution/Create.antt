-- ===== src/Distribution/Create.antt =====
-- `createDistribution` and `distribute` (src/Distribution.cc): the pattern chosen.
use cachetest.Prelude.{ℕ, Bool, Option, none, some, Outcome, done}
use cachetest.Buffer.{Buffer}
use cachetest.Distribution.{Generator, Distribution, setup}
use cachetest.Distribution.Linear.{linear_do_distribute}
use cachetest.Distribution.Uniform.{uniform_do_distribute}
use cachetest.Distribution.Weighted.{weighted_do_distribute}
use cachetest.Distribution.Zipf.{zipf_do_distribute}
use cachetest.Distribution.Subpath.Distribute.{subpath_do_distribute}

-- `TYPE`. A number that is none of these gives no object.
pub data Pattern : Type 0 where
  uniform : Pattern
  zipf : Pattern
  linear : Pattern
  wuni : Pattern
  subpath : Pattern
  other : Pattern

-- The class of the object.
pub data Class : Type 0 where
  uniform_distribution : Class
  zipf_distribution : Class
  linear_distribution : Class
  weighted_uniform : Class
  subpath_distribution : ℕ → Bool → Class

unfoldable pub create_distribution :
    Pattern
    → Buffer
    → (cacheline element_size seed subpaths : ℕ) → (zipf_alpha : Bool)
    → Option (Class × Distribution)
create_distribution uniform b cacheline esize seed n alpha =
    some (uniform_distribution, setup b esize seed cacheline)
create_distribution zipf b cacheline esize seed n alpha =
    some (zipf_distribution, setup b esize seed cacheline)
create_distribution linear b cacheline esize seed n alpha =
    some (linear_distribution, setup b esize seed cacheline)
create_distribution wuni b cacheline esize seed n alpha =
    some (weighted_uniform, setup b esize seed cacheline)
create_distribution subpath b cacheline esize seed n alpha =
    some (subpath_distribution n alpha, setup b esize seed cacheline)
create_distribution other b cacheline esize seed n alpha = none

-- The virtual `doDistribute`.
unfoldable pub distribute : Generator → Class → Distribution → Outcome Distribution
distribute g uniform_distribution d = uniform_do_distribute g d
distribute g zipf_distribution d = zipf_do_distribute g d
distribute g linear_distribution d = done (linear_do_distribute d)
distribute g weighted_uniform d = weighted_do_distribute g d
distribute g (subpath_distribution n alpha) d = subpath_do_distribute g n alpha d
