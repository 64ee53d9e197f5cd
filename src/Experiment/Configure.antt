-- ===== src/Experiment/Configure.antt =====
-- `Configure_experiment` (src/cachetest.cc) tells the options that can be run.
use cachetest.Prelude.{◌≤◌, ◌<◌, ◌≡◌, ◌⊎◌, inl, inr, order_cases, arith, done, exited}
use cachetest.Experiment.{Options, configure_experiment}

-- The options are accepted if the test runs for a second or more and a dataline has room for two
-- words; otherwise the program ends with status 1.
pub configure_experiment-cases :
    (opt : Options)
    → (1 ≤ opt.duration → 8 ≤ opt.cacheline → configure_experiment opt ≡ done tt)
      × ((opt.duration < 1) ⊎ (opt.cacheline < 8) → configure_experiment opt ≡ exited 1)
unfolding configure_experiment
configure_experiment-cases opt = (accepted, refused)
  where
    accepted : 1 ≤ opt.duration → 8 ≤ opt.cacheline → configure_experiment opt ≡ done tt
    accepted h k = ground arith

    refused : (opt.duration < 1) ⊎ (opt.cacheline < 8) → configure_experiment opt ≡ exited 1
    refused (inl h) = ground arith
    refused (inr h) = elim (order_cases opt.duration 1) [
      | inl short ↦ ground arith
      | inr long ↦ ground arith
    ]
