-- ===== src/Arguments.antt =====
-- The command line (src/cachetest.cc): `split` and `Parse_options`.
pub mod Split
pub mod Numbers
pub mod Cpus
pub mod Options
