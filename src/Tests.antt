-- ===== src/Tests.antt =====
-- Runs of the model on small inputs, and the theorems at concrete inputs.
mod Sample
mod Subpaths
mod Fibres
mod Patterns
mod Prepared
mod Arguments
mod Counters
mod Papi
mod Frames
