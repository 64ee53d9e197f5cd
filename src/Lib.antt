-- ===== src/Lib.antt =====
-- Cachetest measures memory hierarchies: it lays a chain of pointers through a buffer, lets
-- threads chase it for a given time, and reports how many accesses they made. This library models
-- the code that lays, measures, splits, chases and breaks that chain.
--
-- Prelude holds the shared names: tests, lists over the native numbers, permutations, machine
-- words (size_t, unsigned int, int), and the outcomes of a call (a value, a failed assert, an
-- exit, a fault, or too little fuel).
--
-- Memory models the bytes of the buffer by their offset from Get_buffer_pointer(), and the reads
-- and writes of the 32-bit words in them; Memory.Chain and Memory.Route speak of the chains of
-- pointers that those words hold.
--
-- Buffer models the class Buffer (src/include/Buffer.hpp, src/Buffer.cc), Buffer.Frames its search
-- for contiguous frames, Buffer.Allocate the constructors (src/Small_buffer.cc,
-- src/Large_buffer.cc) and Initialize. What the system gives (getpagesize, malloc, mmap, what the
-- kernel says of the pages) is the record System.
--
-- Distribution models src/Distribution.cc and src/include/Distribution.hpp: Distribution the base
-- class and what it takes from libraries, Distribution.Linear, Distribution.Uniform,
-- Distribution.Weighted and Distribution.Zipf the doDistribute of the classes LinearDistribution,
-- UniformDistribution, WeightedUniform and ZipfDistribution, Distribution.Create the choice among
-- them (createDistribution), Distribution.Subpath the function uniformSubpath,
-- Distribution.Subpath.Zipf the function zipfSubpath, Distribution.Subpath.Distribute the function
-- doDistribute of SubpathDistribution. Distribution.Draw and Distribution.Probe hold what the
-- loops of the random patterns share, Distribution.Grow and Distribution.Grow.Round the invariant
-- of a path that grows word by word. A layer of paths (Distribution.Subpath.Distribute.Layer) is
-- the contract between doDistribute and the function that lays the path of one chunk.
--
-- Chase models the part of src/cachetest.cc that works on the chain:
-- collectPointerChasingSubpathInfo, splitPointerChasingPath, alarm_handler and loop; Chase.Race
-- lets the threads of threadTest and alarm_handler take their steps in any order; Chase.Migrate
-- models migratingLoop, Chase.Fibres the function fibreTest up to its barrier. Experiment models
-- the options and the set-up (Configure_experiment, Setup_distribution), Experiment.Main the steps
-- of main before the threads (Setup_buffer, Setup_perf) and the totals after them.
--
-- Arguments models the command line of src/cachetest.cc: Arguments.Split the function split,
-- Arguments.Numbers the numbers in texts, Arguments.Cpus the threads, fibres and CPUs,
-- Arguments.Options the function Parse_options, from what getopt returns on. Perf models
-- src/Perf_Cachetest.cc and src/include/Perf.hpp: the events, Perf.Parse their parsing, Perf.Code
-- their codes, Perf.Group the group of counters; the kernel is the record Kernel. Perf.Papi models
-- src/Perf_PAPI.cc and the parser of src/Perf.cc, with PAPI as the record Library,
-- Perf.Papi.Session its measurements. Genzipf models src/genzipf.cc but for its floating point,
-- Launcher src/launcher.cc.
--
-- Experiment.Main.Command puts the parts together, from the command line to the measured subpaths,
-- and Experiment.Main.Whole goes on to the threads and the handler of the alarm.
--
-- Random numbers (MTRand) and std::shuffle are parameters of the model (the record Generator),
-- with their documented behaviour as named hypotheses (the record IsLawful). Of zipf only the
-- floating point is a parameter, with SumsReach for what it must give; AvoidsMax says that no seed
-- that is drawn for zipf is INT_MAX, from which zipf never returns. Addresses are 64 bits wide and
-- do not wrap; offsets into the buffer are words of 32 bits, and their wrap-around is written out.
--
-- The walk of the measurement has no bound in the code; the model gives each walk fuel, and 16
-- rounds for each dataline of a chunk are enough, as a path has no word twice. The loops of split,
-- Page_number and the draw of zipf are given fuel as well, and the theorems on them say how much
-- is enough; the paths of zipfSubpath give that draw one round, as it ends in the first or never.
-- All other loops are recursive in the number of rounds that the code computes, in their list, or,
-- the binary search, in the length of its vector.
--
-- Not modelled are the affinity, the barriers and the scheduling of fibres, which are calls of the
-- system and of libraries, and all output. The floating point of genzipf.cc, and copies of other
-- projects' code (MersenneTwister.h, most of util), are not modelled either.
--
-- Tests holds runs of the model and the theorems at concrete inputs.
pub mod Prelude
pub mod Memory
pub mod Arguments
pub mod Buffer
pub mod Distribution
pub mod Chase
pub mod Genzipf
pub mod Perf
pub mod Launcher
pub mod Experiment
pub mod Tests
