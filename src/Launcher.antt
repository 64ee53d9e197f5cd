-- ===== src/Launcher.antt =====
-- The launcher (src/launcher.cc): its options, what it hands to `execv`, and its exit status. What the
-- system calls do is a parameter.
pub mod Status
use cachetest.Prelude.{
  ℕ, zero, suc, ◌+◌, ◌*◌, ◌%◌, ◌<◌, Bool, true, false, List, [], ◌∷◌, ◌++◌, length, if◌then◌else◌,
  Outcome, done, exited, ◌>>=◌, ◌>>◌, exit_if, not, ltb, Option, some, none,
}
use cachetest.Arguments.Split.{Text}
use cachetest.Arguments.Numbers.{atoi}

-- What `getopt` returns for "ahc:". `unknown` is a question mark.
pub data LauncherFlag : Type 0 where
  ignored : LauncherFlag
  help : LauncherFlag
  pin : Text → LauncherFlag
  unknown : LauncherFlag

-- The loop over the options, which sets the CPUs.
unfoldable pub launcher_options : List LauncherFlag → List ℕ → Outcome (List ℕ)
launcher_options [] cpus = done cpus
launcher_options (ignored ∷ flags) cpus = launcher_options flags cpus
launcher_options (help ∷ flags) cpus = exited 1
launcher_options (pin text ∷ flags) cpus = launcher_options flags (atoi text ∷ [])
launcher_options (unknown ∷ flags) cpus = exited 1

-- An element of the array of `execv`: a null pointer, an operand, or whatever `malloc` has left.
pub data Argument : Type 0 where
  null : Argument
  operand : Text → Argument
  stale : Argument

-- The array: memory for two elements more than there are operands. `memset` clears as many bytes as
-- one pointer has, which is the first element.
unfoldable pub allocated : (count : ℕ) → List Argument
allocated zero = []
allocated (suc n) = stale ∷ allocated n

unfoldable pub cleared : List Argument → List Argument
cleared [] = []
cleared (a ∷ array) = null ∷ array

unfoldable pub overwrite : List Text → List Argument → List Argument
overwrite [] array = array
overwrite (text ∷ texts) [] = []
overwrite (text ∷ texts) (a ∷ array) = operand text ∷ overwrite texts array

unfoldable pub execv_args : List Text → List Argument
execv_args operands = overwrite operands (cleared (allocated (length operands + 2)))

-- The system calls of the child: whether `sched_setscheduler`, `CPU_ALLOC` and `nice` succeed, and
-- whether `sched_setaffinity` does for a set. `execv` comes back only if it fails.
pub record Calls : Type 0 where
  pub can_schedule : Bool
  pub can_alloc : Bool
  pub can_pin : List ℕ → Bool
  pub can_renice : Bool

-- The CPUs that a set of `CPU_ALLOC_SIZE(MAX_CPUS)` bytes has room for: `MAX_CPUS` is 3, and the size
-- is that of one word.
abbrev pub set_capacity : ℕ
set_capacity = 64

-- `CPU_SET_S` for each CPU: one that the set has no room for is left out. A negative number is a
-- large one there.
unfoldable pub cpu_mask : List ℕ → List ℕ
cpu_mask [] = []
cpu_mask (cpu ∷ cpus) =
    let rest = cpu_mask cpus in if ltb cpu set_capacity then cpu ∷ rest else rest

-- `pinExperiment`: the set that the process is pinned to, if any. That the call has failed is only
-- printed.
unfoldable pub pin_experiment : Calls → List ℕ → Outcome (Option (List ℕ))
pin_experiment calls cpus =
    exit_if (not calls.can_alloc) 1
    >> done (if calls.can_pin (cpu_mask cpus) then some (cpu_mask cpus) else none)

-- What the child goes on with: the CPUs that it has been pinned to, if any, and the array.
pub record Child : Type 0 where
  pub pinned : Option (List ℕ)
  pub args : List Argument

unfoldable pub child : Calls → List ℕ → List Text → Outcome Child
child calls cpus operands = do
  exit_if (not calls.can_schedule) 1
  pinned ← pin_experiment calls cpus
  exit_if (not calls.can_renice) 1
  done (record { pinned = pinned; args = execv_args operands })

-- How a process ends, and the status that `waitpid` gives for it.
pub data Ending : Type 0 where
  by_exit : (code : ℕ) → Ending
  by_signal : (signal : ℕ) (core_dumped : Bool) → Ending

abbrev pub wait_status : Ending → ℕ
wait_status (by_exit code) = code % 256 * 256
wait_status (by_signal signal core_dumped) = signal % 128 + (if core_dumped then 128 else 0)

-- The exit status of the parent: what `main` returns, of which 8 bits are kept.
unfoldable pub parent : (status : ℕ) → ℕ
parent status = status % 256

-- `main` up to the fork.
unfoldable pub launch : List LauncherFlag → List Text → Outcome (List ℕ × List Text)
launch flags operands = launcher_options flags (1 ∷ []) >>= λ cpus. with_operands cpus operands
  where
    with_operands : List ℕ → List Text → Outcome (List ℕ × List Text)
    with_operands cpus [] = exited 1
    with_operands cpus (program ∷ rest) = done (cpus, program ∷ rest)
