-- ===== src/Distribution/Zipf.antt =====
-- `ZipfDistribution` (src/Distribution.cc): the slots are shuffled, and nothing is laid.
use cachetest.Prelude.{
  not, exit_if, ℕ, zero, suc, List, [], ◌∷◌, length, get_or, ltb, if◌then◌else◌, pred64, Outcome,
  done, crashed, ◌>>=◌, ◌>>◌, Bool, true, false, none, some,
}
use cachetest.Genzipf.{init_zipf}
use cachetest.Distribution.{Generator, Distribution}

abbrev pub zeros : ℕ → List ℕ
zeros zero = []
zeros (suc n) = 0 ∷ zeros n

abbrev pub set_nth : List ℕ → ℕ → ℕ → List ℕ
set_nth [] i v = []
set_nth (x ∷ xs) zero v = v ∷ xs
set_nth (x ∷ xs) (suc i) v = x ∷ set_nth xs i v

module _ (g : Generator) where
  -- The `while` loop, for the `i` slots that are left. The index of the last round is not below 0
  -- but, as the argument is unsigned, any number; outside the array the access faults.
  unfoldable pub shuffle_slots : ℕ → List ℕ → g.State → Outcome (List ℕ × g.State)
  shuffle_slots zero slots s = done (slots, s)
  shuffle_slots (suc i) slots s = do
    let (j, s') = g.rand_int_upto (pred64 i) s
    let tmp = get_or slots j 0
    let swapped = set_nth (set_nth slots j (get_or slots i 0)) i tmp
    if ltb j (length slots) then done tt else crashed
    shuffle_slots i swapped s'

  unfoldable pub zipf_do_distribute : Distribution → Outcome Distribution
  zipf_do_distribute d = do
    let accepted : Bool = elim (init_zipf d.seed 0) [ none ↦ false | some x ↦ true ]
    exit_if (not accepted) 1
    (slots, s') ← shuffle_slots d.num_elements (zeros d.num_elements) (g.seeded d.seed)
    done d
