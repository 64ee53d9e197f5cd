-- ===== src/Perf/Group.antt =====
-- The group of counters that `Perf_Cachetest` (src/Perf_Cachetest.cc) opens, starts and reads.
use cachetest.Prelude.{ℕ, suc, ◌<◌, ◌≡◌, List, [], ◌∷◌, length, All, Option, some, none, done}
use cachetest.Perf.{Event, Attr, attr_of, Counters, Kernel, lead}

-- The leader of the group is the first descriptor.
abbrev pub Leads : Option ℕ → List ℕ → Type 0
Leads none [] = Unit
Leads none (fd ∷ fds) = ⊥
Leads (some leader) [] = ⊥
Leads (some leader) (fd ∷ fds) = leader ≡ fd

abbrev pub IsGroup : Counters → Type 0
IsGroup p = Leads p.leader p.fds

-- The event has attributes: it is not a custom one of unknown name.
abbrev pub IsKnown : Event → Type 0
IsKnown e = (a : Attr) × (attr_of e ≡ done a)

-- Documented behaviour of a kernel that has room for all counters: a new descriptor is positive (as 0
-- is in use), and can be read.
pub record IsWilling (k : Kernel) : Type 0 where
  pub opens :
      (n : ℕ) (a : Attr) (g : Option ℕ) → (fd : ℕ) × (k.perf_event_open n a g ≡ some fd) × (0 < fd)
  pub reads : (fd : ℕ) → 0 < fd → (value : ℕ) × (k.read fd ≡ some value)

-- The descriptors that the kernel gives for events, when `n` have been opened before: each for the
-- attributes of its event and the group of `leader`, which is that of the first descriptor if there is
-- none yet.
abbrev pub AreOpened : Kernel → ℕ → (leader : Option ℕ) → List Event → (fds : List ℕ) → Type 0
AreOpened k n leader [] [] = Unit
AreOpened k n leader [] (fd ∷ fds) = ⊥
AreOpened k n leader (e ∷ es) [] = ⊥
AreOpened k n leader (e ∷ es) (fd ∷ fds) =
    ((a : Attr) × (attr_of e ≡ done a) × (k.perf_event_open n a leader ≡ some fd))
    × AreOpened k (suc n) (some (lead leader fd)) es fds

-- What has been opened so far.
record Opened (p : Counters) (n : ℕ) : Type 0 where
  group : IsGroup p
  positive : All (λ fd. 0 < fd) p.fds
  count : length p.fds ≡ n
