-- ===== src/Arguments/Cpus/Workers.antt =====
-- `uniqueWorkerCPUIdSet` (src/cachetest.cc) and the sets that it is made of.
use mathlib.Core.List.{Memᴰ}
use cachetest.Prelude.{
  ℕ, zero, suc, ◌+◌, ◌≤◌, ◌<◌, ◌≡◌, refl, ◌⊎◌, inl, inr, arith, List, [], ◌∷◌, All, All_mono, range,
  range_from, Bool-cases, ltb, true, ◌==◌, done,
}
use cachetest.Arguments.Cpus.{insert, insert_all, worker_cpus_of, worker_cpus}

-- The set is kept in ascending order, each CPU once.
abbrev pub IsAscending : List ℕ → Type 0
IsAscending [] = Unit
IsAscending (x ∷ xs) = All (λ y. x < y) xs × IsAscending xs

All-insert {κ} : (P : ℕ → Type κ) (id : ℕ) (xs : List ℕ) → P id → All P xs → All P (insert id xs)
unfolding insert
All-insert P id [] p h = (p, tt)
All-insert P id (x ∷ xs) p h = elim (Bool-cases (id == x)) [
  | inl same ↦ rw same h
  | inr other ↦ elim (Bool-cases (ltb id x)) [
    | inl lt ↦ rw (other, lt) (p, h)
    | inr ge ↦ rw (other, ge) (h.0, All-insert P id xs p h.1)
  ]
]

insert-IsAscending : (id : ℕ) (xs : List ℕ) → IsAscending xs → IsAscending (insert id xs)
unfolding insert
insert-IsAscending id [] h = (tt, tt)
insert-IsAscending id (x ∷ xs) h = elim (Bool-cases (id == x)) [
  | inl same ↦ rw same h
  | inr other ↦ elim (Bool-cases (ltb id x)) [
    | inl lt ↦
        rw (other, lt)
          ((ground arith, All_mono {P = λ y. x < y} (λ y more. ground arith) xs h.0), h)
    | inr ge ↦
        rw (other, ge)
          (All-insert (λ y. x < y) id xs (ground arith) h.0, insert-IsAscending id xs h.1)
  ]
]

Mem-insert : (id : ℕ) (xs : List ℕ) → Memᴰ id (insert id xs)
unfolding insert
Mem-insert id [] = Memᴰ.head refl
Mem-insert id (x ∷ xs) = elim (Bool-cases (id == x)) [
  | inl same ↦ rw same (Memᴰ.head (ground arith))
  | inr other ↦ elim (Bool-cases (ltb id x)) [
    | inl lt ↦ rw (other, lt) (Memᴰ.head refl)
    | inr ge ↦ rw (other, ge) (Memᴰ.tail (Mem-insert id xs))
  ]
]

Mem_tail_map :
    (c x : ℕ) (xs ys : List ℕ) → (Memᴰ c xs → Memᴰ c ys) → Memᴰ c (x ∷ xs) → Memᴰ c (x ∷ ys)
Mem_tail_map c x xs ys f (Memᴰ.head e) = Memᴰ.head e
Mem_tail_map c x xs ys f (Memᴰ.tail m) = Memᴰ.tail (f m)

insert-Mem : (id c : ℕ) (xs : List ℕ) → Memᴰ c xs → Memᴰ c (insert id xs)
unfolding insert
insert-Mem id c [] m = elim m [ ]
insert-Mem id c (x ∷ xs) m = elim (Bool-cases (id == x)) [
  | inl same ↦ rw same m
  | inr other ↦ elim (Bool-cases (ltb id x)) [
    | inl lt ↦ rw (other, lt) (Memᴰ.tail m)
    | inr ge ↦ rw (other, ge) (Mem_tail_map c x xs (insert id xs) (insert-Mem id c xs) m)
  ]
]

-- What the insertion of a list does to a set: it stays in order, keeps its elements and has those of the
-- list.
insert_all-IsAscending : (ids set : List ℕ) → IsAscending set → IsAscending (insert_all ids set)
unfolding insert_all
insert_all-IsAscending [] set h = h
insert_all-IsAscending (id ∷ ids) set h =
    insert_all-IsAscending ids (insert id set) (insert-IsAscending id set h)

insert_all-kept : (ids set : List ℕ) (c : ℕ) → Memᴰ c set → Memᴰ c (insert_all ids set)
unfolding insert_all
insert_all-kept [] set c m = m
insert_all-kept (id ∷ ids) set c m = insert_all-kept ids (insert id set) c (insert-Mem id c set m)

insert_all-Mem : (ids set : List ℕ) (c : ℕ) → Memᴰ c ids → Memᴰ c (insert_all ids set)
unfolding insert_all
insert_all-Mem [] set c m = elim m [ ]
insert_all-Mem (id ∷ ids) set c (Memᴰ.head e) =
    rw e (insert_all-kept ids (insert id set) id (Mem-insert id set))
insert_all-Mem (id ∷ ids) set c (Memᴰ.tail m) = insert_all-Mem ids (insert id set) c m

range_from-Mem : (n i c : ℕ) → i ≤ c → c < i + n → Memᴰ c (range_from i n)
range_from-Mem zero i c lo hi = absurd (omega arith)
range_from-Mem (suc n) i c lo hi = elim (Bool-cases (c == i)) [
  | inl here ↦ Memᴰ.head (ground arith)
  | inr later ↦ Memᴰ.tail (range_from-Mem n (suc i) c (ground arith) (omega arith))
]

Mem_head_cases : (c id : ℕ) (xs : List ℕ) → Memᴰ c (id ∷ xs) → (c ≡ id) ⊎ Memᴰ c xs
Mem_head_cases c id xs (Memᴰ.head e) = inl e
Mem_head_cases c id xs (Memᴰ.tail m) = inr m

Mem_tail_cases :
    (c id x : ℕ) (xs ys : List ℕ)
    → (Memᴰ c xs → (c ≡ id) ⊎ Memᴰ c ys)
    → Memᴰ c (x ∷ xs)
    → (c ≡ id) ⊎ Memᴰ c (x ∷ ys)
Mem_tail_cases c id x xs ys f (Memᴰ.head e) = inr (Memᴰ.head e)
Mem_tail_cases c id x xs ys f (Memᴰ.tail m) = elim (f m) [
  | inl same ↦ inl same
  | inr old ↦ inr (Memᴰ.tail old)
]

-- No other CPU gets into the set.
insert-cases : (id : ℕ) (xs : List ℕ) (c : ℕ) → Memᴰ c (insert id xs) → (c ≡ id) ⊎ Memᴰ c xs
unfolding insert
insert-cases id [] c (Memᴰ.head e) = inl e
insert-cases id [] c (Memᴰ.tail m) = elim m [ ]
insert-cases id (x ∷ xs) c m = elim (Bool-cases (id == x)) [
  | inl same ↦ inr (rw same at m)
  | inr other ↦ elim (Bool-cases (ltb id x)) [
    | inl lt ↦ Mem_head_cases c id (x ∷ xs) (rw (other, lt) at m)
    | inr ge ↦ Mem_tail_cases c id x (insert id xs) xs (insert-cases id xs c) (rw (other, ge) at m)
  ]
]

insert_all-cases :
    (ids set : List ℕ) (c : ℕ) → Memᴰ c (insert_all ids set) → Memᴰ c ids ⊎ Memᴰ c set
unfolding insert_all
insert_all-cases [] set c m = inr m
insert_all-cases (id ∷ ids) set c m = elim (insert_all-cases ids (insert id set) c m) [
  | inl later ↦ inl (Memᴰ.tail later)
  | inr here ↦ elim (insert-cases id set c here) [
    | inl same ↦ inl (Memᴰ.head same)
    | inr old ↦ inr old
  ]
]

range_from-lt : (n i c : ℕ) → Memᴰ c (range_from i n) → c < i + n
range_from-lt zero i c m = elim m [ ]
range_from-lt (suc n) i c (Memᴰ.head e) = omega (arith, e)
range_from-lt (suc n) i c (Memᴰ.tail m) = omega (arith, range_from-lt n (suc i) c m)

-- A thread may run on the CPUs of its set, and on all of the machine if the set is empty.
abbrev pub MayRun : (hardware c : ℕ) → List ℕ → Type 0
MayRun hardware c [] = c < hardware
MayRun hardware c (id ∷ ids) = Memᴰ c (id ∷ ids)

-- Some thread of a subpath, and of some subpath.
abbrev pub SomeThread : (hardware c : ℕ) → List (List ℕ) → Type 0
SomeThread hardware c [] = ⊥
SomeThread hardware c (ids ∷ sets) = MayRun hardware c ids ⊎ SomeThread hardware c sets

abbrev pub SomeWorker : (hardware c : ℕ) → List (List (List ℕ)) → Type 0
SomeWorker hardware c [] = ⊥
SomeWorker hardware c (sets ∷ rest) = SomeThread hardware c sets ⊎ SomeWorker hardware c rest

-- The set that a loop ends with: in order, and with the CPUs that it had before.
record Grown (set result : List ℕ) : Type 0 where
  up : IsAscending result
  kept : (c : ℕ) → Memᴰ c set → Memᴰ c result

worker_cpus_of_lem :
    (hardware : ℕ) (sets : List (List ℕ)) (set : List ℕ)
    → 0 < hardware
    → IsAscending set
    → (result : List ℕ) × (worker_cpus_of hardware sets set ≡ done result)
      × Grown set result
      × ((c : ℕ) → c < hardware → SomeThread hardware c sets → Memᴰ c result)
      × ((c : ℕ) → Memᴰ c result → Memᴰ c set ⊎ SomeThread hardware c sets)
unfolding worker_cpus_of
worker_cpus_of_lem hardware [] set pos up =
    (set, refl, record { up = up; kept = λ c m. m }, (λ c h none. absurd none), λ c m. inl m)
worker_cpus_of_lem hardware ([] ∷ sets) set pos up =
    let some_cpu : ltb 0 hardware ≡ true = ground arith in
    (
      insert_all (range hardware) set,
      rw some_cpu refl,
      record {
        up = insert_all-IsAscending (range hardware) set up;
        kept = insert_all-kept (range hardware) set;
      },
      (λ c h any.
          insert_all-Mem (range hardware) set c
            (range_from-Mem hardware 0 c (omega arith) (omega arith))),
      λ c m. elim (insert_all-cases (range hardware) set c m) [
        | inl new ↦ inr (inl (omega (arith, range_from-lt hardware 0 c new)))
        | inr old ↦ inl old
      ],
    )
worker_cpus_of_lem hardware ((id ∷ ids) ∷ sets) set pos up =
    let (result, runs, g, more, only) =
      worker_cpus_of_lem hardware sets (insert_all (id ∷ ids) set) pos
        (insert_all-IsAscending (id ∷ ids) set up) in
    (
      result,
      runs,
      record { up = g.up; kept = λ c m. g.kept c (insert_all-kept (id ∷ ids) set c m) },
      (λ c h any. elim any [
        | inl here ↦ g.kept c (insert_all-Mem (id ∷ ids) set c here)
        | inr later ↦ more c h later
      ]),
      λ c m. elim (only c m) [
        | inl before ↦ elim (insert_all-cases (id ∷ ids) set c before) [
          | inl new ↦ inr (inl new)
          | inr old ↦ inl old
        ]
        | inr later ↦ inr (inr later)
      ],
    )

-- On a machine with a CPU or more, the loops over the threads return a set in ascending order without
-- repetition. It has every CPU of the machine that some thread may run on, and what was in the set
-- before, and no other CPU than those that were in it or that some thread may run on.
pub worker_cpus-IsAscending :
    (hardware : ℕ) (lists : List (List (List ℕ))) (set : List ℕ)
    → 0 < hardware
    → IsAscending set
    → (result : List ℕ) × (worker_cpus hardware lists set ≡ done result)
      × IsAscending result
      × ((c : ℕ) → c < hardware → SomeWorker hardware c lists → Memᴰ c result)
      × ((c : ℕ) → Memᴰ c set → Memᴰ c result)
      × ((c : ℕ) → Memᴰ c result → Memᴰ c set ⊎ SomeWorker hardware c lists)
unfolding worker_cpus
worker_cpus-IsAscending hardware [] set pos up =
    (set, refl, up, (λ c h none. absurd none), (λ c m. m), λ c m. inl m)
worker_cpus-IsAscending hardware (sets ∷ rest) set pos up =
    let (more, runs, g, threads, only) = worker_cpus_of_lem hardware sets set pos up in
    let (result, ends, ascending, workers, kept, no_other) =
      worker_cpus-IsAscending hardware rest more pos g.up in
    (
      result,
      rw runs ends,
      ascending,
      (λ c h any. elim any [
        | inl here ↦ kept c (threads c h here)
        | inr later ↦ workers c h later
      ]),
      (λ c m. kept c (g.kept c m)),
      λ c m. elim (no_other c m) [
        | inl before ↦ elim (only c before) [ inl old ↦ inl old | inr new ↦ inr (inl new) ]
        | inr later ↦ inr (inr later)
      ],
    )
