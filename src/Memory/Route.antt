-- ===== src/Memory/Route.antt =====
-- Pointer chains through the words of one chunk of the buffer. Word `j` of the chunk at `base` is
-- the `unsigned int` at byte `base + 4 * j`.
use cachetest.Prelude.{
  ℕ, ◌+◌, ◌*◌, ◌<◌, ◌≡◌, refl, sym, ap, ◌≢◌, List, [], ◌∷◌, ◌++◌, map, arith, two32, All, All_mono,
  All-map, All-last, Distinct, last, last-map,
}
use cachetest.Memory.{Memory, load32, store32}
use cachetest.Memory.Words.{Apart, load32-store32}
use cachetest.Memory.Chain.{Chain, sources, Chain-frame, Chain-store32, Chain-append, Chain-prefix}

abbrev pub word : ℕ → ℕ → ℕ
word base j = base + 4 * j

-- Different words of a chunk share no byte.
pub word-Apart : (base i j : ℕ) → i ≢ j → Apart (word base i) (word base j)
word-Apart base i j h = ground arith

pub sources-map :
    (base i : ℕ) (js : List ℕ)
    → sources (word base i) (map (word base) js) ≡ map (word base) (sources i js)
sources-map base i [] = refl
sources-map base i (j ∷ js) = ap (λ xs. word base i ∷ xs) (sources-map base j js)

pub sources-append : (a : ℕ) (bs : List ℕ) (c : ℕ) → sources a (bs ++ c ∷ []) ≡ a ∷ bs
sources-append a [] c = refl
sources-append a (b ∷ bs) c = ap (λ xs. a ∷ xs) (sources-append b bs c)

-- The last of distinct numbers is none of those before it.
pub sources-ne-last :
    (i : ℕ) (js : List ℕ) → Distinct (i ∷ js) → All (λ k. last i js ≢ k) (sources i js)
sources-ne-last i [] h = tt
sources-ne-last i (j ∷ js) h =
    ((λ e. All-last (λ y. i ≢ y) j js h.0 (sym e)), sources-ne-last j js h.1)

-- The chain from word `i` through the words `js` and then to the offset `next`.
abbrev pub Route : Memory → ℕ → ℕ → List ℕ → ℕ → Type 0
Route m base i js next = Chain m (word base i) (map (word base) js ++ next ∷ [])

-- The last word shares no byte with the words that the chain depends on.
pub last-Apart :
    (base i : ℕ) (js : List ℕ)
    → Distinct (i ∷ js)
    → All (Apart (word base (last i js))) (sources (word base i) (map (word base) js))
last-Apart base i js distinct = rw (sources-map base i js) (
    All-map (Apart (word base (last i js))) (word base) (sources i js) (
      All_mono (λ k ne. word-Apart base (last i js) k ne) (sources i js)
        (sources-ne-last i js distinct)))

-- Writing `v` into the last word closes the chain.
pub Route-close :
    (m : Memory) (base i : ℕ) (js : List ℕ) (v : ℕ)
    → v < two32
    → Distinct (i ∷ js)
    → Chain m (word base i) (map (word base) js)
    → Route (store32 m (word base (last i js)) v) base i js v
Route-close m base i js v small distinct c =
    let end = word base (last i js) in
    let kept =
      Chain-store32 m end v (word base i) (map (word base) js) (last-Apart base i js distinct) c in
    let here : last (word base i) (map (word base) js) ≡ end = last-map (word base) i js in
    Chain-append (store32 m end v) (word base i) (map (word base) js) (v ∷ []) kept
      (rw here (load32-store32 m end v small), tt)

-- A route depends on its own words only.
pub Route-frame :
    (m m' : Memory) (base i : ℕ) (js : List ℕ) (next : ℕ)
    → All (λ j. load32 m' (word base j) ≡ load32 m (word base j)) (i ∷ js)
    → Route m base i js next
    → Route m' base i js next
Route-frame m m' base i js next same r =
    Chain-frame m m' (word base i) (map (word base) js ++ next ∷ [])
      (rw (sources-append (word base i) (map (word base) js) next)
        (All-map (λ x. load32 m' x ≡ load32 m x) (word base) (i ∷ js) same))
      r

-- The last word of a route holds its goal.
pub Route-last :
    (m : Memory) (base i : ℕ) (js : List ℕ) (next : ℕ)
    → Route m base i js next
    → load32 m (word base (last i js)) ≡ next
Route-last m base i [] next r = r.0
Route-last m base i (j ∷ js) next r = Route-last m base j js next r.1

-- What leads to one goal leads to another, if the last word is written anew.
pub Route-redirect :
    (m : Memory) (base i : ℕ) (js : List ℕ) (next v : ℕ)
    → v < two32
    → Distinct (i ∷ js)
    → Route m base i js next
    → Route (store32 m (word base (last i js)) v) base i js v
Route-redirect m base i js next v small distinct r =
    Route-close m base i js v small distinct
      (Chain-prefix m (word base i) (map (word base) js) (next ∷ []) r)
