-- ===== src/Memory/Chain.antt =====
-- Pointer chains in the buffer: the word at each offset holds the next offset.
use cachetest.Prelude.{ℕ, ◌≡◌, ◌∙◌, List, [], ◌∷◌, ◌++◌, All, last}
use cachetest.Memory.{Memory, load32, store32}
use cachetest.Memory.Words.{Apart, load32-store32-Apart}

-- From `a` the words lead through the offsets `bs`, in order.
abbrev pub Chain : Memory → ℕ → List ℕ → Type 0
Chain m a [] = Unit
Chain m a (b ∷ bs) = (load32 m a ≡ b) × Chain m b bs

-- All offsets of the chain but the last: those whose word the chain depends on.
abbrev pub sources : ℕ → List ℕ → List ℕ
sources a [] = []
sources a (b ∷ bs) = a ∷ sources b bs

-- A chain depends on the words at its sources only.
pub Chain-frame :
    (m m' : Memory) (a : ℕ) (bs : List ℕ)
    → All (λ x. load32 m' x ≡ load32 m x) (sources a bs)
    → Chain m a bs
    → Chain m' a bs
Chain-frame m m' a [] same c = tt
Chain-frame m m' a (b ∷ bs) same c = (same.0 ∙ c.0, Chain-frame m m' b bs same.1 c.1)

pub Chain-store32 :
    (m : Memory) (w v a : ℕ) (bs : List ℕ)
    → All (Apart w) (sources a bs)
    → Chain m a bs
    → Chain (store32 m w v) a bs
Chain-store32 m w v a [] apart c = tt
Chain-store32 m w v a (b ∷ bs) apart c =
    (load32-store32-Apart m w v a apart.0 ∙ c.0, Chain-store32 m w v b bs apart.1 c.1)

pub Chain-append :
    (m : Memory) (a : ℕ) (bs cs : List ℕ)
    → Chain m a bs
    → Chain m (last a bs) cs
    → Chain m a (bs ++ cs)
Chain-append m a [] cs c d = d
Chain-append m a (b ∷ bs) cs c d = (c.0, Chain-append m b bs cs c.1 d)

pub Chain-prefix : (m : Memory) (a : ℕ) (bs cs : List ℕ) → Chain m a (bs ++ cs) → Chain m a bs
Chain-prefix m a [] cs c = tt
Chain-prefix m a (b ∷ bs) cs c = (c.0, Chain-prefix m b bs cs c.1)
