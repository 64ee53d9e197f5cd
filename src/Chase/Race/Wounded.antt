-- ===== src/Chase/Race/Wounded.antt =====
-- Chains of which `alarm_handler` (src/cachetest.cc) may have broken some words.
use mathlib.Core.List.{Memᴰ}
use cachetest.Prelude.{
  ℕ, ◌≡◌, refl, ◌∙◌, ◌⊎◌, inl, inr, List, [], ◌∷◌, ◌++◌, map, All, minus_one, arith,
}
use cachetest.Memory.{Memory, load32, store32}
use cachetest.Memory.Words.{Apart, load32-store32, load32-store32-Apart}
use cachetest.Memory.Chain.{Chain, sources}
use cachetest.Memory.Route.{word}

-- Each word points to the next or is -1.
abbrev pub Wounded : Memory → ℕ → List ℕ → Type 0
Wounded m a [] = Unit
Wounded m a (b ∷ bs) = ((load32 m a ≡ b) ⊎ (load32 m a ≡ minus_one)) × Wounded m b bs

pub Chain-Wounded : (m : Memory) (a : ℕ) (bs : List ℕ) → Chain m a bs → Wounded m a bs
Chain-Wounded m a [] c = tt
Chain-Wounded m a (b ∷ bs) c = (inl c.0, Chain-Wounded m b bs c.1)

-- One more word is broken.
pub Wounded-store32 :
    (m : Memory) (p a : ℕ) (bs : List ℕ)
    → All (λ x. (x ≡ p) ⊎ Apart p x) (sources a bs)
    → Wounded m a bs
    → Wounded (store32 m p minus_one) a bs
Wounded-store32 m p a [] away w = tt
Wounded-store32 m p a (b ∷ bs) away w = (link away.0 w.0, Wounded-store32 m p b bs away.1 w.1)
  where
    link :
        (a ≡ p) ⊎ Apart p a
        → (load32 m a ≡ b) ⊎ (load32 m a ≡ minus_one)
        → (load32 (store32 m p minus_one) a ≡ b) ⊎ (load32 (store32 m p minus_one) a ≡ minus_one)
    link (inl same) old = inr (rw same (load32-store32 m p minus_one (omega arith)))
    link (inr apart) (inl e) = inl (load32-store32-Apart m p minus_one a apart ∙ e)
    link (inr apart) (inr e) = inr (load32-store32-Apart m p minus_one a apart ∙ e)

-- What a word on the way through the words `js` to `goal` may hold.
abbrev pub Goes : Memory → ℕ → List ℕ → ℕ → ℕ → Type 0
Goes m base js goal a =
    (load32 m a ≡ minus_one)
    ⊎ ((load32 m a ≡ goal) ⊎ ((k' : ℕ) × Memᴰ k' js × (load32 m a ≡ word base k')))

Goes-tail :
    (m : Memory) (base j : ℕ) (js : List ℕ) (goal a : ℕ)
    → Goes m base js goal a
    → Goes m base (j ∷ js) goal a
Goes-tail m base j js goal a (inl e) = inl e
Goes-tail m base j js goal a (inr (inl e)) = inr (inl e)
Goes-tail m base j js goal a (inr (inr (k', on, e))) = inr (inr (k', Memᴰ.tail on, e))

pub Wounded-next :
    (m : Memory) (base i : ℕ) (js : List ℕ) (goal k : ℕ)
    → Memᴰ k (i ∷ js)
    → Wounded m (word base i) (map (word base) js ++ goal ∷ [])
    → Goes m base js goal (word base k)
Wounded-next m base i [] goal k (Memᴰ.head e) (inl next, w) = rw e (inr (inl next))
Wounded-next m base i [] goal k (Memᴰ.head e) (inr broken, w) = rw e (inl broken)
Wounded-next m base i [] goal k (Memᴰ.tail on) w = elim on [ ]
Wounded-next m base i (j ∷ js) goal k (Memᴰ.head e) (inl next, w) =
    rw e (inr (inr (j, Memᴰ.head refl, next)))
Wounded-next m base i (j ∷ js) goal k (Memᴰ.head e) (inr broken, w) = rw e (inl broken)
Wounded-next m base i (j ∷ js) goal k (Memᴰ.tail on) w =
    Goes-tail m base j js goal (word base k) (Wounded-next m base j js goal k on w.1)
