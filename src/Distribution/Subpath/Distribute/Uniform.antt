-- ===== src/Distribution/Subpath/Distribute/Uniform.antt =====
-- `uniformSubpath` (src/Distribution.cc) as a layer of paths.
use mathlib.Core.List.{Permᴰ}
use cachetest.Prelude.{
  ℕ, zero, suc, ◌+◌, ◌*◌, ◌≤◌, ◌<◌, ◌≡◌, ◌≢◌, refl, subst, ◌∙◌, inl, arith, List, [], ◌∷◌, map,
  All_mono, All-map, Distinct, last-map, range, two32, done, perm-range-lt, perm-range-Distinct,
}
use cachetest.Memory.Chain.{Chain}
use cachetest.Memory.Route.{word}
use cachetest.Distribution.{Generator, IsLawful, Distribution}
use cachetest.Distribution.Subpath.{line_size, path_index, uniform_subpath}
use cachetest.Distribution.Subpath.Uniform.{Laid, uniform_subpath-suc}
use cachetest.Distribution.Subpath.Distribute.Layer.{chunk_base, words_per_line, Placed, Layer}

-- Dataline `l` begins with word `16 * l`.
abbrev pub first_word : ℕ → ℕ
first_word l = words_per_line * l

-- The path visits each of `size` datalines once, at its first word.
abbrev pub AllLines : ℕ → List ℕ → Type 0
AllLines size js =
    (visits : List ℕ) × (js ≡ map first_word visits) × Permᴰ (0 ∷ visits) (range size)

map-first_word :
    (base : ℕ) (ls : List ℕ) → map (path_index base) ls ≡ map (word base) (map first_word ls)
map-first_word base [] = refl
map-first_word base (l ∷ ls) =
    let head : path_index base l ≡ word base (first_word l) = omega arith in
    rw (head, map-first_word base ls)

Distinct-map : (ls : List ℕ) → Distinct ls → Distinct (map first_word ls)
Distinct-map [] h = tt
Distinct-map (l ∷ ls) h = (
  All-map (λ x. first_word l ≢ x) first_word ls (All_mono (λ x ne e. ne (omega arith)) ls h.0),
  Distinct-map ls h.1,
)

Laid-Placed :
    (d : Distribution) (offset size : ℕ) (visits : List ℕ) (e : ℕ) (d' : Distribution)
    → Laid d offset size visits e d'
    → Placed d offset size (map first_word visits) e d'
Laid-Placed d offset size visits e d' t =
    let base = chunk_base d offset in
    let from : base ≡ word base 0 = omega arith in
    record {
      chain =
          rw (← map-first_word base visits)
            (subst (λ b. Chain d'.buffer.memory b (map (path_index base) visits)) from t.chain);
      end = t.end ∙ omega (arith, last-map first_word 0 visits);
      distinct = Distinct-map (0 ∷ visits) (perm-range-Distinct size t.all);
      bound =
          All-map (λ j. j < words_per_line * size) first_word (0 ∷ visits)
            (All_mono {P = λ l. l < size} (λ x h. omega arith) (0 ∷ visits)
              (perm-range-lt size t.all));
      before = λ x h. t.outside x (inl h);
      frame = t.frame;
    }

module _ (g : Generator) (lawful : IsLawful g) where
  pub uniform_places :
      (d : Distribution) (offset size : ℕ) (s : g.State)
      → d.cacheline ≡ line_size
      → 0 < size
      → chunk_base d (offset + size) ≤ two32
      → (js : List ℕ) × (e : ℕ) × (d' : Distribution) × (s' : g.State) × (uniform_subpath g d offset
            size s
          ≡ done (e, d', s'))
        × AllLines size js
        × Placed d offset size js e d'
        × ((v : ℕ) → Unit {0})
  uniform_places d offset zero s cl pos room = absurd (omega arith)
  uniform_places d offset (suc k) s cl pos room =
      let (e, d', runs, t) = uniform_subpath-suc g lawful d offset k s cl room in
      (_, e, d', _, runs, (_, refl, t.all), Laid-Placed d offset (suc k) _ e d' t, λ v. tt)

  abbrev pub uniform_layer : Layer g (uniform_subpath g)
  uniform_layer = record {
    Shape = AllLines;
    Needs = λ size left s d offset. Unit {0};
    limit = two32;
    limit_le = omega arith;
    places = λ d offset size left s cl pos room needs. uniform_places d offset size s cl pos room;
  }
