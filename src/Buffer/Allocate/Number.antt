-- ===== src/Buffer/Allocate/Number.antt =====
-- The loop of `Page_number` (src/Buffer.cc).
use native.Mathlib.Nat.{pow-suc}
use cachetest.Prelude.{
  ℕ, zero, suc, ◌+◌, ◌/◌, ◌^◌, ◌≤◌, ◌<◌, ◌≡◌, refl, arith, eq_cases, inl, inr, ap, ◌∙◌, done,
  out_of_fuel, ◌==◌, false,
}
use cachetest.Buffer.Allocate.{page_number}

page_number_from :
    (fuel address offset : ℕ)
    → 0 < address
    → address < 2 ^ fuel
    → (bits : ℕ) × (page_number fuel address offset ≡ done (offset + bits))
      × (2 ^ bits ≤ address)
      × (address < 2 ^ suc bits)
unfolding page_number
page_number_from zero address offset pos h = absurd (omega arith)
page_number_from (suc fuel) address offset pos h = elim (eq_cases address 1) [
  | inl one ↦
      let same : offset + 0 ≡ offset = omega arith in
      (0, rw (one, same), omega arith, omega (arith, one))
  | inr more ↦
      let test : (address == 1) ≡ false = ground arith in
      let (bits, runs, low, high) =
        page_number_from fuel (address / 2) (offset + 1) (omega arith)
          (omega (arith, pow-suc 2 fuel)) in
      let shift : offset + 1 + bits ≡ offset + suc bits = omega arith in
      (
        suc bits,
        rw (test, runs, shift),
        omega (arith, pow-suc 2 bits),
        omega (arith, pow-suc 2 (suc bits)),
      )
]

endless : (fuel offset : ℕ) → page_number fuel 0 offset ≡ out_of_fuel
unfolding page_number
endless zero offset = refl
endless (suc fuel) offset = endless fuel (offset + 1)

-- On a number of at most `fuel` bits other than 0 the loop ends within as many rounds, with the place of
-- the number's highest bit. On 0 it never ends.
pub page_number_lem :
    (fuel address : ℕ)
    → (0 < address
        → address < 2 ^ fuel
        → (bits : ℕ) × (page_number fuel address 0 ≡ done bits)
          × (2 ^ bits ≤ address)
          × (address < 2 ^ suc bits))
      × (page_number fuel 0 0 ≡ out_of_fuel)
page_number_lem fuel address = (found, endless fuel 0)
  where
    found :
        0 < address
        → address < 2 ^ fuel
        → (bits : ℕ) × (page_number fuel address 0 ≡ done bits)
          × (2 ^ bits ≤ address)
          × (address < 2 ^ suc bits)
    found pos h =
        let (bits, runs, low, high) = page_number_from fuel address 0 pos h in
        let none : 0 + bits ≡ bits = omega arith in (bits, runs ∙ ap done none, low, high)
