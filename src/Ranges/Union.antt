-- ===== src/Ranges/Union.antt =====
-- What a list of ranges stands for, and the union with one more range as a plain recursion.
use quirl.Common.{
  ℕ, suc, ◌≤◌, ◌<◌, min, max, List, [], ◌∷◌, ltb, if◌then◌else◌, ◌↔◌, ◌⊎◌, inl, inr, arith,
  Bool-cases,
}
use quirl.Ranges.{Range}

-- From `lo` on: no range is empty, and each ends before the next begins.
abbrev pub Above : ℕ → List Range → Type 0
Above lo [] = Unit {0}
Above lo ((s, e) ∷ rs) = (lo ≤ s) × (s < e) × Above (suc e) rs

abbrev pub IsSeparated : List Range → Type 0
IsSeparated rs = Above 0 rs

abbrev pub Covers : ℕ → List Range → Type 0
Covers x [] = ⊥
Covers x ((s, e) ∷ rs) = ((s ≤ x) × (x < e)) ⊎ Covers x rs

-- The union of a sorted list of ranges with the range from `s` to `e`.
unfoldable pub union : ℕ → ℕ → List Range → List Range
union s e [] = (s, e) ∷ []
union s e ((a, b) ∷ rs) =
    let behind = (a, b) ∷ union s e rs in
    let joined = union (min s a) (max e b) rs in
    if ltb b s then behind else if ltb e a then (s, e) ∷ (a, b) ∷ rs else joined

pub Above-le : (lo lo' : ℕ) (rs : List Range) → lo' ≤ lo → Above lo rs → Above lo' rs
Above-le lo lo' [] h w = tt
Above-le lo lo' ((a, b) ∷ rs) h (x, y, z) = (omega arith, y, z)

pub Above-union :
    (lo s e : ℕ) (rs : List Range) → lo ≤ s → s < e → Above lo rs → Above lo (union s e rs)
unfolding union
Above-union lo s e [] h l w = (h, l, tt)
Above-union lo s e ((a, b) ∷ rs) h l (x, y, z) = elim (Bool-cases (ltb b s)) [
  | inl p ↦ rw p (x, y, Above-union (suc b) s e rs (ground arith) l z)
  | inr p ↦ rw p (elim (Bool-cases (ltb e a)) [
    | inl q ↦ rw q (h, l, (ground arith, y, z))
    | inr q ↦ rw q (
        Above-union lo (min s a) (max e b) rs (omega arith) (omega arith)
          (Above-le (suc b) lo rs (omega arith) z))
  ])
]

pub Covers-union :
    (x s e : ℕ) (rs : List Range)
    → s < e
    → Covers x (union s e rs) ↔ (((s ≤ x) × (x < e)) ⊎ Covers x rs)
unfolding union
Covers-union x s e [] l = ((λ c. c), λ c. c)
Covers-union x s e ((a, b) ∷ rs) l = elim (Bool-cases (ltb b s)) [
  | inl p ↦
      let ih = Covers-union x s e rs l in rw p (λ c. ground (arith, ih), λ c. ground (arith, ih))
  | inr p ↦ rw p (elim (Bool-cases (ltb e a)) [
    | inl q ↦ rw q (λ c. ground arith, λ c. ground arith)
    | inr q ↦
        let ih = Covers-union x (min s a) (max e b) rs (omega arith) in
        rw q (λ c. ground (arith, ih), λ c. ground (arith, ih))
  ])
]
