-- ===== src/Ranges/Until.antt =====
-- `remove_until` of both representations, quiche/src/ranges.rs.
use quirl.Common.{
  ℕ, suc, ◌+◌, ◌≤◌, ◌<◌, max, List, [], ◌∷◌, ltb, leb, ◌==◌, length, ◌≡◌, refl, sym, ap, ◌∙◌, arith,
  Bool-cases, inl, inr, some, Option, ◌↔◌,
}
use quirl.Ranges.{
  Range, BTreeRangeSet, map_remove, inline_until, starting_until, tree_until, tree_insert,
  btree_remove_until,
}
use quirl.Ranges.Union.{Above, Above-le, IsSeparated, Covers}
use quirl.Ranges.Inline.{union_inside}
use quirl.Ranges.Tree.{tree_insert-eq-union}

not-mem-Above : (x lo : ℕ) (rs : List Range) → Above lo rs → Covers x rs → lo ≤ x
not-mem-Above x lo [] w c = elim c [ ]
not-mem-Above x lo ((a, b) ∷ rs) (p, q, r) (inl c) = omega (arith, c.0)
not-mem-Above x lo ((a, b) ∷ rs) (p, q, r) (inr c) = omega (arith, not-mem-Above x (suc b) rs r c)

-- What is left are the ranges above `largest`, the first of them cut.
pub Above-inline_until :
    (largest lo : ℕ) (rs : List Range) → Above lo rs → Above lo (inline_until largest rs)
unfolding inline_until
Above-inline_until largest lo [] w = tt
Above-inline_until largest lo ((a, b) ∷ rs) (x, y, z) = elim (Bool-cases (leb b largest)) [
  | inl p ↦ rw p (Above-inline_until largest lo rs (Above-le (suc b) lo rs (omega arith) z))
  | inr p ↦ rw p (elim (Bool-cases (max (largest + 1) a == b)) [
    | inl q ↦ rw q (Above-le (suc b) lo rs (omega arith) z)
    | inr q ↦ rw q (omega arith, ground arith, z)
  ])
]

-- Exactly the numbers above `largest` stay in the set.
pub Covers-inline_until :
    (x largest lo : ℕ) (rs : List Range)
    → Above lo rs
    → Covers x (inline_until largest rs) ↔ (Covers x rs × (largest < x))
unfolding inline_until
Covers-inline_until x largest lo [] w = (λ c. absurd c, λ c. absurd c.0)
Covers-inline_until x largest lo ((a, b) ∷ rs) (p, q, r) =
    let later : Covers x rs → suc b ≤ x = λ c. not-mem-Above x (suc b) rs r c in
    elim (Bool-cases (leb b largest)) [
      | inl e ↦
          let ih = Covers-inline_until x largest (suc b) rs r in
          rw e (λ c. ground (arith, ih, later), λ c. ground (arith, ih, later))
      | inr e ↦ rw e (elim (Bool-cases (max (largest + 1) a == b)) [
        | inl d ↦ rw d (λ c. ground (arith, later), λ c. ground (arith, later))
        | inr d ↦ rw d (λ c. ground (arith, later), λ c. ground (arith, later))
      ])
    ]

unchanged : (largest : ℕ) (rs : List Range) → Above (suc largest) rs → inline_until largest rs ≡ rs
unfolding inline_until
unchanged largest [] w = refl
unchanged largest ((a, b) ∷ rs) (x, y, z) = ground arith

none_starting :
    (largest : ℕ) (rs : List Range) → Above (suc largest) rs → starting_until largest rs ≡ []
unfolding starting_until
none_starting largest [] w = refl
none_starting largest ((a, b) ∷ rs) (x, y, z) = ground arith

-- A range that `largest` cuts, and one that it reaches the end of.
cut :
    (largest a b : ℕ) (rs : List Range)
    → a ≤ largest
    → largest + 1 < b
    → ◌≡◌ {A = Option (List Range)}
        (some ((largest + 1, b) ∷ rs))
        (some (inline_until largest ((a, b) ∷ rs)))
unfolding inline_until
cut largest a b rs p q = ground arith

dropped :
    (largest a b : ℕ) (rs : List Range)
    → a ≤ largest
    → b ≤ largest + 1
    → Above (suc b) rs
    → inline_until largest rs ≡ inline_until largest ((a, b) ∷ rs)
unfolding inline_until
dropped largest a b rs p q z = elim (Bool-cases (leb b largest)) [
  | inl e ↦ rw e
  | inr e ↦
      let same : inline_until largest rs ≡ rs =
        unchanged largest rs (Above-le (suc b) _ rs (ground arith) z) in
      ground (arith, same)
]

map_remove_first : (a b : ℕ) (rs : List Range) → map_remove a ((a, b) ∷ rs) ≡ rs
unfolding map_remove
map_remove_first a b rs = ground arith

-- The map collects the ranges to shorten first, and puts the cut one back; it comes to the same.
tree_until-eq-inline_until :
    (largest capacity lo : ℕ) (rs : List Range)
    → Above lo rs
    → length rs ≤ capacity
    → tree_until largest (starting_until largest rs) capacity rs ≡ some (inline_until largest rs)
unfolding tree_until starting_until
tree_until-eq-inline_until largest capacity lo [] w fits = unfold inline_until in refl
tree_until-eq-inline_until largest capacity lo ((a, b) ∷ rs) (x, y, z) fits =
    elim (Bool-cases (leb a largest)) [
      | inr p ↦ rw p (ap some (sym (unchanged largest ((a, b) ∷ rs) (ground arith, y, z))))
      | inl p ↦
          rw (p, map_remove_first a b rs)
            (elim (Bool-cases (ltb (largest + 1) b)) [
              | inl q ↦
                  let u : tree_insert (largest + 1, b) rs capacity ≡ some ((largest + 1, b) ∷ rs) =
                    tree_insert-eq-union (largest + 1) b capacity rs (ground arith)
                      (Above-le (suc b) 0 rs (omega arith) z) (omega arith)
                    ∙ ap some (union_inside (largest + 1) b rs (ground arith) z) in
                  rw (q, u, none_starting largest rs (Above-le (suc b) _ rs (ground arith) z))
                    (cut largest a b rs (ground arith) (ground arith))
              | inr q ↦ rw q (
                  tree_until-eq-inline_until largest capacity (suc b) rs z (omega arith)
                  ∙ ap some (dropped largest a b rs (ground arith) (ground arith) z))
            ])
    ]

-- Removing up to `largest` from a map ends, and leaves what it leaves of a vector.
pub btree_remove_until-eq-inline_remove_until :
    (largest : ℕ) (set : BTreeRangeSet)
    → IsSeparated set.inner
    → length set.inner ≤ set.capacity
    → btree_remove_until largest set ≡ some (record set { inner = inline_until largest set.inner })
unfolding btree_remove_until
btree_remove_until-eq-inline_remove_until largest set w fits =
    rw (tree_until-eq-inline_until largest set.capacity 0 set.inner w fits, btree_remove_until)
