-- ===== src/Ranges/Absorb.antt =====
-- The loop of BTreeRangeSet::insert, quiche/src/ranges.rs, and the cases of its first step.
use quirl.Common.{
  ℕ, zero, suc, ◌+◌, ◌≤◌, ◌<◌, min, max, List, [], ◌∷◌, ◌++◌, length, ◌≡◌, refl, ap, arith,
  Bool-cases, true, false, inl, inr, some, length-append, ltb-false, lt→ltb, leb-true, leb-false,
  ◌&&◌, ◌⊎◌,
}
use quirl.Ranges.{
  Range, range_overlaps, contains, tree_loop, take_previous, tree_finish, tree_insert,
}
use quirl.Ranges.Union.{Above, Above-le, union}
use quirl.Ranges.Entries.{
  Before, Before-le, next_to_end, next_to_here, map_remove-append, map_insert-append,
  prev_to-Before, prev_to-at, absorb, union-absorb, Above-absorb,
}

-- How far the new range `(i, j)` has grown: not at all behind `j`, or past all that is left to see.
abbrev pub Grown : ℕ → ℕ → List Range → Type 0
Grown j e rs = (e ≡ j) ⊎ ((j ≤ e) × Above (suc e) rs)

-- The range at hand is apart from the new one.
apart :
    (i j e a b : ℕ) (rs : List Range)
    → i < a
    → a < b
    → Grown j e ((a, b) ∷ rs)
    → (contains (i, j) a && contains (i, j) b) ≡ false
    → range_overlaps (a, b) (i, j) ≡ false
    → e < a
unfolding contains range_overlaps
apart i j e a b rs h k (inl g) c o = ground arith
apart i j e a b rs h k (inr (g, w)) c o = omega (arith, w.0)

-- The range at hand lies inside the new one.
swallowed :
    (i j e a b : ℕ) (rs : List Range)
    → a < b
    → Grown j e ((a, b) ∷ rs)
    → (contains (i, j) a && contains (i, j) b) ≡ true
    → (e ≡ j) × (a < j) × (b < j)
unfolding contains
swallowed i j e a b rs k (inl g) c = (g, ground arith, ground arith)
swallowed i j e a b rs k (inr (g, w)) c =
    let near : a < j = ground arith in absurd (omega (arith, w.0))

-- The range at hand reaches from inside the new one to its end or further.
overhangs :
    (i j e a b : ℕ) (rs : List Range)
    → i < a
    → a < b
    → Grown j e ((a, b) ∷ rs)
    → (contains (i, j) a && contains (i, j) b) ≡ false
    → range_overlaps (a, b) (i, j) ≡ true
    → (e ≡ j) × (a ≤ j) × (j ≤ b)
unfolding contains range_overlaps
overhangs i j e a b rs h k (inl g) c o = (g, ground arith, ground arith)
overhangs i j e a b rs h k (inr (g, w)) c o =
    let near : a ≤ j = ground arith in absurd (omega (arith, w.0))

module _ (i j s : ℕ) (pre : List Range) (starts : s ≤ i) (before : Before s pre) where
  -- The loop ends within its fuel, with the grown range and the ranges behind it.
  tree_loop_lem :
      (fuel e : ℕ) (rs : List Range)
      → length rs < fuel
      → Above (suc i) rs
      → Grown j e rs
      → tree_loop fuel (i, j) s e (pre ++ rs) ≡ some (s, (absorb e rs).0, pre ++ (absorb e rs).1)
  unfolding tree_loop absorb
  tree_loop_lem zero e rs fits w g = absurd (omega arith)
  tree_loop_lem (suc fuel) e [] fits w g = rw (next_to_end s pre before, tree_loop)
  tree_loop_lem (suc fuel) e ((a, b) ∷ rs) fits (x, y, z) g =
      rw
        (
          next_to_here s a b pre rs before (omega arith),
          tree_loop,
          map_remove-append s a b pre rs before (omega arith),
        )
        (elim (Bool-cases (contains (i, j) a && contains (i, j) b)) [
          | inl c ↦
              let (g', p, q) = swallowed i j e a b rs y g c in
              let m : max e b ≡ e = omega arith in
              rw (c, ltb-false e a (omega arith), m)
                (tree_loop_lem fuel e rs (omega arith) (Above-le (suc b) _ rs (omega arith) z)
                  (inl g'))
          | inr c ↦ rw c (elim (Bool-cases (range_overlaps (a, b) (i, j))) [
            | inl o ↦
                let (g', p, q) = overhangs i j e a b rs (omega arith) y g c o in
                let m : max e b ≡ b = omega arith in
                let n : min s a ≡ s = omega arith in
                rw (o, ltb-false e a (omega arith), m, n)
                  (tree_loop_lem fuel b rs (omega arith) (Above-le (suc b) _ rs (omega arith) z)
                    (inr (q, z)))
            | inr o ↦ rw (o, lt→ltb e a (apart i j e a b rs (omega arith) y g c o))
          ])
        ])

-- The rest of the method, from the map without a preceding range that overlaps, at `s`.
finish-absorb :
    (capacity s e : ℕ) (pre rs : List Range)
    → Before s pre
    → Above (suc s) rs
    → length (pre ++ (absorb e rs).1) < capacity
    → tree_finish capacity (some (s, (absorb e rs).0, pre ++ (absorb e rs).1))
      ≡ some (pre ++ union s e rs)
unfolding tree_finish
finish-absorb capacity s e pre rs w u room = rw (
  leb-false capacity (length (pre ++ (absorb e rs).1)) room,
  map_insert-append s (absorb e rs).0 pre (absorb e rs).1 w (Above-absorb s e rs u),
  union-absorb s e rs u,
)

length-absorb : (e : ℕ) (rs : List Range) → length (absorb e rs).1 ≤ length rs
unfolding absorb
length-absorb e [] = omega arith
length-absorb e ((a, b) ∷ rs) = ground (arith, length-absorb (max e b) rs)

pub union-append :
    (s e : ℕ) (pre rs : List Range) → Before s pre → union s e (pre ++ rs) ≡ pre ++ union s e rs
unfolding union
union-append s e [] rs w = refl
union-append s e ((a, b) ∷ pre) rs (x, y, z) =
    rw (lt→ltb b s y) (ap (λ t. (a, b) ∷ t) (union-append s e pre rs z))

pub insert_from :
    (i j s e capacity : ℕ) (inner pre rs : List Range)
    → take_previous (i, j) inner ≡ (s, e, pre ++ rs)
    → s ≤ i
    → Before s pre
    → Above (suc i) rs
    → Grown j e rs
    → length (pre ++ rs) < capacity
    → tree_insert (i, j) inner capacity ≡ some (pre ++ union s e rs)
unfolding tree_insert
insert_from i j s e capacity inner pre rs taken h w u g room =
    rw
      (
        taken,
        tree_loop_lem i j s pre h w (length (pre ++ rs) + 1) e rs
            (omega (arith, length-append pre rs)) u g,
      )
      (finish-absorb capacity s e pre rs w (Above-le (suc i) (suc s) rs (omega arith) u) (
        omega (arith, length-append pre rs, length-append pre (absorb e rs).1, length-absorb e rs)))

-- No range before overlaps: nothing is taken out.
pub take_between :
    (i j : ℕ) (pre rs : List Range)
    → i < j
    → Before i pre
    → Above (suc i) rs
    → take_previous (i, j) (pre ++ rs) ≡ (i, j, pre ++ rs)
unfolding range_overlaps take_previous
take_between i j pre rs h w u = elim (prev_to-Before i pre rs w u) [
  | inl e ↦ rw (e, take_previous)
  | inr (a, b, e, p, q) ↦ rw (e, take_previous) (ground arith)
]

-- The range that holds `i`, or ends at it, is taken out.
pub take_at :
    (i j a b : ℕ) (pre rs : List Range)
    → Before a pre
    → a ≤ i
    → i ≤ b
    → Above (suc b) rs
    → take_previous (i, j) (pre ++ ((a, b) ∷ rs)) ≡ (a, max j b, pre ++ rs)
unfolding range_overlaps take_previous
take_at i j a b pre rs w p q u =
    let m : min i a ≡ a = omega arith in
    rw (
      prev_to-at i a b pre rs (Before-le a i pre p w) p (Above-le (suc b) _ rs (omega arith) u),
      take_previous,
      leb-true a i p,
      leb-true i b q,
      map_remove-append a a b pre rs w (omega arith),
      m,
    )
