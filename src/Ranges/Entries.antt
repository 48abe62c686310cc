-- ===== src/Ranges/Entries.antt =====
-- The map of BTreeRangeSet, quiche/src/ranges.rs: what its methods see of the entries before and
-- behind a place, and the ranges that a grown range takes up.
use quirl.Common.{
  ℕ, suc, ◌≤◌, ◌<◌, min, max, List, [], ◌∷◌, ◌++◌, ltb, if◌then◌else◌, ◌≡◌, refl, ◌∙◌, arith,
  Bool-cases, inl, inr, some, none, ltb-false, leb-true, ◌⊎◌,
}
use quirl.Ranges.{Range, map_insert, map_remove, prev_to, next_to}
use quirl.Ranges.Union.{Above, Above-le, union}

-- Every range ends before `s`.
abbrev pub Before : ℕ → List Range → Type 0
Before s [] = Unit {0}
Before s ((a, b) ∷ rs) = (a < b) × (b < s) × Before s rs

pub Before-le : (s s' : ℕ) (rs : List Range) → s ≤ s' → Before s rs → Before s' rs
Before-le s s' [] h w = tt
Before-le s s' ((a, b) ∷ rs) h (x, y, z) = (x, omega arith, Before-le s s' rs h z)

-- What the map's methods do behind entries that end before `s`.
next_to-append : (s : ℕ) (pre rs : List Range) → Before s pre → next_to s (pre ++ rs) ≡ next_to s rs
unfolding next_to
next_to-append s [] rs w = refl
next_to-append s ((a, b) ∷ pre) rs (x, y, z) = ground (arith, next_to-append s pre rs z)

pub next_to_end : (s : ℕ) (pre : List Range) → Before s pre → next_to s (pre ++ []) ≡ none
next_to_end s pre w = next_to-append s pre [] w ∙ unfold next_to in refl

pub next_to_here :
    (s a b : ℕ) (pre rs : List Range)
    → Before s pre
    → s ≤ a
    → next_to s (pre ++ ((a, b) ∷ rs)) ≡ some (a, b)
unfolding next_to
next_to_here s a b pre rs w h = next_to-append s pre ((a, b) ∷ rs) w ∙ rw (leb-true s a h)

pub map_remove-append :
    (s k b : ℕ) (pre rs : List Range)
    → Before s pre
    → s ≤ k
    → map_remove k (pre ++ ((k, b) ∷ rs)) ≡ pre ++ rs
unfolding map_remove
map_remove-append s k b [] rs w h = ground arith
map_remove-append s k b ((c, d) ∷ pre) rs (x, y, z) h =
    ground (arith, map_remove-append s k b pre rs z h)

pub map_insert-append :
    (s v : ℕ) (pre rs : List Range)
    → Before s pre
    → Above (suc s) rs
    → map_insert s v (pre ++ rs) ≡ pre ++ ((s, v) ∷ rs)
unfolding map_insert
map_insert-append s v [] [] w u = refl
map_insert-append s v [] ((a, b) ∷ rs) w (x, y, z) = ground arith
map_insert-append s v ((c, d) ∷ pre) rs (x, y, z) u =
    ground (arith, map_insert-append s v pre rs z u)

prev_to-Above : (s : ℕ) (rs : List Range) → Above (suc s) rs → prev_to s rs ≡ none
unfolding prev_to
prev_to-Above s [] w = refl
prev_to-Above s ((a, b) ∷ rs) (x, y, z) = ground arith

-- The preceding range of `s`, where the next begins behind `s`: the last one before.
pub prev_to-Before :
    (s : ℕ) (pre rs : List Range)
    → Before s pre
    → Above (suc s) rs
    → (prev_to s (pre ++ rs) ≡ none)
      ⊎ ((a b : ℕ) × (prev_to s (pre ++ rs) ≡ some (a, b)) × (a < b) × (b < s))
unfolding prev_to
prev_to-Before s [] rs w u = inl (prev_to-Above s rs u)
prev_to-Before s ((c, d) ∷ pre) rs (x, y, z) u = elim (prev_to-Before s pre rs z u) [
  | inl e ↦ inr (c, d, ground (arith, e), x, y)
  | inr (a, b, e, p, q) ↦ inr (a, b, ground (arith, e), p, q)
]

pub prev_to-at :
    (s a b : ℕ) (pre rs : List Range)
    → Before s pre
    → a ≤ s
    → Above (suc s) rs
    → prev_to s (pre ++ ((a, b) ∷ rs)) ≡ some (a, b)
unfolding prev_to
prev_to-at s a b [] rs w h u = ground (arith, prev_to-Above s rs u)
prev_to-at s a b ((c, d) ∷ pre) rs (x, y, z) h u = ground (arith, prev_to-at s a b pre rs z h u)

-- What the loop leaves: the grown range, and the ranges behind it.
unfoldable pub absorb : ℕ → List Range → ℕ × List Range
absorb e [] = (e, [])
absorb e ((a, b) ∷ rs) =
    let more = absorb (max e b) rs in if ltb e a then (e, (a, b) ∷ rs) else more

pub union-absorb :
    (s e : ℕ) (rs : List Range)
    → Above (suc s) rs
    → union s e rs ≡ (s, (absorb e rs).0) ∷ (absorb e rs).1
unfolding union absorb
union-absorb s e [] w = refl
union-absorb s e ((a, b) ∷ rs) (x, y, z) =
    let m : min s a ≡ s = omega arith in
    rw (ltb-false b s (omega arith), m)
      (elim (Bool-cases (ltb e a)) [
        | inl p ↦ rw p
        | inr p ↦ rw p (union-absorb s (max e b) rs (Above-le (suc b) (suc s) rs (omega arith) z))
      ])

pub Above-absorb : (s e : ℕ) (rs : List Range) → Above (suc s) rs → Above (suc s) (absorb e rs).1
unfolding absorb
Above-absorb s e [] w = tt
Above-absorb s e ((a, b) ∷ rs) (x, y, z) = elim (Bool-cases (ltb e a)) [
  | inl p ↦ rw p (x, y, z)
  | inr p ↦ rw p (Above-absorb s (max e b) rs (Above-le (suc b) (suc s) rs (omega arith) z))
]
