-- ===== src/Ranges/Inline.antt =====
-- InlineRangeSet::insert, quiche/src/ranges.rs, beside the union of ranges.
use quirl.Common.{
  ℕ, suc, ◌+◌, ◌≤◌, ◌<◌, min, max, List, [], ◌∷◌, ◌++◌, ltb, ◌==◌, if◌then◌else◌, length, ◌≡◌, refl,
  sym, ap, ◌∙◌, arith, Bool-cases, false, inl, inr, some, none, append_assoc, append-nil, ltb-false,
}
use quirl.Ranges.{Range, InlineRangeSet, remove_first, merge_next, inline_loop, inline_insert}
use quirl.Ranges.Union.{Above, Above-le, IsSeparated, union}

-- A range that ends where the union would grow it is left alone by a smaller one.
pub union_inside :
    (s e : ℕ) (rs : List Range) → s < e → Above (suc e) rs → union s e rs ≡ (s, e) ∷ rs
unfolding union
union_inside s e [] h w = refl
union_inside s e ((a, b) ∷ rs) h (x, y, z) = ground arith

merge_next-eq-union :
    (s e : ℕ) (rs : List Range) → Above (suc s) rs → merge_next s e rs ≡ union s e rs
unfolding union merge_next
merge_next-eq-union s e [] w = refl
merge_next-eq-union s e ((a, b) ∷ rs) (x, y, z) =
    let ih = merge_next-eq-union s (max b e) rs (Above-le (suc b) (suc s) rs (omega arith) z) in
    let es : s ≡ min s a = omega arith in
    let em : max b e ≡ max e b = omega arith in rw (ltb-false b s (omega arith), ← es, ← em, ih)

length-ne-capacity :
    (capacity : ℕ) (xs : List Range) → length xs < capacity → (length xs == capacity) ≡ false
length-ne-capacity capacity xs h = ground arith

lower : (s a : ℕ) → (if ltb s a then s else a) ≡ min s a
lower s a = ground arith

-- The range that the new one overlaps, grown to both sides and merged with what follows.
grown :
    (s e a b : ℕ) (front rs : List Range)
    → s < e
    → a < b
    → a ≤ e
    → Above (suc b) rs
    → (if ltb b e
        then some (front ++ merge_next (min s a) e rs)
        else some (front ++ ((min s a, b) ∷ rs)))
      ≡ some (front ++ union (min s a) (max e b) rs)
grown s e a b front rs h y q w = elim (Bool-cases (ltb b e)) [
  | inl p ↦
      let m : max e b ≡ e = ground arith in
      rw (p, m)
        (ap (λ t. some (front ++ t))
          (merge_next-eq-union (min s a) e rs (Above-le (suc b) _ rs (omega arith) w)))
  | inr p ↦
      let m : max e b ≡ b = ground arith in
      rw (p, m) (ap (λ t. some (front ++ t)) (sym (union_inside (min s a) b rs (omega arith) w)))
]

inline_loop-eq-union :
    (capacity s e lo : ℕ) (front rs : List Range)
    → s < e
    → Above lo rs
    → length (front ++ rs) < capacity
    → inline_loop capacity s e front rs ≡ some (front ++ union s e rs)
unfolding inline_loop union
inline_loop-eq-union capacity s e lo front [] h w room =
    rw (length-ne-capacity capacity front (rw append-nil at room))
inline_loop-eq-union capacity s e lo front ((a, b) ∷ rs) h (x, y, z) room =
    elim (Bool-cases (ltb b s)) [
      | inl p ↦ rw p (
          inline_loop-eq-union capacity s e (suc b) (front ++ ((a, b) ∷ [])) rs h z
            (rw (← append_assoc front ((a, b) ∷ []) rs) at room)
          ∙ ap some (append_assoc front ((a, b) ∷ []) (union s e rs)))
      | inr p ↦ rw p (elim (Bool-cases (ltb e a)) [
        | inl q ↦ rw (q, length-ne-capacity capacity _ room)
        | inr q ↦ rw (q, lower s a) (grown s e a b front rs h y (ground arith) z)
      ])
    ]

-- Into a vector with room, the insertion of a range that is not empty is its union with the ranges
-- that were there; the capacity stays.
pub inline_insert-eq-union :
    (s e : ℕ) (set : InlineRangeSet)
    → s < e
    → IsSeparated set.inner
    → length set.inner < set.capacity
    → inline_insert (s, e) set ≡ some (record set { inner = union s e set.inner })
unfolding inline_insert
inline_insert-eq-union s e set h w room =
    rw (inline_loop-eq-union set.capacity s e 0 [] set.inner h w room, inline_insert)

-- A full vector panics at a range that lies below all of its ranges: `pos -= 1` is made at 0.
pub inline_insert_full :
    (s e a b capacity : ℕ) (rs : List Range)
    → s < e
    → e < a
    → a < b
    → length rs + 1 ≡ capacity
    → inline_insert (s, e) (record { inner = (a, b) ∷ rs; capacity = capacity }) ≡ none
unfolding inline_insert inline_loop remove_first
inline_insert_full s e a b capacity rs h below k full = ground arith
