-- ===== src/Ranges/Tree.antt =====
-- BTreeRangeSet::insert, quiche/src/ranges.rs, beside the union of ranges.
use quirl.Common.{
  ℕ, suc, ◌≤◌, ◌<◌, min, max, List, [], ◌∷◌, ◌++◌, ltb, leb, length, ◌≡◌, refl, sym, ap, ◌∙◌, arith,
  Bool-cases, inl, inr, some, length-append, ltb-false, ◌⊎◌,
}
use quirl.Ranges.{Range, BTreeRangeSet, tree_insert, btree_insert}
use quirl.Ranges.Union.{Above, Above-le, IsSeparated, union}
use quirl.Ranges.Entries.{Before, Before-le}
use quirl.Ranges.Absorb.{Grown, union-append, insert_from, take_between, take_at}

-- Where `i` falls in a list of ranges: between two of them, or in one or at its end.
Between : ℕ → List Range → Type 0
Between i l = (pre rs : List Range) × (l ≡ pre ++ rs) × Before i pre × Above (suc i) rs

record At (lo i : ℕ) (l : List Range) : Type 0 where
  start : ℕ
  end : ℕ
  pre : List Range
  rs : List Range
  parts : l ≡ pre ++ ((start, end) ∷ rs)
  before : Before start pre
  from : lo ≤ start
  holds : start ≤ i
  reaches : i ≤ end
  nonempty : start < end
  behind : Above (suc end) rs

place : (lo i : ℕ) (l : List Range) → Above lo l → Between i l ⊎ At lo i l
unfolding Between
place lo i [] w = inl ([], [], refl, tt, tt)
place lo i ((a, b) ∷ l) (x, y, z) = elim (Bool-cases (ltb b i)) [
  | inl p ↦ elim (place (suc b) i l z) [
    | inl (pre, rs, e, w, u) ↦
        inl ((a, b) ∷ pre, rs, ap (λ t. (a, b) ∷ t) e, (y, ground arith, w), u)
    | inr t ↦ inr (record {
      start = t.start;
      end = t.end;
      pre = (a, b) ∷ t.pre;
      rs = t.rs;
      parts = ap (λ k. (a, b) ∷ k) t.parts;
      before = (y, t.from, t.before);
      from = omega (arith, t.from);
      holds = t.holds;
      reaches = t.reaches;
      nonempty = t.nonempty;
      behind = t.behind;
    })
  ]
  | inr p ↦ elim (Bool-cases (leb a i)) [
    | inl q ↦ inr (record {
      start = a;
      end = b;
      pre = [];
      rs = l;
      parts = refl;
      before = tt;
      from = x;
      holds = ground arith;
      reaches = ground arith;
      nonempty = y;
      behind = z;
    })
    | inr q ↦ inl ([], (a, b) ∷ l, refl, tt, (ground arith, y, z))
  ]
]

union_at :
    (i j a b : ℕ) (pre rs : List Range)
    → i < j
    → Before a pre
    → a ≤ i
    → i ≤ b
    → union i j (pre ++ ((a, b) ∷ rs)) ≡ pre ++ union a (max j b) rs
unfolding union
union_at i j a b pre rs h w p q =
    let m : min i a ≡ a = omega arith in
    union-append i j pre ((a, b) ∷ rs) (Before-le a i pre p w)
    ∙ rw (ltb-false b i q, ltb-false j a (omega arith), m)

Grown-at : (i j b : ℕ) (rs : List Range) → Above (suc b) rs → Grown j (max j b) rs
Grown-at i j b rs u = elim (Bool-cases (leb b j)) [
  | inl p ↦ inl (ground arith)
  | inr p ↦ let m : max j b ≡ b = ground arith in rw m (inr (ground arith, u))
]

pub tree_insert-eq-union :
    (i j capacity : ℕ) (inner : List Range)
    → i < j
    → IsSeparated inner
    → length inner < capacity
    → tree_insert (i, j) inner capacity ≡ some (union i j inner)
unfolding Between
tree_insert-eq-union i j capacity inner h w room = elim (place 0 i inner w) [
  | inl (pre, rs, e, before, u) ↦ rw e (
      insert_from i j i j capacity (pre ++ rs) pre rs (take_between i j pre rs h before u)
        (omega arith) before u (inl refl) (rw e at room)
      ∙ ap some (sym (union-append i j pre rs before)))
  | inr t ↦
      let short : length (t.pre ++ t.rs) < capacity = omega (
        arith,
        ap length t.parts,
        length-append t.pre ((t.start, t.end) ∷ t.rs),
        length-append t.pre t.rs,
      ) in
      rw t.parts (
        insert_from i j t.start (max j t.end) capacity _ t.pre t.rs
          (take_at i j t.start t.end t.pre t.rs t.before t.holds t.reaches t.behind) t.holds
          t.before (Above-le _ _ t.rs (omega (arith, t.reaches)) t.behind)
          (Grown-at i j t.end t.rs t.behind) short
        ∙ ap some (sym (union_at i j t.start t.end t.pre t.rs h t.before t.holds t.reaches)))
]

-- Into a map with room, the insertion of a range that is not empty ends, and is its union with the
-- ranges that were there; the capacity stays.
pub btree_insert-eq-union :
    (s e : ℕ) (set : BTreeRangeSet)
    → s < e
    → IsSeparated set.inner
    → length set.inner < set.capacity
    → btree_insert (s, e) set ≡ some (record set { inner = union s e set.inner })
unfolding btree_insert
btree_insert-eq-union s e set h w room =
    rw (tree_insert-eq-union s e set.capacity set.inner h w room, btree_insert)
