-- ===== src/Ranges/View.antt =====
-- `RangeSet`: whichever representation holds it, the list of ranges that `iter` gives is what the
-- operations act on.
use quirl.Common.{
  ℕ, ◌+◌, ◌≤◌, ◌<◌, min, max, List, [], ◌∷◌, leb, ◌==◌, length, ◌≡◌, refl, arith, Bool-cases, inl,
  inr, some, ◌⊎◌, ◌↔◌,
}
use quirl.Ranges.{
  Range, RangeSet, InlineRangeSet, BTreeRangeSet, default, inline, btree, iter, len, fixup, insert,
  remove_until, inline_insert, btree_insert, inline_remove_until, inline_until,
}
use quirl.Ranges.Union.{IsSeparated, Covers, union, Above-union, Covers-union}
use quirl.Ranges.Inline.{inline_insert-eq-union}
use quirl.Ranges.Tree.{btree_insert-eq-union}
use quirl.Ranges.Until.{
  Covers-inline_until, Above-inline_until, btree_remove_until-eq-inline_remove_until,
}

unfoldable pub capacity : RangeSet → ℕ
capacity (inline set) = set.capacity
capacity (btree set) = set.capacity

-- The representation follows the size.
abbrev pub Fits : RangeSet → Type 0
Fits (inline set) = length set.inner < 4
Fits (btree set) = 2 < length set.inner

pub record IsValid (set : RangeSet) : Type 0 where
  pub fits : Fits set
  pub separated : IsSeparated (iter set)

length-union : (s e : ℕ) (rs : List Range) → length (union s e rs) ≤ length rs + 1
unfolding union
length-union s e [] = omega arith
length-union s e ((a, b) ∷ rs) =
    ground (arith, length-union s e rs, length-union (min s a) (max e b) rs)

length-inline_until : (largest : ℕ) (rs : List Range) → length (inline_until largest rs) ≤ length rs
unfolding inline_until
length-inline_until largest [] = omega arith
length-inline_until largest ((a, b) ∷ rs) = ground (arith, length-inline_until largest rs)

iter-fixup : (set : RangeSet) → iter (fixup set) ≡ iter set
unfolding iter fixup
iter-fixup (inline set) = ground arith
iter-fixup (btree set) = ground arith

capacity-fixup : (set : RangeSet) → capacity (fixup set) ≡ capacity set
unfolding capacity fixup
capacity-fixup (inline set) = ground arith
capacity-fixup (btree set) = ground arith

Fits-fixup_inline : (set : InlineRangeSet) → length set.inner ≤ 4 → Fits (fixup (inline set))
unfolding fixup
Fits-fixup_inline set h = elim (Bool-cases (length set.inner == 4)) [
  | inl p ↦ rw p (ground arith)
  | inr p ↦ rw p (ground arith)
]

Fits-fixup_btree : (set : BTreeRangeSet) → Fits (fixup (btree set))
unfolding fixup
Fits-fixup_btree set = elim (Bool-cases (leb (length set.inner) 2)) [
  | inl p ↦ rw p (ground arith)
  | inr p ↦ rw p (ground arith)
]

-- Into a set with room, the insertion of a range that is not empty gives a valid set of the same
-- capacity whose ranges are the union.
pub insert-eq-union :
    (s e : ℕ) (set : RangeSet)
    → s < e
    → IsValid set
    → len set < capacity set
    → (set' : RangeSet) × (insert (s, e) set ≡ some set')
      × IsValid set'
      × (iter set' ≡ union s e (iter set))
      × (capacity set' ≡ capacity set)
unfolding insert len capacity iter
insert-eq-union s e (inline set) h v room =
    let grown : InlineRangeSet = record set { inner = union s e set.inner } in
    (
      fixup (inline grown),
      rw (inline_insert-eq-union s e set h v.separated room, insert),
      record {
        fits = Fits-fixup_inline grown (omega (arith, length-union s e set.inner, v.fits));
        separated =
            rw (iter-fixup (inline grown))
              (Above-union 0 s e set.inner (omega arith) h v.separated);
      },
      iter-fixup (inline grown),
      capacity-fixup (inline grown),
    )
insert-eq-union s e (btree set) h v room =
    let grown : BTreeRangeSet = record set { inner = union s e set.inner } in
    (
      fixup (btree grown),
      rw (btree_insert-eq-union s e set h v.separated room, insert),
      record {
        fits = Fits-fixup_btree grown;
        separated =
            rw (iter-fixup (btree grown)) (Above-union 0 s e set.inner (omega arith) h v.separated);
      },
      iter-fixup (btree grown),
      capacity-fixup (btree grown),
    )

-- Into a set with room, the insertion of a range that is not empty succeeds, the result is valid,
-- and it holds exactly the numbers of the range and those that the set held.
pub insert-Covers :
    (s e : ℕ) (set : RangeSet)
    → s < e
    → IsValid set
    → len set < capacity set
    → (set' : RangeSet) × (insert (s, e) set ≡ some set')
      × IsValid set'
      × ((x : ℕ) → Covers x (iter set') ↔ (((s ≤ x) × (x < e)) ⊎ Covers x (iter set)))
insert-Covers s e set h v room =
    let (set', done, v', i, c) = insert-eq-union s e set h v room in
    (set', done, v', λ x. rw i (Covers-union x s e (iter set) h))

-- The vector and the map, given the same ranges with room, come to the same ranges.
pub inline_insert-eq-btree_insert :
    (s e capacity : ℕ) (inner : List Range)
    → s < e
    → IsSeparated inner
    → length inner < capacity
    → (inner' : List Range) × (inline_insert (s, e) (record { inner = inner; capacity = capacity })
        ≡ some (record { inner = inner'; capacity = capacity }))
      × (btree_insert (s, e) (record { inner = inner; capacity = capacity })
          ≡ some (record { inner = inner'; capacity = capacity }))
inline_insert-eq-btree_insert s e capacity inner h w room = (
  union s e inner,
  inline_insert-eq-union s e (record { inner = inner; capacity = capacity }) h w room,
  btree_insert-eq-union s e (record { inner = inner; capacity = capacity }) h w room,
)

-- From a valid set within its capacity, `remove_until` succeeds, the result is valid, and it holds
-- exactly the numbers of the set above `largest`.
pub remove_until-Covers :
    (largest : ℕ) (set : RangeSet)
    → IsValid set
    → len set ≤ capacity set
    → (set' : RangeSet) × (remove_until largest set ≡ some set')
      × IsValid set'
      × ((x : ℕ) → Covers x (iter set') ↔ (Covers x (iter set) × (largest < x)))
unfolding remove_until len capacity iter inline_remove_until
remove_until-Covers largest (inline set) v room =
    let kept : InlineRangeSet = record set { inner = inline_until largest set.inner } in
    (
      fixup (inline kept),
      refl,
      record {
        fits =
            Fits-fixup_inline kept (omega (arith, length-inline_until largest set.inner, v.fits));
        separated =
            rw (iter-fixup (inline kept)) (Above-inline_until largest 0 set.inner v.separated);
      },
      λ x. rw (iter-fixup (inline kept)) (Covers-inline_until x largest 0 set.inner v.separated),
    )
remove_until-Covers largest (btree set) v room =
    let kept : BTreeRangeSet = record set { inner = inline_until largest set.inner } in
    (
      fixup (btree kept),
      rw (btree_remove_until-eq-inline_remove_until largest set v.separated room, remove_until),
      record {
        fits = Fits-fixup_btree kept;
        separated =
            rw (iter-fixup (btree kept)) (Above-inline_until largest 0 set.inner v.separated);
      },
      λ x. rw (iter-fixup (btree kept)) (Covers-inline_until x largest 0 set.inner v.separated),
    )

pub len-iter : (set : RangeSet) → len set ≡ length (iter set)
unfolding len iter
len-iter (inline set) = refl
len-iter (btree set) = refl

pub iter-default : iter default ≡ []
unfolding iter
iter-default = refl

pub default-IsValid : IsValid default
unfolding iter
default-IsValid = record { fits = omega arith; separated = tt }
