-- ===== src/Ranges/Tests.antt =====
-- Runs of the range sets, and the theorems at concrete inputs.
use quirl.Common.{ℕ, ◌≤◌, ◌<◌, ◌≡◌, refl, arith, List, [], ◌∷◌, some, none, ◌⊎◌, ◌↔◌}
use quirl.Ranges.{
  Range, RangeSet, inline, btree, iter, len, insert, remove_until, inline_insert, btree_insert,
  fixup, tree_insert, tree_loop, tree_finish, take_previous, map_insert, map_remove, prev_to,
  next_to, range_overlaps, contains, first, last, first_start, last_end,
}
use quirl.Ranges.Union.{Covers}
use quirl.Ranges.Inline.{inline_insert_full}
use quirl.Ranges.View.{
  IsValid, capacity, insert-Covers, inline_insert-eq-btree_insert, remove_until-Covers,
}

abbrev three : RangeSet
three = btree (record { inner = (2, 5) ∷ (7, 9) ∷ (20, 30) ∷ []; capacity = 8 })

three-IsValid : IsValid three
unfolding iter
three-IsValid = record { fits = omega arith; separated = omega arith }

-- Two ranges are bridged, and the set becomes a vector.
insert_bridge :
    insert (4, 7) three ≡ some (inline (record { inner = (2, 9) ∷ (20, 30) ∷ []; capacity = 8 }))
unfolding insert btree_insert tree_insert tree_loop tree_finish take_previous map_insert map_remove
    prev_to next_to range_overlaps contains fixup
insert_bridge = refl

-- At capacity the smallest range makes place.
insert_evicts : tree_insert (40, 41) ((2, 5) ∷ (7, 9) ∷ []) 2 ≡ some ((7, 9) ∷ (40, 41) ∷ [])
unfolding tree_insert tree_loop tree_finish take_previous map_insert map_remove prev_to next_to
    range_overlaps contains
insert_evicts = refl

ends : (first three ≡ some 2) × (last three ≡ some 29)
unfolding first last first_start last_end iter
ends = (refl, refl)

insert-Covers_example :
    (set' : RangeSet) × (insert (4, 7) three ≡ some set')
    × IsValid set'
    × ((x : ℕ) → Covers x (iter set') ↔ (((4 ≤ x) × (x < 7)) ⊎ Covers x (iter three)))
insert-Covers_example =
    insert-Covers 4 7 three (omega arith) three-IsValid (unfold len capacity in omega arith)

inline_insert-eq-btree_insert_example :
    (inner' : List Range) × (inline_insert
        (4, 7)
        (record { inner = (2, 5) ∷ (7, 9) ∷ []; capacity = 8 })
      ≡ some (record { inner = inner'; capacity = 8 }))
    × (btree_insert (4, 7) (record { inner = (2, 5) ∷ (7, 9) ∷ []; capacity = 8 })
        ≡ some (record { inner = inner'; capacity = 8 }))
inline_insert-eq-btree_insert_example =
    inline_insert-eq-btree_insert 4 7 8 ((2, 5) ∷ (7, 9) ∷ []) (omega arith) (omega arith)
      (omega arith)

remove_until-Covers_example :
    (set' : RangeSet) × (remove_until 7 three ≡ some set')
    × IsValid set'
    × ((x : ℕ) → Covers x (iter set') ↔ (Covers x (iter three) × (7 < x)))
remove_until-Covers_example =
    remove_until-Covers 7 three three-IsValid (unfold len capacity in omega arith)

inline_insert_full_example :
    inline_insert (1, 2) (record { inner = (4, 5) ∷ (8, 9) ∷ []; capacity = 2 }) ≡ none
inline_insert_full_example =
    inline_insert_full 1 2 4 5 2 ((8, 9) ∷ []) (omega arith) (omega arith) (omega arith)
      (omega arith)
