-- ===== src/Ranges.antt =====
-- quiche/src/ranges.rs: sets of numbers kept as sorted, separated, half-open ranges, in a short
-- vector (`InlineRangeSet`) or in a `BTreeMap` from start to end (`BTreeRangeSet`).
-- A `BTreeMap` is its list of entries in the order of the keys; the map's own methods are the first
-- functions below. `none` is a panic: `remove(0)` of an empty vector or `pos -= 1` at 0.
use quirl.Common.{
  ℕ, zero, suc, ◌+◌, ◌-◌, ◌^◌, min, max, List, [], ◌∷◌, ◌++◌, ltb, leb, ◌==◌, if◌then◌else◌, length,
  Bool, true, false, not, ◌&&◌, ◌||◌, Option, none, some,
}
use mathlib.Core.List.{head?, map, tail}
pub mod Union
pub mod Inline
pub mod Entries
pub mod Absorb
pub mod Tree
pub mod Until
pub mod View
pub mod Equal
mod Tests

-- A `Range<u64>`, its start and its end.
abbrev pub Range : Type 0
Range = ℕ × ℕ

abbrev pub max_inline_capacity : ℕ
max_inline_capacity = 4

abbrev pub min_to_inline : ℕ
min_to_inline = 2

pub record InlineRangeSet : Type 0 where
  pub inner : List Range
  pub capacity : ℕ

pub record BTreeRangeSet : Type 0 where
  pub inner : List Range
  pub capacity : ℕ

pub data RangeSet : Type 0 where
  inline : InlineRangeSet → RangeSet
  btree : BTreeRangeSet → RangeSet

-- BTreeMap::insert
pub map_insert : ℕ → ℕ → List Range → List Range
map_insert k v [] = (k, v) ∷ []
map_insert k v ((a, b) ∷ m) =
    if ltb k a
    then (k, v) ∷ (a, b) ∷ m
    else if k == a
    then (k, v) ∷ m
    else (a, b) ∷ map_insert k v m

-- BTreeMap::remove
pub map_remove : ℕ → List Range → List Range
map_remove k [] = []
map_remove k ((a, b) ∷ m) = if k == a then m else (a, b) ∷ map_remove k m

-- The last entry whose key is at most `item`.
pub prev_to : ℕ → List Range → Option Range
prev_to item [] = none
prev_to item ((a, b) ∷ m) =
    if leb a item then elim (prev_to item m) [ none ↦ some (a, b) | some r ↦ some r ] else none

-- The first entry whose key is at least `item`.
pub next_to : ℕ → List Range → Option Range
next_to item [] = none
next_to item ((a, b) ∷ m) = if leb item a then some (a, b) else next_to item m

pub range_overlaps : Range → Range → Bool
range_overlaps (rs, re) (os, oe) = (leb rs os && leb os re) || (leb rs oe && leb oe re)

-- `range.contains(&x)`
pub contains : Range → ℕ → Bool
contains (s, e) x = leb s x && ltb x e

-- `Vec::remove(0)`
pub remove_first : List Range → Option (List Range)
remove_first [] = none
remove_first (r ∷ rs) = some rs

-- "Merge any newly overlapping ranges": the range at `pos` is (s, end), `rest` is what follows it.
pub merge_next : ℕ → ℕ → List Range → List Range
merge_next s end [] = (s, end) ∷ []
merge_next s end ((s', e') ∷ rest) =
    if ltb end s' then (s, end) ∷ (s', e') ∷ rest else merge_next s (max e' end) rest

-- The loop of `InlineRangeSet::insert`: `front` is what stands before `pos`, `rest` what stands from
-- `pos` on.
pub inline_loop : ℕ → ℕ → ℕ → List Range → List Range → Option (List Range)
inline_loop capacity start end front [] =
    if length front == capacity
    then elim (remove_first front) [
      | none ↦ none
      | some inner ↦ some (inner ++ ((start, end) ∷ []))
    ]
    else some (front ++ ((start, end) ∷ []))
inline_loop capacity start end front ((s, e) ∷ rest) =
    let further = inline_loop capacity start end (front ++ ((s, e) ∷ [])) rest in
    if ltb e start
    then further
    else if ltb end s
    then (if length (front ++ ((s, e) ∷ rest)) == capacity
        then elim (remove_first front) [
          | none ↦ none
          | some front' ↦ some (front' ++ ((start, end) ∷ (s, e) ∷ rest))
        ]
        else some (front ++ ((start, end) ∷ (s, e) ∷ rest)))
    else (let s' = if ltb start s then start else s in
        if ltb e end
        then some (front ++ merge_next s' end rest)
        else some (front ++ ((s', e) ∷ rest)))

pub inline_insert : Range → InlineRangeSet → Option InlineRangeSet
inline_insert (start, end) set = elim (inline_loop set.capacity start end [] set.inner) [
  | none ↦ none
  | some inner ↦ some (record set { inner = inner })
]

pub inline_until : ℕ → List Range → List Range
inline_until largest [] = []
inline_until largest ((s, e) ∷ rest) =
    let further = inline_until largest rest in
    if leb e largest
    then further
    else (let s' = max (largest + 1) s in if s' == e then rest else (s', e) ∷ rest)

pub inline_remove_until : ℕ → InlineRangeSet → InlineRangeSet
inline_remove_until largest set = record set { inner = inline_until largest set.inner }

-- The `while let` of `BTreeRangeSet::insert`. Each round but the last removes an entry, so
-- `length inner + 1` rounds are enough (`tree_loop_lem`); `none` is also given when the fuel ends.
pub tree_loop : ℕ → Range → ℕ → ℕ → List Range → Option (ℕ × ℕ × List Range)
tree_loop zero item start end inner = none
tree_loop (suc fuel) item start end inner = elim (next_to start inner) [
  | none ↦ some (start, end, inner)
  | some (rs, re) ↦
      let dropped = tree_loop fuel item start end (map_remove rs inner) in
      let merged = tree_loop fuel item (min start rs) (max end re) (map_remove rs inner) in
      if contains item rs && contains item re
      then dropped
      else if not (range_overlaps (rs, re) item)
      then some (start, end, inner)
      else merged
]

-- The `if let` of `BTreeRangeSet::insert`: a preceding range that overlaps is taken out.
pub take_previous : Range → List Range → ℕ × ℕ × List Range
take_previous (start, end) inner = elim (prev_to start inner) [
  | none ↦ (start, end, inner)
  | some (rs, re) ↦
      if range_overlaps (rs, re) (start, end)
      then (min start rs, max end re, map_remove rs inner)
      else (start, end, inner)
]

-- The rest of the method: `pop_first` at capacity, which does nothing to an empty map.
pub tree_finish : ℕ → Option (ℕ × ℕ × List Range) → Option (List Range)
tree_finish capacity none = none
tree_finish capacity (some (start, end, inner)) =
    some (map_insert start end (if leb capacity (length inner) then tail inner else inner))

pub tree_insert : Range → List Range → ℕ → Option (List Range)
tree_insert item inner capacity =
    let (start, end, inner') = take_previous item inner in
    tree_finish capacity (tree_loop (length inner' + 1) item start end inner')

pub btree_insert : Range → BTreeRangeSet → Option BTreeRangeSet
btree_insert item set = elim (tree_insert item set.inner set.capacity) [
  | none ↦ none
  | some inner ↦ some (record set { inner = inner })
]

-- The ranges that `remove_until` collects: those whose start is at most `largest`.
pub starting_until : ℕ → List Range → List Range
starting_until largest [] = []
starting_until largest ((s, e) ∷ rest) =
    if leb s largest then (s, e) ∷ starting_until largest rest else []

-- The `for r in ranges` of `BTreeRangeSet::remove_until`.
pub tree_until : ℕ → List Range → ℕ → List Range → Option (List Range)
tree_until largest [] capacity inner = some inner
tree_until largest ((s, e) ∷ rs) capacity inner =
    let inner' = map_remove s inner in
    let skipped = tree_until largest rs capacity inner' in
    if ltb (largest + 1) e
    then elim (tree_insert (largest + 1, e) inner' capacity) [
      | none ↦ none
      | some inner'' ↦ tree_until largest rs capacity inner''
    ]
    else skipped

pub btree_remove_until : ℕ → BTreeRangeSet → Option BTreeRangeSet
btree_remove_until largest set =
    elim (tree_until largest (starting_until largest set.inner) set.capacity set.inner) [
      | none ↦ none
      | some inner ↦ some (record set { inner = inner })
    ]

-- `RangeSet::new`
pub new : ℕ → RangeSet
new capacity = inline (record { inner = []; capacity = capacity })

-- `RangeSet::default`: a capacity of `usize::MAX`.
abbrev pub default : RangeSet
default = inline (record { inner = []; capacity = 2 ^ 64 - 1 })

-- `RangeSet::iter`, from the smallest range up.
unfoldable pub iter : RangeSet → List Range
iter (inline set) = set.inner
iter (btree set) = set.inner

pub len : RangeSet → ℕ
len (inline set) = length set.inner
len (btree set) = length set.inner

-- The comparison with a range (`PartialEq<Range<u64>>`).
pub equals : Range → RangeSet → Bool
equals (start, end) set =
    if not (len set == 1)
    then false
    else elim (iter set) [ [] ↦ false | (s, e) ∷ rs ↦ s == start && e == end ]

pub fixup : RangeSet → RangeSet
fixup (inline set) =
    if length set.inner == max_inline_capacity
    then btree (record { inner = set.inner; capacity = set.capacity })
    else inline set
fixup (btree set) =
    if leb (length set.inner) min_to_inline
    then inline (record { inner = set.inner; capacity = set.capacity })
    else btree set

pub insert : Range → RangeSet → Option RangeSet
insert item (inline set) = elim (inline_insert item set) [
  | none ↦ none
  | some set' ↦ some (fixup (inline set'))
]
insert item (btree set) = elim (btree_insert item set) [
  | none ↦ none
  | some set' ↦ some (fixup (btree set'))
]

pub remove_until : ℕ → RangeSet → Option RangeSet
remove_until largest (inline set) = some (fixup (inline (inline_remove_until largest set)))
remove_until largest (btree set) = elim (btree_remove_until largest set) [
  | none ↦ none
  | some set' ↦ some (fixup (btree set'))
]

pub push_item : ℕ → RangeSet → Option RangeSet
push_item item set = insert (item, item + 1) set

-- The numbers from `s` on, `n` of them.
pub count_up : ℕ → ℕ → List ℕ
count_up zero s = []
count_up (suc n) s = s ∷ count_up n (s + 1)

pub flatten_ranges : List Range → List ℕ
flatten_ranges [] = []
flatten_ranges ((s, e) ∷ rs) = count_up (e - s) s ++ flatten_ranges rs

-- `RangeSet::flatten`
pub flatten : RangeSet → List ℕ
flatten set = flatten_ranges (iter set)

pub first_start : List Range → Option ℕ
first_start [] = none
first_start ((s, e) ∷ rs) = some s

pub last_end : List Range → Option ℕ
last_end [] = none
last_end ((s, e) ∷ []) = some (e - 1)
last_end (_ ∷ r ∷ rs) = last_end (r ∷ rs)

pub first : RangeSet → Option ℕ
first set = first_start (iter set)

pub last : RangeSet → Option ℕ
last set = last_end (iter set)
