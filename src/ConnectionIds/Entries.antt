-- ===== src/ConnectionIds/Entries.antt =====
-- The collections of quiche/src/cid.rs: BoundedNonEmptyConnectionIdVecDeque, the ids in the order in which they
-- were inserted, and BoundedConnectionIdSeqSet, a set of sequence numbers. Both refuse what would
-- exceed their capacity. A HashSet is a list without repetition, whose order nothing below reads.
use quirl.Common.{
  ℕ, ◌+◌, List, [], ◌∷◌, ◌++◌, ltb, leb, ◌==◌, if◌then◌else◌, length, Bool, true, false, ◌&&◌, ◌||◌,
  Option, none, some,
}
use quirl.Common.Result.{Result, ok, err}

pub data Error : Type 0 where
  id_limit invalid_state invalid_frame out_of_identifiers : Error

abbrev pub ConnectionId : Type 0
ConnectionId = List ℕ

-- `==` of two connection ids, which compares their bytes.
unfoldable pub cid_eq : ConnectionId → ConnectionId → Bool
cid_eq [] [] = true
cid_eq [] (b ∷ bs) = false
cid_eq (a ∷ as') [] = false
cid_eq (a ∷ as') (b ∷ bs) = a == b && cid_eq as' bs

-- `==` of two tokens.
unfoldable pub token_eq : Option ℕ → Option ℕ → Bool
token_eq none none = true
token_eq none (some b) = false
token_eq (some a) none = false
token_eq (some a) (some b) = a == b

abbrev pub is_none : Option ℕ → Bool
is_none none = true
is_none (some x) = false

pub record ConnectionIdEntry : Type 0 where
  pub cid : ConnectionId
  pub seq : ℕ
  pub reset_token : Option ℕ
  pub path_id : Option ℕ

-- `iter().find(...)`
unfoldable pub find : (ConnectionIdEntry → Bool) → List ConnectionIdEntry → Option ConnectionIdEntry
find p [] = none
find p (e ∷ es) = if p e then some e else find p es

-- The change of the first entry with this number; none if there is no such entry.
unfoldable pub change :
    ℕ
    → (ConnectionIdEntry → ConnectionIdEntry)
    → List ConnectionIdEntry
    → Option (List ConnectionIdEntry)
change seq f [] = none
change seq f (e ∷ es) =
    if e.seq == seq
    then some (f e ∷ es)
    else elim (change seq f es) [ none ↦ none | some es' ↦ some (e ∷ es') ]

-- `iter().position(|e| e.seq == seq).and_then(|index| inner.remove(index))`
unfoldable pub take_out :
    ℕ → List ConnectionIdEntry → Option ConnectionIdEntry × List ConnectionIdEntry
take_out seq [] = (none, [])
take_out seq (e ∷ es) =
    let (found, rest) = take_out seq es in if e.seq == seq then (some e, es) else (found, e ∷ rest)

-- `iter().filter_map(...).min()` over the numbers of the entries that pass the test.
unfoldable pub min_seq : (ConnectionIdEntry → Bool) → List ConnectionIdEntry → Option ℕ
min_seq p [] = none
min_seq p (e ∷ es) =
    if p e
    then elim (min_seq p es) [
      | none ↦ some e.seq
      | some m ↦ some (if leb e.seq m then e.seq else m)
    ]
    else min_seq p es

-- `iter().filter(...).count()`
unfoldable pub count : (ConnectionIdEntry → Bool) → List ConnectionIdEntry → ℕ
count p [] = 0
count p (e ∷ es) = if p e then 1 + count p es else count p es

pub record Queue : Type 0 where
  pub inner : List ConnectionIdEntry
  pub capacity : ℕ

unfoldable pub new : ℕ → ConnectionIdEntry → Queue
new capacity initial_entry = record { inner = initial_entry ∷ []; capacity = capacity }

unfoldable pub resize : ℕ → Queue → Queue
resize new_capacity q =
    if ltb q.capacity new_capacity then record q { capacity = new_capacity } else q

-- None is the panic of `expect`.
unfoldable pub get_oldest : Queue → Option ConnectionIdEntry
get_oldest q = elim q.inner [ [] ↦ none | e ∷ es ↦ some e ]

unfoldable pub get : ℕ → Queue → Option ConnectionIdEntry
unfolding find
get seq q = find (λ e. e.seq == seq) q.inner

unfoldable pub insert : ConnectionIdEntry → Queue → Result Error (Unit {0}) × Queue
unfolding change
insert e q = elim (change e.seq (λ _. e) q.inner) [
  | some inner ↦ (ok tt, record q { inner = inner })
  | none ↦
      if leb q.capacity (length q.inner)
      then (err id_limit, q)
      else (ok tt, record q { inner = q.inner ++ (e ∷ []) })
]

unfoldable pub clear_and_insert : ConnectionIdEntry → Queue → Queue
clear_and_insert e q = record q { inner = e ∷ [] }

unfoldable pub remove : ℕ → Queue → Result Error (Option ConnectionIdEntry) × Queue
unfolding take_out
remove seq q =
    if leb (length q.inner) 1
    then (err out_of_identifiers, q)
    else (ok (take_out seq q.inner).0, record q { inner = (take_out seq q.inner).1 })

pub record SeqSet : Type 0 where
  pub inner : List ℕ
  pub capacity : ℕ

-- `HashSet::contains`
unfoldable pub has : ℕ → List ℕ → Bool
has e [] = false
has e (x ∷ xs) = e == x || has e xs

-- `HashSet::remove`
unfoldable pub erase : ℕ → List ℕ → List ℕ
erase e [] = []
erase e (x ∷ xs) = if e == x then xs else x ∷ erase e xs

unfoldable pub seq_insert : ℕ → SeqSet → Result Error Bool × SeqSet
unfolding has
seq_insert e s =
    if leb s.capacity (length s.inner)
    then (err id_limit, s)
    else if has e s.inner
    then (ok false, s)
    else (ok true, record s { inner = e ∷ s.inner })

unfoldable pub seq_remove : ℕ → SeqSet → Bool × SeqSet
unfolding has erase
seq_remove e s = (has e s.inner, record s { inner = erase e s.inner })
