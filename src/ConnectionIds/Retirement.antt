-- ===== src/ConnectionIds/Retirement.antt =====
-- ConnectionIdentifiers::new_dcid of quiche/src/cid.rs where the new id raises the bound: which destination ids it
-- retires.
use quirl.Common.{
  ℕ, max, zero, suc, ◌+◌, ◌≤◌, ◌<◌, ◌≡◌, ◌≢◌, refl, ap, ◌∙◌, arith, List, [], ◌∷◌, ◌++◌, ltb,
  ltb-false, lt→ltb, ◌==◌, if◌then◌else◌, length, append-nil, append_assoc, length-append,
  get_elem?, take, drop, take-append_length, drop-append_length, All, Bool, true, false, ◌||◌,
  Bool-cases, if_elim, le_or_lt, Option, Option-cases, none, some, ◌⊎◌, inl, inr,
}
use mathlib.Core.Path.{subst}
use quirl.Common.Result.{Result, ok, err, panic}
use quirl.ConnectionIds.Entries
use quirl.ConnectionIds.Entries.{
  ConnectionId, ConnectionIdEntry, Queue, SeqSet, Error, change, has, find, cid_eq, seq_insert,
}
use quirl.ConnectionIds.Sequences.{
  seqs, Distinct, has-append, seqs-append, seqs-change, insert_known, insert_full, insert_new,
}
use quirl.ConnectionIds.{ConnectionIdentifiers}
use quirl.ConnectionIds.Valid.{IsValid}
use quirl.ConnectionIds.NewDcid.{
  PartitionPoint, Partitions, Paths, Answer, new_dcid, take_dcid, retire_below, retire_loop,
  insert_dcid, after_insert, push_path,
}

-- Neither the id nor its number is known.
abbrev pub Unknown : ConnectionId → ℕ → List ConnectionIdEntry → Type 0
Unknown cid seq = All (λ e. (cid_eq e.cid cid || (e.seq == seq)) ≡ false)

find-Unknown :
    (cid : ConnectionId) (seq : ℕ) (es : List ConnectionIdEntry)
    → Unknown cid seq es
    → find (λ e. cid_eq e.cid cid || (e.seq == seq)) es ≡ none
unfolding find
find-Unknown cid seq [] u = refl
find-Unknown cid seq (e ∷ es) u = rw u.0 (find-Unknown cid seq es u.1)

has-Unknown :
    (cid : ConnectionId) (seq n : ℕ) (es : List ConnectionIdEntry)
    → Unknown cid seq es
    → has n (seqs es) ≡ true
    → n ≢ seq
unfolding has
has-Unknown cid seq n [] u h = cc
has-Unknown cid seq n (e ∷ es) u h = ground (arith, has-Unknown cid seq n es u.1)

has-drop :
    (n k : ℕ) (es : List ConnectionIdEntry)
    → has n (seqs es) ≡ false
    → has n (seqs (drop k es)) ≡ false
unfolding has
has-drop n zero es h = h
has-drop n (suc k) [] h = refl
has-drop n (suc k) (e ∷ es) h = has-drop n k es (ground arith)

-- What stands before the cut is gone, and what stands after it is there.
has-drop_before :
    (k i : ℕ) (es : List ConnectionIdEntry) {a : ConnectionIdEntry}
    → Distinct (seqs es)
    → get_elem? es i ≡ some a
    → i < k
    → has a.seq (seqs (drop k es)) ≡ false
has-drop_before k i [] d g h = cc
has-drop_before zero i (e ∷ es) d g h = absurd (omega arith)
has-drop_before (suc k) zero (e ∷ es) {a} d g h = has-drop a.seq k es (ground arith)
has-drop_before (suc k) (suc i) (e ∷ es) {a} d g h =
    has-drop_before k i es {a = a} d.1 g (omega arith)

has-drop_after :
    (k i : ℕ) (es : List ConnectionIdEntry) {a : ConnectionIdEntry}
    → get_elem? es i ≡ some a
    → k ≤ i
    → has a.seq (seqs (drop k es)) ≡ true
unfolding has
has-drop_after k i [] g h = cc
has-drop_after zero zero (e ∷ es) g h = ground arith
has-drop_after zero (suc i) (e ∷ es) {a} g h = ground (arith, has-drop_after zero i es {a = a} g)
has-drop_after (suc k) zero (e ∷ es) g h = absurd (omega arith)
has-drop_after (suc k) (suc i) (e ∷ es) {a} g h = has-drop_after k i es {a = a} g (omega arith)

-- An insertion that succeeds leaves the other numbers alone, and takes none away.
has-insert :
    (n : ℕ) (e : ConnectionIdEntry) (q : Queue)
    → (Entries.insert e q).0 ≡ ok tt
    → (has n (seqs q.inner) ≡ true → has n (seqs (Entries.insert e q).1.inner) ≡ true)
      × (n ≢ e.seq → has n (seqs (Entries.insert e q).1.inner) ≡ has n (seqs q.inner))
has-insert n e q h = elim (Option-cases (change e.seq (λ _. e) q.inner)) [
  | inl new ↦ elim (le_or_lt q.capacity (length q.inner)) [
    | inl full ↦ cc (insert_full e q new full)
    | inr room ↦
        rw (insert_new e q new room)
          (rw (seqs-append q.inner (e ∷ [])) (kept n e.seq (seqs q.inner)))
  ]
  | inr (l, old) ↦
      rw (insert_known e q l old)
        (rw (seqs-change e.seq (λ _. e) q.inner {es' = l} (λ a p. refl) old) (λ t. t, λ d. refl))
]
  where
    kept :
        (n m : ℕ) (xs : List ℕ)
        → (has n xs ≡ true → has n (xs ++ (m ∷ [])) ≡ true)
          × (n ≢ m → has n (xs ++ (m ∷ [])) ≡ has n xs)
    kept n m xs = (
      λ t. unfold has in ground (arith, has-append n xs (m ∷ [])),
      λ d. unfold has in ground (arith, has-append n xs (m ∷ [])),
    )

change-missing :
    (seq : ℕ) (f : ConnectionIdEntry → ConnectionIdEntry) (es : List ConnectionIdEntry)
    → has seq (seqs es) ≡ false
    → change seq f es ≡ none
unfolding change has
change-missing seq f [] h = refl
change-missing seq f (e ∷ es) h = ground (arith, change-missing seq f es)

-- The numbers to retire, once those of some entries are added.
retire_all : List ConnectionIdEntry → List ℕ → List ℕ
retire_all [] l = l
retire_all (e ∷ es) l = retire_all es (if has e.seq l then l else e.seq ∷ l)

has-eq : (n m : ℕ) (l : List ℕ) → n ≡ m → has m l ≡ true → has n l ≡ true
has-eq n m l e h = rw e h

has-retire_all :
    (n : ℕ) (es : List ConnectionIdEntry) (l : List ℕ)
    → has n (retire_all es l) ≡ (has n (seqs es) || has n l)
unfolding retire_all has
has-retire_all n [] l = refl
has-retire_all n (e ∷ es) l =
    has-retire_all n es (if has e.seq l then l else e.seq ∷ l) ∙ added (has e.seq l) refl
  where
    added :
        (b : Bool)
        → has e.seq l ≡ b
        → (has n (seqs es) || has n (if b then l else e.seq ∷ l))
          ≡ ((n == e.seq || has n (seqs es)) || has n l)
    added true h = elim (Bool-cases (n == e.seq)) [
      | inl same ↦ ground (arith, has-eq n e.seq l)
      | inr other ↦ ground arith
    ]
    added false h = ground arith

-- The pairs that the caller is told of some entries.
abbrev pub told : List ConnectionIdEntry → Paths
told [] = []
told (e ∷ es) = push_path e [] ++ told es

told-push :
    (e : ConnectionIdEntry) (paths more : Paths)
    → push_path e paths ++ more ≡ paths ++ (push_path e [] ++ more)
unfolding push_path
told-push e paths more = by_path e.path_id
  where
    by_path :
        (o : Option ℕ)
        → elim o [ none ↦ paths | some pid ↦ paths ++ ((e.seq, pid) ∷ []) ] ++ more
          ≡ paths ++ (elim o [ none ↦ [] | some pid ↦ [] ++ ((e.seq, pid) ∷ []) ] ++ more)
    by_path none = refl
    by_path (some pid) = append_assoc paths ((e.seq, pid) ∷ []) more

retire_loop_lem :
    (es : List ConnectionIdEntry) (s : SeqSet) (paths : Paths)
    → length s.inner + length es ≤ s.capacity
    → retire_loop es s paths
      ≡ (none, record { inner = retire_all es s.inner; capacity = s.capacity }, paths ++ told es)
unfolding retire_loop retire_all
retire_loop_lem [] s paths h = cc (append-nil paths)
retire_loop_lem (e ∷ es) s paths h = elim (Bool-cases (has e.seq s.inner)) [
  | inl known ↦
      ground
        (arith, retire_loop_lem es s (push_path e paths) (omega arith), told-push e paths (told es))
  | inr new ↦ ground (
    arith,
    retire_loop_lem es (record { inner = e.seq ∷ s.inner; capacity = s.capacity })
        (push_path e paths) (omega arith),
    told-push e paths (told es),
  )
]

-- The method where the id is new and raises the bound.
new_dcid-eq :
    (pp : PartitionPoint) (cid : ConnectionId) (seq token bound : ℕ) (paths : Paths)
    (ids : ConnectionIdentifiers)
    → ids.zero_length_dcid ≡ false
    → Unknown cid seq ids.dcids.inner
    → bound ≤ seq
    → ids.largest_peer_retire_prior_to < bound
    → new_dcid pp cid seq token bound paths ids
      ≡ retire_below
          (pp (λ e. ltb e.seq bound) ids.dcids.inner)
          (record { cid = cid; seq = seq; reset_token = some token; path_id = none })
          bound
          paths
          (record ids {
            largest_destination_seq =
                if ltb ids.largest_destination_seq seq then seq else ids.largest_destination_seq;
          })
unfolding new_dcid take_dcid
new_dcid-eq pp cid seq token bound paths ids z u h lt = simp (
  z,
  find-Unknown cid seq ids.dcids.inner u,
  ltb-false seq bound h,
  ltb-false seq ids.largest_peer_retire_prior_to (omega arith),
  lt→ltb ids.largest_peer_retire_prior_to bound lt,
)

Unknown-has :
    (cid : ConnectionId) (seq : ℕ) (es : List ConnectionIdEntry)
    → Unknown cid seq es
    → has seq (seqs es) ≡ false
unfolding has
Unknown-has cid seq [] u = refl
Unknown-has cid seq (e ∷ es) u = ground (arith, u.0, Unknown-has cid seq es u.1)

Unknown-append :
    (cid : ConnectionId) (seq : ℕ) (xs ys : List ConnectionIdEntry)
    → Unknown cid seq (xs ++ ys)
    → Unknown cid seq ys
Unknown-append cid seq [] ys u = u
Unknown-append cid seq (x ∷ xs) ys u = Unknown-append cid seq xs ys u.1

All-ltb :
    (bound : ℕ) (es : List ConnectionIdEntry)
    → All (λ e. e.seq < bound) es
    → All (λ e. ltb e.seq bound ≡ true) es
All-ltb bound [] h = tt
All-ltb bound (e ∷ es) h = (lt→ltb e.seq bound h.0, All-ltb bound es h.1)

All-not_ltb :
    (bound : ℕ) (es : List ConnectionIdEntry)
    → All (λ e. bound ≤ e.seq) es
    → All (λ e. ltb e.seq bound ≡ false) es
All-not_ltb bound [] h = tt
All-not_ltb bound (e ∷ es) h = (ltb-false e.seq bound h.0, All-not_ltb bound es h.1)

-- The part that drains the queue.
retire_below_lem :
    (index : ℕ) (entry : ConnectionIdEntry) (bound : ℕ) (paths : Paths)
    (ids : ConnectionIdentifiers) (front back : List ConnectionIdEntry)
    → index ≤ length ids.dcids.inner
    → take index ids.dcids.inner ≡ front
    → drop index ids.dcids.inner ≡ back
    → has entry.seq (seqs back) ≡ false
    → length back < ids.dcids.capacity
    → length ids.retire_dcid_seqs.inner + length front ≤ ids.retire_dcid_seqs.capacity
    → retire_below index entry bound paths ids ≡ (
      ok tt,
      record ids {
        dcids = record { inner = back ++ (entry ∷ []); capacity = ids.dcids.capacity };
        retire_dcid_seqs = record {
          inner = retire_all front ids.retire_dcid_seqs.inner;
          capacity = ids.retire_dcid_seqs.capacity;
        };
        largest_peer_retire_prior_to = bound;
      },
      paths ++ told front,
    )
unfolding retire_below insert_dcid
retire_below_lem index entry bound paths ids front back h t d new room free = simp (
  ltb-false (length ids.dcids.inner) index h,
  t,
  d,
  retire_loop_lem front ids.retire_dcid_seqs paths free,
  insert_new entry (record { inner = back; capacity = ids.dcids.capacity })
      (change-missing entry.seq (λ _. entry) back new) room,
)

after_insert-ok :
    (r : Result Error (Unit {0}) × Queue) (queue_err : Option Error) (paths : Paths)
    (ids : ConnectionIdentifiers)
    → (after_insert r queue_err paths ids).0 ≡ ok tt
    → (r.0 ≡ ok tt) × ((after_insert r queue_err paths ids).1.dcids ≡ r.1)
after_insert-ok (ok x, q) queue_err paths ids h = (refl, refl)
after_insert-ok (err e, q) queue_err paths ids h = cc
after_insert-ok (panic, q) queue_err paths ids h = cc

-- After a success, the queue is what was not drained with the id inserted.
retire_below-ok :
    (index : ℕ) (entry : ConnectionIdEntry) (bound : ℕ) (paths : Paths)
    (ids : ConnectionIdentifiers)
    → (retire_below index entry bound paths ids).0 ≡ ok tt
    → let q : Queue = record {
      inner = drop index ids.dcids.inner;
      capacity = ids.dcids.capacity;
    } in
      ((Entries.insert entry q).0 ≡ ok tt)
      × ((retire_below index entry bound paths ids).1.dcids ≡ (Entries.insert entry q).1)
unfolding retire_below insert_dcid
retire_below-ok index entry bound paths ids =
    if_elim Held (ltb (length ids.dcids.inner) index) (λ _ h. cc)
      (λ _.
        after_insert-ok (Entries.insert entry q) r.0 r.2
          (record ids { dcids = q; retire_dcid_seqs = r.1; largest_peer_retire_prior_to = bound }))
  where
    q : Queue
    q = record { inner = drop index ids.dcids.inner; capacity = ids.dcids.capacity }

    r : Option Error × SeqSet × Paths
    r = retire_loop (take index ids.dcids.inner) ids.retire_dcid_seqs paths

    Held : Answer → Type 0
    Held t =
        t.0 ≡ ok tt
        → ((Entries.insert entry q).0 ≡ ok tt) × (t.1.dcids ≡ (Entries.insert entry q).1)

module _ (pp : PartitionPoint) (documented : Partitions pp) (cid : ConnectionId)
    (seq token bound : ℕ) (paths : Paths) (ids : ConnectionIdentifiers) where
  -- An unknown id that raises the bound, where the numbers below the bound stand before the others
  -- and there is room for them and for the id: the method succeeds, drops exactly those below the
  -- bound, with their links to paths told to the caller, adds the id at the end, and notes the bound
  -- and the largest number; the numbers that wait to be announced as retired are those that did and
  -- those that were dropped.
  pub new_dcid_lem :
      (front back : List ConnectionIdEntry)
      → ids.zero_length_dcid ≡ false
      → ids.dcids.inner ≡ front ++ back
      → Unknown cid seq (front ++ back)
      → All (λ e. e.seq < bound) front
      → All (λ e. bound ≤ e.seq) back
      → bound ≤ seq
      → ids.largest_peer_retire_prior_to < bound
      → length back < ids.dcids.capacity
      → length ids.retire_dcid_seqs.inner + length front ≤ ids.retire_dcid_seqs.capacity
      → (retired : List ℕ) × (new_dcid pp cid seq token bound paths ids ≡ (
        ok tt,
        record ids {
          dcids = record {
            inner =
                back
                ++ (record { cid = cid; seq = seq; reset_token = some token; path_id = none } ∷ []);
            capacity = ids.dcids.capacity;
          };
          retire_dcid_seqs = record { inner = retired; capacity = ids.retire_dcid_seqs.capacity };
          largest_peer_retire_prior_to = bound;
          largest_destination_seq = max ids.largest_destination_seq seq;
        },
        paths ++ told front,
      ))
        × ((n : ℕ) → has n retired ≡ (has n (seqs front) || has n ids.retire_dcid_seqs.inner))
  new_dcid_lem front back z split u low high h lt room free = (
    retire_all front ids.retire_dcid_seqs.inner,
    (new_dcid-eq pp cid seq token bound paths ids z (rw split u) h lt)
        ∙ (retire_below_lem (pp (λ e. ltb e.seq bound) ids.dcids.inner) entry bound paths
            (record ids {
              largest_destination_seq =
                  if ltb ids.largest_destination_seq seq then seq else ids.largest_destination_seq;
            })
            front back (omega (arith, cut, ap length split, length-append front back))
            (rw cut (rw split (take-append_length front back)))
            (rw cut (rw split (drop-append_length front back)))
            (Unknown-has cid seq back (Unknown-append cid seq front back u)) room free)
        ∙ ground arith,
    λ n. has-retire_all n front ids.retire_dcid_seqs.inner,
  )
    where
      entry : ConnectionIdEntry
      entry = record { cid = cid; seq = seq; reset_token = some token; path_id = none }

      cut : pp (λ e. ltb e.seq bound) ids.dcids.inner ≡ length front
      cut = rw split (
          documented (λ e. ltb e.seq bound) front back (All-ltb bound front low)
            (All-not_ltb bound back high))

module _ (pp : PartitionPoint) (cid : ConnectionId) (seq token bound : ℕ) (paths : Paths)
    (ids : ConnectionIdentifiers) where
  -- Ids that arrived out of order: where a number from the bound on stands before one below it, and a
  -- new id raises the bound, then wherever the search by halves ends, a success leaves the one below
  -- the bound in use, or drops the other.
  pub new_dcid_reordered :
      (i j : ℕ) {late early : ConnectionIdEntry}
      → IsValid ids
      → ids.zero_length_dcid ≡ false
      → get_elem? ids.dcids.inner i ≡ some late
      → get_elem? ids.dcids.inner j ≡ some early
      → i < j
      → bound ≤ late.seq
      → early.seq < bound
      → Unknown cid seq ids.dcids.inner
      → bound ≤ seq
      → ids.largest_peer_retire_prior_to < bound
      → (new_dcid pp cid seq token bound paths ids).0 ≡ ok tt
      → (has early.seq (seqs (new_dcid pp cid seq token bound paths ids).1.dcids.inner) ≡ true)
        ⊎ (has late.seq (seqs (new_dcid pp cid seq token bound paths ids).1.dcids.inner) ≡ false)
  new_dcid_reordered i j {late} {early} v z gi gj ij hl he u h lt success =
      let e = new_dcid-eq pp cid seq token bound paths ids z u h lt in
      let done =
        retire_below-ok index entry bound paths ids'
          (subst (λ (t : Answer). t.0 ≡ ok tt) e success) in
      rw (e, done.1)
        (elim (le_or_lt index j) [
          | inl kept ↦ inl (
              (has-insert early.seq entry q done.0).0
                (has-drop_after index j ids.dcids.inner {a = early} gj kept))
          | inr gone ↦ inr (
              (has-insert late.seq entry q done.0).1 other
              ∙ has-drop_before index i ids.dcids.inner {a = late} v.dcids.fits.distinct gi
                  (omega arith))
        ])
    where
      index : ℕ
      index = pp (λ e. ltb e.seq bound) ids.dcids.inner

      entry : ConnectionIdEntry
      entry = record { cid = cid; seq = seq; reset_token = some token; path_id = none }

      ids' : ConnectionIdentifiers
      ids' = record ids {
        largest_destination_seq =
            if ltb ids.largest_destination_seq seq then seq else ids.largest_destination_seq;
      }

      q : Queue
      q = record { inner = drop index ids.dcids.inner; capacity = ids.dcids.capacity }

      other : late.seq ≢ seq
      other =
          has-Unknown cid seq late.seq ids.dcids.inner u
            (has-drop_after 0 i ids.dcids.inner {a = late} gi (omega arith))
