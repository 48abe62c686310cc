-- ===== src/ConnectionIds/NewDcid.antt =====
-- ConnectionIdentifiers::new_dcid of quiche/src/cid.rs: an id that the peer gives, with the bound below which the
-- older ones are to be retired.
-- `partition_point` is the method of VecDeque, which searches by halves: it is documented only for a
-- queue whose entries that pass the test all stand before those that do not.
use quirl.Common.{
  ℕ, ◌≡◌, List, [], ◌∷◌, ◌++◌, ltb, ◌==◌, if◌then◌else◌, length, take, drop, All, Bool, true, false,
  not, ◌||◌, Option, none, some,
}
use quirl.Common.Result.{Result, ok, err, panic}
use quirl.ConnectionIds.Entries
use quirl.ConnectionIds.Entries.{
  ConnectionId, ConnectionIdEntry, Queue, SeqSet, Error, invalid_state, invalid_frame,
  out_of_identifiers, cid_eq, token_eq, find, seq_insert,
}
use quirl.ConnectionIds.{ConnectionIdentifiers, mark_retire_dcid_seq}

abbrev pub PartitionPoint : Type 0
PartitionPoint = (ConnectionIdEntry → Bool) → List ConnectionIdEntry → ℕ

-- What is documented of it.
abbrev pub Partitions : PartitionPoint → Type 0
Partitions partition_point =
    (p : ConnectionIdEntry → Bool) (front back : List ConnectionIdEntry)
    → All (λ e. p e ≡ true) front
    → All (λ e. p e ≡ false) back
    → partition_point p (front ++ back) ≡ length front

-- The pairs of a number and a path that the caller is told.
abbrev pub Paths : Type 0
Paths = List (ℕ × ℕ)

unfoldable pub push_path : ConnectionIdEntry → Paths → Paths
push_path e paths = elim e.path_id [ none ↦ paths | some pid ↦ paths ++ ((e.seq, pid) ∷ []) ]

-- The loop over what is drained: the error of the set ends it, and what was not looked at is dropped
-- all the same.
unfoldable pub retire_loop : List ConnectionIdEntry → SeqSet → Paths → Option Error × SeqSet × Paths
unfolding push_path seq_insert
retire_loop [] retired paths = (none, retired, paths)
retire_loop (e ∷ es) retired paths =
    let (r, retired') = seq_insert e.seq retired in
    elim r [
      | ok b ↦ retire_loop es retired' (push_path e paths)
      | err er ↦ (some er, retired', push_path e paths)
      | panic ↦ (none, retired', push_path e paths)
    ]

abbrev pub Answer : Type 0
Answer = Result Error (Unit {0}) × ConnectionIdentifiers × Paths

-- The delayed error.
abbrev pub delayed : Option Error → Result Error (Unit {0})
delayed none = ok tt
delayed (some e) = err e

abbrev pub after_insert :
    Result Error (Unit {0}) × Queue → Option Error → Paths → ConnectionIdentifiers → Answer
after_insert (ok x, q) queue_err paths ids = (delayed queue_err, record ids { dcids = q }, paths)
after_insert (err e, q) queue_err paths ids = (err e, record ids { dcids = q }, paths)
after_insert (panic, q) queue_err paths ids = (panic, record ids { dcids = q }, paths)

unfoldable pub insert_dcid :
    ConnectionIdEntry → Option Error → Paths → ConnectionIdentifiers → Answer
unfolding Entries.insert
insert_dcid entry queue_err paths ids =
    after_insert (Entries.insert entry ids.dcids) queue_err paths ids

-- The entries that are drained, and what is left.
unfoldable pub retire_below : ℕ → ConnectionIdEntry → ℕ → Paths → ConnectionIdentifiers → Answer
unfolding retire_loop insert_dcid
retire_below index entry retire_prior_to paths ids =
    if ltb (length ids.dcids.inner) index
    then (panic, ids, paths)
    else (let (queue_err, retired, paths') =
          retire_loop (take index ids.dcids.inner) ids.retire_dcid_seqs paths in
        insert_dcid entry queue_err paths' (record ids {
          dcids = record { inner = drop index ids.dcids.inner; capacity = ids.dcids.capacity };
          retire_dcid_seqs = retired;
          largest_peer_retire_prior_to = retire_prior_to;
        }))

abbrev pub with_paths : Result Error (Unit {0}) × ConnectionIdentifiers → Paths → Answer
with_paths (r, ids) paths = (r, ids, paths)

module _ (partition_point : PartitionPoint) where
  -- The method, once the id is known to be new.
  unfoldable pub take_dcid : ConnectionIdEntry → ℕ → Paths → ConnectionIdentifiers → Answer
  unfolding mark_retire_dcid_seq retire_below insert_dcid
  take_dcid entry retire_prior_to paths ids =
      if ltb entry.seq retire_prior_to
      then (err invalid_frame, ids, paths)
      else if ltb entry.seq ids.largest_peer_retire_prior_to
      then with_paths (mark_retire_dcid_seq entry.seq true ids) paths
      else (let ids' = record ids {
        largest_destination_seq =
            if ltb ids.largest_destination_seq entry.seq
            then entry.seq
            else ids.largest_destination_seq;
      } in
          if ltb ids.largest_peer_retire_prior_to retire_prior_to
          then (if ltb entry.seq retire_prior_to
              then (err out_of_identifiers, ids', paths)
              else retire_below (partition_point (λ e. ltb e.seq retire_prior_to) ids.dcids.inner)
                  entry retire_prior_to paths ids')
          else insert_dcid entry none paths ids')

  unfoldable pub new_dcid : ConnectionId → ℕ → ℕ → ℕ → Paths → ConnectionIdentifiers → Answer
  unfolding find cid_eq token_eq take_dcid
  new_dcid cid seq reset_token retire_prior_to paths ids =
      if ids.zero_length_dcid
      then (err invalid_state, ids, paths)
      else elim (find (λ e. cid_eq e.cid cid || e.seq == seq) ids.dcids.inner) [
        | some e ↦
            if not (cid_eq e.cid cid)
              || (not (e.seq == seq) || not (token_eq e.reset_token (some reset_token)))
            then (err invalid_frame, ids, paths)
            else (ok tt, ids, paths)
        | none ↦
            take_dcid
              (record { cid = cid; seq = seq; reset_token = some reset_token; path_id = none })
              retire_prior_to paths ids
      ]
