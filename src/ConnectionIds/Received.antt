-- ===== src/ConnectionIds/Received.antt =====
-- The methods of quiche/src/cid.rs that change the destination ids keep what is asked of the state.
use quirl.Common.{
  ℕ, ◌+◌, ◌≤◌, ◌<◌, ◌≡◌, refl, arith, List, [], ◌∷◌, ltb, length, take, drop, Bool, true, not,
  if_elim, if◌then◌else◌, ◌||◌, ◌==◌, Option, none, some,
}
use quirl.Common.Result.{Result, ok, err, panic}
use quirl.Common.Exec.{continue}
use quirl.ConnectionIds.Entries
use quirl.ConnectionIds.Entries.{
  ConnectionId, ConnectionIdEntry, Queue, SeqSet, Error, change, min_seq, remove, seq_insert,
  seq_remove, find, cid_eq, token_eq, is_none, invalid_state, invalid_frame,
}
use quirl.ConnectionIds.Sequences.{
  Fits, insert-Fits, insert-filled, insert-capacity, remove-capacity, Fits-le, remove-Fits,
  drop-Fits, change-Fits, seq_insert-within, seq_remove-within,
}
use quirl.ConnectionIds.{
  ConnectionIdentifiers, retire_dcid, mark_retire_dcid_seq, announce_retired, linked, with_retired,
  link_dcid_to_path_id, in_dcids,
}
use quirl.ConnectionIds.NewDcid.{
  PartitionPoint, Paths, Answer, new_dcid, take_dcid, retire_below, retire_loop, push_path,
  insert_dcid, after_insert,
}
use quirl.ConnectionIds.Valid.{ScidsValid, DcidsValid, IsValid, Ensures, Keeps, continue-IsValid}

pub link_dcid-IsValid :
    (seq path_id : ℕ) (ids : ConnectionIdentifiers)
    → IsValid ids
    → IsValid (link_dcid_to_path_id seq path_id ids).1
unfolding link_dcid_to_path_id
link_dcid-IsValid seq path_id ids v = found (change seq (linked path_id) ids.dcids.inner) refl
  where
    found :
        (o : Option (List ConnectionIdEntry))
        → change seq (linked path_id) ids.dcids.inner ≡ o
        → Keeps {A = Unit {0}} (elim o [
          | none ↦ (err invalid_state, ids)
          | some inner ↦ (
            ok tt,
            record ids { dcids = record { inner = inner; capacity = ids.dcids.capacity } },
          )
        ])
    found none q = v
    found (some es) q =
        let fits =
          change-Fits (ids.largest_destination_seq + 1) seq (linked path_id) ids.dcids {es = es}
            (λ e. refl) q v.dcids.fits in
        record {
          scids = v.scids;
          dcids = record {
            fits = fits.0;
            filled = rw fits.1 v.dcids.filled;
            capacity = v.dcids.capacity;
            retired = v.dcids.retired;
          };
        }

pub mark_retire-IsValid :
    (seq : ℕ) (b : Bool) (ids : ConnectionIdentifiers)
    → IsValid ids
    → IsValid (mark_retire_dcid_seq seq b ids).1
unfolding mark_retire_dcid_seq
mark_retire-IsValid seq b ids v =
    if_elim (Keeps {A = Unit {0}}) b
      (λ _. answered (seq_insert seq ids.retire_dcid_seqs) (
        within (seq_insert seq ids.retire_dcid_seqs).1
          (seq_insert-within seq ids.retire_dcid_seqs v.dcids.retired)))
      (λ _.
        answered (ok true, (seq_remove seq ids.retire_dcid_seqs).1)
          (within (seq_remove seq ids.retire_dcid_seqs).1
            (seq_remove-within seq ids.retire_dcid_seqs v.dcids.retired)))
  where
    within :
        (s : SeqSet)
        → (length s.inner ≤ ids.retire_dcid_seqs.capacity)
          × (s.capacity ≡ ids.retire_dcid_seqs.capacity)
        → length s.inner ≤ s.capacity
    within s h = omega (arith, h.0, h.1)

    held :
        (s : SeqSet) → length s.inner ≤ s.capacity → IsValid (record ids { retire_dcid_seqs = s })
    held s h = record {
      scids = v.scids;
      dcids = record {
        fits = v.dcids.fits;
        filled = v.dcids.filled;
        capacity = v.dcids.capacity;
        retired = h;
      };
    }

    answered :
        (r : Result Error Bool × SeqSet)
        → length r.1.inner ≤ r.1.capacity
        → Keeps (with_retired r ids)
    answered (ok b, s) h = held s h
    answered (err e, s) h = held s h
    answered (panic, s) h = held s h

announce_retired-IsValid :
    (seq : ℕ) (found : Option ConnectionIdEntry) (ids : ConnectionIdentifiers)
    → IsValid ids
    → IsValid (announce_retired seq found ids).1
unfolding announce_retired
announce_retired-IsValid seq none ids v = v
announce_retired-IsValid seq (some e) ids v =
    passed (mark_retire_dcid_seq seq true ids) (mark_retire-IsValid seq true ids v)
  where
    passed :
        (r : Result Error (Unit {0}) × ConnectionIdentifiers)
        → IsValid r.1
        → Keeps {A = Option ℕ} (continue r (λ _ ids'. (ok e.path_id, ids')))
    passed (ok x, s) h = h
    passed (err er, s) h = h
    passed (panic, s) h = h

in_dcids-IsValid :
    {A : Type 0} (r : Result Error A × Queue) (ids : ConnectionIdentifiers)
    → IsValid (record ids { dcids = r.1 })
    → Ensures IsValid (in_dcids r ids)
in_dcids-IsValid (ok a, q) ids v = v
in_dcids-IsValid (err e, q) ids v = v
in_dcids-IsValid (panic, q) ids v = v

pub retire_dcid-IsValid :
    (seq : ℕ) (ids : ConnectionIdentifiers) → IsValid ids → IsValid (retire_dcid seq ids).1
unfolding retire_dcid
retire_dcid-IsValid seq ids v =
    if_elim (Keeps {A = Option ℕ}) ids.zero_length_dcid (λ _. v)
      (λ _.
        continue-IsValid IsValid (in_dcids (remove seq ids.dcids) ids) (announce_retired seq)
          (in_dcids-IsValid (remove seq ids.dcids) ids kept) (announce_retired-IsValid seq))
  where
    kept : IsValid (record ids { dcids = (remove seq ids.dcids).1 })
    kept =
        let fits =
          remove-Fits (ids.largest_destination_seq + 1) seq ids.dcids v.dcids.fits v.dcids.filled in
        record {
          scids = v.scids;
          dcids = record {
            fits = fits.0;
            filled = fits.1;
            capacity = rw (remove-capacity seq ids.dcids) v.dcids.capacity;
            retired = v.dcids.retired;
          };
        }

insert_dcid-IsValid :
    (entry : ConnectionIdEntry) (queue_err : Option Error) (paths : Paths)
    (ids : ConnectionIdentifiers)
    → ScidsValid ids.scids ids.next_scid_seq ids.retire_prior_to ids.source_conn_id_limit
    → Fits (ids.largest_destination_seq + 1) ids.dcids
    → 2 ≤ ids.dcids.capacity
    → length ids.retire_dcid_seqs.inner ≤ ids.retire_dcid_seqs.capacity
    → entry.seq < ids.largest_destination_seq + 1
    → IsValid (insert_dcid entry queue_err paths ids).1
unfolding insert_dcid
insert_dcid-IsValid entry queue_err paths ids given fits capacity retired below =
    answered (Entries.insert entry ids.dcids) (record {
      fits =
          insert-Fits (ids.largest_destination_seq + 1) (ids.largest_destination_seq + 1) entry
            ids.dcids fits (omega arith) below;
      filled = insert-filled entry ids.dcids (omega arith);
      capacity = rw (insert-capacity entry ids.dcids) capacity;
      retired = retired;
    })
  where
    answered :
        (r : Result Error (Unit {0}) × Queue)
        → DcidsValid r.1 ids.largest_destination_seq ids.retire_dcid_seqs
        → IsValid (after_insert r queue_err paths ids).1
    answered (ok x, q) h = record { scids = given; dcids = h }
    answered (err e, q) h = record { scids = given; dcids = h }
    answered (panic, q) h = record { scids = given; dcids = h }

abbrev Within : Option Error × SeqSet × Paths → Type 0
Within r = length r.1.inner ≤ r.1.capacity

retire_loop-within :
    (es : List ConnectionIdEntry) (s : SeqSet) (paths : Paths)
    → length s.inner ≤ s.capacity
    → length (retire_loop es s paths).1.inner ≤ (retire_loop es s paths).1.capacity
unfolding retire_loop
retire_loop-within [] s paths h = h
retire_loop-within (e ∷ es) s paths h =
    next (seq_insert e.seq s) (omega (arith, seq_insert-within e.seq s h))
      (λ t. retire_loop-within es t (push_path e paths))
  where
    next :
        (r : Result Error Bool × SeqSet)
        → length r.1.inner ≤ r.1.capacity
        → ((t : SeqSet)
            → length t.inner ≤ t.capacity
            → Within (retire_loop es t (push_path e paths)))
        → Within (elim r.0 [
          | ok b ↦ retire_loop es r.1 (push_path e paths)
          | err er ↦ (some er, r.1, push_path e paths)
          | panic ↦ (none, r.1, push_path e paths)
        ])
    next (ok b, t) k rec = rec t k
    next (err er, t) k rec = k
    next (panic, t) k rec = k

retire_below-IsValid :
    (index : ℕ) (entry : ConnectionIdEntry) (retire_prior_to : ℕ) (paths : Paths)
    (ids : ConnectionIdentifiers)
    → IsValid ids
    → entry.seq < ids.largest_destination_seq + 1
    → IsValid (retire_below index entry retire_prior_to paths ids).1
unfolding retire_below
retire_below-IsValid index entry retire_prior_to paths ids v below =
    if_elim (λ (t : Answer). IsValid t.1) (ltb (length ids.dcids.inner) index) (λ _. v)
      (λ _. drained (retire_loop (take index ids.dcids.inner) ids.retire_dcid_seqs paths) (
        retire_loop-within (take index ids.dcids.inner) ids.retire_dcid_seqs paths v.dcids.retired))
  where
    drained :
        (r : Option Error × SeqSet × Paths)
        → length r.1.inner ≤ r.1.capacity
        → IsValid
            (insert_dcid entry r.0 r.2 (record ids {
              dcids = record { inner = drop index ids.dcids.inner; capacity = ids.dcids.capacity };
              retire_dcid_seqs = r.1;
              largest_peer_retire_prior_to = retire_prior_to;
            })).1
    drained r h =
        insert_dcid-IsValid entry r.0 r.2
          (record ids {
            dcids = record { inner = drop index ids.dcids.inner; capacity = ids.dcids.capacity };
            retire_dcid_seqs = r.1;
            largest_peer_retire_prior_to = retire_prior_to;
          })
          v.scids (drop-Fits (ids.largest_destination_seq + 1) index ids.dcids v.dcids.fits)
          v.dcids.capacity h below

module _ (partition_point : PartitionPoint) where
  take_dcid-IsValid :
      (entry : ConnectionIdEntry) (retire_prior_to : ℕ) (paths : Paths)
      (ids : ConnectionIdentifiers)
      → IsValid ids
      → IsValid (take_dcid partition_point entry retire_prior_to paths ids).1
  unfolding take_dcid
  take_dcid-IsValid entry retire_prior_to paths ids v =
      if_elim Good (ltb entry.seq retire_prior_to) (λ _. v)
        (λ _.
          if_elim Good (ltb entry.seq ids.largest_peer_retire_prior_to)
            (λ _. mark_retire-IsValid entry.seq true ids v)
            (λ _.
              if_elim Good (ltb ids.largest_peer_retire_prior_to retire_prior_to)
                (λ _.
                  if_elim Good (ltb entry.seq retire_prior_to) (λ _. raised)
                    (λ _.
                      retire_below-IsValid
                        (partition_point (λ e. ltb e.seq retire_prior_to) ids.dcids.inner) entry
                        retire_prior_to paths ids' raised below))
                (λ _.
                  insert_dcid-IsValid entry none paths ids' raised.scids raised.dcids.fits
                    raised.dcids.capacity raised.dcids.retired below)))
    where
      Good : Answer → Type 0
      Good t = IsValid t.1

      largest : ℕ
      largest =
          if ltb ids.largest_destination_seq entry.seq
          then entry.seq
          else ids.largest_destination_seq

      ids' : ConnectionIdentifiers
      ids' = record ids { largest_destination_seq = largest }

      below : entry.seq < largest + 1
      below = ground arith

      raised : IsValid ids'
      raised = record {
        scids = v.scids;
        dcids = record {
          fits =
              Fits-le (ids.largest_destination_seq + 1) (largest + 1) ids.dcids (ground arith)
                v.dcids.fits;
          filled = v.dcids.filled;
          capacity = v.dcids.capacity;
          retired = v.dcids.retired;
        };
      }

  pub new_dcid-IsValid :
      (cid : ConnectionId) (seq reset_token retire_prior_to : ℕ) (paths : Paths)
      (ids : ConnectionIdentifiers)
      → IsValid ids
      → IsValid (new_dcid partition_point cid seq reset_token retire_prior_to paths ids).1
  unfolding new_dcid
  new_dcid-IsValid cid seq reset_token retire_prior_to paths ids v =
      if_elim Good ids.zero_length_dcid (λ _. v)
        (λ _. found (find (λ e. cid_eq e.cid cid || e.seq == seq) ids.dcids.inner))
    where
      Good : Answer → Type 0
      Good t = IsValid t.1

      entry : ConnectionIdEntry
      entry = record { cid = cid; seq = seq; reset_token = some reset_token; path_id = none }

      found :
          (o : Option ConnectionIdEntry)
          → Good (elim o [
            | some e ↦
                if not (cid_eq e.cid cid)
                  || (not (e.seq == seq) || not (token_eq e.reset_token (some reset_token)))
                then (err invalid_frame, ids, paths)
                else (ok tt, ids, paths)
            | none ↦ take_dcid partition_point entry retire_prior_to paths ids
          ])
      found none = take_dcid-IsValid entry retire_prior_to paths ids v
      found (some e) =
          if_elim Good
            (not (cid_eq e.cid cid)
              || (not (e.seq == seq) || not (token_eq e.reset_token (some reset_token))))
            (λ _. v) (λ _. v)
