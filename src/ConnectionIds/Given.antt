-- ===== src/ConnectionIds/Given.antt =====
-- The methods of quiche/src/cid.rs that change the source ids keep what is asked of the state.
use quirl.Common.{
  ℕ, ◌+◌, ◌≤◌, ◌≡◌, refl, arith, List, [], ◌∷◌, ◌++◌, leb, length, Bool, not, if_elim,
  if◌then◌else◌, ◌&&◌, ◌==◌, sym, Option, none, some,
}
use mathlib.Core.Path.{subst}
use quirl.Common.Result.{Result, ok, err, panic}
use quirl.ConnectionIds.Entries
use quirl.ConnectionIds.Entries.{
  ConnectionId, ConnectionIdEntry, Queue, SeqSet, Error, change, min_seq, remove, seq_insert,
  seq_remove, find, cid_eq, token_eq, is_none, invalid_state, invalid_frame,
}
use quirl.ConnectionIds.Sequences.{
  insert-Fits, insert-filled, insert_err, insert_panic, remove-Fits, change-Fits,
}
use quirl.ConnectionIds.Usable.{
  usable, usable-le, usable-le-length, usable-change, usable-insert, usable-remove, usable-min,
}
use quirl.ConnectionIds.{
  ConnectionIdentifiers, new_scid, make_room, add_scid, retire_scid, notify_retired,
  mark_advertise_new_scid_seq, linked, link_scid_to_path_id, or_invalid, count_scid, in_scids,
}
use quirl.ConnectionIds.Valid.{ScidsValid, IsValid, Ensures, Keeps, continue-IsValid}

-- One more id may be given out.
record HasRoom (ids : ConnectionIdentifiers) : Type 0 where
  valid : IsValid ids
  room : usable ids.retire_prior_to ids.scids.inner + 1 ≤ ids.source_conn_id_limit

make_room-HasRoom :
    (b : Bool) (ids : ConnectionIdentifiers) → IsValid ids → Ensures HasRoom (make_room b ids)
unfolding make_room
make_room-HasRoom b ids v =
    if_elim (Ensures HasRoom) (leb ids.source_conn_id_limit (length ids.scids.inner))
      (λ full.
        if_elim (Ensures HasRoom) (not b) (λ _. v)
          (λ _. retire (min_seq (λ e. leb ids.retire_prior_to e.seq) ids.scids.inner) refl))
      (λ free. record {
        valid = v;
        room = ground (arith, usable-le-length ids.retire_prior_to ids.scids.inner);
      })
  where
    retire :
        (o : Option ℕ)
        → min_seq (λ e. leb ids.retire_prior_to e.seq) ids.scids.inner ≡ o
        → Ensures {A = Unit {0}} HasRoom (elim (or_invalid o) [
          | ok lowest ↦ (ok tt, record ids { retire_prior_to = lowest + 1 })
          | err e ↦ (err e, ids)
          | panic ↦ (panic, ids)
        ])
    retire none q = v
    retire (some m) q =
        let lower = usable-min ids.retire_prior_to m ids.scids.inner q in
        record {
          valid = record {
            scids = record {
              fits = v.scids.fits;
              filled = v.scids.filled;
              limited = omega (arith, lower.1, v.scids.limited);
            };
            dcids = v.dcids;
          };
          room = omega (arith, lower.1, v.scids.limited);
        }

add_scid-IsValid :
    (cid : ConnectionId) (token : Option ℕ) (advertise : Bool) (path : Option ℕ)
    (ids : ConnectionIdentifiers)
    → HasRoom ids
    → IsValid (add_scid cid token advertise path ids).1
unfolding add_scid mark_advertise_new_scid_seq
add_scid-IsValid cid token advertise path ids h =
    if_elim (Keeps {A = ℕ}) (is_none token && not (ids.next_scid_seq == 0)) (λ _. h.valid)
      (λ _. found (find (λ e. cid_eq e.cid cid) ids.scids.inner))
  where
    entry : ConnectionIdEntry
    entry = record { cid = cid; seq = ids.next_scid_seq; reset_token = token; path_id = path }

    scids :
        ScidsValid
          (Entries.insert entry ids.scids).1
          (ids.next_scid_seq + 1)
          ids.retire_prior_to
          ids.source_conn_id_limit
    scids = record {
      fits =
          insert-Fits ids.next_scid_seq (ids.next_scid_seq + 1) entry ids.scids h.valid.scids.fits
            (omega arith) (omega arith);
      filled =
          insert-filled entry ids.scids
            (omega (arith, h.valid.scids.fits.within, h.valid.scids.filled));
      limited = omega (arith, usable-insert ids.retire_prior_to entry ids.scids, h.room);
    }

    added :
        (r : Result Error (Unit {0}) × Queue)
        → Entries.insert entry ids.scids ≡ r
        → Keeps (count_scid ids.next_scid_seq advertise r ids)
    added (ok x, q) e =
        subst
          (λ t. IsValid (record ids {
            scids = t.1;
            next_scid_seq = ids.next_scid_seq + 1;
            advertise_new_scid_seqs =
                (mark_advertise_new_scid_seq ids.next_scid_seq advertise
                  ids).advertise_new_scid_seqs;
          }))
          e (record { scids = scids; dcids = h.valid.dcids })
    added (err er, q) e =
        subst (λ t. IsValid (record ids { scids = t })) (sym (insert_err entry ids.scids e)) h.valid
    added (panic, q) e = absurd (insert_panic entry ids.scids e)

    found :
        (o : Option ConnectionIdEntry)
        → Keeps {A = ℕ} (elim o [
          | some e ↦
              if not (token_eq e.reset_token token)
              then (err invalid_state, ids)
              else (ok e.seq, ids)
          | none ↦ count_scid ids.next_scid_seq advertise (Entries.insert entry ids.scids) ids
        ])
    found (some e) =
        if_elim (Keeps {A = ℕ}) (not (token_eq e.reset_token token)) (λ _. h.valid) (λ _. h.valid)
    found none = added (Entries.insert entry ids.scids) refl

pub new_scid-IsValid :
    (cid : ConnectionId) (token : Option ℕ) (advertise : Bool) (path : Option ℕ) (b : Bool)
    (ids : ConnectionIdentifiers)
    → IsValid ids
    → IsValid (new_scid cid token advertise path b ids).1
unfolding new_scid
new_scid-IsValid cid token advertise path b ids v =
    if_elim (Keeps {A = ℕ}) ids.zero_length_scid (λ _. v)
      (λ _.
        continue-IsValid HasRoom (make_room b ids) (λ _. add_scid cid token advertise path)
          (make_room-HasRoom b ids v) (λ _. add_scid-IsValid cid token advertise path))

notify_retired-IsValid :
    (pkt_dcid : ConnectionId) (found : Option ConnectionIdEntry) (ids : ConnectionIdentifiers)
    → IsValid ids
    → IsValid (notify_retired pkt_dcid found ids).1
unfolding notify_retired
notify_retired-IsValid pkt_dcid none ids v = v
notify_retired-IsValid pkt_dcid (some e) ids v =
    if_elim (Keeps {A = Option ℕ}) (cid_eq e.cid pkt_dcid) (λ _. v)
      (λ _. lowest (min_seq (λ e'. leb ids.retire_prior_to e'.seq) ids.scids.inner) refl)
  where
    ids' : ConnectionIdentifiers
    ids' = record ids { retired_scids = ids.retired_scids ++ (e.cid ∷ []) }

    lowest :
        (o : Option ℕ)
        → min_seq (λ e'. leb ids.retire_prior_to e'.seq) ids.scids.inner ≡ o
        → Keeps {A = Option ℕ} (elim (or_invalid o) [
          | ok lowest ↦ (ok e.path_id, record ids' { retire_prior_to = lowest })
          | err er ↦ (err er, ids')
          | panic ↦ (panic, ids')
        ])
    lowest none q = record { scids = v.scids; dcids = v.dcids }
    lowest (some m) q =
        let lower = usable-min ids.retire_prior_to m ids.scids.inner q in
        record {
          scids = record {
            fits = v.scids.fits;
            filled = v.scids.filled;
            limited =
                omega
                  (arith, usable-le ids.retire_prior_to m ids.scids.inner lower.0, v.scids.limited);
          };
          dcids = v.dcids;
        }

in_scids-IsValid :
    {A : Type 0} (r : Result Error A × Queue) (ids : ConnectionIdentifiers)
    → IsValid (record ids { scids = r.1 })
    → Ensures IsValid (in_scids r ids)
in_scids-IsValid (ok a, q) ids v = v
in_scids-IsValid (err e, q) ids v = v
in_scids-IsValid (panic, q) ids v = v

pub retire_scid-IsValid :
    (seq : ℕ) (pkt_dcid : ConnectionId) (ids : ConnectionIdentifiers)
    → IsValid ids
    → IsValid (retire_scid seq pkt_dcid ids).1
unfolding retire_scid
retire_scid-IsValid seq pkt_dcid ids v =
    if_elim (Keeps {A = Option ℕ}) (leb ids.next_scid_seq seq) (λ _. v)
      (λ _.
        continue-IsValid IsValid (in_scids (remove seq ids.scids) ids) (notify_retired pkt_dcid)
          (in_scids-IsValid (remove seq ids.scids) ids kept) (notify_retired-IsValid pkt_dcid))
  where
    kept : IsValid (record ids { scids = (remove seq ids.scids).1 })
    kept =
        let fits = remove-Fits ids.next_scid_seq seq ids.scids v.scids.fits v.scids.filled in
        record {
          scids = record {
            fits = fits.0;
            filled = fits.1;
            limited =
                omega (arith, usable-remove ids.retire_prior_to seq ids.scids, v.scids.limited);
          };
          dcids = v.dcids;
        }

pub link_scid-IsValid :
    (seq path_id : ℕ) (ids : ConnectionIdentifiers)
    → IsValid ids
    → IsValid (link_scid_to_path_id seq path_id ids).1
unfolding link_scid_to_path_id
link_scid-IsValid seq path_id ids v = found (change seq (linked path_id) ids.scids.inner) refl
  where
    found :
        (o : Option (List ConnectionIdEntry))
        → change seq (linked path_id) ids.scids.inner ≡ o
        → Keeps {A = Unit {0}} (elim o [
          | none ↦ (err invalid_state, ids)
          | some inner ↦ (
            ok tt,
            record ids { scids = record { inner = inner; capacity = ids.scids.capacity } },
          )
        ])
    found none q = v
    found (some es) q =
        let fits =
          change-Fits ids.next_scid_seq seq (linked path_id) ids.scids {es = es} (λ e. refl) q
            v.scids.fits in
        record {
          scids = record {
            fits = fits.0;
            filled = rw fits.1 v.scids.filled;
            limited = omega (
              arith,
              usable-change ids.retire_prior_to seq (linked path_id) ids.scids.inner es (λ e p. p)
                  q,
              v.scids.limited,
            );
          };
          dcids = v.dcids;
        }
