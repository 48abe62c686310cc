-- ===== src/ConnectionIds/Limits.antt =====
-- ConnectionIdentifiers of quiche/src/cid.rs, over every order of its operations: the limits on the ids are kept.
use quirl.Common.{
  ℕ, ◌-◌, ◌*◌, ◌/◌, ◌^◌, ◌≤◌, refl, arith, min, List, [], ◌∷◌, leb, Bool, if_elim, Option, none,
  some,
}
use quirl.ConnectionIds.Entries.{ConnectionId, count, has}
use quirl.ConnectionIds.Sequences.{resize-Fits, resize-inner}
use quirl.ConnectionIds.{
  ConnectionIdentifiers, new, set_source_conn_id_limit, new_scid, set_initial_dcid, retire_scid,
  retire_dcid, mark_retire_dcid_seq, mark_advertise_new_scid_seq, link_scid_to_path_id,
  link_dcid_to_path_id, pop_retired_scid,
}
use quirl.ConnectionIds.NewDcid.{PartitionPoint, Paths, new_dcid}
use quirl.ConnectionIds.Valid.{IsValid}
use quirl.ConnectionIds.Given.{new_scid-IsValid, retire_scid-IsValid, link_scid-IsValid}
use quirl.ConnectionIds.Received.{
  new_dcid-IsValid, retire_dcid-IsValid, link_dcid-IsValid, mark_retire-IsValid,
}

-- One call of a method, whatever it answers. The limit of the peer is not lowered.
pub data Step (partition_point : PartitionPoint) (ids : ConnectionIdentifiers)
    : ConnectionIdentifiers → Type 0 where
  give :
      (cid : ConnectionId) (token : Option ℕ) (advertise : Bool) (path : Option ℕ)
      (retire_if_needed : Bool)
      → Step partition_point ids (new_scid cid token advertise path retire_if_needed ids).1
  receive :
      (cid : ConnectionId) (seq token retire_prior_to : ℕ) (paths : Paths)
      → Step partition_point ids
          (new_dcid partition_point cid seq token retire_prior_to paths ids).1
  retire_source :
      (seq : ℕ) (pkt_dcid : ConnectionId)
      → Step partition_point ids (retire_scid seq pkt_dcid ids).1
  retire_destination : (seq : ℕ) → Step partition_point ids (retire_dcid seq ids).1
  link_source :
      (seq path_id : ℕ) → Step partition_point ids (link_scid_to_path_id seq path_id ids).1
  link_destination :
      (seq path_id : ℕ) → Step partition_point ids (link_dcid_to_path_id seq path_id ids).1
  mark_source :
      (seq : ℕ) (b : Bool) → Step partition_point ids (mark_advertise_new_scid_seq seq b ids)
  mark_destination :
      (seq : ℕ) (b : Bool) → Step partition_point ids (mark_retire_dcid_seq seq b ids).1
  set_limit :
      (v : ℕ)
      → ids.source_conn_id_limit ≤ min v ((2 ^ 64 - 1) / 2)
      → Step partition_point ids (set_source_conn_id_limit v ids)
  set_initial :
      (cid : ConnectionId) (token path : Option ℕ)
      → Step partition_point ids (set_initial_dcid cid token path ids)
  pop : Step partition_point ids (pop_retired_scid ids).1

pub data Reach (partition_point : PartitionPoint) (s : ConnectionIdentifiers)
    : ConnectionIdentifiers → Type 0 where
  here : Reach partition_point s s
  next :
      {t u : ConnectionIdentifiers}
      → Reach partition_point s t
      → Step partition_point t u
      → Reach partition_point s u

new-IsValid :
    (limit : ℕ) (scid : ConnectionId) (path_id : ℕ) (token : Option ℕ)
    → IsValid (new limit scid path_id token)
unfolding new count has
new-IsValid limit scid path_id token = record {
  scids = record {
    fits = record { distinct = (refl, tt); below = (omega arith, tt); within = omega arith };
    filled = omega arith;
    limited = ground arith;
  };
  dcids = record {
    fits = record { distinct = (refl, tt); below = (omega arith, tt); within = ground arith };
    filled = omega arith;
    capacity = ground arith;
    retired = ground arith;
  };
}

set_limit-IsValid :
    (v : ℕ) (ids : ConnectionIdentifiers)
    → ids.source_conn_id_limit ≤ min v ((2 ^ 64 - 1) / 2)
    → IsValid ids
    → IsValid (set_source_conn_id_limit v ids)
unfolding set_source_conn_id_limit
set_limit-IsValid v ids h k =
    if_elim IsValid (leb 2 (min v ((2 ^ 64 - 1) / 2)))
      (λ _. record {
        scids = record {
          fits =
              resize-Fits (2 * min v ((2 ^ 64 - 1) / 2) - 1) ids.next_scid_seq ids.scids
                k.scids.fits;
          filled = rw (resize-inner (2 * min v ((2 ^ 64 - 1) / 2) - 1) ids.scids) k.scids.filled;
          limited =
              rw (resize-inner (2 * min v ((2 ^ 64 - 1) / 2) - 1) ids.scids)
                (omega (arith, k.scids.limited));
        };
        dcids = k.dcids;
      })
      (λ _. k)

set_initial-IsValid :
    (cid : ConnectionId) (token path : Option ℕ) (ids : ConnectionIdentifiers)
    → IsValid ids
    → IsValid (set_initial_dcid cid token path ids)
unfolding set_initial_dcid has
set_initial-IsValid cid token path ids v = record {
  scids = v.scids;
  dcids = record {
    fits = record {
      distinct = (refl, tt);
      below = (omega arith, tt);
      within = omega (arith, v.dcids.capacity);
    };
    filled = omega arith;
    capacity = v.dcids.capacity;
    retired = v.dcids.retired;
  };
}

pop-IsValid : (ids : ConnectionIdentifiers) → IsValid ids → IsValid (pop_retired_scid ids).1
unfolding pop_retired_scid
pop-IsValid ids v = first ids.retired_scids
  where
    first :
        (l : List ConnectionId)
        → IsValid (
            (λ (t : Option ConnectionId × ConnectionIdentifiers). t.1)
              (elim l [
                | [] ↦ (none, ids)
                | cid ∷ rest ↦ (some cid, record ids { retired_scids = rest })
              ]))
    first [] = v
    first (cid ∷ rest) = record { scids = v.scids; dcids = v.dcids }

Step-IsValid :
    {pp : PartitionPoint} {s t : ConnectionIdentifiers} → Step pp s t → IsValid s → IsValid t
unfolding mark_advertise_new_scid_seq
Step-IsValid {s = s} (give cid token adv path b) v = new_scid-IsValid cid token adv path b s v
Step-IsValid {pp} {s} (receive cid seq token bound paths) v =
    new_dcid-IsValid pp cid seq token bound paths s v
Step-IsValid {s = s} (retire_source seq pkt) v = retire_scid-IsValid seq pkt s v
Step-IsValid {s = s} (retire_destination seq) v = retire_dcid-IsValid seq s v
Step-IsValid {s = s} (link_source seq path) v = link_scid-IsValid seq path s v
Step-IsValid {s = s} (link_destination seq path) v = link_dcid-IsValid seq path s v
Step-IsValid (mark_source seq b) v = record { scids = v.scids; dcids = v.dcids }
Step-IsValid {s = s} (mark_destination seq b) v = mark_retire-IsValid seq b s v
Step-IsValid {s = s} (set_limit n h) v = set_limit-IsValid n s h v
Step-IsValid {s = s} (set_initial cid token path) v = set_initial-IsValid cid token path s v
Step-IsValid {s = s} pop v = pop-IsValid s v

-- After any sequence of calls on new identifiers, whatever they answer and wherever the search by
-- halves ends: no sequence number stands twice among the source ids, nor among the destination ids;
-- each queue holds an id and is within its capacity; the source ids have numbers below the next one,
-- and of those whose retirement was not asked for there are at most as many as the peer allows; the
-- numbers that wait to be announced as retired are within their limit.
pub Reach-IsValid :
    (pp : PartitionPoint) (limit : ℕ) (scid : ConnectionId) (path_id : ℕ) (token : Option ℕ)
    {ids : ConnectionIdentifiers}
    → Reach pp (new limit scid path_id token) ids
    → IsValid ids
Reach-IsValid pp limit scid path_id token here = new-IsValid limit scid path_id token
Reach-IsValid pp limit scid path_id token (next r st) =
    Step-IsValid st (Reach-IsValid pp limit scid path_id token r)
