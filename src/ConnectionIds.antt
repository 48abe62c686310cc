-- ===== src/ConnectionIds.antt =====
-- ConnectionIdentifiers of quiche/src/cid.rs: the connection ids that the endpoint gave to its peer (source) and
-- those that it was given (destination), with the sequence numbers that are still to be announced or
-- retired.
use quirl.Common.{
  ℕ, ◌+◌, ◌-◌, ◌*◌, ◌/◌, ◌^◌, min, List, [], ◌∷◌, ◌++◌, ltb, leb, ◌==◌, if◌then◌else◌, length, take,
  drop, Bool, true, false, not, ◌&&◌, ◌||◌, Option, none, some,
}
use quirl.Common.Result.{Result, ok, err, panic}
use quirl.Common.Exec.{Exec, continue}
use quirl.ConnectionIds.Entries
use quirl.ConnectionIds.Entries.{
  ConnectionId, ConnectionIdEntry, Queue, SeqSet, Error, id_limit, invalid_state, invalid_frame,
  out_of_identifiers, cid_eq, token_eq, is_none, find, change, min_seq, count, get, resize,
  get_oldest, clear_and_insert, remove, seq_insert, seq_remove,
}
pub mod Entries
pub mod NewDcid
pub mod Sequences
pub mod Usable
pub mod Valid
pub mod Given
pub mod Received
pub mod Limits
pub mod Retirement
mod Tests

abbrev pub retired_conn_id_limit_multiplier : ℕ
retired_conn_id_limit_multiplier = 3

pub record ConnectionIdentifiers : Type 0 where
  pub dcids : Queue
  pub scids : Queue
  pub advertise_new_scid_seqs : List ℕ
  pub retire_dcid_seqs : SeqSet
  pub retired_scids : List ConnectionId
  pub largest_peer_retire_prior_to : ℕ
  pub largest_destination_seq : ℕ
  pub next_scid_seq : ℕ
  pub retire_prior_to : ℕ
  pub source_conn_id_limit : ℕ
  pub zero_length_scid : Bool
  pub zero_length_dcid : Bool

abbrev pub is_empty : ConnectionId → Bool
is_empty cid = length cid == 0

unfoldable pub new : ℕ → ConnectionId → ℕ → Option ℕ → ConnectionIdentifiers
new destination_conn_id_limit initial_scid initial_path_id reset_token =
    let limit = if ltb destination_conn_id_limit 2 then 2 else destination_conn_id_limit in
    record {
      scids = record {
        inner =
            record {
              cid = initial_scid;
              seq = 0;
              reset_token = reset_token;
              path_id = some initial_path_id;
            }
            ∷ [];
        capacity = 2 * 2 - 1;
      };
      dcids = record {
        inner =
            record { cid = []; seq = 0; reset_token = none; path_id = some initial_path_id } ∷ [];
        capacity = limit;
      };
      advertise_new_scid_seqs = [];
      retire_dcid_seqs = record { inner = []; capacity = limit * retired_conn_id_limit_multiplier };
      retired_scids = [];
      largest_peer_retire_prior_to = 0;
      largest_destination_seq = 0;
      next_scid_seq = 1;
      retire_prior_to = 0;
      source_conn_id_limit = 2;
      zero_length_scid = is_empty initial_scid;
      zero_length_dcid = false;
    }

unfoldable pub set_source_conn_id_limit : ℕ → ConnectionIdentifiers → ConnectionIdentifiers
unfolding resize
set_source_conn_id_limit v ids =
    let limit = min v ((2 ^ 64 - 1) / 2) in
    if leb 2 limit
    then record ids { source_conn_id_limit = limit; scids = resize (2 * limit - 1) ids.scids }
    else ids

-- `ok_or(Error::InvalidState)`
abbrev pub or_invalid : {A : Type 0} → Option A → Result Error A
or_invalid none = err invalid_state
or_invalid (some a) = ok a

unfoldable pub get_dcid : ℕ → ConnectionIdentifiers → Result Error ConnectionIdEntry
unfolding get
get_dcid seq ids = or_invalid (get seq ids.dcids)

unfoldable pub get_scid : ℕ → ConnectionIdentifiers → Result Error ConnectionIdEntry
unfolding get
get_scid seq ids = or_invalid (get seq ids.scids)

unfoldable pub lowest_usable_scid_seq : ConnectionIdentifiers → Result Error ℕ
unfolding min_seq
lowest_usable_scid_seq ids =
    or_invalid (min_seq (λ e. leb ids.retire_prior_to e.seq) ids.scids.inner)

unfoldable pub lowest_available_dcid_seq : ConnectionIdentifiers → Option ℕ
unfolding min_seq
lowest_available_dcid_seq ids = min_seq (λ e. is_none e.path_id) ids.dcids.inner

unfoldable pub find_scid_seq : ConnectionId → ConnectionIdentifiers → Option (ℕ × Option ℕ)
unfolding find cid_eq
find_scid_seq scid ids = elim (find (λ e. cid_eq e.cid scid) ids.scids.inner) [
  | none ↦ none
  | some e ↦ some (e.seq, e.path_id)
]

unfoldable pub available_scids : ConnectionIdentifiers → ℕ
unfolding count
available_scids ids = count (λ e. is_none e.path_id) ids.scids.inner

unfoldable pub available_dcids : ConnectionIdentifiers → ℕ
unfolding count
available_dcids ids =
    if ids.zero_length_dcid then 0 else count (λ e. is_none e.path_id) ids.dcids.inner

-- The removal of the first occurrence.
unfoldable pub remove_seq : ℕ → List ℕ → List ℕ
remove_seq n [] = []
remove_seq n (x ∷ xs) = if x == n then xs else x ∷ remove_seq n xs

unfoldable pub mark_advertise_new_scid_seq :
    ℕ → Bool → ConnectionIdentifiers → ConnectionIdentifiers
unfolding remove_seq
mark_advertise_new_scid_seq scid_seq advertise ids = record ids {
  advertise_new_scid_seqs =
      if advertise
      then ids.advertise_new_scid_seqs ++ (scid_seq ∷ [])
      else remove_seq scid_seq ids.advertise_new_scid_seqs;
}

-- The answer of the set, with its error passed on.
abbrev pub with_retired :
    Result Error Bool × SeqSet
    → ConnectionIdentifiers
    → Result Error (Unit {0}) × ConnectionIdentifiers
with_retired (ok b, s) ids = (ok tt, record ids { retire_dcid_seqs = s })
with_retired (err e, s) ids = (err e, record ids { retire_dcid_seqs = s })
with_retired (panic, s) ids = (panic, record ids { retire_dcid_seqs = s })

unfoldable pub mark_retire_dcid_seq : ℕ → Bool → Exec ConnectionIdentifiers Error (Unit {0})
unfolding seq_insert seq_remove
mark_retire_dcid_seq dcid_seq retire ids =
    if retire
    then with_retired (seq_insert dcid_seq ids.retire_dcid_seqs) ids
    else (ok tt, record ids { retire_dcid_seqs = (seq_remove dcid_seq ids.retire_dcid_seqs).1 })

-- The first part of `new_scid`: at the limit, the lowest id is asked to be retired.
unfoldable pub make_room : Bool → Exec ConnectionIdentifiers Error (Unit {0})
unfolding lowest_usable_scid_seq
make_room retire_if_needed ids =
    if leb ids.source_conn_id_limit (length ids.scids.inner)
    then (if not retire_if_needed then (err id_limit, ids) else elim (lowest_usable_scid_seq ids) [
      | ok lowest ↦ (ok tt, record ids { retire_prior_to = lowest + 1 })
      | err e ↦ (err e, ids)
      | panic ↦ (panic, ids)
    ])
    else (ok tt, ids)

-- What follows the insertion into `scids`.
abbrev pub count_scid :
    ℕ
    → Bool
    → Result Error (Unit {0}) × Queue
    → ConnectionIdentifiers
    → Result Error ℕ × ConnectionIdentifiers
count_scid seq advertise (ok x, q) ids = (
  ok seq,
  mark_advertise_new_scid_seq seq advertise
      (record ids { scids = q; next_scid_seq = ids.next_scid_seq + 1 }),
)
count_scid seq advertise (err e, q) ids = (err e, record ids { scids = q })
count_scid seq advertise (panic, q) ids = (panic, record ids { scids = q })

-- The rest of `new_scid`.
unfoldable pub add_scid :
    ConnectionId → Option ℕ → Bool → Option ℕ → Exec ConnectionIdentifiers Error ℕ
unfolding Entries.insert cid_eq token_eq find mark_advertise_new_scid_seq
add_scid cid reset_token advertise path_id ids =
    if is_none reset_token && not (ids.next_scid_seq == 0)
    then (err invalid_state, ids)
    else elim (find (λ e. cid_eq e.cid cid) ids.scids.inner) [
      | some e ↦
          if not (token_eq e.reset_token reset_token)
          then (err invalid_state, ids)
          else (ok e.seq, ids)
      | none ↦
          count_scid ids.next_scid_seq advertise
            (Entries.insert
              (record {
                cid = cid;
                seq = ids.next_scid_seq;
                reset_token = reset_token;
                path_id = path_id;
              })
              ids.scids)
            ids
    ]

unfoldable pub new_scid :
    ConnectionId → Option ℕ → Bool → Option ℕ → Bool → Exec ConnectionIdentifiers Error ℕ
unfolding make_room add_scid
new_scid cid reset_token advertise path_id retire_if_needed ids =
    if ids.zero_length_scid
    then (err invalid_state, ids)
    else continue (make_room retire_if_needed ids) (λ _. add_scid cid reset_token advertise path_id)

unfoldable pub set_initial_dcid :
    ConnectionId → Option ℕ → Option ℕ → ConnectionIdentifiers → ConnectionIdentifiers
unfolding clear_and_insert
set_initial_dcid cid reset_token path_id ids = record ids {
  zero_length_dcid = is_empty cid;
  dcids =
      clear_and_insert (record { cid = cid; seq = 0; reset_token = reset_token; path_id = path_id })
        ids.dcids;
}

-- What `retire_scid` does with the entry that was removed.
unfoldable pub notify_retired :
    ConnectionId → Option ConnectionIdEntry → Exec ConnectionIdentifiers Error (Option ℕ)
unfolding lowest_usable_scid_seq cid_eq
notify_retired pkt_dcid none ids = (ok none, ids)
notify_retired pkt_dcid (some e) ids =
    if cid_eq e.cid pkt_dcid
    then (err invalid_state, ids)
    else (let ids' = record ids { retired_scids = ids.retired_scids ++ (e.cid ∷ []) } in
        elim (lowest_usable_scid_seq ids') [
          | ok lowest ↦ (ok e.path_id, record ids' { retire_prior_to = lowest })
          | err er ↦ (err er, ids')
          | panic ↦ (panic, ids')
        ])

-- A removal from a queue that the identifiers hold.
abbrev pub in_scids :
    {A : Type 0}
    → Result Error A × Queue
    → ConnectionIdentifiers
    → Result Error A × ConnectionIdentifiers
in_scids (r, q) ids = (r, record ids { scids = q })

abbrev pub in_dcids :
    {A : Type 0}
    → Result Error A × Queue
    → ConnectionIdentifiers
    → Result Error A × ConnectionIdentifiers
in_dcids (r, q) ids = (r, record ids { dcids = q })

unfoldable pub retire_scid : ℕ → ConnectionId → Exec ConnectionIdentifiers Error (Option ℕ)
unfolding remove notify_retired
retire_scid seq pkt_dcid ids =
    if leb ids.next_scid_seq seq
    then (err invalid_state, ids)
    else continue (in_scids (remove seq ids.scids) ids) (notify_retired pkt_dcid)

-- The rest of `retire_dcid`, once the entry is removed.
unfoldable pub announce_retired :
    ℕ → Option ConnectionIdEntry → Exec ConnectionIdentifiers Error (Option ℕ)
unfolding mark_retire_dcid_seq
announce_retired seq none ids = (err invalid_state, ids)
announce_retired seq (some e) ids =
    continue (mark_retire_dcid_seq seq true ids) (λ _ ids'. (ok e.path_id, ids'))

unfoldable pub retire_dcid : ℕ → Exec ConnectionIdentifiers Error (Option ℕ)
unfolding remove announce_retired
retire_dcid seq ids =
    if ids.zero_length_dcid
    then (err invalid_state, ids)
    else continue (in_dcids (remove seq ids.dcids) ids) (announce_retired seq)

-- The link of an entry to a path, in one of the two queues.
abbrev pub linked : ℕ → ConnectionIdEntry → ConnectionIdEntry
linked path_id e = record e { path_id = some path_id }

unfoldable pub link_scid_to_path_id : ℕ → ℕ → Exec ConnectionIdentifiers Error (Unit {0})
unfolding change
link_scid_to_path_id seq path_id ids = elim (change seq (linked path_id) ids.scids.inner) [
  | none ↦ (err invalid_state, ids)
  | some inner ↦
      (ok tt, record ids { scids = record { inner = inner; capacity = ids.scids.capacity } })
]

unfoldable pub link_dcid_to_path_id : ℕ → ℕ → Exec ConnectionIdentifiers Error (Unit {0})
unfolding change
link_dcid_to_path_id seq path_id ids = elim (change seq (linked path_id) ids.dcids.inner) [
  | none ↦ (err invalid_state, ids)
  | some inner ↦
      (ok tt, record ids { dcids = record { inner = inner; capacity = ids.dcids.capacity } })
]

unfoldable pub pop_retired_scid :
    ConnectionIdentifiers → Option ConnectionId × ConnectionIdentifiers
pop_retired_scid ids = elim ids.retired_scids [
  | [] ↦ (none, ids)
  | cid ∷ rest ↦ (some cid, record ids { retired_scids = rest })
]
