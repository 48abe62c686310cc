-- ===== src/ConnectionIds/Tests.antt =====
-- Concrete inputs for quiche/src/cid.rs.
use quirl.Common.{
  ℕ, suc, ◌≡◌, refl, arith, List, [], ◌∷◌, if◌then◌else◌, true, false, ◌||◌, none, some, ◌⊎◌,
}
use quirl.Common.Result.{ok, err}
use quirl.ConnectionIds.Entries.{has, cid_eq, invalid_state, id_limit}
use quirl.ConnectionIds.Sequences.{seqs}
use quirl.ConnectionIds.{ConnectionIdentifiers, new, new_scid, set_initial_dcid, retire_scid}
use quirl.ConnectionIds.Valid.{IsValid}
use quirl.ConnectionIds.NewDcid.{PartitionPoint, Partitions, new_dcid, push_path}
use quirl.ConnectionIds.Limits.{Reach, here, next, set_initial, receive, Reach-IsValid}
use quirl.ConnectionIds.Retirement.{new_dcid_lem, new_dcid_reordered}

-- The number of entries in front that pass the test.
abbrev leading : PartitionPoint
leading p [] = 0
leading p (e ∷ es) = if p e then suc (leading p es) else 0

leading-Partitions : Partitions leading
leading-Partitions p [] [] f b = refl
leading-Partitions p [] (e ∷ es) f b = rw b.0 refl
leading-Partitions p (e ∷ es) back f b = rw (f.0, leading-Partitions p es back f.1 b) refl

abbrev fresh : ConnectionIdentifiers
fresh = new 4 (1 ∷ []) 0 none

-- The peer's ids with the numbers 0 and 1, and then 5, which retires those below 2.
abbrev two_ids : ConnectionIdentifiers
two_ids = record fresh {
  dcids = record {
    inner =
        record { cid = 10 ∷ []; seq = 0; reset_token = none; path_id = some 0 }
        ∷ record { cid = 11 ∷ []; seq = 1; reset_token = some 7; path_id = none }
        ∷ [];
    capacity = 4;
  };
  largest_destination_seq = 1;
}

new_dcid_lem_example :
    (retired : List ℕ) × (new_dcid leading (15 ∷ []) 5 9 2 [] two_ids ≡ (
      ok tt,
      record two_ids {
        dcids = record {
          inner = record { cid = 15 ∷ []; seq = 5; reset_token = some 9; path_id = none } ∷ [];
          capacity = 4;
        };
        retire_dcid_seqs = record { inner = retired; capacity = 12 };
        largest_peer_retire_prior_to = 2;
        largest_destination_seq = 5;
      },
      (0, 0) ∷ [],
    ))
    × ((n : ℕ) → has n retired ≡ (has n (0 ∷ 1 ∷ []) || has n []))
unfolding new cid_eq push_path
new_dcid_lem_example =
    new_dcid_lem leading leading-Partitions (15 ∷ []) 5 9 2 [] two_ids two_ids.dcids.inner [] refl
      refl (refl, (refl, tt)) (omega arith, (omega arith, tt)) tt (omega arith) (omega arith)
      (omega arith) (omega arith)

-- The ids of a peer whose frames were reordered: the number 5 came before the number 1.
abbrev reordered : ConnectionIdentifiers
reordered =
    (new_dcid leading (11 ∷ []) 1 7 0 []
      (new_dcid leading (15 ∷ []) 5 9 0 [] (set_initial_dcid (10 ∷ []) none (some 0) fresh)).1).1

reordered_steps : Reach leading fresh reordered
reordered_steps =
    next (next (next here (set_initial (10 ∷ []) none (some 0))) (receive (15 ∷ []) 5 9 0 []))
      (receive (11 ∷ []) 1 7 0 [])

Reach-IsValid_example : IsValid reordered
Reach-IsValid_example = Reach-IsValid leading 4 (1 ∷ []) 0 none reordered_steps

reordered_seqs : seqs reordered.dcids.inner ≡ 0 ∷ 5 ∷ 1 ∷ []
unfolding new set_initial_dcid new_dcid
reordered_seqs = refl

new_dcid_reordered_example :
    (has 1 (seqs (new_dcid leading (16 ∷ []) 6 3 2 [] reordered).1.dcids.inner) ≡ true)
    ⊎ (has 5 (seqs (new_dcid leading (16 ∷ []) 6 3 2 [] reordered).1.dcids.inner) ≡ false)
unfolding new set_initial_dcid new_dcid
new_dcid_reordered_example =
    new_dcid_reordered leading (16 ∷ []) 6 3 2 [] reordered 1 2
      {late = record { cid = 15 ∷ []; seq = 5; reset_token = some 9; path_id = none }}
      {early = record { cid = 11 ∷ []; seq = 1; reset_token = some 7; path_id = none }}
      (Reach-IsValid leading 4 (1 ∷ []) 0 none reordered_steps) refl refl refl (omega arith)
      (omega arith) (omega arith) (refl, (refl, (refl, tt))) (omega arith) (omega arith) refl

-- A third id is refused at the limit of two, or given while the oldest is asked back.
new_scid_limit :
    (new_scid
      (3 ∷ [])
      (some 9)
      true
      none
      false
      (new_scid (2 ∷ []) (some 8) true none false fresh).1).0
    ≡ err id_limit
unfolding new new_scid
new_scid_limit = refl

retire_scid_same :
    (retire_scid 1 (2 ∷ []) (new_scid (2 ∷ []) (some 8) true none false fresh).1).0
    ≡ err invalid_state
unfolding new new_scid retire_scid
retire_scid_same = refl
