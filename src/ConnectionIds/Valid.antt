-- ===== src/ConnectionIds/Valid.antt =====
-- ConnectionIdentifiers of quiche/src/cid.rs: what is asked of a state.
use quirl.Common.{ℕ, ◌+◌, ◌≤◌, ◌<◌, length}
use quirl.Common.Result.{Result, ok, err, panic}
use quirl.Common.Exec.{continue}
use quirl.ConnectionIds.Entries.{Queue, SeqSet, Error}
use quirl.ConnectionIds.Sequences.{Fits}
use quirl.ConnectionIds.Usable.{usable}
use quirl.ConnectionIds.{ConnectionIdentifiers}

-- Of the ids given out: no number stands twice, all are below the next one, and no more than the
-- limit are in use.
pub record ScidsValid (q : Queue) (next retire_prior_to limit : ℕ) : Type 0 where
  pub fits : Fits next q
  pub filled : 0 < length q.inner
  pub limited : usable retire_prior_to q.inner ≤ limit

-- Of the ids received: no number stands twice, none is above the largest, and the numbers to be
-- retired are within the capacity of their set.
pub record DcidsValid (q : Queue) (largest : ℕ) (retiring : SeqSet) : Type 0 where
  pub fits : Fits (largest + 1) q
  pub filled : 0 < length q.inner
  pub capacity : 2 ≤ q.capacity
  pub retired : length retiring.inner ≤ retiring.capacity

pub record IsValid (ids : ConnectionIdentifiers) : Type 0 where
  pub scids : ScidsValid ids.scids ids.next_scid_seq ids.retire_prior_to ids.source_conn_id_limit
  pub dcids : DcidsValid ids.dcids ids.largest_destination_seq ids.retire_dcid_seqs

-- What a method ensures: the state is valid after an error, and meets `Q` after a success.
abbrev pub Ensures :
    {A : Type 0}
    → (ConnectionIdentifiers → Type 0)
    → Result Error A × ConnectionIdentifiers
    → Type 0
Ensures Q (ok a, ids) = Q ids
Ensures Q (err e, ids) = IsValid ids
Ensures Q (panic, ids) = IsValid ids

abbrev pub Keeps : {A : Type 0} → Result Error A × ConnectionIdentifiers → Type 0
Keeps r = IsValid r.1

pub continue-IsValid :
    {A B : Type 0} (Q : ConnectionIdentifiers → Type 0) (r : Result Error A × ConnectionIdentifiers)
    (f : A → ConnectionIdentifiers → Result Error B × ConnectionIdentifiers)
    → Ensures Q r
    → ((a : A) (ids : ConnectionIdentifiers) → Q ids → IsValid (f a ids).1)
    → IsValid (continue r f).1
continue-IsValid Q (ok a, ids) f h k = k a ids h
continue-IsValid Q (err e, ids) f h k = h
continue-IsValid Q (panic, ids) f h k = h
