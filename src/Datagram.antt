-- ===== src/Datagram.antt =====
-- quiche/src/dgram.rs: a bounded queue of DATAGRAM payloads, with the sum of their sizes.
use quirl.Common.{
  ℕ, zero, suc, ◌+◌, ◌-◌, min, List, [], ◌∷◌, ◌++◌, ltb, ◌==◌, if◌then◌else◌, length, take, drop,
  Bool, true, false, not, Option, none, some,
}
use quirl.Common.Result.{Result, ok, err}
pub mod History
pub mod Queue
mod Tests

pub data Error : Type 0 where
  done buffer_too_short : Error

abbrev pub Payload : Type 0
Payload = List ℕ

pub record DatagramQueue : Type 0 where
  pub queue : Option (List Payload)
  pub queue_max_len : ℕ
  pub queue_bytes_size : ℕ

unfoldable pub new : ℕ → DatagramQueue
new queue_max_len = record { queue = none; queue_max_len = queue_max_len; queue_bytes_size = 0 }

-- The payloads in order; a queue that was never used has none.
abbrev pub items : DatagramQueue → List Payload
items q = elim q.queue [ none ↦ [] | some l ↦ l ]

unfoldable pub len : DatagramQueue → ℕ
len q = elim q.queue [ none ↦ 0 | some l ↦ length l ]

unfoldable pub is_full : DatagramQueue → Bool
unfolding len
is_full q = len q == q.queue_max_len

unfoldable pub is_empty : DatagramQueue → Bool
unfolding len
is_empty q = len q == 0

unfoldable pub push : Payload → DatagramQueue → Result Error (Unit {0}) × DatagramQueue
unfolding is_full
push d q = if is_full q then (err done, q) else (
  ok tt,
  record q { queue = some (items q ++ (d ∷ [])); queue_bytes_size = q.queue_bytes_size + length d },
)

abbrev front : List Payload → Option Payload
front [] = none
front (d ∷ ds) = some d

unfoldable pub peek_front_len : DatagramQueue → Option ℕ
peek_front_len q = elim (front (items q)) [ none ↦ none | some d ↦ some (length d) ]

-- The output buffer comes back with its first bytes overwritten.
unfoldable pub peek_front_bytes : List ℕ → ℕ → DatagramQueue → Result Error ℕ × List ℕ
peek_front_bytes buf n q = elim (front (items q)) [
  | none ↦ (err done, buf)
  | some d ↦
      let m = min n (length d) in
      if ltb (length buf) m then (err buffer_too_short, buf) else (ok m, take m d ++ drop m buf)
]

pop_list : Option (List Payload) → DatagramQueue → Option Payload × DatagramQueue
pop_list none q = (none, q)
pop_list (some []) q = (none, q)
pop_list (some (d ∷ ds)) q =
    (some d, record q { queue = some ds; queue_bytes_size = q.queue_bytes_size - length d })

unfoldable pub pop : DatagramQueue → Option Payload × DatagramQueue
unfolding pop_list
pop q = pop_list q.queue q

-- `retain(|d| !f(d))`
retain_not : (Payload → Bool) → List Payload → List Payload
retain_not f [] = []
retain_not f (d ∷ ds) = if f d then retain_not f ds else d ∷ retain_not f ds

-- `fold(0, |total, d| total + d.len())`
unfoldable pub fold_sizes : ℕ → List Payload → ℕ
fold_sizes total [] = total
fold_sizes total (d ∷ ds) = fold_sizes (total + length d) ds

unfoldable pub purge : (Payload → Bool) → DatagramQueue → DatagramQueue
unfolding retain_not fold_sizes
purge f q = elim q.queue [
  | none ↦ q
  | some l ↦ record q {
    queue = some (retain_not f l);
    queue_bytes_size = fold_sizes 0 (retain_not f l);
  }
]

unfoldable pub has_pending : DatagramQueue → Bool
has_pending q = elim q.queue [ none ↦ false | some l ↦ not (length l == 0) ]
