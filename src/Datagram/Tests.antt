-- ===== src/Datagram/Tests.antt =====
-- Runs of the datagram queue, and the theorems at concrete inputs.
use quirl.Common.{[], ◌∷◌, length, ltb, Bool, some, ◌+◌, ◌++◌, ◌≤◌, ◌≡◌, refl}
use quirl.Common.Result.{ok}
use quirl.Datagram
use quirl.Datagram.{Payload, DatagramQueue, items, len, peek_front_bytes}
use quirl.Datagram.Queue.{sizes}
use quirl.Datagram.History.{
  History, start, after_push, after_pop, after_purge, Reach, here, next, pushes, pops, purges,
  IsSublist, Reach-IsSublist,
}

abbrev two : DatagramQueue
two = record {
  queue = some ((1 ∷ 2 ∷ []) ∷ (3 ∷ []) ∷ []);
  queue_max_len = 3;
  queue_bytes_size = 3;
}

peek_two : peek_front_bytes (0 ∷ 0 ∷ 0 ∷ []) 8 two ≡ (ok 2, 1 ∷ 2 ∷ 0 ∷ [])
unfolding peek_front_bytes
peek_two = refl

abbrev is_long : Payload → Bool
is_long d = ltb 1 (length d)

-- Two places: the third payload is refused, the long ones are purged, and one is given out.
abbrev third_refused : History
third_refused = after_push (5 ∷ []) (after_push (3 ∷ []) (after_push (1 ∷ 2 ∷ []) (start 2)))

abbrev purged_and_popped : History
purged_and_popped = after_pop (after_purge is_long third_refused)

run : Reach (start 2) purged_and_popped
run =
    next
      (next (next (next (next here (pushes (1 ∷ 2 ∷ []))) (pushes (3 ∷ []))) (pushes (5 ∷ [])))
        (purges is_long))
      pops

Reach-IsSublist_example :
    IsSublist (purged_and_popped.given ++ items purged_and_popped.queue) purged_and_popped.taken
    × (length purged_and_popped.taken
        ≡ length purged_and_popped.given + len purged_and_popped.queue + purged_and_popped.purged)
    × (len purged_and_popped.queue ≤ 2)
    × (purged_and_popped.queue.queue_bytes_size ≡ sizes (items purged_and_popped.queue))
Reach-IsSublist_example = Reach-IsSublist 2 run

-- Of the two that were taken in, the short one is given out.
short_given : purged_and_popped.given ≡ (3 ∷ []) ∷ []
unfolding Datagram.new Datagram.push Datagram.is_full len Datagram.purge Datagram.pop
short_given = refl
