-- ===== src/Datagram/History.antt =====
-- DatagramQueue of quiche/src/dgram.rs over any sequence of calls: what was taken in, what was given
-- out, and how many payloads a purge took.
use quirl.Common.{
  ℕ, ◌+◌, ◌≤◌, List, [], ◌∷◌, ◌++◌, length, Bool, Option, none, some, ◌≡◌, refl, sym, arith, inl,
  inr, if◌then◌else◌, length-append, append-nil, append_assoc, ◌∙◌, ap,
}
use quirl.Common.Result.{Result, ok, err, panic}
use quirl.Datagram.{Error, Payload, DatagramQueue, new, items, len, push, pop, purge}
use quirl.Datagram.Queue.{
  IsValid, sizes, Kept, new-IsValid, push_lem, pop_lem, purge_lem, len-items,
}

pub record History : Type 0 where
  pub queue : DatagramQueue
  pub taken : List Payload
  pub given : List Payload
  pub purged : ℕ

abbrev pub start : ℕ → History
start n = record { queue = new n; taken = []; given = []; purged = 0 }

-- The payload that a `push` with this result took in.
abbrev pub accepted : Result Error (Unit {0}) → Payload → List Payload
accepted (ok _) d = d ∷ []
accepted (err _) d = []
accepted panic d = []

abbrev pub to_list : Option Payload → List Payload
to_list none = []
to_list (some d) = d ∷ []

abbrev pub count : (Payload → Bool) → List Payload → ℕ
count f [] = 0
count f (d ∷ ds) = (if f d then 1 else 0) + count f ds

abbrev pub after_push : Payload → History → History
after_push d h = record h {
  queue = (push d h.queue).1;
  taken = h.taken ++ accepted (push d h.queue).0 d;
}

abbrev pub after_pop : History → History
after_pop h = record h { queue = (pop h.queue).1; given = h.given ++ to_list (pop h.queue).0 }

abbrev pub after_purge : (Payload → Bool) → History → History
after_purge f h = record h { queue = purge f h.queue; purged = h.purged + count f (items h.queue) }

pub data Step (h : History) : History → Type 0 where
  pushes : (d : Payload) → Step h (after_push d h)
  pops : Step h (after_pop h)
  purges : (f : Payload → Bool) → Step h (after_purge f h)

pub data Reach (h : History) : History → Type 0 where
  here : Reach h h
  next : {i j : History} → Reach h i → Step i j → Reach h j

-- The first list is the second one with elements left out.
pub data IsSublist : List Payload → List Payload → Type 0 where
  nil : IsSublist [] []
  keep : {xs ys : List Payload} → (x : Payload) → IsSublist xs ys → IsSublist (x ∷ xs) (x ∷ ys)
  skip : {xs ys : List Payload} → (y : Payload) → IsSublist xs ys → IsSublist xs (y ∷ ys)

IsSublist-refl : (xs : List Payload) → IsSublist xs xs
IsSublist-refl [] = nil
IsSublist-refl (x ∷ xs) = keep x (IsSublist-refl xs)

IsSublist-trans : {xs ys zs : List Payload} → IsSublist xs ys → IsSublist ys zs → IsSublist xs zs
IsSublist-trans s nil = s
IsSublist-trans (keep _ s) (keep x t) = keep x (IsSublist-trans s t)
IsSublist-trans (skip _ s) (keep x t) = skip x (IsSublist-trans s t)
IsSublist-trans s (skip y t) = skip y (IsSublist-trans s t)

IsSublist-append :
    {xs ys : List Payload} (zs : List Payload) → IsSublist xs ys → IsSublist (xs ++ zs) (ys ++ zs)
IsSublist-append zs nil = IsSublist-refl zs
IsSublist-append zs (keep x s) = keep x (IsSublist-append zs s)
IsSublist-append zs (skip y s) = skip y (IsSublist-append zs s)

append-IsSublist :
    (zs : List Payload) {xs ys : List Payload} → IsSublist xs ys → IsSublist (zs ++ xs) (zs ++ ys)
append-IsSublist [] s = s
append-IsSublist (z ∷ zs) s = keep z (append-IsSublist zs s)

Kept-IsSublist : (f : Payload → Bool) (ds ks : List Payload) → Kept f ds ks → IsSublist ks ds
Kept-IsSublist f [] ks e = rw e nil
Kept-IsSublist f (d ∷ ds) ks (inl (e, k)) = skip d (Kept-IsSublist f ds ks k)
Kept-IsSublist f (d ∷ ds) ks (inr (rest, e, g, k)) = rw g (keep d (Kept-IsSublist f ds rest k))

Kept-count :
    (f : Payload → Bool) (ds ks : List Payload) → Kept f ds ks → length ds ≡ length ks + count f ds
Kept-count f [] ks e = rw e refl
Kept-count f (d ∷ ds) ks (inl (e, k)) = rw e (omega (arith, Kept-count f ds ks k))
Kept-count f (d ∷ ds) ks (inr (rest, e, g, k)) = rw (e, g) (omega (arith, Kept-count f ds rest k))

record Ordered (n : ℕ) (h : History) : Type 0 where
  order : IsSublist (h.given ++ items h.queue) h.taken
  counted : length h.taken ≡ length h.given + length (items h.queue) + h.purged
  valid : IsValid h.queue
  limit : h.queue.queue_max_len ≡ n

push-limit : (d : Payload) (q : DatagramQueue) → (push d q).1.queue_max_len ≡ q.queue_max_len
unfolding push
push-limit d q = ground arith

pop-limit : (q : DatagramQueue) → (pop q).1.queue_max_len ≡ q.queue_max_len
unfolding pop
pop-limit q = by_list q.queue q.queue_max_len q.queue_bytes_size
  where
    by_list :
        (l : Option (List Payload)) (m b : ℕ)
        → (pop (record { queue = l; queue_max_len = m; queue_bytes_size = b })).1.queue_max_len ≡ m
    by_list none m b = refl
    by_list (some []) m b = refl
    by_list (some (d ∷ ds)) m b = refl

purge-limit : (f : Payload → Bool) (q : DatagramQueue) → (purge f q).queue_max_len ≡ q.queue_max_len
unfolding purge
purge-limit f q = ground arith

push-Ordered : (d : Payload) (n : ℕ) (h : History) → Ordered n h → Ordered n (after_push d h)
push-Ordered d n h o = elim (push_lem d h.queue o.valid) [
  | inl (e, r) ↦ record {
    order = rw (r, append-nil h.taken) o.order;
    counted = rw (r, append-nil h.taken) o.counted;
    valid = rw r o.valid;
    limit = push-limit d h.queue ∙ o.limit;
  }
  | inr (e, r, g, v) ↦ record {
    order =
        rw (r, g, sym (append_assoc h.given (items h.queue) (d ∷ [])))
          (IsSublist-append (d ∷ []) o.order);
    counted =
        rw (r, g, length-append h.taken (d ∷ []), length-append (items h.queue) (d ∷ []))
          (omega (arith, o.counted));
    valid = v;
    limit = push-limit d h.queue ∙ o.limit;
  }
]

pop-Ordered : (n : ℕ) (h : History) → Ordered n h → Ordered n (after_pop h)
pop-Ordered n h o = elim (pop_lem h.queue o.valid) [
  | inl (e, r) ↦ record {
    order = rw (r, append-nil h.given) o.order;
    counted = rw (r, append-nil h.given) o.counted;
    valid = rw r o.valid;
    limit = pop-limit h.queue ∙ o.limit;
  }
  | inr (d, r, g, v) ↦ record {
    order = rw (r, append_assoc h.given (d ∷ []) (items (pop h.queue).1), sym g) o.order;
    counted = rw (r, length-append h.given (d ∷ [])) (omega (arith, o.counted, ap length g));
    valid = v;
    limit = pop-limit h.queue ∙ o.limit;
  }
]

purge-Ordered :
    (f : Payload → Bool) (n : ℕ) (h : History) → Ordered n h → Ordered n (after_purge f h)
purge-Ordered f n h o =
    let (k, v) = purge_lem f h.queue o.valid in
    record {
      order =
          IsSublist-trans
            (append-IsSublist h.given
              (Kept-IsSublist f (items h.queue) (items (purge f h.queue)) k))
            o.order;
      counted = omega (arith, o.counted, Kept-count f (items h.queue) (items (purge f h.queue)) k);
      valid = v;
      limit = purge-limit f h.queue ∙ o.limit;
    }

Step-Ordered : (n : ℕ) {h i : History} → Step h i → Ordered n h → Ordered n i
Step-Ordered n {h = h} (pushes d) o = push-Ordered d n h o
Step-Ordered n {h = h} pops o = pop-Ordered n h o
Step-Ordered n {h = h} (purges f) o = purge-Ordered f n h o

start-Ordered : (n : ℕ) → Ordered n (start n)
start-Ordered n = record {
  order = unfold new in nil;
  counted = unfold new in refl;
  valid = new-IsValid n;
  limit = unfold new in refl;
}

Reach-Ordered : (n : ℕ) {h : History} → Reach (start n) h → Ordered n h
Reach-Ordered n here = start-Ordered n
Reach-Ordered n (next r s) = Step-Ordered n s (Reach-Ordered n r)

-- After any calls of `push`, `pop` and `purge` on a new queue of n places, the payloads given out and
-- those that wait, in this order, are those taken in, in their order, less some; as many are missing
-- as matched a purge while they waited. No more than n wait, and the sum of sizes is that of those.
pub Reach-IsSublist :
    (n : ℕ) {h : History}
    → Reach (start n) h
    → IsSublist (h.given ++ items h.queue) h.taken
      × (length h.taken ≡ length h.given + len h.queue + h.purged)
      × (len h.queue ≤ n)
      × (h.queue.queue_bytes_size ≡ sizes (items h.queue))
Reach-IsSublist n {h} r =
    let o = Reach-Ordered n r in
    (
      o.order,
      omega (arith, o.counted, len-items h.queue),
      omega (arith, len-items h.queue, o.valid.bounded, o.limit),
      o.valid.counted,
    )
