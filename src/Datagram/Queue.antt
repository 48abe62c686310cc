-- ===== src/Datagram/Queue.antt =====
-- DatagramQueue of quiche/src/dgram.rs: its order, its bound and its count of bytes.
use quirl.Common.{
  ℕ, ◌+◌, ◌≤◌, ◌<◌, List, [], ◌∷◌, ◌++◌, ◌==◌, length, Bool, Bool-cases, true, false, Option, none,
  some, ◌≡◌, refl, arith, inl, inr, ◌⊎◌, length-append, ◌∙◌,
}
use quirl.Common.Result.{ok, err}
use quirl.Datagram.{
  done, Payload, DatagramQueue, new, items, len, is_full, push, pop, pop_list, retain_not,
  fold_sizes, purge,
}

abbrev pub sizes : List Payload → ℕ
sizes [] = 0
sizes (d ∷ ds) = length d + sizes ds

pub record IsValid (q : DatagramQueue) : Type 0 where
  pub counted : q.queue_bytes_size ≡ sizes (items q)
  pub bounded : length (items q) ≤ q.queue_max_len

sizes-append : (xs ys : List Payload) → sizes (xs ++ ys) ≡ sizes xs + sizes ys
sizes-append [] ys = omega arith
sizes-append (x ∷ xs) ys = omega (arith, sizes-append xs ys)

fold_sizes-eq : (total : ℕ) (ds : List Payload) → fold_sizes total ds ≡ total + sizes ds
unfolding fold_sizes
fold_sizes-eq total [] = omega arith
fold_sizes-eq total (d ∷ ds) = omega (arith, fold_sizes-eq (total + length d) ds)

length-retain_not : (f : Payload → Bool) (ds : List Payload) → length (retain_not f ds) ≤ length ds
unfolding retain_not
length-retain_not f [] = omega arith
length-retain_not f (d ∷ ds) = ground (arith, length-retain_not f ds)

pub len-items : (q : DatagramQueue) → len q ≡ length (items q)
unfolding len
len-items q = ground arith

pub new-IsValid : (n : ℕ) → IsValid (new n)
unfolding new
new-IsValid n = record { counted = refl; bounded = omega arith }

-- A full queue refuses the payload and stays as it is; any other takes it at its end. Either way the
-- result is a valid queue.
pub push_lem :
    (d : Payload) (q : DatagramQueue)
    → IsValid q
    → ((len q ≡ q.queue_max_len) × (push d q ≡ (err done, q)))
      ⊎ ((len q < q.queue_max_len)
          × ((push d q).0 ≡ ok tt)
          × (items (push d q).1 ≡ items q ++ (d ∷ []))
          × IsValid (push d q).1)
unfolding push is_full
push_lem d q v = elim (Bool-cases (len q == q.queue_max_len)) [
  | inl e ↦ inl (ground arith, rw e)
  | inr e ↦
      let short : len q < q.queue_max_len = ground (arith, len-items q, v.bounded) in
      inr (
        short,
        rw e,
        rw e,
        rw e (record {
          counted = omega (arith, v.counted, sizes-append (items q) (d ∷ []));
          bounded = omega (arith, short, len-items q, length-append (items q) (d ∷ []));
        }),
      )
]

abbrev queue_of : Option (List Payload) → ℕ → ℕ → DatagramQueue
queue_of l m b = record { queue = l; queue_max_len = m; queue_bytes_size = b }

-- What a `pop` has done, by its result.
abbrev Popped : DatagramQueue → Option Payload × DatagramQueue → Type 0
Popped q r =
    ((items q ≡ []) × (r ≡ (none, q)))
    ⊎ ((d : Payload) × (r.0 ≡ some d) × (items q ≡ d ∷ items r.1) × IsValid r.1)

pop_cases :
    (l : Option (List Payload)) (m b : ℕ)
    → IsValid (queue_of l m b)
    → Popped (queue_of l m b) (pop_list l (queue_of l m b))
unfolding pop_list
pop_cases none m b v = inl (refl, refl)
pop_cases (some []) m b v = inl (refl, refl)
pop_cases (some (d ∷ ds)) m b v = inr (
  d,
  refl,
  refl,
  record { counted = omega (arith, v.counted); bounded = omega (arith, v.bounded) },
)

-- `pop` takes the payload at the front, and nothing from an empty queue; the rest stays in order,
-- and the queue stays valid.
pub pop_lem :
    (q : DatagramQueue)
    → IsValid q
    → ((items q ≡ []) × (pop q ≡ (none, q)))
      ⊎ ((d : Payload) × ((pop q).0 ≡ some d) × (items q ≡ d ∷ items (pop q).1) × IsValid (pop q).1)
unfolding pop
pop_lem q v = pop_cases q.queue q.queue_max_len q.queue_bytes_size v

-- The payloads that do not match, in order.
abbrev pub Kept : (Payload → Bool) → List Payload → List Payload → Type 0
Kept f [] ks = ks ≡ []
Kept f (d ∷ ds) ks =
    ((f d ≡ true) × Kept f ds ks)
    ⊎ ((rest : List Payload) × (f d ≡ false) × (ks ≡ d ∷ rest) × Kept f ds rest)

retain_not-Kept : (f : Payload → Bool) (ds : List Payload) → Kept f ds (retain_not f ds)
unfolding retain_not
retain_not-Kept f [] = refl
retain_not-Kept f (d ∷ ds) = elim (Bool-cases (f d)) [
  | inl e ↦ rw e (inl (refl, retain_not-Kept f ds))
  | inr e ↦ rw e (inr (retain_not f ds, refl, refl, retain_not-Kept f ds))
]

purge_cases :
    (f : Payload → Bool) (l : Option (List Payload)) (m b : ℕ)
    → IsValid (queue_of l m b)
    → Kept f (items (queue_of l m b)) (items (purge f (queue_of l m b)))
      × IsValid (purge f (queue_of l m b))
unfolding purge
purge_cases f none m b v = (refl, v)
purge_cases f (some ds) m b v = (
  retain_not-Kept f ds,
  record {
    counted = fold_sizes-eq 0 (retain_not f ds) ∙ omega arith;
    bounded = omega (arith, v.bounded, length-retain_not f ds);
  },
)

-- `purge` keeps exactly the payloads that do not match, in their order, and the queue stays valid:
-- the bytes are counted anew.
pub purge_lem :
    (f : Payload → Bool) (q : DatagramQueue)
    → IsValid q
    → Kept f (items q) (items (purge f q)) × IsValid (purge f q)
purge_lem f q v = purge_cases f q.queue q.queue_max_len q.queue_bytes_size v
