-- ===== src/ConnectionIds/Usable.antt =====
-- ConnectionIdentifiers of quiche/src/cid.rs: the source ids whose retirement has not been asked for, which the peer
-- may use.
use quirl.Common.{
  le_or_lt, ℕ, ◌+◌, ◌≤◌, ◌≡◌, refl, arith, List, [], ◌∷◌, ◌++◌, leb, length, Option-cases, some,
  inl, inr,
}
use quirl.ConnectionIds.Entries.{
  ConnectionIdEntry, Queue, change, count, insert, min_seq, remove, take_out,
}
use quirl.ConnectionIds.Sequences.{insert_known, insert_full, insert_new}

-- The number of entries from a bound on.
abbrev pub usable : ℕ → List ConnectionIdEntry → ℕ
usable bound es = count (λ e. leb bound e.seq) es

pub usable-le : (m n : ℕ) (es : List ConnectionIdEntry) → m ≤ n → usable n es ≤ usable m es
unfolding count
usable-le m n [] h = omega arith
usable-le m n (e ∷ es) h = ground (arith, usable-le m n es h)

pub usable-le-length : (n : ℕ) (es : List ConnectionIdEntry) → usable n es ≤ length es
unfolding count
usable-le-length n [] = omega arith
usable-le-length n (e ∷ es) = ground (arith, usable-le-length n es)

pub usable-push :
    (n : ℕ) (es : List ConnectionIdEntry) (e : ConnectionIdEntry)
    → usable n (es ++ (e ∷ [])) ≤ usable n es + 1
unfolding count
usable-push n [] e = ground arith
usable-push n (x ∷ es) e = ground (arith, usable-push n es e)

pub usable-take_out :
    (n seq : ℕ) (es : List ConnectionIdEntry) → usable n (take_out seq es).1 ≤ usable n es
unfolding count take_out
usable-take_out n seq [] = omega arith
usable-take_out n seq (e ∷ es) = ground (arith, usable-take_out n seq es)

pub usable-change :
    (n seq : ℕ) (f : ConnectionIdEntry → ConnectionIdEntry) (es l : List ConnectionIdEntry)
    → ((e : ConnectionIdEntry) → e.seq ≡ seq → (f e).seq ≡ seq)
    → change seq f es ≡ some l
    → usable n l ≡ usable n es
unfolding count change
usable-change n seq f [] l keep h = cc
usable-change n seq f (e ∷ es) l keep h = elim (Option-cases (change seq f es)) [
  | inl q ↦ ground (arith, keep e)
  | inr (r, q) ↦ ground (arith, keep e, usable-change n seq f es r keep q)
]

-- The lowest usable number is one of them: above it there is one usable number less.
pub usable-min :
    (n m : ℕ) (es : List ConnectionIdEntry)
    → min_seq (λ e. leb n e.seq) es ≡ some m
    → (n ≤ m) × (usable (m + 1) es + 1 ≤ usable n es)
unfolding count min_seq
usable-min n m [] h = cc
usable-min n m (e ∷ es) h = elim (Option-cases (min_seq (λ e. leb n e.seq) es)) [
  | inl q ↦ ground (arith, usable-le n (m + 1) es)
  | inr (k, q) ↦ ground (arith, usable-min n k es q, usable-le n (m + 1) es)
]

pub usable-insert :
    (n : ℕ) (e : ConnectionIdEntry) (q : Queue)
    → usable n (insert e q).1.inner ≤ usable n q.inner + 1
usable-insert n e q = elim (Option-cases (change e.seq (λ _. e) q.inner)) [
  | inl new ↦ elim (le_or_lt q.capacity (length q.inner)) [
    | inl full ↦ rw (insert_full e q new full) (omega arith)
    | inr room ↦ rw (insert_new e q new room) (usable-push n q.inner e)
  ]
  | inr (l, old) ↦
      rw (insert_known e q l old)
        (omega (arith, usable-change n e.seq (λ _. e) q.inner l (λ a p. refl) old))
]

pub usable-remove : (n seq : ℕ) (q : Queue) → usable n (remove seq q).1.inner ≤ usable n q.inner
unfolding remove
usable-remove n seq q = ground (arith, usable-take_out n seq q.inner)
