-- ===== src/ConnectionIds/Sequences.antt =====
-- Lemmas on the collections of quiche/src/cid.rs: the numbers in a queue stay distinct, below their bound and within
-- the capacity.
use quirl.Common.{
  ℕ, zero, suc, ◌+◌, ◌≤◌, ◌<◌, ◌≡◌, ◌≢◌, refl, ap, ◌∙◌, arith, List, [], ◌∷◌, ◌++◌, ltb, leb, ◌==◌,
  length, length-append, length-drop, drop, All, false, ◌||◌, Bool-cases, if_elim, ltb→lt, le_or_lt,
  Option-cases, none, some, inl, inr,
}
use quirl.Common.Result.{ok, err, panic}
use quirl.ConnectionIds.Entries.{
  ConnectionIdEntry, Queue, SeqSet, Error, change, take_out, has, erase, insert, id_limit, remove,
  resize, seq_insert, seq_remove,
}

abbrev pub seqs : List ConnectionIdEntry → List ℕ
seqs [] = []
seqs (e ∷ es) = e.seq ∷ seqs es

-- No number stands twice.
abbrev pub Distinct : List ℕ → Type 0
Distinct [] = Unit
Distinct (x ∷ xs) = (has x xs ≡ false) × Distinct xs

abbrev pub Below : ℕ → List ℕ → Type 0
Below n = All (λ x. x < n)

pub record Fits (bound : ℕ) (q : Queue) : Type 0 where
  pub distinct : Distinct (seqs q.inner)
  pub below : Below bound (seqs q.inner)
  pub within : length q.inner ≤ q.capacity

pub Below-le : (m n : ℕ) (xs : List ℕ) → m ≤ n → Below m xs → Below n xs
Below-le m n [] h b = tt
Below-le m n (x ∷ xs) h b = (omega arith, Below-le m n xs h b.1)

pub has-append : (n : ℕ) (xs ys : List ℕ) → has n (xs ++ ys) ≡ (has n xs || has n ys)
unfolding has
has-append n [] ys = refl
has-append n (x ∷ xs) ys = ground (arith, has-append n xs ys)

Below-has : (n : ℕ) (xs : List ℕ) → Below n xs → has n xs ≡ false
unfolding has
Below-has n [] b = refl
Below-has n (x ∷ xs) b = ground (arith, Below-has n xs b.1)

Below-push : (n m : ℕ) (xs : List ℕ) → Below n xs → m < n → Below n (xs ++ (m ∷ []))
Below-push n m [] b h = (h, tt)
Below-push n m (x ∷ xs) b h = (b.0, Below-push n m xs b.1 h)

Distinct-push : (m : ℕ) (xs : List ℕ) → Distinct xs → has m xs ≡ false → Distinct (xs ++ (m ∷ []))
unfolding has
Distinct-push m [] d h = (refl, tt)
Distinct-push m (x ∷ xs) d h =
    (ground (arith, has-append x xs (m ∷ [])), Distinct-push m xs d.1 (ground arith))

pub seqs-append : (xs ys : List ConnectionIdEntry) → seqs (xs ++ ys) ≡ seqs xs ++ seqs ys
seqs-append [] ys = refl
seqs-append (e ∷ es) ys = ap (λ t. e.seq ∷ t) (seqs-append es ys)

length-seqs : (es : List ConnectionIdEntry) → length (seqs es) ≡ length es
length-seqs [] = refl
length-seqs (e ∷ es) = omega (arith, length-seqs es)

-- A change that leaves the number alone leaves all numbers alone.
pub seqs-change :
    (seq : ℕ) (f : ConnectionIdEntry → ConnectionIdEntry) (es : List ConnectionIdEntry)
    {es' : List ConnectionIdEntry}
    → ((e : ConnectionIdEntry) → e.seq ≡ seq → (f e).seq ≡ seq)
    → change seq f es ≡ some es'
    → seqs es' ≡ seqs es
unfolding change
seqs-change seq f [] keep h = cc
seqs-change seq f (e ∷ es) {es'} keep h = elim (Bool-cases (e.seq == seq)) [
  | inl same ↦ ground (arith, keep e)
  | inr other ↦ elim (Option-cases (change seq f es)) [
    | inl q ↦ ground arith
    | inr (l, q) ↦ ground (arith, seqs-change seq f es {es' = l} keep q)
  ]
]

pub change-none :
    (seq : ℕ) (f : ConnectionIdEntry → ConnectionIdEntry) (es : List ConnectionIdEntry)
    → change seq f es ≡ none
    → has seq (seqs es) ≡ false
unfolding change has
change-none seq f [] h = refl
change-none seq f (e ∷ es) h = ground (arith, change-none seq f es)

erase-le : (n : ℕ) (xs : List ℕ) → length (erase n xs) ≤ length xs
unfolding erase
erase-le n [] = omega arith
erase-le n (x ∷ xs) = ground (arith, erase-le n xs)

pub le-erase : (n : ℕ) (xs : List ℕ) → length xs ≤ length (erase n xs) + 1
unfolding erase
le-erase n [] = omega arith
le-erase n (x ∷ xs) = ground (arith, le-erase n xs)

Below-erase : (n m : ℕ) (xs : List ℕ) → Below n xs → Below n (erase m xs)
unfolding erase
Below-erase n m [] b = tt
Below-erase n m (x ∷ xs) b = ground (arith, Below-erase n m xs b.1)

has-erase : (n m : ℕ) (xs : List ℕ) → has n xs ≡ false → has n (erase m xs) ≡ false
unfolding has erase
has-erase n m [] h = refl
has-erase n m (x ∷ xs) h = ground (arith, has-erase n m xs)

Distinct-erase : (m : ℕ) (xs : List ℕ) → Distinct xs → Distinct (erase m xs)
unfolding erase
Distinct-erase m [] d = tt
Distinct-erase m (x ∷ xs) d = ground (arith, Distinct-erase m xs d.1, has-erase x m xs)

seqs-take_out :
    (seq : ℕ) (es : List ConnectionIdEntry) → seqs (take_out seq es).1 ≡ erase seq (seqs es)
unfolding take_out erase
seqs-take_out seq [] = refl
seqs-take_out seq (e ∷ es) = ground (arith, seqs-take_out seq es)

Distinct-drop :
    (i : ℕ) (xs : List ConnectionIdEntry) → Distinct (seqs xs) → Distinct (seqs (drop i xs))
Distinct-drop zero xs d = d
Distinct-drop (suc i) [] d = tt
Distinct-drop (suc i) (x ∷ xs) d = Distinct-drop i xs d.1

Below-drop :
    (n i : ℕ) (xs : List ConnectionIdEntry) → Below n (seqs xs) → Below n (seqs (drop i xs))
Below-drop n zero xs b = b
Below-drop n (suc i) [] b = tt
Below-drop n (suc i) (x ∷ xs) b = Below-drop n i xs b.1

change-filled :
    (e : ConnectionIdEntry) (es l : List ConnectionIdEntry)
    → change e.seq (λ _. e) es ≡ some l
    → 0 < length l
unfolding change
change-filled e [] l h = cc
change-filled e (x ∷ xs) l h = ground arith

-- The three cases of an insertion.
pub insert_known :
    (e : ConnectionIdEntry) (q : Queue) (l : List ConnectionIdEntry)
    → change e.seq (λ _. e) q.inner ≡ some l
    → insert e q ≡ (ok tt, record { inner = l; capacity = q.capacity })
unfolding insert
insert_known e q l h = ground arith

pub insert_full :
    (e : ConnectionIdEntry) (q : Queue)
    → change e.seq (λ _. e) q.inner ≡ none
    → q.capacity ≤ length q.inner
    → insert e q ≡ (err id_limit, q)
unfolding insert
insert_full e q h f = ground arith

pub insert_new :
    (e : ConnectionIdEntry) (q : Queue)
    → change e.seq (λ _. e) q.inner ≡ none
    → length q.inner < q.capacity
    → insert e q ≡ (ok tt, record { inner = q.inner ++ (e ∷ []); capacity = q.capacity })
unfolding insert
insert_new e q h f = ground arith

-- A queue into which a new number, or a known one, is inserted.
pub insert-Fits :
    (n m : ℕ) (e : ConnectionIdEntry) (q : Queue)
    → Fits n q
    → n ≤ m
    → e.seq < m
    → Fits m (insert e q).1
insert-Fits n m e q v h lt = elim (Option-cases (change e.seq (λ _. e) q.inner)) [
  | inl new ↦ elim (le_or_lt q.capacity (length q.inner)) [
    | inl full ↦ rw (insert_full e q new full) (record {
      distinct = v.distinct;
      below = Below-le n m (seqs q.inner) h v.below;
      within = v.within;
    })
    | inr room ↦
        let pushed = seqs-append q.inner (e ∷ []) in
        rw (insert_new e q new room) (record {
          distinct = rw pushed (
              Distinct-push e.seq (seqs q.inner) v.distinct
                (change-none e.seq (λ _. e) q.inner new));
          below =
              rw pushed
                (Below-push m e.seq (seqs q.inner) (Below-le n m (seqs q.inner) h v.below) lt);
          within = ground (arith, length-append q.inner (e ∷ []));
        })
  ]
  | inr (l, old) ↦
      let same = seqs-change e.seq (λ _. e) q.inner {es' = l} (λ a p. refl) old in
      rw (insert_known e q l old) (record {
        distinct = rw same v.distinct;
        below = rw same (Below-le n m (seqs q.inner) h v.below);
        within = omega (arith, length-seqs l, length-seqs q.inner, ap length same, v.within);
      })
]

pub insert-filled :
    (e : ConnectionIdEntry) (q : Queue) → 0 < q.capacity → 0 < length (insert e q).1.inner
insert-filled e q h = elim (Option-cases (change e.seq (λ _. e) q.inner)) [
  | inl new ↦ elim (le_or_lt q.capacity (length q.inner)) [
    | inl full ↦ rw (insert_full e q new full) (omega arith)
    | inr room ↦ rw (insert_new e q new room) (omega (arith, length-append q.inner (e ∷ [])))
  ]
  | inr (l, old) ↦ rw (insert_known e q l old) (change-filled e q.inner l old)
]

pub insert-capacity : (e : ConnectionIdEntry) (q : Queue) → (insert e q).1.capacity ≡ q.capacity
unfolding insert
insert-capacity e q = ground arith

pub insert_err :
    (e : ConnectionIdEntry) (q : Queue) {er : Error} {q' : Queue}
    → insert e q ≡ (err er, q')
    → q' ≡ q
unfolding insert
insert_err e q h = ground arith

pub insert_panic : (e : ConnectionIdEntry) (q : Queue) {q' : Queue} → insert e q ≢ (panic, q')
unfolding insert
insert_panic e q h = ground arith

-- A removal leaves an entry: it is refused at the last one.
pub remove-Fits :
    (n seq : ℕ) (q : Queue)
    → Fits n q
    → 0 < length q.inner
    → Fits n (remove seq q).1 × (0 < length (remove seq q).1.inner)
unfolding remove
remove-Fits n seq q v f = elim (Bool-cases (leb (length q.inner) 1)) [
  | inl last ↦ rw last (v, f)
  | inr more ↦
      let taken = seqs-take_out seq q.inner in
      rw more (
        record {
          distinct = rw taken (Distinct-erase seq (seqs q.inner) v.distinct);
          below = rw taken (Below-erase n seq (seqs q.inner) v.below);
          within = omega (
            arith,
            length-seqs (take_out seq q.inner).1,
            length-seqs q.inner,
            ap length taken,
            erase-le seq (seqs q.inner),
            v.within,
          );
        },
        ground (
          arith,
          length-seqs (take_out seq q.inner).1,
          length-seqs q.inner,
          ap length taken,
          le-erase seq (seqs q.inner),
        ),
      )
]

pub drop-Fits :
    (n i : ℕ) (q : Queue)
    → Fits n q
    → Fits n (record { inner = drop i q.inner; capacity = q.capacity })
drop-Fits n i q v = record {
  distinct = Distinct-drop i q.inner v.distinct;
  below = Below-drop n i q.inner v.below;
  within = omega (arith, length-drop i q.inner, v.within);
}

pub change-Fits :
    (n seq : ℕ) (f : ConnectionIdEntry → ConnectionIdEntry) (q : Queue)
    {es : List ConnectionIdEntry}
    → ((e : ConnectionIdEntry) → (f e).seq ≡ e.seq)
    → change seq f q.inner ≡ some es
    → Fits n q
    → Fits n (record { inner = es; capacity = q.capacity }) × (length es ≡ length q.inner)
change-Fits n seq f q {es} keep h v =
    let same = seqs-change seq f q.inner {es' = es} (λ e p. keep e ∙ p) h in
    let size : length es ≡ length q.inner =
      omega (arith, length-seqs es, length-seqs q.inner, ap length same) in
    (
      record { distinct = rw same v.distinct; below = rw same v.below; within = rw size v.within },
      size,
    )

-- The set of numbers to retire stays within its capacity.
pub seq_insert-within :
    (e : ℕ) (s : SeqSet)
    → length s.inner ≤ s.capacity
    → (length (seq_insert e s).1.inner ≤ s.capacity) × ((seq_insert e s).1.capacity ≡ s.capacity)
unfolding seq_insert
seq_insert-within e s h = ground arith

pub seq_remove-within :
    (e : ℕ) (s : SeqSet)
    → length s.inner ≤ s.capacity
    → (length (seq_remove e s).1.inner ≤ s.capacity) × ((seq_remove e s).1.capacity ≡ s.capacity)
unfolding seq_remove
seq_remove-within e s h = (omega (arith, erase-le e s.inner), refl)

pub remove-capacity : (seq : ℕ) (q : Queue) → (remove seq q).1.capacity ≡ q.capacity
unfolding remove
remove-capacity seq q = ground arith

pub Fits-le : (m n : ℕ) (q : Queue) → m ≤ n → Fits m q → Fits n q
Fits-le m n q h v = record {
  distinct = v.distinct;
  below = Below-le m n (seqs q.inner) h v.below;
  within = v.within;
}

pub resize-inner : (n : ℕ) (q : Queue) → (resize n q).inner ≡ q.inner
unfolding resize
resize-inner n q = ground arith

pub resize-Fits : (n bound : ℕ) (q : Queue) → Fits bound q → Fits bound (resize n q)
unfolding resize
resize-Fits n bound q v =
    if_elim (Fits bound) (ltb q.capacity n)
      (λ h. record {
        distinct = v.distinct;
        below = v.below;
        within = omega (arith, ltb→lt q.capacity n h, v.within);
      })
      (λ _. v)
