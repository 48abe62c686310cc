-- ===== src/Stream/Split.antt =====
-- RangeBuf of quiche/src/stream/mod.rs: its bytes, and the same after some are consumed.
use quirl.Stream.RangeBuf.{RangeBuf, from, consume, deref}
use quirl.Stream.RangeBuf as Chunk
use native.Mathlib.Numerals.{unary_clauses}
use quirl.Common.{
  leb, min, none, some, ltb, max, if◌then◌else◌, Bool-cases, inl, inr, true, false, append-nil, ℕ,
  zero, suc, ◌+◌, ◌-◌, ◌≤◌, ◌≡◌, refl, sym, ap, ◌∙◌, List, [], ◌∷◌, ◌++◌, length, take, drop, arith,
  Bool, length-take, length-drop, drop-drop, drop-nil,
}

module _ {ℓ} {A : Type ℓ} where
  pub take-nil : (n : ℕ) → ◌≡◌ {A = List A} (take n []) []
  take-nil zero = refl
  take-nil (suc n) = refl

  pub take-append :
      (n : ℕ) (xs ys : List A) → take n (xs ++ ys) ≡ take n xs ++ take (n - length xs) ys
  take-append zero [] ys = refl
  take-append (suc n) [] ys = simp unary_clauses refl
  take-append zero (x ∷ xs) ys = ap (λ k. take k ys) {x = 0} {y = 0 - length (x ∷ xs)} (omega arith)
  take-append (suc n) (x ∷ xs) ys = simp unary_clauses (ap (λ t. x ∷ t) (take-append n xs ys))

  pub drop-append :
      (n : ℕ) (xs ys : List A) → drop n (xs ++ ys) ≡ drop n xs ++ drop (n - length xs) ys
  drop-append zero [] ys = refl
  drop-append (suc n) [] ys = simp unary_clauses refl
  drop-append zero (x ∷ xs) ys =
      ap (λ k. x ∷ xs ++ drop k ys) {x = 0} {y = 0 - length (x ∷ xs)} (omega arith)
  drop-append (suc n) (x ∷ xs) ys = simp unary_clauses (drop-append n xs ys)

  pub drop-take : (m n : ℕ) (xs : List A) → drop m (take n xs) ≡ take (n - m) (drop m xs)
  drop-take zero n xs = simp unary_clauses refl
  drop-take (suc m) zero xs =
      ap (λ k. take k (drop (suc m) xs)) {x = 0} {y = 0 - suc m} (omega arith)
  drop-take (suc m) (suc n) [] = sym (take-nil (suc n - suc m))
  drop-take (suc m) (suc n) (x ∷ xs) = simp unary_clauses (drop-take m n xs)

  pub take-all : (n : ℕ) (xs : List A) → length xs ≤ n → take n xs ≡ xs
  take-all n [] h = take-nil n
  take-all zero (x ∷ xs) h = absurd (omega arith)
  take-all (suc n) (x ∷ xs) h = ap (λ t. x ∷ t) (take-all n xs (omega arith))

  drop-all : (n : ℕ) (xs : List A) → length xs ≤ n → drop n xs ≡ []
  drop-all n [] h = drop-nil n
  drop-all zero (x ∷ xs) h = absurd (omega arith)
  drop-all (suc n) (x ∷ xs) h = drop-all n xs (omega arith)

  pub take-append_short : (n : ℕ) (xs ys : List A) → n ≤ length xs → take n (xs ++ ys) ≡ take n xs
  take-append_short n xs ys h =
      take-append n xs ys
      ∙ ap (λ k. take n xs ++ take k ys) {x = n - length xs} {y = 0} (omega arith)
      ∙ append-nil (take n xs)

  pub drop-append_short :
      (n : ℕ) (xs ys : List A) → n ≤ length xs → drop n (xs ++ ys) ≡ drop n xs ++ ys
  drop-append_short n xs ys h =
      drop-append n xs ys
      ∙ ap (λ k. drop n xs ++ drop k ys) {x = n - length xs} {y = 0} (omega arith)

  pub take-append_long :
      (n : ℕ) (xs ys : List A) → length xs ≤ n → take n (xs ++ ys) ≡ xs ++ take (n - length xs) ys
  take-append_long n xs ys h =
      take-append n xs ys ∙ ap (λ t. t ++ take (n - length xs) ys) (take-all n xs h)

  pub drop-append_long :
      (n : ℕ) (xs ys : List A) → length xs ≤ n → drop n (xs ++ ys) ≡ drop (n - length xs) ys
  drop-append_long n xs ys h =
      drop-append n xs ys ∙ ap (λ t. t ++ drop (n - length xs) ys) (drop-all n xs h)

-- The cursor is within the part, and the part within the vector.
pub record IsValid (b : RangeBuf) : Type 0 where
  pub begun : b.start ≤ b.pos
  pub within : b.pos ≤ b.start + b.len
  pub fits : b.start + b.len ≤ length b.vec
  pub placed : b.start ≤ b.off

pub from-IsValid : (buf : List ℕ) (off : ℕ) (fin : Bool) → IsValid (from buf off fin)
unfolding from
from-IsValid buf off fin = omega arith

pub length-deref : {b : RangeBuf} → IsValid b → length (deref b) ≡ Chunk.len b
unfolding deref Chunk.len
length-deref {b} v = omega (
  arith,
  v.begun,
  v.within,
  v.fits,
  length-take (b.start + b.len - b.pos) (drop b.pos b.vec),
  length-drop b.pos b.vec,
)

pub consume-IsValid : {b : RangeBuf} (n : ℕ) → IsValid b → n ≤ Chunk.len b → IsValid (consume n b)
unfolding consume Chunk.len
consume-IsValid n v h = ground arith

pub deref-consume : (n : ℕ) (b : RangeBuf) → deref (consume n b) ≡ drop n (deref b)
unfolding deref consume
deref-consume n b =
    rw (drop-take n (b.start + b.len - b.pos) (drop b.pos b.vec), drop-drop b.pos n b.vec)
      (ap (λ k. take k (drop (b.pos + n) b.vec)) {x = b.start + b.len - (b.pos + n)}
        {y = b.start + b.len - b.pos - n} (omega arith))

pub off-consume : (b : RangeBuf) (n : ℕ) → Chunk.off (consume n b) ≡ Chunk.off b + n
unfolding Chunk.off consume
off-consume b n = omega arith

pub len-consume :
    {b : RangeBuf} (n : ℕ) → IsValid b → n ≤ Chunk.len b → Chunk.len (consume n b) ≡ Chunk.len b - n
unfolding Chunk.len consume
len-consume n v h = ground arith

take-add : (m n : ℕ) (xs : List ℕ) → take (m + n) xs ≡ take m xs ++ take n (drop m xs)
take-add zero n xs = ap (λ k. take k xs) {x = 0 + n} {y = n} (omega arith)
take-add (suc m) n [] = take-nil (suc m + n) ∙ sym (take-nil n)
take-add (suc m) n (x ∷ xs) =
    ap (λ k. take k (x ∷ xs)) {x = suc m + n} {y = suc (m + n)} (omega arith)
    ∙ ap (λ t. x ∷ t) (take-add m n xs)

-- The two parts of a split, each valid: together they have the bytes of the whole, in order, end
-- where it ended, and the last part has its final flag.
abbrev pub Parts : RangeBuf → ℕ → RangeBuf × RangeBuf → Type 0
Parts b at (tail, head) =
    IsValid head
    × IsValid tail
    × (deref head ++ deref tail ≡ deref b)
    × (Chunk.off tail ≡ max (Chunk.off b) (b.off + at))
    × (Chunk.max_off tail ≡ Chunk.max_off b)
    × (head.fin ≡ false)
    × (tail.fin ≡ b.fin)

order_le : (p q : ℕ) → leb p q ≡ true → (min p q ≡ p) × (max p q ≡ q) × (p ≤ q)
order_le p q e = ground arith

order_gt : (p q : ℕ) → leb p q ≡ false → (min p q ≡ q) × (max p q ≡ p)
order_gt p q e = ground arith

not_less : (a b : ℕ) → ltb a b ≡ false → b ≤ a
not_less a b h = ground arith

join :
    (xs : List ℕ) (p q n : ℕ)
    → p ≤ q
    → take (q - p) (drop p xs) ++ take n (drop q xs) ≡ take (q - p + n) (drop p xs)
join xs p q n h = sym (
    take-add (q - p) n (drop p xs)
    ∙ ap (λ t. take (q - p) (drop p xs) ++ take n t)
        (drop-drop p (q - p) xs ∙ ap (λ k. drop k xs) {x = p + (q - p)} {y = q} (omega arith)))

-- The bytes on both sides of the cut `q`, for a cursor `p` before or after it.
join_at :
    (xs : List ℕ) (p q n : ℕ)
    → p ≤ q + n
    → take (q - min p q) (drop (min p q) xs) ++ take (q + n - max p q) (drop (max p q) xs)
      ≡ take (q + n - p) (drop p xs)
join_at xs p q n h = elim (Bool-cases (leb p q)) [
  | inl e ↦
      let (f, g, le) = order_le p q e in
      rw (f, g)
        (join xs p q (q + n - q) le
          ∙ ap (λ k. take k (drop p xs)) {x = q - p + (q + n - q)} {y = q + n - p} (omega arith))
  | inr e ↦
      let (f, g) = order_gt p q e in
      rw (f, g)
        (ap (λ k. take k (drop q xs) ++ take (q + n - p) (drop p xs)) {x = q - q} {y = 0}
          (omega arith))
]

pub split_bytes :
    (at : ℕ) (b : RangeBuf) (fin : Bool)
    → IsValid b
    → at ≤ b.len
    → deref (record b { pos = min b.pos (b.start + at); len = at; fin = fin })
        ++ deref (record b {
          start = b.start + at;
          pos = max b.pos (b.start + at);
          len = b.len - at;
          off = b.off + at;
        })
      ≡ deref b
unfolding deref
split_bytes at b fin v h =
    join_at b.vec b.pos (b.start + at) (b.len - at) (omega (arith, v.within))
    ∙ ap (λ k. take (k - b.pos) (drop b.pos b.vec)) {x = b.start + at + (b.len - at)}
        {y = b.start + b.len} (omega arith)

-- A valid buffer is split anywhere up to its length; beyond, the assertion fails.
split_off_lem :
    (at : ℕ) (b : RangeBuf)
    → IsValid b
    → if ltb b.len at
      then Chunk.split_off at b ≡ none
      else ((parts : RangeBuf × RangeBuf) × (Chunk.split_off at b ≡ some parts) × Parts b at parts)
unfolding Chunk.split_off Chunk.off Chunk.len Chunk.max_off
split_off_lem at b v = elim (Bool-cases (ltb b.len at)) [
  | inl e ↦ rw e refl
  | inr e ↦
      let le = not_less b.len at e in
      rw e (
        _,
        refl,
        (
          omega (arith, v.begun, v.within, v.fits, v.placed, le),
          omega (arith, v.begun, v.within, v.fits, v.placed, le),
          split_bytes at b false v le,
          omega (arith, v.begun, v.within, v.fits, v.placed, le),
          omega (arith, v.begun, v.within, v.fits, v.placed, le),
          refl,
          refl,
        ),
      )
]
