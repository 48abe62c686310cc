-- ===== src/Stream/Bytes.antt =====
-- The bytes that chunks and buffers have at each place of a stream, quiche/src/stream.
use quirl.Stream.RangeBuf.{RangeBuf, split_off, is_empty, deref}
use quirl.Stream.RangeBuf as Chunk
use quirl.Stream.Split.{length-deref}
use quirl.Stream.Write.{Chunks, Overlap, contained, remaining, failed, overlap_loop}
use quirl.Stream.Overlaps.{within_both, start_inside, end_inside}
use quirl.Stream.Halves.{Fresh, ends, Halves, halves}
use quirl.Stream.Apart.{Clear, AllClear}
use quirl.Common.{
  ℕ, zero, suc, ◌+◌, ◌-◌, ◌≤◌, ◌<◌, ◌≡◌, refl, sym, ap, ◌∙◌, List, [], ◌∷◌, ◌++◌, ltb, leb, ◌&&◌,
  ◌||◌, if◌then◌else◌, Bool, true, false, Option, none, arith, Bool-cases, inl, inr, get_elem?,
  length,
}

abbrev pub has : RangeBuf → ℕ → Bool
has b x = leb (Chunk.off b) x && ltb x (Chunk.max_off b)

abbrev pub byte : RangeBuf → ℕ → Option ℕ
byte b x = get_elem? (deref b) (x - Chunk.off b)

abbrev pub covers : Chunks → ℕ → Bool
covers [] x = false
covers ((k, b) ∷ rest) x = has b x || covers rest x

abbrev pub byte_at : Chunks → ℕ → Option ℕ
byte_at [] x = none
byte_at ((k, b) ∷ rest) x = if has b x then byte b x else byte_at rest x

abbrev pub queue_has : List RangeBuf → ℕ → Bool
queue_has [] x = false
queue_has (b ∷ bs) x = has b x || queue_has bs x

-- Of a buffer that has the place, the bytes are those of the whole.
pub get_elem?-append_left :
    (xs ys : List ℕ) (i : ℕ) → i < length xs → get_elem? (xs ++ ys) i ≡ get_elem? xs i
get_elem?-append_left [] ys i h = absurd (omega arith)
get_elem?-append_left (x ∷ xs) ys zero h = refl
get_elem?-append_left (x ∷ xs) ys (suc i) h = get_elem?-append_left xs ys i (omega arith)

pub get_elem?-append_right :
    (xs ys : List ℕ) (i : ℕ) → get_elem? (xs ++ ys) (length xs + i) ≡ get_elem? ys i
get_elem?-append_right [] ys i = ap (get_elem? ys) (omega arith)
get_elem?-append_right (x ∷ xs) ys i =
    ap (get_elem? (x ∷ (xs ++ ys))) {x = length (x ∷ xs) + i} {y = suc (length xs + i)}
      (omega arith)
    ∙ get_elem?-append_right xs ys i

-- Chunks that are clear of a buffer do not have its places.
pub Clear-has : (buf b : RangeBuf) (x : ℕ) → Clear buf b → has b x ≡ true → has buf x ≡ false
Clear-has buf b x (c, d) h = ground arith

pub covers-AllClear :
    (buf : RangeBuf) (l : Chunks) (x : ℕ) → AllClear buf l → covers l x ≡ true → has buf x ≡ false
covers-AllClear buf [] x a h = absurd (ground arith)
covers-AllClear buf ((k, b) ∷ rest) x (c, a) h = elim (Bool-cases (has b x)) [
  | inl e ↦ Clear-has buf b x c e
  | inr e ↦ covers-AllClear buf rest x a (rw e at h)
]

pub uncovered : (l : Chunks) (x : ℕ) → covers l x ≡ false → byte_at l x ≡ none
uncovered [] x h = refl
uncovered ((k, b) ∷ rest) x h = elim (Bool-cases (has b x)) [
  | inl e ↦ absurd (ground arith)
  | inr e ↦ rw e (uncovered rest x (rw e at h))
]

-- The parts of a buffer have its bytes, and its places between them.
pub Halves-bytes :
    (b : RangeBuf) (at : ℕ) (tail head : RangeBuf) (x : ℕ)
    → Halves b at tail head
    → at ≤ Chunk.len b
    → (has head x ≡ true → byte head x ≡ byte b x)
      × (has tail x ≡ true → byte tail x ≡ byte b x)
      × (has b x ≡ (has head x || has tail x))
Halves-bytes b at tail head x (eq, ft, fh, ot, lt, oh, lh, bs) le =
    let n : length (deref head) ≡ at = length-deref fh.valid ∙ lh in
    (
      λ h.
          let lt' : x - Chunk.off head < length (deref head) =
            (let h' : (Chunk.off head ≤ x) × (x < Chunk.max_off head) = ground arith in
              omega (arith, h', n, lh, ends head)) in
          sym (get_elem?-append_left (deref head) (deref tail) (x - Chunk.off head) lt')
          ∙ ap (λ l. get_elem? l (x - Chunk.off head)) bs
          ∙ ap (λ o. get_elem? (deref b) (x - o)) oh,
      λ h.
          let h' : (Chunk.off tail ≤ x) × (x < Chunk.max_off tail) = ground arith in
          sym (get_elem?-append_right (deref head) (deref tail) (x - Chunk.off tail))
          ∙ ap (λ l. get_elem? l (length (deref head) + (x - Chunk.off tail))) bs
          ∙ ap (get_elem? (deref b)) (omega (arith, h', n, ot)),
      ground (arith, ot, lt, oh, lh, ends b, ends head, ends tail),
    )

pub or_none : (a : Bool) → (a || false) ≡ a
or_none true = refl
or_none false = refl

or_assoc : (a b c : Bool) → (a || (b || c)) ≡ ((a || b) || c)
or_assoc true b c = refl
or_assoc false b c = refl

or_left : (a b : Bool) → a ≡ true → (a || b) ≡ true
or_left a b h = rw h refl

pub or_right : (a b : Bool) → b ≡ true → (a || b) ≡ true
or_right true b h = refl
or_right false b h = h

or_swap : (a b c : Bool) → ((a || b) || c) ≡ (a || (c || b))
or_swap true b c = refl
or_swap false true true = refl
or_swap false true false = refl
or_swap false false true = refl
or_swap false false false = refl

queue_has-snoc :
    (bs : List RangeBuf) (b : RangeBuf) (x : ℕ)
    → queue_has (bs ++ (b ∷ [])) x ≡ (queue_has bs x || has b x)
queue_has-snoc [] b x = or_none (has b x)
queue_has-snoc (c ∷ bs) b x =
    ap (λ t. has c x || t) (queue_has-snoc bs b x) ∙ or_assoc (has c x) (queue_has bs x) (has b x)

-- At one place, of a buffer that had the byte `o` there before it was cut.
module _ (x : ℕ) (o : Option ℕ) where
  abbrev pub Agrees : RangeBuf → Type 0
  Agrees b = has b x ≡ true → byte b x ≡ o

  abbrev pub AllAgree : List RangeBuf → Type 0
  AllAgree [] = Unit {0}
  AllAgree (b ∷ bs) = Agrees b × AllAgree bs

  AllAgree-snoc :
      (bs : List RangeBuf) (b : RangeBuf) → AllAgree bs → Agrees b → AllAgree (bs ++ (b ∷ []))
  AllAgree-snoc [] b qs a = (a, tt)
  AllAgree-snoc (c ∷ bs) b (h, qs) a = (h, AllAgree-snoc bs b qs a)

  -- What is left where no chunk has the place.
  abbrev pub Kept : Chunks → Bool → Overlap → Type 0
  Kept l had (contained t) = AllAgree t × (covers l x ≡ false → had ≡ queue_has t x)
  Kept l had (remaining b t) =
      Agrees b × AllAgree t × (covers l x ≡ false → had ≡ (has b x || queue_has t x))
  Kept l had failed = Unit {0}

  Kept-cons :
      (k : ℕ) (b : RangeBuf) (rest : Chunks) (had had' : Bool) (y : Overlap)
      → (has b x ≡ false → had ≡ had')
      → Kept rest had' y
      → Kept ((k, b) ∷ rest) had y
  Kept-cons k b rest had had' (contained t) h (a, e) = (a, λ c. h (ground arith) ∙ e (ground arith))
  Kept-cons k b rest had had' (remaining b' t) h (g, a, e) =
      (g, a, λ c. h (ground arith) ∙ e (ground arith))
  Kept-cons k b rest had had' failed h y = tt

  pub loop-Kept :
      (l : Chunks) (buf : RangeBuf) (tmp : List RangeBuf)
      → Fresh buf
      → Agrees buf
      → AllAgree tmp
      → Kept l (has buf x || queue_has tmp x) (overlap_loop l buf tmp)
  unfolding overlap_loop
  loop-Kept [] buf tmp f g a = (g, a, λ c. refl)
  loop-Kept ((k, b) ∷ rest) buf tmp f g a =
      elim (Bool-cases (ltb (Chunk.max_off buf) (Chunk.off b))) [
        | inl c1 ↦ rw c1 (g, a, λ c. refl)
        | inr c1 ↦
            elim (Bool-cases
              (leb (Chunk.off b) (Chunk.off buf) && leb (Chunk.max_off buf) (Chunk.max_off b))) [
                | inl c2 ↦
                    rw (c1, c2)
                      (
                        a,
                        λ c.
                            let at : (Chunk.off b ≤ Chunk.off buf)
                                × (Chunk.max_off buf ≤ Chunk.max_off b) =
                              within_both _ _ _ _ c2 in
                            let away : has buf x ≡ false = ground (arith, at) in rw away refl,
                      )
                | inr c2 ↦
                    elim (Bool-cases (
                      leb (Chunk.off b) (Chunk.off buf) && ltb (Chunk.off buf) (Chunk.max_off b))) [
                        | inl c3 ↦
                            let at : (Chunk.off b ≤ Chunk.off buf)
                                × (Chunk.off buf < Chunk.max_off b)
                                × (Chunk.max_off b < Chunk.max_off buf) =
                              start_inside _ _ _ _ c3 c2 in
                            let le : Chunk.max_off b - Chunk.off buf ≤ Chunk.len buf =
                              omega (arith, at, ends buf) in
                            let (tail, head, hs) =
                              halves buf (Chunk.max_off b - Chunk.off buf) f le in
                            let (eq, ft, fh, ot, lt, oh, lh, bs) = hs in
                            let (bh, bt, split) = Halves-bytes buf _ tail head x hs le in
                            rw (c1, c2, c3, eq)
                              (Kept-cons k b rest _ _ _
                                (λ c.
                                  let away : has head x ≡ false =
                                    ground (arith, at, oh, lh, ends head) in
                                  rw (split, away) refl)
                                (loop-Kept rest tail tmp ft
                                  (λ h. bt h ∙ g (split ∙ or_right (has head x) (has tail x) h)) a))
                        | inr c3 ↦
                            elim (Bool-cases (
                              ltb (Chunk.off buf) (Chunk.off b)
                              && ltb (Chunk.off b) (Chunk.max_off buf))) [
                                | inl c4 ↦
                                    let at : (Chunk.off buf < Chunk.off b)
                                        × (Chunk.off b < Chunk.max_off buf) =
                                      end_inside _ _ _ c4 in
                                    let le : Chunk.off b - Chunk.off buf ≤ Chunk.len buf =
                                      omega (arith, at, ends buf) in
                                    let (tail, head, hs) =
                                      halves buf (Chunk.off b - Chunk.off buf) f le in
                                    let (eq, ft, fh, ot, lt, oh, lh, bs) = hs in
                                    let (bh, bt, split) = Halves-bytes buf _ tail head x hs le in
                                    rw (c1, c2, c3, c4, eq)
                                      (Kept-cons k b rest _ _ _
                                        (λ c.
                                          rw (split, queue_has-snoc tmp tail x)
                                            (or_swap (has head x) (has tail x) (queue_has tmp x)))
                                        (loop-Kept rest head (tmp ++ (tail ∷ [])) fh
                                          (λ h.
                                            bh h ∙ g (split ∙ or_left (has head x) (has tail x) h))
                                          (AllAgree-snoc tmp tail a (λ h.
                                            bt h
                                            ∙ g (split ∙ or_right (has head x) (has tail x) h)))))
                                | inr c4 ↦
                                    rw (c1, c2, c3, c4)
                                      (Kept-cons k b rest _ _ _ (λ c. refl)
                                        (loop-Kept rest buf tmp f g a))
                              ]
                      ]
              ]
      ]
