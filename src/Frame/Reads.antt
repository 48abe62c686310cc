-- ===== src/Frame/Reads.antt =====
-- What the reading steps of quiche/src/frame.rs return where the pieces of a frame stand at the cursor.
use quirl.Common.{
  ℕ, ◌+◌, ◌^◌, ◌/◌, ◌%◌, ◌<◌, ◌≡◌, refl, sym, ap, ◌∙◌, List, [], ◌∷◌, ◌++◌, length, arith,
  append_assoc, append-nil, length-append, drop-append_length, drop, ==_iff,
}
use quirl.Common.Result.{Result, ok}
use quirl.Common.Exec.{◌>>=◌, pure}
use quirl.Octets.{Octets, as_ref, be_bytes, get_u8, get_varint, get_bytes_with_varint_length}
use quirl.Octets.Bytes.{advance, as_ref-advance}
use quirl.Octets.Encode.{varint, varint_two, length-varint}
use quirl.Octets.Decode.{get_varint-varint, get_two_bytes, get_u_at}
use quirl.Octets.Slices.{get_bytes-at, skip-at}
use quirl.Frame.{Coding, io, convert}
use quirl.Frame.Parse.{
  Parser, varint_field, bytes_field, bytes_with_length, array_field, from_decoder,
}
use quirl.Frame.Format.{flat, Small}
use quirl.Frame.Writes.{flat-append}

-- Where these pieces stand at the cursor with this rest after them, a step returns this and moves
-- the cursor past the pieces.
pub record Reads {A : Type 0} (rest : List ℕ) (m : Parser A) (ps : List (List ℕ)) (a : A)
    : Type 0 where
  pub reads : (b : Octets) → as_ref b ≡ flat ps ++ rest → m b ≡ (ok a, advance (length (flat ps)) b)

pub advance-advance : (m n : ℕ) (b : Octets) → advance n (advance m b) ≡ advance (m + n) b
advance-advance m n b =
    let e : b.off + m + n ≡ b.off + (m + n) = omega arith in λ i. record b { off = e i }

pub as_ref-past :
    (bs cs : List ℕ) (b : Octets) → as_ref b ≡ bs ++ cs → as_ref (advance (length bs) b) ≡ cs
as_ref-past bs cs b e =
    as_ref-advance (length bs) b ∙ ap (drop (length bs)) e ∙ drop-append_length bs cs

pub bind :
    {A B : Type 0} {rest : List ℕ} {m : Parser A} {ps qs : List (List ℕ)} {a : A} {c : B}
    (f : A → Parser B)
    → Reads (flat qs ++ rest) m ps a
    → Reads rest (f a) qs c
    → Reads rest (m >>= f) (ps ++ qs) c
bind {A} {B} {rest} {m} {ps} {qs} {a} {c} f x y = record {
  reads = λ b e.
      let e' : as_ref b ≡ flat ps ++ (flat qs ++ rest) =
        e ∙ ap (λ t. t ++ rest) (flat-append ps qs) ∙ append_assoc (flat ps) (flat qs) rest in
      rw
        (
          x.reads b e',
          y.reads (advance (length (flat ps)) b) (as_ref-past (flat ps) (flat qs ++ rest) b e'),
        )
        (ap (λ d. (ok c, d))
          (advance-advance (length (flat ps)) (length (flat qs)) b
            ∙ ap (λ n. advance n b)
                (sym (ap length (flat-append ps qs) ∙ length-append (flat ps) (flat qs)))));
}

pub done : {A : Type 0} {rest : List ℕ} {a : A} → Reads rest (pure a) [] a
done {A} {rest} {a} = record {
  reads = λ b e. let z : b.off ≡ b.off + 0 = omega arith in λ i. (ok a, record b { off = z i });
}

-- The last step before the result.
pub last :
    {A B : Type 0} {rest : List ℕ} {m : Parser A} {ps : List (List ℕ)} {a : A} (f : A → B)
    → Reads rest m ps a
    → Reads rest (m >>= λ x. pure (f x)) ps (f a)
last f x = record { reads = λ b e. rw (x.reads b e) refl }

-- Steps that read one piece.
one :
    {A : Type 0} {rest : List ℕ} (m : Parser A) (bs : List ℕ) (a : A)
    → ((b : Octets) → as_ref b ≡ bs ++ rest → m b ≡ (ok a, advance (length bs) b))
    → Reads rest m (bs ∷ []) a
one m bs a f = record { reads = rw (append-nil bs) f }

pub varint-Reads : {rest : List ℕ} (v : ℕ) → Small v → Reads rest varint_field (varint v ∷ []) v
unfolding convert
varint-Reads {rest} v h =
    one varint_field (varint v) v
      (λ b e. rw (get_varint-varint v b rest h e, length-varint v h) refl)

pub two-Reads : {rest : List ℕ} (v : ℕ) → v < 2 ^ 14 → Reads rest varint_field (varint_two v ∷ []) v
unfolding convert
two-Reads {rest} v h =
    one varint_field (varint_two v) v (λ b e. rw (get_two_bytes b rest v h e) refl)

pub byte-Reads : {rest : List ℕ} (v : ℕ) → v < 2 ^ 8 → Reads rest (io get_u8) (be_bytes 1 v ∷ []) v
unfolding convert
byte-Reads {rest} v h = one (io get_u8) (be_bytes 1 v) v (λ b e.
    rw (get_u_at b rest (be_bytes 1 v) e)
      (ap (λ n. (ok n, advance 1 b)) {x = 0 + v / 1 % 256} {y = v} (omega arith)))

pub bytes-Reads : {rest : List ℕ} (d : List ℕ) → Reads rest (bytes_field (length d)) (d ∷ []) d
unfolding convert
bytes-Reads {rest} d = one (bytes_field (length d)) d d (λ b e. rw (get_bytes-at d b rest e) refl)

pub array-Reads :
    {rest : List ℕ} (n : ℕ) (d : List ℕ) → length d ≡ n → Reads rest (array_field n) (d ∷ []) d
unfolding convert
array-Reads {rest} n d h = rw (sym h) (
    one (array_field (length d)) d d
      (λ b e. rw (get_bytes-at d b rest e, (==_iff (length d) (length d)).1 refl) refl))

-- A decoder that is content with what stands at the cursor.
pub decoder-Reads :
    (cd : Coding) {A : Type 0} (rest bs : List ℕ) (a : A) (read : List ℕ → Result ℕ (ℕ × A))
    → read (bs ++ rest) ≡ ok (length bs, a)
    → Reads rest (from_decoder cd read) (bs ∷ []) a
unfolding convert from_decoder
decoder-Reads cd rest bs a read h =
    one (from_decoder cd read) bs a (λ b e. rw (from_decoder, e, h) (rw (skip-at bs b rest e) refl))

-- A length in one of its forms, and as many bytes.
module _ {rest : List ℕ} (d : List ℕ) where
  prefixed :
      (p : List ℕ)
      → ((b : Octets)
          → as_ref b ≡ p ++ (d ++ rest)
          → get_varint b ≡ (ok (length d), advance (length p) b))
      → Reads rest bytes_with_length (p ∷ d ∷ []) d
  unfolding convert get_bytes_with_varint_length
  prefixed p f = record {
    reads = λ b e.
        let e' : as_ref b ≡ p ++ (d ++ rest) =
          e ∙ ap (λ t. (p ++ t) ++ rest) (append-nil d) ∙ append_assoc p d rest in
        rw (f b e', get_bytes-at d (advance (length p) b) rest (as_ref-past p (d ++ rest) b e'))
          (ap (λ c. (ok d, c))
            (advance-advance (length p) (length d) b
              ∙ ap (λ n. advance n b)
                  (sym (length-append p d) ∙ ap (λ t. length (p ++ t)) (sym (append-nil d)))));
  }

  pub sized-Reads : Small (length d) → Reads rest bytes_with_length (varint (length d) ∷ d ∷ []) d
  sized-Reads h = prefixed (varint (length d)) (λ b e.
      get_varint-varint (length d) b (d ++ rest) h e
      ∙ ap (λ n. (ok (length d), advance n b)) (sym (length-varint (length d) h)))

  pub two_sized-Reads :
      length d < 2 ^ 14 → Reads rest bytes_with_length (varint_two (length d) ∷ d ∷ []) d
  two_sized-Reads h =
      prefixed (varint_two (length d)) (λ b e. get_two_bytes b (d ++ rest) (length d) h e)
