-- ===== src/Octets/Decode.antt =====
-- `get_varint` of octets/src/lib.rs, beside `put_varint`.
use quirl.Common.{
  ℕ, suc, ◌+◌, ◌*◌, ◌/◌, ◌%◌, ◌^◌, ◌≤◌, ◌<◌, List, [], ◌∷◌, ◌++◌, length, ◌≡◌, ap, ◌∙◌, arith,
  length-append, length-drop, ltb-false, lt→ltb, take-append_length,
}
use quirl.Common.Result.{ok, err}
use quirl.Octets.{
  Octets, buffer_too_short, cap, as_ref, be_value, be_bytes, peek_u, get_u, write, varint_len,
  varint_parse_len, get_varint_of_len, get_varint, put_varint,
}
use quirl.Octets.Bytes.{IsValid, advance, as_ref-write}
use quirl.Octets.Encode.{
  varint, varint_two, Size, one, two, four, eight, size_of, length-varint, put_varint_lem, Written,
}

-- Reading back.
module _ (b : Octets) (rest : List ℕ) where
  pub get_u_at :
      (bs : List ℕ)
      → as_ref b ≡ bs ++ rest
      → get_u (length bs) b ≡ (ok (be_value 0 bs), advance (length bs) b)
  unfolding get_u peek_u
  get_u_at bs e = rw (
    e,
    length-append bs rest,
    ltb-false (length bs + length rest) (length bs) (omega arith),
    take-append_length bs rest,
  )

  pub peek_first : (x : ℕ) (bs : List ℕ) → as_ref b ≡ (x ∷ bs) ++ rest → peek_u 1 b ≡ (ok x, b)
  unfolding peek_u
  peek_first x bs e =
      rw (e, ltb-false (suc (length (bs ++ rest))) 1 (omega arith))
        (ap (λ n. (ok n, b)) (omega arith))

  pub peek_none : as_ref b ≡ [] → peek_u 1 b ≡ (err buffer_too_short, b)
  unfolding peek_u
  peek_none e = rw e

  -- One step of `get_varint` for a known first byte.
  get_varint_step :
      (x n : ℕ) (bs : List ℕ)
      → as_ref b ≡ (x ∷ bs) ++ rest
      → varint_parse_len x ≡ n
      → n ≤ length (x ∷ bs)
      → get_varint b ≡ get_varint_of_len n b
  unfolding get_varint
  get_varint_step x n bs e p h =
      let room : length (as_ref b) ≡ cap b = length-drop b.off b.buf in
      rw (
        peek_first x bs e,
        p,
        ltb-false (cap b) n (omega (arith, ap length e, length-append (x ∷ bs) rest)),
      )

  get_1 : (v : ℕ) → v < 2 ^ 6 → as_ref b ≡ varint v ++ rest → get_varint b ≡ (ok v, advance 1 b)
  unfolding varint varint_parse_len get_varint_of_len
  get_1 v h e =
      let e' : as_ref b ≡ be_bytes 1 v ++ rest = rw (lt→ltb v 64 h) at e in
      get_varint_step (v / 1 % 256) 1 [] e' (ground arith) (omega arith)
      ∙ rw (get_u_at (be_bytes 1 v) e') (ap (λ n. (ok n, advance 1 b)) (omega arith))

  pub get_two_bytes :
      (v : ℕ) → v < 2 ^ 14 → as_ref b ≡ varint_two v ++ rest → get_varint b ≡ (ok v, advance 2 b)
  unfolding varint_parse_len get_varint_of_len
  get_two_bytes v h e =
      get_varint_step ((2 ^ 14 + v) / 256 % 256) 2 (be_bytes 1 (2 ^ 14 + v)) e (ground arith)
        (omega arith)
      ∙ rw (get_u_at (be_bytes 2 (2 ^ 14 + v)) e) (ap (λ n. (ok n, advance 2 b)) (omega arith))

  get_2 :
      (v : ℕ)
      → 2 ^ 6 ≤ v
      → v < 2 ^ 14
      → as_ref b ≡ varint v ++ rest
      → get_varint b ≡ (ok v, advance 2 b)
  unfolding varint
  get_2 v l h e = get_two_bytes v h (rw (ltb-false v 64 l, lt→ltb v 16384 h) at e)

  get_4 :
      (v : ℕ)
      → 2 ^ 14 ≤ v
      → v < 2 ^ 30
      → as_ref b ≡ varint v ++ rest
      → get_varint b ≡ (ok v, advance 4 b)
  unfolding varint varint_parse_len get_varint_of_len
  get_4 v l h e =
      let e' : as_ref b ≡ be_bytes 4 (2 ^ 31 + v) ++ rest =
        rw (ltb-false v 64 (omega arith), ltb-false v 16384 l, lt→ltb v 1073741824 h) at e in
      get_varint_step ((2 ^ 31 + v) / 16777216 % 256) 4 (be_bytes 3 (2 ^ 31 + v)) e' (ground arith)
        (omega arith)
      ∙ rw (get_u_at (be_bytes 4 (2 ^ 31 + v)) e') (ap (λ n. (ok n, advance 4 b)) (omega arith))

  get_8 :
      (v : ℕ)
      → 2 ^ 30 ≤ v
      → v < 2 ^ 62
      → as_ref b ≡ varint v ++ rest
      → get_varint b ≡ (ok v, advance 8 b)
  unfolding varint varint_parse_len get_varint_of_len
  get_8 v l h e =
      let e' : as_ref b ≡ be_bytes 8 (3 * 2 ^ 62 + v) ++ rest =
        rw (ltb-false v 64 (omega arith), ltb-false v 16384 (omega arith), ltb-false v 1073741824 l)
          at e in
      get_varint_step ((3 * 2 ^ 62 + v) / 72057594037927936 % 256) 8 (be_bytes 7 (3 * 2 ^ 62 + v))
        e' (ground arith) (omega arith)
      ∙ rw (get_u_at (be_bytes 8 (3 * 2 ^ 62 + v)) e') (ap (λ n. (ok n, advance 8 b)) (omega arith))

  get_of_size :
      (v : ℕ) {n : ℕ} → Size v n → as_ref b ≡ varint v ++ rest → get_varint b ≡ (ok v, advance n b)
  get_of_size v (one h) e = get_1 v h e
  get_of_size v (two l h) e = get_2 v l h e
  get_of_size v (four l h) e = get_4 v l h e
  get_of_size v (eight l h) e = get_8 v l h e

-- Where the format of a number below 2^62 stands at the cursor, `get_varint` returns that number and
-- moves the cursor by `varint_len`, whatever follows.
pub get_varint-varint :
    (v : ℕ) (b : Octets) (rest : List ℕ)
    → v < 2 ^ 62
    → as_ref b ≡ varint v ++ rest
    → get_varint b ≡ (ok v, advance (varint_len v) b)
get_varint-varint v b rest h e = get_of_size b rest v (size_of v h) e

-- What `put_varint` writes where there is room, `get_varint` reads back from the place where the
-- writing began: the same number, with the cursor after it and the buffer untouched.
pub get_varint-put_varint :
    (v : ℕ) (b : Octets)
    → v < 2 ^ 62
    → IsValid b
    → varint_len v ≤ cap b
    → get_varint (record (put_varint v b).1 { off = b.off }) ≡ (ok v, (put_varint v b).1)
get_varint-put_varint v b h inside room =
    let p : put_varint v b ≡ Written (varint v) b =
      rw (ltb-false (cap b) (varint_len v) room) at (put_varint_lem v b h inside) in
    rw p (
      get_varint-varint v (record (write (varint v) b) { off = b.off }) _ h
        (as_ref-write (varint v) b inside)
      ∙ rw (length-varint v h))
