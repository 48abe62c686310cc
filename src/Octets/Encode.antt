-- ===== src/Octets/Encode.antt =====
-- `put_varint` of octets/src/lib.rs, against the format of RFC 9000, section 16.
use quirl.Common.{
  ℕ, ◌+◌, ◌*◌, ◌/◌, ◌%◌, ◌^◌, ◌≤◌, ◌<◌, bit_or, List, [], ◌∷◌, ltb, leb, if◌then◌else◌, length, ◌≡◌,
  refl, ap, arith, inl, inr, Bool-cases, ltb-false, lt→ltb, ltb→lt,
}
use quirl.Common.Result.{Result, ok, err}
use quirl.Octets.{
  Octets, BufferTooShortError, buffer_too_short, cap, be_bytes, write, varint_len,
  put_varint_with_len, put_varint,
}
use quirl.Octets.Bytes.{IsValid, put_u_lem, or_first-write, or_40, or_80, or_c0}

-- The format: the two high bits of the first byte give the length, the rest is the number.
unfoldable pub varint : ℕ → List ℕ
varint v =
    if ltb v (2 ^ 6)
    then be_bytes 1 v
    else if ltb v (2 ^ 14)
    then be_bytes 2 (2 ^ 14 + v)
    else if ltb v (2 ^ 30)
    then be_bytes 4 (2 ^ 31 + v)
    else be_bytes 8 (3 * 2 ^ 62 + v)

-- The form of two bytes, which smaller numbers may take too.
abbrev pub varint_two : ℕ → List ℕ
varint_two v = be_bytes 2 (2 ^ 14 + v)

-- Which length a number has, with its range.
pub data Size (v : ℕ) : ℕ → Type 0 where
  one : v < 2 ^ 6 → Size v 1
  two : 2 ^ 6 ≤ v → v < 2 ^ 14 → Size v 2
  four : 2 ^ 14 ≤ v → v < 2 ^ 30 → Size v 4
  eight : 2 ^ 30 ≤ v → v < 2 ^ 62 → Size v 8

pub size_of : (v : ℕ) → v < 2 ^ 62 → Size v (varint_len v)
unfolding varint_len
size_of v h = elim (Bool-cases (leb v 63)) [
  | inl a ↦ rw a (one (ground arith))
  | inr a ↦ rw a (elim (Bool-cases (leb v 16383)) [
    | inl b ↦ rw b (two (ground arith) (ground arith))
    | inr b ↦ rw b (elim (Bool-cases (leb v 1_073_741_823)) [
      | inl c ↦ rw c (four (ground arith) (ground arith))
      | inr c ↦ rw c (elim (Bool-cases (leb v 4_611_686_018_427_387_903)) [
        | inl d ↦ rw d (eight (ground arith) h)
        | inr d ↦ absurd (ground arith)
      ])
    ])
  ])
]

pub length-varint : (v : ℕ) → v < 2 ^ 62 → length (varint v) ≡ varint_len v
unfolding varint varint_len
length-varint v h = ground arith

bytes_2 :
    (v : ℕ)
    → v < 2 ^ 14
    → ◌≡◌ {A = List ℕ}
        (bit_or (v % 2 ^ 16 / 256 % 256) 0x40 ∷ (v % 2 ^ 16 / 1 % 256) ∷ [])
        (be_bytes 2 (2 ^ 14 + v))
bytes_2 v h = ground (arith, or_40 (v % 2 ^ 16 / 256 % 256) (omega arith))

bytes_4 :
    (v x : ℕ)
    → v < 2 ^ 30
    → x ≡ v % 2 ^ 32 / 2 ^ 24 % 256
    → ◌≡◌ {A = List ℕ} (bit_or x 0x80 ∷ be_bytes 3 (v % 2 ^ 32)) (be_bytes 4 (2 ^ 31 + v))
bytes_4 v x h e = ground (arith, or_80 x (omega arith))

bytes_8 :
    (v x : ℕ)
    → v < 2 ^ 62
    → x ≡ v / 2 ^ 56 % 256
    → ◌≡◌ {A = List ℕ} (bit_or x 0xc0 ∷ be_bytes 7 v) (be_bytes 8 (3 * 2 ^ 62 + v))
bytes_8 v x h e = ground (arith, or_c0 x (omega arith))

-- Equal runs of bytes leave equal results.
abbrev pub Written : List ℕ → Octets → Result BufferTooShortError ℕ × Octets
Written bs b = (ok b.off, write bs b)

module _ (v : ℕ) (b : Octets) (inside : IsValid b) where
  put_1 : v < 2 ^ 6 → 1 ≤ cap b → put_varint_with_len v 1 b ≡ Written (varint v) b
  unfolding put_varint_with_len varint
  put_1 h room =
      rw (ltb-false (cap b) 1 room, put_u_lem 1 (v % 2 ^ 8) b (omega arith), lt→ltb v 64 h)
        (ap (λ x. Written (x ∷ []) b) (omega arith))

  -- Two bytes, whatever the number: `put_varint_with_len(v, 2)`.
  pub put_two_bytes : v < 2 ^ 14 → 2 ≤ cap b → put_varint_with_len v 2 b ≡ Written (varint_two v) b
  unfolding put_varint_with_len
  put_two_bytes h room =
      rw
        (
          ltb-false (cap b) 2 room,
          put_u_lem 2 (v % 2 ^ 16) b (omega arith),
          or_first-write 0x40 (v % 2 ^ 16 / 256 % 256) ((v % 2 ^ 16 / 1 % 256) ∷ []) b inside,
        )
        (ap (λ bs. Written bs b) (bytes_2 v h))

  put_2 : 2 ^ 6 ≤ v → v < 2 ^ 14 → 2 ≤ cap b → put_varint_with_len v 2 b ≡ Written (varint v) b
  unfolding varint
  put_2 h1 h room = rw (ltb-false v 64 h1, lt→ltb v 16384 h) (put_two_bytes h room)

  put_4 : 2 ^ 14 ≤ v → v < 2 ^ 30 → 4 ≤ cap b → put_varint_with_len v 4 b ≡ Written (varint v) b
  unfolding put_varint_with_len varint
  put_4 h1 h room =
      rw
        (
          ltb-false (cap b) 4 room,
          put_u_lem 4 (v % 2 ^ 32) b (omega arith),
          or_first-write 0x80 (v % 2 ^ 32 / 16777216 % 256) (be_bytes 3 (v % 2 ^ 32)) b inside,
          ltb-false v 64 (omega arith),
          ltb-false v 16384 h1,
          lt→ltb v 1073741824 h,
        )
        (ap (λ bs. Written bs b) (bytes_4 v _ h refl))

  put_8 : 2 ^ 30 ≤ v → v < 2 ^ 62 → 8 ≤ cap b → put_varint_with_len v 8 b ≡ Written (varint v) b
  unfolding put_varint_with_len varint
  put_8 h1 h room =
      rw
        (
          ltb-false (cap b) 8 room,
          put_u_lem 8 v b (omega arith),
          or_first-write 0xc0 (v / 72057594037927936 % 256) (be_bytes 7 v) b inside,
          ltb-false v 64 (omega arith),
          ltb-false v 16384 (omega arith),
          ltb-false v 1073741824 h1,
        )
        (ap (λ bs. Written bs b) (bytes_8 v _ h refl))

  put_of_size : {n : ℕ} → Size v n → n ≤ cap b → put_varint_with_len v n b ≡ Written (varint v) b
  put_of_size (one h) room = put_1 h room
  put_of_size (two l h) room = put_2 l h room
  put_of_size (four l h) room = put_4 l h room
  put_of_size (eight l h) room = put_8 l h room

pub put_short :
    (v n : ℕ) (b : Octets) → cap b < n → put_varint_with_len v n b ≡ (err buffer_too_short, b)
unfolding put_varint_with_len
put_short v n b h = rw (lt→ltb (cap b) n h)

-- A number below 2^62 is written at the cursor in the format of the protocol if the buffer has room
-- for its `varint_len` bytes; without room the result is the error and the buffer is as it was.
pub put_varint_lem :
    (v : ℕ) (b : Octets)
    → v < 2 ^ 62
    → IsValid b
    → put_varint v b
      ≡ (if ltb (cap b) (varint_len v) then (err buffer_too_short, b) else Written (varint v) b)
unfolding put_varint
put_varint_lem v b h inside = elim (Bool-cases (ltb (cap b) (varint_len v))) [
  | inl e ↦ rw e (put_short v (varint_len v) b (ltb→lt _ _ e))
  | inr e ↦ rw e (put_of_size v b inside (size_of v h) (ground arith))
]
