-- ===== src/Octets.antt =====
-- octets/src/lib.rs: a byte buffer with a cursor, and the integers that are read from and written
-- to it in network byte order. A byte is a number below 256.
-- `Octets` and `OctetsMut` have the same two fields and the same reading methods, so one record
-- serves for both. A slice that a method hands out is copied, but for the slice that `put_u!`
-- returns, which its caller writes through: that is given as its first index.
-- `off` never passes the end of `buf`, so `cap` is a subtraction that does not wrap.
use quirl.Common.{
  ℕ, zero, suc, ◌+◌, ◌-◌, ◌*◌, ◌/◌, ◌%◌, ◌^◌, bit_or, List, [], ◌∷◌, ◌++◌, ltb, leb, ◌==◌,
  if◌then◌else◌, length, take, drop, get_or, set, Bool, true, false,
}
use quirl.Common.Result.{Result, ok, err, panic}
use quirl.Common.Exec.{Exec, ◌>>=◌, ◌>>◌, pure, raise, continue}
pub mod Bytes
pub mod Encode
pub mod Decode
pub mod Slices
mod Tests

pub data BufferTooShortError : Type 0 where
  buffer_too_short : BufferTooShortError

pub record Octets : Type 0 where
  pub buf : List ℕ
  pub off : ℕ

abbrev pub OctetsMut : Type 0
OctetsMut = Octets

abbrev pub Read : Type 0 → Type 0
Read A = Exec Octets BufferTooShortError A

unfoldable pub with_slice : List ℕ → Octets
with_slice buf = record { buf = buf; off = 0 }

abbrev pub cap : Octets → ℕ
cap b = length b.buf - b.off

-- `&self.buf[self.off..]`
abbrev pub as_ref : Octets → List ℕ
as_ref b = drop b.off b.buf

-- The number that a run of bytes stands for, most significant first.
abbrev pub be_value : ℕ → List ℕ → ℕ
be_value acc [] = acc
be_value acc (x ∷ xs) = be_value (acc * 256 + x) xs

-- The last `n` bytes of a number, most significant first.
abbrev pub be_bytes : ℕ → ℕ → List ℕ
be_bytes zero v = []
be_bytes (suc n) v = (v / 256 ^ n % 256) ∷ be_bytes n v

unfoldable pub peek_u : ℕ → Read ℕ
peek_u len b =
    if ltb (length (as_ref b)) len
    then (err buffer_too_short, b)
    else (ok (be_value 0 (take len (as_ref b))), b)

unfoldable pub get_u : ℕ → Read ℕ
unfolding peek_u
get_u len = peek_u len >>= λ out b. (ok out, record b { off = b.off + len })

abbrev pub get_u8 : Read ℕ
get_u8 = get_u 1

abbrev pub peek_u8 : Read ℕ
peek_u8 = peek_u 1

abbrev pub get_u16 : Read ℕ
get_u16 = get_u 2

abbrev pub get_u24 : Read ℕ
get_u24 = get_u 3

abbrev pub get_u32 : Read ℕ
get_u32 = get_u 4

abbrev pub get_u64 : Read ℕ
get_u64 = get_u 8

-- Replaces the bytes from the cursor on by `bs`, and moves the cursor past them.
abbrev pub write : List ℕ → Octets → Octets
write bs b = record {
  buf = take b.off b.buf ++ (bs ++ drop (b.off + length bs) b.buf);
  off = b.off + length bs;
}

-- The result is the index of `dst[0]`.
unfoldable pub put_u : ℕ → ℕ → Read ℕ
put_u len v b = if ltb (length b.buf) (b.off + len) then (err buffer_too_short, b) else (
  ok b.off,
  record {
    buf = take b.off b.buf ++ (be_bytes len v ++ drop (b.off + len) b.buf);
    off = b.off + len;
  },
)

abbrev pub put_u8 : ℕ → Read ℕ
put_u8 v = put_u 1 v

abbrev pub put_u16 : ℕ → Read ℕ
put_u16 v = put_u 2 v

abbrev pub put_u24 : ℕ → Read ℕ
put_u24 v = put_u 3 v

abbrev pub put_u32 : ℕ → Read ℕ
put_u32 v = put_u 4 v

abbrev pub put_u64 : ℕ → Read ℕ
put_u64 v = put_u 8 v

-- `unreachable!()` is 0, a length at which `put_varint_with_len` panics too.
unfoldable pub varint_len : ℕ → ℕ
varint_len v =
    if leb v 63
    then 1
    else if leb v 16383
    then 2
    else if leb v 1_073_741_823
    then 4
    else if leb v 4_611_686_018_427_387_903
    then 8
    else 0

-- `first >> 6`
unfoldable pub varint_parse_len : ℕ → ℕ
varint_parse_len first =
    if first / 64 == 0
    then 1
    else if first / 64 == 1
    then 2
    else if first / 64 == 2
    then 4
    else if first / 64 == 3
    then 8
    else 0

-- The `match len` of `get_varint`: `& 0x3fff` keeps the low 14 bits, and so on.
unfoldable pub get_varint_of_len : ℕ → Read ℕ
get_varint_of_len len =
    if len == 1
    then get_u8
    else if len == 2
    then (do v ← get_u16; pure (v % 2 ^ 14))
    else if len == 4
    then (do v ← get_u32; pure (v % 2 ^ 30))
    else if len == 8
    then (do v ← get_u64; pure (v % 2 ^ 62))
    else (λ b. (panic, b))

unfoldable pub get_varint : Read ℕ
get_varint = do
  first ← peek_u8
  λ b.
      if ltb (cap b) (varint_parse_len first)
      then (err buffer_too_short, b)
      else get_varint_of_len (varint_parse_len first) b

-- `buf[0] |= mask`, for the slice whose first index is `at`.
unfoldable pub or_first : ℕ → ℕ → Read ℕ
or_first mask at b = (ok at, record b { buf = set b.buf at (bit_or (get_or b.buf at 0) mask) })

unfoldable pub put_varint_with_len : ℕ → ℕ → Read ℕ
put_varint_with_len v len b =
    if ltb (cap b) len
    then (err buffer_too_short, b)
    else if len == 1
    then put_u8 (v % 2 ^ 8) b
    else if len == 2
    then (put_u16 (v % 2 ^ 16) >>= or_first 0x40) b
    else if len == 4
    then (put_u32 (v % 2 ^ 32) >>= or_first 0x80) b
    else if len == 8
    then (put_u64 v >>= or_first 0xc0) b
    else (panic, b)

unfoldable pub put_varint : ℕ → Read ℕ
put_varint v = put_varint_with_len v (varint_len v)

-- A sub-buffer of the next `len` bytes, with its own cursor.
unfoldable pub peek_bytes : ℕ → Read Octets
peek_bytes len b =
    if ltb (cap b) len
    then (err buffer_too_short, b)
    else (ok (record { buf = take len (as_ref b); off = 0 }), b)

unfoldable pub get_bytes : ℕ → Read Octets
get_bytes len b =
    if ltb (cap b) len
    then (err buffer_too_short, b)
    else (ok (record { buf = take len (as_ref b); off = 0 }), record b { off = b.off + len })

unfoldable pub get_bytes_with_u8_length : Read Octets
get_bytes_with_u8_length = do len ← get_u8; get_bytes len

unfoldable pub get_bytes_with_u16_length : Read Octets
get_bytes_with_u16_length = do len ← get_u16; get_bytes len

unfoldable pub get_bytes_with_varint_length : Read Octets
get_bytes_with_varint_length = do len ← get_varint; get_bytes len

unfoldable pub put_bytes : List ℕ → Read (Unit {0})
put_bytes v b =
    if ltb (cap b) (length v)
    then (err buffer_too_short, b)
    else if length v == 0
    then (ok tt, b)
    else (ok tt, write v b)

unfoldable pub skip : ℕ → Read (Unit {0})
skip n b =
    if ltb (cap b) n then (err buffer_too_short, b) else (ok tt, record b { off = b.off + n })

unfoldable pub slice : ℕ → Octets → Result BufferTooShortError (List ℕ)
slice len b = if ltb (cap b) len then err buffer_too_short else ok (take len (as_ref b))

unfoldable pub slice_last : ℕ → Octets → Result BufferTooShortError (List ℕ)
slice_last len b = if ltb (cap b) len then err buffer_too_short else ok (drop (cap b - len) b.buf)

unfoldable pub split_at : ℕ → Octets → Result BufferTooShortError (Octets × Octets)
split_at at b =
    if ltb (length b.buf) at
    then err buffer_too_short
    else ok (record { buf = take at b.buf; off = 0 }, record { buf = drop at b.buf; off = 0 })
