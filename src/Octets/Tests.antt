-- ===== src/Octets/Tests.antt =====
-- Runs of the octets methods, and the theorems at concrete inputs.
use quirl.Common.{ℕ, ◌+◌, ◌≡◌, refl, arith, List, [], ◌∷◌, length}
use quirl.Common.Result.{ok}
use quirl.Octets.{
  Octets, with_slice, peek_u, get_u, put_u, or_first, varint_len, varint_parse_len,
  get_varint_of_len, get_varint, put_varint_with_len, put_varint, slice_last,
}
use quirl.Octets.Bytes.{IsValid, advance}
use quirl.Octets.Encode.{varint}
use quirl.Octets.Decode.{get_varint-varint, get_varint-put_varint}
use quirl.Octets.Slices.{length-slice_last}

-- A buffer of six bytes with the cursor at 1.
abbrev six : Octets
six = record { buf = 1 ∷ 2 ∷ 3 ∷ 4 ∷ 5 ∷ 6 ∷ []; off = 1 }

six-IsValid : IsValid six
six-IsValid = record { within = omega arith }

-- The example of RFC 9000, section A.1.
get_15293 : (get_varint (with_slice (0x7b ∷ 0xbd ∷ []))).0 ≡ ok 15293
unfolding get_varint peek_u get_varint_of_len get_u varint_parse_len with_slice
get_15293 = refl

put_300 : (put_varint 300 six).1 ≡ record { buf = 1 ∷ 0x41 ∷ 0x2c ∷ 4 ∷ 5 ∷ 6 ∷ []; off = 3 }
unfolding put_varint put_varint_with_len varint_len put_u or_first
put_300 = refl

abbrev encoded_37 : Octets
encoded_37 = record { buf = 0x25 ∷ 9 ∷ []; off = 0 }

get_varint-varint_example : get_varint encoded_37 ≡ (ok 37, advance (varint_len 37) encoded_37)
get_varint-varint_example =
    get_varint-varint 37 encoded_37 (9 ∷ []) (omega arith) (unfold varint in refl)

get_varint-put_varint_example :
    get_varint (record (put_varint 300 six).1 { off = 1 }) ≡ (ok 300, (put_varint 300 six).1)
get_varint-put_varint_example =
    get_varint-put_varint 300 six (omega arith) six-IsValid (unfold varint_len in omega arith)

length-slice_last_example : (xs : List ℕ) × (slice_last 2 six ≡ ok xs) × (length xs ≡ 2 + 1)
length-slice_last_example = length-slice_last 2 six six-IsValid (omega arith)
