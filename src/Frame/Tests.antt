-- ===== src/Frame/Tests.antt =====
-- Frames at concrete inputs, with a coding library of repair symbols that are runs of bytes.
use quirl.Common.{
  ℕ, ◌-◌, ◌≡◌, refl, List, [], ◌∷◌, ◌++◌, length, arith, ltb, if◌then◌else◌, true, false, some,
}
use quirl.Common.Result.{Result, ok, err, panic}
use quirl.Octets.{
  Octets, cap, write, with_slice, put_u, put_varint, put_varint_with_len, or_first, varint_len,
  put_bytes, peek_u, get_u, varint_parse_len, get_varint_of_len, get_varint, skip,
}
use quirl.Octets.Bytes.{advance}
use quirl.Octets.Encode.{varint}
use quirl.Stream.RangeBuf.{RangeBuf, from, deref}
use quirl.Stream.RangeBuf as Chunk
use quirl.Stream.Split.{from-IsValid}
use quirl.Frame.Print.{put_frame, to_bytes, encode_stream_header, stream_type}
use quirl.Frame.Size.{wire_len}
use quirl.Frame.Parse.{
  parse_body, allowed, is_short, is_zero_rtt, from_bytes, from_decoder, padded_payload,
  replicate_zero,
}
use quirl.Frame.Format.{encode}
use quirl.Frame.WireLen.{to_bytes_lem}
use quirl.Frame.Received.{Received}
use quirl.Frame.RoundTrip.{from_bytes-to_bytes}
use quirl.Frame.SourceSymbol.{from_bytes-source_symbol}
use quirl.Frame.{
  Coding, buffer_short, invalid_packet, short, initial, convert, Frame, stream, source_symbol,
  source_symbol_header,
}

abbrev read_one : List ℕ → Result ℕ (ℕ × ℕ)
read_one [] = err 1
read_one (x ∷ xs) = ok (1, x)

abbrev toy : Coding
toy = record {
  RepairSymbol = List ℕ;
  repair_get = λ r. r;
  repair_wire_len = λ r. length r;
  Metadata = ℕ;
  metadata_bytes = λ n. n ∷ [];
  SourceSymbol = ℕ × List ℕ;
  new_source = λ n bs. (n, bs);
  source_metadata = λ s. s.0;
  source_get = λ s. s.1;
  symbol_size = 4;
  read_repair_symbol = λ bs. ok (length bs, bs);
  read_source_symbol_metadata = read_one;
}

abbrev sent : Frame toy
sent = stream 4 (from (1 ∷ 2 ∷ 3 ∷ []) 100 true)

abbrev room : Octets
room = record { buf = 0 ∷ 0 ∷ 0 ∷ 0 ∷ 0 ∷ 0 ∷ 0 ∷ 0 ∷ 0 ∷ 0 ∷ 0 ∷ []; off = 1 }

-- The frame, and a PING after it.
abbrev payload : Octets
payload = record { buf = 0x0f ∷ 4 ∷ 0x40 ∷ 100 ∷ 0x40 ∷ 3 ∷ 1 ∷ 2 ∷ 3 ∷ 1 ∷ []; off = 0 }

sent-encoded : encode toy sent ≡ 0x0f ∷ 4 ∷ 0x40 ∷ 100 ∷ 0x40 ∷ 3 ∷ 1 ∷ 2 ∷ 3 ∷ []
unfolding encode varint stream_type Chunk.off Chunk.len deref from
sent-encoded = refl

to_bytes_lem_example :
    (wire_len toy sent ≡ some (length (encode toy sent)))
    × (if ltb (cap room) (length (encode toy sent))
        then (to_bytes toy sent room).0 ≡ err buffer_short
        else to_bytes toy sent room ≡ (ok (length (encode toy sent)), write (encode toy sent) room))
unfolding Chunk.off Chunk.len from
to_bytes_lem_example =
    to_bytes_lem toy (λ r. refl) sent room
      (omega arith, omega arith, omega arith, from-IsValid (1 ∷ 2 ∷ 3 ∷ []) 100 true)
      (record { within = omega arith })

from_bytes-to_bytes_example :
    (g : Frame toy) × Received toy sent g
    × (from_bytes toy initial payload ≡ (
      if allowed toy initial sent then ok g else err invalid_packet,
      advance (length (encode toy sent)) payload,
    ))
unfolding encode varint stream_type Chunk.off Chunk.len deref from to_bytes put_frame
    encode_stream_header convert put_varint varint_len put_varint_with_len put_u or_first put_bytes
from_bytes-to_bytes_example =
    from_bytes-to_bytes toy initial sent room payload (1 ∷ [])
      (omega arith, omega arith, omega arith, from-IsValid (1 ∷ 2 ∷ 3 ∷ []) 100 true)
      (record { within = omega arith }) (omega arith) tt refl

-- Five bytes after the metadata, and symbols of four.
abbrev too_long : Octets
too_long = record { buf = 0x33 ∷ 7 ∷ 1 ∷ 2 ∷ 3 ∷ 4 ∷ 5 ∷ []; off = 0 }

from_bytes-source_symbol_example : from_bytes toy short too_long ≡ (
  if ltb 4 5
      then panic
      else if allowed toy short (source_symbol (7, []))
      then ok (source_symbol (7, replicate_zero (4 - 5) ++ (1 ∷ 2 ∷ 3 ∷ 4 ∷ 5 ∷ [])))
      else err invalid_packet,
  advance (length (encode toy (source_symbol_header 7 false))) too_long,
)
unfolding encode varint
from_bytes-source_symbol_example =
    from_bytes-source_symbol toy short 7 false too_long (1 ∷ 2 ∷ 3 ∷ 4 ∷ 5 ∷ []) refl refl

-- A shorter payload is filled up in front.
filled :
    (from_bytes toy short (with_slice (0x33 ∷ 7 ∷ 8 ∷ 9 ∷ []))).0
    ≡ ok (source_symbol (7, 0 ∷ 0 ∷ 8 ∷ 9 ∷ []))
unfolding from_bytes parse_body allowed is_short is_zero_rtt from_decoder padded_payload
    replicate_zero convert with_slice peek_u get_u varint_parse_len get_varint_of_len get_varint
    skip
filled = refl

-- A RESET_STREAM frame does not belong into an Initial packet.
refused : (from_bytes toy initial (with_slice (0x04 ∷ 1 ∷ 2 ∷ 3 ∷ []))).0 ≡ err invalid_packet
unfolding from_bytes parse_body allowed is_short is_zero_rtt convert with_slice peek_u get_u
    varint_parse_len get_varint_of_len get_varint
refused = refl
