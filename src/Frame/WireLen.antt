-- ===== src/Frame/WireLen.antt =====
-- wire_len of quiche/src/frame.rs, beside the bytes that to_bytes writes.
use quirl.Common.{
  ℕ, zero, suc, ◌+◌, ◌-◌, ◌^◌, ◌≤◌, ◌<◌, ◌≡◌, refl, sym, ap, ◌∙◌, List, [], ◌∷◌, ◌++◌, length,
  arith, ltb, ltb-false, ltb→lt, lt→ltb, if◌then◌else◌, Option, none, some, Bool, true, false,
  length-append, Bool-cases, inl, inr,
}
use quirl.Common.Result.{ok, err}
use quirl.Octets.{Octets, cap, write, varint_len}
use quirl.Octets.Bytes.{IsValid}
use quirl.Octets.Encode.{varint, length-varint}
use quirl.Stream.RangeBuf as Chunk
use quirl.Stream.Split.{length-deref}
use quirl.Ranges.{Range, iter}
use quirl.Frame.Print.{rev, ack_type, stream_type, put_frame, to_bytes}
use quirl.Frame.Size.{wire_len, blocks_len, ranges_len, ecn_len}
use quirl.Frame.Format.{
  flat, SmallEcn, SmallRanges, Below, zeros, block_pieces, range_pieces, ecn_pieces, pieces, Fits,
  encode,
}
use quirl.Frame.Writes.{Writes, cap-write, continue-err}
use quirl.Frame.Written.{put_frame-Writes}
use quirl.Frame.{buffer_short}
use quirl.Frame.{
  Coding, EcnCounts, Frame, padding, ping, ack, reset_stream, stop_sending, crypto, crypto_header,
  new_token, stream, stream_header, max_data, max_stream_data, max_streams_bidi, max_streams_uni,
  data_blocked, stream_data_blocked, streams_blocked_bidi, streams_blocked_uni, new_connection_id,
  retire_connection_id, path_challenge, path_response, connection_close, application_close,
  handshake_done, datagram, datagram_header, repair, source_symbol_header, source_symbol,
  source_symbol_ack,
}

abbrev total : List (List ℕ) → ℕ
total [] = 0
total (p ∷ ps) = length p + total ps

length-flat : (ps : List (List ℕ)) → length (flat ps) ≡ total ps
length-flat [] = refl
length-flat (p ∷ ps) = length-append p (flat ps) ∙ ap (λ n. length p + n) (length-flat ps)

total-append : (ps qs : List (List ℕ)) → total (ps ++ qs) ≡ total ps + total qs
total-append [] qs = omega arith
total-append (p ∷ ps) qs = omega (arith, total-append ps qs)

-- The type of a frame takes one byte.
one_byte : (v : ℕ) → v < 2 ^ 6 → length (varint v) ≡ 1
unfolding varint
one_byte v h = rw (lt→ltb v 64 h) refl

blocks-total :
    (hi : ℕ) (rs : List Range) (len : ℕ)
    → hi ≤ 2 ^ 62
    → Below hi rs
    → blocks_len hi rs len ≡ some (len + total (block_pieces hi rs))
unfolding blocks_len
blocks-total hi [] len h w = ap some (omega arith)
blocks-total hi ((s, e) ∷ rest) len h (x, y, z) =
    rw (ltb-false hi (e + 1) (omega arith), ltb-false e (s + 1) (omega arith))
      (blocks-total s rest (len + (varint_len (hi - e - 1) + varint_len (e - 1 - s))) (omega arith)
          z
        ∙ ap some (
            omega (
              arith,
              length-varint (hi - e - 1) (omega arith),
              length-varint (e - 1 - s) (omega arith),
            )))

ranges-total :
    (between : ℕ) (ps : List (List ℕ)) (rs : List Range)
    → between ≡ total ps
    → SmallRanges rs
    → ranges_len between rs ≡ some (1 + total (range_pieces ps rs))
unfolding ranges_len
ranges-total between ps [] e w = absurd w
ranges-total between ps ((s, e) ∷ rest) p ((x, y, z), n) = rw (ltb-false e (s + 1) (omega arith)) (
    blocks-total s rest
      (1 + varint_len (e - 1) + between + varint_len (length rest) + varint_len (e - 1 - s))
      (omega arith) z
    ∙ ap some (
        omega (
          arith,
          length-varint (e - 1) (omega arith),
          length-varint (length rest) (omega arith),
          length-varint (e - 1 - s) (omega arith),
          total-append ps (varint (length rest) ∷ varint (e - 1 - s) ∷ block_pieces s rest),
        )))

ecn-total : (o : Option EcnCounts) → SmallEcn o → ecn_len o ≡ total (ecn_pieces o)
unfolding ecn_len
ecn-total none h = refl
ecn-total (some c) (x, y, z) =
    omega (arith, length-varint _ x, length-varint _ y, length-varint _ z)

zeros-total : (n : ℕ) → total (zeros n) ≡ n
zeros-total zero = refl
zeros-total (suc n) = omega (arith, zeros-total n, one_byte 0 (omega arith))

type-byte : (o : Option EcnCounts) → length (varint (ack_type o)) ≡ 1
unfolding ack_type
type-byte none = one_byte 2 (omega arith)
type-byte (some c) = one_byte 3 (omega arith)

stream_type-byte : (fin : Bool) → length (varint (stream_type fin)) ≡ 1
unfolding stream_type
stream_type-byte false = one_byte 14 (omega arith)
stream_type-byte true = one_byte 15 (omega arith)

wire_len-total :
    (cd : Coding)
    → ((r : cd.RepairSymbol) → cd.repair_wire_len r ≡ length (cd.repair_get r))
    → (frame : Frame cd) → Fits cd frame
    → wire_len cd frame ≡ some (total (pieces cd frame))
unfolding wire_len
wire_len-total cd law (padding len) h = ap some (sym (zeros-total len))
wire_len-total cd law (ping mtu_probe) h = ap some (omega (arith, one_byte 0x01 (omega arith)))
wire_len-total cd law (ack ack_delay ranges ecn_counts) (x, y, z) =
    rw
      (ranges-total (varint_len ack_delay) (varint ack_delay ∷ []) (rev (iter ranges))
        (omega (arith, length-varint ack_delay x)) y)
      (ap some (
        omega (
          arith,
          type-byte ecn_counts,
          ecn-total ecn_counts z,
          total-append (range_pieces (varint ack_delay ∷ []) (rev (iter ranges)))
              (ecn_pieces ecn_counts),
        )))
wire_len-total cd law (reset_stream stream_id error_code final_size) (x, y, z) = ap some (
    omega
      (arith, one_byte 0x04 (omega arith), length-varint _ x, length-varint _ y, length-varint _ z))
wire_len-total cd law (stop_sending stream_id error_code) (x, y) =
    ap some (omega (arith, one_byte 0x05 (omega arith), length-varint _ x, length-varint _ y))
wire_len-total cd law (crypto d) (x, y, v) =
    ap some (omega (arith, one_byte 0x06 (omega arith), length-varint _ x, length-deref v))
wire_len-total cd law (crypto_header offset length) h = absurd h
wire_len-total cd law (new_token token) h =
    ap some (omega (arith, one_byte 0x07 (omega arith), length-varint _ h))
wire_len-total cd law (stream stream_id d) (x, y, z, v) = ap some (
    omega (
      arith,
      stream_type-byte d.fin,
      length-varint _ x,
      length-varint (Chunk.off d) (omega arith),
      length-deref v,
    ))
wire_len-total cd law (stream_header stream_id offset length fin) h = absurd h
wire_len-total cd law (max_data max) h =
    ap some (omega (arith, one_byte 0x10 (omega arith), length-varint _ h))
wire_len-total cd law (max_stream_data stream_id max) (x, y) =
    ap some (omega (arith, one_byte 0x11 (omega arith), length-varint _ x, length-varint _ y))
wire_len-total cd law (max_streams_bidi max) h =
    ap some (omega (arith, one_byte 0x12 (omega arith), length-varint _ h))
wire_len-total cd law (max_streams_uni max) h =
    ap some (omega (arith, one_byte 0x13 (omega arith), length-varint _ h))
wire_len-total cd law (data_blocked limit) h =
    ap some (omega (arith, one_byte 0x14 (omega arith), length-varint _ h))
wire_len-total cd law (stream_data_blocked stream_id limit) (x, y) =
    ap some (omega (arith, one_byte 0x15 (omega arith), length-varint _ x, length-varint _ y))
wire_len-total cd law (streams_blocked_bidi limit) h =
    ap some (omega (arith, one_byte 0x16 (omega arith), length-varint _ h))
wire_len-total cd law (streams_blocked_uni limit) h =
    ap some (omega (arith, one_byte 0x17 (omega arith), length-varint _ h))
wire_len-total cd law (new_connection_id seq_num retire_prior_to conn_id reset_token)
      (x, y, z, w, t) =
    ap some (omega (arith, one_byte 0x18 (omega arith), length-varint _ x, length-varint _ y))
wire_len-total cd law (retire_connection_id seq_num) h =
    ap some (omega (arith, one_byte 0x19 (omega arith), length-varint _ h))
wire_len-total cd law (path_challenge d) h = ap some (omega (arith, one_byte 0x1a (omega arith)))
wire_len-total cd law (path_response d) h = ap some (omega (arith, one_byte 0x1b (omega arith)))
wire_len-total cd law (connection_close error_code frame_type reason) (x, y, z) = ap some (
    omega
      (arith, one_byte 0x1c (omega arith), length-varint _ x, length-varint _ y, length-varint _ z))
wire_len-total cd law (application_close error_code reason) (x, y) =
    ap some (omega (arith, one_byte 0x1d (omega arith), length-varint _ x, length-varint _ y))
wire_len-total cd law handshake_done h = ap some (omega (arith, one_byte 0x1e (omega arith)))
wire_len-total cd law (datagram d) h = ap some (omega (arith, one_byte 0x31 (omega arith)))
wire_len-total cd law (datagram_header length) h = absurd h
wire_len-total cd law (repair symbol) h =
    ap some (omega (arith, one_byte 0x32 (omega arith), law symbol))
wire_len-total cd law (source_symbol_header metadata recovered) h =
    ap some (omega (arith, one_byte 0x33 (omega arith)))
wire_len-total cd law (source_symbol symbol) h =
    ap some (omega (arith, one_byte 0x33 (omega arith)))
wire_len-total cd law (source_symbol_ack ranges) h =
    ranges-total 0 [] (rev (iter ranges)) refl h
    ∙ ap some (omega (arith, one_byte 0x34 (omega arith)))

-- A frame whose fields fit has a length; where the buffer has room for it, to_bytes writes the wire
-- format and returns that length, and where it has not, the result is the error.
pub to_bytes_lem :
    (cd : Coding)
    → ((r : cd.RepairSymbol) → cd.repair_wire_len r ≡ length (cd.repair_get r))
    → (frame : Frame cd) (b : Octets) → Fits cd frame
    → IsValid b
    → (wire_len cd frame ≡ some (length (encode cd frame)))
      × (if ltb (cap b) (length (encode cd frame))
          then (to_bytes cd frame b).0 ≡ err buffer_short
          else to_bytes cd frame b ≡ (ok (length (encode cd frame)), write (encode cd frame) b))
unfolding encode to_bytes
to_bytes_lem cd law frame b h v =
    let w : Writes (put_frame cd frame) (pieces cd frame) = put_frame-Writes cd frame h in
    (
      wire_len-total cd law frame h ∙ ap some (sym (length-flat (pieces cd frame))),
      elim (Bool-cases (ltb (cap b) (length (flat (pieces cd frame))))) [
        | inl e ↦ rw e (
            continue-err (put_frame cd frame b) (λ _ b'. (ok (cap b - cap b'), b')) buffer_short
              (w.short b v (ltb→lt _ _ e)))
        | inr e ↦
            rw (e, w.room b v (ground arith))
              (ap (λ n. (ok n, write (flat (pieces cd frame)) b))
                (ground (arith, cap-write (flat (pieces cd frame)) b v)))
      ],
    )
