-- ===== src/Frame/Written.antt =====
-- to_bytes of quiche/src/frame.rs, against the wire format.
use quirl.Common.{
  append_assoc, ℕ, zero, suc, ◌+◌, ◌-◌, ◌^◌, ◌≤◌, List, [], ◌∷◌, length, arith, ltb-false, Option,
  none, some, Bool, true, false,
}
use quirl.Stream.RangeBuf as Chunk
use quirl.Ranges.{Range, iter}
use quirl.Frame.Print.{
  Printer, put_padding, put_blocks, put_ranges, put_ecn, put_frame, rev, ack_type, stream_type,
  encode_crypto_header, encode_stream_header, encode_dgram_header,
}
use quirl.Frame.Format.{
  Small, SmallEcn, SmallRanges, Below, zeros, block_pieces, range_pieces, ecn_pieces, pieces, Fits,
}
use quirl.Frame.Writes.{
  Writes, ◌⨟◌, nothing, put-Writes, put_two-Writes, put_run-Writes, put_byte-Writes,
}
use quirl.Frame.{
  Coding, EcnCounts, Frame, padding, ping, ack, reset_stream, stop_sending, crypto, crypto_header,
  new_token, stream, stream_header, max_data, max_stream_data, max_streams_bidi, max_streams_uni,
  data_blocked, stream_data_blocked, streams_blocked_bidi, streams_blocked_uni, new_connection_id,
  retire_connection_id, path_challenge, path_response, connection_close, application_close,
  handshake_done, datagram, datagram_header, repair, source_symbol_header, source_symbol,
  source_symbol_ack,
}

padding-Writes : (n : ℕ) → Writes (put_padding n) (zeros n)
unfolding put_padding
padding-Writes zero = nothing
padding-Writes (suc n) = put-Writes 0 (omega arith) ⨟ padding-Writes n

blocks-Writes :
    (hi : ℕ) (rs : List Range)
    → hi ≤ 2 ^ 62
    → Below hi rs
    → Writes (put_blocks hi rs) (block_pieces hi rs)
unfolding put_blocks
blocks-Writes hi [] h w = nothing
blocks-Writes hi ((s, e) ∷ rest) h (x, y, z) =
    rw (ltb-false hi (e + 1) (omega arith), ltb-false e (s + 1) (omega arith))
      (put-Writes (hi - e - 1) (omega arith)
        ⨟ put-Writes (e - 1 - s) (omega arith)
        ⨟ blocks-Writes s rest (omega arith) z)

ranges-Writes :
    {between : Printer} {ps : List (List ℕ)} (rs : List Range)
    → Writes between ps
    → SmallRanges rs
    → Writes (put_ranges between rs) (range_pieces ps rs)
unfolding put_ranges
ranges-Writes [] f w = absurd w
ranges-Writes {between} {ps} ((s, e) ∷ rest) f ((x, y, z), n) =
    rw (ltb-false e (s + 1) (omega arith)) (
      simp append_assoc at (
        put-Writes (e - 1) (omega arith)
        ⨟ f
        ⨟ put-Writes (length rest) (omega arith)
        ⨟ put-Writes (e - 1 - s) (omega arith)
        ⨟ blocks-Writes s rest (omega arith) z))

ecn-Writes : (o : Option EcnCounts) → SmallEcn o → Writes (put_ecn o) (ecn_pieces o)
unfolding put_ecn
ecn-Writes none h = nothing
ecn-Writes (some c) (x, y, z) = put-Writes _ x ⨟ put-Writes _ y ⨟ put-Writes _ z

type-Small : (o : Option EcnCounts) → Small (ack_type o)
unfolding ack_type
type-Small none = omega arith
type-Small (some c) = omega arith

stream_type-Small : (fin : Bool) → Small (stream_type fin)
unfolding stream_type
stream_type-Small false = omega arith
stream_type-Small true = omega arith

pub put_frame-Writes :
    (cd : Coding) (frame : Frame cd) → Fits cd frame → Writes (put_frame cd frame) (pieces cd frame)
unfolding put_frame encode_crypto_header encode_stream_header encode_dgram_header
put_frame-Writes cd (padding len) h = padding-Writes len
put_frame-Writes cd (ping mtu_probe) h = put-Writes 0x01 (omega arith)
put_frame-Writes cd (ack ack_delay ranges ecn_counts) (x, y, z) =
    put-Writes (ack_type ecn_counts) (type-Small ecn_counts)
    ⨟ ranges-Writes (rev (iter ranges)) (put-Writes ack_delay x) y
    ⨟ ecn-Writes ecn_counts z
put_frame-Writes cd (reset_stream stream_id error_code final_size) (x, y, z) =
    put-Writes 0x04 (omega arith) ⨟ put-Writes _ x ⨟ put-Writes _ y ⨟ put-Writes _ z
put_frame-Writes cd (stop_sending stream_id error_code) (x, y) =
    put-Writes 0x05 (omega arith) ⨟ put-Writes _ x ⨟ put-Writes _ y
put_frame-Writes cd (crypto d) (x, y, v) =
    put-Writes 0x06 (omega arith) ⨟ put-Writes _ x ⨟ put_two-Writes _ y ⨟ put_run-Writes _
put_frame-Writes cd (crypto_header offset length) h = absurd h
put_frame-Writes cd (new_token token) h =
    put-Writes 0x07 (omega arith) ⨟ put-Writes _ h ⨟ put_run-Writes _
put_frame-Writes cd (stream stream_id d) (x, y, z, v) =
    put-Writes (stream_type d.fin) (stream_type-Small d.fin)
    ⨟ put-Writes _ x
    ⨟ put-Writes (Chunk.off d) (omega arith)
    ⨟ put_two-Writes _ z
    ⨟ put_run-Writes _
put_frame-Writes cd (stream_header stream_id offset length fin) h = absurd h
put_frame-Writes cd (max_data max) h = put-Writes 0x10 (omega arith) ⨟ put-Writes _ h
put_frame-Writes cd (max_stream_data stream_id max) (x, y) =
    put-Writes 0x11 (omega arith) ⨟ put-Writes _ x ⨟ put-Writes _ y
put_frame-Writes cd (max_streams_bidi max) h = put-Writes 0x12 (omega arith) ⨟ put-Writes _ h
put_frame-Writes cd (max_streams_uni max) h = put-Writes 0x13 (omega arith) ⨟ put-Writes _ h
put_frame-Writes cd (data_blocked limit) h = put-Writes 0x14 (omega arith) ⨟ put-Writes _ h
put_frame-Writes cd (stream_data_blocked stream_id limit) (x, y) =
    put-Writes 0x15 (omega arith) ⨟ put-Writes _ x ⨟ put-Writes _ y
put_frame-Writes cd (streams_blocked_bidi limit) h = put-Writes 0x16 (omega arith) ⨟ put-Writes _ h
put_frame-Writes cd (streams_blocked_uni limit) h = put-Writes 0x17 (omega arith) ⨟ put-Writes _ h
put_frame-Writes cd (new_connection_id seq_num retire_prior_to conn_id reset_token)
      (x, y, z, w, t) =
    put-Writes 0x18 (omega arith)
    ⨟ put-Writes _ x
    ⨟ put-Writes _ y
    ⨟ put_byte-Writes (length conn_id) (omega arith)
    ⨟ put_run-Writes conn_id
    ⨟ put_run-Writes reset_token
put_frame-Writes cd (retire_connection_id seq_num) h =
    put-Writes 0x19 (omega arith) ⨟ put-Writes _ h
put_frame-Writes cd (path_challenge d) h = put-Writes 0x1a (omega arith) ⨟ put_run-Writes d
put_frame-Writes cd (path_response d) h = put-Writes 0x1b (omega arith) ⨟ put_run-Writes d
put_frame-Writes cd (connection_close error_code frame_type reason) (x, y, z) =
    put-Writes 0x1c (omega arith)
    ⨟ put-Writes _ x
    ⨟ put-Writes _ y
    ⨟ put-Writes _ z
    ⨟ put_run-Writes reason
put_frame-Writes cd (application_close error_code reason) (x, y) =
    put-Writes 0x1d (omega arith) ⨟ put-Writes _ x ⨟ put-Writes _ y ⨟ put_run-Writes reason
put_frame-Writes cd handshake_done h = put-Writes 0x1e (omega arith)
put_frame-Writes cd (datagram d) h =
    put-Writes 0x31 (omega arith) ⨟ put_two-Writes _ h ⨟ put_run-Writes d
put_frame-Writes cd (datagram_header length) h = absurd h
put_frame-Writes cd (repair symbol) h = put-Writes 0x32 (omega arith) ⨟ put_run-Writes _
put_frame-Writes cd (source_symbol_header metadata recovered) h =
    put-Writes 0x33 (omega arith) ⨟ put_run-Writes _
put_frame-Writes cd (source_symbol symbol) h =
    put-Writes 0x33 (omega arith) ⨟ put_run-Writes _ ⨟ put_run-Writes _
put_frame-Writes cd (source_symbol_ack ranges) h =
    put-Writes 0x34 (omega arith) ⨟ ranges-Writes (rev (iter ranges)) nothing h
