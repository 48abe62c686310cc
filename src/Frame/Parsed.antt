-- ===== src/Frame/Parsed.antt =====
-- from_bytes of quiche/src/frame.rs, frame by frame: what it makes of the pieces of the wire format.
use quirl.Common.{
  ℕ, zero, suc, ◌+◌, ◌^◌, ◌<◌, ◌≡◌, refl, sym, ◌∙◌, List, [], ◌∷◌, length, arith, Bool, true, false,
  append-nil, Option, none, some, ==_false,
}
use quirl.Common.Exec.{◌>>=◌}
use quirl.Octets.Encode.{varint, varint_two}
use quirl.Stream.RangeBuf as Chunk
use quirl.Stream.Split.{length-deref}
use quirl.Ranges.{RangeSet, iter}
use quirl.Frame.Print.{rev, stream_type, ack_type}
use quirl.Frame.Parse.{Parser, varint_field, parse_body, allowed}
use quirl.Frame.Format.{Small, pieces, Fits}
use quirl.Frame.Reads.{
  Reads, bind, done, last, varint-Reads, bytes-Reads, array-Reads, sized-Reads, two_sized-Reads,
  decoder-Reads,
}
use quirl.Frame.Padding.{padding_loop-Reads}
use quirl.Frame.Bodies.{
  rev-rev, ack-Reads, source_ack-Reads, stream-Reads, datagram-Reads, connection_id-Reads,
}
use quirl.Frame.Received.{Received, Readable}
use quirl.Frame.{
  Coding, PacketType, EcnCounts, Frame, padding, ping, ack, reset_stream, stop_sending, crypto,
  crypto_header, new_token, stream, stream_header, max_data, max_stream_data, max_streams_bidi,
  max_streams_uni, data_blocked, stream_data_blocked, streams_blocked_bidi, streams_blocked_uni,
  new_connection_id, retire_connection_id, path_challenge, path_response, connection_close,
  application_close, handshake_done, datagram, datagram_header, repair, source_symbol_header,
  source_symbol, source_symbol_ack,
}

module _ (cd : Coding) where
  -- from_bytes before the test of the packet's type.
  abbrev pub unchecked : Parser (Frame cd)
  unchecked = varint_field >>= parse_body cd

  abbrev pub Parsed : List ℕ → Frame cd → Type 0
  Parsed rest frame =
      (g : Frame cd) × Received cd frame g
      × Reads rest unchecked (pieces cd frame) g
      × ((pkt : PacketType) → allowed cd pkt g ≡ allowed cd pkt frame)

  kept :
      {rest : List ℕ} (frame : Frame cd)
      → Received cd frame frame
      → Reads rest unchecked (pieces cd frame) frame
      → Parsed rest frame
  kept frame same read = (frame, same, read, λ pkt. refl)

  type-Reads :
      {rest : List ℕ} {ps : List (List ℕ)} {frame : Frame cd} (ty : ℕ)
      → Small ty
      → Reads rest (parse_body cd ty) ps frame
      → Reads rest unchecked (varint ty ∷ ps) frame
  type-Reads ty h x = bind _ (varint-Reads ty h) x

  ack-Parsed :
      (rest : List ℕ) (ack_delay : ℕ) (ranges : RangeSet) (ecn : Option EcnCounts)
      → Fits cd (ack ack_delay ranges ecn)
      → Parsed rest (ack ack_delay ranges ecn)
  unfolding parse_body ack_type allowed
  ack-Parsed rest ack_delay ranges none (x, y, z) =
      let (set', i, read) = ack-Reads cd rest ack_delay (rev (iter ranges)) none x y z in
      (
        ack ack_delay set' none,
        (set', refl, i ∙ rev-rev (iter ranges)),
        type-Reads 0x02 (omega arith) read,
        λ pkt. refl,
      )
  ack-Parsed rest ack_delay ranges (some c) (x, y, z) =
      let (set', i, read) = ack-Reads cd rest ack_delay (rev (iter ranges)) (some c) x y z in
      (
        ack ack_delay set' (some c),
        (set', refl, i ∙ rev-rev (iter ranges)),
        type-Reads 0x03 (omega arith) read,
        λ pkt. refl,
      )

  stream-Parsed :
      (rest : List ℕ) (stream_id offset : ℕ) (d : List ℕ) (fin : Bool)
      → Small stream_id
      → offset + length d < 2 ^ 62
      → length d < 2 ^ 14
      → Reads rest unchecked
          (varint (stream_type fin)
            ∷ varint stream_id
            ∷ varint offset
            ∷ varint_two (length d)
            ∷ d
            ∷ [])
          (stream stream_id (Chunk.from d offset fin))
  unfolding parse_body stream_type
  stream-Parsed rest stream_id offset d false x y z =
      type-Reads 0x0e (omega arith) (stream-Reads cd rest stream_id offset d false x y z)
  stream-Parsed rest stream_id offset d true x y z =
      type-Reads 0x0f (omega arith) (stream-Reads cd rest stream_id offset d true x y z)

  -- Every frame whose fields fit is read back from its pieces.
  pub parsed :
      (rest : List ℕ) (frame : Frame cd)
      → Fits cd frame
      → Readable cd rest frame
      → Parsed rest frame
  unfolding parse_body allowed
  parsed rest (padding zero) h (l, w) = absurd (omega arith)
  parsed rest (padding (suc n)) h (l, w) =
      kept (padding (suc n)) refl (type-Reads 0x00 (omega arith) (padding_loop-Reads cd n rest w))
  parsed rest (ping mtu_probe) h r =
      (ping none, refl, type-Reads 0x01 (omega arith) done, λ pkt. refl)
  parsed rest (ack ack_delay ranges ecn_counts) h r = ack-Parsed rest ack_delay ranges ecn_counts h
  parsed rest (reset_stream stream_id error_code final_size) (x, y, z) r =
      kept (reset_stream stream_id error_code final_size) refl (
        type-Reads 0x04 (omega arith)
          (bind _ (varint-Reads _ x) (bind _ (varint-Reads _ y) (bind _ (varint-Reads _ z) done))))
  parsed rest (stop_sending stream_id error_code) (x, y) r =
      kept (stop_sending stream_id error_code) refl
        (type-Reads 0x05 (omega arith) (bind _ (varint-Reads _ x) (bind _ (varint-Reads _ y) done)))
  parsed rest (crypto d) (x, y, v) r = (
    crypto (Chunk.from (Chunk.deref d) (Chunk.off d) false),
    refl,
    rw (sym (length-deref v)) (
        type-Reads 0x06 (omega arith) (
          bind _ (varint-Reads (Chunk.off d) x)
            (last _ (two_sized-Reads (Chunk.deref d) (omega (arith, length-deref v)))))),
    λ pkt. refl,
  )
  parsed rest (crypto_header offset length) h r = absurd h
  parsed rest (new_token token) h r = kept (new_token token) refl (
      type-Reads 0x07 (omega arith) (
        bind _ (varint-Reads (length token) h)
          (rw (==_false (length token) 0 (omega arith)) (last _ (bytes-Reads token)))))
  parsed rest (stream stream_id d) (x, y, z, v) r = (
    stream stream_id (Chunk.from (Chunk.deref d) (Chunk.off d) d.fin),
    refl,
    rw (sym (length-deref v)) (
        stream-Parsed rest stream_id (Chunk.off d) (Chunk.deref d) d.fin x
          (omega (arith, length-deref v)) (omega (arith, length-deref v))),
    λ pkt. refl,
  )
  parsed rest (stream_header stream_id offset length fin) h r = absurd h
  parsed rest (max_data max) h r =
      kept (max_data max) refl (type-Reads 0x10 (omega arith) (bind _ (varint-Reads _ h) done))
  parsed rest (max_stream_data stream_id max) (x, y) r =
      kept (max_stream_data stream_id max) refl
        (type-Reads 0x11 (omega arith) (bind _ (varint-Reads _ x) (bind _ (varint-Reads _ y) done)))
  parsed rest (max_streams_bidi max) h r =
      kept (max_streams_bidi max) refl
        (type-Reads 0x12 (omega arith) (bind _ (varint-Reads _ h) done))
  parsed rest (max_streams_uni max) h r =
      kept (max_streams_uni max) refl
        (type-Reads 0x13 (omega arith) (bind _ (varint-Reads _ h) done))
  parsed rest (data_blocked limit) h r =
      kept (data_blocked limit) refl
        (type-Reads 0x14 (omega arith) (bind _ (varint-Reads _ h) done))
  parsed rest (stream_data_blocked stream_id limit) (x, y) r =
      kept (stream_data_blocked stream_id limit) refl
        (type-Reads 0x15 (omega arith) (bind _ (varint-Reads _ x) (bind _ (varint-Reads _ y) done)))
  parsed rest (streams_blocked_bidi limit) h r =
      kept (streams_blocked_bidi limit) refl
        (type-Reads 0x16 (omega arith) (bind _ (varint-Reads _ h) done))
  parsed rest (streams_blocked_uni limit) h r =
      kept (streams_blocked_uni limit) refl
        (type-Reads 0x17 (omega arith) (bind _ (varint-Reads _ h) done))
  parsed rest (new_connection_id seq_num retire_prior_to conn_id reset_token) (x, y, l, u, t) r =
      kept (new_connection_id seq_num retire_prior_to conn_id reset_token) refl (
        type-Reads 0x18 (omega arith)
          (connection_id-Reads cd rest seq_num retire_prior_to conn_id reset_token x y l u t))
  parsed rest (retire_connection_id seq_num) h r =
      kept (retire_connection_id seq_num) refl
        (type-Reads 0x19 (omega arith) (bind _ (varint-Reads _ h) done))
  parsed rest (path_challenge d) h r =
      kept (path_challenge d) refl (type-Reads 0x1a (omega arith) (last _ (array-Reads 8 d h)))
  parsed rest (path_response d) h r =
      kept (path_response d) refl (type-Reads 0x1b (omega arith) (last _ (array-Reads 8 d h)))
  parsed rest (connection_close error_code frame_type reason) (x, y, z) r =
      kept (connection_close error_code frame_type reason) refl (
        type-Reads 0x1c (omega arith)
          (bind _ (varint-Reads _ x) (bind _ (varint-Reads _ y) (last _ (sized-Reads reason z)))))
  parsed rest (application_close error_code reason) (x, y) r =
      kept (application_close error_code reason) refl
        (type-Reads 0x1d (omega arith) (bind _ (varint-Reads _ x) (last _ (sized-Reads reason y))))
  parsed rest handshake_done h r = kept handshake_done refl (type-Reads 0x1e (omega arith) done)
  parsed rest (datagram d) h r =
      kept (datagram d) refl (type-Reads 0x31 (omega arith) (datagram-Reads cd rest d h))
  parsed rest (datagram_header length) h r = absurd h
  parsed rest (repair symbol) h (e, law) = kept (repair symbol) refl (
      type-Reads 0x32 (omega arith) (
        last _ (
          decoder-Reads cd rest (cd.repair_get symbol) symbol cd.read_repair_symbol
            (rw (e, append-nil (cd.repair_get symbol)) law))))
  parsed rest (source_symbol_header metadata recovered) h r = absurd r
  parsed rest (source_symbol symbol) h r = absurd r
  parsed rest (source_symbol_ack ranges) h r =
      let (set', i, read) = source_ack-Reads cd rest (rev (iter ranges)) h in
      (
        source_symbol_ack set',
        (set', refl, i ∙ rev-rev (iter ranges)),
        type-Reads 0x34 (omega arith) read,
        λ pkt. refl,
      )
