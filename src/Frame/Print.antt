-- ===== src/Frame/Print.antt =====
-- Writing of quiche/src/frame.rs: to_bytes, and the headers that the connection writes by themselves.
use quirl.Common.{
  ℕ, zero, suc, ◌+◌, ◌-◌, ◌%◌, ◌^◌, List, [], ◌∷◌, ltb, if◌then◌else◌, length, Bool, true, false,
  Option, none, some,
}
use quirl.Common.Result.{ok, panic}
use quirl.Common.Exec.{Exec, ◌>>=◌, ◌>>◌, pure}
use quirl.Octets.{Octets, cap, put_varint, put_varint_with_len, put_u8, put_bytes}
use quirl.Stream.RangeBuf.{RangeBuf}
use quirl.Stream.RangeBuf as Chunk
use quirl.Ranges.{Range, iter}
use quirl.Frame.{
  Error, Coding, EcnCounts, Frame, padding, ping, ack, reset_stream, stop_sending, crypto,
  crypto_header, new_token, stream, stream_header, max_data, max_stream_data, max_streams_bidi,
  max_streams_uni, data_blocked, stream_data_blocked, streams_blocked_bidi, streams_blocked_uni,
  new_connection_id, retire_connection_id, path_challenge, path_response, connection_close,
  application_close, handshake_done, datagram, datagram_header, repair, source_symbol_header,
  source_symbol, source_symbol_ack, io,
}

abbrev pub Printer : Type 0
Printer = Exec Octets Error (Unit {0})

-- A number in the length it takes, and one in two bytes.
abbrev pub put : ℕ → Printer
put v = do _ ← io (put_varint v); pure tt

abbrev pub put_two : ℕ → Printer
put_two v = do _ ← io (put_varint_with_len v 2); pure tt

abbrev pub put_byte : ℕ → Printer
put_byte v = do _ ← io (put_u8 (v % 2 ^ 8)); pure tt

abbrev pub put_run : List ℕ → Printer
put_run v = io (put_bytes v)

abbrev fail : Printer
fail b = (panic, b)

-- A set of ranges from the largest down: `iter().rev()`.
unfoldable pub onto : List Range → List Range → List Range
onto [] acc = acc
onto (r ∷ rs) acc = onto rs (r ∷ acc)

unfoldable pub rev : List Range → List Range
unfolding onto
rev rs = onto rs []

-- `while left > 0`
unfoldable pub put_padding : ℕ → Printer
put_padding zero = pure tt
put_padding (suc n) = put 0x00 >> put_padding n

-- The loop over the further blocks; a difference below 0 panics.
unfoldable pub put_blocks : ℕ → List Range → Printer
put_blocks smallest_ack [] = pure tt
put_blocks smallest_ack ((start, end) ∷ rest) =
    if ltb smallest_ack (end + 1)
    then fail
    else if ltb end (start + 1)
    then fail
    else (put (smallest_ack - end - 1) >> put (end - 1 - start) >> put_blocks start rest)

-- The largest number acknowledged, the fields that a frame has after it, the number of further
-- blocks, and the blocks; an empty set panics at `unwrap`.
unfoldable pub put_ranges : Printer → List Range → Printer
unfolding put_blocks
put_ranges between [] = fail
put_ranges between ((start, end) ∷ rest) =
    if ltb end (start + 1)
    then fail
    else (put (end - 1)
        >> between
        >> put (length rest)
        >> put (end - 1 - start)
        >> put_blocks start rest)

unfoldable pub put_ecn : Option EcnCounts → Printer
put_ecn none = pure tt
put_ecn (some ecn) = put ecn.ect0_count >> put ecn.ect1_count >> put ecn.ecn_ce_count

unfoldable pub ack_type : Option EcnCounts → ℕ
ack_type none = 0x02
ack_type (some ecn) = 0x03

unfoldable pub encode_crypto_header : ℕ → ℕ → Printer
encode_crypto_header offset length = put 0x06 >> put offset >> put_two length

-- `0x08 | 0x04 | 0x02`, and `| 0x01` for the last frame.
unfoldable pub stream_type : Bool → ℕ
stream_type false = 0x0e
stream_type true = 0x0f

unfoldable pub encode_stream_header : ℕ → ℕ → ℕ → Bool → Printer
unfolding stream_type
encode_stream_header stream_id offset length fin =
    put (stream_type fin) >> put stream_id >> put offset >> put_two length

-- `0x30 | 0x01`
unfoldable pub encode_dgram_header : ℕ → Printer
encode_dgram_header length = put 0x31 >> put_two length

module _ (cd : Coding) where
  -- The `match self`.
  unfoldable pub put_frame : Frame cd → Printer
  unfolding put_padding ack_type put_ranges rev put_ecn encode_crypto_header encode_stream_header
      encode_dgram_header
  put_frame (padding len) = put_padding len
  put_frame (ping mtu_probe) = put 0x01
  put_frame (ack ack_delay ranges ecn_counts) =
      put (ack_type ecn_counts)
      >> put_ranges (put ack_delay) (rev (iter ranges))
      >> put_ecn ecn_counts
  put_frame (reset_stream stream_id error_code final_size) =
      put 0x04 >> put stream_id >> put error_code >> put final_size
  put_frame (stop_sending stream_id error_code) = put 0x05 >> put stream_id >> put error_code
  put_frame (crypto d) = encode_crypto_header (Chunk.off d) (Chunk.len d) >> put_run (Chunk.deref d)
  put_frame (crypto_header offset length) = pure tt
  put_frame (new_token token) = put 0x07 >> put (length token) >> put_run token
  put_frame (stream stream_id d) =
      encode_stream_header stream_id (Chunk.off d) (Chunk.len d) d.fin >> put_run (Chunk.deref d)
  put_frame (stream_header stream_id offset length fin) = pure tt
  put_frame (max_data max) = put 0x10 >> put max
  put_frame (max_stream_data stream_id max) = put 0x11 >> put stream_id >> put max
  put_frame (max_streams_bidi max) = put 0x12 >> put max
  put_frame (max_streams_uni max) = put 0x13 >> put max
  put_frame (data_blocked limit) = put 0x14 >> put limit
  put_frame (stream_data_blocked stream_id limit) = put 0x15 >> put stream_id >> put limit
  put_frame (streams_blocked_bidi limit) = put 0x16 >> put limit
  put_frame (streams_blocked_uni limit) = put 0x17 >> put limit
  put_frame (new_connection_id seq_num retire_prior_to conn_id reset_token) =
      put 0x18
      >> put seq_num
      >> put retire_prior_to
      >> put_byte (length conn_id)
      >> put_run conn_id
      >> put_run reset_token
  put_frame (retire_connection_id seq_num) = put 0x19 >> put seq_num
  put_frame (path_challenge d) = put 0x1a >> put_run d
  put_frame (path_response d) = put 0x1b >> put_run d
  put_frame (connection_close error_code frame_type reason) =
      put 0x1c >> put error_code >> put frame_type >> put (length reason) >> put_run reason
  put_frame (application_close error_code reason) =
      put 0x1d >> put error_code >> put (length reason) >> put_run reason
  put_frame handshake_done = put 0x1e
  put_frame (datagram d) = encode_dgram_header (length d) >> put_run d
  put_frame (datagram_header length) = pure tt
  put_frame (repair symbol) = put 0x32 >> put_run (cd.repair_get symbol)
  put_frame (source_symbol_header metadata recovered) =
      put 0x33 >> put_run (cd.metadata_bytes metadata)
  put_frame (source_symbol symbol) =
      put 0x33
      >> put_run (cd.metadata_bytes (cd.source_metadata symbol))
      >> put_run (cd.source_get symbol)
  put_frame (source_symbol_ack ranges) = put 0x34 >> put_ranges (pure tt) (rev (iter ranges))

  unfoldable pub to_bytes : Frame cd → Exec Octets Error ℕ
  to_bytes frame b = (put_frame frame >>= λ _ b'. (ok (cap b - cap b'), b')) b
