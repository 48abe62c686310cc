-- ===== src/Frame/Size.antt =====
-- wire_len, ack_eliciting and probing of quiche/src/frame.rs.
use quirl.Common.{
  ℕ, ◌+◌, ◌-◌, List, [], ◌∷◌, ltb, if◌then◌else◌, length, Bool, true, false, Option, none, some,
}
use quirl.Octets.{varint_len}
use quirl.Stream.RangeBuf as Chunk
use quirl.Ranges.{Range, iter}
use quirl.Frame.Print.{rev}
use quirl.Frame.{
  Coding, EcnCounts, Frame, padding, ping, ack, reset_stream, stop_sending, crypto, crypto_header,
  new_token, stream, stream_header, max_data, max_stream_data, max_streams_bidi, max_streams_uni,
  data_blocked, stream_data_blocked, streams_blocked_bidi, streams_blocked_uni, new_connection_id,
  retire_connection_id, path_challenge, path_response, connection_close, application_close,
  handshake_done, datagram, datagram_header, repair, source_symbol_header, source_symbol,
  source_symbol_ack,
}

-- The loop over the further blocks, which adds to `len`; `none` is a panic.
unfoldable pub blocks_len : ℕ → List Range → ℕ → Option ℕ
blocks_len smallest_ack [] len = some len
blocks_len smallest_ack ((start, end) ∷ rest) len =
    let more =
      blocks_len start rest
        (len + (varint_len (smallest_ack - end - 1) + varint_len (end - 1 - start))) in
    if ltb smallest_ack (end + 1) then none else if ltb end (start + 1) then none else more

-- The type, the fields of the first block with `between`, and the loop.
unfoldable pub ranges_len : ℕ → List Range → Option ℕ
unfolding blocks_len
ranges_len between [] = none
ranges_len between ((start, end) ∷ rest) =
    if ltb end (start + 1)
    then none
    else blocks_len start rest (
        1
        + varint_len (end - 1)
        + between
        + varint_len (length rest)
        + varint_len (end - 1 - start))

unfoldable pub ecn_len : Option EcnCounts → ℕ
ecn_len none = 0
ecn_len (some ecn) =
    varint_len ecn.ect0_count + varint_len ecn.ect1_count + varint_len ecn.ecn_ce_count

abbrev add_ecn : Option ℕ → Option EcnCounts → Option ℕ
add_ecn none ecn_counts = none
add_ecn (some len) ecn_counts = some (len + ecn_len ecn_counts)

module _ (cd : Coding) where
  unfoldable pub wire_len : Frame cd → Option ℕ
  unfolding ranges_len ecn_len rev
  wire_len (padding len) = some len
  wire_len (ping mtu_probe) = some 1
  wire_len (ack ack_delay ranges ecn_counts) =
      add_ecn (ranges_len (varint_len ack_delay) (rev (iter ranges))) ecn_counts
  wire_len (reset_stream stream_id error_code final_size) =
      some (1 + varint_len stream_id + varint_len error_code + varint_len final_size)
  wire_len (stop_sending stream_id error_code) =
      some (1 + varint_len stream_id + varint_len error_code)
  wire_len (crypto d) = some (1 + varint_len (Chunk.off d) + 2 + Chunk.len d)
  wire_len (crypto_header offset length) = some (1 + varint_len offset + 2 + length)
  wire_len (new_token token) = some (1 + varint_len (length token) + length token)
  wire_len (stream stream_id d) =
      some (1 + varint_len stream_id + varint_len (Chunk.off d) + 2 + Chunk.len d)
  wire_len (stream_header stream_id offset length fin) =
      some (1 + varint_len stream_id + varint_len offset + 2 + length)
  wire_len (max_data max) = some (1 + varint_len max)
  wire_len (max_stream_data stream_id max) = some (1 + varint_len stream_id + varint_len max)
  wire_len (max_streams_bidi max) = some (1 + varint_len max)
  wire_len (max_streams_uni max) = some (1 + varint_len max)
  wire_len (data_blocked limit) = some (1 + varint_len limit)
  wire_len (stream_data_blocked stream_id limit) =
      some (1 + varint_len stream_id + varint_len limit)
  wire_len (streams_blocked_bidi limit) = some (1 + varint_len limit)
  wire_len (streams_blocked_uni limit) = some (1 + varint_len limit)
  wire_len (new_connection_id seq_num retire_prior_to conn_id reset_token) = some (
      1 + varint_len seq_num + varint_len retire_prior_to + 1 + length conn_id + length reset_token)
  wire_len (retire_connection_id seq_num) = some (1 + varint_len seq_num)
  wire_len (path_challenge d) = some 9
  wire_len (path_response d) = some 9
  wire_len (connection_close error_code frame_type reason) = some (
      1
      + varint_len error_code
      + varint_len frame_type
      + varint_len (length reason)
      + length reason)
  wire_len (application_close error_code reason) =
      some (1 + varint_len error_code + varint_len (length reason) + length reason)
  wire_len handshake_done = some 1
  wire_len (datagram d) = some (1 + 2 + length d)
  wire_len (datagram_header length) = some (1 + 2 + length)
  wire_len (repair symbol) = some (1 + cd.repair_wire_len symbol)
  wire_len (source_symbol_header metadata recovered) =
      some (1 + length (cd.metadata_bytes metadata))
  wire_len (source_symbol symbol) =
      some
        (1 + length (cd.metadata_bytes (cd.source_metadata symbol)) + length (cd.source_get symbol))
  wire_len (source_symbol_ack ranges) = ranges_len 0 (rev (iter ranges))

  unfoldable pub ack_eliciting : Frame cd → Bool
  ack_eliciting (padding len) = false
  ack_eliciting (ack ack_delay ranges ecn_counts) = false
  ack_eliciting (application_close error_code reason) = false
  ack_eliciting (source_symbol symbol) = false
  ack_eliciting (source_symbol_header metadata recovered) = false
  ack_eliciting (source_symbol_ack ranges) = false
  ack_eliciting (connection_close error_code frame_type reason) = false
  ack_eliciting _ = true

  unfoldable pub probing : Frame cd → Bool
  probing (padding len) = true
  probing (new_connection_id seq_num retire_prior_to conn_id reset_token) = true
  probing (path_challenge d) = true
  probing (path_response d) = true
  probing _ = false
