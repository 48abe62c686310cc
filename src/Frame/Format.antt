-- ===== src/Frame/Format.antt =====
-- The wire format of the frames of quiche/src/frame.rs (RFC 9000, section 19, and the FEC frames), as
-- the pieces that follow each other, and which frames have one.
use quirl.Common.{
  ℕ, zero, suc, ◌+◌, ◌-◌, ◌^◌, ◌<◌, ◌≤◌, ◌≡◌, List, [], ◌∷◌, ◌++◌, length, Option, none, some,
}
use quirl.Octets.{be_bytes}
use quirl.Octets.Encode.{varint, varint_two}
use quirl.Stream.RangeBuf as Chunk
use quirl.Stream.Split
use quirl.Ranges.{Range, iter}
use quirl.Frame.Print.{rev, stream_type, ack_type}
use quirl.Frame.{
  Coding, EcnCounts, Frame, padding, ping, ack, reset_stream, stop_sending, crypto, crypto_header,
  new_token, stream, stream_header, max_data, max_stream_data, max_streams_bidi, max_streams_uni,
  data_blocked, stream_data_blocked, streams_blocked_bidi, streams_blocked_uni, new_connection_id,
  retire_connection_id, path_challenge, path_response, connection_close, application_close,
  handshake_done, datagram, datagram_header, repair, source_symbol_header, source_symbol,
  source_symbol_ack,
}

abbrev pub flat : List (List ℕ) → List ℕ
flat [] = []
flat (p ∷ ps) = p ++ flat ps

abbrev pub block_pieces : ℕ → List Range → List (List ℕ)
block_pieces smallest_ack [] = []
block_pieces smallest_ack ((start, end) ∷ rest) =
    varint (smallest_ack - end - 1) ∷ varint (end - 1 - start) ∷ block_pieces start rest

abbrev pub range_pieces : List (List ℕ) → List Range → List (List ℕ)
range_pieces between [] = []
range_pieces between ((start, end) ∷ rest) =
    varint (end - 1)
    ∷ (between ++ (varint (length rest) ∷ varint (end - 1 - start) ∷ block_pieces start rest))

abbrev pub ecn_pieces : Option EcnCounts → List (List ℕ)
ecn_pieces none = []
ecn_pieces (some ecn) = varint ecn.ect0_count ∷ varint ecn.ect1_count ∷ varint ecn.ecn_ce_count ∷ []

abbrev pub zeros : ℕ → List (List ℕ)
zeros zero = []
zeros (suc n) = varint 0 ∷ zeros n

-- A number that a varint can hold.
abbrev pub Small : ℕ → Type 0
Small v = v < 2 ^ 62

abbrev pub SmallEcn : Option EcnCounts → Type 0
SmallEcn none = Unit {0}
SmallEcn (some ecn) = Small ecn.ect0_count × Small ecn.ect1_count × Small ecn.ecn_ce_count

-- Ranges from the largest down, each not empty and apart from the one before.
abbrev pub Below : ℕ → List Range → Type 0
Below hi [] = Unit {0}
Below hi ((start, end) ∷ rest) = (end < hi) × (start < end) × Below start rest

-- There is a range, and the numbers fit.
abbrev pub SmallRanges : List Range → Type 0
SmallRanges [] = ⊥
SmallRanges rs = Below (2 ^ 62) rs × (length rs < 2 ^ 62)

module _ (cd : Coding) where
  abbrev pub pieces : Frame cd → List (List ℕ)
  pieces (padding len) = zeros len
  pieces (ping mtu_probe) = varint 0x01 ∷ []
  pieces (ack ack_delay ranges ecn_counts) =
      varint (ack_type ecn_counts)
      ∷ (range_pieces (varint ack_delay ∷ []) (rev (iter ranges)) ++ ecn_pieces ecn_counts)
  pieces (reset_stream stream_id error_code final_size) =
      varint 0x04 ∷ varint stream_id ∷ varint error_code ∷ varint final_size ∷ []
  pieces (stop_sending stream_id error_code) =
      varint 0x05 ∷ varint stream_id ∷ varint error_code ∷ []
  pieces (crypto d) =
      varint 0x06 ∷ varint (Chunk.off d) ∷ varint_two (Chunk.len d) ∷ Chunk.deref d ∷ []
  pieces (crypto_header offset length) = []
  pieces (new_token token) = varint 0x07 ∷ varint (length token) ∷ token ∷ []
  pieces (stream stream_id d) =
      varint (stream_type d.fin)
      ∷ varint stream_id
      ∷ varint (Chunk.off d)
      ∷ varint_two (Chunk.len d)
      ∷ Chunk.deref d
      ∷ []
  pieces (stream_header stream_id offset length fin) = []
  pieces (max_data max) = varint 0x10 ∷ varint max ∷ []
  pieces (max_stream_data stream_id max) = varint 0x11 ∷ varint stream_id ∷ varint max ∷ []
  pieces (max_streams_bidi max) = varint 0x12 ∷ varint max ∷ []
  pieces (max_streams_uni max) = varint 0x13 ∷ varint max ∷ []
  pieces (data_blocked limit) = varint 0x14 ∷ varint limit ∷ []
  pieces (stream_data_blocked stream_id limit) = varint 0x15 ∷ varint stream_id ∷ varint limit ∷ []
  pieces (streams_blocked_bidi limit) = varint 0x16 ∷ varint limit ∷ []
  pieces (streams_blocked_uni limit) = varint 0x17 ∷ varint limit ∷ []
  pieces (new_connection_id seq_num retire_prior_to conn_id reset_token) =
      varint 0x18
      ∷ varint seq_num
      ∷ varint retire_prior_to
      ∷ be_bytes 1 (length conn_id)
      ∷ conn_id
      ∷ reset_token
      ∷ []
  pieces (retire_connection_id seq_num) = varint 0x19 ∷ varint seq_num ∷ []
  pieces (path_challenge d) = varint 0x1a ∷ d ∷ []
  pieces (path_response d) = varint 0x1b ∷ d ∷ []
  pieces (connection_close error_code frame_type reason) =
      varint 0x1c ∷ varint error_code ∷ varint frame_type ∷ varint (length reason) ∷ reason ∷ []
  pieces (application_close error_code reason) =
      varint 0x1d ∷ varint error_code ∷ varint (length reason) ∷ reason ∷ []
  pieces handshake_done = varint 0x1e ∷ []
  pieces (datagram d) = varint 0x31 ∷ varint_two (length d) ∷ d ∷ []
  pieces (datagram_header length) = []
  pieces (repair symbol) = varint 0x32 ∷ cd.repair_get symbol ∷ []
  pieces (source_symbol_header metadata recovered) = varint 0x33 ∷ cd.metadata_bytes metadata ∷ []
  pieces (source_symbol symbol) =
      varint 0x33 ∷ cd.metadata_bytes (cd.source_metadata symbol) ∷ cd.source_get symbol ∷ []
  pieces (source_symbol_ack ranges) = varint 0x34 ∷ range_pieces [] (rev (iter ranges))

  unfoldable pub encode : Frame cd → List ℕ
  encode frame = flat (pieces frame)

  -- The numbers and lengths fit their fields. The headers of CRYPTO, STREAM and DATAGRAM frames are
  -- not written by to_bytes.
  abbrev pub Fits : Frame cd → Type 0
  Fits (padding len) = Unit {0}
  Fits (ping mtu_probe) = Unit {0}
  Fits (ack ack_delay ranges ecn_counts) =
      Small ack_delay × SmallRanges (rev (iter ranges)) × SmallEcn ecn_counts
  Fits (reset_stream stream_id error_code final_size) =
      Small stream_id × Small error_code × Small final_size
  Fits (stop_sending stream_id error_code) = Small stream_id × Small error_code
  Fits (crypto d) = Small (Chunk.off d) × (Chunk.len d < 2 ^ 14) × Split.IsValid d
  Fits (crypto_header offset length) = ⊥
  Fits (new_token token) = Small (length token)
  Fits (stream stream_id d) =
      Small stream_id
      × (Chunk.off d + Chunk.len d < 2 ^ 62)
      × (Chunk.len d < 2 ^ 14)
      × Split.IsValid d
  Fits (stream_header stream_id offset length fin) = ⊥
  Fits (max_data max) = Small max
  Fits (max_stream_data stream_id max) = Small stream_id × Small max
  Fits (max_streams_bidi max) = Small max
  Fits (max_streams_uni max) = Small max
  Fits (data_blocked limit) = Small limit
  Fits (stream_data_blocked stream_id limit) = Small stream_id × Small limit
  Fits (streams_blocked_bidi limit) = Small limit
  Fits (streams_blocked_uni limit) = Small limit
  Fits (new_connection_id seq_num retire_prior_to conn_id reset_token) =
      Small seq_num
      × Small retire_prior_to
      × (1 ≤ length conn_id)
      × (length conn_id ≤ 20)
      × (length reset_token ≡ 16)
  Fits (retire_connection_id seq_num) = Small seq_num
  Fits (path_challenge d) = length d ≡ 8
  Fits (path_response d) = length d ≡ 8
  Fits (connection_close error_code frame_type reason) =
      Small error_code × Small frame_type × Small (length reason)
  Fits (application_close error_code reason) = Small error_code × Small (length reason)
  Fits handshake_done = Unit {0}
  Fits (datagram d) = length d < 2 ^ 14
  Fits (datagram_header length) = ⊥
  Fits (repair symbol) = Unit {0}
  Fits (source_symbol_header metadata recovered) = Unit {0}
  Fits (source_symbol symbol) = Unit {0}
  Fits (source_symbol_ack ranges) = SmallRanges (rev (iter ranges))
