-- ===== src/Frame/Parse.antt =====
-- Parsing of quiche/src/frame.rs: from_bytes and the functions it calls.
use quirl.Common.{
  ℕ, zero, suc, ◌+◌, ◌-◌, ◌/◌, ◌%◌, ◌^◌, List, [], ◌∷◌, ◌++◌, ltb, leb, ◌==◌, ◌&&◌, ◌||◌, not,
  if◌then◌else◌, length, Bool, true, false, Option, none, some,
}
use quirl.Common.Result.{Result, ok, err, panic}
use quirl.Common.Exec.{Exec, ◌>>=◌, pure, raise}
use quirl.Octets.{
  Octets, cap, as_ref, get_varint, get_u8, peek_u8, get_bytes, get_bytes_with_varint_length, skip,
}
use quirl.Stream.RangeBuf.{RangeBuf}
use quirl.Stream.RangeBuf as Chunk
use quirl.Ranges.{Range, RangeSet, insert, default}
use quirl.Frame.{
  Error, buffer_short, invalid_frame, invalid_packet, fec_decoder_error, PacketType, zero_rtt,
  short, Coding, EcnCounts, Frame, padding, ping, ack, reset_stream, stop_sending, crypto,
  new_token, stream, max_data, max_stream_data, max_streams_bidi, max_streams_uni, data_blocked,
  stream_data_blocked, streams_blocked_bidi, streams_blocked_uni, new_connection_id,
  retire_connection_id, path_challenge, path_response, connection_close, application_close,
  handshake_done, datagram, repair, source_symbol, source_symbol_ack, io,
}

abbrev pub max_cid_len : ℕ
max_cid_len = 20

abbrev pub max_stream_size : ℕ
max_stream_size = 2 ^ 62

abbrev pub Parser : Type 0 → Type 0
Parser A = Exec Octets Error A

abbrev pub varint_field : Parser ℕ
varint_field = io get_varint

-- `b.cap()`
abbrev pub left : Parser ℕ
left b = (ok (cap b), b)

-- `b.get_bytes(len)?`, as a vector of its own.
abbrev pub bytes_field : ℕ → Parser (List ℕ)
bytes_field len = do d ← io (get_bytes len); pure (as_ref d)

abbrev pub bytes_with_length : Parser (List ℕ)
bytes_with_length = do d ← io get_bytes_with_varint_length; pure (as_ref d)

-- `try_into` for an array of `n` bytes.
abbrev pub array_field : ℕ → Parser (List ℕ)
array_field n = do d ← bytes_field n; if length d == n then pure d else raise buffer_short

-- `ranges.insert`, which panics where `none` says so.
unfoldable pub insert_range : Range → RangeSet → Parser RangeSet
insert_range r set b = elim (insert r set) [ none ↦ (panic, b) | some set' ↦ (ok set', b) ]

-- The loop over the further blocks of an ACK frame.
unfoldable pub ack_blocks : ℕ → ℕ → RangeSet → Parser RangeSet
ack_blocks zero smallest_ack ranges = pure ranges
ack_blocks (suc n) smallest_ack ranges = do
  gap ← varint_field
  (if ltb smallest_ack (2 + gap) then raise invalid_frame else do
    ack_block ← varint_field
    (if ltb (smallest_ack - gap - 2) ack_block then raise invalid_frame else do
      let largest_ack = smallest_ack - gap - 2
      ranges' ← insert_range (largest_ack - ack_block, largest_ack + 1) ranges
      ack_blocks n (largest_ack - ack_block) ranges'))

-- The first block and the others, as both kinds of ACK frames have them.
unfoldable pub ack_ranges : ℕ → ℕ → ℕ → Parser RangeSet
ack_ranges largest_ack block_count ack_block =
    if ltb largest_ack ack_block then raise invalid_frame else do
      ranges ← insert_range (largest_ack - ack_block, largest_ack + 1) default
      ack_blocks block_count (largest_ack - ack_block) ranges

unfoldable pub parse_ecn : Bool → Parser (Option EcnCounts)
parse_ecn false = pure none
parse_ecn true = do
  a ← varint_field
  b ← varint_field
  c ← varint_field
  pure (some (record { ect0_count = a; ect1_count = b; ecn_ce_count = c }))

-- The optional fields of a STREAM and of a DATAGRAM frame.
unfoldable pub field_if : Bool → Parser ℕ → Parser ℕ
field_if true other = varint_field
field_if false other = other

-- `while b.peek_u8() == Ok(0x00)`: each round reads a byte, so the bytes left are rounds enough.
unfoldable pub padding_loop : ℕ → ℕ → Parser ℕ
padding_loop zero len b = (ok len, b)
padding_loop (suc fuel) len b = elim (peek_u8 b).0 [
  | ok x ↦ if x == 0 then (io get_u8 >>= λ _. padding_loop fuel (len + 1)) b else (ok len, b)
  | err _ ↦ (ok len, b)
  | panic ↦ (ok len, b)
]

unfoldable pub replicate_zero : ℕ → List ℕ
replicate_zero zero = []
replicate_zero (suc n) = 0 ∷ replicate_zero n

module _ (cd : Coding) where
  unfoldable pub parse_ack_frame : ℕ → Parser (Frame cd)
  unfolding ack_ranges
  parse_ack_frame ty = do
    largest_ack ← varint_field
    ack_delay ← varint_field
    block_count ← varint_field
    ack_block ← varint_field
    ranges ← ack_ranges largest_ack block_count ack_block
    ecn_counts ← parse_ecn (ty % 2 == 1)
    pure (ack ack_delay ranges ecn_counts)

  unfoldable pub parse_source_symbol_ack_frame : Parser (Frame cd)
  parse_source_symbol_ack_frame = do
    largest_ack ← varint_field
    block_count ← varint_field
    ack_block ← varint_field
    ranges ← ack_ranges largest_ack block_count ack_block
    pure (source_symbol_ack ranges)

  unfoldable pub parse_stream_frame : ℕ → Parser (Frame cd)
  parse_stream_frame ty = do
    stream_id ← varint_field
    offset ← field_if (ty / 4 % 2 == 1) (pure 0)
    len ← field_if (ty / 2 % 2 == 1) left
    (if leb max_stream_size (offset + len)
        then raise invalid_frame
        else do d ← bytes_field len; pure (stream stream_id (Chunk.from d offset (ty % 2 == 1))))

  unfoldable pub parse_datagram_frame : ℕ → Parser (Frame cd)
  parse_datagram_frame ty = do
    len ← field_if (ty % 2 == 1) left
    d ← bytes_field len
    pure (datagram d)

  -- A decoder reads from the payload that is left, which is then skipped.
  unfoldable pub from_decoder : {A : Type 0} → (List ℕ → Result ℕ (ℕ × A)) → Parser A
  from_decoder read b = elim (read (as_ref b)) [
    | ok (n, a) ↦ (io (skip n) >>= λ _. pure a) b
    | err e ↦ (err (fec_decoder_error e), b)
    | panic ↦ (panic, b)
  ]

  -- The payload that is left, with zeros before it up to the size of a symbol; a larger one panics.
  unfoldable pub padded_payload : Parser (List ℕ)
  unfolding replicate_zero
  padded_payload b =
      if ltb cd.symbol_size (cap b)
      then (panic, b)
      else (ok (replicate_zero (cd.symbol_size - cap b) ++ as_ref b), b)

  -- The `match frame_type`.
  unfoldable pub parse_body : ℕ → Parser (Frame cd)
  unfolding padding_loop parse_ack_frame parse_source_symbol_ack_frame
  parse_body ty =
      if ty == 0x00
      then (λ b. (padding_loop (cap b) 1 >>= λ len. pure (padding len)) b)
      else if ty == 0x01
      then pure (ping none)
      else if leb 0x02 ty && leb ty 0x03
      then parse_ack_frame ty
      else if ty == 0x04
      then (do a ← varint_field; b ← varint_field; c ← varint_field; pure (reset_stream a b c))
      else if ty == 0x05
      then (do a ← varint_field; b ← varint_field; pure (stop_sending a b))
      else if ty == 0x06
      then (do
        offset ← varint_field
        d ← bytes_with_length
        pure (crypto (Chunk.from d offset false)))
      else if ty == 0x07
      then (do
        len ← varint_field
        (if len == 0 then raise invalid_frame else (do d ← bytes_field len; pure (new_token d))))
      else if leb 0x08 ty && leb ty 0x0f
      then parse_stream_frame ty
      else if ty == 0x10
      then (do a ← varint_field; pure (max_data a))
      else if ty == 0x11
      then (do a ← varint_field; b ← varint_field; pure (max_stream_data a b))
      else if ty == 0x12
      then (do a ← varint_field; pure (max_streams_bidi a))
      else if ty == 0x13
      then (do a ← varint_field; pure (max_streams_uni a))
      else if ty == 0x14
      then (do a ← varint_field; pure (data_blocked a))
      else if ty == 0x15
      then (do a ← varint_field; b ← varint_field; pure (stream_data_blocked a b))
      else if ty == 0x16
      then (do a ← varint_field; pure (streams_blocked_bidi a))
      else if ty == 0x17
      then (do a ← varint_field; pure (streams_blocked_uni a))
      else if ty == 0x18
      then (do
        seq_num ← varint_field
        retire_prior_to ← varint_field
        conn_id_len ← io get_u8
        (if not (leb 1 conn_id_len && leb conn_id_len max_cid_len) then raise invalid_frame else (do
          conn_id ← bytes_field conn_id_len
          reset_token ← array_field 16
          pure (new_connection_id seq_num retire_prior_to conn_id reset_token))))
      else if ty == 0x19
      then (do a ← varint_field; pure (retire_connection_id a))
      else if ty == 0x1a
      then (do d ← array_field 8; pure (path_challenge d))
      else if ty == 0x1b
      then (do d ← array_field 8; pure (path_response d))
      else if ty == 0x1c
      then (do
        error_code ← varint_field
        frame_type ← varint_field
        reason ← bytes_with_length
        pure (connection_close error_code frame_type reason))
      else if ty == 0x1d
      then (do
        error_code ← varint_field
        reason ← bytes_with_length
        pure (application_close error_code reason))
      else if ty == 0x1e
      then pure handshake_done
      else if ty == 0x30 || ty == 0x31
      then parse_datagram_frame ty
      else if ty == 0x32
      then (do r ← from_decoder cd.read_repair_symbol; pure (repair r))
      else if ty == 0x33
      then (do
        metadata ← from_decoder cd.read_source_symbol_metadata
        payload ← padded_payload
        pure (source_symbol (cd.new_source metadata payload)))
      else if ty == 0x34
      then parse_source_symbol_ack_frame
      else raise invalid_frame

  unfoldable pub is_zero_rtt : PacketType → Bool
  is_zero_rtt zero_rtt = true
  is_zero_rtt _ = false

  unfoldable pub is_short : PacketType → Bool
  is_short short = true
  is_short _ = false

  -- Which frames a packet of a type may carry.
  unfoldable pub allowed : PacketType → Frame cd → Bool
  unfolding is_zero_rtt is_short
  allowed pkt (padding len) = true
  allowed pkt (ping mtu_probe) = true
  allowed pkt (ack d r e) = not (is_zero_rtt pkt)
  allowed pkt (crypto d) = not (is_zero_rtt pkt)
  allowed pkt (connection_close e t r) = not (is_zero_rtt pkt)
  allowed pkt handshake_done = is_short pkt
  allowed pkt (new_token t) = is_short pkt
  allowed pkt (path_response d) = is_short pkt
  allowed pkt (retire_connection_id n) = is_short pkt
  allowed pkt _ = is_short pkt || is_zero_rtt pkt

  unfoldable pub from_bytes : PacketType → Parser (Frame cd)
  unfolding parse_body allowed
  from_bytes pkt = do
    frame_type ← varint_field
    frame ← parse_body frame_type
    (if allowed pkt frame then pure frame else raise invalid_packet)
