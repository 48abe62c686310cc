-- ===== src/Frame/Received.antt =====
-- What from_bytes of quiche/src/frame.rs makes of a frame that to_bytes wrote.
use quirl.Common.{ℕ, ◌≤◌, ◌≡◌, List, [], length, false, none}
use quirl.Common.Result.{ok}
use quirl.Stream.RangeBuf as Chunk
use quirl.Ranges.{RangeSet, iter}
use quirl.Frame.Padding.{Ends}
use quirl.Frame.{
  Coding, Frame, padding, ping, ack, crypto, new_token, stream, repair, source_symbol_header,
  source_symbol, source_symbol_ack,
}

module _ (cd : Coding) where
  -- The same frame, but for what the wire format does not tell: the size of a probe, how a set keeps
  -- its ranges, and which vector the bytes stand in.
  abbrev pub Received : Frame cd → Frame cd → Type 0
  Received (ping mtu_probe) g = g ≡ ping none
  Received (ack ack_delay ranges ecn_counts) g =
      (ranges' : RangeSet) × (g ≡ ack ack_delay ranges' ecn_counts) × (iter ranges' ≡ iter ranges)
  Received (crypto d) g = g ≡ crypto (Chunk.from (Chunk.deref d) (Chunk.off d) false)
  Received (stream stream_id d) g =
      g ≡ stream stream_id (Chunk.from (Chunk.deref d) (Chunk.off d) d.fin)
  Received (source_symbol_ack ranges) g =
      (ranges' : RangeSet) × (g ≡ source_symbol_ack ranges') × (iter ranges' ≡ iter ranges)
  Received frame g = g ≡ frame

  -- What follows a frame that can be read back: a run of padding has an end, a token is not empty,
  -- and a repair symbol takes what is left of the packet. A source symbol is not read back alone.
  abbrev pub Readable : List ℕ → Frame cd → Type 0
  Readable rest (padding len) = (1 ≤ len) × Ends rest
  Readable rest (new_token token) = 1 ≤ length token
  Readable rest (repair symbol) =
      (rest ≡ [])
      × (cd.read_repair_symbol (cd.repair_get symbol) ≡ ok (length (cd.repair_get symbol), symbol))
  Readable rest (source_symbol_header metadata recovered) = ⊥
  Readable rest (source_symbol symbol) = ⊥
  Readable rest frame = Unit {0}
