-- ===== src/Frame.antt =====
-- quiche/src/frame.rs: the frames, how they are parsed from a packet's payload and written to it.
-- What the coding library of the FEC does with repair and source symbols is a parameter.
use quirl.Common.{ℕ, List, [], Bool, true, false, Option, none, some}
use quirl.Common.Result.{Result, ok, err, panic}
use quirl.Common.Exec.{Exec}
use quirl.Octets.{Octets, BufferTooShortError, buffer_too_short}
use quirl.Stream.RangeBuf.{RangeBuf}
use quirl.Ranges.{RangeSet}
pub mod Parse
pub mod Print
pub mod Size
pub mod Format
pub mod Writes
pub mod Written
pub mod WireLen
pub mod Reads
pub mod AckRanges
pub mod Padding
pub mod Received
pub mod Bodies
pub mod Parsed
pub mod RoundTrip
pub mod SourceSymbol
mod Tests

-- The variants of `Error` that this file raises; a decoder's error carries its number.
pub data Error : Type 0 where
  buffer_short invalid_frame invalid_packet : Error
  fec_decoder_error : ℕ → Error

-- `packet::Type`
pub data PacketType : Type 0 where
  initial retry handshake zero_rtt version_negotiation short : PacketType

-- The coding library: repair symbols and source symbols with their bytes, and the decoder's size of
-- a symbol and its two readers, which take the payload and tell how much of it they read.
pub record Coding : Type 1 where
  pub RepairSymbol : Type 0
  pub repair_get : RepairSymbol → List ℕ
  pub repair_wire_len : RepairSymbol → ℕ
  pub Metadata : Type 0
  pub metadata_bytes : Metadata → List ℕ
  pub SourceSymbol : Type 0
  pub new_source : Metadata → List ℕ → SourceSymbol
  pub source_metadata : SourceSymbol → Metadata
  pub source_get : SourceSymbol → List ℕ
  pub symbol_size : ℕ
  pub read_repair_symbol : List ℕ → Result ℕ (ℕ × RepairSymbol)
  pub read_source_symbol_metadata : List ℕ → Result ℕ (ℕ × Metadata)

pub record EcnCounts : Type 0 where
  pub ect0_count : ℕ
  pub ect1_count : ℕ
  pub ecn_ce_count : ℕ

module _ (cd : Coding) where
  pub data Frame : Type 0 where
    padding : (len : ℕ) → Frame
    ping : (mtu_probe : Option ℕ) → Frame
    ack : (ack_delay : ℕ) (ranges : RangeSet) (ecn_counts : Option EcnCounts) → Frame
    reset_stream : (stream_id error_code final_size : ℕ) → Frame
    stop_sending : (stream_id error_code : ℕ) → Frame
    crypto : RangeBuf → Frame
    crypto_header : (offset length : ℕ) → Frame
    new_token : (token : List ℕ) → Frame
    stream : (stream_id : ℕ) → RangeBuf → Frame
    stream_header : (stream_id offset length : ℕ) (fin : Bool) → Frame
    max_data : (max : ℕ) → Frame
    max_stream_data : (stream_id max : ℕ) → Frame
    max_streams_bidi : (max : ℕ) → Frame
    max_streams_uni : (max : ℕ) → Frame
    data_blocked : (limit : ℕ) → Frame
    stream_data_blocked : (stream_id limit : ℕ) → Frame
    streams_blocked_bidi : (limit : ℕ) → Frame
    streams_blocked_uni : (limit : ℕ) → Frame
    new_connection_id :
        (seq_num retire_prior_to : ℕ) (conn_id : List ℕ) (reset_token : List ℕ) → Frame
    retire_connection_id : (seq_num : ℕ) → Frame
    path_challenge : List ℕ → Frame
    path_response : List ℕ → Frame
    connection_close : (error_code frame_type : ℕ) (reason : List ℕ) → Frame
    application_close : (error_code : ℕ) (reason : List ℕ) → Frame
    handshake_done : Frame
    datagram : List ℕ → Frame
    datagram_header : (length : ℕ) → Frame
    repair : cd.RepairSymbol → Frame
    source_symbol_header : (metadata : cd.Metadata) (recovered : Bool) → Frame
    source_symbol : cd.SourceSymbol → Frame
    source_symbol_ack : (ranges : RangeSet) → Frame

-- `?` on a method of the buffer: its error becomes one of this file.
unfoldable pub convert :
    {A : Type 0} → Result BufferTooShortError A × Octets → Result Error A × Octets
convert (ok a, b) = (ok a, b)
convert (err buffer_too_short, b) = (err buffer_short, b)
convert (panic, b) = (panic, b)

abbrev pub io : {A : Type 0} → Exec Octets BufferTooShortError A → Exec Octets Error A
io m b = convert (m b)
