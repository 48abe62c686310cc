-- ===== src/Lib.antt =====
-- quirl, a QUIC library with forward erasure correction: the parts of it that carry the protocol's
-- own logic, modelled function by function, and what they guarantee.
--
-- The parts and where they stand (paths from the repository's root):
--   Octets        octets/src/lib.rs: the byte buffers with a cursor, through which every packet and
--                 frame is read and written. Octets and OctetsMut are one record of the bytes and the
--                 offset; get_u8 .. put_varint_with_len are get_u .. put_varint_with_len.
--   PacketNumber  quiche/src/packet.rs: pkt_num_len, encode_pkt_num (which writes through Octets),
--                 decode_pkt_num, and PktNumWindow, the memory of the numbers received.
--   Ranges        quiche/src/ranges.rs: RangeSet, the sets of packet numbers that are acknowledged and
--                 of stream offsets, as a sorted vector (InlineRangeSet) or a map (BTreeRangeSet).
--   FlowControl   quiche/src/flowcontrol.rs: FlowControl, the limit that a stream or connection grants;
--                 Owner has the calls that the connection makes of it (quiche/src/lib.rs).
--   Datagram      quiche/src/dgram.rs: DatagramQueue, the payloads that wait on either side; History
--                 joins its calls with the lists of what was taken in and given out.
--   Fec           quiche/src/fec: the schedulers of repair symbols, Background
--                 (background_fec_scheduler.rs), Bursts (burst_protecting_fec_scheduler.rs) and
--                 Scheduler (fec_scheduler.rs), which passes the events on; the connection asks
--                 should_send_repair before it builds a packet and reports each source and repair
--                 symbol that is sent, acknowledged or lost.
--   Stream        quiche/src/stream: RangeBuf (mod.rs), a part of a shared vector of bytes, and
--                 RecvBuf (recv_buf.rs), the chunks that arrived: write cuts what is there already off
--                 and stores the rest, emit gives the application the next bytes and tells
--                 FlowControl, and reset drops them. SendBuf (send_buf.rs) has the data for the peer:
--                 write queues it in buffers of send_buffer_size, emit copies what is to be sent into a
--                 packet, retransmit winds buffers back that were lost, ack_and_drop drops what the
--                 peer has acknowledged, which a RangeSet of Ranges keeps, and reset ends the stream.
--                 Chain and Unsent say what is asked of its state, and Sender has its methods as steps.
--                 Delivery joins the two ends as the connection (quiche/src/lib.rs, send_single and the
--                 STREAM frames of process_frame) does: a step is a call of a method or the arrival of any
--                 frame that was sent. Frames, Carried and Arrived have the invariant, and Delivered what
--                 follows from it. The frames stand for themselves there; Frame has their way over the
--                 wire.
--   Frame         quiche/src/frame.rs: the frames that packets carry, FEC frames among them; from_bytes
--                 (Parse) and to_bytes (Print) read and write them through Octets, with RangeSet for
--                 what is acknowledged and RangeBuf for stream data, and wire_len (Size) is what the
--                 connection asks before it writes one. Format is the wire format as pieces.
--   ConnectionIds quiche/src/cid.rs: ConnectionIdentifiers, the ids given to the peer and received from
--                 it; Entries has their collections and NewDcid the method for a received id. The
--                 connection calls it for the NEW_CONNECTION_ID and RETIRE_CONNECTION_ID frames.
--   Minmax        quiche/src/minmax.rs: Minmax, the minimum or maximum of a window of time.
--   Rtt           quiche/src/recovery/rtt.rs: RttStats, which keeps its minimum in a Minmax.
--   Hystart, Prr  quiche/src/recovery/congestion: hystart.rs and prr.rs, the end of slow start and the
--                 sending during recovery, which the congestion controllers call.
--   Pmtud         quiche/src/pmtud.rs: Pmtud, the search for the largest packet size.
--   Common        what the others share: tests on numbers, lists, results, and methods as functions
--                 of a state.
-- The file of a part has its records and operations; the files below it have the lemmas, by subject,
-- and Tests the concrete inputs.
--
-- How the code is written here. A struct is a record and a method a function that gives the new state
-- back; `?` and early returns are binds of Exec, whose state survives an error. A Rust panic (an
-- index out of range, an unwrap of nothing, a subtraction below 0 where it is written) is the result
-- `panic`, or `none` of an Option; a build that does not check for overflow wraps there instead.
-- Numbers are natural numbers: a shift, a cast or a put that keeps
-- the low bits is written `% 2 ^ w`, saturating and checked operations with their limit, and sums and
-- products of sizes do not wrap. Instants and durations are nanoseconds. A BTreeMap is a list sorted
-- by its keys.
--
-- Bounds and fuel. The loop of BTreeRangeSet::insert has one round more than there are entries; each
-- round but the last removes an entry, so that suffices. The length of a number in bits is counted
-- over 64 bits. Each round of the loop of RecvBuf::write takes a part of the new data and leaves
-- shorter ones, not empty and with fewer bytes together, so twice the bytes of the data and one are
-- rounds enough. The loop that joins PADDING frames reads a byte in each round, so the bytes left are
-- rounds enough. A round of the loop of SendBuf::emit that does not end it moves on by a buffer, so
-- there is at most one round more than there are buffers; the loop of retransmit runs over the indices
-- that there are at its start, as in the source, and the bytes of a write are the fuel for cutting
-- them. The subtractions of emit stop at 0 in the model; from a valid state none falls below 0.
-- All else is structural recursion.
--
-- Parameters, for code that is not in the repository: the products of a duration with 0.25 and 0.5
-- (div_f32) in Minmax, with what is asked of them; in Fec the floating-point estimate of the losses,
-- the encoder of the coding library, the environment variables and the clock, and the fields of the
-- connection and of the path that a scheduler reads; in Frame what the coding library makes of repair
-- and source symbols (Coding), with what is asked of it; in ConnectionIds the search by halves of the
-- standard library, with what is documented of it.
--
-- In Delivery neither end resets, stops or shuts down the stream, the peer acknowledges no more than
-- was written, and the receiver takes back nothing that it granted.
--
-- Not modelled: what frames are recorded as, the map of the streams and their priorities, paths, the
-- packet header and its protection, loss detection and the congestion controllers themselves, the
-- connection that drives all of them, HTTP/3 and QPACK; TLS and cryptography, which belong to other
-- libraries; qlog, the applications, the foreign interface and the fuzzers, which only record or call.
pub mod Common
pub mod ConnectionIds
pub mod Datagram
pub mod Fec
pub mod FlowControl
pub mod Frame
pub mod Hystart
pub mod Minmax
pub mod Octets
pub mod PacketNumber
pub mod Pmtud
pub mod Prr
pub mod Ranges
pub mod Rtt
pub mod Stream
