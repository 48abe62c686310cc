-- ===== src/Stream/Unsent.antt =====
-- SendBuf of quiche/src/stream/send_buf.rs: what is asked of a state.
use quirl.Stream.SendBuf.{SendBuf, off_front, new}
use quirl.Stream.Chain.{Chain, total, AllEmpty, front_of-le}
use quirl.Common.{ℕ, ◌≤◌, arith, length, take}

-- The buffers follow one another up to the end of the stream; the length is at least
-- the number of bytes to be sent;
-- before the position nothing is to be sent; and the end is within the limit of the peer.
pub record IsValid (s : SendBuf) : Type 0 where
  pub chain : Chain s.bufs s.off
  pub counted : total s.bufs ≤ s.len
  pub inside : s.pos ≤ length s.bufs
  pub sent : AllEmpty (take s.pos s.bufs)
  pub limited : s.off ≤ s.max_data
  pub emitted : s.emit_off ≤ s.off

pub off_front-le : (s : SendBuf) → IsValid s → off_front s ≤ s.off
unfolding off_front
off_front-le s v = front_of-le s.bufs s.pos s.off v.chain

pub new-IsValid : (max_data : ℕ) → IsValid (new max_data)
unfolding new
new-IsValid max_data = record {
  chain = tt;
  counted = omega arith;
  inside = omega arith;
  sent = tt;
  limited = omega arith;
  emitted = omega arith;
}
