-- ===== src/Stream/Delivery.antt =====
-- A stream from one end to the other, SendBuf and RecvBuf of quiche/src/stream joined as the connection
-- (quiche/src/lib.rs) joins them: what emit gives, from the front of what is to be sent on, goes into a STREAM
-- frame, and the other end makes a RangeBuf of it and writes that.
use quirl.Stream.RangeBuf.{RangeBuf}
use quirl.Stream.RangeBuf as Chunk
use quirl.Stream.SendBuf.{SendBuf, off_front, ack_off}
use quirl.Stream.SendBuf as Send
use quirl.Stream.RecvBuf.{RecvBuf}
use quirl.Stream.RecvBuf as Recv
use quirl.FlowControl.{max_data_next}
use quirl.Stream.Write
use quirl.Stream.Left.{answered}
use quirl.Common.{ℕ, ◌≤◌, ◌≡◌, List, [], ◌∷◌, ◌++◌, get_elem?, take, Bool, some}
use quirl.Common.Result.{Result, ok, err, panic}

-- `written` is what the application at one end was told that it wrote, `read` what the one at the
-- other end was given. `flight` has every frame that was ever sent: the network delivers it any number
-- of times, in any order, or never.
pub record Link : Type 0 where
  pub written : List ℕ
  pub sender : SendBuf
  pub flight : List RangeBuf
  pub receiver : RecvBuf
  pub read : List ℕ

abbrev pub start : (max_data window max_window : ℕ) → Link
start max_data window max_window = record {
  written = [];
  sender = Send.new max_data;
  flight = [];
  receiver = Recv.new window max_window;
  read = [];
}

-- How many bytes a write says that it took.
abbrev pub accepted : Result Send.Error ℕ → ℕ
accepted (ok n) = n
accepted (err e) = 0
accepted panic = 0

abbrev pub after_write : List ℕ → Bool → Link → Link
after_write bytes fin l = record l {
  written = l.written ++ take (accepted (Send.write bytes fin l.sender).0) bytes;
  sender = (Send.write bytes fin l.sender).1;
}

abbrev pub frame : List ℕ → SendBuf → RangeBuf
frame out s =
    Chunk.from (take (Send.emit out s).0.0 (Send.emit out s).1) (off_front s) (Send.emit out s).0.1

abbrev pub after_emit : List ℕ → Link → Link
after_emit out l = record l {
  sender = (Send.emit out l.sender).2;
  flight = frame out l.sender ∷ l.flight;
}

abbrev pub after_read : List ℕ → Link → Link
after_read out l = record l {
  receiver = (Recv.emit out l.receiver).2;
  read = l.read ++ take (answered (Recv.emit out l.receiver).0) (Recv.emit out l.receiver).1;
}

-- An acknowledgment or a loss may be reported of any range, but the other end acknowledges no more
-- than was written, and the receiver takes back nothing that it granted.
pub data Step (l : Link) : Link → Type 0 where
  write : (bytes : List ℕ) (fin : Bool) → Step l (after_write bytes fin l)
  emit : (out : List ℕ) → Step l (after_emit out l)
  deliver :
      (i : ℕ) (buf : RangeBuf)
      → get_elem? l.flight i ≡ some buf
      → Step l (record l { receiver = (Write.write buf l.receiver).1 })
  lost :
      (off len : ℕ) (t : SendBuf)
      → Send.retransmit off len l.sender ≡ some t
      → Step l (record l { sender = t })
  acknowledged :
      (off len : ℕ) (t : SendBuf)
      → Send.ack_and_drop off len l.sender ≡ some t
      → ack_off t ≤ t.off
      → Step l (record l { sender = t })
  granted : (max_data : ℕ) → Step l (record l { sender = Send.update_max_data max_data l.sender })
  read : (out : List ℕ) → Step l (after_read out l)
  tuned : (now rtt : ℕ) → Step l (record l { receiver = Recv.autotune_window now rtt l.receiver })
  extended :
      (now : ℕ)
      → Recv.max_data l.receiver ≤ max_data_next l.receiver.flow_control
      → Step l (record l { receiver = Recv.update_max_data now l.receiver })

pub data Reach (l : Link) : Link → Type 0 where
  here : Reach l l
  next : {m n : Link} → Reach l m → Step m n → Reach l n
