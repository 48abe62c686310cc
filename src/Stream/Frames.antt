-- ===== src/Stream/Frames.antt =====
-- The STREAM frames that SendBuf of quiche/src/stream gives, and what holds of them and of the sender.
use quirl.Stream.RangeBuf.{RangeBuf, deref}
use quirl.Stream.RangeBuf as Chunk
use quirl.Stream.SendBuf.{
  SendBuf, ack_off, off_front, past_final, is_at, final_size, stream_stopped,
}
use quirl.Stream.SendBuf as Send
use quirl.Stream.Split.{from-IsValid, take-all, take-append_short}
use quirl.Stream.Halves.{Fresh}
use quirl.Stream.Bytes.{has, byte}
use quirl.Stream.Chain.{content}
use quirl.Stream.Unsent
use quirl.Stream.Emit.{Emitted, emit-Emitted}
use quirl.Stream.Content.{Agree, Agree-append}
use quirl.Stream.Delivery.{Link, frame}
use quirl.Common.{
  ℕ, ◌+◌, ◌-◌, ◌≤◌, ◌<◌, ◌≡◌, refl, sym, ap, ◌∙◌, arith, List, [], ◌∷◌, ◌++◌, length, take, drop,
  get_elem?, All, Bool, true, Option, none, some,
}

-- A frame that carries bytes of the stream, at their places.
pub record Carries (bytes : List ℕ) (buf : RangeBuf) : Type 0 where
  pub fresh : Fresh buf
  pub agree : (o : ℕ) → has buf o ≡ true → Agree bytes o (byte buf o)

-- A final size that is known stays.
unfoldable pub FinKept : Option ℕ → Option ℕ → Type 0
FinKept old new = (f : ℕ) → old ≡ some f → new ≡ some f

-- A frame that ends the stream ends at its final size.
abbrev pub Ends : Option ℕ → RangeBuf → Type 0
Ends fin_off buf = buf.fin ≡ true → fin_off ≡ some (Chunk.max_off buf)

-- The sender's half, and the frames.
pub record Sends (l : Link) : Type 0 where
  pub valid : Unsent.IsValid l.sender
  pub size : l.sender.off ≡ length l.written
  pub acked : ack_off l.sender ≤ l.sender.off
  pub held : (o : ℕ) → Agree l.written o (content l.sender.bufs o)
  pub frames : All (Carries l.written) l.flight
  pub ended : (f : ℕ) → l.sender.fin_off ≡ some f → f ≡ l.sender.off
  pub ends : All (Ends l.sender.fin_off) l.flight

pub Carries-append :
    (bytes more : List ℕ) (bufs : List RangeBuf)
    → All (Carries bytes) bufs
    → All (Carries (bytes ++ more)) bufs
Carries-append bytes more [] c = tt
Carries-append bytes more (b ∷ bufs) (c, cs) = (
  record { fresh = c.fresh; agree = λ o h. Agree-append bytes more o (byte b o) (c.agree o h) },
  Carries-append bytes more bufs cs,
)

pub same-FinKept : (old new : Option ℕ) → new ≡ old → FinKept old new
unfolding FinKept
same-FinKept old new e f q = e ∙ q

pub Ends-kept :
    (old new : Option ℕ) (bufs : List RangeBuf)
    → FinKept old new
    → All (Ends old) bufs
    → All (Ends new) bufs
unfolding FinKept
Ends-kept old new [] k a = tt
Ends-kept old new (b ∷ bufs) k (a, rest) =
    (λ fin. k (Chunk.max_off b) (a fin), Ends-kept old new bufs k rest)

from-max_off :
    (w : List ℕ) (off : ℕ) (fin : Bool) → Chunk.max_off (Chunk.from w off fin) ≡ off + length w
unfolding Chunk.from Chunk.off Chunk.len Chunk.max_off
from-max_off w off fin = omega arith

is_at-some : (o : Option ℕ) (n : ℕ) → is_at o n ≡ true → o ≡ some n
is_at-some none n h = cc
is_at-some (some m) n h = ground arith

from-has :
    (w : List ℕ) (off : ℕ) (fin : Bool) (o : ℕ)
    → has (Chunk.from w off fin) o ≡ true
    → (off ≤ o) × (o < off + length w)
unfolding Chunk.from Chunk.off Chunk.len Chunk.max_off
from-has w off fin o h = ground arith

from-byte :
    (w : List ℕ) (off : ℕ) (fin : Bool) (o : ℕ)
    → byte (Chunk.from w off fin) o ≡ get_elem? w (o - off)
unfolding Chunk.from Chunk.off deref
from-byte w off fin o =
    ap (get_elem? (take (0 + length w - 0) w)) {x = o - (off - 0 + 0)} {y = o - off} (omega arith)
    ∙ ap (λ l. get_elem? l (o - off)) (take-all (0 + length w - 0) w (omega arith))

pub given :
    (out : List ℕ) (s : SendBuf) (w : List ℕ)
    → Emitted out s w
    → take (Send.emit out s).0.0 (Send.emit out s).1 ≡ w
given out s w e =
    ap (λ n. take n (Send.emit out s).1) e.amount
    ∙ ap (take (length w)) e.shape
    ∙ take-append_short (length w) w (drop (length w) out) (omega arith)
    ∙ take-all (length w) w (omega arith)

-- A frame of what emit gives.
pub frame-Carries :
    (bytes out : List ℕ) (s : SendBuf)
    → Unsent.IsValid s
    → ((o : ℕ) → Agree bytes o (content s.bufs o))
    → Carries bytes (frame out s)
frame-Carries bytes out s v held =
    let d = emit-Emitted out s v in
    rw (given out s d.0 d.1) (record {
      fresh = record {
        valid = from-IsValid d.0 (off_front s) (Send.emit out s).0.1;
        untouched = unfold Chunk.from in refl;
      };
      agree = λ o h c q. carried d.0 d.1 o h c q;
    })
  where
    carried :
        (w : List ℕ)
        → Emitted out s w
        → (o : ℕ) → has (Chunk.from w (off_front s) (Send.emit out s).0.1) o ≡ true
        → Agree bytes o (byte (Chunk.from w (off_front s) (Send.emit out s).0.1) o)
    carried w e o h c q =
        let inside = from-has w (off_front s) (Send.emit out s).0.1 o h in
        held o c (
          ap (content s.bufs) {x = o} {y = off_front s + (o - off_front s)} (omega (arith, inside))
          ∙ sym (e.bytes (o - off_front s) (omega (arith, inside)))
          ∙ sym (from-byte w (off_front s) (Send.emit out s).0.1 o)
          ∙ q)

pub frame-Ends :
    (out : List ℕ) (s : SendBuf) → Unsent.IsValid s → Ends (Send.emit out s).2.fin_off (frame out s)
frame-Ends out s v =
    let d = emit-Emitted out s v in
    rw (given out s d.0 d.1) (λ fin.
      d.1.fin_off
      ∙ is_at-some s.fin_off (off_front s + length d.0) (sym d.1.fin ∙ (unfold Chunk.from in fin))
      ∙ ap some (sym (from-max_off d.0 (off_front s) (Send.emit out s).0.1)))
