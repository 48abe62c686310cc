-- ===== src/Stream/Arrived.antt =====
-- RecvBuf of quiche/src/stream at the other end of a stream: what holds of it after each step.
use quirl.Stream.RangeBuf.{RangeBuf, deref}
use quirl.Stream.RangeBuf as Chunk
use quirl.Stream.SendBuf.{SendBuf}
use quirl.Stream.RecvBuf.{RecvBuf}
use quirl.Stream.RecvBuf as Recv
use quirl.FlowControl
use quirl.FlowControl.{FlowControl, max_data_next}
use quirl.Stream.Write
use quirl.Stream.Write.{breaks_size}
use quirl.Stream.Apart.{Ordered}
use quirl.Stream.Bytes.{has, byte, byte_at, covers, get_elem?-append_left, get_elem?-append_right}
use quirl.Stream.Union.{over, write-eq-over}
use quirl.Stream.Accept.{Accepted, write_lem}
use quirl.Stream.Accept
use quirl.Stream.Read.{AllValid}
use quirl.Stream.Keeps.{write-Keeps}
use quirl.Stream.Left.{answered, Handed, emit-Handed}
use quirl.Stream.Queue.{sized}
use quirl.Stream.Content.{Agree, Agree-append, lt-length}
use quirl.Stream.Delivery.{Link, after_read}
use mathlib.Core.Path.{subst}
use quirl.Common.{
  ℕ, zero, suc, ◌+◌, ◌-◌, ◌≤◌, ◌≡◌, refl, sym, ap, ◌∙◌, arith, List, [], ◌∷◌, ◌++◌, length,
  length-append, take, get_elem?, All, Bool, true, false, ltb, if◌then◌else◌, if_elim, Bool-cases,
  le_or_lt, none, some, inl, inr,
}
use quirl.Common.Result.{Result, err}
use quirl.Stream.Frames.{FinKept, Ends, Carries, Sends}

-- The receiver's half.
pub record Receives (l : Link) : Type 0 where
  pub valid : Accept.IsValid l.receiver
  pub chunks : AllValid l.receiver.chunks
  pub ordered : Ordered 0 l.receiver.chunks
  pub drain : l.receiver.drain ≡ false
  pub error : l.receiver.error ≡ none
  pub arrived : (o : ℕ) → l.receiver.off ≤ o → Agree l.written o (byte_at l.receiver.chunks o)
  pub place : length l.read ≡ l.receiver.off
  pub known : FinKept l.receiver.fin_off l.sender.fin_off
  pub prefix : (k c : ℕ) → get_elem? l.read k ≡ some c → get_elem? l.written k ≡ some c

pub All-get :
    (P : RangeBuf → Type 0) (bufs : List RangeBuf) (i : ℕ) (b : RangeBuf)
    → All P bufs
    → get_elem? bufs i ≡ some b
    → P b
All-get P [] i b a e = cc
All-get P (x ∷ bufs) zero b a e = subst P (same e) a.0
  where
    same : some x ≡ some b → x ≡ b
    same e = cc
All-get P (x ∷ bufs) (suc i) b a e = All-get P bufs i b a.1 e

-- More that is written behind it does not touch what was received.
pub Receives-append :
    (l : Link) (more : List ℕ) (s : SendBuf)
    → FinKept l.sender.fin_off s.fin_off
    → Receives l
    → Receives (record l { written = l.written ++ more; sender = s })
unfolding FinKept
Receives-append l more s z r = record {
  valid = r.valid;
  chunks = r.chunks;
  ordered = r.ordered;
  drain = r.drain;
  error = r.error;
  arrived = λ o h. Agree-append l.written more o (byte_at l.receiver.chunks o) (r.arrived o h);
  known = λ f e. z f (r.known f e);
  place = r.place;
  prefix = λ k c e. Agree-append l.written more k (get_elem? l.read k) (λ c e. r.prefix k c e) c e;
}

pub other_half :
    (l : Link) (s : SendBuf) (flight : List RangeBuf)
    → FinKept l.sender.fin_off s.fin_off
    → Receives l
    → Receives (record l { sender = s; flight = flight })
unfolding FinKept
other_half l s flight z r = record {
  valid = r.valid;
  chunks = r.chunks;
  ordered = r.ordered;
  drain = r.drain;
  error = r.error;
  arrived = r.arrived;
  known = λ f e. z f (r.known f e);
  place = r.place;
  prefix = r.prefix;
}

pub same_half :
    (l : Link) (s : RecvBuf) (read : List ℕ)
    → Sends l
    → Sends (record l { receiver = s; read = read })
same_half l s read p = record {
  valid = p.valid;
  size = p.size;
  acked = p.acked;
  held = p.held;
  frames = p.frames;
  ended = p.ended;
  ends = p.ends;
}

pub deliver-Receives :
    (l : Link) (buf : RangeBuf)
    → Carries l.written buf
    → Ends l.sender.fin_off buf
    → Receives l
    → Receives (record l { receiver = (Write.write buf l.receiver).1 })
unfolding FinKept
deliver-Receives l buf c z r = elim (Bool-cases (ltb (Recv.max_data s) (Chunk.max_off buf))) [
  | inl a ↦ unchanged Recv.flow_control (rw a at (write_lem buf s c.fresh r.valid))
  | inr a ↦ elim (Bool-cases (breaks_size buf s)) [
    | inl b ↦ unchanged Recv.final_size (rw (a, b) at (write_lem buf s c.fresh r.valid))
    | inr b ↦ taken (ground arith) b (rw (a, b) at (write_lem buf s c.fresh r.valid))
  ]
]
  where
    s : RecvBuf
    s = l.receiver

    After : Result Recv.Error (Unit {0}) × RecvBuf → Type 0
    After w = Receives (record l { receiver = w.1 })

    unchanged : (e : Recv.Error) → Write.write buf s ≡ (err e, s) → After (Write.write buf s)
    unchanged e q = subst After (sym q) r

    placed : (x : Bool) (o : ℕ) → has buf o ≡ x → Agree l.written o (if x then byte buf o else none)
    placed true o h = c.agree o h
    placed false o h = λ d e. cc

    joined : (o : ℕ) → s.off ≤ o → Agree l.written o (over s.chunks o (has buf o) (byte buf o))
    joined o h =
        if_elim (Agree l.written o) (covers s.chunks o) (λ _. r.arrived o h)
          (λ _. placed (has buf o) o refl)

    sizes :
        (b : Bool)
        → buf.fin ≡ b
        → (f : ℕ) → (if b then some (Chunk.max_off buf) else s.fin_off) ≡ some f
        → l.sender.fin_off ≡ some f
    sizes true h f e = z h ∙ e
    sizes false h f e = r.known f e

    taken :
        Chunk.max_off buf ≤ Recv.max_data s
        → breaks_size buf s ≡ false
        → Accepted buf s (Write.write buf s)
        → After (Write.write buf s)
    taken room sized a =
        let same_off : (Write.write buf s).1.off ≡ s.off = ap (λ w. w.1.off) a.1 ∙ a.3 in
        let k = write-Keeps buf s c.fresh.valid in
        let at = write-eq-over buf s c.fresh r.valid r.ordered r.drain room sized in
        record {
          valid =
              subst (λ (w : Result Recv.Error (Unit {0}) × RecvBuf). Accept.IsValid w.1) (sym a.1)
                a.2;
          chunks = k.valid r.chunks;
          ordered = (at s.off (omega arith)).1;
          drain = k.drain ∙ r.drain;
          error = k.error ∙ r.error;
          arrived = λ o h d e.
              joined o (omega (arith, same_off)) d (sym (at o (omega (arith, same_off))).2 ∙ e);
          known = λ f e. sizes buf.fin refl f (sym (ap (λ w. w.1.fin_off) a.1 ∙ a.5) ∙ e);
          place = r.place ∙ sym same_off;
          prefix = r.prefix;
        }

pub read-Receives : (out : List ℕ) (l : Link) → Receives l → Receives (after_read out l)
unfolding FinKept
read-Receives out l r =
    let (w, h) = emit-Handed out l.receiver r.valid r.chunks r.ordered r.error in handed w h
  where
    handed :
        (w : List ℕ) → Handed l.receiver w (Recv.emit out l.receiver) → Receives (after_read out l)
    handed w h = record {
      valid = h.valid;
      chunks = h.chunks;
      ordered = h.ordered;
      drain = h.drain ∙ r.drain;
      error = h.error ∙ r.error;
      arrived = λ o k c e. r.arrived o (omega (arith, k, h.off)) c (sym (h.same o k) ∙ e);
      known = λ f e. r.known f (sym h.fin_off ∙ e);
      place = omega (
        arith,
        length-append l.read
            (take (answered (Recv.emit out l.receiver).0) (Recv.emit out l.receiver).1),
        ap length h.given,
        h.off,
        r.place,
      );
      prefix = λ k c e. extended k c (ap (λ g. get_elem? (l.read ++ g) k) (sym h.given) ∙ e);
    }
      where
        extended : (k c : ℕ) → get_elem? (l.read ++ w) k ≡ some c → get_elem? l.written k ≡ some c
        extended k c e = elim (le_or_lt (length l.read) k) [
          | inr old ↦ r.prefix k c (sym (get_elem?-append_left l.read w k old) ∙ e)
          | inl new ↦
              let i : get_elem? w (k - length l.read) ≡ some c =
                sym (get_elem?-append_right l.read w (k - length l.read))
                ∙ ap (get_elem? (l.read ++ w)) {x = length l.read + (k - length l.read)} {y = k}
                    (omega arith)
                ∙ e in
              r.arrived k (omega (arith, r.place)) c (
                ap (byte_at l.receiver.chunks) {x = k} {y = l.receiver.off + (k - length l.read)}
                  (omega (arith, r.place))
                ∙ sym (h.bytes (k - length l.read) (lt-length w (k - length l.read) {c = c} i))
                ∙ i)
        ]

-- The receiver's limit.
tuned_limit :
    (now rtt : ℕ) (fc : FlowControl)
    → (FlowControl.autotune_window now rtt fc).max_data ≡ fc.max_data
unfolding FlowControl.autotune_window
tuned_limit now rtt fc = ground arith

granted-Receives :
    (l : Link) (fc : FlowControl)
    → Recv.max_data l.receiver ≤ fc.max_data
    → Receives l
    → Receives (record l { receiver = record l.receiver { flow_control = fc } })
unfolding Recv.max_data
granted-Receives l fc h r = record {
  valid = record {
    read_part = r.valid.read_part;
    within = r.valid.within;
    known = r.valid.known;
    allowed = omega (arith, h, r.valid.allowed);
  };
  chunks = r.chunks;
  ordered = r.ordered;
  drain = r.drain;
  error = r.error;
  arrived = r.arrived;
  known = r.known;
  place = r.place;
  prefix = r.prefix;
}

pub tuned-Receives :
    (now rtt : ℕ) (l : Link)
    → Receives l
    → Receives (record l { receiver = Recv.autotune_window now rtt l.receiver })
unfolding Recv.autotune_window Recv.max_data
tuned-Receives now rtt l r =
    granted-Receives l (FlowControl.autotune_window now rtt l.receiver.flow_control)
      (omega (arith, tuned_limit now rtt l.receiver.flow_control)) r

pub extended-Receives :
    (now : ℕ) (l : Link)
    → Recv.max_data l.receiver ≤ max_data_next l.receiver.flow_control
    → Receives l
    → Receives (record l { receiver = Recv.update_max_data now l.receiver })
unfolding Recv.update_max_data FlowControl.update_max_data
extended-Receives now l h r =
    granted-Receives l (FlowControl.update_max_data now l.receiver.flow_control) h r
