-- ===== src/Stream/Delivered.antt =====
-- SendBuf and RecvBuf of quiche/src/stream joined: what holds over every order of the calls and the frames.
use quirl.Stream.SendBuf.{SendBuf, ack_off, off_front, past_final, final_size, stream_stopped}
use quirl.Stream.SendBuf as Send
use quirl.Stream.RecvBuf.{RecvBuf}
use quirl.Stream.RecvBuf as Recv
use quirl.Stream.Write
use quirl.Stream.Write.{breaks_size}
use quirl.Stream.Split.{take-all}
use quirl.Stream.Left.{answered}
use quirl.Stream.Unsent
use quirl.Stream.Emit.{emit-Emitted}
use quirl.Stream.Content.{ack_and_drop-content, retransmit-same}
use quirl.Stream.Delivery.{Link, start, accepted, frame, Step, Reach, here, next}
use quirl.Ranges
use quirl.Common.{
  ℕ, suc, ◌≡◌, refl, sym, ap, ◌∙◌, arith, List, [], ◌∷◌, ◌++◌, length, take, get_elem?, true, false,
  ◌==◌, Option, none, some,
}
use quirl.Stream.Frames.{FinKept, same-FinKept, Ends, Carries, Sends}
use quirl.Stream.Carried.{emit-Sends, lost-Sends, acknowledged-Sends, granted-Sends, write-Sends}
use quirl.Stream.Arrived.{
  Receives, All-get, Receives-append, other_half, same_half, tuned-Receives, extended-Receives,
  deliver-Receives, read-Receives,
}

-- Both halves.
pub Delivers : Link → Type 0
Delivers l = Sends l × Receives l

Step-Delivers : {l m : Link} → Step l m → Delivers l → Delivers m
unfolding Delivers
Step-Delivers {l = l} (Step.write bytes fin) (p, r) =
    let (q, z) = write-Sends bytes fin l p in
    (
      q,
      Receives-append l (take (accepted (Send.write bytes fin l.sender).0) bytes)
          (Send.write bytes fin l.sender).1 z r,
    )
Step-Delivers {l = l} (Step.emit out) (p, r) = (
  emit-Sends out l p,
  other_half l (Send.emit out l.sender).2 (frame out l.sender ∷ l.flight)
      (same-FinKept l.sender.fin_off (Send.emit out l.sender).2.fin_off
        (emit-Emitted out l.sender p.valid).1.fin_off)
      r,
)
Step-Delivers {l = l} (Step.deliver i buf e) (p, r) = (
  same_half l (Write.write buf l.receiver).1 l.read p,
  deliver-Receives l buf (All-get (Carries l.written) l.flight i buf p.frames e)
      (All-get (Ends l.sender.fin_off) l.flight i buf p.ends e) r,
)
Step-Delivers {l = l} (Step.lost off len t e) (p, r) = (
  lost-Sends off len l t p e,
  other_half l t l.flight
      (same-FinKept l.sender.fin_off t.fin_off (retransmit-same off len l.sender t e).2) r,
)
Step-Delivers {l = l} (Step.acknowledged off len t e h) (p, r) = (
  acknowledged-Sends off len l t p e h,
  other_half l t l.flight
      (same-FinKept l.sender.fin_off t.fin_off
        (ack_and_drop-content off len l.sender t p.valid e).1)
      r,
)
Step-Delivers {l = l} (Step.granted max_data) (p, r) = (
  granted-Sends max_data l p,
  other_half l (Send.update_max_data max_data l.sender) l.flight
      (unfold Send.update_max_data in same-FinKept l.sender.fin_off l.sender.fin_off refl) r,
)
Step-Delivers {l = l} (Step.read out) (p, r) = (
  same_half l (Recv.emit out l.receiver).2
      (l.read ++ take (answered (Recv.emit out l.receiver).0) (Recv.emit out l.receiver).1) p,
  read-Receives out l r,
)
Step-Delivers {l = l} (Step.tuned now rtt) (p, r) =
    (same_half l (Recv.autotune_window now rtt l.receiver) l.read p, tuned-Receives now rtt l r)
Step-Delivers {l = l} (Step.extended now h) (p, r) =
    (same_half l (Recv.update_max_data now l.receiver) l.read p, extended-Receives now l h r)

start-Delivers : (max_data window max_window : ℕ) → Delivers (start max_data window max_window)
unfolding Delivers Send.new Recv.new ack_off Send.first_end Ranges.iter Recv.max_data FinKept
start-Delivers max_data window max_window = (
  record {
    valid = Unsent.new-IsValid max_data;
    size = refl;
    acked = omega arith;
    held = λ o c e. cc;
    frames = tt;
    ended = λ f e. cc;
    ends = tt;
  },
  record {
    valid = record { read_part = omega arith; within = tt; known = tt; allowed = omega arith };
    chunks = tt;
    ordered = tt;
    drain = refl;
    error = refl;
    arrived = λ o h c e. cc;
    known = λ f e. e;
    place = refl;
    prefix = λ k c e. cc;
  },
)

Reach-Delivers :
    (max_data window max_window : ℕ) {l : Link}
    → Reach (start max_data window max_window) l
    → Delivers l
Reach-Delivers max_data window max_window here = start-Delivers max_data window max_window
Reach-Delivers max_data window max_window (next r st) =
    Step-Delivers st (Reach-Delivers max_data window max_window r)

take-prefix :
    (xs ys : List ℕ)
    → ((k c : ℕ) → get_elem? xs k ≡ some c → get_elem? ys k ≡ some c)
    → xs ≡ take (length xs) ys
take-prefix [] ys h = refl
take-prefix (x ∷ xs) [] h = absurd (nothing (h 0 x refl))
  where
    nothing : none ≡ some x → ⊥
    nothing e = cc
take-prefix (x ∷ xs) (y ∷ ys) h =
    rw (sym (take-prefix xs ys (λ k c e. h (suc k) c e)), heads (h 0 x refl)) refl
  where
    heads : some y ≡ some x → y ≡ x
    heads e = cc

-- Where the receiver knows that it has read up to the final size, that is the end of what was written.
all_read :
    (l : Link)
    → Sends l
    → Receives l
    → Recv.is_fin l.receiver ≡ true
    → length l.read ≡ length l.written
unfolding Recv.is_fin FinKept
all_read l p r e = by_size l.receiver.fin_off refl e
  where
    by_size :
        (o : Option ℕ)
        → l.receiver.fin_off ≡ o
        → (elim o [ none ↦ false | some f ↦ f == l.receiver.off ]) ≡ true
        → length l.read ≡ length l.written
    by_size none q h = cc
    by_size (some f) q h = ground (arith, p.ended f (r.known f q), p.size, r.place)

-- Two ends of a stream that is neither reset nor shut down, after any calls, in any order: writes,
-- frames that are sent, lost, delivered late, more than once or never, acknowledgments of no more than
-- was written, reads, and limits that grow at either end. What the application at one end was given is
-- what the one at the other end wrote, from its beginning on, each byte once and in order; as many
-- bytes count as read and as written; and where the receiver tells that the stream ended, it has given
-- all that was written.
pub Reach-prefix :
    (max_data window max_window : ℕ) {l : Link}
    → Reach (start max_data window max_window) l
    → (l.read ≡ take (length l.read) l.written)
      × (length l.read ≡ l.receiver.off)
      × (length l.written ≡ l.sender.off)
      × (Recv.is_fin l.receiver ≡ true → l.read ≡ l.written)
unfolding Delivers
Reach-prefix max_data window max_window {l} r =
    let (p, q) = Reach-Delivers max_data window max_window r in
    let given = take-prefix l.read l.written q.prefix in
    (
      given,
      q.place,
      sym p.size,
      λ e.
          given
          ∙ ap (λ n. take n l.written) (all_read l p q e)
          ∙ take-all (length l.written) l.written (omega arith),
    )
