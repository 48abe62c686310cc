-- ===== src/Stream/Carried.antt =====
-- SendBuf of quiche/src/stream with the frames in flight: what holds of them after each step.
use quirl.Stream.SendBuf.{
  SendBuf, ack_off, off_front, past_final, is_at, final_size, stream_stopped,
}
use quirl.Stream.SendBuf as Send
use quirl.Stream.Split.{take-nil, take-all}
use quirl.Stream.Chain.{content}
use quirl.Stream.Unsent
use quirl.Stream.Emit.{emit-Emitted}
use quirl.Stream.Pushes.{Pushed, Pushed-nothing}
use quirl.Stream.Queue.{unacked, sized, write-Pushed, empty-list, sized-IsValid}
use quirl.Stream.Resend.{retransmit_lem}
use quirl.Stream.Sender
use quirl.Stream.Content.{Pushed-Agree, ack_and_drop-content, retransmit-same}
use quirl.Stream.Delivery.{Link, accepted, after_write, after_emit}
use quirl.Ranges
use mathlib.Core.Path.{subst}
use quirl.Common.{
  ℕ, ◌+◌, ◌-◌, ◌≤◌, ◌≡◌, refl, sym, ap, ◌∙◌, min, arith, List, [], ◌++◌, length, length-append,
  length-take, take, Bool, true, false, leb, ◌&&◌, if◌then◌else◌, if_elim, le_or_lt, Option, none,
  some, inl, inr,
}
use quirl.Common.Result.{Result, err}
use quirl.Stream.Frames.{
  FinKept, Sends, same-FinKept, Ends-kept, Carries-append, frame-Carries, frame-Ends,
}

pub emit-Sends : (out : List ℕ) (l : Link) → Sends l → Sends (after_emit out l)
unfolding ack_off
emit-Sends out l p =
    let d = emit-Emitted out l.sender p.valid in
    record {
      valid = d.1.valid;
      size = d.1.off ∙ p.size;
      acked = omega (arith, ap (λ a. Send.first_end (Ranges.iter a)) d.1.acked, d.1.off, p.acked);
      held = λ o c e. p.held o c (sym (d.1.kept o) ∙ e);
      frames = (frame-Carries l.written out l.sender p.valid p.held, p.frames);
      ended = λ f q. p.ended f (sym d.1.fin_off ∙ q) ∙ sym d.1.off;
      ends = (
        frame-Ends out l.sender p.valid,
        Ends-kept l.sender.fin_off (Send.emit out l.sender).2.fin_off l.flight
            (same-FinKept l.sender.fin_off (Send.emit out l.sender).2.fin_off d.1.fin_off) p.ends,
      );
    }

pub lost-Sends :
    (off len : ℕ) (l : Link) (t : SendBuf)
    → Sends l
    → Send.retransmit off len l.sender ≡ some t
    → Sends (record l { sender = t })
unfolding ack_off
lost-Sends off len l t p e =
    let d = retransmit_lem off len l.sender p.valid in
    let same : d.0 ≡ t = one d.0 (sym d.1 ∙ e) in
    let kept = retransmit-same off len l.sender t e in
    record {
      valid = subst Unsent.IsValid same d.2;
      size = kept.0 ∙ p.size;
      acked = omega (arith, ap (λ a. Send.first_end (Ranges.iter a)) kept.1, kept.0, p.acked);
      held = λ o c q. p.held o c (
          sym (subst (λ (u : SendBuf). content u.bufs o ≡ content l.sender.bufs o) same (d.4 o))
          ∙ q);
      frames = p.frames;
      ended = λ f q. p.ended f (sym kept.2 ∙ q) ∙ sym kept.0;
      ends =
          Ends-kept l.sender.fin_off t.fin_off l.flight
            (same-FinKept l.sender.fin_off t.fin_off kept.2) p.ends;
    }
  where
    one : (u : SendBuf) → some u ≡ some t → u ≡ t
    one u e = cc

pub acknowledged-Sends :
    (off len : ℕ) (l : Link) (t : SendBuf)
    → Sends l
    → Send.ack_and_drop off len l.sender ≡ some t
    → ack_off t ≤ t.off
    → Sends (record l { sender = t })
acknowledged-Sends off len l t p e h =
    let d = ack_and_drop-content off len l.sender t p.valid e in
    record {
      valid = Sender.Step-IsValid (Sender.Step.ack_and_drop off len e) p.valid;
      size = d.0 ∙ p.size;
      acked = h;
      held = λ o c q. p.held o c (d.2 o c q);
      frames = p.frames;
      ended = λ f q. p.ended f (sym d.1 ∙ q) ∙ sym d.0;
      ends =
          Ends-kept l.sender.fin_off t.fin_off l.flight
            (same-FinKept l.sender.fin_off t.fin_off d.1) p.ends;
    }

pub granted-Sends :
    (max_data : ℕ) (l : Link)
    → Sends l
    → Sends (record l { sender = Send.update_max_data max_data l.sender })
unfolding Send.update_max_data ack_off
granted-Sends max_data l p = record {
  valid = Sender.Step-IsValid (Sender.Step.limit max_data) p.valid;
  size = p.size;
  acked = p.acked;
  held = p.held;
  frames = p.frames;
  ended = p.ended;
  ends = p.ends;
}

-- The final size after a write: the end of what was written, and the one that was known before.
abbrev Closed : Option ℕ → SendBuf → Type 0
Closed old t = ((f : ℕ) → t.fin_off ≡ some f → f ≡ t.off) × FinKept old t.fin_off

-- More that is queued.
grown-Sends :
    (l : Link) (more : List ℕ) (fin : Bool) (max_off : ℕ) (t : SendBuf)
    → Sends l
    → Pushed more (sized fin max_off l.sender) t
    → Closed l.sender.fin_off t
    → Sends (record l { written = l.written ++ more; sender = t })
unfolding ack_off
grown-Sends l more fin max_off t p q z = record {
  valid = q.valid;
  size = omega (arith, q.off, p.size, length-append l.written more);
  acked = omega (arith, ap (λ a. Send.first_end (Ranges.iter a)) q.acked, q.off, p.acked);
  held =
      Pushed-Agree l.written more (sized fin max_off l.sender) t
        (sized-IsValid fin max_off l.sender p.valid) q p.size p.held;
  frames = Carries-append l.written more l.flight p.frames;
  ended = z.0;
  ends = Ends-kept l.sender.fin_off t.fin_off l.flight z.1 p.ends;
}

closed_lem :
    (old new : Option ℕ) (len off end room : ℕ) (fits : Bool)
    → ((f : ℕ) → old ≡ some f → f ≡ off)
    → (fits ≡ true → len ≤ room)
    → past_final old (off + len) fits ≡ false
    → new ≡ (if fits then some (off + len) else old)
    → end ≡ off + min len room
    → ((f : ℕ) → new ≡ some f → f ≡ end) × FinKept old new
unfolding past_final FinKept
closed_lem none new len off end room true h r q e o = (λ f k. ground (arith, r refl), λ f k. cc)
closed_lem none new len off end room false h r q e o = (λ f k. cc, λ f k. cc)
closed_lem (some g) new len off end room true h r q e o =
    (λ f k. ground (arith, r refl), λ f k. ground (arith, h f k))
closed_lem (some g) new len off end room false h r q e o = absurd (ground (arith, h g refl))

-- What the answer of a write counts is what is queued.
queued :
    (bytes : List ℕ) (s : SendBuf)
    → ack_off s ≤ s.off
    → unacked (take (s.max_data - s.off) bytes) (s.off + length bytes) s
      ≡ take (min (length bytes) (s.max_data - s.off)) bytes
queued bytes s h =
    if_elim (λ (l : List ℕ). l ≡ take (min (length bytes) (s.max_data - s.off)) bytes)
      (leb (s.off + length bytes) (ack_off s)) (λ e. none_left (empty-list bytes (ground arith)))
      (λ _. cut (s.max_data - s.off))
  where
    none_left : bytes ≡ [] → [] ≡ take (min (length bytes) (s.max_data - s.off)) bytes
    none_left e = rw e (sym (take-nil (min 0 (s.max_data - s.off))))

    cut : (room : ℕ) → take room bytes ≡ take (min (length bytes) room) bytes
    cut room = elim (le_or_lt room (length bytes)) [
      | inl fits ↦ ap (λ n. take n bytes) {x = room} {y = min (length bytes) room} (omega arith)
      | inr wide ↦
          take-all room bytes (omega arith)
          ∙ sym (take-all (min (length bytes) room) bytes (omega arith))
    ]

pub write-Sends :
    (bytes : List ℕ) (fin : Bool) (l : Link)
    → Sends l
    → Sends (after_write bytes fin l)
      × FinKept l.sender.fin_off (Send.write bytes fin l.sender).1.fin_off
write-Sends bytes fin l p = by_error l.sender.error refl
  where
    s : SendBuf
    s = l.sender

    fits : Bool
    fits = fin && leb (length bytes) (s.max_data - s.off)

    After : Result Send.Error ℕ × SendBuf → Type 0
    After r =
        Sends (record l { written = l.written ++ take (accepted r.0) bytes; sender = r.1 })
        × FinKept s.fin_off r.1.fin_off

    refused :
        (e : Send.Error) → Send.write bytes fin s ≡ (err e, s) → After (Send.write bytes fin s)
    refused e q =
        let same = same-FinKept s.fin_off s.fin_off refl in
        subst After (sym q)
          (grown-Sends l [] false 0 s p (Pushed-nothing s p.valid) (p.ended, same), same)

    -- A write beyond the final size, or at it without the flag, is refused.
    closed :
        s.error ≡ none
        → past_final s.fin_off (s.off + length bytes) fits ≡ false
        → (Send.write bytes fin s).1.fin_off
          ≡ (if fits then some (s.off + length bytes) else s.fin_off)
        → (Send.write bytes fin s).1.off
          ≡ s.off + length (take (min (length bytes) (s.max_data - s.off)) bytes)
        → Closed s.fin_off (Send.write bytes fin s).1
    closed e q f o =
        closed_lem s.fin_off (Send.write bytes fin s).1.fin_off (length bytes) s.off
          (Send.write bytes fin s).1.off (s.max_data - s.off) fits p.ended (λ h. ground arith) q f
          (omega (arith, o, length-take (min (length bytes) (s.max_data - s.off)) bytes))

    by_size :
        s.error ≡ none
        → (b : Bool) → past_final s.fin_off (s.off + length bytes) fits ≡ b
        → After (Send.write bytes fin s)
    by_size e true q = refused final_size ((write-Pushed bytes fin s p.valid).1 e q)
    by_size e false q =
        let d = (write-Pushed bytes fin s p.valid).2 e q in
        let z =
          closed e q d.1.fin_off
            (d.1.off ∙ ap (λ m. s.off + m) (ap length (queued bytes s p.acked))) in
        (
          subst
              (λ (n : List ℕ).
                Sends (record l { written = l.written ++ n; sender = (Send.write bytes fin s).1 }))
              (queued bytes s p.acked ∙ ap (λ r. take (accepted r) bytes) (sym d.0))
              (grown-Sends l (unacked (take (s.max_data - s.off) bytes) (s.off + length bytes) s)
                fits (s.off + length bytes) (Send.write bytes fin s).1 p d.1 z),
          z.1,
        )

    by_error : (o : Option ℕ) → s.error ≡ o → After (Send.write bytes fin s)
    by_error (some c) e = refused (stream_stopped c) ((write-Pushed bytes fin s p.valid).0 c e)
    by_error none e = by_size e (past_final s.fin_off (s.off + length bytes) fits) refl
