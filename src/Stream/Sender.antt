-- ===== src/Stream/Sender.antt =====
-- SendBuf of quiche/src/stream/send_buf.rs, over every order of its operations.
use quirl.Ranges
use quirl.Ranges.{RangeSet}
use quirl.Stream.SendBuf as Send
use quirl.Stream.SendBuf.{SendBuf, Error, new, with_acked, cleared, stopped, off_front, done}
use quirl.Stream.Unsent.{IsValid, off_front-le, new-IsValid}
use quirl.Stream.Emit.{emit-Emitted}
use quirl.Stream.Queue.{write-IsValid}
use quirl.Stream.Resend.{retransmit_lem}
use quirl.Stream.Acked.{ack_and_drop_lem, ack_and_drop-none}
use mathlib.Core.Path.{subst}
use quirl.Common.{
  ℕ, ◌+◌, ◌-◌, ◌≡◌, refl, sym, ◌∙◌, max, arith, List, [], Bool, true, Option, none, some, if_elim,
}
use quirl.Common.Result.{Result, err}

-- The ranges are all that an acknowledgment changes.
with_acked-IsValid :
    (acked : RangeSet) (s : SendBuf) → IsValid s → IsValid (record s { acked = acked })
with_acked-IsValid acked s v = record {
  chain = v.chain;
  counted = v.counted;
  inside = v.inside;
  sent = v.sent;
  limited = v.limited;
  emitted = v.emitted;
}

reset-IsValid :
    (s : SendBuf) (a : ℕ × ℕ) (t : SendBuf) → IsValid s → Send.reset s ≡ some (a, t) → IsValid t
unfolding Send.reset Send.ack
reset-IsValid s a t v e = by_ack (Ranges.insert (0, 0 + unsent_off) s.acked) e
  where
    unsent_off : ℕ
    unsent_off = max (off_front s) s.emit_off

    by_ack :
        (o : Option RangeSet)
        → cleared
            (s.off - unsent_off)
            (with_acked (record s { fin_off = some unsent_off; bufs = []; off = unsent_off }) o)
          ≡ some (a, t)
        → IsValid t
    by_ack none q = cc
    by_ack (some acked) q = subst IsValid (same q) (record {
      chain = tt;
      counted = omega arith;
      inside = omega arith;
      sent = tt;
      limited = omega (arith, off_front-le s v, v.emitted, v.limited);
      emitted = omega arith;
    })
      where
        same :
            cleared (s.off - unsent_off) (
                with_acked
                  (record s { fin_off = some unsent_off; bufs = []; off = unsent_off })
                  (some acked))
              ≡ some (a, t)
            → record s {
              fin_off = some unsent_off;
              bufs = [];
              off = unsent_off;
              acked = acked;
              pos = 0;
              len = 0;
            }
              ≡ t
        same q = cc

stopped-IsValid :
    (error : Option ℕ) (s t : SendBuf)
    → IsValid s
    → IsValid t
    → IsValid (stopped error s (Send.reset t)).1
stopped-IsValid error s t v u = by_reset (Send.reset t) refl
  where
    by_reset : (r : Option ((ℕ × ℕ) × SendBuf)) → Send.reset t ≡ r → IsValid (stopped error s r).1
    by_reset none e = v
    by_reset (some (a, t')) e =
        let w = reset-IsValid t a t' u e in
        record {
          chain = w.chain;
          counted = w.counted;
          inside = w.inside;
          sent = w.sent;
          limited = w.limited;
          emitted = w.emitted;
        }

stop-IsValid : (code : ℕ) (s : SendBuf) → IsValid s → IsValid (Send.stop code s).1
unfolding Send.stop
stop-IsValid code s v = by_error s.error
  where
    by_error :
        (o : Option ℕ)
        → IsValid (
            (λ (r : Result Error (ℕ × ℕ) × SendBuf). r.1)
              (elim o [ some e ↦ (err done, s) | none ↦ stopped (some code) s (Send.reset s) ]))
    by_error (some e) = v
    by_error none = stopped-IsValid (some code) s s v v

shutdown-IsValid : (s : SendBuf) → IsValid s → IsValid (Send.shutdown s).1
unfolding Send.shutdown
shutdown-IsValid s v =
    if_elim (λ (r : Result Error (ℕ × ℕ) × SendBuf). IsValid r.1) s.shut (λ _. v)
      (λ _.
        stopped-IsValid s.error s (record s { shut = true }) v
          (record {
            chain = v.chain;
            counted = v.counted;
            inside = v.inside;
            sent = v.sent;
            limited = v.limited;
            emitted = v.emitted;
          }))

-- One call of a method that does not panic.
pub data Step (s : SendBuf) : SendBuf → Type 0 where
  write : (bytes : List ℕ) (fin : Bool) → Step s (Send.write bytes fin s).1
  emit : (out : List ℕ) → Step s (Send.emit out s).2
  limit : (max_data : ℕ) → Step s (Send.update_max_data max_data s)
  blocked : (at : Option ℕ) → Step s (Send.update_blocked_at at s)
  ack : (off len : ℕ) {t : SendBuf} → Send.ack off len s ≡ some t → Step s t
  ack_and_drop : (off len : ℕ) {t : SendBuf} → Send.ack_and_drop off len s ≡ some t → Step s t
  retransmit : (off len : ℕ) {t : SendBuf} → Send.retransmit off len s ≡ some t → Step s t
  reset : {a : ℕ × ℕ} {t : SendBuf} → Send.reset s ≡ some (a, t) → Step s t
  stop : (code : ℕ) → Step s (Send.stop code s).1
  shutdown : Step s (Send.shutdown s).1

pub data Reach (s : SendBuf) : SendBuf → Type 0 where
  here : Reach s s
  next : {t u : SendBuf} → Reach s t → Step t u → Reach s u

ack-IsValid : (off len : ℕ) (s t : SendBuf) → IsValid s → Send.ack off len s ≡ some t → IsValid t
unfolding Send.ack
ack-IsValid off len s t v e = by_insert (Ranges.insert (off, off + len) s.acked) e
  where
    by_insert : (o : Option RangeSet) → with_acked s o ≡ some t → IsValid t
    by_insert none q = cc
    by_insert (some acked) q = subst IsValid (same q) (with_acked-IsValid acked s v)
      where
        same : with_acked s (some acked) ≡ some t → record s { acked = acked } ≡ t
        same q = cc

ack_and_drop-IsValid :
    (off len : ℕ) (s t : SendBuf) → IsValid s → Send.ack_and_drop off len s ≡ some t → IsValid t
ack_and_drop-IsValid off len s t v e = by_insert (Ranges.insert (off, off + len) s.acked) refl
  where
    by_insert : (o : Option RangeSet) → Ranges.insert (off, off + len) s.acked ≡ o → IsValid t
    by_insert none q = absurd (nowhere (sym (ack_and_drop-none off len s q) ∙ e))
      where
        nowhere : none ≡ some t → ⊥
        nowhere e = cc
    by_insert (some acked) q =
        let d = ack_and_drop_lem off len s acked v q in subst IsValid (same d.0 (sym d.1 ∙ e)) d.2
      where
        same : (u : SendBuf) → some u ≡ some t → u ≡ t
        same u e = cc

retransmit-IsValid :
    (off len : ℕ) (s t : SendBuf) → IsValid s → Send.retransmit off len s ≡ some t → IsValid t
retransmit-IsValid off len s t v e =
    let d = retransmit_lem off len s v in subst IsValid (same d.0 (sym d.1 ∙ e)) d.2
  where
    same : (u : SendBuf) → some u ≡ some t → u ≡ t
    same u e = cc

limit-IsValid : (max_data : ℕ) (s : SendBuf) → IsValid s → IsValid (Send.update_max_data max_data s)
unfolding Send.update_max_data
limit-IsValid max_data s v = record {
  chain = v.chain;
  counted = v.counted;
  inside = v.inside;
  sent = v.sent;
  limited = omega (arith, v.limited);
  emitted = v.emitted;
}

blocked-IsValid : (at : Option ℕ) (s : SendBuf) → IsValid s → IsValid (Send.update_blocked_at at s)
unfolding Send.update_blocked_at
blocked-IsValid at s v = record {
  chain = v.chain;
  counted = v.counted;
  inside = v.inside;
  sent = v.sent;
  limited = v.limited;
  emitted = v.emitted;
}

pub Step-IsValid : {s t : SendBuf} → Step s t → IsValid s → IsValid t
Step-IsValid {s = s} (Step.write bytes fin) v = write-IsValid bytes fin s v
Step-IsValid {s = s} (Step.emit out) v = (emit-Emitted out s v).1.valid
Step-IsValid {s = s} (Step.limit max_data) v = limit-IsValid max_data s v
Step-IsValid {s = s} (Step.blocked at) v = blocked-IsValid at s v
Step-IsValid {s} {t} (Step.ack off len e) v = ack-IsValid off len s t v e
Step-IsValid {s} {t} (Step.ack_and_drop off len e) v = ack_and_drop-IsValid off len s t v e
Step-IsValid {s} {t} (Step.retransmit off len e) v = retransmit-IsValid off len s t v e
Step-IsValid {s} {t} (Step.reset {a} e) v = reset-IsValid s a t v e
Step-IsValid {s = s} (Step.stop code) v = stop-IsValid code s v
Step-IsValid {s = s} Step.shutdown v = shutdown-IsValid s v

-- After any calls on a new buffer, of which none panics: the stored buffers follow one another without
-- a gap up to the end of what was written, which is within the limit of the peer, and so is what was
-- sent; before the position nothing is to be sent, and the length is at least the bytes to be sent, so
-- that emit never takes more off it than there is.
pub sent-IsValid : (max_data : ℕ) {s : SendBuf} → Reach (new max_data) s → IsValid s
sent-IsValid max_data here = new-IsValid max_data
sent-IsValid max_data (next r st) = Step-IsValid st (sent-IsValid max_data r)
