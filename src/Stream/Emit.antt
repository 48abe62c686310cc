-- ===== src/Stream/Emit.antt =====
-- SendBuf::emit of quiche/src/stream/send_buf.rs.
use quirl.Stream.RangeBuf.{RangeBuf}
use quirl.Stream.SendBuf.{front_of}
use quirl.Stream.SendBuf.{SendBuf, Emitting, stops, emit_loop, emit, off_front, is_at}
use quirl.Stream.Chain.{content}
use quirl.Stream.Unsent.{IsValid}
use quirl.Stream.Rewound.{pending}
use quirl.Common.{
  leb, ◌&&◌, ℕ, zero, suc, ◌+◌, ◌≤◌, ◌<◌, ◌≡◌, refl, ap, ◌∙◌, max, arith, List, [], ◌∷◌, ◌++◌,
  length, length-append, length-drop, get_elem?, drop, false,
}
use quirl.Stream.Copied.{Sending}
use quirl.Stream.Rounds.{Written, emit_loop_lem, begin-Sending}

front-filled : (t : SendBuf) → off_front t < t.off → 0 < length t.bufs
unfolding off_front
front-filled t h = filled t.bufs t.pos t.off h
  where
    filled : (bs : List RangeBuf) (i end : ℕ) → front_of end (drop i bs) < end → 0 < length bs
    filled [] zero end k = absurd (unfold front_of in omega arith)
    filled [] (suc i) end k = absurd (unfold front_of in omega arith)
    filled (x ∷ bs) i end k = omega arith

stops-start :
    (s : SendBuf) (out : List ℕ)
    → IsValid s
    → 0 < length out
    → off_front s < s.off
    → stops (record { buf = s; out = out; out_len = length out; next_off = off_front s }) ≡ false
unfolding stops
stops-start s out v h k = ground (arith, front-filled s k, v.limited)

-- What emit sends: `w` stands in front of the output, the rest of which stays; its bytes are those of
-- the stream from the first one to be sent on, and they are counted.
pub record Emitted (out : List ℕ) (s : SendBuf) (w : List ℕ) : Type 0 where
  pub amount : (emit out s).0.0 ≡ length w
  pub shape : (emit out s).1 ≡ w ++ drop (length w) out
  pub fits : length w ≤ length out
  pub bytes : (k : ℕ) → k < length w → get_elem? w k ≡ content s.bufs (off_front s + k)
  pub within : off_front s + length w ≤ s.max_data
  pub fin : (emit out s).0.1 ≡ is_at s.fin_off (off_front s + length w)
  pub valid : IsValid (emit out s).2
  pub count : (emit out s).2.len + length w ≡ s.len
  pub pending :
      (o : ℕ) → pending (emit out s).2.bufs o ≡ (pending s.bufs o && leb (off_front s + length w) o)
  pub kept : (o : ℕ) → content (emit out s).2.bufs o ≡ content s.bufs o
  pub off : (emit out s).2.off ≡ s.off
  pub fin_off : (emit out s).2.fin_off ≡ s.fin_off
  pub acked : (emit out s).2.acked ≡ s.acked
  pub emit_off : (emit out s).2.emit_off ≡ max s.emit_off (off_front s + length w)
  pub rest : (emit out s).2 ≡ record s {
    bufs = (emit out s).2.bufs;
    pos = (emit out s).2.pos;
    len = (emit out s).2.len;
    emit_off = (emit out s).2.emit_off;
  }

-- From a valid state, emit ends and writes `w` to the front of the output, and the rest of the output
-- stays: the bytes of the stream, in order, from the first that is to be sent, as many as it answers
-- and not beyond the limit of the peer. It tells exactly whether they end at the final size. To be sent
-- is then exactly what was and lies behind those bytes, the length is less by as many, and all bytes
-- are kept until they are acknowledged. The state is valid again, and all but the buffers, the
-- position, the length and the highest offset sent is as it was. Where the output is not empty and
-- bytes are to be sent, some are.
pub emit-Emitted :
    (out : List ℕ) (s : SendBuf)
    → IsValid s
    → (w : List ℕ) × Emitted out s w × (0 < length out → off_front s < s.off → 0 < length w)
emit-Emitted out s v = ended (
    emit_loop_lem s out (off_front s) (length s.bufs + 1) [] start
      (begin-Sending s out (off_front s) v refl) (omega arith))
  where
    start : Emitting
    start = record { buf = s; out = out; out_len = length out; next_off = off_front s }

    done : Emitting
    done = emit_loop (length s.bufs + 1) (off_front s) start

    emitted : (w : List ℕ) → Sending s out (off_front s) w done → Emitted out s w
    emitted w p =
        let size : length done.out ≡ length out =
          ap length p.shape
          ∙ length-append w (drop (length w) out)
          ∙ omega (arith, length-drop (length w) out, p.room) in
        unfold emit in
        record {
          amount = omega (arith, size, p.room);
          shape = p.shape;
          fits = omega (arith, p.room);
          bytes = p.bytes;
          within = omega (arith, p.place, p.before, v.limited);
          fin = ap (λ f. is_at f done.next_off) p.same.fin_off ∙ ap (is_at s.fin_off) p.place;
          valid = record {
            chain = p.valid.chain;
            counted = p.valid.counted;
            inside = p.valid.inside;
            sent = p.valid.sent;
            limited = p.valid.limited;
            emitted = omega (arith, p.valid.emitted, p.before, p.same.off);
          };
          count = p.count;
          pending = λ o. p.due o ∙ ap (λ k. pending s.bufs o && leb k o) p.place;
          kept = p.same.content;
          off = p.same.off;
          fin_off = p.same.fin_off;
          acked = p.same.acked;
          emit_off = omega (arith, p.same.emit_off, p.place);
          rest =
              ap (λ (t : SendBuf). record t { emit_off = max done.buf.emit_off done.next_off })
                p.same.rest;
        }

    ended :
        Written s out (off_front s) [] start done
        → (w : List ℕ) × Emitted out s w × (0 < length out → off_front s < s.off → 0 < length w)
    ended h =
        unfold Written in (h.0, emitted h.0 h.1, λ room more. h.3 (stops-start s out v room more))
