-- ===== src/Stream/Rounds.antt =====
-- The loop of SendBuf::emit of quiche/src/stream/send_buf.rs.
use quirl.Stream.RangeBuf.{RangeBuf, consume, deref, is_empty}
use quirl.Stream.RangeBuf as Chunk
use quirl.Stream.SendBuf.{
  SendBuf, Emitting, copy_from, stops, emit_round, emit_loop, next_round, off_front,
}
use quirl.Stream.Chain.{length-set, get_elem?-lt, AllEmpty-next, front_of-get, front_of-skip}
use quirl.Stream.Unsent.{IsValid, off_front-le}
use quirl.Stream.Rewound.{pending}
use quirl.Stream.Waiting.{and_true, pending-front}
use native.Mathlib.Numerals.{add-one}
use quirl.Common.{
  leb, ◌&&◌, Bool-cases, inl, inr, ℕ, zero, suc, ◌+◌, ◌-◌, ◌≤◌, ◌<◌, ◌≡◌, refl, sym, ap, ◌∙◌, min,
  arith, List, [], ◌++◌, length, length-append, get_elem?, set, Bool, true, false, not, ltb,
  if◌then◌else◌, if_elim, Option, none, some,
}
use quirl.Stream.Copied.{
  Sending, part, length-part, copy_from-Sending, empty-len, nonempty-len, off_front-none,
}

-- The conditions of the loop, where it goes on.
record Goes (v : Emitting) : Type 0 where
  room : 0 < v.out_len
  front : off_front v.buf ≡ v.next_off
  before : v.next_off < v.buf.off

stops-Goes : (v : Emitting) → stops v ≡ false → Goes v
unfolding stops
stops-Goes v h = ground arith

stops-skip :
    (v : Emitting) (b : RangeBuf)
    → get_elem? v.buf.bufs v.buf.pos ≡ some b
    → is_empty b ≡ true
    → stops v ≡ false
    → stops (record v { buf = record v.buf { pos = v.buf.pos + 1 } }) ≡ false
unfolding stops off_front
stops-skip v b here e h =
    rw (add-one, front_of-skip v.buf.bufs v.buf.pos v.buf.off {b = b} here e) h

module _ (s : SendBuf) (out : List ℕ) (out_off : ℕ) where
  -- What a run of the loop comes to: more is written, and if the loop did not stop at once, then
  -- something is.
  unfoldable pub Written : List ℕ → Emitting → Emitting → Type 0
  Written w v v' =
      (w' : List ℕ) × Sending s out out_off w' v'
      × (length w ≤ length w')
      × (stops v ≡ false → length w < length w')

  skip-Sending :
      (w : List ℕ) (v : Emitting) (b : RangeBuf)
      → Sending s out out_off w v
      → get_elem? v.buf.bufs v.buf.pos ≡ some b
      → is_empty b ≡ true
      → Sending s out out_off w (record v { buf = record v.buf { pos = v.buf.pos + 1 } })
  skip-Sending w v b p here e = record {
    valid = record {
      chain = p.valid.chain;
      counted = p.valid.counted;
      inside = omega (arith, get_elem?-lt v.buf.bufs v.buf.pos {b = b} here);
      sent =
          rw add-one (AllEmpty-next v.buf.bufs v.buf.pos {b = b} here (empty-len b e) p.valid.sent);
      limited = p.valid.limited;
      emitted = p.valid.emitted;
    };
    same = record {
      off = p.same.off;
      max_data = p.same.max_data;
      fin_off = p.same.fin_off;
      emit_off = p.same.emit_off;
      acked = p.same.acked;
      content = p.same.content;
      rest = ap (λ (t : SendBuf). record t { pos = v.buf.pos + 1 }) p.same.rest;
    };
    shape = p.shape;
    room = p.room;
    place = p.place;
    before = p.before;
    bytes = p.bytes;
    count = p.count;
    due = p.due;
  }

  module _ (fuel : ℕ) (go_on : Emitting → Emitting)
      (more : (w : List ℕ) (v : Emitting)
        → Sending s out out_off w v
        → length v.buf.bufs - v.buf.pos < fuel
        → Written w v (go_on v))
      (w : List ℕ) (v : Emitting) (p : Sending s out out_off w v)
      (enough : length v.buf.bufs - v.buf.pos < suc fuel) where
    skipped :
        stops v ≡ false
        → (b : RangeBuf) → get_elem? v.buf.bufs v.buf.pos ≡ some b
        → is_empty b ≡ true
        → Written w v (go_on (record v { buf = record v.buf { pos = v.buf.pos + 1 } }))
    unfolding Written
    skipped go b here e =
        let v1 : Emitting = record v { buf = record v.buf { pos = v.buf.pos + 1 } } in
        let (w2, p2, le, lt) =
          more w v1 (skip-Sending w v b p here e)
            (omega (arith, get_elem?-lt v.buf.bufs v.buf.pos {b = b} here)) in
        (w2, p2, le, λ f. lt (stops-skip v b here e f))

    goes_on :
        (r : Bool × Emitting) (w1 : List ℕ)
        → Sending s out out_off w1 r.1
        → length w < length w1
        → (r.0 ≡ true → length r.1.buf.bufs - r.1.buf.pos < fuel)
        → Written w v (next_round go_on r)
    unfolding Written
    goes_on (true, v1) w1 p1 grown h =
        let (w2, p2, le, lt) = more w1 v1 p1 (h refl) in (w2, p2, omega arith, λ f. omega arith)
    goes_on (false, v1) w1 p1 grown h = (w1, p1, omega arith, λ f. grown)

    moved :
        (b : RangeBuf)
        → get_elem? v.buf.bufs v.buf.pos ≡ some b
        → (copy_from out_off b v).0 ≡ true
        → length (copy_from out_off b v).1.buf.bufs - (copy_from out_off b v).1.buf.pos < fuel
    unfolding copy_from
    moved b here =
        if_elim
          (λ i.
            not (ltb (min (Chunk.len b) v.out_len) (Chunk.len b)) ≡ true
            → length (set v.buf.bufs v.buf.pos (consume (min (Chunk.len b) v.out_len) b)) - i
              < fuel)
          (ltb (min (Chunk.len b) v.out_len) (Chunk.len b)) (λ partial h. absurd (bad partial h))
          (λ whole h. omega (
            arith,
            length-set v.buf.bufs v.buf.pos (consume (min (Chunk.len b) v.out_len) b),
            get_elem?-lt v.buf.bufs v.buf.pos {b = b} here,
          ))
      where
        bad : {x : Bool} → x ≡ true → not x ≡ true → ⊥
        bad {x} e h = cc (ap not e)

    copied :
        stops v ≡ false
        → (b : RangeBuf) → get_elem? v.buf.bufs v.buf.pos ≡ some b
        → is_empty b ≡ false
        → Written w v (next_round go_on (copy_from out_off b v))
    copied go b here e =
        let goes = stops-Goes v go in
        goes_on (copy_from out_off b v) (w ++ part s out out_off w v b p here)
          (copy_from-Sending s out out_off w v b p here (
            sym (front_of-get v.buf.bufs v.buf.pos v.buf.off {b = b} here e)
            ∙ unfold off_front in goes.front))
          (omega (
            arith,
            length-append w (part s out out_off w v b p here),
            length-part s out out_off w v b p here,
            goes.room,
            nonempty-len b e,
          ))
          (moved b here)

    at_buf :
        stops v ≡ false
        → (o : Option RangeBuf) → get_elem? v.buf.bufs v.buf.pos ≡ o
        → Written w v (
            next_round go_on (elim o [
              | none ↦ (false, v)
              | some b ↦
                  if is_empty b
                  then (true, record v { buf = record v.buf { pos = v.buf.pos + 1 } })
                  else copy_from out_off b v
            ]))
    at_buf go none e =
        absurd
          (omega (arith, (stops-Goes v go).front, (stops-Goes v go).before, off_front-none v.buf e))
    at_buf go (some b) e =
        if_elim (λ r. Written w v (next_round go_on r)) (is_empty b) (skipped go b e)
          (copied go b e)

    round-Written :
        (b : Bool)
        → stops v ≡ b
        → Written w v (elim b [ true ↦ v | false ↦ next_round go_on (emit_round out_off v) ])
    unfolding emit_round Written
    round-Written true e = (w, p, omega arith, λ f. cc)
    round-Written false e = at_buf e (get_elem? v.buf.bufs v.buf.pos) refl

  pub emit_loop_lem :
      (fuel : ℕ) (w : List ℕ) (v : Emitting)
      → Sending s out out_off w v
      → length v.buf.bufs - v.buf.pos < fuel
      → Written w v (emit_loop fuel out_off v)
  unfolding emit_loop
  emit_loop_lem zero w v p h = absurd (omega arith)
  emit_loop_lem (suc fuel) w v p h =
      round-Written fuel (emit_loop fuel out_off) (emit_loop_lem fuel) w v p h (stops v) refl

  begin-due : IsValid s → (o : ℕ) → pending s.bufs o ≡ (pending s.bufs o && leb (off_front s) o)
  unfolding off_front
  begin-due v o = elim (Bool-cases (leb (off_front s) o)) [
    | inl past ↦ rw past (and_true (pending s.bufs o))
    | inr short ↦
        rw (pending-front s.bufs s.pos s.off o v.chain v.sent (ground (arith, short))) refl
  ]

  pub begin-Sending :
      IsValid s
      → out_off ≡ off_front s
      → Sending s out out_off []
          (record { buf = s; out = out; out_len = length out; next_off = off_front s })
  begin-Sending v e = record {
    valid = v;
    same = record {
      off = refl;
      max_data = refl;
      fin_off = refl;
      emit_off = refl;
      acked = refl;
      content = λ o. refl;
      rest = refl;
    };
    shape = refl;
    room = omega arith;
    place = omega arith;
    before = off_front-le s v;
    bytes = λ k h. absurd (omega arith);
    count = omega arith;
    due = λ o. begin-due v o;
  }
