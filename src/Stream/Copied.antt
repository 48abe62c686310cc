-- ===== src/Stream/Copied.antt =====
-- The rounds of SendBuf::emit of quiche/src/stream/send_buf.rs that copy a buffer.
use quirl.Stream.RangeBuf.{RangeBuf, consume, deref, is_empty}
use quirl.Stream.RangeBuf as Chunk
use quirl.Stream.SendBuf.{SendBuf, Emitting, copy_at, copy_from, off_front}
use quirl.Stream.Split.{
  length-deref, consume-IsValid, len-consume, take-append_long, drop-append_long, take-all,
}
use quirl.Stream.Split
use quirl.Stream.Bytes.{get_elem?-append_left, get_elem?-append_right}
use quirl.Stream.Chain.{
  Chain, total, AllEmpty, content, Chain-set, Chain-get, total-set, total-get, length-set,
  get_elem?-lt, get_elem?-set, AllEmpty-set, AllEmpty-next, content-get, content-set, front_of-none,
}
use quirl.Stream.Unsent.{IsValid}
use quirl.Stream.Rewound.{pending}
use quirl.Stream.Waiting.{pending-consume}
use native.Mathlib.Numerals.{add-one}
use quirl.Common.{
  ℕ, zero, suc, ◌+◌, ◌-◌, ◌≤◌, ◌<◌, ◌≡◌, refl, sym, ap, ◌∙◌, min, arith, List, [], ◌∷◌, ◌++◌,
  length, length-append, length-take_le, take-append_length, drop-drop, get_elem?, set, take, drop,
  Bool, true, false, ltb, leb, ◌&&◌, if◌then◌else◌, if_elim, le_or_lt, none, some, inl, inr,
}

-- What stays the same while bytes are sent.
pub record Same (s t : SendBuf) : Type 0 where
  pub off : t.off ≡ s.off
  pub max_data : t.max_data ≡ s.max_data
  pub fin_off : t.fin_off ≡ s.fin_off
  pub emit_off : t.emit_off ≡ s.emit_off
  pub acked : t.acked ≡ s.acked
  pub content : (o : ℕ) → content t.bufs o ≡ content s.bufs o
  pub rest : t ≡ record s { bufs = t.bufs; pos = t.pos; len = t.len }

-- Between two rounds: `w` is what was written so far, from `out_off` on.
pub record Sending (s : SendBuf) (out : List ℕ) (out_off : ℕ) (w : List ℕ) (v : Emitting)
    : Type 0 where
  pub valid : IsValid v.buf
  pub same : Same s v.buf
  pub shape : v.out ≡ w ++ drop (length w) out
  pub room : length w + v.out_len ≡ length out
  pub place : v.next_off ≡ out_off + length w
  pub before : v.next_off ≤ s.off
  pub bytes : (k : ℕ) → k < length w → get_elem? w k ≡ content s.bufs (out_off + k)
  pub count : v.buf.len + length w ≡ s.len
  pub due : (o : ℕ) → pending v.buf.bufs o ≡ (pending s.bufs o && leb v.next_off o)

pub get_elem?-take : (n k : ℕ) (xs : List ℕ) → k < n → get_elem? (take n xs) k ≡ get_elem? xs k
get_elem?-take zero k xs h = absurd (omega arith)
get_elem?-take (suc n) k [] h = refl
get_elem?-take (suc n) zero (x ∷ xs) h = refl
get_elem?-take (suc n) (suc k) (x ∷ xs) h = get_elem?-take n k xs (omega arith)

pub get_elem?-drop : (n k : ℕ) (xs : List ℕ) → get_elem? (drop n xs) k ≡ get_elem? xs (n + k)
get_elem?-drop zero k xs = ap (get_elem? xs) (omega arith)
get_elem?-drop (suc n) k [] = refl
get_elem?-drop (suc n) k (x ∷ xs) =
    get_elem?-drop n k xs ∙ ap (get_elem? (x ∷ xs)) {x = suc (n + k)} {y = suc n + k} (omega arith)

-- A copy behind what was written.
copy_at_lem :
    (w bytes out : List ℕ)
    → copy_at (length w) bytes (w ++ drop (length w) out)
      ≡ (w ++ bytes) ++ drop (length (w ++ bytes)) out
unfolding copy_at
copy_at_lem w bytes out =
    rw
      (
        take-append_length w (drop (length w) out),
        drop-append_long (length w + length bytes) w (drop (length w) out) (omega arith),
        drop-drop (length w) (length w + length bytes - length w) out,
        length-append w bytes,
      )
      (ap (λ k. (w ++ bytes) ++ drop k out) {x = length w + (length w + length bytes - length w)}
        {y = length w + length bytes} (omega arith))

-- The byte of a buffer at an index of what is left of it.
deref-get :
    (b : RangeBuf) (k : ℕ) → k < Chunk.len b → get_elem? (deref b) k ≡ get_elem? b.vec (b.pos + k)
unfolding deref Chunk.len
deref-get b k h =
    get_elem?-take (b.start + b.len - b.pos) k (drop b.pos b.vec) (omega arith)
    ∙ get_elem?-drop b.pos k b.vec

-- The byte of a buffer at an offset of the stream.
content-deref :
    (bs : List RangeBuf) (i end k : ℕ) (b : RangeBuf)
    → Chain bs end
    → get_elem? bs i ≡ some b
    → k < Chunk.len b
    → get_elem? (deref b) k ≡ content bs (Chunk.off b + k)
unfolding Chunk.off Chunk.len
content-deref bs i end k b c g h =
    let v = (Chain-get bs i end {b = b} c g).0 in
    deref-get b k h
    ∙ ap (get_elem? b.vec) {x = b.pos + k} {y = b.start + (b.off - b.start + b.pos + k - b.off)}
        (omega (arith, v.begun, v.placed))
    ∙ sym (
        content-get bs i end (b.off - b.start + b.pos + k) {b = b} c g
          (omega (arith, v.begun, v.placed)) (omega (arith, v.begun, v.placed, v.within)))

pub empty-len : (b : RangeBuf) → is_empty b ≡ true → Chunk.len b ≡ 0
unfolding is_empty
empty-len b e = ground arith

pub nonempty-len : (b : RangeBuf) → is_empty b ≡ false → 0 < Chunk.len b
unfolding is_empty
nonempty-len b e = ground arith

pub off_front-none : (t : SendBuf) → get_elem? t.bufs t.pos ≡ none → off_front t ≡ t.off
unfolding off_front
off_front-none t e = front_of-none t.bufs t.pos t.off e

later : (a : Bool) (m n o : ℕ) → m ≤ n → ((a && leb m o) && leb n o) ≡ (a && leb n o)
later false m n o h = refl
later true m n o h = ground arith

module _ (s : SendBuf) (out : List ℕ) (out_off : ℕ) where
  module _ (w : List ℕ) (v : Emitting) (b : RangeBuf) (p : Sending s out out_off w v)
      (here : get_elem? v.buf.bufs v.buf.pos ≡ some b) where
    abbrev amount : ℕ
    amount = min (Chunk.len b) v.out_len

    abbrev pub part : List ℕ
    part = take (min (Chunk.len b) v.out_len) (deref b)

    abbrev used : RangeBuf
    used = consume (min (Chunk.len b) v.out_len) b

    good : Split.IsValid b × (b.off + b.len ≤ v.buf.off)
    good = Chain-get v.buf.bufs v.buf.pos v.buf.off {b = b} p.valid.chain here

    pub length-part : length part ≡ amount
    length-part =
        length-take_le (min (Chunk.len b) v.out_len) (deref b) (omega (arith, length-deref good.0))

    copied-bytes :
        Chunk.off b ≡ v.next_off
        → (k : ℕ) → k < length (w ++ part)
        → get_elem? (w ++ part) k ≡ content s.bufs (out_off + k)
    copied-bytes e k h = elim (le_or_lt (length w) k) [
      | inr before ↦ get_elem?-append_left w part k before ∙ p.bytes k before
      | inl after ↦
          ap (get_elem? (w ++ part)) {x = k} {y = length w + (k - length w)} (omega arith)
          ∙ get_elem?-append_right w part (k - length w)
          ∙ get_elem?-take amount (k - length w) (deref b)
              (omega (arith, length-append w part, length-part))
          ∙ content-deref v.buf.bufs v.buf.pos v.buf.off (k - length w) b p.valid.chain here
              (omega (arith, length-append w part, length-part))
          ∙ p.same.content (Chunk.off b + (k - length w))
          ∙ ap (content s.bufs) {x = Chunk.off b + (k - length w)} {y = out_off + k}
              (omega (arith, p.place))
    ]

    copied-Chain : Chain (set v.buf.bufs v.buf.pos used) v.buf.off
    copied-Chain =
        unfold consume in
        Chain-set v.buf.bufs v.buf.pos v.buf.off b used p.valid.chain here
          (consume-IsValid amount good.0 (omega arith)) refl refl

    copied-len : Chunk.len used ≡ Chunk.len b - amount
    copied-len = len-consume amount good.0 (omega arith)

    copied-count : total (set v.buf.bufs v.buf.pos used) ≤ v.buf.len - amount
    copied-count =
        omega (arith, total-set v.buf.bufs v.buf.pos b used here, copied-len, p.valid.counted)

    count-le : Chunk.len b ≤ v.buf.len
    count-le = omega (arith, total-get v.buf.bufs v.buf.pos {b = b} here, p.valid.counted)

    copied-same : (o : ℕ) → content (set v.buf.bufs v.buf.pos used) o ≡ content s.bufs o
    copied-same o =
        unfold consume in
        (content-set v.buf.bufs v.buf.pos o b used here refl refl refl refl ∙ p.same.content o)

    copied-IsValid : IsValid (copy_from out_off b v).1.buf
    unfolding copy_from
    copied-IsValid = record {
      chain = copied-Chain;
      counted = copied-count;
      inside = omega (
        arith,
        length-set v.buf.bufs v.buf.pos used,
        get_elem?-lt v.buf.bufs v.buf.pos {b = b} here,
        step-le,
      );
      sent = before-empty;
      limited = p.valid.limited;
      emitted = p.valid.emitted;
    }
      where
        step-le : (if ltb amount (Chunk.len b) then v.buf.pos else v.buf.pos + 1) ≤ v.buf.pos + 1
        step-le = ground arith

        emptied : ltb amount (Chunk.len b) ≡ false → Chunk.len used ≡ 0
        emptied whole = ground (arith, copied-len)

        before-empty : AllEmpty (
            take
              (if ltb amount (Chunk.len b) then v.buf.pos else v.buf.pos + 1)
              (set v.buf.bufs v.buf.pos used))
        before-empty =
            if_elim (λ i. AllEmpty (take i (set v.buf.bufs v.buf.pos used)))
              (ltb amount (Chunk.len b)) (λ _. AllEmpty-set v.buf.bufs v.buf.pos used p.valid.sent)
              (λ whole. rw add-one (
                AllEmpty-next (set v.buf.bufs v.buf.pos used) v.buf.pos {b = used}
                  (get_elem?-set v.buf.bufs v.buf.pos used
                    (get_elem?-lt v.buf.bufs v.buf.pos {b = b} here))
                  (emptied whole) (AllEmpty-set v.buf.bufs v.buf.pos used p.valid.sent)))

    copied-due :
        Chunk.off b ≡ v.next_off
        → (o : ℕ)
        → pending (set v.buf.bufs v.buf.pos used) o
          ≡ (pending s.bufs o && leb (Chunk.off b + amount) o)
    copied-due e o =
        pending-consume v.buf.bufs v.buf.pos v.buf.off amount o b p.valid.chain here p.valid.sent
          (omega arith)
        ∙ ap (λ t. t && leb (Chunk.off b + amount) o) (p.due o)
        ∙ later (pending s.bufs o) v.next_off (Chunk.off b + amount) o (omega (arith, e))

    copied-end : Chunk.off b + amount ≤ s.off
    unfolding Chunk.off Chunk.len
    copied-end = omega (arith, good.0.begun, good.0.within, good.0.placed, good.1, p.same.off)

    -- A round that copies keeps the rest as it was.
    pub copy_from-Sending :
        Chunk.off b ≡ v.next_off → Sending s out out_off (w ++ part) (copy_from out_off b v).1
    unfolding copy_from
    copy_from-Sending e = record {
      valid = copied-IsValid;
      same = record {
        off = p.same.off;
        max_data = p.same.max_data;
        fin_off = p.same.fin_off;
        emit_off = p.same.emit_off;
        acked = p.same.acked;
        content = copied-same;
        rest =
            ap
              (λ (t : SendBuf). record t {
                bufs = set v.buf.bufs v.buf.pos used;
                pos = if ltb amount (Chunk.len b) then v.buf.pos else v.buf.pos + 1;
                len = v.buf.len - amount;
              })
              p.same.rest;
      };
      shape =
          ap (λ k. copy_at k part v.out) {x = v.next_off - out_off} {y = length w}
            (omega (arith, p.place))
          ∙ ap (copy_at (length w) part) p.shape
          ∙ copy_at_lem w part out;
      room = omega (arith, p.room, length-append w part, length-part);
      place = omega (arith, p.place, e, length-append w part, length-part);
      before = copied-end;
      bytes = copied-bytes e;
      count = omega (arith, p.count, length-append w part, length-part, count-le);
      due = copied-due e;
    }
