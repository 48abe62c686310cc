-- ===== src/Stream/Acked.antt =====
-- SendBuf::ack_and_drop of quiche/src/stream/send_buf.rs.
use quirl.Ranges
use quirl.Ranges.{RangeSet}
use quirl.Stream.RangeBuf.{RangeBuf}
use quirl.Stream.RangeBuf as Chunk
use quirl.Stream.SendBuf.{
  SendBuf, with_acked, and_drop, ack_off, first_end, acked_front, drop_acked, ack_and_drop,
}
use quirl.Stream.Split
use quirl.Stream.Chain.{Chain, total, AllEmpty, content, end-max_off}
use quirl.Stream.Unsent.{IsValid}
use mathlib.Core.Path.{subst}
use native.Mathlib.Numerals.{one-add}
use quirl.Common.{
  sym, ◌∙◌, ℕ, zero, suc, ◌+◌, ◌-◌, ◌≤◌, ◌≡◌, refl, ap, arith, List, [], ◌∷◌, length, length-drop,
  take, drop, true, false, ltb, leb, ◌==◌, ◌&&◌, if_elim, none, some,
}

Chain-drop : (n : ℕ) (bs : List RangeBuf) (end : ℕ) → Chain bs end → Chain (drop n bs) end
Chain-drop zero bs end c = c
Chain-drop (suc n) [] end c = tt
Chain-drop (suc n) (b ∷ bs) end c = Chain-drop n bs end c.2

total-drop : (n : ℕ) (bs : List RangeBuf) → total (drop n bs) ≤ total bs
total-drop zero bs = omega arith
total-drop (suc n) [] = omega arith
total-drop (suc n) (b ∷ bs) = omega (arith, total-drop n bs)

AllEmpty-drop :
    (n pos : ℕ) (bs : List RangeBuf)
    → AllEmpty (take pos bs)
    → AllEmpty (take (pos - n) (drop n bs))
AllEmpty-drop zero pos bs e =
    subst (λ k. AllEmpty (take k bs)) {x = pos} {y = pos - 0} (omega arith) e
AllEmpty-drop (suc n) zero bs e =
    subst (λ k. AllEmpty (take k (drop (suc n) bs))) {x = 0} {y = 0 - suc n} (omega arith) tt
AllEmpty-drop (suc n) (suc pos) [] e =
    subst (λ (t : List RangeBuf). AllEmpty t) (sym (Split.take-nil (suc pos - suc n))) tt
AllEmpty-drop (suc n) (suc pos) (b ∷ bs) e =
    subst (λ k. AllEmpty (take k (drop n bs))) {x = pos - n} {y = suc pos - suc n} (omega arith)
      (AllEmpty-drop n pos bs e.1)

acked_front-le : (a : ℕ) (bs : List RangeBuf) → acked_front a bs ≤ length bs
unfolding acked_front
acked_front-le a [] = omega arith
acked_front-le a (b ∷ bs) = ground (arith, acked_front-le a bs)

-- What is dropped lies below the offset.
content-acked :
    (a o end : ℕ) (bs : List RangeBuf)
    → Chain bs end
    → a ≤ o
    → content (drop (acked_front a bs) bs) o ≡ content bs o
unfolding acked_front
content-acked a o end [] c h = refl
content-acked a o end (b ∷ bs) c h =
    if_elim (λ n. content (drop n (b ∷ bs)) o ≡ content (b ∷ bs) o) (leb a b.off) (λ _. refl)
      (λ low.
        if_elim (λ n. content (drop n (b ∷ bs)) o ≡ content (b ∷ bs) o)
          (ltb b.off a && ltb a (Chunk.max_off b)) (λ _. refl)
          (λ below.
            rw one-add (content-acked a o end bs c.2 h ∙ past (ground (arith, end-max_off b c.0)))))
  where
    past : (leb b.off o && ltb o (b.off + b.len)) ≡ false → content bs o ≡ content (b ∷ bs) o
    past e = rw e refl

-- The first buffer reaches beyond an offset, or begins there.
abbrev pub Trimmed : ℕ → List RangeBuf → Type 0
Trimmed a [] = Unit
Trimmed a (b ∷ bs) = (leb (Chunk.max_off b) a && ltb b.off a) ≡ false

acked_front-Trimmed : (a : ℕ) (bs : List RangeBuf) → Trimmed a (drop (acked_front a bs) bs)
unfolding acked_front
acked_front-Trimmed a [] = tt
acked_front-Trimmed a (b ∷ bs) =
    if_elim (λ n. Trimmed a (drop n (b ∷ bs))) (leb a b.off) (λ high. ground arith)
      (λ low.
        if_elim (λ n. Trimmed a (drop n (b ∷ bs))) (ltb b.off a && ltb a (Chunk.max_off b))
          (λ within. ground arith) (λ below. rw one-add (acked_front-Trimmed a bs)))

acknowledged :
    (off len : ℕ) (s : SendBuf) (acked : RangeSet)
    → Ranges.insert (off, off + len) s.acked ≡ some acked
    → ack_and_drop off len s ≡ some (drop_acked off (record s { acked = acked }))
unfolding ack_and_drop
acknowledged off len s acked h = ap (λ r. and_drop off (with_acked s r)) h

pub ack_and_drop-none :
    (off len : ℕ) (s : SendBuf)
    → Ranges.insert (off, off + len) s.acked ≡ none
    → ack_and_drop off len s ≡ none
unfolding ack_and_drop
ack_and_drop-none off len s h = ap (λ r. and_drop off (with_acked s r)) h

ack_off-eq : (s t : SendBuf) → s.acked ≡ t.acked → ack_off s ≡ ack_off t
unfolding ack_off
ack_off-eq s t e = ap (λ a. first_end (Ranges.iter a)) e

Dropped : ℕ → SendBuf → SendBuf → Type 0
Dropped off s t =
    IsValid t
    × (t.acked ≡ s.acked)
    × (t.off ≡ s.off)
    × ((o : ℕ) → ack_off s ≤ o → content t.bufs o ≡ content s.bufs o)
    × (off ≤ ack_off s → Trimmed (ack_off s) t.bufs)

drop_acked_lem : (off : ℕ) (s : SendBuf) → IsValid s → Dropped off s (drop_acked off s)
unfolding drop_acked Dropped
drop_acked_lem off s v =
    if_elim (Dropped off s) (length s.bufs == 0) (λ e. same (λ _. no_bufs s.bufs e))
      (λ _.
        if_elim (Dropped off s) (ltb (ack_off s) off) (λ e. same (λ le. absurd (ground arith)))
          (λ _. (
            dropped,
            refl,
            refl,
            λ o. content-acked (ack_off s) o s.off s.bufs v.chain,
            λ _. acked_front-Trimmed (ack_off s) s.bufs,
          )))
  where
    no_bufs : (bs : List RangeBuf) → (length bs == 0) ≡ true → Trimmed (ack_off s) bs
    no_bufs [] e = tt
    no_bufs (b ∷ bs) e = absurd (ground arith)

    same : (off ≤ ack_off s → Trimmed (ack_off s) s.bufs) → Dropped off s s
    same h = (v, refl, refl, λ o h. refl, h)

    dropped :
        let n = acked_front (ack_off s) s.bufs in
        IsValid (record s { bufs = drop n s.bufs; pos = s.pos - n })
    dropped = record {
      chain = Chain-drop (acked_front (ack_off s) s.bufs) s.bufs s.off v.chain;
      counted = omega (arith, total-drop (acked_front (ack_off s) s.bufs) s.bufs, v.counted);
      inside = omega (arith, length-drop (acked_front (ack_off s) s.bufs) s.bufs, v.inside);
      sent = AllEmpty-drop (acked_front (ack_off s) s.bufs) s.pos s.bufs v.sent;
      limited = v.limited;
      emitted = v.emitted;
    }

-- In a valid state, where the set takes the range that was acknowledged: ack_and_drop keeps the state
-- valid, records the range, and every byte from the end of what is acknowledged without a gap on stays
-- where it was. Where the range begins at that end or below it, the first buffer that is left is not
-- one that begins below the end and reaches at most up to it.
pub ack_and_drop_lem :
    (off len : ℕ) (s : SendBuf) (acked : RangeSet)
    → IsValid s
    → Ranges.insert (off, off + len) s.acked ≡ some acked
    → (t : SendBuf) × (ack_and_drop off len s ≡ some t)
      × IsValid t
      × (t.acked ≡ acked)
      × (t.off ≡ s.off)
      × ((o : ℕ) → ack_off t ≤ o → content t.bufs o ≡ content s.bufs o)
      × (off ≤ ack_off t → Trimmed (ack_off t) t.bufs)
ack_and_drop_lem off len s acked v h =
    let s' : SendBuf = record s { acked = acked } in
    let d = drop_acked_lem off s' (record {
      chain = v.chain;
      counted = v.counted;
      inside = v.inside;
      sent = v.sent;
      limited = v.limited;
      emitted = v.emitted;
    }) in
    let e = ack_off-eq (drop_acked off s') s' (unfold Dropped in d.1) in
    unfold Dropped in
    (
      drop_acked off s',
      acknowledged off len s acked h,
      d.0,
      d.1,
      d.2,
      λ o le. d.3 o (subst (λ k. k ≤ o) e le),
      λ le. rw e (d.4 (subst (λ k. off ≤ k) e le)),
    )
