-- ===== src/Stream/Resend.antt =====
-- SendBuf::retransmit of quiche/src/stream/send_buf.rs.
use quirl.Stream.RangeBuf.{RangeBuf, split_off}
use quirl.Stream.RangeBuf as Chunk
use quirl.Stream.SendBuf.{
  SendBuf, rewound, rewind, grown_head, onto, retransmit_loop, retransmit, ack_off,
}
use quirl.Stream.Split
use quirl.Stream.Chain.{Chain, total, AllEmpty, content, end-max_off}
use quirl.Stream.Unsent.{IsValid}
use mathlib.Core.Path.{subst}
use quirl.Common.{
  ℕ, zero, suc, ◌+◌, ◌-◌, ◌≤◌, ◌<◌, ◌≡◌, refl, sym, ap, ◌∙◌, min, arith, List, [], ◌∷◌, ◌++◌,
  length, take, Bool, true, false, not, ltb, leb, ◌==◌, ◌||◌, ◌&&◌, if_elim, Bool-cases, le_or_lt,
  Option, none, some, inl, inr,
}
use quirl.Stream.Rewound.{pending, buffered, grown_lem, and_false, or_false}
use quirl.Stream.Resent.{Resent, Resent-nothing, AllEmpty-tail, Resent-skip, Resent-rewound}
use quirl.Stream.Cut.{head_of, tail_of, split_off-eq, head_of-IsValid, Resent-split}

-- The loop ends without a panic, whatever the range.
Returned : (off max_off end i pos len : ℕ) → List RangeBuf → Option (List RangeBuf × ℕ × ℕ) → Type 0
Returned off max_off end i pos len bs o =
    (r : List RangeBuf × ℕ × ℕ) × (o ≡ some r) × Resent off max_off end i pos len bs r

loop-stop :
    (n off max_off i pos len : ℕ) (b : RangeBuf) (bs : List RangeBuf)
    → max_off ≤ b.off
    → retransmit_loop n off max_off i pos len (b ∷ bs) ≡ some (b ∷ bs, pos, len)
unfolding retransmit_loop
loop-stop zero off max_off i pos len b bs h = refl
loop-stop (suc n) off max_off i pos len b bs h = ground arith

loop-skip :
    (n off max_off i pos len : ℕ) (b : RangeBuf) (bs : List RangeBuf)
    → b.off < max_off
    → Chunk.max_off b < off
    → retransmit_loop (suc n) off max_off i pos len (b ∷ bs)
      ≡ onto b (retransmit_loop n off max_off (i + 1) pos len bs)
unfolding retransmit_loop
loop-skip n off max_off i pos len b bs h k = ground arith

loop-rewind :
    (n off max_off i pos len : ℕ) (b : RangeBuf) (bs : List RangeBuf) {b' : RangeBuf}
    {new_buf : List RangeBuf} {more : ℕ}
    → b.off < max_off
    → off ≤ Chunk.max_off b
    → rewind off max_off b ≡ some (b', new_buf, more)
    → retransmit_loop (suc n) off max_off i pos len (b ∷ bs)
      ≡ onto b' (retransmit_loop n off max_off (i + 1) (min pos i) (len + more) (new_buf ++ bs))
unfolding retransmit_loop
loop-rewind n off max_off i pos len b bs h k e = ground arith

not-between : (x y z : ℕ) → (ltb x y && ltb y z) ≡ true → z ≤ y → ⊥
not-between x y z t h = ground arith

between : (x y z : ℕ) → x < y → y < z → (ltb x y && ltb y z) ≡ true
between x y z h k = ground arith

rewind-whole :
    (off max_off : ℕ) (b : RangeBuf)
    → Split.IsValid b
    → b.off + b.len ≤ max_off
    → rewind off max_off b ≡ some (rewound off b, [], b.pos - (rewound off b).pos)
unfolding rewind
rewind-whole off max_off b v h =
    if_elim (λ r. r ≡ some (rewound off b, [], b.pos - (rewound off b).pos))
      (ltb b.off max_off && ltb max_off (Chunk.max_off b))
      (λ t. absurd (not-between b.off max_off (Chunk.max_off b) t (omega (arith, end-max_off b v))))
      (λ _. grown_lem off b [] v)

rewind-cut :
    (off max_off : ℕ) (b : RangeBuf)
    → Split.IsValid b
    → b.off < max_off
    → max_off < b.off + b.len
    → let h = head_of (max_off - b.off) b in
      rewind off max_off b
      ≡ some (rewound off h, tail_of (max_off - b.off) b ∷ [], h.pos - (rewound off h).pos)
unfolding rewind
rewind-cut off max_off b v lo hi =
    if_elim
      (λ r. r ≡ some (rewound off h, tail_of (max_off - b.off) b ∷ [], h.pos - (rewound off h).pos))
      (ltb b.off max_off && ltb max_off (Chunk.max_off b))
      (λ _.
        ap (grown_head off) (split_off-eq (max_off - b.off) b (omega arith))
        ∙ grown_lem off h (tail_of (max_off - b.off) b ∷ [])
            (head_of-IsValid (max_off - b.off) b v (omega arith)))
      (λ f. cc (between b.off max_off (Chunk.max_off b) lo (omega (arith, end-max_off b v))))
  where
    h : RangeBuf
    h = head_of (max_off - b.off) b

retransmit_loop_lem :
    (n off max_off end i pos len : ℕ) (bs : List RangeBuf)
    → length bs ≡ n
    → off ≤ max_off
    → Chain bs end
    → AllEmpty (take (pos - i) bs)
    → Returned off max_off end i pos len bs (retransmit_loop n off max_off i pos len bs)
unfolding retransmit_loop Returned
retransmit_loop_lem zero off max_off end i pos len [] h le c e = (([], pos, len), refl, empty)
  where
    empty : Resent off max_off end i pos len [] ([], pos, len)
    empty = record {
      chain = tt;
      first = refl;
      count = refl;
      sent = e;
      lower = omega arith;
      longer = omega arith;
      due = λ o.
          or_false false ((leb off o && ltb o max_off) && false)
            (and_false (leb off o && ltb o max_off));
      same = λ o. refl;
    }
retransmit_loop_lem zero off max_off end i pos len (b ∷ bs) h le c e = absurd (omega arith)
retransmit_loop_lem (suc n) off max_off end i pos len [] h le c e = absurd (omega arith)
retransmit_loop_lem (suc n) off max_off end i pos len (b ∷ bs) h le c e =
    elim (le_or_lt max_off b.off) [
      | inl over ↦ (
        (b ∷ bs, pos, len),
        loop-stop (suc n) off max_off i pos len b bs over,
        Resent-nothing off max_off end i pos len (b ∷ bs) c over e,
      )
      | inr under ↦ elim (le_or_lt off (b.off + b.len)) [
        | inr far ↦
            let (r, eq, p) =
              retransmit_loop_lem n off max_off end (i + 1) pos len bs (omega arith) le c.2 (
                subst (λ k. AllEmpty (take k bs)) {x = pos - i - 1} {y = pos - (i + 1)}
                  (omega arith) (AllEmpty-tail (pos - i) b bs e)) in
            (
              (b ∷ r.0, r.1, r.2),
              loop-skip n off max_off i pos len b bs under (omega (arith, end-max_off b c.0))
                  ∙ ap (onto b) eq,
              Resent-skip off max_off end i pos len b bs c far e p,
            )
        | inl near ↦ elim (le_or_lt (b.off + b.len) max_off) [
          | inl whole ↦
              let (r, eq, p) =
                retransmit_loop_lem n off max_off end (i + 1) (min pos i)
                  (len + (b.pos - (rewound off b).pos)) bs (omega arith) le c.2
                  (subst (λ k. AllEmpty (take k bs)) {x = 0} {y = min pos i - (i + 1)} (omega arith)
                    tt) in
              (
                (rewound off b ∷ r.0, r.1, r.2),
                loop-rewind n off max_off i pos len b bs under (omega (arith, end-max_off b c.0))
                      (rewind-whole off max_off b c.0 whole)
                    ∙ ap (onto (rewound off b)) eq,
                Resent-rewound off max_off end i pos len b bs c near whole p,
              )
          | inr cut ↦ (
            _,
            loop-rewind n off max_off i pos len b bs under (omega (arith, end-max_off b c.0))
                  (rewind-cut off max_off b c.0 under cut)
                ∙ ap (onto (rewound off (head_of (max_off - b.off) b))) (
                    loop-stop n off max_off (i + 1) (min pos i) _ (tail_of (max_off - b.off) b) bs
                      (omega arith)),
            Resent-split off max_off end i pos len b bs c le under cut,
          )
        ]
      ]
    ]

buffered-empty : (bs : List RangeBuf) (o : ℕ) → (length bs == 0) ≡ true → buffered bs o ≡ false
buffered-empty [] o e = refl
buffered-empty (b ∷ bs) o e = ground arith

or_true : (a : Bool) → (a || true) ≡ true
or_true true = refl
or_true false = refl

nothing-due :
    (s : SendBuf) (o : ℕ) (a q : Bool)
    → (length s.bufs == 0 || a) ≡ true
    → pending s.bufs o ≡ (pending s.bufs o || ((not a && q) && buffered s.bufs o))
nothing-due s o true q e = or_false (pending s.bufs o) false refl
nothing-due s o false q e = elim (Bool-cases (length s.bufs == 0)) [
  | inl empty ↦
      or_false (pending s.bufs o) (q && buffered s.bufs o)
        (rw (buffered-empty s.bufs o empty) (and_false q))
  | inr filled ↦ cc (or_false (length s.bufs == 0) false refl)
]

-- A valid state: where the range ends within what is acknowledged without a gap, retransmit changes
-- nothing at all. Otherwise it ends without a panic, and to be sent is exactly what was and, of the
-- bytes that are buffered, those of the range; the length grows by as many bytes, the buffered bytes
-- stay the same, and so does all but the buffers, the position and the length; the state is valid.
pub retransmit_lem :
    (off len : ℕ) (s : SendBuf)
    → IsValid s
    → (t : SendBuf) × (retransmit off len s ≡ some t)
      × IsValid t
      × ((o : ℕ)
          → pending t.bufs o ≡ (
              pending s.bufs o
              || ((not (leb (off + len) (ack_off s)) && (leb off o && ltb o (off + len)))
                  && buffered s.bufs o)))
      × ((o : ℕ) → content t.bufs o ≡ content s.bufs o)
      × (t ≡ record s { bufs = t.bufs; pos = t.pos; len = t.len })
      × (t.len + total s.bufs ≡ s.len + total t.bufs)
      × (off + len ≤ ack_off s → t ≡ s)
unfolding retransmit Returned
retransmit_lem off len s v =
    if_elim Result (length s.bufs == 0 || leb (off + len) (ack_off s))
      (λ t. (
        s,
        refl,
        v,
        λ o. nothing-due s o (leb (off + len) (ack_off s)) (leb off o && ltb o (off + len)) t,
        λ o. refl,
        refl,
        refl,
        λ h. refl,
      ))
      (λ f.
        looped (leb (off + len) (ack_off s)) refl f
          (retransmit_loop (length s.bufs) off (off + len) 0 s.pos s.len s.bufs)
          (retransmit_loop_lem (length s.bufs) off (off + len) s.off 0 s.pos s.len s.bufs refl
            (omega arith) v.chain
            (subst (λ k. AllEmpty (take k s.bufs)) {x = s.pos} {y = s.pos - 0} (omega arith)
              v.sent)))
  where
    Result : Option SendBuf → Type 0
    Result r =
        (t : SendBuf) × (r ≡ some t)
        × IsValid t
        × ((o : ℕ)
            → pending t.bufs o ≡ (
                pending s.bufs o
                || ((not (leb (off + len) (ack_off s)) && (leb off o && ltb o (off + len)))
                    && buffered s.bufs o)))
        × ((o : ℕ) → content t.bufs o ≡ content s.bufs o)
        × (t ≡ record s { bufs = t.bufs; pos = t.pos; len = t.len })
        × (t.len + total s.bufs ≡ s.len + total t.bufs)
        × (off + len ≤ ack_off s → t ≡ s)

    found :
        leb (off + len) (ack_off s) ≡ false
        → (r r' : List RangeBuf × ℕ × ℕ) → r' ≡ r
        → Resent off (off + len) s.off 0 s.pos s.len s.bufs r'
        → Result (some (record s { bufs = r.0; pos = r.1; len = r.2 }))
    found e r r' same p' =
        let p = subst (Resent off (off + len) s.off 0 s.pos s.len s.bufs) same p' in
        (
          record s { bufs = r.0; pos = r.1; len = r.2 },
          refl,
          record {
            chain = p.chain;
            counted = omega (arith, p.count, v.counted);
            inside = omega (arith, p.lower, p.longer, v.inside);
            sent = subst (λ k. AllEmpty (take k r.0)) {x = r.1 - 0} {y = r.1} (omega arith) p.sent;
            limited = v.limited;
            emitted = v.emitted;
          },
          λ o.
              p.due o
              ∙ ap
                  (λ b.
                    pending s.bufs o
                    || ((not b && (leb off o && ltb o (off + len))) && buffered s.bufs o))
                  (sym e),
          p.same,
          refl,
          p.count,
          λ h. absurd (ground arith),
        )

    looped :
        (b : Bool)
        → leb (off + len) (ack_off s) ≡ b
        → (length s.bufs == 0 || b) ≡ false
        → (o : Option (List RangeBuf × ℕ × ℕ))
        → Returned off (off + len) s.off 0 s.pos s.len s.bufs o
        → Result (elim o [
          | none ↦ none
          | some (bufs, pos, len') ↦ some (record s { bufs = bufs; pos = pos; len = len' })
        ])
    looped b e f none h = absurd (unfold Returned in nowhere h.1)
      where
        nowhere : {r : List RangeBuf × ℕ × ℕ} → none ≡ some r → ⊥
        nowhere e = cc
    looped true e f (some r) h = cc (or_true (length s.bufs == 0))
    looped false e f (some r) h = found e r h.0 (unfold Returned in cc h.1) (unfold Returned in h.2)
