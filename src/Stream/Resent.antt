-- ===== src/Stream/Resent.antt =====
-- The rounds of SendBuf::retransmit of quiche/src/stream/send_buf.rs over whole buffers.
use quirl.Stream.RangeBuf.{RangeBuf}
use quirl.Stream.SendBuf.{rewound}
use quirl.Stream.Chain.{Chain, begins, total, AllEmpty, content}
use mathlib.Core.Path.{subst}
use quirl.Common.{
  ℕ, zero, suc, ◌+◌, ◌-◌, ◌≤◌, ◌<◌, ◌≡◌, refl, sym, ap, ◌∙◌, min, arith, List, ◌∷◌, length, take,
  ltb, leb, ◌||◌, ◌&&◌,
}
use quirl.Stream.Rewound.{
  unsent, inside, pending, buffered, rewound-IsValid, len-rewound, unsent-rewound, out-of-range,
  or_false, skip-due, mixed-due, far-inside, near-inside,
}

-- What the loop gives of the buffers from an index on: they have the same bytes at the same places,
-- the length counts what is added, and to be sent is what was and what lies in the range.
pub record Resent (off max_off end i pos len : ℕ) (bs : List RangeBuf) (r : List RangeBuf × ℕ × ℕ)
    : Type 0 where
  pub chain : Chain r.0 end
  pub first : begins r.0 end ≡ begins bs end
  pub count : r.2 + total bs ≡ len + total r.0
  pub sent : AllEmpty (take (r.1 - i) r.0)
  pub lower : r.1 ≤ pos
  pub longer : length bs ≤ length r.0
  pub due :
      (o : ℕ) → pending r.0 o ≡ (pending bs o || ((leb off o && ltb o max_off) && buffered bs o))
  pub same : (o : ℕ) → content r.0 o ≡ content bs o

pub Resent-nothing :
    (off max_off end i pos len : ℕ) (bs : List RangeBuf)
    → Chain bs end
    → max_off ≤ begins bs end
    → AllEmpty (take (pos - i) bs)
    → Resent off max_off end i pos len bs (bs, pos, len)
Resent-nothing off max_off end i pos len bs c h e = record {
  chain = c;
  first = refl;
  count = refl;
  sent = e;
  lower = omega arith;
  longer = omega arith;
  due = λ o.
      or_false (pending bs o) ((leb off o && ltb o max_off) && buffered bs o)
        (out-of-range off max_off o bs end c h);
  same = λ o. refl;
}

pub AllEmpty-tail :
    (n : ℕ) (b : RangeBuf) (bs : List RangeBuf)
    → AllEmpty (take n (b ∷ bs))
    → AllEmpty (take (n - 1) bs)
AllEmpty-tail zero b bs h = subst (λ k. AllEmpty (take k bs)) {x = 0} {y = 0 - 1} (omega arith) tt
AllEmpty-tail (suc n) b bs h =
    subst (λ k. AllEmpty (take k bs)) {x = n} {y = suc n - 1} (omega arith) h.1

pub AllEmpty-cons :
    (n m : ℕ) (b : RangeBuf) (bs cs : List RangeBuf)
    → AllEmpty (take m (b ∷ bs))
    → n ≤ m
    → AllEmpty (take (n - 1) cs)
    → AllEmpty (take n (b ∷ cs))
AllEmpty-cons zero m b bs cs h le e = tt
AllEmpty-cons (suc n) zero b bs cs h le e = absurd (omega arith)
AllEmpty-cons (suc n) (suc m) b bs cs h le e =
    (h.0, subst (λ k. AllEmpty (take k cs)) {x = suc n - 1} {y = n} (omega arith) e)

-- A buffer that is passed over.
pub Resent-skip :
    (off max_off end i pos len : ℕ) (b : RangeBuf) (bs : List RangeBuf) {r : List RangeBuf × ℕ × ℕ}
    → Chain (b ∷ bs) end
    → b.off + b.len < off
    → AllEmpty (take (pos - i) (b ∷ bs))
    → Resent off max_off end (i + 1) pos len bs r
    → Resent off max_off end i pos len (b ∷ bs) (b ∷ r.0, r.1, r.2)
Resent-skip off max_off end i pos len b bs {r} c lt e p = record {
  chain = (c.0, c.1 ∙ sym p.first, p.chain);
  first = refl;
  count = omega (arith, p.count);
  sent = AllEmpty-cons (r.1 - i) (pos - i) b bs r.0 e (omega (arith, p.lower)) (
      subst (λ k. AllEmpty (take k r.0)) {x = r.1 - (i + 1)} {y = r.1 - i - 1} (omega arith)
        p.sent);
  lower = p.lower;
  longer = omega (arith, p.longer);
  due = λ o.
      ap (λ t. unsent b o || t) (p.due o)
      ∙ skip-due (unsent b o) (leb off o && ltb o max_off) (inside b o) (pending bs o)
          (buffered bs o) (far-inside off max_off o b lt);
  same = λ o. rw (p.same o) refl;
}

-- A buffer that is wound back, before others for which the loop went on.
pub Resent-rewound :
    (off max_off end i pos len : ℕ) (b : RangeBuf) (bs : List RangeBuf) {r : List RangeBuf × ℕ × ℕ}
    → Chain (b ∷ bs) end
    → off ≤ b.off + b.len
    → b.off + b.len ≤ max_off
    → Resent off max_off end (i + 1) (min pos i) (len + (b.pos - (rewound off b).pos)) bs r
    → Resent off max_off end i pos len (b ∷ bs) (rewound off b ∷ r.0, r.1, r.2)
Resent-rewound off max_off end i pos len b bs {r} c h le p = record {
  chain = unfold rewound in (rewound-IsValid off b c.0, c.1 ∙ sym p.first, p.chain);
  first = unfold rewound in refl;
  count = omega (arith, p.count, len-rewound off b c.0);
  sent =
      subst (λ k. AllEmpty (take k (rewound off b ∷ r.0))) {x = 0} {y = r.1 - i}
        (omega (arith, p.lower)) tt;
  lower = omega (arith, p.lower);
  longer = omega (arith, p.longer);
  due = λ o.
      ap (λ t. t || pending r.0 o)
        (unsent-rewound off o b c.0 h ∙ ap (λ t. unsent b o || t) (near-inside off max_off o b le))
      ∙ ap (λ t. (unsent b o || ((leb off o && ltb o max_off) && inside b o)) || t) (p.due o)
      ∙ mixed-due (unsent b o) (leb off o && ltb o max_off) (inside b o) (pending bs o)
          (buffered bs o);
  same = λ o. unfold rewound in rw (p.same o) refl;
}
