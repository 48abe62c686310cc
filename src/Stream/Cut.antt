-- ===== src/Stream/Cut.antt =====
-- The round of SendBuf::retransmit of quiche/src/stream/send_buf.rs that splits a buffer.
use quirl.Stream.RangeBuf.{RangeBuf, split_off}
use quirl.Stream.RangeBuf as Chunk
use quirl.Stream.SendBuf.{rewound}
use quirl.Stream.Split
use quirl.Stream.Chain.{Chain, AllEmpty, content}
use mathlib.Core.Path.{subst}
use quirl.Common.{
  ℕ, ◌+◌, ◌-◌, ◌≤◌, ◌<◌, ◌≡◌, refl, ap, ◌∙◌, min, max, arith, List, ◌∷◌, take, false, ltb, leb,
  ◌||◌, ◌&&◌, le_or_lt, get_elem?, some, inl, inr, ltb-false,
}
use quirl.Stream.Rewound.{unsent, inside, pending, buffered, parts-due}
use quirl.Stream.Resent.{Resent, Resent-nothing, Resent-rewound}

-- The two parts of a buffer that reaches beyond the range.
abbrev pub head_of : ℕ → RangeBuf → RangeBuf
head_of at b = record b { pos = min b.pos (b.start + at); len = at; fin = false }

abbrev pub tail_of : ℕ → RangeBuf → RangeBuf
tail_of at b = record b {
  start = b.start + at;
  pos = max b.pos (b.start + at);
  len = b.len - at;
  off = b.off + at;
}

pub split_off-eq :
    (at : ℕ) (b : RangeBuf) → at ≤ b.len → split_off at b ≡ some (tail_of at b, head_of at b)
unfolding split_off
split_off-eq at b h = rw (ltb-false b.len at h) refl

pub head_of-IsValid :
    (at : ℕ) (b : RangeBuf) → Split.IsValid b → at ≤ b.len → Split.IsValid (head_of at b)
head_of-IsValid at b v h = omega (arith, v.begun, v.within, v.fits, v.placed)

pub tail_of-IsValid :
    (at : ℕ) (b : RangeBuf) → Split.IsValid b → at ≤ b.len → Split.IsValid (tail_of at b)
tail_of-IsValid at b v h = omega (arith, v.begun, v.within, v.fits, v.placed)

pub len-parts :
    (at : ℕ) (b : RangeBuf)
    → Split.IsValid b
    → at ≤ b.len
    → Chunk.len (head_of at b) + Chunk.len (tail_of at b) ≡ Chunk.len b
unfolding Chunk.len
len-parts at b v h = omega (arith, v.begun, v.within)

pub unsent-parts :
    (at o : ℕ) (b : RangeBuf)
    → Split.IsValid b
    → at ≤ b.len
    → (unsent (head_of at b) o || unsent (tail_of at b) o) ≡ unsent b o
unfolding Chunk.max_off Chunk.off Chunk.len
unsent-parts at o b v h = ground (arith, v.begun, v.within, v.placed)

pub inside-parts :
    (at o : ℕ) (b : RangeBuf)
    → at ≤ b.len
    → (inside (head_of at b) o || inside (tail_of at b) o) ≡ inside b o
inside-parts at o b h = ground arith

pub content-parts :
    (at o : ℕ) (b : RangeBuf) (bs : List RangeBuf)
    → Split.IsValid b
    → at ≤ b.len
    → content (head_of at b ∷ tail_of at b ∷ bs) o ≡ content (b ∷ bs) o
content-parts at o b bs v h = elim (le_or_lt b.off o) [
  | inl from ↦ elim (le_or_lt (b.off + at) o) [
    | inl late ↦ ground (
      arith,
      ap (get_elem? b.vec) {x = b.start + at + (o - (b.off + at))} {y = b.start + (o - b.off)}
          (omega arith),
    )
    | inr early ↦ ground arith
  ]
  | inr before ↦ ground arith
]

-- The range ends within a buffer: the loop ends with its first part.
pub Resent-split :
    (off max_off end i pos len : ℕ) (b : RangeBuf) (bs : List RangeBuf)
    → Chain (b ∷ bs) end
    → off ≤ max_off
    → b.off < max_off
    → max_off < b.off + b.len
    → let h = head_of (max_off - b.off) b in
      Resent off max_off end i pos len (b ∷ bs) (
        rewound off h ∷ tail_of (max_off - b.off) b ∷ bs,
        min pos i,
        len + (h.pos - (rewound off h).pos),
      )
Resent-split off max_off end i pos len b bs c le lo hi = joined (
    Resent-rewound off max_off end i pos len (head_of at b) (tail_of at b ∷ bs)
      (head_of-IsValid at b c.0 small, omega arith, rest) (omega arith) (omega arith)
      (Resent-nothing off max_off end (i + 1) (min pos i) _ (tail_of at b ∷ bs) rest (omega arith) (
        subst (λ k. AllEmpty (take k (tail_of at b ∷ bs))) {x = 0} {y = min pos i - (i + 1)}
          (omega arith) tt)))
  where
    at : ℕ
    at = max_off - b.off

    small : at ≤ b.len
    small = omega arith

    rest : Chain (tail_of at b ∷ bs) end
    rest = (tail_of-IsValid at b c.0 small, omega (arith, c.1), c.2)

    joined :
        {r : List RangeBuf × ℕ × ℕ}
        → Resent off max_off end i pos len (head_of at b ∷ tail_of at b ∷ bs) r
        → Resent off max_off end i pos len (b ∷ bs) r
    joined {r} p = record {
      chain = p.chain;
      first = p.first;
      count = omega (arith, p.count, len-parts at b c.0 small);
      sent = p.sent;
      lower = p.lower;
      longer = omega (arith, p.longer);
      due = λ o.
          p.due o
          ∙ parts-due (unsent (head_of at b) o) (unsent (tail_of at b) o) (unsent b o)
              (inside (head_of at b) o) (inside (tail_of at b) o) (inside b o)
              (leb off o && ltb o max_off) (pending bs o) (buffered bs o)
              (unsent-parts at o b c.0 small) (inside-parts at o b small);
      same = λ o. p.same o ∙ content-parts at o b bs c.0 small;
    }
