-- ===== src/Stream/Rewound.antt =====
-- A buffer that SendBuf::retransmit of quiche/src/stream/send_buf.rs winds back, and what it has to send.
use quirl.Stream.RangeBuf.{RangeBuf, split_off}
use quirl.Stream.RangeBuf as Chunk
use quirl.Stream.SendBuf.{rewound, grown}
use quirl.Stream.Split
use quirl.Stream.Chain.{Chain, begins}
use quirl.Common.{
  ℕ, ◌+◌, ◌-◌, ◌≤◌, ◌<◌, ◌≡◌, refl, sym, arith, List, [], ◌∷◌, Bool, true, false, ltb, leb, ◌||◌,
  ◌&&◌, Bool-cases, some, inl, inr, ltb-false,
}

-- A byte of the buffer that is to be sent, and any byte of it.
abbrev pub unsent : RangeBuf → ℕ → Bool
unsent b o = leb (Chunk.off b) o && ltb o (Chunk.max_off b)

abbrev pub inside : RangeBuf → ℕ → Bool
inside b o = leb b.off o && ltb o (b.off + b.len)

-- The same of the buffers.
abbrev pub pending : List RangeBuf → ℕ → Bool
pending [] o = false
pending (b ∷ bs) o = unsent b o || pending bs o

abbrev pub buffered : List RangeBuf → ℕ → Bool
buffered [] o = false
buffered (b ∷ bs) o = inside b o || buffered bs o

-- A buffer that is wound back to an offset.
pub rewound-IsValid : (off : ℕ) (b : RangeBuf) → Split.IsValid b → Split.IsValid (rewound off b)
unfolding rewound
rewound-IsValid off b v = record {
  begun = ground arith;
  within = ground arith;
  fits = v.fits;
  placed = v.placed;
}

pub rewound-pos : (off : ℕ) (b : RangeBuf) → Split.IsValid b → (rewound off b).pos ≤ b.pos
unfolding rewound
rewound-pos off b v = ground (arith, v.begun)

pub grown_lem :
    (off : ℕ) (b : RangeBuf) (more : List RangeBuf)
    → Split.IsValid b
    → grown off b more ≡ some (rewound off b, more, b.pos - (rewound off b).pos)
unfolding grown
grown_lem off b more v = rw (ltb-false b.pos (rewound off b).pos (rewound-pos off b v)) refl

pub len-rewound :
    (off : ℕ) (b : RangeBuf)
    → Split.IsValid b
    → Chunk.len (rewound off b) ≡ Chunk.len b + (b.pos - (rewound off b).pos)
unfolding Chunk.len rewound
len-rewound off b v =
    omega (arith, v.begun, v.within, rewound-pos off b v, (rewound-IsValid off b v).begun)

pub unsent-rewound :
    (off o : ℕ) (b : RangeBuf)
    → Split.IsValid b
    → off ≤ b.off + b.len
    → unsent (rewound off b) o ≡ (unsent b o || (leb off o && inside b o))
unfolding Chunk.max_off Chunk.off Chunk.len rewound
unsent-rewound off o b v h = ground (arith, v.begun, v.within, v.placed)

pub buffered-begins :
    (bs : List RangeBuf) (end o : ℕ) → Chain bs end → o < begins bs end → buffered bs o ≡ false
buffered-begins [] end o c h = refl
buffered-begins (b ∷ bs) end o c h = ground (arith, c.1, buffered-begins bs end o c.2)

pub and_false : (a : Bool) → (a && false) ≡ false
and_false true = refl
and_false false = refl

pub out-of-range :
    (off max_off o : ℕ) (bs : List RangeBuf) (end : ℕ)
    → Chain bs end
    → max_off ≤ begins bs end
    → ((leb off o && ltb o max_off) && buffered bs o) ≡ false
out-of-range off max_off o bs end c h = elim (Bool-cases (ltb o max_off)) [
  | inl below ↦
      rw (buffered-begins bs end o c (ground arith)) (and_false (leb off o && ltb o max_off))
  | inr above ↦ rw above (unfold-false (leb off o) (buffered bs o))
]
  where
    unfold-false : (a c : Bool) → ((a && false) && c) ≡ false
    unfold-false true c = refl
    unfold-false false c = refl

pub or_false : (a c : Bool) → c ≡ false → a ≡ (a || c)
or_false true c e = refl
or_false false c e = sym e

pub skip-due :
    (u q i x y : Bool) → (q && i) ≡ false → (u || (x || (q && y))) ≡ ((u || x) || (q && (i || y)))
skip-due true q i x y e = refl
skip-due false false i x y e = refl
skip-due false true false x y e = refl
skip-due false true true x y e = cc

pub mixed-due :
    (u q i x y : Bool) → ((u || (q && i)) || (x || (q && y))) ≡ ((u || x) || (q && (i || y)))
mixed-due true q i x y = refl
mixed-due false false i x y = refl
mixed-due false true true true y = refl
mixed-due false true true false y = refl
mixed-due false true false x y = refl

pub far-inside :
    (off max_off o : ℕ) (b : RangeBuf)
    → b.off + b.len < off
    → ((leb off o && ltb o max_off) && inside b o) ≡ false
far-inside off max_off o b h = ground arith

pub near-inside :
    (off max_off o : ℕ) (b : RangeBuf)
    → b.off + b.len ≤ max_off
    → (leb off o && inside b o) ≡ ((leb off o && ltb o max_off) && inside b o)
near-inside off max_off o b h = ground arith

pub parts-due :
    (uh ut u ih it i q x y : Bool)
    → (uh || ut) ≡ u
    → (ih || it) ≡ i
    → ((uh || (ut || x)) || (q && (ih || (it || y)))) ≡ ((u || x) || (q && (i || y)))
parts-due true ut u ih it i q x y e f = rw (← e) refl
parts-due false ut u true it i q x y e f = rw (← e, ← f) refl
parts-due false ut u false it i q x y e f = rw (← e, ← f) refl
