-- ===== src/Stream/Waiting.antt =====
-- SendBuf of quiche/src/stream/send_buf.rs: the bytes that are to be sent, where a buffer is added or read from.
use quirl.Stream.RangeBuf.{RangeBuf, consume, is_empty}
use quirl.Stream.RangeBuf as Chunk
use quirl.Stream.SendBuf.{front_of}
use quirl.Stream.Split
use quirl.Stream.Chain.{Chain, begins, AllEmpty}
use quirl.Stream.Rewound.{unsent, pending}
use mathlib.Core.Path.{subst}
use quirl.Common.{
  ℕ, zero, suc, ◌+◌, ◌≤◌, ◌<◌, ◌≡◌, refl, sym, ap, ◌∙◌, arith, List, [], ◌∷◌, ◌++◌, length,
  get_elem?, set, take, drop, Bool, true, false, Bool-cases, ltb, leb, ◌||◌, ◌&&◌, some, inl, inr,
}

or_assoc : (a b c : Bool) → ((a || b) || c) ≡ (a || (b || c))
or_assoc true b c = refl
or_assoc false b c = refl

or_false : (a : Bool) → (a || false) ≡ a
or_false true = refl
or_false false = refl

pub pending-append :
    (bs : List RangeBuf) (b : RangeBuf) (o : ℕ)
    → pending (bs ++ (b ∷ [])) o ≡ (pending bs o || unsent b o)
pending-append [] b o = or_false (unsent b o)
pending-append (x ∷ bs) b o =
    ap (λ t. unsent x o || t) (pending-append bs b o)
    ∙ sym (or_assoc (unsent x o) (pending bs o) (unsent b o))

-- All of a new buffer is to be sent.
pub unsent-from :
    (chunk : List ℕ) (off o : ℕ) (fin : Bool)
    → unsent (Chunk.from chunk off fin) o ≡ (leb off o && ltb o (off + length chunk))
unfolding Chunk.from Chunk.off Chunk.max_off Chunk.len
unsent-from chunk off o fin = ground arith

unsent-empty : (b : RangeBuf) (o : ℕ) → Chunk.len b ≡ 0 → unsent b o ≡ false
unfolding Chunk.max_off
unsent-empty b o e = ground arith

-- What is to be sent lies behind the beginning.
pending-begins :
    (bs : List RangeBuf) (end o : ℕ) → Chain bs end → o < begins bs end → pending bs o ≡ false
unfolding Chunk.max_off Chunk.off Chunk.len
pending-begins [] end o c h = refl
pending-begins (b ∷ bs) end o c h =
    ground (arith, c.1, c.0.begun, c.0.within, c.0.placed, pending-begins bs end o c.2)

pending-before :
    (b : RangeBuf) (bs : List RangeBuf) (end o : ℕ)
    → Chain (b ∷ bs) end
    → o < Chunk.off b
    → (unsent b o || pending bs o) ≡ false
unfolding Chunk.max_off Chunk.off Chunk.len
pending-before b bs end o c h =
    ground (arith, c.1, c.0.begun, c.0.within, c.0.placed, pending-begins bs end o c.2)

unsent-consume :
    (n o : ℕ) (b : RangeBuf)
    → Split.IsValid b
    → n ≤ Chunk.len b
    → unsent (consume n b) o ≡ (unsent b o && leb (Chunk.off b + n) o)
unfolding Chunk.max_off Chunk.off Chunk.len consume
unsent-consume n o b v h = ground (arith, v.begun, v.within, v.placed)

pub and_true : (a : Bool) → a ≡ (a && true)
and_true true = refl
and_true false = refl

within-begins :
    (b : RangeBuf) (bs : List RangeBuf) (end n : ℕ)
    → Chain (b ∷ bs) end
    → n ≤ Chunk.len b
    → Chunk.off b + n ≤ begins bs end
unfolding Chunk.off Chunk.len
within-begins b bs end n c h = omega (arith, c.1, c.0.begun, c.0.within, c.0.placed)

pending-rest :
    (b : RangeBuf) (bs : List RangeBuf) (end n o : ℕ)
    → Chain (b ∷ bs) end
    → n ≤ Chunk.len b
    → pending bs o ≡ (pending bs o && leb (Chunk.off b + n) o)
pending-rest b bs end n o c h = elim (Bool-cases (leb (Chunk.off b + n) o)) [
  | inl past ↦ rw past (and_true (pending bs o))
  | inr short ↦
      let below : o < Chunk.off b + n = ground (arith, short) in
      rw (pending-begins bs end o c.2 (omega (arith, below, within-begins b bs end n c h))) refl
]

or_and : (a b c : Bool) → ((a && c) || (b && c)) ≡ ((a || b) && c)
or_and true true true = refl
or_and true true false = refl
or_and true false true = refl
or_and true false false = refl
or_and false b c = refl

-- It lies behind the first byte to be sent.
pub pending-front :
    (bs : List RangeBuf) (i end o : ℕ)
    → Chain bs end
    → AllEmpty (take i bs)
    → o < front_of end (drop i bs)
    → pending bs o ≡ false
unfolding front_of
pending-front [] i end o c e h = refl
pending-front (b ∷ bs) zero end o c e h = elim (Bool-cases (is_empty b)) [
  | inl z ↦
      rw (unsent-empty b o (unfold is_empty in ground arith))
        (pending-front bs zero end o c.2 tt (rw z at h))
  | inr z ↦ pending-before b bs end o c (rw z at h)
]
pending-front (b ∷ bs) (suc i) end o c e h =
    rw (unsent-empty b o e.0) (pending-front bs i end o c.2 e.1 h)

-- Of a buffer that is read from, and that those before it leave first, what was read is not to be
-- sent any more.
pub pending-consume :
    (bs : List RangeBuf) (i end n o : ℕ) (b : RangeBuf)
    → Chain bs end
    → get_elem? bs i ≡ some b
    → AllEmpty (take i bs)
    → n ≤ Chunk.len b
    → pending (set bs i (consume n b)) o ≡ (pending bs o && leb (Chunk.off b + n) o)
pending-consume [] i end n o b c g e h = refl
pending-consume (x ∷ bs) zero end n o b c g e h =
    subst
      (λ y.
        (unsent (consume n b) o || pending bs o)
        ≡ ((unsent y o || pending bs o) && leb (Chunk.off b + n) o))
      first
      (ap (λ t. unsent (consume n b) o || t) (pending-rest b bs end n o (rw (← first) at c) h)
        ∙ ap (λ t. t || (pending bs o && leb (Chunk.off b + n) o))
            (unsent-consume n o b (rw (← first) at c.0) h)
        ∙ or_and (unsent b o) (pending bs o) (leb (Chunk.off b + n) o))
  where
    first : b ≡ x
    first = cc
pending-consume (x ∷ bs) (suc i) end n o b c g e h =
    rw (unsent-empty x o e.0) (pending-consume bs i end n o b c.2 g e.1 h)
