-- ===== src/Stream/Chain.antt =====
-- SendBuf of quiche/src/stream/send_buf.rs: its buffers follow one another without a gap.
use quirl.Stream.RangeBuf.{RangeBuf, consume, is_empty}
use quirl.Stream.RangeBuf as Chunk
use quirl.Stream.SendBuf.{front_of}
use quirl.Stream.Split.{IsValid}
use quirl.Common.{
  ℕ, zero, suc, ◌+◌, ◌-◌, ◌≤◌, ◌<◌, ◌≡◌, refl, sym, ◌∙◌, arith, List, [], ◌∷◌, ◌++◌, length,
  get_elem?, set, take, drop, All, true, false, none, some, Option, if◌then◌else◌, if_elim, leb,
  ltb, ◌&&◌,
}

-- Where the first buffer begins, or the end where there is none.
abbrev pub begins : List RangeBuf → ℕ → ℕ
begins [] end = end
begins (b ∷ bs) end = b.off

-- Each buffer is valid and ends where the next begins, and the last at the end.
abbrev pub Chain : List RangeBuf → ℕ → Type 0
Chain [] end = Unit
Chain (b ∷ bs) end = IsValid b × (b.off + b.len ≡ begins bs end) × Chain bs end

-- The bytes that are still to be sent.
abbrev pub total : List RangeBuf → ℕ
total [] = 0
total (b ∷ bs) = Chunk.len b + total bs

abbrev pub AllEmpty : List RangeBuf → Type 0
AllEmpty = All (λ b. Chunk.len b ≡ 0)

pub begins-le : (bs : List RangeBuf) (end : ℕ) → Chain bs end → begins bs end ≤ end
begins-le [] end c = omega arith
begins-le (b ∷ bs) end c = omega (arith, begins-le bs end c.2)

pub Chain-append :
    (bs : List RangeBuf) (b : RangeBuf) (end : ℕ)
    → Chain bs b.off
    → IsValid b
    → b.off + b.len ≡ end
    → Chain (bs ++ (b ∷ [])) end
Chain-append [] b end c v e = (v, e, tt)
Chain-append (x ∷ []) b end c v e = (c.0, c.1, (v, e, tt))
Chain-append (x ∷ y ∷ bs) b end c v e = (c.0, c.1, Chain-append (y ∷ bs) b end c.2 v e)

pub total-append : (xs ys : List RangeBuf) → total (xs ++ ys) ≡ total xs + total ys
total-append [] ys = omega arith
total-append (x ∷ xs) ys = omega (arith, total-append xs ys)

pub begins-set :
    (bs : List RangeBuf) (i end : ℕ) (b b' : RangeBuf)
    → get_elem? bs i ≡ some b
    → b'.off ≡ b.off
    → begins (set bs i b') end ≡ begins bs end
begins-set [] i end b b' g e = refl
begins-set (x ∷ bs) zero end b b' g e = ground arith
begins-set (x ∷ bs) (suc i) end b b' g e = refl

-- A buffer that is exchanged for one at the same place.
pub Chain-set :
    (bs : List RangeBuf) (i end : ℕ) (b b' : RangeBuf)
    → Chain bs end
    → get_elem? bs i ≡ some b
    → IsValid b'
    → b'.off ≡ b.off
    → b'.len ≡ b.len
    → Chain (set bs i b') end
Chain-set [] i end b b' c g v o l = c
Chain-set (x ∷ bs) zero end b b' c g v o l = (v, ground arith, c.2)
Chain-set (x ∷ bs) (suc i) end b b' c g v o l =
    (c.0, c.1 ∙ sym (begins-set bs i end b b' g o), Chain-set bs i end b b' c.2 g v o l)

pub total-set :
    (bs : List RangeBuf) (i : ℕ) (b b' : RangeBuf)
    → get_elem? bs i ≡ some b
    → total (set bs i b') + Chunk.len b ≡ total bs + Chunk.len b'
total-set [] i b b' g = cc
total-set (x ∷ bs) zero b b' g = ground arith
total-set (x ∷ bs) (suc i) b b' g = omega (arith, total-set bs i b b' g)

pub length-set : (bs : List RangeBuf) (i : ℕ) (b : RangeBuf) → length (set bs i b) ≡ length bs
length-set [] i b = refl
length-set (x ∷ bs) zero b = refl
length-set (x ∷ bs) (suc i) b = omega (arith, length-set bs i b)

pub get_elem?-lt :
    (bs : List RangeBuf) (i : ℕ) {b : RangeBuf} → get_elem? bs i ≡ some b → i < length bs
get_elem?-lt [] i g = cc
get_elem?-lt (x ∷ bs) zero g = omega arith
get_elem?-lt (x ∷ bs) (suc i) {b} g = omega (arith, get_elem?-lt bs i {b = b} g)

pub Chain-get :
    (bs : List RangeBuf) (i end : ℕ) {b : RangeBuf}
    → Chain bs end
    → get_elem? bs i ≡ some b
    → IsValid b × (b.off + b.len ≤ end)
Chain-get [] i end c g = cc
Chain-get (x ∷ bs) zero end {b} c g =
    (ground (arith, c.0), ground (arith, c.1, begins-le bs end c.2))
Chain-get (x ∷ bs) (suc i) end {b} c g = Chain-get bs i end {b = b} c.2 g

begins-get :
    (bs : List RangeBuf) (i end : ℕ) {b : RangeBuf}
    → Chain bs end
    → get_elem? bs i ≡ some b
    → begins bs end ≤ b.off
begins-get [] i end c g = cc
begins-get (x ∷ bs) zero end {b} c g = ground arith
begins-get (x ∷ bs) (suc i) end {b} c g = omega (arith, begins-get bs i end {b = b} c.2 g, c.1)

-- The buffers before a position are not touched by a change there, and the next position has one
-- more.
pub AllEmpty-set :
    (bs : List RangeBuf) (i : ℕ) (b : RangeBuf)
    → AllEmpty (take i bs)
    → AllEmpty (take i (set bs i b))
AllEmpty-set [] i b h = h
AllEmpty-set (x ∷ bs) zero b h = tt
AllEmpty-set (x ∷ bs) (suc i) b h = (h.0, AllEmpty-set bs i b h.1)

pub AllEmpty-next :
    (bs : List RangeBuf) (i : ℕ) {b : RangeBuf}
    → get_elem? bs i ≡ some b
    → Chunk.len b ≡ 0
    → AllEmpty (take i bs)
    → AllEmpty (take (suc i) bs)
AllEmpty-next [] i g e h = tt
AllEmpty-next (x ∷ bs) zero {b} g e h = (ground arith, tt)
AllEmpty-next (x ∷ bs) (suc i) {b} g e h = (h.0, AllEmpty-next bs i {b = b} g e h.1)

pub get_elem?-set :
    (bs : List RangeBuf) (i : ℕ) (b : RangeBuf) → i < length bs → get_elem? (set bs i b) i ≡ some b
get_elem?-set [] i b h = absurd (omega arith)
get_elem?-set (x ∷ bs) zero b h = refl
get_elem?-set (x ∷ bs) (suc i) b h = get_elem?-set bs i b (omega arith)

pub AllEmpty-append :
    (bs : List RangeBuf) (i : ℕ) (b : RangeBuf)
    → i ≤ length bs
    → AllEmpty (take i bs)
    → AllEmpty (take i (bs ++ (b ∷ [])))
AllEmpty-append bs zero b h e = tt
AllEmpty-append [] (suc i) b h e = absurd (omega arith)
AllEmpty-append (x ∷ bs) (suc i) b h e = (e.0, AllEmpty-append bs i b (omega arith) e.1)

off-le-end : (b : RangeBuf) → IsValid b → Chunk.off b ≤ b.off + b.len
unfolding Chunk.off
off-le-end b v = omega (arith, v.begun, v.within, v.placed)

-- The first byte to be sent is below the end.
pub front_of-le : (bs : List RangeBuf) (i end : ℕ) → Chain bs end → front_of end (drop i bs) ≤ end
unfolding front_of
front_of-le [] zero end c = omega arith
front_of-le [] (suc i) end c = omega arith
front_of-le (b ∷ bs) zero end c =
    if_elim (λ t. t ≤ end) (is_empty b) (λ _. front_of-le bs zero end c.2)
      (λ _. omega (arith, off-le-end b c.0, c.1, begins-le bs end c.2))
front_of-le (b ∷ bs) (suc i) end c = front_of-le bs i end c.2

-- It is in the buffer at the position, if that is not empty.
pub front_of-get :
    (bs : List RangeBuf) (i end : ℕ) {b : RangeBuf}
    → get_elem? bs i ≡ some b
    → is_empty b ≡ false
    → front_of end (drop i bs) ≡ Chunk.off b
unfolding front_of
front_of-get [] i end g e = cc
front_of-get (x ∷ bs) zero end {b} g e = ground arith
front_of-get (x ∷ bs) (suc i) end {b} g e = front_of-get bs i end {b = b} g e

-- An empty buffer at the position is passed over.
pub front_of-skip :
    (bs : List RangeBuf) (i end : ℕ) {b : RangeBuf}
    → get_elem? bs i ≡ some b
    → is_empty b ≡ true
    → front_of end (drop (suc i) bs) ≡ front_of end (drop i bs)
unfolding front_of
front_of-skip [] i end g e = cc
front_of-skip (x ∷ bs) zero end {b} g e = ground arith
front_of-skip (x ∷ bs) (suc i) end {b} g e = front_of-skip bs i end {b = b} g e

-- The byte at an offset of the stream, sent or not, where a buffer has it.
abbrev pub content : List RangeBuf → ℕ → Option ℕ
content [] o = none
content (b ∷ bs) o =
    if leb b.off o && ltb o (b.off + b.len)
    then get_elem? b.vec (b.start + (o - b.off))
    else content bs o

pub content-get :
    (bs : List RangeBuf) (i end o : ℕ) {b : RangeBuf}
    → Chain bs end
    → get_elem? bs i ≡ some b
    → b.off ≤ o
    → o < b.off + b.len
    → content bs o ≡ get_elem? b.vec (b.start + (o - b.off))
content-get [] i end o c g h lt = cc
content-get (x ∷ bs) zero end o {b} c g h lt = ground arith
content-get (x ∷ bs) (suc i) end o {b} c g h lt =
    rw (past (begins-get bs i end {b = b} c.2 g)) (content-get bs i end o {b = b} c.2 g h lt)
  where
    past : begins bs end ≤ b.off → (leb x.off o && ltb o (x.off + x.len)) ≡ false
    past k = ground (arith, c.1)

pub content-set :
    (bs : List RangeBuf) (i o : ℕ) (b b' : RangeBuf)
    → get_elem? bs i ≡ some b
    → b'.vec ≡ b.vec
    → b'.start ≡ b.start
    → b'.off ≡ b.off
    → b'.len ≡ b.len
    → content (set bs i b') o ≡ content bs o
content-set [] i o b b' g v st e l = refl
content-set (x ∷ bs) zero o b b' g v st e l = ground arith
content-set (x ∷ bs) (suc i) o b b' g v st e l = rw (content-set bs i o b b' g v st e l) refl

pub total-get :
    (bs : List RangeBuf) (i : ℕ) {b : RangeBuf} → get_elem? bs i ≡ some b → Chunk.len b ≤ total bs
total-get [] i g = cc
total-get (x ∷ bs) zero {b} g = ground arith
total-get (x ∷ bs) (suc i) {b} g = omega (arith, total-get bs i {b = b} g)

pub front_of-none :
    (bs : List RangeBuf) (i end : ℕ) → get_elem? bs i ≡ none → front_of end (drop i bs) ≡ end
unfolding front_of
front_of-none [] zero end g = refl
front_of-none [] (suc i) end g = refl
front_of-none (x ∷ bs) zero end g = cc
front_of-none (x ∷ bs) (suc i) end g = front_of-none bs i end g

pub end-max_off : (b : RangeBuf) → IsValid b → Chunk.max_off b ≡ b.off + b.len
unfolding Chunk.max_off Chunk.off Chunk.len
end-max_off b v = omega (arith, v.begun, v.within, v.placed)
