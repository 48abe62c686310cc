-- ===== src/Stream/Apart.antt =====
-- The loop over the chunks in RecvBuf::write, quiche/src/stream/recv_buf.rs: what it stores stands apart
-- from the chunks that are there.
use quirl.Stream.RangeBuf.{RangeBuf, split_off, is_empty}
use quirl.Stream.RangeBuf as Chunk
use quirl.Stream.RecvBuf.{RecvBuf}
use quirl.Stream.Write.{
  Chunks, range_from, insert_chunk, Overlap, contained, remaining, failed, overlap_loop, overlap,
}
use quirl.Stream.Overlaps.{Within, start_inside, end_inside}
use quirl.Stream.Halves.{Fresh, ends, halves}
use quirl.Common.{
  ℕ, ◌-◌, ◌≤◌, ◌<◌, ◌≡◌, refl, List, [], ◌∷◌, ◌++◌, ltb, leb, ◌==◌, ◌&&◌, ◌||◌, false, arith,
  Bool-cases, inl, inr, ◌⊎◌, ltb→lt, ==_iff,
}

-- From `lo` on: the chunks are valid, under their ends, and each ends before the next begins.
abbrev pub Ordered : ℕ → Chunks → Type 0
Ordered lo [] = Unit {0}
Ordered lo ((k, b) ∷ rest) = (lo ≤ Chunk.off b) × (k ≡ Chunk.max_off b) × Ordered k rest

-- A buffer and a chunk have no place in common, and if they end together, the buffer is not empty.
abbrev pub Clear : RangeBuf → RangeBuf → Type 0
Clear buf b =
    ((Chunk.max_off b ≤ Chunk.off buf) ⊎ (Chunk.max_off buf ≤ Chunk.off b))
    × (Chunk.max_off b ≡ Chunk.max_off buf → Chunk.off buf < Chunk.max_off buf)

abbrev pub AllClear : RangeBuf → Chunks → Type 0
AllClear buf [] = Unit {0}
AllClear buf ((k, b) ∷ rest) = Clear buf b × AllClear buf rest

-- A part of a buffer, empty only if it is the whole.
abbrev pub Inside : RangeBuf → RangeBuf → Type 0
Inside buf buf' =
    (Chunk.off buf ≤ Chunk.off buf')
    × (Chunk.max_off buf' ≤ Chunk.max_off buf)
    × ((Chunk.off buf' < Chunk.max_off buf')
        ⊎ ((Chunk.off buf' ≡ Chunk.off buf) × (Chunk.max_off buf' ≡ Chunk.max_off buf)))

Inside-trans : (a b c : RangeBuf) → Inside a b → Inside b c → Inside a c
Inside-trans a b c (p, q, r) (p', q', r') = (omega arith, omega arith, omega arith)

Clear-Inside : (buf buf' b : RangeBuf) → Inside buf buf' → Clear buf b → Clear buf' b
Clear-Inside buf buf' b (p, q, r) (c, d) = (omega arith, λ e. grind arith)

-- What the loop stores.
abbrev pub Stored : Chunks → RangeBuf → Overlap → Type 0
Stored l buf (contained tmp') = Unit {0}
Stored l buf (remaining buf' tmp') = Inside buf buf' × AllClear buf' l
Stored l buf failed = Unit {0}

-- A chunk that stays clear of what the buffer has become.
Stored-cons :
    (k : ℕ) (b : RangeBuf) (rest : Chunks) (buf buf' : RangeBuf) (x : Overlap)
    → Inside buf buf'
    → Clear buf' b
    → Stored rest buf' x
    → Stored ((k, b) ∷ rest) buf x
Stored-cons k b rest buf buf' (contained t) i c s = tt
Stored-cons k b rest buf buf' (remaining b' t) i c (j, a) =
    (Inside-trans buf buf' b' i j, (Clear-Inside buf' b' b j c, a))
Stored-cons k b rest buf buf' failed i c s = tt

-- Chunks from some place on, beyond the end of the buffer.
AllClear-after :
    (lo : ℕ) (l : Chunks) (buf : RangeBuf) → Chunk.max_off buf < lo → Ordered lo l → AllClear buf l
AllClear-after lo [] buf h o = tt
AllClear-after lo ((k, b) ∷ rest) buf h (x, y, o) = (
  (inr (omega arith), λ e. absurd (omega (arith, ends b))),
  AllClear-after k rest buf (omega (arith, ends b)) o,
)

Inside-whole : (buf : RangeBuf) → Inside buf buf
Inside-whole buf = (omega arith, omega arith, inr (refl, refl))

-- None of the tests holds of a chunk from `m` to `n` and a buffer from `o` to `e`.
passed_by :
    (m n o e : ℕ)
    → m ≤ n
    → o ≤ e
    → (leb m o && leb e n) ≡ false
    → (leb m o && ltb o n) ≡ false
    → (ltb o m && ltb m e) ≡ false
    → ((n ≤ o) ⊎ (e ≤ m)) × (n ≡ e → o < e)
passed_by m n o e h g p q r = (ground arith, λ x. ground arith)

loop-Stored :
    (lo : ℕ) (l : Chunks) (buf : RangeBuf) (tmp : List RangeBuf)
    → Fresh buf
    → Ordered lo l
    → Stored l buf (overlap_loop l buf tmp)
unfolding overlap_loop
loop-Stored lo [] buf tmp f o = (Inside-whole buf, tt)
loop-Stored lo ((k, b) ∷ rest) buf tmp f (x, y, o) =
    elim (Bool-cases (ltb (Chunk.max_off buf) (Chunk.off b))) [
      | inl c1 ↦ rw c1 (
        Inside-whole buf,
        AllClear-after (Chunk.off b) ((k, b) ∷ rest) buf (ltb→lt _ _ c1) (omega arith, y, o),
      )
      | inr c1 ↦
          elim (Bool-cases
            (leb (Chunk.off b) (Chunk.off buf) && leb (Chunk.max_off buf) (Chunk.max_off b))) [
              | inl c2 ↦ rw (c1, c2) tt
              | inr c2 ↦
                  elim (Bool-cases
                    (leb (Chunk.off b) (Chunk.off buf) && ltb (Chunk.off buf) (Chunk.max_off b))) [
                      | inl c3 ↦
                          let at : (Chunk.off b ≤ Chunk.off buf)
                              × (Chunk.off buf < Chunk.max_off b)
                              × (Chunk.max_off b < Chunk.max_off buf) =
                            start_inside _ _ _ _ c3 c2 in
                          let (tail, head, (eq, ft, fh, ot, lt, oh, lh, bs)) =
                            halves buf (Chunk.max_off b - Chunk.off buf) f
                              (omega (arith, at, ends buf)) in
                          rw (c1, c2, c3, eq)
                            (Stored-cons k b rest buf tail _
                              (
                                omega (arith, ot),
                                omega (arith, ot, lt, ends buf, ends tail),
                                inl (omega (arith, at, ot, lt, ends buf, ends tail)),
                              )
                              (
                                inl (omega (arith, at, ot)),
                                λ e. omega (arith, at, ot, lt, ends buf, ends tail),
                              )
                              (loop-Stored k rest tail tmp ft o))
                      | inr c3 ↦
                          elim (Bool-cases (
                            ltb (Chunk.off buf) (Chunk.off b)
                            && ltb (Chunk.off b) (Chunk.max_off buf))) [
                              | inl c4 ↦
                                  let at : (Chunk.off buf < Chunk.off b)
                                      × (Chunk.off b < Chunk.max_off buf) =
                                    end_inside _ _ _ c4 in
                                  let (tail, head, (eq, ft, fh, ot, lt, oh, lh, bs)) =
                                    halves buf (Chunk.off b - Chunk.off buf) f
                                      (omega (arith, at, ends buf)) in
                                  rw (c1, c2, c3, c4, eq)
                                    (Stored-cons k b rest buf head _
                                      (
                                        omega (arith, oh),
                                        omega (arith, at, oh, lh, ends head),
                                        inl (omega (arith, at, oh, lh, ends head)),
                                      )
                                      (
                                        inr (omega (arith, at, oh, lh, ends head)),
                                        λ e. omega (arith, at, oh, lh, ends head),
                                      )
                                      (loop-Stored k rest head (tmp ++ (tail ∷ [])) fh o))
                              | inr c4 ↦
                                  rw (c1, c2, c3, c4)
                                    (Stored-cons k b rest buf buf _ (Inside-whole buf)
                                      (passed_by (Chunk.off b) (Chunk.max_off b) (Chunk.off buf)
                                        (Chunk.max_off buf) (omega (arith, ends b))
                                        (omega (arith, ends buf)) c2 c3 c4)
                                      (loop-Stored k rest buf tmp f o))
                            ]
                    ]
            ]
    ]

-- The chunks before the first that can overlap end before the buffer begins.
Stored-range_from :
    (lo : ℕ) (l : Chunks) (buf : RangeBuf) (x : Overlap)
    → Ordered lo l
    → Stored (range_from (Chunk.off buf) l) buf x
    → Stored l buf x
unfolding range_from
Stored-range_from lo l buf (contained t) o s = tt
Stored-range_from lo l buf failed o s = tt
Stored-range_from lo [] buf (remaining b' t) o s = s
Stored-range_from lo ((k, b) ∷ rest) buf (remaining b' t) (x, y, o) s =
    elim (Bool-cases (ltb k (Chunk.off buf))) [
      | inl e ↦
          let (i, a) = Stored-range_from k rest buf (remaining b' t) o (rw e at s) in
          let lt : k < Chunk.off buf = ltb→lt _ _ e in
          (i, ((inl (omega (arith, i, y, lt)), λ g. omega (arith, i, y, lt, ends b')), a))
      | inr e ↦ rw e at s
    ]

pub Ordered-le : (lo lo' : ℕ) (l : Chunks) → lo' ≤ lo → Ordered lo l → Ordered lo' l
Ordered-le lo lo' [] h o = tt
Ordered-le lo lo' ((k, b) ∷ rest) h (x, y, o) = (omega arith, y, o)

Ordered-range_from : (lo key : ℕ) (l : Chunks) → Ordered lo l → Ordered lo (range_from key l)
unfolding range_from
Ordered-range_from lo key [] o = tt
Ordered-range_from lo key ((k, b) ∷ rest) (x, y, o) = elim (Bool-cases (ltb k key)) [
  | inl e ↦
      rw e (Ordered-range_from lo key rest (Ordered-le k lo rest (omega (arith, x, y, ends b)) o))
  | inr e ↦ rw e (x, y, o)
]

AllClear-before :
    (len : ℕ) (l : Chunks) (buf : RangeBuf)
    → Within len l
    → len ≤ Chunk.off buf
    → Chunk.off buf < Chunk.max_off buf
    → AllClear buf l
AllClear-before len [] buf w h g = tt
AllClear-before len ((k, b) ∷ rest) buf (x, w) h g =
    ((inl (omega arith), λ e. g), AllClear-before len rest buf w h g)

skipped : (o len n : ℕ) → (ltb o len || (n == 0)) ≡ false → (len ≤ o) × (0 < n)
skipped o len n h = ground arith

pub overlap-Stored :
    (s : RecvBuf) (buf : RangeBuf) (tmp : List RangeBuf)
    → Within s.len s.chunks
    → Ordered 0 s.chunks
    → Fresh buf
    → Stored s.chunks buf (overlap s buf tmp)
unfolding overlap is_empty
overlap-Stored s buf tmp w o f =
    elim (Bool-cases (ltb (Chunk.off buf) s.len || (Chunk.len buf == 0))) [
      | inl e ↦ rw e (
          Stored-range_from 0 s.chunks buf _ o (
            loop-Stored 0 (range_from (Chunk.off buf) s.chunks) buf tmp f
              (Ordered-range_from 0 (Chunk.off buf) s.chunks o)))
      | inr e ↦
          let (a, b) = skipped _ _ _ e in
          rw e
            (Inside-whole buf, AllClear-before s.len s.chunks buf w a (omega (arith, b, ends buf)))
    ]

-- What is clear of the chunks is inserted in its place.
pub Ordered-insert_chunk :
    (lo key : ℕ) (buf : RangeBuf) (l : Chunks)
    → key ≡ Chunk.max_off buf
    → lo ≤ Chunk.off buf
    → AllClear buf l
    → Ordered lo l
    → Ordered lo (insert_chunk key buf l)
unfolding insert_chunk
Ordered-insert_chunk lo key buf [] e h a o = (h, e, tt)
Ordered-insert_chunk lo key buf ((k, b) ∷ rest) e h (c, a) (x, y, o) =
    elim (Bool-cases (ltb key k)) [
      | inl p ↦
          let lt : key < k = ltb→lt _ _ p in
          rw p (h, e, (omega (arith, c, lt, ends b, ends buf), y, o))
      | inr p ↦ elim (Bool-cases (key == k)) [
        | inl q ↦
            let same : key ≡ k = (==_iff _ _).0 q in
            rw (p, q) (h, e, Ordered-le k key rest (omega arith) o)
        | inr q ↦
            rw (p, q)
              (
                x,
                y,
                Ordered-insert_chunk k key buf rest e (ground (arith, c, ends b, ends buf)) a o,
              )
      ]
    ]
