-- ===== src/Stream/Overlaps.antt =====
-- The loop over the chunks in RecvBuf::write, quiche/src/stream/recv_buf.rs: the parts it leaves of a
-- buffer, how far they reach and how many rounds they take.
use quirl.Stream.RangeBuf.{RangeBuf, split_off, is_empty, deref}
use quirl.Stream.RangeBuf as Chunk
use quirl.Stream.RecvBuf.{RecvBuf}
use quirl.Stream.Halves.{Fresh, ends, Halves, halves}
use quirl.Stream.Write.{
  Chunks, range_from, insert_chunk, Overlap, contained, remaining, failed, overlap_loop, overlap,
  cut_front,
}
use quirl.Common.{
  ℕ, ◌+◌, ◌-◌, ◌*◌, ◌≤◌, ◌<◌, ◌≡◌, refl, ap, ◌∙◌, max, List, [], ◌∷◌, ◌++◌, ltb, leb, ◌==◌, ◌&&◌,
  ◌||◌, true, false, some, arith, Bool-cases, inl, inr, ◌⊎◌, ltb→lt,
}

abbrev pub Queued : ℕ → RangeBuf → Type 0
Queued front b = Fresh b × (front ≤ Chunk.max_off b)

abbrev pub AllQueued : ℕ → List RangeBuf → Type 0
AllQueued front [] = Unit {0}
AllQueued front (b ∷ bs) = Queued front b × AllQueued front bs

-- No chunk reaches beyond.
abbrev pub Within : ℕ → Chunks → Type 0
Within len [] = Unit {0}
Within len ((k, b) ∷ rest) = (Chunk.max_off b ≤ len) × Within len rest

abbrev pub rounds : RangeBuf → ℕ
rounds b = max 1 (2 * Chunk.len b - 1)

abbrev pub all_rounds : List RangeBuf → ℕ
all_rounds [] = 0
all_rounds (b ∷ bs) = rounds b + all_rounds bs

abbrev pub reach : ℕ → List RangeBuf → ℕ
reach len [] = len
reach len (b ∷ bs) = reach (max len (Chunk.max_off b)) bs

AllQueued-snoc :
    (front : ℕ) (bs : List RangeBuf) (b : RangeBuf)
    → AllQueued front bs
    → Queued front b
    → AllQueued front (bs ++ (b ∷ []))
AllQueued-snoc front [] b qs q = (q, tt)
AllQueued-snoc front (c ∷ bs) b (p, qs) q = (p, AllQueued-snoc front bs b qs q)

all_rounds-snoc :
    (bs : List RangeBuf) (b : RangeBuf) → all_rounds (bs ++ (b ∷ [])) ≡ all_rounds bs + rounds b
all_rounds-snoc [] b = omega arith
all_rounds-snoc (c ∷ bs) b = omega (arith, all_rounds-snoc bs b)

reach-snoc :
    (len : ℕ) (bs : List RangeBuf) (b : RangeBuf)
    → reach len (bs ++ (b ∷ [])) ≡ reach (max len (Chunk.max_off b)) bs
reach-snoc len [] b = refl
reach-snoc len (c ∷ bs) b =
    reach-snoc (max len (Chunk.max_off c)) bs b
    ∙ ap (λ n. reach n bs) {x = max (max len (Chunk.max_off c)) (Chunk.max_off b)}
        {y = max (max len (Chunk.max_off b)) (Chunk.max_off c)} (omega arith)

-- What the loop leaves: parts that wait and that take fewer rounds than the buffer did, and with what
-- is stored they reach as far.
abbrev pub Cut : ℕ → ℕ → RangeBuf → List RangeBuf → Overlap → Type 0
Cut front len buf tmp (contained tmp') =
    AllQueued front tmp'
    × (all_rounds tmp' + 1 ≤ all_rounds tmp + rounds buf)
    × (reach len tmp' ≡ reach (max len (Chunk.max_off buf)) tmp)
Cut front len buf tmp (remaining buf' tmp') =
    AllQueued front tmp'
    × (all_rounds tmp' + 1 ≤ all_rounds tmp + rounds buf)
    × (reach (max len (Chunk.max_off buf')) tmp' ≡ reach (max len (Chunk.max_off buf)) tmp)
Cut front len buf tmp failed = ⊥

-- The same for a buffer and a queue from which these came.
Cut-from :
    (front len : ℕ) (buf buf' : RangeBuf) (tmp tmp' : List RangeBuf) (x : Overlap)
    → all_rounds tmp' + rounds buf' ≤ all_rounds tmp + rounds buf
    → reach (max len (Chunk.max_off buf')) tmp' ≡ reach (max len (Chunk.max_off buf)) tmp
    → Cut front len buf' tmp' x
    → Cut front len buf tmp x
Cut-from front len buf buf' tmp tmp' (contained t) h e (q, r, s) = (q, omega (arith, h, r), s ∙ e)
Cut-from front len buf buf' tmp tmp' (remaining b t) h e (q, r, s) = (q, omega (arith, h, r), s ∙ e)
Cut-from front len buf buf' tmp tmp' failed h e c = c

pub within_both : (a b c d : ℕ) → (leb a b && leb c d) ≡ true → (a ≤ b) × (c ≤ d)
within_both a b c d h = ground arith

pub start_inside :
    (a b c d : ℕ)
    → (leb a b && ltb b c) ≡ true
    → (leb a b && leb d c) ≡ false
    → (a ≤ b) × (b < c) × (c < d)
start_inside a b c d h g = ground arith

pub end_inside : (a b c : ℕ) → (ltb a b && ltb b c) ≡ true → (a < b) × (b < c)
end_inside a b c h = ground arith

module _ (front len : ℕ) where
  loop-Cut :
      (l : Chunks) (buf : RangeBuf) (tmp : List RangeBuf)
      → Within len l
      → Fresh buf
      → front ≤ Chunk.off buf
      → AllQueued front tmp
      → Cut front len buf tmp (overlap_loop l buf tmp)
  unfolding overlap_loop
  loop-Cut [] buf tmp w f h q = (q, omega arith, refl)
  loop-Cut ((k, b) ∷ rest) buf tmp (m, w) f h q =
      elim (Bool-cases (ltb (Chunk.max_off buf) (Chunk.off b))) [
        | inl c1 ↦ rw c1 (q, omega arith, refl)
        | inr c1 ↦
            elim (Bool-cases
              (leb (Chunk.off b) (Chunk.off buf) && leb (Chunk.max_off buf) (Chunk.max_off b))) [
                | inl c2 ↦
                    let at : (Chunk.off b ≤ Chunk.off buf) × (Chunk.max_off buf ≤ Chunk.max_off b) =
                      within_both _ _ _ _ c2 in
                    rw (c1, c2)
                      (
                        q,
                        omega arith,
                        ap (λ n. reach n tmp) {x = len} {y = max len (Chunk.max_off buf)}
                            (omega (arith, at.1, m)),
                      )
                | inr c2 ↦
                    elim (Bool-cases (
                      leb (Chunk.off b) (Chunk.off buf) && ltb (Chunk.off buf) (Chunk.max_off b))) [
                        | inl c3 ↦
                            let at : (Chunk.off b ≤ Chunk.off buf)
                                × (Chunk.off buf < Chunk.max_off b)
                                × (Chunk.max_off b < Chunk.max_off buf) =
                              start_inside _ _ _ _ c3 c2 in
                            let (tail, head, (eq, ft, fh, ot, lt, oh, lh, bs)) =
                              halves buf (Chunk.max_off b - Chunk.off buf) f
                                (omega (arith, at, ends buf)) in
                            rw (c1, c2, c3, eq)
                              (Cut-from front len buf tail tmp tmp _ (omega (arith, lt))
                                (ap (λ n. reach n tmp) {x = max len (Chunk.max_off tail)}
                                  {y = max len (Chunk.max_off buf)}
                                  (omega (arith, at, ot, lt, ends buf, ends tail)))
                                (loop-Cut rest tail tmp w ft (omega (arith, ot)) q))
                        | inr c3 ↦
                            elim (Bool-cases (
                              ltb (Chunk.off buf) (Chunk.off b)
                              && ltb (Chunk.off b) (Chunk.max_off buf))) [
                                | inl c4 ↦
                                    let at : (Chunk.off buf < Chunk.off b)
                                        × (Chunk.off b < Chunk.max_off buf) =
                                      end_inside _ _ _ c4 in
                                    let (tail, head, (eq, ft, fh, ot, lt, oh, lh, bs)) =
                                      halves buf (Chunk.off b - Chunk.off buf) f
                                        (omega (arith, at, ends buf)) in
                                    rw (c1, c2, c3, c4, eq)
                                      (Cut-from front len buf head tmp (tmp ++ (tail ∷ [])) _
                                        (omega
                                          (arith, at, lt, lh, ends buf, all_rounds-snoc tmp tail))
                                        (reach-snoc (max len (Chunk.max_off head)) tmp tail
                                          ∙ ap (λ n. reach n tmp)
                                              {x = max (max len (Chunk.max_off head))
                                                (Chunk.max_off tail)}
                                              {y = max len (Chunk.max_off buf)}
                                              (omega (
                                                arith,
                                                at,
                                                ot,
                                                lt,
                                                oh,
                                                lh,
                                                ends buf,
                                                ends tail,
                                                ends head,
                                              )))
                                        (loop-Cut rest head (tmp ++ (tail ∷ [])) w fh
                                          (omega (arith, oh))
                                          (AllQueued-snoc front tmp tail q
                                            (ft, omega (arith, ot, ends tail)))))
                                | inr c4 ↦ rw (c1, c2, c3, c4) (loop-Cut rest buf tmp w f h q)
                              ]
                      ]
              ]
      ]

pub Within-le : (m n : ℕ) (l : Chunks) → m ≤ n → Within m l → Within n l
Within-le m n [] h w = tt
Within-le m n ((k, b) ∷ rest) h (x, w) = (omega arith, Within-le m n rest h w)

Within-range_from : (len key : ℕ) (l : Chunks) → Within len l → Within len (range_from key l)
unfolding range_from
Within-range_from len key [] w = tt
Within-range_from len key ((k, b) ∷ rest) (x, w) = elim (Bool-cases (ltb k key)) [
  | inl e ↦ rw e (Within-range_from len key rest w)
  | inr e ↦ rw e (x, w)
]

pub Within-insert_chunk :
    (len key : ℕ) (buf : RangeBuf) (l : Chunks)
    → Chunk.max_off buf ≤ len
    → Within len l
    → Within len (insert_chunk key buf l)
unfolding insert_chunk
Within-insert_chunk len key buf [] h w = (h, tt)
Within-insert_chunk len key buf ((k, b) ∷ rest) h (x, w) = elim (Bool-cases (ltb key k)) [
  | inl e ↦ rw e (h, (x, w))
  | inr e ↦ elim (Bool-cases (key == k)) [
    | inl e' ↦ rw (e, e') (h, w)
    | inr e' ↦ rw (e, e') (x, Within-insert_chunk len key buf rest h w)
  ]
]

pub overlap-Cut :
    (s : RecvBuf) (buf : RangeBuf) (tmp : List RangeBuf)
    → Within s.len s.chunks
    → Fresh buf
    → s.off ≤ Chunk.off buf
    → AllQueued s.off tmp
    → Cut s.off s.len buf tmp (overlap s buf tmp)
unfolding overlap
overlap-Cut s buf tmp w f h q = elim (Bool-cases (ltb (Chunk.off buf) s.len || is_empty buf)) [
  | inl e ↦ rw e (
      loop-Cut s.off s.len (range_from (Chunk.off buf) s.chunks) buf tmp
        (Within-range_from s.len (Chunk.off buf) s.chunks w) f h q)
  | inr e ↦ rw e (q, omega arith, refl)
]

-- What is cut off in front leaves the end where it was.
pub cut_front-Fresh :
    (front : ℕ) (buf : RangeBuf)
    → Queued front buf
    → (buf' : RangeBuf) × (cut_front front buf ≡ some buf')
      × Fresh buf'
      × (front ≤ Chunk.off buf')
      × (Chunk.max_off buf' ≡ Chunk.max_off buf)
      × (rounds buf' ≤ rounds buf)
      × ((buf' ≡ buf) ⊎ ((head : RangeBuf) × Halves buf (front - Chunk.off buf) buf' head))
unfolding cut_front
cut_front-Fresh front buf (f, h) = elim (Bool-cases (ltb (Chunk.off buf) front)) [
  | inr e ↦ rw e (buf, refl, f, ground arith, refl, omega arith, inl refl)
  | inl e ↦
      let lt : Chunk.off buf < front = ltb→lt _ _ e in
      let (tail, head, (eq, ft, fh, ot, lt', oh, lh, bs)) =
        halves buf (front - Chunk.off buf) f (omega (arith, ends buf)) in
      (
        tail,
        rw (cut_front, e, eq) refl,
        ft,
        omega (arith, ot, lt),
        omega (arith, ot, lt, lt', ends buf, ends tail, h),
        omega (arith, lt'),
        inr (head, (eq, ft, fh, ot, lt', oh, lh, bs)),
      )
]
