-- ===== src/Stream/Union.antt =====
-- RecvBuf::write, quiche/src/stream/recv_buf.rs: the bytes that are there afterwards.
use quirl.Stream.RangeBuf.{RangeBuf, split_off, is_empty, deref}
use quirl.Stream.RangeBuf as Chunk
use quirl.Stream.RecvBuf.{RecvBuf, Error, max_data}
use quirl.Stream.Write.{
  Chunks, range_from, insert_chunk, Overlap, contained, remaining, failed, overlap, store,
  write_loop, breaks_size, is_some, save_size, accept, write,
}
use quirl.Stream.Overlaps.{AllQueued, Within, all_rounds, Cut, overlap-Cut, cut_front-Fresh}
use quirl.Stream.Halves.{Fresh, ends, Halves}
use quirl.Stream.Accept.{IsValid, Overlap-cases, store-Within, reaches, accept_lem}
use quirl.Stream.Apart.{AllClear, Ordered, Stored, overlap-Stored, Ordered-insert_chunk}
use quirl.Stream.Bytes.{
  has, byte, covers, byte_at, queue_has, Halves-bytes, covers-AllClear, uncovered, Agrees, AllAgree,
  Kept, loop-Kept, or_right, or_none,
}
use quirl.Common.{
  ℕ, zero, suc, ◌+◌, ◌-◌, ◌*◌, ◌≤◌, ◌≡◌, refl, sym, ap, ◌∙◌, List, [], ◌∷◌, ltb, leb, ◌==◌, ◌&&◌,
  ◌||◌, if◌then◌else◌, Bool, true, false, not, Option, none, arith, Bool-cases, inl, inr, ◌⊎◌,
  ltb-false, ==_iff,
}
use quirl.Common.Result.{Result, ok}

-- What is there of two: the first has the precedence.
abbrev pub over : Chunks → ℕ → Bool → Option ℕ → Option ℕ
over l x had o = if covers l x then byte_at l x else if had then o else none

range_from-uncovered :
    (key : ℕ) (l : Chunks) (x : ℕ) → covers l x ≡ false → covers (range_from key l) x ≡ false
unfolding range_from
range_from-uncovered key [] x h = refl
range_from-uncovered key ((k, b) ∷ rest) x h = elim (Bool-cases (ltb k key)) [
  | inl e ↦ rw e (range_from-uncovered key rest x (ground arith))
  | inr e ↦ rw e h
]

before-all :
    (buf : RangeBuf) (l : Chunks) (x : ℕ)
    → AllClear buf l
    → (if has buf x then byte buf x else byte_at l x) ≡ over l x (has buf x) (byte buf x)
before-all buf l x a = elim (Bool-cases (covers l x)) [
  | inl c ↦ rw (c, covers-AllClear buf l x a c) refl
  | inr c ↦ rw (c, uncovered l x c) refl
]

or_exchange : (a b c : Bool) → (a || (b || c)) ≡ (b || (a || c))
or_exchange true true c = refl
or_exchange true false c = refl
or_exchange false b c = refl

-- A buffer that is clear of the chunks is added to them.
insert_chunk-bytes :
    (key : ℕ) (buf : RangeBuf) (l : Chunks) (x : ℕ)
    → key ≡ Chunk.max_off buf
    → AllClear buf l
    → (lo : ℕ) → Ordered lo l
    → (covers (insert_chunk key buf l) x ≡ (has buf x || covers l x))
      × (byte_at (insert_chunk key buf l) x ≡ over l x (has buf x) (byte buf x))
unfolding insert_chunk
insert_chunk-bytes key buf [] x e a lo o = (refl, refl)
insert_chunk-bytes key buf ((k, b) ∷ rest) x e (c, a) lo (p, y, o) = elim (Bool-cases (ltb key k)) [
  | inl t ↦ rw t (refl, before-all buf ((k, b) ∷ rest) x (c, a))
  | inr t ↦ elim (Bool-cases (key == k)) [
    | inl q ↦
        let same : key ≡ k = (==_iff _ _).0 q in
        let away : has b x ≡ false = ground (arith, c, same, y, e) in
        rw (t, q, away) (refl, before-all buf rest x a)
    | inr q ↦
        let (f, g) = insert_chunk-bytes key buf rest x e a k o in
        rw (t, q, f, g)
          (
            or_exchange (has b x) (has buf x) (covers rest x),
            elim (Bool-cases (has b x)) [ inl h ↦ rw h refl | inr h ↦ rw h refl ],
          )
  ]
]

Kept-sub :
    (x : ℕ) (o : Option ℕ) (l l' : Chunks) (had : Bool) (y : Overlap)
    → (covers l x ≡ false → covers l' x ≡ false)
    → Kept x o l' had y
    → Kept x o l had y
Kept-sub x o l l' had (contained t) h (a, e) = (a, λ c. e (h c))
Kept-sub x o l l' had (remaining b t) h (g, a, e) = (g, a, λ c. e (h c))
Kept-sub x o l l' had failed h y = tt

overlap-Kept :
    (x : ℕ) (o : Option ℕ) (s : RecvBuf) (buf : RangeBuf) (tmp : List RangeBuf)
    → Fresh buf
    → Agrees x o buf
    → AllAgree x o tmp
    → Kept x o s.chunks (has buf x || queue_has tmp x) (overlap s buf tmp)
unfolding overlap
overlap-Kept x o s buf tmp f g a = elim (Bool-cases (ltb (Chunk.off buf) s.len || is_empty buf)) [
  | inl e ↦ rw e (
      Kept-sub x o s.chunks (range_from (Chunk.off buf) s.chunks) _ _
        (range_from-uncovered (Chunk.off buf) s.chunks x)
        (loop-Kept x o (range_from (Chunk.off buf) s.chunks) buf tmp f g a))
  | inr e ↦ rw e (g, a, λ c. refl)
]

cut-Agrees :
    (front x : ℕ) (o : Option ℕ) (buf buf' : RangeBuf)
    → front ≤ x
    → front ≤ Chunk.max_off buf
    → (buf' ≡ buf) ⊎ ((head : RangeBuf) × Halves buf (front - Chunk.off buf) buf' head)
    → Agrees x o buf
    → Agrees x o buf' × (has buf x ≡ has buf' x)
cut-Agrees front x o buf buf' h m (inl e) g = rw e (g, refl)
cut-Agrees front x o buf buf' h m (inr (head, hs)) g =
    let (eq, ft, fh, ot, lt, oh, lh, bs) = hs in
    let (bh, bt, split) =
      Halves-bytes buf (front - Chunk.off buf) buf' head x hs (omega (arith, ends buf)) in
    let away : has head x ≡ false = ground (arith, oh, lh, ends head) in
    (λ t. bt t ∙ g (split ∙ or_right (has head x) (has buf' x) t), split ∙ rw away refl)

over-same :
    (l : Chunks) (x : ℕ) (had had' : Bool) (o : Option ℕ)
    → (covers l x ≡ false → had ≡ had')
    → over l x had o ≡ over l x had' o
over-same l x had had' o h = elim (Bool-cases (covers l x)) [
  | inl c ↦ rw c refl
  | inr c ↦ rw (c, h c) refl
]

store-Ordered :
    (b : RangeBuf) (s : RecvBuf)
    → s.drain ≡ false
    → AllClear b s.chunks
    → Ordered 0 s.chunks
    → Ordered 0 (store b s).chunks
unfolding store
store-Ordered b s d a o =
    rw d (Ordered-insert_chunk 0 (Chunk.max_off b) b s.chunks refl (omega arith) a o)

over-store :
    (b : RangeBuf) (s : RecvBuf) (x : ℕ) (had : Bool) (o : Option ℕ)
    → s.drain ≡ false
    → AllClear b s.chunks
    → Ordered 0 s.chunks
    → Agrees x o b
    → over (store b s).chunks x had o ≡ over s.chunks x (has b x || had) o
unfolding store
over-store b s x had o d a ord g =
    let (f, h) = insert_chunk-bytes (Chunk.max_off b) b s.chunks x refl a 0 ord in
    rw (d, f, h)
      (elim (Bool-cases (covers s.chunks x)) [
        | inl c ↦ rw (c, or_right (has b x) true refl) refl
        | inr c ↦ elim (Bool-cases (has b x)) [ inl t ↦ rw (c, t) (g t) | inr t ↦ rw (c, t) refl ]
      ])

-- The chunks after the loop, at one place that was not read.
abbrev Joined : ℕ → Option ℕ → RecvBuf → List RangeBuf → Result Error (Unit {0}) × RecvBuf → Type 0
Joined x o s q (r, s') =
    Ordered 0 s'.chunks × (byte_at s'.chunks x ≡ over s.chunks x (queue_has q x) o)

over-none : (l : Chunks) (x : ℕ) (o : Option ℕ) → byte_at l x ≡ over l x false o
over-none l x o = elim (Bool-cases (covers l x)) [
  | inl c ↦ rw c refl
  | inr c ↦ rw (c, uncovered l x c) refl
]

write_loop-Joined :
    (x : ℕ) (o : Option ℕ) (fuel : ℕ) (q : List RangeBuf) (s : RecvBuf)
    → s.off ≤ x
    → s.drain ≡ false
    → all_rounds q ≤ fuel
    → AllQueued s.off q
    → AllAgree x o q
    → Within s.len s.chunks
    → Ordered 0 s.chunks
    → Joined x o s q (write_loop fuel q s)
unfolding write_loop store
write_loop-Joined x o fuel [] s h d n q g w ord = (ord, over-none s.chunks x o)
write_loop-Joined x o zero (b ∷ bs) s h d n q g w ord = absurd (omega arith)
write_loop-Joined x o (suc fuel) (b ∷ bs) s h d n (p, q) (g, gs) w ord =
    let (b', e, f, of, m, r, z) = cut_front-Fresh s.off b p in
    let (g', same) = cut-Agrees s.off x o b b' h p.1 z g in
    let c : Cut s.off s.len b' bs (overlap s b' bs) = overlap-Cut s b' bs w f of q in
    let kept : Kept x o s.chunks (has b' x || queue_has bs x) (overlap s b' bs) =
      overlap-Kept x o s b' bs f g' gs in
    let st : Stored s.chunks b' (overlap s b' bs) = overlap-Stored s b' bs w ord f in
    elim (Overlap-cases (overlap s b' bs)) [
      | inl (t, y) ↦
          let (q', l, g1) : Cut s.off s.len b' bs (contained t) = rw y at c in
          let (a, had) : Kept x o s.chunks (has b' x || queue_has bs x) (contained t) =
            rw y at kept in
          let (i, j) : Joined x o s t (write_loop fuel t s) =
            write_loop-Joined x o fuel t s h d (omega arith) q' a w ord in
          rw (write_loop, e, y)
            (
              i,
              j
                  ∙ sym (
                      over-same s.chunks x _ _ o (λ u. ap (λ v. v || queue_has bs x) same ∙ had u)),
            )
      | inr (inl (b'', t, y)) ↦
          let (q', l, g1) : Cut s.off s.len b' bs (remaining b'' t) = rw y at c in
          let (a, qs, had) : Kept x o s.chunks (has b' x || queue_has bs x) (remaining b'' t) =
            rw y at kept in
          let (inside, clear) : Stored s.chunks b' (remaining b'' t) = rw y at st in
          let (i, j) : Joined x o (store b'' s) t (write_loop fuel t (store b'' s)) =
            write_loop-Joined x o fuel t (store b'' s) h d (omega arith) q' qs
              (store-Within b'' s w) (store-Ordered b'' s d clear ord) in
          rw (write_loop, e, y)
            (
              i,
              j
                  ∙ over-store b'' s x (queue_has t x) o d clear ord a
                  ∙ sym (
                      over-same s.chunks x _ _ o (λ u. ap (λ v. v || queue_has bs x) same ∙ had u)),
            )
      | inr (inr y) ↦ absurd (rw y at c)
    ]

module _ (x : ℕ) (buf : RangeBuf) (s : RecvBuf) (f : Fresh buf) (v : IsValid s)
    (ord : Ordered 0 s.chunks) where
  abbrev Written : Result Error (Unit {0}) × RecvBuf → Type 0
  Written r = Joined x (byte buf x) s (buf ∷ []) r

  empty-has : is_empty buf ≡ true → has buf x ≡ false
  unfolding is_empty
  empty-has e = ground (arith, ends buf)

  -- A buffer that does not have the place, and the same chunks.
  same-Joined : (s' : RecvBuf) → s'.chunks ≡ s.chunks → has buf x ≡ false → Written (ok tt, s')
  same-Joined s' e h = rw (e, h) (ord, over-none s.chunks x (byte buf x))

  accept-Joined :
      s.drain ≡ false
      → s.off ≤ x
      → Chunk.max_off buf ≤ max_data s
      → breaks_size buf s ≡ false
      → Written (accept buf s)
  unfolding accept save_size
  accept-Joined d h roomy sized = elim (Bool-cases (is_some s.fin_off && is_empty buf)) [
    | inl a ↦ rw (accept, a) (same-Joined s refl (empty-has (ground arith)))
    | inr a ↦ elim (Bool-cases (not buf.fin && is_empty buf)) [
      | inl b ↦ rw (accept, a, b) (same-Joined s refl (empty-has (ground arith)))
      | inr b ↦ elim (Bool-cases (leb (Chunk.max_off buf) s.off && not (is_empty buf))) [
        | inl c ↦ rw (accept, a, b, c) (same-Joined (save_size buf s) refl (ground arith))
        | inr c ↦
            rw (accept, a, b, c)
              (write_loop-Joined x (byte buf x) (2 * Chunk.len buf + 1) (buf ∷ []) (save_size buf s)
                h d (omega arith) ((f, reaches buf s v roomy sized b c), tt) ((λ t. refl), tt)
                v.within ord)
      ]
    ]
  ]

-- A buffer of which nothing is consumed is written to a valid state that is not shut down and whose
-- chunks are in order, within the limit of flow control and the final size: the call succeeds, the
-- chunks are in order again, and at each place that was not read they have the byte that was there
-- before or, where there was none, the buffer's.
pub write-eq-over :
    (buf : RangeBuf) (s : RecvBuf)
    → Fresh buf
    → IsValid s
    → Ordered 0 s.chunks
    → s.drain ≡ false
    → Chunk.max_off buf ≤ max_data s
    → breaks_size buf s ≡ false
    → (x : ℕ) → s.off ≤ x
    → ((write buf s).0 ≡ ok tt)
      × Ordered 0 (write buf s).1.chunks
      × (byte_at (write buf s).1.chunks x ≡ over s.chunks x (has buf x) (byte buf x))
unfolding write
write-eq-over buf s f v ord d roomy sized x h =
    let (s', e, valid, off, len, fin_off) = accept_lem buf s v roomy sized f in
    let (i, j) : Joined x (byte buf x) s (buf ∷ []) (accept buf s) =
      accept-Joined x buf s f v ord d h roomy sized in
    rw (ltb-false (max_data s) (Chunk.max_off buf) roomy, sized)
      (ap (λ r. r.0) e, i, j ∙ ap (λ t. over s.chunks x t (byte buf x)) (or_none (has buf x)))
