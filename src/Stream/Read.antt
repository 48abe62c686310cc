-- ===== src/Stream/Read.antt =====
-- RecvBuf::emit, quiche/src/stream/recv_buf.rs, and the data that is there without a gap.
use quirl.FlowControl.{add_consumed}
use quirl.Stream.RangeBuf.{RangeBuf, consume, deref}
use quirl.Stream.RangeBuf as Chunk
use quirl.Stream.RecvBuf.{RecvBuf, Error, emit, emit_loop, ready, is_fin}
use quirl.Stream.Split.{
  take-nil, IsValid, take-append_short, drop-append_short, take-append_long, drop-append_long,
  take-all, length-deref, consume-IsValid, deref-consume, off-consume, len-consume,
}
use quirl.Common.{
  ==_iff, drop-nil, length-take, length-append, ℕ, ◌+◌, ◌-◌, ◌≤◌, ◌<◌, ◌≡◌, refl, sym, ap, ◌∙◌, min,
  List, [], ◌∷◌, ◌++◌, length, take, drop, arith, Bool, true, false, none, ltb, ◌==◌, if◌then◌else◌,
  Bool-cases, inl, inr,
}
use quirl.Common.Result.{Result, ok}

==_refl : (a : ℕ) → (a == a) ≡ true
==_refl a = ground arith

ltb-zero : (n : ℕ) → ltb 0 n ≡ false → n ≡ 0
ltb-zero n h = ground arith

min-less : (a b : ℕ) → ltb (min a b) a ≡ true → (min a b ≡ b) × (b < a)
min-less a b h = ground arith

min-whole : (a b : ℕ) → ltb (min a b) a ≡ false → (min a b ≡ a) × (a ≤ b)
min-whole a b h = ground arith

abbrev pub AllValid : List (ℕ × RangeBuf) → Type 0
AllValid [] = Unit {0}
AllValid ((k, b) ∷ rest) = IsValid b × AllValid rest

-- The bytes from an offset on, up to the first gap.
abbrev pub contiguous : List (ℕ × RangeBuf) → ℕ → List ℕ
contiguous [] off = []
contiguous ((k, b) ∷ rest) off =
    if Chunk.off b == off then deref b ++ contiguous rest (off + Chunk.len b) else []

-- What the loop is to give.
abbrev pub Emitted : List ℕ → ℕ → ℕ → List ℕ × List (ℕ × RangeBuf) × ℕ → Type 0
Emitted there off cap (written, left, end) =
    (written ≡ take cap there)
    × (end ≡ off + length written)
    × (contiguous left end ≡ drop cap there)
    × AllValid left

emit_loop-nothing :
    (l : List (ℕ × RangeBuf)) (off : ℕ) → AllValid l → Emitted (contiguous l off) off 0 ([], l, off)
emit_loop-nothing l off v = (refl, omega arith, refl, v)

-- The output is full within a chunk, which keeps its rest.
emit_loop-within :
    (k : ℕ) (b : RangeBuf) (rest : List (ℕ × RangeBuf)) (off cap : ℕ)
    → IsValid b
    → AllValid rest
    → Chunk.off b ≡ off
    → cap < Chunk.len b
    → Emitted
        (deref b ++ contiguous rest (off + Chunk.len b))
        off
        cap
        (take cap (deref b), (k, consume cap b) ∷ rest, off + cap)
emit_loop-within k b rest off cap v vs e lt = (
  sym (take-append_short cap (deref b) _ (omega (arith, length-deref v))),
  omega (arith, length-take cap (deref b), length-deref v),
  rw
      (
        off-consume b cap,
        e,
        len-consume cap v (omega arith),
        deref-consume cap b,
        drop-append_short cap (deref b) (contiguous rest (off + Chunk.len b))
            (omega (arith, length-deref v)),
      )
      rw (==_refl (off + cap))
      (ap (λ o. drop cap (deref b) ++ contiguous rest o) {x = off + cap + (Chunk.len b - cap)}
        {y = off + Chunk.len b} (omega arith)),
  (consume-IsValid cap v (omega arith), vs),
)

-- A chunk is read to its end, and the loop goes on.
emit_loop-through :
    (b : RangeBuf) (there : List ℕ) (off cap : ℕ) (r : List ℕ × List (ℕ × RangeBuf) × ℕ)
    → IsValid b
    → Chunk.len b ≤ cap
    → Emitted there (off + Chunk.len b) (cap - Chunk.len b) r
    → Emitted (deref b ++ there) off cap (take (Chunk.len b) (deref b) ++ r.0, r.1, r.2)
emit_loop-through b there off cap (w, l, end) v le (p, q, s, t) =
    rw (take-all (Chunk.len b) (deref b) (omega (arith, length-deref v))) (
      ap (λ t. deref b ++ t)
            (p
              ∙ ap (λ k. take k there) {x = cap - Chunk.len b} {y = cap - length (deref b)}
                  (omega (arith, length-deref v)))
          ∙ sym (take-append_long cap (deref b) there (omega (arith, length-deref v))),
      omega (arith, length-append (deref b) w, length-deref v),
      s
          ∙ ap (λ k. drop k there) {x = cap - Chunk.len b} {y = cap - length (deref b)}
              (omega (arith, length-deref v))
          ∙ sym (drop-append_long cap (deref b) there (omega (arith, length-deref v))),
      t,
    )

-- A gap ends the loop.
emit_loop-stop :
    (k : ℕ) (b : RangeBuf) (rest : List (ℕ × RangeBuf)) (off cap : ℕ)
    → (Chunk.off b == off) ≡ false
    → emit_loop ((k, b) ∷ rest) off cap ≡ ([], (k, b) ∷ rest, off)
unfolding emit_loop
emit_loop-stop k b rest off cap e = elim (Bool-cases (ltb 0 cap)) [
  | inl c ↦ rw (c, e) refl
  | inr c ↦ rw c refl
]

emit_loop-gap :
    (k : ℕ) (b : RangeBuf) (rest : List (ℕ × RangeBuf)) (off cap : ℕ)
    → IsValid b
    → AllValid rest
    → (Chunk.off b == off) ≡ false
    → Emitted (contiguous ((k, b) ∷ rest) off) off cap ([], (k, b) ∷ rest, off)
emit_loop-gap k b rest off cap v vs e =
    rw e (sym (take-nil cap), omega arith, sym (drop-nil cap), (v, vs))

pub emit_loop_lem :
    (l : List (ℕ × RangeBuf)) (off cap : ℕ)
    → AllValid l
    → Emitted (contiguous l off) off cap (emit_loop l off cap)
unfolding emit_loop
emit_loop_lem [] off cap v = (sym (take-nil cap), omega arith, sym (drop-nil cap), tt)
emit_loop_lem ((k, b) ∷ rest) off cap (v, vs) = elim (Bool-cases (ltb 0 cap)) [
  | inr c ↦ rw (c, ltb-zero cap c) (emit_loop-nothing ((k, b) ∷ rest) off (v, vs))
  | inl c ↦ elim (Bool-cases (Chunk.off b == off)) [
    | inr e ↦ rw (emit_loop-stop k b rest off cap e) (emit_loop-gap k b rest off cap v vs e)
    | inl e ↦ elim (Bool-cases (ltb (min (Chunk.len b) cap) (Chunk.len b))) [
      | inl d ↦
          let (f, lt) = min-less (Chunk.len b) cap d in
          rw (c, e, d, f) (emit_loop-within k b rest off cap v vs ((==_iff _ _).0 e) lt)
      | inr d ↦
          let (f, le) = min-whole (Chunk.len b) cap d in
          rw (c, e, d, f)
            (emit_loop-through b (contiguous rest (off + Chunk.len b)) off cap
              (emit_loop rest (off + Chunk.len b) (cap - Chunk.len b)) v le
              (emit_loop_lem rest (off + Chunk.len b) (cap - Chunk.len b) vs))
    ]
  ]
]

abbrev answer :
    List ℕ → RecvBuf → List ℕ × List (ℕ × RangeBuf) × ℕ → Result Error (ℕ × Bool) × List ℕ × RecvBuf
answer out s (written, left, end) =
    let s' = record s {
      chunks = left;
      off = end;
      flow_control = add_consumed (length written) s.flow_control;
    } in
    (ok (length written, is_fin s'), written ++ drop (length written) out, s')

emit-eq-answer :
    (out : List ℕ) (s : RecvBuf)
    → ready s ≡ true
    → s.error ≡ none
    → emit out s ≡ answer out s (emit_loop s.chunks s.off (length out))
unfolding emit
emit-eq-answer out s r e = rw r (ground arith)

-- The result, the output and the state after reading.
abbrev pub Taken : List ℕ → RecvBuf → Result Error (ℕ × Bool) × List ℕ × RecvBuf → Type 0
Taken out s (result, out', s') =
    let there = contiguous s.chunks s.off in
    let written = take (length out) there in
    (result ≡ ok (length written, is_fin s'))
    × (out' ≡ written ++ drop (length written) out)
    × (s'.off ≡ s.off + length written)
    × (contiguous s'.chunks s'.off ≡ drop (length out) there)
    × (s'.flow_control.consumed ≡ s.flow_control.consumed + length written)
    × AllValid s'.chunks

-- Where the chunks are valid, one is at the place of the next byte to read, and the stream was not
-- reset, `emit` fills the output with the bytes that are there without a gap, as far as it has room;
-- they are taken off and counted as consumed, and the rest is there for the next call.
pub emit_lem :
    (out : List ℕ) (s : RecvBuf)
    → AllValid s.chunks
    → ready s ≡ true
    → s.error ≡ none
    → Taken out s (emit out s)
unfolding add_consumed
emit_lem out s v r e =
    let (p, q, t, u) = emit_loop_lem s.chunks s.off (length out) v in
    rw (emit-eq-answer out s r e, p) (refl, refl, q ∙ ap (λ w. s.off + length w) p, t, refl, u)
