-- ===== src/Stream/Left.antt =====
-- RecvBuf::emit of quiche/src/stream/recv_buf.rs: the chunks that it leaves.
use quirl.FlowControl.{add_consumed}
use quirl.Stream.RangeBuf.{RangeBuf, consume, deref}
use quirl.Stream.RangeBuf as Chunk
use quirl.Stream.RecvBuf.{RecvBuf, Error, emit, emit_loop, ready, is_fin, max_data, stream_reset}
use quirl.Stream.Split.{
  length-deref, off-consume, len-consume, deref-consume, take-all, take-append_short,
}
use quirl.Stream.Split
use quirl.Stream.Write.{Chunks}
use quirl.Stream.Overlaps.{Within}
use quirl.Stream.Apart.{Ordered, Ordered-le}
use quirl.Stream.Halves.{ends}
use quirl.Stream.Accept.{IsValid}
use quirl.Stream.Bytes.{has, byte, byte_at, get_elem?-append_left, get_elem?-append_right}
use quirl.Stream.Copied.{get_elem?-take, get_elem?-drop}
use quirl.Stream.Read.{AllValid, contiguous, Emitted, emit_loop_lem}
use mathlib.Core.Path.{subst}
use quirl.Common.{
  ℕ, ◌+◌, ◌-◌, ◌≤◌, ◌<◌, ◌≡◌, refl, sym, ap, ◌∙◌, min, arith, List, [], ◌∷◌, ◌++◌, length,
  length-append, length-take, get_elem?, take, drop, Bool, true, false, not, ltb, ◌==◌, ◌&&◌,
  if◌then◌else◌, if_elim, le_or_lt, Option, none, some, inl, inr, ==_iff,
}
use quirl.Common.Result.{Result, ok, err, panic}

-- A byte of the data that is there without a gap is that of a chunk.
pub contiguous-byte_at :
    (l : Chunks) (lo off k : ℕ)
    → AllValid l
    → Ordered lo l
    → k < length (contiguous l off)
    → get_elem? (contiguous l off) k ≡ byte_at l (off + k)
contiguous-byte_at [] lo off k v o h = absurd (omega arith)
contiguous-byte_at ((key, b) ∷ rest) lo off k (v, vs) (x, y, o) h =
    by_place (λ n m. contiguous-byte_at rest key n m vs o) (Chunk.off b == off) refl h
  where
    Rest : Type 0
    Rest =
        (n m : ℕ)
        → m < length (contiguous rest n)
        → get_elem? (contiguous rest n) m ≡ byte_at rest (n + m)

    at_chunk :
        Rest
        → Chunk.off b ≡ off
        → k < length (deref b ++ contiguous rest (off + Chunk.len b))
        → get_elem? (deref b ++ contiguous rest (off + Chunk.len b)) k
          ≡ (if has b (off + k) then byte b (off + k) else byte_at rest (off + k))
    at_chunk ih e lt = elim (le_or_lt (Chunk.len b) k) [
      | inr within ↦
          get_elem?-append_left (deref b) (contiguous rest (off + Chunk.len b)) k
            (omega (arith, length-deref v))
          ∙ ap (get_elem? (deref b)) {x = k} {y = off + k - Chunk.off b} (omega (arith, e))
          ∙ rw (inside within) refl
      | inl past ↦
          ap (get_elem? (deref b ++ contiguous rest (off + Chunk.len b))) {x = k}
            {y = length (deref b) + (k - Chunk.len b)} (omega (arith, length-deref v))
          ∙ get_elem?-append_right (deref b) (contiguous rest (off + Chunk.len b)) (k - Chunk.len b)
          ∙ ih (off + Chunk.len b) (k - Chunk.len b) (
              omega (
                arith,
                length-append (deref b) (contiguous rest (off + Chunk.len b)),
                length-deref v,
              ))
          ∙ ap (byte_at rest) {x = off + Chunk.len b + (k - Chunk.len b)} {y = off + k}
              (omega arith)
          ∙ rw (outside past) refl
    ]
      where
        inside : k < Chunk.len b → has b (off + k) ≡ true
        inside w = ground (arith, e, ends b)

        outside : Chunk.len b ≤ k → has b (off + k) ≡ false
        outside w = ground (arith, e, ends b)

    by_place :
        Rest
        → (t : Bool) → (Chunk.off b == off) ≡ t
        → k < length (if t then deref b ++ contiguous rest (off + Chunk.len b) else [])
        → get_elem? (if t then deref b ++ contiguous rest (off + Chunk.len b) else []) k
          ≡ byte_at ((key, b) ∷ rest) (off + k)
    by_place ih true e lt = at_chunk ih ((==_iff _ _).0 e) lt
    by_place ih false e lt = absurd (omega arith)

-- What is left of the chunks, and the place that was read up to.
pub record Leaves (lo len : ℕ) (l : Chunks) (off : ℕ) (left : Chunks) (end : ℕ) : Type 0 where
  pub ordered : Ordered lo left
  pub within : Within len left
  pub onward : off ≤ end
  pub reached : end ≤ len
  pub same : (x : ℕ) → end ≤ x → byte_at left x ≡ byte_at l x

module _ (lo len key : ℕ) (b : RangeBuf) (rest : Chunks) (off : ℕ) (v : Split.IsValid b)
    (o : Ordered lo ((key, b) ∷ rest)) (w : Within len ((key, b) ∷ rest)) (reach : off ≤ len) where
  Leaves-all : Leaves lo len ((key, b) ∷ rest) off ((key, b) ∷ rest) off
  Leaves-all = record {
    ordered = o;
    within = w;
    onward = omega arith;
    reached = reach;
    same = λ x h. refl;
  }

  Leaves-through :
      (left : Chunks) (end : ℕ)
      → Chunk.off b ≡ off
      → Leaves key len rest (off + Chunk.len b) left end
      → Leaves lo len ((key, b) ∷ rest) off left end
  Leaves-through left end e p = record {
    ordered = Ordered-le key lo left (omega (arith, o.0, o.1, ends b)) p.ordered;
    within = p.within;
    onward = omega (arith, p.onward);
    reached = p.reached;
    same = λ x h. p.same x h ∙ sym (beyond x h);
  }
    where
      beyond : (x : ℕ) → end ≤ x → byte_at ((key, b) ∷ rest) x ≡ byte_at rest x
      beyond x h = rw (past x h) refl
        where
          past : (x : ℕ) → end ≤ x → has b x ≡ false
          past x h = ground (arith, p.onward, e, ends b)

  Leaves-within :
      (n : ℕ)
      → Chunk.off b ≡ off
      → n < Chunk.len b
      → Leaves lo len ((key, b) ∷ rest) off ((key, consume n b) ∷ rest) (off + n)
  Leaves-within n e lt = record {
    ordered = (omega (arith, o.0, off-consume b n), omega (arith, o.1, same_end), o.2);
    within = (omega (arith, w.0, same_end), w.1);
    onward = omega arith;
    reached = omega (arith, w.0, ends b, e, lt);
    same = λ x h. rw (same_has x h, same_byte x h) refl;
  }
    where
      same_end : Chunk.max_off (consume n b) ≡ Chunk.max_off b
      same_end =
          omega (arith, ends b, ends (consume n b), off-consume b n, len-consume n v (omega arith))

      same_has : (x : ℕ) → off + n ≤ x → has (consume n b) x ≡ has b x
      same_has x h = ground (arith, same_end, off-consume b n, e)

      same_byte : (x : ℕ) → off + n ≤ x → byte (consume n b) x ≡ byte b x
      same_byte x h =
          ap (λ l. get_elem? l (x - Chunk.off (consume n b))) (deref-consume n b)
          ∙ get_elem?-drop n (x - Chunk.off (consume n b)) (deref b)
          ∙ ap (get_elem? (deref b)) (omega (arith, off-consume b n, e))

emit_loop-Leaves :
    (l : Chunks) (lo len off cap : ℕ)
    → AllValid l
    → Ordered lo l
    → Within len l
    → off ≤ len
    → Leaves lo len l off (emit_loop l off cap).1 (emit_loop l off cap).2
unfolding emit_loop
emit_loop-Leaves [] lo len off cap v o w h = record {
  ordered = tt;
  within = tt;
  onward = omega arith;
  reached = h;
  same = λ x k. refl;
}
emit_loop-Leaves ((key, b) ∷ rest) lo len off cap (v, vs) o w h =
    if_elim (λ (r : List ℕ × Chunks × ℕ). Leaves lo len ((key, b) ∷ rest) off r.1 r.2)
      (ltb 0 cap && Chunk.off b == off)
      (λ here.
        let e : Chunk.off b ≡ off = ground arith in
        if_elim (λ (r : List ℕ × Chunks × ℕ). Leaves lo len ((key, b) ∷ rest) off r.1 r.2)
          (ltb (min (Chunk.len b) cap) (Chunk.len b))
          (λ less.
            Leaves-within lo len key b rest off v o w h (min (Chunk.len b) cap) e (ground arith))
          (λ whole.
            Leaves-through lo len key b rest off v o w h
              (emit_loop rest (off + min (Chunk.len b) cap) (cap - min (Chunk.len b) cap)).1
              (emit_loop rest (off + min (Chunk.len b) cap) (cap - min (Chunk.len b) cap)).2 e
              (subst
                (λ n.
                  Leaves key len rest n
                    (emit_loop rest (off + min (Chunk.len b) cap) (cap - min (Chunk.len b) cap)).1
                    (emit_loop rest (off + min (Chunk.len b) cap) (cap - min (Chunk.len b) cap)).2)
                {x = off + min (Chunk.len b) cap} {y = off + Chunk.len b} (ground arith)
                (emit_loop-Leaves rest key len (off + min (Chunk.len b) cap)
                  (cap - min (Chunk.len b) cap) vs o.2 w.1 (omega (arith, w.0, ends b, e))))))
      (λ gap. Leaves-all lo len key b rest off v o w h)

-- The number of bytes that a call of emit answers with.
abbrev pub answered : Result Error (ℕ × Bool) → ℕ
answered (ok (n, fin)) = n
answered (err e) = 0
answered panic = 0

-- After a call: `w` is what the application was given.
pub record Handed (s : RecvBuf) (w : List ℕ) (r : Result Error (ℕ × Bool) × List ℕ × RecvBuf)
    : Type 0 where
  pub given : take (answered r.0) r.1 ≡ w
  pub off : r.2.off ≡ s.off + length w
  pub bytes : (k : ℕ) → k < length w → get_elem? w k ≡ byte_at s.chunks (s.off + k)
  pub valid : IsValid r.2
  pub chunks : AllValid r.2.chunks
  pub ordered : Ordered 0 r.2.chunks
  pub drain : r.2.drain ≡ s.drain
  pub error : r.2.error ≡ s.error
  pub fin_off : r.2.fin_off ≡ s.fin_off
  pub same : (x : ℕ) → r.2.off ≤ x → byte_at r.2.chunks x ≡ byte_at s.chunks x

-- The stream was not reset, and its chunks are valid and in order.
pub emit-Handed :
    (out : List ℕ) (s : RecvBuf)
    → IsValid s
    → AllValid s.chunks
    → Ordered 0 s.chunks
    → s.error ≡ none
    → (w : List ℕ) × Handed s w (emit out s)
unfolding emit max_data add_consumed
emit-Handed out s v vs o e =
    if_elim Some (not (ready s))
      (λ _. (
        [],
        record {
          given = refl;
          off = omega arith;
          bytes = λ k h. absurd (omega arith);
          valid = v;
          chunks = vs;
          ordered = o;
          drain = refl;
          error = refl;
          fin_off = refl;
          same = λ x h. refl;
        },
      ))
      (λ _. by_error s.error e)
  where
    Some : Result Error (ℕ × Bool) × List ℕ × RecvBuf → Type 0
    Some r = (w : List ℕ) × Handed s w r

    loop : List ℕ × Chunks × ℕ
    loop = emit_loop s.chunks s.off (length out)

    s' : RecvBuf
    s' = record s {
      chunks = loop.1;
      off = loop.2;
      flow_control = add_consumed (length loop.0) s.flow_control;
    }

    taken : Emitted (contiguous s.chunks s.off) s.off (length out) loop
    taken = emit_loop_lem s.chunks s.off (length out) vs

    left : Leaves 0 s.len s.chunks s.off loop.1 loop.2
    left = emit_loop-Leaves s.chunks 0 s.len s.off (length out) vs o v.within v.read_part

    first : (k : ℕ) → k < length loop.0 → get_elem? loop.0 k ≡ byte_at s.chunks (s.off + k)
    first k h =
        ap (λ l. get_elem? l k) taken.0
        ∙ get_elem?-take (length out) k (contiguous s.chunks s.off)
            (omega (arith, ap length taken.0, length-take (length out) (contiguous s.chunks s.off)))
        ∙ contiguous-byte_at s.chunks 0 s.off k vs o
            (omega (arith, ap length taken.0, length-take (length out) (contiguous s.chunks s.off)))

    by_error :
        (error : Option ℕ)
        → error ≡ none
        → Some (elim error [
          | some e ↦ (err (stream_reset e), out, record s { chunks = [] })
          | none ↦
              let (written, left, end) = emit_loop s.chunks s.off (length out) in
              let s' = record s {
                chunks = left;
                off = end;
                flow_control = add_consumed (length written) s.flow_control;
              } in
              (ok (length written, is_fin s'), written ++ drop (length written) out, s')
        ])
    by_error (some c) q = cc
    by_error none q = (
      loop.0,
      record {
        given =
            take-append_short (length loop.0) loop.0 (drop (length loop.0) out) (omega arith)
            ∙ take-all (length loop.0) loop.0 (omega arith);
        off = taken.1;
        bytes = first;
        valid = record {
          read_part = left.reached;
          within = left.within;
          known = v.known;
          allowed = v.allowed;
        };
        chunks = taken.3;
        ordered = left.ordered;
        drain = refl;
        error = refl;
        fin_off = refl;
        same = left.same;
      },
    )
