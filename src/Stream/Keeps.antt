-- ===== src/Stream/Keeps.antt =====
-- RecvBuf::write of quiche/src/stream/recv_buf.rs: what it stores is valid, and what it leaves alone.
use quirl.Stream.RangeBuf.{RangeBuf, split_off, is_empty}
use quirl.Stream.RangeBuf as Chunk
use quirl.Stream.RecvBuf.{RecvBuf, Error, max_data}
use quirl.Stream.Write.{
  Chunks, Overlap, contained, remaining, failed, range_from, insert_chunk, overlap_loop, cut_front,
  overlap, store, write_loop, breaks_size, is_some, save_size, accept, write,
}
use quirl.Stream.Split.{IsValid}
use quirl.Stream.Read.{AllValid}
use quirl.Common.{
  ℕ, zero, suc, ◌+◌, ◌-◌, ◌*◌, ◌≤◌, ◌≡◌, refl, ◌∙◌, arith, List, [], ◌∷◌, ◌++◌, All, max, min,
  false, not, ltb, leb, ◌==◌, ◌&&◌, ◌||◌, if_elim, Option, none, some,
}
use quirl.Common.Result.{Result, panic}

abbrev BufsValid : List RangeBuf → Type 0
BufsValid = All (λ b. IsValid b)

BufsValid-snoc :
    (bs : List RangeBuf) (b : RangeBuf) → BufsValid bs → IsValid b → BufsValid (bs ++ (b ∷ []))
BufsValid-snoc [] b v w = (w, tt)
BufsValid-snoc (x ∷ bs) b v w = (v.0, BufsValid-snoc bs b v.1 w)

abbrev BothValid : Option (RangeBuf × RangeBuf) → Type 0
BothValid none = Unit
BothValid (some (tail, head)) = IsValid tail × IsValid head

split_off-IsValid : (at : ℕ) (b : RangeBuf) → IsValid b → BothValid (split_off at b)
unfolding split_off
split_off-IsValid at b v =
    if_elim BothValid (ltb b.len at) (λ _. tt)
      (λ e. (valid_tail (ground arith), valid_head (ground arith)))
  where
    valid_tail :
        at ≤ b.len
        → IsValid (record b {
          start = b.start + at;
          pos = max b.pos (b.start + at);
          len = b.len - at;
          off = b.off + at;
        })
    valid_tail le = omega (arith, v.begun, v.within, v.fits, v.placed)

    valid_head :
        at ≤ b.len → IsValid (record b { pos = min b.pos (b.start + at); len = at; fin = false })
    valid_head le = omega (arith, v.begun, v.within, v.fits, v.placed)

-- What the loop over the chunks leaves.
abbrev LeavesValid : Overlap → Type 0
LeavesValid (contained tmp) = BufsValid tmp
LeavesValid (remaining buf tmp) = IsValid buf × BufsValid tmp
LeavesValid failed = Unit

LeavesValid-parts :
    (f : RangeBuf → RangeBuf → Overlap) (o : Option (RangeBuf × RangeBuf))
    → BothValid o
    → ((tail head : RangeBuf) → IsValid tail → IsValid head → LeavesValid (f tail head))
    → LeavesValid (elim o [ none ↦ failed | some (tail, head) ↦ f tail head ])
LeavesValid-parts f none v h = tt
LeavesValid-parts f (some (tail, head)) v h = h tail head v.0 v.1

overlap_loop-LeavesValid :
    (l : Chunks) (buf : RangeBuf) (tmp : List RangeBuf)
    → IsValid buf
    → BufsValid tmp
    → LeavesValid (overlap_loop l buf tmp)
unfolding overlap_loop
overlap_loop-LeavesValid [] buf tmp v w = (v, w)
overlap_loop-LeavesValid ((k, b) ∷ rest) buf tmp v w =
    if_elim LeavesValid (ltb (Chunk.max_off buf) (Chunk.off b)) (λ _. (v, w))
      (λ _.
        if_elim LeavesValid
          (leb (Chunk.off b) (Chunk.off buf) && leb (Chunk.max_off buf) (Chunk.max_off b)) (λ _. w)
          (λ _.
            if_elim LeavesValid
              (leb (Chunk.off b) (Chunk.off buf) && ltb (Chunk.off buf) (Chunk.max_off b))
              (λ _.
                LeavesValid-parts (λ tail head. overlap_loop rest tail tmp)
                  (split_off (Chunk.max_off b - Chunk.off buf) buf)
                  (split_off-IsValid (Chunk.max_off b - Chunk.off buf) buf v)
                  (λ tail head t h. overlap_loop-LeavesValid rest tail tmp t w))
              (λ _.
                if_elim LeavesValid
                  (ltb (Chunk.off buf) (Chunk.off b) && ltb (Chunk.off b) (Chunk.max_off buf))
                  (λ _.
                    LeavesValid-parts (λ tail head. overlap_loop rest head (tmp ++ (tail ∷ [])))
                      (split_off (Chunk.off b - Chunk.off buf) buf)
                      (split_off-IsValid (Chunk.off b - Chunk.off buf) buf v)
                      (λ tail head t h.
                        overlap_loop-LeavesValid rest head (tmp ++ (tail ∷ [])) h
                          (BufsValid-snoc tmp tail w t)))
                  (λ _. overlap_loop-LeavesValid rest buf tmp v w))))

overlap-LeavesValid :
    (s : RecvBuf) (buf : RangeBuf) (tmp : List RangeBuf)
    → IsValid buf
    → BufsValid tmp
    → LeavesValid (overlap s buf tmp)
unfolding overlap
overlap-LeavesValid s buf tmp v w =
    if_elim LeavesValid (ltb (Chunk.off buf) s.len || is_empty buf)
      (λ _. overlap_loop-LeavesValid (range_from (Chunk.off buf) s.chunks) buf tmp v w)
      (λ _. (v, w))

-- The chunks stay valid, and the stream open.
pub record Keeps (s t : RecvBuf) : Type 0 where
  pub valid : AllValid s.chunks → AllValid t.chunks
  pub drain : t.drain ≡ s.drain
  pub error : t.error ≡ s.error

Keeps-trans : (s t u : RecvBuf) → Keeps s t → Keeps t u → Keeps s u
Keeps-trans s t u k m = record {
  valid = λ v. m.valid (k.valid v);
  drain = m.drain ∙ k.drain;
  error = m.error ∙ k.error;
}

Keeps-refl : (s : RecvBuf) → Keeps s s
Keeps-refl s = record { valid = λ v. v; drain = refl; error = refl }

insert_chunk-AllValid :
    (key : ℕ) (buf : RangeBuf) (l : Chunks)
    → IsValid buf
    → AllValid l
    → AllValid (insert_chunk key buf l)
unfolding insert_chunk
insert_chunk-AllValid key buf [] v w = (v, tt)
insert_chunk-AllValid key buf ((k, b) ∷ rest) v w =
    if_elim AllValid (ltb key k) (λ _. (v, w))
      (λ _.
        if_elim AllValid (key == k) (λ _. (v, w.1))
          (λ _. (w.0, insert_chunk-AllValid key buf rest v w.1)))

store-Keeps : (buf : RangeBuf) (s : RecvBuf) → IsValid buf → Keeps s (store buf s)
unfolding store
store-Keeps buf s v = record {
  valid = λ w.
      if_elim AllValid s.drain (λ _. w)
        (λ _. insert_chunk-AllValid (Chunk.max_off buf) buf s.chunks v w);
  drain = refl;
  error = refl;
}

-- The part of a buffer that was not read.
abbrev ValidOr : Option RangeBuf → Type 0
ValidOr none = Unit
ValidOr (some b) = IsValid b

cut_front-ValidOr : (front : ℕ) (buf : RangeBuf) → IsValid buf → ValidOr (cut_front front buf)
unfolding cut_front
cut_front-ValidOr front buf v =
    if_elim ValidOr (ltb (Chunk.off buf) front)
      (λ _.
        tail_of (split_off (front - Chunk.off buf) buf)
          (split_off-IsValid (front - Chunk.off buf) buf v))
      (λ _. v)
  where
    tail_of :
        (o : Option (RangeBuf × RangeBuf))
        → BothValid o
        → ValidOr (elim o [ none ↦ none | some (tail, head) ↦ some tail ])
    tail_of none w = tt
    tail_of (some (tail, head)) w = w.0

write_loop-Keeps :
    (fuel : ℕ) (bs : List RangeBuf) (s : RecvBuf) → BufsValid bs → Keeps s (write_loop fuel bs s).1
unfolding write_loop
write_loop-Keeps fuel [] s v = Keeps-refl s
write_loop-Keeps zero (b ∷ bs) s v = Keeps-refl s
write_loop-Keeps (suc fuel) (b ∷ bs) s v =
    after_cut (write_loop-Keeps fuel) (cut_front s.off b) (cut_front-ValidOr s.off b v.0)
  where
    after_overlap :
        ((tmp : List RangeBuf) (s : RecvBuf) → BufsValid tmp → Keeps s (write_loop fuel tmp s).1)
        → (x : Overlap) → LeavesValid x
        → Keeps s (
            (λ (r : Result Error (Unit {0}) × RecvBuf). r.1)
              (elim x [
                | contained tmp ↦ write_loop fuel tmp s
                | remaining buf tmp ↦ write_loop fuel tmp (store buf s)
                | failed ↦ (panic, s)
              ]))
    after_overlap ih (contained tmp) w = ih tmp s w
    after_overlap ih (remaining buf tmp) w =
        Keeps-trans s (store buf s) (write_loop fuel tmp (store buf s)).1 (store-Keeps buf s w.0)
          (ih tmp (store buf s) w.1)
    after_overlap ih failed w = Keeps-refl s

    after_cut :
        ((tmp : List RangeBuf) (s : RecvBuf) → BufsValid tmp → Keeps s (write_loop fuel tmp s).1)
        → (o : Option RangeBuf) → ValidOr o
        → Keeps s (
            (λ (r : Result Error (Unit {0}) × RecvBuf). r.1)
              (elim o [
                | none ↦ (panic, s)
                | some buf' ↦ elim (overlap s buf' bs) [
                  | contained tmp ↦ write_loop fuel tmp s
                  | remaining buf tmp ↦ write_loop fuel tmp (store buf s)
                  | failed ↦ (panic, s)
                ]
              ]))
    after_cut ih none w = Keeps-refl s
    after_cut ih (some buf') w =
        after_overlap ih (overlap s buf' bs) (overlap-LeavesValid s buf' bs w v.1)

-- Whatever a valid buffer is written to: the chunks stay valid, and the stream is as open as before.
pub write-Keeps : (buf : RangeBuf) (s : RecvBuf) → IsValid buf → Keeps s (write buf s).1
unfolding write accept save_size
write-Keeps buf s v =
    if_elim Kept (ltb (max_data s) (Chunk.max_off buf)) (λ _. Keeps-refl s)
      (λ _.
        if_elim Kept (breaks_size buf s) (λ _. Keeps-refl s)
          (λ _.
            if_elim Kept (is_some s.fin_off && is_empty buf) (λ _. Keeps-refl s)
              (λ _.
                if_elim Kept (not buf.fin && is_empty buf) (λ _. Keeps-refl s)
                  (λ _.
                    if_elim Kept (leb (Chunk.max_off buf) s.off && not (is_empty buf))
                      (λ _. same_kept)
                      (λ _.
                        Keeps-trans s (save_size buf s)
                          (write_loop (2 * Chunk.len buf + 1) (buf ∷ []) (save_size buf s)).1
                          same_kept
                          (write_loop-Keeps (2 * Chunk.len buf + 1) (buf ∷ []) (save_size buf s)
                            (v, tt)))))))
  where
    Kept : Result Error (Unit {0}) × RecvBuf → Type 0
    Kept r = Keeps s r.1

    same_kept : Keeps s (save_size buf s)
    same_kept = record { valid = λ w. w; drain = refl; error = refl }
