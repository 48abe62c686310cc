-- ===== src/Stream/Accept.antt =====
-- RecvBuf::write, quiche/src/stream/recv_buf.rs: its errors, the end of its loop, and the count of the
-- bytes received.
use quirl.Stream.RangeBuf.{RangeBuf, is_empty}
use quirl.Stream.RangeBuf as Chunk
use quirl.Stream.RecvBuf.{RecvBuf, Error, flow_control, final_size, max_data}
use quirl.Stream.Write.{
  Chunks, Overlap, contained, remaining, failed, overlap, store, write_loop, breaks_size, is_some,
  save_size, accept, write,
}
use quirl.Stream.Overlaps.{
  AllQueued, Within, all_rounds, reach, Cut, Within-le, Within-insert_chunk, overlap-Cut,
  cut_front-Fresh,
}
use quirl.Stream.Halves.{Fresh}
use quirl.Common.{
  ℕ, zero, suc, ◌+◌, ◌*◌, ◌≤◌, ◌≡◌, refl, ap, ◌∙◌, max, List, [], ◌∷◌, ltb, leb, ◌==◌, ◌&&◌, ◌||◌,
  not, if◌then◌else◌, Bool, true, false, Option, none, some, arith, Bool-cases, inl, inr, ◌⊎◌,
}
use quirl.Common.Result.{Result, ok, err}

-- The loop ends with all that waited taken in: only the chunks and the count of bytes change.
abbrev Ended : RecvBuf → ℕ → Result Error (Unit {0}) × RecvBuf → Type 0
Ended s len r =
    (chunks : Chunks) × (r ≡ (ok tt, record s { chunks = chunks; len = len })) × Within len chunks

pub store-Within :
    (buf : RangeBuf) (s : RecvBuf)
    → Within s.len s.chunks
    → Within (store buf s).len (store buf s).chunks
unfolding store
store-Within buf s w =
    let grown : Within (max s.len (Chunk.max_off buf)) s.chunks =
      Within-le s.len _ s.chunks (omega arith) w in
    elim (Bool-cases s.drain) [
      | inl e ↦ rw e grown
      | inr e ↦ rw e (Within-insert_chunk _ (Chunk.max_off buf) buf s.chunks (omega arith) grown)
    ]

pub Overlap-cases :
    (x : Overlap)
    → ((t : List RangeBuf) × (x ≡ contained t))
      ⊎ (((b : RangeBuf) × (t : List RangeBuf) × (x ≡ remaining b t)) ⊎ (x ≡ failed))
Overlap-cases (contained t) = inl (t, refl)
Overlap-cases (remaining b t) = inr (inl (b, t, refl))
Overlap-cases failed = inr (inr refl)

-- As many rounds as the parts that wait can take are enough.
write_loop_lem :
    (fuel : ℕ) (q : List RangeBuf) (s : RecvBuf)
    → all_rounds q ≤ fuel
    → AllQueued s.off q
    → Within s.len s.chunks
    → Ended s (reach s.len q) (write_loop fuel q s)
unfolding write_loop store
write_loop_lem fuel [] s h q w = (s.chunks, refl, w)
write_loop_lem zero (b ∷ bs) s h q w = absurd (omega arith)
write_loop_lem (suc fuel) (b ∷ bs) s h (p, q) w =
    let (b', e, f, o, m, r, z) = cut_front-Fresh s.off b p in
    let c : Cut s.off s.len b' bs (overlap s b' bs) = overlap-Cut s b' bs w f o q in
    let end : (n : ℕ)
        → n ≡ reach (max s.len (Chunk.max_off b')) bs
        → n ≡ reach (max s.len (Chunk.max_off b)) bs =
      λ n g. g ∙ ap (λ k. reach (max s.len k) bs) m in
    elim (Overlap-cases (overlap s b' bs)) [
      | inl (t, x) ↦
          let (q', l, g) : Cut s.off s.len b' bs (contained t) = rw x at c in
          rw (write_loop, e, x)
            (rw (end (reach s.len t) g) at (write_loop_lem fuel t s (omega arith) q' w))
      | inr (inl (b'', t, x)) ↦
          let (q', l, g) : Cut s.off s.len b' bs (remaining b'' t) = rw x at c in
          rw (write_loop, e, x)
            (rw (end (reach (store b'' s).len t) g) at
              (write_loop_lem fuel t (store b'' s) (omega arith) q' (store-Within b'' s w)))
      | inr (inr x) ↦ absurd (rw x at c)
    ]

-- A final size that is known is what was received.
abbrev pub Known : Option ℕ → ℕ → Type 0
Known none len = Unit {0}
Known (some fin_off) len = fin_off ≡ len

pub record IsValid (s : RecvBuf) : Type 0 where
  pub read_part : s.off ≤ s.len
  pub within : Within s.len s.chunks
  pub known : Known s.fin_off s.len
  pub allowed : s.len ≤ max_data s

-- The final size after a buffer that ends at `m`, and how it goes with what was received.
module _ (o : Option ℕ) (fin : Bool) (m len : ℕ) where
  abbrev breaks : Bool
  breaks = elim o [ none ↦ false | some f ↦ ltb f m || (fin && not (f == m)) ] || (fin && ltb m len)

  abbrev size_after : Option ℕ
  size_after = if fin then some m else o

Known-after :
    (o : Option ℕ) (fin : Bool) (m len : ℕ)
    → Known o len
    → breaks o fin m len ≡ false
    → Known (size_after o fin m len) (max len m)
Known-after none false m len k h = tt
Known-after none true m len k h = ground arith
Known-after (some f) false m len k h = ground arith
Known-after (some f) true m len k h = ground arith

fin-reaches :
    (o : Option ℕ) (fin : Bool) (m len : ℕ) → breaks o fin m len ≡ false → fin ≡ true → len ≤ m
fin-reaches none true m len h e = ground arith
fin-reaches (some f) true m len h e = ground arith
fin-reaches o false m len h e = absurd (ground arith)

is_some-same :
    (o : Option ℕ) (fin : Bool) (m len : ℕ)
    → Known o len
    → breaks o fin m len ≡ false
    → is_some o ≡ true
    → (o ≡ size_after o fin m len) × (len ≡ (if not fin && true then len else max len m))
unfolding is_some
is_some-same none fin m len k h e = absurd (ground arith)
is_some-same (some f) false m len k h e = (refl, refl)
is_some-same (some f) true m len k h e =
    let same : f ≡ m = ground arith in (ap some same, omega arith)

-- What an accepted buffer makes of the state.
abbrev pub Accepted : RangeBuf → RecvBuf → Result Error (Unit {0}) × RecvBuf → Type 0
Accepted buf s r =
    (s' : RecvBuf) × (r ≡ (ok tt, s'))
    × IsValid s'
    × (s'.off ≡ s.off)
    × (s'.len ≡ (if not buf.fin && is_empty buf then s.len else max s.len (Chunk.max_off buf)))
    × (s'.fin_off ≡ (if buf.fin then some (Chunk.max_off buf) else s.fin_off))

-- A state with another count, final size and chunks.
module _ (buf : RangeBuf) (s : RecvBuf) (v : IsValid s) (roomy : Chunk.max_off buf ≤ max_data s)
    (h : breaks_size buf s ≡ false) where
  after :
      Known
        (if buf.fin then some (Chunk.max_off buf) else s.fin_off)
        (max s.len (Chunk.max_off buf))
  unfolding breaks_size
  after = Known-after s.fin_off buf.fin (Chunk.max_off buf) s.len v.known h

  -- The loop, on a state that has the final size.
  looped :
      Fresh buf
      → s.off ≤ Chunk.max_off buf
      → (not buf.fin && is_empty buf) ≡ false
      → Accepted buf s (write_loop (2 * Chunk.len buf + 1) (buf ∷ []) (save_size buf s))
  unfolding save_size max_data
  looped f o e =
      let (chunks, r, w) =
        write_loop_lem (2 * Chunk.len buf + 1) (buf ∷ []) (save_size buf s) (omega arith)
          ((f, o), tt) v.within in
      (
        record (save_size buf s) { chunks = chunks; len = max s.len (Chunk.max_off buf) },
        r,
        record {
          read_part = omega (arith, v.read_part);
          within = w;
          known = after;
          allowed = omega (arith, v.allowed, roomy);
        },
        refl,
        rw e refl,
        refl,
      )

  -- Nothing is stored, and the final size may become known.
  saved :
      Chunk.max_off buf ≤ s.off
      → (not buf.fin && is_empty buf) ≡ false
      → Accepted buf s (ok tt, save_size buf s)
  unfolding save_size max_data
  saved o e =
      let same : max s.len (Chunk.max_off buf) ≡ s.len = omega (arith, v.read_part) in
      (
        save_size buf s,
        refl,
        record {
          read_part = v.read_part;
          within = v.within;
          known = rw same at after;
          allowed = v.allowed;
        },
        refl,
        rw (e, same) refl,
        refl,
      )

  -- An empty buffer of which there is nothing to keep.
  unchanged :
      is_empty buf ≡ true
      → (is_some s.fin_off ≡ true) ⊎ (buf.fin ≡ false)
      → Accepted buf s (ok tt, s)
  unfolding breaks_size
  unchanged e (inl k) =
      let (p, q) = is_some-same s.fin_off buf.fin (Chunk.max_off buf) s.len v.known h k in
      (s, refl, v, refl, rw e q, p)
  unchanged e (inr k) = (s, refl, v, refl, rw (e, k) refl, rw k refl)

  -- What is neither empty without the final flag nor fully duplicate ends after the part that was read.
  pub reaches :
      (not buf.fin && is_empty buf) ≡ false
      → (leb (Chunk.max_off buf) s.off && not (is_empty buf)) ≡ false
      → s.off ≤ Chunk.max_off buf
  unfolding breaks_size
  reaches b c = elim (Bool-cases buf.fin) [
    | inl x ↦
        omega (arith, v.read_part, fin-reaches s.fin_off buf.fin (Chunk.max_off buf) s.len h x)
    | inr x ↦ ground arith
  ]

  with_result :
      {r r' : Result Error (Unit {0}) × RecvBuf} → r ≡ r' → Accepted buf s r' → Accepted buf s r
  with_result e x = rw e x

  pub accept_lem : Fresh buf → Accepted buf s (accept buf s)
  unfolding accept
  accept_lem f = elim (Bool-cases (is_some s.fin_off && is_empty buf)) [
    | inl a ↦ with_result (rw (accept, a) refl) (unchanged (ground arith) (inl (ground arith)))
    | inr a ↦ elim (Bool-cases (not buf.fin && is_empty buf)) [
      | inl b ↦ with_result (rw (accept, a, b) refl) (unchanged (ground arith) (inr (ground arith)))
      | inr b ↦ elim (Bool-cases (leb (Chunk.max_off buf) s.off && not (is_empty buf))) [
        | inl c ↦ with_result (rw (accept, a, b, c) refl) (saved (ground arith) b)
        | inr c ↦ with_result (rw (accept, a, b, c) refl) (looped f (reaches b c) b)
      ]
    ]
  ]

-- Of a buffer of which nothing is consumed, in a valid state: beyond the limit of flow control, or
-- where the final size is broken, the error is returned and nothing changes. Otherwise the loop ends,
-- the state is valid again, the bytes received are counted up to the end of the buffer, an empty one
-- without the final flag excepted, and the final flag makes that end the final size.
pub write_lem :
    (buf : RangeBuf) (s : RecvBuf)
    → Fresh buf
    → IsValid s
    → if ltb (max_data s) (Chunk.max_off buf)
      then write buf s ≡ (err flow_control, s)
      else if breaks_size buf s
      then write buf s ≡ (err final_size, s)
      else Accepted buf s (write buf s)
unfolding write
write_lem buf s f v = elim (Bool-cases (ltb (max_data s) (Chunk.max_off buf))) [
  | inl a ↦ rw a refl
  | inr a ↦ elim (Bool-cases (breaks_size buf s)) [
    | inl b ↦ rw (a, b) refl
    | inr b ↦ rw (a, b) (accept_lem buf s v (ground arith) b f)
  ]
]
