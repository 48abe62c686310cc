-- ===== src/Stream/Reset.antt =====
-- RecvBuf::reset, quiche/src/stream/recv_buf.rs, and what the application sees of it.
use quirl.Stream.RangeBuf.{RangeBuf, is_empty, from}
use quirl.Stream.RangeBuf as Chunk
use quirl.Stream.RecvBuf.{RecvBuf, flow_control, final_size, max_data, ready}
use quirl.Stream.Write.{
  range_from, overlap, overlap_loop, cut_front, store, remaining, insert_chunk, write_loop,
  breaks_size, is_some, save_size, accept, write, answer_reset, other_size, reset,
}
use quirl.Stream.Accept.{IsValid}
use quirl.Common.{
  ℕ, ◌+◌, ◌-◌, ◌*◌, ◌≤◌, ◌≡◌, refl, sym, ap, ◌∙◌, max, [], ◌∷◌, ltb, leb, ◌==◌, ◌&&◌, ◌||◌, not,
  if◌then◌else◌, Bool, true, false, none, some, arith, Bool-cases, inl, inr, ◌⊎◌, ltb-false, ==_iff,
  Option-cases,
}
use quirl.Common.Result.{ok, err}

-- The empty buffer that is written at the final size.
module _ (size : ℕ) where
  abbrev mark : RangeBuf
  mark = from [] size true

  mark-off : Chunk.off mark ≡ size
  unfolding Chunk.off from
  mark-off = omega arith

  mark-len : Chunk.len mark ≡ 0
  unfolding Chunk.len from
  mark-len = omega arith

  mark-max_off : Chunk.max_off mark ≡ size
  unfolding Chunk.max_off
  mark-max_off = omega (arith, mark-off, mark-len)

  mark-is_empty : is_empty mark ≡ true
  unfolding is_empty
  mark-is_empty = rw mark-len refl

  mark-fin : mark.fin ≡ true
  unfolding from
  mark-fin = refl

-- What `write` makes of it, in a state that was read up to there and has no chunks.
module _ (size : ℕ) (s : RecvBuf) (cleared : s.chunks ≡ []) (at : s.off ≡ size) where
  overlap-mark : overlap s (mark size) [] ≡ remaining (mark size) []
  unfolding overlap overlap_loop range_from
  overlap-mark = elim (Bool-cases (ltb (Chunk.off (mark size)) s.len)) [
    | inl e ↦ rw (e, cleared) refl
    | inr e ↦ rw (e, mark-is_empty size, cleared) refl
  ]

  cut_front-mark : cut_front s.off (mark size) ≡ some (mark size)
  unfolding cut_front
  cut_front-mark = rw (at, mark-off size, ltb-false size size (omega arith)) refl

  write_loop-mark :
      write_loop (2 * Chunk.len (mark size) + 1) (mark size ∷ []) s ≡ (ok tt, store (mark size) s)
  unfolding write_loop
  write_loop-mark = rw (mark-len size) (rw (write_loop, cut_front-mark, overlap-mark) refl)

module _ (size : ℕ) (s : RecvBuf) (cleared : s.chunks ≡ []) (at : s.off ≡ size) where
  not_dropped : (not (mark size).fin && is_empty (mark size)) ≡ false
  unfolding from
  not_dropped = refl

  not_duplicate : (leb (Chunk.max_off (mark size)) s.off && not (is_empty (mark size))) ≡ false
  not_duplicate = elim (Bool-cases (leb (Chunk.max_off (mark size)) s.off)) [
    | inl e ↦ rw (e, mark-is_empty size) refl
    | inr e ↦ rw e refl
  ]

  -- A final size that is known keeps it from being stored.
  accept-mark :
      accept (mark size) s
      ≡ (ok tt, if is_some s.fin_off then s else store (mark size) (save_size (mark size) s))
  unfolding accept save_size
  accept-mark = elim (Bool-cases (is_some s.fin_off)) [
    | inl e ↦ rw (accept, e, mark-is_empty size) refl
    | inr e ↦
        rw (accept, e, not_dropped, not_duplicate)
          (write_loop-mark size (save_size (mark size) s) cleared at)
  ]

  -- The final size is the one that is known, and not below what was received.
  size_kept :
      (s.fin_off ≡ none) ⊎ (s.fin_off ≡ some size)
      → s.len ≤ size
      → breaks_size (mark size) s ≡ false
  unfolding breaks_size from
  size_kept (inl k) l = rw (breaks_size, k, mark-max_off size, ltb-false size s.len l) refl
  size_kept (inr k) l =
      rw
        (
          breaks_size,
          k,
          mark-max_off size,
          ltb-false size size (omega arith),
          (==_iff size size).1 refl,
          ltb-false size s.len l,
        )
        refl

  write-mark :
      (s.fin_off ≡ none) ⊎ (s.fin_off ≡ some size)
      → s.len ≤ size
      → write (mark size) s ≡ (
          if ltb (max_data s) size then (err flow_control, s) else (
            ok tt,
            if is_some s.fin_off then s else store (mark size) (save_size (mark size) s),
          ))
  unfolding write
  write-mark k l = elim (Bool-cases (ltb (max_data s) size)) [
    | inl e ↦ rw (write, e, ap (ltb (max_data s)) (mark-max_off size) ∙ e) refl
    | inr e ↦
        rw (write, e, ap (ltb (max_data s)) (mark-max_off size) ∙ e, size_kept k l) accept-mark
  ]

-- What `reset` returns, and the state after it.
abbrev pub cleared_at : ℕ → ℕ → RecvBuf → RecvBuf
cleared_at error_code size s = record s { error = some error_code; off = size; chunks = [] }

-- The state in which the end is stored or, where the final size was known already, is not.
abbrev pub reset_at : ℕ → ℕ → RecvBuf → RecvBuf
reset_at error_code size s = record (cleared_at error_code size s) {
  chunks = if is_some s.fin_off || s.drain then [] else (size, from [] size true) ∷ [];
  len = size;
  fin_off = some size;
}

module _ (error_code size : ℕ) (s : RecvBuf) (v : IsValid s) where
  stored :
      (s.fin_off ≡ none) ⊎ (s.fin_off ≡ some size)
      → s.len ≤ size
      → (if is_some s.fin_off
          then cleared_at error_code size s
          else store (mark size) (save_size (mark size) (cleared_at error_code size s)))
        ≡ reset_at error_code size s
  unfolding store save_size insert_chunk is_some from
  stored (inl k) l =
      let end : max s.len size ≡ size = omega arith in rw (k, mark-max_off size, end) refl
  stored (inr k) l = let end : s.len ≡ size = sym (rw k at v.known) in rw (k, end) refl

  reset_at-IsValid : size ≤ max_data s → IsValid (reset_at error_code size s)
  unfolding max_data
  reset_at-IsValid room = record {
    read_part = omega arith;
    within = elim (Bool-cases (is_some s.fin_off || s.drain)) [
      | inl e ↦ rw e tt
      | inr e ↦ rw e (omega (arith, mark-max_off size), tt)
    ];
    known = refl;
    allowed = room;
  }

  ready-reset_at : ready (reset_at error_code size s) ≡ not (is_some s.fin_off || s.drain)
  unfolding ready
  ready-reset_at = elim (Bool-cases (is_some s.fin_off || s.drain)) [
    | inl e ↦ rw e refl
    | inr e ↦ rw (e, mark-off size, (==_iff size size).1 refl) refl
  ]

abbrev pub changes_size : ℕ → RecvBuf → Bool
changes_size size s = other_size size s.fin_off || ltb size s.len

or_if :
    {A : Type 0} (a b : Bool) (x y : A)
    → (if a then x else if b then x else y) ≡ (if a || b then x else y)
or_if true b x y = refl
or_if false b x y = refl

reset-steps :
    (error_code size : ℕ) (s : RecvBuf)
    → reset error_code size s ≡ (
        if changes_size size s
        then (err final_size, s)
        else if is_some s.error
        then (ok (size - s.len), s)
        else answer_reset (size - s.len) (write (mark size) (cleared_at error_code size s)))
unfolding reset
reset-steps error_code size s =
    or_if (other_size size s.fin_off) (ltb size s.len) (err final_size, s)
      (if is_some s.error
        then (ok (size - s.len), s)
        else answer_reset (size - s.len) (write (mark size) (cleared_at error_code size s)))

size_known :
    (size : ℕ) (s : RecvBuf)
    → changes_size size s ≡ false
    → ((s.fin_off ≡ none) ⊎ (s.fin_off ≡ some size)) × (s.len ≤ size)
size_known size s h = elim (Option-cases s.fin_off) [
  | inl k ↦ let b : ltb size s.len ≡ false = rw k at h in (inl k, ground arith)
  | inr (f, k) ↦
      let b : (not (f == size) || ltb size s.len) ≡ false = rw k at h in
      let same : f ≡ size = ground arith in (inr (k ∙ ap some same), ground arith)
]

-- In a valid state: a size that is not the known one or less than what was received is an error that
-- changes nothing, and so is a second reset, which returns no error. One beyond the limit of flow
-- control is an error too, after the data is dropped. Otherwise the bytes that are missing are
-- returned, all counts as received and read, the state is valid, and the application finds something
-- to read exactly where the final size was not known before and the stream is not shut down.
pub reset_lem :
    (error_code size : ℕ) (s : RecvBuf)
    → IsValid s
    → if changes_size size s
      then reset error_code size s ≡ (err final_size, s)
      else if is_some s.error
      then reset error_code size s ≡ (ok (size - s.len), s)
      else if ltb (max_data s) size
      then reset error_code size s ≡ (err flow_control, cleared_at error_code size s)
      else ((reset error_code size s ≡ (ok (size - s.len), reset_at error_code size s))
          × IsValid (reset_at error_code size s)
          × (ready (reset_at error_code size s) ≡ not (is_some s.fin_off || s.drain)))
unfolding answer_reset max_data
reset_lem error_code size s v = elim (Bool-cases (changes_size size s)) [
  | inl a ↦ rw (reset-steps error_code size s, a) refl
  | inr a ↦ elim (Bool-cases (is_some s.error)) [
    | inl b ↦ rw (reset-steps error_code size s, a, b) refl
    | inr b ↦
        let (k, l) = size_known size s a in
        let w = write-mark size (cleared_at error_code size s) refl refl k l in
        elim (Bool-cases (ltb (max_data s) size)) [
          | inl c ↦ rw (reset-steps error_code size s, a, b, w, c) refl
          | inr c ↦
              rw (reset-steps error_code size s, a, b, w, c)
                (
                  ap (λ s'. (ok (size - s.len), s')) (stored error_code size s v k l),
                  reset_at-IsValid error_code size s v (ground arith),
                  ready-reset_at error_code size s v,
                )
        ]
  ]
]
