-- ===== src/Stream/Queue.antt =====
-- SendBuf::write of quiche/src/stream/send_buf.rs.
use quirl.Stream.SendBuf.{
  SendBuf, Error, final_size, stream_stopped, chunks, push_loop, past_final, queue, write_within,
  write, cap, ack_off,
}
use quirl.Stream.Split.{take-all}
use quirl.Stream.Unsent.{IsValid}
use quirl.Common.{
  ℕ, ◌+◌, ◌-◌, ◌≤◌, ◌≡◌, refl, sym, ap, ◌∙◌, min, arith, List, [], ◌∷◌, length, length-take, take,
  Bool, true, false, ltb, leb, ◌==◌, ◌||◌, ◌&&◌, if◌then◌else◌, if_elim, Option, none, some,
}
use mathlib.Core.Path.{subst}
use quirl.Common.Result.{Result, ok, err}
use quirl.Stream.Pushes.{concat-chunks, Pushed, push_loop_lem, Pushed-nothing}

-- The state with the final size that a write may set.
abbrev pub sized : Bool → ℕ → SendBuf → SendBuf
sized fin max_off s = record s { fin_off = if fin then some max_off else s.fin_off }

pub sized-IsValid :
    (fin : Bool) (max_off : ℕ) (s : SendBuf) → IsValid s → IsValid (sized fin max_off s)
sized-IsValid fin max_off s v = record {
  chain = v.chain;
  counted = v.counted;
  inside = v.inside;
  sent = v.sent;
  limited = v.limited;
  emitted = v.emitted;
}

-- What is queued of the bytes: none if the peer has acknowledged the place where they end.
abbrev pub unacked : List ℕ → ℕ → SendBuf → List ℕ
unacked bytes max_off s = if leb max_off (ack_off s) then [] else bytes

pub empty-list : (bytes : List ℕ) → (length bytes == 0) ≡ true → bytes ≡ []
empty-list [] h = refl
empty-list (b ∷ bs) h = ground arith

queue_lem :
    (bytes : List ℕ) (fin : Bool) (max_off : ℕ) (s : SendBuf)
    → IsValid s
    → s.off + length bytes ≤ s.max_data
    → past_final s.fin_off max_off fin ≡ false
    → ((queue bytes fin max_off s).0 ≡ ok (length bytes))
      × Pushed (unacked bytes max_off s) (sized fin max_off s) (queue bytes fin max_off s).1
unfolding queue ack_off
queue_lem bytes fin max_off s v h e = rw e (by_ack (leb max_off (ack_off s)) refl)
  where
    Good : List ℕ → Result Error ℕ × SendBuf → Type 0
    Good l r = (r.0 ≡ ok (length bytes)) × Pushed l (sized fin max_off s) r.1

    all : List ℕ → ℕ × SendBuf
    all l = push_loop (chunks (length l) l) (length l) 0 fin (sized fin max_off s)

    full : Good bytes (let (len, s'') = all bytes in (ok len, s''))
    full =
        let parts = concat-chunks (length bytes) bytes (omega arith) in
        let (l, p) =
          push_loop_lem (chunks (length bytes) bytes) (length bytes) 0 fin (sized fin max_off s)
            (sized-IsValid fin max_off s v) (rw parts h) in
        (
          ap ok (omega (arith, l, ap length parts)),
          subst (λ x. Pushed x (sized fin max_off s) (all bytes).1) parts p,
        )

    by_ack :
        (b : Bool)
        → leb max_off (ack_off s) ≡ b
        → Good (if b then [] else bytes) (
            if b || length bytes == 0
            then (ok (length bytes), sized fin max_off s)
            else (let (len, s'') = all bytes in (ok len, s'')))
    by_ack true q = (refl, Pushed-nothing (sized fin max_off s) (sized-IsValid fin max_off s v))
    by_ack false q =
        if_elim (Good bytes) (length bytes == 0)
          (λ z. (
            refl,
            subst (λ x. Pushed x (sized fin max_off s) (sized fin max_off s))
                (sym (empty-list bytes z))
                (Pushed-nothing (sized fin max_off s) (sized-IsValid fin max_off s v)),
          ))
          (λ _. full)

queue-refused :
    (bytes : List ℕ) (fin : Bool) (max_off : ℕ) (s : SendBuf)
    → past_final s.fin_off max_off fin ≡ true
    → queue bytes fin max_off s ≡ (err final_size, s)
unfolding queue
queue-refused bytes fin max_off s e = rw e refl

cap-room : (s : SendBuf) → IsValid s → s.error ≡ none → cap s ≡ ok (s.max_data - s.off)
unfolding cap
cap-room s v h = ground (arith, v.limited)

cap-stopped : (s : SendBuf) (e : ℕ) → s.error ≡ some e → cap s ≡ err (stream_stopped e)
unfolding cap
cap-stopped s e h = ground arith

within-eq :
    (bytes : List ℕ) (fin : Bool) (s : SendBuf)
    → write_within bytes fin s (ok (s.max_data - s.off))
      ≡ queue
          (take (s.max_data - s.off) bytes)
          (fin && leb (length bytes) (s.max_data - s.off))
          (s.off + length bytes)
          s
unfolding write_within
within-eq bytes fin s =
    if_elim
      (λ (r : Result Error ℕ × SendBuf).
        r
        ≡ queue (take (s.max_data - s.off) bytes) (fin && leb (length bytes) (s.max_data - s.off))
            (s.off + length bytes) s)
      (ltb (s.max_data - s.off) (length bytes))
      (λ over.
        ap (λ f. queue (take (s.max_data - s.off) bytes) f (s.off + length bytes) s) {x = false}
          {y = fin && leb (length bytes) (s.max_data - s.off)} (ground arith))
      (λ fits.
        ap (λ t. queue t fin (s.off + length bytes) s)
          (sym (take-all (s.max_data - s.off) bytes (ground arith)))
        ∙ ap (λ f. queue (take (s.max_data - s.off) bytes) f (s.off + length bytes) s) {x = fin}
            {y = fin && leb (length bytes) (s.max_data - s.off)} (ground arith))

-- What a stream that is not stopped does: the bytes are cut to the room that there is.
write-eq :
    (bytes : List ℕ) (fin : Bool) (s : SendBuf)
    → IsValid s
    → s.error ≡ none
    → write bytes fin s
      ≡ queue
          (take (s.max_data - s.off) bytes)
          (fin && leb (length bytes) (s.max_data - s.off))
          (s.off + length bytes)
          s
write-eq bytes fin s v h =
    unfold write in (ap (write_within bytes fin s) (cap-room s v h) ∙ within-eq bytes fin s)

-- A write to a valid state. A stopped stream answers with its error, and a write that breaks the final
-- size with that error, and neither changes anything. Any other write takes as many bytes as the limit
-- of the peer leaves room for, and adds them behind those that are stored, in order, unless the peer
-- has acknowledged the place where they end: to be sent is exactly what was and what was added. With
-- the final flag it sets the final size, if it took all bytes. The state is valid again, and nothing
-- else changes.
pub write-Pushed :
    (bytes : List ℕ) (fin : Bool) (s : SendBuf)
    → IsValid s
    → ((e : ℕ) → s.error ≡ some e → write bytes fin s ≡ (err (stream_stopped e), s))
      × (s.error ≡ none
          → past_final s.fin_off
              (s.off + length bytes)
              (fin && leb (length bytes) (s.max_data - s.off))
            ≡ true
          → write bytes fin s ≡ (err final_size, s))
      × (s.error ≡ none
          → past_final s.fin_off
              (s.off + length bytes)
              (fin && leb (length bytes) (s.max_data - s.off))
            ≡ false
          → ((write bytes fin s).0 ≡ ok (min (length bytes) (s.max_data - s.off)))
            × Pushed
                (unacked (take (s.max_data - s.off) bytes) (s.off + length bytes) s)
                (sized (fin && leb (length bytes) (s.max_data - s.off)) (s.off + length bytes) s)
                (write bytes fin s).1)
write-Pushed bytes fin s v = (
  λ e h. unfold write in ap (write_within bytes fin s) (cap-stopped s e h),
  λ h p.
      write-eq bytes fin s v h
      ∙ queue-refused (take (s.max_data - s.off) bytes)
          (fin && leb (length bytes) (s.max_data - s.off)) (s.off + length bytes) s p,
  λ h p. rw (write-eq bytes fin s v h) (
      let (l, q) =
        queue_lem (take (s.max_data - s.off) bytes) (fin && leb (length bytes) (s.max_data - s.off))
          (s.off + length bytes) s v
          (omega (arith, length-take (s.max_data - s.off) bytes, v.limited)) p in
      (l ∙ ap ok (omega (arith, length-take (s.max_data - s.off) bytes)), q)),
)

pub write-IsValid :
    (bytes : List ℕ) (fin : Bool) (s : SendBuf) → IsValid s → IsValid (write bytes fin s).1
write-IsValid bytes fin s v = by_error s.error refl
  where
    by_size :
        s.error ≡ none
        → (b : Bool)
        → past_final s.fin_off
            (s.off + length bytes)
            (fin && leb (length bytes) (s.max_data - s.off))
          ≡ b
        → IsValid (write bytes fin s).1
    by_size e true p = rw ((write-Pushed bytes fin s v).1 e p) v
    by_size e false p = ((write-Pushed bytes fin s v).2 e p).1.valid

    by_error : (o : Option ℕ) → s.error ≡ o → IsValid (write bytes fin s).1
    by_error (some c) e = rw ((write-Pushed bytes fin s v).0 c e) v
    by_error none e =
        by_size e
          (past_final s.fin_off (s.off + length bytes)
            (fin && leb (length bytes) (s.max_data - s.off)))
          refl
