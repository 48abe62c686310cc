-- ===== src/Stream/Content.antt =====
-- SendBuf of quiche/src/stream/send_buf.rs: the bytes that its buffers have at each place, after each method.
use quirl.Stream.RangeBuf.{RangeBuf}
use quirl.Stream.SendBuf.{SendBuf, ack_and_drop, and_drop, with_acked, ack, drop_acked, retransmit}
use quirl.Stream.SendBuf as Send
use quirl.Stream.Copied.{get_elem?-take, get_elem?-drop}
use quirl.Stream.Bytes.{get_elem?-append_left, get_elem?-append_right}
use quirl.Stream.Chain.{Chain, begins, content}
use quirl.Stream.Pushes.{stored, Pushed}
use quirl.Stream.Unsent.{IsValid}
use quirl.Ranges
use quirl.Ranges.{RangeSet}
use mathlib.Core.Path.{subst}
use quirl.Common.{
  ℕ, zero, suc, ◌+◌, ◌-◌, ◌≤◌, ◌<◌, ◌≡◌, refl, sym, ap, ◌∙◌, arith, List, [], ◌∷◌, ◌++◌, length,
  length-append, length-take, length-drop, take, drop, get_elem?, true, false, ltb, leb, ◌==◌, ◌&&◌,
  ◌||◌, if_elim, le_or_lt, Option, none, some, inl, inr,
}

pub lt-length : (xs : List ℕ) (i : ℕ) {c : ℕ} → get_elem? xs i ≡ some c → i < length xs
lt-length [] i g = cc
lt-length (x ∷ xs) zero g = omega arith
lt-length (x ∷ xs) (suc i) {c} g = omega (arith, lt-length xs i {c = c} g)

-- A byte, where there is one, is that of a list.
abbrev pub Agree : List ℕ → ℕ → Option ℕ → Type 0
Agree bytes o x = (c : ℕ) → x ≡ some c → get_elem? bytes o ≡ some c

pub Agree-append :
    (bytes more : List ℕ) (o : ℕ) (x : Option ℕ) → Agree bytes o x → Agree (bytes ++ more) o x
Agree-append bytes more o x a c e =
    get_elem?-append_left bytes more o (lt-length bytes o {c = c} (a c e)) ∙ a c e

part : RangeBuf → List ℕ
part b = take b.len (drop b.start b.vec)

length-part : (b : RangeBuf) → b.start + b.len ≤ length b.vec → length (part b) ≡ b.len
unfolding part
length-part b h = omega (arith, length-take b.len (drop b.start b.vec), length-drop b.start b.vec)

part-get : (b : RangeBuf) (k : ℕ) → k < b.len → get_elem? (part b) k ≡ get_elem? b.vec (b.start + k)
unfolding part
part-get b k h = get_elem?-take b.len k (drop b.start b.vec) h ∙ get_elem?-drop b.start k b.vec

length-stored :
    (bs : List RangeBuf) (end : ℕ) → Chain bs end → begins bs end + length (stored bs) ≡ end
unfolding part
length-stored [] end c = omega arith
length-stored (b ∷ bs) end c = omega (
  arith,
  length-append (take b.len (drop b.start b.vec)) (stored bs),
  length-part b c.0.fits,
  length-stored bs end c.2,
  c.1,
)

content-before :
    (bs : List RangeBuf) (end o : ℕ) → Chain bs end → o < begins bs end → content bs o ≡ none
content-before [] end o c h = refl
content-before (b ∷ bs) end o c h = ground (arith, content-before bs end o c.2, c.1)

content-stored :
    (bs : List RangeBuf) (end k : ℕ)
    → Chain bs end
    → content bs (begins bs end + k) ≡ get_elem? (stored bs) k
unfolding part
content-stored [] end k c = refl
content-stored (b ∷ bs) end k c = elim (le_or_lt b.len k) [
  | inr within ↦ rw (inside within) (
      ap (λ i. get_elem? b.vec (b.start + i)) {x = b.off + k - b.off} {y = k} (omega arith)
      ∙ sym (part-get b k within)
      ∙ sym (
          get_elem?-append_left (part b) (stored bs) k
            (omega (arith, length-part b c.0.fits, within))))
  | inl past ↦ rw (outside past) (
      ap (content bs) {x = b.off + k} {y = begins bs end + (k - b.len)} (omega (arith, c.1))
      ∙ content-stored bs end (k - b.len) c.2
      ∙ sym (get_elem?-append_right (part b) (stored bs) (k - b.len))
      ∙ ap (get_elem? (part b ++ stored bs)) {x = length (part b) + (k - b.len)} {y = k}
          (omega (arith, length-part b c.0.fits)))
]
  where
    inside : k < b.len → (leb b.off (b.off + k) && ltb (b.off + k) (b.off + b.len)) ≡ true
    inside h = ground arith

    outside : b.len ≤ k → (leb b.off (b.off + k) && ltb (b.off + k) (b.off + b.len)) ≡ false
    outside h = ground arith

module _ (written bytes : List ℕ) (s t : SendBuf) (v : IsValid s) (p : Pushed bytes s t)
    (size : s.off ≡ length written) (held : (o : ℕ) → Agree written o (content s.bufs o)) where
  front : ℕ
  front = begins s.bufs s.off

  same-front : begins t.bufs t.off ≡ front
  unfolding front
  same-front = omega (
    arith,
    length-stored s.bufs s.off v.chain,
    length-stored t.bufs t.off p.valid.chain,
    ap length p.stored,
    length-append (stored s.bufs) bytes,
    p.off,
  )

  front-size : front + length (stored s.bufs) ≡ length written
  unfolding front
  front-size = omega (arith, length-stored s.bufs s.off v.chain, size)

  pushed-content : (k : ℕ) → content t.bufs (front + k) ≡ get_elem? (stored s.bufs ++ bytes) k
  pushed-content k =
      ap (λ i. content t.bufs (i + k)) (sym same-front)
      ∙ content-stored t.bufs t.off k p.valid.chain
      ∙ ap (λ l. get_elem? l k) p.stored

  behind : (k : ℕ) → Agree (written ++ bytes) (front + k) (get_elem? (stored s.bufs ++ bytes) k)
  behind k = elim (le_or_lt (length (stored s.bufs)) k) [
    | inr old ↦
        Agree-append written bytes (front + k) (get_elem? (stored s.bufs ++ bytes) k) (λ c e.
          held (front + k) c (
            unfold front in
            content-stored s.bufs s.off k v.chain
            ∙ sym (get_elem?-append_left (stored s.bufs) bytes k old)
            ∙ e))
    | inl new ↦ λ c e.
        ap (get_elem? (written ++ bytes)) {x = front + k}
          {y = length written + (k - length (stored s.bufs))} (omega (arith, front-size))
        ∙ get_elem?-append_right written bytes (k - length (stored s.bufs))
        ∙ sym (get_elem?-append_right (stored s.bufs) bytes (k - length (stored s.bufs)))
        ∙ ap (get_elem? (stored s.bufs ++ bytes))
            {x = length (stored s.bufs) + (k - length (stored s.bufs))} {y = k} (omega arith)
        ∙ e
  ]

  -- What is written stands behind what was written before.
  pub Pushed-Agree : (o : ℕ) → Agree (written ++ bytes) o (content t.bufs o)
  Pushed-Agree o = elim (le_or_lt front o) [
    | inr before ↦ λ c e. absurd (
        none-some
          (sym (content-before t.bufs t.off o p.valid.chain (omega (arith, same-front))) ∙ e))
    | inl from ↦
        subst (λ i. Agree (written ++ bytes) i (content t.bufs i)) {x = front + (o - front)} {y = o}
          (omega arith) (λ c e. behind (o - front) c (sym (pushed-content (o - front)) ∙ e))
  ]
    where
      none-some : {c : ℕ} → none ≡ some c → ⊥
      none-some e = cc

content-drop :
    (n : ℕ) (bs : List RangeBuf) (end o : ℕ) {c : ℕ}
    → Chain bs end
    → content (drop n bs) o ≡ some c
    → content bs o ≡ some c
content-drop zero bs end o h e = e
content-drop (suc n) [] end o h e = e
content-drop (suc n) (b ∷ bs) end o {c} h e =
    let rest : content bs o ≡ some c = content-drop n bs end o {c = c} h.2 e in
    elim (le_or_lt (begins bs end) o) [
      | inl past ↦ rw (beyond past) rest
      | inr before ↦ absurd (some-none (sym rest ∙ content-before bs end o h.2 before))
    ]
  where
    some-none : {c : ℕ} → some c ≡ none → ⊥
    some-none e = cc

    beyond : begins bs end ≤ o → (leb b.off o && ltb o (b.off + b.len)) ≡ false
    beyond le = ground (arith, h.1)

-- What an acknowledgment leaves was there before.
pub ack_and_drop-content :
    (off len : ℕ) (s t : SendBuf)
    → IsValid s
    → ack_and_drop off len s ≡ some t
    → (t.off ≡ s.off)
      × (t.fin_off ≡ s.fin_off)
      × ((o c : ℕ) → content t.bufs o ≡ some c → content s.bufs o ≡ some c)
unfolding ack_and_drop ack drop_acked
ack_and_drop-content off len s t v e = by_insert (Ranges.insert (off, off + len) s.acked) e
  where
    Left : SendBuf → Type 0
    Left t =
        (t.off ≡ s.off)
        × (t.fin_off ≡ s.fin_off)
        × ((o c : ℕ) → content t.bufs o ≡ some c → content s.bufs o ≡ some c)

    dropped : (acked : RangeSet) → Left (drop_acked off (record s { acked = acked }))
    dropped acked =
        if_elim Left (length s.bufs == 0) (λ _. (refl, refl, λ o c e. e))
          (λ _.
            if_elim Left (ltb (Send.ack_off (record s { acked = acked })) off)
              (λ _. (refl, refl, λ o c e. e))
              (λ _. (
                refl,
                refl,
                λ o c e.
                    content-drop
                      (Send.acked_front (Send.ack_off (record s { acked = acked })) s.bufs) s.bufs
                      s.off o {c = c} v.chain e,
              )))

    by_insert : (o : Option RangeSet) → and_drop off (with_acked s o) ≡ some t → Left t
    by_insert none q = cc
    by_insert (some acked) q = subst Left (same q) (dropped acked)
      where
        same :
            some (drop_acked off (record s { acked = acked })) ≡ some t
            → drop_acked off (record s { acked = acked }) ≡ t
        same q = cc

pub retransmit-same :
    (off len : ℕ) (s t : SendBuf)
    → retransmit off len s ≡ some t
    → (t.off ≡ s.off) × (t.acked ≡ s.acked) × (t.fin_off ≡ s.fin_off)
unfolding retransmit
retransmit-same off len s t e =
    if_elim (λ r. r ≡ some t → (t.off ≡ s.off) × (t.acked ≡ s.acked) × (t.fin_off ≡ s.fin_off))
      (length s.bufs == 0 || leb (off + len) (Send.ack_off s)) (λ _ q. (cc, cc, cc))
      (λ _ q. looped (Send.retransmit_loop (length s.bufs) off (off + len) 0 s.pos s.len s.bufs) q)
      e
  where
    looped :
        (o : Option (List RangeBuf × ℕ × ℕ))
        → (elim o [
          | none ↦ none
          | some (bufs, pos, len') ↦ some (record s { bufs = bufs; pos = pos; len = len' })
        ])
          ≡ some t
        → (t.off ≡ s.off) × (t.acked ≡ s.acked) × (t.fin_off ≡ s.fin_off)
    looped none q = cc
    looped (some r) q =
        subst (λ (u : SendBuf). (u.off ≡ s.off) × (u.acked ≡ s.acked) × (u.fin_off ≡ s.fin_off))
          (same q) (refl, refl, refl)
      where
        same :
            some (record s { bufs = r.0; pos = r.1; len = r.2 }) ≡ some t
            → record s { bufs = r.0; pos = r.1; len = r.2 } ≡ t
        same q = cc
