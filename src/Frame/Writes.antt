-- ===== src/Frame/Writes.antt =====
-- What the writing steps of quiche/src/frame.rs leave in the buffer, and their error for want of room.
use quirl.Common.{
  ℕ, zero, suc, ◌+◌, ◌-◌, ◌*◌, ◌/◌, ◌^◌, ◌%◌, ◌≤◌, ◌<◌, ◌≡◌, refl, sym, ap, ◌∙◌, List, [], ◌∷◌,
  ◌++◌, ltb, length, take, drop, arith, append_assoc, append-nil, length-append, length-drop,
  drop-drop, length-take_le, take-append_eq, drop-append_eq, Bool-cases, inl, inr, ltb-false,
  lt→ltb, ltb→lt, Bool, true, false,
}
use quirl.Common.Result.{Result, ok, err}
use quirl.Common.Exec.{continue, ◌>>◌, ◌>>=◌}
use quirl.Octets.{Octets, cap, write, put_varint, put_bytes, put_u8, be_bytes, varint_len}
use quirl.Octets.Bytes.{IsValid}
use quirl.Octets.Encode.{
  varint, varint_two, length-varint, put_varint_lem, put_two_bytes, put_short,
}
use quirl.Octets.Slices.{put_bytes_lem, write-nil}
use quirl.Frame.{Error, buffer_short, convert}
use quirl.Frame.Format.{flat, Small}
use quirl.Frame.Print.{Printer, put, put_two, put_byte, put_run}

write-IsValid : (bs : List ℕ) (b : Octets) → IsValid b → IsValid (write bs b)
write-IsValid bs b v = record {
  within = omega (
    arith,
    length-append (take b.off b.buf) (bs ++ drop (b.off + length bs) b.buf),
    length-append bs (drop (b.off + length bs) b.buf),
    length-take_le b.off b.buf v.within,
  );
}

pub cap-write : (bs : List ℕ) (b : Octets) → IsValid b → cap (write bs b) ≡ cap b - length bs
cap-write bs b v = omega (
  arith,
  length-append (take b.off b.buf) (bs ++ drop (b.off + length bs) b.buf),
  length-append bs (drop (b.off + length bs) b.buf),
  length-take_le b.off b.buf v.within,
  length-drop (b.off + length bs) b.buf,
)

-- Two runs written one after the other are one run.
write-write : (bs cs : List ℕ) (b : Octets) → IsValid b → write cs (write bs b) ≡ write (bs ++ cs) b
write-write bs cs b v =
    let before : List ℕ = take b.off b.buf in
    let after : List ℕ = drop (b.off + length bs) b.buf in
    let n : length (before ++ bs) ≡ b.off + length bs =
      omega (arith, length-append before bs, length-take_le b.off b.buf v.within) in
    let e : before ++ (bs ++ after) ≡ (before ++ bs) ++ after =
      sym (append_assoc before bs after) in
    let front : take (b.off + length bs) (before ++ (bs ++ after)) ≡ before ++ bs =
      ap (take (b.off + length bs)) e ∙ take-append_eq _ (before ++ bs) after n in
    let back : drop (b.off + length bs + length cs) (before ++ (bs ++ after))
        ≡ drop (b.off + length (bs ++ cs)) b.buf =
      sym (drop-drop (b.off + length bs) (length cs) (before ++ (bs ++ after)))
      ∙ ap (drop (length cs))
          (ap (drop (b.off + length bs)) e ∙ drop-append_eq _ (before ++ bs) after n)
      ∙ drop-drop (b.off + length bs) (length cs) b.buf
      ∙ ap (λ k. drop k b.buf) {x = b.off + length bs + length cs} {y = b.off + length (bs ++ cs)}
          (omega (arith, length-append bs cs)) in
    let joined : (before ++ bs) ++ (cs ++ drop (b.off + length (bs ++ cs)) b.buf)
        ≡ before ++ ((bs ++ cs) ++ drop (b.off + length (bs ++ cs)) b.buf) =
      simp append_assoc refl in
    let end : b.off + length bs + length cs ≡ b.off + length (bs ++ cs) =
      omega (arith, length-append bs cs) in
    λ i. record {
      buf =
          (ap (λ t. t ++ (cs ++ drop (b.off + length bs + length cs) (before ++ (bs ++ after))))
                front
              ∙ ap (λ t. (before ++ bs) ++ (cs ++ t)) back
              ∙ joined)
            i;
      off = end i;
    }

-- A step writes these pieces where they fit, and fails where they do not.
pub record Writes (m : Printer) (ps : List (List ℕ)) : Type 0 where
  pub room : (b : Octets) → IsValid b → length (flat ps) ≤ cap b → m b ≡ (ok tt, write (flat ps) b)
  pub short : (b : Octets) → IsValid b → cap b < length (flat ps) → (m b).0 ≡ err buffer_short

pub flat-append : (ps qs : List (List ℕ)) → flat (ps ++ qs) ≡ flat ps ++ flat qs
flat-append [] qs = refl
flat-append (p ∷ ps) qs =
    ap (λ t. p ++ t) (flat-append ps qs) ∙ sym (append_assoc p (flat ps) (flat qs))

pub continue-err :
    {A B : Type 0} (r : Result Error A × Octets) (k : A → Octets → Result Error B × Octets)
    (e : Error)
    → r.0 ≡ err e
    → (continue r k).0 ≡ err e
continue-err (ok a, b) k e h = cc
continue-err (err e', b) k e h = ground (arith)
continue-err (Result.panic, b) k e h = cc

infixl 10 ◌⨟◌
pub ◌⨟◌ :
    {m k : Printer} {ps qs : List (List ℕ)} → Writes m ps → Writes k qs → Writes (m >> k) (ps ++ qs)
◌⨟◌ {m} {k} {ps} {qs} f g = record {
  room = λ b v h.
      let n : length (flat (ps ++ qs)) ≡ length (flat ps) + length (flat qs) =
        ap length (flat-append ps qs) ∙ length-append (flat ps) (flat qs) in
      rw
        (
          f.room b v (omega arith),
          g.room (write (flat ps) b) (write-IsValid (flat ps) b v)
              (omega (arith, cap-write (flat ps) b v)),
        )
        (ap (λ c. (ok tt, c))
          (write-write (flat ps) (flat qs) b v ∙ ap (λ t. write t b) (sym (flat-append ps qs))));
  short = λ b v h.
      let n : length (flat (ps ++ qs)) ≡ length (flat ps) + length (flat qs) =
        ap length (flat-append ps qs) ∙ length-append (flat ps) (flat qs) in
      elim (Bool-cases (ltb (cap b) (length (flat ps)))) [
        | inl e ↦ continue-err (m b) (λ _. k) buffer_short (f.short b v (ltb→lt _ _ e))
        | inr e ↦ rw (f.room b v (ground arith)) (
            g.short (write (flat ps) b) (write-IsValid (flat ps) b v)
              (ground (arith, cap-write (flat ps) b v)))
      ];
}

pub nothing : Writes (quirl.Common.Exec.pure tt) []
nothing = record {
  room = λ b v h. ap (λ c. (ok tt, c)) (sym (write-nil b));
  short = λ b v h. absurd (omega arith);
}

one_piece : (bs : List ℕ) → flat (bs ∷ []) ≡ bs
one_piece bs = append-nil bs

-- Steps that write one piece, from what they give where it fits and where it does not.
pub single :
    (m : Printer) (bs : List ℕ)
    → ((b : Octets) → IsValid b → length bs ≤ cap b → m b ≡ (ok tt, write bs b))
    → ((b : Octets) → IsValid b → cap b < length bs → (m b).0 ≡ err buffer_short)
    → Writes m (bs ∷ [])
single m bs f g = record { room = rw (one_piece bs) f; short = rw (one_piece bs) g }

pub put-Writes : (v : ℕ) → Small v → Writes (put v) (varint v ∷ [])
unfolding convert
put-Writes v h =
    let n : length (varint v) ≡ varint_len v = length-varint v h in
    single (put v) (varint v)
      (λ b i room. rw (put_varint_lem v b h i, ltb-false (cap b) (varint_len v) (omega arith)) refl)
      (λ b i room. rw (put_varint_lem v b h i, lt→ltb (cap b) (varint_len v) (omega arith)) refl)

pub put_two-Writes : (v : ℕ) → v < 2 ^ 14 → Writes (put_two v) (varint_two v ∷ [])
unfolding convert
put_two-Writes v h =
    single (put_two v) (varint_two v) (λ b i room. rw (put_two_bytes v b i h room) refl)
      (λ b i room. rw (put_short v 2 b room) refl)

pub put_run-Writes : (bs : List ℕ) → Writes (put_run bs) (bs ∷ [])
unfolding convert
put_run-Writes bs =
    single (put_run bs) bs
      (λ b i room. rw (put_bytes_lem bs b, ltb-false (cap b) (length bs) room) refl)
      (λ b i room. rw (put_bytes_lem bs b, lt→ltb (cap b) (length bs) room) refl)

pub put_byte-Writes : (v : ℕ) → v < 2 ^ 8 → Writes (put_byte v) (be_bytes 1 v ∷ [])
unfolding convert quirl.Octets.put_u
put_byte-Writes v h =
    single (put_byte v) (be_bytes 1 v)
      (λ b i room. rw (ltb-false (length b.buf) (b.off + 1) (omega (arith, i.within))) (
        ap (λ x. (ok tt, write (x ∷ []) b)) {x = v % 2 ^ 8 / 1 % 256} {y = v / 1 % 256}
          (omega arith)))
      (λ b i room. rw (lt→ltb (length b.buf) (b.off + 1) (omega (arith, i.within))) refl)
