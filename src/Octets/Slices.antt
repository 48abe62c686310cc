-- ===== src/Octets/Slices.antt =====
-- Byte runs of octets/src/lib.rs: `put_bytes`, `get_bytes`, `skip`, `slice_last`.
use quirl.Common.{
  ℕ, zero, suc, ◌+◌, ◌-◌, ◌≤◌, ◌<◌, List, [], ◌∷◌, ◌++◌, ltb, ◌==◌, if◌then◌else◌, length, take,
  drop, Bool, true, false, ◌≡◌, refl, sym, ap, ◌∙◌, arith, length-drop, drop-drop, inl, inr,
  Bool-cases, ltb-false, lt→ltb, ltb→lt, ◌⊎◌, take-append-drop, take-append_length,
}
use quirl.Common.Result.{ok, err}
use quirl.Octets.{
  Octets, buffer_too_short, cap, as_ref, write, put_bytes, get_bytes, skip, slice_last,
}
use quirl.Octets.Bytes.{IsValid, advance, as_ref-write}

pub write-nil : (b : Octets) → write [] b ≡ b
write-nil b =
    let e : b.off + 0 ≡ b.off = omega arith in
    λ i. record {
      buf = (ap (λ k. take b.off b.buf ++ drop k b.buf) e ∙ take-append-drop b.off b.buf) i;
      off = e i;
    }

put_bytes_empty :
    (v : List ℕ) (b : Octets) → (length v == 0) ≡ true → ◌≡◌ {A = Octets} b (write v b)
put_bytes_empty [] b h = sym (write-nil b)
put_bytes_empty (x ∷ v) b h = absurd (ground arith)

-- The bytes are put at the cursor if there is room for all of them, also when there are none;
-- otherwise the result is the error and the buffer is as it was.
pub put_bytes_lem :
    (v : List ℕ) (b : Octets)
    → put_bytes v b
      ≡ (if ltb (cap b) (length v) then (err buffer_too_short, b) else (ok tt, write v b))
unfolding put_bytes
put_bytes_lem v b = elim (Bool-cases (ltb (cap b) (length v))) [
  | inl e ↦ rw e
  | inr e ↦ rw e (elim (Bool-cases (length v == 0)) [
    | inl z ↦ rw z (ap (λ c. (ok tt, c)) (put_bytes_empty v b z))
    | inr z ↦ rw z
  ])
]

-- Where a run of bytes stands at the cursor, `get_bytes` of its length returns it in a buffer of its
-- own, whose cursor is at the start, and moves the cursor past it.
pub get_bytes-at :
    (v : List ℕ) (b : Octets) (rest : List ℕ)
    → as_ref b ≡ v ++ rest
    → get_bytes (length v) b ≡ (ok (record { buf = v; off = 0 }), advance (length v) b)
unfolding get_bytes
get_bytes-at v b rest e =
    let room : length (as_ref b) ≡ cap b = length-drop b.off b.buf in
    rw (
      ltb-false (cap b) (length v) (omega (arith, ap length e, quirl.Common.length-append v rest)),
      e,
      take-append_length v rest,
    )

pub skip-at :
    (v : List ℕ) (b : Octets) (rest : List ℕ)
    → as_ref b ≡ v ++ rest
    → skip (length v) b ≡ (ok tt, advance (length v) b)
unfolding skip
skip-at v b rest e =
    let room : length (as_ref b) ≡ cap b = length-drop b.off b.buf in
    rw
      (ltb-false (cap b) (length v) (omega (arith, ap length e, quirl.Common.length-append v rest)))

-- What `put_bytes` writes where there is room, `get_bytes` reads back from the place where the
-- writing began.
get_bytes-put_bytes :
    (v : List ℕ) (b : Octets)
    → IsValid b
    → length v ≤ cap b
    → get_bytes (length v) (record (put_bytes v b).1 { off = b.off })
      ≡ (ok (record { buf = v; off = 0 }), (put_bytes v b).1)
get_bytes-put_bytes v b inside room =
    rw (put_bytes_lem v b, ltb-false (cap b) (length v) room)
      (get_bytes-at v (record (write v b) { off = b.off }) _ (as_ref-write v b inside))

-- `slice_last` gives the last `len` bytes of the buffer only while the cursor is at its start: a
-- successful call returns as many bytes more as the cursor has moved.
pub length-slice_last :
    (len : ℕ) (b : Octets)
    → IsValid b
    → len ≤ cap b
    → (xs : List ℕ) × (slice_last len b ≡ ok xs) × (length xs ≡ len + b.off)
unfolding slice_last
length-slice_last len b inside room = (
  drop (cap b - len) b.buf,
  rw (ltb-false (cap b) len room),
  omega (arith, length-drop (cap b - len) b.buf, inside.within),
)
