-- ===== src/Octets/Bytes.antt =====
-- Runs of bytes in a buffer: what `write` leaves behind, and what the reading methods see of it.
use quirl.Common.{
  ℕ, zero, suc, ◌+◌, ◌≤◌, ◌<◌, bit_or, List, ◌∷◌, ◌++◌, ◌==◌, length, take, drop, ◌≡◌, refl, sym,
  ap, arith, length-drop, drop-drop, every_below-at, ==_iff, drop-append_eq, set-append_eq,
  get_or-append_eq, length-take_le,
}
use quirl.Common.Result.{ok}
use quirl.Octets.{Octets, cap, as_ref, be_bytes, write, put_u, or_first}

-- The cursor is inside the buffer, and every byte is one.
pub record IsValid (b : Octets) : Type 0 where
  pub within : b.off ≤ length b.buf

abbrev pub advance : ℕ → Octets → Octets
advance n b = record b { off = b.off + n }

pub length-be_bytes : (n v : ℕ) → length (be_bytes n v) ≡ n
length-be_bytes zero v = refl
length-be_bytes (suc n) v = ap suc (length-be_bytes n v)

length-as_ref : (b : Octets) → length (as_ref b) ≡ cap b
length-as_ref b = length-drop b.off b.buf

pub as_ref-advance : (n : ℕ) (b : Octets) → as_ref (advance n b) ≡ drop n (as_ref b)
as_ref-advance n b = sym (drop-drop b.off n b.buf)

-- Reading back what was written, from where it was written.
pub as_ref-write :
    (bs : List ℕ) (b : Octets)
    → IsValid b
    → drop b.off (write bs b).buf ≡ bs ++ drop (b.off + length bs) b.buf
as_ref-write bs b h =
    drop-append_eq b.off (take b.off b.buf) _ (length-take_le b.off b.buf h.within)

pub put_u_lem :
    (len v : ℕ) (b : Octets)
    → b.off + len ≤ length b.buf
    → put_u len v b ≡ (ok b.off, write (be_bytes len v) b)
unfolding put_u
put_u_lem len v b h = rw length-be_bytes (ground arith)

pub or_first-write :
    (mask x : ℕ) (xs : List ℕ) (b : Octets)
    → IsValid b
    → or_first mask b.off (write (x ∷ xs) b) ≡ (ok b.off, write (bit_or x mask ∷ xs) b)
unfolding or_first
or_first-write mask x xs b h =
    let e : length (take b.off b.buf) ≡ b.off = length-take_le b.off b.buf h.within in
    let rest : List ℕ = xs ++ drop (b.off + suc (length xs)) b.buf in
    rw (
      get_or-append_eq b.off (take b.off b.buf) rest x 0 e,
      set-append_eq b.off (take b.off b.buf) rest x (bit_or x mask) e,
    )

pub or_40 : (x : ℕ) → x < 64 → bit_or x 0x40 ≡ x + 64
or_40 x h = (==_iff _ _).0 (every_below-at (λ y. bit_or y 0x40 == y + 64) 64 x refl h)

pub or_80 : (x : ℕ) → x < 64 → bit_or x 0x80 ≡ x + 128
or_80 x h = (==_iff _ _).0 (every_below-at (λ y. bit_or y 0x80 == y + 128) 64 x refl h)

pub or_c0 : (x : ℕ) → x < 64 → bit_or x 0xc0 ≡ x + 192
or_c0 x h = (==_iff _ _).0 (every_below-at (λ y. bit_or y 0xc0 == y + 192) 64 x refl h)
