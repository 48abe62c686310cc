-- ===== src/PacketNumber/Codec.antt =====
-- Truncated packet numbers of quiche/src/packet.rs: RFC 9000, appendix A.
use quirl.Common.{
  ℕ, zero, suc, ◌+◌, ◌-◌, ◌*◌, ◌/◌, ◌%◌, ◌^◌, ◌≤◌, ◌<◌, ◌==◌, ◌≡◌, ◌≢◌, refl, arith, Bool-cases,
  inl, inr, length, ◌∙◌, ap,
}
use native.Mathlib.Nat.{pow-suc}
use quirl.Common.Result.{ok}
use quirl.Octets.{Octets, get_u, be_bytes, be_value, write}
use quirl.Octets.Bytes.{IsValid, put_u_lem, as_ref-write, length-be_bytes, advance}
use quirl.Octets.Decode.{get_u_at}
use mathlib.Core.Path.{subst}
use quirl.PacketNumber.{bit_length, pkt_num_len, decode_pkt_num, encode_pkt_num, from_octets}

-- Half of the numbers that `len` bytes tell apart.
abbrev half_window : ℕ → ℕ
half_window len = 2 ^ (len * 8) / 2

-- A number that lies within half a window of the expected one, on either side, is recovered from its
-- low bytes: for the four lengths on the wire, and every number that a packet may have.
pub decode_pkt_num-truncate :
    (largest_pn pn len : ℕ)
    → 1 ≤ len
    → len ≤ 4
    → pn < 2 ^ 62
    → largest_pn + 1 < pn + half_window len
    → pn ≤ largest_pn + 1 + half_window len
    → decode_pkt_num largest_pn (pn % 2 ^ (len * 8)) len ≡ pn
unfolding decode_pkt_num
decode_pkt_num-truncate l pn zero a b c d e = absurd (omega arith)
decode_pkt_num-truncate l pn (suc zero) a b c d e = ground arith
decode_pkt_num-truncate l pn (suc (suc zero)) a b c d e = ground arith
decode_pkt_num-truncate l pn (suc (suc (suc zero))) a b c d e = ground arith
decode_pkt_num-truncate l pn (suc (suc (suc (suc zero)))) a b c d e = ground arith
decode_pkt_num-truncate l pn (suc (suc (suc (suc (suc n))))) a b c d e = absurd (omega arith)

bit_length-le : (w n k : ℕ) → n < 2 ^ k → bit_length w n ≤ k
unfolding bit_length
bit_length-le zero n k h = omega arith
bit_length-le (suc w) n zero h = ground arith
bit_length-le (suc w) n (suc k) h =
    let d : 2 ^ suc k ≡ 2 ^ k * 2 = pow-suc 2 k in
    ground (arith, bit_length-le w (n / 2) k (omega arith))

lt-bit_length : (w n : ℕ) → n < 2 ^ w → n < 2 ^ bit_length w n
unfolding bit_length
lt-bit_length zero n h = h
lt-bit_length (suc w) n h =
    let d : 2 ^ suc w ≡ 2 ^ w * 2 = pow-suc 2 w in
    let ih : n / 2 < 2 ^ bit_length w (n / 2) = lt-bit_length w (n / 2) (omega arith) in
    let e : 2 ^ suc (bit_length w (n / 2)) ≡ 2 ^ bit_length w (n / 2) * 2 = pow-suc 2 _ in
    elim (Bool-cases (n == 0)) [ inl p ↦ rw p (ground arith) | inr p ↦ rw p (omega arith) ]

pow-le : (a b : ℕ) → a ≤ b → 2 ^ a ≤ 2 ^ b
pow-le a zero h = rw (a-zero a h) (omega arith)
  where
    a-zero : (a : ℕ) → a ≤ 0 → a ≡ 0
    a-zero a h = omega arith
pow-le zero (suc b) h = omega (arith, pow-le zero b (omega arith), pow-suc 2 b)
pow-le (suc a) (suc b) h = omega (arith, pow-le a b (omega arith), pow-suc 2 a, pow-suc 2 b)

-- The length that is chosen tells as many numbers apart as are in flight, the number itself and the
-- last acknowledged one included.
pub in_flight-lt-pkt_num_len :
    (pn largest_acked : ℕ)
    → pn < 2 ^ 62
    → pn - largest_acked + 1 < 2 ^ (pkt_num_len pn largest_acked * 8)
unfolding pkt_num_len
in_flight-lt-pkt_num_len pn la h =
    let n : ℕ = pn - la + 1 in
    omega (
      arith,
      lt-bit_length 64 n (omega arith),
      pow-le (bit_length 64 n) ((bit_length 64 n + 7) / 8 * 8) (omega arith),
    )

-- A receiver that has seen all that was acknowledged, and at least half of what is in flight,
-- recovers the number from the length that `pkt_num_len` chooses.
pub decode_pkt_num-pkt_num_len :
    (pn largest_acked largest_pn : ℕ)
    → pn < 2 ^ 62
    → pkt_num_len pn largest_acked ≤ 4
    → largest_acked ≤ largest_pn
    → largest_pn < pn
    → pn - largest_pn ≤ largest_pn - largest_acked
    → decode_pkt_num largest_pn
        (pn % 2 ^ (pkt_num_len pn largest_acked * 8))
        (pkt_num_len pn largest_acked)
      ≡ pn
decode_pkt_num-pkt_num_len pn la l h short seen new half =
    let room = in_flight-lt-pkt_num_len pn la h in
    decode_pkt_num-truncate l pn (pkt_num_len pn la) (not_none (pkt_num_len pn la) room) short h
      (omega arith) (omega arith)
  where
    not_none : (k : ℕ) → pn - la + 1 < 2 ^ (k * 8) → 1 ≤ k
    not_none zero h = absurd (omega arith)
    not_none (suc k) h = omega arith

-- Where the last acknowledged number is 256 or more and the number below 2^62, a receiver that has
-- seen nothing after the last acknowledged packet takes the number for another: with 131 to 255
-- numbers in flight one byte is chosen, and one byte is too little.
pub decode_pkt_num_short :
    (pn largest_acked : ℕ)
    → pn < 2 ^ 62
    → 256 ≤ largest_acked
    → largest_acked + 130 ≤ pn
    → pn ≤ largest_acked + 254
    → (pkt_num_len pn largest_acked ≡ 1) × (decode_pkt_num largest_acked (pn % 2 ^ 8) 1 ≢ pn)
unfolding pkt_num_len decode_pkt_num
decode_pkt_num_short pn la h big lo hi =
    let n : ℕ = pn - la + 1 in
    (omega (arith, bit_length-le 64 n 8 (omega arith), one_digit n (omega arith)), ground arith)
  where
    one_digit : (n : ℕ) → 0 < n → 0 < bit_length 64 n
    one_digit n h = unfold bit_length in ground arith

read_back :
    (len v pn : ℕ) (b : Octets)
    → IsValid b
    → be_value 0 (be_bytes len v) ≡ pn
    → get_u len (record (write (be_bytes len v) b) { off = b.off })
      ≡ (ok pn, write (be_bytes len v) b)
read_back len v pn b inside value =
    let start : Octets = record (write (be_bytes len v) b) { off = b.off } in
    let n : length (be_bytes len v) ≡ len = length-be_bytes len v in
    subst
      (λ (k : ℕ). get_u k start ≡ (
        ok pn,
        record { buf = (write (be_bytes len v) b).buf; off = b.off + length (be_bytes len v) },
      ))
      n
      (get_u_at start _ (be_bytes len v) (as_ref-write (be_bytes len v) b inside)
        ∙ ap (λ k. (ok k, advance (length (be_bytes len v)) start)) value)

-- What is written of a number is its low bytes, for each of the four lengths; it is read back from
-- the place where the writing began.
get_u-encode_pkt_num :
    (pn len : ℕ) (b : Octets)
    → 1 ≤ len
    → len ≤ 4
    → IsValid b
    → b.off + len ≤ length b.buf
    → ((encode_pkt_num pn len b).0 ≡ ok tt)
      × (get_u len (record (encode_pkt_num pn len b).1 { off = b.off })
          ≡ (ok (pn % 2 ^ (len * 8)), (encode_pkt_num pn len b).1))
unfolding encode_pkt_num from_octets
get_u-encode_pkt_num pn zero b p q inside room = absurd (omega arith)
get_u-encode_pkt_num pn (suc zero) b p q inside room =
    rw (put_u_lem 1 (pn % 2 ^ 8) b room) (refl, read_back 1 (pn % 2 ^ 8) _ b inside (omega arith))
get_u-encode_pkt_num pn (suc (suc zero)) b p q inside room =
    rw (put_u_lem 2 (pn % 2 ^ 16) b room) (refl, read_back 2 (pn % 2 ^ 16) _ b inside (omega arith))
get_u-encode_pkt_num pn (suc (suc (suc zero))) b p q inside room =
    rw (put_u_lem 3 (pn % 2 ^ 32) b room) (refl, read_back 3 (pn % 2 ^ 32) _ b inside (omega arith))
get_u-encode_pkt_num pn (suc (suc (suc (suc zero)))) b p q inside room =
    rw (put_u_lem 4 (pn % 2 ^ 32) b room) (refl, read_back 4 (pn % 2 ^ 32) _ b inside (omega arith))
get_u-encode_pkt_num pn (suc (suc (suc (suc (suc n))))) b p q inside room = absurd (omega arith)
