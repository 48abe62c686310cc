-- ===== src/Prr/Budget.antt =====
-- PRR of quiche/src/recovery/congestion/prr.rs: how much may be sent during recovery.
use quirl.Common.{
  ℕ, ◌+◌, ◌-◌, ◌*◌, ◌/◌, ◌≤◌, ◌<◌, max, ltb, Bool-cases, inl, inr, lt→ltb, ◌≡◌, refl, arith,
}
use native.Mathlib.Nat.{div-add-mod, mod-lt}
use quirl.Prr.{Prr, on_packet_sent, on_packet_acked}

ceil_div : (x r : ℕ) → 0 < r → (x ≤ (x + r - 1) / r * r) × ((x + r - 1) / r * r < x + r)
ceil_div x r h =
    let e = div-add-mod (x + r - 1) r in
    let m = mod-lt (x + r - 1) h in (omega (arith, e, m), omega (arith, e, m))

mul-le : (a b r : ℕ) → a ≤ b → a * r ≤ b * r
mul-le a b r h = grind arith

proportional :
    (q out r x : ℕ)
    → x ≤ q * r
    → q * r < x + r
    → (x ≤ (out + max (q - out) 0) * r)
      × (0 < max (q - out) 0 → (out + max (q - out) 0) * r < x + r)
proportional q out r x a b = elim (Bool-cases (ltb out q)) [
  | inl e ↦ let s : out + max (q - out) 0 ≡ q = ground arith in rw s (a, λ _. b)
  | inr e ↦
      let s : out + max (q - out) 0 ≡ out = ground arith in
      rw s (omega (arith, a, mul-le q out r (ground arith)), λ n. absurd (ground arith))
]

-- Above the threshold: what was sent and may be sent is at least the part of what was delivered that
-- the threshold is of the flight at the start of recovery; and where more may be sent, it is that
-- part rounded up.
pub on_packet_acked_above :
    (delivered pipe ssthresh mds : ℕ) (p : Prr)
    → ssthresh < pipe
    → 0 < p.recoverfs
    → let p' = on_packet_acked delivered pipe ssthresh mds p in
      (p'.prr_delivered * ssthresh ≤ (p'.prr_out + p'.snd_cnt) * p.recoverfs)
      × (0 < p'.snd_cnt
          → (p'.prr_out + p'.snd_cnt) * p.recoverfs < p'.prr_delivered * ssthresh + p.recoverfs)
unfolding on_packet_acked
on_packet_acked_above d pipe ss mds p h k =
    let c = ceil_div ((p.prr_delivered + d) * ss) p.recoverfs k in
    rw (lt→ltb ss pipe h, lt→ltb 0 p.recoverfs k) (proportional _ p.prr_out p.recoverfs _ c.0 c.1)

-- At or below the threshold: no more may be sent than takes the flight to the threshold, and no more
-- than a packet beyond what was delivered.
on_packet_acked_below :
    (delivered pipe ssthresh mds : ℕ) (p : Prr)
    → pipe ≤ ssthresh
    → let p' = on_packet_acked delivered pipe ssthresh mds p in
      (pipe + p'.snd_cnt ≤ ssthresh)
      × (p'.snd_cnt ≤ max (p'.prr_delivered - p.prr_out) delivered + mds)
      × (p'.prr_out ≡ p.prr_out)
unfolding on_packet_acked
on_packet_acked_below d pipe ss mds p h = (ground arith, ground arith, refl)

-- Sending spends the allowance: bytes within it come off it, and the sum of both counts stays.
pub on_packet_sent_lem :
    (n : ℕ) (p : Prr)
    → n ≤ p.snd_cnt
    → ((on_packet_sent n p).prr_out + (on_packet_sent n p).snd_cnt ≡ p.prr_out + p.snd_cnt)
      × ((on_packet_sent n p).prr_out ≡ p.prr_out + n)
unfolding on_packet_sent
on_packet_sent_lem n p h = (omega arith, refl)
