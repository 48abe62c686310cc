-- ===== src/Pmtud/Search.antt =====
-- Pmtud of quiche/src/pmtud.rs: the binary search downwards after lost probes.
use quirl.Common.{
  ℕ, zero, suc, ◌+◌, ◌-◌, ◌*◌, ◌/◌, ◌^◌, ◌≤◌, ◌<◌, true, Option, none, some, ◌≡◌, refl, arith,
}
use native.Mathlib.Nat.{pow-suc}
use quirl.Pmtud.{Pmtud, pmtu_probe_lost}

-- `n` probes are lost, one after the other.
pub lost : ℕ → Pmtud → Option Pmtud
lost zero p = some p
lost (suc n) p = elim (pmtu_probe_lost p) [ none ↦ none | some q ↦ lost n q ]

abbrev pub gap : Pmtud → ℕ
gap p = p.probe - p.cur_size

lost_once :
    (p : Pmtud)
    → p.cur_size ≤ p.probe
    → pmtu_probe_lost p
      ≡ some (record p { probe = p.cur_size + (p.probe - p.cur_size) / 2; next_size = true })
unfolding pmtu_probe_lost
lost_once p h = ground arith

-- While the probe is not below the size in use, no number of lost probes makes the computation
-- panic; the size in use stays, the probe stays between it and the old probe, and its distance
-- shrinks by half each time, so that after `n` losses it is at most the 2^n-th part.
pub lost_lem :
    (n : ℕ) (p : Pmtud)
    → p.cur_size ≤ p.probe
    → (q : Pmtud) × (lost n p ≡ some q)
      × (q.cur_size ≡ p.cur_size)
      × (q.cur_size ≤ q.probe)
      × (gap q * 2 ^ n ≤ gap p)
unfolding lost
lost_lem zero p h = (p, refl, refl, h, omega arith)
lost_lem (suc n) p h =
    let next : Pmtud = record p {
      probe = p.cur_size + (p.probe - p.cur_size) / 2;
      next_size = true;
    } in
    let (q, a, b, c, d) = lost_lem n next (omega arith) in
    let e : 2 ^ suc n ≡ 2 ^ n * 2 = pow-suc 2 n in
    (q, rw (lost_once p h, lost) a, b, c, rw e (twice (gap q) (2 ^ n) (gap p) (omega (arith, d))))
  where
    twice : (g w k : ℕ) → g * w ≤ k / 2 → g * (w * 2) ≤ k
    twice g w k h = omega arith

-- A probe that is below the size in use makes the computation panic.
pub pmtu_probe_lost_below : (p : Pmtud) → p.probe < p.cur_size → pmtu_probe_lost p ≡ none
unfolding pmtu_probe_lost
pmtu_probe_lost_below p h = ground arith
