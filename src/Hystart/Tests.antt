-- ===== src/Hystart/Tests.antt =====
-- Runs of HyStart++, and the theorems at concrete inputs.
use quirl.Common.{ℕ, zero, suc, List, [], ◌∷◌, ◌<◌, ◌⊎◌, ◌≤◌, ◌≡◌, refl, arith, true, some, none}
use quirl.Hystart.{
  Hystart, start_round, on_packet_acked, slow_start, conservative_slow_start, end_round, rtt_thresh,
  min_rtt_thresh, max_rtt_thresh,
}
use quirl.Hystart.Phases.{rtt_thresh_bounds}
use quirl.Hystart.Entry.{Sampled, begun, acked, round_entry}

rtt_thresh_bounds_example : (min_rtt_thresh ≤ rtt_thresh 50) × (rtt_thresh 50 ≤ max_rtt_thresh)
rtt_thresh_bounds_example = rtt_thresh_bounds 50

-- A round after one whose smallest sample is 50 ms.
abbrev before : Hystart
before = record {
  enabled = true;
  window_end = none;
  last_round_min_rtt = 40_000_000;
  current_round_min_rtt = 50_000_000;
  css_baseline_min_rtt = 0;
  rtt_sample_count = 9;
  css_start_time = none;
  css_round_count = 0;
}

abbrev sampled : ℕ → Hystart
sampled zero = start_round 100 before
sampled (suc k) = (on_packet_acked k 60_000_000 k (sampled k)).0

abbrev same_rtt : ℕ → List ℕ
same_rtt zero = []
same_rtt (suc k) = 60_000_000 ∷ same_rtt k

seven : Sampled 100 before (same_rtt 7) (sampled 7)
unfolding on_packet_acked slow_start end_round start_round rtt_thresh
seven =
    acked 6 60_000_000 6
      (acked 5 60_000_000 5
        (acked 4 60_000_000 4
          (acked 3 60_000_000 3
            (acked 2 60_000_000 2 (acked 1 60_000_000 1 (acked 0 60_000_000 0 begun refl) refl)
              refl)
            refl)
          refl)
        refl)
      refl

-- The eighth sample of 60 ms ends slow start.
round_entry_example :
    (((on_packet_acked 7 60_000_000 7 (sampled 7)).0.css_start_time ≡ some 7)
      × ((on_packet_acked 7 60_000_000 7 (sampled 7)).0.css_baseline_min_rtt ≡ 60_000_000)
      × (8 ≤ 8)
      × (56_250_000 ≤ 60_000_000))
    ⊎ (((on_packet_acked 7 60_000_000 7 (sampled 7)).0.css_start_time ≡ none)
        × ((8 < 8) ⊎ (60_000_000 < 56_250_000)))
round_entry_example = round_entry 100 7 60_000_000 7 before refl refl refl (omega arith) seven

-- A state in the middle of a round.
abbrev rising : Hystart
rising = record before { window_end = some 100; rtt_sample_count = 8 }

-- The fifth round in conservative slow start.
abbrev last_round : Hystart
last_round = record rising { css_start_time = some 7; css_round_count = 4; rtt_sample_count = 3 }

exits : (on_packet_acked 100 60_000_000 9 last_round).1 ≡ true
unfolding on_packet_acked conservative_slow_start end_round
exits = refl
