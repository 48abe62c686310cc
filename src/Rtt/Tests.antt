-- ===== src/Rtt/Tests.antt =====
-- Runs of the round-trip estimator, and the theorems at concrete inputs.
use quirl.Common.{ℕ, ◌+◌, ◌/◌, ◌≤◌, min, max, ◌≡◌, refl, arith, true, some}
use quirl.Minmax.{get, all_three, reset}
use quirl.Minmax.Order.{MinOrder}
use quirl.Rtt.{RttStats, new, update_rtt, first_sample, adjust}
use quirl.Rtt.Bounds.{adjust_bounds, update_rtt_bounds}

abbrev quarter : ℕ → ℕ
quarter n = n / 4

abbrev half : ℕ → ℕ
half n = n / 2

abbrev after_first : RttStats
after_first = record {
  latest_rtt = 800;
  smoothed_rtt = 800;
  rttvar = 400;
  min_rtt = all_three (record { time = 5; value = 800 });
  max_ack_delay = 40;
  first_rtt_sample = some 5;
}

first_run : update_rtt quarter half 800 0 5 true (new 0 40) ≡ after_first
unfolding update_rtt first_sample new reset
first_run = refl

adjust_bounds_example :
    (adjust quarter half 900 30 800 ≤ 900) × (min 900 800 ≤ adjust quarter half 900 30 800)
adjust_bounds_example = adjust_bounds quarter half 900 30 800

update_rtt_bounds_example :
    ((update_rtt quarter half 900 50 60 true after_first).smoothed_rtt ≤ max 800 900)
    × (min 800 (get (update_rtt quarter half 900 50 60 true after_first).min_rtt)
        ≤ (update_rtt quarter half 900 50 60 true after_first).smoothed_rtt + 1)
    × (get (update_rtt quarter half 900 50 60 true after_first).min_rtt ≤ 900)
    × MinOrder 60 (update_rtt quarter half 900 50 60 true after_first).min_rtt
    × ((update_rtt quarter half 900 50 60 true after_first).latest_rtt ≡ 900)
update_rtt_bounds_example =
    update_rtt_bounds quarter half 900 50 60 5 5 true after_first refl (omega arith) (omega arith)
