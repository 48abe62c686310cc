-- ===== src/Minmax/Tests.antt =====
-- Runs of the estimator, and the theorems at concrete inputs.
use quirl.Common.{ℕ, ◌+◌, ◌/◌, ◌≤◌, ◌≡◌, refl, arith}
use quirl.Minmax.{Minmax, all_three, get, running_min, subwin_update}
use quirl.Minmax.Order.{MinOrder, running_min_lem}

abbrev quarter : ℕ → ℕ
quarter n = n / 4

abbrev half : ℕ → ℕ
half n = n / 2

abbrev start : Minmax
start = all_three (record { time = 1000; value = 25 })

-- The case of `get_windowed_min_rtt`.
windowed_min :
    (get (running_min quarter half 500 1250 24 start) ≡ 24)
    × (get (running_min quarter half 500 1850 25 (running_min quarter half 500 1250 24 start)) ≡ 25)
unfolding running_min subwin_update
windowed_min = (refl, refl)

running_min_lem_example :
    MinOrder 1250 (running_min quarter half 500 1250 24 start)
    × (get (running_min quarter half 500 1250 24 start) ≤ 24)
    × (1250 ≤ (running_min quarter half 500 1250 24 start).best.time + 500)
running_min_lem_example =
    running_min_lem quarter half 500 1000 1250 24 start (omega arith) (omega arith)
