-- ===== src/Minmax/Order.antt =====
-- Minmax of quiche/src/minmax.rs: the order of its three estimates, in time and in value.
use quirl.Common.{ℕ, ◌+◌, ◌≤◌, arith}
use quirl.Minmax.{Minmax, get, subwin_update, running_min, running_max}

-- Best, second and third, the later the worse, none of them after `now`.
pub record MinOrder (now : ℕ) (m : Minmax) : Type 0 where
  pub old₀ : m.best.time ≤ m.second.time
  pub old₁ : m.second.time ≤ m.third.time
  pub old₂ : m.third.time ≤ now
  pub low₀ : m.best.value ≤ m.second.value
  pub low₁ : m.second.value ≤ m.third.value

pub record MaxOrder (now : ℕ) (m : Minmax) : Type 0 where
  pub old₀ : m.best.time ≤ m.second.time
  pub old₁ : m.second.time ≤ m.third.time
  pub old₂ : m.third.time ≤ now
  pub high₀ : m.second.value ≤ m.best.value
  pub high₁ : m.third.value ≤ m.second.value

module _ (quarter half : ℕ → ℕ) (win now time meas : ℕ) (m : Minmax) where
  -- A minimum is updated at a time not before the last one: the estimates are in order again, the
  -- result is at most the new measurement, and it was measured within the window.
  pub running_min_lem :
      MinOrder now m
      → now ≤ time
      → MinOrder time (running_min quarter half win time meas m)
        × (get (running_min quarter half win time meas m) ≤ meas)
        × (time ≤ (running_min quarter half win time meas m).best.time + win)
  unfolding running_min subwin_update
  running_min_lem o h = (ground arith, ground arith, ground arith)

  -- The same of a maximum, with the values in the opposite order.
  running_max_lem :
      MaxOrder now m
      → now ≤ time
      → MaxOrder time (running_max quarter half win time meas m)
        × (meas ≤ get (running_max quarter half win time meas m))
        × (time ≤ (running_max quarter half win time meas m).best.time + win)
  unfolding running_max subwin_update
  running_max_lem o h = (ground arith, ground arith, ground arith)
