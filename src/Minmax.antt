-- ===== src/Minmax.antt =====
-- quiche/src/minmax.rs: the minimum or maximum of a series of measurements over a window of time.
-- Instants, durations and measurements are numbers; the difference of two instants is 0 where the
-- later one comes first. The three samples are `estimate[0]` to `estimate[2]`. `Duration::div_f32`
-- is floating-point code of the standard library: a quarter and a half of the window are given as
-- functions.
use quirl.Common.{ℕ, ◌-◌, ltb, leb, ◌==◌, ◌&&◌, ◌||◌, if◌then◌else◌, Bool}
pub mod Order
mod Tests

pub record MinmaxSample : Type 0 where
  pub time : ℕ
  pub value : ℕ

pub record Minmax : Type 0 where
  pub best : MinmaxSample
  pub second : MinmaxSample
  pub third : MinmaxSample

-- All three estimates are one sample.
abbrev pub all_three : MinmaxSample → Minmax
all_three s = record { best = s; second = s; third = s }

unfoldable pub new : ℕ → ℕ → Minmax
new now val = all_three (record { time = now; value = val })

unfoldable pub reset : ℕ → ℕ → Minmax → Minmax
reset time meas m = all_three (record { time = time; value = meas })

-- The value that the update methods return, and that `*minmax` reads.
abbrev pub get : Minmax → ℕ
get m = m.best.value

module _ (quarter half : ℕ → ℕ) where
  unfoldable pub subwin_update : ℕ → ℕ → ℕ → Minmax → Minmax
  subwin_update win time meas m =
      let val : MinmaxSample = record { time = time; value = meas } in
      let once : Minmax = record { best = m.second; second = m.third; third = val } in
      let twice : Minmax = record { best = m.third; second = val; third = val } in
      let delta_time = time - m.best.time in
      if ltb win delta_time
      then (if ltb win (time - once.best.time) then twice else once)
      else if m.second.time == m.best.time && ltb (quarter win) delta_time
      then record m { second = val; third = val }
      else if m.third.time == m.second.time && ltb (half win) delta_time
      then record m { third = val }
      else m

  unfoldable pub running_min : ℕ → ℕ → ℕ → Minmax → Minmax
  unfolding reset
  running_min win time meas m =
      let val : MinmaxSample = record { time = time; value = meas } in
      if leb meas m.best.value || ltb win (time - m.third.time)
      then reset time meas m
      else subwin_update win time meas (
          if leb meas m.second.value
          then record m { second = val; third = val }
          else if leb meas m.third.value
          then record m { third = val }
          else m)

  unfoldable pub running_max : ℕ → ℕ → ℕ → Minmax → Minmax
  unfolding reset
  running_max win time meas m =
      let val : MinmaxSample = record { time = time; value = meas } in
      if leb m.best.value meas || ltb win (time - m.third.time)
      then reset time meas m
      else subwin_update win time meas (
          if leb m.second.value meas
          then record m { second = val; third = val }
          else if leb m.third.value meas
          then record m { third = val }
          else m)
