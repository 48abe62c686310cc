-- ===== src/Rtt/Bounds.antt =====
-- RttStats of quiche/src/recovery/rtt.rs: how far one sample moves the estimates.
use quirl.Common.{ℕ, ◌+◌, ◌/◌, ◌≤◌, min, max, if◌then◌else◌, Bool, none, some, ◌≡◌, refl, arith}
use quirl.Minmax.{get, reset, running_min}
use quirl.Minmax.Order.{MinOrder, running_min_lem}
use quirl.Rtt.{RttStats, rtt_window, update_rtt, next_sample, adjust}

module _ (quarter half : ℕ → ℕ) where
  -- The acknowledgment delay is taken off only as far as the minimum allows: the adjusted sample is
  -- at most the sample, and not below the minimum unless the sample is.
  pub adjust_bounds :
      (latest_rtt ack_delay min_rtt : ℕ)
      → (adjust quarter half latest_rtt ack_delay min_rtt ≤ latest_rtt)
        × (min latest_rtt min_rtt ≤ adjust quarter half latest_rtt ack_delay min_rtt)
  unfolding adjust
  adjust_bounds l a m = (ground arith, ground arith)

  module _ (latest ack_delay now first before : ℕ) (confirmed : Bool) (r : RttStats) where
    -- The updated estimates after a later sample.
    abbrev r' : RttStats
    r' = update_rtt quarter half latest ack_delay now confirmed r

    step_bounds :
        MinOrder before r.min_rtt
        → before ≤ now
        → (s : RttStats) → s ≡ next_sample quarter half latest ack_delay now confirmed r
        → (s.smoothed_rtt ≤ max r.smoothed_rtt latest)
          × (min r.smoothed_rtt (get s.min_rtt) ≤ s.smoothed_rtt + 1)
          × (get s.min_rtt ≤ latest)
          × MinOrder now s.min_rtt
          × (s.latest_rtt ≡ latest)
    unfolding next_sample
    step_bounds o h s e =
        let m = running_min quarter half rtt_window now latest r.min_rtt in
        let d = if confirmed then min ack_delay r.max_ack_delay else ack_delay in
        let (order, low, near) =
          running_min_lem quarter half rtt_window before now latest r.min_rtt o h in
        rw e (
          omega (arith, adjust_bounds latest d (get m)),
          omega (arith, adjust_bounds latest d (get m), low),
          low,
          order,
          refl,
        )

    -- A sample after the first moves the smoothed time at most up to the larger of the old value and
    -- the sample, and, but for one nanosecond of rounding, not below the smaller of the old value and
    -- the minimum; the minimum is at most the sample, and its estimates stay in order.
    pub update_rtt_bounds :
        r.first_rtt_sample ≡ some first
        → MinOrder before r.min_rtt
        → before ≤ now
        → (r'.smoothed_rtt ≤ max r.smoothed_rtt latest)
          × (min r.smoothed_rtt (get r'.min_rtt) ≤ r'.smoothed_rtt + 1)
          × (get r'.min_rtt ≤ latest)
          × MinOrder now r'.min_rtt
          × (r'.latest_rtt ≡ latest)
    update_rtt_bounds some_first o h = step_bounds o h r' (unfold update_rtt in ground arith)

    -- The first sample is taken as it is.
    pub update_rtt_first :
        r.first_rtt_sample ≡ none
        → (r'.smoothed_rtt ≡ latest)
          × (get r'.min_rtt ≡ latest)
          × (r'.rttvar ≡ latest / 2)
          × (r'.first_rtt_sample ≡ some now)
    unfolding update_rtt reset
    update_rtt_first e = ground arith
