-- ===== src/Rtt.antt =====
-- quiche/src/recovery/rtt.rs: the round-trip estimator. Durations and instants are in nanoseconds.
use quirl.Common.{
  ℕ, ◌+◌, ◌-◌, ◌*◌, ◌/◌, min, ltb, leb, ◌==◌, if◌then◌else◌, Bool, Option, none, some,
}
use quirl.Minmax
use quirl.Minmax.{Minmax, get, running_min, reset}
pub mod Bounds
mod Tests

abbrev pub initial_rtt : ℕ
initial_rtt = 333_000_000

abbrev pub rtt_window : ℕ
rtt_window = 300_000_000_000

pub record RttStats : Type 0 where
  pub latest_rtt : ℕ
  pub smoothed_rtt : ℕ
  pub rttvar : ℕ
  pub min_rtt : Minmax
  pub max_ack_delay : ℕ
  pub first_rtt_sample : Option ℕ

-- `now` is what `Minmax::new` reads from the clock.
unfoldable pub new : ℕ → ℕ → RttStats
new now max_ack_delay = record {
  latest_rtt = 0;
  smoothed_rtt = initial_rtt;
  rttvar = initial_rtt / 2;
  min_rtt = Minmax.new now 0;
  max_ack_delay = max_ack_delay;
  first_rtt_sample = none;
}

-- `as_nanos().abs_diff(...)`
abbrev abs_diff : ℕ → ℕ → ℕ
abs_diff a b = (a - b) + (b - a)

module _ (quarter half : ℕ → ℕ) where
  -- The first sample sets everything.
  unfoldable pub first_sample : ℕ → ℕ → RttStats → RttStats
  first_sample latest_rtt now r = record r {
    latest_rtt = latest_rtt;
    min_rtt = reset now latest_rtt r.min_rtt;
    smoothed_rtt = latest_rtt;
    rttvar = latest_rtt / 2;
    first_rtt_sample = some now;
  }

  -- `adjusted_rtt`, from the updated minimum.
  unfoldable pub adjust : ℕ → ℕ → ℕ → ℕ
  adjust latest_rtt ack_delay min_rtt =
      if leb (min_rtt + ack_delay) latest_rtt then latest_rtt - ack_delay else latest_rtt

  unfoldable pub next_sample : ℕ → ℕ → ℕ → Bool → RttStats → RttStats
  unfolding adjust
  next_sample latest_rtt ack_delay now handshake_confirmed r =
      let min_rtt = running_min quarter half rtt_window now latest_rtt r.min_rtt in
      let ack_delay = if handshake_confirmed then min ack_delay r.max_ack_delay else ack_delay in
      let adjusted_rtt = adjust latest_rtt ack_delay (get min_rtt) in
      record r {
        latest_rtt = latest_rtt;
        min_rtt = min_rtt;
        rttvar = r.rttvar * 3 / 4 + abs_diff r.smoothed_rtt adjusted_rtt / 4;
        smoothed_rtt = r.smoothed_rtt * 7 / 8 + adjusted_rtt / 8;
      }

  unfoldable pub update_rtt : ℕ → ℕ → ℕ → Bool → RttStats → RttStats
  unfolding first_sample next_sample
  update_rtt latest_rtt ack_delay now handshake_confirmed r = elim r.first_rtt_sample [
    | none ↦ first_sample latest_rtt now r
    | some _ ↦ next_sample latest_rtt ack_delay now handshake_confirmed r
  ]

unfoldable pub rtt : RttStats → ℕ
rtt r = r.smoothed_rtt

-- `min_rtt()`: nothing before the first measurement.
unfoldable pub min_rtt_opt : RttStats → Option ℕ
min_rtt_opt r = if get r.min_rtt == 0 then none else some (get r.min_rtt)
