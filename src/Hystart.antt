-- ===== src/Hystart.antt =====
-- quiche/src/recovery/congestion/hystart.rs: HyStart++, which leaves slow start when the round-trip
-- time rises. Durations and instants are in nanoseconds; of an acknowledged packet the code reads
-- its number.
use quirl.Common.{
  ℕ, ◌+◌, ◌-◌, ◌*◌, ◌/◌, ◌^◌, min, max, ltb, leb, ◌==◌, ◌&&◌, not, if◌then◌else◌, Bool, true, false,
  Option, none, some,
}
pub mod Phases
pub mod Entry
mod Tests

abbrev pub min_rtt_thresh : ℕ
min_rtt_thresh = 4_000_000

abbrev pub max_rtt_thresh : ℕ
max_rtt_thresh = 16_000_000

abbrev pub n_rtt_sample : ℕ
n_rtt_sample = 8

abbrev pub css_growth_divisor : ℕ
css_growth_divisor = 4

abbrev pub css_rounds : ℕ
css_rounds = 5

-- `Duration::MAX`
abbrev pub duration_max : ℕ
duration_max = 2 ^ 64 * 1_000_000_000 - 1

pub record Hystart : Type 0 where
  pub enabled : Bool
  pub window_end : Option ℕ
  pub last_round_min_rtt : ℕ
  pub current_round_min_rtt : ℕ
  pub css_baseline_min_rtt : ℕ
  pub rtt_sample_count : ℕ
  pub css_start_time : Option ℕ
  pub css_round_count : ℕ

unfoldable pub new : Bool → Hystart
new enabled = record {
  enabled = enabled;
  window_end = none;
  last_round_min_rtt = duration_max;
  current_round_min_rtt = duration_max;
  css_baseline_min_rtt = duration_max;
  rtt_sample_count = 0;
  css_start_time = none;
  css_round_count = 0;
}

abbrev pub is_some {ℓ} : {A : Type ℓ} → Option A → Bool
is_some none = false
is_some (some _) = true

unfoldable pub in_css : Hystart → Bool
in_css h = h.enabled && is_some h.css_start_time

unfoldable pub start_round : ℕ → Hystart → Hystart
start_round pkt_num h = if is_some h.window_end then h else record h {
  window_end = some pkt_num;
  last_round_min_rtt = h.current_round_min_rtt;
  current_round_min_rtt = duration_max;
  rtt_sample_count = 0;
}

unfoldable pub rtt_thresh : ℕ → ℕ
rtt_thresh last_round_min_rtt = min (max (last_round_min_rtt / 8) min_rtt_thresh) max_rtt_thresh

-- The slow start branch of `on_packet_acked`: the change to conservative slow start.
unfoldable pub slow_start : ℕ → Hystart → Hystart
slow_start now h =
    if leb n_rtt_sample h.rtt_sample_count
      && (not (h.current_round_min_rtt == duration_max)
          && (not (h.last_round_min_rtt == duration_max)
              && leb (min (h.last_round_min_rtt + rtt_thresh h.last_round_min_rtt) duration_max)
                  h.current_round_min_rtt))
    then record h { css_baseline_min_rtt = h.current_round_min_rtt; css_start_time = some now }
    else h

-- The conservative branch: the change back to slow start.
unfoldable pub conservative_slow_start : Hystart → Hystart
conservative_slow_start h =
    if leb n_rtt_sample h.rtt_sample_count
    then (if ltb h.current_round_min_rtt h.css_baseline_min_rtt
        then record h {
          rtt_sample_count = 0;
          css_baseline_min_rtt = duration_max;
          css_start_time = none;
          css_round_count = 0;
        }
        else record h { rtt_sample_count = 0 })
    else h

-- The end of `on_packet_acked`: a round ends, and with the last one conservative slow start.
unfoldable pub end_round : ℕ → Hystart → Hystart × Bool
end_round pkt_num h = elim h.window_end [
  | none ↦ (h, false)
  | some end_pkt_num ↦
      if leb end_pkt_num pkt_num
      then (if is_some h.css_start_time
          then (if leb css_rounds (h.css_round_count + 1)
              then (record h { window_end = none; css_round_count = 0 }, true)
              else (record h { window_end = none; css_round_count = h.css_round_count + 1 }, false))
          else (record h { window_end = none }, false))
      else (h, false)
]

-- The result tells whether congestion avoidance is entered.
unfoldable pub on_packet_acked : ℕ → ℕ → ℕ → Hystart → Hystart × Bool
on_packet_acked pkt_num rtt now h =
    let h₁ = record h {
      current_round_min_rtt = min h.current_round_min_rtt rtt;
      rtt_sample_count = h.rtt_sample_count + 1;
    } in
    if not h.enabled
    then (h, false)
    else end_round pkt_num
        (if is_some h₁.css_start_time then conservative_slow_start h₁ else slow_start now h₁)

unfoldable pub css_cwnd_inc : ℕ → ℕ
css_cwnd_inc pkt_size = pkt_size / css_growth_divisor

unfoldable pub congestion_event : Hystart → Hystart
congestion_event h = record h { window_end = none; css_start_time = none }
