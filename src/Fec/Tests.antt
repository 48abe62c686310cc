-- ===== src/Fec/Tests.antt =====
-- The schedulers at concrete inputs.
use quirl.Fec.{unset, Floats, Encoder, Connection, NetPath, dgram_max_writable_len, or_default}
use quirl.Fec.Background.{BackgroundFecScheduler}
use quirl.Fec.Background
use quirl.Fec.Bursts.{BurstsFecScheduler, SendingState, Env}
use quirl.Fec.Bursts
use quirl.Fec.Budget
use quirl.Fec.Datagrams
use quirl.Fec.Scheduler.{FecScheduler, bursty, should_send_repair}
use quirl.Common.{ℕ, ◌+◌, ◌*◌, ◌≡◌, refl, leb, true, false, none, some, arith}

abbrev whole_numbers : Floats
whole_numbers = record { Float = ℕ; two = 2; mean_plus = λ mean k deviation. mean + k * deviation }

abbrev encoder : Encoder
encoder = record {
  first_metadata = some 3;
  last_metadata = some 7;
  contains_symbol = λ md. leb md 7;
  get_sent_time = λ md. some 1;
}

abbrev idle : Connection
idle = record {
  dgram_max_writable_len = none;
  has_flushable = false;
  sent_count = 40;
  tx_data = 20000;
  fec_encoder = encoder;
}

abbrev path : NetPath whole_numbers
path = record {
  bif = 12000;
  cwnd_available = 9000;
  packets_lost_per_round_trip = none;
  var_packets_lost_per_round_trip = 1;
}

abbrev no_variables : Env whole_numbers
no_variables = record {
  burst_size_bytes = unset;
  max_jitter_us = unset;
  frac_denominator = unset;
  stddev_factor = unset;
}

abbrev delaying : BackgroundFecScheduler
delaying = record {
  delaying_duration = 2_000_000;
  n_repair_in_flight = 2;
  rs_triggering_time = some 1_000_000;
  rs_sent_for_this_round = false;
}

abbrev after_burst : BurstsFecScheduler
after_burst = record {
  n_repair_in_flight = 0;
  n_packets_sent_when_nothing_to_send = 0;
  n_sent_stream_bytes_sent_when_nothing_to_send = 1000;
  n_sent_stream_bytes_when_last_repair = 0;
  current_burst_size = 0;
  earliest_unprotected_source_symbol_sent_time = none;
  n_source_symbols_sent_since_last_repair = 9;
  state_sending_repair = none;
  next_timeout = none;
}

-- What the bursts scheduler answers, and keeps, after the burst.
abbrev begun : BurstsFecScheduler
begun = record after_burst {
  n_packets_sent_when_nothing_to_send = 40;
  n_sent_stream_bytes_sent_when_nothing_to_send = 20000;
  n_sent_stream_bytes_when_last_repair = 20000;
  state_sending_repair = some (record {
    start_time = 50;
    when = 50;
    burst_start_offset = 20000;
    burst_size = 19000;
    last_metadata_when_triggered = 7;
    repair_bytes_to_send = 5400;
    repair_symbols_sent = 0;
  });
}

burst_answer :
    Bursts.should_send_repair whole_numbers no_variables 50 idle path 1000 after_burst
    ≡ some (true, begun)
unfolding Bursts.should_send_repair Bursts.update_budget Bursts.decide Bursts.is_due
    Bursts.mark_idle Bursts.is_idle Bursts.next_sending Bursts.begin_sending Bursts.clear_finished
    Bursts.keep_sending Bursts.max_repair_data Bursts.raise_budget or_default
burst_answer = refl

bursts_budget_example : Budget.DueNow whole_numbers 50 1000 9000 begun.state_sending_repair
bursts_budget_example =
    Budget.bursts_budget whole_numbers no_variables 50 idle path 1000 after_burst begun burst_answer

background_alarm_example :
    ((Background.should_send_repair whole_numbers unset 2_000_000 idle path 1000 delaying).0
      ≡ false)
    × ((Background.should_send_repair whole_numbers unset 3_000_000 idle path 1000
          (Background.should_send_repair whole_numbers unset 2_000_000 idle path 1000 delaying).1).0
        ≡ true)
unfolding Background.should_send_repair Background.repair_symbol_required Background.max_repair_data
    Background.read_delaying_duration Background.start_delaying Background.waited_enough
    Background.timeout
background_alarm_example =
    Budget.background_alarm whole_numbers 2_000_000 3_000_000 idle path 1000 delaying 3_000_000 refl
      refl

abbrev with_datagrams : Connection
with_datagrams = record idle { dgram_max_writable_len = some 1156 }

silent_with_datagrams_example :
    (s' : FecScheduler) × (should_send_repair whole_numbers unset no_variables 50 with_datagrams
        path 1000
        (bursty after_burst)
      ≡ some (false, s'))
    × Datagrams.NoRound with_datagrams s'
unfolding dgram_max_writable_len
silent_with_datagrams_example =
    Datagrams.silent_with_datagrams whole_numbers unset no_variables 50 with_datagrams path 1000
      65535 1200 20 16 (bursty after_burst) refl (omega arith) (omega arith) (refl, omega arith)
