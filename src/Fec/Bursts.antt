-- ===== src/Fec/Bursts.antt =====
-- quiche/src/fec/burst_protecting_fec_scheduler.rs: repair symbols after a burst of packets.
use quirl.Fec.{Var, or_default, Floats, Metadata, Encoder, Connection, NetPath, is_some}
use quirl.Common.{
  ℕ, ◌+◌, ◌-◌, ◌*◌, ◌/◌, min, max, ltb, leb, ◌&&◌, not, if◌then◌else◌, Bool, true, false, Option,
  none, some, ◌==◌,
}

pub record SendingState : Type 0 where
  pub start_time : ℕ
  pub when : ℕ
  pub burst_start_offset : ℕ
  pub burst_size : ℕ
  pub last_metadata_when_triggered : Metadata
  pub repair_bytes_to_send : ℕ
  pub repair_symbols_sent : ℕ

pub record BurstsFecScheduler : Type 0 where
  pub n_repair_in_flight : ℕ
  pub n_packets_sent_when_nothing_to_send : ℕ
  pub n_sent_stream_bytes_sent_when_nothing_to_send : ℕ
  pub n_sent_stream_bytes_when_last_repair : ℕ
  pub current_burst_size : ℕ
  pub earliest_unprotected_source_symbol_sent_time : Option ℕ
  pub n_source_symbols_sent_since_last_repair : ℕ
  pub state_sending_repair : Option SendingState
  pub next_timeout : Option ℕ

abbrev pub default_burst_size : ℕ
default_burst_size = 15000

abbrev pub default_max_jitter_us : ℕ
default_max_jitter_us = 0

abbrev pub default_frac_denominator_to_protect : ℕ
default_frac_denominator_to_protect = 2

-- The variables read; the one for the room in the congestion window serves only the log.
pub record Env (fl : Floats) : Type 0 where
  pub burst_size_bytes : Var ℕ
  pub max_jitter_us : Var ℕ
  pub frac_denominator : Var ℕ
  pub stddev_factor : Var fl.Float

unfoldable pub new : BurstsFecScheduler
new = record {
  n_repair_in_flight = 0;
  n_packets_sent_when_nothing_to_send = 0;
  n_sent_stream_bytes_sent_when_nothing_to_send = 0;
  n_sent_stream_bytes_when_last_repair = 0;
  current_burst_size = 0;
  earliest_unprotected_source_symbol_sent_time = none;
  n_source_symbols_sent_since_last_repair = 0;
  state_sending_repair = none;
  next_timeout = none;
}

-- A sending round is over once its bytes are sent.
unfoldable pub clear_finished : ℕ → Option SendingState → Option SendingState
clear_finished symbol_size none = none
clear_finished symbol_size (some st) =
    if leb st.repair_bytes_to_send (st.repair_symbols_sent * symbol_size) then none else some st

-- A round goes on while the encoder still holds the last symbol from when it began.
unfoldable pub keep_sending : Encoder → Option SendingState → Option SendingState
keep_sending encoder none = none
keep_sending encoder (some st) =
    if encoder.contains_symbol st.last_metadata_when_triggered then some st else none

-- A new round, if the encoder has seen a symbol.
unfoldable pub begin_sending : ℕ → ℕ → ℕ → ℕ → Option Metadata → Option SendingState
begin_sending now max_jitter bytes burst none = none
begin_sending now max_jitter bytes burst (some md) = some (record {
  start_time = now;
  when = now + max_jitter;
  last_metadata_when_triggered = md;
  burst_start_offset = bytes;
  burst_size = burst;
  repair_bytes_to_send = 0;
  repair_symbols_sent = 0;
})

-- `state.repair_bytes_to_send.max(max_repair_data)`
unfoldable pub raise_budget : ℕ → SendingState → SendingState
raise_budget amount st = record st { repair_bytes_to_send = max st.repair_bytes_to_send amount }

-- The answer for the state of the round.
unfoldable pub is_due : ℕ → ℕ → Option SendingState → Bool
is_due now symbol_size none = false
is_due now symbol_size (some st) =
    leb st.when now && ltb (st.repair_symbols_sent * symbol_size) st.repair_bytes_to_send

-- The wake-up where nothing is due.
unfoldable pub wake_up : ℕ → Option SendingState → Option ℕ
wake_up now none = none
wake_up now (some st) = if ltb now st.when then some st.when else none

module _ (fl : Floats) where
  -- `none` is the panic of a division by 0.
  unfoldable pub max_repair_data : Env fl → NetPath fl → ℕ → ℕ → Option ℕ
  max_repair_data env path symbol_size bytes_to_protect =
      let denominator = or_default default_frac_denominator_to_protect env.frac_denominator in
      if ltb bytes_to_protect 15000
      then some (bytes_to_protect * 3 / 5)
      else if denominator == 0
      then none
      else elim path.packets_lost_per_round_trip [
        | none ↦ some (bytes_to_protect / denominator)
        | some lost ↦ some (
            min
              (fl.mean_plus lost (or_default fl.two env.stddev_factor)
                  path.var_packets_lost_per_round_trip
                * symbol_size)
              (bytes_to_protect / denominator))
      ]

  -- The amount to send grows with what there is to protect.
  unfoldable pub update_budget :
      Env fl → NetPath fl → ℕ → ℕ → Option SendingState → Option (Option SendingState)
  update_budget env path symbol_size n_source none = some none
  update_budget env path symbol_size n_source (some st) =
      elim (max_repair_data env path symbol_size (min path.bif (n_source * symbol_size))) [
        | none ↦ none
        | some amount ↦ some (some (raise_budget amount st))
      ]

  -- `nothing_to_send`
  unfoldable pub is_idle : Connection → Bool
  is_idle conn = not (is_some conn.dgram_max_writable_len) && not conn.has_flushable

  -- The round after this call, before its budget is raised.
  unfoldable pub next_sending :
      Env fl → ℕ → Connection → ℕ → Option SendingState → ℕ → Option SendingState
  next_sending env now conn symbol_size old burst =
      let st = clear_finished symbol_size old in
      if is_some conn.fec_encoder.last_metadata
        && not (is_some st)
        && is_idle conn
        && ltb (or_default default_burst_size env.burst_size_bytes) burst
      then begin_sending now (or_default default_max_jitter_us env.max_jitter_us * 1000)
          conn.tx_data burst conn.fec_encoder.last_metadata
      else keep_sending conn.fec_encoder st

  -- The counters restart when there is nothing to send.
  unfoldable pub mark_idle : Connection → BurstsFecScheduler → BurstsFecScheduler
  mark_idle conn s =
      if is_idle conn
      then record s {
        n_packets_sent_when_nothing_to_send = conn.sent_count;
        n_sent_stream_bytes_sent_when_nothing_to_send = conn.tx_data;
        current_burst_size = 0;
      }
      else s

  unfoldable pub decide : ℕ → Connection → ℕ → BurstsFecScheduler → Bool × BurstsFecScheduler
  decide now conn symbol_size s =
      if is_due now symbol_size s.state_sending_repair
      then (true, record s { n_sent_stream_bytes_when_last_repair = conn.tx_data })
      else (false, record s { next_timeout = wake_up now s.state_sending_repair })

  -- `none` is a panic: the bytes sent are fewer than before, or the denominator is 0.
  unfoldable pub should_send_repair :
      Env fl
      → ℕ
      → Connection
      → NetPath fl
      → ℕ
      → BurstsFecScheduler
      → Option (Bool × BurstsFecScheduler)
  should_send_repair env now conn path symbol_size s =
      if ltb conn.tx_data s.n_sent_stream_bytes_sent_when_nothing_to_send
      then none
      else (let burst = conn.tx_data - s.n_sent_stream_bytes_sent_when_nothing_to_send in
          let st = next_sending env now conn symbol_size s.state_sending_repair burst in
          elim (update_budget env path symbol_size s.n_source_symbols_sent_since_last_repair st) [
            | none ↦ none
            | some st' ↦ some (
                decide now conn symbol_size (
                  mark_idle conn
                    (record s { current_burst_size = burst; state_sending_repair = st' })))
          ])

  -- When the earliest symbol was sent that no repair symbol protects.
  unfoldable pub earliest_sent : Env fl → ℕ → Encoder → BurstsFecScheduler → Option ℕ → Option ℕ
  earliest_sent env now encoder s none =
      if ltb (or_default default_burst_size env.burst_size_bytes) s.current_burst_size
      then some now
      else none
  earliest_sent env now encoder s (some sent_time) = elim encoder.first_metadata [
    | none ↦ some sent_time
    | some first_md ↦
        if ltb (sent_time + or_default default_max_jitter_us env.max_jitter_us * 1000) now
          && ltb (or_default default_burst_size env.burst_size_bytes) s.current_burst_size
        then some now
        else elim (encoder.get_sent_time first_md) [
          | none ↦ some sent_time
          | some window_sent_time ↦
              if ltb sent_time window_sent_time then some window_sent_time else some sent_time
        ]
  ]

  unfoldable pub sent_source_symbol : Env fl → ℕ → Encoder → BurstsFecScheduler → BurstsFecScheduler
  sent_source_symbol env now encoder s = record s {
    earliest_unprotected_source_symbol_sent_time =
        earliest_sent env now encoder s s.earliest_unprotected_source_symbol_sent_time;
    n_source_symbols_sent_since_last_repair = s.n_source_symbols_sent_since_last_repair + 1;
  }

unfoldable pub count_sent : Option SendingState → Option SendingState
count_sent none = none
count_sent (some st) = some (record st { repair_symbols_sent = st.repair_symbols_sent + 1 })

unfoldable pub sent_repair_symbol : BurstsFecScheduler → BurstsFecScheduler
sent_repair_symbol s = record s {
  n_repair_in_flight = s.n_repair_in_flight + 1;
  earliest_unprotected_source_symbol_sent_time = none;
  n_source_symbols_sent_since_last_repair = 0;
  state_sending_repair = count_sent s.state_sending_repair;
}

-- `none` is the panic of a subtraction below 0.
unfoldable pub acked_repair_symbol : BurstsFecScheduler → Option BurstsFecScheduler
acked_repair_symbol s =
    if s.n_repair_in_flight == 0
    then none
    else some (record s { n_repair_in_flight = s.n_repair_in_flight - 1 })

unfoldable pub lost_repair_symbol : BurstsFecScheduler → Option BurstsFecScheduler
unfolding acked_repair_symbol
lost_repair_symbol s = acked_repair_symbol s

unfoldable pub timeout : BurstsFecScheduler → Option ℕ
timeout s = s.next_timeout
