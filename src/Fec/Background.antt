-- ===== src/Fec/Background.antt =====
-- quiche/src/fec/background_fec_scheduler.rs: repair symbols while no stream has data to send.
use quirl.Fec.{Var, unset, garbled, parsed, Floats, Connection, NetPath, is_some}
use quirl.Common.{
  ℕ, ◌+◌, ◌-◌, ◌*◌, ◌/◌, min, ltb, leb, ◌&&◌, not, if◌then◌else◌, Bool, true, false, Option, none,
  some, ◌==◌,
}

abbrev pub default_delaying_duration : ℕ
default_delaying_duration = 2_000_000

abbrev pub repair_to_send_with_no_loss_info : ℕ
repair_to_send_with_no_loss_info = 5

pub record BackgroundFecScheduler : Type 0 where
  pub delaying_duration : ℕ
  pub n_repair_in_flight : ℕ
  pub rs_triggering_time : Option ℕ
  pub rs_sent_for_this_round : Bool

unfoldable pub new : BackgroundFecScheduler
new = record {
  delaying_duration = default_delaying_duration;
  n_repair_in_flight = 0;
  rs_triggering_time = none;
  rs_sent_for_this_round = false;
}

unfoldable pub reset_rs_delaying : BackgroundFecScheduler → BackgroundFecScheduler
reset_rs_delaying s = record s { rs_triggering_time = none; rs_sent_for_this_round = false }

-- The variable counts in microseconds; without it the duration stays.
unfoldable pub read_delaying_duration : Var ℕ → BackgroundFecScheduler → BackgroundFecScheduler
read_delaying_duration unset s = s
read_delaying_duration garbled s = record s { delaying_duration = default_delaying_duration }
read_delaying_duration (parsed us) s = record s { delaying_duration = us * 1000 }

module _ (fl : Floats) where
  unfoldable pub max_repair_data : NetPath fl → ℕ → ℕ
  max_repair_data path symbol_size =
      if ltb path.bif symbol_size
      then 0
      else if ltb path.bif 15000
      then path.bif * 3 / 5
      else elim path.packets_lost_per_round_trip [
        | none ↦ min (repair_to_send_with_no_loss_info * symbol_size) (path.bif / 4)
        | some lost ↦
            min (fl.mean_plus lost fl.two path.var_packets_lost_per_round_trip * symbol_size)
              (path.bif / 3)
      ]

  unfoldable pub repair_symbol_required :
      Connection → NetPath fl → ℕ → BackgroundFecScheduler → Bool
  repair_symbol_required conn path symbol_size s =
      not (is_some conn.dgram_max_writable_len)
      && not conn.has_flushable
      && ltb (s.n_repair_in_flight * symbol_size) (max_repair_data path symbol_size)

  -- The start of the delay, where none is running.
  unfoldable pub start_delaying : ℕ → Option ℕ → BackgroundFecScheduler → BackgroundFecScheduler
  start_delaying now none s = record s {
    rs_triggering_time = some now;
    rs_sent_for_this_round = false;
  }
  start_delaying now (some t) s = s

  unfoldable pub waited_enough : ℕ → ℕ → Option ℕ → Bool
  waited_enough now delay none = false
  waited_enough now delay (some t) = leb (t + delay) now

  unfoldable pub should_send_repair :
      Var ℕ
      → ℕ
      → Connection
      → NetPath fl
      → ℕ
      → BackgroundFecScheduler
      → Bool × BackgroundFecScheduler
  should_send_repair delay_us now conn path symbol_size s =
      let r = read_delaying_duration delay_us s in
      if not (repair_symbol_required conn path symbol_size r)
      then (false, reset_rs_delaying r)
      else (let d = start_delaying now r.rs_triggering_time r in
          (waited_enough now d.delaying_duration d.rs_triggering_time, d))

unfoldable pub sent_repair_symbol : BackgroundFecScheduler → BackgroundFecScheduler
sent_repair_symbol s = record s {
  n_repair_in_flight = s.n_repair_in_flight + 1;
  rs_sent_for_this_round = true;
}

-- `none` is the panic of a subtraction below 0.
unfoldable pub acked_repair_symbol : BackgroundFecScheduler → Option BackgroundFecScheduler
acked_repair_symbol s =
    if s.n_repair_in_flight == 0
    then none
    else some (record s { n_repair_in_flight = s.n_repair_in_flight - 1 })

unfoldable pub sent_source_symbol : BackgroundFecScheduler → BackgroundFecScheduler
unfolding reset_rs_delaying
sent_source_symbol s = reset_rs_delaying s

unfoldable pub lost_repair_symbol : BackgroundFecScheduler → Option BackgroundFecScheduler
unfolding acked_repair_symbol
lost_repair_symbol s = acked_repair_symbol s

unfoldable pub timeout : BackgroundFecScheduler → Option ℕ
timeout s =
    if s.rs_sent_for_this_round
    then none
    else elim s.rs_triggering_time [ none ↦ none | some t ↦ some (t + s.delaying_duration) ]
