-- ===== src/Fec/Scheduler.antt =====
-- quiche/src/fec/fec_scheduler.rs: the choice of a scheduler and the calls passed on to it.
use quirl.Fec.{Var, Floats, Encoder, Connection, NetPath}
use quirl.Fec.Background.{BackgroundFecScheduler}
use quirl.Fec.Background
use quirl.Fec.Bursts.{BurstsFecScheduler, Env}
use quirl.Fec.Bursts
use quirl.Common.{ℕ, Bool, false, Option, none, some}

pub data FecSchedulerAlgorithm : Type 0 where
  no_redundancy background_only bursts_only : FecSchedulerAlgorithm

pub data FecScheduler : Type 0 where
  no_scheduler : FecScheduler
  background_scheduler : BackgroundFecScheduler → FecScheduler
  bursty : BurstsFecScheduler → FecScheduler

unfoldable pub new_fec_scheduler : FecSchedulerAlgorithm → FecScheduler
new_fec_scheduler no_redundancy = no_scheduler
new_fec_scheduler background_only = background_scheduler Background.new
new_fec_scheduler bursts_only = bursty Bursts.new

module _ (fl : Floats) where
  unfoldable pub should_send_repair :
      Var ℕ → Env fl → ℕ → Connection → NetPath fl → ℕ → FecScheduler → Option (Bool × FecScheduler)
  should_send_repair delay_us env now conn path symbol_size no_scheduler =
      some (false, no_scheduler)
  should_send_repair delay_us env now conn path symbol_size (background_scheduler s) =
      let (b, s') = Background.should_send_repair fl delay_us now conn path symbol_size s in
      some (b, background_scheduler s')
  should_send_repair delay_us env now conn path symbol_size (bursty s) =
      elim (Bursts.should_send_repair fl env now conn path symbol_size s) [
        | none ↦ none
        | some (b, s') ↦ some (b, bursty s')
      ]

  unfoldable pub sent_source_symbol : Env fl → ℕ → Encoder → FecScheduler → FecScheduler
  sent_source_symbol env now encoder no_scheduler = no_scheduler
  sent_source_symbol env now encoder (background_scheduler s) =
      background_scheduler (Background.sent_source_symbol s)
  sent_source_symbol env now encoder (bursty s) =
      bursty (Bursts.sent_source_symbol fl env now encoder s)

unfoldable pub sent_repair_symbol : FecScheduler → FecScheduler
sent_repair_symbol no_scheduler = no_scheduler
sent_repair_symbol (background_scheduler s) = background_scheduler (Background.sent_repair_symbol s)
sent_repair_symbol (bursty s) = bursty (Bursts.sent_repair_symbol s)

unfoldable pub acked_repair_symbol : FecScheduler → Option FecScheduler
acked_repair_symbol no_scheduler = some no_scheduler
acked_repair_symbol (background_scheduler s) = elim (Background.acked_repair_symbol s) [
  | none ↦ none
  | some s' ↦ some (background_scheduler s')
]
acked_repair_symbol (bursty s) = elim (Bursts.acked_repair_symbol s) [
  | none ↦ none
  | some s' ↦ some (bursty s')
]

unfoldable pub lost_repair_symbol : FecScheduler → Option FecScheduler
lost_repair_symbol no_scheduler = some no_scheduler
lost_repair_symbol (background_scheduler s) = elim (Background.lost_repair_symbol s) [
  | none ↦ none
  | some s' ↦ some (background_scheduler s')
]
lost_repair_symbol (bursty s) = elim (Bursts.lost_repair_symbol s) [
  | none ↦ none
  | some s' ↦ some (bursty s')
]

unfoldable pub timeout : FecScheduler → Option ℕ
timeout no_scheduler = none
timeout (background_scheduler s) = Background.timeout s
timeout (bursty s) = Bursts.timeout s
