-- ===== src/Fec/InFlight.antt =====
-- quiche/src/fec: the count of repair symbols in flight, over the events that the connection reports.
use quirl.Fec.Background.{BackgroundFecScheduler}
use quirl.Fec.Background
use quirl.Fec.Bursts.{BurstsFecScheduler}
use quirl.Fec.Bursts
use quirl.Fec.Scheduler.{
  FecScheduler, no_scheduler, background_scheduler, bursty, sent_repair_symbol, acked_repair_symbol,
  lost_repair_symbol,
}
use quirl.Common.{
  ℕ, ◌+◌, ◌-◌, ◌≡◌, ◌==◌, List, [], ◌∷◌, Option, none, some, if◌then◌else◌, ◌≤◌, ◌<◌, take, ◌⊎◌,
}

pub data Event : Type 0 where
  sent acked lost : Event

abbrev pub step : Event → FecScheduler → Option FecScheduler
step sent s = some (sent_repair_symbol s)
step acked s = acked_repair_symbol s
step lost s = lost_repair_symbol s

abbrev pub run : List Event → FecScheduler → Option FecScheduler
run [] s = some s
run (e ∷ es) s = elim (step e s) [ none ↦ none | some s' ↦ run es s' ]

abbrev pub in_flight : FecScheduler → Option ℕ
in_flight no_scheduler = none
in_flight (background_scheduler s) = some s.n_repair_in_flight
in_flight (bursty s) = some s.n_repair_in_flight

-- The count by itself, which stops where more is reported back than was sent.
abbrev count_one : Event → ℕ → Option ℕ
count_one sent n = some (n + 1)
count_one acked n = if n == 0 then none else some (n - 1)
count_one lost n = if n == 0 then none else some (n - 1)

abbrev count : List Event → ℕ → Option ℕ
count [] n = some n
count (e ∷ es) n = elim (count_one e n) [ none ↦ none | some n' ↦ count es n' ]

-- The outcome of a run against the outcome of the count: both panic, or both go on and agree.
abbrev Agree : Option FecScheduler → Option ℕ → Type 0
Agree none o = o ≡ none
Agree (some s) o = (n : ℕ) × (o ≡ some n) × (in_flight s ≡ some n)

-- How many symbols the events report as sent, and how many as acknowledged or lost.
abbrev pub n_sent : List Event → ℕ
n_sent [] = 0
n_sent (sent ∷ es) = 1 + n_sent es
n_sent (acked ∷ es) = n_sent es
n_sent (lost ∷ es) = n_sent es

abbrev pub n_returned : List Event → ℕ
n_returned [] = 0
n_returned (sent ∷ es) = n_returned es
n_returned (acked ∷ es) = 1 + n_returned es
n_returned (lost ∷ es) = 1 + n_returned es

-- At no time more symbols have returned than were in flight at first or sent since; or at some time.
abbrev pub Covered : ℕ → List Event → Type 0
Covered n es = (k : ℕ) → n_returned (take k es) ≤ n + n_sent (take k es)

abbrev pub Exceeded : ℕ → List Event → Type 0
Exceeded n es = (k : ℕ) × (n + n_sent (take k es) < n_returned (take k es))

abbrev Tally : List Event → ℕ → Option ℕ → Type 0
Tally es n o =
    ((m : ℕ) × (o ≡ some m) × (m + n_returned es ≡ n + n_sent es) × Covered n es)
    ⊎ ((o ≡ none) × Exceeded n es)
