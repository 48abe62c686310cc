-- ===== src/Pmtud.antt =====
-- quiche/src/pmtud.rs: the search for the path MTU.
use quirl.Common.{ℕ, ◌+◌, ◌-◌, ◌/◌, Bool, true, false, Option, none, some, ltb, if◌then◌else◌}
pub mod Search
mod Tests

pub record Pmtud : Type 0 where
  pub cur_size : ℕ
  pub probe : ℕ
  pub next_size : Bool
  pub enabled : Bool

unfoldable pub new : ℕ → Pmtud
new cur_size = record { cur_size = cur_size; probe = 0; next_size = false; enabled = false }

unfoldable pub enable : Bool → Pmtud → Pmtud
enable b p = record p { enabled = b }

unfoldable pub should_probe : Bool → Pmtud → Pmtud
should_probe b p = record p { next_size = b }

unfoldable pub set_probe_size : ℕ → Pmtud → Pmtud
set_probe_size n p = record p { probe = n }

unfoldable pub set_current : ℕ → Pmtud → Pmtud
set_current n p = record p { cur_size = n }

-- `none` is the panic of `probe - cur_size` below 0.
unfoldable pub update_probe_size : Pmtud → Option Pmtud
update_probe_size p =
    if ltb p.probe p.cur_size
    then none
    else some (record p { probe = p.cur_size + (p.probe - p.cur_size) / 2 })

unfoldable pub pmtu_probe_lost : Pmtud → Option Pmtud
unfolding update_probe_size should_probe
pmtu_probe_lost p = elim (update_probe_size p) [ none ↦ none | some q ↦ some (should_probe true q) ]
