-- ===== src/Pmtud/Tests.antt =====
-- Runs of the MTU search, and the theorems at concrete inputs.
use quirl.Common.{◌*◌, ◌^◌, ◌≤◌, ◌≡◌, arith, none, some, true, false}
use quirl.Pmtud.{Pmtud, pmtu_probe_lost}
use quirl.Pmtud.Search.{lost, gap, lost_lem, pmtu_probe_lost_below}

abbrev probing : Pmtud
probing = record { cur_size = 1200; probe = 1500; next_size = false; enabled = true }

lost_lem_example :
    (q : Pmtud) × (lost 3 probing ≡ some q)
    × (q.cur_size ≡ 1200)
    × (q.cur_size ≤ q.probe)
    × (gap q * 2 ^ 3 ≤ gap probing)
lost_lem_example = lost_lem 3 probing (omega arith)

pmtu_probe_lost_below_example : pmtu_probe_lost (record probing { probe = 1000 }) ≡ none
pmtu_probe_lost_below_example =
    pmtu_probe_lost_below (record probing { probe = 1000 }) (omega arith)
