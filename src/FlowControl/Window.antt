-- ===== src/FlowControl/Window.antt =====
-- FlowControl of quiche/src/flowcontrol.rs: its limit and its window after one call.
use quirl.Common.{ℕ, ◌+◌, ◌-◌, ◌*◌, ◌/◌, ◌≤◌, ◌<◌, min, ◌≡◌, refl, arith, true, false, some}
use quirl.FlowControl.{FlowControl, should_update_max_data, update_max_data, autotune_window}

-- An update is due only when less than half the window is left; the limit then grows by more than
-- half the window, all of the window is free, and no update is due any more.
update_max_data_lem :
    (now : ℕ) (fc : FlowControl)
    → should_update_max_data fc ≡ some true
    → (fc.max_data + fc.window / 2 < (update_max_data now fc).max_data)
      × ((update_max_data now fc).max_data ≡ fc.consumed + fc.window)
      × (should_update_max_data (update_max_data now fc) ≡ some false)
unfolding update_max_data should_update_max_data
update_max_data_lem now fc h = (ground arith, refl, ground arith)

-- A second update within two round trips doubles the window up to its maximum, and later ones leave
-- it as it is; the limit stays.
pub autotune_window_lem :
    (now rtt last : ℕ) (fc : FlowControl)
    → fc.last_update ≡ some last
    → ((now - last < 2 * rtt
          → (autotune_window now rtt fc).window ≡ min (2 * fc.window) fc.max_window)
        × (2 * rtt ≤ now - last → autotune_window now rtt fc ≡ fc))
      × ((autotune_window now rtt fc).max_data ≡ fc.max_data)
unfolding autotune_window
autotune_window_lem now rtt last fc e = ((λ h. ground arith, λ h. ground arith), ground arith)
