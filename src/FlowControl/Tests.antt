-- ===== src/FlowControl/Tests.antt =====
-- Runs of the flow controller, and the theorems at concrete inputs.
use quirl.Common.{◌≡◌, refl, arith, Bool, true, false, some}
use quirl.FlowControl.{
  FlowControl, new, add_consumed, should_update_max_data, update_max_data, autotune_window,
  ensure_window_lower_bound,
}
use quirl.FlowControl.Owner.{
  Owner, stream, start, marked, raised, consume, due, raise_stream, Reach, here, next,
}
use quirl.FlowControl.Limits.{Within, Reach-Within, should_update_max_data_total}

abbrev used : Owner
used = record { flow = add_consumed 95 (new 100 20 100); almost_full = false }

is_due : should_update_max_data used.flow ≡ some true
unfolding should_update_max_data add_consumed new
is_due = refl

path : Reach stream (start 100 20 100) (raised 7 30 (marked used))
path =
    next
      (next (next here (consume stream (start 100 20 100) 95 (unfold new in omega arith)))
        (due stream used is_due))
      (raise_stream (marked used) 7 30 refl)

Reach-Within_example : Within (start 100 20 100).flow (raised 7 30 (marked used)).flow
Reach-Within_example = Reach-Within stream 100 20 100 (omega arith) here path

should_update_max_data_total_example :
    (b : Bool) × (should_update_max_data (raised 7 30 (marked used)).flow ≡ some b)
should_update_max_data_total_example =
    should_update_max_data_total stream 100 20 100 (omega arith) path

-- A window above its maximum is cut when it is tuned, and the limit falls with it, although before
-- that it would have grown.
abbrev above : FlowControl
above = record { consumed = 0; max_data = 100; window = 150; max_window = 50; last_update = some 0 }

limit_falls : (update_max_data 1 (autotune_window 1 10 above)).max_data ≡ 50
unfolding update_max_data autotune_window
limit_falls = refl

-- The lower bound that a stream's window gives may be such a window.
bound_above : (ensure_window_lower_bound 150 (new 100 40 50)).window ≡ 150
unfolding ensure_window_lower_bound new
bound_above = refl
