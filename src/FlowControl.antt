-- ===== src/FlowControl.antt =====
-- quiche/src/flowcontrol.rs: how far a peer may send. Times are in nanoseconds; the difference of
-- two instants is 0 where the later one comes first, as in the standard library.
use quirl.Common.{
  ℕ, ◌+◌, ◌-◌, ◌*◌, ◌/◌, min, ltb, if◌then◌else◌, Bool, true, false, Option, none, some,
}
pub mod Owner
pub mod Limits
pub mod Window
mod Tests

abbrev window_increase_factor : ℕ
window_increase_factor = 2

abbrev window_trigger_factor : ℕ
window_trigger_factor = 2

pub record FlowControl : Type 0 where
  pub consumed : ℕ
  pub max_data : ℕ
  pub window : ℕ
  pub max_window : ℕ
  pub last_update : Option ℕ

unfoldable pub new : ℕ → ℕ → ℕ → FlowControl
new max_data window max_window = record {
  consumed = 0;
  max_data = max_data;
  window = window;
  max_window = max_window;
  last_update = none;
}

unfoldable pub add_consumed : ℕ → FlowControl → FlowControl
add_consumed n fc = record fc { consumed = fc.consumed + n }

-- `none` is the panic of a subtraction below 0.
unfoldable pub should_update_max_data : FlowControl → Option Bool
should_update_max_data fc =
    if ltb fc.max_data fc.consumed
    then none
    else some (ltb (fc.max_data - fc.consumed) (fc.window / 2))

unfoldable pub max_data_next : FlowControl → ℕ
max_data_next fc = fc.consumed + fc.window

unfoldable pub update_max_data : ℕ → FlowControl → FlowControl
unfolding max_data_next
update_max_data now fc = record fc { max_data = max_data_next fc; last_update = some now }

unfoldable pub autotune_window : ℕ → ℕ → FlowControl → FlowControl
autotune_window now rtt fc = elim fc.last_update [
  | none ↦ fc
  | some last ↦
      if ltb (now - last) (rtt * window_trigger_factor)
      then record fc { window = min (fc.window * window_increase_factor) fc.max_window }
      else fc
]

unfoldable pub ensure_window_lower_bound : ℕ → FlowControl → FlowControl
ensure_window_lower_bound min_window fc =
    if ltb fc.window min_window then record fc { window = min_window } else fc
