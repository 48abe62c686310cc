-- ===== src/FlowControl/Owner.antt =====
-- Who keeps a FlowControl of quiche/src/flowcontrol.rs, and the calls that quiche/src/lib.rs and
-- quiche/src/stream/recv_buf.rs make of it.
use quirl.Common.{ℕ, ◌+◌, ◌≤◌, ◌<◌, ◌≡◌, Bool, true, false, some}
use quirl.FlowControl.{
  FlowControl, new, add_consumed, should_update_max_data, update_max_data, autotune_window,
  ensure_window_lower_bound, max_data_next,
}

-- Who owns the limit: a stream's buffer, or the connection.
pub data Kind : Type 0 where
  stream connection : Kind

-- The limit, and the owner's note that it is to be raised.
pub record Owner : Type 0 where
  pub flow : FlowControl
  pub almost_full : Bool

abbrev pub start : ℕ → ℕ → ℕ → Owner
start max_data window max_window = record {
  flow = new max_data window max_window;
  almost_full = false;
}

abbrev pub marked : Owner → Owner
marked o = record o { almost_full = true }

-- The window is tuned, and then the limit is raised.
abbrev pub raised : ℕ → ℕ → Owner → Owner
raised now rtt o = record {
  flow = update_max_data now (autotune_window now rtt o.flow);
  almost_full = false;
}

-- One step of the owner, as the connection takes it: data within the limit is consumed; the note is
-- made where an update is due and where a frame that carried a limit was lost, and for the connection
-- whenever the limit of a stream is raised; the window is tuned, and the limit raised where the note
-- is there, by the connection after a test of its own. Where the frame finds no room only the window
-- is tuned. The connection keeps a lower bound of its window, here within its maximum.
pub data Step : Kind → Owner → Owner → Type 0 where
  consume :
      (k : Kind) (o : Owner) (n : ℕ)
      → o.flow.consumed + n ≤ o.flow.max_data
      → Step k o (record o { flow = add_consumed n o.flow })
  due : (k : Kind) (o : Owner) → should_update_max_data o.flow ≡ some true → Step k o (marked o)
  lost : (k : Kind) (o : Owner) (last : ℕ) → o.flow.last_update ≡ some last → Step k o (marked o)
  tune :
      (k : Kind) (o : Owner) (now rtt : ℕ)
      → Step k o (record o { flow = autotune_window now rtt o.flow })
  raise_stream : (o : Owner) (now rtt : ℕ) → o.almost_full ≡ true → Step stream o (raised now rtt o)
  follow : (o : Owner) → Step connection o (marked o)
  ensure :
      (o : Owner) (n : ℕ)
      → n ≤ o.flow.max_window
      → Step connection o (record o { flow = ensure_window_lower_bound n o.flow })
  raise_connection :
      (o : Owner) (now rtt : ℕ)
      → o.almost_full ≡ true
      → o.flow.max_data < max_data_next o.flow
      → Step connection o (raised now rtt o)

pub data Reach (k : Kind) (s : Owner) : Owner → Type 0 where
  here : Reach k s s
  next : {t u : Owner} → Reach k s t → Step k t u → Reach k s u
