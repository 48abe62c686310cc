-- ===== src/FlowControl/Limits.antt =====
-- FlowControl of quiche/src/flowcontrol.rs: its limit, over every order of the calls.
use quirl.Common.{
  ℕ, ◌+◌, ◌-◌, ◌*◌, ◌/◌, ◌≤◌, min, ltb, ◌≡◌, refl, arith, Bool, true, none, some, Option,
  if◌then◌else◌, if_elim, sym, ◌∙◌,
}
use quirl.FlowControl.{
  FlowControl, new, add_consumed, should_update_max_data, update_max_data, autotune_window,
  ensure_window_lower_bound, max_data_next, window_trigger_factor, window_increase_factor,
}
use quirl.FlowControl.Owner.{
  Kind, stream, connection, Owner, start, marked, raised, Step, consume, due, lost, tune,
  raise_stream, follow, ensure, raise_connection, Reach, here, next,
}

-- No more was consumed than was allowed, and neither the allowance nor the count has fallen.
pub record Within (s t : FlowControl) : Type 0 where
  pub consumed : t.consumed ≤ t.max_data
  pub granted : s.max_data ≤ t.max_data
  pub taken : s.consumed ≤ t.consumed

-- A stream's limit is raised without a test; that this does not lower it hangs on the note.
abbrev NotLowered : Kind → Owner → Type 0
NotLowered stream o =
    (o.almost_full ≡ true → o.flow.max_data ≤ o.flow.consumed + o.flow.window)
    × ((last : ℕ)
        → o.flow.last_update ≡ some last
        → o.flow.max_data ≤ o.flow.consumed + o.flow.window)
NotLowered connection o = Unit

record Good (k : Kind) (o : Owner) : Type 0 where
  consumed : o.flow.consumed ≤ o.flow.max_data
  window : o.flow.window ≤ o.flow.max_window
  not_lowered : NotLowered k o

-- What one step keeps, and what grows.
record Moved (k : Kind) (o p : Owner) : Type 0 where
  good : Good k p
  granted : o.flow.max_data ≤ p.flow.max_data
  taken : o.flow.consumed ≤ p.flow.consumed

record Tuned (fc gc : FlowControl) : Type 0 where
  consumed : gc.consumed ≡ fc.consumed
  max_data : gc.max_data ≡ fc.max_data
  max_window : gc.max_window ≡ fc.max_window
  last_update : gc.last_update ≡ fc.last_update
  grown : fc.window ≤ gc.window
  within : gc.window ≤ gc.max_window

autotune-Tuned :
    (now rtt : ℕ) (fc : FlowControl)
    → fc.window ≤ fc.max_window
    → Tuned fc (autotune_window now rtt fc)
unfolding autotune_window
autotune-Tuned now rtt fc h = by_last fc.last_update refl
  where
    same : Tuned fc fc
    same = record {
      consumed = refl;
      max_data = refl;
      max_window = refl;
      last_update = refl;
      grown = omega arith;
      within = h;
    }

    by_last :
        (o : Option ℕ)
        → fc.last_update ≡ o
        → Tuned fc (elim o [
          | none ↦ fc
          | some last ↦
              if ltb (now - last) (rtt * window_trigger_factor)
              then record fc { window = min (fc.window * window_increase_factor) fc.max_window }
              else fc
        ])
    by_last none e = same
    by_last (some last) e =
        if_elim (Tuned fc) (ltb (now - last) (rtt * window_trigger_factor))
          (λ _. record {
            consumed = refl;
            max_data = refl;
            max_window = refl;
            last_update = refl;
            grown = omega arith;
            within = omega arith;
          })
          (λ _. same)

raised-Moved :
    (k : Kind) (o : Owner) (now rtt : ℕ)
    → Good k o
    → o.flow.max_data ≤ o.flow.consumed + o.flow.window
    → Moved k o (raised now rtt o)
unfolding update_max_data
raised-Moved k o now rtt g h =
    let t = autotune-Tuned now rtt o.flow g.window in
    record {
      good = record { consumed = omega arith; window = t.within; not_lowered = settled k };
      granted = omega (arith, t.consumed, t.grown);
      taken = omega (arith, t.consumed);
    }
  where
    settled : (k : Kind) → NotLowered k (raised now rtt o)
    settled stream = (λ e. omega arith, λ last e. omega arith)
    settled connection = tt

Step-Moved : {k : Kind} {o p : Owner} → Step k o p → Good k o → Moved k o p
unfolding add_consumed should_update_max_data ensure_window_lower_bound
Step-Moved (consume k o n h) g = record {
  good = record { consumed = omega arith; window = g.window; not_lowered = kept k g.not_lowered };
  granted = omega arith;
  taken = omega arith;
}
  where
    kept : (k : Kind) → NotLowered k o → NotLowered k (record o { flow = add_consumed n o.flow })
    kept stream (a, b) = (λ e. omega (arith, a e), λ last e. omega (arith, b last e))
    kept connection u = tt
Step-Moved (due k o h) g = record {
  good = record { consumed = g.consumed; window = g.window; not_lowered = noted k g.not_lowered };
  granted = omega arith;
  taken = omega arith;
}
  where
    noted : (k : Kind) → NotLowered k o → NotLowered k (marked o)
    noted stream (a, b) = (λ e. ground arith, b)
    noted connection u = tt
Step-Moved (lost k o last h) g = record {
  good = record { consumed = g.consumed; window = g.window; not_lowered = noted k g.not_lowered };
  granted = omega arith;
  taken = omega arith;
}
  where
    noted : (k : Kind) → NotLowered k o → NotLowered k (marked o)
    noted stream (a, b) = (λ e. b last h, b)
    noted connection u = tt
Step-Moved (tune k o now rtt) g =
    let t = autotune-Tuned now rtt o.flow g.window in
    record {
      good = record {
        consumed = omega (arith, t.consumed, t.max_data, g.consumed);
        window = t.within;
        not_lowered = kept t k g.not_lowered;
      };
      granted = omega (arith, t.max_data);
      taken = omega (arith, t.consumed);
    }
  where
    kept :
        Tuned o.flow (autotune_window now rtt o.flow)
        → (k : Kind) → NotLowered k o
        → NotLowered k (record o { flow = autotune_window now rtt o.flow })
    kept t stream (a, b) = (
      λ e. omega (arith, a e, t.consumed, t.max_data, t.grown),
      λ last e. omega (arith, b last (sym t.last_update ∙ e), t.consumed, t.max_data, t.grown),
    )
    kept t connection u = tt
Step-Moved (raise_stream o now rtt h) g = raised-Moved stream o now rtt g (g.not_lowered.0 h)
Step-Moved (follow o) g = record {
  good = record { consumed = g.consumed; window = g.window; not_lowered = tt };
  granted = omega arith;
  taken = omega arith;
}
Step-Moved (ensure o n h) g = record {
  good = record {
    consumed = ground (arith, g.consumed);
    window = ground (arith, g.window);
    not_lowered = tt;
  };
  granted = ground arith;
  taken = ground arith;
}
Step-Moved (raise_connection o now rtt e h) g =
    raised-Moved connection o now rtt g (unfold max_data_next in (omega (arith, h)))

start-Good :
    (k : Kind) (max_data window max_window : ℕ)
    → window ≤ max_window
    → Good k (start max_data window max_window)
unfolding new
start-Good k max_data window max_window h = record {
  consumed = omega arith;
  window = h;
  not_lowered = fresh k;
}
  where
    fresh : (k : Kind) → NotLowered k (start max_data window max_window)
    fresh stream = (λ e. cc, λ last e. cc)
    fresh connection = tt

Reach-Good : {k : Kind} {s t : Owner} → Reach k s t → Good k s → Good k t
Reach-Good here g = g
Reach-Good (next r st) g = (Step-Moved st (Reach-Good r g)).good

Reach-Moved : {k : Kind} {s t : Owner} → Reach k s t → Good k s → Moved k s t
Reach-Moved here g = record { good = g; granted = omega arith; taken = omega arith }
Reach-Moved (next r st) g =
    let m = Reach-Moved r g in
    let n = Step-Moved st m.good in
    record {
      good = n.good;
      granted = omega (arith, m.granted, n.granted);
      taken = omega (arith, m.taken, n.taken);
    }

-- The limit of a stream or of the connection, from a new one whose window is within its maximum, where
-- the lower bounds asked for are too, after any calls that the connection makes: at any later time no
-- more was consumed than is allowed, and from one time to a later one neither the limit nor the count
-- of consumed bytes falls. The
-- connection tests before it tunes the window that the limit grows; a stream does not test at all.
pub Reach-Within :
    (k : Kind) (max_data window max_window : ℕ) {s t : Owner}
    → window ≤ max_window
    → Reach k (start max_data window max_window) s
    → Reach k s t
    → Within s.flow t.flow
Reach-Within k max_data window max_window h r q =
    let m = Reach-Moved q (Reach-Good r (start-Good k max_data window max_window h)) in
    record { consumed = m.good.consumed; granted = m.granted; taken = m.taken }

-- In such a state the test of whether an update is due does not panic.
pub should_update_max_data_total :
    (k : Kind) (max_data window max_window : ℕ) {t : Owner}
    → window ≤ max_window
    → Reach k (start max_data window max_window) t
    → (b : Bool) × (should_update_max_data t.flow ≡ some b)
should_update_max_data_total k d w m {t} h r =
    total t.flow (Reach-Good r (start-Good k d w m h)).consumed
  where
    total :
        (t : FlowControl)
        → t.consumed ≤ t.max_data
        → (b : Bool) × (should_update_max_data t ≡ some b)
    total t h = (
      ltb (t.max_data - t.consumed) (t.window / 2),
      unfold should_update_max_data in ground arith,
    )
