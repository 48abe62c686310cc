-- ===== src/Fec/Budget.antt =====
-- quiche/src/fec: how much a scheduler may have sent when it asks for a repair symbol, and its alarm.
use quirl.Fec.{unset, Floats, Connection, NetPath}
use quirl.Fec.Background.{BackgroundFecScheduler}
use quirl.Fec.Background
use quirl.Fec.Bursts.{BurstsFecScheduler, SendingState, Env}
use quirl.Fec.Bursts
use quirl.Common.{
  ℕ, ◌-◌, ◌*◌, ◌≤◌, ◌<◌, ◌≡◌, sym, refl, min, max, leb, true, Option, none, some, arith, leb→le,
  Option-cases, inl, inr,
}

module _ (fl : Floats) where
  alarm_from :
      (now later : ℕ) (conn : Connection) (path : NetPath fl) (size : ℕ)
      (s : BackgroundFecScheduler) (o : Option ℕ) (w : ℕ)
      → Background.repair_symbol_required fl conn path size s ≡ true
      → Background.timeout
          (Background.should_send_repair fl unset now conn path size
            (record s { rs_triggering_time = o })).1
        ≡ some w
      → ((Background.should_send_repair fl unset now conn path size
            (record s { rs_triggering_time = o })).0
          ≡ leb w now)
        × ((Background.should_send_repair fl unset later conn path size
              (Background.should_send_repair fl unset now conn path size
                (record s { rs_triggering_time = o })).1).0
            ≡ leb w later)
  unfolding Background.should_send_repair Background.read_delaying_duration
      Background.repair_symbol_required Background.start_delaying Background.waited_enough
      Background.timeout
  alarm_from now later conn path size s none w h = rw h (ground arith)
  alarm_from now later conn path size s (some t) w h = rw h (ground arith)

  -- The alarm of a scheduler that may send is the time of its answer: the call that sets it finds a
  -- symbol due exactly if the alarm has passed, and so does the next call, whenever it comes.
  pub background_alarm :
      (now later : ℕ) (conn : Connection) (path : NetPath fl) (size : ℕ)
      (s : BackgroundFecScheduler) (w : ℕ)
      → Background.repair_symbol_required fl conn path size s ≡ true
      → Background.timeout (Background.should_send_repair fl unset now conn path size s).1 ≡ some w
      → ((Background.should_send_repair fl unset now conn path size s).0 ≡ leb w now)
        × ((Background.should_send_repair fl unset later conn path size
              (Background.should_send_repair fl unset now conn path size s).1).0
            ≡ leb w later)
  background_alarm now later conn path size s w h =
      alarm_from now later conn path size s s.rs_triggering_time w h

  bursts_max :
      (env : Env fl) (path : NetPath fl) (size bytes amount : ℕ)
      → Bursts.max_repair_data fl env path size bytes ≡ some amount
      → amount ≤ bytes
  unfolding Bursts.max_repair_data
  bursts_max env path size bytes amount h = ground arith

  -- What a round that goes on or begins is allowed to send.
  abbrev budget : Option SendingState → ℕ
  budget none = 0
  budget (some st) = st.repair_bytes_to_send

  next_sending-budget :
      (env : Env fl) (now : ℕ) (conn : Connection) (size : ℕ) (old : Option SendingState)
      (burst : ℕ)
      → budget (Bursts.next_sending fl env now conn size old burst) ≤ budget old
  unfolding Bursts.next_sending Bursts.begin_sending Bursts.keep_sending Bursts.clear_finished
  next_sending-budget env now conn size old burst = ground arith

  update_budget_le :
      (env : Env fl) (path : NetPath fl) (size n_source : ℕ) (st st' : Option SendingState)
      → Bursts.update_budget fl env path size n_source st ≡ some st'
      → budget st' ≤ max (budget st) (min path.bif (n_source * size))
  unfolding Bursts.update_budget Bursts.raise_budget
  update_budget_le env path size n_source none st' h = ground arith
  update_budget_le env path size n_source (some st) st' h =
      elim (Option-cases
        (Bursts.max_repair_data fl env path size (min path.bif (n_source * size)))) [
          | inl e ↦ ground arith
          | inr (d, e) ↦
              ground (arith, bursts_max env path size (min path.bif (n_source * size)) d e)
        ]

  mark_idle-kept :
      (conn : Connection) (s : BurstsFecScheduler)
      → (Bursts.mark_idle fl conn s).state_sending_repair ≡ s.state_sending_repair
  unfolding Bursts.mark_idle
  mark_idle-kept conn s = ground arith

  -- What an answer promises about the round kept beside it.
  abbrev pub DueNow : ℕ → ℕ → ℕ → Option SendingState → Type 0
  DueNow now size most none = ⊥
  DueNow now size most (some st) =
      (st.when ≤ now)
      × (st.repair_symbols_sent * size < st.repair_bytes_to_send)
      × (st.repair_bytes_to_send ≤ most)

  decide_due :
      (now : ℕ) (conn : Connection) (size : ℕ) (s s' : BurstsFecScheduler)
      → Bursts.decide fl now conn size s ≡ (true, s')
      → (Bursts.is_due now size s.state_sending_repair ≡ true)
        × (s'.state_sending_repair ≡ s.state_sending_repair)
  unfolding Bursts.decide
  decide_due now conn size s s' h = ground arith

  due_now :
      (now size most : ℕ) (o : Option SendingState)
      → Bursts.is_due now size o ≡ true
      → budget o ≤ most
      → DueNow now size most o
  unfolding Bursts.is_due
  due_now now size most none h le = ground arith
  due_now now size most (some st) h le = ground (arith, leb→le st.when now)

  answer_due :
      (now : ℕ) (conn : Connection) (size most : ℕ) (o : Option SendingState)
      (s s' : BurstsFecScheduler)
      → s.state_sending_repair ≡ o
      → budget o ≤ most
      → Bursts.decide fl now conn size (Bursts.mark_idle fl conn s) ≡ (true, s')
      → DueNow now size most s'.state_sending_repair
  answer_due now conn size most o s s' e le h =
      let (d, k) = decide_due now conn size (Bursts.mark_idle fl conn s) s' h in
      rw (k, mark_idle-kept conn s, e)
        (due_now now size most o (rw (sym e, sym (mark_idle-kept conn s)) d) le)

  -- When a repair symbol is asked for, a round is under way whose time has come and whose bytes are
  -- not all sent; they are at most what the round had before or, if that is more, what is to protect:
  -- the bytes in flight, and the source symbols since the last repair symbol.
  pub bursts_budget :
      (env : Env fl) (now : ℕ) (conn : Connection) (path : NetPath fl) (size : ℕ)
      (s s' : BurstsFecScheduler)
      → Bursts.should_send_repair fl env now conn path size s ≡ some (true, s')
      → DueNow now size
          (max
            (budget s.state_sending_repair)
            (min path.bif (s.n_source_symbols_sent_since_last_repair * size)))
          s'.state_sending_repair
  unfolding Bursts.should_send_repair
  bursts_budget env now conn path size s s' h =
      let burst = conn.tx_data - s.n_sent_stream_bytes_sent_when_nothing_to_send in
      let st = Bursts.next_sending fl env now conn size s.state_sending_repair burst in
      let n_source = s.n_source_symbols_sent_since_last_repair in
      elim (Option-cases (Bursts.update_budget fl env path size n_source st)) [
        | inl e ↦ absurd (ground arith)
        | inr (o, e) ↦
            answer_due now conn size _ o
              (record s { current_burst_size = burst; state_sending_repair = o }) s' refl
              (omega (
                arith,
                update_budget_le env path size n_source st o e,
                next_sending-budget env now conn size s.state_sending_repair burst,
              ))
              (ground arith)
      ]
