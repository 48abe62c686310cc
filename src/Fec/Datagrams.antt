-- ===== src/Fec/Datagrams.antt =====
-- quiche/src/fec and dgram_max_writable_len of quiche/src/lib.rs: the schedulers towards a peer that
-- accepts DATAGRAM frames.
use quirl.Fec.{Var, Floats, Connection, NetPath, dgram_max_writable_len, is_some}
use quirl.Fec.Background.{BackgroundFecScheduler}
use quirl.Fec.Background
use quirl.Fec.Bursts.{BurstsFecScheduler, SendingState, Env}
use quirl.Fec.Bursts
use quirl.Fec.Scheduler.{
  FecScheduler, bursty, background_scheduler, no_scheduler, should_send_repair,
}
use quirl.Common.{ℕ, ◌+◌, ◌-◌, ◌≤◌, ◌≡◌, refl, true, false, none, some, arith, ltb-false}

writable_some :
    (peer udp dcid overhead : ℕ)
    → 3 ≤ peer
    → 8 + dcid + overhead ≤ udp
    → is_some (dgram_max_writable_len (some peer) udp dcid (some overhead)) ≡ true
unfolding dgram_max_writable_len
writable_some peer udp dcid overhead p q = ground arith

-- No sending round is open, and the bytes sent were not fewer before.
abbrev pub NoRound : Connection → FecScheduler → Type 0
NoRound conn no_scheduler = Unit {0}
NoRound conn (background_scheduler s) = Unit {0}
NoRound conn (bursty s) =
    (s.state_sending_repair ≡ none)
    × (s.n_sent_stream_bytes_sent_when_nothing_to_send ≤ conn.tx_data)

module _ (fl : Floats) (v : Var ℕ) (env : Env fl) (now : ℕ) (conn : Connection) (path : NetPath fl)
    (size : ℕ) where
  background_silent :
      (s : BackgroundFecScheduler)
      → is_some conn.dgram_max_writable_len ≡ true
      → (Background.should_send_repair fl v now conn path size s).0 ≡ false
  unfolding Background.should_send_repair Background.repair_symbol_required
  background_silent s h = ground arith

  no_next_sending :
      (burst : ℕ)
      → is_some conn.dgram_max_writable_len ≡ true
      → Bursts.next_sending fl env now conn size none burst ≡ none
  unfolding Bursts.next_sending Bursts.is_idle Bursts.keep_sending Bursts.clear_finished
  no_next_sending burst h = ground arith

  bursts_silent :
      (s : BurstsFecScheduler)
      → is_some conn.dgram_max_writable_len ≡ true
      → NoRound conn (bursty s)
      → (s' : BurstsFecScheduler) × (Bursts.should_send_repair fl env now conn path size s
          ≡ some (false, s'))
        × NoRound conn (bursty s')
  unfolding Bursts.should_send_repair Bursts.update_budget Bursts.decide Bursts.is_due
      Bursts.mark_idle Bursts.is_idle
  bursts_silent s h (e, le) =
      rw
        (
          ltb-false conn.tx_data s.n_sent_stream_bytes_sent_when_nothing_to_send le,
          e,
          no_next_sending (conn.tx_data - s.n_sent_stream_bytes_sent_when_nothing_to_send) h,
          h,
        )
        (_, refl, (refl, le))

  -- To a peer that takes frames of three bytes or more, in packets with room for them, no scheduler
  -- without an open round sends a repair symbol, idle or not, and none opens a round.
  pub silent_with_datagrams :
      (peer udp dcid overhead : ℕ) (s : FecScheduler)
      → conn.dgram_max_writable_len ≡ dgram_max_writable_len (some peer) udp dcid (some overhead)
      → 3 ≤ peer
      → 8 + dcid + overhead ≤ udp
      → NoRound conn s
      → (s' : FecScheduler) × (should_send_repair fl v env now conn path size s ≡ some (false, s'))
        × NoRound conn s'
  unfolding should_send_repair
  silent_with_datagrams peer udp dcid overhead no_scheduler e p q n = (no_scheduler, refl, tt)
  silent_with_datagrams peer udp dcid overhead (background_scheduler s) e p q n =
      rw (background_silent s (rw e (writable_some peer udp dcid overhead p q))) (_, refl, tt)
  silent_with_datagrams peer udp dcid overhead (bursty s) e p q n =
      let (s', r, m) = bursts_silent s (rw e (writable_some peer udp dcid overhead p q)) n in
      rw (r, should_send_repair) (bursty s', refl, m)
