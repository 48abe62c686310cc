-- ===== src/Prr.antt =====
-- quiche/src/recovery/congestion/prr.rs: proportional rate reduction, RFC 6937.
use quirl.Common.{ℕ, ◌+◌, ◌-◌, ◌*◌, ◌/◌, min, max, ltb, if◌then◌else◌}
pub mod Budget
mod Tests

pub record Prr : Type 0 where
  pub prr_delivered : ℕ
  pub recoverfs : ℕ
  pub prr_out : ℕ
  pub snd_cnt : ℕ

unfoldable pub on_packet_sent : ℕ → Prr → Prr
on_packet_sent sent_bytes p = record p {
  prr_out = p.prr_out + sent_bytes;
  snd_cnt = p.snd_cnt - sent_bytes;
}

unfoldable pub congestion_event : ℕ → Prr → Prr
congestion_event bytes_in_flight p = record {
  prr_delivered = 0;
  recoverfs = bytes_in_flight;
  prr_out = 0;
  snd_cnt = 0;
}

unfoldable pub on_packet_acked : ℕ → ℕ → ℕ → ℕ → Prr → Prr
on_packet_acked delivered_data pipe ssthresh max_datagram_size p =
    let delivered = p.prr_delivered + delivered_data in
    let limit = max (delivered - p.prr_out) delivered_data + max_datagram_size in
    record p {
      prr_delivered = delivered;
      snd_cnt =
          max
            (if ltb ssthresh pipe
              then (if ltb 0 p.recoverfs
                  then (delivered * ssthresh + p.recoverfs - 1) / p.recoverfs - p.prr_out
                  else 0)
              else min (ssthresh - pipe) limit)
            0;
    }
