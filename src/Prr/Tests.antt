-- ===== src/Prr/Tests.antt =====
-- Runs of PRR, and the theorems at concrete inputs.
use quirl.Common.{◌+◌, ◌*◌, ◌≤◌, ◌<◌, ◌≡◌, refl, arith}
use quirl.Prr.{Prr, on_packet_sent, on_packet_acked}
use quirl.Prr.Budget.{on_packet_acked_above, on_packet_sent_lem}

abbrev recovering : Prr
recovering = record { prr_delivered = 4000; recoverfs = 10000; prr_out = 1000; snd_cnt = 500 }

acked : Prr
acked = on_packet_acked 1000 8000 5000 1200 recovering

acked_above : acked.snd_cnt ≡ 1500
unfolding acked on_packet_acked
acked_above = refl

on_packet_acked_above_example :
    (acked.prr_delivered * 5000 ≤ (acked.prr_out + acked.snd_cnt) * 10000)
    × (0 < acked.snd_cnt
        → (acked.prr_out + acked.snd_cnt) * 10000 < acked.prr_delivered * 5000 + 10000)
unfolding acked
on_packet_acked_above_example =
    on_packet_acked_above 1000 8000 5000 1200 recovering (omega arith) (omega arith)

on_packet_sent_lem_example :
    ((on_packet_sent 400 recovering).prr_out + (on_packet_sent 400 recovering).snd_cnt ≡ 1000 + 500)
    × ((on_packet_sent 400 recovering).prr_out ≡ 1000 + 400)
on_packet_sent_lem_example = on_packet_sent_lem 400 recovering (omega arith)
