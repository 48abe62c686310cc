-- ===== src/Stream/Complete.antt =====
-- SendBuf::is_complete of quiche/src/stream/send_buf.rs.
use quirl.Ranges
use quirl.Ranges.View
use quirl.Ranges.Union.{Covers}
use quirl.Ranges.Equal.{equals_lem}
use quirl.Stream.SendBuf.{SendBuf, is_complete}
use quirl.Common.{ℕ, ◌≤◌, ◌<◌, ◌≡◌, true, some, ◌↔◌}

-- With a final size above 0 and a valid set of acknowledged ranges: the sending side is complete exactly
-- if the peer has acknowledged every byte below the final size and none beyond.
pub is_complete_lem :
    (fin_off : ℕ) (s : SendBuf)
    → 0 < fin_off
    → Ranges.View.IsValid s.acked
    → s.fin_off ≡ some fin_off
    → (is_complete s ≡ true)
      ↔ ((x : ℕ) → Covers x (Ranges.iter s.acked) ↔ ((0 ≤ x) × (x < fin_off)))
unfolding is_complete
is_complete_lem fin_off s h v e = rw e (equals_lem 0 fin_off s.acked h v)
