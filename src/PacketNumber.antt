-- ===== src/PacketNumber.antt =====
-- quiche/src/packet.rs: packet numbers on the wire, and the window that detects duplicates.
use quirl.Common.{
  ℕ, zero, suc, ◌+◌, ◌-◌, ◌*◌, ◌/◌, ◌%◌, ◌^◌, min, max, ltb, leb, ◌==◌, if◌then◌else◌, Bool, true,
  false, not, ◌&&◌, ◌||◌,
}
use quirl.Common.Exec.{Exec}
use quirl.Common.Result.{Result, ok, err, panic}
use quirl.Octets.{OctetsMut, BufferTooShortError, put_u8, put_u16, put_u24, put_u32}
pub mod Codec
pub mod Window
mod Tests

pub data Error : Type 0 where
  buffer_too_short invalid_packet : Error

-- `u64::BITS - n.leading_zeros()`: how many binary digits a 64-bit number has.
bit_length : ℕ → ℕ → ℕ
bit_length zero n = 0
bit_length (suc w) n = if n == 0 then 0 else suc (bit_length w (n / 2))

pub pkt_num_len : ℕ → ℕ → ℕ
unfolding bit_length
pkt_num_len pn largest_acked = (bit_length 64 (pn - largest_acked + 1) + 7) / 8

-- The low `8 * pn_len` bits of `expected_pn` are cleared, so that `|` with a truncated number, which
-- is below `pn_win`, is a sum.
pub decode_pkt_num : ℕ → ℕ → ℕ → ℕ
decode_pkt_num largest_pn truncated_pn pn_len =
    let expected_pn = largest_pn + 1 in
    let pn_win = 2 ^ (pn_len * 8) in
    let pn_hwin = pn_win / 2 in
    let candidate_pn = expected_pn / pn_win * pn_win + truncated_pn in
    if leb (candidate_pn + pn_hwin) expected_pn && ltb candidate_pn (2 ^ 62 - pn_win)
    then candidate_pn + pn_win
    else if ltb (expected_pn + pn_hwin) candidate_pn && leb pn_win candidate_pn
    then candidate_pn - pn_win
    else candidate_pn

-- `?` on a `put_u*`, whose slice is dropped.
from_octets : Result BufferTooShortError ℕ × OctetsMut → Result Error (Unit {0}) × OctetsMut
from_octets (ok _, b) = (ok tt, b)
from_octets (err _, b) = (err buffer_too_short, b)
from_octets (panic, b) = (panic, b)

pub encode_pkt_num : ℕ → ℕ → Exec OctetsMut Error (Unit {0})
unfolding from_octets
encode_pkt_num pn pn_len b =
    if pn_len == 1
    then from_octets (put_u8 (pn % 2 ^ 8) b)
    else if pn_len == 2
    then from_octets (put_u16 (pn % 2 ^ 16) b)
    else if pn_len == 3
    then from_octets (put_u24 (pn % 2 ^ 32) b)
    else if pn_len == 4
    then from_octets (put_u32 (pn % 2 ^ 32) b)
    else (err invalid_packet, b)

-- A `u128` is its bits, the lowest at 0; no bit is set from 128 on.
abbrev pub U128 : Type 0
U128 = ℕ → Bool

-- `w.checked_shl(n).unwrap_or(0)`
checked_shl_or_zero : U128 → ℕ → U128
checked_shl_or_zero w n k = leb n 127 && ltb k 128 && leb n k && w (k - n)

-- `w | 1 << n`
set_bit : U128 → ℕ → U128
set_bit w n k = k == n || w k

pub record PktNumWindow : Type 0 where
  pub lower : ℕ
  pub window : U128

abbrev pub default : PktNumWindow
default = record { lower = 0; window = λ _. false }

-- `saturating_add` stops at the largest u64.
pub upper : PktNumWindow → ℕ
upper w = min (w.lower + 128) (2 ^ 64 - 1) - 1

-- The shift of `insert` when the packet is on the right end of the window: `diff as u32` keeps the
-- low 32 bits of the distance.
slide : ℕ → PktNumWindow → PktNumWindow
unfolding upper checked_shl_or_zero
slide seq w =
    let diff = seq - upper w in
    if ltb (upper w) seq
    then record { lower = w.lower + diff; window = checked_shl_or_zero w.window (diff % 2 ^ 32) }
    else w

pub insert : ℕ → PktNumWindow → PktNumWindow
unfolding slide set_bit upper
insert seq w =
    if ltb seq w.lower
    then w
    else (let w' = slide seq w in record w' { window = set_bit w'.window (upper w' - seq) })

pub contains : ℕ → PktNumWindow → Bool
unfolding upper
contains seq w =
    if ltb (upper w) seq then false else if ltb seq w.lower then true else w.window (upper w - seq)
