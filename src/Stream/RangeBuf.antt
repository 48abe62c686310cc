-- ===== src/Stream/RangeBuf.antt =====
-- RangeBuf of quiche/src/stream/mod.rs: a part of a shared vector of bytes (`vec`, the field `data`), from `pos` up to
-- `start + len`, at its place in a stream. No subtraction below goes under 0 for a buffer that
-- `from` made and the other methods changed: `start` is at most `pos` and `off`, and `pos` at most
-- `start + len`.
use quirl.Common.{
  ℕ, ◌+◌, ◌-◌, min, max, List, ltb, ◌==◌, if◌then◌else◌, length, take, drop, Bool, false, Option,
  none, some,
}

pub record RangeBuf : Type 0 where
  pub vec : List ℕ
  pub start : ℕ
  pub pos : ℕ
  pub len : ℕ
  pub off : ℕ
  pub fin : Bool

unfoldable pub from : List ℕ → ℕ → Bool → RangeBuf
from buf off fin = record { vec = buf; start = 0; pos = 0; len = length buf; off = off; fin = fin }

unfoldable pub off : RangeBuf → ℕ
off b = b.off - b.start + b.pos

unfoldable pub len : RangeBuf → ℕ
len b = b.len - (b.pos - b.start)

unfoldable pub max_off : RangeBuf → ℕ
unfolding off len
max_off b = off b + len b

unfoldable pub is_empty : RangeBuf → Bool
unfolding len
is_empty b = len b == 0

unfoldable pub consume : ℕ → RangeBuf → RangeBuf
consume count b = record b { pos = b.pos + count }

-- The part from `at` on, and what is left of the buffer; `none` is the failed assertion.
unfoldable pub split_off : ℕ → RangeBuf → Option (RangeBuf × RangeBuf)
split_off at b =
    if ltb b.len at
    then none
    else some (
      record b {
        start = b.start + at;
        pos = max b.pos (b.start + at);
        len = b.len - at;
        off = b.off + at;
      },
      record b { pos = min b.pos (b.start + at); len = at; fin = false },
    )

-- `&data[pos..start + len]`
unfoldable pub deref : RangeBuf → List ℕ
deref b = take (b.start + b.len - b.pos) (drop b.pos b.vec)
