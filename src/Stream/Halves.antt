-- ===== src/Stream/Halves.antt =====
-- RangeBuf::split_off of quiche/src/stream/mod.rs, for a buffer of which nothing is consumed.
use quirl.Stream.RangeBuf.{RangeBuf, split_off, is_empty, deref}
use quirl.Stream.RangeBuf as Chunk
use quirl.Stream.Split.{IsValid, split_bytes}
use quirl.Common.{ℕ, ◌+◌, ◌-◌, ◌≤◌, ◌≡◌, refl, ◌++◌, false, some, arith, ltb-false}

-- A buffer of which nothing is consumed.
pub record Fresh (b : RangeBuf) : Type 0 where
  pub valid : IsValid b
  pub untouched : b.pos ≡ b.start

pub ends : (b : RangeBuf) → Chunk.max_off b ≡ Chunk.off b + Chunk.len b
unfolding Chunk.max_off
ends b = refl

-- The two parts of a buffer of which nothing is consumed.
abbrev pub Halves : RangeBuf → ℕ → RangeBuf → RangeBuf → Type 0
Halves b at tail head =
    (split_off at b ≡ some (tail, head))
    × Fresh tail
    × Fresh head
    × (Chunk.off tail ≡ Chunk.off b + at)
    × (Chunk.len tail ≡ Chunk.len b - at)
    × (Chunk.off head ≡ Chunk.off b)
    × (Chunk.len head ≡ at)
    × (deref head ++ deref tail ≡ deref b)

pub halves :
    (b : RangeBuf) (at : ℕ)
    → Fresh b
    → at ≤ Chunk.len b
    → (tail : RangeBuf) × (head : RangeBuf) × Halves b at tail head
unfolding split_off Chunk.off Chunk.len
halves b at f h =
    let v : IsValid b = f.valid in
    let e : b.pos ≡ b.start = f.untouched in
    let room : at ≤ b.len = omega (arith, e) in
    rw (ltb-false b.len at room) (
      _,
      _,
      (
        refl,
        record {
          valid = omega (arith, v.begun, v.within, v.fits, v.placed, e);
          untouched = omega (arith, e);
        },
        record {
          valid = omega (arith, v.begun, v.within, v.fits, v.placed, e);
          untouched = omega (arith, e);
        },
        omega (arith, v.begun, v.within, v.fits, v.placed, e),
        omega (arith, v.begun, v.within, v.fits, v.placed, e),
        omega (arith, v.begun, v.within, v.fits, v.placed, e),
        omega (arith, v.begun, v.within, v.fits, v.placed, e),
        split_bytes at b false v room,
      ),
    )
