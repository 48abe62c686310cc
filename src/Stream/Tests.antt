-- ===== src/Stream/Tests.antt =====
-- A receive buffer at a concrete input.
use quirl.Stream.RangeBuf.{RangeBuf, from, deref, consume}
use quirl.Stream.RangeBuf as Chunk
use quirl.Stream.RecvBuf.{RecvBuf, emit, emit_loop, ready, max_data, flow_control, final_size}
use quirl.Stream.RangeBuf.{split_off, is_empty}
use quirl.Stream.Write.{
  write, accept, breaks_size, is_some, save_size, write_loop, cut_front, overlap, overlap_loop,
  range_from, store, insert_chunk, reset,
}
use quirl.Stream.Accept.{IsValid, Accepted, write_lem}
use quirl.Stream.Apart.{Ordered}
use quirl.Stream.Bytes.{has, byte, byte_at}
use quirl.Stream.Union.{over, write-eq-over}
use quirl.Stream.Reset.{cleared_at, reset_at, changes_size, reset_lem}
use quirl.Stream.Split.{from-IsValid}
use quirl.Stream.Read.{Taken, contiguous, emit_lem}
use quirl.Common.Result.{ok, err}
use quirl.Common.{ltb, not, ◌||◌, if◌then◌else◌, arith, [], ◌∷◌, ◌≡◌, refl, true, false, none, some}

abbrev waiting : RecvBuf
waiting = record {
  chunks = (5, from (1 ∷ 2 ∷ 3 ∷ 4 ∷ 5 ∷ []) 0 false) ∷ (8, from (6 ∷ 7 ∷ 8 ∷ []) 5 true) ∷ [];
  off = 0;
  len = 8;
  flow_control = record {
    consumed = 0;
    max_data = 100;
    window = 100;
    max_window = 1000;
    last_update = none;
  };
  fin_off = some 8;
  error = none;
  drain = false;
}

read_six : (emit (0 ∷ 0 ∷ 0 ∷ 0 ∷ 0 ∷ 0 ∷ []) waiting).1 ≡ 1 ∷ 2 ∷ 3 ∷ 4 ∷ 5 ∷ 6 ∷ []
unfolding emit emit_loop deref Chunk.off Chunk.len from
read_six = refl

emit_lem_example :
    Taken (0 ∷ 0 ∷ 0 ∷ 0 ∷ 0 ∷ 0 ∷ []) waiting (emit (0 ∷ 0 ∷ 0 ∷ 0 ∷ 0 ∷ 0 ∷ []) waiting)
unfolding ready Chunk.off from
emit_lem_example =
    emit_lem (0 ∷ 0 ∷ 0 ∷ 0 ∷ 0 ∷ 0 ∷ []) waiting
      (from-IsValid (1 ∷ 2 ∷ 3 ∷ 4 ∷ 5 ∷ []) 0 false, (from-IsValid (6 ∷ 7 ∷ 8 ∷ []) 5 true, tt))
      refl refl

-- A chunk in the middle, with nothing read yet.
abbrev middle : RecvBuf
middle = record waiting {
  chunks = (6, from (4 ∷ 5 ∷ 6 ∷ []) 3 false) ∷ [];
  len = 6;
  fin_off = none;
}

abbrev around : RangeBuf
around = from (1 ∷ 2 ∷ 3 ∷ 9 ∷ 9 ∷ 9 ∷ 7 ∷ 8 ∷ []) 0 true

-- What is there already is kept, and the rest is stored on both sides of it.
written_around : contiguous (write around middle).1.chunks 0 ≡ 1 ∷ 2 ∷ 3 ∷ 4 ∷ 5 ∷ 6 ∷ 7 ∷ 8 ∷ []
unfolding write accept breaks_size is_some save_size write_loop cut_front overlap overlap_loop
    range_from store insert_chunk max_data Chunk.off Chunk.len Chunk.max_off is_empty split_off
    deref from
written_around = refl

middle-IsValid : IsValid middle
unfolding Chunk.off Chunk.len Chunk.max_off max_data from
middle-IsValid = record {
  read_part = omega arith;
  within = (omega arith, tt);
  known = tt;
  allowed = omega arith;
}

write_lem_example :
    if ltb (max_data middle) (Chunk.max_off around)
    then write around middle ≡ (err flow_control, middle)
    else if breaks_size around middle
    then write around middle ≡ (err final_size, middle)
    else Accepted around middle (write around middle)
unfolding from
write_lem_example =
    write_lem around middle
      (record {
        valid = from-IsValid (1 ∷ 2 ∷ 3 ∷ 9 ∷ 9 ∷ 9 ∷ 7 ∷ 8 ∷ []) 0 true;
        untouched = refl;
      })
      middle-IsValid

reset_lem_example :
    if changes_size 8 middle
    then reset 7 8 middle ≡ (err final_size, middle)
    else if is_some middle.error
    then reset 7 8 middle ≡ (ok 2, middle)
    else if ltb (max_data middle) 8
    then reset 7 8 middle ≡ (err flow_control, cleared_at 7 8 middle)
    else ((reset 7 8 middle ≡ (ok 2, reset_at 7 8 middle))
        × IsValid (reset_at 7 8 middle)
        × (ready (reset_at 7 8 middle) ≡ not (is_some middle.fin_off || middle.drain)))
reset_lem_example = reset_lem 7 8 middle middle-IsValid

write-eq-over_example :
    ((write around middle).0 ≡ ok tt)
    × Ordered 0 (write around middle).1.chunks
    × (byte_at (write around middle).1.chunks 4
        ≡ over middle.chunks 4 (has around 4) (byte around 4))
unfolding breaks_size Chunk.off Chunk.len Chunk.max_off max_data from
write-eq-over_example =
    write-eq-over around middle
      (record {
        valid = from-IsValid (1 ∷ 2 ∷ 3 ∷ 9 ∷ 9 ∷ 9 ∷ 7 ∷ 8 ∷ []) 0 true;
        untouched = refl;
      })
      middle-IsValid (omega arith, refl, tt) refl (omega arith) refl 4 (omega arith)
