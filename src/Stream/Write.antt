-- ===== src/Stream/Write.antt =====
-- RecvBuf::write and reset, quiche/src/stream/recv_buf.rs: new data is cut where chunks have it already.
use quirl.Stream.RangeBuf.{RangeBuf, split_off, is_empty}
use quirl.Stream.RangeBuf as Chunk
use quirl.Stream.RecvBuf.{RecvBuf, Error, flow_control, final_size, max_data}
use quirl.Common.{
  ℕ, zero, suc, ◌+◌, ◌-◌, ◌*◌, max, List, [], ◌∷◌, ◌++◌, ltb, leb, ◌==◌, ◌&&◌, ◌||◌, not,
  if◌then◌else◌, Bool, true, false, Option, none, some,
}
use quirl.Common.Result.{Result, ok, err, panic}

abbrev pub Chunks : Type 0
Chunks = List (ℕ × RangeBuf)

-- `data.range(key..)`
unfoldable pub range_from : ℕ → Chunks → Chunks
range_from key [] = []
range_from key ((k, b) ∷ rest) = if ltb k key then range_from key rest else (k, b) ∷ rest

-- `data.insert(key, buf)`
unfoldable pub insert_chunk : ℕ → RangeBuf → Chunks → Chunks
insert_chunk key buf [] = (key, buf) ∷ []
insert_chunk key buf ((k, b) ∷ rest) =
    if ltb key k
    then (key, buf) ∷ (k, b) ∷ rest
    else if key == k
    then (key, buf) ∷ rest
    else (k, b) ∷ insert_chunk key buf rest

-- What the loop over the chunks leaves of a buffer: nothing (`continue 'tmp`), or what is to be
-- stored; beside it the queue `tmp_bufs`. The last is the failed assertion of split_off.
pub data Overlap : Type 0 where
  contained : (tmp_bufs : List RangeBuf) → Overlap
  remaining : (buf : RangeBuf) (tmp_bufs : List RangeBuf) → Overlap
  failed : Overlap

-- The loop over the chunks, from the first that can overlap.
unfoldable pub overlap_loop : Chunks → RangeBuf → List RangeBuf → Overlap
overlap_loop [] buf tmp_bufs = remaining buf tmp_bufs
overlap_loop ((k, b) ∷ rest) buf tmp_bufs =
    let off = Chunk.off buf in
    if ltb (Chunk.max_off buf) (Chunk.off b)
    then remaining buf tmp_bufs
    else if leb (Chunk.off b) off && leb (Chunk.max_off buf) (Chunk.max_off b)
    then contained tmp_bufs
    else if leb (Chunk.off b) off && ltb off (Chunk.max_off b)
    then elim (split_off (Chunk.max_off b - off) buf) [
      | none ↦ failed
      | some (tail, head) ↦ overlap_loop rest tail tmp_bufs
    ]
    else if ltb off (Chunk.off b) && ltb (Chunk.off b) (Chunk.max_off buf)
    then elim (split_off (Chunk.off b - off) buf) [
      | none ↦ failed
      | some (tail, head) ↦ overlap_loop rest head (tmp_bufs ++ (tail ∷ []))
    ]
    else overlap_loop rest buf tmp_bufs

-- What is below the place of the next byte to read is cut off.
unfoldable pub cut_front : ℕ → RangeBuf → Option RangeBuf
cut_front front buf =
    if ltb (Chunk.off buf) front
    then elim (split_off (front - Chunk.off buf) buf) [
      | none ↦ none
      | some (tail, head) ↦ some tail
    ]
    else some buf

unfoldable pub overlap : RecvBuf → RangeBuf → List RangeBuf → Overlap
unfolding overlap_loop range_from
overlap s buf tmp_bufs =
    if ltb (Chunk.off buf) s.len || is_empty buf
    then overlap_loop (range_from (Chunk.off buf) s.chunks) buf tmp_bufs
    else remaining buf tmp_bufs

unfoldable pub store : RangeBuf → RecvBuf → RecvBuf
unfolding insert_chunk
store buf s = record s {
  len = max s.len (Chunk.max_off buf);
  chunks = if s.drain then s.chunks else insert_chunk (Chunk.max_off buf) buf s.chunks;
}

-- The loop over `tmp_bufs`. A split makes two parts that are not empty of one, so twice the length of
-- the first buffer and one are rounds enough (`write_loop_lem`); a panic is also given when the fuel
-- ends.
unfoldable pub write_loop : ℕ → List RangeBuf → RecvBuf → Result Error (Unit {0}) × RecvBuf
unfolding cut_front overlap store
write_loop fuel [] s = (ok tt, s)
write_loop zero (buf ∷ tmp_bufs) s = (panic, s)
write_loop (suc fuel) (buf ∷ tmp_bufs) s = elim (cut_front s.off buf) [
  | none ↦ (panic, s)
  | some buf' ↦ elim (overlap s buf' tmp_bufs) [
    | contained tmp_bufs' ↦ write_loop fuel tmp_bufs' s
    | remaining buf'' tmp_bufs' ↦ write_loop fuel tmp_bufs' (store buf'' s)
    | failed ↦ (panic, s)
  ]
]

-- The conditions for an error of the final size.
unfoldable pub breaks_size : RangeBuf → RecvBuf → Bool
breaks_size buf s =
    elim s.fin_off [
      | none ↦ false
      | some fin_off ↦
          ltb fin_off (Chunk.max_off buf) || (buf.fin && not (fin_off == Chunk.max_off buf))
    ]
    || (buf.fin && ltb (Chunk.max_off buf) s.len)

unfoldable pub is_some : Option ℕ → Bool
is_some none = false
is_some (some x) = true

unfoldable pub save_size : RangeBuf → RecvBuf → RecvBuf
save_size buf s = record s { fin_off = if buf.fin then some (Chunk.max_off buf) else s.fin_off }

-- The rest of the method, after its errors.
unfoldable pub accept : RangeBuf → RecvBuf → Result Error (Unit {0}) × RecvBuf
unfolding is_some save_size write_loop
accept buf s =
    if is_some s.fin_off && is_empty buf
    then (ok tt, s)
    else if not buf.fin && is_empty buf
    then (ok tt, s)
    else if leb (Chunk.max_off buf) s.off && not (is_empty buf)
    then (ok tt, save_size buf s)
    else write_loop (2 * Chunk.len buf + 1) (buf ∷ []) (save_size buf s)

unfoldable pub write : RangeBuf → RecvBuf → Result Error (Unit {0}) × RecvBuf
unfolding breaks_size accept
write buf s =
    if ltb (max_data s) (Chunk.max_off buf)
    then (err flow_control, s)
    else if breaks_size buf s
    then (err final_size, s)
    else accept buf s

-- The result of `write` passed on by `?`, with the bytes to take off the connection's limit.
unfoldable pub answer_reset : ℕ → Result Error (Unit {0}) × RecvBuf → Result Error ℕ × RecvBuf
answer_reset delta (ok x, s) = (ok delta, s)
answer_reset delta (err e, s) = (err e, s)
answer_reset delta (panic, s) = (panic, s)

-- A known final size that is another.
abbrev pub other_size : ℕ → Option ℕ → Bool
other_size size none = false
other_size size (some fin_off) = not (fin_off == size)

unfoldable pub reset : ℕ → ℕ → RecvBuf → Result Error ℕ × RecvBuf
unfolding write answer_reset is_some
reset error_code size s =
    if other_size size s.fin_off
    then (err final_size, s)
    else if ltb size s.len
    then (err final_size, s)
    else if is_some s.error
    then (ok (size - s.len), s)
    else answer_reset (size - s.len) (
        write (Chunk.from [] size true)
          (record s { error = some error_code; off = size; chunks = [] }))
