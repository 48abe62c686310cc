-- ===== src/Stream/SendBuf.antt =====
-- quiche/src/stream/send_buf.rs: the data that the application wrote, until the peer has acknowledged it. `bufs` is
-- the queue `data`. None is a panic: an index out of range, a subtraction below 0 or the insertion
-- into the acknowledged ranges.
use quirl.Ranges.{RangeSet, default}
use quirl.Ranges
use quirl.Stream.RangeBuf.{RangeBuf, consume, deref, split_off, is_empty}
use quirl.Stream.RangeBuf as Chunk
use quirl.Common.{
  ℕ, zero, suc, ◌+◌, ◌-◌, min, max, List, [], ◌∷◌, ◌++◌, ltb, leb, ◌==◌, ◌&&◌, ◌||◌, not,
  if◌then◌else◌, length, get_elem?, set, take, drop, Bool, true, false, Option, none, some,
}
use quirl.Common.Result.{Result, ok, err, panic}

pub data Error : Type 0 where
  final_size done : Error
  stream_stopped : ℕ → Error

abbrev pub send_buffer_size : ℕ
send_buffer_size = 4096

pub record SendBuf : Type 0 where
  pub bufs : List RangeBuf
  pub pos : ℕ
  pub off : ℕ
  pub emit_off : ℕ
  pub len : ℕ
  pub max_data : ℕ
  pub blocked_at : Option ℕ
  pub fin_off : Option ℕ
  pub shut : Bool
  pub acked : RangeSet
  pub error : Option ℕ

unfoldable pub new : ℕ → SendBuf
new max_data = record {
  bufs = [];
  pos = 0;
  off = 0;
  emit_off = 0;
  len = 0;
  max_data = max_data;
  blocked_at = none;
  fin_off = none;
  shut = false;
  acked = default;
  error = none;
}

-- The first range, if it begins at 0.
unfoldable pub first_end : List (ℕ × ℕ) → ℕ
first_end [] = 0
first_end ((s, e) ∷ rs) = if s == 0 then e else 0

unfoldable pub ack_off : SendBuf → ℕ
unfolding first_end
ack_off s = first_end (Ranges.iter s.acked)

unfoldable pub cap : SendBuf → Result Error ℕ
cap s = elim s.error [
  | some e ↦ err (stream_stopped e)
  | none ↦ if ltb s.max_data s.off then panic else ok (s.max_data - s.off)
]

-- The loop of `off_front`, over the buffers from `pos` on.
unfoldable pub front_of : ℕ → List RangeBuf → ℕ
front_of off [] = off
front_of off (b ∷ bs) = if is_empty b then front_of off bs else Chunk.off b

unfoldable pub off_front : SendBuf → ℕ
unfolding front_of
off_front s = front_of s.off (drop s.pos s.bufs)

-- `data.chunks(SEND_BUFFER_SIZE)`, with the bytes as fuel.
unfoldable pub chunks : ℕ → List ℕ → List (List ℕ)
chunks fuel [] = []
chunks zero (b ∷ bs) = []
chunks (suc fuel) (b ∷ bs) =
    take send_buffer_size (b ∷ bs) ∷ chunks fuel (drop send_buffer_size (b ∷ bs))

-- The loop over the chunks: `total` is the length of the data, `done` what was queued.
unfoldable pub push_loop : List (List ℕ) → ℕ → ℕ → Bool → SendBuf → ℕ × SendBuf
push_loop [] total len fin s = (len, s)
push_loop (chunk ∷ cs) total len fin s =
    let len' = len + length chunk in
    push_loop cs total len' fin (record s {
      bufs = s.bufs ++ (Chunk.from chunk s.off (len' == total && fin) ∷ []);
      off = s.off + length chunk;
      len = s.len + length chunk;
    })

-- The conditions for an error of the final size.
unfoldable pub past_final : Option ℕ → ℕ → Bool → Bool
past_final none max_off fin = false
past_final (some fin_off) max_off fin = ltb fin_off max_off || (max_off == fin_off && not fin)

-- The rest of `write`, with the data cut to the capacity.
unfoldable pub queue : List ℕ → Bool → ℕ → SendBuf → Result Error ℕ × SendBuf
unfolding past_final ack_off chunks push_loop
queue bytes fin max_off s =
    if past_final s.fin_off max_off fin
    then (err final_size, s)
    else (let s' = record s { fin_off = if fin then some max_off else s.fin_off } in
        if leb max_off (ack_off s') || length bytes == 0
        then (ok (length bytes), s')
        else (let (len, s'') = push_loop (chunks (length bytes) bytes) (length bytes) 0 fin s' in
            (ok len, s'')))

-- The cut to the capacity, which may be an error.
unfoldable pub write_within : List ℕ → Bool → SendBuf → Result Error ℕ → Result Error ℕ × SendBuf
unfolding queue
write_within bytes fin s (ok capacity) =
    if ltb capacity (length bytes)
    then queue (take capacity bytes) false (s.off + length bytes) s
    else queue bytes fin (s.off + length bytes) s
write_within bytes fin s (err e) = (err e, s)
write_within bytes fin s panic = (panic, s)

unfoldable pub write : List ℕ → Bool → SendBuf → Result Error ℕ × SendBuf
unfolding cap write_within
write bytes fin s = write_within bytes fin s (cap s)

-- `out[out_pos..out_pos + len].copy_from_slice(bytes)`
unfoldable pub copy_at : ℕ → List ℕ → List ℕ → List ℕ
copy_at out_pos bytes out = take out_pos out ++ bytes ++ drop (out_pos + length bytes) out

-- The variables of the loop of `emit`.
pub record Emitting : Type 0 where
  pub buf : SendBuf
  pub out : List ℕ
  pub out_len : ℕ
  pub next_off : ℕ

-- A round that copies from the buffer at `pos`; the flag tells whether the loop goes on.
unfoldable pub copy_from : ℕ → RangeBuf → Emitting → Bool × Emitting
unfolding copy_at
copy_from out_off b v =
    let buf_len = min (Chunk.len b) v.out_len in
    let partial = ltb buf_len (Chunk.len b) in
    (
      not partial,
      record {
        buf = record v.buf {
          bufs = set v.buf.bufs v.buf.pos (consume buf_len b);
          len = v.buf.len - buf_len;
          pos = if partial then v.buf.pos else v.buf.pos + 1;
        };
        out = copy_at (v.next_off - out_off) (take buf_len (deref b)) v.out;
        out_len = v.out_len - buf_len;
        next_off = Chunk.off b + buf_len;
      },
    )

-- The conditions that end the loop.
unfoldable pub stops : Emitting → Bool
unfolding off_front
stops v =
    v.out_len == 0
    || (length v.buf.bufs == 0
        || (leb v.buf.off (off_front v.buf)
            || (not (off_front v.buf == v.next_off) || leb v.buf.max_data (off_front v.buf))))

-- The round after those conditions.
unfoldable pub emit_round : ℕ → Emitting → Bool × Emitting
unfolding copy_from
emit_round out_off v = elim (get_elem? v.buf.bufs v.buf.pos) [
  | none ↦ (false, v)
  | some b ↦
      if is_empty b
      then (true, record v { buf = record v.buf { pos = v.buf.pos + 1 } })
      else copy_from out_off b v
]

-- After a round the loop goes on, or ends.
abbrev pub next_round : (Emitting → Emitting) → Bool × Emitting → Emitting
next_round go_on (true, v) = go_on v
next_round go_on (false, v) = v

-- The loop of `emit`. A round that does not end it moves `pos` on, so there are at most as many as
-- buffers.
unfoldable pub emit_loop : ℕ → ℕ → Emitting → Emitting
unfolding stops emit_round
emit_loop zero out_off v = v
emit_loop (suc fuel) out_off v = elim (stops v) [
  | true ↦ v
  | false ↦ next_round (emit_loop fuel out_off) (emit_round out_off v)
]

abbrev pub is_at : Option ℕ → ℕ → Bool
is_at none n = false
is_at (some m) n = m == n

-- The number of bytes, whether they end the stream, the output and the state.
unfoldable pub emit : List ℕ → SendBuf → (ℕ × Bool) × List ℕ × SendBuf
unfolding emit_loop
emit out s =
    let v =
      emit_loop (length s.bufs + 1) (off_front s)
        (record { buf = s; out = out; out_len = length out; next_off = off_front s }) in
    (
      (length v.out - v.out_len, is_at v.buf.fin_off v.next_off),
      v.out,
      record v.buf { emit_off = max v.buf.emit_off v.next_off },
    )

unfoldable pub update_max_data : ℕ → SendBuf → SendBuf
update_max_data max_data s = record s { max_data = max s.max_data max_data }

unfoldable pub update_blocked_at : Option ℕ → SendBuf → SendBuf
update_blocked_at blocked_at s = record s { blocked_at = blocked_at }

abbrev pub with_acked : SendBuf → Option RangeSet → Option SendBuf
with_acked s none = none
with_acked s (some acked) = some (record s { acked = acked })

unfoldable pub ack : ℕ → ℕ → SendBuf → Option SendBuf
ack off len s = with_acked s (Ranges.insert (off, off + len) s.acked)

-- The buffers at the front that lie below an offset. Their number is `drop_until + 1`.
unfoldable pub acked_front : ℕ → List RangeBuf → ℕ
acked_front ack_off [] = 0
acked_front ack_off (b ∷ bs) =
    let rest = acked_front ack_off bs in
    if leb ack_off b.off
    then 0
    else if ltb b.off ack_off && ltb ack_off (Chunk.max_off b)
    then 0
    else 1 + rest

unfoldable pub drop_acked : ℕ → SendBuf → SendBuf
unfolding ack_off acked_front
drop_acked off s =
    if length s.bufs == 0
    then s
    else if ltb (ack_off s) off
    then s
    else (let drop_len = acked_front (ack_off s) s.bufs in
        record s { bufs = drop drop_len s.bufs; pos = s.pos - drop_len })

abbrev pub and_drop : ℕ → Option SendBuf → Option SendBuf
and_drop off none = none
and_drop off (some s) = some (drop_acked off s)

unfoldable pub ack_and_drop : ℕ → ℕ → SendBuf → Option SendBuf
unfolding ack drop_acked
ack_and_drop off len s = and_drop off (ack off len s)

-- The new position of a buffer that is sent again from an offset.
unfoldable pub rewound : ℕ → RangeBuf → RangeBuf
rewound off b = record b {
  pos =
      if ltb b.off off && leb off (Chunk.max_off b)
      then min b.pos (b.start + (off - b.off))
      else b.start;
}

-- The change of the position, and the bytes that it adds.
unfoldable pub grown : ℕ → RangeBuf → List RangeBuf → Option (RangeBuf × List RangeBuf × ℕ)
unfolding rewound
grown off b new_buf =
    if ltb b.pos (rewound off b).pos
    then none
    else some (rewound off b, new_buf, b.pos - (rewound off b).pos)

-- The same for the first of two parts.
abbrev pub grown_head : ℕ → Option (RangeBuf × RangeBuf) → Option (RangeBuf × List RangeBuf × ℕ)
grown_head off none = none
grown_head off (some (new_buf, head)) = grown off head (new_buf ∷ [])

-- A buffer that is to be sent again from an offset up to another: the buffer, what is split off at
-- the end, and the number of bytes that it grows by.
unfoldable pub rewind : ℕ → ℕ → RangeBuf → Option (RangeBuf × List RangeBuf × ℕ)
unfolding split_off
rewind off max_off b =
    if ltb b.off max_off && ltb max_off (Chunk.max_off b)
    then grown_head off (split_off (max_off - b.off) b)
    else grown off b []

abbrev pub onto : RangeBuf → Option (List RangeBuf × ℕ × ℕ) → Option (List RangeBuf × ℕ × ℕ)
onto b none = none
onto b (some (bs, pos, len)) = some (b ∷ bs, pos, len)

-- The loop of `retransmit`, over the buffers from index `i` on, with the position and the length so
-- far. Its first argument counts the indices that are left; a buffer that was split off stands at the
-- next index.
unfoldable pub retransmit_loop :
    ℕ → ℕ → ℕ → ℕ → ℕ → ℕ → List RangeBuf → Option (List RangeBuf × ℕ × ℕ)
unfolding rewind
retransmit_loop zero off max_off i pos len bs = some (bs, pos, len)
retransmit_loop (suc n) off max_off i pos len [] = none
retransmit_loop (suc n) off max_off i pos len (b ∷ bs) = elim (leb max_off b.off) [
  | true ↦ some (b ∷ bs, pos, len)
  | false ↦ elim (ltb (Chunk.max_off b) off) [
    | true ↦ onto b (retransmit_loop n off max_off (i + 1) pos len bs)
    | false ↦ elim (rewind off max_off b) [
      | none ↦ none
      | some (b', new_buf, more) ↦
          onto b' (retransmit_loop n off max_off (i + 1) (min pos i) (len + more) (new_buf ++ bs))
    ]
  ]
]

unfoldable pub retransmit : ℕ → ℕ → SendBuf → Option SendBuf
unfolding ack_off retransmit_loop
retransmit off len s =
    if length s.bufs == 0 || leb (off + len) (ack_off s)
    then some s
    else elim (retransmit_loop (length s.bufs) off (off + len) 0 s.pos s.len s.bufs) [
      | none ↦ none
      | some (bufs, pos, len') ↦ some (record s { bufs = bufs; pos = pos; len = len' })
    ]

-- The end of `reset`.
abbrev pub cleared : ℕ → Option SendBuf → Option ((ℕ × ℕ) × SendBuf)
cleared unsent_len none = none
cleared unsent_len (some s) = some ((s.emit_off, unsent_len), record s { pos = 0; len = 0 })

unfoldable pub reset : SendBuf → Option ((ℕ × ℕ) × SendBuf)
unfolding off_front ack
reset s =
    let unsent_off = max (off_front s) s.emit_off in
    cleared (s.off - unsent_off)
      (ack 0 unsent_off (record s { fin_off = some unsent_off; bufs = []; off = unsent_off }))

-- The answer of `reset`, with the error recorded.
abbrev pub stopped :
    Option ℕ → SendBuf → Option ((ℕ × ℕ) × SendBuf) → Result Error (ℕ × ℕ) × SendBuf
stopped error s none = (panic, s)
stopped error s (some (answer, s')) = (ok answer, record s' { error = error })

unfoldable pub stop : ℕ → SendBuf → Result Error (ℕ × ℕ) × SendBuf
unfolding reset
stop error_code s = elim s.error [
  | some e ↦ (err done, s)
  | none ↦ stopped (some error_code) s (reset s)
]

unfoldable pub shutdown : SendBuf → Result Error (ℕ × ℕ) × SendBuf
unfolding reset
shutdown s = if s.shut then (err done, s) else stopped s.error s (reset (record s { shut = true }))

unfoldable pub is_fin : SendBuf → Bool
is_fin s = is_at s.fin_off s.off

unfoldable pub is_complete : SendBuf → Bool
is_complete s = elim s.fin_off [ none ↦ false | some fin_off ↦ Ranges.equals (0, fin_off) s.acked ]
