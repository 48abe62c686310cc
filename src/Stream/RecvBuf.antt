-- ===== src/Stream/RecvBuf.antt =====
-- quiche/src/stream/recv_buf.rs: the data that arrived and is not yet read. `chunks` is the map `data`, sorted
-- by its keys, the final offsets of the chunks.
use quirl.FlowControl.{FlowControl, add_consumed}
use quirl.FlowControl
use quirl.Stream.RangeBuf.{RangeBuf, consume, deref, split_off, is_empty}
use quirl.Stream.RangeBuf as Chunk
use quirl.Common.{
  ℕ, ◌+◌, ◌-◌, ◌*◌, min, List, [], ◌∷◌, ◌++◌, ltb, ◌==◌, ◌&&◌, not, if◌then◌else◌, length, take,
  drop, Bool, true, false, Option, none, some,
}
use quirl.Common.Result.{Result, ok, err}

pub data Error : Type 0 where
  flow_control final_size done : Error
  stream_reset : ℕ → Error

pub record RecvBuf : Type 0 where
  pub chunks : List (ℕ × RangeBuf)
  pub off : ℕ
  pub len : ℕ
  pub flow_control : FlowControl
  pub fin_off : Option ℕ
  pub error : Option ℕ
  pub drain : Bool

abbrev pub default_stream_window : ℕ
default_stream_window = 32 * 1024

unfoldable pub new : ℕ → ℕ → RecvBuf
new max_data max_window = record {
  chunks = [];
  off = 0;
  len = 0;
  flow_control = FlowControl.new max_data (min max_data default_stream_window) max_window;
  fin_off = none;
  error = none;
  drain = false;
}

unfoldable pub max_data : RecvBuf → ℕ
max_data s = s.flow_control.max_data

unfoldable pub ready : RecvBuf → Bool
ready s = elim s.chunks [ [] ↦ false | (_, b) ∷ _ ↦ Chunk.off b == s.off ]

unfoldable pub is_fin : RecvBuf → Bool
is_fin s = elim s.fin_off [ none ↦ false | some f ↦ f == s.off ]

-- The loop of `emit`: the bytes written, the chunks left and the new offset.
unfoldable pub emit_loop : List (ℕ × RangeBuf) → ℕ → ℕ → List ℕ × List (ℕ × RangeBuf) × ℕ
emit_loop [] off cap = ([], [], off)
emit_loop ((k, b) ∷ rest) off cap =
    let buf_len = min (Chunk.len b) cap in
    let (written, left, end) = emit_loop rest (off + buf_len) (cap - buf_len) in
    if ltb 0 cap && Chunk.off b == off
    then (if ltb buf_len (Chunk.len b)
        then (take buf_len (deref b), (k, consume buf_len b) ∷ rest, off + buf_len)
        else (take buf_len (deref b) ++ written, left, end))
    else ([], (k, b) ∷ rest, off)

-- The result, the output buffer and the state.
unfoldable pub emit : List ℕ → RecvBuf → Result Error (ℕ × Bool) × List ℕ × RecvBuf
unfolding ready is_fin
emit out s = if not (ready s) then (err done, out, s) else elim s.error [
  | some e ↦ (err (stream_reset e), out, record s { chunks = [] })
  | none ↦
      let (written, left, end) = emit_loop s.chunks s.off (length out) in
      let s' = record s {
        chunks = left;
        off = end;
        flow_control = add_consumed (length written) s.flow_control;
      } in
      (ok (length written, is_fin s'), written ++ drop (length written) out, s')
]

unfoldable pub shutdown : RecvBuf → Result Error (Unit {0}) × RecvBuf
shutdown s =
    if s.drain then (err done, s) else (ok tt, record s { drain = true; chunks = []; off = s.len })

unfoldable pub update_max_data : ℕ → RecvBuf → RecvBuf
update_max_data now s = record s { flow_control = FlowControl.update_max_data now s.flow_control }

unfoldable pub autotune_window : ℕ → ℕ → RecvBuf → RecvBuf
autotune_window now rtt s = record s {
  flow_control = FlowControl.autotune_window now rtt s.flow_control;
}

-- True while the owner has to grant more.
unfoldable pub almost_full : RecvBuf → Option Bool
almost_full s = elim s.fin_off [
  | none ↦ FlowControl.should_update_max_data s.flow_control
  | some f ↦ some false
]
