-- ===== src/Stream/SendTests.antt =====
-- A send buffer of quiche/src/stream/send_buf.rs at a concrete input.
use quirl.Ranges
use quirl.Ranges.{RangeSet, default, inline}
use quirl.Ranges.View.{capacity, insert-Covers, default-IsValid, len-iter, iter-default}
use quirl.Stream.RangeBuf.{RangeBuf, from, is_empty}
use quirl.Stream.RangeBuf as Chunk
use quirl.Stream.SendBuf.{
  SendBuf, new, is_complete, write, emit, retransmit, ack_and_drop, ack, ack_off, off_front,
  past_final, final_size, stream_stopped,
}
use quirl.Stream.SendBuf as Send
use quirl.Stream.Chain.{content, total}
use quirl.Stream.Unsent.{IsValid, new-IsValid}
use quirl.Stream.Emit.{Emitted, emit-Emitted}
use quirl.Stream.Pushes.{Pushed}
use quirl.Stream.Queue.{unacked, sized, write-Pushed, write-IsValid}
use quirl.Stream.Rewound.{pending, buffered}
use quirl.Stream.Resend.{retransmit_lem}
use quirl.Stream.Acked.{Trimmed, ack_and_drop_lem}
use quirl.Stream.Complete.{is_complete_lem}
use quirl.Ranges.Union.{Covers}
use quirl.Stream.Sender.{Step, Reach, sent-IsValid}
use quirl.Common.{
  ◌^◌, ◌↔◌, refl, ℕ, ◌+◌, ◌-◌, ◌≤◌, ◌<◌, ◌≡◌, ap, arith, List, [], ◌∷◌, length, take, min, true,
  false, not, ltb, leb, ◌||◌, ◌&&◌, none, some,
}
use quirl.Common.Result.{ok, err}

abbrev five : List ℕ
five = 1 ∷ 2 ∷ 3 ∷ 4 ∷ 5 ∷ []

abbrev room : List ℕ
room = 0 ∷ 0 ∷ 0 ∷ 0 ∷ []

-- Five bytes are written, and all but the last are sent.
abbrev written : SendBuf
written = (write five true (new 100)).1

abbrev part_sent : SendBuf
part_sent = (emit room written).2

written-IsValid : IsValid written
written-IsValid = write-IsValid five true (new 100) (new-IsValid 100)

part_sent-IsValid : IsValid part_sent
part_sent-IsValid = (emit-Emitted room written written-IsValid).1.valid

write-Pushed_example :
    ((e : ℕ) → (new 3).error ≡ some e → write five true (new 3) ≡ (err (stream_stopped e), new 3))
    × ((new 3).error ≡ none
        → past_final
            (new 3).fin_off
            ((new 3).off + length five)
            (true && leb (length five) ((new 3).max_data - (new 3).off))
          ≡ true
        → write five true (new 3) ≡ (err final_size, new 3))
    × ((new 3).error ≡ none
        → past_final
            (new 3).fin_off
            ((new 3).off + length five)
            (true && leb (length five) ((new 3).max_data - (new 3).off))
          ≡ false
        → ((write five true (new 3)).0 ≡ ok (min (length five) ((new 3).max_data - (new 3).off)))
          × Pushed
              (unacked
                (take ((new 3).max_data - (new 3).off) five)
                ((new 3).off + length five)
                (new 3))
              (sized
                (true && leb (length five) ((new 3).max_data - (new 3).off))
                ((new 3).off + length five)
                (new 3))
              (write five true (new 3)).1)
write-Pushed_example = write-Pushed five true (new 3) (new-IsValid 3)

emit-Emitted_example :
    (w : List ℕ) × Emitted room written w
    × (0 < length room → off_front written < written.off → 0 < length w)
emit-Emitted_example = emit-Emitted room written written-IsValid

retransmit_lem_example :
    (t : SendBuf) × (retransmit 1 2 part_sent ≡ some t)
    × IsValid t
    × ((o : ℕ)
        → pending t.bufs o ≡ (
            pending part_sent.bufs o
            || ((not (leb (1 + 2) (ack_off part_sent)) && (leb 1 o && ltb o (1 + 2)))
                && buffered part_sent.bufs o)))
    × ((o : ℕ) → content t.bufs o ≡ content part_sent.bufs o)
    × (t ≡ record part_sent { bufs = t.bufs; pos = t.pos; len = t.len })
    × (t.len + total part_sent.bufs ≡ part_sent.len + total t.bufs)
    × (1 + 2 ≤ ack_off part_sent → t ≡ part_sent)
retransmit_lem_example = retransmit_lem 1 2 part_sent part_sent-IsValid

-- The set takes the four bytes that were sent.
acks_four : (acked : RangeSet) × (Ranges.insert (0, 0 + 4) part_sent.acked ≡ some acked)
unfolding new write Send.cap Send.write_within Send.queue past_final ack_off Send.first_end
    Send.chunks Send.push_loop emit off_front Send.front_of Send.emit_loop Send.stops
    Send.emit_round Send.copy_from Send.copy_at is_empty Chunk.off Chunk.len Chunk.max_off from
    capacity Ranges.iter
acks_four =
    let h =
      insert-Covers 0 4 default (omega arith) default-IsValid
        (omega (arith, len-iter default, ap length iter-default)) in
    (h.0, h.1)

ack_and_drop_lem_example :
    (t : SendBuf) × (ack_and_drop 0 4 part_sent ≡ some t)
    × IsValid t
    × (t.acked ≡ acks_four.0)
    × (t.off ≡ part_sent.off)
    × ((o : ℕ) → ack_off t ≤ o → content t.bufs o ≡ content part_sent.bufs o)
    × (0 ≤ ack_off t → Trimmed (ack_off t) t.bufs)
ack_and_drop_lem_example = ack_and_drop_lem 0 4 part_sent acks_four.0 part_sent-IsValid acks_four.1

sent-IsValid_example : IsValid part_sent
sent-IsValid_example =
    sent-IsValid 100 (Reach.next (Reach.next Reach.here (Step.write five true)) (Step.emit room))

-- All that was written is acknowledged.
abbrev acked_all : SendBuf
acked_all = record (new 100) {
  off = 5;
  emit_off = 5;
  fin_off = some 5;
  acked = inline (record { inner = (0, 5) ∷ []; capacity = 2 ^ 64 - 1 });
}

is_complete_lem_example :
    (is_complete acked_all ≡ true)
    ↔ ((x : ℕ) → Covers x (Ranges.iter acked_all.acked) ↔ ((0 ≤ x) × (x < 5)))
unfolding Ranges.iter
is_complete_lem_example =
    is_complete_lem 5 acked_all (omega arith)
      (record { fits = omega arith; separated = omega arith }) refl
