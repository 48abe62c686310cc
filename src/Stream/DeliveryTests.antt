-- ===== src/Stream/DeliveryTests.antt =====
-- A stream from one end to the other, quiche/src/stream, on a run: two frames that arrive in the wrong order,
-- one of them twice.
use quirl.FlowControl
use quirl.Ranges
use quirl.Stream.RangeBuf.{RangeBuf}
use quirl.Stream.RangeBuf as Chunk
use quirl.Stream.RecvBuf as Recv
use quirl.Stream.SendBuf as Send
use quirl.Stream.Write
use quirl.Stream.Delivery.{
  Link, start, after_write, after_emit, after_read, frame, Step, Reach, here, next,
}
use quirl.Stream.Delivered.{Reach-prefix}
use quirl.Common.{ℕ, ◌≡◌, refl, List, [], ◌∷◌, length, take, true}

abbrev five : List ℕ
five = 1 ∷ 2 ∷ 3 ∷ 4 ∷ 5 ∷ []

abbrev room : List ℕ
room = 0 ∷ 0 ∷ 0 ∷ []

abbrev many : List ℕ
many = 0 ∷ 0 ∷ 0 ∷ 0 ∷ 0 ∷ 0 ∷ 0 ∷ 0 ∷ []

abbrev two_sent : Link
two_sent = after_emit room (after_emit room (after_write five true (start 100 100 1000)))

abbrev delivered : RangeBuf → Link → Link
delivered buf l = record l { receiver = (Write.write buf l.receiver).1 }

abbrev first_frame : RangeBuf
first_frame = frame room (after_write five true (start 100 100 1000)).sender

abbrev last_frame : RangeBuf
last_frame = frame room (after_emit room (after_write five true (start 100 100 1000))).sender

abbrev all_arrived : Link
all_arrived = delivered first_frame (delivered last_frame (delivered last_frame two_sent))

run : Reach (start 100 100 1000) (after_read many all_arrived)
run =
    next
      (next
        (next
          (next (next (next (next here (Step.write five true)) (Step.emit room)) (Step.emit room))
            (Step.deliver 0 last_frame refl))
          (Step.deliver 0 last_frame refl))
        (Step.deliver 1 first_frame refl))
      (Step.read many)

Reach-prefix_example :
    ((after_read many all_arrived).read
      ≡ take (length (after_read many all_arrived).read) (after_read many all_arrived).written)
    × (length (after_read many all_arrived).read ≡ (after_read many all_arrived).receiver.off)
    × (length (after_read many all_arrived).written ≡ (after_read many all_arrived).sender.off)
    × (Recv.is_fin (after_read many all_arrived).receiver ≡ true
        → (after_read many all_arrived).read ≡ (after_read many all_arrived).written)
Reach-prefix_example = Reach-prefix 100 100 1000 run

-- All five bytes were given.
five_read : (after_read many all_arrived).read ≡ five
unfolding Write.write Recv.emit Recv.max_data Recv.new FlowControl.new Chunk.max_off Chunk.from
    Send.off_front Send.emit Send.write Send.new Ranges.iter Chunk.is_empty Chunk.consume
    Chunk.deref Recv.emit_loop
five_read = refl
