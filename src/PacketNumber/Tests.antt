-- ===== src/PacketNumber/Tests.antt =====
-- Runs of the packet number functions, and the theorems at concrete inputs.
use quirl.Common.{
  ◌+◌, ◌-◌, ◌*◌, ◌%◌, ◌^◌, ◌<◌, ◌≡◌, ◌≢◌, refl, arith, [], ◌∷◌, true, ◌||◌, ltb, ◌==◌,
}
use quirl.Octets.{Octets}
use quirl.PacketNumber.{PktNumWindow, default, insert, contains, upper, decode_pkt_num, pkt_num_len}
use quirl.PacketNumber.Codec.{
  decode_pkt_num-truncate, in_flight-lt-pkt_num_len, decode_pkt_num-pkt_num_len,
  decode_pkt_num_short,
}
use quirl.PacketNumber.Window.{contains-insert, contains-insert_far}

-- The example of RFC 9000, section A.3.
decode_rfc : decode_pkt_num 0xa82f30ea 0x9b32 2 ≡ 0xa82f9b32
unfolding decode_pkt_num
decode_rfc = refl

lengths : (pkt_num_len 0xac5c02 0xabe8b3 ≡ 2) × (pkt_num_len 0xace8fe 0xabe8b3 ≡ 3)
unfolding pkt_num_len
lengths = (refl, refl)

decode_pkt_num-truncate_example : decode_pkt_num 300 (310 % 2 ^ (1 * 8)) 1 ≡ 310
decode_pkt_num-truncate_example =
    decode_pkt_num-truncate 300 310 1 (omega arith) (omega arith) (omega arith) (omega arith)
      (omega arith)

in_flight-lt-pkt_num_len_example : 310 - 300 + 1 < 2 ^ (pkt_num_len 310 300 * 8)
in_flight-lt-pkt_num_len_example = in_flight-lt-pkt_num_len 310 300 (omega arith)

decode_pkt_num-pkt_num_len_example :
    decode_pkt_num 306 (310 % 2 ^ (pkt_num_len 310 300 * 8)) (pkt_num_len 310 300) ≡ 310
unfolding pkt_num_len
decode_pkt_num-pkt_num_len_example =
    decode_pkt_num-pkt_num_len 310 300 306 (omega arith) (omega arith) (omega arith) (omega arith)
      (omega arith)

decode_pkt_num_short_example :
    (pkt_num_len 500 300 ≡ 1) × (decode_pkt_num 300 (500 % 2 ^ 8) 1 ≢ 500)
decode_pkt_num_short_example =
    decode_pkt_num_short 500 300 (omega arith) (omega arith) (omega arith) (omega arith)

abbrev room : Octets
room = record { buf = 0 ∷ 0 ∷ 0 ∷ []; off = 1 }

contains-insert_example :
    contains 4 (insert 9 default)
    ≡ ((4 == 9) || (ltb 4 (insert 9 default).lower || contains 4 default))
contains-insert_example =
    contains-insert 9 4 default (omega arith) (omega arith) (unfold upper in omega arith)

abbrev seen_9 : PktNumWindow
seen_9 = record { lower = 0; window = λ k. k == 118 }

contains-insert_far_example : contains (9 + 2 ^ 32) (insert (upper seen_9 + 2 ^ 32) seen_9) ≡ true
contains-insert_far_example =
    contains-insert_far 9 seen_9 (omega arith) (omega arith) (omega arith)
      (unfold upper in omega arith) (unfold contains upper in refl)
