-- ===== src/Frame/Bodies.antt =====
-- The longer branches of from_bytes in quiche/src/frame.rs: ACK, STREAM and connection ids.
use quirl.Common.{
  ℕ, zero, suc, ◌+◌, ◌-◌, ◌^◌, ◌/◌, ◌%◌, ◌≤◌, ◌<◌, ◌≡◌, refl, sym, ap, ◌∙◌, List, [], ◌∷◌, ◌++◌,
  length, arith, append-nil, Option, none, some, Bool, true, false, leb-false, leb-true,
}
use quirl.Octets.{be_bytes}
use quirl.Octets.Encode.{varint, varint_two}
use quirl.Stream.RangeBuf.{RangeBuf}
use quirl.Stream.RangeBuf as Chunk
use quirl.Ranges.{Range, RangeSet, iter}
use quirl.Frame.Print.{onto, rev, ack_type, stream_type}
use quirl.Frame.Parse.{
  parse_body, parse_ecn, parse_ack_frame, parse_source_symbol_ack_frame, parse_stream_frame,
  parse_datagram_frame, field_if,
}
use quirl.Frame.Format.{flat, Small, SmallEcn, SmallRanges, range_pieces, ecn_pieces}
use quirl.Frame.Reads.{
  Reads, bind, done, last, varint-Reads, two-Reads, byte-Reads, bytes-Reads, array-Reads,
}
use quirl.Frame.AckRanges.{ack_ranges-Reads}
use quirl.Frame.{Coding, EcnCounts, ack, stream, datagram, source_symbol_ack, new_connection_id}

onto-onto : (xs ys zs : List Range) → onto (onto xs ys) zs ≡ onto ys (xs ++ zs)
unfolding onto
onto-onto [] ys zs = refl
onto-onto (x ∷ xs) ys zs = onto-onto xs (x ∷ ys) zs

pub rev-rev : (xs : List Range) → rev (rev xs) ≡ xs
unfolding rev onto
rev-rev xs = onto-onto xs [] [] ∙ append-nil xs

ecn-Reads :
    {rest : List ℕ} (o : Option EcnCounts)
    → SmallEcn o
    → Reads rest (parse_ecn (quirl.Common.◌==◌ (ack_type o % 2) 1)) (ecn_pieces o) o
unfolding parse_ecn ack_type
ecn-Reads none h = done
ecn-Reads (some c) (x, y, z) =
    bind _ (varint-Reads _ x) (bind _ (varint-Reads _ y) (bind _ (varint-Reads _ z) done))

module _ (cd : Coding) (rest : List ℕ) where
  pub ack-Reads :
      (ack_delay : ℕ) (rs : List Range) (ecn : Option EcnCounts)
      → Small ack_delay
      → SmallRanges rs
      → SmallEcn ecn
      → (set' : RangeSet) × (iter set' ≡ rev rs)
        × Reads rest
            (parse_ack_frame cd (ack_type ecn))
            (range_pieces (varint ack_delay ∷ []) rs ++ ecn_pieces ecn)
            (ack ack_delay set' ecn)
  unfolding parse_ack_frame rev onto
  ack-Reads ack_delay [] ecn d w e = absurd w
  ack-Reads ack_delay ((s, t) ∷ rs) ecn d ((x, y, z), n) e =
      let (set', read, i) =
        ack_ranges-Reads (flat (ecn_pieces ecn) ++ rest) s t rs y x z (omega arith) in
      (
        set',
        i,
        bind _ (varint-Reads (t - 1) (omega arith)) (
            bind _ (varint-Reads ack_delay d) (
              bind _ (varint-Reads (length rs) (omega arith)) (
                bind _ (varint-Reads (t - 1 - s) (omega arith))
                  (bind _ read (last _ (ecn-Reads ecn e)))))),
      )

  pub source_ack-Reads :
      (rs : List Range)
      → SmallRanges rs
      → (set' : RangeSet) × (iter set' ≡ rev rs)
        × Reads rest
            (parse_source_symbol_ack_frame cd)
            (range_pieces [] rs)
            (source_symbol_ack set')
  unfolding parse_source_symbol_ack_frame rev onto
  source_ack-Reads [] w = absurd w
  source_ack-Reads ((s, t) ∷ rs) ((x, y, z), n) =
      let (set', read, i) = ack_ranges-Reads rest s t rs y x z (omega arith) in
      (
        set',
        i,
        bind _ (varint-Reads (t - 1) (omega arith)) (
            bind _ (varint-Reads (length rs) (omega arith))
              (bind _ (varint-Reads (t - 1 - s) (omega arith)) (last _ read))),
      )

  pub stream-Reads :
      (stream_id offset : ℕ) (d : List ℕ) (fin : Bool)
      → Small stream_id
      → offset + length d < 2 ^ 62
      → length d < 2 ^ 14
      → Reads rest
          (parse_stream_frame cd (stream_type fin))
          (varint stream_id ∷ varint offset ∷ varint_two (length d) ∷ d ∷ [])
          (stream stream_id (Chunk.from d offset fin))
  unfolding parse_stream_frame field_if stream_type
  stream-Reads stream_id offset d false x y z = bind _ (varint-Reads stream_id x) (
      bind _ (varint-Reads offset (omega arith)) (
        bind _ (two-Reads (length d) z)
          (rw (leb-false (2 ^ 62) (offset + length d) y) (last _ (bytes-Reads d)))))
  stream-Reads stream_id offset d true x y z = bind _ (varint-Reads stream_id x) (
      bind _ (varint-Reads offset (omega arith)) (
        bind _ (two-Reads (length d) z)
          (rw (leb-false (2 ^ 62) (offset + length d) y) (last _ (bytes-Reads d)))))

  pub datagram-Reads :
      (d : List ℕ)
      → length d < 2 ^ 14
      → Reads rest (parse_datagram_frame cd 0x31) (varint_two (length d) ∷ d ∷ []) (datagram d)
  unfolding parse_datagram_frame field_if
  datagram-Reads d h = bind _ (two-Reads (length d) h) (last _ (bytes-Reads d))

  pub connection_id-Reads :
      (seq_num retire_prior_to : ℕ) (conn_id reset_token : List ℕ)
      → Small seq_num
      → Small retire_prior_to
      → 1 ≤ length conn_id
      → length conn_id ≤ 20
      → length reset_token ≡ 16
      → Reads rest
          (parse_body cd 0x18)
          (varint seq_num
            ∷ varint retire_prior_to
            ∷ be_bytes 1 (length conn_id)
            ∷ conn_id
            ∷ reset_token
            ∷ [])
          (new_connection_id seq_num retire_prior_to conn_id reset_token)
  unfolding parse_body
  connection_id-Reads seq_num retire_prior_to conn_id reset_token x y l h t =
      bind _ (varint-Reads seq_num x) (
        bind _ (varint-Reads retire_prior_to y) (
          bind _ (byte-Reads (length conn_id) (omega arith)) (
            rw (leb-true 1 (length conn_id) l, leb-true (length conn_id) 20 h)
              (bind _ (bytes-Reads conn_id) (last _ (array-Reads 16 reset_token t))))))
