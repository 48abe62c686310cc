-- ===== src/Frame/RoundTrip.antt =====
-- from_bytes of quiche/src/frame.rs, beside the bytes that to_bytes writes.
use quirl.Common.{
  ℕ, ◌≤◌, ◌≡◌, refl, sym, ap, ◌∙◌, List, ◌++◌, length, Bool, true, false, if◌then◌else◌, take, drop,
  take-append_length,
}
use quirl.Common.Result.{Result, ok, err, panic}
use quirl.Common.Exec.{◌>>=◌, pure, raise, continue}
use quirl.Octets.{Octets, cap, as_ref}
use quirl.Octets.Bytes.{IsValid, advance, as_ref-write}
use quirl.Frame.Print.{to_bytes}
use quirl.Frame.Parse.{Parser, varint_field, parse_body, allowed, from_bytes}
use quirl.Frame.Format.{flat, pieces, encode, Fits}
use quirl.Frame.Reads.{Reads}
use quirl.Frame.Received.{Received, Readable}
use quirl.Frame.Written.{put_frame-Writes}
use quirl.Frame.{Coding, PacketType, Error, invalid_packet, Frame}
use quirl.Frame.Parsed.{unchecked, parsed}

continue_assoc :
    {A B C : Type 0} (r : Result Error A × Octets) (f : A → Parser B) (k : B → Parser C)
    → continue r (λ a. f a >>= k) ≡ continue (continue r f) k
continue_assoc (ok a, b) f k = refl
continue_assoc (err e, b) f k = refl
continue_assoc (panic, b) f k = refl

pub pass :
    {A : Type 0} (t : Bool) (a : A) (b : Octets)
    → (if t then pure a else raise invalid_packet) b ≡ (if t then ok a else err invalid_packet, b)
pass true a b = refl
pass false a b = refl

module _ (cd : Coding) where
  -- The test of the packet's type, after a frame is read.
  checked :
      (rest : List ℕ) (ps : List (List ℕ)) (pkt : PacketType) (frame : Frame cd) (b : Octets)
      → Reads rest (unchecked cd) ps frame
      → as_ref b ≡ flat ps ++ rest
      → from_bytes cd pkt b ≡ (
        if allowed cd pkt frame then ok frame else err invalid_packet,
        advance (length (flat ps)) b,
      )
  unfolding from_bytes
  checked rest ps pkt frame b x e =
      continue_assoc (varint_field b) (parse_body cd)
        (λ g. if allowed cd pkt g then pure g else raise invalid_packet)
      ∙ rw (x.reads b e) (pass (allowed cd pkt frame) frame (advance (length (flat ps)) b))

  -- Where the wire format of a frame stands at the cursor, whatever follows it.
  from_bytes-encode :
      (pkt : PacketType) (frame : Frame cd) (c : Octets) (rest : List ℕ)
      → Fits cd frame
      → Readable cd rest frame
      → as_ref c ≡ encode cd frame ++ rest
      → (g : Frame cd) × Received cd frame g
        × (from_bytes cd pkt c ≡ (
          if allowed cd pkt frame then ok g else err invalid_packet,
          advance (length (encode cd frame)) c,
        ))
  unfolding encode
  from_bytes-encode pkt frame c rest h r e =
      let (g, same, read, kind) = parsed cd rest frame h r in
      (g, same, rw (sym (kind pkt)) (checked rest (pieces cd frame) pkt g c read e))

  -- For a frame that fits (Fits: its numbers and lengths are below 2^62, the bytes of a CRYPTO, STREAM
  -- or DATAGRAM frame fewer than 2^14 and those of a stream end below 2^62, its set has a range and
  -- its ranges are apart, a connection id has 1 to 20 bytes and the token with it 16, a path challenge
  -- or response 8, and it is not one of the header-only forms of CRYPTO, STREAM and DATAGRAM) and can
  -- be read back (Readable: a run of padding has a byte at least and ends before what follows, the
  -- token of NEW_TOKEN is not empty, a repair symbol ends the packet and the coding library reads it
  -- back from what it gives for it, and it is neither of the two frames of source symbols): where what
  -- to_bytes wrote of it, into a buffer with room for it, stands at the cursor, from_bytes reads that
  -- frame back, the same but for what is not on the wire, and moves the cursor past it if the packet
  -- may carry it, and otherwise gives the error for the packet.
  pub from_bytes-to_bytes :
      (pkt : PacketType) (frame : Frame cd) (b c : Octets) (rest : List ℕ)
      → Fits cd frame
      → IsValid b
      → length (encode cd frame) ≤ cap b
      → Readable cd rest frame
      → as_ref c ≡ take (length (encode cd frame)) (drop b.off (to_bytes cd frame b).1.buf) ++ rest
      → (g : Frame cd) × Received cd frame g
        × (from_bytes cd pkt c ≡ (
          if allowed cd pkt frame then ok g else err invalid_packet,
          advance (length (encode cd frame)) c,
        ))
  unfolding to_bytes encode
  from_bytes-to_bytes pkt frame b c rest h v room r e = from_bytes-encode pkt frame c rest h r (
      e
      ∙ ap (λ t. t ++ rest)
          (rw ((put_frame-Writes cd frame h).room b v room, as_ref-write (encode cd frame) b v)
            (take-append_length (encode cd frame) _)))
