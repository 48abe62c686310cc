-- ===== src/Frame/SourceSymbol.antt =====
-- FEC source symbols in quiche/src/frame.rs: the branch of from_bytes for the type 0x33.
use quirl.Common.{
  ℕ, ◌-◌, ◌≡◌, refl, sym, ap, ◌∙◌, List, [], ◌∷◌, ◌++◌, length, arith, Bool, append_assoc,
  if◌then◌else◌, Bool-cases, inl, inr, ltb, length-append, length-drop,
}
use quirl.Common.Result.{ok, err, panic}
use quirl.Octets.{Octets, cap, as_ref}
use quirl.Octets.Bytes.{advance}
use quirl.Octets.Encode.{varint}
use quirl.Frame.Parse.{parse_body, allowed, from_bytes, replicate_zero, padded_payload}
use quirl.Frame.Format.{flat, encode}
use quirl.Frame.Reads.{advance-advance, as_ref-past, varint-Reads, decoder-Reads}
use quirl.Frame.Writes.{flat-append}
use quirl.Frame.{Coding, PacketType, invalid_packet, source_symbol_header, source_symbol}
use quirl.Frame.RoundTrip.{pass}

module _ (cd : Coding) where
  padded :
      (d : Octets) (payload : List ℕ)
      → as_ref d ≡ payload
      → padded_payload cd d ≡ (
        if ltb cd.symbol_size (length payload)
            then panic
            else ok (replicate_zero (cd.symbol_size - length payload) ++ payload),
        d,
      )
  unfolding padded_payload
  padded d payload e =
      let n : cap d ≡ length payload = sym (length-drop d.off d.buf) ∙ ap length e in
      rw (n, e)
        (elim (Bool-cases (ltb cd.symbol_size (length payload))) [ inl p ↦ rw p | inr p ↦ rw p ])

  -- A header of a source symbol, and the payload after it: the symbol is made from the metadata and
  -- the payload filled up with zeros in front, and the cursor stays before the payload; a payload
  -- larger than a symbol is a panic.
  pub from_bytes-source_symbol :
      (pkt : PacketType) (metadata : cd.Metadata) (recovered : Bool) (c : Octets) (payload : List ℕ)
      → cd.read_source_symbol_metadata (cd.metadata_bytes metadata ++ payload)
        ≡ ok (length (cd.metadata_bytes metadata), metadata)
      → as_ref c ≡ encode cd (source_symbol_header metadata recovered) ++ payload
      → from_bytes cd pkt c ≡ (
        if ltb cd.symbol_size (length payload)
            then panic
            else if allowed cd pkt (source_symbol (cd.new_source metadata []))
            then ok (
                source_symbol (
                  cd.new_source metadata
                    (replicate_zero (cd.symbol_size - length payload) ++ payload)))
            else err invalid_packet,
        advance (length (encode cd (source_symbol_header metadata recovered))) c,
      )
  unfolding encode from_bytes parse_body allowed
  from_bytes-source_symbol pkt metadata recovered c payload law e =
      let front : List (List ℕ) = varint 0x33 ∷ [] in
      let back : List (List ℕ) = cd.metadata_bytes metadata ∷ [] in
      let e1 : as_ref c ≡ flat front ++ (flat back ++ payload) =
        e
        ∙ ap (λ t. t ++ payload) (flat-append front back)
        ∙ append_assoc (flat front) (flat back) payload in
      let c1 : Octets = advance (length (flat front)) c in
      let e2 : as_ref c1 ≡ flat back ++ payload =
        as_ref-past (flat front) (flat back ++ payload) c e1 in
      let d : Octets = advance (length (flat back)) c1 in
      let e3 : as_ref d ≡ payload = as_ref-past (flat back) payload c1 e2 in
      let same : d ≡ advance (length (flat (front ++ back))) c =
        advance-advance (length (flat front)) (length (flat back)) c
        ∙ ap (λ n. advance n c)
            (sym (ap length (flat-append front back) ∙ length-append (flat front) (flat back))) in
      rw
        (
          (varint-Reads {rest = flat back ++ payload} 0x33 (omega arith)).reads c e1,
          (decoder-Reads cd payload (cd.metadata_bytes metadata) metadata
                cd.read_source_symbol_metadata law).reads
              c1 e2,
          padded d payload e3,
          same,
        )
        (elim (Bool-cases (ltb cd.symbol_size (length payload))) [
          | inl p ↦ rw p refl
          | inr p ↦ rw p (pass (allowed cd pkt (source_symbol (cd.new_source metadata []))) _ _)
        ])
