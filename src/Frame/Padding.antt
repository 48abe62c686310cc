-- ===== src/Frame/Padding.antt =====
-- The PADDING frames of quiche/src/frame.rs: the loop that joins a run of them to one frame.
use quirl.Common.{
  ℕ, zero, suc, ◌+◌, ◌≤◌, ◌<◌, ◌≡◌, refl, ap, ◌∙◌, List, [], ◌∷◌, ◌++◌, length, arith,
  length-append, length-drop, ==_false,
}
use quirl.Common.Result.{Result, ok}
use quirl.Common.Exec.{◌>>=◌, pure}
use quirl.Octets.{Octets, cap, as_ref}
use quirl.Octets.Bytes.{advance}
use quirl.Octets.Encode.{varint}
use quirl.Octets.Decode.{get_u_at, peek_first, peek_none}
use quirl.Frame.{Error, Coding, Frame, padding, convert}
use quirl.Frame.Parse.{padding_loop, replicate_zero}
use quirl.Frame.Format.{flat, zeros}
use quirl.Frame.Reads.{Reads, as_ref-past}

-- What follows does not begin with a zero.
abbrev pub Ends : List ℕ → Type 0
Ends [] = Unit {0}
Ends (x ∷ xs) = 0 < x

flat-zeros : (n : ℕ) → flat (zeros n) ≡ replicate_zero n
unfolding replicate_zero varint
flat-zeros zero = refl
flat-zeros (suc n) = ap (λ t. 0 ∷ t) (flat-zeros n)

length-replicate_zero : (n : ℕ) → length (replicate_zero n) ≡ n
unfolding replicate_zero
length-replicate_zero zero = refl
length-replicate_zero (suc n) = ap suc (length-replicate_zero n)

-- The result of a run that ends here, and of one more round before a run.
ran_none :
    (len : ℕ) (b : Octets)
    → ◌≡◌ {A = Result Error ℕ × Octets} (ok len, b) (ok (len + 0), advance 0 b)
ran_none len b =
    let e : len ≡ len + 0 = omega arith in
    let e' : b.off ≡ b.off + 0 = omega arith in λ i. (ok (e i), record b { off = e' i })

ran_more :
    (len n : ℕ) (b : Octets)
    → ◌≡◌ {A = Result Error ℕ × Octets}
        (ok (len + 1 + n), advance n (advance 1 b))
        (ok (len + suc n), advance (suc n) b)
ran_more len n b =
    let e : len + 1 + n ≡ len + suc n = omega arith in
    let e' : b.off + 1 + n ≡ b.off + suc n = omega arith in λ i. (ok (e i), record b { off = e' i })

padding_loop-run :
    (n fuel len : ℕ) (rest : List ℕ) (b : Octets)
    → n ≤ fuel
    → Ends rest
    → as_ref b ≡ replicate_zero n ++ rest
    → padding_loop fuel len b ≡ (ok (len + n), advance n b)
unfolding padding_loop replicate_zero convert
padding_loop-run zero zero len rest b h w e = ran_none len b
padding_loop-run zero (suc fuel) len [] b h w e =
    rw (padding_loop, peek_none b [] e) (ran_none len b)
padding_loop-run zero (suc fuel) len (x ∷ xs) b h w e =
    rw (padding_loop, peek_first b xs x [] e, ==_false x 0 (omega arith)) (ran_none len b)
padding_loop-run (suc n) zero len rest b h w e = absurd (omega arith)
padding_loop-run (suc n) (suc fuel) len rest b h w e =
    rw
      (
        padding_loop,
        peek_first b (replicate_zero n ++ rest) 0 [] e,
        get_u_at b (replicate_zero n ++ rest) (0 ∷ []) e,
      )
      (padding_loop-run n fuel (len + 1) rest (advance 1 b) (omega arith) w
          (as_ref-past (0 ∷ []) (replicate_zero n ++ rest) b e)
        ∙ ran_more len n b)

-- A run of zeros after the type of the first, with no zero after it, is one frame.
pub padding_loop-Reads :
    (cd : Coding) (n : ℕ) (rest : List ℕ)
    → Ends rest
    → Reads {A = Frame cd} rest
        (λ b. (padding_loop (cap b) 1 >>= λ len. pure (padding len)) b)
        (zeros n)
        (padding (suc n))
padding_loop-Reads cd n rest w = record {
  reads = rw (flat-zeros n) (λ b e.
      let enough : n ≤ cap b = omega (
        arith,
        length-drop b.off b.buf,
        ap length e,
        length-append (replicate_zero n) rest,
        length-replicate_zero n,
      ) in
      rw (padding_loop-run n (cap b) 1 rest b enough w e, length-replicate_zero n)
        (ap (λ k. (ok (padding k), advance n b)) {x = 1 + n} {y = suc n} (omega arith)));
}
