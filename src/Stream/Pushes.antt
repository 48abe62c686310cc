-- ===== src/Stream/Pushes.antt =====
-- SendBuf::write of quiche/src/stream/send_buf.rs: the loop over the chunks of the data.
use quirl.Stream.RangeBuf.{RangeBuf}
use quirl.Stream.RangeBuf as Chunk
use quirl.Stream.SendBuf.{SendBuf, send_buffer_size, chunks, push_loop}
use quirl.Stream.Split.{from-IsValid, take-all}
use quirl.Stream.Chain.{Chain-append, total-append, AllEmpty-append}
use quirl.Stream.Unsent.{IsValid}
use quirl.Stream.Rewound.{pending}
use quirl.Stream.Waiting.{pending-append, unsent-from}
use quirl.Common.{
  ℕ, zero, suc, ◌+◌, ◌≤◌, ◌≡◌, refl, sym, ap, ◌∙◌, arith, List, [], ◌∷◌, ◌++◌, length,
  length-append, length-drop, take-append-drop, append_assoc, append-nil, take, drop, Bool, true,
  false, ltb, leb, ◌==◌, ◌||◌, ◌&&◌,
}

abbrev pub concat : List (List ℕ) → List ℕ
concat [] = []
concat (c ∷ cs) = c ++ concat cs

pub concat-chunks :
    (fuel : ℕ) (bytes : List ℕ) → length bytes ≤ fuel → concat (chunks fuel bytes) ≡ bytes
unfolding chunks
concat-chunks fuel [] h = refl
concat-chunks zero (b ∷ bs) h = absurd (omega arith)
concat-chunks (suc fuel) (b ∷ bs) h =
    ap (λ t. take send_buffer_size (b ∷ bs) ++ t)
      (concat-chunks fuel (drop send_buffer_size (b ∷ bs))
        (omega (arith, length-drop send_buffer_size (b ∷ bs))))
    ∙ take-append-drop send_buffer_size (b ∷ bs)

-- The stream's bytes from the first buffer on.
abbrev pub stored : List RangeBuf → List ℕ
stored [] = []
stored (b ∷ bs) = take b.len (drop b.start b.vec) ++ stored bs

-- After the chunks are pushed: their bytes follow those that were stored.
pub record Pushed (bytes : List ℕ) (s t : SendBuf) : Type 0 where
  pub valid : IsValid t
  pub stored : stored t.bufs ≡ stored s.bufs ++ bytes
  pub off : t.off ≡ s.off + length bytes
  pub max_data : t.max_data ≡ s.max_data
  pub fin_off : t.fin_off ≡ s.fin_off
  pub acked : t.acked ≡ s.acked
  pub count : t.len ≡ s.len + length bytes
  pub pending :
      (o : ℕ)
      → pending t.bufs o ≡ (pending s.bufs o || (leb s.off o && ltb o (s.off + length bytes)))
  pub rest : t ≡ record s { bufs = t.bufs; off = t.off; len = t.len }

stored-append : (xs ys : List RangeBuf) → stored (xs ++ ys) ≡ stored xs ++ stored ys
stored-append [] ys = refl
stored-append (x ∷ xs) ys =
    ap (λ t. take x.len (drop x.start x.vec) ++ t) (stored-append xs ys)
    ∙ sym (append_assoc (take x.len (drop x.start x.vec)) (stored xs) (stored ys))

stored-from :
    (bs : List RangeBuf) (chunk : List ℕ) (off : ℕ) (fin : Bool)
    → stored (bs ++ (Chunk.from chunk off fin ∷ [])) ≡ stored bs ++ chunk
unfolding Chunk.from
stored-from bs chunk off fin =
    stored-append bs (Chunk.from chunk off fin ∷ [])
    ∙ ap (λ t. stored bs ++ t)
        (append-nil (take (length chunk) chunk) ∙ take-all (length chunk) chunk (omega arith))

abbrev pushed : List ℕ → Bool → SendBuf → SendBuf
pushed chunk fin s = record s {
  bufs = s.bufs ++ (Chunk.from chunk s.off fin ∷ []);
  off = s.off + length chunk;
  len = s.len + length chunk;
}

-- The chunk is to be sent, and what was.
pushed-pending :
    (chunk : List ℕ) (fin : Bool) (s : SendBuf) (o : ℕ)
    → pending (pushed chunk fin s).bufs o
      ≡ (pending s.bufs o || (leb s.off o && ltb o (s.off + length chunk)))
pushed-pending chunk fin s o =
    pending-append s.bufs (Chunk.from chunk s.off fin) o
    ∙ ap (λ t. pending s.bufs o || t) (unsent-from chunk s.off o fin)

joined :
    (a : Bool) (l m n o : ℕ)
    → l ≤ m
    → m ≤ n
    → ((a || (leb l o && ltb o m)) || (leb m o && ltb o n)) ≡ (a || (leb l o && ltb o n))
joined true l m n o h k = refl
joined false l m n o h k = ground arith

nothing-pending : (a : Bool) (l o : ℕ) → a ≡ (a || (leb l o && ltb o (l + 0)))
nothing-pending true l o = refl
nothing-pending false l o = ground arith

pushed-IsValid :
    (chunk : List ℕ) (fin : Bool) (s : SendBuf)
    → IsValid s
    → s.off + length chunk ≤ s.max_data
    → IsValid (pushed chunk fin s)
unfolding Chunk.from Chunk.len
pushed-IsValid chunk fin s v h = record {
  chain =
      Chain-append s.bufs (Chunk.from chunk s.off fin) (s.off + length chunk) v.chain
        (from-IsValid chunk s.off fin) refl;
  counted = omega (arith, v.counted, total-append s.bufs (Chunk.from chunk s.off fin ∷ []));
  inside = omega (arith, v.inside, length-append s.bufs (Chunk.from chunk s.off fin ∷ []));
  sent = AllEmpty-append s.bufs s.pos (Chunk.from chunk s.off fin) v.inside v.sent;
  limited = h;
  emitted = omega (arith, v.emitted);
}

pub push_loop_lem :
    (cs : List (List ℕ)) (size len : ℕ) (fin : Bool) (s : SendBuf)
    → IsValid s
    → s.off + length (concat cs) ≤ s.max_data
    → ((push_loop cs size len fin s).0 ≡ len + length (concat cs))
      × Pushed (concat cs) s (push_loop cs size len fin s).1
unfolding push_loop
push_loop_lem [] size len fin s v h = (
  omega arith,
  record {
    valid = v;
    stored = sym (append-nil (stored s.bufs));
    off = omega arith;
    max_data = refl;
    fin_off = refl;
    acked = refl;
    count = omega arith;
    pending = λ o. nothing-pending (pending s.bufs o) s.off o;
    rest = refl;
  },
)
push_loop_lem (c ∷ cs) size len fin s v h =
    let s' = pushed c (len + length c == size && fin) s in
    let (l, p) =
      push_loop_lem cs size (len + length c) fin s'
        (pushed-IsValid c (len + length c == size && fin) s v
          (omega (arith, length-append c (concat cs))))
        (omega (arith, length-append c (concat cs))) in
    (
      omega (arith, l, length-append c (concat cs)),
      record {
        valid = p.valid;
        stored =
            p.stored
            ∙ ap (λ t. t ++ concat cs) (stored-from s.bufs c s.off (len + length c == size && fin))
            ∙ append_assoc (stored s.bufs) c (concat cs);
        fin_off = p.fin_off;
        acked = p.acked;
        off = omega (arith, p.off, length-append c (concat cs));
        max_data = p.max_data;
        count = omega (arith, p.count, length-append c (concat cs));
        pending = λ o.
            p.pending o
            ∙ ap (λ t. t || (leb s'.off o && ltb o (s'.off + length (concat cs))))
                (pushed-pending c (len + length c == size && fin) s o)
            ∙ joined (pending s.bufs o) s.off s'.off (s'.off + length (concat cs)) o (omega arith)
                (omega arith)
            ∙ ap (λ n. pending s.bufs o || (leb s.off o && ltb o n))
                {x = s.off + length c + length (concat cs)} {y = s.off + length (c ++ concat cs)}
                (omega (arith, length-append c (concat cs)));
        rest = p.rest;
      },
    )

pub Pushed-nothing : (s : SendBuf) → IsValid s → Pushed [] s s
Pushed-nothing s v = record {
  valid = v;
  stored = sym (append-nil (stored s.bufs));
  off = omega arith;
  max_data = refl;
  fin_off = refl;
  acked = refl;
  count = omega arith;
  pending = λ o. nothing-pending (pending s.bufs o) s.off o;
  rest = refl;
}
