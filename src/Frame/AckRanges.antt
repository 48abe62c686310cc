-- ===== src/Frame/AckRanges.antt =====
-- The ranges of the ACK frames of quiche/src/frame.rs: read block by block into the set that was sent.
use quirl.Common.{
  ℕ, suc, ◌+◌, ◌-◌, ◌^◌, ◌<◌, ◌≡◌, refl, ap, ◌∙◌, List, [], ◌∷◌, length, arith, some, ltb-false,
  lt→ltb,
}
use quirl.Ranges.{Range, RangeSet, iter, insert, default}
use quirl.Ranges.Union.{Above, union}
use quirl.Ranges.View.{IsValid, capacity, insert-eq-union, len-iter, iter-default, default-IsValid}
use quirl.Frame.Print.{onto}
use quirl.Frame.Parse.{insert_range, ack_blocks, ack_ranges}
use quirl.Frame.Format.{Below, block_pieces}
use quirl.Frame.Reads.{Reads, bind, done, varint-Reads}

-- A valid set that has these ranges, with room for `n` more.
record Holds (n : ℕ) (set : RangeSet) (rs : List Range) : Type 0 where
  pub valid : IsValid set
  pub ranges : iter set ≡ rs
  pub room : length rs + n < capacity set

-- A range below all others is put before them.
union-below :
    (s e lo : ℕ) (rs : List Range) → s < e → e < lo → Above lo rs → union s e rs ≡ (s, e) ∷ rs
unfolding union
union-below s e lo [] l h w = refl
union-below s e lo ((a, b) ∷ rs) l h (x, y, z) =
    rw (ltb-false b s (omega arith), lt→ltb e a (omega arith)) refl

insert-Holds :
    (n s e lo : ℕ) (set : RangeSet) (rs : List Range)
    → s < e
    → e < lo
    → Above lo rs
    → Holds (suc n) set rs
    → (set' : RangeSet) × (insert (s, e) set ≡ some set') × Holds n set' ((s, e) ∷ rs)
insert-Holds n s e lo set rs l h w held =
    let (set', done', v, i, c) =
      insert-eq-union s e set l held.valid
        (omega (arith, len-iter set, ap length held.ranges, held.room)) in
    (
      set',
      done',
      record {
        valid = v;
        ranges = i ∙ ap (union s e) held.ranges ∙ union-below s e lo rs l h w;
        room = omega (arith, c, held.room);
      },
    )

insert_range-Reads :
    {rest : List ℕ} (r : Range) (set set' : RangeSet)
    → insert r set ≡ some set'
    → Reads rest (insert_range r set) [] set'
unfolding insert_range
insert_range-Reads r set set' h = record { reads = λ b e. rw (insert_range, h) (done.reads b e) }

block_start : (hi s t : ℕ) → t < hi → s < t → hi - (hi - t - 1) - 2 - (t - 1 - s) ≡ s
block_start hi s t h l = omega arith

block_end : (hi t : ℕ) → t < hi → 0 < t → hi - (hi - t - 1) - 2 + 1 ≡ t
block_end hi t h l = omega arith

first_start : (s t : ℕ) → s < t → t - 1 - (t - 1 - s) ≡ s
first_start s t h = omega arith

first_end : (t : ℕ) → 0 < t → t - 1 + 1 ≡ t
first_end t h = omega arith

blocks-Reads :
    (rest : List ℕ) (hi : ℕ) (rs : List Range) (e : ℕ) (set : RangeSet) (acc : List Range)
    → hi < e
    → hi < 2 ^ 62
    → Below hi rs
    → Above (suc e) acc
    → Holds (length rs) set ((hi, e) ∷ acc)
    → (set' : RangeSet) × Reads rest (ack_blocks (length rs) hi set) (block_pieces hi rs) set'
      × Holds 0 set' (onto rs ((hi, e) ∷ acc))
unfolding ack_blocks onto
blocks-Reads rest hi [] e set acc l small b a held = (set, done, held)
blocks-Reads rest hi ((s, t) ∷ rs) e set acc l small (x, y, z) a held =
    let (set1, ins, held1) =
      insert-Holds (length rs) s t hi set ((hi, e) ∷ acc) y x (omega arith, l, a) held in
    let (set', read, held') =
      blocks-Reads rest s rs t set1 ((hi, e) ∷ acc) y (omega arith) z (omega arith, l, a) held1 in
    (
      set',
      bind _ (varint-Reads (hi - t - 1) (omega arith)) (
          rw (ltb-false hi (2 + (hi - t - 1)) (omega arith)) (
            bind _ (varint-Reads (t - 1 - s) (omega arith)) (
              rw
                (
                  ltb-false (hi - (hi - t - 1) - 2) (t - 1 - s) (omega arith),
                  block_start hi s t x y,
                  block_end hi t x (omega arith),
                )
                (bind _ (insert_range-Reads (s, t) set set1 ins) read)))),
      held',
    )

-- Ranges from the largest down, as the blocks of a frame, are read into a set that has them from the
-- smallest up.
pub ack_ranges-Reads :
    (rest : List ℕ) (s t : ℕ) (rs : List Range)
    → s < t
    → t < 2 ^ 62
    → Below s rs
    → length rs < 2 ^ 62
    → (set' : RangeSet) × Reads rest
        (ack_ranges (t - 1) (length rs) (t - 1 - s))
        (block_pieces s rs)
        set'
      × (iter set' ≡ onto rs ((s, t) ∷ []))
unfolding ack_ranges capacity
ack_ranges-Reads rest s t rs y x z n =
    let (set1, ins, held1) =
      insert-Holds (length rs) s t (t + 1) default [] y (omega arith) tt
        (record { valid = default-IsValid; ranges = iter-default; room = omega arith }) in
    let (set', read, held') = blocks-Reads rest s rs t set1 [] y (omega arith) z tt held1 in
    (
      set',
      rw (ltb-false (t - 1) (t - 1 - s) (omega arith), first_start s t y, first_end t (omega arith))
          (bind _ (insert_range-Reads (s, t) default set1 ins) read),
      held'.ranges,
    )
