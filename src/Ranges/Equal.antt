-- ===== src/Ranges/Equal.antt =====
-- RangeSet of quiche/src/ranges.rs, compared with a range.
use quirl.Ranges.{Range, RangeSet, iter, equals}
use quirl.Ranges.Union.{Above, IsSeparated, Covers}
use quirl.Ranges.View.{IsValid, len-iter}
use quirl.Common.{
  ℕ, suc, ◌-◌, ◌≤◌, ◌<◌, ◌≡◌, arith, List, [], ◌∷◌, length, true, false, not, ◌==◌, ◌&&◌,
  if◌then◌else◌, inl, inr, ◌↔◌, le_or_lt,
}

-- What stands from a place on begins there or behind.
Covers-Above : (lo x : ℕ) (rs : List Range) → Above lo rs → Covers x rs → lo ≤ x
Covers-Above lo x [] a c = absurd c
Covers-Above lo x ((s, e) ∷ rs) a (inl c) = omega arith
Covers-Above lo x ((s, e) ∷ rs) a (inr c) = omega (arith, Covers-Above (suc e) x rs a.2 c)

Covers-head :
    (x s e : ℕ) (rs : List Range)
    → Above (suc e) rs
    → x ≤ e
    → Covers x ((s, e) ∷ rs)
    → (s ≤ x) × (x < e)
Covers-head x s e rs a h (inl c) = c
Covers-head x s e rs a h (inr c) = absurd (omega (arith, Covers-Above (suc e) x rs a c))

abbrev Single : ℕ → ℕ → List Range → Type 0
Single start end [] = ⊥
Single start end ((s, e) ∷ []) = (s ≡ start) × (e ≡ end)
Single start end ((s, e) ∷ r ∷ rs) = ⊥

-- Separated ranges that hold the numbers of one range are that range.
Single-Covers :
    (start end : ℕ) (rs : List Range)
    → start < end
    → IsSeparated rs
    → ((x : ℕ) → Covers x rs ↔ ((start ≤ x) × (x < end)))
    → Single start end rs
Single-Covers start end [] h a c = (c start).1 (omega arith)
Single-Covers start end ((s, e) ∷ []) h a c =
    let first = (c s).0 (inl (omega arith)) in
    let last = (c (e - 1)).0 (inl (omega arith)) in
    (
      omega (arith, first, begins ((c start).1 (omega arith))),
      omega (arith, last, reaches (λ q. (c e).1 q)),
    )
  where
    begins : Covers start ((s, e) ∷ []) → s ≤ start
    begins (inl k) = omega arith
    begins (inr k) = absurd k

    reaches : (((start ≤ e) × (e < end)) → Covers e ((s, e) ∷ [])) → end ≤ e
    reaches q = elim (le_or_lt end e) [
      | inl le ↦ le
      | inr lt ↦ absurd (out (q (omega (arith, (c s).0 (inl (omega arith))))))
    ]
      where
        out : Covers e ((s, e) ∷ []) → ⊥
        out (inl k) = omega arith
        out (inr k) = k
Single-Covers start end ((s, e) ∷ (t, f) ∷ rs) h a c =
    let first = (c s).0 (inl (omega arith)) in
    let next = (c t).0 (inr (inl (omega arith))) in
    let at_end = Covers-head e s e ((t, f) ∷ rs) a.2 (omega arith) ((c e).1 (omega arith)) in
    omega arith

equals-Single :
    (start end : ℕ) (rs : List Range)
    → (if not (length rs == 1)
        then false
        else elim rs [ [] ↦ false | (s, e) ∷ rest ↦ s == start && e == end ])
      ≡ true
    → Single start end rs
equals-Single start end [] h = cc
equals-Single start end ((s, e) ∷ []) h = ground arith
equals-Single start end ((s, e) ∷ (t, f) ∷ rs) h = absurd (ground arith)

Single-equals :
    (start end : ℕ) (rs : List Range)
    → Single start end rs
    → (if not (length rs == 1)
        then false
        else elim rs [ [] ↦ false | (s, e) ∷ rest ↦ s == start && e == end ])
      ≡ true
Single-equals start end [] h = absurd h
Single-equals start end ((s, e) ∷ []) h = ground arith
Single-equals start end ((s, e) ∷ (t, f) ∷ rs) h = absurd h

Covers-Single :
    (start end : ℕ) (rs : List Range)
    → Single start end rs
    → (x : ℕ) → Covers x rs ↔ ((start ≤ x) × (x < end))
Covers-Single start end [] h x = absurd h
Covers-Single start end ((s, e) ∷ []) h x = (forth, λ k. inl (omega arith))
  where
    forth : Covers x ((s, e) ∷ []) → (start ≤ x) × (x < end)
    forth (inl k) = omega arith
    forth (inr k) = absurd k
Covers-Single start end ((s, e) ∷ (t, f) ∷ rs) h x = absurd h

-- A valid set is equal to a range that is not empty exactly if it holds the numbers of the range and
-- no others.
pub equals_lem :
    (start end : ℕ) (set : RangeSet)
    → start < end
    → IsValid set
    → (equals (start, end) set ≡ true) ↔ ((x : ℕ) → Covers x (iter set) ↔ ((start ≤ x) × (x < end)))
unfolding equals
equals_lem start end set h v = rw (len-iter set) (
  λ e. Covers-Single start end (iter set) (equals-Single start end (iter set) e),
  λ c. Single-equals start end (iter set) (Single-Covers start end (iter set) h v.separated c),
)
