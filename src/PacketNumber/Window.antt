-- ===== src/PacketNumber/Window.antt =====
-- PktNumWindow of quiche/src/packet.rs: what `contains` answers after `insert`.
use quirl.Common.{
  ℕ, ◌+◌, ◌-◌, ◌%◌, ◌^◌, ◌≤◌, ◌<◌, ltb, ◌==◌, ◌≡◌, arith, Bool-cases, ltb→lt, lt→ltb, ltb-false,
  ◌∙◌, inl, inr, true, ◌||◌,
}
use quirl.PacketNumber.{PktNumWindow, checked_shl_or_zero, set_bit, upper, slide, insert, contains}

-- The window lies below the largest packet number, so the additions do not saturate.
abbrev pub InRange : PktNumWindow → Type 0
InRange w = w.lower + 128 < 2 ^ 64

upper-lower : (w : PktNumWindow) → InRange w → upper w ≡ w.lower + 127
unfolding upper
upper-lower w r = omega arith

insert_behind : (seq : ℕ) (w : PktNumWindow) → seq < w.lower → insert seq w ≡ w
unfolding insert
insert_behind seq w h = rw (lt→ltb seq w.lower h)

insert_inside :
    (seq : ℕ) (w : PktNumWindow)
    → w.lower ≤ seq
    → seq ≤ upper w
    → insert seq w ≡ record w { window = set_bit w.window (upper w - seq) }
unfolding insert slide
insert_inside seq w h k = rw (ltb-false seq w.lower h, ltb-false (upper w) seq k)

-- The window after a packet on its right end.
abbrev slid : ℕ → PktNumWindow → PktNumWindow
slid seq w = record {
  lower = w.lower + (seq - upper w);
  window = set_bit (checked_shl_or_zero w.window ((seq - upper w) % 2 ^ 32)) 0;
}

insert_ahead :
    (seq : ℕ) (w : PktNumWindow)
    → InRange w
    → seq < 2 ^ 62
    → upper w < seq
    → insert seq w ≡ slid seq w
unfolding insert slide
insert_ahead seq w r big k =
    let u = upper-lower w r in
    let moved : PktNumWindow = record {
      lower = w.lower + (seq - upper w);
      window = checked_shl_or_zero w.window ((seq - upper w) % 2 ^ 32);
    } in
    let v : upper moved ≡ seq = upper-lower moved (omega arith) ∙ omega arith in
    let z : upper moved - seq ≡ 0 = omega arith in
    rw (ltb-false seq w.lower (omega arith), lt→ltb (upper w) seq k, z)

-- For every two numbers: after `seq` is inserted, `x` counts as received exactly if it is `seq`, if
-- the window has left it behind, or if it counted so before. `seq` is less than 2^32 numbers ahead.
pub contains-insert :
    (seq x : ℕ) (w : PktNumWindow)
    → InRange w
    → seq < 2 ^ 62
    → seq < upper w + 2 ^ 32
    → contains x (insert seq w) ≡ ((x == seq) || (ltb x (insert seq w).lower || contains x w))
contains-insert seq x w r big near = elim (Bool-cases (ltb seq w.lower)) [
  | inl a ↦
      rw (insert_behind seq w (ltb→lt _ _ a)) (unfold contains in ground (arith, upper-lower w r))
  | inr a ↦ elim (Bool-cases (ltb (upper w) seq)) [
    | inr b ↦
        rw (insert_inside seq w (ground arith) (ground arith))
          (unfold contains set_bit upper in ground arith)
    | inl b ↦ rw (insert_ahead seq w r big (ltb→lt _ _ b)) (
        unfold contains set_bit checked_shl_or_zero in
        ground (arith, upper-lower w r, upper-lower (slid seq w) (ground (arith, upper-lower w r))))
  ]
]

-- A packet number exactly 2^32 ahead moves the window and does not clear it: a number that was never
-- received then counts as received if the number 2^32 below it was.
pub contains-insert_far :
    (x : ℕ) (w : PktNumWindow)
    → InRange w
    → w.lower < 2 ^ 61
    → w.lower ≤ x
    → x < upper w
    → contains x w ≡ true
    → contains (x + 2 ^ 32) (insert (upper w + 2 ^ 32) w) ≡ true
contains-insert_far x w r small lo hi got =
    let u = upper-lower w r in
    rw (insert_ahead (upper w + 2 ^ 32) w r (omega arith) (omega arith)) (
      unfold contains set_bit checked_shl_or_zero in
      ground (arith, u, upper-lower (slid (upper w + 2 ^ 32) w) (omega arith)))
