-- ===== src/Hystart/Phases.antt =====
-- The phases of HyStart++, quiche/src/recovery/congestion/hystart.rs: slow start, conservative slow start, congestion avoidance.
use quirl.Common.{
  ℕ, ◌+◌, ◌≤◌, ◌<◌, min, if◌then◌else◌, Bool-cases, true, false, Option-cases, ◌↔◌, none, some, ◌≡◌,
  arith, inl, inr,
}
use quirl.Hystart.{
  Hystart, is_some, rtt_thresh, slow_start, conservative_slow_start, end_round, on_packet_acked,
  css_rounds, min_rtt_thresh, max_rtt_thresh,
}

-- The counter of rounds stays below its end, and counts only in conservative slow start.
pub record IsValid (h : Hystart) : Type 0 where
  pub rounds : h.css_round_count < css_rounds

pub rtt_thresh_bounds : (n : ℕ) → (min_rtt_thresh ≤ rtt_thresh n) × (rtt_thresh n ≤ max_rtt_thresh)
unfolding rtt_thresh
rtt_thresh_bounds n = (omega arith, omega arith)

slow_start-rounds : (now : ℕ) (h : Hystart) → (slow_start now h).css_round_count ≡ h.css_round_count
unfolding slow_start
slow_start-rounds now h = ground arith

conservative-rounds :
    (h : Hystart) → (conservative_slow_start h).css_round_count ≤ h.css_round_count
unfolding conservative_slow_start
conservative-rounds h = ground arith

end_round-IsValid : (pkt_num : ℕ) (h : Hystart) → IsValid h → IsValid (end_round pkt_num h).0
unfolding end_round
end_round-IsValid pkt_num h v = ground arith

-- The round that ended was the last one.
abbrev pub Exits : ℕ → Hystart → Type 0
Exits pkt_num h =
    (h.css_round_count ≡ 4)
    × (is_some h.css_start_time ≡ true)
    × ((n : ℕ) × (h.window_end ≡ some n) × (n ≤ pkt_num))

end_round_exit :
    (pkt_num : ℕ) (h : Hystart) → IsValid h → (end_round pkt_num h).1 ≡ true → Exits pkt_num h
unfolding end_round
end_round_exit pkt_num h v e = elim (Option-cases h.window_end) [
  | inl w ↦ absurd (ground arith)
  | inr (n, w) ↦ (ground arith, ground arith, (n, w, ground arith))
]

slow_start-IsValid : (now : ℕ) (h : Hystart) → IsValid h → IsValid (slow_start now h)
slow_start-IsValid now h v = omega (arith, slow_start-rounds now h)

conservative-IsValid : (h : Hystart) → IsValid h → IsValid (conservative_slow_start h)
conservative-IsValid h v = omega (arith, conservative-rounds h, v.rounds)

-- Conservative slow start is left for slow start exactly when eight samples show a minimum below the
-- one at its entry.
conservative_slow_start_exit :
    (t : ℕ) (h : Hystart)
    → h.css_start_time ≡ some t
    → ((conservative_slow_start h).css_start_time ≡ none)
      ↔ ((8 ≤ h.rtt_sample_count) × (h.current_round_min_rtt < h.css_baseline_min_rtt))
unfolding conservative_slow_start
conservative_slow_start_exit t h e = (λ g. ground arith, λ g. ground arith)

module _ (pkt_num rtt now : ℕ) (h : Hystart) (v : IsValid h) where
  -- The state after the sample is taken and the phase is chosen.
  sampled : Hystart
  sampled =
      let h₁ = record h {
        current_round_min_rtt = min h.current_round_min_rtt rtt;
        rtt_sample_count = h.rtt_sample_count + 1;
      } in
      if is_some h₁.css_start_time then conservative_slow_start h₁ else slow_start now h₁

  sampled-IsValid : IsValid sampled
  unfolding sampled
  sampled-IsValid =
      let h₁ = record h {
        current_round_min_rtt = min h.current_round_min_rtt rtt;
        rtt_sample_count = h.rtt_sample_count + 1;
      } in
      elim (Bool-cases (is_some h.css_start_time)) [
        | inl e ↦ rw e (conservative-IsValid h₁ (record { rounds = v.rounds }))
        | inr e ↦ rw e (slow_start-IsValid now h₁ (record { rounds = v.rounds }))
      ]

  sampled-rounds : sampled.css_round_count ≤ h.css_round_count
  unfolding sampled
  sampled-rounds =
      let h₁ = record h {
        current_round_min_rtt = min h.current_round_min_rtt rtt;
        rtt_sample_count = h.rtt_sample_count + 1;
      } in
      elim (Bool-cases (is_some h.css_start_time)) [
        | inl e ↦ rw e (conservative-rounds h₁)
        | inr e ↦ rw e (omega (arith, slow_start-rounds now h₁))
      ]

  acked_disabled : h.enabled ≡ false → on_packet_acked pkt_num rtt now h ≡ (h, false)
  unfolding on_packet_acked
  acked_disabled e = rw e

  acked_enabled : h.enabled ≡ true → on_packet_acked pkt_num rtt now h ≡ end_round pkt_num sampled
  unfolding on_packet_acked sampled
  acked_enabled e = rw e

  -- An acknowledgment keeps the counter of rounds below its end; where HyStart++ is not enabled it
  -- changes nothing and reports nothing; and only with the fifth round that ends in conservative slow
  -- start does it report that congestion avoidance is entered.
  on_packet_acked_lem :
      IsValid (on_packet_acked pkt_num rtt now h).0
      × (h.enabled ≡ false → on_packet_acked pkt_num rtt now h ≡ (h, false))
      × ((on_packet_acked pkt_num rtt now h).1 ≡ true
          → (h.enabled ≡ true) × (h.css_round_count ≡ 4))
  on_packet_acked_lem = elim (Bool-cases h.enabled) [
    | inr e ↦ (rw (acked_disabled e) v, acked_disabled, λ x. absurd (cc (acked_disabled e)))
    | inl e ↦ (
      rw (acked_enabled e) (end_round-IsValid pkt_num sampled sampled-IsValid),
      acked_disabled,
      λ x.
          let (four, css, w) =
            end_round_exit pkt_num sampled sampled-IsValid (rw (acked_enabled e) at x) in
          (e, omega (arith, four, sampled-rounds, v.rounds)),
    )
  ]
