-- ===== src/Hystart/Entry.antt =====
-- HyStart++ of quiche/src/recovery/congestion/hystart.rs over the acknowledgments of a round: when slow start ends.
use quirl.Common.{
  ℕ, ◌+◌, ◌/◌, ◌≤◌, ◌<◌, min, max, List, [], ◌∷◌, length, true, false, none, some, ◌≡◌, refl, sym,
  ◌∙◌, ap, arith, inl, inr, ◌⊎◌, leb, le_or_lt, if_elim, if◌then◌else◌, Option, Bool, not, ◌&&◌,
  ◌==◌,
}
use quirl.Hystart.{
  Hystart, is_some, start_round, rtt_thresh, slow_start, end_round, on_packet_acked, duration_max,
  css_rounds, n_rtt_sample,
}

abbrev pub smallest : List ℕ → ℕ
smallest [] = duration_max
smallest (r ∷ rs) = min r (smallest rs)

-- An eighth of the minimum of the round before, but 4 ms at least and 16 ms at most.
abbrev pub threshold : ℕ → ℕ
threshold n = max 4_000_000 (min 16_000_000 (n / 8))

-- The states after a round began and packets with these samples, the last one first, were
-- acknowledged, without leaving slow start.
pub data Sampled (pkt_num : ℕ) (h : Hystart) : List ℕ → Hystart → Type 0 where
  begun : Sampled pkt_num h [] (start_round pkt_num h)
  acked :
      {rs : List ℕ} {g : Hystart} (acked_num rtt now : ℕ)
      → Sampled pkt_num h rs g
      → (on_packet_acked acked_num rtt now g).0.css_start_time ≡ none
      → Sampled pkt_num h (rtt ∷ rs) (on_packet_acked acked_num rtt now g).0

record Round (h : Hystart) (rs : List ℕ) (g : Hystart) : Type 0 where
  enabled : g.enabled ≡ true
  start : g.css_start_time ≡ none
  count : g.rtt_sample_count ≡ length rs
  current : g.current_round_min_rtt ≡ smallest rs
  last : g.last_round_min_rtt ≡ h.current_round_min_rtt

-- What the end of a round leaves as it is.
record Kept (g h : Hystart) : Type 0 where
  enabled : h.enabled ≡ g.enabled
  start : h.css_start_time ≡ g.css_start_time
  count : h.rtt_sample_count ≡ g.rtt_sample_count
  current : h.current_round_min_rtt ≡ g.current_round_min_rtt
  last : h.last_round_min_rtt ≡ g.last_round_min_rtt
  baseline : h.css_baseline_min_rtt ≡ g.css_baseline_min_rtt

Kept-fields :
    (g : Hystart) (w : Option ℕ) (c : ℕ) → Kept g (record g { window_end = w; css_round_count = c })
Kept-fields g w c = record {
  enabled = refl;
  start = refl;
  count = refl;
  current = refl;
  last = refl;
  baseline = refl;
}

abbrev EndKept : Hystart → Hystart × Bool → Type 0
EndKept g r = Kept g r.0

end_round-Kept : (n : ℕ) (g : Hystart) → Kept g (end_round n g).0
unfolding end_round
end_round-Kept n g = by_end g.window_end refl
  where
    by_end :
        (o : Option ℕ)
        → g.window_end ≡ o
        → EndKept g (elim o [
          | none ↦ (g, false)
          | some e ↦
              if leb e n
              then (if is_some g.css_start_time
                  then (if leb css_rounds (g.css_round_count + 1)
                      then (record g { window_end = none; css_round_count = 0 }, true)
                      else (
                        record g { window_end = none; css_round_count = g.css_round_count + 1 },
                        false,
                      ))
                  else (record g { window_end = none }, false))
              else (g, false)
        ])
    by_end none q = Kept-fields g g.window_end g.css_round_count
    by_end (some e) q =
        if_elim (EndKept g) (leb e n)
          (λ _.
            if_elim (EndKept g) (is_some g.css_start_time)
              (λ _.
                if_elim (EndKept g) (leb css_rounds (g.css_round_count + 1))
                  (λ _. Kept-fields g none 0) (λ _. Kept-fields g none (g.css_round_count + 1)))
              (λ _. Kept-fields g none g.css_round_count))
          (λ _. Kept-fields g g.window_end g.css_round_count)

sample : ℕ → Hystart → Hystart
sample rtt g = record g {
  current_round_min_rtt = min g.current_round_min_rtt rtt;
  rtt_sample_count = g.rtt_sample_count + 1;
}

acked-eq :
    (n rtt now : ℕ) (g : Hystart)
    → g.enabled ≡ true
    → g.css_start_time ≡ none
    → on_packet_acked n rtt now g ≡ end_round n (slow_start now (sample rtt g))
unfolding on_packet_acked sample
acked-eq n rtt now g e c = rw (e, c) refl

-- Whether slow start ends: with eight samples whose minimum has risen by the threshold.
abbrev Decided : ℕ → Hystart → Hystart → Type 0
Decided now x y =
    ((y.css_start_time ≡ some now)
      × (y.css_baseline_min_rtt ≡ x.current_round_min_rtt)
      × (8 ≤ x.rtt_sample_count)
      × (x.last_round_min_rtt + threshold x.last_round_min_rtt ≤ x.current_round_min_rtt))
    ⊎ ((y ≡ x)
        × ((x.rtt_sample_count < 8)
            ⊎ (x.current_round_min_rtt < x.last_round_min_rtt + threshold x.last_round_min_rtt)))

slow_start-Decided :
    (now : ℕ) (x : Hystart)
    → x.current_round_min_rtt < duration_max
    → Decided now x (slow_start now x)
unfolding slow_start rtt_thresh
slow_start-Decided now x h =
    if_elim (Decided now x)
      (leb n_rtt_sample x.rtt_sample_count
        && (not (x.current_round_min_rtt == duration_max)
            && (not (x.last_round_min_rtt == duration_max)
                && leb (min (x.last_round_min_rtt + rtt_thresh x.last_round_min_rtt) duration_max)
                    x.current_round_min_rtt)))
      (λ t. inl (refl, refl, ground arith, ground arith)) (λ f. inr (refl, stays f))
  where
    stays :
        (leb n_rtt_sample x.rtt_sample_count
            && (not (x.current_round_min_rtt == duration_max)
                && (not (x.last_round_min_rtt == duration_max)
                    && leb
                        (min (x.last_round_min_rtt + rtt_thresh x.last_round_min_rtt) duration_max)
                        x.current_round_min_rtt)))
          ≡ false
        → (x.rtt_sample_count < 8)
          ⊎ (x.current_round_min_rtt < x.last_round_min_rtt + threshold x.last_round_min_rtt)
    stays f = elim (le_or_lt 8 x.rtt_sample_count) [
      | inr few ↦ inl few
      | inl many ↦
          elim (le_or_lt (x.last_round_min_rtt + threshold x.last_round_min_rtt)
            x.current_round_min_rtt) [
              | inr below ↦ inr below
              | inl risen ↦ absurd (ground (arith, f, many, risen, h))
            ]
    ]

slow_start-stays :
    (now : ℕ) (x : Hystart) → (slow_start now x).css_start_time ≡ none → slow_start now x ≡ x
unfolding slow_start
slow_start-stays now x =
    if_elim (λ (y : Hystart). y.css_start_time ≡ none → y ≡ x)
      (leb n_rtt_sample x.rtt_sample_count
        && (not (x.current_round_min_rtt == duration_max)
            && (not (x.last_round_min_rtt == duration_max)
                && leb (min (x.last_round_min_rtt + rtt_thresh x.last_round_min_rtt) duration_max)
                    x.current_round_min_rtt)))
      (λ _ e. cc) (λ _ e. refl)

sampled-Round :
    (h : Hystart) (rs : List ℕ) (g : Hystart) (rtt n : ℕ)
    → Round h rs g
    → Round h (rtt ∷ rs) (end_round n (sample rtt g)).0
unfolding sample
sampled-Round h rs g rtt n q =
    let k = end_round-Kept n (sample rtt g) in
    record {
      enabled = k.enabled ∙ q.enabled;
      start = k.start ∙ q.start;
      count = omega (arith, k.count, q.count);
      current = omega (arith, k.current, q.current);
      last = k.last ∙ q.last;
    }

Sampled-Round :
    (pkt_num : ℕ) (h : Hystart) {rs : List ℕ} {g : Hystart}
    → h.enabled ≡ true
    → h.css_start_time ≡ none
    → h.window_end ≡ none
    → Sampled pkt_num h rs g
    → Round h rs g
unfolding start_round
Sampled-Round pkt_num h e c w begun =
    rw w (record { enabled = e; start = c; count = refl; current = refl; last = refl })
Sampled-Round pkt_num h e c w (acked {rs} {g} n rtt now p stays) =
    let q = Sampled-Round pkt_num h e c w p in
    let x = sample rtt g in
    let eq = acked-eq n rtt now g q.enabled q.start in
    let same = slow_start-stays now x (
      sym (end_round-Kept n (slow_start now x)).start
      ∙ ap (λ r. r.0.css_start_time) (sym eq)
      ∙ stays) in
    rw (eq, same) (sampled-Round h rs g rtt n q)

-- A round of HyStart++ in slow start: after it began, packets were acknowledged with the samples rs,
-- and none of them ended slow start. The next sample, below the longest duration, changes to
-- conservative slow start exactly if there are eight samples by then, and their smallest is at least
-- that of the round before and an eighth of it more, where the eighth counts as 4 ms at least and
-- 16 ms at most. The change is dated now, and that smallest sample is kept as the one to compare with;
-- else slow start goes on.
pub round_entry :
    (pkt_num acked_num rtt now : ℕ) (h : Hystart) {rs : List ℕ} {g : Hystart}
    → h.enabled ≡ true
    → h.css_start_time ≡ none
    → h.window_end ≡ none
    → rtt < duration_max
    → Sampled pkt_num h rs g
    → (((on_packet_acked acked_num rtt now g).0.css_start_time ≡ some now)
        × ((on_packet_acked acked_num rtt now g).0.css_baseline_min_rtt ≡ smallest (rtt ∷ rs))
        × (8 ≤ length (rtt ∷ rs))
        × (h.current_round_min_rtt + threshold h.current_round_min_rtt ≤ smallest (rtt ∷ rs)))
      ⊎ (((on_packet_acked acked_num rtt now g).0.css_start_time ≡ none)
          × ((length (rtt ∷ rs) < 8)
              ⊎ (smallest (rtt ∷ rs)
                  < h.current_round_min_rtt + threshold h.current_round_min_rtt)))
unfolding sample
round_entry pkt_num n rtt now h {rs} {g} e c w small p =
    let q = Sampled-Round pkt_num h e c w p in
    let x = sample rtt g in
    let k = end_round-Kept n (slow_start now x) in
    let cur : x.current_round_min_rtt ≡ smallest (rtt ∷ rs) = omega (arith, q.current) in
    let last : x.last_round_min_rtt ≡ h.current_round_min_rtt = q.last in
    rw (acked-eq n rtt now g q.enabled q.start)
      (elim (slow_start-Decided now x (omega (arith, small))) [
        | inl (start, base, many, risen) ↦ inl (
          k.start ∙ start,
          k.baseline ∙ base ∙ cur,
          omega (arith, many, q.count),
          rw (last, cur) at risen,
        )
        | inr (same, inl few) ↦ inr (
          k.start ∙ ap (λ (y : Hystart). y.css_start_time) same ∙ q.start,
          inl (omega (arith, few, q.count)),
        )
        | inr (same, inr below) ↦ inr (
          k.start ∙ ap (λ (y : Hystart). y.css_start_time) same ∙ q.start,
          inr (rw (last, cur) at below),
        )
      ])
