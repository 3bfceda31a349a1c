-- ===== src/Score/Timeline/Bridge.antt =====
-- The loops of core/score/musical_timeline.py compute the specification.
use master_all_strings.Prelude.{
  ℕ, ◌+◌, ◌-◌, ◌*◌, ◌≤◌, ◌<◌, List, [], ◌∷◌, leb, min, All, ◌≡◌, ap, ◌∙◌, arith, inl, inr,
  Bool-cases, ok,
}
use master_all_strings.Prelude.Int.{pos, ◌+ℤ◌, ◌*ℤ◌, pos--ℤ}
use master_all_strings.Score.Rounding.Natural.{round_div_zero}
use master_all_strings.Score.Rounding.Laws.{divide_round_natural}
use master_all_strings.Score.Tempo.{TempoChange}
use master_all_strings.Score.Timeline.{
  segment_microseconds, add_segment, microseconds_loop, ticks_loop,
}
use native.Mathlib.Nat.{add_assoc}
use master_all_strings.Score.Timeline.Spec.{span, elapsed_at, tick_at, IsAscending, StartsBy}

module _ (ppq : ℕ) (h : 0 < ppq) where
  pub segment_microseconds_natural :
      (c : TempoChange) (d : ℕ)
      → segment_microseconds (pos d) (pos ppq) (pos c.microseconds_per_quarter)
        ≡ ok (pos (span ppq c d))
  unfolding segment_microseconds ◌*ℤ◌ span
  segment_microseconds_natural c d =
      ground (arith, divide_round_natural (d * c.microseconds_per_quarter) ppq h)

  span_none : (c : TempoChange) (d : ℕ) → d ≤ 0 → span ppq c d ≡ 0
  unfolding span
  span_none c d none =
      let e : d * c.microseconds_per_quarter ≡ 0 = ground arith in rw (e, round_div_zero ppq h)

  add_segment_natural :
      (c : TempoChange) (end e : ℕ)
      → add_segment ppq c end (pos e) ≡ ok (pos (e + span ppq c (end - c.tick)))
  unfolding add_segment ◌+ℤ◌
  add_segment_natural c end e =
      ground (arith, segment_microseconds_natural c (end - c.tick), span_none c (end - c.tick))

  pub microseconds_loop_natural :
      (m : List TempoChange) (t e : ℕ)
      → StartsBy t m
      → IsAscending m
      → microseconds_loop t ppq m (pos e) ≡ ok (pos (e + elapsed_at ppq m t))
  unfolding microseconds_loop elapsed_at
  microseconds_loop_natural [] t e start asc = absurd start
  microseconds_loop_natural (c ∷ []) t e start asc = rw (add_segment_natural c t e)
  microseconds_loop_natural (c ∷ n ∷ rest) t e start asc = elim (Bool-cases (leb t n.tick)) [
    | inl early ↦
        let m : min t n.tick ≡ t = ground arith in rw (m, early, add_segment_natural c t e)
    | inr late ↦
        let m : min t n.tick ≡ n.tick = ground arith in
        let past : n.tick ≤ t = ground arith in
        rw (m, late, add_segment_natural c n.tick e)
          (microseconds_loop_natural (n ∷ rest) t (e + span ppq c (n.tick - c.tick)) past asc.1
            ∙ ap (λ k. ok (pos k)) (add_assoc e _ _))
  ]

  pub ticks_loop_natural :
      (m : List TempoChange) (t r : ℕ)
      → StartsBy t m
      → IsAscending m
      → All (λ c. 0 < c.microseconds_per_quarter) m
      → ticks_loop ppq m (pos r) ≡ ok (pos (tick_at ppq m r))
  unfolding ticks_loop tick_at ◌+ℤ◌ ◌*ℤ◌
  ticks_loop_natural [] t r start asc positive = absurd start
  ticks_loop_natural (c ∷ []) t r start asc positive =
      ground (arith, divide_round_natural (r * ppq) c.microseconds_per_quarter positive.0)
  ticks_loop_natural (c ∷ n ∷ rest) t r start asc positive = ground (
    arith,
    divide_round_natural (r * ppq) c.microseconds_per_quarter positive.0,
    segment_microseconds_natural c (n.tick - c.tick),
    pos--ℤ n.tick c.tick,
    asc.0.0,
    pos--ℤ r (span ppq c (n.tick - c.tick)),
    ticks_loop_natural (n ∷ rest) n.tick (r - span ppq c (n.tick - c.tick)) le_self asc.1
        positive.1,
  )
    where
      le_self : n.tick ≤ n.tick
      le_self = omega arith
