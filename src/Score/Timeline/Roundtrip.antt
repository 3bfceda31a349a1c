-- ===== src/Score/Timeline/Roundtrip.antt =====
-- Order and round trip of the tempo-map conversions.
use master_all_strings.Prelude.{
  ℕ, ◌+◌, ◌-◌, ◌*◌, ◌≤◌, ◌<◌, List, [], ◌∷◌, leb, ◌≡◌, ap, arith, inl, inr, Bool-cases,
}
use master_all_strings.Score.Rounding.Natural.{
  round_div, round_div_mono, round_div_pos_iff, round_div_roundtrip,
}
use master_all_strings.Score.Tempo.{TempoChange}
use master_all_strings.Score.Timeline.Spec.{
  span, elapsed_at, tick_at, IsAscending, IsCoarse, StartsBy,
}

span_mono : (ppq : ℕ) (c : TempoChange) (s t : ℕ) → 0 < ppq → s ≤ t → span ppq c s ≤ span ppq c t
unfolding span
span_mono ppq c s t h le = round_div_mono _ _ ppq h (grind arith)

span_pos :
    (ppq : ℕ) (c : TempoChange) (t : ℕ)
    → 0 < ppq
    → ppq ≤ c.microseconds_per_quarter
    → 0 < t
    → 0 < span ppq c t
unfolding span
span_pos ppq c t h coarse pos_t =
    (round_div_pos_iff (t * c.microseconds_per_quarter) ppq h).1 (grind arith)

pub elapsed_at_mono :
    (ppq : ℕ) (m : List TempoChange) (s t : ℕ)
    → 0 < ppq
    → s ≤ t
    → elapsed_at ppq m s ≤ elapsed_at ppq m t
unfolding elapsed_at
elapsed_at_mono ppq [] s t h le = omega arith
elapsed_at_mono ppq (c ∷ []) s t h le = span_mono ppq c (s - c.tick) (t - c.tick) h (omega arith)
elapsed_at_mono ppq (c ∷ n ∷ rest) s t h le = ground (
  arith,
  elapsed_at_mono ppq (n ∷ rest) s t h le,
  span_mono ppq c (s - c.tick) (t - c.tick) h (omega arith),
  span_mono ppq c (s - c.tick) (n.tick - c.tick) h,
)

pub elapsed_at_pos :
    (ppq : ℕ) (c : TempoChange) (rest : List TempoChange) (t : ℕ)
    → 0 < ppq
    → IsCoarse ppq (c ∷ rest)
    → IsAscending (c ∷ rest)
    → c.tick < t
    → 0 < elapsed_at ppq (c ∷ rest) t
unfolding elapsed_at
elapsed_at_pos ppq c [] t h coarse asc lt = span_pos ppq c (t - c.tick) h coarse.0 (omega arith)
elapsed_at_pos ppq c (n ∷ rest) t h coarse asc lt = ground (
  arith,
  span_pos ppq c (t - c.tick) h coarse.0 (omega arith),
  span_pos ppq c (n.tick - c.tick) h coarse.0 (omega arith),
)

span_back :
    (ppq : ℕ) (c : TempoChange) (t : ℕ)
    → 0 < ppq
    → ppq ≤ c.microseconds_per_quarter
    → round_div (span ppq c t * ppq) c.microseconds_per_quarter ≡ t
unfolding span
span_back ppq c t h coarse = round_div_roundtrip t ppq c.microseconds_per_quarter h coarse

pub tick_at-elapsed_at :
    (ppq : ℕ) (m : List TempoChange) (t : ℕ)
    → 0 < ppq
    → IsCoarse ppq m
    → IsAscending m
    → StartsBy t m
    → tick_at ppq m (elapsed_at ppq m t) ≡ t
unfolding tick_at elapsed_at
tick_at-elapsed_at ppq [] t h coarse asc start = absurd start
tick_at-elapsed_at ppq (c ∷ []) t h coarse asc start =
    rw (span_back ppq c (t - c.tick) h coarse.0) (omega arith)
tick_at-elapsed_at ppq (c ∷ n ∷ rest) t h coarse asc start = elim (Bool-cases (leb t n.tick)) [
  | inl early ↦ ground (
    arith,
    span_back ppq c (t - c.tick) h coarse.0,
    span_mono ppq c (t - c.tick) (n.tick - c.tick) h,
  )
  | inr late ↦
      let s = span ppq c (n.tick - c.tick) in
      let e = elapsed_at ppq (n ∷ rest) t in
      let past : n.tick < t = ground arith in
      let drop : s + e - s ≡ e = omega arith in
      ground (
        arith,
        tick_at-elapsed_at ppq (n ∷ rest) t h coarse.1 asc.1 (omega arith),
        elapsed_at_pos ppq n rest t h coarse.1 asc.1 past,
        ap (tick_at ppq (n ∷ rest)) drop,
      )
]
