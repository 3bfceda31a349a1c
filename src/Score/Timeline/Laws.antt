-- ===== src/Score/Timeline/Laws.antt =====
-- What core/score/musical_timeline.py promises of its two conversions.
use Prim.Native.Nat.pow
use master_all_strings.Prelude.{
  ℕ, zero, suc, ◌+◌, ◌*◌, ◌^◌, ◌≤◌, ◌<◌, ◌≡◌, refl, ap, ◌∙◌, arith, List, [], ◌∷◌, ok,
}
use master_all_strings.Prelude.Int.{pos, ◌*ℤ◌}
use master_all_strings.Score.Rounding.Natural.{round_div, round_div_unique}
use master_all_strings.Score.Rounding.Laws.{divide_round_natural}
use master_all_strings.Score.Tempo.{TempoChange, Number, binary}
use master_all_strings.Score.Timeline.{
  normalize_tempo_map, ticks_to_microseconds, seconds_to_ticks, ticks_to_seconds, FloatSeconds,
}
use master_all_strings.Score.Timeline.Spec.{elapsed_at, tick_at, IsCoarse, StartsBy}
use master_all_strings.Score.Timeline.Normal.{normalize_tempo_map-ok, IsAtZero}
use master_all_strings.Score.Timeline.Bridge.{microseconds_loop_natural, ticks_loop_natural}
use master_all_strings.Score.Timeline.Roundtrip.{elapsed_at_mono, tick_at-elapsed_at}

StartsBy-of_IsAtZero : (t : ℕ) (m : List TempoChange) → IsAtZero m → StartsBy t m
StartsBy-of_IsAtZero t [] h = h
StartsBy-of_IsAtZero t (c ∷ m) h = omega arith

pow_pos : (k : ℕ) → 0 < 2 ^ k
pow_pos zero = omega (arith, pow.zero 2)
pow_pos (suc k) = omega (arith, pow.suc 2 k, pow_pos k)

-- A float that is close to an elapsed time below 2^50 microseconds rounds to it.
nearest_microsecond :
    (us n d : ℕ)
    → 0 < d
    → us < 2 ^ 50
    → us * d * 2 ^ 51 ≤ n * 1_000_000 * 2 ^ 51 + us * d
    → n * 1_000_000 * 2 ^ 51 ≤ us * d * 2 ^ 51 + us * d
    → round_div (n * 1_000_000) d ≡ us
nearest_microsecond us n d positive small low high =
    let bound : us * d + d ≤ 1_125_899_906_842_624 * d = grind (arith, small) in
    round_div_unique (n * 1_000_000) d us positive (omega (arith, bound, low, high))
      (omega (arith, bound, low, high))

-- A resolution, and tempo changes that are normalized to a map.
module _ (ppq : ℕ) (h : 0 < ppq) (cs m : List TempoChange) (e : normalize_tempo_map cs ≡ ok m) where
  pub ticks_to_microseconds_natural :
      (t : ℕ) → ticks_to_microseconds (pos t) (pos ppq) cs ≡ ok (pos (elapsed_at ppq m t))
  unfolding ticks_to_microseconds
  ticks_to_microseconds_natural t =
      let (asc, zero_first, positive, _) = normalize_tempo_map-ok cs m e in
      ground
        (arith, e, microseconds_loop_natural ppq h m t 0 (StartsBy-of_IsAtZero t m zero_first) asc)

  pub seconds_to_ticks_natural :
      (us n k : ℕ)
      → round_div (n * 1_000_000) (2 ^ k) ≡ us
      → seconds_to_ticks (binary (pos n) k) (pos ppq) cs ≡ ok (pos (tick_at ppq m us))
  unfolding seconds_to_ticks ◌*ℤ◌
  seconds_to_ticks_natural us n k rounds =
      let (asc, zero_first, positive, _) = normalize_tempo_map-ok cs m e in
      ground (
        arith,
        e,
        rounds,
        divide_round_natural (n * 1_000_000) (2 ^ k) (pow_pos k),
        ticks_loop_natural ppq h m 0 us (StartsBy-of_IsAtZero 0 m zero_first) asc positive,
      )

  -- For a positive resolution and changes that normalize to a map, both of two ticks have an elapsed
  -- time, and the later one is reached no earlier.
  pub ticks_to_microseconds_mono :
      (s t : ℕ)
      → s ≤ t
      → (a b : ℕ) × (ticks_to_microseconds (pos s) (pos ppq) cs ≡ ok (pos a))
        × (ticks_to_microseconds (pos t) (pos ppq) cs ≡ ok (pos b))
        × (a ≤ b)
  ticks_to_microseconds_mono s t le = (
    _,
    _,
    ticks_to_microseconds_natural s,
    ticks_to_microseconds_natural t,
    elapsed_at_mono ppq m s t h le,
  )

  -- For a positive resolution and changes that normalize to a map none of whose tempos lets a tick take
  -- less than a microsecond, every tick is found again from the float that is its elapsed seconds, across
  -- any number of tempo changes, if the elapsed time is below 2^50 microseconds, which is 35 years, and
  -- the product of floats that yields the seconds is rounded as IEEE 754 says.
  pub seconds_to_ticks-ticks_to_seconds :
      ⦃f : FloatSeconds⦄ (t us : ℕ)
      → IsCoarse ppq m
      → ticks_to_microseconds (pos t) (pos ppq) cs ≡ ok (pos us)
      → us < 2 ^ 50
      → (seconds : Number) × (ticks_to_seconds (pos t) (pos ppq) cs ≡ ok seconds)
        × (seconds_to_ticks seconds (pos ppq) cs ≡ ok (pos t))
  unfolding ticks_to_seconds
  seconds_to_ticks-ticks_to_seconds ⦃f⦄ t us coarse elapsed small =
      let (asc, zero_first, positive, _) = normalize_tempo_map-ok cs m e in
      let (n, k, is, low, high) = f.close us (omega (arith, small)) in
      let rounds = nearest_microsecond us n (2 ^ k) (pow_pos k) small low high in
      let same : us ≡ elapsed_at ppq m t =
        ground (arith, elapsed, ticks_to_microseconds_natural t) in
      (
        f.in_seconds us,
        rw (elapsed) refl,
        rw is (
            seconds_to_ticks_natural us n k rounds
            ∙ ap (λ k. ok (pos k))
                (ap (tick_at ppq m) same
                  ∙ tick_at-elapsed_at ppq m t h coarse asc (StartsBy-of_IsAtZero t m zero_first))),
      )
