-- ===== src/Score/Timing/Laws.antt =====
-- What the conversions of core/score/timing.py promise.
use master_all_strings.Prelude.{
  ℕ, ◌+◌, ◌-◌, ◌*◌, ◌≤◌, ◌<◌, ◌≡◌, refl, subst, arith, ok, err, ◌>>=◌, ◌↔◌, ltb, if◌then◌else◌,
}
use master_all_strings.Prelude.Int.{pos, nat_abs, pos--ℤ, nat_abs--ℤ, ◌*ℤ◌, ◌-ℤ◌, ◌≤ℤ◌}
use master_all_strings.Score.Errors.{duration_below_one_tick}
use master_all_strings.Score.Rounding.{◌//ℤ◌}
use master_all_strings.Score.Rounding.Natural.{
  round_div, round_div_mono, round_div_roundtrip, round_div_residue, round_div_pos_iff,
}
use master_all_strings.Score.Rounding.Laws.{divide_round_natural}
use master_all_strings.Score.Timing.{
  int, nanoseconds_to_ticks, ticks_to_nanoseconds, convert_elapsed, convert_duration,
  TickConversion,
}
use native.Mathlib.Nat.{mul_assoc}
use native.Mathlib.Decide.{dec_le}

gap_step : (b k p r : ℕ) → 2 * ((b + k) * p) ≤ 2 * (b * p) + r → 2 * (k * p) ≤ r
gap_step b k p r h = omega arith

gap_bound :
    (e b p r : ℕ)
    → 2 * (e * p) ≤ 2 * (b * p) + r
    → 2 * (b * p) ≤ 2 * (e * p) + r
    → 2 * (((e - b) + (b - e)) * p) ≤ r
gap_bound e b p r h k = elim (dec_le e b) [
  | yes le ↦
      let d : (e - b) + (b - e) ≡ b - e = omega arith in
      let s : b ≡ e + (b - e) = omega arith in
      rw d (gap_step e (b - e) p r (subst (λ t. 2 * (t * p) ≤ 2 * (e * p) + r) s k))
  | no gt ↦
      let d : (e - b) + (b - e) ≡ e - b = omega arith in
      let s : e ≡ b + (e - b) = omega arith in
      rw d (gap_step b (e - b) p r (subst (λ t. 2 * (t * p) ≤ 2 * (b * p) + r) s h))
]

-- The result of `convert_elapsed`.
abbrev pub conversion : ℕ → ℕ → ℕ → TickConversion
conversion ppq mpq e =
    let t : ℕ = round_div (e * ppq) (mpq * 1000) in
    record {
      elapsed_ns = pos e;
      ticks = pos t;
      rounding_delta_ns = pos e -ℤ pos (round_div (t * (mpq * 1000)) ppq);
      ticks_per_quarter = pos ppq;
      microseconds_per_quarter = int (pos mpq);
    }

-- A grid with ticks and a tempo that are positive.
module _ (ppq mpq : ℕ) (hp : 0 < ppq) (hm : 0 < mpq) where
  pub nanoseconds_to_ticks_natural :
      (e : ℕ)
      → nanoseconds_to_ticks (pos e) (pos ppq) (int (pos mpq))
        ≡ ok (pos (round_div (e * ppq) (mpq * 1000)))
  unfolding nanoseconds_to_ticks ◌*ℤ◌ ◌//ℤ◌
  nanoseconds_to_ticks_natural e = ground (arith, divide_round_natural (e * ppq) (mpq * 1000))

  pub ticks_to_nanoseconds_natural :
      (t : ℕ)
      → ticks_to_nanoseconds (pos t) (pos ppq) (int (pos mpq))
        ≡ ok (pos (round_div (t * mpq * 1000) ppq))
  unfolding ticks_to_nanoseconds ◌*ℤ◌ ◌//ℤ◌
  ticks_to_nanoseconds_natural t = ground (arith, divide_round_natural (t * mpq * 1000) ppq)

  pub convert_elapsed_natural :
      (e : ℕ) → convert_elapsed (pos e) (pos ppq) (int (pos mpq)) ≡ ok (conversion ppq mpq e)
  unfolding convert_elapsed
  convert_elapsed_natural e = rw (
    nanoseconds_to_ticks_natural e,
    ticks_to_nanoseconds_natural (round_div (e * ppq) (mpq * 1000)),
    mul_assoc (round_div (e * ppq) (mpq * 1000)) mpq 1000,
  )

  -- For a positive resolution and tempo under which a tick is no shorter than a nanosecond, a position
  -- on the tick grid survives the way to nanoseconds and back.
  pub nanoseconds_to_ticks-ticks_to_nanoseconds :
      (t : ℕ)
      → ppq ≤ mpq * 1000
      → (do
        ns ← ticks_to_nanoseconds (pos t) (pos ppq) (int (pos mpq))
        nanoseconds_to_ticks ns (pos ppq) (int (pos mpq)))
        ≡ ok (pos t)
  nanoseconds_to_ticks-ticks_to_nanoseconds t fine = rw (
    ticks_to_nanoseconds_natural t,
    nanoseconds_to_ticks_natural (round_div (t * mpq * 1000) ppq),
    mul_assoc t mpq 1000,
    round_div_roundtrip t ppq (mpq * 1000) hp fine,
  )

  -- For a positive resolution and tempo, the conversion of a nonnegative time succeeds, and the residue
  -- that it reports is at most half a tick and half a nanosecond (both sides are multiplied by
  -- 2 * ppq).
  pub convert_elapsed_residue :
      (e : ℕ)
      → (c : TickConversion) × (convert_elapsed (pos e) (pos ppq) (int (pos mpq)) ≡ ok c)
        × (c.elapsed_ns ≡ pos e)
        × (2 * (nat_abs c.rounding_delta_ns * ppq) ≤ mpq * 1000 + ppq)
  convert_elapsed_residue e = (_, convert_elapsed_natural e, refl, small)
    where
      back : ℕ
      back = round_div (round_div (e * ppq) (mpq * 1000) * (mpq * 1000)) ppq

      small : 2 * (nat_abs (pos e -ℤ pos back) * ppq) ≤ mpq * 1000 + ppq
      small = rw (nat_abs--ℤ e back) (
          gap_bound e back ppq (mpq * 1000 + ppq)
            (omega (arith, round_div_residue e ppq (mpq * 1000) hp (omega arith)))
            (omega (arith, round_div_residue e ppq (mpq * 1000) hp (omega arith))))

  -- For a positive resolution and tempo, the conversions of two nonnegative times succeed and keep
  -- their order.
  pub nanoseconds_to_ticks_mono :
      (a b : ℕ)
      → a ≤ b
      → (s t : ℕ) × (nanoseconds_to_ticks (pos a) (pos ppq) (int (pos mpq)) ≡ ok (pos s))
        × (nanoseconds_to_ticks (pos b) (pos ppq) (int (pos mpq)) ≡ ok (pos t))
        × (s ≤ t)
  nanoseconds_to_ticks_mono a b le = (
    _,
    _,
    nanoseconds_to_ticks_natural a,
    nanoseconds_to_ticks_natural b,
    round_div_mono _ _ _ (omega arith) (grind arith),
  )

  pub convert_duration_natural :
      (onset release : ℕ)
      → onset ≤ release
      → let t : ℕ = round_div ((release - onset) * ppq) (mpq * 1000) in
        convert_duration (pos onset) (pos release) (pos ppq) (int (pos mpq)) ≡ (
          if ltb t 1
          then err duration_below_one_tick
          else convert_elapsed (pos (release - onset)) (pos ppq) (int (pos mpq)))
  unfolding convert_duration
  convert_duration_natural onset release le =
      ground (arith, pos--ℤ release onset le, convert_elapsed_natural (release - onset))

  -- For a positive resolution and tempo, a note whose release does not precede its onset is refused as
  -- too short exactly when it is shorter than half a tick.
  pub convert_duration-err_iff :
      (onset release : ℕ)
      → onset ≤ release
      → (convert_duration (pos onset) (pos release) (pos ppq) (int (pos mpq))
          ≡ err duration_below_one_tick)
        ↔ (2 * ((release - onset) * ppq) < mpq * 1000)
  convert_duration-err_iff onset release le = ground (
    arith,
    convert_duration_natural onset release le,
    convert_elapsed_natural (release - onset),
    round_div_pos_iff ((release - onset) * ppq) (mpq * 1000) (omega arith),
  )

  -- For a positive resolution and tempo, a note whose release does not precede its onset and that lasts
  -- at least half a tick is converted, to at least one tick.
  pub convert_duration-ok :
      (onset release : ℕ)
      → onset ≤ release
      → mpq * 1000 ≤ 2 * ((release - onset) * ppq)
      → (c : TickConversion) × (convert_duration (pos onset) (pos release) (pos ppq) (int (pos mpq))
          ≡ ok c)
        × (pos 1 ≤ℤ c.ticks)
  convert_duration-ok onset release le long =
      let p = (round_div_pos_iff ((release - onset) * ppq) (mpq * 1000) (omega arith)).1 long in
      (
        conversion ppq mpq (release - onset),
        ground (
          arith,
          convert_duration_natural onset release le,
          convert_elapsed_natural (release - onset),
        ),
        omega arith,
      )
