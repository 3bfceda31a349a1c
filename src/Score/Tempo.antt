-- ===== src/Score/Tempo.antt =====
-- core/score/tempo.py: tempo changes, and tempo from beats per minute.
use master_all_strings.Prelude.{ℕ, ◌^◌, Bool, Result, ok, err, require, ◌>>=◌, ◌>>◌, if◌then◌else◌}
use master_all_strings.Prelude.Int.{ℤ, pos, pos_part, leb_ℤ, ◌*ℤ◌}
use master_all_strings.Prelude.Text.{Str, str_eq, codes}
use master_all_strings.Score.Errors.{
  ScoreError, require_positive_int, require_nonnegative_int, bpm_not_a_number, bpm_not_finite,
  not_positive, wrong_schema_version,
}
use master_all_strings.Score.Rounding.{divide_round_half_away_from_zero}

abbrev pub microseconds_per_minute : ℕ
microseconds_per_minute = 60_000_000

-- A tempo in effect from `tick` on, as its constructor lets it exist.
pub record TempoChange : Type 0 where
  pub tick : ℕ
  pub microseconds_per_quarter : ℕ

-- The constructor, with its validation: schema_version, tick, microseconds_per_quarter.
unfoldable pub new_tempo_change : Str → ℤ → ℤ → Result ScoreError TempoChange
unfolding require_positive_int require_nonnegative_int
new_tempo_change schema_version tick microseconds_per_quarter = do
  require (str_eq schema_version (codes "1.0.0")) wrong_schema_version
  require_nonnegative_int tick "tick"
  require_positive_int microseconds_per_quarter "microseconds_per_quarter"
  ok (record { tick = pos_part tick; microseconds_per_quarter = pos_part microseconds_per_quarter })

-- The numbers that reach a conversion: a `bool`, a `float` that is not finite, and otherwise a finite
-- `float` or an `int`, which is its numerator over two to the exponent.
pub data Number : Type 0 where
  boolean : Bool → Number
  not_finite : Number
  binary : ℤ → ℕ → Number

-- The exact quotient is taken here with numerator and denominator as they come; `Fraction` reduces
-- them first, which rounding does not see.
unfoldable pub tempo_from_bpm : Number → ℤ → Result ScoreError TempoChange
unfolding new_tempo_change
tempo_from_bpm (boolean b) tick = err bpm_not_a_number
tempo_from_bpm not_finite tick = err bpm_not_finite
tempo_from_bpm (binary numerator exponent) tick =
    if leb_ℤ numerator (pos 0) then err (not_positive "beats_per_minute") else (do
      mpq ←
          divide_round_half_away_from_zero (pos microseconds_per_minute *ℤ pos (2 ^ exponent))
            numerator
      new_tempo_change (codes "1.0.0") tick mpq)
