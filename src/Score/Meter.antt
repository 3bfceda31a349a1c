-- ===== src/Score/Meter.antt =====
-- core/score/meter.py: time signatures.
use master_all_strings.Prelude.{
  ℕ, ◌*◌, ◌/◌, ◌<◌, ◌≡◌, arith, List, [], ◌∷◌, Result, ok, require, ◌>>◌, ◌&&◌, contains, ℕ_eq,
}
use master_all_strings.Prelude.Int.{ℤ, pos, pos_part, leb_ℤ}
use master_all_strings.Prelude.Text.{Str, str_eq, codes}
use master_all_strings.Score.Errors.{
  ScoreError, require_nonnegative_int, wrong_schema_version, numerator_out_of_range,
  denominator_unsupported,
}

abbrev pub supported_denominators : List ℕ
supported_denominators = 1 ∷ 2 ∷ 4 ∷ 8 ∷ 16 ∷ 32 ∷ 64 ∷ []

abbrev pub max_numerator : ℕ
max_numerator = 64

pub record MeterChange : Type 0 where
  pub tick : ℕ
  pub numerator : ℕ
  pub denominator : ℕ

-- The constructor with its validation: schema_version, tick, numerator, denominator.
unfoldable pub new_meter_change : Str → ℤ → ℤ → ℕ → Result ScoreError MeterChange
unfolding require_nonnegative_int contains
new_meter_change schema_version tick numerator denominator = do
  require (str_eq schema_version (codes "1.0.0")) wrong_schema_version
  require_nonnegative_int tick "tick"
  require (leb_ℤ (pos 1) numerator && leb_ℤ numerator (pos max_numerator)) numerator_out_of_range
  require (contains denominator supported_denominators) denominator_unsupported
  ok (record { tick = pos_part tick; numerator = pos_part numerator; denominator = denominator })

unfoldable pub ticks_per_measure : MeterChange → ℕ → ℕ
ticks_per_measure meter ticks_per_quarter =
    meter.numerator * (ticks_per_quarter * 4) / meter.denominator

-- On the grid of 960 ticks every time signature that the constructor accepts has whole measures:
-- no remainder is lost, and a measure is not empty.
pub ticks_per_measure-exact :
    (schema : Str) (tick numerator : ℤ) (denominator : ℕ) {m : MeterChange}
    → new_meter_change schema tick numerator denominator ≡ ok m
    → (ticks_per_measure m 960 * m.denominator ≡ m.numerator * 3840) × (0 < ticks_per_measure m 960)
unfolding new_meter_change ticks_per_measure
ticks_per_measure-exact schema tick numerator denominator h = ground arith
