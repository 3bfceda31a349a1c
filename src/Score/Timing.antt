-- ===== src/Score/Timing.antt =====
-- core/score/timing.py: from capture nanoseconds to ticks, and back.
pub mod Laws
use master_all_strings.Prelude.{ℕ, Bool, true, false, Result, ok, err, ◌>>=◌, ◌>>◌, if◌then◌else◌}
use master_all_strings.Prelude.Int.{ℤ, pos, negsuc, ◌-ℤ◌, ◌*ℤ◌, ltb_ℤ}
use master_all_strings.Score.Errors.{
  ScoreError, require_positive_int, not_an_integer, tempo_missing, tempo_not_finite,
  before_capture_origin, release_precedes_onset, duration_below_one_tick,
}
use master_all_strings.Score.Rounding.{divide_round_half_away_from_zero, ◌//ℤ◌}

abbrev pub nanoseconds_per_second : ℕ
nanoseconds_per_second = 1_000_000_000

abbrev pub microseconds_per_second : ℕ
microseconds_per_second = 1_000_000

abbrev pub default_ticks_per_quarter : ℕ
default_ticks_per_quarter = 960

-- The values that reach the validator of a tempo: `None`, a `bool`, a `float` and whether it is
-- finite, an `int`.
pub data Tempo : Type 0 where
  missing : Tempo
  boolean : Bool → Tempo
  float : Bool → Tempo
  int : ℤ → Tempo

unfoldable pub require_convertible_tempo : Tempo → Result ScoreError ℤ
unfolding require_positive_int
require_convertible_tempo missing = err tempo_missing
require_convertible_tempo (boolean b) = err (not_an_integer "microseconds_per_quarter")
require_convertible_tempo (float false) = err tempo_not_finite
require_convertible_tempo (float true) = err (not_an_integer "microseconds_per_quarter")
require_convertible_tempo (int value) = do
  require_positive_int value "microseconds_per_quarter"
  ok value

-- elapsed_ns, ticks_per_quarter, microseconds_per_quarter
unfoldable pub nanoseconds_to_ticks : ℤ → ℤ → Tempo → Result ScoreError ℤ
unfolding require_positive_int require_convertible_tempo
nanoseconds_to_ticks elapsed_ns ticks_per_quarter microseconds_per_quarter =
    if ltb_ℤ elapsed_ns (pos 0) then err before_capture_origin else (do
      require_positive_int ticks_per_quarter "ticks_per_quarter"
      mpq ← require_convertible_tempo microseconds_per_quarter
      let numerator = elapsed_ns *ℤ ticks_per_quarter
      let denominator = mpq *ℤ (pos nanoseconds_per_second //ℤ pos microseconds_per_second)
      divide_round_half_away_from_zero numerator denominator)

unfoldable pub ticks_to_nanoseconds : ℤ → ℤ → Tempo → Result ScoreError ℤ
unfolding require_positive_int require_convertible_tempo
ticks_to_nanoseconds ticks ticks_per_quarter microseconds_per_quarter = do
  require_positive_int ticks_per_quarter "ticks_per_quarter"
  mpq ← require_convertible_tempo microseconds_per_quarter
  let numerator = ticks *ℤ mpq *ℤ (pos nanoseconds_per_second //ℤ pos microseconds_per_second)
  divide_round_half_away_from_zero numerator ticks_per_quarter

-- `rounding_policy` has one value, which is left out.
pub record TickConversion : Type 0 where
  pub elapsed_ns : ℤ
  pub ticks : ℤ
  pub rounding_delta_ns : ℤ
  pub ticks_per_quarter : ℤ
  pub microseconds_per_quarter : Tempo

unfoldable pub convert_elapsed : ℤ → ℤ → Tempo → Result ScoreError TickConversion
convert_elapsed elapsed_ns ticks_per_quarter microseconds_per_quarter = do
  ticks ← nanoseconds_to_ticks elapsed_ns ticks_per_quarter microseconds_per_quarter
  reconstructed_ns ← ticks_to_nanoseconds ticks ticks_per_quarter microseconds_per_quarter
  ok (record {
    elapsed_ns = elapsed_ns;
    ticks = ticks;
    rounding_delta_ns = elapsed_ns -ℤ reconstructed_ns;
    ticks_per_quarter = ticks_per_quarter;
    microseconds_per_quarter = microseconds_per_quarter;
  })

-- onset_ns, release_ns, ticks_per_quarter, microseconds_per_quarter
unfoldable pub convert_duration : ℤ → ℤ → ℤ → Tempo → Result ScoreError TickConversion
convert_duration onset_ns release_ns ticks_per_quarter microseconds_per_quarter =
    if ltb_ℤ release_ns onset_ns then err release_precedes_onset else (do
      conversion ←
          convert_elapsed (release_ns -ℤ onset_ns) ticks_per_quarter microseconds_per_quarter
      if ltb_ℤ conversion.ticks (pos 1) then err duration_below_one_tick else ok conversion)
