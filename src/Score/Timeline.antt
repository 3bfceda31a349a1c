-- ===== src/Score/Timeline.antt =====
-- core/score/musical_timeline.py: ticks and elapsed time under a tempo map.
pub mod Spec
pub mod Bridge
pub mod Entries
pub mod Normal
pub mod Roundtrip
pub mod Laws
use master_all_strings.Prelude.{
  ℕ, ◌-◌, ◌+◌, ◌*◌, ◌^◌, ◌≤◌, ◌<◌, ◌≡◌, min, Bool, true, false, Option, none, some, List, [], ◌∷◌,
  map, Result, ok, err, ◌>>=◌, ◌>>◌, if◌then◌else◌, leb, ltb, nat_eq, ℕ_eq,
}
use master_all_strings.Prelude.Int.{ℤ, pos, pos_part, ltb_ℤ, leb_ℤ, ◌+ℤ◌, ◌-ℤ◌, ◌*ℤ◌}
use master_all_strings.Prelude.Dict.{Dict, put}
use master_all_strings.Prelude.Order.{by_number, on}
use master_all_strings.Prelude.Sort.{sort}
use master_all_strings.Score.Errors.{
  ScoreError, require_positive_int, require_nonnegative_int, seconds_not_finite, tempo_map_missing,
  no_tempo_at_zero, seconds_negative, unreachable_walk,
}
use master_all_strings.Score.Rounding.{divide_round_half_away_from_zero}
use master_all_strings.Score.Timing.{int, require_convertible_tempo, microseconds_per_second}
use master_all_strings.Score.Tempo.{TempoChange, Number, boolean, not_finite, binary}

pub require_convertible : List TempoChange → Result ScoreError (Unit {0})
require_convertible [] = ok tt
require_convertible (change ∷ changes) = do
  mpq ← require_convertible_tempo (int (pos change.microseconds_per_quarter))
  require_convertible changes

-- `by_tick[change.tick] = change` for each change in turn
pub last_writer_wins : Dict ℕ TempoChange → List TempoChange → Dict ℕ TempoChange
last_writer_wins by_tick [] = by_tick
last_writer_wins by_tick (change ∷ changes) =
    last_writer_wins (put change.tick change by_tick) changes

pub covering_zero : List TempoChange → Result ScoreError (List TempoChange)
covering_zero [] = err tempo_map_missing
covering_zero (first ∷ rest) =
    if nat_eq first.tick 0 then ok (first ∷ rest) else err no_tempo_at_zero

unfoldable pub normalize_tempo_map : List TempoChange → Result ScoreError (List TempoChange)
unfolding require_convertible last_writer_wins covering_zero
normalize_tempo_map [] = err tempo_map_missing
normalize_tempo_map (change ∷ changes) = do
  require_convertible (change ∷ changes)
  covering_zero (
      map (λ entry. entry.1)
        (sort (on (λ (entry : ℕ × TempoChange). entry.0) by_number)
          (last_writer_wins [] (change ∷ changes))))

-- tick_delta, ticks_per_quarter, mpq
unfoldable pub segment_microseconds : ℤ → ℤ → ℤ → Result ScoreError ℤ
unfolding require_nonnegative_int
segment_microseconds tick_delta ticks_per_quarter mpq = do
  require_nonnegative_int tick_delta "tick_delta"
  divide_round_half_away_from_zero (tick_delta *ℤ mpq) ticks_per_quarter

-- `tempo_map[index + 1].tick`, if there is one
abbrev pub next_tick : List TempoChange → Option ℕ
next_tick [] = none
next_tick (change ∷ rest) = some change.tick

abbrev pub segment_end : ℕ → Option ℕ → ℕ
segment_end tick none = tick
segment_end tick (some next) = min tick next

-- `next_tick is None or tick <= next_tick`
abbrev pub is_last_segment : ℕ → Option ℕ → Bool
is_last_segment tick none = true
is_last_segment tick (some next) = leb tick next

-- `if segment_end > change.tick: elapsed += …`
pub add_segment : ℕ → TempoChange → ℕ → ℤ → Result ScoreError ℤ
add_segment ticks_per_quarter change end elapsed =
    if ltb change.tick end
    then (do
      segment ←
          segment_microseconds (pos (end - change.tick)) (pos ticks_per_quarter)
            (pos change.microseconds_per_quarter)
      ok (elapsed +ℤ segment))
    else ok elapsed

-- The loop of `ticks_to_microseconds`, from a tick and a resolution that passed their guards.
pub microseconds_loop : ℕ → ℕ → List TempoChange → ℤ → Result ScoreError ℤ
microseconds_loop tick ticks_per_quarter [] elapsed = ok elapsed
microseconds_loop tick ticks_per_quarter (change ∷ rest) elapsed = do
  let next = next_tick rest
  elapsed' ← add_segment ticks_per_quarter change (segment_end tick next) elapsed
  let go_on = microseconds_loop tick ticks_per_quarter rest elapsed'
  if is_last_segment tick next then ok elapsed' else go_on

unfoldable pub ticks_to_microseconds : ℤ → ℤ → List TempoChange → Result ScoreError ℤ
unfolding microseconds_loop add_segment require_nonnegative_int require_positive_int
ticks_to_microseconds tick ticks_per_quarter tempo_changes = do
  require_nonnegative_int tick "tick"
  require_positive_int ticks_per_quarter "ticks_per_quarter"
  tempo_map ← normalize_tempo_map tempo_changes
  microseconds_loop (pos_part tick) (pos_part ticks_per_quarter) tempo_map (pos 0)

-- `microseconds * SECONDS_PER_MICROSECOND` in IEEE double precision. The factor and the product are
-- each rounded to the nearest float, so that for an integer that is a float the product is within a
-- relative error of 2^-51 of the exact quotient.
pub record FloatSeconds : Type 0 where
  pub in_seconds : ℕ → Number
  pub close :
      (us : ℕ)
      → us < 2 ^ 53
      → (n k : ℕ) × (in_seconds us ≡ binary (pos n) k)
        × (us * 2 ^ k * 2 ^ 51 ≤ n * 1_000_000 * 2 ^ 51 + us * 2 ^ k)
        × (n * 1_000_000 * 2 ^ 51 ≤ us * 2 ^ k * 2 ^ 51 + us * 2 ^ k)

unfoldable pub ticks_to_seconds :
    ⦃f : FloatSeconds⦄ → ℤ → ℤ → List TempoChange → Result ScoreError Number
ticks_to_seconds ⦃f⦄ tick ticks_per_quarter tempo_changes = do
  microseconds ← ticks_to_microseconds tick ticks_per_quarter tempo_changes
  ok (f.in_seconds (pos_part microseconds))

-- The loop of `seconds_to_ticks`: what is left of the elapsed microseconds.
pub ticks_loop : ℕ → List TempoChange → ℤ → Result ScoreError ℤ
ticks_loop ticks_per_quarter [] remaining = err unreachable_walk
ticks_loop ticks_per_quarter (change ∷ []) remaining = do
  ticks ←
      divide_round_half_away_from_zero (remaining *ℤ pos ticks_per_quarter)
        (pos change.microseconds_per_quarter)
  ok (pos change.tick +ℤ ticks)
ticks_loop ticks_per_quarter (change ∷ next ∷ rest) remaining = do
  segment_us ←
      segment_microseconds (pos next.tick -ℤ pos change.tick) (pos ticks_per_quarter)
        (pos change.microseconds_per_quarter)
  let go_on = ticks_loop ticks_per_quarter (next ∷ rest) (remaining -ℤ segment_us)
  let here = (do
    ticks ←
        divide_round_half_away_from_zero (remaining *ℤ pos ticks_per_quarter)
          (pos change.microseconds_per_quarter)
    ok (pos change.tick +ℤ ticks))
  if leb_ℤ remaining segment_us then here else go_on

unfoldable pub seconds_to_ticks : Number → ℤ → List TempoChange → Result ScoreError ℤ
unfolding ticks_loop require_positive_int
seconds_to_ticks (boolean b) ticks_per_quarter tempo_changes = err seconds_not_finite
seconds_to_ticks not_finite ticks_per_quarter tempo_changes = err seconds_not_finite
seconds_to_ticks (binary numerator exponent) ticks_per_quarter tempo_changes =
    if ltb_ℤ numerator (pos 0) then err seconds_negative else (do
      require_positive_int ticks_per_quarter "ticks_per_quarter"
      tempo_map ← normalize_tempo_map tempo_changes
      remaining ←
          divide_round_half_away_from_zero (numerator *ℤ pos microseconds_per_second)
            (pos (2 ^ exponent))
      ticks_loop (pos_part ticks_per_quarter) tempo_map remaining)
