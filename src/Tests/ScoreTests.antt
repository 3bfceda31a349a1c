-- ===== src/Tests/ScoreTests.antt =====
-- core/score at concrete inputs.
use mathlib.Core.List.{Perm}
use mathlib.Core.List.Perm
use master_all_strings.Prelude.{
  ℕ, ◌*◌, ◌+◌, ◌-◌, ◌≤◌, ◌<◌, ◌≡◌, refl, arith, ◌↔◌, List, [], ◌∷◌, none, some, map, ok, err, ◌>>=◌,
  true, ◌^◌, zero, suc,
}
use master_all_strings.Prelude.Int.{ℤ, pos, negsuc, neg_ℤ, nat_abs, ◌≤ℤ◌, ◌+ℤ◌, ◌*ℤ◌, ◌-ℤ◌}
use master_all_strings.Prelude.Float.{zero_float, is_finite}
use master_all_strings.Prelude.Text.{codes, str_eq}
use master_all_strings.Prelude.Dict.{put}
use master_all_strings.Prelude.Sort.{sort}
use master_all_strings.Prelude.{all_distinct, contains, Str_eq}
use master_all_strings.Foundation.{
  require_non_empty, require_midi_note, require_index, require_finite,
}
use master_all_strings.Events
use master_all_strings.Events.{MusicalEvent, new_musical_event, new_musical_event-IsValid}
use master_all_strings.Score.Errors.{not_positive, duration_below_one_tick, require_nonnegative_int}
use master_all_strings.Score.Rounding.{divide_round_half_away_from_zero, ◌//ℤ◌}
use master_all_strings.Score.Rounding.Laws.{divide_round_nearest}
use master_all_strings.Score.Timing.{
  int, TickConversion, nanoseconds_to_ticks, ticks_to_nanoseconds, convert_elapsed,
  convert_duration, require_convertible_tempo,
}
use master_all_strings.Score.Timing.Laws.{
  nanoseconds_to_ticks-ticks_to_nanoseconds, convert_elapsed_residue, nanoseconds_to_ticks_mono,
  convert_duration-err_iff, convert_duration-ok,
}
use master_all_strings.Score.Tempo.{TempoChange, Number, binary}
use master_all_strings.Score.Rounding.Natural.{round_div, round_div_bounds, round_div_zero}
use master_all_strings.Score.Timeline.{
  ticks_to_seconds, FloatSeconds, normalize_tempo_map, ticks_to_microseconds, seconds_to_ticks,
  segment_microseconds,
}
use master_all_strings.Score.Timeline.Spec.{IsAscending}
use master_all_strings.Score.Timeline.Entries.{find_tick, last_change}
use master_all_strings.Score.Timeline.Normal.{
  IsAtZero, IsPositive, normalize_tempo_map-ok, normalize_tempo_map-total,
}
use master_all_strings.Score.Timeline.Laws.{
  ticks_to_microseconds_mono, seconds_to_ticks-ticks_to_seconds,
}
use master_all_strings.Score.Meter.{
  MeterChange, new_meter_change, ticks_per_measure, ticks_per_measure-exact,
}
use master_all_strings.Score.Canonicalize.{canonicalize_events, canonicalize_tempo_changes}
use master_all_strings.Score.Canonicalize.Laws.{
  canonicalize_events-perm, canonicalize_tempo_changes-perm,
}
use master_all_strings.Score.Canonicalize.Ascending.{Ascends, canonicalize_events-ok}

five_halves :
    (divide_round_half_away_from_zero (pos 5) (pos 2) ≡ ok (pos 3))
    × (divide_round_half_away_from_zero (negsuc 4) (pos 2) ≡ ok (negsuc 2))
    × (divide_round_half_away_from_zero (pos 5) (negsuc 1) ≡ err (not_positive "denominator"))
unfolding divide_round_half_away_from_zero
five_halves = (refl, refl, refl)

divide_round_nearest_example :
    (q : ℤ) × (divide_round_half_away_from_zero (negsuc 4) (pos 2) ≡ ok q)
    × (2 * nat_abs (q *ℤ pos 2 -ℤ negsuc 4) ≤ 2)
    × (2 * (nat_abs q * 2) ≤ 2 * 5 + 2)
    × (2 * 5 + 2 < 2 * (nat_abs q * 2) + 2 * 2)
    × (divide_round_half_away_from_zero (pos 5) (pos 2) ≡ ok (neg_ℤ q))
divide_round_nearest_example = divide_round_nearest (negsuc 4) 2 (omega arith)

-- At 120 beats per minute and 960 ticks per quarter a tick is about 0.52 ms.
half_second : nanoseconds_to_ticks (pos 500_000_000) (pos 960) (int (pos 500_000)) ≡ ok (pos 960)
unfolding nanoseconds_to_ticks divide_round_half_away_from_zero ◌*ℤ◌ ◌//ℤ◌
half_second = refl

nanoseconds_to_ticks-ticks_to_nanoseconds_example :
    (do
      ns ← ticks_to_nanoseconds (pos 7) (pos 960) (int (pos 500_000))
      nanoseconds_to_ticks ns (pos 960) (int (pos 500_000)))
    ≡ ok (pos 7)
nanoseconds_to_ticks-ticks_to_nanoseconds_example =
    nanoseconds_to_ticks-ticks_to_nanoseconds 960 500_000 (omega arith) (omega arith) 7
      (omega arith)

convert_elapsed_residue_example :
    (c : TickConversion) × (convert_elapsed (pos 1_000_000) (pos 960) (int (pos 500_000)) ≡ ok c)
    × (c.elapsed_ns ≡ pos 1_000_000)
    × (2 * (nat_abs c.rounding_delta_ns * 960) ≤ 500_000 * 1000 + 960)
convert_elapsed_residue_example =
    convert_elapsed_residue 960 500_000 (omega arith) (omega arith) 1_000_000

nanoseconds_to_ticks_mono_example :
    (s t : ℕ) × (nanoseconds_to_ticks (pos 3) (pos 960) (int (pos 500_000)) ≡ ok (pos s))
    × (nanoseconds_to_ticks (pos 900_000) (pos 960) (int (pos 500_000)) ≡ ok (pos t))
    × (s ≤ t)
nanoseconds_to_ticks_mono_example =
    nanoseconds_to_ticks_mono 960 500_000 (omega arith) (omega arith) 3 900_000 (omega arith)

convert_duration-err_iff_example :
    (convert_duration (pos 0) (pos 200_000) (pos 960) (int (pos 500_000))
      ≡ err duration_below_one_tick)
    ↔ (2 * ((200_000 - 0) * 960) < 500_000 * 1000)
convert_duration-err_iff_example =
    convert_duration-err_iff 960 500_000 (omega arith) (omega arith) 0 200_000 (omega arith)

convert_duration-ok_example :
    (c : TickConversion) × (convert_duration (pos 0) (pos 300_000) (pos 960) (int (pos 500_000))
      ≡ ok c)
    × (pos 1 ≤ℤ c.ticks)
convert_duration-ok_example =
    convert_duration-ok 960 500_000 (omega arith) (omega arith) 0 300_000 (omega arith)
      (omega arith)

abbrev at_zero : TempoChange
at_zero = record { tick = 0; microseconds_per_quarter = 500_000 }

abbrev at_zero_again : TempoChange
at_zero_again = record { tick = 0; microseconds_per_quarter = 400_000 }

abbrev at_two_bars : TempoChange
at_two_bars = record { tick = 7680; microseconds_per_quarter = 600_000 }

abbrev submitted : List TempoChange
submitted = at_two_bars ∷ at_zero ∷ at_zero_again ∷ []

abbrev normalized : List TempoChange
normalized = at_zero_again ∷ at_two_bars ∷ []

normalize_submitted : normalize_tempo_map submitted ≡ ok normalized
unfolding normalize_tempo_map require_convertible_tempo put sort
normalize_submitted = refl

normalize_tempo_map-ok_example :
    IsAscending normalized
    × IsAtZero normalized
    × IsPositive normalized
    × ((t : ℕ) → find_tick t normalized ≡ last_change t submitted)
normalize_tempo_map-ok_example = normalize_tempo_map-ok submitted normalized normalize_submitted

last_at_zero : last_change 0 submitted ≡ some at_zero_again
unfolding last_change
last_at_zero = refl

normalize_tempo_map-total_example : (m : List TempoChange) × (normalize_tempo_map submitted ≡ ok m)
normalize_tempo_map-total_example = normalize_tempo_map-total submitted (omega arith) last_at_zero

ticks_across_change : ticks_to_microseconds (pos 8640) (pos 960) submitted ≡ ok (pos 3_800_000)
unfolding ticks_to_microseconds normalize_tempo_map require_convertible_tempo put sort
    divide_round_half_away_from_zero ◌*ℤ◌ ◌+ℤ◌ ◌-ℤ◌ ◌//ℤ◌ segment_microseconds
ticks_across_change = refl

ticks_to_microseconds_mono_example :
    (a b : ℕ) × (ticks_to_microseconds (pos 100) (pos 960) submitted ≡ ok (pos a))
    × (ticks_to_microseconds (pos 8640) (pos 960) submitted ≡ ok (pos b))
    × (a ≤ b)
ticks_to_microseconds_mono_example =
    ticks_to_microseconds_mono 960 (omega arith) submitted normalized normalize_submitted 100 8640
      (omega arith)

-- Seconds as the nearest multiple of 2^-71.
close_seconds :
    (us : ℕ)
    → (us * 2 ^ 71 * 2 ^ 51 ≤ round_div (us * 2 ^ 71) 1_000_000 * 1_000_000 * 2 ^ 51 + us * 2 ^ 71)
      × (round_div (us * 2 ^ 71) 1_000_000 * 1_000_000 * 2 ^ 51
          ≤ us * 2 ^ 71 * 2 ^ 51 + us * 2 ^ 71)
close_seconds zero = rw (round_div_zero 1_000_000 (omega arith)) (omega arith, omega arith)
close_seconds (suc us) =
    let bounds = round_div_bounds (suc us * 2 ^ 71) 1_000_000 (omega arith) in
    (omega (arith, bounds), omega (arith, bounds))

instance abbrev near_seconds : FloatSeconds
near_seconds = record {
  in_seconds = λ us. binary (pos (round_div (us * 2 ^ 71) 1_000_000)) 71;
  close = λ us small.
      let (low, high) = close_seconds us in
      (round_div (us * 2 ^ 71) 1_000_000, 71, refl, low, high);
}

seconds_to_ticks-ticks_to_seconds_example :
    (seconds : Number) × (ticks_to_seconds (pos 8640) (pos 960) submitted ≡ ok seconds)
    × (seconds_to_ticks seconds (pos 960) submitted ≡ ok (pos 8640))
seconds_to_ticks-ticks_to_seconds_example =
    seconds_to_ticks-ticks_to_seconds 960 (omega arith) submitted normalized normalize_submitted
      8640 3_800_000 (omega arith) ticks_across_change (omega arith)

abbrev waltz : MeterChange
waltz = record { tick = 0; numerator = 3; denominator = 4 }

new_waltz : new_meter_change (codes "1.0.0") (pos 0) (pos 3) 4 ≡ ok waltz
unfolding new_meter_change require_nonnegative_int contains str_eq
new_waltz = refl

ticks_per_measure-exact_example :
    (ticks_per_measure waltz 960 * 4 ≡ 3 * 3840) × (0 < ticks_per_measure waltz 960)
ticks_per_measure-exact_example =
    ticks_per_measure-exact (codes "1.0.0") (pos 0) (pos 3) 4 new_waltz

abbrev first_note : MusicalEvent
first_note = record {
  event_id = codes "a";
  midi_note = 60;
  start_tick = 0;
  duration_ticks = 480;
  velocity = 64;
  cents_offset = zero_float;
  voice_id = none;
}

abbrev second_note : MusicalEvent
second_note = record first_note { event_id = codes "b"; start_tick = 480 }

new_first_note :
    new_musical_event (codes "a") (pos 60) (pos 0) (pos 480) (pos 64) zero_float none
    ≡ ok first_note
unfolding new_musical_event is_finite require_finite require_non_empty require_midi_note
    require_index Events.require_optional_id
new_first_note = refl

canonicalize_events-perm_example :
    canonicalize_events (first_note ∷ second_note ∷ [])
    ≡ canonicalize_events (second_note ∷ first_note ∷ [])
canonicalize_events-perm_example =
    canonicalize_events-perm (first_note ∷ second_note ∷ []) (second_note ∷ first_note ∷ [])
      (Perm.swap second_note first_note [])

canonicalize_tempo_changes-perm_example :
    canonicalize_tempo_changes (at_zero ∷ at_two_bars ∷ [])
    ≡ canonicalize_tempo_changes (at_two_bars ∷ at_zero ∷ [])
canonicalize_tempo_changes-perm_example =
    canonicalize_tempo_changes-perm (at_zero ∷ at_two_bars ∷ []) (at_two_bars ∷ at_zero ∷ [])
      (Perm.swap at_two_bars at_zero [])

two_distinct :
    all_distinct (map (λ (event : MusicalEvent). event.event_id) (second_note ∷ first_note ∷ []))
    ≡ true
unfolding all_distinct contains str_eq
two_distinct = refl

canonicalize_events-ok_example :
    (ys : List MusicalEvent) × (canonicalize_events (second_note ∷ first_note ∷ []) ≡ ok ys)
    × Ascends ys
    × Perm ys (second_note ∷ first_note ∷ [])
canonicalize_events-ok_example = canonicalize_events-ok (second_note ∷ first_note ∷ []) two_distinct
