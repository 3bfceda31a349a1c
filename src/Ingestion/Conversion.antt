-- ===== src/Ingestion/Conversion.antt =====
-- core/ingestion/policies.py: a pair of messages becomes an event with its evidence, or a rejection.
use master_all_strings.Prelude.{
  ℕ, none, some, List, [], ◌∷◌, ◌++◌, Result, ok, err, ◌>>=◌, ◌>>◌, Str_eq,
}
use master_all_strings.Prelude.Int.{pos, pos_part, ◌-ℤ◌}
use master_all_strings.Prelude.Text.{Str, codes}
use master_all_strings.Prelude.Float.{zero_float}
use master_all_strings.Events.{MusicalEvent, new_musical_event}
use master_all_strings.Score.Provenance.{
  SourceEventProvenance, check_event_provenance, require_all_identifiers,
}
use master_all_strings.Score.Errors
use master_all_strings.Score.Errors.{ScoreError, as_musical}
use master_all_strings.Score.Timing.{int, TickConversion, convert_elapsed, convert_duration}
use master_all_strings.Ingestion.Contracts.{
  round_half_away_from_zero, SourceMidiEvent, Rejection, RejectionReason, EventProvenance,
  NoteKey_eq,
}

-- What a pair of messages becomes.
pub data Converted : Type 0 where
  note : MusicalEvent → EventProvenance → Converted
  refused : Rejection → Converted

-- `except ScoreContractError`: only a note that is too short is turned into a rejection.
pub data Duration : Type 0 where
  lasting : TickConversion → Duration
  too_short : Duration

unfoldable pub or_too_short : Result ScoreError TickConversion → Result ScoreError Duration
or_too_short (ok conversion) = ok (lasting conversion)
or_too_short (err Errors.duration_below_one_tick) = ok too_short
or_too_short (err e) = err e

-- The provenance of an imported event as the contract of any revision has it.
abbrev pub as_provenance : EventProvenance → SourceEventProvenance
as_provenance p = record {
  canonical_event_id = p.canonical_event_id;
  source_capture_event_ids = p.source_capture_event_ids;
  source_channel = some p.source_channel;
  observed_source_string = p.observed_source_string;
  source_capture_time_ns = some p.source_capture_time_ns;
  source_release_time_ns = some p.source_release_time_ns;
  converted_start_tick = some (pos_part p.converted_start_tick);
  converted_duration_ticks = some (pos_part p.converted_duration_ticks);
  rounding_delta_start_ns = some p.rounding_delta_start_ns;
  rounding_delta_duration_ns = some p.rounding_delta_duration_ns;
  rounding_policy = some p.rounding_policy;
  ticks_per_quarter = some p.ticks_per_quarter;
  microseconds_per_quarter = some p.microseconds_per_quarter;
}

-- The arguments of the provenance of a note.
abbrev pub evidence :
    SourceMidiEvent → SourceMidiEvent → ℕ → ℕ → TickConversion → TickConversion → EventProvenance
evidence onset release ticks_per_quarter mpq start duration = record {
  canonical_event_id = codes "ev-" ++ onset.source_event_id;
  source_capture_event_ids = onset.source_event_id ∷ release.source_event_id ∷ [];
  source_channel = onset.channel;
  observed_source_string = onset.observed_source_string;
  source_capture_time_ns = onset.capture_time_ns;
  source_release_time_ns = release.capture_time_ns;
  converted_start_tick = start.ticks;
  converted_duration_ticks = duration.ticks;
  rounding_delta_start_ns = start.rounding_delta_ns;
  rounding_delta_duration_ns = duration.rounding_delta_ns;
  rounding_policy = round_half_away_from_zero;
  ticks_per_quarter = ticks_per_quarter;
  microseconds_per_quarter = mpq;
}

-- onset, release, ticks_per_quarter, mpq, start, duration. The constructor of the event refuses a
-- start that is negative, so that of the provenance never meets one.
unfoldable pub build_note :
    SourceMidiEvent
    → SourceMidiEvent
    → ℕ
    → ℕ
    → TickConversion
    → TickConversion
    → Result ScoreError Converted
build_note onset release ticks_per_quarter mpq start duration = do
  event ← as_musical (
      new_musical_event (codes "ev-" ++ onset.source_event_id) (pos onset.midi_note) start.ticks
        duration.ticks (pos onset.velocity) zero_float none)
  let provenance = evidence onset release ticks_per_quarter mpq start duration
  check_event_provenance (as_provenance provenance)
  ok (note event provenance)

-- `_rejection`, with the check of its constructor; the prose, which is never blank, is left out.
unfoldable pub rejection : RejectionReason → List Str → Result ScoreError Rejection
rejection reason ids = do
  require_all_identifiers ids "source_event_ids entry"
  ok (record { reason = reason; source_event_ids = ids })

unfoldable pub convert_pair :
    SourceMidiEvent
    → SourceMidiEvent
    → ℕ
    → ℕ
    → TickConversion
    → Duration
    → Result ScoreError Converted
convert_pair onset release ticks_per_quarter mpq start (lasting duration) =
    build_note onset release ticks_per_quarter mpq start duration
convert_pair onset release ticks_per_quarter mpq start too_short = do
  r ←
      rejection RejectionReason.duration_below_one_tick
        (onset.source_event_id ∷ release.source_event_id ∷ [])
  ok (refused r)

-- onset, release, origin, ticks_per_quarter, mpq
unfoldable pub convert_note :
    SourceMidiEvent → SourceMidiEvent → ℕ → ℕ → ℕ → Result ScoreError Converted
convert_note onset release origin ticks_per_quarter mpq = do
  start ←
      convert_elapsed (pos onset.capture_time_ns -ℤ pos origin) (pos ticks_per_quarter)
        (int (pos mpq))
  duration ← or_too_short (
      convert_duration (pos onset.capture_time_ns) (pos release.capture_time_ns)
        (pos ticks_per_quarter) (int (pos mpq)))
  convert_pair onset release ticks_per_quarter mpq start duration
