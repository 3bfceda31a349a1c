-- ===== src/Ingestion/Requests.antt =====
-- core/ingestion/contracts.py: what the constructors of source events and requests check.
use Prim.Native.String.{String}
use master_all_strings.Prelude.{
  ℕ, List, [], ◌∷◌, Option, none, some, Result, ok, require, ◌>>◌, map, Str_eq, ℕ_eq, contains, leb,
  nat_eq,
}
use master_all_strings.Prelude.Int.{pos}
use master_all_strings.Prelude.Strings.{Iso8601}
use master_all_strings.Score.Errors.{
  ScoreError, as_musical, require_identifier, require_optional_identifier, require_prefixed_digest,
  require_positive_int, require_utc_timestamp, require_unique, out_of_range, meter_not_at_zero,
  unsupported_resolution,
}
use master_all_strings.Foundation.{require_midi_note}
use master_all_strings.Score.Models.{supported_ticks_per_quarter}
use master_all_strings.Ingestion.Contracts.{
  SourceMidiEvent, Request, ProjectionType, piano_roll, notation, tab, midi,
}

-- `_require_range(value, field_name, 0, high)` of a number that is not negative.
unfoldable pub require_at_most : ℕ → String → ℕ → Result ScoreError (Unit {0})
require_at_most value field_name high = require (leb value high) (out_of_range field_name)

unfoldable pub require_string_index : Option ℕ → Result ScoreError (Unit {0})
unfolding require_at_most
require_string_index none = ok tt
require_string_index (some string) = require_at_most string "observed_source_string" 15

-- `SourceMidiEventV1.__post_init__`
unfoldable pub check_source_event : SourceMidiEvent → Result ScoreError (Unit {0})
unfolding require_at_most require_string_index
check_source_event event = do
  require_identifier event.source_event_id "source_event_id"
  require_at_most event.channel "channel" 15
  as_musical (require_midi_note (pos event.midi_note) "midi_note")
  require_at_most event.velocity "velocity" 127
  require_string_index event.observed_source_string

unfoldable pub check_source_events : List SourceMidiEvent → Result ScoreError (Unit {0})
check_source_events [] = ok tt
check_source_events (event ∷ events) = do check_source_event event; check_source_events events

unfoldable pub require_supported : Option ℕ → Result ScoreError (Unit {0})
require_supported none = ok tt
require_supported (some ticks_per_quarter) = do
  require_positive_int (pos ticks_per_quarter) "ticks_per_quarter"
  require (contains ticks_per_quarter supported_ticks_per_quarter) unsupported_resolution

-- The place of a projection type in its class, by which two are compared.
abbrev projection_index : ProjectionType → ℕ
projection_index piano_roll = 0
projection_index notation = 1
projection_index tab = 2
projection_index midi = 3

-- `CanonicalIngestionRequestV1.__post_init__`; its source events are checked as they are made.
unfoldable pub check_request : ⦃iso : Iso8601⦄ → Request → Result ScoreError (Unit {0})
check_request request = do
  require_identifier request.request_id "request_id"
  require_identifier request.capture_id "capture_id"
  require_identifier request.source_session_id "source_session_id"
  require_prefixed_digest request.raw_capture_digest "raw_capture_digest"
  require_positive_int (pos request.tempo_microseconds_per_quarter) "tempo_microseconds_per_quarter"
  require (nat_eq request.meter.tick 0) meter_not_at_zero
  require_utc_timestamp request.requested_at "requested_at"
  require_optional_identifier request.instrument_profile_id "instrument_profile_id"
  require_optional_identifier request.tuning_profile_id "tuning_profile_id"
  require_supported request.ticks_per_quarter
  require_unique (map (λ event. event.source_event_id) request.source_events) "source_event_id"
  require_unique (map projection_index request.requested_projection_types)
      "requested_projection_types"
