-- ===== src/Tests/IngestionTests.antt =====
-- core/ingestion at concrete inputs.
use master_all_strings.Prelude.{
  ℕ, ◌+◌, ◌≡◌, refl, [], ◌∷◌, none, some, ok, true, all_distinct, contains, Str_eq,
}
use master_all_strings.Prelude.Int.{pos, ◌-ℤ◌, ◌*ℤ◌}
use master_all_strings.Prelude.Float.{zero_float, is_finite}
use master_all_strings.Prelude.Text.{Str, codes, str_eq, is_blank, is_space}
use master_all_strings.Foundation.{
  require_non_empty, require_midi_note, require_index, require_finite,
}
use master_all_strings.Score.Provenance.{
  check_event_provenance, require_all_identifiers, require_within, require_positive, precedes,
}
use master_all_strings.Events.{new_musical_event, require_optional_id}
use master_all_strings.Score.Errors.{
  require_identifier, require_prefixed_digest, require_digest, are_hex, is_hex, starts_with, drop,
  require_positive_int, require_utc_timestamp, require_optional_identifier, require_unique,
}
use master_all_strings.Prelude.Strings.{Iso8601, is_stripped, ends_plainly, ends_in_z, replace_z}
use master_all_strings.Ingestion.Requests.{
  check_request, check_source_events, check_source_event, require_at_most, require_string_index,
  require_supported,
}
use master_all_strings.Score.Errors.{as_musical}
use master_all_strings.Ingestion.Contracts.{
  round_half_away_from_zero, SourceMidiEvent, note_on, Request, ImportOutcome, unmatched_note_on,
  releases_a_note,
}
use master_all_strings.Ingestion.Policy.{
  import_direct_events, import_loop, import_step, release_note, record_converted, reject, queue,
  finish, reject_open, warn_of, open_ids, any_channel, rejected_ids,
}
use master_all_strings.Ingestion.Conversion.{
  rejection, convert_note, convert_pair, build_note, or_too_short,
}
use master_all_strings.Ingestion.Policy.Accounts.{accepted_ids, import_direct_events-accounts}
use master_all_strings.Ingestion.Policy.Notes.{AllAgree, import_direct_events-AllAgree}
use master_all_strings.Prelude.Count.{count}
use master_all_strings.Prelude.Dict.{get, put}
use master_all_strings.Prelude.Sort.{sort}
use master_all_strings.Score.Rounding.{divide_round_half_away_from_zero, ◌//ℤ◌}
use master_all_strings.Score.Timing.{
  convert_elapsed, convert_duration, nanoseconds_to_ticks, ticks_to_nanoseconds,
}
use master_all_strings.Ingestion.Policy.Total.{import_direct_events-total}

instance abbrev every_time : Iso8601
every_time = record { accepts = λ s. true }

abbrev message : Str → ℕ → ℕ → ℕ → SourceMidiEvent
message id time pitch velocity = record {
  source_event_id = id;
  kind = note_on;
  capture_time_ns = time;
  channel = 0;
  midi_note = pitch;
  velocity = velocity;
  observed_source_string = some 2;
}

-- A note, its release (a note-on with velocity 0), and a note that is never released.
abbrev take : Request
take = record {
  request_id = codes "r";
  capture_id = codes "c";
  raw_capture_digest =
      codes "sha256:aaaaaaaaaaaaaaaaaaaaaaaaaaaaaaaaaaaaaaaaaaaaaaaaaaaaaaaaaaaaaaaa";
  capture_origin_ns = 0;
  tempo_microseconds_per_quarter = 500_000;
  meter = record { tick = 0; numerator = 4; denominator = 4 };
  source_events =
      message (codes "1") 0 60 80
      ∷ message (codes "2") 500_000_000 60 0
      ∷ message (codes "3") 600_000_000 62 80
      ∷ [];
  ticks_per_quarter = none;
  source_session_id = codes "s";
  requested_at = codes "2026-01-01T00:00:00Z";
  instrument_profile_id = none;
  tuning_profile_id = none;
  requested_projection_types = [];
}

events_sound : check_source_events take.source_events ≡ ok tt
unfolding check_source_events check_source_event as_musical require_midi_note require_at_most
    require_string_index require_identifier is_blank is_space is_stripped ends_plainly
events_sound = refl

take_accepted : check_request take ≡ ok tt
unfolding check_request require_identifier is_blank is_space is_stripped ends_plainly ends_in_z
    replace_z require_prefixed_digest require_digest are_hex is_hex starts_with drop
    require_positive_int require_utc_timestamp require_optional_identifier require_supported
    require_unique all_distinct contains str_eq
take_accepted = refl

import_direct_events-total_example :
    (outcome : ImportOutcome) × (import_direct_events take ≡ ok outcome)
import_direct_events-total_example = import_direct_events-total take events_sound take_accepted

abbrev taken : ImportOutcome
taken = record {
  events =
      record {
        event_id = codes "ev-1";
        midi_note = 60;
        start_tick = 0;
        duration_ticks = 960;
        velocity = 80;
        cents_offset = zero_float;
        voice_id = none;
      }
      ∷ [];
  event_provenance =
      record {
        canonical_event_id = codes "ev-1";
        source_capture_event_ids = codes "1" ∷ codes "2" ∷ [];
        source_channel = 0;
        observed_source_string = some 2;
        source_capture_time_ns = 0;
        source_release_time_ns = 500_000_000;
        converted_start_tick = pos 0;
        converted_duration_ticks = pos 960;
        rounding_delta_start_ns = pos 0;
        rounding_delta_duration_ns = pos 0;
        rounding_policy = round_half_away_from_zero;
        ticks_per_quarter = 960;
        microseconds_per_quarter = 500_000;
      }
      ∷ [];
  warnings = [];
  rejections = record { reason = unmatched_note_on; source_event_ids = codes "3" ∷ [] } ∷ [];
}

import_take : import_direct_events take ≡ ok taken
unfolding import_direct_events import_loop import_step release_note convert_note convert_pair
    build_note as_musical new_musical_event require_non_empty require_midi_note require_index
    require_finite is_finite require_optional_id check_event_provenance require_all_identifiers
    require_within require_positive precedes rejection require_identifier is_blank is_space
    is_stripped ends_plainly require_unique require_positive_int all_distinct contains str_eq
    or_too_short record_converted reject queue finish reject_open warn_of open_ids any_channel
    releases_a_note get put sort convert_elapsed convert_duration nanoseconds_to_ticks
    ticks_to_nanoseconds divide_round_half_away_from_zero ◌*ℤ◌ ◌-ℤ◌ ◌//ℤ◌
import_take = refl

import_direct_events-accounts_example :
    count (codes "2") (accepted_ids taken.event_provenance)
      + count (codes "2") (rejected_ids taken.rejections)
    ≡ count (codes "2") (codes "1" ∷ codes "2" ∷ codes "3" ∷ [])
import_direct_events-accounts_example = import_direct_events-accounts (codes "2") take import_take

import_direct_events-AllAgree_example : AllAgree taken.events taken.event_provenance
import_direct_events-AllAgree_example = import_direct_events-AllAgree take import_take
