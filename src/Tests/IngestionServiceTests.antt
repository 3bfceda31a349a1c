-- ===== src/Tests/IngestionServiceTests.antt =====
-- core/ingestion/service.py at concrete inputs.
use master_all_strings.Prelude.{
  ℕ, zero, suc, ◌+◌, ◌%◌, arith, List, [], ◌∷◌, ◌++◌, true, false, none, some, Result, ok, err, ◌≡◌,
  ◌≢◌, refl, length, Str_eq, contains, all_distinct, subst,
}
use master_all_strings.Prelude.Dict.{get, put, has}
use master_all_strings.Prelude.Int.{◌-ℤ◌, ◌*ℤ◌}
use master_all_strings.Prelude.Decimal.{digits}
use master_all_strings.Prelude.Json.{dumps, dumps_before}
use master_all_strings.Prelude.Text.{Str, codes, str_eq, str_eq_refl, is_blank, is_space}
use master_all_strings.Prelude.Strings.{Iso8601, is_stripped, ends_in_z, ends_plainly, replace_z}
use master_all_strings.Score.Errors.{
  require_digest, are_hex, is_hex, require_identifier, require_optional_identifier,
  require_optional_prose, require_positive_int, require_prose, require_unique,
  require_utc_timestamp, require_prefixed_digest, starts_with, drop,
}
use master_all_strings.Score.Canonicalize.{
  canonicalize_events, canonicalize_tempo_changes, canonicalize_meter_changes,
}
use master_all_strings.Prelude.Sort.{sort, insert}
use master_all_strings.Prelude.Order.{str_leb}
use master_all_strings.Prelude.Json.Escapes.{escape, escape_char, unit}
use master_all_strings.Score.Models.{
  check_document, check_revision, increases, is_origin, take, validate_lineage, validate_map,
}
use master_all_strings.Score.Digest.{
  compute_revision_digest, derive_revision_id, payload, event_row, meter_row, rows, tempo_row,
  Hashing, canonical, serialize_revision_content,
}
use master_all_strings.Score.Ids.{
  zeros, padded_number, format_document_id, Deterministic, deterministic, next_deterministic,
}
use master_all_strings.Score.Provenance.{check_revision_provenance}
use master_all_strings.Score.Tempo.{new_tempo_change}
use master_all_strings.Score.Rounding.{divide_round_half_away_from_zero, ◌//ℤ◌}
use master_all_strings.Score.Timing.{
  convert_elapsed, convert_duration, nanoseconds_to_ticks, ticks_to_nanoseconds,
}
use master_all_strings.Score.Repository.{empty_repository, create_document_with_origin_revision}
use master_all_strings.Score.Revisions.{build_revision}
use master_all_strings.Score.Service.{Service, create_document_with_revision, create_child_revision}
use master_all_strings.Foundation.{
  require_non_empty, require_midi_note, require_index, require_finite,
}
use master_all_strings.Score.Provenance.{
  check_event_provenance, require_all_identifiers, require_within, require_positive, precedes,
}
use master_all_strings.Events.{new_musical_event, require_optional_id}
use master_all_strings.Prelude.Float.{is_finite}
use master_all_strings.Score.Errors.{as_musical}
use master_all_strings.Ingestion.Contracts.{
  Kind, note_on, note_off, SourceMidiEvent, Request, releases_a_note,
}
use master_all_strings.Ingestion.Policy.{
  import_direct_events, import_loop, import_step, release_note, record_converted, reject, queue,
  finish, reject_open, warn_of, open_ids, any_channel, rejected_count,
}
use master_all_strings.Ingestion.Conversion.{
  rejection, convert_note, convert_pair, build_note, or_too_short,
}
use master_all_strings.Ingestion.Results.{
  IngestionResult, rejected, is_some, check_result, agrees, cited, add_all,
}
use master_all_strings.Ingestion.Fingerprint.{
  RequestIdentity, source_event_row, source_events_digest, fingerprint_fields, request_fingerprint,
  differing_fields,
}
use master_all_strings.Ingestion.Service.{
  Ingestion, idempotency_conflict, duplicate_of, require_consistent, answer_duplicate,
  answer_rejected, create_from, ingest_new, ingest,
}
use master_all_strings.Ingestion.Service.Idempotency.{Asked, ingested_all, ingest-again}
use master_all_strings.Ingestion.Service.Conflicts.{new_ingestion, ingest-conflict}

instance abbrev every_time : Iso8601
every_time = record { accepts = λ s. true }

abbrev repeated : ℕ → ℕ → Str
repeated zero c = []
repeated (suc n) c = c ∷ repeated n c

instance abbrev by_length : Hashing
by_length = record {
  sha256 = λ s. repeated 64 (97 + length s % 6);
  repr_float = λ x. digits x.bits;
}

abbrev message : Str → Kind → ℕ → SourceMidiEvent
message id kind time = record {
  source_event_id = id;
  kind = kind;
  capture_time_ns = time;
  channel = 0;
  midi_note = 60;
  velocity = 80;
  observed_source_string = some 2;
}

abbrev asked : Str → List SourceMidiEvent → Request
asked id events = record {
  request_id = id;
  capture_id = codes "c";
  raw_capture_digest = codes "sha256:" ++ repeated 64 97;
  capture_origin_ns = 0;
  tempo_microseconds_per_quarter = 500_000;
  meter = record { tick = 0; numerator = 4; denominator = 4 };
  source_events = events;
  ticks_per_quarter = none;
  source_session_id = codes "s";
  requested_at = codes "2026-01-01T00:00:00Z";
  instrument_profile_id = none;
  tuning_profile_id = none;
  requested_projection_types = [];
}

abbrev one_note : Request
one_note =
    asked (codes "r")
      (message (codes "1") note_on 0 ∷ message (codes "2") note_off 500_000_000 ∷ [])

abbrev no_note : Request
no_note = asked (codes "r") []

abbrev other_take : Request
other_take = record one_note { capture_id = codes "c-2" }

str_eq_apart : (s t : Str) → str_eq s t ≡ false → s ≢ t
str_eq_apart s t apart e = ground (arith, apart, subst (λ x. str_eq s x ≡ true) e (str_eq_refl s))

abbrev time : Str
time = codes "2026-01-02T00:00:00Z"

abbrev opening : Service Deterministic
opening = record {
  repository = empty_repository;
  ids = record { prefix = codes "test"; next = 1; width = 4; issued = [] };
}

abbrev blank_result : IngestionResult
blank_result = record {
  request_id = [];
  status = rejected;
  source_capture_id = [];
  source_capture_digest = [];
  policy_version = [];
  completed_at = [];
  document_id = none;
  revision_id = none;
  created_new_document = false;
  created_new_revision = false;
  accepted_event_count = 0;
  rejected_event_count = 0;
  warnings = [];
  rejections = [];
}

abbrev or_blank : {E : Type 0} → Result E IngestionResult → IngestionResult
or_blank (ok r) = r
or_blank (err e) = blank_result

abbrev answer_to : Request → IngestionResult
answer_to q = or_blank (ingest deterministic q time (new_ingestion opening)).0

one_note_answered :
    (ingest deterministic one_note time (new_ingestion opening)).0 ≡ ok (answer_to one_note)
unfolding next_deterministic get has put contains all_distinct digits str_eq
    create_document_with_revision create_child_revision build_revision canonicalize_events
    canonicalize_tempo_changes canonicalize_meter_changes compute_revision_digest
    serialize_revision_content canonical sort insert derive_revision_id require_digest dumps payload
    escape escape_char unit dumps_before str_leb ends_in_z ends_plainly replace_z is_space event_row
    meter_row rows tempo_row are_hex is_hex require_identifier require_optional_identifier
    require_optional_prose require_positive_int require_prose require_unique require_utc_timestamp
    zeros check_document check_revision increases is_origin take validate_lineage validate_map
    is_blank is_stripped padded_number format_document_id create_document_with_origin_revision
    import_direct_events import_loop import_step release_note convert_note convert_pair build_note
    as_musical new_musical_event require_non_empty require_midi_note require_index require_finite
    is_finite require_optional_id check_event_provenance require_all_identifiers require_within
    require_positive precedes rejection or_too_short record_converted reject queue finish
    reject_open warn_of open_ids any_channel releases_a_note convert_elapsed convert_duration
    nanoseconds_to_ticks ticks_to_nanoseconds divide_round_half_away_from_zero ◌*ℤ◌ ◌-ℤ◌ ◌//ℤ◌
    ingest ingest_new create_from answer_duplicate answer_rejected check_result agrees cited add_all
    require_consistent source_event_row source_events_digest fingerprint_fields request_fingerprint
    differing_fields require_prefixed_digest check_revision_provenance new_tempo_change starts_with
    drop rejected_count
one_note_answered = refl

one_note_revised : is_some (answer_to one_note).revision_id ≡ true
unfolding next_deterministic get has put contains all_distinct digits str_eq
    create_document_with_revision create_child_revision build_revision canonicalize_events
    canonicalize_tempo_changes canonicalize_meter_changes compute_revision_digest
    serialize_revision_content canonical sort insert derive_revision_id require_digest dumps payload
    escape escape_char unit dumps_before str_leb ends_in_z ends_plainly replace_z is_space event_row
    meter_row rows tempo_row are_hex is_hex require_identifier require_optional_identifier
    require_optional_prose require_positive_int require_prose require_unique require_utc_timestamp
    zeros check_document check_revision increases is_origin take validate_lineage validate_map
    is_blank is_stripped padded_number format_document_id create_document_with_origin_revision
    import_direct_events import_loop import_step release_note convert_note convert_pair build_note
    as_musical new_musical_event require_non_empty require_midi_note require_index require_finite
    is_finite require_optional_id check_event_provenance require_all_identifiers require_within
    require_positive precedes rejection or_too_short record_converted reject queue finish
    reject_open warn_of open_ids any_channel releases_a_note convert_elapsed convert_duration
    nanoseconds_to_ticks ticks_to_nanoseconds divide_round_half_away_from_zero ◌*ℤ◌ ◌-ℤ◌ ◌//ℤ◌
    ingest ingest_new create_from answer_duplicate answer_rejected check_result agrees cited add_all
    require_consistent source_event_row source_events_digest fingerprint_fields request_fingerprint
    differing_fields require_prefixed_digest check_revision_provenance new_tempo_change starts_with
    drop rejected_count
one_note_revised = refl

time_passes : require_utc_timestamp time "completed_at" ≡ ok tt
unfolding require_utc_timestamp is_blank is_space is_stripped ends_in_z ends_plainly replace_z
    require_identifier
time_passes = refl

-- Asked again after another request under the same id, which is refused, and one under another id.
abbrev between : List Asked
between =
    record { request = no_note; completed_at = time }
    ∷ record { request = asked (codes "q") []; completed_at = time }
    ∷ []

abbrev after_between : Ingestion Deterministic
after_between =
    ingested_all deterministic between
      (ingest deterministic one_note time (new_ingestion opening)).1

ingest-again_example :
    ingest deterministic one_note time after_between
    ≡ (ok (duplicate_of (answer_to one_note) time), after_between)
ingest-again_example =
    ingest-again deterministic one_note time (new_ingestion opening) one_note_answered
      one_note_revised between time time_passes

no_note_answered :
    (ingest deterministic no_note time (ingested_all deterministic [] (new_ingestion opening))).0
    ≡ ok (answer_to no_note)
unfolding next_deterministic get has put contains all_distinct digits str_eq
    create_document_with_revision create_child_revision build_revision canonicalize_events
    canonicalize_tempo_changes canonicalize_meter_changes compute_revision_digest
    serialize_revision_content canonical sort insert derive_revision_id require_digest dumps payload
    escape escape_char unit dumps_before str_leb ends_in_z ends_plainly replace_z is_space event_row
    meter_row rows tempo_row are_hex is_hex require_identifier require_optional_identifier
    require_optional_prose require_positive_int require_prose require_unique require_utc_timestamp
    zeros check_document check_revision increases is_origin take validate_lineage validate_map
    is_blank is_stripped padded_number format_document_id create_document_with_origin_revision
    import_direct_events import_loop import_step release_note convert_note convert_pair build_note
    as_musical new_musical_event require_non_empty require_midi_note require_index require_finite
    is_finite require_optional_id check_event_provenance require_all_identifiers require_within
    require_positive precedes rejection or_too_short record_converted reject queue finish
    reject_open warn_of open_ids any_channel releases_a_note convert_elapsed convert_duration
    nanoseconds_to_ticks ticks_to_nanoseconds divide_round_half_away_from_zero ◌*ℤ◌ ◌-ℤ◌ ◌//ℤ◌
    ingest ingest_new create_from answer_duplicate answer_rejected check_result agrees cited add_all
    require_consistent source_event_row source_events_digest fingerprint_fields request_fingerprint
    differing_fields require_prefixed_digest check_revision_provenance new_tempo_change starts_with
    drop rejected_count ingested_all
no_note_answered = refl

fingerprints_apart : str_eq (request_fingerprint no_note) (request_fingerprint other_take) ≡ false
unfolding next_deterministic get has put contains all_distinct digits str_eq
    create_document_with_revision create_child_revision build_revision canonicalize_events
    canonicalize_tempo_changes canonicalize_meter_changes compute_revision_digest
    serialize_revision_content canonical sort insert derive_revision_id require_digest dumps payload
    escape escape_char unit dumps_before str_leb ends_in_z ends_plainly replace_z is_space event_row
    meter_row rows tempo_row are_hex is_hex require_identifier require_optional_identifier
    require_optional_prose require_positive_int require_prose require_unique require_utc_timestamp
    zeros check_document check_revision increases is_origin take validate_lineage validate_map
    is_blank is_stripped padded_number format_document_id create_document_with_origin_revision
    import_direct_events import_loop import_step release_note convert_note convert_pair build_note
    as_musical new_musical_event require_non_empty require_midi_note require_index require_finite
    is_finite require_optional_id check_event_provenance require_all_identifiers require_within
    require_positive precedes rejection or_too_short record_converted reject queue finish
    reject_open warn_of open_ids any_channel releases_a_note convert_elapsed convert_duration
    nanoseconds_to_ticks ticks_to_nanoseconds divide_round_half_away_from_zero ◌*ℤ◌ ◌-ℤ◌ ◌//ℤ◌
    ingest ingest_new create_from answer_duplicate answer_rejected check_result agrees cited add_all
    require_consistent source_event_row source_events_digest fingerprint_fields request_fingerprint
    differing_fields require_prefixed_digest check_revision_provenance new_tempo_change starts_with
    drop rejected_count
fingerprints_apart = refl

fingerprints-differ : request_fingerprint no_note ≢ request_fingerprint other_take
fingerprints-differ e =
    str_eq_apart (request_fingerprint no_note) (request_fingerprint other_take) fingerprints_apart e

ingest-conflict_example :
    let t =
      ingested_all deterministic []
        (ingest deterministic no_note time
          (ingested_all deterministic [] (new_ingestion opening))).1 in
    (i : RequestIdentity) × (i.fingerprint ≡ request_fingerprint no_note)
    × (ingest deterministic other_take time t ≡ (
      err (idempotency_conflict (differing_fields (fingerprint_fields other_take) i.fields)),
      t,
    ))
ingest-conflict_example =
    ingest-conflict deterministic opening [] no_note time no_note_answered [] other_take time refl
      fingerprints-differ time_passes
