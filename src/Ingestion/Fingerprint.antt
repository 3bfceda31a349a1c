-- ===== src/Ingestion/Fingerprint.antt =====
-- core/ingestion/service.py: what a request id is taken to mean.
use master_all_strings.Prelude.{
  ℕ, List, [], ◌∷◌, ◌++◌, Bool, false, Option, none, some, if◌then◌else◌, Str_eq,
}
use master_all_strings.Prelude.Text.{Str, codes, str_eq}
use master_all_strings.Prelude.Dict.{get}
use master_all_strings.Prelude.Decimal.{digits}
use master_all_strings.Prelude.Json.{Json, null, number, text, array, end, item, dumps}
use master_all_strings.Score.Digest.{Hashing, rows}
use master_all_strings.Ingestion.Contracts.{Kind, note_on, note_off, SourceMidiEvent, Request}
use master_all_strings.Ingestion.Policy.{resolution}

abbrev pub policy_version : Str
policy_version = codes "DIRECT_EVENT_IMPORT_V1"

abbrev kind_value : Kind → Str
kind_value note_on = codes "note_on"
kind_value note_off = codes "note_off"

abbrev optional_number : Option ℕ → Json
optional_number none = null
optional_number (some n) = number n

unfoldable pub source_event_row : SourceMidiEvent → Json
source_event_row event = array (
    item (text event.source_event_id) (
      item (text (kind_value event.kind)) (
        item (number event.capture_time_ns) (
          item (number event.channel) (
            item (number event.midi_note) (
              item (number event.velocity)
                (item (optional_number event.observed_source_string) end)))))))

unfoldable pub source_events_digest : ⦃h : Hashing⦄ → List SourceMidiEvent → Str
source_events_digest ⦃h⦄ events = h.sha256 (dumps (array (rows source_event_row events)))

unfoldable pub fingerprint_fields : ⦃h : Hashing⦄ → Request → List (Str × Str)
fingerprint_fields request =
    (codes "capture_id", request.capture_id)
    ∷ (codes "raw_capture_digest", request.raw_capture_digest)
    ∷ (codes "capture_origin_ns", digits request.capture_origin_ns)
    ∷ (codes "tempo_microseconds_per_quarter", digits request.tempo_microseconds_per_quarter)
    ∷ (
      codes "meter",
      digits request.meter.tick
          ++ (58 ∷ digits request.meter.numerator ++ 47 ∷ digits request.meter.denominator),
    )
    ∷ (codes "ticks_per_quarter", digits (resolution request.ticks_per_quarter))
    ∷ (codes "policy_version", policy_version)
    ∷ (codes "source_events", source_events_digest request.source_events)
    ∷ []

abbrev field_row : Str × Str → Json
field_row (name, value) = array (item (text name) (item (text value) end))

unfoldable pub request_fingerprint : ⦃h : Hashing⦄ → Request → Str
request_fingerprint ⦃h⦄ request =
    h.sha256 (dumps (array (rows field_row (fingerprint_fields request))))

pub record RequestIdentity : Type 0 where
  pub fingerprint : Str
  pub fields : List (Str × Str)

-- `_RequestIdentity.of`
abbrev pub identity_of : ⦃h : Hashing⦄ → Request → RequestIdentity
identity_of request = record {
  fingerprint = request_fingerprint request;
  fields = fingerprint_fields request;
}

abbrev is_value : Str → Option Str → Bool
is_value value none = false
is_value value (some theirs) = str_eq theirs value

unfoldable pub differing_fields : List (Str × Str) → List (Str × Str) → List Str
differing_fields [] theirs = []
differing_fields ((name, value) ∷ fields) theirs =
    let rest = differing_fields fields theirs in
    if is_value value (get name theirs) then rest else name ∷ rest
