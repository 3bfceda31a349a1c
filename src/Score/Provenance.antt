-- ===== src/Score/Provenance.antt =====
-- core/score/provenance.py: where a revision and its events come from.
use Prim.Native.String.{String}
use master_all_strings.Prelude.{
  ℕ, List, [], ◌∷◌, Bool, true, false, not, Option, none, some, Result, ok, require, ◌>>◌, map,
  Str_eq, ltb, leb, if◌then◌else◌,
}
use master_all_strings.Prelude.Int.{ℤ, pos}
use master_all_strings.Prelude.Text.{Str, str_eq}
use master_all_strings.Ingestion.Contracts.{RoundingPolicy}
use master_all_strings.Score.Errors.{
  ScoreError, require_identifier, require_optional_identifier, require_unique, require_positive_int,
  out_of_range, no_source_reference, release_precedes_capture,
}

abbrev max_midi_channel : ℕ
max_midi_channel = 15

abbrev max_source_string : ℕ
max_source_string = 15

pub data SourceKind : Type 0 where
  performance_capture manual_construction creative_edit imported : SourceKind

-- `SourceEventProvenanceV1` of any revision: the fields that capture leaves behind are optional.
pub record SourceEventProvenance : Type 0 where
  pub canonical_event_id : Str
  pub source_capture_event_ids : List Str
  pub source_channel : Option ℕ
  pub observed_source_string : Option ℕ
  pub source_capture_time_ns : Option ℕ
  pub source_release_time_ns : Option ℕ
  pub converted_start_tick : Option ℕ
  pub converted_duration_ticks : Option ℕ
  pub rounding_delta_start_ns : Option ℤ
  pub rounding_delta_duration_ns : Option ℤ
  pub rounding_policy : Option RoundingPolicy
  pub ticks_per_quarter : Option ℕ
  pub microseconds_per_quarter : Option ℕ

pub record RevisionProvenance : Type 0 where
  pub source_kind : SourceKind
  pub policy_version : Str
  pub source_reference : Option Str
  pub event_provenance : List SourceEventProvenance
  pub notes : List Str

unfoldable pub require_all_identifiers : List Str → String → Result ScoreError (Unit {0})
require_all_identifiers [] field_name = ok tt
require_all_identifiers (id ∷ ids) field_name = do
  require_identifier id field_name
  require_all_identifiers ids field_name

-- `if value is not None: self._require_range(value, field_name, 0, high)`
unfoldable pub require_within : Option ℕ → String → ℕ → Result ScoreError (Unit {0})
require_within none field_name high = ok tt
require_within (some value) field_name high = require (leb value high) (out_of_range field_name)

unfoldable pub require_positive : Option ℕ → String → Result ScoreError (Unit {0})
require_positive none field_name = ok tt
require_positive (some value) field_name = require_positive_int (pos value) field_name

unfoldable pub precedes : Option ℕ → Option ℕ → Bool
precedes (some release) (some capture) = ltb release capture
precedes (some release) none = false
precedes none capture = false

-- `SourceEventProvenanceV1.__post_init__`; what may not be negative is a natural number.
unfoldable pub check_event_provenance : SourceEventProvenance → Result ScoreError (Unit {0})
unfolding require_all_identifiers require_within require_positive precedes
check_event_provenance p = do
  require_identifier p.canonical_event_id "canonical_event_id"
  require_all_identifiers p.source_capture_event_ids "source_capture_event_ids entry"
  require_unique p.source_capture_event_ids "source_capture_event_ids"
  require_within p.source_channel "source_channel" max_midi_channel
  require_within p.observed_source_string "observed_source_string" max_source_string
  require_positive p.converted_duration_ticks "converted_duration_ticks"
  require_positive p.ticks_per_quarter "ticks_per_quarter"
  require_positive p.microseconds_per_quarter "microseconds_per_quarter"
  require (not (precedes p.source_release_time_ns p.source_capture_time_ns))
      release_precedes_capture

-- `self.source_kind is PERFORMANCE_CAPTURE and self.source_reference is None`
unreferenced : SourceKind → Option Str → Bool
unreferenced performance_capture none = true
unreferenced performance_capture (some reference) = false
unreferenced manual_construction reference = false
unreferenced creative_edit reference = false
unreferenced imported reference = false

-- `RevisionProvenanceV1.__post_init__`
unfoldable pub check_revision_provenance : RevisionProvenance → Result ScoreError (Unit {0})
unfolding require_all_identifiers unreferenced
check_revision_provenance p = do
  require_identifier p.policy_version "policy_version"
  require_optional_identifier p.source_reference "source_reference"
  require_unique (map (λ entry. entry.canonical_event_id) p.event_provenance)
      "event_provenance canonical_event_id"
  require_all_identifiers p.notes "notes entry"
  require (not (unreferenced p.source_kind p.source_reference)) no_source_reference

-- `RevisionProvenanceV1.for_event`
unfoldable pub for_event : Str → List SourceEventProvenance → Option SourceEventProvenance
for_event id [] = none
for_event id (entry ∷ entries) =
    if str_eq entry.canonical_event_id id then some entry else for_event id entries
