-- ===== src/Score/Models.antt =====
-- core/score/models.py: documents and revisions, with what their constructors check.
use Prim.Native.String.{String}
use master_all_strings.Prelude.{
  ℕ, zero, suc, List, [], ◌∷◌, ◌++◌, Bool, true, false, ◌&&◌, not, Option, none, some, Result, ok,
  err, require, ◌>>◌, map, Str_eq, ℕ_eq, contains, ltb, nat_eq,
}
use master_all_strings.Prelude.Int.{pos}
use master_all_strings.Prelude.Text.{Str, str_eq, codes}
use master_all_strings.Prelude.Strings.{Iso8601}
use master_all_strings.Events.{MusicalEvent}
use master_all_strings.Score.Errors.{
  ScoreError, require_identifier, require_optional_identifier, require_unique, require_positive_int,
  require_utc_timestamp, require_digest, require_optional_prose, unsupported_resolution,
  origin_with_parent, parent_missing, own_parent, id_not_derived, count_not_increasing, map_empty,
  map_not_at_zero, map_not_increasing,
}
use master_all_strings.Score.Tempo.{TempoChange}
use master_all_strings.Score.Meter.{MeterChange}
use master_all_strings.Score.Provenance.{RevisionProvenance}

abbrev pub supported_ticks_per_quarter : List ℕ
supported_ticks_per_quarter = 96 ∷ 120 ∷ 192 ∷ 240 ∷ 384 ∷ 480 ∷ 960 ∷ 1920 ∷ []

abbrev pub first_revision_number : ℕ
first_revision_number = 1

pub record Document : Type 0 where
  pub document_id : Str
  pub created_at : Str
  pub current_revision_id : Str
  pub revision_count : ℕ
  pub title : Option Str
  pub description : Option Str
  pub external_reference : Option Str

pub record Revision : Type 0 where
  pub revision_id : Str
  pub document_id : Str
  pub revision_number : ℕ
  pub parent_revision_id : Option Str
  pub created_at : Str
  pub ticks_per_quarter : ℕ
  pub content_digest : Str
  pub provenance : RevisionProvenance
  pub events : List MusicalEvent
  pub tempo_changes : List TempoChange
  pub meter_changes : List MeterChange

-- `value[:n]`
unfoldable pub take : ℕ → Str → Str
take zero value = []
take (suc n) [] = []
take (suc n) (c ∷ value) = c ∷ take n value

-- `REVISION_ID_PREFIX + content_digest[:REVISION_ID_DIGEST_PREFIX]`
abbrev pub revision_id_of : Str → Str
revision_id_of content_digest = codes "rev-" ++ take 24 content_digest

-- `ScoreDocumentV1.__post_init__`
unfoldable pub check_document : ⦃iso : Iso8601⦄ → Document → Result ScoreError (Unit {0})
check_document d = do
  require_identifier d.document_id "document_id"
  require_utc_timestamp d.created_at "created_at"
  require_identifier d.current_revision_id "current_revision_id"
  require_positive_int (pos d.revision_count) "revision_count"
  require_optional_prose d.title "title"
  require_optional_prose d.description "description"
  require_optional_identifier d.external_reference "external_reference"

-- `ScoreDocumentV1.with_revision`
unfoldable pub with_revision : ⦃iso : Iso8601⦄ → Document → Str → ℕ → Result ScoreError Document
with_revision d current_revision_id revision_count = do
  require_identifier current_revision_id "current_revision_id"
  require_positive_int (pos revision_count) "revision_count"
  require (ltb d.revision_count revision_count) count_not_increasing
  let advanced = record d {
    current_revision_id = current_revision_id;
    revision_count = revision_count;
  }
  check_document advanced
  ok advanced

unfoldable pub is_origin : Revision → Bool
is_origin v = nat_eq v.revision_number first_revision_number

-- `_validate_lineage`: the number is the first, the parent, and the revision's own id.
unfoldable pub validate_lineage : Bool → Option Str → Str → Result ScoreError (Unit {0})
validate_lineage true none revision_id = ok tt
validate_lineage true (some parent) revision_id = err origin_with_parent
validate_lineage false none revision_id = err parent_missing
validate_lineage false (some parent) revision_id = do
  require_identifier parent "parent_revision_id"
  require (not (str_eq parent revision_id)) own_parent

-- `_require_strictly_increasing`
unfoldable pub increases : List ℕ → Bool
increases [] = true
increases (tick ∷ []) = true
increases (tick ∷ next ∷ ticks) = ltb tick next && increases (next ∷ ticks)

-- `_validate_tempo_map` and `_validate_meter_map`, on the ticks of the map.
unfoldable pub validate_map : List ℕ → String → Result ScoreError (Unit {0})
validate_map [] field_name = err (map_empty field_name)
validate_map (tick ∷ ticks) field_name = do
  require (nat_eq tick 0) (map_not_at_zero field_name)
  require (increases (tick ∷ ticks)) (map_not_increasing field_name)

-- `CanonicalScoreRevisionV1.__post_init__`
unfoldable pub check_revision : ⦃iso : Iso8601⦄ → Revision → Result ScoreError (Unit {0})
check_revision v = do
  require_identifier v.revision_id "revision_id"
  require_identifier v.document_id "document_id"
  require_positive_int (pos v.revision_number) "revision_number"
  require_utc_timestamp v.created_at "created_at"
  require_digest v.content_digest "content_digest"
  require (contains v.ticks_per_quarter supported_ticks_per_quarter) unsupported_resolution
  validate_lineage (is_origin v) v.parent_revision_id v.revision_id
  require (str_eq v.revision_id (revision_id_of v.content_digest)) id_not_derived
  require_unique (map (λ event. event.event_id) v.events) "event_id"
  validate_map (map (λ change. change.tick) v.tempo_changes) "tempo_changes"
  validate_map (map (λ change. change.tick) v.meter_changes) "meter_changes"
