-- ===== src/Ingestion/Results.antt =====
-- core/ingestion/results.py: the answer to a request.
use master_all_strings.Prelude.{
  ℕ, List, [], ◌∷◌, ◌++◌, Bool, true, false, ◌&&◌, not, Option, none, some, Result, require, ◌>>◌,
  Str_eq, ℕ_eq, contains, length, leb, if◌then◌else◌,
}
use master_all_strings.Prelude.Text.{Str}
use master_all_strings.Prelude.Strings.{Iso8601}
use master_all_strings.Score.Errors.{
  ScoreError, require_identifier, require_optional_identifier, require_prefixed_digest,
  require_utc_timestamp, no_identity_on_success, revision_on_rejection, rejection_unexplained,
  accepted_with_rejections, rejections_missing, duplicate_created_revision, count_too_small,
}
use master_all_strings.Ingestion.Contracts.{Rejection, Warning}

pub data IngestionStatus : Type 0 where
  accepted partly_accepted rejected duplicate : IngestionStatus

pub record IngestionResult : Type 0 where
  pub request_id : Str
  pub status : IngestionStatus
  pub source_capture_id : Str
  pub source_capture_digest : Str
  pub policy_version : Str
  pub completed_at : Str
  pub document_id : Option Str
  pub revision_id : Option Str
  pub created_new_document : Bool
  pub created_new_revision : Bool
  pub accepted_event_count : ℕ
  pub rejected_event_count : ℕ
  pub warnings : List Warning
  pub rejections : List Rejection

abbrev pub is_some : Option Str → Bool
is_some none = false
is_some (some value) = true

abbrev pub is_nonempty {ℓ} : {A : Type ℓ} → List A → Bool
is_nonempty [] = false
is_nonempty (x ∷ xs) = true

-- `{*ids, *seen}`, as the list of the new elements behind the old.
unfoldable pub add_all : List Str → List Str → List Str
add_all [] seen = seen
add_all (id ∷ ids) seen = add_all ids (if contains id seen then seen else seen ++ id ∷ [])

-- `{source_id for r in rejections for source_id in r.source_event_ids}`
unfoldable pub cited : List Rejection → List Str → List Str
unfolding add_all
cited [] seen = seen
cited (r ∷ rs) seen = cited rs (add_all r.source_event_ids seen)

-- `_validate_status_agreement`, by the status; the count of the cited events comes last.
unfoldable pub agrees : IngestionStatus → IngestionResult → Result ScoreError (Unit {0})
agrees accepted r = do
  require (is_some r.document_id && is_some r.revision_id) no_identity_on_success
  require (not (is_nonempty r.rejections)) accepted_with_rejections
agrees partly_accepted r = do
  require (is_some r.document_id && is_some r.revision_id) no_identity_on_success
  require (is_nonempty r.rejections) rejections_missing
agrees rejected r = do
  require (not (is_some r.revision_id)) revision_on_rejection
  require (is_nonempty r.rejections) rejection_unexplained
agrees duplicate r = do
  require (is_some r.document_id && is_some r.revision_id) no_identity_on_success
  require (not r.created_new_revision) duplicate_created_revision

-- `CanonicalIngestionResultV1.__post_init__`
unfoldable pub check_result : ⦃iso : Iso8601⦄ → IngestionResult → Result ScoreError (Unit {0})
check_result r = do
  require_identifier r.request_id "request_id"
  require_identifier r.source_capture_id "source_capture_id"
  require_prefixed_digest r.source_capture_digest "source_capture_digest"
  require_identifier r.policy_version "policy_version"
  require_utc_timestamp r.completed_at "completed_at"
  require_optional_identifier r.document_id "document_id"
  require_optional_identifier r.revision_id "revision_id"
  agrees r.status r
  require (leb (length (cited r.rejections [])) r.rejected_event_count) count_too_small

unfoldable pub succeeded : IngestionResult → Bool
succeeded r = is_some r.revision_id

unfoldable pub revision_is_complete_for_input : IngestionResult → Bool
unfolding succeeded
revision_is_complete_for_input r = succeeded r && not (is_nonempty r.rejections)
