-- ===== src/Ingestion/Service.antt =====
-- core/ingestion/service.py: requests become documents, each request once.
pub mod Effects
pub mod Idempotency
pub mod Conflicts
use master_all_strings.Prelude.{
  ℕ, List, [], ◌∷◌, Bool, true, false, Option, none, some, Result, ok, err, require, map, length,
  Str_eq, if◌then◌else◌,
}
use master_all_strings.Prelude.Action.{
  Action, ◌>>=◌, ◌>>◌, return, raise, self, modify, lift, after,
}
use master_all_strings.Prelude.Dict.{Dict, get, put}
use master_all_strings.Prelude.Int.{pos, pos_part}
use master_all_strings.Prelude.Text.{Str, codes, str_eq}
use master_all_strings.Prelude.Strings.{Iso8601}
use master_all_strings.Score.Errors.{ScoreError, require_utc_timestamp}
use master_all_strings.Score.Tempo.{TempoChange, new_tempo_change}
use master_all_strings.Score.Provenance.{
  performance_capture, SourceEventProvenance, RevisionProvenance, check_revision_provenance,
}
use master_all_strings.Score.Digest.{Hashing}
use master_all_strings.Score.Ids.{DocumentIdAuthority}
use master_all_strings.Score.Revisions.{Submission, Labels}
use master_all_strings.Score.Service.{
  Service, Serving, ServiceError, RevisionCreation, create_document_with_revision,
}
use master_all_strings.Ingestion.Contracts.{
  EventProvenance, Request, Rejection, RejectionReason, ImportOutcome,
}
use master_all_strings.Ingestion.Contracts
use master_all_strings.Ingestion.Policy.{
  import_direct_events, resolution, accepted_count, rejected_count,
}
use master_all_strings.Ingestion.Conversion.{as_provenance}
use master_all_strings.Ingestion.Results.{
  IngestionStatus, accepted, partly_accepted, rejected, duplicate, IngestionResult, is_nonempty,
  cited, check_result,
}
use master_all_strings.Ingestion.Fingerprint.{
  policy_version, RequestIdentity, identity_of, differing_fields,
}

-- `IngestionIdempotencyConflictError` with the fields that differ, and what is raised below.
pub data IngestionError : Type 0 where
  contract : ScoreError → IngestionError
  revising : ServiceError → IngestionError
  idempotency_conflict : List Str → IngestionError

abbrev pub attributed : {E A : Type 0} → (E → IngestionError) → Result E A → Result IngestionError A
attributed f (ok a) = ok a
attributed f (err e) = err (f e)

pub record Ingestion (S : Type 0) : Type 0 where
  pub revisions : Service S
  pub results : Dict Str IngestionResult
  pub identities : Dict Str RequestIdentity

abbrev pub Ingesting : Type 0 → Type 0 → Type 0
Ingesting S A = Action (Ingestion S) IngestionError A

abbrev pub checked : {S A : Type 0} → Result ScoreError A → Ingesting S A
checked r = lift (attributed contract r)

-- A call of the revision service.
abbrev pub revised : {S A : Type 0} → Serving S A → Ingesting S A
revised m s = (attributed revising (m s.revisions).0, record s { revisions = (m s.revisions).1 })

abbrev pub provenance_of : Request → ImportOutcome → RevisionProvenance
provenance_of request outcome = record {
  source_kind = performance_capture;
  policy_version = policy_version;
  source_reference = some request.capture_id;
  event_provenance = map as_provenance outcome.event_provenance;
  notes = [];
}

abbrev pub submission_of : Request → Str → ImportOutcome → TempoChange → Submission
submission_of request completed_at outcome tempo = record {
  created_at = completed_at;
  provenance = provenance_of request outcome;
  events = outcome.events;
  tempo_changes = tempo ∷ [];
  meter_changes = request.meter ∷ [];
}

abbrev pub labels_of : Request → Labels
labels_of request = record {
  title = none;
  description = none;
  external_reference = some request.capture_id;
}

abbrev pub accepted_status : List Rejection → IngestionStatus
accepted_status [] = accepted
accepted_status (r ∷ rs) = partly_accepted

abbrev pub accepted_result : Request → Str → ImportOutcome → RevisionCreation → IngestionResult
accepted_result request completed_at outcome creation = record {
  request_id = request.request_id;
  status = accepted_status outcome.rejections;
  source_capture_id = request.capture_id;
  source_capture_digest = request.raw_capture_digest;
  policy_version = policy_version;
  completed_at = completed_at;
  document_id = some creation.document.document_id;
  revision_id = some creation.revision.revision_id;
  created_new_document = true;
  created_new_revision = true;
  accepted_event_count = accepted_count outcome;
  rejected_event_count = rejected_count outcome;
  warnings = outcome.warnings;
  rejections = outcome.rejections;
}

-- `_as_duplicate`, before its constructor's checks.
abbrev pub duplicate_of : IngestionResult → Str → IngestionResult
duplicate_of existing completed_at = record existing {
  status = duplicate;
  completed_at = completed_at;
  created_new_document = false;
  created_new_revision = false;
}

-- `_rejected`, before its constructor's checks.
abbrev pub rejected_result : Request → Str → List Rejection → IngestionResult
rejected_result request completed_at rejections = record {
  request_id = request.request_id;
  status = rejected;
  source_capture_id = request.capture_id;
  source_capture_digest = request.raw_capture_digest;
  policy_version = policy_version;
  completed_at = completed_at;
  document_id = none;
  revision_id = none;
  created_new_document = false;
  created_new_revision = false;
  accepted_event_count = 0;
  rejected_event_count = length (cited rejections []);
  warnings = [];
  rejections = rejections;
}

-- `outcome.rejections or (NO_CONVERTIBLE_EVENTS,)`
abbrev pub reasons_of : List Rejection → List Rejection
reasons_of [] =
    record { reason = RejectionReason.no_convertible_events; source_event_ids = [] } ∷ []
reasons_of (r ∷ rs) = r ∷ rs

-- `_require_consistent_request_id`, with the identity that was seen before.
unfoldable pub require_consistent :
    Option RequestIdentity → RequestIdentity → Result IngestionError (Unit {0})
require_consistent none identity = ok tt
require_consistent (some previous) identity =
    require (str_eq previous.fingerprint identity.fingerprint)
      (idempotency_conflict (differing_fields identity.fields previous.fields))

module _ ⦃iso : Iso8601⦄ where
  unfoldable pub answer_duplicate :
      {S : Type 0} → IngestionResult → Str → Ingesting S IngestionResult
  answer_duplicate existing completed_at = do
    checked (check_result (duplicate_of existing completed_at))
    return (duplicate_of existing completed_at)

  unfoldable pub answer_rejected :
      {S : Type 0} → Request → Str → List Rejection → Ingesting S IngestionResult
  answer_rejected request completed_at rejections = do
    checked (check_result (rejected_result request completed_at rejections))
    return (rejected_result request completed_at rejections)

module _ ⦃iso : Iso8601⦄ ⦃h : Hashing⦄ (authority : DocumentIdAuthority) where
  -- From `provenance = RevisionProvenanceV1(…)` on.
  unfoldable pub create_from :
      Request → Str → ImportOutcome → Ingesting authority.State IngestionResult
  create_from request completed_at outcome = do
    checked (check_revision_provenance (provenance_of request outcome))
    tempo ←
        checked
          (new_tempo_change (codes "1.0.0") (pos 0) (pos request.tempo_microseconds_per_quarter))
    creation ← revised (
        create_document_with_revision authority (resolution request.ticks_per_quarter)
          (submission_of request completed_at outcome tempo) (labels_of request))
    let result = accepted_result request completed_at outcome creation
    checked (check_result result)
    modify (λ s. record s { results = put request.request_id result s.results })
    return result

  -- What is done with a request id that has no result.
  unfoldable pub ingest_new : Request → Str → Ingesting authority.State IngestionResult
  ingest_new request completed_at = do
    modify
        (λ s. record s { identities = put request.request_id (identity_of request) s.identities })
    outcome ← checked (import_direct_events request)
    elim (is_nonempty outcome.events) [
      | false ↦ answer_rejected request completed_at (reasons_of outcome.rejections)
      | true ↦ create_from request completed_at outcome
    ]

  unfoldable pub ingest : Request → Str → Ingesting authority.State IngestionResult
  ingest request completed_at = do
    checked (require_utc_timestamp completed_at "completed_at")
    s ← self
    lift (require_consistent (get request.request_id s.identities) (identity_of request))
    elim (get request.request_id s.results) [
      | some existing ↦ answer_duplicate existing completed_at
      | none ↦ ingest_new request completed_at
    ]

same_capture : Str → Option IngestionResult → Option IngestionResult
same_capture digest none = none
same_capture digest (some found) =
    if str_eq found.source_capture_digest digest then some found else none

unfoldable pub find_result : {S : Type 0} → Str → Str → Ingestion S → Option IngestionResult
unfolding same_capture
find_result request_id raw_capture_digest s =
    same_capture raw_capture_digest (get request_id s.results)
