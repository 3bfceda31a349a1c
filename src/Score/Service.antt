-- ===== src/Score/Service.antt =====
-- core/score/revision_service.py: documents and revisions are created here and nowhere else.
pub mod Steps
pub mod Chains
pub mod History
pub mod Runs
pub mod Catalog
use master_all_strings.Prelude.{
  ℕ, ◌+◌, Bool, true, false, nat_eq, Option, none, some, Result, ok, err, require, if◌then◌else◌,
}
use master_all_strings.Prelude.Action.{Action, ◌>>=◌, ◌>>◌, return, self, lift, after}
use master_all_strings.Prelude.Text.{Str, str_eq}
use master_all_strings.Prelude.Strings.{Iso8601}
use master_all_strings.Score.Errors.{ScoreError, require_identifier}
use master_all_strings.Score.Models.{
  Document, Revision, check_document, with_revision, first_revision_number,
}
use master_all_strings.Score.Digest.{Hashing}
use master_all_strings.Score.Ids.{DocumentIdAuthority}
use master_all_strings.Score.Revisions.{Submission, Labels, build_revision}
use master_all_strings.Score.Repository.{
  Repository, RepositoryError, Storing, create_document_with_origin_revision, save_document,
  save_revision, get_document, get_revision, get_current_revision,
}

-- `RevisionServiceError`, and what the contracts and the repository raise.
pub data ServiceError : Type 0 where
  contract : ScoreError → ServiceError
  storage : RepositoryError → ServiceError
  revision_document_mismatch parent_revision_mismatch noncontiguous_revision : ServiceError

abbrev pub blame : {E A : Type 0} → (E → ServiceError) → Result E A → Result ServiceError A
blame f (ok a) = ok a
blame f (err e) = err (f e)

pub record RevisionCreation : Type 0 where
  pub document : Document
  pub revision : Revision

same_parent : Option Str → Str → Bool
same_parent none id = false
same_parent (some parent) id = str_eq parent id

-- `verify_lineage`: the child and its parent.
unfoldable pub verify_lineage : Revision → Revision → Result ServiceError (Unit {0})
unfolding same_parent
verify_lineage revision parent =
    if str_eq revision.document_id parent.document_id
    then if same_parent revision.parent_revision_id parent.revision_id
      then require (nat_eq revision.revision_number (parent.revision_number + 1))
          noncontiguous_revision
      else err parent_revision_mismatch
    else err revision_document_mismatch

-- The objects that the service holds: the repository, and the authority's state.
pub record Service (S : Type 0) : Type 0 where
  pub repository : Repository
  pub ids : S

abbrev pub Serving : Type 0 → Type 0 → Type 0
Serving S A = Action (Service S) ServiceError A

-- A call of the repository.
abbrev pub stored : {S A : Type 0} → Storing A → Serving S A
stored m s = (blame storage (m s.repository).0, record s { repository = (m s.repository).1 })

-- A call of the id authority.
abbrev pub issued : {S : Type 0} → Action S ScoreError Str → Serving S Str
issued m s = (blame contract (m s.ids).0, record s { ids = (m s.ids).1 })

abbrev pub checked : {S A : Type 0} → Result ScoreError A → Serving S A
checked r = lift (blame contract r)

abbrev pub origin_document : Str → Submission → Labels → Revision → Document
origin_document document_id submission labels revision = record {
  document_id = document_id;
  created_at = submission.created_at;
  current_revision_id = revision.revision_id;
  revision_count = 1;
  title = labels.title;
  description = labels.description;
  external_reference = labels.external_reference;
}

-- `parent.ticks_per_quarter if ticks_per_quarter is None else ticks_per_quarter`
abbrev pub inherited : Option ℕ → ℕ → ℕ
inherited none ticks_per_quarter = ticks_per_quarter
inherited (some given) ticks_per_quarter = given

module _ ⦃iso : Iso8601⦄ ⦃h : Hashing⦄ where
  unfoldable pub create_document_with_revision :
      (authority : DocumentIdAuthority)
      → ℕ
      → Submission
      → Labels
      → Serving authority.State RevisionCreation
  create_document_with_revision authority ticks_per_quarter submission labels = do
    document_id ← issued authority.next_document_id
    checked (require_identifier document_id "document_id")
    revision ←
        checked (build_revision document_id first_revision_number none ticks_per_quarter submission)
    let document = origin_document document_id submission labels revision
    checked (check_document document)
    both ← stored (create_document_with_origin_revision document revision)
    return (record { document = both.0; revision = both.1 })

  unfoldable pub create_child_revision :
      {S : Type 0} → Str → Option ℕ → Submission → Serving S RevisionCreation
  create_child_revision document_id ticks_per_quarter submission = do
    document ← stored (get_document document_id)
    parent ← stored (get_revision document.current_revision_id)
    lift (require (str_eq parent.document_id document_id) revision_document_mismatch)
    revision ← checked (
        build_revision document_id (parent.revision_number + 1) (some parent.revision_id)
          (inherited ticks_per_quarter parent.ticks_per_quarter) submission)
    lift (verify_lineage revision parent)
    advanced ← checked (with_revision document revision.revision_id (document.revision_count + 1))
    kept ← stored (save_revision revision)
    written ← stored (save_document advanced)
    return (record { document = advanced; revision = revision })

unfoldable pub resolve_current_revision : {S : Type 0} → Str → Serving S Revision
resolve_current_revision document_id = stored (get_current_revision document_id)
