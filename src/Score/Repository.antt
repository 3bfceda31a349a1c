-- ===== src/Score/Repository.antt =====
-- core/score/repository.py: the in-memory store of score documents and their revisions.
use Prim.Native.String.{String}
use master_all_strings.Prelude.{
  ℕ, List, [], ◌∷◌, ◌++◌, Bool, true, false, not, Option, none, some, Result, ok, err, require, Eq,
  Str_eq, contains, if◌then◌else◌,
}
use master_all_strings.Prelude.Action.{
  Action, ◌>>=◌, ◌>>◌, return, raise, self, modify, lift, after,
}
use master_all_strings.Prelude.Dict.{Dict, get, put, has}
use master_all_strings.Prelude.Order.{by_number, on}
use master_all_strings.Prelude.Sort.{sort}
use master_all_strings.Prelude.Text.{Str, str_eq, is_blank}
use master_all_strings.Performance.Errors.{is_stripped}
pub use master_all_strings.Score.Models.{Document, Revision}
pub mod Laws
pub mod Links
pub mod Refusals
pub mod Returns

-- The exception classes, and the `KeyError` of a dictionary.
pub data RepositoryError : Type 0 where
  document_not_found revision_not_found duplicate_document revision_id_collision : RepositoryError
  wrong_document wrong_pointer not_an_identifier key_error : RepositoryError

pub record Repository : Type 0 where
  pub documents : Dict Str Document
  pub revisions : Dict Str Revision
  pub by_document : Dict Str (List Str)

abbrev pub empty_repository : Repository
empty_repository = record { documents = []; revisions = []; by_document = [] }

abbrev pub Storing : Type 0 → Type 0
Storing A = Action Repository RepositoryError A

abbrev pub store_document : Document → Repository → Repository
store_document d r = record r { documents = put d.document_id d r.documents }

-- `self._by_document.setdefault(document_id, [])`
abbrev pub listed : Str → Repository → List Str
listed document_id r = elim (get document_id r.by_document) [ none ↦ [] | some ids ↦ ids ]

-- `stored = existing if existing is not None else revision`, and what is written with it.
abbrev pub link : Document → Revision → Revision → Repository → Repository
link document revision stored r = record (store_document document r) {
  revisions = put revision.revision_id stored r.revisions;
  by_document =
      put document.document_id
        (let ids = listed document.document_id r in
          if contains revision.revision_id ids then ids else ids ++ revision.revision_id ∷ [])
        r.by_document;
}

-- `existing is not None and existing.content_digest != revision.content_digest`
abbrev pub collides : Option Revision → Revision → Bool
collides none revision = false
collides (some existing) revision = not (str_eq existing.content_digest revision.content_digest)

abbrev pub first_of : Option Revision → Revision → Revision
first_of none revision = revision
first_of (some existing) revision = existing

unfoldable pub create_document_with_origin_revision :
    Document → Revision → Storing (Document × Revision)
create_document_with_origin_revision document revision = do
  r ← self
  lift (require (not (has document.document_id r.documents)) duplicate_document)
  lift (require (str_eq revision.document_id document.document_id) wrong_document)
  lift (require (str_eq document.current_revision_id revision.revision_id) wrong_pointer)
  let existing = get revision.revision_id r.revisions
  lift (require (not (collides existing revision)) revision_id_collision)
  modify (link document revision (first_of existing revision))
  return (document, first_of existing revision)

unfoldable pub save_document : Document → Storing Document
save_document document = do
  r ← self
  lift (require (has document.document_id r.documents) document_not_found)
  modify (store_document document)
  return document

-- `self._by_document[document_id].append(revision_id)`
unfoldable pub append_listed : Str → Str → Storing (Unit {0})
append_listed document_id revision_id = do
  r ← self
  elim (get document_id r.by_document) [
    | none ↦ raise key_error
    | some ids ↦
        modify
          (λ r. record r { by_document = put document_id (ids ++ revision_id ∷ []) r.by_document })
  ]

-- The branch of `save_revision` on which the id is new.
unfoldable pub store_revision : Revision → Storing Revision
store_revision revision = do
  modify (λ r. record r { revisions = put revision.revision_id revision r.revisions })
  append_listed revision.document_id revision.revision_id
  return revision

unfoldable pub save_revision : Revision → Storing Revision
save_revision revision = do
  r ← self
  lift (require (has revision.document_id r.documents) document_not_found)
  elim (get revision.revision_id r.revisions) [
    | none ↦ store_revision revision
    | some existing ↦ do
      lift (require (not (collides (some existing) revision)) revision_id_collision)
      return existing
  ]

-- `require_identifier` of core/score/errors.py
unfoldable pub require_score_identifier : Str → Storing (Unit {0})
require_score_identifier value = do
  lift (require (not (is_blank value)) not_an_identifier)
  lift (require (is_stripped value) not_an_identifier)

abbrev found : {A : Type 0} → RepositoryError → Option A → Storing A
found e none = raise e
found e (some value) = return value

unfoldable pub get_document : Str → Storing Document
get_document document_id = do
  require_score_identifier document_id
  r ← self
  found document_not_found (get document_id r.documents)

unfoldable pub get_revision : Str → Storing Revision
get_revision revision_id = do
  require_score_identifier revision_id
  r ← self
  found revision_not_found (get revision_id r.revisions)

unfoldable pub get_current_revision : Str → Storing Revision
get_current_revision document_id = do
  document ← get_document document_id
  get_revision document.current_revision_id

-- `[self._revisions[rid] for rid in ids]`
unfoldable pub resolve_all : List Str → Dict Str Revision → Result RepositoryError (List Revision)
resolve_all [] revisions = ok []
resolve_all (id ∷ ids) revisions = elim (get id revisions) [
  | none ↦ err key_error
  | some revision ↦ elim (resolve_all ids revisions) [
    | err e ↦ err e
    | ok rest ↦ ok (revision ∷ rest)
  ]
]

unfoldable pub list_revisions : Str → Storing (List Revision)
list_revisions document_id = do
  document ← get_document document_id
  r ← self
  ids ← found key_error (get document_id r.by_document)
  revisions ← lift (resolve_all ids r.revisions)
  return (sort (on (λ (x : Revision). x.revision_number) by_number) revisions)

unfoldable pub has_document : Str → Storing Bool
has_document document_id = do
  require_score_identifier document_id
  r ← self
  return (has document_id r.documents)
