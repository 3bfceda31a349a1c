-- ===== src/Score/Repository/Refusals.antt =====
-- core/score/repository.py: writes that raise, and the listing of a document's revisions.
use master_all_strings.Prelude.{
  List, [], ◌∷◌, true, false, not, Option, none, some, Result, ok, err, require, ◌≡◌, refl, Str_eq,
  arith, All,
}
use master_all_strings.Prelude.Action.{◌>>=◌, ◌>>◌, return, lift}
use master_all_strings.Prelude.Dict.{Dict, get, has}
use master_all_strings.Prelude.Order.{by_number, on}
use master_all_strings.Prelude.Sort.{sort, IsSorted, sort-IsSorted}
use master_all_strings.Prelude.Text.{Str, str_eq, is_blank}
use master_all_strings.Performance.Errors.{is_stripped}
use master_all_strings.Score.Repository.{
  Document, Revision, Repository, RepositoryError, Storing, empty_repository, duplicate_document,
  wrong_document, wrong_pointer, revision_id_collision, document_not_found, collides,
  create_document_with_origin_revision, save_document, append_listed, store_revision, save_revision,
  list_revisions, get_document, resolve_all, require_score_identifier,
}
use master_all_strings.Score.Repository.Laws.{Write, written, written_all}
use master_all_strings.Score.Repository.Links.{
  IsLinked, Resolved, written_all-IsLinked, empty-IsLinked, has-get, required,
}

-- A method that raises leaves the repository as it was.
abbrev pub Refuses : {A : Type 0} → Storing A → Repository → Type 0
Refuses m r = (e : RepositoryError) → (m r).0 ≡ err e → (m r).1 ≡ r

Refuses-lift :
    {A B : Type 0} (t : Result RepositoryError A) (f : A → Storing B) (r : Repository)
    → ((a : A) → t ≡ ok a → Refuses (f a) r)
    → Refuses (lift t >>= f) r
Refuses-lift (ok a) f r h = h a refl
Refuses-lift (err x) f r h = λ e raised. refl

pub create-Refuses :
    (d : Document) (w : Revision) (r : Repository)
    → Refuses (create_document_with_origin_revision d w) r
unfolding create_document_with_origin_revision
create-Refuses d w r =
    Refuses-lift (require (not (has d.document_id r.documents)) duplicate_document) _ r (λ _ _.
      Refuses-lift (require (str_eq w.document_id d.document_id) wrong_document) _ r (λ _ _.
        Refuses-lift (require (str_eq d.current_revision_id w.revision_id) wrong_pointer) _ r
          (λ _ _.
            Refuses-lift
              (require (not (collides (get w.revision_id r.revisions) w)) revision_id_collision) _ r
              (λ _ _ e raised. cc))))

pub save_document-Refuses : (d : Document) (r : Repository) → Refuses (save_document d) r
unfolding save_document
save_document-Refuses d r =
    Refuses-lift (require (has d.document_id r.documents) document_not_found) _ r
      (λ _ _ e raised. cc)

-- The new revision of a document that has a list is stored without an error.
store_revision-returns :
    (w : Revision) (r : Repository) (ids : List Str)
    → get w.document_id r.by_document ≡ some ids
    → (store_revision w r).0 ≡ ok w
unfolding store_revision append_listed
store_revision-returns w r ids h = ground (arith, h)

saved_from :
    (w : Revision) (r : Repository) (o : Option Revision) (ids : List Str)
    → get w.document_id r.by_document ≡ some ids
    → Refuses
        (elim o as (λ _. Storing Revision) [
          | none ↦ store_revision w
          | some existing ↦
              lift (require (not (collides (some existing) w)) revision_id_collision)
              >> return existing
        ])
        r
saved_from w r none ids h = λ e raised. ground (arith, store_revision-returns w r ids h, raised)
saved_from w r (some existing) ids h =
    Refuses-lift (require (not (collides (some existing) w)) revision_id_collision) _ r
      (λ _ _ e raised. cc)

pub save_revision-Refuses :
    (w : Revision) (r : Repository) → IsLinked r → Refuses (save_revision w) r
unfolding save_revision
save_revision-Refuses w r linked =
    Refuses-lift (require (has w.document_id r.documents) document_not_found) _ r (λ _ there.
      let (d, stored) = has-get w.document_id r.documents (required _ document_not_found there) in
      let (ids, listing) = linked.is_listed w.document_id d stored in
      saved_from w r (get w.revision_id r.revisions) ids listing)

-- A write raises.
abbrev pub Raises : Write → Repository → RepositoryError → Type 0
Raises (Write.create d w) r e = (create_document_with_origin_revision d w r).0 ≡ err e
Raises (Write.document d) r e = (save_document d r).0 ≡ err e
Raises (Write.revision w) r e = (save_revision w r).0 ≡ err e

-- After any sequence of writes on an empty repository, each of which may have raised, a write that
-- raises leaves the repository exactly as it was.
pub written-refused :
    (ws : List Write) (w : Write) (e : RepositoryError)
    → Raises w (written_all ws empty_repository) e
    → written w (written_all ws empty_repository) ≡ written_all ws empty_repository
unfolding written
written-refused ws (Write.create d w) e raised = create-Refuses d w _ e raised
written-refused ws (Write.document d) e raised = save_document-Refuses d _ e raised
written-refused ws (Write.revision w) e raised =
    save_revision-Refuses w _ (written_all-IsLinked ws empty_repository empty-IsLinked) e raised

resolve_all-ok :
    (ids : List Str) (revisions : Dict Str Revision)
    → All (Resolved revisions) ids
    → (vs : List Revision) × (resolve_all ids revisions ≡ ok vs)
unfolding resolve_all
resolve_all-ok [] revisions h = ([], refl)
resolve_all-ok (id ∷ ids) revisions h =
    let (v, here) = h.0 in
    let (vs, rest) = resolve_all-ok ids revisions h.1 in (v ∷ vs, ground (arith, here, rest))

-- After any sequence of writes on an empty repository, the revisions of a stored document whose id is
-- an identifier are listed without an error, in the order of their numbers.
pub list_revisions-total :
    (ws : List Write) (id : Str) (d : Document)
    → is_blank id ≡ false
    → is_stripped id ≡ true
    → get id (written_all ws empty_repository).documents ≡ some d
    → (vs : List Revision) × ((list_revisions id (written_all ws empty_repository)).0 ≡ ok vs)
      × IsSorted (on (λ (x : Revision). x.revision_number) by_number) vs
unfolding list_revisions get_document require_score_identifier
list_revisions-total ws id d nonblank stripped stored =
    let r = written_all ws empty_repository in
    let linked = written_all-IsLinked ws empty_repository empty-IsLinked in
    let (ids, listing) = linked.is_listed id d stored in
    let (vs, resolved) = resolve_all-ok ids r.revisions (linked.resolves id ids listing) in
    (
      sort (on (λ (x : Revision). x.revision_number) by_number) vs,
      ground (arith, nonblank, stripped, stored, listing, resolved),
      sort-IsSorted _ vs,
    )
