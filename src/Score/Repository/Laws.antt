-- ===== src/Score/Repository/Laws.antt =====
-- core/score/repository.py: sequences of writes, and that a stored revision stays.
use master_all_strings.Prelude.{
  List, [], ◌∷◌, ◌++◌, not, Option, none, some, require, ◌≡◌, refl, ◌∙◌, inl, inr, Bool-cases,
  Str_eq, arith,
}
use master_all_strings.Prelude.Action.{
  ◌>>◌, return, raise, modify, lift, Keeps, Keeps->>=, leads-lift,
}
use master_all_strings.Prelude.Dict.{get, put, has, get-put, get-put_ne}
use master_all_strings.Prelude.Text.{Str, str_eq, str_eq_sound}
use master_all_strings.Score.Repository.{
  Document, Revision, Repository, Storing, key_error, duplicate_document, wrong_document,
  wrong_pointer, revision_id_collision, document_not_found, link, collides, first_of,
  create_document_with_origin_revision, save_document, append_listed, store_revision, save_revision,
}

-- The methods that write, with their arguments.
pub data Write : Type 0 where
  create : (document : Document) (revision : Revision) → Write
  document : (document : Document) → Write
  revision : (revision : Revision) → Write

-- The repository after a write, which may have raised.
unfoldable pub written : Write → Repository → Repository
written (Write.create d v) r = (create_document_with_origin_revision d v r).1
written (Write.document d) r = (save_document d r).1
written (Write.revision v) r = (save_revision v r).1

unfoldable pub written_all : List Write → Repository → Repository
written_all [] r = r
written_all (w ∷ ws) r = written_all ws (written w r)

module _ (id : Str) (v : Revision) where
  -- The revision `v` is the one stored under `id`.
  abbrev Holds : Repository → Type 0
  Holds r = get id r.revisions ≡ some v

  link-Holds :
      (d : Document) (w : Revision) (r : Repository)
      → Holds r
      → Holds (link d w (first_of (get w.revision_id r.revisions) w) r)
  link-Holds d w r h = elim (Bool-cases (str_eq w.revision_id id)) [
    | inl same ↦ ground (
      arith,
      get-put w.revision_id id (first_of (get w.revision_id r.revisions) w) r.revisions,
      str_eq_sound w.revision_id id same,
      h,
    )
    | inr other ↦ get-put_ne w.revision_id id _ r.revisions other ∙ h
  ]

  create-Holds :
      (d : Document) (w : Revision) → Keeps Holds (create_document_with_origin_revision d w)
  unfolding create_document_with_origin_revision
  create-Holds d w r h =
      leads-lift Holds (require (not (has d.document_id r.documents)) duplicate_document) _ r h
        (λ _ _.
          leads-lift Holds (require (str_eq w.document_id d.document_id) wrong_document) _ r h
            (λ _ _.
              leads-lift Holds (require (str_eq d.current_revision_id w.revision_id) wrong_pointer)
                _ r h
                (λ _ _.
                  leads-lift Holds
                    (require (not (collides (get w.revision_id r.revisions) w))
                      revision_id_collision)
                    _ r h (λ _ _. link-Holds d w r h))))

  save_document-Holds : (d : Document) → Keeps Holds (save_document d)
  unfolding save_document
  save_document-Holds d r h =
      leads-lift Holds (require (has d.document_id r.documents) document_not_found) _ r h (λ _ _. h)

  appended_from :
      (document_id revision_id : Str) (r : Repository) (o : Option (List Str))
      → Holds r
      → Holds
          ((elim o as (λ _. Storing (Unit {0})) [
            | none ↦ raise key_error
            | some ids ↦ modify (λ r. record r {
              by_document = put document_id (ids ++ revision_id ∷ []) r.by_document;
            })
          ])
            r).1
  appended_from document_id revision_id r none h = h
  appended_from document_id revision_id r (some ids) h = h

  append_listed-Holds :
      (document_id revision_id : Str) → Keeps Holds (append_listed document_id revision_id)
  unfolding append_listed
  append_listed-Holds document_id revision_id r h =
      appended_from document_id revision_id r (get document_id r.by_document) h

  store_revision-Holds :
      (w : Revision) (r : Repository)
      → get w.revision_id r.revisions ≡ none
      → Holds r
      → Holds (store_revision w r).1
  unfolding store_revision
  store_revision-Holds w r fresh h =
      Keeps->>= Holds (append_listed w.document_id w.revision_id) _ (append_listed-Holds _ _)
        (λ _ t i. i) _
        (elim (Bool-cases (str_eq w.revision_id id)) [
          | inl same ↦ ground (arith, str_eq_sound w.revision_id id same, h, fresh)
          | inr other ↦ get-put_ne w.revision_id id w r.revisions other ∙ h
        ])

  saved_from :
      (w : Revision) (r : Repository) (o : Option Revision)
      → get w.revision_id r.revisions ≡ o
      → Holds r
      → Holds
          ((elim o as (λ _. Storing Revision) [
            | none ↦ store_revision w
            | some existing ↦
                lift (require (not (collides (some existing) w)) revision_id_collision)
                >> return existing
          ])
            r).1
  saved_from w r none e h = store_revision-Holds w r e h
  saved_from w r (some existing) e h =
      leads-lift Holds (require (not (collides (some existing) w)) revision_id_collision) _ r h
        (λ _ _. h)

  save_revision-Holds : (w : Revision) → Keeps Holds (save_revision w)
  unfolding save_revision
  save_revision-Holds w r h =
      leads-lift Holds (require (has w.document_id r.documents) document_not_found) _ r h
        (λ _ _. saved_from w r (get w.revision_id r.revisions) refl h)

  written-Holds : (w : Write) (r : Repository) → Holds r → Holds (written w r)
  unfolding written
  written-Holds (Write.create d w) r h = create-Holds d w r h
  written-Holds (Write.document d) r h = save_document-Holds d r h
  written-Holds (Write.revision w) r h = save_revision-Holds w r h

  -- The first write of a revision wins: what is stored under a revision id stays stored under it
  -- whatever is written later, in whatever order, and whichever of the writes raise.
  pub written_all-keeps_revision :
      (ws : List Write) (r : Repository)
      → get id r.revisions ≡ some v
      → get id (written_all ws r).revisions ≡ some v
  unfolding written_all
  written_all-keeps_revision [] r h = h
  written_all-keeps_revision (w ∷ ws) r h =
      written_all-keeps_revision ws (written w r) (written-Holds w r h)
