-- ===== src/Score/Repository/Returns.antt =====
-- core/score/repository.py: what saving a revision answers, and that reading it back agrees.
use master_all_strings.Prelude.{
  List, [], ◌∷◌, ◌++◌, Bool, true, false, not, Option, none, some, Result, ok, err, require, ◌≡◌,
  refl, arith, Str_eq,
}
use master_all_strings.Prelude.Action.{◌>>=◌, ◌>>◌, return, raise, modify, lift}
use master_all_strings.Prelude.Dict.{get, put, has, get-put_self}
use master_all_strings.Prelude.Text.{Str, str_eq, str_eq_sound, is_blank}
use master_all_strings.Performance.Errors.{is_stripped}
use master_all_strings.Score.Repository.{
  Revision, Repository, RepositoryError, Storing, key_error, revision_id_collision,
  document_not_found, collides, append_listed, store_revision, save_revision, get_revision,
  require_score_identifier,
}

-- The revision `v` is stored under the id of `w`, and is the same music.
abbrev pub Kept : Revision → Revision → Repository → Type 0
Kept w v r = (get w.revision_id r.revisions ≡ some v) × (v.content_digest ≡ w.content_digest)

appended_from :
    (w v : Revision) (r : Repository) (o : Option (List Str))
    → ((((elim o as (λ _. Storing (Unit {0})) [
      | none ↦ raise key_error
      | some ids ↦ modify (λ r. record r {
        by_document = put w.document_id (ids ++ w.revision_id ∷ []) r.by_document;
      })
    ])
            >>= (λ _. return w))
          r).0
        ≡ ok v)
    → Kept w w r
    → Kept w v
        (((elim o as (λ _. Storing (Unit {0})) [
          | none ↦ raise key_error
          | some ids ↦ modify (λ r. record r {
            by_document = put w.document_id (ids ++ w.revision_id ∷ []) r.by_document;
          })
        ])
            >>= (λ _. return w))
          r).1
appended_from w v r none answered h = cc
appended_from w v r (some ids) answered h = ground (arith, answered, h)

store_revision-Kept :
    (w v : Revision) (r : Repository)
    → (store_revision w r).0 ≡ ok v
    → Kept w v (store_revision w r).1
unfolding store_revision append_listed
store_revision-Kept w v r answered =
    appended_from w v (record r { revisions = put w.revision_id w r.revisions })
      (get w.document_id r.by_document) answered (get-put_self w.revision_id w r.revisions, refl)

existing_from :
    (w existing v : Revision) (r : Repository) (t : Bool)
    → not (str_eq existing.content_digest w.content_digest) ≡ t
    → get w.revision_id r.revisions ≡ some existing
    → ((lift (require (not t) revision_id_collision) >> return existing) r).0 ≡ ok v
    → Kept w v ((lift (require (not t) revision_id_collision) >> return existing) r).1
existing_from w existing v r true e h answered = cc
existing_from w existing v r false e h answered =
    ground (arith, h, answered, str_eq_sound existing.content_digest w.content_digest, e)

saved_from :
    (w v : Revision) (r : Repository) (o : Option Revision)
    → get w.revision_id r.revisions ≡ o
    → ((elim o as (λ _. Storing Revision) [
      | none ↦ store_revision w
      | some existing ↦
          lift (require (not (collides (some existing) w)) revision_id_collision) >> return existing
    ])
        r).0
      ≡ ok v
    → Kept w v
        ((elim o as (λ _. Storing Revision) [
          | none ↦ store_revision w
          | some existing ↦
              lift (require (not (collides (some existing) w)) revision_id_collision)
              >> return existing
        ])
          r).1
saved_from w v r none e answered = store_revision-Kept w v r answered
saved_from w v r (some existing) e answered =
    existing_from w existing v r (collides (some existing) w) refl e answered

guarded :
    (t : Result RepositoryError (Unit {0})) (f : Unit {0} → Storing Revision) (w v : Revision)
    (r : Repository)
    → ((f tt r).0 ≡ ok v → Kept w v (f tt r).1)
    → ((lift t >>= f) r).0 ≡ ok v
    → Kept w v ((lift t >>= f) r).1
guarded (ok tt) f w v r h answered = h answered
guarded (err e) f w v r h answered = cc

save_revision-Kept :
    (w v : Revision) (r : Repository)
    → (save_revision w r).0 ≡ ok v
    → Kept w v (save_revision w r).1
unfolding save_revision
save_revision-Kept w v r answered =
    guarded (require (has w.document_id r.documents) document_not_found) _ w v r
      (saved_from w v r (get w.revision_id r.revisions) refl) answered

-- When saving a revision whose id is an identifier returns, looking the id up afterwards returns
-- the same revision as the save did, and that revision has the content digest of the submitted one.
pub save_revision-get_revision :
    (w v : Revision) (r : Repository)
    → is_blank w.revision_id ≡ false
    → is_stripped w.revision_id ≡ true
    → (save_revision w r).0 ≡ ok v
    → ((get_revision w.revision_id (save_revision w r).1).0 ≡ ok v)
      × (v.content_digest ≡ w.content_digest)
unfolding get_revision require_score_identifier
save_revision-get_revision w v r nonblank stripped answered =
    let (stored, same) = save_revision-Kept w v r answered in
    (ground (arith, nonblank, stripped, stored), same)
