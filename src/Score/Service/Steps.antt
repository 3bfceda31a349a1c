-- ===== src/Score/Service/Steps.antt =====
-- core/score/revision_service.py: what a call leaves behind, on every branch.
use Prim.Native.String.{String}
use master_all_strings.Prelude.{
  ℕ, ◌+◌, arith, true, false, Option, none, some, Result, ok, err, require, ◌≡◌, refl, sym, ap, ◌∙◌,
  ◌⊎◌, inl, inr, Bool-cases, >>=-elim, subst, ltb, ok-injective, Str_eq, Result-cases, Option-cases,
}
use master_all_strings.Prelude.Action.{◌>>=◌, return, lift, after-Post}
use master_all_strings.Prelude.Dict.{get, has}
use master_all_strings.Prelude.Text.{Str, str_eq, str_eq_sound, is_blank}
use master_all_strings.Prelude.Int.{pos}
use master_all_strings.Prelude.Strings.{Iso8601, is_stripped}
use master_all_strings.Score.Errors.{require_identifier, require_positive_int, count_not_increasing}
use master_all_strings.Score.Canonicalize.{
  canonicalize_events, canonicalize_tempo_changes, canonicalize_meter_changes,
}
use master_all_strings.Score.Models.{
  Document, Revision, check_document, check_revision, with_revision, first_revision_number,
}
use master_all_strings.Score.Digest.{
  Hashing, content_of, serialize_revision_content, compute_revision_digest, derive_revision_id,
}
use master_all_strings.Score.Ids.{DocumentIdAuthority}
use master_all_strings.Score.Revisions.{Submission, Labels, build_revision}
use master_all_strings.Score.Repository.{
  Repository, RepositoryError, link, collides, first_of, store_document,
  create_document_with_origin_revision, save_document, save_revision, get_document, get_revision,
  require_score_identifier, duplicate_document, document_not_found, revision_not_found,
  not_an_identifier, append_listed, store_revision, wrong_document, wrong_pointer,
  revision_id_collision,
}
use master_all_strings.Score.Repository.Links.{IsLinked}
use master_all_strings.Score.Repository.Refusals.{save_revision-Refuses}
use master_all_strings.Score.Service.{
  revision_document_mismatch, ServiceError, blame, storage, contract, RevisionCreation, Service,
  Serving, stored, checked, origin_document, inherited, create_document_with_revision,
  create_child_revision, verify_lineage,
}

blame-ok :
    {E A : Type 0} (f : E → ServiceError) (r : Result E A) {a : A} → blame f r ≡ ok a → r ≡ ok a
blame-ok f (ok b) h = cc
blame-ok f (err e) h = cc

-- A revision as it is built: its digest is that of its own content.
pub record IsBuilt ⦃h : Hashing⦄ (document_id : Str) (n : ℕ) (parent : Option Str) (v : Revision)
    : Type 0 where
  pub document : v.document_id ≡ document_id
  pub numbered : v.revision_number ≡ n
  pub follows : v.parent_revision_id ≡ parent
  pub text : Str
  pub serialized : serialize_revision_content (content_of v) ≡ ok text
  pub digested : v.content_digest ≡ h.sha256 text

module _ ⦃iso : Iso8601⦄ ⦃h : Hashing⦄ where
  pub build_revision-IsBuilt :
      (document_id : Str) (n : ℕ) (parent : Option Str) (grid : ℕ) (submission : Submission)
      {v : Revision}
      → build_revision document_id n parent grid submission ≡ ok v
      → IsBuilt document_id n parent v
  unfolding build_revision compute_revision_digest
  build_revision-IsBuilt document_id n parent grid submission built =
      >>=-elim (canonicalize_events submission.events) _ built (λ events _ b1.
        >>=-elim (canonicalize_tempo_changes submission.tempo_changes) _ b1 (λ tempo _ b2.
          >>=-elim (canonicalize_meter_changes submission.meter_changes) _ b2 (λ meter _ b3.
            >>=-elim (compute_revision_digest _) _ b3 (λ digest hashed b4.
              >>=-elim (derive_revision_id digest) _ b4 (λ id _ b5.
                >>=-elim (check_revision _) _ b5 (λ _ _ b6.
                  >>=-elim (serialize_revision_content _) _ hashed (λ text serialized hash.
                    let e = ok-injective b6 in
                    subst (IsBuilt document_id n parent) e (record {
                      document = refl;
                      numbered = refl;
                      follows = refl;
                      text = text;
                      serialized = serialized;
                      digested = sym (ok-injective hash);
                    }))))))))

-- The identifiers that the repository looks up.
abbrev pub IsIdentifier : Str → Type 0
IsIdentifier id = (is_blank id ≡ false) × (is_stripped id ≡ true)

require_identifier-IsIdentifier :
    (id : Str) (field_name : String) {u : Unit {0}}
    → require_identifier id field_name ≡ ok u
    → IsIdentifier id
unfolding require_identifier
require_identifier-IsIdentifier id field_name h = ground arith

-- What holds when a document is created with its origin.
pub record Origin ⦃h : Hashing⦄ (Made : Str → Revision → Type 0) (r : Repository) (d : Document)
    (w : Revision) : Type 0 where
  pub made : Made d.document_id w
  pub named : IsIdentifier d.document_id
  pub built : IsBuilt d.document_id first_revision_number none w
  pub fresh : has d.document_id r.documents ≡ false
  pub points : d.current_revision_id ≡ w.revision_id
  pub counted : d.revision_count ≡ 1
  pub agrees : collides (get w.revision_id r.revisions) w ≡ false

abbrev pub Unchanged : {A : Type 0} → Repository → Result ServiceError A → Repository → Type 0
Unchanged r result r' = (e : ServiceError) × (result ≡ err e) × (r' ≡ r)

abbrev pub OriginEffect :
    ⦃h : Hashing⦄
    → (Str → Revision → Type 0)
    → Repository
    → Result ServiceError RevisionCreation
    → Repository
    → Type 0
OriginEffect Made r result r' =
    Unchanged r result r'
    ⊎ ((d : Document) × (w : Revision) × Origin Made r d w
        × (result
            ≡ ok (record { document = d; revision = first_of (get w.revision_id r.revisions) w }))
        × (r' ≡ link d w (first_of (get w.revision_id r.revisions) w) r))

-- The repository's part: it refuses, or it links the two.
create-effect :
    (d : Document) (w : Revision) (r : Repository)
    → ((e : RepositoryError) × (create_document_with_origin_revision d w r ≡ (err e, r)))
      ⊎ ((has d.document_id r.documents ≡ false)
          × (d.current_revision_id ≡ w.revision_id)
          × (collides (get w.revision_id r.revisions) w ≡ false)
          × (create_document_with_origin_revision d w r ≡ (
            ok (d, first_of (get w.revision_id r.revisions) w),
            link d w (first_of (get w.revision_id r.revisions) w) r,
          )))
unfolding create_document_with_origin_revision
create-effect d w r = elim (Bool-cases (has d.document_id r.documents)) [
  | inl known ↦ inl (duplicate_document, ground (arith, known))
  | inr fresh ↦ elim (Bool-cases (str_eq w.document_id d.document_id)) [
    | inr other ↦ inl (wrong_document, ground (arith, fresh, other))
    | inl same ↦ elim (Bool-cases (str_eq d.current_revision_id w.revision_id)) [
      | inr astray ↦ inl (wrong_pointer, ground (arith, fresh, same, astray))
      | inl points ↦ elim (Bool-cases (collides (get w.revision_id r.revisions) w)) [
        | inl clash ↦ inl (revision_id_collision, ground (arith, fresh, same, points, clash))
        | inr agrees ↦
            inr
              (fresh, str_eq_sound _ _ points, agrees, ground (arith, fresh, same, points, agrees))
      ]
    ]
  ]
]

-- The service's last step.
abbrev linking : {S : Type 0} → Document → Revision → Serving S RevisionCreation
linking d w = stored (create_document_with_origin_revision d w) >>= λ both.
    return (record { document = both.0; revision = both.1 })

linking-effect :
    ⦃h : Hashing⦄ {S : Type 0} (Made : Str → Revision → Type 0) (d : Document) (w : Revision)
    (s : Service S)
    → Made d.document_id w
    → IsIdentifier d.document_id
    → IsBuilt d.document_id first_revision_number none w
    → d.revision_count ≡ 1
    → OriginEffect Made s.repository (linking d w s).0 (linking d w s).1.repository
linking-effect Made d w s made named built counted = elim (create-effect d w s.repository) [
  | inl (e, refused) ↦ rw refused (inl (storage e, refl, refl))
  | inr (fresh, points, agrees, done) ↦ rw done (
      inr (
        d,
        w,
        record {
          made = made;
          named = named;
          built = built;
          fresh = fresh;
          points = points;
          counted = counted;
          agrees = agrees;
        },
        refl,
        refl,
      ))
]

module _ ⦃iso : Iso8601⦄ ⦃h : Hashing⦄ where
  -- The id is the one that the authority issues, and the revision is built of the submission.
  abbrev pub MadeFirst :
      (authority : DocumentIdAuthority) → authority.State → ℕ → Submission → Str → Revision → Type 0
  MadeFirst authority ids grid submission id w =
      ((authority.next_document_id ids).0 ≡ ok id)
      × (build_revision id first_revision_number none grid submission ≡ ok w)

  pub create_document_with_revision-effect :
      (authority : DocumentIdAuthority) (grid : ℕ) (submission : Submission) (labels : Labels)
      (s : Service authority.State)
      → OriginEffect
          (MadeFirst authority s.ids grid submission)
          s.repository
          (create_document_with_revision authority grid submission labels s).0
          (create_document_with_revision authority grid submission labels s).1.repository
  unfolding create_document_with_revision
  create_document_with_revision-effect authority grid submission labels s =
      let P = λ (result : Result ServiceError RevisionCreation) (t : Service authority.State).
        OriginEffect (MadeFirst authority s.ids grid submission) s.repository result t.repository in
      let refuse =
        λ (e : ServiceError) (t : Service authority.State) (same : t.repository ≡ s.repository).
          let nothing : OriginEffect (MadeFirst authority s.ids grid submission) s.repository
              (err e) t.repository =
            inl (e, refl, same) in
          nothing in
      let ids : Service authority.State = record s { ids = (authority.next_document_id s.ids).1 } in
      after-Post P (blame contract (authority.next_document_id s.ids).0) ids _
        (λ id given.
          after-Post P (blame contract (require_identifier id "document_id")) ids _
            (λ _ named.
              after-Post P
                (blame contract (build_revision id first_revision_number none grid submission)) ids
                _
                (λ w built.
                  after-Post P
                    (blame contract (check_document (origin_document id submission labels w))) ids _
                    (λ _ _.
                      linking-effect (MadeFirst authority s.ids grid submission)
                        (origin_document id submission labels w) w ids
                        (blame-ok contract _ given, blame-ok contract _ built)
                        (require_identifier-IsIdentifier id "document_id"
                          (blame-ok contract _ named))
                        (build_revision-IsBuilt id first_revision_number none grid submission
                          (blame-ok contract _ built))
                        refl)
                    (λ e _. refuse e ids refl))
                (λ e _. refuse e ids refl))
            (λ e _. refuse e ids refl))
        (λ e _. refuse e ids refl)

-- What holds when a revision is appended.
pub record Child ⦃h : Hashing⦄ (Made : Revision → Revision → Type 0) (r : Repository) (id : Str)
    (d : Document) (p w : Revision) : Type 0 where
  pub made : Made p w
  pub named : IsIdentifier id
  pub there : get id r.documents ≡ some d
  pub current : get d.current_revision_id r.revisions ≡ some p
  pub owned : p.document_id ≡ id
  pub built : IsBuilt id (p.revision_number + 1) (some p.revision_id) w
  pub agrees : collides (get w.revision_id r.revisions) w ≡ false

abbrev pub advanced : Document → Revision → Document
advanced d w = record d {
  current_revision_id = w.revision_id;
  revision_count = d.revision_count + 1;
}

abbrev pub ChildEffect :
    ⦃h : Hashing⦄
    → (Revision → Revision → Type 0)
    → Repository
    → Str
    → Result ServiceError RevisionCreation
    → Repository
    → Type 0
ChildEffect Made r id result r' =
    Unchanged r result r'
    ⊎ ((d : Document) × (p : Revision) × (w : Revision) × Child Made r id d p w
        × (result ≡ ok (record { document = advanced d w; revision = w }))
        × (r' ≡ store_document (advanced d w) (save_revision w r).1))

get_document-effect :
    (id : Str) (r : Repository)
    → ((e : RepositoryError) × (get_document id r ≡ (err e, r)))
      ⊎ ((d : Document) × (get id r.documents ≡ some d)
          × (get_document id r ≡ (ok d, r))
          × IsIdentifier id)
unfolding get_document require_score_identifier
get_document-effect id r = elim (Bool-cases (is_blank id)) [
  | inl blank ↦ inl (not_an_identifier, ground (arith, blank))
  | inr filled ↦ elim (Bool-cases (is_stripped id)) [
    | inr padded ↦ inl (not_an_identifier, ground (arith, filled, padded))
    | inl stripped ↦ elim (Option-cases (get id r.documents)) [
      | inl missing ↦ inl (document_not_found, ground (arith, filled, stripped, missing))
      | inr (d, there) ↦ inr (d, there, ground (arith, filled, stripped, there), (filled, stripped))
    ]
  ]
]

get_revision-effect :
    (id : Str) (r : Repository)
    → ((e : RepositoryError) × (get_revision id r ≡ (err e, r)))
      ⊎ ((v : Revision) × (get id r.revisions ≡ some v) × (get_revision id r ≡ (ok v, r)))
unfolding get_revision require_score_identifier
get_revision-effect id r = elim (Bool-cases (is_blank id)) [
  | inl blank ↦ inl (not_an_identifier, ground (arith, blank))
  | inr filled ↦ elim (Bool-cases (is_stripped id)) [
    | inr padded ↦ inl (not_an_identifier, ground (arith, filled, padded))
    | inl stripped ↦ elim (Option-cases (get id r.revisions)) [
      | inl missing ↦ inl (revision_not_found, ground (arith, filled, stripped, missing))
      | inr (v, there) ↦ inr (v, there, ground (arith, filled, stripped, there))
    ]
  ]
]

with_revision-eq :
    ⦃iso : Iso8601⦄ (d : Document) (w : Revision) {a : Document}
    → with_revision d w.revision_id (d.revision_count + 1) ≡ ok a
    → a ≡ advanced d w
unfolding with_revision
with_revision-eq d w h =
    >>=-elim (require_identifier w.revision_id "current_revision_id") _ h (λ _ _ h1.
      >>=-elim (require_positive_int (pos (d.revision_count + 1)) "revision_count") _ h1 (λ _ _ h2.
        >>=-elim (require (ltb d.revision_count (d.revision_count + 1)) count_not_increasing) _ h2
          (λ _ _ h3.
            >>=-elim (check_document (advanced d w)) _ h3 (λ _ _ done. sym (ok-injective done)))))

save_revision-agrees :
    (w : Revision) (r : Repository) {kept : Revision}
    → (save_revision w r).0 ≡ ok kept
    → collides (get w.revision_id r.revisions) w ≡ false
unfolding save_revision
save_revision-agrees w r h = elim (Option-cases (get w.revision_id r.revisions)) [
  | inl new ↦ rw new refl
  | inr (old, there) ↦ ground (arith, there, h)
]

save_revision-documents :
    (w : Revision) (r : Repository) → (save_revision w r).1.documents ≡ r.documents
unfolding save_revision store_revision append_listed
save_revision-documents w r = ground arith

-- The service's last two steps.
abbrev appending : {S : Type 0} → Document → Revision → Serving S RevisionCreation
appending d w = stored (save_revision w) >>= λ _.
    stored (save_document d) >>= λ _. return (record { document = d; revision = w })

save_document-effect :
    (d e : Document) (r : Repository)
    → get d.document_id r.documents ≡ some e
    → save_document d r ≡ (ok d, store_document d r)
unfolding save_document has
save_document-effect d e r there = ground (arith, there)

-- On linked dictionaries the two steps are one: both are taken, or none.
appending-effect :
    {S : Type 0} (d a : Document) (w : Revision) (s : Service S)
    → IsLinked s.repository
    → get a.document_id s.repository.documents ≡ some d
    → ((e : ServiceError) × ((appending a w s).0 ≡ err e)
        × ((appending a w s).1.repository ≡ s.repository))
      ⊎ ((collides (get w.revision_id s.repository.revisions) w ≡ false)
          × ((appending a w s).0 ≡ ok (record { document = a; revision = w }))
          × ((appending a w s).1.repository ≡ store_document a (save_revision w s.repository).1))
appending-effect d a w s linked there = elim (Result-cases (save_revision w s.repository).0) [
  | inl (kept, saved) ↦
      let still = ap (get a.document_id) (save_revision-documents w s.repository) ∙ there in
      let done = save_document-effect a d (save_revision w s.repository).1 still in
      inr (
        save_revision-agrees w s.repository saved,
        ground (arith, saved, done),
        ground (arith, saved, done),
      )
  | inr (e, raised) ↦
      let same = save_revision-Refuses w s.repository linked e raised in
      inl (storage e, ground (arith, raised), ground (arith, raised, same))
]

-- From the point at which the document and its current revision are known.
advancing :
    ⦃iso : Iso8601⦄ ⦃h : Hashing⦄
    → {S : Type 0} → Str
    → Option ℕ
    → Submission
    → Document
    → Revision
    → Serving S RevisionCreation
advancing id grid submission d p =
    checked (
      build_revision id (p.revision_number + 1) (some p.revision_id)
        (inherited grid p.ticks_per_quarter) submission)
    >>= λ w. lift (verify_lineage w p) >>= λ _.
        checked (with_revision d w.revision_id (d.revision_count + 1)) >>= λ a. appending a w

-- The revision is built of the submission, after its parent.
abbrev pub MadeAfter :
    ⦃iso : Iso8601⦄ ⦃h : Hashing⦄ → Str → Option ℕ → Submission → Revision → Revision → Type 0
MadeAfter id grid submission p w =
    build_revision id (p.revision_number + 1) (some p.revision_id)
      (inherited grid p.ticks_per_quarter) submission
    ≡ ok w

advancing-effect :
    ⦃iso : Iso8601⦄ ⦃h : Hashing⦄ {S : Type 0} (id : Str) (grid : Option ℕ)
    (submission : Submission) (d : Document) (p : Revision) (s : Service S)
    → IsLinked s.repository
    → IsIdentifier id
    → get id s.repository.documents ≡ some d
    → d.document_id ≡ id
    → get d.current_revision_id s.repository.revisions ≡ some p
    → p.document_id ≡ id
    → ChildEffect
        (MadeAfter id grid submission)
        s.repository
        id
        (advancing id grid submission d p s).0
        (advancing id grid submission d p s).1.repository
unfolding advancing
advancing-effect {S = S} id grid submission d p s linked named there key current owned =
    let P = λ (result : Result ServiceError RevisionCreation) (t : Service S).
      ChildEffect (MadeAfter id grid submission) s.repository id result t.repository in
    let refuse = λ (e : ServiceError).
      let nothing : ChildEffect (MadeAfter id grid submission) s.repository id (err e)
          s.repository =
        inl (e, refl, refl) in
      nothing in
    after-Post P
      (blame contract (
        build_revision id (p.revision_number + 1) (some p.revision_id)
          (inherited grid p.ticks_per_quarter) submission))
      s _
      (λ w built.
        after-Post P (verify_lineage w p) s _
          (λ _ _.
            after-Post P (blame contract (with_revision d w.revision_id (d.revision_count + 1))) s _
              (λ a made.
                let same = with_revision-eq d w (blame-ok contract _ made) in
                rw same
                  (elim (appending-effect d (advanced d w) w s linked
                    (subst (λ k. get k s.repository.documents ≡ some d) (sym key) there)) [
                      | inl (e, raised, kept) ↦ inl (e, raised, kept)
                      | inr (agrees, answer, left) ↦ inr (
                        d,
                        p,
                        w,
                        record {
                          made = blame-ok contract _ built;
                          named = named;
                          there = there;
                          current = current;
                          owned = owned;
                          built =
                              build_revision-IsBuilt id (p.revision_number + 1) (some p.revision_id)
                                (inherited grid p.ticks_per_quarter) submission
                                (blame-ok contract _ built);
                          agrees = agrees;
                        },
                        answer,
                        left,
                      )
                    ]))
              (λ e _. refuse e))
          (λ e _. refuse e))
      (λ e _. refuse e)

module _ ⦃iso : Iso8601⦄ ⦃h : Hashing⦄ where
  pub create_child_revision-effect :
      {S : Type 0} (id : Str) (grid : Option ℕ) (submission : Submission) (s : Service S)
      → IsLinked s.repository
      → ((d : Document) → get id s.repository.documents ≡ some d → d.document_id ≡ id)
      → ChildEffect
          (MadeAfter id grid submission)
          s.repository
          id
          (create_child_revision id grid submission s).0
          (create_child_revision id grid submission s).1.repository
  unfolding create_child_revision advancing
  create_child_revision-effect {S} id grid submission s linked keyed =
      let P = λ (result : Result ServiceError RevisionCreation) (t : Service S).
        ChildEffect (MadeAfter id grid submission) s.repository id result t.repository in
      let refuse = λ (e : ServiceError).
        let nothing : ChildEffect (MadeAfter id grid submission) s.repository id (err e)
            s.repository =
          inl (e, refl, refl) in
        nothing in
      elim (get_document-effect id s.repository) [
        | inl (e, missing) ↦ rw missing (refuse (storage e))
        | inr (d, there, found_document, named) ↦
            rw found_document (elim (get_revision-effect d.current_revision_id s.repository) [
              | inl (e, missing) ↦ rw missing (refuse (storage e))
              | inr (p, current, found_revision) ↦ rw found_revision (
                  after-Post P (require (str_eq p.document_id id) revision_document_mismatch) s _
                    (λ _ owned.
                      advancing-effect id grid submission d p s linked named there (keyed d there)
                        current (str_eq_sound p.document_id id (ground (arith, owned))))
                    (λ e _. refuse e))
            ])
      ]
