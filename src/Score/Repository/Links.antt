-- ===== src/Score/Repository/Links.antt =====
-- core/score/repository.py: documents and their lists of revisions stay linked.
use master_all_strings.Prelude.{
  List, [], ◌∷◌, ◌++◌, Bool, true, false, not, Option, none, some, ok, require, ◌≡◌, refl, sym, ap,
  ◌∙◌, subst, inl, inr, Bool-cases, Option-cases, Str_eq, contains, if◌then◌else◌, arith, All,
  All-append, All-imp, ◌⊎◌,
}
use master_all_strings.Prelude.Action.{raise, modify, Keeps, Keeps-option, leads-lift, after-leads}
use master_all_strings.Prelude.Dict.{Dict, get, put, has, get-put, get-put_self, get-put_ne}
use master_all_strings.Prelude.Text.{Str, str_eq, str_eq_sound}
use master_all_strings.Score.Repository.{
  Document, Revision, Repository, RepositoryError, Storing, empty_repository, key_error,
  duplicate_document, wrong_document, wrong_pointer, revision_id_collision, document_not_found,
  listed, link, collides, first_of, create_document_with_origin_revision, save_document,
  append_listed, store_revision, save_revision,
}
use master_all_strings.Score.Repository.Laws.{Write, written, written_all}

pub some_injective : {A : Type 0} {x y : A} → ◌≡◌ {A = Option A} (some x) (some y) → x ≡ y
some_injective h = cc

-- Every document has a list of revisions, and every listed revision is stored.
pub record IsLinked (r : Repository) : Type 0 where
  pub is_listed :
      (id : Str) (d : Document)
      → get id r.documents ≡ some d
      → (ids : List Str) × (get id r.by_document ≡ some ids)
  pub resolves :
      (id : Str) (ids : List Str)
      → get id r.by_document ≡ some ids
      → All (λ j. (v : Revision) × (get j r.revisions ≡ some v)) ids

abbrev pub Resolved : Dict Str Revision → Str → Type 0
Resolved revisions j = (v : Revision) × (get j revisions ≡ some v)

Resolved-put :
    (k : Str) (w : Revision) (revisions : Dict Str Revision) (j : Str)
    → Resolved revisions j
    → Resolved (put k w revisions) j
Resolved-put k w revisions j (v, h) = elim (Bool-cases (str_eq k j)) [
  | inl same ↦ (w, get-put k j w revisions ∙ ap (λ b. if b then some w else get j revisions) same)
  | inr other ↦ (v, get-put_ne k j w revisions other ∙ h)
]

-- What a repository looks like after a document's list of revisions is replaced.
relisted-IsLinked :
    (r : Repository) (document_id k : Str) (ids : List Str) (w : Revision)
    (documents : Dict Str Document)
    → IsLinked r
    → All (Resolved (put k w r.revisions)) ids
    → ((id : Str) (d : Document)
        → get id documents ≡ some d
        → (str_eq document_id id ≡ true) ⊎ ((e : Document) × (get id r.documents ≡ some e)))
    → IsLinked (record {
      documents = documents;
      revisions = put k w r.revisions;
      by_document = put document_id ids r.by_document;
    })
relisted-IsLinked r document_id k ids w documents linked all_resolved known = record {
  is_listed = λ id d there. elim (Bool-cases (str_eq document_id id)) [
    | inl same ↦ (
      ids,
      get-put document_id id ids r.by_document
          ∙ ap (λ b. if b then some ids else get id r.by_document) same,
    )
    | inr other ↦ elim (known id d there) [
      | inl same ↦ ground (arith, same, other)
      | inr (e, old) ↦
          let (js, listing) = linked.is_listed id e old in
          (js, get-put_ne document_id id ids r.by_document other ∙ listing)
    ]
  ];
  resolves = λ id js there. elim (Bool-cases (str_eq document_id id)) [
    | inl same ↦
        subst (All (Resolved (put k w r.revisions)))
          (some_injective (
            sym (
              get-put document_id id ids r.by_document
              ∙ ap (λ b. if b then some ids else get id r.by_document) same)
            ∙ there))
          all_resolved
    | inr other ↦
        All-imp _ _ (Resolved-put k w r.revisions) js
          (linked.resolves id js (sym (get-put_ne document_id id ids r.by_document other) ∙ there))
  ];
}

listed-Resolved :
    (r : Repository) (id : Str) (o : Option (List Str))
    → IsLinked r
    → get id r.by_document ≡ o
    → All (Resolved r.revisions) (elim o as (λ _. List Str) [ none ↦ [] | some ids ↦ ids ])
listed-Resolved r id none linked e = tt
listed-Resolved r id (some ids) linked e = linked.resolves id ids e

-- A list of revisions to which a stored one may be added.
added-Resolved :
    (b : Bool) (k : Str) (w : Revision) (revisions : Dict Str Revision) (ids : List Str)
    → All (Resolved revisions) ids
    → All (Resolved (put k w revisions)) (if b then ids else ids ++ k ∷ [])
added-Resolved true k w revisions ids h = All-imp _ _ (Resolved-put k w revisions) ids h
added-Resolved false k w revisions ids h =
    All-append _ ids (k ∷ []) (All-imp _ _ (Resolved-put k w revisions) ids h)
      ((w, get-put_self k w revisions), tt)

put-known :
    (d : Document) (documents : Dict Str Document) (id : Str) (e : Document)
    → get id (put d.document_id d documents) ≡ some e
    → (str_eq d.document_id id ≡ true) ⊎ ((f : Document) × (get id documents ≡ some f))
put-known d documents id e there = elim (Bool-cases (str_eq d.document_id id)) [
  | inl same ↦ inl same
  | inr other ↦ inr (e, sym (get-put_ne d.document_id id d documents other) ∙ there)
]

link-IsLinked :
    (d : Document) (w stored : Revision) (r : Repository)
    → IsLinked r
    → IsLinked (link d w stored r)
link-IsLinked d w stored r linked =
    relisted-IsLinked r d.document_id w.revision_id _ stored (put d.document_id d r.documents)
      linked
      (added-Resolved (contains w.revision_id (listed d.document_id r)) w.revision_id stored
        r.revisions (listed d.document_id r)
        (listed-Resolved r d.document_id (get d.document_id r.by_document) linked refl))
      (put-known d r.documents)

create-IsLinked :
    (d : Document) (w : Revision) → Keeps IsLinked (create_document_with_origin_revision d w)
unfolding create_document_with_origin_revision
create-IsLinked d w r h =
    leads-lift IsLinked (require (not (has d.document_id r.documents)) duplicate_document) _ r h
      (λ _ _.
        leads-lift IsLinked (require (str_eq w.document_id d.document_id) wrong_document) _ r h
          (λ _ _.
            leads-lift IsLinked (require (str_eq d.current_revision_id w.revision_id) wrong_pointer)
              _ r h
              (λ _ _.
                leads-lift IsLinked
                  (require (not (collides (get w.revision_id r.revisions) w)) revision_id_collision)
                  _ r h
                  (λ _ _. link-IsLinked d w (first_of (get w.revision_id r.revisions) w) r h))))

pub has-get :
    (id : Str) (documents : Dict Str Document)
    → has id documents ≡ true
    → (d : Document) × (get id documents ≡ some d)
unfolding has
has-get id documents h = elim (Option-cases (get id documents)) [
  | inl e ↦ ground (arith, e, h)
  | inr found ↦ found
]

pub required : (b : Bool) (e : RepositoryError) → require b e ≡ ok tt → b ≡ true
required b e h = ground arith

save_document-IsLinked : (d : Document) → Keeps IsLinked (save_document d)
unfolding save_document
save_document-IsLinked d r h =
    leads-lift IsLinked (require (has d.document_id r.documents) document_not_found) _ r h
      (λ _ there. record {
        is_listed = λ id e found. elim (put-known d r.documents id e found) [
          | inl same ↦
              let (old, stored) =
                has-get d.document_id r.documents (required _ document_not_found there) in
              subst (λ k. (ids : List Str) × (get k r.by_document ≡ some ids))
                (str_eq_sound d.document_id id same) (h.is_listed d.document_id old stored)
          | inr (old, stored) ↦ h.is_listed id old stored
        ];
        resolves = h.resolves;
      })

stored-IsLinked :
    (w : Revision) (r : Repository)
    → IsLinked r
    → IsLinked (record r { revisions = put w.revision_id w r.revisions })
stored-IsLinked w r h = record {
  is_listed = h.is_listed;
  resolves = λ id ids listing.
      All-imp _ _ (Resolved-put w.revision_id w r.revisions) ids (h.resolves id ids listing);
}

store_from :
    (w : Revision) (r : Repository) (o : Option (List Str))
    → get w.document_id r.by_document ≡ o
    → IsLinked r
    → IsLinked
        ((elim o as (λ _. Storing (Unit {0})) [
          | none ↦ raise key_error
          | some ids ↦ modify (λ s. record s {
            by_document = put w.document_id (ids ++ w.revision_id ∷ []) s.by_document;
          })
        ])
          (record r { revisions = put w.revision_id w r.revisions })).1
store_from w r none e h = stored-IsLinked w r h
store_from w r (some ids) e h =
    relisted-IsLinked r w.document_id w.revision_id (ids ++ w.revision_id ∷ []) w r.documents h
      (added-Resolved false w.revision_id w r.revisions ids (h.resolves w.document_id ids e))
      (λ id d there. inr (d, there))

append_stored-IsLinked :
    (w : Revision) (r : Repository)
    → IsLinked r
    → IsLinked
        (append_listed w.document_id w.revision_id
          (record r { revisions = put w.revision_id w r.revisions })).1
unfolding append_listed
append_stored-IsLinked w r h = store_from w r (get w.document_id r.by_document) refl h

store_revision-IsLinked : (w : Revision) → Keeps IsLinked (store_revision w)
unfolding store_revision
store_revision-IsLinked w r h =
    after-leads IsLinked IsLinked _ (λ t i. i) (λ _ t i. i) _ _ (append_stored-IsLinked w r h)

revision-IsLinked : (w : Revision) → Keeps IsLinked (save_revision w)
unfolding save_revision
revision-IsLinked w r h =
    leads-lift IsLinked (require (has w.document_id r.documents) document_not_found) _ r h (λ _ _.
      Keeps-option IsLinked (get w.revision_id r.revisions) (store_revision w) _
        (store_revision-IsLinked w)
        (λ existing t i.
          leads-lift IsLinked (require (not (collides (some existing) w)) revision_id_collision) _ t
            i (λ _ _. i))
        r h)

pub written_all-IsLinked :
    (ws : List Write) (r : Repository) → IsLinked r → IsLinked (written_all ws r)
unfolding written_all written
written_all-IsLinked [] r h = h
written_all-IsLinked (Write.create d w ∷ ws) r h =
    written_all-IsLinked ws _ (create-IsLinked d w r h)
written_all-IsLinked (Write.document d ∷ ws) r h =
    written_all-IsLinked ws _ (save_document-IsLinked d r h)
written_all-IsLinked (Write.revision w ∷ ws) r h =
    written_all-IsLinked ws _ (revision-IsLinked w r h)

pub empty-IsLinked : IsLinked empty_repository
unfolding get
empty-IsLinked = record { is_listed = λ id d h. cc; resolves = λ id ids h. cc }
