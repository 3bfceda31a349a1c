-- ===== src/Score/Service/Runs.antt =====
-- core/score/revision_service.py: sequences of calls on a service.
use master_all_strings.Prelude.{
  ℕ, ◌+◌, arith, List, [], ◌∷◌, false, Option, none, some, Result, ok, err, ◌≡◌, refl, sym, ap, ◌∙◌,
  ◌⊎◌, inl, inr, Option-cases, Str_eq, length, All, subst, contains,
}
use master_all_strings.Prelude.Dict.{get, put, has}
use master_all_strings.Prelude.Text.{Str}
use master_all_strings.Prelude.Strings.{Iso8601}
use master_all_strings.Prelude.Json.{IsScalar}
use master_all_strings.Score.Models.{Document, Revision}
use master_all_strings.Score.Digest.{Hashing}
use master_all_strings.Score.Ids.{DocumentIdAuthority}
use master_all_strings.Score.Revisions.{Submission, Labels}
use master_all_strings.Score.Repository.{
  Repository, empty_repository, link, first_of, store_document, save_revision, store_revision,
  append_listed,
}
use master_all_strings.Score.Repository.Links.{some_injective}
use master_all_strings.Score.Service.{
  Service, Serving, ServiceError, RevisionCreation, create_document_with_revision,
  create_child_revision,
}
use master_all_strings.Score.Service.Steps.{
  IsBuilt, Origin, Child, Unchanged, MadeFirst, MadeAfter, advanced,
  create_document_with_revision-effect, create_child_revision-effect,
}
use master_all_strings.Score.Service.Chains.{
  Chain, Chain-last, last_of, Story, IsHistory, IsHistory-IsLinked,
}
use master_all_strings.Score.Service.History.{
  NoClash, Growth, grown, Grows, unused, grown-IsHistory,
}

regrown :
    (r : Repository) (a : Document) (w : Revision) (ids : List Str) (j k id : Str)
    → j ≡ id
    → k ≡ id
    → ◌≡◌ {A = Repository}
        (record (grown k a w ids r) { documents = put j a r.documents })
        (grown id a w ids r)
regrown r a w ids j k id at on =
    ap (λ (x : Str). record (grown k a w ids r) { documents = put x a r.documents }) at
    ∙ ap (λ (x : Str). record (grown x a w ids r) { documents = put id a r.documents }) on

unlisted :
    ⦃h : Hashing⦄ (r : Repository) (id : Str)
    → IsHistory r
    → has id r.documents ≡ false
    → get id r.by_document ≡ none
unfolding has
unlisted r id history fresh = elim (Option-cases (get id r.by_document)) [
  | inl none_listed ↦ none_listed
  | inr (ids, listing) ↦
      let (d, there) = history.owned id ids listing in ground (arith, there, fresh)
]

not_there : (r : Repository) (id : Str) → has id r.documents ≡ false → get id r.documents ≡ none
unfolding has
not_there r id fresh = ground (arith, fresh)

link-grown :
    (d : Document) (w : Revision) (r : Repository)
    → get w.revision_id r.revisions ≡ none
    → get d.document_id r.by_document ≡ none
    → link d w (first_of (get w.revision_id r.revisions) w) r ≡ grown d.document_id d w [] r
unfolding contains
link-grown d w r new none_listed = ground (arith, new, none_listed)

save_revision-grown :
    (d a : Document) (w : Revision) (ids : List Str) (r : Repository)
    → get w.document_id r.documents ≡ some d
    → get w.revision_id r.revisions ≡ none
    → get w.document_id r.by_document ≡ some ids
    → store_document a (save_revision w r).1
      ≡ record (grown w.document_id a w ids r) { documents = put a.document_id a r.documents }
unfolding save_revision store_revision append_listed has
save_revision-grown d a w ids r there new listing = ground (arith, there, new, listing)

module _ ⦃h : Hashing⦄ where
  Origin-Growth :
      {Made : Str → Revision → Type 0} (r : Repository) (d : Document) (w : Revision)
      → IsHistory r
      → Origin Made r d w
      → All IsScalar d.document_id
      → NoClash r w
      → (first_of (get w.revision_id r.revisions) w ≡ w)
        × Growth r d.document_id d w (link d w (first_of (get w.revision_id r.revisions) w) r)
  unfolding has
  Origin-Growth r d w history o plain apart =
      let new =
        unused r d.document_id 1 none w history o.built plain apart o.agrees
          (λ e there. ground (arith, there, o.fresh)) in
      (
        ground (arith, new),
        record {
          named = o.named;
          ids = [];
          grows = record {
            built = o.built;
            plain = plain;
            unused = new;
            chain = tt;
            keyed = refl;
            points = o.points;
            counted = o.counted;
            no_less = λ e there. ground (arith, there, o.fresh);
          };
          before = inl (refl, not_there r d.document_id o.fresh);
          shape = link-grown d w r new (unlisted r d.document_id history o.fresh);
        },
      )

  -- The number of a document's current revision is the number of its revisions.
  current_number :
      (r : Repository) (id : Str) (d : Document) (p : Revision)
      → Story r id d
      → get d.current_revision_id r.revisions ≡ some p
      → p.revision_number ≡ d.revision_count
  current_number r id d p s current = numbered s.ids s.chain s.points s.counted
    where
      numbered :
          (ids : List Str)
          → Chain r.revisions id none 1 ids
          → last_of none ids ≡ some d.current_revision_id
          → length ids ≡ d.revision_count
          → p.revision_number ≡ d.revision_count
      numbered [] chain points counted = cc
      numbered (x ∷ ids) chain points counted = omega (
        arith,
        Chain-last r.revisions id none 1 x ids d.current_revision_id p chain points current,
        counted,
      )

  Child-Growth :
      {Made : Revision → Revision → Type 0} (r : Repository) (id : Str) (d : Document)
      (p w : Revision)
      → IsHistory r
      → Child Made r id d p w
      → NoClash r w
      → Growth r id (advanced d w) w (store_document (advanced d w) (save_revision w r).1)
  Child-Growth r id d p w history c apart =
      let s = history.story id d c.there in
      let number = current_number r id d p s c.current in
      let known = history.known d.current_revision_id p c.current in
      let key = history.keyed id d c.there in
      let plain = subst (All IsScalar) c.owned known.plain in
      let new =
        unused r id (p.revision_number + 1) (some p.revision_id) w history c.built plain apart
          c.agrees
          (λ e there. omega (
            arith,
            number,
            ap (λ (x : Document). x.revision_count) (some_injective (sym there ∙ c.there)),
          )) in
      let built : IsBuilt id (length s.ids + 1) (last_of none s.ids) w = record {
        document = c.built.document;
        numbered = omega (arith, c.built.numbered, number, s.counted);
        follows = c.built.follows ∙ ap some known.keyed ∙ sym s.points;
        text = c.built.text;
        serialized = c.built.serialized;
        digested = c.built.digested;
      } in
      let g : Grows r id (advanced d w) w s.ids = record {
        built = built;
        plain = plain;
        unused = new;
        chain = s.chain;
        keyed = key;
        points = refl;
        counted = omega (arith, s.counted);
        no_less = λ e there.
            omega (
              arith,
              ap (λ (x : Document). x.revision_count) (some_injective (sym there ∙ c.there)),
            );
      } in
      let at = λ (k : Str). get k r.documents ≡ some d in
      let shape =
        save_revision-grown d (advanced d w) w s.ids r (subst at (sym c.built.document) c.there) new
          (subst (λ k. get k r.by_document ≡ some s.ids) (sym c.built.document) s.listing) in
      record {
        named = c.named;
        ids = s.ids;
        grows = g;
        before = inr (d, c.there, s.listing);
        shape =
            shape
            ∙ regrown r (advanced d w) w s.ids d.document_id w.document_id id key c.built.document;
      }

  Growth-IsHistory :
      (r : Repository) (id : Str) (a : Document) (w : Revision) (r' : Repository)
      → IsHistory r
      → Growth r id a w r'
      → IsHistory r'
  Growth-IsHistory r id a w r' history g =
      subst IsHistory (sym g.shape) (grown-IsHistory r id a w g.ids history g.grows)

  pub empty-IsHistory : IsHistory empty_repository
  unfolding get
  empty-IsHistory = record {
    keyed = λ id d there. cc;
    owned = λ id ids there. cc;
    story = λ id d there. absurd (cc there);
    known = λ id v there. absurd (cc there);
  }

-- The calls of a service that write, with their arguments.
pub data Call : Type 0 where
  create : (grid : ℕ) (submission : Submission) (labels : Labels) → Call
  extend : (document_id : Str) (grid : Option ℕ) (submission : Submission) → Call

module _ ⦃iso : Iso8601⦄ ⦃h : Hashing⦄ (authority : DocumentIdAuthority) where
  abbrev pub perform : Call → Serving authority.State RevisionCreation
  perform (create grid submission labels) =
      create_document_with_revision authority grid submission labels
  perform (extend id grid submission) = create_child_revision id grid submission

  -- The hash of the revision that the call builds clashes with none that is stored, and the id of a
  -- new document holds no surrogates.
  abbrev pub IsClear : Call → Service authority.State → Type 0
  IsClear (create grid submission labels) s =
      (id : Str) (w : Revision)
      → MadeFirst authority s.ids grid submission id w
      → All IsScalar id × NoClash s.repository w
  IsClear (extend id grid submission) s =
      (d : Document) (p w : Revision)
      → get id s.repository.documents ≡ some d
      → get d.current_revision_id s.repository.revisions ≡ some p
      → MadeAfter id grid submission p w
      → NoClash s.repository w

-- The states of a service that calls reach from an empty repository; any of the calls may raise.
pub data Reached ⦃iso : Iso8601⦄ ⦃h : Hashing⦄ (authority : DocumentIdAuthority)
    : Service authority.State → Type 0 where
  start :
      (ids : authority.State)
      → Reached authority (record { repository = empty_repository; ids = ids })
  called :
      {s t : Service authority.State} (call : Call)
      → Reached authority s
      → IsClear authority call s
      → t ≡ (perform authority call s).1
      → Reached authority t

-- What a call does: it answers with the document and the revision by which the document has grown,
-- or it raises and changes nothing.
abbrev pub Outcome :
    ⦃h : Hashing⦄ → Repository → Result ServiceError RevisionCreation → Repository → Type 0
Outcome r result r' =
    Unchanged r result r'
    ⊎ ((c : RevisionCreation) × (result ≡ ok c)
        × Growth r c.document.document_id c.document c.revision r')

module _ ⦃iso : Iso8601⦄ ⦃h : Hashing⦄ (authority : DocumentIdAuthority) where
  pub perform-Outcome :
      (call : Call) (s : Service authority.State)
      → IsHistory s.repository
      → IsClear authority call s
      → Outcome s.repository (perform authority call s).0 (perform authority call s).1.repository
  perform-Outcome (create grid submission labels) s history clear =
      elim (create_document_with_revision-effect authority grid submission labels s) [
        | inl unchanged ↦ inl unchanged
        | inr (d, w, o, answer, left) ↦
            let (plain, apart) = clear d.document_id w o.made in
            let (same, growth) = Origin-Growth s.repository d w history o plain apart in
            inr (
              record { document = d; revision = w },
              answer ∙ ap (λ (v : Revision). ok (record { document = d; revision = v })) same,
              subst (Growth s.repository d.document_id d w) (sym left) growth,
            )
      ]
  perform-Outcome (extend id grid submission) s history clear =
      elim (create_child_revision-effect id grid submission s
        (IsHistory-IsLinked s.repository history) (history.keyed id)) [
          | inl unchanged ↦ inl unchanged
          | inr (d, p, w, c, answer, left) ↦
              let growth =
                Child-Growth s.repository id d p w history c
                  (clear d p w c.there c.current c.made) in
              inr (
                record { document = advanced d w; revision = w },
                answer,
                subst
                    (λ k.
                      Growth s.repository k (advanced d w) w
                        (perform authority (extend id grid submission) s).1.repository)
                    (sym (history.keyed id d c.there))
                    (subst (Growth s.repository id (advanced d w) w) (sym left) growth),
              )
        ]

  perform-IsHistory :
      (call : Call) (s : Service authority.State)
      → IsHistory s.repository
      → IsClear authority call s
      → IsHistory (perform authority call s).1.repository
  perform-IsHistory call s history clear = elim (perform-Outcome call s history clear) [
    | inl (e, raised, same) ↦ subst IsHistory (sym same) history
    | inr (c, answer, growth) ↦ Growth-IsHistory s.repository _ _ _ _ history growth
  ]

  -- Whatever calls a service has answered or refused, every document's revisions are numbered from 1
  -- without gaps, each but the first is the child of the one before, the document counts them all
  -- and points at the last; and every stored revision carries the digest of its own content and
  -- belongs to a stored document. The hash is assumed to tell apart the contents that it meets.
  pub Reached-IsHistory :
      (s : Service authority.State) → Reached authority s → IsHistory s.repository
  Reached-IsHistory s (start ids) = empty-IsHistory
  Reached-IsHistory t (called {s = s} call before clear step) =
      subst (λ (u : Service authority.State). IsHistory u.repository) (sym step)
        (perform-IsHistory call s (Reached-IsHistory s before) clear)

  -- In a state that calls have reached, none of which met a hash that two contents share or was issued
  -- a document id with surrogates, a call that raises leaves the repository exactly as it was: no
  -- document without its revision, no revision that its document does not count.
  pub perform-refused :
      (s : Service authority.State) (call : Call) (e : ServiceError)
      → Reached authority s
      → (perform authority call s).0 ≡ err e
      → (perform authority call s).1.repository ≡ s.repository
  perform-refused s (create grid submission labels) e reached raised =
      elim (create_document_with_revision-effect authority grid submission labels s) [
        | inl (_, _, same) ↦ same
        | inr (d, w, o, answer, left) ↦ absurd (cc)
      ]
  perform-refused s (extend id grid submission) e reached raised =
      let history = Reached-IsHistory s reached in
      elim (create_child_revision-effect id grid submission s
        (IsHistory-IsLinked s.repository history) (history.keyed id)) [
          | inl (_, _, same) ↦ same
          | inr (d, p, w, c, answer, left) ↦ absurd (cc)
        ]
