-- ===== src/Score/Service/Catalog.antt =====
-- core/score/revision_service.py against its specification: a document is a log of revisions, and
-- a call appends one revision to one log.
use master_all_strings.Prelude.{
  ℕ, suc, ◌≤◌, arith, List, [], ◌∷◌, ◌++◌, true, false, Option, none, some, ok, err, ◌≡◌, refl, sym,
  ap, ◌∙◌, inl, inr, Bool-cases, Option-cases, ok-injective, Str_eq, All, All-imp, subst,
  if◌then◌else◌, Result-cases,
}
use master_all_strings.Prelude.Dict.{Dict, get, put, get-put_ne, get-put_self}
use master_all_strings.Prelude.Order.{by_number, on}
use master_all_strings.Prelude.Sort.{sort, IsSorted, sort-sorted}
use master_all_strings.Prelude.Text.{Str, str_eq, str_eq_sound, is_blank}
use master_all_strings.Prelude.Strings.{Iso8601, is_stripped}
use master_all_strings.Score.Models.{Document, Revision}
use master_all_strings.Score.Digest.{Hashing}
use master_all_strings.Score.Repository.{
  Repository, list_revisions, get_document, require_score_identifier, resolve_all,
}
use master_all_strings.Score.Repository.Links.{some_injective}
use master_all_strings.Score.Service.Steps.{IsIdentifier}
use master_all_strings.Score.Service.Chains.{Chain, Story, IsHistory, get-unused}
use master_all_strings.Score.Ids.{DocumentIdAuthority}
use master_all_strings.Score.Service.{Service, RevisionCreation}
use master_all_strings.Score.Service.Runs.{
  Call, perform, IsClear, Reached, Reached-IsHistory, perform-Outcome,
}
use master_all_strings.Score.Service.History.{grown, Grows, Before, Growth, grown-IsHistory}

abbrev by_revision_number : List Revision → List Revision
by_revision_number = sort (on (λ (x : Revision). x.revision_number) by_number)

-- The log of a document: its revisions as they are listed, and none of an unknown one.
unfoldable pub log : Repository → Str → List Revision
log r id = elim (list_revisions id r).0 [ ok vs ↦ vs | err e ↦ [] ]

log-blank : (r : Repository) (id : Str) → is_blank id ≡ true → log r id ≡ []
unfolding log list_revisions get_document require_score_identifier
log-blank r id h = ground (arith, h)

log-padded : (r : Repository) (id : Str) → is_stripped id ≡ false → log r id ≡ []
unfolding log list_revisions get_document require_score_identifier
log-padded r id h = ground (arith, h)

pub log-unknown : (r : Repository) (id : Str) → get id r.documents ≡ none → log r id ≡ []
unfolding log list_revisions get_document require_score_identifier
log-unknown r id h = ground (arith, h)

log-listed :
    (r : Repository) (id : Str) (d : Document) (ids : List Str) (vs : List Revision)
    → IsIdentifier id
    → get id r.documents ≡ some d
    → get id r.by_document ≡ some ids
    → resolve_all ids r.revisions ≡ ok vs
    → log r id ≡ by_revision_number vs
unfolding log list_revisions get_document require_score_identifier
log-listed r id d ids vs (filled, stripped) there listing resolved =
    ground (arith, filled, stripped, there, listing, resolved)

-- The revisions of a chain, whose numbers start at `n`.
pub record Resolution (revisions : Dict Str Revision) (n : ℕ) (ids : List Str) : Type 0 where
  pub values : List Revision
  pub resolved : resolve_all ids revisions ≡ ok values
  pub no_less : All (λ v. n ≤ v.revision_number) values
  pub ordered : IsSorted (on (λ (x : Revision). x.revision_number) by_number) values

pub Chain-Resolution :
    (revisions : Dict Str Revision) (document_id : Str) (parent : Option Str) (n : ℕ)
    (ids : List Str)
    → Chain revisions document_id parent n ids
    → Resolution revisions n ids
unfolding resolve_all
Chain-Resolution revisions document_id parent n [] h = record {
  values = [];
  resolved = refl;
  no_less = tt;
  ordered = tt;
}
Chain-Resolution revisions document_id parent n (id ∷ ids) ((v, there, (_, number, _)), chain) =
    let rest = Chain-Resolution revisions document_id (some id) (suc n) ids chain in
    record {
      values = v ∷ rest.values;
      resolved = ground (arith, there, rest.resolved);
      no_less =
          (omega (arith, number), All-imp _ _ (λ w h. omega (arith, h)) rest.values rest.no_less);
      ordered =
          (All-imp _ _ (λ w h. ground (arith, number, h)) rest.values rest.no_less, rest.ordered);
    }

module _ (k : Str) (w : Revision) (revisions : Dict Str Revision)
    (new : get k revisions ≡ none) where
  resolve_all-put :
      (document_id : Str) (parent : Option Str) (n : ℕ) (ids : List Str)
      → Chain revisions document_id parent n ids
      → resolve_all ids (put k w revisions) ≡ resolve_all ids revisions
  unfolding resolve_all
  resolve_all-put document_id parent n [] h = refl
  resolve_all-put document_id parent n (id ∷ ids) ((v, there, link), chain) = ground (
    arith,
    there,
    get-unused k w revisions new id v there,
    resolve_all-put document_id (some id) (suc n) ids chain,
  )

resolve_all-snoc :
    (revisions : Dict Str Revision) (ids : List Str) (k : Str) (w : Revision) (vs : List Revision)
    → get k revisions ≡ some w
    → resolve_all ids revisions ≡ ok vs
    → resolve_all (ids ++ k ∷ []) revisions ≡ ok (vs ++ w ∷ [])
unfolding resolve_all
resolve_all-snoc revisions [] k w vs there h = ground (arith, there, h)
resolve_all-snoc revisions (id ∷ ids) k w vs there h = elim (Option-cases (get id revisions)) [
  | inl missing ↦ absurd (ground (arith, missing, h))
  | inr (v, found) ↦ elim (Result-cases (resolve_all ids revisions)) [
    | inr (e, broken) ↦ absurd (ground (arith, found, broken, h))
    | inl (ws, rest) ↦
        let whole : vs ≡ v ∷ ws = ground (arith, found, rest, h) in
        ground (arith, found, whole, resolve_all-snoc revisions ids k w ws there rest)
  ]
]

module _ ⦃h : Hashing⦄ (r : Repository) (history : IsHistory r) where
  log-Story :
      (id : Str) (d : Document) (s : Story r id d)
      → IsIdentifier id
      → get id r.documents ≡ some d
      → log r id ≡ (Chain-Resolution r.revisions id none 1 s.ids s.chain).values
  log-Story id d s named there =
      let values = Chain-Resolution r.revisions id none 1 s.ids s.chain in
      log-listed r id d s.ids values.values named there s.listing values.resolved
      ∙ sort-sorted _ values.values values.ordered

  log-Before :
      (id : Str) (ids : List Str)
      → IsIdentifier id
      → Before r id ids
      → resolve_all ids r.revisions ≡ ok (log r id)
  unfolding resolve_all
  log-Before id ids named (inl (nothing, unknown)) = rw (nothing, log-unknown r id unknown) refl
  log-Before id ids named (inr (d, there, listing)) =
      let s = history.story id d there in
      let values = Chain-Resolution r.revisions id none 1 s.ids s.chain in
      let same : s.ids ≡ ids = some_injective (sym s.listing ∙ listing) in
      subst (λ js. resolve_all js r.revisions ≡ ok (log r id)) same
        (values.resolved ∙ ap ok (sym (log-Story id d s named there)))

module _ ⦃h : Hashing⦄ (r : Repository) (id : Str) (a : Document) (w : Revision) (ids : List Str)
    (history : IsHistory r) (g : Grows r id a w ids) where
  log-grown_self :
      IsIdentifier id → Before r id ids → log (grown id a w ids r) id ≡ log r id ++ w ∷ []
  log-grown_self named before =
      let after = grown-IsHistory r id a w ids history g in
      let s = after.story id a (get-put_self id a r.documents) in
      let values = Chain-Resolution (grown id a w ids r).revisions id none 1 s.ids s.chain in
      let listing : s.ids ≡ ids ++ w.revision_id ∷ [] =
        some_injective
          (sym s.listing ∙ get-put_self id (ids ++ w.revision_id ∷ []) r.by_document) in
      let old =
        resolve_all-put w.revision_id w r.revisions g.unused id none 1 ids g.chain
        ∙ log-Before r history id ids named before in
      let all =
        resolve_all-snoc (put w.revision_id w r.revisions) ids w.revision_id w (log r id)
          (get-put_self w.revision_id w r.revisions) old in
      log-Story (grown id a w ids r) after id a s named (get-put_self id a r.documents)
      ∙ ok-injective (
          sym values.resolved
          ∙ ap (λ js. resolve_all js (put w.revision_id w r.revisions)) listing
          ∙ all)

  log-grown_ne : (j : Str) → str_eq id j ≡ false → log (grown id a w ids r) j ≡ log r j
  log-grown_ne j other = elim (Bool-cases (is_blank j)) [
    | inl blank ↦ log-blank (grown id a w ids r) j blank ∙ sym (log-blank r j blank)
    | inr filled ↦ elim (Bool-cases (is_stripped j)) [
      | inr padded ↦ log-padded (grown id a w ids r) j padded ∙ sym (log-padded r j padded)
      | inl stripped ↦ elim (Option-cases (get j r.documents)) [
        | inl unknown ↦
            log-unknown (grown id a w ids r) j (get-put_ne id j a r.documents other ∙ unknown)
            ∙ sym (log-unknown r j unknown)
        | inr (d, there) ↦
            let s = history.story j d there in
            let values = Chain-Resolution r.revisions j none 1 s.ids s.chain in
            log-listed (grown id a w ids r) j d s.ids values.values (filled, stripped)
              (get-put_ne id j a r.documents other ∙ there)
              (get-put_ne id j (ids ++ w.revision_id ∷ []) r.by_document other ∙ s.listing)
              (resolve_all-put w.revision_id w r.revisions g.unused j none 1 s.ids s.chain
                ∙ values.resolved)
            ∙ sym (
                log-listed r j d s.ids values.values (filled, stripped) there s.listing
                  values.resolved)
      ]
    ]
  ]

  -- The specification of a call: one log is longer by one revision, at its end.
  pub log-grown :
      (j : Str)
      → IsIdentifier id
      → Before r id ids
      → log (grown id a w ids r) j ≡ (if str_eq id j then log r j ++ w ∷ [] else log r j)
  log-grown j named before = elim (Bool-cases (str_eq id j)) [
    | inl same ↦ rw same (
        subst (λ k. log (grown id a w ids r) k ≡ log r k ++ w ∷ []) (str_eq_sound id j same)
          (log-grown_self named before))
    | inr other ↦ rw other (log-grown_ne j other)
  ]

-- What growth by one revision does to the logs.
pub log-Growth :
    ⦃h : Hashing⦄ (r : Repository) (id : Str) (a : Document) (w : Revision) (r' : Repository)
    → IsHistory r
    → Growth r id a w r'
    → (j : Str) → log r' j ≡ (if str_eq id j then log r j ++ w ∷ [] else log r j)
log-Growth r id a w r' history g j =
    ap (λ t. log t j) g.shape ∙ log-grown r id a w g.ids history g.grows j g.named g.before

module _ ⦃iso : Iso8601⦄ ⦃h : Hashing⦄ (authority : DocumentIdAuthority) where
  -- The service implements a catalog of append-only logs, one for each document: when a call on a
  -- state that calls reach returns, the listed revisions of the document that it answers with are
  -- those from before and then the revision that it answers with, and the list of every other
  -- document is as before. The hash is assumed to tell the new content from the stored ones.
  pub perform-appends :
      (s : Service authority.State) (call : Call) (c : RevisionCreation) (j : Str)
      → Reached authority s
      → IsClear authority call s
      → (perform authority call s).0 ≡ ok c
      → log (perform authority call s).1.repository j ≡ (
          if str_eq c.document.document_id j
          then log s.repository j ++ c.revision ∷ []
          else log s.repository j)
  perform-appends s call c j reached clear answered =
      let history = Reached-IsHistory authority s reached in
      elim (perform-Outcome authority call s history clear) [
        | inl (e, raised, same) ↦ absurd (cc)
        | inr (c', answer, growth) ↦
            let same : c' ≡ c = ok-injective (sym answer ∙ answered) in
            subst
              (λ (x : RevisionCreation). log (perform authority call s).1.repository j ≡ (
                if str_eq x.document.document_id j
                then log s.repository j ++ x.revision ∷ []
                else log s.repository j))
              same
              (log-Growth s.repository c'.document.document_id c'.document c'.revision _ history
                growth j)
      ]
