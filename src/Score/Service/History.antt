-- ===== src/Score/Service/History.antt =====
-- core/score/revision_service.py: the service keeps every document's history whole.
use master_all_strings.Prelude.{
  ℕ, ◌+◌, ◌≤◌, ◌<◌, arith, List, [], ◌∷◌, ◌++◌, false, Option, none, some, ok, ◌≡◌, refl, sym, ap,
  ◌∙◌, ◌⊎◌, inl, inr, Bool-cases, Option-cases, Str_eq, length, length-append, All, subst,
}
use master_all_strings.Prelude.Dict.{get, put, get-put, get-put_ne, get-put_self}
use master_all_strings.Prelude.Text.{Str, str_eq, str_eq_sound}
use master_all_strings.Prelude.Json.{IsScalar}
use master_all_strings.Score.Models.{Document, Revision}
use master_all_strings.Score.Digest.{Hashing, content_of, serialize_revision_content}
use master_all_strings.Score.Digest.Laws.{serialize_revision_content-names}
use master_all_strings.Score.Repository.{Repository, collides}
use master_all_strings.Score.Service.Steps.{IsIdentifier, IsBuilt}
use master_all_strings.Score.Service.Chains.{
  get-put-cases, Chain, last_of, last_of-snoc, Chain-put, Chain-snoc, Story, Known, IsHistory,
}

-- The hash tells the content of `w` from every stored content that is serialized differently.
abbrev pub NoClash : ⦃h : Hashing⦄ → Repository → Revision → Type 0
NoClash ⦃h⦄ r w =
    (id : Str) (v : Revision) (s t : Str)
    → get id r.revisions ≡ some v
    → serialize_revision_content (content_of v) ≡ ok s
    → serialize_revision_content (content_of w) ≡ ok t
    → h.sha256 s ≡ h.sha256 t
    → s ≡ t

-- A repository in which the document `id` has grown by the revision `w`.
abbrev pub grown : Str → Document → Revision → List Str → Repository → Repository
grown id a w ids r = record {
  documents = put id a r.documents;
  revisions = put w.revision_id w r.revisions;
  by_document = put id (ids ++ w.revision_id ∷ []) r.by_document;
}

pub record Grows ⦃h : Hashing⦄ (r : Repository) (id : Str) (a : Document) (w : Revision)
    (ids : List Str) : Type 0 where
  pub built : IsBuilt id (length ids + 1) (last_of none ids) w
  pub plain : All IsScalar id
  pub unused : get w.revision_id r.revisions ≡ none
  pub chain : Chain r.revisions id none 1 ids
  pub keyed : a.document_id ≡ id
  pub points : a.current_revision_id ≡ w.revision_id
  pub counted : a.revision_count ≡ length ids + 1
  pub no_less : (d : Document) → get id r.documents ≡ some d → d.revision_count ≤ a.revision_count

-- The list of the document before it grows: none is kept of a new one.
abbrev pub Before : Repository → Str → List Str → Type 0
Before r id ids =
    ((ids ≡ []) × (get id r.documents ≡ none))
    ⊎ ((d : Document) × (get id r.documents ≡ some d) × (get id r.by_document ≡ some ids))

-- The document `id` grows by the revision `w` and becomes `a`; nothing else changes.
pub record Growth ⦃h : Hashing⦄ (r : Repository) (id : Str) (a : Document) (w : Revision)
    (r' : Repository) : Type 0 where
  pub named : IsIdentifier id
  pub ids : List Str
  pub grows : Grows r id a w ids
  pub before : Before r id ids
  pub shape : r' ≡ grown id a w ids r

module _ ⦃h : Hashing⦄ where
  -- A revision that is built is not stored yet, unless the hash clashes.
  pub unused :
      (r : Repository) (id : Str) (n : ℕ) (parent : Option Str) (w : Revision)
      → IsHistory r
      → IsBuilt id n parent w
      → All IsScalar id
      → NoClash r w
      → collides (get w.revision_id r.revisions) w ≡ false
      → ((d : Document) → get id r.documents ≡ some d → d.revision_count < n)
      → get w.revision_id r.revisions ≡ none
  unused r id n parent w history built plain apart agrees below =
      elim (Option-cases (get w.revision_id r.revisions)) [
        | inl new ↦ new
        | inr (v, there) ↦
            let known = history.known w.revision_id v there in
            let same_digest : v.content_digest ≡ w.content_digest =
              str_eq_sound _ _ (ground (arith, there, agrees)) in
            let same =
              apart w.revision_id v known.text built.text there known.serialized built.serialized
                (sym known.digested ∙ same_digest ∙ built.digested) in
            let (owner, number) =
              serialize_revision_content-names (content_of v) (content_of w) known.plain
                (subst (All IsScalar) (sym built.document) plain) (known.serialized ∙ ap ok same)
                built.serialized in
            let less = below known.document (
              subst (λ k. get k r.documents ≡ some known.document) (owner ∙ built.document)
                known.there) in
            absurd (omega (arith, less, known.counted, number, built.numbered))
      ]

  module _ (r : Repository) (id : Str) (a : Document) (w : Revision) (ids : List Str)
      (history : IsHistory r) (g : Grows r id a w ids) where
    grown-Story : Story (grown id a w ids r) id a
    grown-Story = record {
      ids = ids ++ w.revision_id ∷ [];
      listing = get-put_self id (ids ++ w.revision_id ∷ []) r.by_document;
      chain =
          Chain-snoc w.revision_id w r.revisions g.unused id none 1 ids g.chain
            (g.built.document, g.built.numbered ∙ omega arith, g.built.follows);
      counted = length-append ids (w.revision_id ∷ []) ∙ sym g.counted;
      points = last_of-snoc none ids w.revision_id ∙ ap some (sym g.points);
    }

    other-Story :
        (j : Str) (d : Document)
        → str_eq id j ≡ false
        → Story r j d
        → Story (grown id a w ids r) j d
    other-Story j d other s = record {
      ids = s.ids;
      listing = get-put_ne id j (ids ++ w.revision_id ∷ []) r.by_document other ∙ s.listing;
      chain = Chain-put w.revision_id w r.revisions g.unused j none 1 s.ids s.chain;
      counted = s.counted;
      points = s.points;
    }

    -- A document is still there, and counts no less.
    still :
        (j : Str) (d : Document)
        → get j r.documents ≡ some d
        → (e : Document) × (get j (put id a r.documents) ≡ some e)
          × (d.revision_count ≤ e.revision_count)
    still j d there = elim (Bool-cases (str_eq id j)) [
      | inl same ↦ (
        a,
        ground (arith, get-put id j a r.documents, same),
        g.no_less d (subst (λ k. get k r.documents ≡ some d) (sym (str_eq_sound id j same)) there),
      )
      | inr other ↦ (d, get-put_ne id j a r.documents other ∙ there, omega arith)
    ]

    old-Known : (k : Str) (v : Revision) → Known r k v → Known (grown id a w ids r) k v
    old-Known k v known =
        let (e, there, no_less) = still v.document_id known.document known.there in
        record {
          keyed = known.keyed;
          plain = known.plain;
          text = known.text;
          serialized = known.serialized;
          digested = known.digested;
          document = e;
          there = there;
          counted = omega (arith, no_less, known.counted);
        }

    new-Known : Known (grown id a w ids r) w.revision_id w
    new-Known = record {
      keyed = refl;
      plain = subst (All IsScalar) (sym g.built.document) g.plain;
      text = g.built.text;
      serialized = g.built.serialized;
      digested = g.built.digested;
      document = a;
      there =
          subst (λ k. get k (put id a r.documents) ≡ some a) (sym g.built.document)
            (get-put_self id a r.documents);
      counted = omega (arith, g.built.numbered, g.counted);
    }

    pub grown-IsHistory : IsHistory (grown id a w ids r)
    grown-IsHistory = record {
      keyed = λ j d there. elim (get-put-cases id j a r.documents there) [
        | inl (same, new) ↦ ap (λ (x : Document). x.document_id) new ∙ g.keyed ∙ sym same
        | inr (other, old) ↦ history.keyed j d old
      ];
      owned = λ j js listing. elim (get-put-cases id j _ r.by_document listing) [
        | inl (same, new) ↦ (
          a,
          subst (λ k. get k (put id a r.documents) ≡ some a) (sym same)
              (get-put_self id a r.documents),
        )
        | inr (other, old) ↦
            let (d, there) = history.owned j js old in
            let (e, kept, _) = still j d there in (e, kept)
      ];
      story = λ j d there. elim (get-put-cases id j a r.documents there) [
        | inl (same, new) ↦
            subst (λ k. Story (grown id a w ids r) k d) (sym same)
              (subst (Story (grown id a w ids r) id) (sym new) grown-Story)
        | inr (other, old) ↦ other-Story j d other (history.story j d old)
      ];
      known = λ k v there. elim (get-put-cases w.revision_id k w r.revisions there) [
        | inl (same, new) ↦
            subst (λ j. Known (grown id a w ids r) j v) (sym same)
              (subst (Known (grown id a w ids r) w.revision_id) (sym new) new-Known)
        | inr (other, old) ↦ old-Known k v (history.known k v old)
      ];
    }
