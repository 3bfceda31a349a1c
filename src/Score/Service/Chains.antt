-- ===== src/Score/Service/Chains.antt =====
-- core/score/revision_service.py: the chain of a document's revisions, and growing it by one.
use master_all_strings.Prelude.{
  ℕ, suc, ◌+◌, ◌≤◌, arith, List, [], ◌∷◌, ◌++◌, false, Option, none, some, ok, ◌≡◌, refl, sym, ap,
  ◌∙◌, ◌⊎◌, inl, inr, Bool-cases, Str_eq, length, All, subst,
}
use master_all_strings.Prelude.Dict.{Dict, get, put, get-put, get-put_ne, get-put_self}
use master_all_strings.Prelude.Text.{Str, str_eq, str_eq_sound}
use master_all_strings.Prelude.Json.{IsScalar}
use master_all_strings.Score.Models.{Document, Revision}
use master_all_strings.Score.Digest.{Hashing, content_of, serialize_revision_content}
use master_all_strings.Score.Repository.{Repository}
use master_all_strings.Score.Repository.Links.{IsLinked, Resolved, some_injective}

-- What stands under a key after `put`: the new value, or what stood there.
pub get-put-cases :
    {V : Type 0} (k j : Str) (v : V) (d : Dict Str V) {x : V}
    → get j (put k v d) ≡ some x
    → ((j ≡ k) × (x ≡ v)) ⊎ ((str_eq k j ≡ false) × (get j d ≡ some x))
get-put-cases k j v d h = elim (Bool-cases (str_eq k j)) [
  | inl same ↦ inl (sym (str_eq_sound k j same), ground (arith, get-put k j v d, same, h))
  | inr other ↦ inr (other, sym (get-put_ne k j v d other) ∙ h)
]

-- A revision of a document with its number and its parent.
abbrev pub IsLink : Str → Option Str → ℕ → Revision → Type 0
IsLink document_id parent n v =
    (v.document_id ≡ document_id) × (v.revision_number ≡ n) × (v.parent_revision_id ≡ parent)

-- The listed revisions are stored, numbered without gaps, and each is the parent of the next.
abbrev pub Chain : Dict Str Revision → Str → Option Str → ℕ → List Str → Type 0
Chain revisions document_id parent n [] = Unit
Chain revisions document_id parent n (id ∷ ids) =
    ((v : Revision) × (get id revisions ≡ some v) × IsLink document_id parent n v)
    × Chain revisions document_id (some id) (suc n) ids

-- The last id of a chain, or the parent of an empty one.
abbrev pub last_of : Option Str → List Str → Option Str
last_of parent [] = parent
last_of parent (id ∷ ids) = last_of (some id) ids

pub last_of-snoc :
    (parent : Option Str) (ids : List Str) (k : Str) → last_of parent (ids ++ k ∷ []) ≡ some k
last_of-snoc parent [] k = refl
last_of-snoc parent (id ∷ ids) k = last_of-snoc (some id) ids k

module _ (k : Str) (w : Revision) (revisions : Dict Str Revision)
    (unused : get k revisions ≡ none) where
  -- A revision under a new id disturbs none that is stored.
  pub get-unused :
      (j : Str) (v : Revision) → get j revisions ≡ some v → get j (put k w revisions) ≡ some v
  get-unused j v there = elim (Bool-cases (str_eq k j)) [
    | inl same ↦ ground (arith, str_eq_sound k j same, unused, there)
    | inr other ↦ get-put_ne k j w revisions other ∙ there
  ]

  pub Chain-put :
      (document_id : Str) (parent : Option Str) (n : ℕ) (ids : List Str)
      → Chain revisions document_id parent n ids
      → Chain (put k w revisions) document_id parent n ids
  Chain-put document_id parent n [] h = tt
  Chain-put document_id parent n (id ∷ ids) ((v, there, link), rest) =
      ((v, get-unused id v there, link), Chain-put document_id (some id) (suc n) ids rest)

  pub Chain-snoc :
      (document_id : Str) (parent : Option Str) (n : ℕ) (ids : List Str)
      → Chain revisions document_id parent n ids
      → IsLink document_id (last_of parent ids) (n + length ids) w
      → Chain (put k w revisions) document_id parent n (ids ++ k ∷ [])
  Chain-snoc document_id parent n [] h (owner, number, follows) =
      ((w, get-put_self k w revisions, (owner, number ∙ omega arith, follows)), tt)
  Chain-snoc document_id parent n (id ∷ ids) ((v, there, link), rest) (owner, number, follows) = (
    (v, get-unused id v there, link),
    Chain-snoc document_id (some id) (suc n) ids rest (owner, number ∙ omega arith, follows),
  )

-- The last revision of a chain has the last number.
pub Chain-last :
    (revisions : Dict Str Revision) (document_id : Str) (parent : Option Str) (n : ℕ) (x : Str)
    (ids : List Str) (k : Str) (p : Revision)
    → Chain revisions document_id parent n (x ∷ ids)
    → last_of (some x) ids ≡ some k
    → get k revisions ≡ some p
    → p.revision_number + 1 ≡ n + length (x ∷ ids)
Chain-last revisions document_id parent n x [] k p ((v, there, (owner, number, follows)), rest) last
      found =
    let same : x ≡ k = some_injective last in
    let one : v ≡ p = some_injective (sym there ∙ ap (λ j. get j revisions) same ∙ found) in
    omega (arith, ap (λ (u : Revision). u.revision_number) one, number)
Chain-last revisions document_id parent n x (y ∷ ids) k p (first, rest) last found =
    omega (arith, Chain-last revisions document_id (some x) (suc n) y ids k p rest last found)

-- Every revision of a chain is stored.
pub Chain-Resolved :
    (revisions : Dict Str Revision) (document_id : Str) (parent : Option Str) (n : ℕ)
    (ids : List Str)
    → Chain revisions document_id parent n ids
    → All (Resolved revisions) ids
Chain-Resolved revisions document_id parent n [] h = tt
Chain-Resolved revisions document_id parent n (id ∷ ids) ((v, there, link), rest) =
    ((v, there), Chain-Resolved revisions document_id (some id) (suc n) ids rest)

-- The history of a stored document: its list is a chain from number 1, of as many revisions as the
-- document counts, and the document points at the last of them.
pub record Story (r : Repository) (id : Str) (d : Document) : Type 0 where
  pub ids : List Str
  pub listing : get id r.by_document ≡ some ids
  pub chain : Chain r.revisions id none 1 ids
  pub counted : length ids ≡ d.revision_count
  pub points : last_of none ids ≡ some d.current_revision_id

-- A stored revision: its id, the digest of its own content, and the document that counts it.
pub record Known ⦃h : Hashing⦄ (r : Repository) (id : Str) (v : Revision) : Type 0 where
  pub keyed : v.revision_id ≡ id
  pub plain : All IsScalar v.document_id
  pub text : Str
  pub serialized : serialize_revision_content (content_of v) ≡ ok text
  pub digested : v.content_digest ≡ h.sha256 text
  pub document : Document
  pub there : get v.document_id r.documents ≡ some document
  pub counted : v.revision_number ≤ document.revision_count

pub record IsHistory ⦃h : Hashing⦄ (r : Repository) : Type 0 where
  pub keyed : (id : Str) (d : Document) → get id r.documents ≡ some d → d.document_id ≡ id
  pub owned :
      (id : Str) (ids : List Str)
      → get id r.by_document ≡ some ids
      → (d : Document) × (get id r.documents ≡ some d)
  pub story : (id : Str) (d : Document) → get id r.documents ≡ some d → Story r id d
  pub known : (id : Str) (v : Revision) → get id r.revisions ≡ some v → Known r id v

pub IsHistory-IsLinked : ⦃h : Hashing⦄ (r : Repository) → IsHistory r → IsLinked r
IsHistory-IsLinked r history = record {
  is_listed = λ id d there. let s = history.story id d there in (s.ids, s.listing);
  resolves = λ id ids listing.
      let (d, there) = history.owned id ids listing in
      let s = history.story id d there in
      subst (All (Resolved r.revisions)) (some_injective (sym s.listing ∙ listing))
        (Chain-Resolved r.revisions id none 1 s.ids s.chain);
}
