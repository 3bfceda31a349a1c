-- ===== src/Ingestion/Service/Conflicts.antt =====
-- core/ingestion/service.py: a request id that is used for two ingestions.
use master_all_strings.Prelude.{
  Option, none, some, ok, err, ◌≡◌, refl, sym, ap, ◌∙◌, ◌≢◌, Str_eq, inl, inr, Bool-cases, List, [],
  subst,
}
use master_all_strings.Prelude.Action.{after-Post}
use master_all_strings.Prelude.Dict.{get, put, get-put_ne, get-put_self}
use master_all_strings.Prelude.Text.{Str, str_eq, str_eq_sound}
use master_all_strings.Prelude.Strings.{Iso8601}
use master_all_strings.Score.Errors.{require_utc_timestamp}
use master_all_strings.Score.Digest.{Hashing}
use master_all_strings.Score.Ids.{DocumentIdAuthority}
use master_all_strings.Score.Service.{Service}
use master_all_strings.Ingestion.Contracts.{Request}
use master_all_strings.Ingestion.Results.{IngestionResult}
use master_all_strings.Ingestion.Fingerprint.{
  RequestIdentity, identity_of, request_fingerprint, fingerprint_fields, differing_fields,
}
use master_all_strings.Ingestion.Service.{
  Ingestion, Ingesting, ingest_new, answer_duplicate, idempotency_conflict, contract, attributed,
  require_consistent, ingest,
}
use master_all_strings.Ingestion.Service.Effects.{
  IsConsistent, Stable, consistent, ingest_new-keeps, answer_duplicate-Keeps,
}
use master_all_strings.Ingestion.Service.Idempotency.{Asked, ingested_all, ingested_all-Keeps}

-- Every id that has a result is reserved.
abbrev AllReserved : {S : Type 0} → Ingestion S → Type 0
AllReserved s =
    (id : Str) (r : IngestionResult)
    → get id s.results ≡ some r
    → (i : RequestIdentity) × (get id s.identities ≡ some i)

AllReserved-Stable :
    ⦃h : Hashing⦄ {S : Type 0} (p : Request) → Stable {S = S} (AllReserved {S = S}) p
AllReserved-Stable p = record {
  reserves = λ s new same j id r there. elim (Bool-cases (str_eq p.request_id id)) [
    | inl equal ↦ absurd (cc (str_eq_sound p.request_id id equal, new, there))
    | inr other ↦ (
      (j id r there).0,
      get-put_ne p.request_id id (identity_of p) s.identities other ∙ (j id r there).1,
    )
  ];
  revises = λ s v j. j;
  records = λ s result new reserved j id r there. elim (Bool-cases (str_eq p.request_id id)) [
    | inl equal ↦ (
      identity_of p,
      subst (λ x. get x s.identities ≡ some (identity_of p)) (str_eq_sound _ id equal) reserved,
    )
    | inr other ↦ j id r (sym (get-put_ne p.request_id id result s.results other) ∙ there)
  ];
}

-- The id of `q` stands for what `q` asks.
abbrev ReservedFor : ⦃h : Hashing⦄ → {S : Type 0} → Request → Ingestion S → Type 0
ReservedFor q s =
    (i : RequestIdentity) × (get q.request_id s.identities ≡ some i)
    × (i.fingerprint ≡ request_fingerprint q)

ReservedFor-Stable : ⦃h : Hashing⦄ {S : Type 0} (q p : Request) → Stable {S = S} (ReservedFor q) p
ReservedFor-Stable q p = record {
  reserves = λ s new same j. elim (Bool-cases (str_eq p.request_id q.request_id)) [
    | inl equal ↦
        let there =
          subst (λ x. get x s.identities ≡ some j.0)
            (sym (str_eq_sound p.request_id q.request_id equal)) j.1 in
        (
          identity_of p,
          subst (λ x. get x (put p.request_id (identity_of p) s.identities) ≡ some (identity_of p))
              (str_eq_sound p.request_id q.request_id equal)
              (get-put_self p.request_id (identity_of p) s.identities),
          sym (subst (λ o. IsConsistent o p) there same) ∙ j.2,
        )
    | inr other ↦
        (j.0, get-put_ne p.request_id q.request_id (identity_of p) s.identities other ∙ j.1, j.2)
  ];
  revises = λ s v j. j;
  records = λ s result new reserved j. j;
}

module _ ⦃iso : Iso8601⦄ ⦃h : Hashing⦄ (authority : DocumentIdAuthority) (q : Request)
    (completed_at : Str) where
  reserved :
      (o : Option IngestionResult) (s : Ingestion authority.State)
      → get q.request_id s.results ≡ o
      → IsConsistent (get q.request_id s.identities) q
      → AllReserved s
      → ReservedFor q
          ((elim o as (λ _. Ingesting authority.State IngestionResult) [
            | none ↦ ingest_new authority q completed_at
            | some existing ↦ answer_duplicate existing completed_at
          ])
            s).1
  reserved none s new same all =
      ingest_new-keeps authority (ReservedFor q) q completed_at (ReservedFor-Stable q q) s new
        (identity_of q, get-put_self q.request_id (identity_of q) s.identities, refl)
  reserved (some r) s old same all =
      let there = all q.request_id r old in
      answer_duplicate-Keeps authority (ReservedFor q) q completed_at (ReservedFor-Stable q q) r s
        (there.0, there.1, subst (λ o. IsConsistent o q) there.1 same)

  -- Whoever gets an answer, a rejection too, has reserved the id.
  ingest-ReservedFor :
      (s : Ingestion authority.State)
      → AllReserved s
      → {r : IngestionResult} → (ingest authority q completed_at s).0 ≡ ok r
      → ReservedFor q (ingest authority q completed_at s).1
  unfolding ingest
  ingest-ReservedFor s all {r} =
      after-Post (λ answer t. answer ≡ ok r → ReservedFor q t)
        (attributed contract (require_utc_timestamp completed_at "completed_at")) s _
        (λ _ _.
          after-Post (λ answer t. answer ≡ ok r → ReservedFor q t)
            (require_consistent (get q.request_id s.identities) (identity_of q)) s _
            (λ _ passed _. reserved (get q.request_id s.results) s refl (consistent _ q passed) all)
            (λ e _ raised. cc))
        (λ e _ raised. cc)

  ingest-taken :
      (s : Ingestion authority.State) (i : RequestIdentity)
      → get q.request_id s.identities ≡ some i
      → i.fingerprint ≢ request_fingerprint q
      → require_utc_timestamp completed_at "completed_at" ≡ ok tt
      → ingest authority q completed_at s
        ≡ (err (idempotency_conflict (differing_fields (fingerprint_fields q) i.fields)), s)
  unfolding ingest require_consistent
  ingest-taken s i there differs stamped =
      elim (Bool-cases (str_eq i.fingerprint (request_fingerprint q))) [
        | inl equal ↦ absurd (differs (str_eq_sound i.fingerprint (request_fingerprint q) equal))
        | inr unequal ↦ rw (stamped, there, unequal)
      ]

abbrev pub new_ingestion : {S : Type 0} → Service S → Ingestion S
new_ingestion revisions = record { revisions = revisions; results = []; identities = [] }

none_AllReserved : {S : Type 0} (revisions : Service S) → AllReserved (new_ingestion revisions)
unfolding get
none_AllReserved revisions id r there = cc

module _ ⦃iso : Iso8601⦄ ⦃h : Hashing⦄ (authority : DocumentIdAuthority) where
  -- Once a new service has answered a request, be it by a rejection, the id is taken: another request
  -- under it that has a different fingerprint raises the conflict, with the fields in which it differs
  -- from an identity that has the fingerprint of the first, and changes nothing, whatever was asked
  -- before and in between.
  pub ingest-conflict :
      (revisions : Service authority.State) (before : List Asked) (q : Request) (completed_at : Str)
      {r : IngestionResult}
      → let s = ingested_all authority before (new_ingestion revisions) in
        (ingest authority q completed_at s).0 ≡ ok r
        → (later : List Asked) (other : Request) (time : Str) → other.request_id ≡ q.request_id
        → request_fingerprint q ≢ request_fingerprint other
        → require_utc_timestamp time "completed_at" ≡ ok tt
        → let t = ingested_all authority later (ingest authority q completed_at s).1 in
          (i : RequestIdentity) × (i.fingerprint ≡ request_fingerprint q)
          × (ingest authority other time t ≡ (
            err (idempotency_conflict (differing_fields (fingerprint_fields other) i.fields)),
            t,
          ))
  ingest-conflict revisions before q completed_at answered later other time same differs stamped =
      let s = ingested_all authority before (new_ingestion revisions) in
      let all =
        ingested_all-Keeps authority AllReserved AllReserved-Stable before _
          (none_AllReserved revisions) in
      let taken =
        ingested_all-Keeps authority (ReservedFor q) (ReservedFor-Stable q) later _
          (ingest-ReservedFor authority q completed_at s all answered) in
      (
        taken.0,
        taken.2,
        ingest-taken authority other time _ taken.0
            (ap
                (λ x.
                  get x
                    (ingested_all authority later (ingest authority q completed_at s).1).identities)
                same
              ∙ taken.1)
            (λ equal. differs (sym taken.2 ∙ equal)) stamped,
      )
