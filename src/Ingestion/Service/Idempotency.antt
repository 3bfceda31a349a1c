-- ===== src/Ingestion/Service/Idempotency.antt =====
-- core/ingestion/service.py: a request id names one ingestion, however often it is used.
use master_all_strings.Prelude.{
  Bool, true, false, Option, none, some, Result, ok, err, ◌≡◌, refl, sym, ap, ◌∙◌, arith, Str_eq,
  inl, inr, Bool-cases, List, [], ◌∷◌, ok-injective, subst,
}
use master_all_strings.Prelude.Action.{after-Post}
use master_all_strings.Prelude.Dict.{get, put, get-put_ne, get-put_self}
use master_all_strings.Prelude.Int.{pos}
use master_all_strings.Prelude.Text.{Str, codes, str_eq, str_eq_sound, str_eq_refl}
use master_all_strings.Prelude.Strings.{Iso8601}
use master_all_strings.Score.Errors.{ScoreError, require_utc_timestamp}
use master_all_strings.Score.Tempo.{new_tempo_change}
use master_all_strings.Score.Provenance.{check_revision_provenance}
use master_all_strings.Score.Digest.{Hashing}
use master_all_strings.Score.Ids.{DocumentIdAuthority}
use master_all_strings.Score.Service.{create_document_with_revision}
use master_all_strings.Ingestion.Contracts.{Request, ImportOutcome}
use master_all_strings.Ingestion.Policy.{import_direct_events, resolution}
use master_all_strings.Ingestion.Results.{
  IngestionStatus, IngestionResult, accepted, partly_accepted, rejected, duplicate, is_some,
  is_nonempty, check_result, agrees,
}
use master_all_strings.Ingestion.Fingerprint.{RequestIdentity, identity_of, request_fingerprint}
use master_all_strings.Ingestion.Service.{
  Ingestion, Ingesting, IngestionError, contract, revising, attributed, provenance_of,
  submission_of, labels_of, accepted_result, duplicate_of, rejected_result, reasons_of,
  require_consistent, answer_duplicate, answer_rejected, create_from, ingest_new, ingest,
}
use master_all_strings.Ingestion.Service.Effects.{
  IsConsistent, Stable, reserve, ingest-Keeps, consistent,
}

-- A request that is made, and the time that its answer carries.
pub record Asked : Type 0 where
  pub request : Request
  pub completed_at : Str

module _ ⦃iso : Iso8601⦄ ⦃h : Hashing⦄ (authority : DocumentIdAuthority) where
  -- The service after a sequence of requests, each of which may have raised.
  unfoldable pub ingested_all : List Asked → Ingestion authority.State → Ingestion authority.State
  ingested_all [] s = s
  ingested_all (a ∷ as') s = ingested_all as' (ingest authority a.request a.completed_at s).1

  pub ingested_all-Keeps :
      (J : Ingestion authority.State → Type 0)
      → ((q : Request) → Stable J q)
      → (as' : List Asked) (s : Ingestion authority.State) → J s
      → J (ingested_all as' s)
  unfolding ingested_all
  ingested_all-Keeps J st [] s j = j
  ingested_all-Keeps J st (a ∷ as') s j =
      ingested_all-Keeps J st as' _
        (ingest-Keeps authority J a.request a.completed_at (st a.request) s j)

-- The id of `q` has the result `r`, and stands for `q`.
abbrev pub HasResult :
    ⦃h : Hashing⦄ → {S : Type 0} → Request → IngestionResult → Ingestion S → Type 0
HasResult q r s =
    (get q.request_id s.results ≡ some r) × IsConsistent (get q.request_id s.identities) q

-- A key that is there is not the one that is missing.
keys_differ :
    {V : Type 0} (k j : Str) (d : List (Str × V)) {v : V}
    → get k d ≡ none
    → get j d ≡ some v
    → str_eq k j ≡ false
keys_differ k j d missing there = elim (Bool-cases (str_eq k j)) [
  | inl same ↦ absurd (ground (arith, str_eq_sound k j same, missing, there))
  | inr other ↦ other
]

HasResult-Stable :
    ⦃h : Hashing⦄ {S : Type 0} (q : Request) (r : IngestionResult) (p : Request)
    → Stable {S = S} (HasResult q r) p
HasResult-Stable q r p = record {
  reserves = λ s new same j.
      let other = keys_differ p.request_id q.request_id s.results new j.0 in
      (
        j.0,
        subst (λ o. IsConsistent o q)
            (sym (get-put_ne p.request_id q.request_id (identity_of p) s.identities other)) j.1,
      );
  revises = λ s v j. j;
  records = λ s result new reserved j.
      let other = keys_differ p.request_id q.request_id s.results new j.0 in
      (get-put_ne p.request_id q.request_id result s.results other ∙ j.0, j.1);
}

-- `r` is an answer with a revision, which its constructor accepted, and the id of `q` has a result
-- that is the same but for its status, its time and its two flags.
pub record Settled ⦃iso : Iso8601⦄ ⦃h : Hashing⦄ {S : Type 0} (q : Request) (r : IngestionResult)
    (s : Ingestion S) : Type 0 where
  pub stored : IngestionResult
  pub has : HasResult q stored s
  pub alike : (time : Str) → duplicate_of stored time ≡ duplicate_of r time
  pub valid : check_result r ≡ ok tt

abbrev pub SettledBy :
    ⦃iso : Iso8601⦄
    → ⦃h : Hashing⦄ → {S : Type 0} → Request
    → Result IngestionError IngestionResult
    → Ingestion S
    → Type 0
SettledBy q answer s =
    (r : IngestionResult) → answer ≡ ok r → is_some r.revision_id ≡ true → Settled q r s

passes :
    (x : Result ScoreError (Unit {0})) {u : Unit {0}} → attributed contract x ≡ ok u → x ≡ ok tt
passes (ok tt) e = refl
passes (err e') e = cc

module _ ⦃iso : Iso8601⦄ ⦃h : Hashing⦄ (authority : DocumentIdAuthority) (q : Request)
    (completed_at : Str) where
  create_from-SettledBy :
      (outcome : ImportOutcome) (s : Ingestion authority.State)
      → IsConsistent (get q.request_id s.identities) q
      → SettledBy q
          (create_from authority q completed_at outcome s).0
          (create_from authority q completed_at outcome s).1
  unfolding create_from
  create_from-SettledBy outcome s same =
      after-Post (SettledBy q)
        (attributed contract (check_revision_provenance (provenance_of q outcome))) s _
        (λ _ _.
          after-Post (SettledBy q)
            (attributed contract
              (new_tempo_change (codes "1.0.0") (pos 0) (pos q.tempo_microseconds_per_quarter)))
            s _
            (λ tempo _.
              let call =
                create_document_with_revision authority (resolution q.ticks_per_quarter)
                  (submission_of q completed_at outcome tempo) (labels_of q) s.revisions in
              let t : Ingestion authority.State = record s { revisions = call.1 } in
              after-Post (SettledBy q) (attributed revising call.0) t _
                (λ creation _.
                  let result = accepted_result q completed_at outcome creation in
                  after-Post (SettledBy q) (attributed contract (check_result result)) t _
                    (λ _ passed r returned _.
                      subst
                        (λ x.
                          Settled q x (record t { results = put q.request_id result s.results }))
                        (ok-injective returned)
                        (record {
                          stored = result;
                          has = (get-put_self q.request_id result s.results, same);
                          alike = λ time. refl;
                          valid = passes (check_result result) passed;
                        }))
                    (λ e _ r raised _. cc))
                (λ e _ r raised _. cc))
            (λ e _ r raised _. cc))
        (λ e _ r raised _. cc)

  answer_duplicate-SettledBy :
      (existing : IngestionResult) (s : Ingestion authority.State)
      → HasResult q existing s
      → SettledBy q
          (answer_duplicate existing completed_at s).0
          (answer_duplicate existing completed_at s).1
  unfolding answer_duplicate
  answer_duplicate-SettledBy existing s there =
      after-Post (SettledBy q)
        (attributed contract (check_result (duplicate_of existing completed_at))) s _
        (λ _ passed r returned _.
          subst (λ x. Settled q x s) (ok-injective returned)
            (record {
              stored = existing;
              has = there;
              alike = λ time. refl;
              valid = passes (check_result (duplicate_of existing completed_at)) passed;
            }))
        (λ e _ r raised _. cc)

  answer_rejected-SettledBy :
      (outcome : ImportOutcome) (s : Ingestion authority.State)
      → SettledBy q
          (answer_rejected q completed_at (reasons_of outcome.rejections) s).0
          (answer_rejected q completed_at (reasons_of outcome.rejections) s).1
  unfolding answer_rejected
  answer_rejected-SettledBy outcome s =
      after-Post (SettledBy q)
        (attributed contract
          (check_result (rejected_result q completed_at (reasons_of outcome.rejections))))
        s _ (λ _ passed r returned revision. absurd (cc)) (λ e _ r raised _. cc)

  chosen-SettledBy :
      (b : Bool) (outcome : ImportOutcome) (s : Ingestion authority.State)
      → IsConsistent (get q.request_id s.identities) q
      → SettledBy q
          ((elim b as (λ _. Ingesting authority.State IngestionResult) [
            | true ↦ create_from authority q completed_at outcome
            | false ↦ answer_rejected q completed_at (reasons_of outcome.rejections)
          ])
            s).0
          ((elim b as (λ _. Ingesting authority.State IngestionResult) [
            | true ↦ create_from authority q completed_at outcome
            | false ↦ answer_rejected q completed_at (reasons_of outcome.rejections)
          ])
            s).1
  chosen-SettledBy true outcome s same = create_from-SettledBy outcome s same
  chosen-SettledBy false outcome s same = answer_rejected-SettledBy outcome s

  ingest_new-SettledBy :
      (s : Ingestion authority.State)
      → SettledBy q
          (ingest_new authority q completed_at s).0
          (ingest_new authority q completed_at s).1
  unfolding ingest_new
  ingest_new-SettledBy s =
      after-Post (SettledBy q) (attributed contract (import_direct_events q)) (reserve q s) _
        (λ outcome _. chosen-SettledBy (is_nonempty outcome.events) outcome (reserve q s) (
          subst (λ o. IsConsistent o q)
            (sym (get-put_self q.request_id (identity_of q) s.identities)) refl))
        (λ e _ r raised _. cc)

  answered-SettledBy :
      (o : Option IngestionResult) (s : Ingestion authority.State)
      → get q.request_id s.results ≡ o
      → IsConsistent (get q.request_id s.identities) q
      → SettledBy q
          ((elim o as (λ _. Ingesting authority.State IngestionResult) [
            | none ↦ ingest_new authority q completed_at
            | some existing ↦ answer_duplicate existing completed_at
          ])
            s).0
          ((elim o as (λ _. Ingesting authority.State IngestionResult) [
            | none ↦ ingest_new authority q completed_at
            | some existing ↦ answer_duplicate existing completed_at
          ])
            s).1
  answered-SettledBy none s new same = ingest_new-SettledBy s
  answered-SettledBy (some existing) s old same = answer_duplicate-SettledBy existing s (old, same)

  pub ingest-SettledBy :
      (s : Ingestion authority.State)
      → SettledBy q (ingest authority q completed_at s).0 (ingest authority q completed_at s).1
  unfolding ingest
  ingest-SettledBy s =
      after-Post (SettledBy q)
        (attributed contract (require_utc_timestamp completed_at "completed_at")) s _
        (λ _ _.
          after-Post (SettledBy q)
            (require_consistent (get q.request_id s.identities) (identity_of q)) s _
            (λ _ passed.
              answered-SettledBy (get q.request_id s.results) s refl (consistent _ q passed))
            (λ e _ r raised _. cc))
        (λ e _ r raised _. cc)

both_ids :
    (status : IngestionStatus) (r : IngestionResult) {u : Unit {0}}
    → agrees status r ≡ ok u
    → is_some r.revision_id ≡ true
    → is_some r.document_id ≡ true
unfolding agrees
both_ids accepted r e there = ground (arith, e, there)
both_ids partly_accepted r e there = ground (arith, e, there)
both_ids rejected r e there = ground (arith, e, there)
both_ids duplicate r e there = ground (arith, e, there)

duplicate_of-agrees :
    (r : IngestionResult) (time : Str)
    → is_some r.document_id ≡ true
    → is_some r.revision_id ≡ true
    → agrees duplicate (duplicate_of r time) ≡ ok tt
unfolding agrees
duplicate_of-agrees r time document revision = ground (arith, document, revision)

-- A result with a revision has a duplicate that its constructor accepts.
duplicate_of-valid :
    ⦃iso : Iso8601⦄ (r : IngestionResult) (time : Str)
    → check_result r ≡ ok tt
    → is_some r.revision_id ≡ true
    → require_utc_timestamp time "completed_at" ≡ ok tt
    → check_result (duplicate_of r time) ≡ ok tt
unfolding check_result
duplicate_of-valid r time e revision stamped =
    ground (arith, e, revision, stamped, both_ids r.status r {u = tt}, duplicate_of-agrees r time)

require_consistent-passes :
    ⦃h : Hashing⦄ (o : Option RequestIdentity) (q : Request)
    → IsConsistent o q
    → require_consistent o (identity_of q) ≡ ok tt
unfolding require_consistent
require_consistent-passes none q same = refl
require_consistent-passes (some i) q same = rw (same, str_eq_refl (request_fingerprint q))

module _ ⦃iso : Iso8601⦄ ⦃h : Hashing⦄ (authority : DocumentIdAuthority) where
  -- An id with a result is answered by a duplicate of it, and nothing changes.
  ingest-known :
      (q : Request) (time : Str) (r : IngestionResult) (s : Ingestion authority.State)
      → HasResult q r s
      → require_utc_timestamp time "completed_at" ≡ ok tt
      → check_result (duplicate_of r time) ≡ ok tt
      → ingest authority q time s ≡ (ok (duplicate_of r time), s)
  unfolding ingest answer_duplicate
  ingest-known q time r s (there, same) stamped passed =
      rw (stamped, require_consistent-passes (get q.request_id s.identities) q same, there, passed)

  -- A request that was answered with a revision, asked again after any other requests, is answered
  -- with the same result, marked as a duplicate and with the new time, and the service is left as it
  -- is: no document, no revision and no result is made.
  pub ingest-again :
      (q : Request) (completed_at : Str) (s : Ingestion authority.State) {r : IngestionResult}
      → (ingest authority q completed_at s).0 ≡ ok r
      → is_some r.revision_id ≡ true
      → (later : List Asked) (time : Str) → require_utc_timestamp time "completed_at" ≡ ok tt
      → let t = ingested_all authority later (ingest authority q completed_at s).1 in
        ingest authority q time t ≡ (ok (duplicate_of r time), t)
  ingest-again q completed_at s {r} answered revision later time stamped =
      let settled = ingest-SettledBy authority q completed_at s r answered revision in
      let t = ingested_all authority later (ingest authority q completed_at s).1 in
      let there =
        ingested_all-Keeps authority (HasResult q settled.stored)
          (HasResult-Stable q settled.stored) later _ settled.has in
      let valid = duplicate_of-valid r time settled.valid revision stamped in
      subst (λ x. ingest authority q time t ≡ (ok x, t)) (settled.alike time)
        (ingest-known q time settled.stored t there stamped
          (ap check_result (settled.alike time) ∙ valid))
