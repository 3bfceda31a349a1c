-- ===== src/Ingestion/Service/Effects.antt =====
-- core/ingestion/service.py: what every request keeps, whichever way it is answered.
use master_all_strings.Prelude.{Bool, true, false, Option, none, some, ok, ◌≡◌, refl, arith, Str_eq}
use master_all_strings.Prelude.Action.{Keeps, leads-lift, after-Post}
use master_all_strings.Prelude.Dict.{get, put, get-put_self}
use master_all_strings.Prelude.Int.{pos}
use master_all_strings.Prelude.Text.{Str, codes, str_eq_sound}
use master_all_strings.Prelude.Strings.{Iso8601}
use master_all_strings.Score.Errors.{require_utc_timestamp}
use master_all_strings.Score.Tempo.{new_tempo_change}
use master_all_strings.Score.Provenance.{check_revision_provenance}
use master_all_strings.Score.Digest.{Hashing}
use master_all_strings.Score.Ids.{DocumentIdAuthority}
use master_all_strings.Score.Service.{Service, create_document_with_revision}
use master_all_strings.Ingestion.Contracts.{Request, ImportOutcome}
use master_all_strings.Ingestion.Policy.{import_direct_events, resolution}
use master_all_strings.Ingestion.Results.{IngestionResult, is_nonempty, check_result}
use master_all_strings.Ingestion.Fingerprint.{RequestIdentity, identity_of, request_fingerprint}
use master_all_strings.Ingestion.Service.{
  Ingestion, Ingesting, contract, revising, attributed, provenance_of, submission_of, labels_of,
  accepted_result, duplicate_of, rejected_result, reasons_of, require_consistent, answer_duplicate,
  answer_rejected, create_from, ingest_new, ingest,
}

-- The identity that was seen before has the fingerprint of the request.
abbrev pub IsConsistent : ⦃h : Hashing⦄ → Option RequestIdentity → Request → Type 0
IsConsistent none q = Unit
IsConsistent (some i) q = i.fingerprint ≡ request_fingerprint q

abbrev pub reserve : ⦃h : Hashing⦄ → {S : Type 0} → Request → Ingestion S → Ingestion S
reserve q s = record s { identities = put q.request_id (identity_of q) s.identities }

-- The three ways in which a request changes the service, each of which keeps `J`: its id is reserved,
-- the revision service is called, and its result is recorded. The first and the last
-- are for an id that has no result, and the last for an id that is reserved.
pub record Stable ⦃h : Hashing⦄ {S : Type 0} (J : Ingestion S → Type 0) (q : Request) : Type 0 where
  pub reserves :
      (s : Ingestion S)
      → get q.request_id s.results ≡ none
      → IsConsistent (get q.request_id s.identities) q
      → J s
      → J (reserve q s)
  pub revises : (s : Ingestion S) (v : Service S) → J s → J (record s { revisions = v })
  pub records :
      (s : Ingestion S) (r : IngestionResult)
      → get q.request_id s.results ≡ none
      → get q.request_id s.identities ≡ some (identity_of q)
      → J s
      → J (record s { results = put q.request_id r s.results })

pub consistent :
    ⦃h : Hashing⦄ (o : Option RequestIdentity) (q : Request) {u : Unit {0}}
    → require_consistent o (identity_of q) ≡ ok u
    → IsConsistent o q
unfolding require_consistent
consistent none q passed = tt
consistent (some i) q passed =
    str_eq_sound i.fingerprint (request_fingerprint q) (ground (arith, passed))

module _ ⦃iso : Iso8601⦄ ⦃h : Hashing⦄ (authority : DocumentIdAuthority)
    (J : Ingestion authority.State → Type 0) (q : Request) (completed_at : Str)
    (st : Stable J q) where
  pub answer_duplicate-Keeps : (r : IngestionResult) → Keeps J (answer_duplicate r completed_at)
  unfolding answer_duplicate
  answer_duplicate-Keeps r s j =
      leads-lift J (attributed contract (check_result (duplicate_of r completed_at))) _ s j
        (λ _ _. j)

  answer_rejected-Keeps :
      (outcome : ImportOutcome)
      → Keeps J (answer_rejected q completed_at (reasons_of outcome.rejections))
  unfolding answer_rejected
  answer_rejected-Keeps outcome s j =
      leads-lift J
        (attributed contract
          (check_result (rejected_result q completed_at (reasons_of outcome.rejections))))
        _ s j (λ _ _. j)

  create_from-keeps :
      (outcome : ImportOutcome) (s : Ingestion authority.State)
      → get q.request_id s.results ≡ none
      → get q.request_id s.identities ≡ some (identity_of q)
      → J s
      → J (create_from authority q completed_at outcome s).1
  unfolding create_from
  create_from-keeps outcome s new reserved j =
      leads-lift J (attributed contract (check_revision_provenance (provenance_of q outcome))) _ s j
        (λ _ _.
          leads-lift J
            (attributed contract
              (new_tempo_change (codes "1.0.0") (pos 0) (pos q.tempo_microseconds_per_quarter)))
            _ s j
            (λ tempo _.
              let call =
                create_document_with_revision authority (resolution q.ticks_per_quarter)
                  (submission_of q completed_at outcome tempo) (labels_of q) s.revisions in
              let t : Ingestion authority.State = record s { revisions = call.1 } in
              after-Post (λ _ t. J t) (attributed revising call.0) t _
                (λ creation _.
                  leads-lift J
                    (attributed contract
                      (check_result (accepted_result q completed_at outcome creation)))
                    _ t (st.revises s call.1 j)
                    (λ _ _.
                      st.records t (accepted_result q completed_at outcome creation) new reserved
                        (st.revises s call.1 j)))
                (λ e _. st.revises s call.1 j)))

  chosen :
      (b : Bool) (outcome : ImportOutcome) (s : Ingestion authority.State)
      → get q.request_id s.results ≡ none
      → get q.request_id s.identities ≡ some (identity_of q)
      → J s
      → J
          ((elim b as (λ _. Ingesting authority.State IngestionResult) [
            | true ↦ create_from authority q completed_at outcome
            | false ↦ answer_rejected q completed_at (reasons_of outcome.rejections)
          ])
            s).1
  chosen true outcome s new reserved j = create_from-keeps outcome s new reserved j
  chosen false outcome s new reserved j = answer_rejected-Keeps outcome s j

  pub ingest_new-keeps :
      (s : Ingestion authority.State)
      → get q.request_id s.results ≡ none
      → J (reserve q s)
      → J (ingest_new authority q completed_at s).1
  unfolding ingest_new
  ingest_new-keeps s new j =
      leads-lift J (attributed contract (import_direct_events q)) _ (reserve q s) j (λ outcome _.
        chosen (is_nonempty outcome.events) outcome (reserve q s) new
          (get-put_self q.request_id (identity_of q) s.identities) j)

  answered :
      (o : Option IngestionResult) (s : Ingestion authority.State)
      → get q.request_id s.results ≡ o
      → IsConsistent (get q.request_id s.identities) q
      → J s
      → J
          ((elim o as (λ _. Ingesting authority.State IngestionResult) [
            | none ↦ ingest_new authority q completed_at
            | some existing ↦ answer_duplicate existing completed_at
          ])
            s).1
  answered none s new same j = ingest_new-keeps s new (st.reserves s new same j)
  answered (some r) s old same j = answer_duplicate-Keeps r s j

  pub ingest-Keeps : Keeps J (ingest authority q completed_at)
  unfolding ingest
  ingest-Keeps s j =
      leads-lift J (attributed contract (require_utc_timestamp completed_at "completed_at")) _ s j
        (λ _ _.
          leads-lift J (require_consistent (get q.request_id s.identities) (identity_of q)) _ s j
            (λ _ passed. answered (get q.request_id s.results) s refl (consistent _ q passed) j))
