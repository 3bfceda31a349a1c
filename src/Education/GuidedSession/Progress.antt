-- ===== src/Education/GuidedSession/Progress.antt =====
-- education/guided_session_service.py: what each call that succeeds does.
use master_all_strings.Prelude.{
  ℕ, List, [], ◌∷◌, ◌++◌, true, Option, none, some, ok, require, ◌>>=◌, >>=-elim, Result-cases,
  length, nat_eq, ◌≡◌, refl, ap, subst, arith, inl, inr,
}
use master_all_strings.Prelude.Text.{Str, codes}
use master_all_strings.Score.Digest.{Hashing}
use master_all_strings.Education.Actions.{PracticeNextAction, PracticeNextActionType}
use master_all_strings.Education.GuidedSession.{
  GuidedPracticeSessionStatus, awaiting_action, awaiting_attempt, transitioned,
  GuidedPracticeActionDisposition, pending, accepted, declined, GuidedPracticeExecutionStatus,
  not_requested, awaited, succeeded, failed, unsupported, GuidedPracticeContext,
  GuidedPracticeAction, GuidedPracticeAttempt, GuidedPracticeSession, Lowercase, new_attempt,
  new_action,
}
use master_all_strings.Education.GuidedSession.Digest.{append_attempt, or_else}
use master_all_strings.Education.GuidedSession.Rules.{
  PracticeEvaluationResult, TeachingGuidanceProjection, with_last, current_attempt, default_context,
  same_status, status_after, is_open, recorded_action, require_accepted, require_reportable,
  provenance_with, is_awaited,
}
use master_all_strings.Education.GuidedSession.Service.{
  attempt_from_evidence, append_evaluated_attempt, record_action_disposition,
  record_action_execution, transition_session, resolve, with_action, replace_current_attempt,
}
use master_all_strings.Education.GuidedSession.Phases.{in_phase}
use master_all_strings.Education.GuidedSession.Effects.{
  IsSealed, replaced-IsSealed, replace_current_attempt-IsSealed, with_action-action,
}

abbrev transition_entries : GuidedPracticeSession → Str → Str → Str → List (Str × Str)
transition_entries s assignment content reason = provenance_with s.provenance (
    (codes "transition_reason", reason)
    ∷ (codes "next_assignment_id", assignment)
    ∷ (codes "next_content_id", content)
    ∷ [])

module _ ⦃l : Lowercase⦄ ⦃h : Hashing⦄ where
  attempt_from_evidence-pending :
      (e : PracticeEvaluationResult) (g : TeachingGuidanceProjection) (id : Str) (index : ℕ)
      (context : GuidedPracticeContext) {x : GuidedPracticeAttempt}
      → attempt_from_evidence e g id index context ≡ ok x
      → x.action ≡ record {
        recommended_action = g.next_action;
        action_disposition = pending;
        execution_status = not_requested;
        executed_action = none;
      }
  unfolding attempt_from_evidence new_action new_attempt
  attempt_from_evidence-pending e g id index context made = ground (arith, made)

  -- An attempt that was just made goes with a session that awaits an action.
  pub made-in_phase :
      (e : PracticeEvaluationResult) (g : TeachingGuidanceProjection) (id : Str) (index : ℕ)
      (context : GuidedPracticeContext) {x : GuidedPracticeAttempt}
      → attempt_from_evidence e g id index context ≡ ok x
      → in_phase awaiting_action x.action ≡ true
  unfolding same_status
  made-in_phase e g id index context made =
      ap (in_phase awaiting_action) (attempt_from_evidence-pending e g id index context made)

  -- An append that succeeds: what it found, and the attempt that it made.
  pub record IsGrowth (s : GuidedPracticeSession) (e : PracticeEvaluationResult)
      (g : TeachingGuidanceProjection) (id : Str) (context : GuidedPracticeContext)
      (t : GuidedPracticeSession) : Type 0 where
    pub attempt : GuidedPracticeAttempt
    pub waiting : same_status s.status awaiting_attempt ≡ true
    pub made : attempt_from_evidence e g id (length s.attempts) context ≡ ok attempt
    pub sealed :
        IsSealed
          (record s {
            attempts = s.attempts ++ attempt ∷ [];
            current_attempt_index = some attempt.attempt_index;
            status = awaiting_action;
          })
          t

  append_attempt-IsSealed :
      (s : GuidedPracticeSession) (x : GuidedPracticeAttempt) (status : GuidedPracticeSessionStatus)
      {t : GuidedPracticeSession}
      → append_attempt s x (some status) ≡ ok t
      → IsSealed
          (record s {
            attempts = s.attempts ++ x ∷ [];
            current_attempt_index = some x.attempt_index;
            status = status;
          })
          t
  unfolding append_attempt
  append_attempt-IsSealed s x status e =
      >>=-elim (require (nat_eq x.attempt_index (length s.attempts)) _) _ e (λ _ _ rest.
        replaced-IsSealed
          (record s {
            attempts = s.attempts ++ x ∷ [];
            current_attempt_index = some x.attempt_index;
            status = status;
          })
          rest)

  pub append-IsGrowth :
      (s : GuidedPracticeSession) (e : PracticeEvaluationResult) (g : TeachingGuidanceProjection)
      (id : Str) (index : Option ℕ) (context : Option GuidedPracticeContext)
      {t : GuidedPracticeSession}
      → append_evaluated_attempt s e g id index context ≡ ok t
      → IsGrowth s e g id (or_else context default_context) t
  unfolding append_evaluated_attempt
  append-IsGrowth s e g id index context {t} done =
      elim (Result-cases
        (attempt_from_evidence e g id (length s.attempts) (or_else context default_context))) [
          | inl (x, made) ↦ record {
            attempt = x;
            waiting = ground (arith, done);
            made = made;
            sealed =
                append_attempt-IsSealed s x awaiting_action {t = t} (ground (arith, done, made));
          }
          | inr (raised, refused) ↦ ground (arith, done, refused)
        ]

  -- A call that succeeds in changing the action of the current attempt of a session that awaits one.
  pub record IsAnswer (s t : GuidedPracticeSession) : Type 0 where
    pub current : GuidedPracticeAttempt
    pub action : GuidedPracticeAction
    pub status : GuidedPracticeSessionStatus
    pub found : current_attempt s ≡ ok current
    pub waiting : same_status s.status awaiting_action ≡ true
    pub phase : in_phase status action ≡ true
    pub sealed :
        IsSealed
          (record s {
            attempts = with_last s.attempts (record current { action = action });
            status = status;
          })
          t

  answered :
      (s : GuidedPracticeSession) (current : GuidedPracticeAttempt) (action : GuidedPracticeAction)
      (status : GuidedPracticeSessionStatus) {t : GuidedPracticeSession}
      → current_attempt s ≡ ok current
      → same_status s.status awaiting_action ≡ true
      → in_phase status action ≡ true
      → (with_action current action >>= λ updated. replace_current_attempt s updated status) ≡ ok t
      → IsAnswer s t
  answered s current action status {t} found waiting phase e =
      >>=-elim (with_action current action) _ e (λ x made rest. record {
        current = current;
        action = action;
        status = status;
        found = found;
        waiting = waiting;
        phase = phase;
        sealed =
            subst
              (λ y. IsSealed (record s { attempts = with_last s.attempts y; status = status }) t)
              (with_action-action current action made)
              (replace_current_attempt-IsSealed s x status rest);
      })

  resolve-IsAnswer :
      (s : GuidedPracticeSession) (current : GuidedPracticeAttempt)
      (disposition : GuidedPracticeActionDisposition) {t : GuidedPracticeSession}
      → current_attempt s ≡ ok current
      → same_status s.status awaiting_action ≡ true
      → resolve s current disposition ≡ ok t
      → IsAnswer s t
  unfolding resolve same_status
  resolve-IsAnswer s current pending found waiting e = ground (arith, e)
  resolve-IsAnswer s current declined found waiting e =
      answered s current
        (record current.action {
          action_disposition = declined;
          execution_status = not_requested;
          executed_action = none;
        })
        awaiting_attempt found waiting refl e
  resolve-IsAnswer s current accepted found waiting e =
      answered s current
        (record current.action {
          action_disposition = accepted;
          execution_status = awaited;
          executed_action = none;
        })
        awaiting_action found waiting refl e

  pub dispose-IsAnswer :
      (s : GuidedPracticeSession) (disposition : GuidedPracticeActionDisposition)
      {t : GuidedPracticeSession}
      → record_action_disposition s disposition ≡ ok t
      → IsAnswer s t
  unfolding record_action_disposition
  dispose-IsAnswer s disposition {t} e = elim (Result-cases (current_attempt s)) [
    | inl (current, found) ↦
        resolve-IsAnswer s current disposition {t = t} found (ground (arith, e))
          (ground (arith, e, found))
    | inr (raised, refused) ↦ ground (arith, e, refused)
  ]

  -- A report that may be made goes with the status that follows it.
  reported-in_phase :
      (a : GuidedPracticeAction) (execution : GuidedPracticeExecutionStatus)
      (recorded : Option PracticeNextAction) {u v : Unit {0}}
      → require_accepted a.action_disposition ≡ ok u
      → require_reportable execution a.recommended_action.action_type ≡ ok v
      → in_phase
          (status_after execution a.recommended_action.action_type)
          (record a { execution_status = execution; executed_action = recorded })
        ≡ true
  unfolding require_accepted require_reportable status_after same_status
  reported-in_phase a execution recorded accepts reports =
      by_both a.action_disposition execution a.recommended_action.action_type accepts reports
    where
      by_both :
          (d : GuidedPracticeActionDisposition) (x : GuidedPracticeExecutionStatus)
          (kind : PracticeNextActionType) {u v : Unit {0}}
          → require_accepted d ≡ ok u
          → require_reportable x kind ≡ ok v
          → in_phase (status_after x kind) (record a {
            action_disposition = d;
            recommended_action = record a.recommended_action { action_type = kind };
            execution_status = x;
            executed_action = recorded;
          })
            ≡ true
      by_both pending x kind h k = ground (arith, h)
      by_both declined x kind h k = ground (arith, h)
      by_both accepted not_requested kind h k = ground (arith, k)
      by_both accepted awaited kind h k = ground (arith, k)
      by_both accepted succeeded kind h k = ground arith
      by_both accepted failed kind h k = refl
      by_both accepted unsupported kind h k = refl

  pub execute-IsAnswer :
      (s : GuidedPracticeSession) (execution : GuidedPracticeExecutionStatus)
      (executed : Option PracticeNextAction) {t : GuidedPracticeSession}
      → record_action_execution s execution executed ≡ ok t
      → IsAnswer s t
  unfolding record_action_execution
  execute-IsAnswer s execution executed e = >>=-elim (current_attempt s) _ e (λ current found e1.
      >>=-elim (require_accepted current.action.action_disposition) _ e1 (λ _ accepts e2.
        >>=-elim (require (same_status s.status awaiting_action) _) _ e2 (λ _ waiting e3.
          >>=-elim (require (is_awaited current.action.execution_status) _) _ e3 (λ _ _ e4.
            >>=-elim (require_reportable execution current.action.recommended_action.action_type) _
              e4
              (λ _ reports e5.
                >>=-elim (recorded_action execution executed current.action.recommended_action) _ e5
                  (λ recorded _ e6.
                    answered s current
                      (record current.action {
                        execution_status = execution;
                        executed_action = recorded;
                      })
                      (status_after execution current.action.recommended_action.action_type) found
                      (ground (arith, waiting))
                      (reported-in_phase current.action execution recorded accepts reports) e6))))))

  -- A transition that succeeds.
  pub record IsDeparture (s t : GuidedPracticeSession) : Type 0 where
    pub provenance : List (Str × Str)
    pub opened : is_open s.status ≡ true
    pub sealed : IsSealed (record s { status = transitioned; provenance = provenance }) t

  pub transition-IsDeparture :
      (s : GuidedPracticeSession) (assignment content reason : Str) {t : GuidedPracticeSession}
      → transition_session s assignment content reason ≡ ok t
      → IsDeparture s t
  unfolding transition_session
  transition-IsDeparture s assignment content reason {t} e = record {
    provenance = transition_entries s assignment content reason;
    opened = ground (arith, e);
    sealed =
        replaced-IsSealed
          (record s {
            status = transitioned;
            provenance = transition_entries s assignment content reason;
          })
          {t = t} (ground (arith, e));
  }
