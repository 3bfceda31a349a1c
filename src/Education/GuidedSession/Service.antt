-- ===== src/Education/GuidedSession/Service.antt =====
-- education/guided_session_service.py: how a guided session is begun and carried on.
use master_all_strings.Prelude.{
  ℕ, [], ◌∷◌, ◌&&◌, not, Option, none, some, Result, err, require, ◌>>◌, ◌>>=◌, length, nat_eq,
  Str_eq, contains, map,
}
use master_all_strings.Prelude.Text.{Str, codes, str_eq}
use master_all_strings.Score.Digest.{Hashing}
use master_all_strings.Education.Errors.{
  EducationError, require_identifier, identity_not_preserved, not_awaiting_attempt,
  not_awaiting_action, not_same_assignment, not_same_content, not_same_revision, duplicate_index,
  duplicate_attempt, duplicate_session, disposition_resolved, disposition_pending,
  execution_resolved, session_terminal, nothing_changed, nothing_recommended,
}
use master_all_strings.Education.Actions.{PracticeNextAction}
use master_all_strings.Education.GuidedSession.{
  GuidedPracticeSessionStatus, awaiting_action, awaiting_attempt, transitioned,
  GuidedPracticeActionDisposition, pending, accepted, declined, GuidedPracticeExecutionStatus,
  not_requested, awaited, GuidedPracticeContext, GuidedPracticeAction, GuidedPracticeAttempt,
  GuidedPracticeSession, new_action, new_attempt, new_session, Lowercase,
}
use master_all_strings.Education.GuidedSession.Digest.{
  append_attempt, placeholder_digest, replaced, session_with_digest, or_else,
}
use master_all_strings.Education.GuidedSession.Rules.{
  session_policy_version, default_context, default_provenance, provenance_with,
  require_evidence_chain, current_attempt, with_last, is_empty, same_status, is_open, is_pending,
  is_awaited, is_expected, require_accepted, require_reportable, recorded_action, status_after,
  PracticeEvaluationResult, TeachingGuidanceProjection,
}

module _ ⦃l : Lowercase⦄ ⦃h : Hashing⦄ where
  -- `_replace_current_attempt`, which keeps the provenance.
  unfoldable pub replace_current_attempt :
      GuidedPracticeSession
      → GuidedPracticeAttempt
      → GuidedPracticeSessionStatus
      → Result EducationError GuidedPracticeSession
  replace_current_attempt session attempt status = do
    current ← current_attempt session
    require
        (str_eq attempt.attempt_id current.attempt_id
          && nat_eq attempt.attempt_index current.attempt_index)
        identity_not_preserved
    replaced (record session { attempts = with_last session.attempts attempt; status = status })

  unfoldable pub attempt_from_evidence :
      PracticeEvaluationResult
      → TeachingGuidanceProjection
      → Str
      → ℕ
      → GuidedPracticeContext
      → Result EducationError GuidedPracticeAttempt
  attempt_from_evidence evaluation guidance attempt_id attempt_index practice_context = do
    action ← new_action (record {
      recommended_action = guidance.next_action;
      action_disposition = pending;
      execution_status = not_requested;
      executed_action = none;
    })
    new_attempt (record {
      attempt_id = attempt_id;
      attempt_index = attempt_index;
      assignment_id = evaluation.assignment_id;
      content_id = evaluation.content_id;
      canonical_revision_id = guidance.canonical_revision_id;
      performance_session_id = evaluation.performance_session_id;
      evaluation_digest = evaluation.evaluation_digest;
      guidance_digest = guidance.guidance_digest;
      action = action;
      practice_context = practice_context;
    })

  unfoldable pub create_from_first_evaluated_attempt :
      PracticeEvaluationResult
      → TeachingGuidanceProjection
      → Str
      → Str
      → Option GuidedPracticeContext
      → Result EducationError GuidedPracticeSession
  create_from_first_evaluated_attempt evaluation guidance session_id attempt_id practice_context =
      do
        require_evidence_chain evaluation guidance
        require_identifier session_id "session_id"
        require_identifier attempt_id "attempt_id"
        attempt ←
            attempt_from_evidence evaluation guidance attempt_id 0
              (or_else practice_context default_context)
        draft ← new_session (record {
          policy_version = session_policy_version;
          session_id = session_id;
          assignment_id = evaluation.assignment_id;
          content_id = evaluation.content_id;
          canonical_revision_id = guidance.canonical_revision_id;
          status = awaiting_action;
          attempts = attempt ∷ [];
          current_attempt_index = some 0;
          session_digest = placeholder_digest;
          provenance = default_provenance;
        })
        session_with_digest draft

  unfoldable pub append_evaluated_attempt :
      GuidedPracticeSession
      → PracticeEvaluationResult
      → TeachingGuidanceProjection
      → Str
      → Option ℕ
      → Option GuidedPracticeContext
      → Result EducationError GuidedPracticeSession
  append_evaluated_attempt session evaluation guidance attempt_id attempt_index practice_context =
      do
        require_evidence_chain evaluation guidance
        require_identifier attempt_id "attempt_id"
        require (same_status session.status awaiting_attempt) not_awaiting_attempt
        require (str_eq evaluation.assignment_id session.assignment_id) not_same_assignment
        require (str_eq evaluation.content_id session.content_id) not_same_content
        require (str_eq guidance.canonical_revision_id session.canonical_revision_id)
            not_same_revision
        require (is_expected attempt_index (length session.attempts)) duplicate_index
        require (not (contains attempt_id (map (λ item. item.attempt_id) session.attempts)))
            duplicate_attempt
        require
            (not (
              contains evaluation.performance_session_id
                (map (λ item. item.performance_session_id) session.attempts)))
            duplicate_session
        attempt ←
            attempt_from_evidence evaluation guidance attempt_id (length session.attempts)
              (or_else practice_context default_context)
        append_attempt session attempt (some awaiting_action)

  -- `replace(current, action=replace(current.action, …))`
  unfoldable pub with_action :
      GuidedPracticeAttempt → GuidedPracticeAction → Result EducationError GuidedPracticeAttempt
  with_action current action = do
    checked ← new_action action
    new_attempt (record current { action = checked })

  unfoldable pub resolve :
      GuidedPracticeSession
      → GuidedPracticeAttempt
      → GuidedPracticeActionDisposition
      → Result EducationError GuidedPracticeSession
  resolve session current pending = err disposition_pending
  resolve session current declined = do
    updated ← with_action current (record current.action {
      action_disposition = declined;
      execution_status = not_requested;
      executed_action = none;
    })
    replace_current_attempt session updated awaiting_attempt
  resolve session current accepted = do
    updated ← with_action current (record current.action {
      action_disposition = accepted;
      execution_status = awaited;
      executed_action = none;
    })
    replace_current_attempt session updated awaiting_action

  unfoldable pub record_action_disposition :
      GuidedPracticeSession
      → GuidedPracticeActionDisposition
      → Result EducationError GuidedPracticeSession
  record_action_disposition session disposition = do
    require (same_status session.status awaiting_action) not_awaiting_action
    require (not (is_empty session.attempts)) nothing_recommended
    current ← current_attempt session
    require (is_pending current.action.action_disposition) disposition_resolved
    resolve session current disposition

  unfoldable pub record_action_execution :
      GuidedPracticeSession
      → GuidedPracticeExecutionStatus
      → Option PracticeNextAction
      → Result EducationError GuidedPracticeSession
  record_action_execution session execution_status executed_action = do
    current ← current_attempt session
    require_accepted current.action.action_disposition
    require (same_status session.status awaiting_action) not_awaiting_action
    require (is_awaited current.action.execution_status) execution_resolved
    let recommended = current.action.recommended_action
    require_reportable execution_status recommended.action_type
    recorded ← recorded_action execution_status executed_action recommended
    updated ←
        with_action current (record current.action {
          execution_status = execution_status;
          executed_action = recorded;
        })
    replace_current_attempt session updated (status_after execution_status recommended.action_type)

  unfoldable pub transition_session :
      GuidedPracticeSession → Str → Str → Str → Result EducationError GuidedPracticeSession
  transition_session session next_assignment_id next_content_id reason = do
    require_identifier next_assignment_id "next_assignment_id"
    require_identifier next_content_id "next_content_id"
    require_identifier reason "reason"
    require (is_open session.status) session_terminal
    require
        (not (
          str_eq next_assignment_id session.assignment_id
          && str_eq next_content_id session.content_id))
        nothing_changed
    replaced (record session {
      status = transitioned;
      provenance = provenance_with session.provenance (
          (codes "transition_reason", reason)
          ∷ (codes "next_assignment_id", next_assignment_id)
          ∷ (codes "next_content_id", next_content_id)
          ∷ []);
    })
