-- ===== src/Education/GuidedSession/Digest.antt =====
-- education/guided_session.py: the digest of a session, and appending an attempt.
use master_all_strings.Prelude.{
  [], ◌∷◌, ◌++◌, true, false, Option, none, some, Result, ok, require, ◌>>◌, ◌>>=◌, length, nat_eq,
}
use master_all_strings.Prelude.Text.{Str, codes, str_eq}
use master_all_strings.Score.Digest.{Hashing}
use master_all_strings.Education.Errors.{EducationError, wrong_attempt_index}
use master_all_strings.Education.Actions.{encode_action}
use master_all_strings.Education.Encoding.{
  Value, number, float, text, array, dict, none_left, field, values, optional, print,
}
use master_all_strings.Education.GuidedSession.{
  GuidedPracticeSessionStatus, active, awaiting_action, awaiting_attempt, closed, transitioned,
  aborted, GuidedPracticeActionDisposition, pending, accepted, declined,
  GuidedPracticeExecutionStatus, not_requested, awaited, succeeded, failed, unsupported,
  GuidedPracticeContext, GuidedPracticeAction, GuidedPracticeAttempt, GuidedPracticeSession,
  new_session,
}

abbrev status_value : GuidedPracticeSessionStatus → Str
status_value active = codes "ACTIVE"
status_value awaiting_action = codes "AWAITING_ACTION"
status_value awaiting_attempt = codes "AWAITING_ATTEMPT"
status_value closed = codes "CLOSED"
status_value transitioned = codes "TRANSITIONED"
status_value aborted = codes "ABORTED"

abbrev disposition_value : GuidedPracticeActionDisposition → Str
disposition_value pending = codes "PENDING"
disposition_value accepted = codes "ACCEPTED"
disposition_value declined = codes "DECLINED"

abbrev execution_value : GuidedPracticeExecutionStatus → Str
execution_value not_requested = codes "NOT_REQUESTED"
execution_value awaited = codes "PENDING"
execution_value succeeded = codes "SUCCEEDED"
execution_value failed = codes "FAILED"
execution_value unsupported = codes "UNSUPPORTED"

abbrev pub session_schema_version : Str
session_schema_version = codes "1.0.0"

unfoldable pub encode_context : GuidedPracticeContext → Value
encode_context context = dict (
    field (codes "loop_end_tick") (optional number context.loop_end_tick) (
      field (codes "loop_start_tick") (optional number context.loop_start_tick) (
        field (codes "playback_rate")
          (optional (λ x. float (record { bits = x })) context.playback_rate)
          (field (codes "schema_version") (text session_schema_version) none_left))))

unfoldable pub encode_guided_action : GuidedPracticeAction → Value
encode_guided_action action = dict (
    field (codes "action_disposition") (text (disposition_value action.action_disposition)) (
      field (codes "executed_action") (optional encode_action action.executed_action) (
        field (codes "execution_status") (text (execution_value action.execution_status)) (
          field (codes "recommended_action") (encode_action action.recommended_action)
            (field (codes "schema_version") (text session_schema_version) none_left)))))

unfoldable pub encode_attempt : GuidedPracticeAttempt → Value
unfolding encode_context encode_guided_action
encode_attempt attempt = dict (
    field (codes "action") (encode_guided_action attempt.action) (
      field (codes "assignment_id") (text attempt.assignment_id) (
        field (codes "attempt_id") (text attempt.attempt_id) (
          field (codes "attempt_index") (number attempt.attempt_index) (
            field (codes "canonical_revision_id") (text attempt.canonical_revision_id) (
              field (codes "content_id") (text attempt.content_id) (
                field (codes "evaluation_digest") (text attempt.evaluation_digest) (
                  field (codes "guidance_digest") (text attempt.guidance_digest) (
                    field (codes "performance_session_id") (text attempt.performance_session_id) (
                      field (codes "practice_context") (encode_context attempt.practice_context) (
                        field (codes "schema_version") (text session_schema_version)
                          none_left)))))))))))

-- The dict of a session without its digest and its provenance.
unfoldable pub encode_session : GuidedPracticeSession → Value
encode_session session = dict (
    field (codes "assignment_id") (text session.assignment_id) (
      field (codes "attempts") (array (values encode_attempt session.attempts)) (
        field (codes "canonical_revision_id") (text session.canonical_revision_id) (
          field (codes "content_id") (text session.content_id) (
            field (codes "current_attempt_index") (optional number session.current_attempt_index) (
              field (codes "policy_version") (text session.policy_version) (
                field (codes "schema_version") (text session_schema_version) (
                  field (codes "session_id") (text session.session_id)
                    (field (codes "status") (text (status_value session.status)) none_left)))))))))

unfoldable pub compute_session_digest : ⦃h : Hashing⦄ → GuidedPracticeSession → Str
compute_session_digest ⦃h⦄ session = codes "sha256:" ++ h.sha256 (print (encode_session session))

abbrev pub placeholder_digest : Str
placeholder_digest = codes "sha256:0000000000000000000000000000000000000000000000000000000000000000"

unfoldable pub session_with_digest :
    ⦃h : Hashing⦄ → GuidedPracticeSession → Result EducationError GuidedPracticeSession
session_with_digest session =
    elim (str_eq session.session_digest (compute_session_digest session)) [
      | true ↦ ok session
      | false ↦ new_session (record session { session_digest = compute_session_digest session })
    ]

-- The session as `replace` makes it, and then its digest.
unfoldable pub replaced :
    ⦃h : Hashing⦄ → GuidedPracticeSession → Result EducationError GuidedPracticeSession
replaced session = do
  draft ← new_session (record session { session_digest = placeholder_digest })
  session_with_digest draft

abbrev pub or_else {ℓ} : {A : Type ℓ} → Option A → A → A
or_else none a = a
or_else (some b) a = b

unfoldable pub append_attempt :
    ⦃h : Hashing⦄
    → GuidedPracticeSession
    → GuidedPracticeAttempt
    → Option GuidedPracticeSessionStatus
    → Result EducationError GuidedPracticeSession
append_attempt session attempt status = do
  require (nat_eq attempt.attempt_index (length session.attempts)) wrong_attempt_index
  replaced (record session {
    attempts = session.attempts ++ attempt ∷ [];
    current_attempt_index = some attempt.attempt_index;
    status = or_else status session.status;
  })
