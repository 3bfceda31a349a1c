-- ===== src/Education/GuidedSession.antt =====
-- education/guided_session.py: the records of a guided session and what their constructors check.
pub mod Digest
pub mod Rules
pub mod Service
pub mod Steps
pub mod Phases
pub mod Effects
pub mod Progress
pub mod Invariant
pub mod Records
use Prim.Native.String.{String}
use master_all_strings.Prelude.{
  ℕ, suc, zero, List, [], ◌∷◌, ◌++◌, Bool, true, false, ◌&&◌, ◌||◌, not, Option, none, some, Result,
  ok, err, require, ◌>>◌, ◌>>=◌, map, Str_eq, length, leb, ltb, nat_eq,
}
use master_all_strings.Prelude.Text.{Str, codes, str_eq}
use master_all_strings.Score.Errors.{starts_with}
use master_all_strings.Education.Errors.{
  EducationError, require_identifier, require_unique, not_a_digest, mastery_wording,
  loop_half_given, loop_reversed, action_requested_early, action_recorded_early, success_unrecorded,
  record_without_success, attempt_of_other_assignment, attempt_of_other_content,
  attempt_of_other_revision, indexes_not_consecutive, stray_current_index, stale_current_index,
}
use master_all_strings.Education.Actions.{
  PracticeNextAction, type_value, require_supported_rate, is_given, is_reversed,
}

pub data GuidedPracticeSessionStatus : Type 0 where
  active awaiting_action awaiting_attempt closed transitioned aborted : GuidedPracticeSessionStatus

pub data GuidedPracticeActionDisposition : Type 0 where
  pending accepted declined : GuidedPracticeActionDisposition

-- `GuidedPracticeExecutionStatus`, whose `PENDING` is `awaited`.
pub data GuidedPracticeExecutionStatus : Type 0 where
  not_requested awaited succeeded failed unsupported : GuidedPracticeExecutionStatus

pub record GuidedPracticeContext : Type 0 where
  pub playback_rate : Option ℕ
  pub loop_start_tick : Option ℕ
  pub loop_end_tick : Option ℕ

pub record GuidedPracticeAction : Type 0 where
  pub recommended_action : PracticeNextAction
  pub action_disposition : GuidedPracticeActionDisposition
  pub execution_status : GuidedPracticeExecutionStatus
  pub executed_action : Option PracticeNextAction

pub record GuidedPracticeAttempt : Type 0 where
  pub attempt_id : Str
  pub attempt_index : ℕ
  pub assignment_id : Str
  pub content_id : Str
  pub canonical_revision_id : Str
  pub performance_session_id : Str
  pub evaluation_digest : Str
  pub guidance_digest : Str
  pub action : GuidedPracticeAction
  pub practice_context : GuidedPracticeContext

pub record GuidedPracticeSession : Type 0 where
  pub policy_version : Str
  pub session_id : Str
  pub assignment_id : Str
  pub content_id : Str
  pub canonical_revision_id : Str
  pub status : GuidedPracticeSessionStatus
  pub attempts : List GuidedPracticeAttempt
  pub current_attempt_index : Option ℕ
  pub session_digest : Str
  pub provenance : List (Str × Str)

-- `str.lower`
pub record Lowercase : Type 0 where
  pub lower : Str → Str

-- `token in s`
unfoldable pub occurs_in : Str → Str → Bool
occurs_in token [] = starts_with [] token
occurs_in token (c ∷ s) = starts_with (c ∷ s) token || occurs_in token s

abbrev pub mastery_forbidden : List Str
mastery_forbidden =
    codes "mastered" ∷ codes "perfect" ∷ codes "complete" ∷ codes "passed curriculum" ∷ []

unfoldable pub forbid_tokens : List Str → Str → String → Result EducationError (Unit {0})
forbid_tokens [] lowered field_name = ok tt
forbid_tokens (token ∷ tokens) lowered field_name = do
  require (not (occurs_in token lowered)) (mastery_wording field_name)
  forbid_tokens tokens lowered field_name

unfoldable pub forbid_mastery_wording :
    ⦃l : Lowercase⦄ → Str → String → Result EducationError (Unit {0})
forbid_mastery_wording ⦃l⦄ value field_name =
    forbid_tokens mastery_forbidden (l.lower value) field_name

-- `_require_next_action`; the name of the field is the one of the action.
unfoldable pub require_next_action :
    ⦃l : Lowercase⦄ → PracticeNextAction → String → Result EducationError (Unit {0})
require_next_action action field_name = do
  forbid_mastery_wording (type_value action.action_type) field_name
  forbid_mastery_wording action.message_key field_name

unfoldable pub require_sha256_digest : Str → String → Result EducationError (Unit {0})
require_sha256_digest value field_name = do
  require_identifier value field_name
  require (starts_with value (codes "sha256:")) (not_a_digest field_name)

-- Of a pending or declined action nothing was requested and nothing is recorded.
unfoldable pub require_idle :
    GuidedPracticeExecutionStatus → Option PracticeNextAction → Result EducationError (Unit {0})
require_idle not_requested executed = require (not (is_given executed)) action_recorded_early
require_idle awaited executed = err action_requested_early
require_idle succeeded executed = err action_requested_early
require_idle failed executed = err action_requested_early
require_idle unsupported executed = err action_requested_early

unfoldable pub validate_execution_state :
    GuidedPracticeActionDisposition
    → GuidedPracticeExecutionStatus
    → Option PracticeNextAction
    → Result EducationError (Unit {0})
unfolding require_idle
validate_execution_state pending execution executed = require_idle execution executed
validate_execution_state declined execution executed = require_idle execution executed
validate_execution_state accepted succeeded executed =
    require (is_given executed) success_unrecorded
validate_execution_state accepted failed executed = ok tt
validate_execution_state accepted unsupported executed =
    require (not (is_given executed)) record_without_success
validate_execution_state accepted awaited executed =
    require (not (is_given executed)) record_without_success
validate_execution_state accepted not_requested executed =
    require (not (is_given executed)) record_without_success

-- `GuidedPracticeContextV1.__post_init__`
unfoldable pub check_context : GuidedPracticeContext → Result EducationError (Unit {0})
check_context context = do
  require_supported_rate context.playback_rate
  require (not (is_given context.loop_start_tick) || is_given context.loop_end_tick) loop_half_given
  require (is_given context.loop_start_tick || not (is_given context.loop_end_tick)) loop_half_given
  require (not (is_reversed context.loop_start_tick context.loop_end_tick)) loop_reversed

unfoldable pub require_executed :
    ⦃l : Lowercase⦄ → Option PracticeNextAction → Result EducationError (Unit {0})
require_executed none = ok tt
require_executed (some action) = require_next_action action "executed_action"

-- `GuidedPracticeActionV1.__post_init__`
unfoldable pub check_action :
    ⦃l : Lowercase⦄ → GuidedPracticeAction → Result EducationError (Unit {0})
check_action action = do
  require_next_action action.recommended_action "recommended_action"
  require_executed action.executed_action
  validate_execution_state action.action_disposition action.execution_status action.executed_action

-- `GuidedPracticeAttemptV1.__post_init__`
unfoldable pub check_attempt : GuidedPracticeAttempt → Result EducationError (Unit {0})
check_attempt attempt = do
  require_identifier attempt.attempt_id "attempt_id"
  require_identifier attempt.assignment_id "assignment_id"
  require_identifier attempt.content_id "content_id"
  require_identifier attempt.canonical_revision_id "canonical_revision_id"
  require_identifier attempt.performance_session_id "performance_session_id"
  require_sha256_digest attempt.evaluation_digest "evaluation_digest"
  require_sha256_digest attempt.guidance_digest "guidance_digest"

-- The loop over the attempts of a session.
unfoldable pub require_own :
    GuidedPracticeSession → List GuidedPracticeAttempt → Result EducationError (Unit {0})
require_own session [] = ok tt
require_own session (attempt ∷ attempts) = do
  require (str_eq attempt.assignment_id session.assignment_id) attempt_of_other_assignment
  require (str_eq attempt.content_id session.content_id) attempt_of_other_content
  require (str_eq attempt.canonical_revision_id session.canonical_revision_id)
      attempt_of_other_revision
  require_own session attempts

-- `indexes == tuple(range(len(attempts)))`, counted from `first`.
unfoldable pub are_consecutive : ℕ → List GuidedPracticeAttempt → Bool
are_consecutive first [] = true
are_consecutive first (attempt ∷ attempts) =
    nat_eq attempt.attempt_index first && are_consecutive (suc first) attempts

unfoldable pub check_current :
    List GuidedPracticeAttempt → Option ℕ → Result EducationError (Unit {0})
check_current [] none = ok tt
check_current [] (some index) = err stray_current_index
check_current (attempt ∷ attempts) none = err stale_current_index
check_current (attempt ∷ attempts) (some index) =
    require (nat_eq index (length attempts)) stale_current_index

unfoldable pub require_entries : List (Str × Str) → Result EducationError (Unit {0})
require_entries [] = ok tt
require_entries ((key, value) ∷ entries) = do
  require_identifier key "provenance key"
  require_identifier value "provenance value"
  require_entries entries

-- `GuidedPracticeSessionV1.__post_init__`
unfoldable pub check_session : GuidedPracticeSession → Result EducationError (Unit {0})
check_session session = do
  require_identifier session.policy_version "policy_version"
  require_identifier session.session_id "session_id"
  require_identifier session.assignment_id "assignment_id"
  require_identifier session.content_id "content_id"
  require_identifier session.canonical_revision_id "canonical_revision_id"
  require_own session session.attempts
  require (are_consecutive 0 session.attempts) indexes_not_consecutive
  require_unique (map (λ attempt. attempt.attempt_id) session.attempts) "attempt_id"
  require_unique (map (λ attempt. attempt.performance_session_id) session.attempts)
      "performance_session_id"
  check_current session.attempts session.current_attempt_index
  require_sha256_digest session.session_digest "session_digest"
  require_entries session.provenance

-- A constructor, or `replace`, whose checks pass.
unfoldable pub new_action :
    ⦃l : Lowercase⦄ → GuidedPracticeAction → Result EducationError GuidedPracticeAction
new_action action = do check_action action; ok action

unfoldable pub new_attempt : GuidedPracticeAttempt → Result EducationError GuidedPracticeAttempt
new_attempt attempt = do check_attempt attempt; ok attempt

unfoldable pub new_session : GuidedPracticeSession → Result EducationError GuidedPracticeSession
new_session session = do check_session session; ok session
