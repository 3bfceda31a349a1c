-- ===== src/Education/GuidedSession/Rules.antt =====
-- education/guided_session_service.py: what a session reads of its evidence, and the tests and choices
-- that its operations make.
use master_all_strings.Prelude.{
  ℕ, suc, zero, List, [], ◌∷◌, Bool, true, false, not, Option, none, some, Result, ok, err, require,
  ◌>>◌, nat_eq, Str_eq, if◌then◌else◌,
}
use master_all_strings.Prelude.Text.{Str, codes, str_eq}
use master_all_strings.Prelude.Order.{Order, on, by_text}
use master_all_strings.Prelude.Sort.{sort}
use master_all_strings.Prelude.Dict.{put}
use master_all_strings.Education.Errors.{
  EducationError, sessions_disagree, evaluations_disagree, actions_disagree, no_current_attempt,
  action_declined, action_not_accepted, execution_not_final, success_unsupported,
  unsupported_supported, unsupported_recorded, other_action_recorded,
}
use master_all_strings.Education.Actions.{
  PracticeNextAction, PracticeNextActionType, continue, repeat, slow_down, isolate_passage,
  view_one_string, enable_zone_view, same_type, equal_actions, is_given,
}
use master_all_strings.Education.GuidedSession.{
  GuidedPracticeSessionStatus, active, awaiting_action, awaiting_attempt, closed, transitioned,
  aborted, GuidedPracticeActionDisposition, pending, accepted, declined,
  GuidedPracticeExecutionStatus, not_requested, awaited, succeeded, failed, unsupported,
  GuidedPracticeContext, GuidedPracticeAttempt, GuidedPracticeSession,
}
use master_all_strings.Education.GuidedSession.Digest.{session_schema_version}

-- The fields of `PracticeEvaluationResultV1` that a session reads.
pub record PracticeEvaluationResult : Type 0 where
  pub assignment_id : Str
  pub content_id : Str
  pub performance_session_id : Str
  pub evaluation_digest : Str
  pub primary_next_action : PracticeNextAction

-- The fields of `TeachingGuidanceProjectionV1` that a session reads.
pub record TeachingGuidanceProjection : Type 0 where
  pub canonical_revision_id : Str
  pub performance_session_id : Str
  pub evaluation_digest : Str
  pub guidance_digest : Str
  pub next_action : PracticeNextAction

abbrev pub session_policy_version : Str
session_policy_version = codes "guided-practice-session-v1"

abbrev pub default_context : GuidedPracticeContext
default_context = record { playback_rate = none; loop_start_tick = none; loop_end_tick = none }

abbrev pub default_provenance : List (Str × Str)
default_provenance =
    (codes "policy_version", session_policy_version)
    ∷ (codes "producer", codes "GuidedPracticeSessionV1/v1")
    ∷ (codes "schema_version", session_schema_version)
    ∷ (codes "source", codes "education.guided_session_service")
    ∷ []

-- The keys of a dict are distinct, so that its items are sorted by them.
abbrev by_key : Order (Str × Str)
by_key = on (λ entry. entry.0) by_text

-- `dict(entries)`
unfoldable pub dict_of : List (Str × Str) → List (Str × Str) → List (Str × Str)
dict_of [] mapping = mapping
dict_of ((key, value) ∷ entries) mapping = dict_of entries (put key value mapping)

-- `_provenance_with`
unfoldable pub provenance_with : List (Str × Str) → List (Str × Str) → List (Str × Str)
provenance_with existing updates = sort by_key (dict_of updates (dict_of existing []))

unfoldable pub require_evidence_chain :
    PracticeEvaluationResult → TeachingGuidanceProjection → Result EducationError (Unit {0})
require_evidence_chain evaluation guidance = do
  require (str_eq evaluation.performance_session_id guidance.performance_session_id)
      sessions_disagree
  require (str_eq evaluation.evaluation_digest guidance.evaluation_digest) evaluations_disagree
  require (equal_actions evaluation.primary_next_action guidance.next_action) actions_disagree

-- `session.attempts[index]`
unfoldable pub attempt_at :
    List GuidedPracticeAttempt → ℕ → Result EducationError GuidedPracticeAttempt
attempt_at [] index = err no_current_attempt
attempt_at (attempt ∷ attempts) zero = ok attempt
attempt_at (attempt ∷ attempts) (suc index) = attempt_at attempts index

-- `_current_attempt`; a session's index is one of its attempts.
unfoldable pub current_attempt : GuidedPracticeSession → Result EducationError GuidedPracticeAttempt
current_attempt session = elim session.current_attempt_index [
  | none ↦ err no_current_attempt
  | some index ↦ attempt_at session.attempts index
]

-- `attempts[:-1] + (attempt,)`
unfoldable pub with_last :
    List GuidedPracticeAttempt → GuidedPracticeAttempt → List GuidedPracticeAttempt
with_last [] attempt = attempt ∷ []
with_last (first ∷ []) attempt = attempt ∷ []
with_last (first ∷ second ∷ attempts) attempt = first ∷ with_last (second ∷ attempts) attempt

abbrev pub is_empty {ℓ} : {A : Type ℓ} → List A → Bool
is_empty [] = true
is_empty (x ∷ xs) = false

abbrev status_index : GuidedPracticeSessionStatus → ℕ
status_index active = 0
status_index awaiting_action = 1
status_index awaiting_attempt = 2
status_index closed = 3
status_index transitioned = 4
status_index aborted = 5

-- `a is b` on the members of the enumeration.
unfoldable pub same_status : GuidedPracticeSessionStatus → GuidedPracticeSessionStatus → Bool
same_status a b = nat_eq (status_index a) (status_index b)

-- A member of `_OPEN_STATUSES`; every other status is terminal.
unfoldable pub is_open : GuidedPracticeSessionStatus → Bool
is_open active = true
is_open awaiting_action = true
is_open awaiting_attempt = true
is_open closed = false
is_open transitioned = false
is_open aborted = false

abbrev pub is_pending : GuidedPracticeActionDisposition → Bool
is_pending pending = true
is_pending accepted = false
is_pending declined = false

abbrev pub is_awaited : GuidedPracticeExecutionStatus → Bool
is_awaited not_requested = false
is_awaited awaited = true
is_awaited succeeded = false
is_awaited failed = false
is_awaited unsupported = false

-- A member of `_UNSUPPORTED_ACTIONS`
abbrev pub is_unsupported : PracticeNextActionType → Bool
is_unsupported continue = false
is_unsupported repeat = false
is_unsupported slow_down = false
is_unsupported isolate_passage = false
is_unsupported view_one_string = true
is_unsupported enable_zone_view = true

-- `attempt_index is None or attempt_index == expected_index`
abbrev pub is_expected : Option ℕ → ℕ → Bool
is_expected none expected = true
is_expected (some index) expected = nat_eq index expected

unfoldable pub require_accepted : GuidedPracticeActionDisposition → Result EducationError (Unit {0})
require_accepted declined = err action_declined
require_accepted pending = err action_not_accepted
require_accepted accepted = ok tt

-- Whether an execution may be reported for an action of this type.
unfoldable pub require_reportable :
    GuidedPracticeExecutionStatus → PracticeNextActionType → Result EducationError (Unit {0})
require_reportable not_requested action_type = err execution_not_final
require_reportable awaited action_type = err execution_not_final
require_reportable succeeded action_type =
    require (not (is_unsupported action_type)) success_unsupported
require_reportable failed action_type = ok tt
require_reportable unsupported action_type =
    require (is_unsupported action_type) unsupported_supported

-- What was executed: the action that is given, or else the recommended one.
unfoldable pub executed_or :
    Option PracticeNextAction
    → PracticeNextAction
    → Result EducationError (Option PracticeNextAction)
executed_or none recommended = ok (some recommended)
executed_or (some executed) recommended = do
  require (same_type executed.action_type recommended.action_type) other_action_recorded
  ok (some executed)

unfoldable pub recorded_action :
    GuidedPracticeExecutionStatus
    → Option PracticeNextAction
    → PracticeNextAction
    → Result EducationError (Option PracticeNextAction)
unfolding executed_or
recorded_action unsupported executed recommended = do
  require (not (is_given executed)) unsupported_recorded
  ok none
recorded_action not_requested executed recommended = executed_or executed recommended
recorded_action awaited executed recommended = executed_or executed recommended
recorded_action succeeded executed recommended = executed_or executed recommended
recorded_action failed executed recommended = executed_or executed recommended

unfoldable pub status_after :
    GuidedPracticeExecutionStatus → PracticeNextActionType → GuidedPracticeSessionStatus
status_after succeeded action_type =
    if same_type action_type continue then closed else awaiting_attempt
status_after not_requested action_type = awaiting_attempt
status_after awaited action_type = awaiting_attempt
status_after failed action_type = awaiting_attempt
status_after unsupported action_type = awaiting_attempt
