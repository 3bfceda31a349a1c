-- ===== src/Education/GuidedSession/Steps.antt =====
-- education/guided_session_service.py: the sessions that sequences of calls reach.
use master_all_strings.Prelude.{ℕ, Option, Result, ok, ◌≡◌}
use master_all_strings.Prelude.Text.{Str}
use master_all_strings.Score.Digest.{Hashing}
use master_all_strings.Education.Errors.{EducationError}
use master_all_strings.Education.Actions.{PracticeNextAction}
use master_all_strings.Education.GuidedSession.{
  GuidedPracticeActionDisposition, GuidedPracticeExecutionStatus, GuidedPracticeContext,
  GuidedPracticeSession, Lowercase,
}
use master_all_strings.Education.GuidedSession.Rules.{
  PracticeEvaluationResult, TeachingGuidanceProjection,
}
use master_all_strings.Education.GuidedSession.Service.{
  create_from_first_evaluated_attempt, append_evaluated_attempt, record_action_disposition,
  record_action_execution, transition_session,
}

-- A call on a session.
pub data Call : Type 0 where
  append :
      PracticeEvaluationResult
      → TeachingGuidanceProjection
      → Str
      → Option ℕ
      → Option GuidedPracticeContext
      → Call
  dispose : GuidedPracticeActionDisposition → Call
  execute : GuidedPracticeExecutionStatus → Option PracticeNextAction → Call
  transition : Str → Str → Str → Call

module _ ⦃l : Lowercase⦄ ⦃h : Hashing⦄ where
  abbrev pub perform : Call → GuidedPracticeSession → Result EducationError GuidedPracticeSession
  perform (append evaluation guidance id index context) s =
      append_evaluated_attempt s evaluation guidance id index context
  perform (dispose disposition) s = record_action_disposition s disposition
  perform (execute status action) s = record_action_execution s status action
  perform (transition assignment content reason) s = transition_session s assignment content reason

  -- The sessions that calls which succeed make of one.
  pub data Leads (s : GuidedPracticeSession) : GuidedPracticeSession → Type 0 where
    here : Leads s s
    call : {t u : GuidedPracticeSession} (c : Call) → Leads s t → perform c t ≡ ok u → Leads s u

  -- A session that was created, and what became of it.
  pub record Reached (t : GuidedPracticeSession) : Type 0 where
    pub evaluation : PracticeEvaluationResult
    pub guidance : TeachingGuidanceProjection
    pub session_id : Str
    pub attempt_id : Str
    pub context : Option GuidedPracticeContext
    pub first : GuidedPracticeSession
    pub begun :
        create_from_first_evaluated_attempt evaluation guidance session_id attempt_id context
        ≡ ok first
    pub later : Leads first t
