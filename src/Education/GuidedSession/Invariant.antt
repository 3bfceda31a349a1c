-- ===== src/Education/GuidedSession/Invariant.antt =====
-- education/guided_session_service.py: every session that calls reach is proper.
use master_all_strings.Prelude.{[], ◌∷◌, ◌++◌, Option, some, ok, >>=-elim, length, ◌≡◌, ap, ◌∙◌}
use master_all_strings.Prelude.Text.{Str}
use master_all_strings.Score.Digest.{Hashing}
use master_all_strings.Education.Errors.{require_identifier}
use master_all_strings.Education.GuidedSession.{
  awaiting_action, transitioned, GuidedPracticeContext, GuidedPracticeAttempt,
  GuidedPracticeSession, Lowercase, new_session,
}
use master_all_strings.Education.GuidedSession.Digest.{
  session_with_digest, placeholder_digest, or_else,
}
use master_all_strings.Education.GuidedSession.Rules.{
  PracticeEvaluationResult, TeachingGuidanceProjection, with_last, default_context,
  session_policy_version, default_provenance, require_evidence_chain,
}
use master_all_strings.Education.GuidedSession.Service.{
  attempt_from_evidence, create_from_first_evaluated_attempt,
}
use master_all_strings.Education.GuidedSession.Steps.{
  Call, append, dispose, execute, transition, perform, Leads, here, call, Reached,
}
use master_all_strings.Education.GuidedSession.Phases.{
  in_order, in_order-append, in_order-with_last, in_order-transitioned,
}
use master_all_strings.Education.GuidedSession.Effects.{
  IsProper, new_session-checked, session_with_digest-IsSealed, IsSealed-IsProper,
}
use master_all_strings.Education.GuidedSession.Progress.{
  made-in_phase, append-IsGrowth, IsAnswer, dispose-IsAnswer, execute-IsAnswer,
  transition-IsDeparture,
}

-- The draft of a new session.
abbrev opening :
    PracticeEvaluationResult
    → TeachingGuidanceProjection
    → Str
    → GuidedPracticeAttempt
    → GuidedPracticeSession
opening e g session_id x = record {
  policy_version = session_policy_version;
  session_id = session_id;
  assignment_id = e.assignment_id;
  content_id = e.content_id;
  canonical_revision_id = g.canonical_revision_id;
  status = awaiting_action;
  attempts = x ∷ [];
  current_attempt_index = some 0;
  session_digest = placeholder_digest;
  provenance = default_provenance;
}

module _ ⦃l : Lowercase⦄ ⦃h : Hashing⦄ where
  answer-IsProper :
      (s : GuidedPracticeSession) {t : GuidedPracticeSession}
      → IsProper s
      → IsAnswer s t
      → IsProper t
  answer-IsProper s proper answer =
      IsSealed-IsProper
        (record s {
          attempts = with_last s.attempts (record answer.current { action = answer.action });
          status = answer.status;
        })
        answer.sealed
        (in_order-with_last s.status answer.status s.attempts
          (record answer.current { action = answer.action }) proper.order answer.phase)

  pub perform-IsProper :
      (c : Call) (s : GuidedPracticeSession) {t : GuidedPracticeSession}
      → IsProper s
      → perform c s ≡ ok t
      → IsProper t
  perform-IsProper (append e g id index context) s proper done =
      let grown = append-IsGrowth s e g id index context done in
      IsSealed-IsProper
        (record s {
          attempts = s.attempts ++ grown.attempt ∷ [];
          current_attempt_index = some grown.attempt.attempt_index;
          status = awaiting_action;
        })
        grown.sealed
        (in_order-append s.status awaiting_action s.attempts grown.attempt grown.waiting
          proper.order
          (made-in_phase e g id (length s.attempts) (or_else context default_context) grown.made))
  perform-IsProper (dispose disposition) s proper done =
      answer-IsProper s proper (dispose-IsAnswer s disposition done)
  perform-IsProper (execute execution executed) s proper done =
      answer-IsProper s proper (execute-IsAnswer s execution executed done)
  perform-IsProper (transition assignment content reason) s proper done =
      let left = transition-IsDeparture s assignment content reason done in
      IsSealed-IsProper (record s { status = transitioned; provenance = left.provenance })
        left.sealed (in_order-transitioned s.status s.attempts left.opened proper.order)

  pub Leads-IsProper : {s t : GuidedPracticeSession} → IsProper s → Leads s t → IsProper t
  Leads-IsProper proper here = proper
  Leads-IsProper proper (call {t} {u} c before done) =
      perform-IsProper c t (Leads-IsProper proper before) done

  created-IsProper :
      (e : PracticeEvaluationResult) (g : TeachingGuidanceProjection) (session_id attempt_id : Str)
      (context : Option GuidedPracticeContext) {s : GuidedPracticeSession}
      → create_from_first_evaluated_attempt e g session_id attempt_id context ≡ ok s
      → IsProper s
  unfolding create_from_first_evaluated_attempt in_order
  created-IsProper e g session_id attempt_id context done =
      >>=-elim (require_evidence_chain e g) _ done (λ _ _ d1.
        >>=-elim (require_identifier session_id "session_id") _ d1 (λ _ _ d2.
          >>=-elim (require_identifier attempt_id "attempt_id") _ d2 (λ _ _ d3.
            >>=-elim (attempt_from_evidence e g attempt_id 0 (or_else context default_context)) _ d3
              (λ x made d4.
                >>=-elim (new_session (opening e g session_id x)) _ d4 (λ draft opened d5.
                  let checked = new_session-checked (opening e g session_id x) opened in
                  IsSealed-IsProper (opening e g session_id x)
                    (session_with_digest-IsSealed (opening e g session_id x) checked.0
                      (ap session_with_digest checked.1 ∙ d5))
                    (made-in_phase e g attempt_id 0 (or_else context default_context) made))))))

  -- Every session that a creation and any calls that succeed have made passes the checks of its
  -- constructor, carries the digest of its own contents, and has attempts of which all but the last are
  -- settled. Its status is the one that the action of the last attempt says, unless a change of lesson
  -- ended the session: then that action is one that awaits its answer, its report or the next attempt,
  -- and not one that had closed the session.
  pub Reached-IsProper : {t : GuidedPracticeSession} → Reached t → IsProper t
  Reached-IsProper r =
      Leads-IsProper
        (created-IsProper r.evaluation r.guidance r.session_id r.attempt_id r.context r.begun)
        r.later
