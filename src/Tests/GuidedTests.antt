-- ===== src/Tests/GuidedTests.antt =====
-- education/guided_session.py and guided_session_service.py at concrete inputs.
use master_all_strings.Prelude.{
  ℕ, zero, suc, ◌+◌, ◌%◌, List, [], ◌∷◌, Bool, true, false, none, Result, ok, err, ◌≡◌, refl,
  length, contains, all_distinct,
}
use master_all_strings.Prelude.Text.{Str, codes, str_eq, is_blank, is_space}
use master_all_strings.Prelude.Strings.{is_stripped, ends_plainly}
use master_all_strings.Score.Digest.{Hashing}
use master_all_strings.Education.Errors.{
  EducationError, require_identifier, require_optional_identifier, require_unique,
}
use master_all_strings.Education.Actions.{
  PracticeNextAction, continue, same_type, require_identifiers, require_supported_rate, is_reversed,
  check_next_action, equal_options, equal_lists, equal_actions, encode_action,
}
use master_all_strings.Education.GuidedSession.{
  GuidedPracticeSession, GuidedPracticeAttempt, accepted, declined, succeeded, awaiting_action,
  Lowercase, occurs_in, forbid_tokens, forbid_mastery_wording, require_next_action,
  require_sha256_digest, require_idle, validate_execution_state, check_context, require_executed,
  check_action, check_attempt, require_own, are_consecutive, check_current, require_entries,
  check_session, new_action, new_attempt, new_session,
}
use master_all_strings.Education.GuidedSession.Rules.{
  PracticeEvaluationResult, TeachingGuidanceProjection, is_open, attempt_at, dict_of,
  provenance_with, require_evidence_chain, current_attempt, with_last, same_status,
  require_accepted, require_reportable, executed_or, recorded_action, status_after,
}
use master_all_strings.Education.GuidedSession.Service.{
  create_from_first_evaluated_attempt, replace_current_attempt, attempt_from_evidence,
  append_evaluated_attempt, with_action, resolve, record_action_disposition,
  record_action_execution, transition_session,
}
use master_all_strings.Education.GuidedSession.Steps.{
  Call, append, dispose, execute, perform, Leads, here, call, Reached,
}
use master_all_strings.Education.GuidedSession.Effects.{IsProper}
use master_all_strings.Education.GuidedSession.Invariant.{Reached-IsProper}
use master_all_strings.Education.GuidedSession.Records.{IsRecorded, Leads-IsRecorded, perform-over}
use master_all_strings.Education.Encoding.{values, print, print_items, print_fields}
use master_all_strings.Education.GuidedSession.Digest.{
  encode_context, encode_guided_action, encode_attempt, encode_session, compute_session_digest,
  session_with_digest, replaced, append_attempt,
}
use master_all_strings.Score.Errors.{starts_with}
use master_all_strings.Prelude.Sort.{sort, insert}
use master_all_strings.Prelude.Dict.{put}
use master_all_strings.Prelude.Decimal.{digits}
use master_all_strings.Prelude.Json.Escapes.{escape, escape_char, unit}

instance abbrev unchanged : Lowercase
unchanged = record { lower = λ s. s }

abbrev repeated : ℕ → ℕ → Str
repeated zero c = []
repeated (suc n) c = c ∷ repeated n c

-- Sixty-four times a digit that the length of the text chooses.
instance abbrev by_length : Hashing
by_length = record { sha256 = λ s. repeated 64 (97 + length s % 6); repr_float = λ x. codes "1.0" }

abbrev going_on : PracticeNextAction
going_on = record {
  action_type = continue;
  reason_finding_ids = [];
  message_key = codes "action.continue";
  target_rate = none;
  focus_start_tick = none;
  focus_end_tick = none;
  teaching_aid = none;
}

abbrev evaluated : Str → PracticeEvaluationResult
evaluated played = record {
  assignment_id = codes "a";
  content_id = codes "c";
  performance_session_id = played;
  evaluation_digest = codes "sha256:e";
  primary_next_action = going_on;
}

abbrev guided : Str → TeachingGuidanceProjection
guided played = record {
  canonical_revision_id = codes "r";
  performance_session_id = played;
  evaluation_digest = codes "sha256:e";
  guidance_digest = codes "sha256:g";
  next_action = going_on;
}

abbrev blank_session : GuidedPracticeSession
blank_session = record {
  policy_version = [];
  session_id = [];
  assignment_id = [];
  content_id = [];
  canonical_revision_id = [];
  status = awaiting_action;
  attempts = [];
  current_attempt_index = none;
  session_digest = [];
  provenance = [];
}

abbrev or_blank : Result EducationError GuidedPracticeSession → GuidedPracticeSession
or_blank (ok s) = s
or_blank (err e) = blank_session

abbrev is_ok : Result EducationError GuidedPracticeSession → Bool
is_ok (ok s) = true
is_ok (err e) = false

passing : (r : Result EducationError GuidedPracticeSession) → is_ok r ≡ true → r ≡ ok (or_blank r)
passing (ok s) e = refl
passing (err e') e = cc

abbrev begun : Result EducationError GuidedPracticeSession
begun =
    create_from_first_evaluated_attempt (evaluated (codes "p1")) (guided (codes "p1")) (codes "s")
      (codes "t1") none

abbrev offered : GuidedPracticeSession
offered = or_blank begun

begun_is_ok : is_ok begun ≡ true
unfolding require_identifier require_optional_identifier require_unique values print print_items
    print_fields same_type require_identifiers require_supported_rate is_reversed check_next_action
    equal_options equal_lists equal_actions encode_action occurs_in forbid_tokens
    forbid_mastery_wording require_next_action require_sha256_digest require_idle
    validate_execution_state check_context require_executed check_action check_attempt require_own
    are_consecutive check_current require_entries check_session new_action new_attempt new_session
    encode_context encode_guided_action encode_attempt encode_session compute_session_digest
    session_with_digest replaced append_attempt dict_of provenance_with require_evidence_chain
    attempt_at current_attempt with_last same_status is_open require_accepted require_reportable
    executed_or recorded_action status_after replace_current_attempt attempt_from_evidence
    create_from_first_evaluated_attempt append_evaluated_attempt with_action resolve
    record_action_disposition record_action_execution transition_session starts_with str_eq is_blank
    is_space is_stripped ends_plainly contains all_distinct sort insert put digits escape
    escape_char unit
begun_is_ok = refl

begun_passes : begun ≡ ok offered
begun_passes = passing begun begun_is_ok

-- The learner declines the first action and plays again, accepts, and goes on.
abbrev refusing : GuidedPracticeSession
refusing = or_blank (perform (dispose declined) offered)

refusing_is_ok : is_ok (perform (dispose declined) offered) ≡ true
unfolding require_identifier require_optional_identifier require_unique values print print_items
    print_fields same_type require_identifiers require_supported_rate is_reversed check_next_action
    equal_options equal_lists equal_actions encode_action occurs_in forbid_tokens
    forbid_mastery_wording require_next_action require_sha256_digest require_idle
    validate_execution_state check_context require_executed check_action check_attempt require_own
    are_consecutive check_current require_entries check_session new_action new_attempt new_session
    encode_context encode_guided_action encode_attempt encode_session compute_session_digest
    session_with_digest replaced append_attempt dict_of provenance_with require_evidence_chain
    attempt_at current_attempt with_last same_status is_open require_accepted require_reportable
    executed_or recorded_action status_after replace_current_attempt attempt_from_evidence
    create_from_first_evaluated_attempt append_evaluated_attempt with_action resolve
    record_action_disposition record_action_execution transition_session starts_with str_eq is_blank
    is_space is_stripped ends_plainly contains all_distinct sort insert put digits escape
    escape_char unit
refusing_is_ok = refl

refusing_passes : perform (dispose declined) offered ≡ ok refusing
refusing_passes = passing (perform (dispose declined) offered) refusing_is_ok

abbrev playing_again : Call
playing_again = append (evaluated (codes "p2")) (guided (codes "p2")) (codes "t2") none none

abbrev again : GuidedPracticeSession
again = or_blank (perform playing_again refusing)

again_is_ok : is_ok (perform playing_again refusing) ≡ true
unfolding require_identifier require_optional_identifier require_unique values print print_items
    print_fields same_type require_identifiers require_supported_rate is_reversed check_next_action
    equal_options equal_lists equal_actions encode_action occurs_in forbid_tokens
    forbid_mastery_wording require_next_action require_sha256_digest require_idle
    validate_execution_state check_context require_executed check_action check_attempt require_own
    are_consecutive check_current require_entries check_session new_action new_attempt new_session
    encode_context encode_guided_action encode_attempt encode_session compute_session_digest
    session_with_digest replaced append_attempt dict_of provenance_with require_evidence_chain
    attempt_at current_attempt with_last same_status is_open require_accepted require_reportable
    executed_or recorded_action status_after replace_current_attempt attempt_from_evidence
    create_from_first_evaluated_attempt append_evaluated_attempt with_action resolve
    record_action_disposition record_action_execution transition_session starts_with str_eq is_blank
    is_space is_stripped ends_plainly contains all_distinct sort insert put digits escape
    escape_char unit
again_is_ok = refl

again_passes : perform playing_again refusing ≡ ok again
again_passes = passing (perform playing_again refusing) again_is_ok

abbrev agreed : GuidedPracticeSession
agreed = or_blank (perform (dispose accepted) again)

agreed_is_ok : is_ok (perform (dispose accepted) again) ≡ true
unfolding require_identifier require_optional_identifier require_unique values print print_items
    print_fields same_type require_identifiers require_supported_rate is_reversed check_next_action
    equal_options equal_lists equal_actions encode_action occurs_in forbid_tokens
    forbid_mastery_wording require_next_action require_sha256_digest require_idle
    validate_execution_state check_context require_executed check_action check_attempt require_own
    are_consecutive check_current require_entries check_session new_action new_attempt new_session
    encode_context encode_guided_action encode_attempt encode_session compute_session_digest
    session_with_digest replaced append_attempt dict_of provenance_with require_evidence_chain
    attempt_at current_attempt with_last same_status is_open require_accepted require_reportable
    executed_or recorded_action status_after replace_current_attempt attempt_from_evidence
    create_from_first_evaluated_attempt append_evaluated_attempt with_action resolve
    record_action_disposition record_action_execution transition_session starts_with str_eq is_blank
    is_space is_stripped ends_plainly contains all_distinct sort insert put digits escape
    escape_char unit
agreed_is_ok = refl

agreed_passes : perform (dispose accepted) again ≡ ok agreed
agreed_passes = passing (perform (dispose accepted) again) agreed_is_ok

abbrev over : GuidedPracticeSession
over = or_blank (perform (execute succeeded none) agreed)

over_is_ok : is_ok (perform (execute succeeded none) agreed) ≡ true
unfolding require_identifier require_optional_identifier require_unique values print print_items
    print_fields same_type require_identifiers require_supported_rate is_reversed check_next_action
    equal_options equal_lists equal_actions encode_action occurs_in forbid_tokens
    forbid_mastery_wording require_next_action require_sha256_digest require_idle
    validate_execution_state check_context require_executed check_action check_attempt require_own
    are_consecutive check_current require_entries check_session new_action new_attempt new_session
    encode_context encode_guided_action encode_attempt encode_session compute_session_digest
    session_with_digest replaced append_attempt dict_of provenance_with require_evidence_chain
    attempt_at current_attempt with_last same_status is_open require_accepted require_reportable
    executed_or recorded_action status_after replace_current_attempt attempt_from_evidence
    create_from_first_evaluated_attempt append_evaluated_attempt with_action resolve
    record_action_disposition record_action_execution transition_session starts_with str_eq is_blank
    is_space is_stripped ends_plainly contains all_distinct sort insert put digits escape
    escape_char unit
over_is_ok = refl

over_passes : perform (execute succeeded none) agreed ≡ ok over
over_passes = passing (perform (execute succeeded none) agreed) over_is_ok

refusing_reached : Reached refusing
refusing_reached = record {
  evaluation = evaluated (codes "p1");
  guidance = guided (codes "p1");
  session_id = codes "s";
  attempt_id = codes "t1";
  context = none;
  first = offered;
  begun = begun_passes;
  later = call (dispose declined) here refusing_passes;
}

onward : Leads refusing over
onward =
    call (execute succeeded none)
      (call (dispose accepted) (call playing_again here again_passes) agreed_passes) over_passes

over_reached : Reached over
over_reached = record {
  evaluation = evaluated (codes "p1");
  guidance = guided (codes "p1");
  session_id = codes "s";
  attempt_id = codes "t1";
  context = none;
  first = offered;
  begun = begun_passes;
  later =
      call (execute succeeded none)
        (call (dispose accepted)
          (call playing_again (call (dispose declined) here refusing_passes) again_passes)
          agreed_passes)
        over_passes;
}

Reached-IsProper_example : IsProper over
Reached-IsProper_example = Reached-IsProper over_reached

-- The first attempt, declined.
abbrev first_attempt :
    (as' : List GuidedPracticeAttempt) → GuidedPracticeAttempt → GuidedPracticeAttempt
first_attempt [] a = a
first_attempt (b ∷ as') a = b

abbrev blank_attempt : GuidedPracticeAttempt
blank_attempt = record {
  attempt_id = [];
  attempt_index = 0;
  assignment_id = [];
  content_id = [];
  canonical_revision_id = [];
  performance_session_id = [];
  evaluation_digest = [];
  guidance_digest = [];
  action = record {
    recommended_action = going_on;
    action_disposition = declined;
    execution_status = succeeded;
    executed_action = none;
  };
  practice_context = record { playback_rate = none; loop_start_tick = none; loop_end_tick = none };
}

abbrev declined_one : GuidedPracticeAttempt
declined_one = first_attempt refusing.attempts blank_attempt

declined-IsRecorded : IsRecorded 0 declined_one refusing
unfolding require_identifier require_optional_identifier require_unique values print print_items
    print_fields same_type require_identifiers require_supported_rate is_reversed check_next_action
    equal_options equal_lists equal_actions encode_action occurs_in forbid_tokens
    forbid_mastery_wording require_next_action require_sha256_digest require_idle
    validate_execution_state check_context require_executed check_action check_attempt require_own
    are_consecutive check_current require_entries check_session new_action new_attempt new_session
    encode_context encode_guided_action encode_attempt encode_session compute_session_digest
    session_with_digest replaced append_attempt dict_of provenance_with require_evidence_chain
    attempt_at current_attempt with_last same_status is_open require_accepted require_reportable
    executed_or recorded_action status_after replace_current_attempt attempt_from_evidence
    create_from_first_evaluated_attempt append_evaluated_attempt with_action resolve
    record_action_disposition record_action_execution transition_session starts_with str_eq is_blank
    is_space is_stripped ends_plainly contains all_distinct sort insert put digits escape
    escape_char unit
declined-IsRecorded = (refl, refl)

Leads-IsRecorded_example : IsRecorded 0 declined_one over
Leads-IsRecorded_example =
    Leads-IsRecorded refusing_reached onward 0 declined_one declined-IsRecorded

over_closed : is_open over.status ≡ false
unfolding require_identifier require_optional_identifier require_unique values print print_items
    print_fields same_type require_identifiers require_supported_rate is_reversed check_next_action
    equal_options equal_lists equal_actions encode_action occurs_in forbid_tokens
    forbid_mastery_wording require_next_action require_sha256_digest require_idle
    validate_execution_state check_context require_executed check_action check_attempt require_own
    are_consecutive check_current require_entries check_session new_action new_attempt new_session
    encode_context encode_guided_action encode_attempt encode_session compute_session_digest
    session_with_digest replaced append_attempt dict_of provenance_with require_evidence_chain
    attempt_at current_attempt with_last same_status is_open require_accepted require_reportable
    executed_or recorded_action status_after replace_current_attempt attempt_from_evidence
    create_from_first_evaluated_attempt append_evaluated_attempt with_action resolve
    record_action_disposition record_action_execution transition_session starts_with str_eq is_blank
    is_space is_stripped ends_plainly contains all_distinct sort insert put digits escape
    escape_char unit
over_closed = refl

perform-over_example : (raised : EducationError) × (perform playing_again over ≡ err raised)
perform-over_example = perform-over playing_again over over_closed
