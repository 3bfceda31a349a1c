-- ===== src/Tests/RecommendationTests.antt =====
-- education/recommendations.py at concrete inputs.
use master_all_strings.Prelude.{
  ℕ, ℕ_eq, List, [], ◌∷◌, true, none, Result, ok, err, ◌≡◌, refl, map, contains, all_distinct,
}
use master_all_strings.Prelude.Text.{Str, codes, str_eq, is_blank, is_space}
use master_all_strings.Prelude.Strings.{is_stripped, ends_plainly}
use master_all_strings.Education.Errors.{
  EducationError, require_identifier, require_unique, require_optional_identifier,
}
use master_all_strings.Education.Actions.{
  PracticeNextAction, continue, check_next_action, same_type, require_identifiers,
  require_supported_rate, is_reversed, type_index,
}
use master_all_strings.Education.Findings.{
  PracticeFinding, PracticeFindingType, late_entry, pitch_difference, significant, mvp_defaults,
  check_finding, require_metadata, check_policy, require_positive,
}
use master_all_strings.Education.Recommendations.{
  those, supported_slower_rate, new_next_action, concentrated, calls_for_slowing, choose_unfocused,
  slow_action, choose_primary_next_action, optionally, build_next_actions, any_significant,
}
use master_all_strings.Education.Recommendations.Total.{AreEvidence, build_next_actions-total}
use master_all_strings.Education.Recommendations.Kinds.{build_next_actions-apart}

abbrev finding : Str → PracticeFindingType → PracticeFinding
finding id kind = record {
  finding_id = id;
  finding_type = kind;
  severity = significant;
  evidence_refs = codes "e" ∷ [];
  message_key = codes "finding.late_entry";
  expected_event_refs = [];
  repetition_index = none;
  focus_start_tick = none;
  focus_end_tick = none;
  observed_value = none;
  threshold_value = none;
  metadata = [];
}

abbrev two : List PracticeFinding
two = finding (codes "f1") late_entry ∷ finding (codes "f2") pitch_difference ∷ []

abbrev rate : ℕ
rate = 4_607_182_418_800_017_408

two-AreEvidence : AreEvidence two [] rate
unfolding check_finding require_metadata require_identifiers require_identifier require_unique
    contains all_distinct is_blank is_space is_stripped ends_plainly str_eq is_reversed
two-AreEvidence = record {
  valid = (refl, (refl, tt));
  distinct = refl;
  gathered = tt;
  supported = refl;
}

defaults_accepted : check_policy (mvp_defaults (codes "p")) ≡ ok tt
unfolding check_policy require_positive require_identifier is_blank is_space is_stripped
    ends_plainly
defaults_accepted = refl

build_next_actions-total_example :
    (actions : PracticeNextAction × List PracticeNextAction) × (build_next_actions two []
        (mvp_defaults (codes "p"))
        10
        rate
      ≡ ok actions)
build_next_actions-total_example =
    build_next_actions-total two [] (mvp_defaults (codes "p")) 10 rate two-AreEvidence
      defaults_accepted

abbrev or_nothing :
    Result EducationError (PracticeNextAction × List PracticeNextAction)
    → PracticeNextAction × List PracticeNextAction
or_nothing (ok actions) = actions
or_nothing (err e) = (
  record {
    action_type = continue;
    reason_finding_ids = [];
    message_key = [];
    target_rate = none;
    focus_start_tick = none;
    focus_end_tick = none;
    teaching_aid = none;
  },
  [],
)

abbrev answered : PracticeNextAction × List PracticeNextAction
answered = or_nothing (build_next_actions two [] (mvp_defaults (codes "p")) 10 rate)

is_answered : build_next_actions two [] (mvp_defaults (codes "p")) 10 rate ≡ ok answered
unfolding those supported_slower_rate new_next_action concentrated calls_for_slowing
    choose_unfocused slow_action choose_primary_next_action optionally build_next_actions
    any_significant check_next_action same_type require_identifiers require_supported_rate
    is_reversed require_identifier require_unique require_optional_identifier contains all_distinct
    is_blank is_space is_stripped ends_plainly str_eq
is_answered = refl

build_next_actions-apart_example :
    all_distinct
      (map type_index (answered.0.action_type ∷ map (λ action. action.action_type) answered.1))
    ≡ true
build_next_actions-apart_example =
    build_next_actions-apart two [] (mvp_defaults (codes "p")) 10 rate is_answered
