-- ===== src/Education/Findings.antt =====
-- education/contracts.py: findings, the ranges where they gather, and the policy of an evaluation.
use Prim.Native.String.{String}
use master_all_strings.Prelude.{
  ℕ, List, [], ◌∷◌, Bool, true, false, not, Option, Result, ok, require, ◌>>◌, Str_eq, contains,
  leb, ltb,
}
use master_all_strings.Prelude.Int.{ℤ}
use master_all_strings.Prelude.Text.{Str}
use master_all_strings.Education.Errors.{
  EducationError, require_identifier, require_unique, unknown_message, focus_reversed, not_positive,
  not_a_ratio, no_evidence, range_reversed,
}
use master_all_strings.Education.Actions.{message_keys, require_identifiers, is_reversed}

pub data PracticeFindingType : Type 0 where
  early_entry late_entry pitch_difference expected_note_missing unexpected_note duration_short
        duration_long repetition_improved repetition_regressed findings_concentrated :
      PracticeFindingType

pub data PracticeFindingSeverity : Type 0 where
  info focus significant : PracticeFindingSeverity

-- The ratio is counted in 10^-9.
pub record PracticeEvaluationPolicy : Type 0 where
  pub policy_id : Str
  pub early_finding_threshold_ms : ℕ
  pub late_finding_threshold_ms : ℕ
  pub pitch_difference_threshold_semitones : ℕ
  pub passage_cluster_window_events : ℕ
  pub passage_cluster_min_findings : ℕ
  pub slow_down_finding_ratio : ℕ
  pub continue_actionable_finding_count : ℕ
  pub minimum_expected_events : ℕ

unfoldable pub require_positive : ℕ → String → Result EducationError (Unit {0})
require_positive value field_name = require (ltb 0 value) (not_positive field_name)

-- `PracticeEvaluationPolicyV1.__post_init__`
unfoldable pub check_policy : PracticeEvaluationPolicy → Result EducationError (Unit {0})
check_policy policy = do
  require_identifier policy.policy_id "policy_id"
  require_positive policy.passage_cluster_window_events "passage_cluster_window_events"
  require_positive policy.passage_cluster_min_findings "passage_cluster_min_findings"
  require (leb policy.slow_down_finding_ratio 1_000_000_000) not_a_ratio
  require_positive policy.minimum_expected_events "minimum_expected_events"

abbrev pub mvp_defaults : Str → PracticeEvaluationPolicy
mvp_defaults policy_id = record {
  policy_id = policy_id;
  early_finding_threshold_ms = 100;
  late_finding_threshold_ms = 100;
  pitch_difference_threshold_semitones = 1;
  passage_cluster_window_events = 4;
  passage_cluster_min_findings = 3;
  slow_down_finding_ratio = 300_000_000;
  continue_actionable_finding_count = 1;
  minimum_expected_events = 1;
}

pub record PracticeFocusRange : Type 0 where
  pub start_tick : ℕ
  pub end_tick : ℕ
  pub finding_ids : List Str

-- `PracticeFocusRangeV1.__post_init__`
unfoldable pub check_focus_range : PracticeFocusRange → Result EducationError (Unit {0})
check_focus_range range = do
  require (not (ltb range.end_tick range.start_tick)) range_reversed
  require_identifiers range.finding_ids "finding_ids entry"
  require_unique range.finding_ids "finding_ids"

pub record PracticeFinding : Type 0 where
  pub finding_id : Str
  pub finding_type : PracticeFindingType
  pub severity : PracticeFindingSeverity
  pub evidence_refs : List Str
  pub message_key : Str
  pub expected_event_refs : List Str
  pub repetition_index : Option ℕ
  pub focus_start_tick : Option ℕ
  pub focus_end_tick : Option ℕ
  pub observed_value : Option ℤ
  pub threshold_value : Option ℤ
  pub metadata : List (Str × Str)

abbrev is_nonempty : List Str → Bool
is_nonempty [] = false
is_nonempty (s ∷ ss) = true

unfoldable pub require_metadata : List (Str × Str) → Result EducationError (Unit {0})
require_metadata [] = ok tt
require_metadata ((key, value) ∷ entries) = do
  require_identifier key "metadata key"
  require_identifier value "metadata value"
  require_metadata entries

-- `PracticeFindingV1.__post_init__`
unfoldable pub check_finding : PracticeFinding → Result EducationError (Unit {0})
check_finding finding = do
  require_identifier finding.finding_id "finding_id"
  require (is_nonempty finding.evidence_refs) no_evidence
  require_identifiers finding.evidence_refs "evidence_refs entry"
  require_unique finding.evidence_refs "evidence_refs"
  require_identifiers finding.expected_event_refs "expected_event_refs entry"
  require_unique finding.expected_event_refs "expected_event_refs"
  require_identifier finding.message_key "message_key"
  require (contains finding.message_key message_keys) unknown_message
  require (not (is_reversed finding.focus_start_tick finding.focus_end_tick)) focus_reversed
  require_metadata finding.metadata

abbrev is_noted : PracticeFindingSeverity → Bool
is_noted info = false
is_noted focus = true
is_noted significant = true

abbrev pub is_actionable : PracticeFinding → Bool
is_actionable finding = is_noted finding.severity
