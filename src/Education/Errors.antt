-- ===== src/Education/Errors.antt =====
-- education/errors.py: the contract failures and the validators.
use Prim.Native.String.{String}
use master_all_strings.Prelude.{
  List, not, Option, none, some, Result, ok, require, ◌>>◌, Eq, all_distinct,
}
use master_all_strings.Prelude.Text.{Str, is_blank}
use master_all_strings.Prelude.Strings.{is_stripped}

-- `EducationContractError`, by its message, and the `ZeroDivisionError` of a ratio.
pub data EducationError : Type 0 where
  blank padded repeated not_a_digest : String → EducationError
  mastery_wording : String → EducationError
  unknown_message unsupported_rate focus_reversed rate_missing focus_missing : EducationError
  loop_half_given loop_reversed : EducationError
  action_requested_early action_recorded_early success_unrecorded record_without_success :
      EducationError
  attempt_of_other_assignment attempt_of_other_content attempt_of_other_revision : EducationError
  indexes_not_consecutive stray_current_index stale_current_index wrong_attempt_index :
      EducationError
  sessions_disagree evaluations_disagree actions_disagree : EducationError
  no_current_attempt identity_not_preserved : EducationError
  not_awaiting_attempt not_awaiting_action not_same_assignment not_same_content not_same_revision :
      EducationError
  duplicate_index duplicate_attempt duplicate_session : EducationError
  nothing_recommended disposition_resolved disposition_pending : EducationError
  action_declined action_not_accepted execution_resolved execution_not_final : EducationError
  success_unsupported unsupported_supported unsupported_recorded other_action_recorded :
      EducationError
  session_terminal nothing_changed : EducationError
  not_positive : String → EducationError
  not_a_ratio no_evidence range_reversed : EducationError
  division_by_zero : EducationError

unfoldable pub require_identifier : Str → String → Result EducationError (Unit {0})
require_identifier value field_name = do
  require (not (is_blank value)) (blank field_name)
  require (is_stripped value) (padded field_name)

unfoldable pub require_optional_identifier : Option Str → String → Result EducationError (Unit {0})
require_optional_identifier none field_name = ok tt
require_optional_identifier (some value) field_name = require_identifier value field_name

unfoldable pub require_unique {ℓ} :
    {A : Type ℓ} ⦃e : Eq A⦄ → List A → String → Result EducationError (Unit {0})
require_unique values field_name = require (all_distinct values) (repeated field_name)
