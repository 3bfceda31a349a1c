-- ===== src/Education/Actions.antt =====
-- education/contracts.py: the action that the learner is advised to take.
use Prim.Native.String.{String}
use master_all_strings.Prelude.{
  ℕ, List, [], ◌∷◌, Bool, true, false, ◌&&◌, ◌||◌, not, Option, none, some, Result, ok, require,
  ◌>>◌, Str_eq, ℕ_eq, contains, ltb, nat_eq,
}
use master_all_strings.Prelude.Text.{Str, codes, str_eq}
use master_all_strings.Education.Errors.{
  EducationError, require_identifier, require_optional_identifier, require_unique, unknown_message,
  unsupported_rate, focus_reversed, rate_missing, focus_missing,
}
use master_all_strings.Education.Encoding.{
  Value, number, float, text, array, dict, none_left, field, values, optional,
}

pub data PracticeNextActionType : Type 0 where
  continue repeat slow_down isolate_passage view_one_string enable_zone_view :
      PracticeNextActionType

abbrev pub type_value : PracticeNextActionType → Str
type_value continue = codes "continue"
type_value repeat = codes "repeat"
type_value slow_down = codes "slow_down"
type_value isolate_passage = codes "isolate_passage"
type_value view_one_string = codes "view_one_string"
type_value enable_zone_view = codes "enable_zone_view"

abbrev pub type_index : PracticeNextActionType → ℕ
type_index continue = 0
type_index repeat = 1
type_index slow_down = 2
type_index isolate_passage = 3
type_index view_one_string = 4
type_index enable_zone_view = 5

-- `a is b` on the members of the enumeration.
unfoldable pub same_type : PracticeNextActionType → PracticeNextActionType → Bool
same_type a b = nat_eq (type_index a) (type_index b)

-- A rate is the bits of a float.
pub record PracticeNextAction : Type 0 where
  pub action_type : PracticeNextActionType
  pub reason_finding_ids : List Str
  pub message_key : Str
  pub target_rate : Option ℕ
  pub focus_start_tick : Option ℕ
  pub focus_end_tick : Option ℕ
  pub teaching_aid : Option Str

-- 0.5, 0.75, 1.0 and 1.5
abbrev pub rate_half : ℕ
rate_half = 4_602_678_819_172_646_912

abbrev pub rate_three_quarters : ℕ
rate_three_quarters = 4_604_930_618_986_332_160

abbrev pub rate_full : ℕ
rate_full = 4_607_182_418_800_017_408

abbrev pub rate_one_and_a_half : ℕ
rate_one_and_a_half = 4_609_434_218_613_702_656

abbrev pub supported_practice_rates : List ℕ
supported_practice_rates = rate_half ∷ rate_three_quarters ∷ rate_full ∷ rate_one_and_a_half ∷ []

-- The keys of `MESSAGE_CATALOG_V1`.
abbrev pub message_keys : List Str
message_keys =
    codes "finding.early_entry"
    ∷ codes "finding.late_entry"
    ∷ codes "finding.pitch_difference"
    ∷ codes "finding.expected_note_missing"
    ∷ codes "finding.unexpected_note"
    ∷ codes "finding.duration_short"
    ∷ codes "finding.duration_long"
    ∷ codes "finding.repetition_improved"
    ∷ codes "finding.repetition_regressed"
    ∷ codes "finding.findings_concentrated"
    ∷ codes "action.continue"
    ∷ codes "action.repeat"
    ∷ codes "action.slow_down"
    ∷ codes "action.isolate_passage"
    ∷ codes "action.view_one_string"
    ∷ codes "action.enable_zone_view"
    ∷ []

unfoldable pub require_identifiers : List Str → String → Result EducationError (Unit {0})
require_identifiers [] field_name = ok tt
require_identifiers (id ∷ ids) field_name = do
  require_identifier id field_name
  require_identifiers ids field_name

abbrev pub is_given {ℓ} : {A : Type ℓ} → Option A → Bool
is_given none = false
is_given (some x) = true

unfoldable pub require_supported_rate : Option ℕ → Result EducationError (Unit {0})
require_supported_rate none = ok tt
require_supported_rate (some rate) =
    require (contains rate supported_practice_rates) unsupported_rate

-- Both ends are given, and the second is before the first.
unfoldable pub is_reversed : Option ℕ → Option ℕ → Bool
is_reversed (some start) (some finish) = ltb finish start
is_reversed (some start) none = false
is_reversed none finish = false

-- `PracticeNextActionV1.__post_init__`
unfoldable pub check_next_action : PracticeNextAction → Result EducationError (Unit {0})
check_next_action action = do
  require_identifiers action.reason_finding_ids "reason_finding_ids entry"
  require_unique action.reason_finding_ids "reason_finding_ids"
  require_identifier action.message_key "message_key"
  require (contains action.message_key message_keys) unknown_message
  require_supported_rate action.target_rate
  require (not (is_reversed action.focus_start_tick action.focus_end_tick)) focus_reversed
  require_optional_identifier action.teaching_aid "teaching_aid"
  require (not (same_type action.action_type slow_down) || is_given action.target_rate) rate_missing
  require
      (not (same_type action.action_type isolate_passage)
        || (is_given action.focus_start_tick && is_given action.focus_end_tick))
      focus_missing

unfoldable pub equal_options {ℓ} : {A : Type ℓ} → (A → A → Bool) → Option A → Option A → Bool
equal_options same none none = true
equal_options same none (some y) = false
equal_options same (some x) none = false
equal_options same (some x) (some y) = same x y

unfoldable pub equal_lists : List Str → List Str → Bool
equal_lists [] [] = true
equal_lists [] (t ∷ ts) = false
equal_lists (s ∷ ss) [] = false
equal_lists (s ∷ ss) (t ∷ ts) = str_eq s t && equal_lists ss ts

-- `a == b`
unfoldable pub equal_actions : PracticeNextAction → PracticeNextAction → Bool
equal_actions a b =
    same_type a.action_type b.action_type
    && equal_lists a.reason_finding_ids b.reason_finding_ids
    && str_eq a.message_key b.message_key
    && equal_options nat_eq a.target_rate b.target_rate
    && equal_options nat_eq a.focus_start_tick b.focus_start_tick
    && equal_options nat_eq a.focus_end_tick b.focus_end_tick
    && equal_options str_eq a.teaching_aid b.teaching_aid

unfoldable pub encode_action : PracticeNextAction → Value
encode_action action = dict (
    field (codes "action_type") (text (type_value action.action_type)) (
      field (codes "focus_end_tick") (optional number action.focus_end_tick) (
        field (codes "focus_start_tick") (optional number action.focus_start_tick) (
          field (codes "message_key") (text action.message_key) (
            field (codes "reason_finding_ids") (array (values text action.reason_finding_ids)) (
              field (codes "schema_version") (text (codes "1.0.0")) (
                field (codes "target_rate")
                  (optional (λ x. float (record { bits = x })) action.target_rate)
                  (field (codes "teaching_aid") (optional text action.teaching_aid)
                    none_left))))))))
