-- ===== src/Education/Recommendations.antt =====
-- education/recommendations.py: the next action that findings call for.
pub mod Evidence
pub mod Total
pub mod Kinds
use master_all_strings.Prelude.{
  ℕ, ◌*◌, List, [], ◌∷◌, ◌++◌, Bool, true, false, ◌&&◌, ◌||◌, not, Option, none, some, Result, ok,
  err, require, ◌>>◌, ◌>>=◌, map, length, leb, ltb, max, ℕ_eq, contains, nat_eq, if◌then◌else◌,
}
use master_all_strings.Prelude.Text.{Str, codes}
use master_all_strings.Education.Errors.{EducationError, unsupported_rate, division_by_zero}
use master_all_strings.Education.Actions.{
  PracticeNextAction, PracticeNextActionType, continue, repeat, slow_down, isolate_passage,
  supported_practice_rates, rate_half, rate_three_quarters, rate_full, rate_one_and_a_half,
  check_next_action, same_type,
}
use master_all_strings.Education.Findings.{
  PracticeFinding, PracticeFindingType, early_entry, late_entry, pitch_difference,
  expected_note_missing, unexpected_note, duration_short, duration_long, repetition_improved,
  repetition_regressed, findings_concentrated, PracticeFindingSeverity, info, focus, significant,
  PracticeEvaluationPolicy, PracticeFocusRange, is_actionable,
}

-- `mapping[rate]` of a rate that is supported.
abbrev pub next_slower : ℕ → ℕ
next_slower rate =
    if nat_eq rate rate_one_and_a_half
    then rate_full
    else (if nat_eq rate rate_full then rate_three_quarters else rate_half)

unfoldable pub supported_slower_rate : ℕ → Result EducationError ℕ
supported_slower_rate current_rate = do
  require (contains current_rate supported_practice_rates) unsupported_rate
  ok (next_slower current_rate)

-- `tuple(f for f in findings if test(f))`
unfoldable pub those {ℓ} : {A : Type ℓ} → (A → Bool) → List A → List A
those test [] = []
those test (x ∷ xs) = let rest = those test xs in if test x then x ∷ rest else rest

abbrev is_timing_or_pitch : PracticeFindingType → Bool
is_timing_or_pitch early_entry = true
is_timing_or_pitch late_entry = true
is_timing_or_pitch pitch_difference = true
is_timing_or_pitch expected_note_missing = false
is_timing_or_pitch unexpected_note = false
is_timing_or_pitch duration_short = false
is_timing_or_pitch duration_long = false
is_timing_or_pitch repetition_improved = false
is_timing_or_pitch repetition_regressed = false
is_timing_or_pitch findings_concentrated = false

abbrev pub counts_for_slowing : PracticeFinding → Bool
counts_for_slowing finding = is_actionable finding && is_timing_or_pitch finding.finding_type

abbrev pub ids_of : List PracticeFinding → List Str
ids_of findings = map (λ finding. finding.finding_id) findings

abbrev is_significant : PracticeFindingSeverity → Bool
is_significant info = false
is_significant focus = false
is_significant significant = true

unfoldable pub any_significant : List PracticeFinding → Bool
any_significant [] = false
any_significant (finding ∷ findings) = is_significant finding.severity || any_significant findings

-- The constructor of an action.
unfoldable pub new_next_action : PracticeNextAction → Result EducationError PracticeNextAction
new_next_action action = do check_next_action action; ok action

abbrev pub isolating : PracticeFocusRange → PracticeNextAction
isolating range = record {
  action_type = isolate_passage;
  reason_finding_ids = range.finding_ids;
  message_key = codes "action.isolate_passage";
  target_rate = none;
  focus_start_tick = some range.start_tick;
  focus_end_tick = some range.end_tick;
  teaching_aid = none;
}

abbrev pub slowing : List PracticeFinding → ℕ → PracticeNextAction
slowing findings rate = record {
  action_type = slow_down;
  reason_finding_ids = ids_of findings;
  message_key = codes "action.slow_down";
  target_rate = some rate;
  focus_start_tick = none;
  focus_end_tick = none;
  teaching_aid = none;
}

abbrev pub repeating : List PracticeFinding → PracticeNextAction
repeating findings = record {
  action_type = repeat;
  reason_finding_ids = ids_of findings;
  message_key = codes "action.repeat";
  target_rate = none;
  focus_start_tick = none;
  focus_end_tick = none;
  teaching_aid = none;
}

abbrev pub continuing : List PracticeFinding → PracticeNextAction
continuing findings = record {
  action_type = continue;
  reason_finding_ids = ids_of findings;
  message_key = codes "action.continue";
  target_rate = none;
  focus_start_tick = none;
  focus_end_tick = none;
  teaching_aid = none;
}

-- The first range, if it has enough findings.
unfoldable pub concentrated :
    List PracticeFocusRange → PracticeEvaluationPolicy → Option PracticeFocusRange
concentrated [] policy = none
concentrated (range ∷ ranges) policy =
    if leb policy.passage_cluster_min_findings (length range.finding_ids) then some range else none

-- `len(timing_pitch) / float(expected) >= ratio` for a ratio that is counted in 10^-9; for fewer than
-- a million events the rounding of the quotient does not change the answer.
abbrev pub reaches_ratio : ℕ → ℕ → PracticeEvaluationPolicy → Bool
reaches_ratio found expected policy =
    leb (policy.slow_down_finding_ratio * expected) (found * 1_000_000_000)

unfoldable pub calls_for_slowing : ℕ → ℕ → PracticeEvaluationPolicy → Result EducationError Bool
calls_for_slowing found expected_event_count policy = do
  let expected = max expected_event_count policy.minimum_expected_events
  require (ltb 0 expected) division_by_zero
  ok (reaches_ratio found expected policy)

unfoldable pub slow_action : List PracticeFinding → ℕ → Result EducationError PracticeNextAction
slow_action findings current_rate = do
  rate ← supported_slower_rate current_rate
  new_next_action (slowing (those counts_for_slowing findings) rate)

-- Where no range stands out: the findings, their policy, the expected events and the rate.
unfoldable pub choose_unfocused :
    List PracticeFinding
    → PracticeEvaluationPolicy
    → ℕ
    → ℕ
    → Result EducationError PracticeNextAction
choose_unfocused findings policy expected_event_count current_rate = do
  slowing_down ←
      calls_for_slowing (length (those counts_for_slowing findings)) expected_event_count policy
  elim slowing_down [
    | true ↦ slow_action findings current_rate
    | false ↦
        elim (ltb policy.continue_actionable_finding_count (length (those is_actionable findings))
          || any_significant (those is_actionable findings)) [
            | true ↦ new_next_action (repeating (those is_actionable findings))
            | false ↦ new_next_action (continuing (those is_actionable findings))
          ]
  ]

unfoldable pub choose_primary_next_action :
    List PracticeFinding
    → List PracticeFocusRange
    → PracticeEvaluationPolicy
    → ℕ
    → ℕ
    → Result EducationError PracticeNextAction
choose_primary_next_action findings focus_ranges policy expected_event_count current_rate =
    elim (concentrated focus_ranges policy) [
      | some range ↦ new_next_action (isolating range)
      | none ↦ choose_unfocused findings policy expected_event_count current_rate
    ]

abbrev pub is_empty {ℓ} : {A : Type ℓ} → List A → Bool
is_empty [] = true
is_empty (x ∷ xs) = false

-- `[action]` if the test holds, else `[]`.
unfoldable pub optionally :
    Bool
    → Result EducationError PracticeNextAction
    → Result EducationError (List PracticeNextAction)
optionally false action = ok []
optionally true action = do made ← action; ok (made ∷ [])

unfoldable pub build_next_actions :
    List PracticeFinding
    → List PracticeFocusRange
    → PracticeEvaluationPolicy
    → ℕ
    → ℕ
    → Result EducationError (PracticeNextAction × List PracticeNextAction)
build_next_actions findings focus_ranges policy expected_event_count current_rate = do
  primary ←
      choose_primary_next_action findings focus_ranges policy expected_event_count current_rate
  repeats ←
      optionally
        (not (same_type primary.action_type repeat)
          && not (is_empty (those is_actionable findings)))
        (new_next_action (repeating (those is_actionable findings)))
  slows ←
      optionally
        (not (same_type primary.action_type slow_down)
          && ltb 0 (length (those counts_for_slowing findings)))
        (slow_action findings current_rate)
  ok (primary, repeats ++ slows)
