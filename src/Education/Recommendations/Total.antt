-- ===== src/Education/Recommendations/Total.antt =====
-- education/recommendations.py: valid findings always lead to actions.
use master_all_strings.Prelude.{
  ℕ, List, [], ◌∷◌, ◌++◌, Bool, true, false, ◌&&◌, ◌||◌, not, some, Result, ok, length, ltb, ℕ_eq,
  Str_eq, contains, all_distinct, if◌then◌else◌, ◌≡◌, refl, ap, ◌∙◌, arith, inl, inr, All,
  Option-cases, max,
}
use master_all_strings.Education.Errors.{EducationError}
use master_all_strings.Education.Actions.{
  PracticeNextAction, repeat, slow_down, supported_practice_rates, same_type,
}
use master_all_strings.Education.Findings.{
  PracticeFinding, PracticeEvaluationPolicy, PracticeFocusRange, is_actionable, check_focus_range,
  check_policy, require_positive,
}
use master_all_strings.Education.Recommendations.{
  those, counts_for_slowing, ids_of, new_next_action, isolating, slowing, repeating, continuing,
  concentrated, calls_for_slowing, reaches_ratio, choose_unfocused, slow_action,
  choose_primary_next_action, optionally, build_next_actions, any_significant, is_empty,
}
use master_all_strings.Education.Recommendations.Evidence.{
  AreFindings, those-AreIds, repeating-passes, continuing-passes, isolating-passes, slow_action-ok,
}

-- The inputs that the constructors of findings and ranges have accepted, with distinct findings.
pub record AreEvidence (findings : List PracticeFinding) (ranges : List PracticeFocusRange)
    (current_rate : ℕ) : Type 0 where
  pub valid : AreFindings findings
  pub distinct : all_distinct (ids_of findings) ≡ true
  pub gathered : All (λ range. check_focus_range range ≡ ok tt) ranges
  pub supported : contains current_rate supported_practice_rates ≡ true

concentrated-passes :
    (ranges : List PracticeFocusRange) (policy : PracticeEvaluationPolicy)
    {range : PracticeFocusRange}
    → All (λ range. check_focus_range range ≡ ok tt) ranges
    → concentrated ranges policy ≡ some range
    → new_next_action (isolating range) ≡ ok (isolating range)
unfolding concentrated
concentrated-passes [] policy valid e = cc
concentrated-passes (r ∷ rs) policy {range} (first, valid) e =
    isolating-passes range (ap check_focus_range (ground (arith, e)) ∙ first)

-- A policy that its constructor accepts never divides by zero.
calls_for_slowing-ok :
    (found expected : ℕ) (policy : PracticeEvaluationPolicy)
    → check_policy policy ≡ ok tt
    → calls_for_slowing found expected policy
      ≡ ok (reaches_ratio found (max expected policy.minimum_expected_events) policy)
unfolding calls_for_slowing check_policy require_positive
calls_for_slowing-ok found expected policy accepted = ground (arith, accepted)

-- What is chosen where no range stands out, by the two tests.
choose-by_tests :
    (findings : List PracticeFinding) (policy : PracticeEvaluationPolicy)
    (expected current_rate : ℕ)
    → check_policy policy ≡ ok tt
    → choose_unfocused findings policy expected current_rate ≡ (
        if reaches_ratio
          (length (those counts_for_slowing findings))
          (max expected policy.minimum_expected_events)
          policy
        then slow_action findings current_rate
        else (if ltb policy.continue_actionable_finding_count
                (length (those is_actionable findings))
              || any_significant (those is_actionable findings)
            then new_next_action (repeating (those is_actionable findings))
            else new_next_action (continuing (those is_actionable findings))))
unfolding choose_unfocused
choose-by_tests findings policy expected current_rate accepted =
    rw (calls_for_slowing-ok (length (those counts_for_slowing findings)) expected policy accepted)
      (ground arith)

some_of :
    (b : Bool) {x y : Result EducationError PracticeNextAction}
    → ((action : PracticeNextAction) × (x ≡ ok action))
    → ((action : PracticeNextAction) × (y ≡ ok action))
    → (action : PracticeNextAction) × ((if b then x else y) ≡ ok action)
some_of true one other = one
some_of false one other = other

choose_primary_next_action-ok :
    (findings : List PracticeFinding) (ranges : List PracticeFocusRange)
    (policy : PracticeEvaluationPolicy) (expected current_rate : ℕ)
    → AreEvidence findings ranges current_rate
    → check_policy policy ≡ ok tt
    → (action : PracticeNextAction) × (choose_primary_next_action findings ranges policy expected
          current_rate
        ≡ ok action)
unfolding choose_primary_next_action
choose_primary_next_action-ok findings ranges policy expected current_rate evidence accepted =
    let noted = those-AreIds is_actionable findings evidence.valid evidence.distinct in
    let slow =
      slow_action-ok findings current_rate
        (those-AreIds counts_for_slowing findings evidence.valid evidence.distinct)
        evidence.supported in
    elim (Option-cases (concentrated ranges policy)) [
      | inr (range, gathered) ↦ (
        isolating range,
        rw (choose_primary_next_action, gathered)
            (concentrated-passes ranges policy evidence.gathered gathered),
      )
      | inl alone ↦
          let chosen =
            some_of
              (reaches_ratio (length (those counts_for_slowing findings))
                (max expected policy.minimum_expected_events) policy)
              (slowing (those counts_for_slowing findings) slow.0, slow.1)
              (some_of
                (ltb policy.continue_actionable_finding_count
                    (length (those is_actionable findings))
                  || any_significant (those is_actionable findings))
                (
                  repeating (those is_actionable findings),
                  repeating-passes (those is_actionable findings) noted,
                )
                (
                  continuing (those is_actionable findings),
                  continuing-passes (those is_actionable findings) noted,
                )) in
          (
            chosen.0,
            rw (choose_primary_next_action, alone)
                (choose-by_tests findings policy expected current_rate accepted ∙ chosen.1),
          )
    ]

optionally-ok :
    (test : Bool) (r : Result EducationError PracticeNextAction)
    → ((action : PracticeNextAction) × (r ≡ ok action))
    → (made : List PracticeNextAction) × (optionally test r ≡ ok made)
unfolding optionally
optionally-ok true r (action, e) = (action ∷ [], rw e)
optionally-ok false r (action, e) = ([], refl)

-- Evidence and a policy that the constructors accept, with distinct findings and a rate that is
-- supported, always lead to a primary and to secondary actions: no constructor on the way raises, and
-- the ratio of findings is never divided by zero.
pub build_next_actions-total :
    (findings : List PracticeFinding) (ranges : List PracticeFocusRange)
    (policy : PracticeEvaluationPolicy) (expected current_rate : ℕ)
    → AreEvidence findings ranges current_rate
    → check_policy policy ≡ ok tt
    → (actions : PracticeNextAction × List PracticeNextAction) × (build_next_actions findings ranges
          policy expected current_rate
        ≡ ok actions)
unfolding build_next_actions
build_next_actions-total findings ranges policy expected current_rate evidence accepted =
    let primary =
      choose_primary_next_action-ok findings ranges policy expected current_rate evidence
        accepted in
    let repeats =
      optionally-ok
        (not (same_type primary.0.action_type repeat)
          && not (is_empty (those is_actionable findings)))
        (new_next_action (repeating (those is_actionable findings)))
        (
          repeating (those is_actionable findings),
          repeating-passes (those is_actionable findings)
              (those-AreIds is_actionable findings evidence.valid evidence.distinct),
        ) in
    let slow =
      slow_action-ok findings current_rate
        (those-AreIds counts_for_slowing findings evidence.valid evidence.distinct)
        evidence.supported in
    let slows =
      optionally-ok
        (not (same_type primary.0.action_type slow_down)
          && ltb 0 (length (those counts_for_slowing findings)))
        (slow_action findings current_rate)
        (slowing (those counts_for_slowing findings) slow.0, slow.1) in
    ((primary.0, repeats.0 ++ slows.0), rw (primary.1, repeats.1, slows.1))
