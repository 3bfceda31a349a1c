-- ===== src/Education/Recommendations/Kinds.antt =====
-- education/recommendations.py: each kind of action is recommended once.
use master_all_strings.Prelude.{
  ℕ, List, [], ◌∷◌, ◌++◌, Bool, true, false, ◌&&◌, not, Result, ok, map, length, ltb, ℕ_eq, Str_eq,
  contains, all_distinct, if◌then◌else◌, ◌≡◌, refl, sym, ap, ◌∙◌, arith, >>=-elim, ok-injective,
  subst,
}
use master_all_strings.Education.Errors.{EducationError}
use master_all_strings.Education.Actions.{
  PracticeNextAction, PracticeNextActionType, continue, repeat, slow_down, isolate_passage,
  view_one_string, enable_zone_view, check_next_action, same_type, type_index,
}
use master_all_strings.Education.Findings.{
  PracticeFinding, PracticeEvaluationPolicy, PracticeFocusRange, is_actionable,
}
use master_all_strings.Education.Recommendations.{
  supported_slower_rate, those, counts_for_slowing, new_next_action, slowing, repeating,
  slow_action, choose_primary_next_action, optionally, build_next_actions, is_empty,
}

abbrev types : List PracticeNextAction → List PracticeNextActionType
types actions = map (λ action. action.action_type) actions

types-append : (xs ys : List PracticeNextAction) → types (xs ++ ys) ≡ types xs ++ types ys
types-append [] ys = refl
types-append (x ∷ xs) ys = ap (λ ks. x.action_type ∷ ks) (types-append xs ys)

-- The type of what is made under a test, if anything is.
optional_type :
    (test : Bool) (r : Result EducationError PracticeNextAction) (kind : PracticeNextActionType)
    {made : List PracticeNextAction}
    → ((action : PracticeNextAction) → r ≡ ok action → action.action_type ≡ kind)
    → optionally test r ≡ ok made
    → map (λ action. action.action_type) made ≡ (if test then kind ∷ [] else [])
unfolding optionally
optional_type true r kind {made} typed e = >>=-elim r _ e (λ action found rest.
    ap (map (λ (a : PracticeNextAction). a.action_type)) (sym (ok-injective rest))
    ∙ ap (λ k. k ∷ []) (typed action found))
optional_type false r kind typed e =
    ap (map (λ (a : PracticeNextAction). a.action_type)) (sym (ok-injective e))

made_type :
    (action : PracticeNextAction) {made : PracticeNextAction}
    → new_next_action action ≡ ok made
    → made.action_type ≡ action.action_type
unfolding new_next_action
made_type action e =
    >>=-elim (check_next_action action) _ e
      (λ _ _ rest. ap (λ (a : PracticeNextAction). a.action_type) (sym (ok-injective rest)))

slow_type :
    (findings : List PracticeFinding) (current_rate : ℕ) {made : PracticeNextAction}
    → slow_action findings current_rate ≡ ok made
    → made.action_type ≡ slow_down
unfolding slow_action
slow_type findings current_rate e =
    >>=-elim (supported_slower_rate current_rate) _ e
      (λ rate _ rest. made_type (slowing (those counts_for_slowing findings) rate) rest)

kinds_apart :
    (kind : PracticeNextActionType) (a b : Bool)
    → all_distinct (
        map type_index (
          kind
          ∷ ((if not (same_type kind repeat) && a then repeat ∷ [] else [])
              ++ (if not (same_type kind slow_down) && b then slow_down ∷ [] else []))))
      ≡ true
unfolding all_distinct contains same_type
kinds_apart continue a b = ground arith
kinds_apart repeat a b = ground arith
kinds_apart slow_down a b = ground arith
kinds_apart isolate_passage a b = ground arith
kinds_apart view_one_string a b = ground arith
kinds_apart enable_zone_view a b = ground arith

kinds_of :
    (repeats slows : List PracticeNextAction) (kind : PracticeNextActionType) (a b : Bool)
    → types repeats ≡ (if not (same_type kind repeat) && a then repeat ∷ [] else [])
    → types slows ≡ (if not (same_type kind slow_down) && b then slow_down ∷ [] else [])
    → all_distinct (map type_index (kind ∷ types (repeats ++ slows))) ≡ true
kinds_of repeats slows kind a b one other =
    rw (types-append repeats slows, one, other) (kinds_apart kind a b)

-- The primary action and the secondary ones are of different types, each of which comes once.
pub build_next_actions-apart :
    (findings : List PracticeFinding) (ranges : List PracticeFocusRange)
    (policy : PracticeEvaluationPolicy) (expected current_rate : ℕ)
    {actions : PracticeNextAction × List PracticeNextAction}
    → build_next_actions findings ranges policy expected current_rate ≡ ok actions
    → all_distinct
        (map type_index (actions.0.action_type ∷ map (λ action. action.action_type) actions.1))
      ≡ true
unfolding build_next_actions
build_next_actions-apart findings ranges policy expected current_rate {actions} e =
    >>=-elim (choose_primary_next_action findings ranges policy expected current_rate) _ e
      (λ primary _ e1.
        >>=-elim
          (optionally
            (not (same_type primary.action_type repeat)
              && not (is_empty (those is_actionable findings)))
            (new_next_action (repeating (those is_actionable findings))))
          _ e1
          (λ repeats made e2.
            >>=-elim
              (optionally
                (not (same_type primary.action_type slow_down)
                  && ltb 0 (length (those counts_for_slowing findings)))
                (slow_action findings current_rate))
              _ e2
              (λ slows slowed e3.
                subst
                  (λ (x : PracticeNextAction × List PracticeNextAction).
                    all_distinct (map type_index (x.0.action_type ∷ types x.1)) ≡ true)
                  (ok-injective e3)
                  (kinds_of repeats slows primary.action_type
                    (not (is_empty (those is_actionable findings)))
                    (ltb 0 (length (those counts_for_slowing findings)))
                    (optional_type
                      (not (same_type primary.action_type repeat)
                        && not (is_empty (those is_actionable findings)))
                      (new_next_action (repeating (those is_actionable findings))) repeat
                      (λ action found. made_type (repeating (those is_actionable findings)) found)
                      made)
                    (optional_type
                      (not (same_type primary.action_type slow_down)
                        && ltb 0 (length (those counts_for_slowing findings)))
                      (slow_action findings current_rate) slow_down
                      (λ action found. slow_type findings current_rate found) slowed)))))
