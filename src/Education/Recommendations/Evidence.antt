-- ===== src/Education/Recommendations/Evidence.antt =====
-- education/recommendations.py: an action whose reasons are the ids of valid findings passes its checks.
use Prim.Native.String.{String}
use master_all_strings.Prelude.{
  ℕ, List, [], ◌∷◌, Bool, true, false, ◌&&◌, ◌||◌, not, ok, require, ◌>>◌, ℕ_eq, Str_eq, contains,
  all_distinct, ◌≡◌, refl, arith, All,
}
use master_all_strings.Prelude.Text.{Str, is_blank, is_space, str_eq}
use master_all_strings.Prelude.Strings.{is_stripped, ends_plainly}
use master_all_strings.Education.Errors.{
  unknown_message, require_identifier, require_unique, require_optional_identifier,
}
use master_all_strings.Education.Actions.{
  PracticeNextAction, slow_down, isolate_passage, supported_practice_rates, check_next_action,
  same_type, require_identifiers, message_keys, require_supported_rate, is_reversed, is_given,
}
use master_all_strings.Education.Findings.{
  PracticeFinding, PracticeFocusRange, check_focus_range, check_finding,
}
use master_all_strings.Education.Recommendations.{
  supported_slower_rate, those, counts_for_slowing, ids_of, new_next_action, isolating, slowing,
  repeating, continuing, slow_action, next_slower,
}

-- What the constructors of findings check of an id holds of the ids of an action.
abbrev pub AreIds : List Str → Type 0
AreIds ids =
    (require_identifiers ids "reason_finding_ids entry" ≡ ok tt) × (all_distinct ids ≡ true)

contains-those :
    (test : PracticeFinding → Bool) (id : Str) (findings : List PracticeFinding)
    → contains id (ids_of findings) ≡ false
    → contains id (ids_of (those test findings)) ≡ false
unfolding contains those
contains-those test id [] h = h
contains-those test id (f ∷ fs) h = ground (arith, h, contains-those test id fs (ground (arith, h)))

distinct-those :
    (test : PracticeFinding → Bool) (findings : List PracticeFinding)
    → all_distinct (ids_of findings) ≡ true
    → all_distinct (ids_of (those test findings)) ≡ true
unfolding all_distinct those
distinct-those test [] h = h
distinct-those test (f ∷ fs) h = ground (
  arith,
  h,
  distinct-those test fs (ground (arith, h)),
  contains-those test f.finding_id fs (ground (arith, h)),
)

identifier-any :
    (id : Str) (one other : String)
    → require_identifier id one ≡ ok tt
    → require_identifier id other ≡ ok tt
unfolding require_identifier
identifier-any id one other h = ground (arith, h)

identifiers-any :
    (ids : List Str) (one other : String)
    → require_identifiers ids one ≡ ok tt
    → require_identifiers ids other ≡ ok tt
unfolding require_identifiers
identifiers-any [] one other h = refl
identifiers-any (id ∷ ids) one other h = ground (
  arith,
  h,
  identifier-any id one other (ground (arith, h)),
  identifiers-any ids one other (ground (arith, h)),
)

-- The findings passed the checks of their constructor.
abbrev pub AreFindings : List PracticeFinding → Type 0
AreFindings findings = All (λ f. check_finding f ≡ ok tt) findings

identifiers-those :
    (test : PracticeFinding → Bool) (findings : List PracticeFinding)
    → AreFindings findings
    → require_identifiers (ids_of (those test findings)) "reason_finding_ids entry" ≡ ok tt
unfolding require_identifiers those check_finding
identifiers-those test [] valid = refl
identifiers-those test (f ∷ fs) (first, valid) = ground (
  arith,
  identifiers-those test fs valid,
  identifier-any f.finding_id "finding_id" "reason_finding_ids entry" (ground (arith, first)),
)

pub those-AreIds :
    (test : PracticeFinding → Bool) (findings : List PracticeFinding)
    → AreFindings findings
    → all_distinct (ids_of findings) ≡ true
    → AreIds (ids_of (those test findings))
those-AreIds test findings valid distinct =
    (identifiers-those test findings valid, distinct-those test findings distinct)

-- What the constructor of an action checks beside its findings, apart from its rate and its focus.
record IsSound (action : PracticeNextAction) : Type 0 where
  rate : require_supported_rate action.target_rate ≡ ok tt
  key :
      (require_identifier action.message_key "message_key"
        >> require (contains action.message_key message_keys) unknown_message)
      ≡ ok tt
  forwards : is_reversed action.focus_start_tick action.focus_end_tick ≡ false
  unaided : require_optional_identifier action.teaching_aid "teaching_aid" ≡ ok tt
  rated : (not (same_type action.action_type slow_down) || is_given action.target_rate) ≡ true
  focused :
      (not (same_type action.action_type isolate_passage)
        || (is_given action.focus_start_tick && is_given action.focus_end_tick))
      ≡ true

sound-passes :
    (action : PracticeNextAction)
    → AreIds action.reason_finding_ids
    → IsSound action
    → new_next_action action ≡ ok action
unfolding new_next_action check_next_action require_unique
sound-passes action (ids, distinct) sound = ground (
  arith, ids, distinct, sound.rate, sound.key, sound.forwards, sound.unaided, sound.rated,
  sound.focused,
)

pub repeating-passes :
    (findings : List PracticeFinding)
    → AreIds (ids_of findings)
    → new_next_action (repeating findings) ≡ ok (repeating findings)
unfolding require_identifier contains require_supported_rate is_reversed same_type
    require_optional_identifier is_blank is_space is_stripped ends_plainly str_eq
repeating-passes findings ids = sound-passes (repeating findings) ids (record {
  rate = refl;
  key = refl;
  forwards = refl;
  unaided = refl;
  rated = refl;
  focused = refl;
})

pub continuing-passes :
    (findings : List PracticeFinding)
    → AreIds (ids_of findings)
    → new_next_action (continuing findings) ≡ ok (continuing findings)
unfolding require_identifier contains require_supported_rate is_reversed same_type
    require_optional_identifier is_blank is_space is_stripped ends_plainly str_eq
continuing-passes findings ids = sound-passes (continuing findings) ids (record {
  rate = refl;
  key = refl;
  forwards = refl;
  unaided = refl;
  rated = refl;
  focused = refl;
})

slowing-passes :
    (findings : List PracticeFinding) (rate : ℕ)
    → AreIds (ids_of findings)
    → contains rate supported_practice_rates ≡ true
    → new_next_action (slowing findings rate) ≡ ok (slowing findings rate)
unfolding require_identifier contains require_supported_rate is_reversed same_type
    require_optional_identifier is_blank is_space is_stripped ends_plainly str_eq
slowing-passes findings rate ids supported = sound-passes (slowing findings rate) ids (record {
  rate = rw supported;
  key = refl;
  forwards = refl;
  unaided = refl;
  rated = refl;
  focused = refl;
})

pub isolating-passes :
    (range : PracticeFocusRange)
    → check_focus_range range ≡ ok tt
    → new_next_action (isolating range) ≡ ok (isolating range)
unfolding require_identifier contains require_supported_rate is_reversed same_type
    require_optional_identifier is_blank is_space is_stripped ends_plainly str_eq check_focus_range
    require_unique
isolating-passes range valid =
    sound-passes (isolating range)
      (
        identifiers-any range.finding_ids "finding_ids entry" "reason_finding_ids entry"
            (ground (arith, valid)),
        ground (arith, valid),
      )
      (record {
        rate = refl;
        key = refl;
        forwards = ground (arith, valid);
        unaided = refl;
        rated = refl;
        focused = refl;
      })

slower : (r : ℕ) → contains (next_slower r) supported_practice_rates ≡ true
unfolding contains
slower r = ground arith

pub slow_action-ok :
    (findings : List PracticeFinding) (current_rate : ℕ)
    → AreIds (ids_of (those counts_for_slowing findings))
    → contains current_rate supported_practice_rates ≡ true
    → (rate : ℕ) × (slow_action findings current_rate
        ≡ ok (slowing (those counts_for_slowing findings) rate))
unfolding slow_action supported_slower_rate
slow_action-ok findings current_rate ids supported = (
  next_slower current_rate,
  rw supported (
      slowing-passes (those counts_for_slowing findings) (next_slower current_rate) ids
        (slower current_rate)),
)
