-- ===== src/Education/GuidedSession/Phases.antt =====
-- education/guided_session_service.py: the status of a session by the action of its last attempt.
use master_all_strings.Prelude.{
  ℕ, suc, zero, List, [], ◌∷◌, ◌++◌, Bool, true, false, ◌&&◌, ◌||◌, Option, none, some, ok, length,
  ◌≡◌, refl, sym, ap, ◌∙◌, arith, ok-injective, if◌then◌else◌,
}
use master_all_strings.Education.Actions.{PracticeNextActionType, same_type, continue}
use master_all_strings.Education.GuidedSession.{
  GuidedPracticeSessionStatus, active, awaiting_action, awaiting_attempt, closed, transitioned,
  aborted, GuidedPracticeActionDisposition, pending, accepted, declined,
  GuidedPracticeExecutionStatus, not_requested, awaited, succeeded, failed, unsupported,
  GuidedPracticeAction, GuidedPracticeAttempt,
}
use master_all_strings.Education.GuidedSession.Rules.{is_open, same_status, attempt_at, with_last}

-- The status that goes with an action of which nothing was executed.
abbrev while_idle :
    GuidedPracticeExecutionStatus → GuidedPracticeSessionStatus → Option GuidedPracticeSessionStatus
while_idle not_requested status = some status
while_idle awaited status = none
while_idle succeeded status = none
while_idle failed status = none
while_idle unsupported status = none

abbrev while_accepted :
    GuidedPracticeExecutionStatus → PracticeNextActionType → Option GuidedPracticeSessionStatus
while_accepted not_requested action_type = none
while_accepted awaited action_type = some awaiting_action
while_accepted succeeded action_type =
    some (if same_type action_type continue then closed else awaiting_attempt)
while_accepted failed action_type = some awaiting_attempt
while_accepted unsupported action_type = some awaiting_attempt

abbrev by_disposition :
    GuidedPracticeActionDisposition
    → GuidedPracticeExecutionStatus
    → PracticeNextActionType
    → Option GuidedPracticeSessionStatus
by_disposition pending execution action_type = while_idle execution awaiting_action
by_disposition declined execution action_type = while_idle execution awaiting_attempt
by_disposition accepted execution action_type = while_accepted execution action_type

abbrev pub status_of : GuidedPracticeAction → Option GuidedPracticeSessionStatus
status_of a =
    by_disposition a.action_disposition a.execution_status a.recommended_action.action_type

abbrev is_status : Option GuidedPracticeSessionStatus → GuidedPracticeSessionStatus → Bool
is_status none status = false
is_status (some it) status = same_status it status

-- The learner has answered, and what was accepted is reported on and did not close the session.
abbrev pub is_settled : GuidedPracticeAction → Bool
is_settled a = is_status (status_of a) awaiting_attempt

-- The action is one of a session that goes on.
abbrev goes_on : GuidedPracticeAction → Bool
goes_on a = is_status (status_of a) awaiting_action || is_status (status_of a) awaiting_attempt

-- A session that was left by a change of lesson stands at an action that had not closed it.
abbrev pub in_phase : GuidedPracticeSessionStatus → GuidedPracticeAction → Bool
in_phase status a = (same_status status transitioned && goes_on a) || is_status (status_of a) status

-- The last action goes with the status, and the actions before it are settled.
unfoldable pub in_order : GuidedPracticeSessionStatus → List GuidedPracticeAttempt → Bool
in_order status [] = false
in_order status (a ∷ []) = in_phase status a.action
in_order status (a ∷ b ∷ as') = is_settled a.action && in_order status (b ∷ as')

settled :
    (status : GuidedPracticeSessionStatus) (a : GuidedPracticeAction)
    → same_status status awaiting_attempt ≡ true
    → in_phase status a ≡ true
    → is_settled a ≡ true
unfolding same_status
settled active a h p = ground (arith, h)
settled awaiting_action a h p = ground (arith, h)
settled awaiting_attempt a h p = p
settled closed a h p = ground (arith, h)
settled transitioned a h p = ground (arith, h)
settled aborted a h p = ground (arith, h)

pub in_order-append :
    (status next : GuidedPracticeSessionStatus) (as' : List GuidedPracticeAttempt)
    (x : GuidedPracticeAttempt)
    → same_status status awaiting_attempt ≡ true
    → in_order status as' ≡ true
    → in_phase next x.action ≡ true
    → in_order next (as' ++ x ∷ []) ≡ true
unfolding in_order
in_order-append status next [] x h o p = ground (arith, o)
in_order-append status next (a ∷ []) x h o p = ground (arith, settled status a.action h o, p)
in_order-append status next (a ∷ b ∷ as') x h o p =
    ground (arith, o, in_order-append status next (b ∷ as') x h (ground (arith, o)) p)

pub in_order-with_last :
    (status next : GuidedPracticeSessionStatus) (as' : List GuidedPracticeAttempt)
    (x : GuidedPracticeAttempt)
    → in_order status as' ≡ true
    → in_phase next x.action ≡ true
    → in_order next (with_last as' x) ≡ true
unfolding in_order with_last
in_order-with_last status next [] x o p = p
in_order-with_last status next (a ∷ []) x o p = p
in_order-with_last status next (a ∷ b ∷ []) x o p = ground (arith, o, p)
in_order-with_last status next (a ∷ b ∷ c ∷ as') x o p =
    ground (arith, o, in_order-with_last status next (b ∷ c ∷ as') x (ground (arith, o)) p)

while_idle_open :
    (execution : GuidedPracticeExecutionStatus) (status : GuidedPracticeSessionStatus)
    → same_status status active ≡ false
    → is_status (while_idle execution status) active ≡ true
    → ⊥
while_idle_open not_requested status other e = cc
while_idle_open awaited status other e = cc
while_idle_open succeeded status other e = cc
while_idle_open failed status other e = cc
while_idle_open unsupported status other e = cc

never_active :
    (disposition : GuidedPracticeActionDisposition) (execution : GuidedPracticeExecutionStatus)
    (action_type : PracticeNextActionType)
    → is_status (by_disposition disposition execution action_type) active ≡ true
    → ⊥
unfolding same_status
never_active pending execution action_type e = while_idle_open execution awaiting_action refl e
never_active declined execution action_type e = while_idle_open execution awaiting_attempt refl e
never_active accepted not_requested action_type e = cc
never_active accepted awaited action_type e = cc
never_active accepted succeeded action_type e = ground (arith, e)
never_active accepted failed action_type e = cc
never_active accepted unsupported action_type e = cc

left_open :
    (status : GuidedPracticeSessionStatus) (a : GuidedPracticeAction)
    → is_open status ≡ true
    → in_phase status a ≡ true
    → in_phase transitioned a ≡ true
unfolding is_open same_status
left_open active a left p =
    absurd (never_active a.action_disposition a.execution_status a.recommended_action.action_type p)
left_open awaiting_action a left p = ground (arith, p)
left_open awaiting_attempt a left p = ground (arith, p)
left_open closed a left p = cc
left_open transitioned a left p = cc
left_open aborted a left p = cc

pub in_order-transitioned :
    (status : GuidedPracticeSessionStatus) (as' : List GuidedPracticeAttempt)
    → is_open status ≡ true
    → in_order status as' ≡ true
    → in_order transitioned as' ≡ true
unfolding in_order same_status
in_order-transitioned status [] left o = ground (arith, o)
in_order-transitioned status (a ∷ []) left o = left_open status a.action left o
in_order-transitioned status (a ∷ b ∷ as') left o =
    ground (arith, o, in_order-transitioned status (b ∷ as') left (ground (arith, o)))

-- The attempt at the last index has the action that goes with the status.
pub last-in_phase :
    (status : GuidedPracticeSessionStatus) (as' : List GuidedPracticeAttempt) (index : ℕ)
    {a : GuidedPracticeAttempt}
    → in_order status as' ≡ true
    → suc index ≡ length as'
    → attempt_at as' index ≡ ok a
    → in_phase status a.action ≡ true
unfolding in_order attempt_at
last-in_phase status [] index o last e = ground (arith, o)
last-in_phase status (b ∷ []) zero {a} o last e =
    ap (λ x. in_phase status x.action) (sym (ok-injective e)) ∙ o
last-in_phase status (b ∷ []) (suc index) o last e = absurd (omega (arith, last))
last-in_phase status (b ∷ c ∷ as') zero o last e = absurd (omega (arith, last))
last-in_phase status (b ∷ c ∷ as') (suc index) o last e =
    last-in_phase status (c ∷ as') index (ground (arith, o)) (omega (arith, last)) e

-- What awaits an action is not settled.
pub unsettled :
    (status : GuidedPracticeSessionStatus) (a : GuidedPracticeAction)
    → same_status status awaiting_action ≡ true
    → in_phase status a ≡ true
    → is_settled a ≡ false
unfolding same_status
unsettled status a waiting phase = by_status (status_of a) status waiting phase
  where
    by_status :
        (o : Option GuidedPracticeSessionStatus) (it : GuidedPracticeSessionStatus)
        → same_status it awaiting_action ≡ true
        → ((same_status it transitioned
              && (is_status o awaiting_action || is_status o awaiting_attempt))
            || is_status o it)
          ≡ true
        → is_status o awaiting_attempt ≡ false
    by_status none it h p = refl
    by_status (some other) it h p = ground (arith, h, p)
