-- ===== src/Education/GuidedSession/Effects.antt =====
-- education/guided_session.py and guided_session_service.py: what each way to change a session leaves.
use master_all_strings.Prelude.{
  ℕ, suc, List, [], ◌∷◌, true, ◌&&◌, Option, none, some, Result, ok, err, require, >>=-elim, length,
  nat_eq, ◌≡◌, refl, ap, ◌∙◌, subst, arith, ok-injective, Bool-cases, inl, inr,
}
use master_all_strings.Prelude.Text.{str_eq, str_eq_sound}
use master_all_strings.Score.Digest.{Hashing}
use master_all_strings.Education.Errors.{EducationError}
use master_all_strings.Education.GuidedSession.{
  GuidedPracticeSessionStatus, GuidedPracticeAttempt, GuidedPracticeSession, GuidedPracticeAction,
  Lowercase, new_session, check_session, check_current, new_attempt, new_action,
}
use master_all_strings.Education.GuidedSession.Digest.{
  replaced, session_with_digest, placeholder_digest, compute_session_digest, encode_session,
}
use master_all_strings.Education.GuidedSession.Rules.{attempt_at, with_last, current_attempt}
use master_all_strings.Education.GuidedSession.Service.{with_action, replace_current_attempt}
use master_all_strings.Education.GuidedSession.Phases.{in_order, in_phase, last-in_phase}

-- What holds of every session: the checks of its constructor pass, its digest is that of its contents,
-- and its status goes with the action of its last attempt.
pub record IsProper ⦃h : Hashing⦄ (s : GuidedPracticeSession) : Type 0 where
  pub valid : check_session s ≡ ok tt
  pub digest : s.session_digest ≡ compute_session_digest s
  pub order : in_order s.status s.attempts ≡ true

-- `t` is `s`, checked and with its digest.
pub record IsSealed ⦃h : Hashing⦄ (s t : GuidedPracticeSession) : Type 0 where
  pub valid : check_session t ≡ ok tt
  pub digest : t.session_digest ≡ compute_session_digest t
  pub same : t ≡ record s { session_digest = compute_session_digest s }

pub new_session-checked :
    (s : GuidedPracticeSession) {t : GuidedPracticeSession}
    → new_session s ≡ ok t
    → (check_session s ≡ ok tt) × (s ≡ t)
unfolding new_session
new_session-checked s e =
    >>=-elim (check_session s) _ e (λ u checked rest. (checked, ok-injective rest))

module _ ⦃h : Hashing⦄ where
  pub session_with_digest-IsSealed :
      (s : GuidedPracticeSession) {t : GuidedPracticeSession}
      → check_session s ≡ ok tt
      → session_with_digest s ≡ ok t
      → IsSealed s t
  unfolding session_with_digest compute_session_digest encode_session
  session_with_digest-IsSealed s {t} valid e =
      elim (Bool-cases (str_eq s.session_digest (compute_session_digest s))) [
        | inl equal ↦
            let digest = str_eq_sound s.session_digest (compute_session_digest s) equal in
            subst (λ x. IsSealed s x) (ok-injective {E = EducationError} (ground (arith, e, equal)))
              (record {
                valid = valid;
                digest = digest;
                same = ap (λ x. record s { session_digest = x }) digest;
              })
        | inr other ↦
            let made =
              new_session-checked (record s { session_digest = compute_session_digest s }) {t = t}
                (ground (arith, e, other)) in
            subst (λ x. IsSealed s x) made.1 (record { valid = made.0; digest = refl; same = refl })
      ]

  pub replaced-IsSealed :
      (s : GuidedPracticeSession) {t : GuidedPracticeSession} → replaced s ≡ ok t → IsSealed s t
  unfolding replaced compute_session_digest encode_session
  replaced-IsSealed s {t} e =
      >>=-elim (new_session (record s { session_digest = placeholder_digest })) _ e
        (λ draft made rest.
          let checked =
            new_session-checked (record s { session_digest = placeholder_digest }) made in
          let sealed =
            session_with_digest-IsSealed (record s { session_digest = placeholder_digest })
              checked.0 (ap session_with_digest checked.1 ∙ rest) in
          record { valid = sealed.valid; digest = sealed.digest; same = sealed.same })

  pub IsSealed-IsProper :
      (s : GuidedPracticeSession) {t : GuidedPracticeSession}
      → IsSealed s t
      → in_order s.status s.attempts ≡ true
      → IsProper t
  IsSealed-IsProper s {t} sealed order = record {
    valid = sealed.valid;
    digest = sealed.digest;
    order = ap (λ (x : GuidedPracticeSession). in_order x.status x.attempts) sealed.same ∙ order;
  }

-- The index of the current attempt is the last one.
last_index :
    (as' : List GuidedPracticeAttempt) (o : Option ℕ) (index : ℕ) {u : Unit {0}}
    → check_current as' o ≡ ok u
    → o ≡ some index
    → suc index ≡ length as'
unfolding check_current
last_index [] none index e at = ground (arith, at)
last_index [] (some i) index e at = ground (arith, e)
last_index (a ∷ as') none index e at = ground (arith, at)
last_index (a ∷ as') (some i) index e at = ground (arith, e, at)

check_session-current :
    (s : GuidedPracticeSession)
    → check_session s ≡ ok tt
    → check_current s.attempts s.current_attempt_index ≡ ok tt
unfolding check_session
check_session-current s e = ground (arith, e)

-- Where the current attempt stands.
pub record IsCurrent (s : GuidedPracticeSession) (a : GuidedPracticeAttempt) : Type 0 where
  pub index : ℕ
  pub last : suc index ≡ length s.attempts
  pub found : attempt_at s.attempts index ≡ ok a

pub current_attempt-IsCurrent :
    (s : GuidedPracticeSession) {a : GuidedPracticeAttempt}
    → check_session s ≡ ok tt
    → current_attempt s ≡ ok a
    → IsCurrent s a
unfolding current_attempt
current_attempt-IsCurrent s {a} valid e = standing s.current_attempt_index refl e
  where
    standing :
        (o : Option ℕ)
        → s.current_attempt_index ≡ o
        → (elim o as (λ _. Result EducationError GuidedPracticeAttempt) [
          | none ↦ err master_all_strings.Education.Errors.no_current_attempt
          | some index ↦ attempt_at s.attempts index
        ])
          ≡ ok a
        → IsCurrent s a
    standing none at found = ground (arith, found)
    standing (some index) at found = record {
      index = index;
      last = last_index s.attempts s.current_attempt_index index (check_session-current s valid) at;
      found = found;
    }

pub current_attempt-in_phase :
    ⦃h : Hashing⦄ (s : GuidedPracticeSession) {a : GuidedPracticeAttempt}
    → IsProper s
    → current_attempt s ≡ ok a
    → in_phase s.status a.action ≡ true
current_attempt-in_phase s proper e =
    let current = current_attempt-IsCurrent s proper.valid e in
    last-in_phase s.status s.attempts current.index proper.order current.last current.found

module _ ⦃l : Lowercase⦄ ⦃h : Hashing⦄ where
  pub replace_current_attempt-IsSealed :
      (s : GuidedPracticeSession) (x : GuidedPracticeAttempt) (status : GuidedPracticeSessionStatus)
      {t : GuidedPracticeSession}
      → replace_current_attempt s x status ≡ ok t
      → IsSealed (record s { attempts = with_last s.attempts x; status = status }) t
  unfolding replace_current_attempt
  replace_current_attempt-IsSealed s x status e =
      >>=-elim (current_attempt s) _ e (λ current _ rest.
        >>=-elim
          (require
            (str_eq x.attempt_id current.attempt_id && nat_eq x.attempt_index current.attempt_index)
            _)
          _ rest
          (λ _ _ rest'.
            replaced-IsSealed (record s { attempts = with_last s.attempts x; status = status })
              rest'))

  pub with_action-action :
      (a : GuidedPracticeAttempt) (action : GuidedPracticeAction) {x : GuidedPracticeAttempt}
      → with_action a action ≡ ok x
      → x ≡ record a { action = action }
  unfolding with_action new_attempt new_action
  with_action-action a action e = ground (arith, e)
