-- ===== src/Education/GuidedSession/Records.antt =====
-- education/guided_session_service.py: what a session has recorded stays, and a session that is over
-- is not changed.
use master_all_strings.Prelude.{
  ℕ, suc, zero, List, [], ◌∷◌, ◌++◌, true, false, ok, err, Result-cases, length, nat_eq, ◌≡◌, refl,
  sym, ap, ◌∙◌, arith, ok-injective, inl, inr, Bool-cases,
}
use master_all_strings.Score.Digest.{Hashing}
use master_all_strings.Education.Errors.{EducationError}
use master_all_strings.Education.GuidedSession.{
  GuidedPracticeSessionStatus, active, awaiting_action, awaiting_attempt, closed, transitioned,
  aborted, GuidedPracticeAttempt, GuidedPracticeSession, Lowercase,
}
use master_all_strings.Education.GuidedSession.Rules.{attempt_at, with_last, same_status, is_open}
use master_all_strings.Education.GuidedSession.Steps.{
  Call, append, dispose, execute, transition, perform, Leads, here, call, Reached,
}
use master_all_strings.Education.GuidedSession.Phases.{is_settled, unsettled}
use master_all_strings.Education.GuidedSession.Effects.{
  current_attempt-IsCurrent, IsProper, current_attempt-in_phase,
}
use master_all_strings.Education.GuidedSession.Progress.{
  append-IsGrowth, IsAnswer, dispose-IsAnswer, execute-IsAnswer, transition-IsDeparture,
}
use master_all_strings.Education.GuidedSession.Invariant.{Leads-IsProper, Reached-IsProper}

-- A status that is over is none that is open.
over_waits :
    (status one : GuidedPracticeSessionStatus)
    → is_open one ≡ true
    → is_open status ≡ false
    → same_status status one ≡ true
    → ⊥
unfolding same_status is_open
over_waits status active k n h = grind (arith, h, n)
over_waits status awaiting_action k n h = grind (arith, h, n)
over_waits status awaiting_attempt k n h = grind (arith, h, n)
over_waits status closed k n h = cc
over_waits status transitioned k n h = cc
over_waits status aborted k n h = cc

attempt_at-append :
    (as' bs : List GuidedPracticeAttempt) (index : ℕ) {a : GuidedPracticeAttempt}
    → attempt_at as' index ≡ ok a
    → attempt_at (as' ++ bs) index ≡ ok a
unfolding attempt_at
attempt_at-append [] bs index e = cc
attempt_at-append (b ∷ as') bs zero e = e
attempt_at-append (b ∷ as') bs (suc index) e = attempt_at-append as' bs index e

-- The new last attempt stands at the last index only.
attempt_at-with_last :
    (as' : List GuidedPracticeAttempt) (x : GuidedPracticeAttempt) (last index : ℕ)
    {a : GuidedPracticeAttempt}
    → suc last ≡ length as'
    → attempt_at as' index ≡ ok a
    → nat_eq index last ≡ false
    → attempt_at (with_last as' x) index ≡ ok a
unfolding attempt_at with_last
attempt_at-with_last [] x last index end e apart = cc
attempt_at-with_last (b ∷ []) x last zero end e apart = absurd (ground (arith, end, apart))
attempt_at-with_last (b ∷ []) x last (suc index) end e apart = cc
attempt_at-with_last (b ∷ c ∷ as') x last zero end e apart = e
attempt_at-with_last (b ∷ c ∷ as') x zero (suc index) end e apart = absurd (omega (arith, end))
attempt_at-with_last (b ∷ c ∷ as') x (suc last) (suc index) end e apart =
    attempt_at-with_last (c ∷ as') x last index (omega (arith, end)) e (ground (arith, apart))

module _ ⦃l : Lowercase⦄ ⦃h : Hashing⦄ where
  -- An attempt whose action is settled.
  abbrev pub IsRecorded : ℕ → GuidedPracticeAttempt → GuidedPracticeSession → Type 0
  IsRecorded index a s = (attempt_at s.attempts index ≡ ok a) × (is_settled a.action ≡ true)

  answer-IsRecorded :
      (s : GuidedPracticeSession) (index : ℕ) (a : GuidedPracticeAttempt)
      {t : GuidedPracticeSession}
      → IsProper s
      → IsAnswer s t
      → IsRecorded index a s
      → IsRecorded index a t
  answer-IsRecorded s index a proper answer (there, settled) =
      let current = current_attempt-IsCurrent s proper.valid answer.found in
      let open' =
        unsettled s.status answer.current.action answer.waiting
          (current_attempt-in_phase s proper answer.found) in
      elim (Bool-cases (nat_eq index current.index)) [
        | inl equal ↦
            absurd (mixed s.attempts index current.index equal there current.found settled open')
        | inr apart ↦ (
          ap (λ (x : GuidedPracticeSession). attempt_at x.attempts index) answer.sealed.same
              ∙ attempt_at-with_last s.attempts (record answer.current { action = answer.action })
                  current.index index current.last there apart,
          settled,
        )
      ]
    where
      mixed :
          (as' : List GuidedPracticeAttempt) (i j : ℕ) {a b : GuidedPracticeAttempt}
          → nat_eq i j ≡ true
          → attempt_at as' i ≡ ok a
          → attempt_at as' j ≡ ok b
          → is_settled a.action ≡ true
          → is_settled b.action ≡ false
          → ⊥
      mixed as' i j {a} {b} equal e f settled open' =
          let same : i ≡ j = ground (arith, equal) in
          let one : a ≡ b =
            ok-injective {E = EducationError} (sym e ∙ ap (attempt_at as') same ∙ f) in
          cc

  perform-IsRecorded :
      (c : Call) (s : GuidedPracticeSession) (index : ℕ) (a : GuidedPracticeAttempt)
      {t : GuidedPracticeSession}
      → IsProper s
      → perform c s ≡ ok t
      → IsRecorded index a s
      → IsRecorded index a t
  perform-IsRecorded (append e g id at context) s index a proper done (there, settled) =
      let grown = append-IsGrowth s e g id at context done in
      (
        ap (λ (x : GuidedPracticeSession). attempt_at x.attempts index) grown.sealed.same
            ∙ attempt_at-append s.attempts (grown.attempt ∷ []) index there,
        settled,
      )
  perform-IsRecorded (dispose disposition) s index a proper done recorded =
      answer-IsRecorded s index a proper (dispose-IsAnswer s disposition done) recorded
  perform-IsRecorded (execute execution executed) s index a proper done recorded =
      answer-IsRecorded s index a proper (execute-IsAnswer s execution executed done) recorded
  perform-IsRecorded (transition assignment content reason) s index a proper done (there, settled) =
      let left = transition-IsDeparture s assignment content reason done in
      (
        ap (λ (x : GuidedPracticeSession). attempt_at x.attempts index) left.sealed.same ∙ there,
        settled,
      )

  -- An attempt of a reached session whose action was declined, or accepted and reported on without
  -- closing the session, is the same attempt at the same place after any further calls that succeed.
  pub Leads-IsRecorded :
      {s t : GuidedPracticeSession}
      → Reached s
      → Leads s t
      → (index : ℕ) (a : GuidedPracticeAttempt) → IsRecorded index a s
      → IsRecorded index a t
  Leads-IsRecorded {s} reached later index a recorded = kept later
    where
      kept : {u : GuidedPracticeSession} → Leads s u → IsRecorded index a u
      kept here = recorded
      kept (call {t} {u} c before done) =
          perform-IsRecorded c t index a (Leads-IsProper (Reached-IsProper reached) before) done
            (kept before)

  -- A session that is closed, was left or was aborted refuses every call.
  pub perform-over :
      (c : Call) (s : GuidedPracticeSession)
      → is_open s.status ≡ false
      → (raised : EducationError) × (perform c s ≡ err raised)
  unfolding is_open
  perform-over c s over = elim (Result-cases (perform c s)) [
    | inl (t, done) ↦ absurd (refuted c s t done over)
    | inr (raised, refused) ↦ (raised, refused)
  ]
    where
      refuted :
          (c : Call) (s t : GuidedPracticeSession)
          → perform c s ≡ ok t
          → is_open s.status ≡ false
          → ⊥
      refuted (append e g id at context) s t done over =
          over_waits s.status awaiting_attempt refl over
            (append-IsGrowth s e g id at context done).waiting
      refuted (dispose disposition) s t done over =
          over_waits s.status awaiting_action refl over
            (dispose-IsAnswer s disposition done).waiting
      refuted (execute execution executed) s t done over =
          over_waits s.status awaiting_action refl over
            (execute-IsAnswer s execution executed done).waiting
      refuted (transition assignment content reason) s t done over =
          ground (arith, over, (transition-IsDeparture s assignment content reason done).opened)
