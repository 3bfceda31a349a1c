-- ===== src/Performance/FakeRuntime/Stability/Captures.antt =====
-- The methods that open, close, interrupt and hand out captures keep a stable property.
use Prim.Native.String.{String}
use master_all_strings.Prelude.{
  subst, ap, List, [], ◌∷◌, Bool, true, false, Option, none, some, ◌≡◌, refl, inl, inr, Bool-cases,
  Str_eq, contains,
}
use master_all_strings.Prelude.Action.{
  ◌>>=◌, ◌>>◌, return, modify, lift, Keeps, Keeps->>=, Keeps-option, leads->>=, leads-lift,
}
use master_all_strings.Prelude.Dict.{get}
use master_all_strings.Prelude.Text.{Str, codes, str_eq_sound}
use master_all_strings.Performance.Errors.{Iso8601}
use master_all_strings.Performance.Runtimes.{RuntimeFault, FaultCode, invalid_state, Detail}
use master_all_strings.Performance.Sessions.{recording, stopped}
use master_all_strings.Performance.Capture.{
  CompletionState, build_raw_capture, close_capture, mark_capture_interrupted,
}
use master_all_strings.Performance.CommandResults.{CommandResult}
use master_all_strings.Performance.FakeRuntime.{
  FakeRuntime, SessionRecord, Method, now, identity, next_fault, success, failure, capture_failure,
  stored, store, set_session, fake_source,
}
use master_all_strings.Performance.FakeRuntime.Capturing as Capturing
use master_all_strings.Performance.FakeRuntime.Stability.{
  Stable, CapturePredicate, On, now-Keeps, identity-Keeps, next_fault-Keeps, success-Keeps,
  failure-Keeps, with_session-Keeps, leads-stored, Found, Idle,
}

module _ ⦃iso : Iso8601⦄ (P : CapturePredicate) (Allowed : Str → Type 0)
    (stable : Stable P Allowed) where
  pub close_interrupted-Keeps :
      (id : Str) (fault : RuntimeFault) (s : FakeRuntime)
      → s.active_capture_id ≡ some id
      → On P s
      → On P (Capturing.close_interrupted id fault s).1
  unfolding Capturing.close_interrupted mark_capture_interrupted
  close_interrupted-Keeps id fault s active h = leads-stored P id _ s h (λ c found.
      leads->>= (On (Found P id c)) (On P) now _ (now-Keeps (Found P id c)) (λ t i. i.0)
        (λ time t i. leads-lift (On P) (close_capture c time _ _ _) _ t i.0 (λ d closed.
          stable.closes t.captures t.sequence id c d time _ _ _
            (subst (λ a. P t.captures a t.sequence) i.1 i.0) i.2 closed))
        s (h, active, found))

  pub closed_from :
      (fault : RuntimeFault) (s : FakeRuntime) (o : Option Str)
      → s.active_capture_id ≡ o
      → On P s
      → On P
          ((elim o as (λ _. Method (Unit {0})) [
            | none ↦ return tt
            | some id ↦ Capturing.close_interrupted id fault
          ])
            s).1
  closed_from fault s none e h = h
  closed_from fault s (some id) e h = close_interrupted-Keeps id fault s e h

  pub close_active-Keeps : (fault : RuntimeFault) → Keeps (On P) (Capturing.close_active fault)
  unfolding Capturing.close_active
  close_active-Keeps fault s h = closed_from fault s s.active_capture_id refl h

  pub interrupt-Keeps :
      (code : FaultCode) (detail : Detail) (recoverable : Bool)
      → Keeps (On P) (Capturing.interrupt_active_capture code detail recoverable)
  unfolding Capturing.interrupt_active_capture
  interrupt-Keeps code detail recoverable =
      Keeps->>= (On P) (next_fault code "process" detail recoverable) _
        (next_fault-Keeps P code "process" detail recoverable)
        (λ fault.
          Keeps->>= (On P) (Capturing.close_active fault) _ (close_active-Keeps fault) (λ _ t i. i))

  pub crash-Keeps : Keeps (On P) Capturing.crash
  unfolding Capturing.crash
  crash-Keeps s h =
      Keeps->>= (On P)
        (next_fault FaultCode.runtime_crashed "process" Detail.exited_unexpectedly false) _
        (next_fault-Keeps P _ _ _ _)
        (λ fault t i.
          Keeps->>= (On P) (Capturing.close_active fault) _ (close_active-Keeps fault)
            (λ _ u j. Keeps->>= (On P) now _ (now-Keeps P) (λ time v k. k) _ j) t i)
        s h

  pub stopped_from :
      (s : FakeRuntime) (o : Option SessionRecord)
      → On P s
      → On P (elim o as (λ _. FakeRuntime) [
        | none ↦ s
        | some session ↦ set_session (some (record session { transport_mode = stopped })) s
      ])
  stopped_from s none h = h
  stopped_from s (some session) h = h

  pub transport_stopped : (s : FakeRuntime) → On P s → On P (Capturing.stop_transport s)
  transport_stopped s h = stopped_from s s.session h

  pub opens_from :
      (session_id id : Str)
      → Allowed id
      → (session : SessionRecord) (r t : FakeRuntime) (o : Option Str) → t.active_capture_id ≡ o
      → On P t
      → On P
          ((elim o as (λ _. Method CommandResult) [
            | some _ ↦ failure "start_capture" invalid_state "capture" Detail.already_active
            | none ↦ do
              who ← identity
              source ← lift fake_source
              time ← now
              capture ← lift (
                  build_raw_capture id session_id who source time session.config.transport.tempo_bpm
                    session.config.transport.meter
                    ((codes "runtime", r.runtime_id) ∷ []))
              modify (λ r. record (store id capture r) {
                active_capture_id = some id;
                session = some (record session { transport_mode = recording });
              })
              success "start_capture"
          ])
            t).1
  opens_from session_id id allowed session r t (some _) e i = failure-Keeps P _ _ _ _ t i
  opens_from session_id id allowed session r t none e i =
      leads->>= (On (Idle P)) (On P) identity _ (identity-Keeps (Idle P)) (λ u j. j.0)
        (λ who u j.
          leads->>= (On (Idle P)) (On P) (lift fake_source) _ (λ v k. k) (λ v k. k.0)
            (λ source v k.
              leads->>= (On (Idle P)) (On P) now _ (now-Keeps (Idle P)) (λ w l. l.0)
                (λ time w l.
                  leads-lift (On P) (build_raw_capture id session_id who source time _ _ _) _ w l.0
                    (λ capture built. success-Keeps P "start_capture" _ (
                      stable.opens w.captures w.sequence id session_id time who source _ _ _ capture
                        allowed (subst (λ a. P w.captures a w.sequence) l.1 l.0) built)))
                v k)
            u j)
        t (i, e)

  pub start_capture-Keeps :
      (session_id id track_id : Str)
      → Allowed id
      → Keeps (On P) (Capturing.start_capture session_id id track_id)
  unfolding Capturing.start_capture
  start_capture-Keeps session_id id track_id allowed =
      with_session-Keeps P "start_capture" _ (λ session s h.
        elim (Bool-cases (contains track_id session.armed_tracks)) [
          | inl e ↦ simp e (opens_from session_id id allowed session s s s.active_capture_id refl h)
          | inr e ↦ simp e (failure-Keeps P _ _ _ _ s h)
        ])

  -- The branch of `stop_capture` on which the capture is the active one.
  pub closes_active :
      (id ended_at : Str) (state : CompletionState) (warnings : List Str) (s : FakeRuntime)
      → s.active_capture_id ≡ some id
      → On P s
      → On P
          ((do
            capture ← stored id
            closed ← lift (close_capture capture ended_at state [] warnings)
            modify (λ r.
                Capturing.stop_transport (record (store id closed r) { active_capture_id = none }))
            success "stop_capture")
            s).1
  closes_active id ended_at state warnings s e h = leads-stored P id _ s h (λ c found.
      leads-lift (On P) (close_capture c ended_at state [] warnings) _ s h (λ d closed.
        success-Keeps P "stop_capture" _ (
          transport_stopped _ (
            stable.closes s.captures s.sequence id c d ended_at state [] warnings
              (subst (λ a. P s.captures a s.sequence) e h) found closed))))

  pub is_active_id : (id : Str) (o : Option Str) → Capturing.is_active id o ≡ true → o ≡ some id
  is_active_id id none e = cc
  is_active_id id (some active) e = ap some (str_eq_sound active id e)

  pub stop_capture-Keeps :
      (id ended_at : Str) (was_cancelled : Bool)
      → Keeps (On P) (Capturing.stop_capture id ended_at was_cancelled)
  unfolding Capturing.stop_capture
  stop_capture-Keeps id ended_at was_cancelled s h =
      elim (Bool-cases (Capturing.is_active id s.active_capture_id)) [
        | inl e ↦ simp e (closes_active id ended_at _ _ s (is_active_id id s.active_capture_id e) h)
        | inr e ↦ simp e (failure-Keeps P _ _ _ _ s h)
      ]

  pub capture_failure-Keeps :
      (id : Str) (code : FaultCode) (subsystem : String) (detail : Detail)
      → Keeps (On P) (capture_failure id code subsystem detail)
  unfolding capture_failure
  capture_failure-Keeps id code subsystem detail s h =
      Keeps->>= (On P) now _ (now-Keeps P)
        (λ time t i.
          Keeps->>= (On P) (next_fault code subsystem detail true) _
            (next_fault-Keeps P code subsystem detail true) (λ fault u j. j) t i)
        s h

  pub retrieve_capture-Keeps : (id : Str) → Keeps (On P) (Capturing.retrieve_capture id)
  unfolding Capturing.retrieve_capture
  retrieve_capture-Keeps id s h =
      Keeps-option (On P) (get id s.captures) _ _
        (λ t i.
          Keeps-option (On P) s.session _ _ (capture_failure-Keeps id _ _ _)
            (λ _. capture_failure-Keeps id _ _ _) t i)
        (λ c t i. Keeps->>= (On P) now _ (now-Keeps P) (λ time u j. j) t i) s h
