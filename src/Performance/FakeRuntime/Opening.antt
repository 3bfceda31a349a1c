-- ===== src/Performance/FakeRuntime/Opening.antt =====
-- performance/adapters/fake_runtime.py: what a successful `start_capture` leaves behind.
use Prim.Native.String.{String}
use master_all_strings.Prelude.{
  [], ◌∷◌, true, false, Option, none, some, ok, ◌≡◌, refl, Str_eq, contains, arith, inl, inr,
  Bool-cases,
}
use master_all_strings.Prelude.Action.{◌>>=◌, ◌>>◌, lift, modify, Returns, Returns->>=}
use master_all_strings.Prelude.Dict.{get, get-put_self}
use master_all_strings.Prelude.Text.{Str, codes}
use master_all_strings.Performance.Errors.{Iso8601}
use master_all_strings.Performance.Runtimes.{FaultCode, invalid_state, Detail}
use master_all_strings.Performance.Sessions.{recording}
use master_all_strings.Performance.Capture.{Capture, is_closed, build_raw_capture}
use master_all_strings.Performance.CommandResults.{CommandResult, succeeded, new_command_result}
use master_all_strings.Performance.FakeRuntime.{
  FakeRuntime, SessionRecord, Method, now, identity, next_fault, success, failure, store,
  fake_source,
}
use master_all_strings.Performance.FakeRuntime.Capturing.{start_capture}
use master_all_strings.Performance.FakeRuntime.Stability.{CapturePredicate, On, success-Keeps}
use master_all_strings.Performance.FakeRuntime.Evidence.{build_is_open, build_is_empty}

-- An empty capture in progress is stored under the id, and active.
abbrev pub FreshAt : Str → CapturePredicate
FreshAt id captures active sequence =
    (c : Capture) × (get id captures ≡ some c)
    × (c.events ≡ [])
    × (is_closed c ≡ false)
    × (active ≡ some id)

abbrev FreshIfSucceeded : Str → CommandResult → FakeRuntime → Type 0
FreshIfSucceeded id result r = succeeded result ≡ true → On (FreshAt id) r

module _ ⦃iso : Iso8601⦄ where
  new_command_result-same :
      (result built : CommandResult) → new_command_result result ≡ ok built → built ≡ result
  unfolding new_command_result
  new_command_result-same result built h = ground arith

  -- A failure is no success.
  failure-Returns :
      (id : Str) (command : String) (code : FaultCode) (subsystem : String) (detail : Detail)
      (s : FakeRuntime)
      → Returns (FreshIfSucceeded id) (failure command code subsystem detail) s
  unfolding failure
  failure-Returns id command code subsystem detail s =
      Returns->>= (FreshIfSucceeded id) now _ s (λ time _.
        Returns->>= (FreshIfSucceeded id) (next_fault code subsystem detail true) _ _
          (λ fault _ result made succeeds. ground (arith, new_command_result-same _ result made)))

  success-Returns :
      (id : Str) (command : String) (s : FakeRuntime)
      → On (FreshAt id) s
      → Returns (FreshIfSucceeded id) (success command) s
  success-Returns id command s fresh result e _ = success-Keeps (FreshAt id) command s fresh

  -- The branch of `start_capture` on which the track is armed.
  opened_from :
      (session_id id : Str) (session : SessionRecord) (r t : FakeRuntime) (o : Option Str)
      → Returns
          (FreshIfSucceeded id)
          (elim o as (λ _. Method CommandResult) [
            | some _ ↦ failure "start_capture" invalid_state "capture" Detail.already_active
            | none ↦ do
              who ← identity
              source ← lift fake_source
              time ← now
              capture ← lift (
                  build_raw_capture id session_id who source time session.config.transport.tempo_bpm
                    session.config.transport.meter
                    ((codes "runtime", r.runtime_id) ∷ []))
              modify (λ r. record (store id capture r) {
                active_capture_id = some id;
                session = some (record session { transport_mode = recording });
              })
              success "start_capture"
          ])
          t
  opened_from session_id id session r t (some _) = failure-Returns id _ _ _ _ t
  opened_from session_id id session r t none =
      Returns->>= (FreshIfSucceeded id) identity _ t (λ who _.
        Returns->>= (FreshIfSucceeded id) (lift fake_source) _ _ (λ source _.
          Returns->>= (FreshIfSucceeded id) now _ _ (λ time _.
            Returns->>= (FreshIfSucceeded id)
              (lift (build_raw_capture id session_id who source time _ _ _)) _ _
              (λ capture built. success-Returns id "start_capture" _ (
                capture,
                get-put_self id capture _,
                build_is_empty id session_id time who source _ _ _ built,
                build_is_open id session_id time who source _ _ _ built,
                refl,
              )))))

  with_session-Returns :
      (id : Str) (command : String) (body : SessionRecord → Method CommandResult) (s : FakeRuntime)
      (o : Option SessionRecord)
      → ((session : SessionRecord) → Returns (FreshIfSucceeded id) (body session) s)
      → Returns
          (FreshIfSucceeded id)
          (elim o as (λ _. Method CommandResult) [
            | none ↦ failure command invalid_state "session" Detail.no_session
            | some session ↦ body session
          ])
          s
  with_session-Returns id command body s none h = failure-Returns id _ _ _ _ s
  with_session-Returns id command body s (some session) h = h session

  -- A `start_capture` that returns a success leaves an empty capture in progress, stored under its id
  -- and active, whatever capture was stored under that id before.
  pub start_capture-FreshAt :
      (session_id id track_id : Str) (s : FakeRuntime) (result : CommandResult)
      → (start_capture session_id id track_id s).0 ≡ ok result
      → succeeded result ≡ true
      → On (FreshAt id) (start_capture session_id id track_id s).1
  unfolding start_capture
  start_capture-FreshAt session_id id track_id s result =
      with_session-Returns id "start_capture" _ s s.session
        (λ session. elim (Bool-cases (contains track_id session.armed_tracks)) [
          | inl e ↦ simp e (opened_from session_id id session s s s.active_capture_id)
          | inr e ↦ simp e (failure-Returns id _ _ _ _ s)
        ])
        result
