-- ===== src/Performance/FakeRuntime/Capturing.antt =====
-- performance/adapters/fake_runtime.py: the methods that open, close, interrupt and hand out captures.
use master_all_strings.Prelude.{
  ℕ, zero, suc, List, [], ◌∷◌, ◌++◌, Bool, false, not, Option, none, some, ok, Str_eq, contains,
  if◌then◌else◌,
}
use master_all_strings.Prelude.Action.{◌>>=◌, ◌>>◌, return, self, modify, lift}
use master_all_strings.Prelude.Dict.{get}
use master_all_strings.Prelude.Text.{Str, codes, str_eq}
use master_all_strings.Performance.Errors.{Iso8601}
use master_all_strings.Performance.Runtimes.{failed, FaultCode, invalid_state, Detail, RuntimeFault}
use master_all_strings.Performance.Sessions.{stopped, recording}
use master_all_strings.Performance.CommandResults.{
  CommandResult, new_command_result, CaptureResult, new_capture_result,
}
use master_all_strings.Performance.Capture.{
  complete, cancelled, build_raw_capture, close_capture, mark_capture_interrupted,
}
use master_all_strings.Performance.FakeRuntime.{
  Scenario, FakeRuntime, Method, digits, now, identity, fake_source, next_fault, success, failure,
  capture_failure, stored, store, sounding, interruption_warning, set_state, set_session,
  with_session,
}

-- The part of `crash` and of `_interrupt_active_capture` that closes the active capture.
unfoldable pub close_interrupted : ⦃iso : Iso8601⦄ → Str → RuntimeFault → Method (Unit {0})
close_interrupted capture_id fault = do
  capture ← stored capture_id
  s ← self
  time ← now
  closed ← lift (mark_capture_interrupted capture time fault (interruption_warning (sounding s)))
  modify (λ r. record (store capture_id closed r) { active_capture_id = none })

-- `if self._active_capture_id is not None:` close it as interrupted.
unfoldable pub close_active : ⦃iso : Iso8601⦄ → RuntimeFault → Method (Unit {0})
close_active fault = do
  s ← self
  elim s.active_capture_id [
    | none ↦ return tt
    | some capture_id ↦ close_interrupted capture_id fault
  ]

unfoldable pub interrupt_active_capture :
    ⦃iso : Iso8601⦄ → FaultCode → Detail → Bool → Method RuntimeFault
interrupt_active_capture code detail recoverable = do
  fault ← next_fault code "process" detail recoverable
  close_active fault
  return fault

unfoldable pub start_capture : ⦃iso : Iso8601⦄ → Str → Str → Str → Method CommandResult
start_capture session_id capture_id track_id = with_session "start_capture" (λ session. do
  s ← self
  if not (contains track_id session.armed_tracks)
      then failure "start_capture" invalid_state "capture" (Detail.not_armed track_id)
      else elim s.active_capture_id [
        | some _ ↦ failure "start_capture" invalid_state "capture" Detail.already_active
        | none ↦ do
          who ← identity
          source ← lift fake_source
          time ← now
          capture ← lift (
              build_raw_capture capture_id session_id who source time
                session.config.transport.tempo_bpm session.config.transport.meter
                ((codes "runtime", s.runtime_id) ∷ []))
          modify (λ r. record (store capture_id capture r) {
            active_capture_id = some capture_id;
            session = some (record session { transport_mode = recording });
          })
          success "start_capture"
      ])

unfoldable pub crash : ⦃iso : Iso8601⦄ → Method CommandResult
crash = do
  fault ← next_fault FaultCode.runtime_crashed "process" Detail.exited_unexpectedly false
  s ← self
  close_active fault
  modify (set_state failed)
  time ← now
  lift (
      new_command_result (record {
        command = codes "crash";
        runtime_id = s.runtime_id;
        completed_at = time;
        fault = some fault;
      }))

abbrev pub is_active : Str → Option Str → Bool
is_active capture_id none = false
is_active capture_id (some active) = str_eq active capture_id

abbrev pub stop_warnings : Scenario → ℕ → List Str
stop_warnings scenario zero = []
stop_warnings scenario (suc n) =
    if scenario.stuck_notes
    then (digits (suc n) ++ codes " note(s) still sounding at stop") ∷ []
    else []

abbrev pub stop_transport : FakeRuntime → FakeRuntime
stop_transport r = elim r.session [
  | none ↦ r
  | some session ↦ set_session (some (record session { transport_mode = stopped })) r
]

unfoldable pub stop_capture : ⦃iso : Iso8601⦄ → Str → Str → Bool → Method CommandResult
stop_capture capture_id ended_at was_cancelled = do
  s ← self
  if not (is_active capture_id s.active_capture_id)
      then failure "stop_capture" invalid_state "capture" (Detail.not_active capture_id)
      else do
        capture ← stored capture_id
        closed ← lift (
            close_capture capture ended_at (if was_cancelled then cancelled else complete) []
              (stop_warnings s.scenario (sounding s)))
        modify
            (λ r. stop_transport (record (store capture_id closed r) { active_capture_id = none }))
        success "stop_capture"

unfoldable pub retrieve_capture : ⦃iso : Iso8601⦄ → Str → Method CaptureResult
retrieve_capture capture_id = do
  s ← self
  elim (get capture_id s.captures) [
    | none ↦ elim s.session [
      | none ↦ capture_failure capture_id invalid_state "session" Detail.no_session
      | some _ ↦ capture_failure capture_id invalid_state "capture" (Detail.not_started capture_id)
    ]
    | some capture ↦ do
      time ← now
      lift (
          new_capture_result
            (record { capture_id = capture_id; completed_at = time; outcome = ok capture }))
  ]
