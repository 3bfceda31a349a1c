-- ===== src/Performance/Runtimes.antt =====
-- performance/contracts/runtime.py: states, faults, identity, health and readiness of a runtime.
use master_all_strings.Prelude.{
  List, [], ◌∷◌, ◌++◌, Bool, true, false, not, ◌&&◌, Option, none, some, Result, ok, require, ◌>>◌,
  ◌≡◌, refl,
}
use master_all_strings.Prelude.Text.{Str, codes}
use master_all_strings.Performance.Errors.{
  PerformanceError, Iso8601, require_identifier, require_optional_identifier, require_utc_timestamp,
  unsupported_unresolved, ready_while_blocked, not_ready,
}

pub data RuntimeKind : Type 0 where
  fake ardour lightweight : RuntimeKind

pub data RuntimeState : Type 0 where
  off starting probing ready degraded failed stopping : RuntimeState

pub data SubsystemState : Type 0 where
  unknown available unavailable faulted : SubsystemState

pub data RuntimeCapability : Type 0 where
  transport midi_capture synth_hosting metronome looping panic diagnostics : RuntimeCapability
  multitrack automation mixdown session_recovery : RuntimeCapability

pub data FaultCode : Type 0 where
  startup_timeout health_timeout shutdown_timeout executable_missing : FaultCode
  session_template_missing control_endpoint_unavailable unsupported_runtime_version : FaultCode
  midi_input_missing audio_output_missing synth_missing synth_load_failed : FaultCode
  synth_load_timeout runtime_crashed malformed_midi_event stuck_note panic_failed : FaultCode
  capability_unsupported invalid_state : FaultCode

-- `is RuntimeState.READY`, and so on
abbrev pub is_ready : RuntimeState → Bool
is_ready ready = true
is_ready _ = false

abbrev pub is_off : RuntimeState → Bool
is_off off = true
is_off _ = false

abbrev pub is_failed : RuntimeState → Bool
is_failed failed = true
is_failed _ = false

abbrev pub is_available : SubsystemState → Bool
is_available available = true
is_available _ = false

-- The details that a runtime gives of its faults, each by its message; every such text is an
-- identifier, so that the check of a fault's detail holds.
pub data Detail : Type 0 where
  not_ready_in_time runtime_not_ready no_midi_input no_audio_output synth_failed : Detail
  no_session note_left_sounding already_active exited_unexpectedly stopped_while_active : Detail
  unknown_track not_armed synth_not_loaded synth_unavailable not_active not_started : Str → Detail

pub record RuntimeFault : Type 0 where
  pub fault_id : Str
  pub code : FaultCode
  pub subsystem : Str
  pub detail : Detail
  pub occurred_at : Str
  pub recoverable : Bool

unfoldable pub new_fault : ⦃iso : Iso8601⦄ → RuntimeFault → Result PerformanceError RuntimeFault
new_fault fault = do
  require_identifier fault.fault_id "fault_id"
  require_identifier fault.subsystem "subsystem"
  require_utc_timestamp fault.occurred_at "occurred_at"
  ok fault

pub record RuntimeIdentity : Type 0 where
  pub runtime_id : Str
  pub runtime_kind : RuntimeKind
  pub reported_version : Option Str
  pub version_policy : Str
  pub version_supported : Bool

-- `reported_version is None`
abbrev pub is_unresolved : RuntimeIdentity → Bool
is_unresolved identity = elim identity.reported_version [ none ↦ true | some _ ↦ false ]

unfoldable pub new_identity : RuntimeIdentity → Result PerformanceError RuntimeIdentity
new_identity identity = do
  require_identifier identity.runtime_id "runtime_id"
  require_optional_identifier identity.reported_version "reported_version"
  require_identifier identity.version_policy "version_policy"
  require (not (is_unresolved identity && identity.version_supported)) unsupported_unresolved
  ok identity

pub record RuntimeHealth : Type 0 where
  pub runtime_id : Str
  pub checked_at : Str
  pub state : RuntimeState
  pub process : SubsystemState
  pub audio_backend : SubsystemState
  pub audio_output : SubsystemState
  pub midi_input : SubsystemState
  pub synth : SubsystemState
  pub session : SubsystemState
  pub capture : SubsystemState
  pub faults : List RuntimeFault

-- `_not_ready`, over the pairs of a name and its field.
abbrev pub unready : List (Str × SubsystemState) → List Str
unready [] = []
unready ((name, state) ∷ rest) = elim (is_available state) [
  | true ↦ unready rest
  | false ↦ name ∷ unready rest
]

unfoldable pub infrastructure_blocking : RuntimeHealth → List Str
infrastructure_blocking health = unready (
    (codes "process", health.process)
    ∷ (codes "audio_backend", health.audio_backend)
    ∷ (codes "audio_output", health.audio_output)
    ∷ (codes "midi_input", health.midi_input)
    ∷ (codes "synth", health.synth)
    ∷ [])

unfoldable pub session_blocking : RuntimeHealth → List Str
session_blocking health =
    unready ((codes "session", health.session) ∷ (codes "capture", health.capture) ∷ [])

unfoldable pub blocking_subsystems : RuntimeHealth → List Str
blocking_subsystems health = infrastructure_blocking health ++ session_blocking health

abbrev pub is_empty {ℓ} : {A : Type ℓ} → List A → Bool
is_empty [] = true
is_empty (_ ∷ _) = false

unfoldable pub new_health : ⦃iso : Iso8601⦄ → RuntimeHealth → Result PerformanceError RuntimeHealth
new_health health = do
  require_identifier health.runtime_id "runtime_id"
  require_utc_timestamp health.checked_at "checked_at"
  require (not (is_ready health.state && not (is_empty (infrastructure_blocking health))))
      ready_while_blocked
  ok health

pub record RuntimeReadiness : Type 0 where
  pub runtime_id : Str
  pub is_usable : Bool
  pub health : RuntimeHealth
  pub capture_ready : Bool
  pub blocking : List Str
  pub capture_blocking : List Str

unfoldable pub new_readiness : RuntimeReadiness → Result PerformanceError RuntimeReadiness
new_readiness r = do
  require_identifier r.runtime_id "runtime_id"
  require (not (r.is_usable && not (is_empty r.blocking))) not_ready
  require (not (r.is_usable && not (is_empty (infrastructure_blocking r.health)))) not_ready
  require (not (r.capture_ready && not (is_empty r.capture_blocking))) not_ready
  require (not (r.capture_ready && not r.is_usable)) not_ready
  require (not (r.capture_ready && not (is_empty (blocking_subsystems r.health)))) not_ready
  ok r

-- performance/runtime_diagnostics.py: the two verdicts.
unfoldable pub check_runtime_readiness : RuntimeHealth → Result PerformanceError RuntimeReadiness
check_runtime_readiness health =
    let infrastructure = infrastructure_blocking health in
    let blocked = session_blocking health in
    let usable = is_empty infrastructure && is_ready health.state in
    new_readiness (record {
      runtime_id = health.runtime_id;
      is_usable = usable;
      health = health;
      capture_ready = usable && is_empty blocked;
      blocking = infrastructure;
      capture_blocking = infrastructure ++ blocked;
    })

abbrev is_empty-++ :
    {A : Type 0} (xs ys : List A) → is_empty (xs ++ ys) ≡ (is_empty xs && is_empty ys)
is_empty-++ [] ys = refl
is_empty-++ (x ∷ xs) ys = refl
