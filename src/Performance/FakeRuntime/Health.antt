-- ===== src/Performance/FakeRuntime/Health.antt =====
-- performance/adapters/fake_runtime.py: health by subsystem, and readiness.
use Prim.Native.String.{String}
use master_all_strings.Prelude.Text.{Str}
use master_all_strings.Prelude.{
  List, [], ◌∷◌, ◌++◌, Bool, true, false, Option, none, some, Str_eq, if◌then◌else◌,
}
use master_all_strings.Prelude.Action.{◌>>=◌, return, self, lift}
use master_all_strings.Performance.Errors.{Iso8601}
use master_all_strings.Performance.Runtimes.{
  RuntimeState, off, failed, degraded, is_off, is_failed, SubsystemState, unknown, available,
  unavailable, faulted, FaultCode, midi_input_missing, audio_output_missing, synth_load_failed,
  Detail, RuntimeFault, RuntimeHealth, new_health, RuntimeReadiness, check_runtime_readiness,
}
use master_all_strings.Performance.FakeRuntime.{FakeRuntime, SessionRecord, Method, now, next_fault}

-- A fault of a subsystem that the scenario breaks.
abbrev pub scenario_fault :
    ⦃iso : Iso8601⦄ → Bool → FaultCode → String → Detail → Bool → Method (List RuntimeFault)
scenario_fault false code subsystem detail recoverable = return []
scenario_fault true code subsystem detail recoverable = do
  fault ← next_fault code subsystem detail recoverable
  return (fault ∷ [])

-- The subsystem of a session: unknown before there is one.
abbrev pub session_state : Option SessionRecord → SubsystemState
session_state none = unknown
session_state (some _) = available

-- The state that is reported: `degraded` with a fault, unless the runtime has failed.
abbrev pub reported_state : RuntimeState → List RuntimeFault → RuntimeState
reported_state state [] = state
reported_state state (_ ∷ _) = if is_failed state then failed else degraded

-- The report of a runtime that is off.
abbrev pub off_report : FakeRuntime → Str → RuntimeHealth
off_report s time = record {
  runtime_id = s.runtime_id;
  checked_at = time;
  state = off;
  process = unavailable;
  audio_backend = unknown;
  audio_output = unknown;
  midi_input = unknown;
  synth = unknown;
  session = unknown;
  capture = unknown;
  faults = [];
}

-- Any other report, with the faults of the scenario.
abbrev pub report : FakeRuntime → List RuntimeFault → Str → RuntimeHealth
report s faults time = record {
  runtime_id = s.runtime_id;
  checked_at = time;
  state = reported_state s.state faults;
  process = available;
  audio_backend = available;
  audio_output = if s.scenario.audio_output_absent then unavailable else available;
  midi_input = if s.scenario.midi_input_absent then unavailable else available;
  synth = if s.scenario.synth_load_fails then faulted else available;
  session = session_state s.session;
  capture = if is_failed s.state then faulted else session_state s.session;
  faults = faults;
}

unfoldable pub health : ⦃iso : Iso8601⦄ → Method RuntimeHealth
health = do
  s ← self
  elim (is_off s.state) [
    | true ↦ do time ← now; lift (new_health (off_report s time))
    | false ↦ do
      midi ←
          scenario_fault s.scenario.midi_input_absent midi_input_missing "midi_input"
            Detail.no_midi_input true
      audio ←
          scenario_fault s.scenario.audio_output_absent audio_output_missing "audio_output"
            Detail.no_audio_output true
      synth ←
          scenario_fault s.scenario.synth_load_fails synth_load_failed "synth" Detail.synth_failed
            false
      time ← now
      lift (new_health (report s (midi ++ audio ++ synth) time))
  ]

unfoldable pub readiness : ⦃iso : Iso8601⦄ → Method RuntimeReadiness
readiness = do current ← health; lift (check_runtime_readiness current)
