-- ===== src/Performance/FakeRuntime.antt =====
-- performance/adapters/fake_runtime.py and adapters/clock.py: the deterministic runtime. Each method
-- is an action on the object's fields; an exception leaves what was written before it.
pub mod Capturing
pub mod Lifecycle
pub mod Feed
pub mod Health
pub mod Operations
pub mod Stability
pub mod Evidence
pub mod Opening
pub mod Stopping
pub mod Verdicts
use Prim.Native.String.{String}
use master_all_strings.Prelude.{
  ℕ, zero, suc, ◌+◌, ◌*◌, ◌/◌, ◌%◌, List, [], ◌∷◌, ◌++◌, map, Bool, true, false, not, ◌&&◌, ◌||◌,
  Option, none, some, Result, ok, err, require, ltb, leb, nat_eq, Eq, Str_eq, contains, length,
  if◌then◌else◌,
}
use master_all_strings.Prelude.Action.{
  Action, ◌>>=◌, ◌>>◌, return, raise, self, modify, lift, after,
}
use master_all_strings.Prelude.Dict.{Dict, get, put, has}
use master_all_strings.Prelude.Int.{ℤ, pos, ◌*ℤ◌, leb_ℤ}
use master_all_strings.Prelude.Text.{Str, codes, str_eq}
unfoldable pub use master_all_strings.Prelude.Decimal.{digits}
use master_all_strings.Performance.Errors.{
  PerformanceError, Iso8601, require_identifier, require_utc_timestamp, clock_past_midnight,
  missing_key, no_active_capture, runtime_crashed, capture_id_mismatch,
}
use master_all_strings.Performance.Runtimes.{
  RuntimeKind, RuntimeState, off, ready, failed, degraded, is_ready, is_off, is_failed,
  SubsystemState, unknown, available, unavailable, faulted, RuntimeCapability, FaultCode,
  startup_timeout, shutdown_timeout, midi_input_missing, audio_output_missing, synth_missing,
  synth_load_failed, panic_failed, invalid_state, Detail, RuntimeFault, new_fault, RuntimeIdentity,
  new_identity, RuntimeHealth, new_health, RuntimeReadiness, check_runtime_readiness, is_empty,
}
use master_all_strings.Performance.Sessions.{
  SessionConfig, TransportMode, stopped, playing, recording, LoopRegion,
}
use master_all_strings.Performance.CommandResults.{
  CommandResult, new_command_result, CaptureResult, new_capture_result,
}
use master_all_strings.Performance.Capture.{
  MidiEventType, CompletionState, complete, cancelled, CaptureSource, new_source, CapturedEvent,
  new_event, Capture, build_raw_capture, append_events, close_capture, mark_capture_interrupted,
}

pub record Scenario : Type 0 where
  pub start_times_out : Bool
  pub midi_input_absent : Bool
  pub audio_output_absent : Bool
  pub synth_load_fails : Bool
  pub crash_during_capture : Bool
  pub panic_fails : Bool
  pub version_unresolved : Bool
  pub stuck_notes : Bool

-- `armed_tracks` is a set of which only membership is read.
pub record SessionRecord : Type 0 where
  pub config : SessionConfig
  pub armed_tracks : List Str
  pub synth_id : Option Str
  pub transport_mode : TransportMode
  pub sounding_notes : List (ℤ × ℤ)

pub record FakeRuntime : Type 0 where
  pub scenario : Scenario
  pub runtime_id : Str
  pub clock_tick : ℕ
  pub clock_date : Str
  pub state : RuntimeState
  pub session : Option SessionRecord
  pub captures : Dict Str Capture
  pub active_capture_id : Option Str
  pub sequence : ℕ
  pub fault_counter : ℕ

-- The constructor, with the clock's origin and date.
unfoldable pub new_fake_runtime : Scenario → Str → ℕ → Str → FakeRuntime
new_fake_runtime scenario runtime_id origin_second date = record {
  scenario = scenario;
  runtime_id = runtime_id;
  clock_tick = origin_second;
  clock_date = date;
  state = off;
  session = none;
  captures = [];
  active_capture_id = none;
  sequence = 0;
  fault_counter = 0;
}

abbrev pub Method : Type 0 → Type 0
Method A = Action FakeRuntime PerformanceError A

-- `f"{n:02d}"` of a number below 100
abbrev two_digits : ℕ → Str
two_digits n = (48 + n / 10) ∷ (48 + n % 10) ∷ []

-- `f"{n:04d}"`
unfoldable pub four_digits : ℕ → Str
four_digits n =
    (if ltb n 10
      then codes "000"
      else if ltb n 100
      then codes "00"
      else if ltb n 1000
      then codes "0"
      else [])
    ++ digits n

-- The text of a reading of the clock.
unfoldable pub timestamp : Str → ℕ → Str
timestamp date value =
    date
    ++ codes "T"
    ++ two_digits (10 + value / 3600)
    ++ codes ":"
    ++ two_digits (value % 3600 / 60)
    ++ codes ":"
    ++ two_digits (value % 3600 % 60)
    ++ codes "Z"

-- `self._clock.now()`
unfoldable pub now : Method Str
now = do
  s ← self
  modify (λ r. record r { clock_tick = suc r.clock_tick })
  lift (require (not (ltb 23 (10 + s.clock_tick / 3600))) clock_past_midnight)
  return (timestamp s.clock_date s.clock_tick)

unfoldable pub identity : Method RuntimeIdentity
identity = do
  s ← self
  lift (
      new_identity (record {
        runtime_id = s.runtime_id;
        runtime_kind = RuntimeKind.fake;
        reported_version = if s.scenario.version_unresolved then none else some (codes "1.0.0");
        version_policy = codes "1.0.0";
        version_supported = not s.scenario.version_unresolved;
      }))

unfoldable pub fake_source : Result PerformanceError CaptureSource
fake_source = new_source (record {
  source_id = codes "fake-source";
  port = codes "fake-port-0";
  device = codes "fake-device";
  supplies_string_identity = false;
})

unfoldable pub next_fault :
    ⦃iso : Iso8601⦄ → FaultCode → String → Detail → Bool → Method RuntimeFault
next_fault code subsystem detail recoverable = do
  modify (λ r. record r { fault_counter = suc r.fault_counter })
  s ← self
  time ← now
  lift (
      new_fault (record {
        fault_id = codes "fault-" ++ four_digits s.fault_counter;
        code = code;
        subsystem = codes subsystem;
        detail = detail;
        occurred_at = time;
        recoverable = recoverable;
      }))

unfoldable pub success : ⦃iso : Iso8601⦄ → String → Method CommandResult
success command = do
  s ← self
  time ← now
  lift (
      new_command_result (record {
        command = codes command;
        runtime_id = s.runtime_id;
        completed_at = time;
        fault = none;
      }))

-- The reading of the completion time comes before the fault's.
unfoldable pub failure :
    ⦃iso : Iso8601⦄ → String → FaultCode → String → Detail → Method CommandResult
failure command code subsystem detail = do
  s ← self
  time ← now
  fault ← next_fault code subsystem detail true
  lift (
      new_command_result (record {
        command = codes command;
        runtime_id = s.runtime_id;
        completed_at = time;
        fault = some fault;
      }))

unfoldable pub capture_failure :
    ⦃iso : Iso8601⦄ → Str → FaultCode → String → Detail → Method CaptureResult
capture_failure capture_id code subsystem detail = do
  time ← now
  fault ← next_fault code subsystem detail true
  lift (
      new_capture_result
        (record { capture_id = capture_id; completed_at = time; outcome = err fault }))

-- `self._captures[capture_id]`
unfoldable pub stored : Str → Method Capture
stored capture_id = do
  s ← self
  elim (get capture_id s.captures) [ none ↦ raise missing_key | some capture ↦ return capture ]

-- `self._captures[capture_id] = capture`
abbrev pub store : Str → Capture → FakeRuntime → FakeRuntime
store capture_id capture r = record r { captures = put capture_id capture r.captures }

abbrev pub sounding : FakeRuntime → ℕ
sounding r = elim r.session [ none ↦ 0 | some session ↦ length session.sounding_notes ]

abbrev pub interruption_warning : ℕ → Option Str
interruption_warning zero = none
interruption_warning (suc n) =
    some
      (codes "capture ended without note-off for " ++ digits (suc n) ++ codes " sounding note(s)")

abbrev pub set_state : RuntimeState → FakeRuntime → FakeRuntime
set_state state r = record r { state = state }

abbrev pub set_session : Option SessionRecord → FakeRuntime → FakeRuntime
set_session session r = record r { session = session }

-- `session = self._session; if session is None: return failure`
abbrev pub with_session :
    ⦃iso : Iso8601⦄ → String → (SessionRecord → Method CommandResult) → Method CommandResult
with_session command body = do
  s ← self
  elim s.session [
    | none ↦ failure command invalid_state "session" Detail.no_session
    | some session ↦ body session
  ]
