-- ===== src/Tests/ReadinessTests.antt =====
-- The readiness of performance/adapters/fake_runtime.py at a concrete runtime.
use master_all_strings.Prelude.{◌≡◌, refl, [], ◌&&◌, true, ok}
use master_all_strings.Prelude.Text.{codes, is_blank}
use master_all_strings.Performance.Runtimes.{
  RuntimeState, RuntimeHealth, RuntimeReadiness, available,
}
use master_all_strings.Performance.FakeRuntime.Health.{readiness, health}
use master_all_strings.Performance.FakeRuntime.Verdicts.{
  is_healthy, has_session, readiness-verdicts,
}
use master_all_strings.Tests.RuntimeTests.{armed, by_length}

abbrev all_available : RuntimeHealth
all_available = record {
  runtime_id = codes "fake";
  checked_at = codes "2026-07-24T10:01:01Z";
  state = RuntimeState.ready;
  process = available;
  audio_backend = available;
  audio_output = available;
  midi_input = available;
  synth = available;
  session = available;
  capture = available;
  faults = [];
}

abbrev usable : RuntimeReadiness
usable = record {
  runtime_id = codes "fake";
  is_usable = true;
  health = all_available;
  capture_ready = true;
  blocking = [];
  capture_blocking = [];
}

armed_is_usable : (readiness armed).0 ≡ ok usable
unfolding readiness health is_blank master_all_strings.Performance.FakeRuntime.now
    master_all_strings.Performance.FakeRuntime.timestamp
    master_all_strings.Performance.Errors.require_identifier
    master_all_strings.Performance.Errors.is_stripped
    master_all_strings.Performance.Errors.require_utc_timestamp
    master_all_strings.Performance.Errors.ends_in_z master_all_strings.Performance.Errors.replace_z
    master_all_strings.Performance.Runtimes.new_health
    master_all_strings.Performance.Runtimes.infrastructure_blocking
    master_all_strings.Performance.Runtimes.check_runtime_readiness
    master_all_strings.Performance.Runtimes.new_readiness
    master_all_strings.Performance.Runtimes.session_blocking
    master_all_strings.Performance.Runtimes.blocking_subsystems
armed_is_usable = refl

readiness-verdicts_example :
    (usable.is_usable ≡ is_healthy armed)
    × (usable.capture_ready ≡ (is_healthy armed && has_session armed.session))
readiness-verdicts_example = readiness-verdicts armed usable armed_is_usable
