-- ===== src/Tests/RuntimeTests.antt =====
-- performance/adapters/fake_runtime.py at concrete inputs.
use master_all_strings.Prelude.{
  ℕ, ◌≡◌, refl, List, [], ◌∷◌, Bool, true, false, Option, none, some, Result, ok, leb, length, map,
  Eq, Str_eq, contains, All,
}
use master_all_strings.Prelude.Dict.{get, put}
use master_all_strings.Prelude.Int.{pos}
use master_all_strings.Prelude.Text.{codes, str_eq, is_blank, is_space}
use master_all_strings.Performance.Errors.{Iso8601}
use master_all_strings.Performance.Runtimes.{RuntimeKind, RuntimeState}
use master_all_strings.Performance.Sessions.{SessionConfig, stopped, midi}
use master_all_strings.Performance.Capture.{Capture, CompletionState, complete, interrupted}
use master_all_strings.Performance.CommandResults.{CommandResult, succeeded}
use master_all_strings.Performance.FakeRuntime.{FakeRuntime, Scenario, new_fake_runtime}
use master_all_strings.Performance.FakeRuntime.Operations.{Operation, run_all}
use master_all_strings.Performance.FakeRuntime.Stability.{On}
use master_all_strings.Performance.FakeRuntime.Opening.{FreshAt, start_capture-FreshAt}
use master_all_strings.Performance.FakeRuntime.Stopping.{IsStopped, after_calls, stop-IsStopped}
use master_all_strings.Performance.FakeRuntime.Lifecycle.{stop, interrupt_if_active}
use master_all_strings.Performance.FakeRuntime.Capturing.{interrupt_active_capture, start_capture}
use master_all_strings.Performance.FakeRuntime.Evidence.{
  Tracked, Ordered, Survives, run_all-Tracked, run_all-Ordered, run_all-Survives,
}

-- A text as long as a UTC timestamp is one.
instance abbrev pub by_length : Iso8601
by_length = record { accepts = λ value. leb 20 (length value) }

abbrev pub healthy : Scenario
healthy = record {
  start_times_out = false;
  midi_input_absent = false;
  audio_output_absent = false;
  synth_load_fails = false;
  crash_during_capture = false;
  panic_fails = false;
  version_unresolved = false;
  stuck_notes = false;
}

abbrev pub one_track : SessionConfig
one_track = record {
  session_id = codes "session-001";
  runtime_id = codes "fake";
  tracks =
      record {
        track_id = codes "track-1";
        name = codes "Guitar MIDI";
        kind = midi;
        midi_input = some (codes "fake-port-0");
        synth_id = some (codes "fake-synth");
        record_armed = true;
        channel = some (pos 0);
      }
      ∷ [];
  transport = record {
    mode = stopped;
    position_tick = pos 0;
    tempo_bpm = 120_000_000_000;
    meter = record { beats_per_bar = pos 4; beat_unit = 4 };
    ticks_per_quarter = pos 960;
    loop = none;
  };
  metronome = record { enabled = false; count_in_bars = pos 0; level = pos 500_000_000 };
  template_id = codes "single-midi-track-v1";
}

abbrev take_calls : List Operation
take_calls =
    Operation.start
    ∷ Operation.prepare_session one_track
    ∷ Operation.arm_track (codes "track-1") true
    ∷ Operation.start_capture (codes "session-001") (codes "take-1") (codes "track-1")
    ∷ Operation.feed_note_on (pos 60) (pos 90) (pos 0) none none
    ∷ Operation.feed_note_off (pos 60) (pos 0) none none
    ∷ Operation.crash
    ∷ []

-- A take that is still in progress.
abbrev open_take_calls : List Operation
open_take_calls =
    Operation.start
    ∷ Operation.prepare_session one_track
    ∷ Operation.arm_track (codes "track-1") true
    ∷ Operation.start_capture (codes "session-001") (codes "take-1") (codes "track-1")
    ∷ Operation.feed_note_on (pos 60) (pos 90) (pos 0) none none
    ∷ []

run_all-Tracked_example :
    On Tracked (run_all take_calls (new_fake_runtime healthy (codes "fake") 0 (codes "2026-07-24")))
run_all-Tracked_example = run_all-Tracked healthy (codes "fake") (codes "2026-07-24") 0 take_calls

run_all-Ordered_example :
    On Ordered (run_all take_calls (new_fake_runtime healthy (codes "fake") 0 (codes "2026-07-24")))
run_all-Ordered_example = run_all-Ordered healthy (codes "fake") (codes "2026-07-24") 0 take_calls

abbrev pub finished : Capture
finished = record {
  capture_id = codes "take-0";
  session_id = codes "session-001";
  runtime_identity = record {
    runtime_id = codes "fake";
    runtime_kind = RuntimeKind.fake;
    reported_version = some (codes "1.0.0");
    version_policy = codes "1.0.0";
    version_supported = true;
  };
  source_identity = record {
    source_id = codes "fake-source";
    port = codes "fake-port-0";
    device = codes "fake-device";
    supplies_string_identity = false;
  };
  started_at = codes "2026-07-24T10:00:00Z";
  completion_state = complete;
  tempo_context = 120_000_000_000;
  meter_context = record { beats_per_bar = pos 4; beat_unit = 4 };
  events = [];
  ended_at = some (codes "2026-07-24T10:00:09Z");
  warnings = [];
  faults = [];
  provenance = [];
}

abbrev pub armed : FakeRuntime
armed = record {
  scenario = healthy;
  runtime_id = codes "fake";
  clock_tick = 61;
  clock_date = codes "2026-07-24";
  state = RuntimeState.ready;
  session = some (record {
    config = one_track;
    armed_tracks = codes "track-1" ∷ [];
    synth_id = none;
    transport_mode = stopped;
    sounding_notes = [];
  });
  captures = (codes "take-0", finished) ∷ [];
  active_capture_id = none;
  sequence = 0;
  fault_counter = 0;
}

run_all-Survives_example : On (Survives (codes "take-0") finished) (run_all take_calls armed)
unfolding get str_eq
run_all-Survives_example =
    run_all-Survives (codes "take-0") finished armed take_calls refl
      (tt, (tt, (tt, (refl, (tt, (tt, (tt, tt)))))))

abbrev started : CommandResult
started = record {
  command = codes "start_capture";
  runtime_id = codes "fake";
  completed_at = codes "2026-07-24T10:01:02Z";
  fault = none;
}

start_take :
    (start_capture (codes "session-001") (codes "take-0") (codes "track-1") armed).0 ≡ ok started
unfolding start_capture contains str_eq is_blank is_space put get
    master_all_strings.Performance.FakeRuntime.identity
    master_all_strings.Performance.FakeRuntime.fake_source
    master_all_strings.Performance.FakeRuntime.now
    master_all_strings.Performance.FakeRuntime.timestamp
    master_all_strings.Performance.FakeRuntime.digits
    master_all_strings.Performance.FakeRuntime.four_digits
    master_all_strings.Performance.FakeRuntime.success
    master_all_strings.Performance.FakeRuntime.failure
    master_all_strings.Performance.FakeRuntime.next_fault
    master_all_strings.Performance.FakeRuntime.stored
    master_all_strings.Performance.Runtimes.new_identity
    master_all_strings.Performance.Runtimes.new_fault
    master_all_strings.Performance.Errors.require_identifier
    master_all_strings.Performance.Errors.is_stripped
    master_all_strings.Performance.Errors.require_optional_identifier
    master_all_strings.Performance.Errors.require_utc_timestamp
    master_all_strings.Performance.Errors.ends_in_z master_all_strings.Performance.Errors.replace_z
    master_all_strings.Performance.Errors.ends_plainly
    master_all_strings.Performance.Errors.require_unique
    master_all_strings.Performance.Capture.new_source
    master_all_strings.Performance.Capture.build_raw_capture
    master_all_strings.Performance.Capture.new_capture
    master_all_strings.Performance.Capture.check_order
    master_all_strings.Performance.Capture.validate_closure
    master_all_strings.Performance.Capture.validate_collections
    master_all_strings.Performance.Capture.validate_events
    master_all_strings.Performance.CommandResults.new_command_result
    master_all_strings.Prelude.all_distinct
start_take = refl

-- The crash interrupts the take and keeps its two events.
crash_of_take :
    map {B = CompletionState × List ℕ}
      (λ entry. (entry.1.completion_state, map (λ e. e.sequence_number) entry.1.events))
      (run_all take_calls (new_fake_runtime healthy (codes "fake") 0 (codes "2026-07-24"))).captures
    ≡ (interrupted, 0 ∷ 1 ∷ []) ∷ []
unfolding new_fake_runtime start_capture run_all contains str_eq is_blank is_space put get
    master_all_strings.Performance.FakeRuntime.identity
    master_all_strings.Performance.FakeRuntime.fake_source
    master_all_strings.Performance.FakeRuntime.now
    master_all_strings.Performance.FakeRuntime.timestamp
    master_all_strings.Performance.FakeRuntime.digits
    master_all_strings.Performance.FakeRuntime.four_digits
    master_all_strings.Performance.FakeRuntime.success
    master_all_strings.Performance.FakeRuntime.failure
    master_all_strings.Performance.FakeRuntime.next_fault
    master_all_strings.Performance.FakeRuntime.stored
    master_all_strings.Performance.Runtimes.new_identity
    master_all_strings.Performance.Runtimes.new_fault
    master_all_strings.Performance.Errors.require_identifier
    master_all_strings.Performance.Errors.is_stripped
    master_all_strings.Performance.Errors.require_optional_identifier
    master_all_strings.Performance.Errors.require_utc_timestamp
    master_all_strings.Performance.Errors.ends_in_z master_all_strings.Performance.Errors.replace_z
    master_all_strings.Performance.Errors.ends_plainly
    master_all_strings.Performance.Errors.require_unique
    master_all_strings.Performance.Capture.new_source
    master_all_strings.Performance.Capture.build_raw_capture
    master_all_strings.Performance.Capture.new_capture
    master_all_strings.Performance.Capture.check_order
    master_all_strings.Performance.Capture.validate_closure
    master_all_strings.Performance.Capture.validate_collections
    master_all_strings.Performance.Capture.validate_events
    master_all_strings.Performance.CommandResults.new_command_result
    master_all_strings.Prelude.all_distinct
    master_all_strings.Performance.FakeRuntime.Operations.run
    master_all_strings.Performance.FakeRuntime.Lifecycle.start
    master_all_strings.Performance.FakeRuntime.Lifecycle.prepare_session
    master_all_strings.Performance.FakeRuntime.Lifecycle.arm_track
    master_all_strings.Performance.FakeRuntime.Capturing.crash
    master_all_strings.Performance.FakeRuntime.Capturing.close_active
    master_all_strings.Performance.FakeRuntime.Capturing.close_interrupted
    master_all_strings.Performance.FakeRuntime.Feed.feed
    master_all_strings.Performance.FakeRuntime.Feed.feed_note_on
    master_all_strings.Performance.FakeRuntime.Feed.feed_note_off
    master_all_strings.Performance.Capture.new_event
    master_all_strings.Performance.Capture.append_events
    master_all_strings.Performance.Capture.close_capture
    master_all_strings.Performance.Capture.mark_capture_interrupted
    master_all_strings.Performance.Capture.validate_note_fields
    master_all_strings.Performance.Capture.validate_controller_fields
    master_all_strings.Performance.Capture.validate_pitch_bend
    master_all_strings.Performance.Capture.validate_source_string
    master_all_strings.Performance.Errors.require_nonnegative_int
    master_all_strings.Performance.Errors.require_range
    master_all_strings.Performance.Errors.require_raw_payload
    master_all_strings.Performance.Errors.are_bytes master_all_strings.Foundation.require_midi_note
crash_of_take = refl

-- The finished capture `take-0` is lost.
start_capture-FreshAt_example :
    On
      (FreshAt (codes "take-0"))
      (start_capture (codes "session-001") (codes "take-0") (codes "track-1") armed).1
start_capture-FreshAt_example =
    start_capture-FreshAt (codes "session-001") (codes "take-0") (codes "track-1") armed started
      start_take refl

abbrev stopped_result : CommandResult
stopped_result = record {
  command = codes "stop";
  runtime_id = codes "fake";
  completed_at = codes "2026-07-24T10:00:07Z";
  fault = none;
}

stop_after_take :
    (stop true (after_calls healthy (codes "fake") (codes "2026-07-24") 0 open_take_calls)).0
    ≡ ok stopped_result
unfolding new_fake_runtime start_capture run_all contains str_eq is_blank is_space put get
    master_all_strings.Performance.FakeRuntime.identity
    master_all_strings.Performance.FakeRuntime.fake_source
    master_all_strings.Performance.FakeRuntime.now
    master_all_strings.Performance.FakeRuntime.timestamp
    master_all_strings.Performance.FakeRuntime.digits
    master_all_strings.Performance.FakeRuntime.four_digits
    master_all_strings.Performance.FakeRuntime.success
    master_all_strings.Performance.FakeRuntime.failure
    master_all_strings.Performance.FakeRuntime.next_fault
    master_all_strings.Performance.FakeRuntime.stored
    master_all_strings.Performance.Runtimes.new_identity
    master_all_strings.Performance.Runtimes.new_fault
    master_all_strings.Performance.Errors.require_identifier
    master_all_strings.Performance.Errors.is_stripped
    master_all_strings.Performance.Errors.require_optional_identifier
    master_all_strings.Performance.Errors.require_utc_timestamp
    master_all_strings.Performance.Errors.ends_in_z master_all_strings.Performance.Errors.replace_z
    master_all_strings.Performance.Errors.ends_plainly
    master_all_strings.Performance.Errors.require_unique
    master_all_strings.Performance.Capture.new_source
    master_all_strings.Performance.Capture.build_raw_capture
    master_all_strings.Performance.Capture.new_capture
    master_all_strings.Performance.Capture.check_order
    master_all_strings.Performance.Capture.validate_closure
    master_all_strings.Performance.Capture.validate_collections
    master_all_strings.Performance.Capture.validate_events
    master_all_strings.Performance.CommandResults.new_command_result
    master_all_strings.Prelude.all_distinct
    master_all_strings.Performance.FakeRuntime.Operations.run
    master_all_strings.Performance.FakeRuntime.Lifecycle.start
    master_all_strings.Performance.FakeRuntime.Lifecycle.prepare_session
    master_all_strings.Performance.FakeRuntime.Lifecycle.arm_track
    master_all_strings.Performance.FakeRuntime.Capturing.crash
    master_all_strings.Performance.FakeRuntime.Capturing.close_active
    master_all_strings.Performance.FakeRuntime.Capturing.close_interrupted
    master_all_strings.Performance.FakeRuntime.Feed.feed
    master_all_strings.Performance.FakeRuntime.Feed.feed_note_on
    master_all_strings.Performance.FakeRuntime.Feed.feed_note_off
    master_all_strings.Performance.Capture.new_event
    master_all_strings.Performance.Capture.append_events
    master_all_strings.Performance.Capture.close_capture
    master_all_strings.Performance.Capture.mark_capture_interrupted
    master_all_strings.Performance.Capture.validate_note_fields
    master_all_strings.Performance.Capture.validate_controller_fields
    master_all_strings.Performance.Capture.validate_pitch_bend
    master_all_strings.Performance.Capture.validate_source_string
    master_all_strings.Performance.Errors.require_nonnegative_int
    master_all_strings.Performance.Errors.require_range
    master_all_strings.Performance.Errors.require_raw_payload
    master_all_strings.Performance.Errors.are_bytes master_all_strings.Foundation.require_midi_note
    stop interrupt_if_active interrupt_active_capture
stop_after_take = refl

stop-IsStopped_example :
    IsStopped
      (stop true (after_calls healthy (codes "fake") (codes "2026-07-24") 0 open_take_calls)).1
stop-IsStopped_example =
    stop-IsStopped healthy (codes "fake") (codes "2026-07-24") 0 open_take_calls true stopped_result
      stop_after_take
