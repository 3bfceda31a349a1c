-- ===== src/Performance/FakeRuntime/Operations.antt =====
-- performance/adapters/fake_runtime.py: the methods of the runtime as values, and sequences of calls.
use master_all_strings.Prelude.{List, [], ◌∷◌, Bool, Option}
use master_all_strings.Prelude.Action.{◌>>=◌, return}
use master_all_strings.Prelude.Int.{ℤ}
use master_all_strings.Prelude.Text.{Str}
use master_all_strings.Performance.Errors.{Iso8601}
use master_all_strings.Performance.Sessions.{SessionConfig, TransportMode, LoopRegion}
use master_all_strings.Performance.FakeRuntime.{FakeRuntime, Method}
use master_all_strings.Performance.FakeRuntime.Capturing as Capturing
use master_all_strings.Performance.FakeRuntime.Lifecycle as Lifecycle
use master_all_strings.Performance.FakeRuntime.Feed as Feed
use master_all_strings.Performance.FakeRuntime.Health as Health

-- A call of a method, with its command's fields.
pub data Operation : Type 0 where
  start crash panic health readiness : Operation
  stop : (force : Bool) → Operation
  prepare_session : (config : SessionConfig) → Operation
  arm_track : (track_id : Str) (armed : Bool) → Operation
  set_transport : (mode : TransportMode) → Operation
  select_synth : (synth_id : Str) → Operation
  set_loop : (loop : Option LoopRegion) → Operation
  start_capture : (session_id capture_id track_id : Str) → Operation
  stop_capture : (capture_id ended_at : Str) (cancelled : Bool) → Operation
  retrieve_capture : (capture_id : Str) → Operation
  feed_note_on : (note velocity channel : ℤ) (time_ns source_string : Option ℤ) → Operation
  feed_note_off : (note channel : ℤ) (time_ns source_string : Option ℤ) → Operation
  feed_control_change : (controller value channel : ℤ) (time_ns : Option ℤ) → Operation
  feed_pitch_bend : (bend channel : ℤ) (time_ns : Option ℤ) → Operation

abbrev pub discard_result : {A : Type 0} → Method A → Method (Unit {0})
discard_result m = m >>= λ _. return tt

unfoldable pub run : ⦃iso : Iso8601⦄ → Operation → Method (Unit {0})
run start = discard_result Lifecycle.start
run crash = discard_result Capturing.crash
run panic = discard_result Lifecycle.panic
run health = discard_result Health.health
run readiness = discard_result Health.readiness
run (stop force) = discard_result (Lifecycle.stop force)
run (prepare_session config) = discard_result (Lifecycle.prepare_session config)
run (arm_track track_id armed) = discard_result (Lifecycle.arm_track track_id armed)
run (set_transport mode) = discard_result (Lifecycle.set_transport mode)
run (select_synth synth_id) = discard_result (Lifecycle.select_synth synth_id)
run (set_loop loop) = discard_result (Lifecycle.set_loop loop)
run (start_capture session_id capture_id track_id) =
    discard_result (Capturing.start_capture session_id capture_id track_id)
run (stop_capture capture_id ended_at cancelled) =
    discard_result (Capturing.stop_capture capture_id ended_at cancelled)
run (retrieve_capture capture_id) = discard_result (Capturing.retrieve_capture capture_id)
run (feed_note_on note velocity channel time_ns source_string) =
    Feed.feed_note_on note velocity channel time_ns source_string
run (feed_note_off note channel time_ns source_string) =
    Feed.feed_note_off note channel time_ns source_string
run (feed_control_change controller value channel time_ns) =
    Feed.feed_control_change controller value channel time_ns
run (feed_pitch_bend bend channel time_ns) = Feed.feed_pitch_bend bend channel time_ns

-- Calls in sequence; a caller goes on after a call that raised.
unfoldable pub run_all : ⦃iso : Iso8601⦄ → List Operation → FakeRuntime → FakeRuntime
run_all [] r = r
run_all (operation ∷ operations) r = run_all operations (run operation r).1
