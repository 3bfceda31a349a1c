-- ===== src/Performance/FakeRuntime/Stability/Methods.antt =====
-- Every method, and every sequence of calls, keeps a stable property.
use Prim.Native.String.{String}
use master_all_strings.Prelude.{
  All, List, [], ◌∷◌, map, Bool, true, false, not, Option, Str_eq, contains,
}
use master_all_strings.Prelude.Action.{Keeps, Keeps->>=, Keeps-option, Keeps-bool, Keeps-if}
use master_all_strings.Prelude.Text.{Str, codes, str_eq}
use master_all_strings.Performance.Errors.{Iso8601}
use master_all_strings.Performance.Runtimes.{FaultCode, Detail, is_ready, is_off}
use master_all_strings.Performance.Sessions.{SessionConfig, TransportMode, LoopRegion}
use master_all_strings.Performance.FakeRuntime.{FakeRuntime, Method, now, next_fault}
use master_all_strings.Performance.FakeRuntime.Capturing as Capturing
use master_all_strings.Performance.FakeRuntime.Lifecycle as Lifecycle
use master_all_strings.Performance.FakeRuntime.Health as Health
use master_all_strings.Performance.FakeRuntime.Operations.{Operation, run, run_all, discard_result}
use master_all_strings.Performance.FakeRuntime.Stability.{
  Stable, CapturePredicate, On, Respects, now-Keeps, next_fault-Keeps, success-Keeps, failure-Keeps,
  with_session-Keeps,
}
use master_all_strings.Performance.FakeRuntime.Stability.Captures.{
  interrupt-Keeps, crash-Keeps, start_capture-Keeps, stop_capture-Keeps, retrieve_capture-Keeps,
}
use master_all_strings.Performance.FakeRuntime.Stability.Feeding.{
  silenced, feed_note_on-Keeps, feed_note_off-Keeps, feed_control_change-Keeps,
  feed_pitch_bend-Keeps,
}

module _ ⦃iso : Iso8601⦄ (P : CapturePredicate) (Allowed : Str → Type 0)
    (stable : Stable P Allowed) where
  start-Keeps : Keeps (On P) Lifecycle.start
  unfolding Lifecycle.start
  start-Keeps s h =
      Keeps-bool (On P) s.scenario.start_times_out _ _ (λ t i. failure-Keeps P _ _ _ _ _ i)
        (λ t i. success-Keeps P _ _ i) s h

  interrupt_if_active-Keeps : (force : Bool) → Keeps (On P) (Lifecycle.interrupt_if_active force)
  unfolding Lifecycle.interrupt_if_active
  interrupt_if_active-Keeps force s h =
      Keeps-option (On P) s.active_capture_id _ _ (λ t i. i)
        (λ _ t i.
          Keeps->>= (On P) (Capturing.interrupt_active_capture _ _ _) _
            (interrupt-Keeps P Allowed stable _ _ _) (λ _ u j. j) t i)
        s h

  pub stop-Keeps : (force : Bool) → Keeps (On P) (Lifecycle.stop force)
  unfolding Lifecycle.stop
  stop-Keeps force s h =
      Keeps->>= (On P) (Lifecycle.interrupt_if_active force) _ (interrupt_if_active-Keeps force)
        (λ _ t i. success-Keeps P "stop" _ i) s h

  prepare_session-Keeps : (config : SessionConfig) → Keeps (On P) (Lifecycle.prepare_session config)
  unfolding Lifecycle.prepare_session
  prepare_session-Keeps config s h =
      Keeps-if (On P) (not (is_ready s.state)) _ _ (failure-Keeps P _ _ _ _)
        (Keeps-if (On P) s.scenario.midi_input_absent _ _ (failure-Keeps P _ _ _ _) (
          Keeps-if (On P) s.scenario.audio_output_absent _ _ (failure-Keeps P _ _ _ _)
            (λ t i. success-Keeps P _ _ i)))
        s h

  arm_track-Keeps : (id : Str) (armed : Bool) → Keeps (On P) (Lifecycle.arm_track id armed)
  unfolding Lifecycle.arm_track
  arm_track-Keeps id armed = with_session-Keeps P _ _ (λ session.
      Keeps-if (On P) (not (contains id (map (λ t. t.track_id) session.config.tracks))) _ _
        (failure-Keeps P _ _ _ _) (λ t i. success-Keeps P _ _ i))

  set_transport-Keeps : (mode : TransportMode) → Keeps (On P) (Lifecycle.set_transport mode)
  unfolding Lifecycle.set_transport
  set_transport-Keeps mode = with_session-Keeps P _ _ (λ session t i. success-Keeps P _ _ i)

  select_synth-Keeps : (id : Str) → Keeps (On P) (Lifecycle.select_synth id)
  unfolding Lifecycle.select_synth
  select_synth-Keeps id = with_session-Keeps P _ _ (λ session s h.
      Keeps-if (On P) s.scenario.synth_load_fails _ _ (failure-Keeps P _ _ _ _)
        (Keeps-if (On P) (not (str_eq id (codes "fake-synth"))) _ _ (failure-Keeps P _ _ _ _)
          (λ t i. success-Keeps P _ _ i))
        s h)

  set_loop-Keeps : (loop : Option LoopRegion) → Keeps (On P) (Lifecycle.set_loop loop)
  unfolding Lifecycle.set_loop
  set_loop-Keeps loop = with_session-Keeps P _ _ (λ session. success-Keeps P _)

  panic-Keeps : Keeps (On P) Lifecycle.panic
  unfolding Lifecycle.panic
  panic-Keeps s h =
      Keeps-if (On P) s.scenario.panic_fails _ _ (failure-Keeps P _ _ _ _)
        (λ t i. success-Keeps P _ _ (silenced P Allowed stable t t.session i)) s h

  scenario_fault-Keeps :
      (b : Bool) (code : FaultCode) (subsystem : String) (detail : Detail) (recoverable : Bool)
      → Keeps (On P) (Health.scenario_fault b code subsystem detail recoverable)
  scenario_fault-Keeps false code subsystem detail recoverable s h = h
  scenario_fault-Keeps true code subsystem detail recoverable s h =
      Keeps->>= (On P) (next_fault code subsystem detail recoverable) _ (next_fault-Keeps P _ _ _ _)
        (λ _ t i. i) s h

  health-Keeps : Keeps (On P) Health.health
  unfolding Health.health
  health-Keeps s h =
      Keeps-bool (On P) (is_off s.state) _ _
        (λ t i. Keeps->>= (On P) now _ (now-Keeps P) (λ _ u j. j) t i)
        (λ t i.
          Keeps->>= (On P) (Health.scenario_fault s.scenario.midi_input_absent _ _ _ _) _
            (scenario_fault-Keeps _ _ _ _ _)
            (λ midi u j.
              Keeps->>= (On P) (Health.scenario_fault s.scenario.audio_output_absent _ _ _ _) _
                (scenario_fault-Keeps _ _ _ _ _)
                (λ audio v k.
                  Keeps->>= (On P) (Health.scenario_fault s.scenario.synth_load_fails _ _ _ _) _
                    (scenario_fault-Keeps _ _ _ _ _)
                    (λ synth w l. Keeps->>= (On P) now _ (now-Keeps P) (λ _ x m. m) w l) v k)
                u j)
            t i)
        s h

  readiness-Keeps : Keeps (On P) Health.readiness
  unfolding Health.readiness
  readiness-Keeps s h = Keeps->>= (On P) Health.health _ health-Keeps (λ _ t i. i) s h

  discarded : {A : Type 0} (m : Method A) → Keeps (On P) m → Keeps (On P) (discard_result m)
  discarded m hm = Keeps->>= (On P) m _ hm (λ _ t i. i)

  -- Every method keeps a stable property of the captures, whether it returns or raises.
  pub run-Keeps :
      (operation : Operation) → Respects Allowed operation → Keeps (On P) (run operation)
  unfolding run
  run-Keeps Operation.start a = discarded _ start-Keeps
  run-Keeps Operation.crash a = discarded _ (crash-Keeps P Allowed stable)
  run-Keeps Operation.panic a = discarded _ panic-Keeps
  run-Keeps Operation.health a = discarded _ health-Keeps
  run-Keeps Operation.readiness a = discarded _ readiness-Keeps
  run-Keeps (Operation.stop force) a = discarded _ (stop-Keeps force)
  run-Keeps (Operation.prepare_session config) a = discarded _ (prepare_session-Keeps config)
  run-Keeps (Operation.arm_track id armed) a = discarded _ (arm_track-Keeps id armed)
  run-Keeps (Operation.set_transport mode) a = discarded _ (set_transport-Keeps mode)
  run-Keeps (Operation.select_synth id) a = discarded _ (select_synth-Keeps id)
  run-Keeps (Operation.set_loop loop) a = discarded _ (set_loop-Keeps loop)
  run-Keeps (Operation.start_capture session_id id track_id) a =
      discarded _ (start_capture-Keeps P Allowed stable session_id id track_id a)
  run-Keeps (Operation.stop_capture id ended_at was_cancelled) a =
      discarded _ (stop_capture-Keeps P Allowed stable id ended_at was_cancelled)
  run-Keeps (Operation.retrieve_capture id) a =
      discarded _ (retrieve_capture-Keeps P Allowed stable id)
  run-Keeps (Operation.feed_note_on note velocity channel time string) a =
      feed_note_on-Keeps P Allowed stable note velocity channel time string
  run-Keeps (Operation.feed_note_off note channel time string) a =
      feed_note_off-Keeps P Allowed stable note channel time string
  run-Keeps (Operation.feed_control_change controller value channel time) a =
      feed_control_change-Keeps P Allowed stable controller value channel time
  run-Keeps (Operation.feed_pitch_bend bend channel time) a =
      feed_pitch_bend-Keeps P Allowed stable bend channel time

  pub run_all-Keeps :
      (operations : List Operation) (r : FakeRuntime)
      → All (Respects Allowed) operations
      → On P r
      → On P (run_all operations r)
  unfolding run_all
  run_all-Keeps [] r a h = h
  run_all-Keeps (operation ∷ operations) r a h =
      run_all-Keeps operations _ a.1 (run-Keeps operation a.0 r h)
