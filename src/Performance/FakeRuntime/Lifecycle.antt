-- ===== src/Performance/FakeRuntime/Lifecycle.antt =====
-- performance/adapters/fake_runtime.py: starting, stopping, and the methods of a prepared session.
use master_all_strings.Prelude.{
  List, [], ◌∷◌, map, Bool, true, false, not, Option, none, some, Str_eq, contains, if◌then◌else◌,
}
use master_all_strings.Prelude.Action.{◌>>=◌, ◌>>◌, return, self, modify}
use master_all_strings.Prelude.Text.{Str, codes, str_eq}
use master_all_strings.Performance.Errors.{Iso8601}
use master_all_strings.Performance.Runtimes.{
  off, ready, failed, is_ready, startup_timeout, shutdown_timeout, midi_input_missing,
  audio_output_missing, synth_missing, synth_load_failed, panic_failed, invalid_state, Detail,
}
use master_all_strings.Performance.Sessions.{SessionConfig, TransportMode, stopped, LoopRegion}
use master_all_strings.Performance.CommandResults.{CommandResult}
use master_all_strings.Performance.FakeRuntime.{
  FakeRuntime, Method, success, failure, set_state, set_session, with_session,
}
use master_all_strings.Performance.FakeRuntime.Capturing.{interrupt_active_capture}

unfoldable pub start : ⦃iso : Iso8601⦄ → Method CommandResult
start = do
  s ← self
  elim s.scenario.start_times_out [
    | true ↦ do
      modify (set_state failed)
      failure "start" startup_timeout "process" Detail.not_ready_in_time
    | false ↦ do modify (set_state ready); success "start"
  ]

-- `if self._active_capture_id is not None:` interrupt it.
unfoldable pub interrupt_if_active : ⦃iso : Iso8601⦄ → Bool → Method (Unit {0})
interrupt_if_active force = do
  s ← self
  elim s.active_capture_id [
    | none ↦ return tt
    | some _ ↦ do
      _ ←
          interrupt_active_capture (if force then shutdown_timeout else invalid_state)
            Detail.stopped_while_active true
      return tt
  ]

unfoldable pub stop : ⦃iso : Iso8601⦄ → Bool → Method CommandResult
stop force = do
  interrupt_if_active force
  modify (set_state off)
  modify (set_session none)
  success "stop"

unfoldable pub prepare_session : ⦃iso : Iso8601⦄ → SessionConfig → Method CommandResult
prepare_session config = do
  s ← self
  if not (is_ready s.state)
      then failure "prepare_session" invalid_state "session" Detail.runtime_not_ready
      else if s.scenario.midi_input_absent
      then failure "prepare_session" midi_input_missing "midi_input" Detail.no_midi_input
      else if s.scenario.audio_output_absent
      then failure "prepare_session" audio_output_missing "audio_output" Detail.no_audio_output
      else do
        modify (
            set_session (
              some (record {
                config = config;
                armed_tracks = [];
                synth_id = none;
                transport_mode = stopped;
                sounding_notes = [];
              })))
        success "prepare_session"

-- `set.discard`
abbrev pub discard : Str → List Str → List Str
discard x [] = []
discard x (y ∷ ys) = let rest = discard x ys in if str_eq x y then rest else y ∷ rest

unfoldable pub arm_track : ⦃iso : Iso8601⦄ → Str → Bool → Method CommandResult
arm_track track_id armed = with_session "arm_track" (λ session.
    if not (contains track_id (map (λ t. t.track_id) session.config.tracks))
    then failure "arm_track" invalid_state "session" (Detail.unknown_track track_id)
    else do
      modify (
          set_session (
            some (record session {
              armed_tracks =
                  if armed
                  then track_id ∷ session.armed_tracks
                  else discard track_id session.armed_tracks;
            })))
      success "arm_track")

unfoldable pub set_transport : ⦃iso : Iso8601⦄ → TransportMode → Method CommandResult
set_transport mode = with_session "set_transport" (λ session. do
  modify (set_session (some (record session { transport_mode = mode })))
  success "set_transport")

unfoldable pub select_synth : ⦃iso : Iso8601⦄ → Str → Method CommandResult
select_synth synth_id = with_session "select_synth" (λ session. do
  s ← self
  if s.scenario.synth_load_fails
      then failure "select_synth" synth_load_failed "synth" (Detail.synth_not_loaded synth_id)
      else if not (str_eq synth_id (codes "fake-synth"))
      then failure "select_synth" synth_missing "synth" (Detail.synth_unavailable synth_id)
      else do
        modify (set_session (some (record session { synth_id = some synth_id })))
        success "select_synth")

unfoldable pub set_loop : ⦃iso : Iso8601⦄ → Option LoopRegion → Method CommandResult
set_loop loop = with_session "set_loop" (λ session. success "set_loop")

abbrev pub silence : FakeRuntime → FakeRuntime
silence r = elim r.session [
  | none ↦ r
  | some session ↦ set_session (some (record session { sounding_notes = [] })) r
]

unfoldable pub panic : ⦃iso : Iso8601⦄ → Method CommandResult
panic = do
  s ← self
  if s.scenario.panic_fails
      then failure "panic" panic_failed "synth" Detail.note_left_sounding
      else do modify silence; success "panic"
