-- ===== src/Performance/Sessions.antt =====
-- performance/contracts/session.py: a prepared session of one track.
use master_all_strings.Prelude.{
  Str_eq, ℕ_eq, ℕ, List, [], ◌∷◌, map, Bool, true, false, not, ◌&&◌, Option, none, some, Result, ok,
  err, require, ◌>>◌, leb, ltb, contains, length,
}
use master_all_strings.Prelude.Int.{ℤ, pos, leb_ℤ, ltb_ℤ}
use master_all_strings.Prelude.Text.{Str, codes}
use master_all_strings.Performance.Errors.{
  PerformanceError, require_identifier, require_optional_identifier, require_range, require_unique,
  require_nonnegative_int, require_positive_int, audio_out_of_scope, armed_without_input, no_tracks,
  too_many_tracks, bad_beat_unit, bad_level, bad_tempo, empty_loop,
}

pub data TransportMode : Type 0 where
  stopped playing recording : TransportMode

pub data TrackKind : Type 0 where
  midi audio : TrackKind

pub record Meter : Type 0 where
  pub beats_per_bar : ℤ
  pub beat_unit : ℕ

abbrev supported_beat_units : List ℕ
supported_beat_units = 1 ∷ 2 ∷ 4 ∷ 8 ∷ 16 ∷ 32 ∷ []

unfoldable pub new_meter : Meter → Result PerformanceError Meter
new_meter meter = do
  require_range meter.beats_per_bar "beats_per_bar" (pos 1) (pos 64)
  require (contains meter.beat_unit supported_beat_units) bad_beat_unit
  ok meter

pub record LoopRegion : Type 0 where
  pub start_tick : ℤ
  pub end_tick : ℤ
  pub enabled : Bool

unfoldable pub new_loop : LoopRegion → Result PerformanceError LoopRegion
new_loop loop = do
  require_nonnegative_int loop.start_tick "start_tick"
  require_nonnegative_int loop.end_tick "end_tick"
  require (ltb_ℤ loop.start_tick loop.end_tick) empty_loop
  ok loop

-- `level` is counted in 10^-9.
pub record Metronome : Type 0 where
  pub enabled : Bool
  pub count_in_bars : ℤ
  pub level : ℤ

unfoldable pub new_metronome : Metronome → Result PerformanceError Metronome
new_metronome metronome = do
  require_nonnegative_int metronome.count_in_bars "count_in_bars"
  require (leb_ℤ (pos 0) metronome.level && leb_ℤ metronome.level (pos 1_000_000_000)) bad_level
  ok metronome

-- `tempo_bpm` is counted in 10^-9 beats per minute.
pub record Transport : Type 0 where
  pub mode : TransportMode
  pub position_tick : ℤ
  pub tempo_bpm : ℕ
  pub meter : Meter
  pub ticks_per_quarter : ℤ
  pub loop : Option LoopRegion

abbrev min_tempo_bpm : ℕ
min_tempo_bpm = 20_000_000_000

abbrev max_tempo_bpm : ℕ
max_tempo_bpm = 400_000_000_000

unfoldable pub new_transport : Transport → Result PerformanceError Transport
new_transport transport = do
  require_nonnegative_int transport.position_tick "position_tick"
  require (leb min_tempo_bpm transport.tempo_bpm && leb transport.tempo_bpm max_tempo_bpm) bad_tempo
  require_positive_int transport.ticks_per_quarter "ticks_per_quarter"
  ok transport

pub record Track : Type 0 where
  pub track_id : Str
  pub name : Str
  pub kind : TrackKind
  pub midi_input : Option Str
  pub synth_id : Option Str
  pub record_armed : Bool
  pub channel : Option ℤ

abbrev is_audio : TrackKind → Bool
is_audio audio = true
is_audio midi = false

abbrev is_none {ℓ} : {A : Type ℓ} → Option A → Bool
is_none none = true
is_none (some _) = false

abbrev require_channel : Option ℤ → Result PerformanceError (Unit {0})
require_channel none = ok tt
require_channel (some channel) = require_range channel "channel" (pos 0) (pos 15)

unfoldable pub new_track : Track → Result PerformanceError Track
new_track track = do
  require_identifier track.track_id "track_id"
  require_identifier track.name "name"
  require (not (is_audio track.kind)) audio_out_of_scope
  require_optional_identifier track.midi_input "midi_input"
  require_optional_identifier track.synth_id "synth_id"
  require_channel track.channel
  require (not (track.record_armed && is_none track.midi_input)) armed_without_input
  ok track

pub record SessionConfig : Type 0 where
  pub session_id : Str
  pub runtime_id : Str
  pub tracks : List Track
  pub transport : Transport
  pub metronome : Metronome
  pub template_id : Str

abbrev max_tracks_first_target : ℕ
max_tracks_first_target = 1

unfoldable pub new_session_config : SessionConfig → Result PerformanceError SessionConfig
new_session_config config = do
  require_identifier config.session_id "session_id"
  require_identifier config.runtime_id "runtime_id"
  require_identifier config.template_id "template_id"
  require (ltb 0 (length config.tracks)) no_tracks
  require_unique (map (λ t. t.track_id) config.tracks) "track_id"
  require (leb (length config.tracks) max_tracks_first_target) too_many_tracks
  ok config

-- performance/session_builder.py: the session of one armed MIDI track at 120 beats per minute.
unfoldable pub build_single_track_session :
    Str → Str → Str → Str → Result PerformanceError SessionConfig
build_single_track_session session_id runtime_id midi_input synth_id =
    elim (new_track (record {
      track_id = codes "track-1";
      name = codes "Guitar MIDI";
      kind = midi;
      midi_input = some midi_input;
      synth_id = some synth_id;
      record_armed = true;
      channel = some (pos 0);
    })) [
      | err e ↦ err e
      | ok track ↦ new_session_config (record {
        session_id = session_id;
        runtime_id = runtime_id;
        tracks = track ∷ [];
        transport = record {
          mode = stopped;
          position_tick = pos 0;
          tempo_bpm = 120_000_000_000;
          meter = record { beats_per_bar = pos 4; beat_unit = 4 };
          ticks_per_quarter = pos 960;
          loop = none;
        };
        metronome = record { enabled = false; count_in_bars = pos 0; level = pos 500_000_000 };
        template_id = codes "single-midi-track-v1";
      })
    ]
