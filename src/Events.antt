-- ===== src/Events.antt =====
-- core/musical_events/models.py: a pitch event independent of any instrument.
use master_all_strings.Prelude.{
  ℕ, Option, none, some, Result, ok, require, ◌>>◌, ◌&&◌, ◌≡◌, true, ◌≤◌, ◌<◌, arith,
}
use master_all_strings.Prelude.Int.{ℤ, pos, pos_part, leb_ℤ, ltb_ℤ}
use master_all_strings.Prelude.Text.{Str}
use master_all_strings.Prelude.Float.{Float, is_finite}
use master_all_strings.Foundation.{
  DomainError, require_non_empty, require_midi_note, require_midi_note-le, require_index,
  require_finite, not_positive, velocity_out_of_range,
}

-- The default of `cents_offset` is 0.0.
pub record MusicalEvent : Type 0 where
  pub event_id : Str
  pub midi_note : ℕ
  pub start_tick : ℕ
  pub duration_ticks : ℕ
  pub velocity : ℕ
  pub cents_offset : Float
  pub voice_id : Option Str

unfoldable pub require_optional_id : Option Str → Result DomainError (Unit {0})
require_optional_id none = ok tt
require_optional_id (some id) = require_non_empty id "voice_id"

-- The constructor with its validation: id, note, start, duration, velocity, cents, voice.
unfoldable pub new_musical_event :
    Str → ℤ → ℤ → ℤ → ℤ → Float → Option Str → Result DomainError MusicalEvent
new_musical_event event_id midi_note start_tick duration_ticks velocity cents_offset voice_id = do
  require_non_empty event_id "event_id"
  require_midi_note midi_note "midi_note"
  require_index start_tick "start_tick"
  require (ltb_ℤ (pos 0) duration_ticks) (not_positive "duration_ticks")
  require (leb_ℤ (pos 0) velocity && leb_ℤ velocity (pos 127)) velocity_out_of_range
  require_finite cents_offset "cents_offset"
  require_optional_id voice_id
  ok (record {
    event_id = event_id;
    midi_note = pos_part midi_note;
    start_tick = pos_part start_tick;
    duration_ticks = pos_part duration_ticks;
    velocity = pos_part velocity;
    cents_offset = cents_offset;
    voice_id = voice_id;
  })

-- What the constructor guarantees of an event.
pub record IsValid (e : MusicalEvent) : Type 0 where
  pub note_range : e.midi_note ≤ 127
  pub lasts : 0 < e.duration_ticks
  pub velocity_range : e.velocity ≤ 127
  pub cents_finite : is_finite e.cents_offset ≡ true

-- Every event that the constructor lets exist is valid.
pub new_musical_event-IsValid :
    (id : Str) (note start duration velocity : ℤ) (cents : Float) (voice : Option Str)
    {e : MusicalEvent}
    → new_musical_event id note start duration velocity cents voice ≡ ok e
    → IsValid e
unfolding new_musical_event require_finite
new_musical_event-IsValid id note start duration velocity cents voice h = record {
  note_range = ground (arith, require_midi_note-le note "midi_note");
  lasts = ground arith;
  velocity_range = ground arith;
  cents_finite = ground arith;
}
