-- ===== src/Ingestion/Contracts.antt =====
-- core/ingestion/contracts.py and results.py: what a request carries and what is answered.
use master_all_strings.Prelude.{
  ℕ, Bool, true, false, Option, List, ◌||◌, ◌&&◌, nat_eq, Eq, ◌≡◌, ◌↔◌, arith,
}
use master_all_strings.Prelude.Int.{ℤ}
use master_all_strings.Prelude.Text.{Str}
use master_all_strings.Events.{MusicalEvent}
use master_all_strings.Score.Meter.{MeterChange}

pub data Kind : Type 0 where
  note_on note_off : Kind

pub record SourceMidiEvent : Type 0 where
  pub source_event_id : Str
  pub kind : Kind
  pub capture_time_ns : ℕ
  pub channel : ℕ
  pub midi_note : ℕ
  pub velocity : ℕ
  pub observed_source_string : Option ℕ

is_note_off : Kind → Bool
is_note_off note_on = false
is_note_off note_off = true

is_note_on : Kind → Bool
is_note_on note_on = true
is_note_on note_off = false

-- A note-on with velocity 0 is a note-off.
unfoldable pub releases_a_note : SourceMidiEvent → Bool
unfolding is_note_off is_note_on
releases_a_note event = is_note_off event.kind || (is_note_on event.kind && nat_eq event.velocity 0)

pub data ProjectionType : Type 0 where
  piano_roll notation tab midi : ProjectionType

pub record Request : Type 0 where
  pub request_id : Str
  pub capture_id : Str
  pub raw_capture_digest : Str
  pub capture_origin_ns : ℕ
  pub tempo_microseconds_per_quarter : ℕ
  pub meter : MeterChange
  pub source_events : List SourceMidiEvent
  pub ticks_per_quarter : Option ℕ
  pub source_session_id : Str
  pub requested_at : Str
  pub instrument_profile_id : Option Str
  pub tuning_profile_id : Option Str
  pub requested_projection_types : List ProjectionType

pub data RejectionReason : Type 0 where
  unmatched_note_on unmatched_note_off duration_below_one_tick : RejectionReason
  event_before_capture_origin no_convertible_events : RejectionReason
  unsupported_capture_type invalid_tempo_map invalid_meter_map : RejectionReason
  ingestion_idempotency_conflict : RejectionReason

-- The prose of a rejection or a warning is left out.
pub record Rejection : Type 0 where
  pub reason : RejectionReason
  pub source_event_ids : List Str

pub data WarningCode : Type 0 where
  rounding_applied source_string_unresolved channel_not_mapped_to_voice : WarningCode

pub record Warning : Type 0 where
  pub code : WarningCode
  pub source_event_ids : List Str

pub data RoundingPolicy : Type 0 where
  round_half_away_from_zero : RoundingPolicy

-- `SourceEventProvenanceV1` with the fields that an import fills, which is all of them.
pub record EventProvenance : Type 0 where
  pub canonical_event_id : Str
  pub source_capture_event_ids : List Str
  pub source_channel : ℕ
  pub observed_source_string : Option ℕ
  pub source_capture_time_ns : ℕ
  pub source_release_time_ns : ℕ
  pub converted_start_tick : ℤ
  pub converted_duration_ticks : ℤ
  pub rounding_delta_start_ns : ℤ
  pub rounding_delta_duration_ns : ℤ
  pub rounding_policy : RoundingPolicy
  pub ticks_per_quarter : ℕ
  pub microseconds_per_quarter : ℕ

pub record ImportOutcome : Type 0 where
  pub events : List MusicalEvent
  pub event_provenance : List EventProvenance
  pub warnings : List Warning
  pub rejections : List Rejection

-- The key under which open notes wait: a channel and a note.
abbrev pub NoteKey : Type 0
NoteKey = ℕ × ℕ

abbrev pub note_key_eq : NoteKey → NoteKey → Bool
note_key_eq (a, b) (c, d) = nat_eq a c && nat_eq b d

pub note_key_eq_iff : (k l : NoteKey) → (note_key_eq k l ≡ true) ↔ (k ≡ l)
note_key_eq_iff (a, b) (c, d) = (λ h. ground arith, λ h. ground arith)

instance abbrev pub NoteKey_eq : Eq NoteKey
NoteKey_eq = record { beq = note_key_eq; beq_iff = note_key_eq_iff }
