-- ===== src/Performance/Capture.antt =====
-- performance/contracts/capture.py and performance/capture_normalization.py: captured events, the
-- record of a take, and its closure.
use Prim.Native.String.{String}
use master_all_strings.Prelude.{
  Str_eq, ℕ, List, [], ◌∷◌, ◌++◌, map, Bool, true, false, not, Option, none, some, Result, ok, err,
  require, ◌>>◌, ltb,
}
use master_all_strings.Prelude.Int.{ℤ, pos, negsuc, leb_ℤ}
use master_all_strings.Prelude.Text.{Str}
use master_all_strings.Foundation.{DomainError, require_midi_note}
use master_all_strings.Performance.Errors.{
  PerformanceError, foundation, Iso8601, require_identifier, require_utc_timestamp,
  require_nonnegative_int, require_range, require_raw_payload, require_unique, wrong_note_data,
  wrong_controller_data, wrong_bend_data, no_ended_at, stray_ended_at, sequence_not_increasing,
  time_decreasing, capture_closed, not_terminal, already_closed,
}
use master_all_strings.Performance.Runtimes.{RuntimeFault, RuntimeIdentity}
use master_all_strings.Performance.Sessions.{Meter}

pub data MidiEventType : Type 0 where
  note_on note_off control_change pitch_bend program_change channel_pressure : MidiEventType

pub data CompletionState : Type 0 where
  in_progress complete interrupted failed cancelled : CompletionState

-- `in TERMINAL_COMPLETION_STATES`
abbrev pub is_terminal : CompletionState → Bool
is_terminal in_progress = false
is_terminal complete = true
is_terminal interrupted = true
is_terminal failed = true
is_terminal cancelled = true

pub record CaptureSource : Type 0 where
  pub source_id : Str
  pub port : Str
  pub device : Str
  pub supplies_string_identity : Bool

unfoldable pub new_source : CaptureSource → Result PerformanceError CaptureSource
new_source source = do
  require_identifier source.source_id "source_id"
  require_identifier source.port "port"
  require_identifier source.device "device"
  ok source

pub record CapturedEvent : Type 0 where
  pub event_id : Str
  pub sequence_number : ℕ
  pub event_type : MidiEventType
  pub capture_time_ns : ℤ
  pub channel : ℤ
  pub source_port : Str
  pub source_device : Str
  pub note : Option ℤ
  pub velocity : Option ℤ
  pub controller : Option ℤ
  pub controller_value : Option ℤ
  pub pitch_bend_value : Option ℤ
  pub source_string : Option ℤ
  pub raw_payload : List ℤ

-- A field that this type of event must carry, in its range, or must not carry.
abbrev carried :
    Option ℤ
    → PerformanceError
    → (ℤ → Result PerformanceError (Unit {0}))
    → Result PerformanceError (Unit {0})
carried none e check = err e
carried (some value) e check = check value

abbrev absent : Option ℤ → PerformanceError → Result PerformanceError (Unit {0})
absent none e = ok tt
absent (some _) e = err e

-- `require_midi_note` raises the base class of the contract error.
abbrev pub as_contract_error : Result DomainError (Unit {0}) → Result PerformanceError (Unit {0})
as_contract_error (ok u) = ok u
as_contract_error (err e) = err (foundation e)

abbrev pub is_note : MidiEventType → Bool
is_note note_on = true
is_note note_off = true
is_note _ = false

unfoldable pub validate_note_fields : CapturedEvent → Result PerformanceError (Unit {0})
validate_note_fields event = elim (is_note event.event_type) [
  | true ↦ do
    carried event.note (wrong_note_data "note")
        (λ n. as_contract_error (require_midi_note n "note"))
    carried event.velocity (wrong_note_data "velocity")
        (λ v. require_range v "velocity" (pos 0) (pos 127))
  | false ↦ do
    absent event.note (wrong_note_data "note")
    absent event.velocity (wrong_note_data "velocity")
]

abbrev is_controller : MidiEventType → Bool
is_controller control_change = true
is_controller _ = false

unfoldable pub validate_controller_fields : CapturedEvent → Result PerformanceError (Unit {0})
validate_controller_fields event = elim (is_controller event.event_type) [
  | true ↦ do
    carried event.controller (wrong_controller_data "controller")
        (λ c. require_range c "controller" (pos 0) (pos 127))
    carried event.controller_value (wrong_controller_data "controller_value")
        (λ v. require_range v "controller_value" (pos 0) (pos 127))
  | false ↦ do
    absent event.controller (wrong_controller_data "controller")
    absent event.controller_value (wrong_controller_data "controller_value")
]

abbrev is_pitch_bend : MidiEventType → Bool
is_pitch_bend pitch_bend = true
is_pitch_bend _ = false

abbrev min_pitch_bend : ℤ
min_pitch_bend = negsuc 8191

abbrev max_pitch_bend : ℤ
max_pitch_bend = pos 8191

unfoldable pub validate_pitch_bend : CapturedEvent → Result PerformanceError (Unit {0})
validate_pitch_bend event = elim (is_pitch_bend event.event_type) [
  | true ↦
      carried event.pitch_bend_value (wrong_bend_data "pitch_bend")
        (λ b. require_range b "pitch_bend" min_pitch_bend max_pitch_bend)
  | false ↦ absent event.pitch_bend_value (wrong_bend_data "pitch_bend")
]

unfoldable pub validate_source_string : CapturedEvent → Result PerformanceError (Unit {0})
validate_source_string event = elim event.source_string [
  | none ↦ ok tt
  | some string ↦ require_range string "source_string" (pos 0) (pos 15)
]

unfoldable pub new_event : CapturedEvent → Result PerformanceError CapturedEvent
new_event event = do
  require_identifier event.event_id "event_id"
  require_nonnegative_int event.capture_time_ns "capture_time_ns"
  require_range event.channel "channel" (pos 0) (pos 15)
  require_identifier event.source_port "source_port"
  require_identifier event.source_device "source_device"
  require_raw_payload event.raw_payload "raw_payload"
  validate_note_fields event
  validate_controller_fields event
  validate_pitch_bend event
  validate_source_string event
  ok event

-- `tempo_context` is counted in 10^-9 beats per minute.
pub record Capture : Type 0 where
  pub capture_id : Str
  pub session_id : Str
  pub runtime_identity : RuntimeIdentity
  pub source_identity : CaptureSource
  pub started_at : Str
  pub completion_state : CompletionState
  pub tempo_context : ℕ
  pub meter_context : Meter
  pub events : List CapturedEvent
  pub ended_at : Option Str
  pub warnings : List Str
  pub faults : List RuntimeFault
  pub provenance : List (Str × Str)

abbrev pub is_closed : Capture → Bool
is_closed capture = is_terminal capture.completion_state

unfoldable pub validate_closure : ⦃iso : Iso8601⦄ → Capture → Result PerformanceError (Unit {0})
validate_closure capture = elim (is_closed capture) [
  | true ↦ elim capture.ended_at [
    | none ↦ err no_ended_at
    | some time ↦ require_utc_timestamp time "ended_at"
  ]
  | false ↦ elim capture.ended_at [ none ↦ ok tt | some _ ↦ err stray_ended_at ]
]

-- The loop over the events, with `previous_sequence` and `previous_time`.
unfoldable pub check_order : CapturedEvent → List CapturedEvent → Result PerformanceError (Unit {0})
check_order previous [] = ok tt
check_order previous (event ∷ events) = do
  require (ltb previous.sequence_number event.sequence_number) sequence_not_increasing
  require (leb_ℤ previous.capture_time_ns event.capture_time_ns) time_decreasing
  check_order event events

unfoldable pub validate_events : Capture → Result PerformanceError (Unit {0})
validate_events capture = do
  elim capture.events [ [] ↦ ok tt | event ∷ events ↦ check_order event events ]
  require_unique (map (λ e. e.event_id) capture.events) "event_id"

abbrev all_identifiers : List Str → String → Result PerformanceError (Unit {0})
all_identifiers [] field_name = ok tt
all_identifiers (value ∷ values) field_name =
    require_identifier value field_name >> all_identifiers values field_name

unfoldable pub validate_collections : Capture → Result PerformanceError (Unit {0})
validate_collections capture = do
  all_identifiers capture.warnings "warnings entry"
  all_identifiers (map (λ entry. entry.0) capture.provenance) "provenance key"
  require_unique (map (λ entry. entry.0) capture.provenance) "provenance keys"

unfoldable pub new_capture : ⦃iso : Iso8601⦄ → Capture → Result PerformanceError Capture
new_capture capture = do
  require_identifier capture.capture_id "capture_id"
  require_identifier capture.session_id "session_id"
  require_utc_timestamp capture.started_at "started_at"
  validate_closure capture
  validate_events capture
  validate_collections capture
  ok capture

-- A capture is opened in progress, with no event.
unfoldable pub build_raw_capture :
    ⦃iso : Iso8601⦄
    → Str
    → Str
    → RuntimeIdentity
    → CaptureSource
    → Str
    → ℕ
    → Meter
    → List (Str × Str)
    → Result PerformanceError Capture
build_raw_capture capture_id session_id identity source started_at tempo meter provenance =
    new_capture (record {
      capture_id = capture_id;
      session_id = session_id;
      runtime_identity = identity;
      source_identity = source;
      started_at = started_at;
      completion_state = in_progress;
      tempo_context = tempo;
      meter_context = meter;
      events = [];
      ended_at = none;
      warnings = [];
      faults = [];
      provenance = provenance;
    })

unfoldable pub append_events :
    ⦃iso : Iso8601⦄ → Capture → List CapturedEvent → Result PerformanceError Capture
append_events capture events = do
  require (not (is_closed capture)) capture_closed
  new_capture (record capture { events = capture.events ++ events })

unfoldable pub close_capture :
    ⦃iso : Iso8601⦄
    → Capture
    → Str
    → CompletionState
    → List RuntimeFault
    → List Str
    → Result PerformanceError Capture
close_capture capture ended_at completion_state faults warnings = do
  require_identifier ended_at "ended_at"
  require (is_terminal completion_state) not_terminal
  require (not (is_closed capture)) already_closed
  new_capture (record capture {
    completion_state = completion_state;
    ended_at = some ended_at;
    faults = capture.faults ++ faults;
    warnings = capture.warnings ++ warnings;
  })

unfoldable pub mark_capture_interrupted :
    ⦃iso : Iso8601⦄ → Capture → Str → RuntimeFault → Option Str → Result PerformanceError Capture
mark_capture_interrupted capture ended_at fault warning =
    close_capture capture ended_at interrupted (fault ∷ [])
      (elim warning [ none ↦ [] | some w ↦ w ∷ [] ])
