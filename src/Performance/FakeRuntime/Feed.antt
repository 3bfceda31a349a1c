-- ===== src/Performance/FakeRuntime/Feed.antt =====
-- performance/adapters/fake_runtime.py: events that arrive for the active capture.
use master_all_strings.Prelude.{
  ℕ, suc, ◌*◌, List, [], ◌∷◌, ◌++◌, Bool, not, ◌&&◌, Option, none, some, require, Str_eq,
  if◌then◌else◌,
}
use master_all_strings.Prelude.Action.{◌>>=◌, ◌>>◌, raise, self, modify, lift}
use master_all_strings.Prelude.Int.{ℤ, pos, leb_ℤ}
use master_all_strings.Prelude.Text.{codes}
use master_all_strings.Performance.Errors.{Iso8601, no_active_capture, runtime_crashed}
use master_all_strings.Performance.Capture.{
  note_on, note_off, control_change, pitch_bend, MidiEventType, CapturedEvent, new_event,
  append_events,
}
use master_all_strings.Performance.FakeRuntime.{
  FakeRuntime, Method, four_digits, stored, store, set_session,
}

-- The event that `_feed` builds.
abbrev pub next_event :
    ℕ
    → MidiEventType
    → ℤ
    → Option ℤ
    → Option ℤ
    → Option ℤ
    → Option ℤ
    → Option ℤ
    → Option ℤ
    → Option ℤ
    → CapturedEvent
next_event sequence event_type channel time_ns note velocity controller controller_value bend
      source_string =
    record {
      event_id = codes "evt-" ++ four_digits sequence;
      sequence_number = sequence;
      event_type = event_type;
      capture_time_ns = elim time_ns [ none ↦ pos (sequence * 100_000_000) | some t ↦ t ];
      channel = channel;
      source_port = codes "fake-port-0";
      source_device = codes "fake-device";
      note = note;
      velocity = velocity;
      controller = controller;
      controller_value = controller_value;
      pitch_bend_value = bend;
      source_string = source_string;
      raw_payload = [];
    }

-- `_feed`, with the fields of the event's type.
unfoldable pub feed :
    ⦃iso : Iso8601⦄
    → MidiEventType
    → ℤ
    → Option ℤ
    → Option ℤ
    → Option ℤ
    → Option ℤ
    → Option ℤ
    → Option ℤ
    → Option ℤ
    → Method (Unit {0})
feed event_type channel time_ns note velocity controller controller_value bend source_string = do
  s ← self
  elim s.active_capture_id [
    | none ↦ raise no_active_capture
    | some capture_id ↦ do
      lift (require (not s.scenario.crash_during_capture) runtime_crashed)
      capture ← stored capture_id
      modify (λ r. record r { sequence = suc r.sequence })
      event ← lift (
          new_event (
            next_event s.sequence event_type channel time_ns note velocity controller
              controller_value bend source_string))
      grown ← lift (append_events capture (event ∷ []))
      modify (store capture_id grown)
  ]

abbrev pub with_notes : (List (ℤ × ℤ) → List (ℤ × ℤ)) → FakeRuntime → FakeRuntime
with_notes f r = elim r.session [
  | none ↦ r
  | some session ↦
      set_session (some (record session { sounding_notes = f session.sounding_notes })) r
]

unfoldable pub feed_note_on : ⦃iso : Iso8601⦄ → ℤ → ℤ → ℤ → Option ℤ → Option ℤ → Method (Unit {0})
feed_note_on note velocity channel time_ns source_string = do
  feed note_on channel time_ns (some note) (some velocity) none none none source_string
  modify (with_notes (λ notes. notes ++ (channel, note) ∷ []))

abbrev int_eq : ℤ → ℤ → Bool
int_eq a b = leb_ℤ a b && leb_ℤ b a

-- `list.remove`, of a value that may not be there.
abbrev remove_note : ℤ → ℤ → List (ℤ × ℤ) → List (ℤ × ℤ)
remove_note channel note [] = []
remove_note channel note ((c, n) ∷ notes) =
    let rest = remove_note channel note notes in
    if int_eq c channel && int_eq n note then notes else (c, n) ∷ rest

unfoldable pub feed_note_off : ⦃iso : Iso8601⦄ → ℤ → ℤ → Option ℤ → Option ℤ → Method (Unit {0})
feed_note_off note channel time_ns source_string = do
  feed note_off channel time_ns (some note) (some (pos 0)) none none none source_string
  modify (with_notes (remove_note channel note))

unfoldable pub feed_control_change : ⦃iso : Iso8601⦄ → ℤ → ℤ → ℤ → Option ℤ → Method (Unit {0})
feed_control_change controller value channel time_ns =
    feed control_change channel time_ns none none (some controller) (some value) none none

unfoldable pub feed_pitch_bend : ⦃iso : Iso8601⦄ → ℤ → ℤ → Option ℤ → Method (Unit {0})
feed_pitch_bend bend channel time_ns =
    feed pitch_bend channel time_ns none none none none (some bend) none
