-- ===== src/Performance/Pairing.antt =====
-- performance/note_pairing.py and performance/contracts/live_midi.py: notes from raw MIDI messages.
pub mod Accounts
use master_all_strings.Prelude.{
  ℕ, suc, List, [], ◌∷◌, ◌++◌, map, Bool, true, false, not, ◌&&◌, ◌||◌, Option, none, some, Result,
  ok, err, require, ◌>>=◌, ◌>>◌, Eq, Str_eq, ◌↔◌, ◌≡◌, arith, nat_eq, if◌then◌else◌,
}
use master_all_strings.Prelude.Dict.{Dict, put}
use master_all_strings.Prelude.Queues.{queue_of, all_waiting}
use master_all_strings.Prelude.Int.{ℤ, pos, negsuc, leb_ℤ, ◌-ℤ◌}
use master_all_strings.Prelude.Order.{Order, by_number, by_text, on, then_by}
use master_all_strings.Prelude.Sort.{sort}
use master_all_strings.Prelude.Text.{Str, str_eq, str_eq_sound, str_eq_refl}
use master_all_strings.Foundation.{require_midi_note}
use master_all_strings.Performance.Errors.{
  PerformanceError, require_identifier, require_optional_identifier, require_range,
  require_nonnegative_int, assertion_failed, no_note_off_evidence, off_before_on, wrong_duration,
  invented_note_off,
}
use master_all_strings.Performance.Capture.{
  MidiEventType, note_off, CapturedEvent, Capture, is_note, as_contract_error,
}

pub data ObservedStatus : Type 0 where
  matched unmatched_note_on : ObservedStatus

-- The location in the practice, which pairing leaves out, is not a field here.
pub record ObservedNote : Type 0 where
  pub observed_event_id : Str
  pub capture_id : Str
  pub note_on_event_id : Str
  pub note_off_event_id : Option Str
  pub midi_note : ℤ
  pub velocity : ℤ
  pub channel : ℤ
  pub source_device : Str
  pub note_on_time_ns : ℤ
  pub note_off_time_ns : Option ℤ
  pub duration_ns : Option ℤ
  pub source_string : Option ℤ
  pub status : ObservedStatus
  pub repetition_index : ℤ

abbrev pub eq_ℤ : ℤ → ℤ → Bool
eq_ℤ (pos a) (pos b) = nat_eq a b
eq_ℤ (pos a) (negsuc b) = false
eq_ℤ (negsuc a) (pos b) = false
eq_ℤ (negsuc a) (negsuc b) = nat_eq a b

pub eq_ℤ_iff : (a b : ℤ) → (eq_ℤ a b ≡ true) ↔ (a ≡ b)
eq_ℤ_iff (pos a) (pos b) = (λ h. ground arith, λ h. ground arith)
eq_ℤ_iff (pos a) (negsuc b) = (λ h. ground arith, λ h. ground arith)
eq_ℤ_iff (negsuc a) (pos b) = (λ h. ground arith, λ h. ground arith)
eq_ℤ_iff (negsuc a) (negsuc b) = (λ h. ground arith, λ h. ground arith)

abbrev optional_string : Option ℤ → Result PerformanceError (Unit {0})
optional_string none = ok tt
optional_string (some string) = require_range string "source_string" (pos 0) (pos 15)

-- `_validate_closure`: status, note-on time, and the three optional fields.
pub validate_note_closure :
    ObservedStatus → ℤ → Option Str → Option ℤ → Option ℤ → Result PerformanceError (Unit {0})
validate_note_closure ObservedStatus.matched on_ns (some id) (some off_ns) (some duration) = do
  require (leb_ℤ on_ns off_ns) off_before_on
  require (eq_ℤ duration (off_ns -ℤ on_ns)) wrong_duration
validate_note_closure ObservedStatus.matched on_ns _ _ _ = err no_note_off_evidence
validate_note_closure ObservedStatus.unmatched_note_on on_ns none none none = ok tt
validate_note_closure ObservedStatus.unmatched_note_on on_ns _ _ _ = err invented_note_off

unfoldable pub new_observed_note : ObservedNote → Result PerformanceError ObservedNote
unfolding validate_note_closure
new_observed_note n = do
  require_identifier n.observed_event_id "observed_event_id"
  require_identifier n.capture_id "capture_id"
  require_identifier n.note_on_event_id "note_on_event_id"
  require_optional_identifier n.note_off_event_id "note_off_event_id"
  as_contract_error (require_midi_note n.midi_note "midi_note")
  require_range n.velocity "velocity" (pos 1) (pos 127)
  require_range n.channel "channel" (pos 0) (pos 15)
  require_identifier n.source_device "source_device"
  require_nonnegative_int n.note_on_time_ns "note_on_time_ns"
  require_nonnegative_int n.repetition_index "repetition_index"
  optional_string n.source_string
  validate_note_closure n.status n.note_on_time_ns n.note_off_event_id n.note_off_time_ns
      n.duration_ns
  ok n

pub record UnmatchedNoteOff : Type 0 where
  pub raw_event_id : Str
  pub capture_id : Str
  pub midi_note : ℤ
  pub channel : ℤ
  pub source_device : Str
  pub capture_time_ns : ℤ
  pub source_string : Option ℤ
  pub repetition_index : ℤ

unfoldable pub new_unmatched_off : UnmatchedNoteOff → Result PerformanceError UnmatchedNoteOff
new_unmatched_off n = do
  require_identifier n.raw_event_id "raw_event_id"
  require_identifier n.capture_id "capture_id"
  as_contract_error (require_midi_note n.midi_note "midi_note")
  require_range n.channel "channel" (pos 0) (pos 15)
  require_identifier n.source_device "source_device"
  require_nonnegative_int n.capture_time_ns "capture_time_ns"
  require_nonnegative_int n.repetition_index "repetition_index"
  optional_string n.source_string
  ok n

-- `assert value is not None`
abbrev pub asserted : Option ℤ → Result PerformanceError ℤ
asserted none = err assertion_failed
asserted (some value) = ok value

abbrev pub PairingKey : Type 0
PairingKey = Str × ℤ × ℤ

abbrev pub key_eq : PairingKey → PairingKey → Bool
key_eq (d, c, n) (d', c', n') = str_eq d d' && eq_ℤ c c' && eq_ℤ n n'

pub key_eq_iff : (k l : PairingKey) → (key_eq k l ≡ true) ↔ (k ≡ l)
key_eq_iff (d, c, n) (d', c', n') = (
  λ h. ground (arith, str_eq_sound d d', (eq_ℤ_iff c c').0, (eq_ℤ_iff n n').0),
  λ h. ground (arith, h, str_eq_refl d, (eq_ℤ_iff c c').1, (eq_ℤ_iff n n').1),
)

instance abbrev pub PairingKey_eq : Eq PairingKey
PairingKey_eq = record { beq = key_eq; beq_iff = key_eq_iff }

-- `_build_note` with its release: id, capture, onset, release, repetition.
unfoldable pub build_matched :
    Str → Str → CapturedEvent → CapturedEvent → ℤ → Result PerformanceError ObservedNote
build_matched capture_id id onset release repetition = do
  pitch ← asserted onset.note
  velocity ← asserted onset.velocity
  new_observed_note (record {
    observed_event_id = id;
    capture_id = capture_id;
    note_on_event_id = onset.event_id;
    note_off_event_id = some release.event_id;
    midi_note = pitch;
    velocity = velocity;
    channel = onset.channel;
    source_device = onset.source_device;
    note_on_time_ns = onset.capture_time_ns;
    note_off_time_ns = some release.capture_time_ns;
    duration_ns = some (release.capture_time_ns -ℤ onset.capture_time_ns);
    source_string = onset.source_string;
    status = ObservedStatus.matched;
    repetition_index = repetition;
  })

-- `_build_note` with no release.
unfoldable pub build_open : Str → Str → CapturedEvent → ℤ → Result PerformanceError ObservedNote
build_open capture_id id onset repetition = do
  pitch ← asserted onset.note
  velocity ← asserted onset.velocity
  new_observed_note (record {
    observed_event_id = id;
    capture_id = capture_id;
    note_on_event_id = onset.event_id;
    note_off_event_id = none;
    midi_note = pitch;
    velocity = velocity;
    channel = onset.channel;
    source_device = onset.source_device;
    note_on_time_ns = onset.capture_time_ns;
    note_off_time_ns = none;
    duration_ns = none;
    source_string = onset.source_string;
    status = ObservedStatus.unmatched_note_on;
    repetition_index = repetition;
  })

-- The variables of the loop over the events.
pub record PairingState : Type 0 where
  pub queues : Dict PairingKey (List CapturedEvent)
  pub completed : List ObservedNote
  pub unmatched_offs : List UnmatchedNoteOff
  pub next_id : ℕ

abbrev pub is_note_off : MidiEventType → Bool
is_note_off note_off = true
is_note_off _ = false

pub record PairingResult : Type 0 where
  pub observed_notes : List ObservedNote
  pub unmatched_note_offs : List UnmatchedNoteOff

pub integer_total : (a b : ℤ) → (leb_ℤ a b || leb_ℤ b a) ≡ true
integer_total a b = ground arith

pub integer_trans : (a b c : ℤ) → leb_ℤ a b ≡ true → leb_ℤ b c ≡ true → leb_ℤ a c ≡ true
integer_trans a b c h k = ground arith

abbrev pub by_integer : Order ℤ
by_integer = record { le? = leb_ℤ; total = integer_total; trans = integer_trans }

-- `queues[key]` of a `defaultdict` leaves an empty queue behind.
abbrev pub add_unmatched : PairingKey → UnmatchedNoteOff → PairingState → PairingState
add_unmatched key off s = record s {
  queues = put key [] s.queues;
  unmatched_offs = s.unmatched_offs ++ off ∷ [];
}

abbrev pub add_matched :
    PairingKey → List CapturedEvent → ObservedNote → PairingState → PairingState
add_matched key rest built s = record s {
  queues = put key rest s.queues;
  completed = s.completed ++ built ∷ [];
  next_id = suc s.next_id;
}

abbrev pub add_waiting : PairingKey → CapturedEvent → PairingState → PairingState
add_waiting key event s = record s {
  queues = put key (queue_of key s.queues ++ event ∷ []) s.queues;
}

-- The event of an unmatched release.
abbrev pub unmatched_of : Str → CapturedEvent → ℤ → ℤ → UnmatchedNoteOff
unmatched_of capture_id event pitch repetition = record {
  raw_event_id = event.event_id;
  capture_id = capture_id;
  midi_note = pitch;
  channel = event.channel;
  source_device = event.source_device;
  capture_time_ns = event.capture_time_ns;
  source_string = event.source_string;
  repetition_index = repetition;
}

abbrev pub pairing_start : PairingState
pairing_start = record { queues = []; completed = []; unmatched_offs = []; next_id = 0 }

-- The notes that were never released, in the order of their messages.
abbrev pub by_sequence : Dict PairingKey (List CapturedEvent) → List CapturedEvent
by_sequence queues =
    sort (on (λ (e : CapturedEvent). e.sequence_number) by_number) (all_waiting queues)

abbrev pub by_onset : Order ObservedNote
by_onset =
    then_by (on (λ (n : ObservedNote). n.note_on_time_ns) by_integer)
      (on (λ (n : ObservedNote). n.note_on_event_id) by_text)

abbrev pub paired : PairingState → List ObservedNote → PairingResult
paired s never_released = record {
  observed_notes = sort by_onset (s.completed ++ never_released);
  unmatched_note_offs = s.unmatched_offs;
}

-- `observed_id_factory` and `repetition_resolver`, which the caller supplies.
module _ (observed_id_factory : ℕ → Str) (repetition_resolver : CapturedEvent → ℤ)
    (capture_id : Str) where
  -- A release with the queue of its key.
  unfoldable pub pair_release :
      PairingState
      → PairingKey
      → CapturedEvent
      → ℤ
      → List CapturedEvent
      → Result PerformanceError PairingState
  pair_release s key event pitch [] = do
    off ← new_unmatched_off (unmatched_of capture_id event pitch (repetition_resolver event))
    ok (add_unmatched key off s)
  pair_release s key event pitch (onset ∷ rest) = do
    built ←
        build_matched capture_id (observed_id_factory s.next_id) onset event
          (repetition_resolver onset)
    ok (add_matched key rest built s)

  unfoldable pub pair_note :
      PairingState → CapturedEvent → ℤ → ℤ → Result PerformanceError PairingState
  pair_note s event pitch velocity =
      let key : PairingKey = (event.source_device, event.channel, pitch) in
      if is_note_off event.event_type || eq_ℤ velocity (pos 0)
      then pair_release s key event pitch (queue_of key s.queues)
      else ok (add_waiting key event s)

  unfoldable pub pair_message : PairingState → CapturedEvent → Result PerformanceError PairingState
  pair_message s event = do
    pitch ← asserted event.note
    velocity ← asserted event.velocity
    pair_note s event pitch velocity

  -- Messages of other types are passed over.
  unfoldable pub pair_step : PairingState → CapturedEvent → Result PerformanceError PairingState
  pair_step s event = if is_note event.event_type then pair_message s event else ok s

  unfoldable pub pair_loop :
      PairingState → List CapturedEvent → Result PerformanceError PairingState
  pair_loop s [] = ok s
  pair_loop s (event ∷ events) = do s' ← pair_step s event; pair_loop s' events

  -- The notes that were never released, from the next id.
  unfoldable pub build_all_open :
      ℕ → List CapturedEvent → Result PerformanceError (List ObservedNote)
  build_all_open next_id [] = ok []
  build_all_open next_id (onset ∷ rest) = do
    built ← build_open capture_id (observed_id_factory next_id) onset (repetition_resolver onset)
    others ← build_all_open (suc next_id) rest
    ok (built ∷ others)

  unfoldable pub pair_midi_notes : List CapturedEvent → Result PerformanceError PairingResult
  pair_midi_notes events = do
    s ← pair_loop pairing_start events
    never_released ← build_all_open s.next_id (by_sequence s.queues)
    ok (paired s never_released)
