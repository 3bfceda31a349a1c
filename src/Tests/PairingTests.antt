-- ===== src/Tests/PairingTests.antt =====
-- performance/note_pairing.py at concrete inputs.
use master_all_strings.Prelude.{
  ℕ, ◌+◌, ◌≡◌, refl, List, [], ◌∷◌, map, Option, none, some, Result, ok, all_distinct, contains,
}
use master_all_strings.Prelude.Count.{count}
use master_all_strings.Prelude.Dict.{get, put}
use master_all_strings.Prelude.Int.{ℤ, pos, ◌-ℤ◌}
use master_all_strings.Prelude.Text.{Str, codes, str_eq, is_blank, is_space}
use master_all_strings.Performance.Capture.{CapturedEvent, MidiEventType, note_on, note_off}
use master_all_strings.Performance.Pairing.{
  ObservedNote, ObservedStatus, matched, unmatched_note_on, PairingResult, pair_midi_notes,
}
use master_all_strings.Performance.Pairing.Accounts.{
  pair_midi_notes-accounts, paired_ids, note_message_ids,
}

abbrev message : Str → MidiEventType → ℕ → ℕ → ℤ → ℤ → CapturedEvent
message id type sequence time pitch velocity = record {
  event_id = id;
  sequence_number = sequence;
  event_type = type;
  capture_time_ns = pos time;
  channel = pos 0;
  source_port = codes "p";
  source_device = codes "d";
  note = some pitch;
  velocity = some velocity;
  controller = none;
  controller_value = none;
  pitch_bend_value = none;
  source_string = none;
  raw_payload = [];
}

-- Two notes of one pitch, one release (a note-on of velocity 0), and a release of another pitch.
abbrev played : List CapturedEvent
played =
    message (codes "a") note_on 0 0 (pos 60) (pos 80)
    ∷ message (codes "b") note_on 1 10 (pos 60) (pos 81)
    ∷ message (codes "c") note_on 2 20 (pos 60) (pos 0)
    ∷ message (codes "e") note_off 3 30 (pos 61) (pos 0)
    ∷ []

abbrev factory : ℕ → Str
factory n = 110 ∷ (48 + n) ∷ []

abbrev first_pass : CapturedEvent → ℤ
first_pass event = pos 0

abbrev paired_notes : PairingResult
paired_notes = record {
  observed_notes =
      record {
        observed_event_id = codes "n0";
        capture_id = codes "take-1";
        note_on_event_id = codes "a";
        note_off_event_id = some (codes "c");
        midi_note = pos 60;
        velocity = pos 80;
        channel = pos 0;
        source_device = codes "d";
        note_on_time_ns = pos 0;
        note_off_time_ns = some (pos 20);
        duration_ns = some (pos 20);
        source_string = none;
        status = matched;
        repetition_index = pos 0;
      }
      ∷ record {
        observed_event_id = codes "n1";
        capture_id = codes "take-1";
        note_on_event_id = codes "b";
        note_off_event_id = none;
        midi_note = pos 60;
        velocity = pos 81;
        channel = pos 0;
        source_device = codes "d";
        note_on_time_ns = pos 10;
        note_off_time_ns = none;
        duration_ns = none;
        source_string = none;
        status = unmatched_note_on;
        repetition_index = pos 0;
      }
      ∷ [];
  unmatched_note_offs =
      record {
        raw_event_id = codes "e";
        capture_id = codes "take-1";
        midi_note = pos 61;
        channel = pos 0;
        source_device = codes "d";
        capture_time_ns = pos 30;
        source_string = none;
        repetition_index = pos 0;
      }
      ∷ [];
}

pair_played : pair_midi_notes factory first_pass (codes "take-1") played ≡ ok paired_notes
unfolding pair_midi_notes get put str_eq is_blank is_space ◌-ℤ◌
    master_all_strings.Performance.Pairing.pair_loop
    master_all_strings.Performance.Pairing.pair_step
    master_all_strings.Performance.Pairing.pair_message
    master_all_strings.Performance.Pairing.pair_note
    master_all_strings.Performance.Pairing.pair_release
    master_all_strings.Performance.Pairing.build_matched
    master_all_strings.Performance.Pairing.new_observed_note
    master_all_strings.Performance.Pairing.build_all_open
    master_all_strings.Performance.Pairing.build_open
    master_all_strings.Performance.Pairing.new_unmatched_off
    master_all_strings.Performance.Errors.require_identifier
    master_all_strings.Performance.Errors.is_stripped
    master_all_strings.Performance.Errors.require_optional_identifier
    master_all_strings.Performance.Errors.require_range
    master_all_strings.Performance.Errors.ends_plainly
    master_all_strings.Performance.Errors.require_nonnegative_int
    master_all_strings.Prelude.Queues.queue_of master_all_strings.Foundation.require_midi_note
    master_all_strings.Prelude.Order.str_leb master_all_strings.Prelude.Queues.all_waiting
    master_all_strings.Prelude.Sort.insert master_all_strings.Prelude.Sort.sort
pair_played = refl

pair_midi_notes-accounts_example :
    count (codes "c") (paired_ids paired_notes.observed_notes)
      + count (codes "c") (map (λ off. off.raw_event_id) paired_notes.unmatched_note_offs)
    ≡ count (codes "c") (note_message_ids played)
pair_midi_notes-accounts_example =
    pair_midi_notes-accounts (codes "c") factory first_pass (codes "take-1") played pair_played
