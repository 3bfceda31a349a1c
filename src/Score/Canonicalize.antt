-- ===== src/Score/Canonicalize.antt =====
-- core/score/canonicalize.py: the canonical order of a revision's content.
pub mod Laws
pub mod Ascending
use master_all_strings.Prelude.{
  ℕ, Option, none, some, List, map, Result, ok, require, ◌>>◌, all_distinct, Str_eq, ℕ_eq, [],
}
use master_all_strings.Prelude.Text.{Str}
use master_all_strings.Prelude.Order.{Order, by_number, by_text, on, then_by}
use master_all_strings.Prelude.Sort.{sort}
use master_all_strings.Events.{MusicalEvent}
use master_all_strings.Score.Errors.{ScoreError, duplicates}
use master_all_strings.Score.Meter.{MeterChange}
use master_all_strings.Score.Tempo.{TempoChange}

abbrev pub voiced : Option Str → ℕ
voiced none = 0
voiced (some voice) = 1

-- `event.voice_id or ""`
abbrev pub voice_text : Option Str → Str
voice_text none = []
voice_text (some voice) = voice

-- The order that `_event_sort_key` induces.
abbrev pub event_order : Order MusicalEvent
event_order = then_by (on (λ event. event.start_tick) by_number) (
    then_by (on (λ event. voiced event.voice_id) by_number) (
      then_by (on (λ event. voice_text event.voice_id) by_text) (
        then_by (on (λ event. event.midi_note) by_number) (
          then_by (on (λ event. event.duration_ticks) by_number)
            (on (λ event. event.event_id) by_text)))))

abbrev pub tempo_order : Order TempoChange
tempo_order = on (λ change. change.tick) by_number

abbrev pub meter_order : Order MeterChange
meter_order = on (λ change. change.tick) by_number

unfoldable pub canonicalize_events : List MusicalEvent → Result ScoreError (List MusicalEvent)
canonicalize_events events = do
  require (all_distinct (map (λ event. event.event_id) events)) (duplicates "event_id")
  ok (sort event_order events)

unfoldable pub canonicalize_tempo_changes : List TempoChange → Result ScoreError (List TempoChange)
canonicalize_tempo_changes changes = do
  require (all_distinct (map (λ change. change.tick) changes)) (duplicates "tempo_changes tick")
  ok (sort tempo_order changes)

unfoldable pub canonicalize_meter_changes : List MeterChange → Result ScoreError (List MeterChange)
canonicalize_meter_changes changes = do
  require (all_distinct (map (λ change. change.tick) changes)) (duplicates "meter_changes tick")
  ok (sort meter_order changes)
