-- ===== src/Ingestion/Policy.antt =====
-- core/ingestion/policies.py: `DIRECT_EVENT_IMPORT_V1`.
pub mod Queues
pub mod Built
pub mod Sound
pub mod Waiting
pub mod Notes
pub mod Accounts
pub mod Total
use master_all_strings.Prelude.{
  ℕ, ◌+◌, Bool, true, false, Option, none, some, List, [], ◌∷◌, ◌++◌, map, Result, ok, err, ◌>>=◌,
  ◌>>◌, if◌then◌else◌, ltb, nat_eq, not, ◌||◌, length, contains, Str_eq,
}
use mathlib.Core.List.{flatten}
use master_all_strings.Prelude.Int.{ℤ, pos, negsuc, pos_part, ◌-ℤ◌}
use master_all_strings.Prelude.Text.{Str, codes}
use master_all_strings.Prelude.Float.{zero_float}
use master_all_strings.Prelude.Dict.{Dict, get, put}
use master_all_strings.Prelude.Order.{by_number, by_text, on}
use master_all_strings.Prelude.Sort.{sort}
use master_all_strings.Events.{MusicalEvent, new_musical_event}
use master_all_strings.Score.Provenance.{
  SourceEventProvenance, check_event_provenance, require_all_identifiers,
}
use master_all_strings.Score.Errors
use master_all_strings.Score.Errors.{ScoreError, as_musical}
use master_all_strings.Score.Timing.{
  int, TickConversion, convert_elapsed, convert_duration, default_ticks_per_quarter,
}
use master_all_strings.Ingestion.Contracts.{
  round_half_away_from_zero, SourceMidiEvent, Request, Rejection, RejectionReason, Warning,
  WarningCode, EventProvenance, ImportOutcome, NoteKey, NoteKey_eq, releases_a_note,
}
use master_all_strings.Ingestion.Conversion.{
  Converted, note, refused, Duration, lasting, too_short, or_too_short, as_provenance, evidence,
  build_note, rejection, convert_pair, convert_note,
}

-- The variables of the loop. A deque is a list whose head is its left end.
pub record State : Type 0 where
  pub events : List MusicalEvent
  pub provenance : List EventProvenance
  pub rejections : List Rejection
  pub open_notes : Dict NoteKey (List SourceMidiEvent)
  pub unresolved_string_ids : List Str
  pub rounded_source_ids : List Str

abbrev pub start_state : State
start_state = record {
  events = [];
  provenance = [];
  rejections = [];
  open_notes = [];
  unresolved_string_ids = [];
  rounded_source_ids = [];
}

-- `open_notes[key]` of a `defaultdict(deque)`
unfoldable pub queue : NoteKey → Dict NoteKey (List SourceMidiEvent) → List SourceMidiEvent
queue key open_notes = elim (get key open_notes) [ none ↦ [] | some notes ↦ notes ]

abbrev pub key_of : SourceMidiEvent → NoteKey
key_of event = (event.channel, event.midi_note)

-- `ids.add(id)`
unfoldable pub add_id : Str → List Str → List Str
add_id id ids = if contains id ids then ids else ids ++ id ∷ []

abbrev pub is_nonzero : ℤ → Bool
is_nonzero (pos n) = not (nat_eq n 0)
is_nonzero (negsuc n) = true

abbrev pub is_unresolved : Option ℕ → Bool
is_unresolved none = true
is_unresolved (some string) = false

unfoldable pub reject : RejectionReason → List Str → State → Result ScoreError State
reject reason ids s = do
  r ← rejection reason ids
  ok (record s { rejections = s.rejections ++ r ∷ [] })

-- What the loop does with the answer of `_convert_note`.
unfoldable pub record_converted : SourceMidiEvent → SourceMidiEvent → State → Converted → State
unfolding add_id
record_converted onset release s (refused rejection) = record s {
  rejections = s.rejections ++ rejection ∷ [];
}
record_converted onset release s (note event provenance) =
    let rounded =
      if is_nonzero provenance.rounding_delta_start_ns
      then add_id onset.source_event_id s.rounded_source_ids
      else s.rounded_source_ids in
    record s {
      events = s.events ++ event ∷ [];
      provenance = s.provenance ++ provenance ∷ [];
      unresolved_string_ids =
          if is_unresolved onset.observed_source_string
          then s.unresolved_string_ids ++ onset.source_event_id ∷ []
          else s.unresolved_string_ids;
      rounded_source_ids =
          if is_nonzero provenance.rounding_delta_duration_ns
          then add_id release.source_event_id (add_id onset.source_event_id rounded)
          else rounded;
    }

-- A release meets the notes that are open under its key; the oldest one takes it.
unfoldable pub release_note :
    ℕ → ℕ → ℕ → State → SourceMidiEvent → List SourceMidiEvent → Result ScoreError State
release_note origin ticks_per_quarter mpq s event [] =
    reject RejectionReason.unmatched_note_off (event.source_event_id ∷ []) s
release_note origin ticks_per_quarter mpq s event (onset ∷ rest) = do
  let s' = record s { open_notes = put (key_of event) rest s.open_notes }
  converted ← convert_note onset event origin ticks_per_quarter mpq
  ok (record_converted onset event s' converted)

unfoldable pub import_step : ℕ → ℕ → ℕ → State → SourceMidiEvent → Result ScoreError State
import_step origin ticks_per_quarter mpq s event =
    if ltb event.capture_time_ns origin
    then reject RejectionReason.event_before_capture_origin (event.source_event_id ∷ []) s
    else if releases_a_note event
    then release_note origin ticks_per_quarter mpq s event (queue (key_of event) s.open_notes)
    else ok (record s {
      open_notes =
          put (key_of event) (queue (key_of event) s.open_notes ++ event ∷ []) s.open_notes;
    })

unfoldable pub import_loop : ℕ → ℕ → ℕ → State → List SourceMidiEvent → Result ScoreError State
import_loop origin ticks_per_quarter mpq s [] = ok s
import_loop origin ticks_per_quarter mpq s (event ∷ rest) = do
  s' ← import_step origin ticks_per_quarter mpq s event
  import_loop origin ticks_per_quarter mpq s' rest

-- The ids of the notes that wait in the queues, queue by queue.
unfoldable pub open_ids : Dict NoteKey (List SourceMidiEvent) → List Str
open_ids [] = []
open_ids ((key, notes) ∷ d) = map (λ event. event.source_event_id) notes ++ open_ids d

unfoldable pub any_channel : List SourceMidiEvent → Bool
any_channel [] = false
any_channel (event ∷ rest) = not (nat_eq event.channel 0) || any_channel rest

-- `if ids: append(…)`, with the ids sorted and the check of the warning's constructor
unfoldable pub warn_of : WarningCode → List Str → Result ScoreError (List Warning)
warn_of code [] = ok []
warn_of code (id ∷ ids) = do
  require_all_identifiers (sort by_text (id ∷ ids)) "source_event_ids entry"
  ok (record { code = code; source_event_ids = sort by_text (id ∷ ids) } ∷ [])

unfoldable pub reject_open : List Str → Result ScoreError (List Rejection)
reject_open [] = ok []
reject_open (id ∷ ids) = do
  r ← rejection RejectionReason.unmatched_note_on (sort by_text (id ∷ ids))
  ok (r ∷ [])

unfoldable pub finish : List SourceMidiEvent → State → Result ScoreError ImportOutcome
finish source_events s = do
  still_open ← reject_open (open_ids s.open_notes)
  unresolved ← warn_of WarningCode.source_string_unresolved s.unresolved_string_ids
  rounded ← warn_of WarningCode.rounding_applied s.rounded_source_ids
  ok (record {
    events = s.events;
    event_provenance = s.provenance;
    warnings =
        unresolved
        ++ (rounded
            ++ (if any_channel source_events
                then record {
                  code = WarningCode.channel_not_mapped_to_voice;
                  source_event_ids = [];
                }
                  ∷ []
                else []));
    rejections = s.rejections ++ still_open;
  })

-- `request.ticks_per_quarter or DEFAULT_TICKS_PER_QUARTER`
abbrev pub resolution : Option ℕ → ℕ
resolution none = default_ticks_per_quarter
resolution (some n) = if nat_eq n 0 then default_ticks_per_quarter else n

-- By capture time; the sort is stable, which is what the ordinal in the source's key says.
abbrev pub by_time : List SourceMidiEvent → List SourceMidiEvent
by_time = sort (on (λ (event : SourceMidiEvent). event.capture_time_ns) by_number)

unfoldable pub import_direct_events : Request → Result ScoreError ImportOutcome
import_direct_events request = do
  s ←
      import_loop request.capture_origin_ns (resolution request.ticks_per_quarter)
        request.tempo_microseconds_per_quarter start_state (by_time request.source_events)
  finish request.source_events s

unfoldable pub accepted_count : ImportOutcome → ℕ
accepted_count outcome = length outcome.events

unfoldable pub rejected_ids : List Rejection → List Str
rejected_ids [] = []
rejected_ids (r ∷ rest) = r.source_event_ids ++ rejected_ids rest

unfoldable pub rejected_count : ImportOutcome → ℕ
unfolding rejected_ids
rejected_count outcome = length (rejected_ids outcome.rejections)
