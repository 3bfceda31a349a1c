-- ===== src/Ingestion/Policy/Sound.antt =====
-- What a source event that core/ingestion/contracts.py accepts gives to the checks of
-- core/ingestion/policies.py.
use master_all_strings.Prelude.{
  ℕ, ◌<◌, ◌≤◌, ◌≡◌, refl, arith, List, [], ◌∷◌, ◌++◌, none, ok, true, false, All, all_distinct,
  contains, Str_eq,
}
use master_all_strings.Prelude.Int.{pos, pos_part}
use master_all_strings.Prelude.Text.{Str, codes, str_eq, is_blank, is_space}
use master_all_strings.Prelude.Strings.{is_stripped, ends_plainly}
use master_all_strings.Prelude.Float.{zero_float, is_finite}
use Prim.Native.String.{String}
use master_all_strings.Foundation.{
  require_non_empty, require_midi_note, require_index, require_finite,
}
use master_all_strings.Events.{MusicalEvent, new_musical_event, require_optional_id}
use master_all_strings.Score.Errors.{require_identifier, require_unique, require_positive_int}
use master_all_strings.Score.Provenance.{
  check_event_provenance, require_all_identifiers, require_within, require_positive, precedes,
}
use master_all_strings.Score.Timing.{TickConversion}
use master_all_strings.Score.Errors.{as_musical}
use master_all_strings.Ingestion.Contracts.{SourceMidiEvent, RejectionReason}
use master_all_strings.Ingestion.Requests.{
  check_source_event, require_at_most, require_string_index,
}
use master_all_strings.Ingestion.Conversion.{
  Converted, note, as_provenance, evidence, build_note, rejection,
}

-- A text that `require_identifier` accepts.
abbrev pub IsIdentifier : Str → Type 0
IsIdentifier id = (is_blank id ≡ false) × (is_stripped id ≡ true)

-- A source event that its constructor accepts.
abbrev pub IsSound : SourceMidiEvent → Type 0
IsSound event = check_source_event event ≡ ok tt

pub require_identifier-ok :
    (id : Str) (field_name : String) → IsIdentifier id → require_identifier id field_name ≡ ok tt
unfolding require_identifier
require_identifier-ok id field_name h = rw (h.0, h.1) refl

pub require_all_identifiers-ok :
    (ids : List Str) (field_name : String)
    → All IsIdentifier ids
    → require_all_identifiers ids field_name ≡ ok tt
unfolding require_all_identifiers
require_all_identifiers-ok [] field_name h = refl
require_all_identifiers-ok (id ∷ ids) field_name h =
    rw (require_identifier-ok id field_name h.0) (require_all_identifiers-ok ids field_name h.1)

pub sound-IsIdentifier :
    (event : SourceMidiEvent) → IsSound event → IsIdentifier event.source_event_id
unfolding check_source_event as_musical require_midi_note require_identifier
sound-IsIdentifier event h = (ground arith, ground arith)

sound-ranges :
    (event : SourceMidiEvent)
    → IsSound event
    → (event.midi_note ≤ 127) × (event.velocity ≤ 127) × (event.channel ≤ 15)
unfolding check_source_event as_musical require_midi_note require_identifier require_at_most
sound-ranges event h = (ground arith, ground arith, ground arith)

sound-string :
    (event : SourceMidiEvent)
    → IsSound event
    → require_within event.observed_source_string "observed_source_string" 15 ≡ ok tt
unfolding check_source_event as_musical require_midi_note require_identifier require_at_most
    require_string_index require_within
sound-string event h = ground arith

-- The id of a canonical event is an identifier too.
prefixed-IsIdentifier : (id : Str) → IsIdentifier id → IsIdentifier (codes "ev-" ++ id)
unfolding is_blank is_stripped ends_plainly is_space
prefixed-IsIdentifier [] h = absurd (ground (arith, h.0))
prefixed-IsIdentifier (c ∷ s) h = (refl, ground (arith, h.1))

new_musical_event-ok :
    (id : Str) (pitch start duration velocity : ℕ)
    → is_blank id ≡ false
    → pitch ≤ 127
    → 0 < duration
    → velocity ≤ 127
    → (e : MusicalEvent) × (new_musical_event id
          (pos pitch)
          (pos start)
          (pos duration)
          (pos velocity)
          zero_float
          none
        ≡ ok e)
unfolding new_musical_event require_non_empty require_midi_note require_index require_finite
    is_finite require_optional_id
new_musical_event-ok id pitch start duration velocity plain low long soft = (
  record {
    event_id = id;
    midi_note = pitch;
    start_tick = start;
    duration_ticks = duration;
    velocity = velocity;
    cents_offset = zero_float;
    voice_id = none;
  },
  ground arith,
)

module _ (onset release : SourceMidiEvent) (sound : IsSound onset) (released : IsSound release)
    (later : onset.capture_time_ns ≤ release.capture_time_ns)
    (other : str_eq onset.source_event_id release.source_event_id ≡ false) where
  abbrev both_ids : List Str
  both_ids = onset.source_event_id ∷ release.source_event_id ∷ []

  both-IsIdentifier : All IsIdentifier both_ids
  both-IsIdentifier = (sound-IsIdentifier onset sound, (sound-IsIdentifier release released, tt))

  check_event_provenance-ok :
      (ppq mpq : ℕ) (start duration : TickConversion)
      → 0 < ppq
      → 0 < mpq
      → 0 < pos_part duration.ticks
      → check_event_provenance (as_provenance (evidence onset release ppq mpq start duration))
        ≡ ok tt
  unfolding check_event_provenance require_within require_positive precedes require_unique
      all_distinct contains require_positive_int
  check_event_provenance-ok ppq mpq start duration hp hm long =
      let ranges = sound-ranges onset sound in
      rw
        (
          require_identifier-ok (codes "ev-" ++ onset.source_event_id) "canonical_event_id"
              (prefixed-IsIdentifier onset.source_event_id (sound-IsIdentifier onset sound)),
          require_all_identifiers-ok both_ids "source_capture_event_ids entry" both-IsIdentifier,
          other,
        )
        (ground (arith, sound-string onset sound, ranges, later))

  pub build_note-total :
      (ppq mpq t u : ℕ) (start duration : TickConversion)
      → 0 < ppq
      → 0 < mpq
      → start.ticks ≡ pos t
      → duration.ticks ≡ pos u
      → 0 < u
      → (c : Converted) × (build_note onset release ppq mpq start duration ≡ ok c)
  unfolding build_note as_musical
  build_note-total ppq mpq t u start duration hp hm starts lasts long =
      let ranges = sound-ranges onset sound in
      let (e, made) =
        new_musical_event-ok (codes "ev-" ++ onset.source_event_id) onset.midi_note t u
          onset.velocity
          (prefixed-IsIdentifier onset.source_event_id (sound-IsIdentifier onset sound)).0 ranges.0
          long ranges.1 in
      (
        note e (evidence onset release ppq mpq start duration),
        rw
            (
              made_of_ticks e made,
              check_event_provenance-ok ppq mpq start duration hp hm (rw lasts long),
            )
            refl,
      )
    where
      made_of_ticks :
          (e : MusicalEvent)
          → new_musical_event
              (codes "ev-" ++ onset.source_event_id)
              (pos onset.midi_note)
              (pos t)
              (pos u)
              (pos onset.velocity)
              zero_float
              none
            ≡ ok e
          → new_musical_event
              (codes "ev-" ++ onset.source_event_id)
              (pos onset.midi_note)
              start.ticks
              duration.ticks
              (pos onset.velocity)
              zero_float
              none
            ≡ ok e
      made_of_ticks e made = rw (starts, lasts) made

  pub refusal-total :
      (reason : RejectionReason)
      → rejection reason both_ids ≡ ok (record { reason = reason; source_event_ids = both_ids })
  unfolding rejection
  refusal-total reason =
      rw (require_all_identifiers-ok both_ids "source_event_ids entry" both-IsIdentifier) refl
