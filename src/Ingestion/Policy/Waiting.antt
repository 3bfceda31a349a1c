-- ===== src/Ingestion/Policy/Waiting.antt =====
-- One step of the loop of core/ingestion/policies.py on sound source events: nothing raises.
use master_all_strings.Prelude.{
  ℕ, ◌-◌, ◌*◌, ◌≤◌, ◌<◌, ◌≡◌, refl, arith, subst, List, [], ◌∷◌, ◌++◌, Bool-cases, inl, inr, ltb,
  All, All-append, ok, true, false, Str_eq, contains, Bool, if◌then◌else◌,
}
use master_all_strings.Prelude.Int.{pos--ℤ}
use master_all_strings.Prelude.Dict.{put}
use master_all_strings.Prelude.Text.{Str, str_eq}
use master_all_strings.Score.Timing.Laws.{
  conversion, convert_elapsed_natural, convert_duration_natural,
}
use master_all_strings.Score.Rounding.Natural.{round_div}
use master_all_strings.Ingestion.Contracts.{
  SourceMidiEvent, NoteKey_eq, RejectionReason, event_before_capture_origin, releases_a_note,
}
use master_all_strings.Ingestion.Policy.{
  State, queue, key_of, add_id, record_converted, release_note, import_step, reject, is_nonzero,
  is_unresolved,
}
use master_all_strings.Ingestion.Conversion.{
  Converted, note, refused, convert_pair, convert_note, or_too_short, rejection,
}
use master_all_strings.Ingestion.Policy.Queues.{AllOpen, All-queue, AllOpen-put}
use master_all_strings.Ingestion.Policy.Sound.{
  IsIdentifier, IsSound, require_all_identifiers-ok, sound-IsIdentifier, build_note-total,
  refusal-total,
}

-- A sound note waits since a time between the capture's origin and the event, which is another one.
abbrev pub Waits : ℕ → SourceMidiEvent → SourceMidiEvent → Type 0
Waits origin event onset =
    (origin ≤ onset.capture_time_ns)
    × (onset.capture_time_ns ≤ event.capture_time_ns)
    × IsSound onset
    × (str_eq onset.source_event_id event.source_event_id ≡ false)

-- The ids that the warnings will cite are identifiers.
abbrev pub IsReady : State → Type 0
IsReady s = All IsIdentifier s.unresolved_string_ids × All IsIdentifier s.rounded_source_ids

All-add_id :
    (id : Str) (ids : List Str)
    → IsIdentifier id
    → All IsIdentifier ids
    → All IsIdentifier (add_id id ids)
unfolding add_id
All-add_id id ids hid h = elim (Bool-cases (contains id ids)) [
  | inl there ↦ rw there h
  | inr new ↦ rw new (All-append _ ids (id ∷ []) h (hid, tt))
]

All-if :
    (test : Bool) (xs ys : List Str)
    → All IsIdentifier xs
    → All IsIdentifier ys
    → All IsIdentifier (if test then xs else ys)
All-if true xs ys hx hy = hx
All-if false xs ys hx hy = hy

-- The answer leaves the queues as they are.
open_notes-record_converted :
    (onset release : SourceMidiEvent) (s : State) (c : Converted)
    → (record_converted onset release s c).open_notes ≡ s.open_notes
unfolding record_converted
open_notes-record_converted onset release s c = ground arith

record_converted-IsReady :
    (onset release : SourceMidiEvent) (s : State) (c : Converted)
    → IsIdentifier onset.source_event_id
    → IsIdentifier release.source_event_id
    → IsReady s
    → IsReady (record_converted onset release s c)
unfolding record_converted
record_converted-IsReady onset release s (refused r) ho hr h = h
record_converted-IsReady onset release s (note e p) ho hr h =
    let begun = is_nonzero p.rounding_delta_start_ns in
    let ended = is_nonzero p.rounding_delta_duration_ns in
    let ids : List Str =
      if begun then add_id onset.source_event_id s.rounded_source_ids else s.rounded_source_ids in
    let started : All IsIdentifier ids =
      All-if begun (add_id onset.source_event_id s.rounded_source_ids) s.rounded_source_ids
        (All-add_id onset.source_event_id s.rounded_source_ids ho h.1) h.1 in
    (
      All-if (is_unresolved onset.observed_source_string)
          (s.unresolved_string_ids ++ onset.source_event_id ∷ []) s.unresolved_string_ids
          (All-append _ s.unresolved_string_ids (onset.source_event_id ∷ []) h.0 (ho, tt)) h.0,
      All-if ended (add_id release.source_event_id (add_id onset.source_event_id ids)) ids
          (All-add_id release.source_event_id (add_id onset.source_event_id ids) hr
            (All-add_id onset.source_event_id ids ho started))
          started,
    )

-- The state after a rejection of one event.
reject-total :
    (reason : RejectionReason) (event : SourceMidiEvent) (s : State)
    → IsSound event
    → reject reason (event.source_event_id ∷ []) s
      ≡ ok (record s {
        rejections =
            s.rejections
            ++ record { reason = reason; source_event_ids = event.source_event_id ∷ [] } ∷ [];
      })
unfolding reject rejection
reject-total reason event s sound =
    rw
      (require_all_identifiers-ok (event.source_event_id ∷ []) "source_event_ids entry"
        (sound-IsIdentifier event sound, tt))
      refl

-- What a step keeps: the ids are identifiers, and a property of the open notes that the event has too
-- holds of the open notes.
abbrev pub Keeps : ℕ → State → SourceMidiEvent → State → Type 1
Keeps origin s event s' =
    IsReady s'
    × ((P : SourceMidiEvent → Type 0)
        → AllOpen P s.open_notes
        → (origin ≤ event.capture_time_ns → P event)
        → AllOpen P s'.open_notes)

module _ (origin ppq mpq : ℕ) (hp : 0 < ppq) (hm : 0 < mpq) where
  convert_note-total :
      (onset release : SourceMidiEvent)
      → Waits origin release onset
      → IsSound release
      → (c : Converted) × (convert_note onset release origin ppq mpq ≡ ok c)
  unfolding convert_note or_too_short convert_pair
  convert_note-total onset release (since, until, sound, other) released =
      let ticks =
        round_div ((release.capture_time_ns - onset.capture_time_ns) * ppq) (mpq * 1000) in
      let start = conversion ppq mpq (onset.capture_time_ns - origin) in
      let duration = conversion ppq mpq (release.capture_time_ns - onset.capture_time_ns) in
      elim (Bool-cases (ltb ticks 1)) [
        | inl short ↦ (
          refused (record {
            reason = RejectionReason.duration_below_one_tick;
            source_event_ids = onset.source_event_id ∷ release.source_event_id ∷ [];
          }),
          rw
              (
                pos--ℤ onset.capture_time_ns origin since,
                convert_elapsed_natural ppq mpq hp hm (onset.capture_time_ns - origin),
                convert_duration_natural ppq mpq hp hm onset.capture_time_ns release.capture_time_ns
                    until,
                short,
                refusal-total onset release sound released until other
                    RejectionReason.duration_below_one_tick,
              )
              refl,
        )
        | inr long ↦
            let (c, built) =
              build_note-total onset release sound released until other ppq mpq
                (round_div ((onset.capture_time_ns - origin) * ppq) (mpq * 1000)) ticks start
                duration hp hm refl refl (ground (arith, long)) in
            (
              c,
              rw
                  (
                    pos--ℤ onset.capture_time_ns origin since,
                    convert_elapsed_natural ppq mpq hp hm (onset.capture_time_ns - origin),
                    convert_duration_natural ppq mpq hp hm onset.capture_time_ns
                        release.capture_time_ns until,
                    long,
                    convert_elapsed_natural ppq mpq hp hm
                        (release.capture_time_ns - onset.capture_time_ns),
                  )
                  built,
            )
      ]

  release_note-total :
      (s : State) (event : SourceMidiEvent)
      → IsSound event
      → AllOpen (Waits origin event) s.open_notes
      → IsReady s
      → (q : List SourceMidiEvent) → queue (key_of event) s.open_notes ≡ q
      → (s' : State) × (release_note origin ppq mpq s event q ≡ ok s') × Keeps origin s event s'
  unfolding release_note
  release_note-total s event sound h ready [] e = (
    _,
    reject-total RejectionReason.unmatched_note_off event s sound,
    (ready, λ P held self. held),
  )
  release_note-total s event sound h ready (onset ∷ rest) e =
      let s1 : State = record s { open_notes = put (key_of event) rest s.open_notes } in
      let waits : All (Waits origin event) (onset ∷ rest) =
        subst (All (Waits origin event)) e (All-queue _ (key_of event) s.open_notes h) in
      let (c, converted) = convert_note-total onset event waits.0 sound in
      (
        record_converted onset event s1 c,
        rw converted refl,
        (
          record_converted-IsReady onset event s1 c (sound-IsIdentifier onset waits.0.2)
              (sound-IsIdentifier event sound) ready,
          λ P held self.
              let kept : All P (onset ∷ rest) =
                subst (All P) e (All-queue P (key_of event) s.open_notes held) in
              rw (open_notes-record_converted onset event s1 c)
                (AllOpen-put P (key_of event) rest s.open_notes kept.1 held),
        ),
      )

  pub import_step-total :
      (s : State) (event : SourceMidiEvent)
      → IsSound event
      → AllOpen (Waits origin event) s.open_notes
      → IsReady s
      → (s' : State) × (import_step origin ppq mpq s event ≡ ok s') × Keeps origin s event s'
  unfolding import_step
  import_step-total s event sound h ready =
      let q = queue (key_of event) s.open_notes in
      elim (Bool-cases (ltb event.capture_time_ns origin)) [
        | inl early ↦ (
          record s {
            rejections =
                s.rejections
                ++ record {
                  reason = event_before_capture_origin;
                  source_event_ids = event.source_event_id ∷ [];
                }
                  ∷ [];
          },
          rw early (reject-total event_before_capture_origin event s sound),
          (ready, λ P held self. held),
        )
        | inr later ↦ elim (Bool-cases (releases_a_note event)) [
          | inl off ↦
              let (s1, released, kept) = release_note-total s event sound h ready q refl in
              (s1, rw (later, off) released, kept)
          | inr opens ↦ (
            record s { open_notes = put (key_of event) (q ++ event ∷ []) s.open_notes },
            rw (later, opens) refl,
            (
              ready,
              λ P held self.
                  AllOpen-put P (key_of event) (q ++ event ∷ []) s.open_notes
                    (All-append P q (event ∷ []) (All-queue P (key_of event) s.open_notes held)
                      (self (ground (arith, later)), tt))
                    held,
            ),
          )
        ]
      ]
