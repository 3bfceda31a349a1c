-- ===== src/Ingestion/Policy/Notes.antt =====
-- What the accepted notes of core/ingestion/policies.py look like beside their provenance.
use master_all_strings.Prelude.{
  ℕ, ◌<◌, ◌≡◌, arith, List, [], ◌∷◌, ◌++◌, none, ok, ◌>>=◌, >>=-eq-ok, >>=-elim, ok-injective,
  subst, sym, Bool-cases, inl, inr, ltb,
}
use master_all_strings.Prelude.Int.{ℤ, pos, pos_part, ◌≤ℤ◌, ◌-ℤ◌}
use master_all_strings.Prelude.Dict.{put}
use master_all_strings.Prelude.Text.{Str}
use master_all_strings.Prelude.Float.{Float}
use master_all_strings.Ingestion.Policy.Built.{build_note-ok, reject-ok, finish-ok}
use master_all_strings.Events.{MusicalEvent, new_musical_event}
use master_all_strings.Score.Timing.{Tempo, int, TickConversion, convert_elapsed, convert_duration}
use master_all_strings.Ingestion.Contracts.{
  SourceMidiEvent, NoteKey_eq, Request, RejectionReason, EventProvenance, ImportOutcome,
  releases_a_note,
}
use master_all_strings.Ingestion.Policy.{
  State, queue, key_of, record_converted, release_note, import_step, import_loop, finish,
  import_direct_events, start_state,
}
use master_all_strings.Ingestion.Conversion.{
  Converted, note, refused, Duration, lasting, too_short, or_too_short, convert_pair, rejection,
  convert_note,
}

-- A canonical event and the evidence for it.
pub record Agrees (event : MusicalEvent) (p : EventProvenance) : Type 0 where
  pub same_id : event.event_id ≡ p.canonical_event_id
  pub start : event.start_tick ≡ pos_part p.converted_start_tick
  pub duration : pos event.duration_ticks ≡ p.converted_duration_ticks
  pub lasts : 0 < event.duration_ticks
  pub unvoiced : event.voice_id ≡ none

-- The two lists correspond, place by place.
abbrev pub AllAgree : List MusicalEvent → List EventProvenance → Type 0
AllAgree [] [] = Unit
AllAgree [] (p ∷ ps) = ⊥
AllAgree (e ∷ es) [] = ⊥
AllAgree (e ∷ es) (p ∷ ps) = Agrees e p × AllAgree es ps

AllAgree-append :
    (es : List MusicalEvent) (ps : List EventProvenance) (e : MusicalEvent) (p : EventProvenance)
    → AllAgree es ps
    → Agrees e p
    → AllAgree (es ++ e ∷ []) (ps ++ p ∷ [])
AllAgree-append [] [] e p h a = (a, tt)
AllAgree-append [] (q ∷ ps) e p h a = absurd h
AllAgree-append (d ∷ es) [] e p h a = absurd h
AllAgree-append (d ∷ es) (q ∷ ps) e p h a = (h.0, AllAgree-append es ps e p h.1 a)

convert_duration-le :
    (onset release ppq : ℤ) (tempo : Tempo) {c : TickConversion}
    → convert_duration onset release ppq tempo ≡ ok c
    → pos 1 ≤ℤ c.ticks
unfolding convert_duration
convert_duration-le onset release ppq tempo h = ground arith

abbrev ConvertedAgrees : Converted → Type 0
ConvertedAgrees (note event p) = Agrees event p
ConvertedAgrees (refused r) = Unit

abbrev IsLasting : Duration → Type 0
IsLasting (lasting c) = pos 1 ≤ℤ c.ticks
IsLasting too_short = Unit

-- The constructor of the event takes over what it is given.
new_musical_event-fields :
    (id : Str) (pitch start duration velocity : ℤ) (cents : Float) {e : MusicalEvent}
    → new_musical_event id pitch start duration velocity cents none ≡ ok e
    → (e.event_id ≡ id)
      × (e.start_tick ≡ pos_part start)
      × (e.duration_ticks ≡ pos_part duration)
      × (e.voice_id ≡ none)
unfolding new_musical_event
new_musical_event-fields id pitch start duration velocity cents h = ground arith

convert_pair-Agrees :
    (onset release : SourceMidiEvent) (ppq mpq : ℕ) (start : TickConversion) (d : Duration)
    {c : Converted}
    → IsLasting d
    → convert_pair onset release ppq mpq start d ≡ ok c
    → ConvertedAgrees c
unfolding convert_pair
convert_pair-Agrees onset release ppq mpq start (lasting duration) lasts h =
    let (e, made, is) = build_note-ok onset release ppq mpq start duration h in
    let (id, starts, length_is, voice) = new_musical_event-fields _ _ _ _ _ _ made in
    subst ConvertedAgrees (sym is) (record {
      same_id = id;
      start = starts;
      duration = ground (arith, length_is);
      lasts = ground (arith, length_is);
      unvoiced = voice;
    })
convert_pair-Agrees onset release ppq mpq start too_short lasts h =
    >>=-elim
      (rejection RejectionReason.duration_below_one_tick
        (onset.source_event_id ∷ release.source_event_id ∷ []))
      _ h (λ r made done. subst ConvertedAgrees (ok-injective done) tt)

or_too_short-IsLasting :
    (onset release ppq : ℤ) (tempo : Tempo) (d : Duration)
    → or_too_short (convert_duration onset release ppq tempo) ≡ ok d
    → IsLasting d
unfolding or_too_short
or_too_short-IsLasting onset release ppq tempo (lasting c) h =
    convert_duration-le onset release ppq tempo {c = c} (ground arith)
or_too_short-IsLasting onset release ppq tempo too_short h = tt

module _ (origin ppq mpq : ℕ) where
  convert_note-Agrees :
      (onset release : SourceMidiEvent) {c : Converted}
      → convert_note onset release origin ppq mpq ≡ ok c
      → ConvertedAgrees c
  unfolding convert_note
  convert_note-Agrees onset release h =
      let (start, _, h1) =
        >>=-eq-ok
          (convert_elapsed (pos onset.capture_time_ns -ℤ pos origin) (pos ppq) (int (pos mpq)))
          (λ start. do
            duration ← or_too_short (
                convert_duration (pos onset.capture_time_ns) (pos release.capture_time_ns) (pos ppq)
                  (int (pos mpq)))
            convert_pair onset release ppq mpq start duration)
          h in
      let (d, lasts, h2) =
        >>=-eq-ok _ (λ duration. convert_pair onset release ppq mpq start duration) h1 in
      convert_pair-Agrees onset release ppq mpq start d
        (or_too_short-IsLasting (pos onset.capture_time_ns) (pos release.capture_time_ns) (pos ppq)
          (int (pos mpq)) d lasts)
        h2

  AllAgree-record_converted :
      (onset release : SourceMidiEvent) (s : State) (c : Converted)
      → ConvertedAgrees c
      → AllAgree s.events s.provenance
      → AllAgree
          (record_converted onset release s c).events
          (record_converted onset release s c).provenance
  unfolding record_converted
  AllAgree-record_converted onset release s (note e p) a h =
      AllAgree-append s.events s.provenance e p h a
  AllAgree-record_converted onset release s (refused r) a h = h

  AllAgree-release_note :
      (s : State) (event : SourceMidiEvent) (q : List SourceMidiEvent) {s' : State}
      → release_note origin ppq mpq s event q ≡ ok s'
      → AllAgree s.events s.provenance
      → AllAgree s'.events s'.provenance
  unfolding release_note
  AllAgree-release_note s event [] h a = rw (reject-ok _ _ s h) a
  AllAgree-release_note s event (onset ∷ rest) h a =
      let s1 : State = record s { open_notes = put (key_of event) rest s.open_notes } in
      let (c, converted, done) =
        >>=-eq-ok (convert_note onset event origin ppq mpq)
          (λ c. ok (record_converted onset event s1 c)) h in
      rw (← ok-injective done)
        (AllAgree-record_converted onset event s1 c (convert_note-Agrees onset event converted) a)

  AllAgree-import_step :
      (s : State) (event : SourceMidiEvent) {s' : State}
      → import_step origin ppq mpq s event ≡ ok s'
      → AllAgree s.events s.provenance
      → AllAgree s'.events s'.provenance
  unfolding import_step
  AllAgree-import_step s event h a = elim (Bool-cases (ltb event.capture_time_ns origin)) [
    | inl early ↦ rw (reject-ok _ _ s (rw early at h)) a
    | inr later ↦ elim (Bool-cases (releases_a_note event)) [
      | inl off ↦
          AllAgree-release_note s event (queue (key_of event) s.open_notes) (rw (later, off) at h) a
      | inr opens ↦ rw (← ok-injective (rw (later, opens) at h)) a
    ]
  ]

  AllAgree-import_loop :
      (s : State) (events : List SourceMidiEvent) {s' : State}
      → import_loop origin ppq mpq s events ≡ ok s'
      → AllAgree s.events s.provenance
      → AllAgree s'.events s'.provenance
  unfolding import_loop
  AllAgree-import_loop s [] h a = rw (← ok-injective h) a
  AllAgree-import_loop s (event ∷ rest) h a =
      let (s1, step, loop) = >>=-eq-ok _ _ h in
      AllAgree-import_loop s1 rest loop (AllAgree-import_step s event step a)

-- When the import of a request succeeds, the canonical events and their provenance correspond place
-- by place: a pair has one id, the converted ticks are the event's, every event lasts at least one tick and none is given a voice.
pub import_direct_events-AllAgree :
    (request : Request) {outcome : ImportOutcome}
    → import_direct_events request ≡ ok outcome
    → AllAgree outcome.events outcome.event_provenance
unfolding import_direct_events
import_direct_events-AllAgree request h =
    let (s, loop, done) = >>=-eq-ok _ (λ s. finish request.source_events s) h in
    let (_, _, events_are, evidence_is, _) = finish-ok request.source_events s done in
    rw (events_are, evidence_is) (AllAgree-import_loop _ _ _ start_state _ loop tt)
