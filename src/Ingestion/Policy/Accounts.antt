-- ===== src/Ingestion/Policy/Accounts.antt =====
-- Every source event is accounted for: the policy of core/ingestion/policies.py drops none and
-- invents none.
use master_all_strings.Prelude.{
  ℕ, ◌+◌, ◌≡◌, refl, ap, arith, List, [], ◌∷◌, ◌++◌, map, ok, Bool-cases, inl, inr, ltb, >>=-eq-ok,
  >>=-elim, sym, ◌∙◌, ok-injective,
}
use master_all_strings.Prelude.Text.{Str}
use master_all_strings.Prelude.Dict.{Dict, put}
use master_all_strings.Prelude.Order.{by_text, by_number, on}
use master_all_strings.Prelude.Count.{count, count-append, count-sort, count-sort_self}
use master_all_strings.Prelude.Sort.{sort}
use master_all_strings.Ingestion.Contracts.{
  SourceMidiEvent, Request, Rejection, RejectionReason, event_before_capture_origin,
  EventProvenance, ImportOutcome, NoteKey, NoteKey_eq, note_key_eq, releases_a_note,
}
use master_all_strings.Ingestion.Policy.{
  State, queue, key_of, record_converted, release_note, import_step, import_loop, open_ids,
  reject_open, finish, import_direct_events, rejected_ids, reject, start_state, by_time, resolution,
}
use master_all_strings.Ingestion.Conversion.{
  Converted, note, refused, Duration, lasting, too_short, or_too_short, convert_pair, convert_note,
  rejection,
}
use master_all_strings.Ingestion.Policy.Built.{build_note-ok, rejection-ok, reject-ok, finish-ok}
use master_all_strings.Score.Timing.{TickConversion, int, convert_elapsed, convert_duration}
use master_all_strings.Prelude.Int.{pos, ◌-ℤ◌}
use master_all_strings.Ingestion.Policy.Queues.{queue-cons, queue-nil}

unfoldable pub accepted_ids : List EventProvenance → List Str
accepted_ids [] = []
accepted_ids (p ∷ rest) = p.source_capture_event_ids ++ accepted_ids rest

abbrev ids_of : List SourceMidiEvent → List Str
ids_of = map (λ event. event.source_event_id)

module _ (a : Str) where
  count-accepted_ids :
      (ps : List EventProvenance) (p : EventProvenance)
      → count a (accepted_ids (ps ++ p ∷ []))
        ≡ count a (accepted_ids ps) + count a p.source_capture_event_ids
  unfolding accepted_ids count
  count-accepted_ids [] p = omega (arith, count-append a p.source_capture_event_ids [])
  count-accepted_ids (q ∷ ps) p = omega (
    arith,
    count-accepted_ids ps p,
    count-append a q.source_capture_event_ids (accepted_ids (ps ++ p ∷ [])),
    count-append a q.source_capture_event_ids (accepted_ids ps),
  )

  count-rejected_ids :
      (rs qs : List Rejection)
      → count a (rejected_ids (rs ++ qs)) ≡ count a (rejected_ids rs) + count a (rejected_ids qs)
  unfolding rejected_ids count
  count-rejected_ids [] qs = omega arith
  count-rejected_ids (q ∷ rs) qs = omega (
    arith,
    count-rejected_ids rs qs,
    count-append a q.source_event_ids (rejected_ids (rs ++ qs)),
    count-append a q.source_event_ids (rejected_ids rs),
  )

  -- Replacing the queue of a key exchanges its ids for those of the new queue.
  count-open_ids-put :
      (k : NoteKey) (q : List SourceMidiEvent) (d : Dict NoteKey (List SourceMidiEvent))
      → count a (open_ids (put k q d)) + count a (ids_of (queue k d))
        ≡ count a (open_ids d) + count a (ids_of q)
  unfolding open_ids put count
  count-open_ids-put k q [] = rw queue-nil (omega (arith, count-append a (ids_of q) []))
  count-open_ids-put k q ((j, w) ∷ d) = elim (Bool-cases (note_key_eq j k)) [
    | inl same ↦
        rw (queue-cons j k w d, same)
          (omega
            (arith, count-append a (ids_of q) (open_ids d), count-append a (ids_of w) (open_ids d)))
    | inr other ↦
        rw (queue-cons j k w d, other)
          (omega (
            arith,
            count-append a (ids_of w) (open_ids (put k q d)),
            count-append a (ids_of w) (open_ids d),
            count-open_ids-put k q d,
          ))
  ]

  -- How often the id is accepted, refused or waiting.
  abbrev accounted : State → ℕ
  accounted s =
      count a (accepted_ids s.provenance)
      + count a (rejected_ids s.rejections)
      + count a (open_ids s.open_notes)

  abbrev converted_ids : Converted → List Str
  converted_ids (note event p) = p.source_capture_event_ids
  converted_ids (refused r) = r.source_event_ids

  accounted-record_converted :
      (onset release : SourceMidiEvent) (s : State) (c : Converted)
      → accounted (record_converted onset release s c) ≡ accounted s + count a (converted_ids c)
  unfolding record_converted rejected_ids count
  accounted-record_converted onset release s (note event p) =
      omega (arith, count-accepted_ids s.provenance p)
  accounted-record_converted onset release s (refused r) =
      omega (arith, count-rejected_ids s.rejections (r ∷ []), count-append a r.source_event_ids [])

  accounted-reject :
      (reason : RejectionReason) (ids : List Str) (s : State) {s' : State}
      → reject reason ids s ≡ ok s'
      → accounted s' ≡ accounted s + count a ids
  unfolding rejected_ids count
  accounted-reject reason ids s h = rw (reject-ok reason ids s h) (
      omega (
        arith,
        count-rejected_ids s.rejections (record { reason = reason; source_event_ids = ids } ∷ []),
        count-append a ids [],
      ))

  count-ids_of :
      (q : List SourceMidiEvent) (event : SourceMidiEvent)
      → count a (ids_of (q ++ event ∷ []))
        ≡ count a (ids_of q) + count a (event.source_event_id ∷ [])
  unfolding count
  count-ids_of [] event = omega arith
  count-ids_of (x ∷ q) event = omega (arith, count-ids_of q event)

  convert_pair-ids :
      (onset release : SourceMidiEvent) (ppq mpq : ℕ) (start : TickConversion) (d : Duration)
      {c : Converted}
      → convert_pair onset release ppq mpq start d ≡ ok c
      → converted_ids c ≡ onset.source_event_id ∷ release.source_event_id ∷ []
  unfolding convert_pair
  convert_pair-ids onset release ppq mpq start (lasting duration) h =
      let (e, _, is) = build_note-ok onset release ppq mpq start duration h in ap converted_ids is
  convert_pair-ids onset release ppq mpq start too_short h =
      >>=-elim
        (rejection RejectionReason.duration_below_one_tick
          (onset.source_event_id ∷ release.source_event_id ∷ []))
        _ h
        (λ r made done.
          ap converted_ids (sym (ok-injective done))
          ∙ ap (λ (q : Rejection). q.source_event_ids) (rejection-ok _ _ made))

  -- One step accounts for the event that it takes.
  convert_note-ids :
      (onset release : SourceMidiEvent) (origin ppq mpq : ℕ) {c : Converted}
      → convert_note onset release origin ppq mpq ≡ ok c
      → converted_ids c ≡ onset.source_event_id ∷ release.source_event_id ∷ []
  unfolding convert_note
  convert_note-ids onset release origin ppq mpq h =
      >>=-elim (convert_elapsed (pos onset.capture_time_ns -ℤ pos origin) (pos ppq) (int (pos mpq)))
        _ h
        (λ start _ h1.
          >>=-elim
            (or_too_short (
              convert_duration (pos onset.capture_time_ns) (pos release.capture_time_ns) (pos ppq)
                (int (pos mpq))))
            _ h1 (λ duration _ made. convert_pair-ids onset release ppq mpq start duration made))

  accounted-release_note :
      (origin ppq mpq : ℕ) (s : State) (event : SourceMidiEvent) (q : List SourceMidiEvent)
      {s' : State}
      → queue (key_of event) s.open_notes ≡ q
      → release_note origin ppq mpq s event q ≡ ok s'
      → accounted s' ≡ accounted s + count a (event.source_event_id ∷ [])
  unfolding release_note count
  accounted-release_note origin ppq mpq s event [] e h =
      accounted-reject RejectionReason.unmatched_note_off (event.source_event_id ∷ []) s h
  accounted-release_note origin ppq mpq s event (onset ∷ rest) e h =
      let s1 : State = record s { open_notes = put (key_of event) rest s.open_notes } in
      let (c, converted, done) =
        >>=-eq-ok (convert_note onset event origin ppq mpq)
          (λ c. ok (record_converted onset event s1 c)) h in
      rw (← ok-injective done) (
        omega (
          arith,
          accounted-record_converted onset event s1 c,
          ap (count a) (convert_note-ids onset event origin ppq mpq converted),
          ap (λ w. count a (ids_of w)) e,
          count-open_ids-put (key_of event) rest s.open_notes,
        ))

  accounted-open :
      (s : State) (event : SourceMidiEvent)
      → accounted (record s {
        open_notes =
            put (key_of event) (queue (key_of event) s.open_notes ++ event ∷ []) s.open_notes;
      })
        ≡ accounted s + count a (event.source_event_id ∷ [])
  accounted-open s event =
      let q = queue (key_of event) s.open_notes in
      omega (
        arith,
        count-open_ids-put (key_of event) (q ++ event ∷ []) s.open_notes,
        count-ids_of q event,
      )

  accounted-import_step :
      (origin ppq mpq : ℕ) (s : State) (event : SourceMidiEvent) {s' : State}
      → import_step origin ppq mpq s event ≡ ok s'
      → accounted s' ≡ accounted s + count a (event.source_event_id ∷ [])
  unfolding import_step
  accounted-import_step origin ppq mpq s event h =
      elim (Bool-cases (ltb event.capture_time_ns origin)) [
        | inl early ↦
            accounted-reject event_before_capture_origin (event.source_event_id ∷ []) s
              (rw early at h)
        | inr later ↦ elim (Bool-cases (releases_a_note event)) [
          | inl off ↦
              accounted-release_note origin ppq mpq s event (queue (key_of event) s.open_notes) refl
                (rw (later, off) at h)
          | inr on ↦ rw (← ok-injective (rw (later, on) at h)) (accounted-open s event)
        ]
      ]

  accounted-import_loop :
      (origin ppq mpq : ℕ) (s : State) (events : List SourceMidiEvent) {s' : State}
      → import_loop origin ppq mpq s events ≡ ok s'
      → accounted s' ≡ accounted s + count a (ids_of events)
  unfolding import_loop
  accounted-import_loop origin ppq mpq s [] h = rw (← ok-injective h) (unfold count in omega arith)
  accounted-import_loop origin ppq mpq s (event ∷ rest) h =
      let (s1, step, loop) =
        >>=-eq-ok (import_step origin ppq mpq s event) (λ t. import_loop origin ppq mpq t rest) h in
      omega (
        arith,
        accounted-import_step origin ppq mpq s event step,
        accounted-import_loop origin ppq mpq s1 rest loop,
        count-append a (event.source_event_id ∷ []) (ids_of rest),
      )

  count-nil : count a [] ≡ 0
  unfolding count
  count-nil = refl

  count-reject_open :
      (ids : List Str) {rs : List Rejection}
      → reject_open ids ≡ ok rs
      → count a (rejected_ids rs) ≡ count a ids
  unfolding reject_open rejected_ids
  count-reject_open [] h = rw (← ok-injective h) refl
  count-reject_open (id ∷ ids) h =
      >>=-elim (rejection RejectionReason.unmatched_note_on (sort by_text (id ∷ ids))) _ h
        (λ r made done.
          rw (← ok-injective done, rejection-ok _ _ made)
            (omega (
              arith,
              count-append a (sort by_text (id ∷ ids)) [],
              count-nil,
              count-sort_self by_text a (id ∷ ids),
            )))

  accounted-start_state : accounted start_state ≡ 0
  unfolding accepted_ids rejected_ids open_ids count
  accounted-start_state = refl

  -- When the import of a request succeeds, every source event is answered for exactly once: an id
  -- occurs in the provenance of the accepted notes and in the rejections, together, as often as among
  -- the events of the request.
  pub import_direct_events-accounts :
      (request : Request) {outcome : ImportOutcome}
      → import_direct_events request ≡ ok outcome
      → count a (accepted_ids outcome.event_provenance) + count a (rejected_ids outcome.rejections)
        ≡ count a (ids_of request.source_events)
  unfolding import_direct_events
  import_direct_events-accounts request h =
      let sorted = by_time request.source_events in
      let ppq = resolution request.ticks_per_quarter in
      let (s, loop, done) = >>=-eq-ok _ (λ s. finish request.source_events s) h in
      let (rs, opened, _, evidence_is, rejections_are) = finish-ok request.source_events s done in
      rw (evidence_is, rejections_are)
        (omega (
          arith,
          accounted-import_loop _ ppq _ start_state sorted loop,
          count-rejected_ids s.rejections rs,
          count-reject_open (open_ids s.open_notes) opened,
          accounted-start_state,
          count-sort (on (λ (event : SourceMidiEvent). event.capture_time_ns) by_number)
              (λ event. event.source_event_id) a request.source_events,
        ))
