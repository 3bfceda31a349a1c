-- ===== src/Performance/Pairing/Accounts.antt =====
-- Every note message is accounted for: performance/note_pairing.py drops none and invents none.
use master_all_strings.Prelude.{
  ℕ, suc, ◌+◌, ◌≡◌, refl, ap, ◌>>=◌, arith, List, [], ◌∷◌, ◌++◌, map, none, some, ◌||◌, ok,
  Bool-cases, inl, inr, >>=-eq-ok, ok-injective, if◌then◌else◌,
}
use mathlib.Core.Path.{ap₂}
use master_all_strings.Prelude.Text.{Str}
use master_all_strings.Prelude.Int.{ℤ, pos}
use master_all_strings.Prelude.Queues.{
  queue_of, all_waiting, count-all_waiting-put, count-map-append,
}
use master_all_strings.Prelude.Order.{Order, by_number, on}
use master_all_strings.Prelude.Count.{count, count-append, count-sort}
use master_all_strings.Prelude.Sort.{sort, insert}
use master_all_strings.Performance.Capture.{CapturedEvent, is_note}
use master_all_strings.Performance.Pairing.{
  ObservedNote, UnmatchedNoteOff, PairingState, PairingResult, PairingKey, PairingKey_eq,
  new_observed_note, new_unmatched_off, build_matched, build_open, pair_release, pair_note,
  pair_step, pair_message, pairing_start, by_sequence, paired, pair_loop, build_all_open,
  pair_midi_notes, by_onset, is_note_off, add_unmatched, add_matched, add_waiting, unmatched_of,
  eq_ℤ, asserted,
}

-- The raw messages that a note cites.
abbrev pub cited : ObservedNote → List Str
cited n = n.note_on_event_id ∷ elim n.note_off_event_id [ none ↦ [] | some id ↦ id ∷ [] ]

unfoldable pub paired_ids : List ObservedNote → List Str
paired_ids [] = []
paired_ids (n ∷ notes) = cited n ++ paired_ids notes

-- The ids of the note-on and note-off messages.
unfoldable pub note_message_ids : List CapturedEvent → List Str
note_message_ids [] = []
note_message_ids (event ∷ events) =
    let rest = note_message_ids events in
    if is_note event.event_type then event.event_id ∷ rest else rest

abbrev event_ids : List CapturedEvent → List Str
event_ids = map (λ event. event.event_id)

abbrev off_ids : List UnmatchedNoteOff → List Str
off_ids = map (λ off. off.raw_event_id)

new_observed_note-same : (n m : ObservedNote) → new_observed_note n ≡ ok m → m ≡ n
unfolding new_observed_note
new_observed_note-same n m h = ground arith

new_unmatched_off-same : (n m : UnmatchedNoteOff) → new_unmatched_off n ≡ ok m → m ≡ n
unfolding new_unmatched_off
new_unmatched_off-same n m h = ground arith

build_matched-cited :
    (capture_id id : Str) (onset release : CapturedEvent) (repetition : ℤ) (n : ObservedNote)
    → build_matched capture_id id onset release repetition ≡ ok n
    → cited n ≡ onset.event_id ∷ release.event_id ∷ []
unfolding build_matched
build_matched-cited capture_id id onset release repetition n h =
    let (pitch, _, h') = >>=-eq-ok (asserted onset.note) _ h in
    let (velocity, _, h'') = >>=-eq-ok (asserted onset.velocity) _ h' in
    ap cited (new_observed_note-same _ n h'')

build_open-cited :
    (capture_id id : Str) (onset : CapturedEvent) (repetition : ℤ) (n : ObservedNote)
    → build_open capture_id id onset repetition ≡ ok n
    → cited n ≡ onset.event_id ∷ []
unfolding build_open
build_open-cited capture_id id onset repetition n h =
    let (pitch, _, h') = >>=-eq-ok (asserted onset.note) _ h in
    let (velocity, _, h'') = >>=-eq-ok (asserted onset.velocity) _ h' in
    ap cited (new_observed_note-same _ n h'')

module _ (a : Str) where
  count-paired_ids :
      (ns ms : List ObservedNote)
      → count a (paired_ids (ns ++ ms)) ≡ count a (paired_ids ns) + count a (paired_ids ms)
  unfolding paired_ids count
  count-paired_ids [] ms = omega arith
  count-paired_ids (n ∷ ns) ms = omega (
    arith,
    count-paired_ids ns ms,
    count-append a (cited n) (paired_ids (ns ++ ms)),
    count-append a (cited n) (paired_ids ns),
  )

  count-paired_ids-insert :
      (o : Order ObservedNote) (n : ObservedNote) (ns : List ObservedNote)
      → count a (paired_ids (insert o n ns)) ≡ count a (paired_ids (n ∷ ns))
  unfolding insert
  count-paired_ids-insert o n [] = refl
  count-paired_ids-insert o n (m ∷ ns) = elim (Bool-cases (o.le? n m)) [
    | inl e ↦ rw e refl
    | inr e ↦ rw e (
        omega (
          arith,
          count-paired_ids-insert o n ns,
          count-paired_ids (m ∷ []) (insert o n ns),
          count-paired_ids (n ∷ []) (m ∷ ns),
          count-paired_ids (m ∷ []) ns,
          count-paired_ids (n ∷ []) ns,
        ))
  ]

  count-paired_ids-sort :
      (o : Order ObservedNote) (ns : List ObservedNote)
      → count a (paired_ids (sort o ns)) ≡ count a (paired_ids ns)
  unfolding sort
  count-paired_ids-sort o [] = refl
  count-paired_ids-sort o (n ∷ ns) = omega (
    arith,
    count-paired_ids-insert o n (sort o ns),
    count-paired_ids (n ∷ []) (sort o ns),
    count-paired_ids (n ∷ []) ns,
    count-paired_ids-sort o ns,
  )

  note_message_ids-cons :
      (event : CapturedEvent) (events : List CapturedEvent)
      → count a (note_message_ids (event ∷ events))
        ≡ count a (note_message_ids (event ∷ [])) + count a (note_message_ids events)
  unfolding note_message_ids count
  note_message_ids-cons event events = elim (Bool-cases (is_note event.event_type)) [
    | inl e ↦ rw e (omega arith)
    | inr e ↦ rw e (omega arith)
  ]

  -- How often a message is cited by a note, found unmatched, or waiting.
  abbrev accounted : PairingState → ℕ
  accounted s =
      count a (paired_ids s.completed)
      + count a (off_ids s.unmatched_offs)
      + count a (event_ids (all_waiting s.queues))

  module _ (factory : ℕ → Str) (repetition : CapturedEvent → ℤ) (capture_id : Str) where
    accounted-pair_release :
        (s s' : PairingState) (key : PairingKey) (event : CapturedEvent) (pitch : ℤ)
        (waiting : List CapturedEvent)
        → queue_of key s.queues ≡ waiting
        → pair_release factory repetition capture_id s key event pitch waiting ≡ ok s'
        → accounted s' ≡ accounted s + count a (event.event_id ∷ [])
    unfolding pair_release count paired_ids
    accounted-pair_release s s' key event pitch [] q h =
        let (off, made, done) =
          >>=-eq-ok (new_unmatched_off (unmatched_of capture_id event pitch (repetition event)))
            (λ off. ok (add_unmatched key off s)) h in
        rw (← ok-injective done) (
          omega (
            arith,
            count-all_waiting-put (λ e. e.event_id) a key [] s.queues,
            ap (λ waiting. count a (event_ids waiting)) q,
            count-map-append (λ o. o.raw_event_id) a s.unmatched_offs (off ∷ []),
            ap (λ o. count a (o.raw_event_id ∷ [])) (new_unmatched_off-same _ off made),
          ))
    accounted-pair_release s s' key event pitch (onset ∷ rest) q h =
        let (built, made, done) =
          >>=-eq-ok (build_matched capture_id (factory s.next_id) onset event (repetition onset))
            (λ built. ok (add_matched key rest built s)) h in
        rw (← ok-injective done) (
          omega (
            arith,
            count-all_waiting-put (λ e. e.event_id) a key rest s.queues,
            ap (λ waiting. count a (event_ids waiting)) q,
            count-paired_ids s.completed (built ∷ []),
            count-append a (cited built) [],
            ap (count a) (build_matched-cited capture_id _ onset event _ built made),
            count-append a (onset.event_id ∷ []) (event.event_id ∷ []),
            count-append a (onset.event_id ∷ []) (event_ids rest),
          ))

    accounted-pair_note :
        (s s' : PairingState) (event : CapturedEvent) (pitch velocity : ℤ)
        → pair_note factory repetition capture_id s event pitch velocity ≡ ok s'
        → accounted s' ≡ accounted s + count a (event.event_id ∷ [])
    unfolding pair_note
    accounted-pair_note s s' event pitch velocity h =
        let key : PairingKey = (event.source_device, event.channel, pitch) in
        elim (Bool-cases (is_note_off event.event_type || eq_ℤ velocity (pos 0))) [
          | inl e ↦
              accounted-pair_release s s' key event pitch (queue_of key s.queues) refl
                (ground (arith, e))
          | inr e ↦
              let done : add_waiting key event s ≡ s' = ground (arith, e) in
              rw (← done) (
                omega (
                  arith,
                  count-all_waiting-put (λ x. x.event_id) a key
                      (queue_of key s.queues ++ event ∷ []) s.queues,
                  count-map-append (λ x. x.event_id) a (queue_of key s.queues) (event ∷ []),
                ))
        ]

    accounted-pair_message :
        (s s' : PairingState) (event : CapturedEvent)
        → pair_message factory repetition capture_id s event ≡ ok s'
        → accounted s' ≡ accounted s + count a (event.event_id ∷ [])
    unfolding pair_message
    accounted-pair_message s s' event h =
        let (pitch, _, h') = >>=-eq-ok (asserted event.note) _ h in
        let (velocity, _, h'') = >>=-eq-ok (asserted event.velocity) _ h' in
        accounted-pair_note s s' event pitch velocity h''

    accounted-pair_step :
        (s s' : PairingState) (event : CapturedEvent)
        → pair_step factory repetition capture_id s event ≡ ok s'
        → accounted s' ≡ accounted s + count a (note_message_ids (event ∷ []))
    unfolding pair_step note_message_ids count
    accounted-pair_step s s' event h = elim (Bool-cases (is_note event.event_type)) [
      | inl e ↦ rw e (accounted-pair_message s s' event (ground (arith, e)))
      | inr e ↦ let same : s ≡ s' = ground (arith, e) in rw (e, ← same) (omega arith)
    ]

    accounted-pair_loop :
        (s s' : PairingState) (events : List CapturedEvent)
        → pair_loop factory repetition capture_id s events ≡ ok s'
        → accounted s' ≡ accounted s + count a (note_message_ids events)
    unfolding pair_loop note_message_ids count
    accounted-pair_loop s s' [] h = rw (← ok-injective h) (omega arith)
    accounted-pair_loop s s' (event ∷ events) h =
        let (t, made, done) =
          >>=-eq-ok (pair_step factory repetition capture_id s event)
            (λ t. pair_loop factory repetition capture_id t events) h in
        omega (
          arith,
          accounted-pair_step s t event made,
          accounted-pair_loop t s' events done,
          note_message_ids-cons event events,
        )

    build_all_open-cited :
        (next_id : ℕ) (onsets : List CapturedEvent) (ns : List ObservedNote)
        → build_all_open factory repetition capture_id next_id onsets ≡ ok ns
        → paired_ids ns ≡ event_ids onsets
    unfolding build_all_open paired_ids
    build_all_open-cited next_id [] ns h = rw (← ok-injective h) refl
    build_all_open-cited next_id (onset ∷ rest) ns h =
        let (built, made, h') =
          >>=-eq-ok (build_open capture_id (factory next_id) onset (repetition onset))
            (λ built. build_all_open factory repetition capture_id (suc next_id) rest >>= λ others.
              ok (built ∷ others))
            h in
        let (others, more, done) =
          >>=-eq-ok (build_all_open factory repetition capture_id (suc next_id) rest)
            (λ others. ok (built ∷ others)) h' in
        rw (← ok-injective done) (
          ap₂ (λ x y. x ++ y) (build_open-cited capture_id _ onset _ built made)
            (build_all_open-cited (suc next_id) rest others more))

    -- When the pairing of a capture's events succeeds, every message id occurs as often among the
    -- messages that the notes cite, as onset or as release, and the unmatched releases together, as it
    -- does among the note-on and note-off messages of the capture.
    pub pair_midi_notes-accounts :
        (events : List CapturedEvent) {result : PairingResult}
        → pair_midi_notes factory repetition capture_id events ≡ ok result
        → count a (paired_ids result.observed_notes) + count a (off_ids result.unmatched_note_offs)
          ≡ count a (note_message_ids events)
    unfolding pair_midi_notes paired_ids all_waiting count
    pair_midi_notes-accounts events h =
        let (s, looped, h') =
          >>=-eq-ok (pair_loop factory repetition capture_id pairing_start events)
            (λ s.
              build_all_open factory repetition capture_id s.next_id (by_sequence s.queues)
              >>= λ never. ok (paired s never))
            h in
        let (never, built, done) =
          >>=-eq-ok (build_all_open factory repetition capture_id s.next_id (by_sequence s.queues))
            (λ never. ok (paired s never)) h' in
        rw (← ok-injective done) (
          omega (
            arith,
            count-paired_ids-sort by_onset (s.completed ++ never),
            count-paired_ids s.completed never,
            ap (count a) (build_all_open-cited s.next_id (by_sequence s.queues) never built),
            count-sort (on (λ (e : CapturedEvent). e.sequence_number) by_number) (λ e. e.event_id) a
                (all_waiting s.queues),
            accounted-pair_loop pairing_start s events looped,
          ))
