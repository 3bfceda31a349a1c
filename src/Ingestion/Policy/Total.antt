-- ===== src/Ingestion/Policy/Total.antt =====
-- The policy of core/ingestion/policies.py answers every request that can be constructed: none of the
-- checks on its way raises.
use mathlib.Core.Logic.{∥∥₁_elim}
use master_all_strings.Prelude.{
  ℕ, ◌≤◌, ◌<◌, ◌≡◌, ◌≢◌, ◌∙◌, refl, arith, List, [], ◌∷◌, Option, Bool-cases, inl, inr, All,
  All-append, All-imp, ok, Result, ◌>>=◌, true, map, all_distinct, not_contains-All,
  all_distinct-permᴰ, Str_eq, Bool,
}
use master_all_strings.Prelude.Dict.{Dict}
use master_all_strings.Prelude.Text.{Str, str_eq, str_eq_sound}
use master_all_strings.Prelude.Strings.{Iso8601}
use master_all_strings.Prelude.Order.{by_number, by_text, on}
use master_all_strings.Prelude.Sort.{sort, sort-IsSorted, sort-perm, IsSorted, All-sort}
use master_all_strings.Score.Errors.{ScoreError, require_unique, require_positive_int}
use master_all_strings.Score.Provenance.{require_all_identifiers}
use master_all_strings.Ingestion.Contracts.{
  SourceMidiEvent, Request, ImportOutcome, NoteKey, NoteKey_eq, RejectionReason, WarningCode,
  Warning, Rejection,
}
use master_all_strings.Ingestion.Requests.{check_source_events, check_request}
use master_all_strings.Ingestion.Policy.{
  State, import_loop, finish, import_direct_events, start_state, by_time, resolution, warn_of,
  reject_open, open_ids,
}
use master_all_strings.Ingestion.Conversion.{rejection}
use master_all_strings.Ingestion.Policy.Queues.{AllOpen}
use master_all_strings.Ingestion.Policy.Sound.{
  IsIdentifier, IsSound, require_all_identifiers-ok, sound-IsIdentifier,
}
use master_all_strings.Ingestion.Policy.Waiting.{Waits, IsReady, Keeps, import_step-total}

module _ (origin ppq mpq : ℕ) (hp : 0 < ppq) (hm : 0 < mpq) where
  -- The later events find every open note of a step waiting.
  waiting-after :
      (s s1 : State) (event : SourceMidiEvent) (rest : List SourceMidiEvent)
      → IsSound event
      → Keeps origin s event s1
      → All (λ (e : SourceMidiEvent). event.capture_time_ns ≤ e.capture_time_ns) rest
      → All (λ (e : SourceMidiEvent). event.source_event_id ≢ e.source_event_id) rest
      → All (λ e. AllOpen (Waits origin e) s.open_notes) rest
      → All (λ e. AllOpen (Waits origin e) s1.open_notes) rest
  waiting-after s s1 event [] sound kept sorted apart h = tt
  waiting-after s s1 event (e ∷ rest) sound kept sorted apart h = (
    kept.1 (Waits origin e) h.0 (λ since. (
      since,
      sorted.0,
      sound,
      elim (Bool-cases (str_eq event.source_event_id e.source_event_id)) [
        | inl same ↦ absurd (apart.0 (str_eq_sound _ _ same))
        | inr other ↦ other
      ],
    )),
    waiting-after s s1 event rest sound kept sorted.1 apart.1 h.1,
  )

  import_loop-total :
      (s : State) (events : List SourceMidiEvent)
      → IsSorted (on (λ (event : SourceMidiEvent). event.capture_time_ns) by_number) events
      → all_distinct (map (λ (event : SourceMidiEvent). event.source_event_id) events) ≡ true
      → All IsSound events
      → All (λ event. AllOpen (Waits origin event) s.open_notes) events
      → AllOpen IsSound s.open_notes
      → IsReady s
      → (s' : State) × (import_loop origin ppq mpq s events ≡ ok s')
        × IsReady s'
        × AllOpen IsSound s'.open_notes
  unfolding import_loop all_distinct
  import_loop-total s [] sorted distinct sounds h held ready = (s, refl, ready, held)
  import_loop-total s (event ∷ rest) sorted distinct sounds h held ready =
      let (s1, step, kept) = import_step-total origin ppq mpq hp hm s event sounds.0 h.0 ready in
      let apart =
        not_contains-All (λ (e : SourceMidiEvent). e.source_event_id) event.source_event_id rest
          (ground (arith, distinct)) in
      let times : All (λ (e : SourceMidiEvent). event.capture_time_ns ≤ e.capture_time_ns) rest =
        All-imp _ _ (λ e le. ground (arith, le)) rest sorted.0 in
      let (s2, loop, ready2, held2) =
        import_loop-total s1 rest sorted.1 (ground (arith, distinct)) sounds.1
          (waiting-after s s1 event rest sounds.0 kept times apart h.1)
          (kept.1 IsSound held (λ since. sounds.0)) kept.0 in
      (s2, rw step loop, ready2, held2)

open_ids-All :
    (d : Dict NoteKey (List SourceMidiEvent)) → AllOpen IsSound d → All IsIdentifier (open_ids d)
unfolding open_ids
open_ids-All [] h = tt
open_ids-All ((k, q) ∷ d) h =
    All-append _ (map (λ (e : SourceMidiEvent). e.source_event_id) q) (open_ids d) (ids q h.0)
      (open_ids-All d h.1)
  where
    ids :
        (q : List SourceMidiEvent)
        → All IsSound q
        → All IsIdentifier (map (λ (e : SourceMidiEvent). e.source_event_id) q)
    ids [] h = tt
    ids (e ∷ q) h = (sound-IsIdentifier e h.0, ids q h.1)

sorted_ids-ok :
    (ids : List Str)
    → All IsIdentifier ids
    → require_all_identifiers (sort by_text ids) "source_event_ids entry" ≡ ok tt
sorted_ids-ok ids h =
    require_all_identifiers-ok (sort by_text ids) "source_event_ids entry"
      (All-sort by_text IsIdentifier ids h)

>>=-total :
    {A B : Type 0} {r : Result ScoreError A} (f : A → Result ScoreError B) {x : A}
    → r ≡ ok x
    → (y : B) × (f x ≡ ok y)
    → (y : B) × ((r >>= f) ≡ ok y)
>>=-total f e (y, h) = (y, rw e h)

warn_of-total :
    (code : WarningCode) (ids : List Str)
    → All IsIdentifier ids
    → (ws : List Warning) × (warn_of code ids ≡ ok ws)
unfolding warn_of
warn_of-total code [] h = ([], refl)
warn_of-total code (id ∷ ids) h = (
  record { code = code; source_event_ids = sort by_text (id ∷ ids) } ∷ [],
  rw (sorted_ids-ok (id ∷ ids) h) refl,
)

reject_open-total :
    (ids : List Str) → All IsIdentifier ids → (rs : List Rejection) × (reject_open ids ≡ ok rs)
unfolding reject_open rejection
reject_open-total [] h = ([], refl)
reject_open-total (id ∷ ids) h = (
  record { reason = RejectionReason.unmatched_note_on; source_event_ids = sort by_text (id ∷ ids) }
      ∷ [],
  rw (sorted_ids-ok (id ∷ ids) h) refl,
)

finish-total :
    (events : List SourceMidiEvent) (s : State)
    → IsReady s
    → AllOpen IsSound s.open_notes
    → (outcome : ImportOutcome) × (finish events s ≡ ok outcome)
unfolding finish
finish-total events s ready held =
    let (rs, opened) = reject_open-total (open_ids s.open_notes) (open_ids-All s.open_notes held) in
    let (us, unresolved) =
      warn_of-total WarningCode.source_string_unresolved s.unresolved_string_ids ready.0 in
    let (ns, rounded) = warn_of-total WarningCode.rounding_applied s.rounded_source_ids ready.1 in
    >>=-total _ opened (>>=-total _ unresolved (>>=-total _ rounded (_, refl)))

check_source_events-All :
    (events : List SourceMidiEvent) → check_source_events events ≡ ok tt → All IsSound events
unfolding check_source_events
check_source_events-All [] h = tt
check_source_events-All (event ∷ events) h =
    (ground (arith, h), check_source_events-All events (ground (arith, h)))

check_request-fields :
    ⦃iso : Iso8601⦄ (request : Request)
    → check_request request ≡ ok tt
    → (0 < request.tempo_microseconds_per_quarter)
      × (all_distinct (map (λ event. event.source_event_id) request.source_events) ≡ true)
unfolding check_request require_positive_int require_unique
check_request-fields request h = (ground arith, ground arith)

Bool-set : IsSet Bool
Bool-set = hlevel

-- Every request whose constructor and whose source events' constructors accept it is answered: no
-- conversion fails but a note that is too short, which is rejected, and no canonical event, provenance,
-- rejection or warning that is built on the way is refused by its constructor.
pub import_direct_events-total :
    ⦃iso : Iso8601⦄ (request : Request)
    → check_source_events request.source_events ≡ ok tt
    → check_request request ≡ ok tt
    → (outcome : ImportOutcome) × (import_direct_events request ≡ ok outcome)
unfolding import_direct_events
import_direct_events-total request sound accepted =
    let (positive, distinct) = check_request-fields request accepted in
    let events = by_time request.source_events in
    let ppq = resolution request.ticks_per_quarter in
    let sounds =
      All-sort (on (λ (event : SourceMidiEvent). event.capture_time_ns) by_number) IsSound
        request.source_events (check_source_events-All request.source_events sound) in
    let (s, loop, ready, held) =
      import_loop-total request.capture_origin_ns ppq request.tempo_microseconds_per_quarter
        (resolution-pos request.ticks_per_quarter) positive start_state events (sort-IsSorted _ _)
        (distinct_by_time request.source_events ∙ distinct) sounds (nothing_open events) tt
        (tt, tt) in
    let (outcome, finished) = finish-total request.source_events s ready held in
    (outcome, rw loop finished)
  where
    distinct_by_time :
        (events : List SourceMidiEvent)
        → all_distinct (map (λ (event : SourceMidiEvent). event.source_event_id) (by_time events))
          ≡ all_distinct (map (λ (event : SourceMidiEvent). event.source_event_id) events)
    distinct_by_time events =
        ∥∥₁_elim
          (sort-perm (on (λ (event : SourceMidiEvent). event.capture_time_ns) by_number) events)
          (Bool-set _ _) (all_distinct-permᴰ (λ (event : SourceMidiEvent). event.source_event_id))

    resolution-pos : (n : Option ℕ) → 0 < resolution n
    resolution-pos n = ground arith

    nothing_open :
        (events : List SourceMidiEvent)
        → All (λ event. AllOpen (Waits request.capture_origin_ns event) []) events
    nothing_open [] = tt
    nothing_open (event ∷ rest) = (tt, nothing_open rest)
