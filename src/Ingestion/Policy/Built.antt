-- ===== src/Ingestion/Policy/Built.antt =====
-- What the checked constructors in core/ingestion/policies.py let through.
use master_all_strings.Prelude.{
  ℕ, ◌≡◌, refl, arith, List, [], ◌∷◌, ◌++◌, none, ok, >>=-elim, ok-injective, sym,
}
use master_all_strings.Prelude.Int.{pos}
use master_all_strings.Prelude.Text.{Str, codes}
use master_all_strings.Prelude.Float.{zero_float}
use master_all_strings.Events.{MusicalEvent, new_musical_event}
use master_all_strings.Score.Provenance.{check_event_provenance, require_all_identifiers}
use master_all_strings.Score.Timing.{TickConversion}
use master_all_strings.Score.Errors.{as_musical}
use master_all_strings.Ingestion.Contracts.{
  SourceMidiEvent, Rejection, RejectionReason, WarningCode, ImportOutcome,
}
use master_all_strings.Ingestion.Policy.{reject, State, warn_of, reject_open, open_ids, finish}
use master_all_strings.Ingestion.Conversion.{
  Converted, note, as_provenance, evidence, build_note, rejection,
}

pub as_musical-ok {ℓ} : {A : Type ℓ} (r : _) {x : A} → as_musical r ≡ ok x → r ≡ ok x
unfolding as_musical
as_musical-ok r h = ground arith

pub build_note-ok :
    (onset release : SourceMidiEvent) (ppq mpq : ℕ) (start duration : TickConversion)
    {c : Converted}
    → build_note onset release ppq mpq start duration ≡ ok c
    → (e : MusicalEvent) × (new_musical_event
          (codes "ev-" ++ onset.source_event_id)
          (pos onset.midi_note)
          start.ticks
          duration.ticks
          (pos onset.velocity)
          zero_float
          none
        ≡ ok e)
      × (c ≡ note e (evidence onset release ppq mpq start duration))
unfolding build_note
build_note-ok onset release ppq mpq start duration h =
    >>=-elim
      (as_musical (
        new_musical_event (codes "ev-" ++ onset.source_event_id) (pos onset.midi_note) start.ticks
          duration.ticks (pos onset.velocity) zero_float none))
      _ h
      (λ e made rest.
        >>=-elim
          (check_event_provenance (as_provenance (evidence onset release ppq mpq start duration))) _
          rest (λ _ _ done. (e, as_musical-ok _ made, sym (ok-injective done))))

pub rejection-ok :
    (reason : RejectionReason) (ids : List Str) {r : Rejection}
    → rejection reason ids ≡ ok r
    → r ≡ record { reason = reason; source_event_ids = ids }
unfolding rejection
rejection-ok reason ids h =
    >>=-elim (require_all_identifiers ids "source_event_ids entry") _ h
      (λ _ _ done. sym (ok-injective done))

pub reject-ok :
    (reason : RejectionReason) (ids : List Str) (s : State) {s' : State}
    → reject reason ids s ≡ ok s'
    → s' ≡ record s {
      rejections = s.rejections ++ record { reason = reason; source_event_ids = ids } ∷ [];
    }
unfolding reject
reject-ok reason ids s h =
    >>=-elim (rejection reason ids) _ h
      (λ r made done. let is = rejection-ok reason ids made in rw (← ok-injective done, is) refl)

pub finish-ok :
    (events : List SourceMidiEvent) (s : State) {o : ImportOutcome}
    → finish events s ≡ ok o
    → (rs : List Rejection) × (reject_open (open_ids s.open_notes) ≡ ok rs)
      × (o.events ≡ s.events)
      × (o.event_provenance ≡ s.provenance)
      × (o.rejections ≡ s.rejections ++ rs)
unfolding finish
finish-ok events s h = >>=-elim (reject_open (open_ids s.open_notes)) _ h (λ rs opened h1.
    >>=-elim (warn_of WarningCode.source_string_unresolved s.unresolved_string_ids) _ h1 (λ _ _ h2.
      >>=-elim (warn_of WarningCode.rounding_applied s.rounded_source_ids) _ h2 (λ _ _ done. (
        rs,
        opened,
        rw (← ok-injective done) refl,
        rw (← ok-injective done) refl,
        rw (← ok-injective done) refl,
      ))))
