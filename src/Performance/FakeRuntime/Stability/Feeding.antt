-- ===== src/Performance/FakeRuntime/Stability/Feeding.antt =====
-- Events that arrive keep a stable property.
use master_all_strings.Prelude.{
  subst, sym, ◌∙◌, ap, suc, List, [], ◌∷◌, Bool, not, Option, none, some, ok, require, ◌≡◌, refl,
  Str_eq, arith,
}
use master_all_strings.Prelude.Action.{
  ◌>>=◌, ◌>>◌, raise, modify, lift, Keeps, Keeps->>=, leads-lift,
}
use master_all_strings.Prelude.Dict.{put}
use master_all_strings.Prelude.Int.{ℤ, pos}
use master_all_strings.Prelude.Text.{Str}
use master_all_strings.Performance.Errors.{Iso8601, no_active_capture, runtime_crashed}
use master_all_strings.Performance.Capture.{
  CapturedEvent, MidiEventType, note_on, note_off, append_events, new_event,
}
use master_all_strings.Performance.FakeRuntime.{
  FakeRuntime, SessionRecord, Method, stored, store, set_session,
}
use master_all_strings.Performance.FakeRuntime.Feed as Feed
use master_all_strings.Performance.FakeRuntime.Stability.{
  Stable, CapturePredicate, On, leads-stored,
}

new_event-same :
    (event : CapturedEvent) {built : CapturedEvent} → new_event event ≡ ok built → built ≡ event
unfolding new_event
new_event-same event h = ground arith

module _ ⦃iso : Iso8601⦄ (P : CapturePredicate) (Allowed : Str → Type 0)
    (stable : Stable P Allowed) where
  pub skipped : (s : FakeRuntime) → On P s → On P (record s { sequence = suc s.sequence })
  skipped s h = stable.skips s.captures s.active_capture_id s.sequence h

  -- An event that arrives while a capture is active.
  pub fed_active :
      (crashing : Bool) (id : Str) (event : CapturedEvent) (s : FakeRuntime)
      → s.active_capture_id ≡ some id
      → event.sequence_number ≡ s.sequence
      → On P s
      → On P
          ((do
            lift (require (not crashing) runtime_crashed)
            capture ← stored id
            modify (λ r. record r { sequence = suc r.sequence })
            accepted ← lift (new_event event)
            grown ← lift (append_events capture (accepted ∷ []))
            modify (store id grown))
            s).1
  fed_active crashing id event s e n h =
      leads-lift (On P) (require (not crashing) runtime_crashed) _ s h (λ _ _.
        leads-stored P id _ s h (λ c found.
          leads-lift (On P) (new_event event) _ _ (skipped s h) (λ accepted built.
            leads-lift (On P) (append_events c (accepted ∷ [])) _ _ (skipped s h) (λ d grown.
              subst (λ a. P (put id d s.captures) a (suc s.sequence)) (sym e)
                (stable.grows s.captures s.sequence id c d accepted
                  (subst (λ a. P s.captures a s.sequence) e h) found
                  (ap (λ x. x.sequence_number) (new_event-same event built) ∙ n) grown)))))

  pub fed_from :
      (event_type : MidiEventType) (channel : ℤ)
      (time pitch velocity controller value bend string : Option ℤ) (s : FakeRuntime)
      (o : Option Str)
      → s.active_capture_id ≡ o
      → On P s
      → On P
          ((elim o as (λ _. Method (Unit {0})) [
            | none ↦ raise no_active_capture
            | some id ↦ do
              lift (require (not s.scenario.crash_during_capture) runtime_crashed)
              capture ← stored id
              modify (λ r. record r { sequence = suc r.sequence })
              event ← lift (
                  new_event (
                    Feed.next_event s.sequence event_type channel time pitch velocity controller
                      value bend string))
              grown ← lift (append_events capture (event ∷ []))
              modify (store id grown)
          ])
            s).1
  fed_from event_type channel time pitch velocity controller value bend string s none e h = h
  fed_from event_type channel time pitch velocity controller value bend string s (some id) e h =
      fed_active s.scenario.crash_during_capture id _ s e refl h

  pub feed-Keeps :
      (event_type : MidiEventType) (channel : ℤ)
      (time note velocity controller value bend string : Option ℤ)
      → Keeps (On P) (Feed.feed event_type channel time note velocity controller value bend string)
  unfolding Feed.feed
  feed-Keeps event_type channel time note velocity controller value bend string s h =
      fed_from event_type channel time note velocity controller value bend string s
        s.active_capture_id refl h

  pub noted_from :
      (f : List (ℤ × ℤ) → List (ℤ × ℤ)) (s : FakeRuntime) (o : Option SessionRecord)
      → On P s
      → On P (elim o as (λ _. FakeRuntime) [
        | none ↦ s
        | some session ↦
            set_session (some (record session { sounding_notes = f session.sounding_notes })) s
      ])
  noted_from f s none h = h
  noted_from f s (some session) h = h

  pub silenced :
      (s : FakeRuntime) (o : Option SessionRecord)
      → On P s
      → On P (elim o as (λ _. FakeRuntime) [
        | none ↦ s
        | some session ↦ set_session (some (record session { sounding_notes = [] })) s
      ])
  silenced s none h = h
  silenced s (some session) h = h

  pub with_notes-On :
      (f : List (ℤ × ℤ) → List (ℤ × ℤ)) (s : FakeRuntime) → On P s → On P (Feed.with_notes f s)
  with_notes-On f s h = noted_from f s s.session h

  pub feed_note_on-Keeps :
      (note velocity channel : ℤ) (time string : Option ℤ)
      → Keeps (On P) (Feed.feed_note_on note velocity channel time string)
  unfolding Feed.feed_note_on
  feed_note_on-Keeps note velocity channel time string s h =
      Keeps->>= (On P)
        (Feed.feed note_on channel time (some note) (some velocity) none none none string) _
        (feed-Keeps _ _ _ _ _ _ _ _ _) (λ _ t i. with_notes-On _ t i) s h

  pub feed_note_off-Keeps :
      (note channel : ℤ) (time string : Option ℤ)
      → Keeps (On P) (Feed.feed_note_off note channel time string)
  unfolding Feed.feed_note_off
  feed_note_off-Keeps note channel time string s h =
      Keeps->>= (On P)
        (Feed.feed note_off channel time (some note) (some (pos 0)) none none none string) _
        (feed-Keeps _ _ _ _ _ _ _ _ _) (λ _ t i. with_notes-On _ t i) s h

  pub feed_control_change-Keeps :
      (controller value channel : ℤ) (time : Option ℤ)
      → Keeps (On P) (Feed.feed_control_change controller value channel time)
  unfolding Feed.feed_control_change
  feed_control_change-Keeps controller value channel time = feed-Keeps _ _ _ _ _ _ _ _ _

  pub feed_pitch_bend-Keeps :
      (bend channel : ℤ) (time : Option ℤ) → Keeps (On P) (Feed.feed_pitch_bend bend channel time)
  unfolding Feed.feed_pitch_bend
  feed_pitch_bend-Keeps bend channel time = feed-Keeps _ _ _ _ _ _ _ _ _
