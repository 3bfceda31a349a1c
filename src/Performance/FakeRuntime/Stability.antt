-- ===== src/Performance/FakeRuntime/Stability.antt =====
-- What an invariant of the runtime's captures has to survive, and the methods that leave them alone.
pub mod Captures
pub mod Feeding
pub mod Methods
use Prim.Native.String.{String}
use master_all_strings.Prelude.{
  subst, All, sym, ◌∙◌, ok-injective, ap, ℕ, suc, List, [], ◌∷◌, map, Bool, true, false, not,
  Option, none, some, Result, ok, err, require, ◌≡◌, refl, inl, inr, Bool-cases, Option-cases,
  Str_eq, contains, if◌then◌else◌, arith, nat_eq, ltb, ◌+◌, ◌/◌,
}
use master_all_strings.Prelude.Action.{
  Action, ◌>>=◌, ◌>>◌, return, raise, self, modify, lift, after, Keeps, Keeps->>=, Keeps-option,
  Keeps-bool, Keeps-if, leads->>=, leads-lift, after-leads,
}
use master_all_strings.Prelude.Dict.{Dict, get, put}
use master_all_strings.Prelude.Int.{ℤ, pos}
use master_all_strings.Prelude.Text.{Str, codes, str_eq, str_eq_sound}
use master_all_strings.Performance.Errors.{
  PerformanceError, Iso8601, clock_past_midnight, missing_key, no_active_capture, runtime_crashed,
  require_identifier, require_utc_timestamp,
}
use master_all_strings.Performance.Runtimes.{
  RuntimeIdentity, RuntimeFault, FaultCode, invalid_state, failed, Detail, is_ready, new_fault,
  is_off, check_runtime_readiness, new_health, is_failed,
}
use master_all_strings.Performance.Sessions.{
  SessionConfig, TransportMode, recording, stopped, LoopRegion, Meter,
}
use master_all_strings.Performance.Capture.{
  Capture, CapturedEvent, CompletionState, complete, cancelled, CaptureSource, MidiEventType,
  note_on, note_off, build_raw_capture, append_events, close_capture, new_event,
  mark_capture_interrupted,
}
use master_all_strings.Performance.CommandResults.{
  CommandResult, CaptureResult, new_command_result, new_capture_result,
}
use master_all_strings.Performance.FakeRuntime.{
  FakeRuntime, SessionRecord, Method, now, identity, next_fault, success, failure, capture_failure,
  stored, store, set_state, set_session, with_session, sounding, interruption_warning, fake_source,
}
use master_all_strings.Performance.FakeRuntime.Capturing as Capturing
use master_all_strings.Performance.FakeRuntime.Lifecycle as Lifecycle
use master_all_strings.Performance.FakeRuntime.Feed as Feed
use master_all_strings.Performance.FakeRuntime.Health as Health
use master_all_strings.Performance.FakeRuntime.Operations.{Operation, run, run_all, discard_result}

-- A predicate on the captures, the active one and the next sequence number.
abbrev pub CapturePredicate : Type 1
CapturePredicate = Dict Str Capture → Option Str → ℕ → Type 0

abbrev pub On : CapturePredicate → FakeRuntime → Type 0
On P r = P r.captures r.active_capture_id r.sequence

-- The four ways in which the captures change: one is opened under an id that is `Allowed`, the
-- active one is closed, it gets an event, and a sequence number is used up.
pub record Stable ⦃iso : Iso8601⦄ (P : CapturePredicate) (Allowed : Str → Type 0) : Type 0 where
  pub opens :
      (captures : Dict Str Capture) (sequence : ℕ) (id session_id started_at : Str)
      (who : RuntimeIdentity) (source : CaptureSource) (tempo : ℕ) (meter : Meter)
      (provenance : List (Str × Str)) (c : Capture)
      → Allowed id
      → P captures none sequence
      → build_raw_capture id session_id who source started_at tempo meter provenance ≡ ok c
      → P (put id c captures) (some id) sequence
  pub closes :
      (captures : Dict Str Capture) (sequence : ℕ) (id : Str) (c d : Capture) (ended_at : Str)
      (state : CompletionState) (faults : List RuntimeFault) (warnings : List Str)
      → P captures (some id) sequence
      → get id captures ≡ some c
      → close_capture c ended_at state faults warnings ≡ ok d
      → P (put id d captures) none sequence
  pub grows :
      (captures : Dict Str Capture) (sequence : ℕ) (id : Str) (c d : Capture)
      (event : CapturedEvent)
      → P captures (some id) sequence
      → get id captures ≡ some c
      → event.sequence_number ≡ sequence
      → append_events c (event ∷ []) ≡ ok d
      → P (put id d captures) (some id) (suc sequence)
  pub skips :
      (captures : Dict Str Capture) (active : Option Str) (sequence : ℕ)
      → P captures active sequence
      → P captures active (suc sequence)

-- The id under which a call opens a capture.
abbrev pub opened_id : Operation → Option Str
opened_id (Operation.start_capture _ id _) = some id
opened_id _ = none

abbrev pub AllowedId : (Str → Type 0) → Option Str → Type 0
AllowedId Allowed none = Unit
AllowedId Allowed (some id) = Allowed id

-- A call opens a capture only under an id that is allowed.
abbrev pub Respects : (Str → Type 0) → Operation → Type 0
Respects Allowed operation = AllowedId Allowed (opened_id operation)

module _ ⦃iso : Iso8601⦄ (P : CapturePredicate) where
  pub now-Keeps : Keeps (On P) now
  unfolding now
  now-Keeps s h = elim (Bool-cases (ltb 23 (10 + s.clock_tick / 3600))) [
    | inl e ↦ rw e h
    | inr e ↦ rw e h
  ]

  pub identity-Keeps : Keeps (On P) identity
  unfolding identity
  identity-Keeps s h = h

  pub next_fault-Keeps :
      (code : FaultCode) (subsystem : String) (detail : Detail) (recoverable : Bool)
      → Keeps (On P) (next_fault code subsystem detail recoverable)
  unfolding next_fault
  next_fault-Keeps code subsystem detail recoverable s h =
      Keeps->>= (On P) now _ now-Keeps (λ time t i. i) _ h

  pub success-Keeps : (command : String) → Keeps (On P) (success command)
  unfolding success
  success-Keeps command s h = Keeps->>= (On P) now _ now-Keeps (λ time t i. i) _ h

  pub failure-Keeps :
      (command : String) (code : FaultCode) (subsystem : String) (detail : Detail)
      → Keeps (On P) (failure command code subsystem detail)
  unfolding failure
  failure-Keeps command code subsystem detail s h =
      Keeps->>= (On P) now _ now-Keeps
        (λ time.
          Keeps->>= (On P) (next_fault code subsystem detail true) _
            (next_fault-Keeps code subsystem detail true) (λ fault t i. i))
        _ h

  pub with_session-Keeps :
      (command : String) (body : SessionRecord → Method CommandResult)
      → ((session : SessionRecord) → Keeps (On P) (body session))
      → Keeps (On P) (with_session command body)
  with_session-Keeps command body hb s h =
      Keeps-option (On P) s.session (failure command _ _ _) body (failure-Keeps command _ _ _) hb s
        h

  pub stored_from :
      {B : Type 0} (f : Capture → Method B) (s : FakeRuntime) (o : Option Capture)
      → On P s
      → ((c : Capture) → o ≡ some c → On P (f c s).1)
      → On P
          (after
            ((elim o as (λ _. Method Capture) [
              | none ↦ raise missing_key
              | some capture ↦ return capture
            ])
              s).0
            ((elim o as (λ _. Method Capture) [
              | none ↦ raise missing_key
              | some capture ↦ return capture
            ])
              s).1
            f).1
  stored_from f s none j h = j
  stored_from f s (some c) j h = h c refl

  -- A stored capture is read with the equation that found it.
  pub leads-stored :
      {B : Type 0} (id : Str) (f : Capture → Method B) (s : FakeRuntime)
      → On P s
      → ((c : Capture) → get id s.captures ≡ some c → On P (f c s).1)
      → On P ((stored id >>= f) s).1
  unfolding stored
  leads-stored id f s j h = stored_from f s (get id s.captures) j h

-- A capture was found under the active id.
abbrev pub Found : CapturePredicate → Str → Capture → CapturePredicate
Found P id c captures active sequence =
    P captures active sequence × (active ≡ some id) × (get id captures ≡ some c)

-- No capture is active.
abbrev pub Idle : CapturePredicate → CapturePredicate
Idle P captures active sequence = P captures active sequence × (active ≡ none)
