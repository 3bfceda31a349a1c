-- ===== src/Performance/FakeRuntime/Verdicts.antt =====
-- performance/adapters/fake_runtime.py: the readiness verdicts in terms of the runtime's state.
use Prim.Native.String.{String}
use master_all_strings.Prelude.{
  List, [], ◌∷◌, ◌++◌, Bool, true, false, not, ◌&&◌, Option, none, some, ok, ◌≡◌, refl, subst, sym,
  arith,
}
use master_all_strings.Prelude.Action.{◌>>=◌, lift, Returns, Returns->>=}
use master_all_strings.Prelude.Text.{Str}
use master_all_strings.Performance.Errors.{Iso8601}
use master_all_strings.Performance.Runtimes.{
  RuntimeState, is_ready, is_off, FaultCode, midi_input_missing, audio_output_missing,
  synth_load_failed, Detail, RuntimeFault, RuntimeHealth, new_health, RuntimeReadiness,
  new_readiness, check_runtime_readiness, is_empty, infrastructure_blocking, session_blocking,
}
use master_all_strings.Performance.FakeRuntime.{FakeRuntime, SessionRecord, Method, now, next_fault}
use master_all_strings.Performance.FakeRuntime.Health.{
  health, readiness, scenario_fault, reported_state, report, off_report,
}

abbrev pub has_session : Option SessionRecord → Bool
has_session none = false
has_session (some _) = true

-- Ready, and with nothing missing.
abbrev pub is_healthy : FakeRuntime → Bool
is_healthy r =
    is_ready r.state
    && (not r.scenario.midi_input_absent
        && (not r.scenario.audio_output_absent && not r.scenario.synth_load_fails))

-- What a report says of the verdicts.
abbrev Reports : FakeRuntime → RuntimeHealth → FakeRuntime → Type 0
Reports r h _ =
    ((is_empty (infrastructure_blocking h) && is_ready h.state) ≡ is_healthy r)
    × ((is_healthy r && is_empty (session_blocking h)) ≡ (is_healthy r && has_session r.session))

reported-is_ready :
    (state : RuntimeState) (midi audio synth : List RuntimeFault)
    → is_ready (reported_state state (midi ++ audio ++ synth))
      ≡ (is_ready state && (is_empty midi && (is_empty audio && is_empty synth)))
reported-is_ready state [] [] [] = ground arith
reported-is_ready state [] [] (_ ∷ _) = ground arith
reported-is_ready state [] (_ ∷ _) synth = ground arith
reported-is_ready state (_ ∷ _) audio synth = ground arith

module _ ⦃iso : Iso8601⦄ where
  new_health-same : (h built : RuntimeHealth) → new_health h ≡ ok built → built ≡ h
  unfolding new_health
  new_health-same h built made = ground arith

  new_readiness-same : (r built : RuntimeReadiness) → new_readiness r ≡ ok built → built ≡ r
  unfolding new_readiness
  new_readiness-same r built made = ground arith

  scenario_fault-Returns :
      (b : Bool) (code : FaultCode) (subsystem : String) (detail : Detail) (recoverable : Bool)
      (s : FakeRuntime)
      → Returns (λ l _. is_empty l ≡ not b) (scenario_fault b code subsystem detail recoverable) s
  scenario_fault-Returns false code subsystem detail recoverable s = λ l e. ground arith
  scenario_fault-Returns true code subsystem detail recoverable s =
      Returns->>= (λ l _. is_empty l ≡ false) (next_fault code subsystem detail recoverable) _ s
        (λ fault _ l e. ground arith)

  off-Reports :
      (s : FakeRuntime) (time : Str) (t : FakeRuntime)
      → is_off s.state ≡ true
      → Reports s (off_report s time) t
  unfolding infrastructure_blocking session_blocking
  off-Reports s time t e = (ground (arith, e), ground (arith, e))

  report-Reports :
      (s : FakeRuntime) (midi audio synth : List RuntimeFault) (time : Str) (t : FakeRuntime)
      → is_empty midi ≡ not s.scenario.midi_input_absent
      → is_empty audio ≡ not s.scenario.audio_output_absent
      → is_empty synth ≡ not s.scenario.synth_load_fails
      → Reports s (report s (midi ++ audio ++ synth) time) t
  unfolding infrastructure_blocking session_blocking
  report-Reports s midi audio synth time t m a y = (
    ground (arith, reported-is_ready s.state midi audio synth),
    ground (arith, reported-is_ready s.state midi audio synth),
  )

  health_from :
      (s : FakeRuntime) (b : Bool)
      → is_off s.state ≡ b
      → Returns
          (Reports s)
          (elim b as (λ _. Method RuntimeHealth) [
            | true ↦ do time ← now; lift (new_health (off_report s time))
            | false ↦ do
              midi ←
                  scenario_fault s.scenario.midi_input_absent midi_input_missing "midi_input"
                    Detail.no_midi_input true
              audio ←
                  scenario_fault s.scenario.audio_output_absent audio_output_missing "audio_output"
                    Detail.no_audio_output true
              synth ←
                  scenario_fault s.scenario.synth_load_fails synth_load_failed "synth"
                    Detail.synth_failed false
              time ← now
              lift (new_health (report s (midi ++ audio ++ synth) time))
          ])
          s
  health_from s true e = Returns->>= (Reports s) now _ s (λ time _ h made.
      subst (λ x. Reports s x s) (sym (new_health-same _ h made)) (off-Reports s time s e))
  health_from s false e =
      Returns->>= (Reports s) (scenario_fault s.scenario.midi_input_absent _ _ _ _) _ s (λ midi m.
        Returns->>= (Reports s) (scenario_fault s.scenario.audio_output_absent _ _ _ _) _ _
          (λ audio a.
            Returns->>= (Reports s) (scenario_fault s.scenario.synth_load_fails _ _ _ _) _ _
              (λ synth y. Returns->>= (Reports s) now _ _ (λ time _ h made.
                subst (λ x. Reports s x s) (sym (new_health-same _ h made))
                  (report-Reports s midi audio synth time s
                    (scenario_fault-Returns _ _ _ _ _ _ midi m)
                    (scenario_fault-Returns _ _ _ _ _ _ audio a)
                    (scenario_fault-Returns _ _ _ _ _ _ synth y))))))

  health-Returns : (s : FakeRuntime) → Returns (Reports s) health s
  unfolding health
  health-Returns s = health_from s (is_off s.state) refl

  -- When `readiness` returns, its first verdict is that the runtime's state is ready and its scenario
  -- lacks no MIDI input, audio output or synth, and its second verdict is that there also is a session.
  pub readiness-verdicts :
      (s : FakeRuntime) (r : RuntimeReadiness)
      → (readiness s).0 ≡ ok r
      → (r.is_usable ≡ is_healthy s) × (r.capture_ready ≡ (is_healthy s && has_session s.session))
  unfolding readiness check_runtime_readiness
  readiness-verdicts s =
      Returns->>=
        (λ r _.
          (r.is_usable ≡ is_healthy s)
          × (r.capture_ready ≡ (is_healthy s && has_session s.session)))
        health _ s
        (λ h reported r made.
          ground (arith, health-Returns s h reported, new_readiness-same _ r made))
