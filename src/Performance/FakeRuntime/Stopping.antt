-- ===== src/Performance/FakeRuntime/Stopping.antt =====
-- performance/adapters/fake_runtime.py: what a `stop` that returns leaves behind.
use Prim.Native.String.{String}
use master_all_strings.Prelude.{
  ℕ, ◌+◌, ◌/◌, List, Bool, true, Option, none, some, ok, ◌≡◌, refl, Str_eq, arith, inl, inr,
  Bool-cases, ltb,
}
use master_all_strings.Prelude.Action.{◌>>=◌, return, lift, Keeps, Returns, Returns->>=, Keeps->>=}
use master_all_strings.Prelude.Dict.{get}
use master_all_strings.Prelude.Text.{Str}
use master_all_strings.Performance.Errors.{Iso8601}
use master_all_strings.Performance.Runtimes.{off, FaultCode, Detail, RuntimeFault}
use master_all_strings.Performance.Capture.{Capture, is_closed, mark_capture_interrupted}
use master_all_strings.Performance.CommandResults.{CommandResult}
use master_all_strings.Performance.FakeRuntime.{
  FakeRuntime, Method, Scenario, new_fake_runtime, now, next_fault, success, stored,
}
use master_all_strings.Performance.FakeRuntime.Capturing.{
  close_active, close_interrupted, interrupt_active_capture,
}
use master_all_strings.Performance.FakeRuntime.Lifecycle.{stop, interrupt_if_active}
use master_all_strings.Performance.FakeRuntime.Operations.{Operation, run_all}
use master_all_strings.Performance.FakeRuntime.Stability.{On}
use master_all_strings.Performance.FakeRuntime.Stability.Methods.{stop-Keeps}
use master_all_strings.Performance.FakeRuntime.Evidence.{
  Tracked, Tracked-Stable, Anywhere, run_all-Tracked,
}

-- No capture is active.
abbrev IsIdle : FakeRuntime → Type 0
IsIdle r = r.active_capture_id ≡ none

-- The runtime is off, without a session, and every stored capture is closed.
pub record IsStopped (r : FakeRuntime) : Type 0 where
  pub is_off : r.state ≡ off
  pub has_no_session : r.session ≡ none
  pub is_idle : r.active_capture_id ≡ none
  pub all_closed : (id : Str) (c : Capture) → get id r.captures ≡ some c → is_closed c ≡ true

-- The fields that `stop` clears.
abbrev IsCleared : FakeRuntime → Type 0
IsCleared r = (r.state ≡ off) × (r.session ≡ none) × (r.active_capture_id ≡ none)

module _ ⦃iso : Iso8601⦄ where
  now-IsCleared : Keeps IsCleared now
  unfolding now
  now-IsCleared s h = elim (Bool-cases (ltb 23 (10 + s.clock_tick / 3600))) [
    | inl e ↦ rw e h
    | inr e ↦ rw e h
  ]

  success-IsCleared : (command : String) → Keeps IsCleared (success command)
  unfolding success
  success-IsCleared command s h = Keeps->>= IsCleared now _ now-IsCleared (λ time t i. i) _ h

  close_interrupted-IsIdle :
      (id : Str) (fault : RuntimeFault) (s : FakeRuntime)
      → Returns (λ _. IsIdle) (close_interrupted id fault) s
  unfolding close_interrupted
  close_interrupted-IsIdle id fault s =
      Returns->>= (λ _. IsIdle) (stored id) _ s
        (λ c _.
          Returns->>= (λ _. IsIdle) now _ _
            (λ time _.
              Returns->>= (λ _. IsIdle) (lift (mark_capture_interrupted c time fault _)) _ _
                (λ closed _ _ _. refl)))

  closed_from :
      (fault : RuntimeFault) (s : FakeRuntime) (o : Option Str)
      → s.active_capture_id ≡ o
      → Returns
          (λ _. IsIdle)
          (elim o as (λ _. Method (Unit {0})) [
            | none ↦ return tt
            | some id ↦ close_interrupted id fault
          ])
          s
  closed_from fault s none e = λ _ _. e
  closed_from fault s (some id) e = close_interrupted-IsIdle id fault s

  close_active-IsIdle :
      (fault : RuntimeFault) (s : FakeRuntime) → Returns (λ _. IsIdle) (close_active fault) s
  unfolding close_active
  close_active-IsIdle fault s = closed_from fault s s.active_capture_id refl

  interrupt-IsIdle :
      (code : FaultCode) (detail : Detail) (recoverable : Bool) (s : FakeRuntime)
      → Returns (λ _. IsIdle) (interrupt_active_capture code detail recoverable) s
  unfolding interrupt_active_capture
  interrupt-IsIdle code detail recoverable s =
      Returns->>= (λ _. IsIdle) (next_fault code "process" detail recoverable) _ s
        (λ fault _.
          Returns->>= (λ _. IsIdle) (close_active fault) _ _
            (λ u e _ _. close_active-IsIdle fault _ u e))

  interrupted_from :
      (code : FaultCode) (s : FakeRuntime) (o : Option Str)
      → s.active_capture_id ≡ o
      → Returns
          (λ _. IsIdle)
          (elim o as (λ _. Method (Unit {0})) [
            | none ↦ return tt
            | some _ ↦
                interrupt_active_capture code Detail.stopped_while_active true >>= λ _. return tt
          ])
          s
  interrupted_from code s none e = λ _ _. e
  interrupted_from code s (some id) e =
      Returns->>= (λ _. IsIdle) (interrupt_active_capture code Detail.stopped_while_active true) _ s
        (λ fault made _ _. interrupt-IsIdle code Detail.stopped_while_active true s fault made)

  interrupt_if_active-IsIdle :
      (force : Bool) (s : FakeRuntime) → Returns (λ _. IsIdle) (interrupt_if_active force) s
  unfolding interrupt_if_active
  interrupt_if_active-IsIdle force s = interrupted_from _ s s.active_capture_id refl

  stop-IsCleared : (force : Bool) (s : FakeRuntime) → Returns (λ _. IsCleared) (stop force) s
  unfolding stop
  stop-IsCleared force s =
      Returns->>= (λ _. IsCleared) (interrupt_if_active force) _ s
        (λ u made result _.
          success-IsCleared "stop" _ (refl, refl, interrupt_if_active-IsIdle force s u made))

  -- A new runtime after a sequence of calls.
  abbrev pub after_calls : Scenario → Str → Str → ℕ → List Operation → FakeRuntime
  after_calls scenario runtime_id date origin operations =
      run_all operations (new_fake_runtime scenario runtime_id origin date)

  -- After any sequence of calls on a new runtime, a `stop` that returns leaves the runtime off, with
  -- no session and no active capture, and with every stored capture closed.
  pub stop-IsStopped :
      (scenario : Scenario) (runtime_id date : Str) (origin : ℕ) (operations : List Operation)
      (force : Bool) (result : CommandResult)
      → (stop force (after_calls scenario runtime_id date origin operations)).0 ≡ ok result
      → IsStopped (stop force (after_calls scenario runtime_id date origin operations)).1
  stop-IsStopped scenario runtime_id date origin operations force result stopped =
      let r = after_calls scenario runtime_id date origin operations in
      let cleared : IsCleared (stop force r).1 = stop-IsCleared force r result stopped in
      let tracked : On Tracked (stop force r).1 =
        stop-Keeps Tracked Anywhere Tracked-Stable force r
          (run_all-Tracked scenario runtime_id date origin operations) in
      record {
        is_off = cleared.0;
        has_no_session = cleared.1;
        is_idle = cleared.2;
        all_closed = λ id c found. elim (Bool-cases (is_closed c)) [
          | inl closed ↦ closed
          | inr recording ↦ ground (arith, tracked.open_is_active id c found recording, cleared.2)
        ];
      }
