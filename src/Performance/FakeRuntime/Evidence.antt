-- ===== src/Performance/FakeRuntime/Evidence.antt =====
-- performance/adapters/fake_runtime.py: what holds of the captures after any sequence of calls.
use master_all_strings.Prelude.{
  ℕ, suc, ◌<◌, List, [], ◌∷◌, ◌++◌, true, false, Option, none, some, ok, ◌≡◌, refl, sym, ap, ◌∙◌,
  subst, inl, inr, Bool-cases, Str_eq, if◌then◌else◌, arith, All, All-append, All-imp,
}
use mathlib.Core.List.{append-nil, append_assoc}
use master_all_strings.Prelude.Dict.{Dict, get, put, get-put, get-put_self, get-put_ne}
use master_all_strings.Prelude.Int.{leb_ℤ}
use master_all_strings.Prelude.Text.{Str, str_eq, str_eq_sound, str_eq_refl}
use master_all_strings.Performance.Errors.{Iso8601}
use master_all_strings.Performance.Runtimes.{RuntimeIdentity, RuntimeFault}
use master_all_strings.Performance.Sessions.{Meter}
use master_all_strings.Performance.Capture.{
  Capture, CapturedEvent, CaptureSource, CompletionState, is_closed, new_capture, build_raw_capture,
  append_events, close_capture, validate_events, check_order,
}
use master_all_strings.Performance.FakeRuntime.{FakeRuntime, new_fake_runtime, Scenario}
use master_all_strings.Performance.FakeRuntime.Operations.{Operation, run_all}
use master_all_strings.Performance.FakeRuntime.Stability.{
  CapturePredicate, On, Stable, Respects, AllowedId, opened_id,
}
use master_all_strings.Performance.FakeRuntime.Stability.Methods.{run_all-Keeps}

module _ ⦃iso : Iso8601⦄ where
  new_capture-same : (c d : Capture) → new_capture c ≡ ok d → d ≡ c
  unfolding new_capture
  new_capture-same c d h = ground arith

  pub build_is_open :
      (id session_id time : Str) (who : RuntimeIdentity) (source : CaptureSource) (tempo : ℕ)
      (meter : Meter) (provenance : List (Str × Str)) {c : Capture}
      → build_raw_capture id session_id who source time tempo meter provenance ≡ ok c
      → is_closed c ≡ false
  unfolding build_raw_capture
  build_is_open id session_id time who source tempo meter provenance h =
      ap is_closed (new_capture-same _ _ h)

  close_is_closed :
      (c : Capture) (time : Str) (state : CompletionState) (faults : List RuntimeFault)
      (warnings : List Str) {d : Capture}
      → close_capture c time state faults warnings ≡ ok d
      → (is_closed c ≡ false) × (is_closed d ≡ true) × (d.events ≡ c.events)
  unfolding close_capture
  close_is_closed c time state faults warnings {d = d} h = ground (
    arith,
    new_capture-same
        (record c {
          completion_state = state;
          ended_at = some time;
          faults = c.faults ++ faults;
          warnings = c.warnings ++ warnings;
        })
        d,
  )

  append_is_open :
      (c : Capture) (events : List CapturedEvent) {d : Capture}
      → append_events c events ≡ ok d
      → (is_closed c ≡ false) × (is_closed d ≡ false) × (d.events ≡ c.events ++ events)
  unfolding append_events
  append_is_open c events {d = d} h =
      ground (arith, new_capture-same (record c { events = c.events ++ events }) d)

some_injective : {A : Type 0} {a b : A} → ◌≡◌ {A = Option A} (some a) (some b) → a ≡ b
some_injective h = cc

-- A capture is in progress exactly when it is the active one.
pub record Tracked (captures : Dict Str Capture) (active : Option Str) (sequence : ℕ) : Type 0 where
  pub open_is_active :
      (id : Str) (c : Capture) → get id captures ≡ some c → is_closed c ≡ false → active ≡ some id
  pub active_is_open :
      (id : Str)
      → active ≡ some id
      → (c : Capture) × (get id captures ≡ some c) × (is_closed c ≡ false)

abbrev pub Anywhere : Str → Type 0
Anywhere id = Unit

module _ ⦃iso : Iso8601⦄ where
  pub Tracked-Stable : Stable Tracked Anywhere
  Tracked-Stable = record {
    opens =
        λ captures sequence id session_id time who source tempo meter provenance c _ tracked built.
          record {
            open_is_active = λ j d found recording.
                ground
                  (arith, get-put id j c captures, tracked.open_is_active j d, str_eq_sound id j);
            active_is_open = λ j active. rw (← some_injective active) (
              c,
              get-put_self id c captures,
              build_is_open id session_id time who source tempo meter provenance built,
            );
          };
    closes = λ captures sequence id c d time state faults warnings tracked found closed. record {
      open_is_active = λ j e there recording. ground (
        arith,
        get-put id j d captures,
        tracked.open_is_active j e,
        str_eq_refl j,
        close_is_closed c time state faults warnings closed,
      );
      active_is_open = λ j active. cc;
    };
    grows = λ captures sequence id c d event tracked found _ grown. record {
      open_is_active = λ j e there recording.
          ground (arith, get-put id j d captures, tracked.open_is_active j e, str_eq_sound id j);
      active_is_open = λ j active.
          rw (← some_injective active)
            (d, get-put_self id d captures, (append_is_open c (event ∷ []) grown).1);
    };
    skips = λ captures active sequence tracked. record {
      open_is_active = tracked.open_is_active;
      active_is_open = tracked.active_is_open;
    };
  }

  anywhere : (o : Option Str) → AllowedId Anywhere o
  anywhere none = tt
  anywhere (some id) = tt

  everywhere : (operations : List Operation) → All (Respects Anywhere) operations
  everywhere [] = tt
  everywhere (operation ∷ operations) = (anywhere (opened_id operation), everywhere operations)

  -- After any sequence of calls on a new runtime, each of which may have raised: the active capture
  -- is stored and in progress, and no other stored capture is in progress.
  pub run_all-Tracked :
      (scenario : Scenario) (runtime_id date : Str) (origin : ℕ) (operations : List Operation)
      → On Tracked (run_all operations (new_fake_runtime scenario runtime_id origin date))
  unfolding new_fake_runtime get
  run_all-Tracked scenario runtime_id date origin operations =
      run_all-Keeps Tracked Anywhere Tracked-Stable operations _ (everywhere operations)
        (record { open_is_active = λ id c found _. cc; active_is_open = λ id active. cc })

-- What a capture is when it is found again: the same if it was closed, and otherwise with the events
-- that it had, in their order, followed by later ones.
abbrev pub Survives : Str → Capture → CapturePredicate
Survives id c captures active sequence =
    (d : Capture) × (get id captures ≡ some d)
    × (is_closed c ≡ true → d ≡ c)
    × ((more : List CapturedEvent) × (d.events ≡ c.events ++ more))

abbrev pub Elsewhere : Str → Str → Type 0
Elsewhere id other = str_eq other id ≡ false

module _ ⦃iso : Iso8601⦄ (kept : Str) (c : Capture) where
  same_capture :
      (captures : Dict Str Capture) (id : Str) (current d : Capture)
      → str_eq id kept ≡ true
      → get id captures ≡ some current
      → get kept captures ≡ some d
      → current ≡ d
  same_capture captures id current d same found there =
      some_injective (sym found ∙ ap (λ k. get k captures) (str_eq_sound id kept same) ∙ there)

  -- A capture in progress is replaced by one that has its events and more.
  replaced :
      (captures : Dict Str Capture) (active later : Option Str) (before after : ℕ) (id : Str)
      (current d : Capture) (more : List CapturedEvent)
      → Survives kept c captures active before
      → get id captures ≡ some current
      → is_closed current ≡ false
      → d.events ≡ current.events ++ more
      → Survives kept c (put id d captures) later after
  replaced captures active later before after id current d more h found recording grown =
      elim (Bool-cases (str_eq id kept)) [
        | inr other ↦ (h.0, get-put_ne id kept d captures other ∙ h.1, h.2, h.3)
        | inl same ↦ (
          d,
          get-put id kept d captures ∙ rw same refl,
          λ final. ground (arith, h.2 final, same_capture captures id current h.0 same found h.1),
          (
            h.3.0 ++ more,
            grown
                ∙ ap (λ x. x.events ++ more) (same_capture captures id current h.0 same found h.1)
                ∙ ap (λ x. x ++ more) h.3.1
                ∙ append_assoc c.events h.3.0 more,
          ),
        )
      ]

  Survives-Stable : Stable (Survives kept c) (Elsewhere kept)
  Survives-Stable = record {
    opens = λ captures sequence id _ _ _ _ _ _ _ opened elsewhere h built.
        (h.0, get-put_ne id kept opened captures elsewhere ∙ h.1, h.2, h.3);
    closes = λ captures sequence id current d time state faults warnings h found closed.
        replaced captures (some id) none sequence sequence id current d [] h found
          (close_is_closed current time state faults warnings closed).0
          (ground (
            arith,
            close_is_closed current time state faults warnings closed,
            append-nil current.events,
          ));
    grows = λ captures sequence id current d event h found _ grown.
        replaced captures (some id) (some id) sequence (suc sequence) id current d (event ∷ []) h
          found (append_is_open current (event ∷ []) grown).0
          (append_is_open current (event ∷ []) grown).2;
    skips = λ captures active sequence h. h;
  }

  -- A capture that is stored under `kept` is, after any calls of which none opens a capture under
  -- that id, still stored there: unchanged if it was closed, and otherwise with its events followed
  -- by later ones.
  pub run_all-Survives :
      (r : FakeRuntime) (operations : List Operation)
      → get kept r.captures ≡ some c
      → All (Respects (Elsewhere kept)) operations
      → On (Survives kept c) (run_all operations r)
  run_all-Survives r operations found elsewhere =
      run_all-Keeps (Survives kept c) (Elsewhere kept) Survives-Stable operations r elsewhere
        (c, found, λ _. refl, ([], sym (append-nil c.events)))

-- Sequence numbers increase strictly and times do not decrease, after an event `p`.
abbrev pub FollowInOrder : CapturedEvent → List CapturedEvent → Type 0
FollowInOrder p [] = Unit
FollowInOrder p (e ∷ es) =
    (p.sequence_number < e.sequence_number)
    × (leb_ℤ p.capture_time_ns e.capture_time_ns ≡ true)
    × FollowInOrder e es

abbrev pub InOrder : List CapturedEvent → Type 0
InOrder [] = Unit
InOrder (e ∷ es) = FollowInOrder e es

-- The events of every stored capture are in order, under sequence numbers that are used up.
abbrev pub Ordered : CapturePredicate
Ordered captures active sequence =
    (id : Str) (c : Capture)
    → get id captures ≡ some c
    → InOrder c.events × All (λ e. e.sequence_number < sequence) c.events

check_order-FollowInOrder :
    (p : CapturedEvent) (es : List CapturedEvent) → check_order p es ≡ ok tt → FollowInOrder p es
unfolding check_order
check_order-FollowInOrder p [] h = tt
check_order-FollowInOrder p (e ∷ es) h =
    (ground arith, ground arith, check_order-FollowInOrder e es (ground arith))

validated :
    (c : Capture) (es : List CapturedEvent) → c.events ≡ es → validate_events c ≡ ok tt → InOrder es
unfolding validate_events
validated c [] same h = tt
validated c (e ∷ es) same h = check_order-FollowInOrder e es (ground (arith, same))

module _ ⦃iso : Iso8601⦄ where
  append-InOrder :
      (c : Capture) (events : List CapturedEvent) {d : Capture}
      → append_events c events ≡ ok d
      → InOrder d.events
  unfolding append_events new_capture
  append-InOrder c events {d = d} h = validated d d.events refl (ground arith)

  pub build_is_empty :
      (id session_id time : Str) (who : RuntimeIdentity) (source : CaptureSource) (tempo : ℕ)
      (meter : Meter) (provenance : List (Str × Str)) {c : Capture}
      → build_raw_capture id session_id who source time tempo meter provenance ≡ ok c
      → c.events ≡ []
  unfolding build_raw_capture
  build_is_empty id session_id time who source tempo meter provenance h =
      ap (λ c. c.events) (new_capture-same _ _ h)

  -- A capture put among ordered ones is ordered if its events are.
  put-Ordered :
      (captures : Dict Str Capture) (active : Option Str) (sequence : ℕ) (id : Str) (d : Capture)
      → Ordered captures active sequence
      → InOrder d.events
      → All (λ e. e.sequence_number < sequence) d.events
      → Ordered (put id d captures) active sequence
  put-Ordered captures active sequence id d ordered here below j e there =
      elim (Bool-cases (str_eq id j)) [
        | inl same ↦
            subst
              (λ (x : Capture). InOrder x.events × All (λ e. e.sequence_number < sequence) x.events)
              (some_injective (
                sym (get-put id j d captures ∙ ap (λ b. if b then some d else get j captures) same)
                ∙ there))
              (here, below)
        | inr other ↦ ordered j e (sym (get-put_ne id j d captures other) ∙ there)
      ]

  skipped-Ordered :
      (captures : Dict Str Capture) (active : Option Str) (sequence : ℕ)
      → Ordered captures active sequence
      → Ordered captures active (suc sequence)
  skipped-Ordered captures active sequence ordered id c found =
      ((ordered id c found).0, All-imp _ _ (λ e lt. omega arith) c.events (ordered id c found).1)

  Ordered-Stable : Stable Ordered Anywhere
  Ordered-Stable = record {
    opens =
        λ captures sequence id session_id time who source tempo meter provenance c _ ordered built.
          let empty =
            sym (build_is_empty id session_id time who source tempo meter provenance built) in
          put-Ordered captures none sequence id c ordered (subst InOrder empty tt)
            (subst (All (λ e. e.sequence_number < sequence)) empty tt);
    closes = λ captures sequence id c d time state faults warnings ordered found closed.
        let same = sym (close_is_closed c time state faults warnings closed).2 in
        put-Ordered captures none sequence id d ordered (subst InOrder same (ordered id c found).0)
          (subst (All (λ e. e.sequence_number < sequence)) same (ordered id c found).1);
    grows = λ captures sequence id c d event ordered found numbered grown.
        let later = skipped-Ordered captures (some id) sequence ordered in
        put-Ordered captures (some id) (suc sequence) id d later
          (append-InOrder c (event ∷ []) grown)
          (subst (All (λ e. e.sequence_number < suc sequence))
            (sym (append_is_open c (event ∷ []) grown).2)
            (All-append _ c.events (event ∷ []) (later id c found).1
              (omega (arith, numbered), tt)));
    skips = λ captures active sequence ordered. skipped-Ordered captures active sequence ordered;
  }

  -- After any sequence of calls on a new runtime, the events of every stored capture have strictly
  -- increasing sequence numbers, all of them below the runtime's next one, and times that do not
  -- decrease.
  pub run_all-Ordered :
      (scenario : Scenario) (runtime_id date : Str) (origin : ℕ) (operations : List Operation)
      → On Ordered (run_all operations (new_fake_runtime scenario runtime_id origin date))
  unfolding new_fake_runtime get
  run_all-Ordered scenario runtime_id date origin operations =
      run_all-Keeps Ordered Anywhere Ordered-Stable operations _ (everywhere operations)
        (λ id c found. cc)
