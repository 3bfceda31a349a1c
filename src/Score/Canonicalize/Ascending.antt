-- ===== src/Score/Canonicalize/Ascending.antt =====
-- core/score/canonicalize.py: the canonical order of events, in words.
use mathlib.Core.List.{Perm}
use mathlib.Core.Logic.{∥∥₁_elim}
use master_all_strings.Prelude.{
  ◌<◌, List, [], ◌∷◌, true, Option, none, some, map, ok, ◌≡◌, ◌≢◌, refl, ap, ◌∙◌, arith, Bool-cases,
  inl, inr, ◌⊎◌, all_distinct, not_contains-All, all_distinct-permᴰ, Str_eq, All, ltb,
}
use master_all_strings.Prelude.Text.{Str}
use master_all_strings.Prelude.Order.{
  str_leb, str_leb_antisymm, str_total, on, by_number, by_text, then_by,
}
use master_all_strings.Prelude.Sort.{sort, IsSorted, sort-perm, sort-IsSorted}
use master_all_strings.Events.{MusicalEvent}
use master_all_strings.Score.Canonicalize.{event_order, voiced, voice_text, canonicalize_events}
use master_all_strings.Score.Canonicalize.Laws.{bool_set}

-- Unvoiced events come first, and voices follow the order of their names.
pub data VoicePrecedes : Option Str → Option Str → Type 0 where
  unvoiced : {w : Str} → VoicePrecedes none (some w)
  named : {v w : Str} → v ≢ w → str_leb v w ≡ true → VoicePrecedes (some v) (some w)

-- The first event starts earlier; or it starts with the other and its voice comes first; or it is in
-- the same voice and lower, or as high and shorter, or as long and its id comes first.
pub data Precedes (a b : MusicalEvent) : Type 0 where
  earlier : a.start_tick < b.start_tick → Precedes a b
  voice_first : a.start_tick ≡ b.start_tick → VoicePrecedes a.voice_id b.voice_id → Precedes a b
  lower :
      a.start_tick ≡ b.start_tick
      → a.voice_id ≡ b.voice_id
      → a.midi_note < b.midi_note
      → Precedes a b
  shorter :
      a.start_tick ≡ b.start_tick
      → a.voice_id ≡ b.voice_id
      → a.midi_note ≡ b.midi_note
      → a.duration_ticks < b.duration_ticks
      → Precedes a b
  id_first :
      a.start_tick ≡ b.start_tick
      → a.voice_id ≡ b.voice_id
      → a.midi_note ≡ b.midi_note
      → a.duration_ticks ≡ b.duration_ticks
      → a.event_id ≢ b.event_id
      → str_leb a.event_id b.event_id ≡ true
      → Precedes a b

-- Every event precedes all that stand behind it.
abbrev pub Ascends : List MusicalEvent → Type 0
Ascends [] = Unit
Ascends (a ∷ as') = All (Precedes a) as' × Ascends as'

str_leb_refl : (s : Str) → str_leb s s ≡ true
str_leb_refl s = ground (arith, str_total s s)

-- Two voices are one, or the order of the key decides between them.
voices :
    (v w : Option Str)
    → (then_by (on voiced by_number) (on voice_text by_text)).le? v w ≡ true
    → VoicePrecedes v w ⊎ (v ≡ w)
voices none none h = inr refl
voices none (some w) h = inl unvoiced
voices (some v) none h = ground (arith, h)
voices (some v) (some w) h = elim (Bool-cases (str_leb w v)) [
  | inl back ↦ inr (ap some (str_leb_antisymm v w (ground (arith, h)) back))
  | inr strict ↦ inl (named (λ e. cc) (ground (arith, h)))
]

-- What the components of the key behind the start and the voice say.
later_keys :
    (a b : MusicalEvent)
    → a.start_tick ≡ b.start_tick
    → a.voice_id ≡ b.voice_id
    → a.event_id ≢ b.event_id
    → (then_by (on (λ (event : MusicalEvent). event.midi_note) by_number) (
          then_by
            (on (λ event. event.duration_ticks) by_number)
            (on (λ event. event.event_id) by_text))).le?
        a b
      ≡ true
    → Precedes a b
later_keys a b start voice apart h = elim (Bool-cases (ltb a.midi_note b.midi_note)) [
  | inl low ↦ lower start voice (ground (arith, low))
  | inr high ↦
      let note : a.midi_note ≡ b.midi_note = ground (arith, h, high) in
      elim (Bool-cases (ltb a.duration_ticks b.duration_ticks)) [
        | inl short ↦ shorter start voice note (ground (arith, short))
        | inr long ↦
            id_first start voice note (ground (arith, h, high, long)) apart
              (ground (arith, h, high, long))
      ]
]

precedes :
    (a b : MusicalEvent) → a.event_id ≢ b.event_id → event_order.le? a b ≡ true → Precedes a b
precedes a b apart h = elim (Bool-cases (ltb a.start_tick b.start_tick)) [
  | inl early ↦ earlier (ground (arith, early))
  | inr late ↦
      let start : a.start_tick ≡ b.start_tick = ground (arith, h, late) in
      elim (voices a.voice_id b.voice_id (ground (arith, h, late))) [
        | inl first ↦ voice_first start first
        | inr voice ↦ later_keys a b start voice apart (
            ground (
              arith,
              h,
              late,
              start,
              ap voiced voice,
              ap (λ v. str_leb (voice_text v) (voice_text a.voice_id)) voice,
              str_leb_refl (voice_text a.voice_id),
            ))
      ]
]

ascends :
    (as' : List MusicalEvent)
    → IsSorted event_order as'
    → all_distinct (map (λ (event : MusicalEvent). event.event_id) as') ≡ true
    → Ascends as'
unfolding all_distinct
ascends [] sorted distinct = tt
ascends (a ∷ as') (first, sorted) distinct = (
  All-both as' first (
      not_contains-All (λ (event : MusicalEvent). event.event_id) a.event_id as'
        (ground (arith, distinct))),
  ascends as' sorted (ground (arith, distinct)),
)
  where
    All-both :
        (bs : List MusicalEvent)
        → All (λ b. event_order.le? a b ≡ true) bs
        → All (λ b. a.event_id ≢ b.event_id) bs
        → All (Precedes a) bs
    All-both [] le apart = tt
    All-both (b ∷ bs) le apart = (precedes a b apart.0 le.0, All-both bs le.1 apart.1)

-- Events of which no two share an id are accepted, and the canonical events are the submitted ones in
-- an order in which each precedes all behind it: by start; in one start the unvoiced before the voiced,
-- and these by the name of the voice; in one voice by pitch, then by duration, then by id.
pub canonicalize_events-ok :
    (xs : List MusicalEvent)
    → all_distinct (map (λ (event : MusicalEvent). event.event_id) xs) ≡ true
    → (ys : List MusicalEvent) × (canonicalize_events xs ≡ ok ys) × Ascends ys × Perm ys xs
unfolding canonicalize_events
canonicalize_events-ok xs h =
    let ys = sort event_order xs in
    let same : all_distinct (map (λ (event : MusicalEvent). event.event_id) ys)
        ≡ all_distinct (map (λ (event : MusicalEvent). event.event_id) xs) =
      ∥∥₁_elim (sort-perm event_order xs) (bool_set _ _)
        (all_distinct-permᴰ (λ (event : MusicalEvent). event.event_id)) in
    (ys, rw h, ascends ys (sort-IsSorted event_order xs) (same ∙ h), sort-perm event_order xs)
