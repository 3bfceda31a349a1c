-- ===== src/Score/Canonicalize/Laws.antt =====
-- The canonical order of core/score/canonicalize.py does not depend on how content was submitted.
use mathlib.Core.List.{Perm}
use mathlib.Core.Logic.{∥∥₁_elim}
use master_all_strings.Prelude.{
  List, [], ◌∷◌, Bool, map, Result, ok, require, ◌>>◌, ◌≡◌, ap, arith, Bool-cases, inl, inr,
  all_distinct, not_contains-All, all_distinct-permᴰ, Str_eq, ℕ_eq, Eq, true, All-imp,
}
use master_all_strings.Prelude.Order.{Order, tied, str_leb_antisymm}
use master_all_strings.Prelude.Sort.{sort, IsUntied, sort-eq_of_perm}
use master_all_strings.Events.{MusicalEvent}
use master_all_strings.Score.Errors.{ScoreError, duplicates}
use master_all_strings.Score.Tempo.{TempoChange}
use master_all_strings.Score.Canonicalize.{
  event_order, tempo_order, canonicalize_events, canonicalize_tempo_changes,
}

-- `sorted` after a check that no two keys are the same.
abbrev checked_sort :
    {A B : Type 0} ⦃e : Eq B⦄ → (A → B) → Order A → ScoreError → List A → Result ScoreError (List A)
checked_sort key o error xs = do require (all_distinct (map key xs)) error; ok (sort o xs)

pub bool_set : IsSet Bool
bool_set = hlevel

MusicalEvent-set : IsSet MusicalEvent
MusicalEvent-set = hlevel

TempoChange-set : IsSet TempoChange
TempoChange-set = hlevel

module _ {A B : Type 0} ⦃e : Eq B⦄ (key : A → B) (o : Order A) (error : ScoreError)
    (key_of_tied : (a b : A) → tied o a b ≡ true → key a ≡ key b) where
  IsUntied-of_distinct : (xs : List A) → all_distinct (map key xs) ≡ true → IsUntied o xs
  unfolding all_distinct
  IsUntied-of_distinct [] h = tt
  IsUntied-of_distinct (x ∷ xs) h = (
    All-imp _ _
        (λ y ne. elim (Bool-cases (tied o x y)) [
          | inl t ↦ absurd (ne (key_of_tied x y t))
          | inr f ↦ f
        ])
        xs (not_contains-All key (key x) xs (ground arith)),
    IsUntied-of_distinct xs (ground arith),
  )

  checked_sort-perm :
      IsSet A
      → (xs ys : List A) → Perm xs ys
      → checked_sort key o error xs ≡ checked_sort key o error ys
  checked_sort-perm is_set xs ys p =
      let same : all_distinct (map key xs) ≡ all_distinct (map key ys) =
        ∥∥₁_elim p (bool_set _ _) (all_distinct-permᴰ key) in
      elim (Bool-cases (all_distinct (map key xs))) [
        | inl d ↦
            rw (← same, d) (ap ok (sort-eq_of_perm o is_set xs ys p (IsUntied-of_distinct xs d)))
        | inr d ↦ rw (← same, d)
      ]

-- Events that tie in every component of the key have one id.
event_id_of_tied : (a b : MusicalEvent) → tied event_order a b ≡ true → a.event_id ≡ b.event_id
event_id_of_tied a b h = ground (arith, str_leb_antisymm a.event_id b.event_id)

tick_of_tied : (a b : TempoChange) → tied tempo_order a b ≡ true → a.tick ≡ b.tick
tick_of_tied a b h = ground arith

-- Two submissions of the same events in different orders are canonicalized to the same events in
-- the same order, or are refused alike.
pub canonicalize_events-perm :
    (xs ys : List MusicalEvent) → Perm xs ys → canonicalize_events xs ≡ canonicalize_events ys
unfolding canonicalize_events
canonicalize_events-perm =
    checked_sort-perm (λ event. event.event_id) event_order (duplicates "event_id") event_id_of_tied
      MusicalEvent-set

-- Two submissions of the same tempo changes in different orders are canonicalized to the same changes
-- in the same order, or are refused alike.
pub canonicalize_tempo_changes-perm :
    (xs ys : List TempoChange)
    → Perm xs ys
    → canonicalize_tempo_changes xs ≡ canonicalize_tempo_changes ys
unfolding canonicalize_tempo_changes
canonicalize_tempo_changes-perm =
    checked_sort-perm (λ change. change.tick) tempo_order (duplicates "tempo_changes tick")
      tick_of_tied TempoChange-set
