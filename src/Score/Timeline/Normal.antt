-- ===== src/Score/Timeline/Normal.antt =====
-- What `normalize_tempo_map` of core/score/musical_timeline.py returns.
use master_all_strings.Prelude.{
  ℕ, ◌≤◌, ◌<◌, List, [], ◌∷◌, All, ◌≡◌, refl, sym, ◌∙◌, arith, Result, ok, err, ◌>>◌, Option, none,
  some, ℕ_eq,
}
use master_all_strings.Prelude.Dict.{Dict, get, put, All-put}
use master_all_strings.Prelude.Sort.{sort, sort-IsSorted, All-sort}
use master_all_strings.Score.Errors.{ScoreError}
use master_all_strings.Score.Tempo.{TempoChange}
use master_all_strings.Score.Timing.{require_convertible_tempo}
use master_all_strings.Score.Timeline.{
  normalize_tempo_map, last_writer_wins, covering_zero, require_convertible,
}
use master_all_strings.Score.Timeline.Spec.{IsAscending}
use master_all_strings.Score.Timeline.Entries.{
  find_tick, last_change, or_else, Entry, by_key, last_writer_wins-keys, get-last_writer_wins,
  get-sort, sort-HasUniqueKeys, values, find_tick-values, values-IsAscending,
}

abbrev pub IsPositive : List TempoChange → Type 0
IsPositive = All (λ c. 0 < c.microseconds_per_quarter)

require_convertible-ok : (cs : List TempoChange) → IsPositive cs → require_convertible cs ≡ ok tt
unfolding require_convertible require_convertible_tempo
require_convertible-ok [] h = refl
require_convertible-ok (c ∷ cs) h = ground (arith, require_convertible-ok cs h.1, h.0)

require_convertible-IsPositive :
    (cs : List TempoChange) → require_convertible cs ≡ ok tt → IsPositive cs
unfolding require_convertible require_convertible_tempo
require_convertible-IsPositive [] h = tt
require_convertible-IsPositive (c ∷ cs) h =
    (ground arith, require_convertible-IsPositive cs (ground arith))

-- The entries of the map, sorted.
abbrev ordered : List TempoChange → List TempoChange
ordered cs = values (sort by_key (last_writer_wins [] cs))

abbrev pub IsAtZero : List TempoChange → Type 0
IsAtZero [] = ⊥
IsAtZero (c ∷ rest) = c.tick ≡ 0

covering_zero-ok : (m n : List TempoChange) → covering_zero m ≡ ok n → (m ≡ n) × IsAtZero n
unfolding covering_zero
covering_zero-ok [] n h = cc
covering_zero-ok (c ∷ m) [] h = (ground arith, ground arith)
covering_zero-ok (c ∷ m) (b ∷ n) h = (ground arith, ground arith)

All-last_writer_wins :
    (P : TempoChange → Type 0) (d : Dict ℕ TempoChange) (cs : List TempoChange)
    → All (λ (entry : Entry). P entry.1) d
    → All P cs
    → All (λ (entry : Entry). P entry.1) (last_writer_wins d cs)
unfolding last_writer_wins
All-last_writer_wins P d [] hd h = hd
All-last_writer_wins P d (c ∷ cs) hd h =
    All-last_writer_wins P (put c.tick c d) cs (All-put _ c.tick c d (λ j same. h.0) hd) h.1

All-values :
    (P : TempoChange → Type 0) (d : List Entry)
    → All (λ (entry : Entry). P entry.1) d
    → All P (values d)
All-values P [] h = tt
All-values P ((k, c) ∷ d) h = (h.0, All-values P d h.1)

-- A property of all the changes holds of all that stay.
All-ordered : (P : TempoChange → Type 0) (cs : List TempoChange) → All P cs → All P (ordered cs)
All-ordered P cs h = All-values P _ (All-sort by_key _ _ (All-last_writer_wins P [] cs tt h))

ordered-IsAscending : (cs : List TempoChange) → IsAscending (ordered cs)
ordered-IsAscending cs =
    let keys = last_writer_wins-keys [] cs tt tt in
    values-IsAscending _ (sort-IsSorted by_key _) (sort-HasUniqueKeys _ keys.0)
      (All-sort by_key _ _ keys.1)

find_tick-ordered : (t : ℕ) (cs : List TempoChange) → find_tick t (ordered cs) ≡ last_change t cs
unfolding get
find_tick-ordered t cs =
    let keys = last_writer_wins-keys [] cs tt tt in
    find_tick-values t _ (All-sort by_key _ _ keys.1)
    ∙ get-sort t _ keys.0
    ∙ get-last_writer_wins t [] cs
    ∙ or_else-none (last_change t cs)
  where
    or_else-none : (o : Option TempoChange) → or_else o (get t []) ≡ o
    or_else-none none = refl
    or_else-none (some c) = refl

normalize_tempo_map-cons :
    (c : TempoChange) (cs : List TempoChange)
    → normalize_tempo_map (c ∷ cs)
      ≡ (require_convertible (c ∷ cs) >> covering_zero (ordered (c ∷ cs)))
unfolding normalize_tempo_map
normalize_tempo_map-cons c cs = refl

normalize_tempo_map-nil : {m : List TempoChange} → normalize_tempo_map [] ≡ ok m → ⊥
unfolding normalize_tempo_map
normalize_tempo_map-nil h = cc

>>-eq-ok :
    {A : Type 0} (r : Result ScoreError (Unit {0})) (k : Result ScoreError A) {a : A}
    → (r >> k) ≡ ok a
    → (r ≡ ok tt) × (k ≡ ok a)
>>-eq-ok (ok tt) k h = (refl, h)
>>-eq-ok (err e) k h = (cc, cc)

-- A tempo map that is accepted has strictly ascending ticks, begins at tick 0, has only positive
-- tempos, and holds for every tick the last change that was submitted for it, and no other.
pub normalize_tempo_map-ok :
    (cs m : List TempoChange)
    → normalize_tempo_map cs ≡ ok m
    → IsAscending m × IsAtZero m × IsPositive m × ((t : ℕ) → find_tick t m ≡ last_change t cs)
normalize_tempo_map-ok [] m h = absurd (normalize_tempo_map-nil h)
normalize_tempo_map-ok (c ∷ cs) m h =
    let (valid, covered) = >>-eq-ok _ _ (sym (normalize_tempo_map-cons c cs) ∙ h) in
    let (same, zero_first) = covering_zero-ok (ordered (c ∷ cs)) m covered in
    rw (← same) (
      ordered-IsAscending (c ∷ cs),
      rw same zero_first,
      All-ordered _ (c ∷ cs) (require_convertible-IsPositive (c ∷ cs) valid),
      λ t. find_tick-ordered t (c ∷ cs),
    )

find_tick-above :
    (k t : ℕ) (m : List TempoChange) → t ≤ k → All (λ n. k < n.tick) m → find_tick t m ≡ none
unfolding find_tick
find_tick-above k t [] le h = refl
find_tick-above k t (c ∷ m) le h = ground (arith, find_tick-above k t m le h.1, h.0)

covering_zero-total :
    (m : List TempoChange) {c : TempoChange}
    → IsAscending m
    → find_tick 0 m ≡ some c
    → covering_zero m ≡ ok m
unfolding covering_zero find_tick
covering_zero-total [] asc e = cc
covering_zero-total (b ∷ m) asc e = ground (arith, find_tick-above b.tick 0 m (omega arith) asc.0)

-- Tempo changes of positive tempos, one of which is at tick 0, are accepted.
pub normalize_tempo_map-total :
    (cs : List TempoChange) {c : TempoChange}
    → IsPositive cs
    → last_change 0 cs ≡ some c
    → (m : List TempoChange) × (normalize_tempo_map cs ≡ ok m)
unfolding last_change
normalize_tempo_map-total [] h e = absurd (cc)
normalize_tempo_map-total (b ∷ cs) h e = (
  ordered (b ∷ cs),
  normalize_tempo_map-cons b cs
      ∙ rw (require_convertible-ok (b ∷ cs) h) (
          covering_zero-total (ordered (b ∷ cs)) (ordered-IsAscending (b ∷ cs))
            (find_tick-ordered 0 (b ∷ cs) ∙ e)),
)
